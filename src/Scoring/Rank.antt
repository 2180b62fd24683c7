-- ===== src/Scoring/Rank.antt =====
-- What the hybrid ranker selects, and that its answer does not depend on how the candidates came in.
use mathlib.Core.List.{Mem, Permᴰ, filter_map}
use mathlib.Core.List.Permᴰ
use recommendation_service.Base.{
  nat_beq, ◌||◌, ltb, leb, ℕ, ◌≡◌, ◌≢◌, refl, Bool, true, false, ◌&&◌, Option, some, List, [], ◌∷◌,
  map, arith, All, All-imp, All-take, All-Mem, Distinct, contains, nat_eq, ap, sym, subst, ◌∙◌,
  take, inl, inr,
}
use recommendation_service.Base.Dict.{Dict, Option-cases}
use recommendation_service.Base.Sort.{
  sort-perm, sort-perm_invariant, All-perm, Apart, Selects, take-sort-Selects, Selects-imp,
}
use recommendation_service.Catalog.{GameProfile}
use recommendation_service.Preference.{UserPreference, owns}
use recommendation_service.Runtime.{Runtime}
use recommendation_service.Runtime.Laws.{Ordered}
use recommendation_service.Scoring.{
  ContentScorer, ScoredGame, scored_game, score_candidates, scores, rank, ranks_before, blended,
}
use recommendation_service.Scoring.Order.{
  key_lt_iff, ranks_before_total, ranks_before_trans, ranks_before_ties,
}

-- A property that each kept element has by how it was kept.
All-filter_map {ℓ κ μ} :
    {A : Type ℓ} {B : Type κ} (f : A → Option B) (Q : B → Type μ) (xs : List A)
    → All (λ a. (b : B) → f a ≡ some b → Q b) xs
    → All Q (filter_map f xs)
unfolding filter_map
All-filter_map f Q [] h = tt
All-filter_map f Q (x ∷ xs) h = elim (Option-cases (f x)) [
  | inl e ↦ rw e (All-filter_map f Q xs h.1)
  | inr (b, e) ↦ rw e (h.0 b e, All-filter_map f Q xs h.1)
]

abbrev pub ids : {F : Type 0} → List (GameProfile F) → List ℕ
ids = map (λ g. g.game_id)

absent :
    {F : Type 0} (games : List (GameProfile F)) (id : ℕ)
    → contains (ids games) id ≡ false
    → All (λ g. g.game_id ≢ id) games
unfolding contains
absent [] id h = tt
absent (g ∷ games) id h = ((λ e. ground arith), absent games id (ground arith))

-- The better of two suggestions: the one of the higher blended score; at the same score the one that
-- sold more; at the same sales the one of the lower id.
abbrev pub better : {F : Type 0} ⦃r : Runtime F⦄ → ScoredGame F → ScoredGame F → Bool
better ⦃r⦄ a b =
    r.lt (blended b) (blended a)
    || (r.eq (blended a) (blended b)
        && (ltb b.game.purchase_count a.game.purchase_count
            || (nat_beq a.game.purchase_count b.game.purchase_count
                && leb a.game.game_id b.game.game_id)))

module _ {F : Type 0} ⦃r : Runtime F⦄ (scorer : ContentScorer F) (preference : UserPreference F)
    (co_purchases : Dict ℕ ℕ) where
  -- What every suggestion meets.
  pub record Suggested (candidates : List (GameProfile F)) (item : ScoredGame F) : Type 0 where
    pub candidate : Mem item.game candidates
    pub on_sale : item.game.is_published ≡ true
    pub not_owned : owns preference item.game.game_id ≡ false
    pub scored : r.le (blended item) (r.lit 0 0) ≡ false

  abbrev scored_with : List (GameProfile F) → List (ScoredGame F)
  scored_with = score_candidates scorer preference (scores co_purchases)

  scored_game-game :
      (game : GameProfile F) (item : ScoredGame F)
      → scored_game scorer preference (scores co_purchases) game ≡ some item
      → item.game ≡ game
  unfolding scored_game
  scored_game-game game item h = ground arith

  scored_game-Suggested :
      (candidates : List (GameProfile F)) (game : GameProfile F) (item : ScoredGame F)
      → Mem game candidates
      → scored_game scorer preference (scores co_purchases) game ≡ some item
      → Suggested candidates item
  unfolding scored_game
  scored_game-Suggested candidates game item m h = record {
    candidate = rw (scored_game-game game item h) m;
    on_sale = ground arith;
    not_owned = ground arith;
    scored = ground arith;
  }

  scored_with-Suggested :
      (candidates : List (GameProfile F)) → All (Suggested candidates) (scored_with candidates)
  unfolding score_candidates
  scored_with-Suggested candidates = All-filter_map _ (Suggested candidates) candidates (
      All-imp _ _ candidates (λ g m item h. scored_game-Suggested candidates g item m h)
        (All-Mem candidates))

  -- Every suggestion is a candidate that is on sale, that the user does not own, and whose blended
  -- score is not at most zero.
  pub rank-Suggested :
      (candidates : List (GameProfile F)) (limit : ℕ)
      → All (Suggested candidates) (rank scorer preference candidates co_purchases limit)
  unfolding rank
  rank-Suggested candidates limit = All-take _ limit _ (
      All-perm _ (Permᴰ.symm (sort-perm ranks_before (scored_with candidates)))
        (scored_with-Suggested candidates))

  -- What all candidates meet, the games of all suggestions meet.
  pub rank-All :
      (Q : GameProfile F → Type 0) (candidates : List (GameProfile F)) (limit : ℕ)
      → All Q candidates
      → All (λ item. Q item.game) (rank scorer preference candidates co_purchases limit)
  unfolding rank score_candidates
  rank-All Q candidates limit h = All-take _ limit _ (
      All-perm _ (Permᴰ.symm (sort-perm ranks_before (scored_with candidates))) (
        All-filter_map _ _ candidates
          (All-imp Q _ candidates (λ g q item e. subst Q (sym (scored_game-game g item e)) q) h)))

  module _ (o : Ordered F) where
    ranks_before-better : (a b : ScoredGame F) → ranks_before a b ≡ true → better a b ≡ true
    ranks_before-better a b h = ground (
      arith,
      key_lt_iff o (blended b) (blended a) b.game a.game,
      o.lt_lem (blended b) (blended a),
      o.eq_lem (blended a) (blended b),
    )

    -- Where floats compare as numbers do, the ranker returns the `limit` best of the scored
    -- candidates, fewer only where there are no more, in order: each is better than all that come
    -- after it and than all that are left out, by a higher blended score, or by more sales at the
    -- same score, or by the lower id at the same sales.
    pub rank-Selects :
        (candidates : List (GameProfile F)) (limit : ℕ)
        → Selects better limit
            (rank scorer preference candidates co_purchases limit)
            (scored_with candidates)
    unfolding rank
    rank-Selects candidates limit = Selects-imp ranks_before better ranks_before-better (
        take-sort-Selects ranks_before (ranks_before_total o) (ranks_before_trans o) limit
          (scored_with candidates))

    apart_of_ids :
        (a b : ScoredGame F)
        → a.game.game_id ≢ b.game.game_id
        → (ranks_before a b && ranks_before b a) ≡ false
    apart_of_ids a b h =
        not_both (ranks_before a b) (ranks_before b a) λ p q. h (ranks_before_ties o a b p q)
      where
        not_both : (p q : Bool) → (p ≡ true → q ≡ true → ⊥) → (p && q) ≡ false
        not_both true true k = absurd (k refl refl)
        not_both true false k = refl
        not_both false q k = refl

    scored_with-Apart :
        (candidates : List (GameProfile F))
        → Distinct (ids candidates)
        → Apart ranks_before (scored_with candidates)
    unfolding score_candidates filter_map
    scored_with-Apart [] h = tt
    scored_with-Apart (game ∷ candidates) h =
        elim (Option-cases (scored_game scorer preference (scores co_purchases) game)) [
          | inl e ↦ rw e (scored_with-Apart candidates h.1)
          | inr (b, e) ↦ rw e (
            All-filter_map _ _ candidates (
                All-imp _ _ candidates
                  (λ g ne item k. apart_of_ids b item (λ p. ne (
                    sym (ap (λ (x : GameProfile F). x.game_id) (scored_game-game g item k))
                    ∙ sym p
                    ∙ ap (λ (x : GameProfile F). x.game_id) (scored_game-game game b e))))
                  (absent candidates game.game_id h.0)),
            scored_with-Apart candidates h.1,
          )
        ]

    -- Where floats compare as numbers do, the order in which the candidates come in does not change
    -- the list, as long as no two of them have the same id.
    pub rank-perm_invariant :
        {xs ys : List (GameProfile F)} (limit : ℕ)
        → Permᴰ xs ys
        → Distinct (ids xs)
        → rank scorer preference xs co_purchases limit
          ≡ rank scorer preference ys co_purchases limit
    unfolding rank score_candidates
    rank-perm_invariant {xs} limit p h = ap (take limit) (
        sort-perm_invariant ranks_before (ranks_before_total o) (ranks_before_trans o)
          (Permᴰ.filter_map (scored_game scorer preference (scores co_purchases)) p)
          (scored_with-Apart xs h))
