-- ===== src/Generate/Listing.antt =====
-- The list that one run of the batch leaves for a user.
use mathlib.Core.List.{Mem}
use mathlib.Core.List.Permᴰ
use recommendation_service.Base.Sort.{sort-perm, All-perm}
use recommendation_service.Base.{
  All-both, All-take, All-filter, All-Mem, ℕ, ◌+◌, ◌≤◌, ◌≡◌, refl, Bool, true, false, Option, none,
  some, List, [], ◌∷◌, map, arith, if◌then◌else◌, nat_eq, All, All-imp, subst, inl, inr, Bool-cases,
}
use recommendation_service.Base.Dict.{Dict, values, update}
use recommendation_service.Base.Effects.{ok, and_then-eq_ok, Result-cases}
use recommendation_service.Base.Text.{Text, is_empty}
use recommendation_service.Catalog.{GameProfile}
use recommendation_service.Generate.{
  explanation_request, Stamps, Explanations, GenerateConfig, with_reasons, explained,
  recommendation, recommend, ranked, refreshed,
}
use recommendation_service.Embedding.Dense.{DenseEmbedding}
use recommendation_service.Embedding.Dense
use recommendation_service.Preference.{UserPreference, owns, rebuild, rebuilt_in}
use recommendation_service.Store.Repositories.{upsert_preference, recommendable}
use recommendation_service.Recommendation.{Recommendation, checked}
use recommendation_service.Runtime.{Runtime}
use recommendation_service.Runtime.Laws.{Ordered}
use recommendation_service.Scoring.{ScoredGame, blended, rank, more_popular}
use recommendation_service.Scoring.Rank.{rank-Suggested, rank-All}
use recommendation_service.Store.{UnitOfWork}

module _ {F : Type 0} ⦃r : Runtime F⦄ where
  -- What the ranker makes sure of.
  abbrev pub Fit : UserPreference F → ScoredGame F → Type 0
  Fit p item =
      (item.game.is_published ≡ true)
      × (owns p item.game.game_id ≡ false)
      × (r.le (blended item) (r.lit 0 0) ≡ false)

  -- The recommendations of a list of scored games, ranked one after another from `rank`.
  abbrev pub Lists : ℕ → Stamps → ℕ → List (ScoredGame F) → List (Recommendation F) → Type 0
  Lists user_id stamps rank [] [] = Unit
  Lists user_id stamps rank [] (i ∷ items) = ⊥
  Lists user_id stamps rank (g ∷ scored) [] = ⊥
  Lists user_id stamps rank (g ∷ scored) (i ∷ items) =
      (i ≡ recommendation user_id stamps rank g) × Lists user_id stamps (rank + 1) scored items

  checked-eq_ok : (i j : Recommendation F) → checked i ≡ ok j → j ≡ i
  unfolding checked
  checked-eq_ok i j h = ground arith

  pub recommend-Lists :
      (user_id : ℕ) (stamps : Stamps) (rank : ℕ) (scored : List (ScoredGame F))
      (items : List (Recommendation F))
      → recommend user_id stamps rank scored ≡ ok items
      → Lists user_id stamps rank scored items
  unfolding recommend
  recommend-Lists user_id stamps rank [] [] h = tt
  recommend-Lists user_id stamps rank [] (i ∷ items) h = cc h
  recommend-Lists user_id stamps rank (g ∷ scored) items h =
      let (first, e, rest) = and_then-eq_ok (checked (recommendation user_id stamps rank g)) _ h in
      let (tail, e', last) = and_then-eq_ok (recommend user_id stamps (rank + 1) scored) _ rest in
      let whole : first ∷ tail ≡ items = ground arith in
      subst (Lists user_id stamps rank (g ∷ scored)) whole
        (checked-eq_ok _ first e, recommend-Lists user_id stamps (rank + 1) scored tail e')

  -- Where floats compare as numbers do, a list of fit games, numbered from 1 or later, always makes
  -- a list of recommendations: no check of `Recommendation` fails.
  recommend_ok :
      (o : Ordered F) (p : UserPreference F) (user_id : ℕ) (stamps : Stamps) (rank : ℕ)
      (scored : List (ScoredGame F))
      → 1 ≤ rank
      → All (Fit p) scored
      → (items : List (Recommendation F)) × (recommend user_id stamps rank scored ≡ ok items)
  unfolding recommend checked
  recommend_ok o p user_id stamps rank [] h fit = ([], refl)
  recommend_ok o p user_id stamps rank (g ∷ scored) h fit =
      let (items, e) = recommend_ok o p user_id stamps (rank + 1) scored (omega arith) fit.1 in
      (
        recommendation user_id stamps rank g ∷ items,
        rw e (
            ground
              (arith, o.le_lem (blended g) (r.lit 0 0), o.lt_lem (blended g) (r.lit 0 0), fit.0.2)),
      )

  -- What is said of the games and the scores of a list, and not of its reasons.
  module _ (Q : ScoredGame F → Type 0)
      (kept : (reasons : Dict ℕ (List Text)) (item : ScoredGame F)
        → Q item
        → Q (with_reasons reasons item)) where
    reasons-All :
        (reasons : Dict ℕ (List Text)) (scored : List (ScoredGame F))
        → All Q scored
        → All Q (map (with_reasons reasons) scored)
    reasons-All reasons [] h = tt
    reasons-All reasons (g ∷ scored) h = (kept reasons g h.0, reasons-All reasons scored h.1)

    -- Explanations change the reasons alone.
    pub explained-All :
        (explain : Option Explanations) (scored chosen : List (ScoredGame F))
        (played : List (GameProfile F))
        → All Q scored
        → explained explain scored played ≡ ok chosen
        → All Q chosen
    unfolding explained
    explained-All none scored chosen played fit h = subst (All Q) (ground arith) fit
    explained-All (some explain) scored chosen played fit h = elim (Bool-cases (is_empty scored)) [
      | inl e ↦ let same : scored ≡ chosen = cc (rw e at h) in subst (All Q) same fit
      | inr e ↦
          let (reasons, _, rest) =
            and_then-eq_ok (explain (explanation_request scored played)) _ (rw e at h) in
          reasons_either reasons rest
    ]
      where
        reasons_either :
            (reasons : Dict ℕ (List Text))
            → ok (if is_empty reasons then scored else map (with_reasons reasons) scored)
              ≡ ok chosen
            → All Q chosen
        reasons_either [] k = let same : scored ≡ chosen = cc k in subst (All Q) same fit
        reasons_either (x ∷ reasons) k =
            let same : map (with_reasons (x ∷ reasons)) scored ≡ chosen = cc k in
            subst (All Q) same (reasons-All (x ∷ reasons) scored fit)

  recommendable-stored :
      (limit : ℕ) (u : UnitOfWork F)
      → u.games ≡ []
      → All (λ g. Mem g (values u.store.games)) (recommendable limit u)
  unfolding recommendable update
  recommendable-stored limit u e =
      let stored : GameProfile F → Type 0 = λ g. Mem g (values u.store.games) in
      rw e (
        All-take stored limit _ (
          All-perm stored (Permᴰ.symm (sort-perm more_popular _))
            (All-filter stored (λ g. g.is_published) _ (All-Mem (values u.store.games)))))

  ranked-Fit :
      (config : GenerateConfig F) (user_id limit : ℕ) (p : UserPreference F) (u : UnitOfWork F)
      → All (Fit p) (ranked config user_id limit p u)
  unfolding ranked
  ranked-Fit config user_id limit p u =
      All-imp _ (Fit p) _ (λ g s. (s.on_sale, s.not_owned, s.scored))
        (rank-Suggested config.scorer p _ _ limit)

  -- The ranked games are stored ones, and fit.
  pub ranked-stored :
      (config : GenerateConfig F) (user_id limit : ℕ) (p : UserPreference F) (u : UnitOfWork F)
      → u.games ≡ []
      → All
          (λ item. Mem item.game (values u.store.games) × Fit p item)
          (ranked config user_id limit p u)
  unfolding ranked
  ranked-stored config user_id limit p u e =
      All-both (λ (item : ScoredGame F). Mem item.game (values u.store.games)) (Fit p) _
        (rank-All config.scorer p _ (λ g. Mem g (values u.store.games)) _ limit
          (recommendable-stored config.catalogue_limit u e))
        (ranked-Fit config user_id limit p u)

  rebuilt_in-owned :
      (p q : UserPreference F) (space : Dict ℕ (DenseEmbedding F))
      → rebuilt_in p space ≡ ok q
      → q.owned ≡ p.owned
  unfolding rebuilt_in
  rebuilt_in-owned p q space h =
      let (v, e, rest) = and_then-eq_ok (rebuild space Dense.empty p.history) _ h in ground arith

  pub refreshed-owned :
      (dense : Bool) (p q : UserPreference F) (played : List (GameProfile F)) (u v : UnitOfWork F)
      → refreshed dense p played u ≡ (ok q, v)
      → (q.owned ≡ p.owned)
        × (v.recommendations ≡ u.recommendations)
        × (v.events ≡ u.events)
        × (v.store ≡ u.store)
        × (v.games ≡ u.games)
  unfolding refreshed upsert_preference
  refreshed-owned false p q played u v h = ground arith
  refreshed-owned true p q played u v h =
      let space =
        map (λ (g : GameProfile F). let e : ℕ × DenseEmbedding F = (g.game_id, g.dense) in e)
          played in
      elim (Result-cases (rebuilt_in p space)) [
        | inl (q', e) ↦ ground (arith, rw e at h, rebuilt_in-owned p q' space e)
        | inr (x, e) ↦ cc (rw e at h)
      ]
