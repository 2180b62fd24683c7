-- ===== src/Generate/Stored.antt =====
-- What one run of the batch leaves behind, whichever way it ends.
use mathlib.Core.List.{append-nil, Mem}
use recommendation_service.Base.{
  ℕ, ◌+◌, ◌≤◌, ◌≡◌, refl, true, false, ◌⊎◌, Option, none, some, List, [], ◌∷◌, ◌++◌, map, arith,
  if◌then◌else◌, nat_eq, length, All, All-imp, ◌∙◌, ap, sym, subst, inl, inr, Bool-cases,
  length-take,
}
use recommendation_service.Base.Dict.{values, Dict, lookup, put, update, get_or, lookup-put}
use recommendation_service.Base.Effects.{
  Result, Exec, ok, err, and_then-eq_ok, bind-eq_ok, ◌>>=◌, ◌>>◌, lift, modify, pure, continue,
}
use recommendation_service.Base.Text.{is_empty}
use recommendation_service.Catalog.{GameProfile}
use recommendation_service.Generate.{
  Stamps, Explanations, GenerateConfig, explanation_request, with_reasons, explained, recommend,
  ranked, refreshed, announce, enqueue, generate_warm, generate_cold, generate_body, generate,
}
use recommendation_service.Generate.Listing.{
  Fit, Lists, recommend-Lists, explained-All, ranked-stored, refreshed-owned,
}
use recommendation_service.Outbox.{OutboxRecord}
use recommendation_service.Outbox.Envelope.{letter_of}
use recommendation_service.Preference.{UserPreference, blank, is_cold, remembered_games}
use recommendation_service.Recommendation.{Recommendation, generated_event}
use recommendation_service.Runtime.{Runtime}
use recommendation_service.Scoring.{ScoredGame, rank}
use recommendation_service.Store.{
  MemoryStore, UnitOfWork, begin, commit, close, with_uow, add_letters,
}
use recommendation_service.Store.Repositories.{get_preference, by_ids, replace_for}

same_count : (m n : ℕ) → ok m ≡ ok n → n ≡ m
same_count m n h = ground arith

module _ {F : Type 0} where
  length-with_reasons :
      (explain : Option Explanations) (scored chosen : List (ScoredGame F))
      (played : List (GameProfile F))
      → explained explain scored played ≡ ok chosen
      → length chosen ≡ length scored
  unfolding explained
  length-with_reasons none scored chosen played h = ground arith
  length-with_reasons (some explain) scored chosen played h = elim (Bool-cases (is_empty scored)) [
    | inl e ↦ let same : scored ≡ chosen = cc (rw e at h) in ap length (sym same)
    | inr e ↦
        let (reasons, _, rest) =
          and_then-eq_ok (explain (explanation_request scored played)) _ (rw e at h) in
        either reasons rest
  ]
    where
      length-map :
          (f : ScoredGame F → ScoredGame F) (l : List (ScoredGame F)) → length (map f l) ≡ length l
      length-map f [] = refl
      length-map f (x ∷ l) = ground (arith, length-map f l)

      either :
          (reasons : Dict ℕ (List (List ℕ)))
          → ok (if is_empty reasons then scored else map (with_reasons reasons) scored) ≡ ok chosen
          → length chosen ≡ length scored
      either [] k = let same : scored ≡ chosen = cc k in ap length (sym same)
      either (x ∷ reasons) k =
          let same : map (with_reasons (x ∷ reasons)) scored ≡ chosen = cc k in
          ap length (sym same) ∙ length-map (with_reasons (x ∷ reasons)) scored

  run-eq_ok :
      (body : Exec (UnitOfWork F) ℕ) (s t : MemoryStore F) (n : ℕ)
      → with_uow (body >>= λ written. modify commit >> pure written) s ≡ (ok n, t)
      → (u : UnitOfWork F) × (body (begin s) ≡ (ok n, u)) × (t ≡ (commit u).store)
  unfolding with_uow close commit
  run-eq_ok body s t n h = from (body (begin s)) refl h
    where
      after : Result ℕ × UnitOfWork F → Result ℕ × MemoryStore F
      after x =
          let (result, uow) = continue (λ written. modify commit >> pure written) x in
          (result, (close uow).store)

      from :
          (x : Result ℕ × UnitOfWork F)
          → body (begin s) ≡ x
          → after x ≡ (ok n, t)
          → (u : UnitOfWork F) × (body (begin s) ≡ (ok n, u)) × (t ≡ (commit u).store)
      from (ok m, u) e k = (u, ground (arith, e), ground arith)
      from (err x, u) e k = cc k

module _ {F : Type 0} ⦃r : Runtime F⦄ where
  -- The letters that announce a list: none for an empty one.
  abbrev pub letters :
      GenerateConfig F → Stamps → ℕ → List (Recommendation F) → List (OutboxRecord F)
  letters config stamps user_id [] = []
  letters config stamps user_id (first ∷ rest) =
      letter_of config.topic config.correlation_id
        (generated_event user_id (first ∷ rest) stamps.event_id stamps.emitted_at)
      ∷ []

  -- A list that suits a user: at most `limit` games of the store that are on sale, that the user does
  -- not own and whose score is not at most zero, ranked from 1 in their order.
  pub record Suits (s : MemoryStore F) (p : UserPreference F) (stamps : Stamps) (user_id limit : ℕ)
      (items : List (Recommendation F)) : Type 0 where
    pub chosen : List (ScoredGame F)
    pub fit : All (λ (item : ScoredGame F). Mem item.game (values s.games) × Fit p item) chosen
    pub listed : Lists user_id stamps 1 chosen items
    pub bounded : length items ≤ limit

  Fit-owned :
      (p q : UserPreference F) → q.owned ≡ p.owned → (item : ScoredGame F) → Fit q item → Fit p item
  Fit-owned p q h item fit = ground (arith, fit, h)

  length-Lists :
      (user_id : ℕ) (stamps : Stamps) (k : ℕ) (chosen : List (ScoredGame F))
      (items : List (Recommendation F))
      → Lists user_id stamps k chosen items
      → length items ≡ length chosen
  length-Lists user_id stamps k [] [] h = refl
  length-Lists user_id stamps k [] (i ∷ items) h = elim h [ ]
  length-Lists user_id stamps k (g ∷ chosen) [] h = elim h [ ]
  length-Lists user_id stamps k (g ∷ chosen) (i ∷ items) h =
      ground (arith, length-Lists user_id stamps (k + 1) chosen items h.1)

  length-ranked :
      (config : GenerateConfig F) (user_id limit : ℕ) (p : UserPreference F) (u : UnitOfWork F)
      → length (ranked config user_id limit p u) ≤ limit
  unfolding ranked rank
  length-ranked config user_id limit p u = grind (arith, length-take)

  announce-ok :
      (config : GenerateConfig F) (stamps : Stamps) (user_id : ℕ) (items : List (Recommendation F))
      (u v : UnitOfWork F)
      → announce config stamps user_id items u ≡ (ok tt, v)
      → (v.events ≡ u.events ++ letters config stamps user_id items)
        × (v.recommendations ≡ u.recommendations)
        × (v.store ≡ u.store)
  unfolding announce enqueue
  announce-ok config stamps user_id [] u v h = ground (arith, append-nil u.events)
  announce-ok config stamps user_id (first ∷ rest) u v h = ground arith

  warm-writes :
      (config : GenerateConfig F) (stamps : Stamps) (user_id limit : ℕ) (p : UserPreference F)
      (s : MemoryStore F) (v : UnitOfWork F) (n : ℕ)
      → generate_warm config stamps user_id limit p (begin s) ≡ (ok n, v)
      → (items : List (Recommendation F)) × Suits s p stamps user_id limit items
        × (n ≡ length items)
        × (v.recommendations ≡ (user_id, items) ∷ [])
        × (v.events ≡ letters config stamps user_id items)
        × (v.store ≡ s)
  unfolding generate_warm replace_for put
  warm-writes config stamps user_id limit p s v n h =
      let played = by_ids (remembered_games p) (begin s) in
      let (q, u, r1, h1) = bind-eq_ok (refreshed config.dense_space p played) _ (begin s) v n h in
      let scored = ranked config user_id limit q u in
      let (chosen, u1, r2, h2) =
        bind-eq_ok (lift (explained config.explanations scored played)) _ u v n h1 in
      let (items, u2, r3, h3) = bind-eq_ok (lift (recommend user_id stamps 1 chosen)) _ u1 v n h2 in
      let (done, u3, r4, h4) =
        bind-eq_ok (announce config stamps user_id items) _ (replace_for user_id items u2) v n h3 in
      let kept = refreshed-owned config.dense_space p q played (begin s) u r1 in
      let chose : explained config.explanations scored played ≡ ok chosen = ap (λ x. x.0) r2 in
      let listed = recommend-Lists user_id stamps 1 chosen items (ap (λ x. x.0) r3) in
      let same : u ≡ u2 = ap (λ x. x.1) r2 ∙ ap (λ x. x.1) r3 in
      let last : u3 ≡ v = ap (λ x. x.1) h4 in
      let told = announce-ok config stamps user_id items (replace_for user_id items u2) u3 r4 in
      (
        items,
        record {
          chosen = chosen;
          fit =
              All-imp (λ item. Mem item.game (values s.games) × Fit q item) _ chosen
                (λ item h. (h.0, Fit-owned p q kept.0 item h.1))
                (explained-All (λ item. Mem item.game (values s.games) × Fit q item)
                  (λ reasons item h. h) config.explanations scored chosen played
                  (subst
                    (λ (x : MemoryStore F).
                      All (λ item. Mem item.game (values x.games) × Fit q item) scored)
                    kept.3 (ranked-stored config user_id limit q u kept.4))
                  chose);
          listed = listed;
          bounded = ground (
            arith,
            length-Lists user_id stamps 1 chosen items listed,
            length-with_reasons config.explanations scored chosen played chose,
            length-ranked config user_id limit q u,
          );
        },
        same_count (length items) n (ap (λ x. x.0) h4),
        ap (λ x. x.recommendations) (sym last)
            ∙ told.1
            ∙ ap (λ x. put user_id items x) (ap (λ x. x.recommendations) (sym same) ∙ kept.1),
        ap (λ x. x.events) (sym last)
            ∙ told.0
            ∙ ap (λ x. x ++ letters config stamps user_id items)
                (ap (λ x. x.events) (sym same) ∙ kept.2),
        ap (λ x. x.store) (sym last) ∙ told.2 ∙ ap (λ x. x.store) (sym same) ∙ kept.3,
      )

  -- The user's stored preference, or a blank one.
  abbrev pub known : ℕ → MemoryStore F → UserPreference F
  known user_id s = get_or (lookup user_id s.preferences) (blank user_id)

  -- What `generate` leaves behind in `t`: the user's list is `items`, which is empty for a user with
  -- no history and suits any other; `n` is its length; and the outbox of `s` has gained the letters
  -- that announce it.
  pub record Left (config : GenerateConfig F) (stamps : Stamps) (user_id limit : ℕ)
      (s t : MemoryStore F) (n : ℕ) : Type 0 where
    pub items : List (Recommendation F)
    pub stored : lookup user_id t.recommendations ≡ some items
    pub counted : n ≡ length items
    pub announced : t.outbox ≡ add_letters (letters config stamps user_id items) s.outbox
    pub suits :
        ((is_cold (known user_id s) ≡ true) × (items ≡ []))
        ⊎ ((is_cold (known user_id s) ≡ false)
            × Suits s (known user_id s) stamps user_id limit items)

  left :
      (config : GenerateConfig F) (stamps : Stamps) (user_id limit : ℕ) (s : MemoryStore F)
      (u : UnitOfWork F) (n : ℕ) (items : List (Recommendation F))
      → u.recommendations ≡ (user_id, items) ∷ []
      → u.events ≡ letters config stamps user_id items
      → u.store ≡ s
      → n ≡ length items
      → ((is_cold (known user_id s) ≡ true) × (items ≡ []))
        ⊎ ((is_cold (known user_id s) ≡ false)
            × Suits s (known user_id s) stamps user_id limit items)
      → Left config stamps user_id limit s (commit u).store n
  unfolding commit update put
  left config stamps user_id limit s u n items recs events same count suits = record {
    items = items;
    stored =
        ap (λ d. lookup user_id (update u.store.recommendations d)) recs
        ∙ lookup-put user_id user_id items u.store.recommendations
        ∙ ground (arith, nat_eq.beq_iff user_id user_id);
    counted = count;
    announced = ground (arith, events, ap (λ (x : MemoryStore F). x.outbox) same);
    suits = suits;
  }

  cold-writes :
      (user_id : ℕ) (s : MemoryStore F) (v : UnitOfWork F) (n : ℕ)
      → generate_cold user_id (begin s) ≡ (ok n, v)
      → (v ≡ replace_for user_id [] (begin s)) × (n ≡ 0)
  unfolding generate_cold
  cold-writes user_id s v n h = (ap (λ x. x.1) (sym h), same_count 0 n (ap (λ x. x.0) h))

  -- When `generate` succeeds: a user with no history is left an empty list, and no letter is
  -- written. Any other user is left a list that suits the user's preference: at most `limit` games
  -- of the store that are on sale, that the user does not own and whose score is not at most zero,
  -- ranked from 1. The result is the list's length, and the outbox gains the one letter that announces the list, or
  -- none if it is empty.
  pub generate-Left :
      (config : GenerateConfig F) (stamps : Stamps) (user_id limit : ℕ) (s t : MemoryStore F)
      (n : ℕ)
      → generate config stamps user_id limit s ≡ (ok n, t)
      → Left config stamps user_id limit s t n
  unfolding generate generate_body get_preference replace_for put lookup
  generate-Left config stamps user_id limit s t n h =
      let (u, ran, result) = run-eq_ok (generate_body config stamps user_id limit) s t n h in
      subst (λ x. Left config stamps user_id limit s x n) (sym result)
        (elim (Bool-cases (is_cold (known user_id s))) [
          | inl cold ↦
              let (e, z) = cold-writes user_id s u n (rw cold at ran) in
              left config stamps user_id limit s u n []
                (ap (λ (x : UnitOfWork F). x.recommendations) e)
                (ap (λ (x : UnitOfWork F). x.events) e) (ap (λ (x : UnitOfWork F). x.store) e) z
                (inl (cold, refl))
          | inr warm ↦
              let (items, suits, count, recs, events, same) =
                warm-writes config stamps user_id limit (known user_id s) s u n (rw warm at ran) in
              left config stamps user_id limit s u n items recs events same count
                (inr (warm, suits))
        ])
