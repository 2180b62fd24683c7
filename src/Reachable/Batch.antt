-- ===== src/Reachable/Batch.antt =====
-- application/usecases/generate.py and enrich.py, and the dispatcher: they keep the store well formed.
use recommendation_service.Base.{
  ℕ, ◌+◌, ◌≡◌, refl, sym, ap, subst, ◌∙◌, Bool, true, false, List, [], ◌∷◌, map, Bool-cases, inl,
  inr, arith, length,
}
use recommendation_service.Base.Dict.{get_or}
use recommendation_service.Base.Effects.{
  Result, ok, err, Exec, and_then-eq_ok, pure, lift, gets, modify, ◌>>=◌, ◌>>◌,
}
use recommendation_service.Base.Text.{Text, is_empty}
use recommendation_service.Catalog.{GameProfile, embedded, embedding_text}
use recommendation_service.Catalog.Laws.{post_init-IsProfile}
use recommendation_service.Embedding.Dense.{DenseEmbedding}
use recommendation_service.Embedding.Dense
use recommendation_service.Generate.{
  Stamps, GenerateConfig, recommendation, recommend, refreshed, ranked, explained, announce,
  enqueue, generate_warm, generate_cold, generate_body, generate, embed_all, embed_with,
  embed_pending,
}
use recommendation_service.Outbox.{OutboxRecord}
use recommendation_service.Outbox.Dispatcher.{due, drain, drain_once}
use recommendation_service.Preference.{
  UserPreference, blank, is_cold, remembered_games, rebuilt_in, rebuild,
}
use recommendation_service.Preference.History.{IsPreference}
use recommendation_service.Reachable.Handlers.{or_blank-IsPreference}
use recommendation_service.Reachable.Sound.{
  WellFormed, Keeps, ListEntry, bind-Keeps, lift-Keeps, upsert_game-Keeps, upsert_preference-Keeps,
  replace_for-Keeps, commit-Keeps, with_uow-WellFormed,
}
use recommendation_service.Recommendation.{Recommendation, checked}
use recommendation_service.Runtime.{Runtime}
use recommendation_service.Scoring.{ScoredGame}
use recommendation_service.Store.{MemoryStore, UnitOfWork, begin, commit, with_uow}
use recommendation_service.Store.Repositories.{
  get_preference, upsert_preference, upsert_game, by_ids, replace_for, needing_embedding,
}

ok-eq : {A : Type 0} {a b : A} → ok a ≡ ok b → a ≡ b
ok-eq h = cc h

module _ {F : Type 0} ⦃r : Runtime F⦄ where
  rebuilt_in-IsPreference :
      (p : UserPreference F) (space : List (ℕ × DenseEmbedding F)) (q : UserPreference F)
      → IsPreference p
      → rebuilt_in p space ≡ ok q
      → IsPreference q
  unfolding rebuilt_in
  rebuilt_in-IsPreference p space q v e =
      let (rebuilt, _, rest) = and_then-eq_ok (rebuild space Dense.empty p.history) _ e in
      subst IsPreference {x = record p { taste_dense = rebuilt }} (ok-eq rest)
        (record { taste = v.taste; bounded = v.bounded })

  checked_self : (item other : Recommendation F) → checked item ≡ ok other → item ≡ other
  unfolding checked
  checked_self item other e = ground arith

  recommend-ListEntry :
      (user_id : ℕ) (stamps : Stamps) (rank : ℕ) (scored : List (ScoredGame F))
      (items : List (Recommendation F))
      → recommend user_id stamps rank scored ≡ ok items
      → ListEntry (user_id, items)
  unfolding recommend
  recommend-ListEntry user_id stamps rank [] items e =
      subst (λ l. ListEntry (user_id, l)) {x = []} (ok-eq e) tt
  recommend-ListEntry user_id stamps rank (item ∷ scored) items e =
      let first = recommendation user_id stamps rank item in
      let (kept, passed, k) = and_then-eq_ok (checked first) _ e in
      let (rest, more, last) = and_then-eq_ok (recommend user_id stamps (rank + 1) scored) _ k in
      let same : first ≡ kept = checked_self first kept passed in
      let entry : (first.user_id ≡ user_id) × (checked first ≡ ok first) =
        (refl, passed ∙ ap (λ x. ok x) (sym same)) in
      subst (λ l. ListEntry (user_id, l)) {x = kept ∷ rest} (ok-eq last)
        (
          subst (λ (i : Recommendation F). (i.user_id ≡ user_id) × (checked i ≡ ok i)) same entry,
          recommend-ListEntry user_id stamps (rank + 1) scored rest more,
        )

  announce-Keeps :
      (config : GenerateConfig F) (stamps : Stamps) (user_id : ℕ) (items : List (Recommendation F))
      → Keeps (announce config stamps user_id items)
  unfolding announce enqueue
  announce-Keeps config stamps user_id [] u h = h
  announce-Keeps config stamps user_id (first ∷ rest) u h = record {
    store = h.store;
    games = h.games;
    preferences = h.preferences;
    recommendations = h.recommendations;
  }

  refreshed-Keeps :
      (dense_space : Bool) (p : UserPreference F) (played : List (GameProfile F))
      → IsPreference p
      → Keeps (refreshed dense_space p played)
  unfolding refreshed
  refreshed-Keeps false p played v u h = h
  refreshed-Keeps true p played v u h =
      let space : List (ℕ × DenseEmbedding F) =
        map (λ (g : GameProfile F). (g.game_id, g.dense)) played in
      lift-Keeps (rebuilt_in p space)
        (λ rebuilt. modify (upsert_preference rebuilt) >> pure rebuilt)
        (λ q e. upsert_preference-Keeps q (rebuilt_in-IsPreference p space q v e)) u h

  generate_warm-Keeps :
      (config : GenerateConfig F) (stamps : Stamps) (user_id limit : ℕ) (before : UserPreference F)
      → IsPreference before
      → Keeps (generate_warm config stamps user_id limit before)
  unfolding generate_warm
  generate_warm-Keeps config stamps user_id limit before v u h =
      let played = by_ids (remembered_games before) u in
      let finish : List (Recommendation F) → Exec (UnitOfWork F) ℕ = λ items.
        modify (replace_for user_id items)
        >> (announce config stamps user_id items >> pure (length items)) in
      let listed : List (ScoredGame F) → Exec (UnitOfWork F) ℕ =
        λ chosen. lift (recommend user_id stamps 1 chosen) >>= finish in
      let after : UserPreference F → Exec (UnitOfWork F) ℕ = λ preference.
        gets (ranked config user_id limit preference) >>= λ scored.
        lift (explained config.explanations scored played) >>= listed in
      bind-Keeps (refreshed config.dense_space before played) after
        (refreshed-Keeps config.dense_space before played v)
        (λ q t k.
          lift-Keeps (explained config.explanations (ranked config user_id limit q t) played) listed
            (λ chosen _. lift-Keeps (recommend user_id stamps 1 chosen) finish (λ items e.
              bind-Keeps (modify (replace_for user_id items))
                (λ _. announce config stamps user_id items >> pure (length items))
                (replace_for-Keeps user_id items
                  (recommend-ListEntry user_id stamps 1 chosen items e))
                (λ _.
                  bind-Keeps (announce config stamps user_id items) (λ _. pure (length items))
                    (announce-Keeps config stamps user_id items) (λ _ x kept. kept))))
            t k)
        u h

  generate_body-Keeps :
      (config : GenerateConfig F) (stamps : Stamps) (user_id limit : ℕ)
      → Keeps (generate_body config stamps user_id limit)
  unfolding generate_body generate_cold
  generate_body-Keeps config stamps user_id limit u h =
      let p : UserPreference F = get_or (get_preference user_id u) (blank user_id) in
      elim (Bool-cases (is_cold p)) [
        | inl e ↦ rw e (replace_for-Keeps user_id [] tt u h)
        | inr e ↦ rw e (
            generate_warm-Keeps config stamps user_id limit p (or_blank-IsPreference user_id u h) u
              h)
      ]

  -- So does the batch for one user,
  pub generate-WellFormed :
      (config : GenerateConfig F) (stamps : Stamps) (user_id limit : ℕ) (s : MemoryStore F)
      → WellFormed s
      → WellFormed (generate config stamps user_id limit s).1
  unfolding generate
  generate-WellFormed config stamps user_id limit s =
      with_uow-WellFormed
        (generate_body config stamps user_id limit >>= λ written. modify commit >> pure written) s
        (bind-Keeps (generate_body config stamps user_id limit)
          (λ written. modify commit >> pure written)
          (generate_body-Keeps config stamps user_id limit) (λ _. commit-Keeps))

  embed_all-Keeps :
      (pending : List (GameProfile F)) (vectors : List (List F)) → Keeps (embed_all pending vectors)
  unfolding embed_all embedded
  embed_all-Keeps [] [] u h = h
  embed_all-Keeps [] (v ∷ vectors) u h = h
  embed_all-Keeps (game ∷ pending) [] u h = h
  embed_all-Keeps (game ∷ pending) (v ∷ vectors) u h =
      lift-Keeps (embedded game (record { components = v }))
        (λ changed. modify (upsert_game changed) >> embed_all pending vectors)
        (λ g e.
          bind-Keeps (modify (upsert_game g)) (λ _. embed_all pending vectors)
            (upsert_game-Keeps g (post_init-IsProfile _ g e))
            (λ _. embed_all-Keeps pending vectors))
        u h

  embed_with-WellFormed :
      (pending : List (GameProfile F)) (answer : Result (List (List F))) (s : MemoryStore F)
      → WellFormed s
      → WellFormed (embed_with pending answer s).1
  unfolding embed_with
  embed_with-WellFormed pending (err e) s h = h
  embed_with-WellFormed pending (ok vectors) s h =
      with_uow-WellFormed
        (embed_all pending vectors >>= λ _. modify commit >> pure (length pending)) s
        (bind-Keeps (embed_all pending vectors) (λ _. modify commit >> pure (length pending))
          (embed_all-Keeps pending vectors) (λ _. commit-Keeps))
        h

  -- the pass that embeds games,
  pub embed_pending-WellFormed :
      (embed : List Text → Result (List (List F))) (batch_size : ℕ) (s : MemoryStore F)
      → WellFormed s
      → WellFormed (embed_pending embed batch_size s).1
  unfolding embed_pending with_uow
  embed_pending-WellFormed embed batch_size s h =
      let pending = needing_embedding batch_size (begin s) in
      elim (Bool-cases (is_empty pending)) [
        | inl e ↦ rw e h
        | inr e ↦ rw e (embed_with-WellFormed pending (embed (map embedding_text pending)) s h)
      ]

module _ {F P : Type 0} ⦃r : Runtime F⦄ (publisher : OutboxRecord F → Exec P (Unit {0}))
    (jitter : ℕ → ℕ) (now : ℕ) where
  drain-WellFormed :
      (letters : List (OutboxRecord F)) (published : ℕ) (s : MemoryStore F) (p : P)
      → WellFormed s
      → WellFormed (drain publisher jitter now letters published s p).1
  unfolding drain
  drain-WellFormed [] published s p h = h
  drain-WellFormed (letter ∷ letters) published s p h =
      drain-WellFormed letters _ _ _ (record {
        games = h.games;
        preferences = h.preferences;
        recommendations = h.recommendations;
      })

  -- and a poll of the dispatcher.
  pub drain_once-WellFormed :
      (batch_size : ℕ) (s : MemoryStore F) (p : P)
      → WellFormed s
      → WellFormed (drain_once publisher jitter now batch_size s p).1
  unfolding drain_once
  drain_once-WellFormed batch_size s p h = drain-WellFormed (due now batch_size s) 0 s p h
