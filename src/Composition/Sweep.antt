-- ===== src/Composition/Sweep.antt =====
-- The sweep with what the settings select.
use recommendation_service.Base.{
  ℕ, suc, ◌+◌, ◌≤◌, ◌≡◌, refl, ap, subst, inl, inr, Option, some, List, [], ◌∷◌, map, arith, All,
  All-take, All-filter, length, take, filter, length-take,
}
use mathlib.Core.List.Permᴰ
use recommendation_service.Base.Dict.{Dict, values, update}
use recommendation_service.Base.Effects.{Result, ok, err, Exec}
use recommendation_service.Base.Sort.{sort, sort-perm, All-perm}
use recommendation_service.Base.Text.{Text}
use recommendation_service.Catalog.{GameProfile, needs_embedding}
use recommendation_service.Catalog.Laws.{IsProfile}
use recommendation_service.Composition.{Outside, embedder, generate_config, refresh}
use recommendation_service.Composition.EmbeddingPass.{
  embedding_pass_total, with_vectors, store_with,
}
use recommendation_service.Generate.{
  GenerateConfig, RefreshReport, Stamps, counted, sweep, sweep_from, embed_first, embed_pending,
  refresh_all, generate,
}
use recommendation_service.Preference.{UserPreference}
use recommendation_service.Reachable.Batch.{generate-WellFormed, embed_pending-WellFormed}
use recommendation_service.Reachable.Sound.{WellFormed, GameEntry}
use recommendation_service.Runtime.{Runtime}
use recommendation_service.Scoring.{more_popular}
use recommendation_service.Settings.{Settings, validated}
use recommendation_service.Store.{MemoryStore, begin, with_uow, close}
use recommendation_service.Store.Repositories.{needing_embedding, with_signals}

module _ {F : Type 0} ⦃r : Runtime F⦄ where
  values-IsProfile :
      (games : Dict ℕ (GameProfile F)) → All GameEntry games → All IsProfile (values games)
  values-IsProfile [] h = tt
  values-IsProfile (e ∷ games) h = (h.0.1, values-IsProfile games h.1)

  pending-IsProfile :
      (batch_size : ℕ) (s : MemoryStore F)
      → WellFormed s
      → All IsProfile (needing_embedding batch_size (begin s))
  unfolding needing_embedding update
  pending-IsProfile batch_size s h =
      let games = values s.games in
      All-take IsProfile batch_size (sort more_popular (filter needs_embedding games)) (
        All-perm IsProfile (Permᴰ.symm (sort-perm more_popular (filter needs_embedding games)))
          (All-filter IsProfile needs_embedding games (values-IsProfile s.games h.games.1)))

  -- What a sweep leaves: a well-formed store, and at most one user counted per round.
  abbrev Swept : ℕ → ℕ × ℕ × MemoryStore F → Type 0
  Swept n out = (out.0 ≤ n) × WellFormed out.2

  sweep-Swept :
      (config : GenerateConfig F) (stamps : ℕ → Stamps) (limit : ℕ) (users : List ℕ)
      (processed written : ℕ) (s : MemoryStore F)
      → WellFormed s
      → Swept (processed + length users) (sweep config stamps limit users processed written s)
  unfolding sweep
  sweep-Swept config stamps limit [] processed written s h = (omega arith, h)
  sweep-Swept config stamps limit (user_id ∷ users) processed written s h =
      round (λ p w t k. sweep-Swept config stamps limit users p w t k)
        (generate config (stamps user_id) user_id limit s)
        (generate-WellFormed config (stamps user_id) user_id limit s h)
    where
      round :
          ((p w : ℕ) (t : MemoryStore F)
            → WellFormed t
            → Swept (p + length users) (sweep config stamps limit users p w t))
          → (x : Result ℕ × MemoryStore F) → WellFormed x.1
          → Swept (processed + length (user_id ∷ users)) (
              let (p, w, t) = counted processed written x.0 x.1 in
              sweep config stamps limit users p w t)
      round rest_of (ok n, t) k =
          let rest = rest_of (processed + 1) (written + n) t k in (omega (arith, rest.0), rest.1)
      round rest_of (err e, t) k =
          let rest = rest_of processed written t k in (omega (arith, rest.0), rest.1)

  embedding_ok :
      (lower : Text → Text) (settings : Settings) (outside : Outside F) (batch_size : ℕ)
      (s : MemoryStore F)
      → validated lower settings ≡ ok settings
      → WellFormed s
      → (n : ℕ) × (t : MemoryStore F) × (embed_pending (embedder settings outside) batch_size s
          ≡ (ok n, t))
        × WellFormed t
  embedding_ok lower settings outside batch_size s valid h =
      let after = embed_pending-WellFormed (embedder settings outside) batch_size s h in
      elim (embedding_pass_total lower settings outside batch_size s valid
        (pending-IsProfile batch_size s h)) [
          | inl e ↦ (0, s, e, h)
          | inr (vectors, _, e) ↦ (
            length (needing_embedding batch_size (begin s)),
            store_with s (with_vectors (needing_embedding batch_size (begin s)) vectors),
            e,
            subst (λ (x : Result ℕ × MemoryStore F). WellFormed x.1) e after,
          )
        ]

  length-with_signals :
      (batch_size : ℕ) (s : MemoryStore F) → length (with_signals batch_size (begin s)) ≤ batch_size
  unfolding with_signals
  length-with_signals batch_size s = bound _
    where
      length-ids :
          (ps : List (UserPreference F))
          → length (map (λ (p : UserPreference F). p.user_id) ps) ≡ length ps
      length-ids [] = refl
      length-ids (p ∷ ps) = ap suc (length-ids ps)

      bound :
          (ps : List (UserPreference F))
          → length (map (λ (p : UserPreference F). p.user_id) (take batch_size ps)) ≤ batch_size
      bound ps = omega (arith, length-ids (take batch_size ps), length-take batch_size ps)

  run :
      (config : GenerateConfig F) (stamps : ℕ → Stamps) (batch_size limit finished_at : ℕ)
      (embedding : Exec (MemoryStore F) ℕ) (s t : MemoryStore F) (n : ℕ)
      → embedding s ≡ (ok n, t)
      → refresh_all config stamps batch_size limit finished_at (some embedding) s
        ≡ sweep_from config stamps limit finished_at (with_signals batch_size (begin t)) t
  unfolding refresh_all embed_first with_uow close
  run config stamps batch_size limit finished_at embedding s t n e = rw e refl

  -- With accepted settings and a well-formed store, the sweep never raises: whichever provider is
  -- selected and whatever goes wrong for single users, it reports, it counts at most as many users as its
  -- batch allows, and it leaves a well-formed store.
  pub refresh_total :
      (lower : Text → Text) (settings : Settings) (outside : Outside F)
      (correlation_id : Option Text) (stamps : ℕ → Stamps) (limit finished_at : ℕ)
      (s : MemoryStore F)
      → validated lower settings ≡ ok settings
      → WellFormed s
      → (report : RefreshReport) × (t : MemoryStore F) × (refresh settings outside correlation_id
            stamps limit finished_at s
          ≡ (ok report, t))
        × (report.users_processed ≤ settings.generation_batch_size)
        × WellFormed t
  unfolding refresh sweep_from
  refresh_total lower settings outside correlation_id stamps limit finished_at s valid h =
      let (n, t, embedded, kept) =
        embedding_ok lower settings outside settings.embedding_batch_size s valid h in
      let config = generate_config settings outside correlation_id in
      let users = with_signals settings.generation_batch_size (begin t) in
      let out = sweep config stamps limit users 0 0 t in
      let swept = sweep-Swept config stamps limit users 0 0 t kept in
      (
        record {
          users_processed = out.0;
          recommendations_written = out.1;
          generated_at = finished_at;
        },
        out.2,
        run config stamps settings.generation_batch_size limit finished_at
            (embed_pending (embedder settings outside) settings.embedding_batch_size) s t n
            embedded,
        omega (arith, swept.0, length-with_signals settings.generation_batch_size t),
        swept.1,
      )
