-- ===== src/Composition/EmbeddingPass.antt =====
-- application/usecases/enrich.py with the provider that the settings select.
use recommendation_service.Base.{
  ℕ, suc, ◌≡◌, refl, ap, ◌∙◌, ◌⊎◌, inl, inr, List, [], ◌∷◌, map, arith, All, length, Bool-cases,
  nat_eq,
}
use recommendation_service.Base.Dict.{Dict, update, put}
use recommendation_service.Base.Effects.{ok, Result-cases}
use recommendation_service.Base.Text.{Text, is_empty}
use recommendation_service.Catalog.{GameProfile, embedding_text}
use recommendation_service.Catalog.Laws.{IsProfile, updates_succeed}
use recommendation_service.Adapters.Embedder.Shape.{Fits}
use recommendation_service.Composition.{Outside, embedder}
use recommendation_service.Composition.Startup.{embedder-Fits}
use recommendation_service.Generate.{embed_all, embed_with, embed_pending}
use recommendation_service.Runtime.{Runtime}
use recommendation_service.Settings.{Settings, validated}
use recommendation_service.Store.{MemoryStore, UnitOfWork, begin, commit, close, with_uow}
use recommendation_service.Store.Repositories.{needing_embedding, upsert_game}

module _ {F : Type 0} where
  -- The games with their new vectors, by id.
  abbrev pub with_vectors : List (GameProfile F) → List (List F) → Dict ℕ (GameProfile F)
  with_vectors (game ∷ games) (v ∷ vectors) =
      (game.game_id, record game { dense = record { components = v } }) ∷ with_vectors games vectors
  with_vectors _ _ = []

  -- The store in which these games have been replaced, and nothing else.
  abbrev pub store_with : MemoryStore F → Dict ℕ (GameProfile F) → MemoryStore F
  store_with s games = record s { games = update s.games (update [] games) }

length-texts :
    {F : Type 0} (games : List (GameProfile F)) → length (map embedding_text games) ≡ length games
length-texts [] = refl
length-texts (game ∷ games) = ap suc (length-texts games)

module _ {F : Type 0} ⦃r : Runtime F⦄ where
  embed_all_ok :
      (pending : List (GameProfile F)) (vectors : List (List F)) (u : UnitOfWork F)
      → All IsProfile pending
      → length vectors ≡ length pending
      → embed_all pending vectors u
        ≡ (ok tt, record u { games = update u.games (with_vectors pending vectors) })
  unfolding embed_all update upsert_game
  embed_all_ok [] [] u v h = refl
  embed_all_ok [] (x ∷ vectors) u v h = absurd (omega (arith, h))
  embed_all_ok (game ∷ pending) [] u v h = absurd (omega (arith, h))
  embed_all_ok (game ∷ pending) (x ∷ vectors) u v h =
      rw ((updates_succeed game (record { components = x }) v.0).2) (
        embed_all_ok pending vectors
          (record u {
            games = put game.game_id (record game { dense = record { components = x } }) u.games;
          })
          v.1 (omega (arith, h)))

  embed_with_ok :
      (pending : List (GameProfile F)) (vectors : List (List F)) (s : MemoryStore F)
      → All IsProfile pending
      → length vectors ≡ length pending
      → embed_with pending (ok vectors) s
        ≡ (ok (length pending), store_with s (with_vectors pending vectors))
  unfolding embed_with with_uow close commit update
  embed_with_ok pending vectors s v h = rw (embed_all_ok pending vectors (begin s) v h) refl

  -- With accepted settings, and games that are well-formed, the pass that embeds the games without a
  -- vector never raises, whichever provider is selected. Either it changes nothing and reports 0, or it
  -- gives each of these games a vector of the width of the column, changes nothing else, and reports
  -- their number.
  pub embedding_pass_total :
      (lower : Text → Text) (settings : Settings) (outside : Outside F) (batch_size : ℕ)
      (s : MemoryStore F)
      → validated lower settings ≡ ok settings
      → All IsProfile (needing_embedding batch_size (begin s))
      → let pending = needing_embedding batch_size (begin s) in
        (embed_pending (embedder settings outside) batch_size s ≡ (ok 0, s))
        ⊎ ((vectors : List (List F)) × Fits settings.embedding_dimensions
              (map embedding_text pending)
              vectors
            × (embed_pending (embedder settings outside) batch_size s
                ≡ (ok (length pending), store_with s (with_vectors pending vectors))))
  unfolding embed_pending embed_with with_uow close
  embedding_pass_total lower settings outside batch_size s valid well =
      let pending = needing_embedding batch_size (begin s) in
      elim (Bool-cases (is_empty pending)) [
        | inl nothing ↦ inl (rw nothing refl)
        | inr some_pending ↦
            elim (Result-cases (embedder settings outside (map embedding_text pending))) [
              | inl (vectors, answered) ↦
                  let fits =
                    embedder-Fits lower settings outside (map embedding_text pending) vectors valid
                      answered in
                  inr (
                    vectors,
                    fits,
                    rw (some_pending, answered)
                        (embed_with_ok pending vectors s well (fits.0 ∙ length-texts pending)),
                  )
              | inr (e, failed) ↦ inl (rw (some_pending, failed) refl)
            ]
      ]
