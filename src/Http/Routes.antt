-- ===== src/Http/Routes.antt =====
-- presentation/http/routers/recommendations.py and admin.py. FastAPI's validation of `limit`, and its
-- rendering of a response as JSON and back, stand outside: `encode` is `jsonable_encoder`, and
-- `validate` is `model_validate`.
pub mod Guards
use recommendation_service.Base.{
  ℕ, ◌≡◌, Bool, true, false, not, ◌&&◌, ◌||◌, ◌⊎◌, inl, inr, Option, none, some, List, [], ◌∷◌,
  ◌++◌, if◌then◌else◌, nat_beq, arith,
}
use recommendation_service.Base.Dict.{Dict}
use recommendation_service.Base.Effects.{
  Error, Result, ok, err, and_then, authorization, Exec, ◌>>=◌, ◌>>◌, lift,
}
use recommendation_service.Base.Text.{Text, text}
use recommendation_service.Access.{Actor, is_moderator, require_moderator}
use recommendation_service.Generate.{
  GenerateConfig, Stamps, RefreshReport, refresh_all, refresh_one,
}
use recommendation_service.Http.Cache.{Codec, Weather, get_or_compute}
use recommendation_service.Limits.{default_recommendation_count}
use recommendation_service.Runtime.{Runtime}
use recommendation_service.Serve.{
  RecommendationsResponse, SimilarGamesResponse, serve, similar_games,
}
use recommendation_service.Store.{MemoryStore}

-- What a cached route is asked for.
pub data Asked : Type 0 where
  own_list : (user_id limit : ℕ) → Asked
  similar_rail : (game_id limit : ℕ) → Asked

-- The key of its answer in the cache; `uuid_text` is `str` of an id and `number_text` of an int.
unfoldable pub key_of : (uuid_text number_text : ℕ → Text) → Asked → Text
key_of uuid_text number_text (own_list user_id limit) =
    text "user:" ++ (uuid_text user_id ++ (text ":reco:" ++ number_text limit))
key_of uuid_text number_text (similar_rail game_id limit) =
    text "game:" ++ (uuid_text game_id ++ (text ":similar:" ++ number_text limit))

-- What a model is written as and read back from.
pub record Schema (P R : Type 0) : Type 0 where
  pub encode : R → P
  pub validate : P → Result R

abbrev pub encoded : {P R : Type 0} → Schema P R → Result R → Result P
encoded schema (ok response) = ok (schema.encode response)
encoded schema (err e) = err e

-- What the routes are served with.
pub record Cached (P : Type 0) : Type 0 where
  pub codec : Codec P
  pub enabled : Bool
  pub prefix : Text
  pub number_text : ℕ → Text

-- A cached route: the answer, and the entries of the client after it.
unfoldable pub cached_route :
    {P R : Type 0}
    → Cached P
    → (uuid_text : ℕ → Text) → Schema P R
    → Asked
    → Result R
    → Weather
    → Dict Text Text
    → Result R × Dict Text Text
unfolding get_or_compute key_of
cached_route cached uuid_text schema asked computed weather entries =
    let (payload, after) =
      get_or_compute cached.codec cached.enabled cached.prefix
        (key_of uuid_text cached.number_text asked) (encoded schema computed) weather entries in
    (and_then payload schema.validate, after)

module _ {F P : Type 0} ⦃r : Runtime F⦄ (cached : Cached P) where
  unfoldable pub my_recommendations :
      Schema P (RecommendationsResponse F)
      → Actor
      → ℕ
      → MemoryStore F
      → Weather
      → Dict Text Text
      → Result (RecommendationsResponse F) × Dict Text Text
  unfolding cached_route serve
  my_recommendations schema actor limit store =
      cached_route cached r.uuid_text schema (own_list actor.user_id limit)
        (serve actor.user_id limit store).0

  unfoldable pub similar_games_route :
      Schema P (SimilarGamesResponse F)
      → (catalogue_limit : ℕ) (dense_space : Bool) → (game_id limit : ℕ) → MemoryStore F
      → Weather
      → Dict Text Text
      → Result (SimilarGamesResponse F) × Dict Text Text
  unfolding cached_route similar_games
  similar_games_route schema catalogue_limit dense_space game_id limit store =
      cached_route cached r.uuid_text schema (similar_rail game_id limit)
        (similar_games catalogue_limit dense_space game_id limit store).0

module _ {F : Type 0} ⦃r : Runtime F⦄ where
  unfoldable pub recommendations_for :
      ℕ → Actor → ℕ → Exec (MemoryStore F) (RecommendationsResponse F)
  unfolding serve
  recommendations_for target actor limit s =
      if not (nat_beq target actor.user_id) && not (is_moderator actor)
      then (err authorization, s)
      else serve target limit s

  -- admin.py
  unfoldable pub refresh_route :
      GenerateConfig F
      → (ℕ → Stamps)
      → (batch_size limit finished_at : ℕ) → Option (Exec (MemoryStore F) ℕ)
      → Actor
      → Exec (MemoryStore F) RefreshReport
  unfolding refresh_all
  refresh_route config stamps batch_size limit finished_at embedding actor = do
    lift (require_moderator actor)
    refresh_all config stamps batch_size limit finished_at embedding

  unfoldable pub refresh_user_route :
      GenerateConfig F
      → (ℕ → Stamps)
      → (user_id finished_at : ℕ) → Option (Exec (MemoryStore F) ℕ)
      → Actor
      → Exec (MemoryStore F) RefreshReport
  unfolding refresh_one
  refresh_user_route config stamps user_id finished_at embedding actor = do
    lift (require_moderator actor)
    refresh_one config stamps user_id default_recommendation_count finished_at embedding
