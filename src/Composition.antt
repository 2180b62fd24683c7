-- ===== src/Composition.antt =====
-- composition.py: which adapter each setting selects, and what the use cases are built with. What comes
-- from outside src/ (the exchanges with the providers, `blake2b`, `json.loads`, `float` of a string and
-- `jwt.decode`) is one record of parameters.
pub mod Startup
pub mod EmbeddingPass
pub mod Sweep
use recommendation_service.Base.{
  ℕ, Bool, Option, none, some, List, [], ◌∷◌, ◌++◌, if◌then◌else◌, reverse,
}
use recommendation_service.Base.Effects.{Result, Exec}
use recommendation_service.Base.Text.{Text, text}
use recommendation_service.Access.{Actor, Identity, Verify}
use recommendation_service.Adapters.Embedder.{
  Digest, EmbeddingRequest, hash_embed, remote_embed, strip_front,
}
use recommendation_service.Adapters.Explainer.{ChatRequest, no_explanations, explain}
use recommendation_service.Generate.{
  Explanations, GenerateConfig, RefreshReport, Stamps, embed_pending, refresh_all,
}
use recommendation_service.Http.Cache.{Codec}
use recommendation_service.Http.Routes.{Cached}
use recommendation_service.Http.Token.{verify}
use recommendation_service.Json.{Json, Fields}
use recommendation_service.Runtime.{Runtime}
use recommendation_service.Scoring.{ContentScorer, content_based_scorer, dense_content_scorer}
use recommendation_service.Settings.{
  Settings, IdentityBackend, EmbeddingBackend, ExplanationBackend, fake, jwt, hashing, huggingface,
  silent, openai, is_local, uses_redis, ranks_in_dense_space,
}
use recommendation_service.Store.{MemoryStore}

pub record Outside (F : Type 0) : Type 0 where
  pub digest : Text → Digest
  pub embedding_answer : EmbeddingRequest → Option (Json F)
  pub chat_answer : ChatRequest → Option (Json F)
  pub float_of_text : Text → Result F
  pub loads : Text → Option (Json F)
  pub decode : Text → Option (Fields F)

-- `f"{base_url.rstrip('/')}/chat/completions"`
unfoldable pub chat_url : Text → Text
unfolding strip_front
chat_url base_url = reverse (strip_front (text "/") (reverse base_url)) ++ text "/chat/completions"

module _ {F : Type 0} ⦃r : Runtime F⦄ where
  -- `_content_scorer`
  unfoldable pub content_scorer : Settings → ContentScorer F
  unfolding dense_content_scorer content_based_scorer
  content_scorer settings =
      if ranks_in_dense_space settings then dense_content_scorer else content_based_scorer

  abbrev pub embedder_for :
      EmbeddingBackend → Settings → Outside F → List Text → Result (List (List F))
  unfolding hash_embed remote_embed
  embedder_for huggingface settings outside =
      remote_embed outside.embedding_answer outside.float_of_text settings.embedding_endpoint
        settings.embedding_api_key settings.embedding_dimensions settings.embedding_prefix
  embedder_for hashing settings outside = hash_embed outside.digest settings.embedding_dimensions

  -- `_embedder`
  unfoldable pub embedder : Settings → Outside F → List Text → Result (List (List F))
  unfolding embedder_for
  embedder settings = embedder_for settings.embedding_backend settings

  abbrev pub explanations_for : ExplanationBackend → Settings → Outside F → Explanations
  unfolding explain chat_url
  explanations_for openai settings outside =
      explain outside.chat_answer outside.loads (chat_url settings.explanation_base_url)
        settings.explanation_api_key settings.explanation_model settings.explanation_max_tokens
  explanations_for silent settings outside = no_explanations

  -- `_explanations`
  unfoldable pub explanations : Settings → Outside F → Explanations
  unfolding explanations_for
  explanations settings = explanations_for settings.explanation_backend settings

  -- The generating use case and the sweep of `build_container`.
  unfoldable pub generate_config :
      Settings → Outside F → (correlation_id : Option Text) → GenerateConfig F
  unfolding content_scorer explanations
  generate_config settings outside correlation_id = record {
    scorer = content_scorer settings;
    catalogue_limit = settings.catalogue_scan_limit;
    explanations = some (explanations settings outside);
    dense_space = ranks_in_dense_space settings;
    topic = settings.topic_reco_events;
    correlation_id = correlation_id;
  }

  unfoldable pub refresh :
      Settings
      → Outside F
      → Option Text
      → (ℕ → Stamps)
      → (limit finished_at : ℕ) → Exec (MemoryStore F) RefreshReport
  unfolding generate_config embedder embed_pending refresh_all
  refresh settings outside correlation_id stamps limit finished_at =
      refresh_all (generate_config settings outside correlation_id) stamps
        settings.generation_batch_size limit finished_at
        (some (embed_pending (embedder settings outside) settings.embedding_batch_size))

  abbrev pub tokens_for : IdentityBackend → Outside F → Verify
  unfolding verify
  tokens_for jwt outside = some (verify outside.decode)
  tokens_for fake outside = none

  -- `tokens`
  unfoldable pub tokens : Settings → Outside F → Verify
  unfolding tokens_for
  tokens settings = tokens_for settings.identity_backend

-- `response_cache`
unfoldable pub response_cache :
    {P : Type 0} → Settings → Codec P → (number_text : ℕ → Text) → Cached P
response_cache settings codec number_text = record {
  codec = codec;
  enabled = uses_redis settings;
  prefix = settings.service_name;
  number_text = number_text;
}

abbrev pub backend_name : IdentityBackend → Text
backend_name fake = text "fake"
backend_name jwt = text "jwt"

-- What the guard of the callers reads of the settings.
abbrev pub identity : Settings → Identity
identity settings = record {
  is_local = is_local settings;
  backend = backend_name settings.identity_backend;
}
