-- ===== src/Settings.antt =====
-- infrastructure/config/settings.py: what the validators and the composition root read of it. pydantic
-- rejects other names of environments and backends.
use recommendation_service.Base.{
  ℕ, Bool, true, false, not, ◌&&◌, ◌||◌, [], ◌∷◌, if◌then◌else◌, ltb, length, nat_beq,
}
use recommendation_service.Base.Effects.{Result, ok, err, and_then, value_error}
use recommendation_service.Base.Text.{Text, text, is_empty}

pub data AppEnv : Type 0 where
  local test staging prod : AppEnv

pub data PersistenceBackend : Type 0 where
  memory postgres : PersistenceBackend

pub data IdentityBackend : Type 0 where
  fake jwt : IdentityBackend

pub data CacheBackend : Type 0 where
  in_memory redis : CacheBackend

pub data EmbeddingBackend : Type 0 where
  hashing huggingface : EmbeddingBackend

pub data ExplanationBackend : Type 0 where
  silent openai : ExplanationBackend

pub data ScoringBackend : Type 0 where
  sparse dense : ScoringBackend

pub record Settings : Type 0 where
  pub app_env : AppEnv
  pub persistence_backend : PersistenceBackend
  pub identity_backend : IdentityBackend
  pub cache_backend : CacheBackend
  pub embedding_backend : EmbeddingBackend
  pub explanation_backend : ExplanationBackend
  pub scoring_backend : ScoringBackend
  pub jwt_secret : Text
  pub jwt_issuer : Text
  pub jwt_audience : Text
  pub database_url : Text
  pub topic_reco_events : Text
  pub service_name : Text
  pub generation_batch_size : ℕ
  pub catalogue_scan_limit : ℕ
  -- An int that is not positive counts as 0.
  pub embedding_dimensions : ℕ
  pub embedding_endpoint : Text
  pub embedding_api_key : Text
  pub embedding_batch_size : ℕ
  pub embedding_prefix : Text
  pub explanation_base_url : Text
  pub explanation_api_key : Text
  pub explanation_model : Text
  pub explanation_max_tokens : ℕ

abbrev pub is_local : Settings → Bool
is_local settings = elim (settings.app_env) [ local ↦ true | _ ↦ false ]

abbrev pub is_production : Settings → Bool
is_production settings = elim (settings.app_env) [ staging ↦ true | prod ↦ true | _ ↦ false ]

abbrev pub uses_postgres : Settings → Bool
uses_postgres settings = elim (settings.persistence_backend) [ postgres ↦ true | _ ↦ false ]

abbrev pub uses_redis : Settings → Bool
uses_redis settings = elim (settings.cache_backend) [ redis ↦ true | _ ↦ false ]

abbrev pub ranks_in_dense_space : Settings → Bool
ranks_in_dense_space settings = elim (settings.scoring_backend) [ dense ↦ true | _ ↦ false ]

abbrev pub embeds_remotely : EmbeddingBackend → Bool
embeds_remotely hashing = false
embeds_remotely huggingface = true

abbrev pub explains : ExplanationBackend → Bool
explains silent = false
explains openai = true

abbrev pub starts_with : Text → Text → Bool
starts_with [] s = true
starts_with (c ∷ part) [] = false
starts_with (c ∷ part) (d ∷ s) = nat_beq c d && starts_with part s

-- `part in s`
unfoldable pub has_part : Text → Text → Bool
has_part part [] = is_empty part
has_part part (c ∷ s) = starts_with part (c ∷ s) || has_part part s

-- `_reject_placeholder_secrets`; `lower` is `str.lower`
unfoldable pub reject_placeholder_secrets : (Text → Text) → Settings → Result Settings
unfolding has_part
reject_placeholder_secrets lower self =
    if not (is_production self)
    then ok self
    else if ltb (length self.jwt_secret) 32 || has_part (text "change") (lower self.jwt_secret)
    then err value_error
    else if is_empty self.jwt_issuer || is_empty self.jwt_audience
    then err value_error
    else if uses_postgres self && has_part (text "localhost") self.database_url
    then err value_error
    else ok self

-- `_reject_unreachable_providers`
unfoldable pub reject_unreachable_providers : Settings → Result Settings
reject_unreachable_providers self =
    if embeds_remotely self.embedding_backend && is_empty self.embedding_endpoint
    then err value_error
    else if explains self.explanation_backend && is_empty self.explanation_base_url
    then err value_error
    else if ltb self.embedding_dimensions 1
    then err value_error
    else ok self

-- The two validators, in the order in which they stand.
unfoldable pub validated : (Text → Text) → Settings → Result Settings
unfolding reject_placeholder_secrets reject_unreachable_providers
validated lower settings =
    and_then (reject_placeholder_secrets lower settings) reject_unreachable_providers
