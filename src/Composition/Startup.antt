-- ===== src/Composition/Startup.antt =====
-- What holds of a service whose settings have been accepted at boot.
use recommendation_service.Base.{
  ℕ, ◌≤◌, ◌<◌, ◌≡◌, sym, ap, ◌∙◌, inl, inr, Bool, true, false, ◌||◌, Option, some, List, arith,
  subst, length,
}
use recommendation_service.Base.Effects.{Result, ok, and_then-eq_ok}
use recommendation_service.Base.Text.{Text, text, is_empty}
use recommendation_service.Access.{Actor, Credentials, optional_actor}
use recommendation_service.Access.Debug.{optional_actor-cases}
use recommendation_service.Adapters.Embedder.Shape.{Fits, remote_embed-Fits, hash_embed-Fits}
use recommendation_service.Composition.{
  Outside, embedder, embedder_for, tokens, tokens_for, identity,
}
use recommendation_service.Http.Token.{Claims, verify, verify-Claims}
use recommendation_service.Json.{Fields}
use recommendation_service.Runtime.{Runtime}
use recommendation_service.Settings.{
  Settings, EmbeddingBackend, hashing, huggingface, IdentityBackend, jwt, fake, AppEnv, local, test,
  staging, prod, is_production, uses_postgres, has_part, embeds_remotely, explains,
  reject_placeholder_secrets, reject_unreachable_providers, validated,
}

ok-eq : {A : Type 0} {a b : A} → ok a ≡ ok b → a ≡ b
ok-eq h = cc h

some-eq : {A : Type 0} {a b : A} → some a ≡ some b → a ≡ b
some-eq h = cc h

-- What the validators check.
pub record Accepted (lower : Text → Text) (settings : Settings) : Type 0 where
  pub secret : is_production settings ≡ true → 32 ≤ length settings.jwt_secret
  pub no_placeholder :
      is_production settings ≡ true → has_part (text "change") (lower settings.jwt_secret) ≡ false
  pub issued :
      is_production settings ≡ true
      → (is_empty settings.jwt_issuer || is_empty settings.jwt_audience) ≡ false
  pub database :
      is_production settings ≡ true
      → uses_postgres settings ≡ true
      → has_part (text "localhost") settings.database_url ≡ false
  pub endpoint :
      embeds_remotely settings.embedding_backend ≡ true
      → is_empty settings.embedding_endpoint ≡ false
  pub base_url :
      explains settings.explanation_backend ≡ true → is_empty settings.explanation_base_url ≡ false
  pub dimensions : 0 < settings.embedding_dimensions

-- What each validator lets pass, it keeps.
secrets_kept :
    (lower : Text → Text) (self accepted : Settings)
    → reject_placeholder_secrets lower self ≡ ok accepted
    → accepted ≡ self
unfolding reject_placeholder_secrets
secrets_kept lower self accepted h = ground arith

providers_kept :
    (self accepted : Settings) → reject_unreachable_providers self ≡ ok accepted → accepted ≡ self
unfolding reject_unreachable_providers
providers_kept self accepted h = ground arith

validated_parts :
    (lower : Text → Text) (settings accepted : Settings)
    → validated lower settings ≡ ok accepted
    → (accepted ≡ settings)
      × (reject_placeholder_secrets lower settings ≡ ok settings)
      × (reject_unreachable_providers settings ≡ ok settings)
unfolding validated
validated_parts lower settings accepted h =
    let (mid, e, k) =
      and_then-eq_ok (reject_placeholder_secrets lower settings) reject_unreachable_providers h in
    let first : mid ≡ settings = secrets_kept lower settings mid e in
    let last : accepted ≡ settings = providers_kept mid accepted k ∙ first in
    (
      last,
      e ∙ ap (λ s. ok s) first,
      ap reject_unreachable_providers (sym first) ∙ k ∙ ap (λ s. ok s) last,
    )

-- Settings that pass the validators are kept as they are, and meet all that these check.
pub validated-Accepted :
    (lower : Text → Text) (settings accepted : Settings)
    → validated lower settings ≡ ok accepted
    → (accepted ≡ settings) × Accepted lower settings
unfolding reject_placeholder_secrets reject_unreachable_providers
validated-Accepted lower settings accepted h =
    let (kept, secrets, providers) = validated_parts lower settings accepted h in
    (
      kept,
      record {
        secret = λ p. ground (arith, p, secrets);
        no_placeholder = λ p. ground (arith, p, secrets);
        issued = λ p. ground (arith, p, secrets);
        database = λ p q. ground (arith, p, q, secrets);
        endpoint = λ p. ground (arith, p, providers);
        base_url = λ p. ground (arith, p, providers);
        dimensions = ground (arith, providers);
      },
    )

module _ {F : Type 0} ⦃r : Runtime F⦄ where
  -- With accepted settings, whichever provider they select, what it answers for some texts is one vector
  -- for each, each of the width of the column.
  pub embedder-Fits :
      (lower : Text → Text) (settings : Settings) (outside : Outside F) (texts : List Text)
      (vectors : List (List F))
      → validated lower settings ≡ ok settings
      → embedder settings outside texts ≡ ok vectors
      → Fits settings.embedding_dimensions texts vectors
  unfolding embedder embedder_for
  embedder-Fits lower settings outside texts vectors valid h =
      by_backend settings.embedding_backend h
    where
      by_backend :
          (backend : EmbeddingBackend)
          → embedder_for backend settings outside texts ≡ ok vectors
          → Fits settings.embedding_dimensions texts vectors
      by_backend huggingface k =
          remote_embed-Fits outside.embedding_answer outside.float_of_text
            settings.embedding_endpoint settings.embedding_api_key settings.embedding_dimensions
            settings.embedding_prefix texts vectors k
      by_backend hashing k =
          let (answer, e, fits) =
            hash_embed-Fits outside.digest settings.embedding_dimensions texts
              (validated-Accepted lower settings settings valid).1.dimensions in
          subst (Fits settings.embedding_dimensions texts) (ok-eq (sym e ∙ k)) fits

  -- In staging and production a caller is identified only by a token that `jwt.decode` accepts and that
  -- makes this caller by its claims.
  pub production-Claims :
      (lower : Text → Text) (uuid_of : Text → Option ℕ) (settings : Settings) (outside : Outside F)
      (given : Option Credentials) (header : Option Text) (actor : Actor)
      → is_production settings ≡ true
      → optional_actor lower uuid_of (tokens settings outside) (identity settings) given header
        ≡ ok (some actor)
      → (c : Credentials) × (claims : Fields F) × (given ≡ some c)
        × (outside.decode c.credentials ≡ some claims)
        × Claims claims actor
  unfolding tokens tokens_for
  production-Claims lower uuid_of settings outside given header actor h identified =
      elim (optional_actor-cases lower uuid_of (tokens settings outside) (identity settings) given
        header actor identified) [
          | inl (check, c, built, offered, checked) ↦
              let (claims, decoded, made) =
                verify-Claims outside.decode c.credentials actor
                  (by_tokens settings.identity_backend c check built ∙ checked) in
              (c, claims, offered, decoded, made)
          | inr (here, _, _) ↦ absurd (elsewhere settings.app_env h here)
        ]
    where
      by_tokens :
          (backend : IdentityBackend) (c : Credentials) (check : Text → Result Actor)
          → tokens_for backend outside ≡ some check
          → verify outside.decode c.credentials ≡ check c.credentials
      by_tokens jwt c check e = ap (λ (f : Text → Result Actor). f c.credentials) (some-eq e)
      by_tokens fake c check e = absurd (cc e)

      elsewhere :
          (env : AppEnv)
          → (elim env as (λ e. Bool) [ staging ↦ true | prod ↦ true | _ ↦ false ]) ≡ true
          → (elim env as (λ e. Bool) [ local ↦ true | _ ↦ false ]) ≡ true
          → ⊥
      elsewhere local p q = cc p
      elsewhere test p q = cc p
      elsewhere staging p q = cc q
      elsewhere prod p q = cc q
