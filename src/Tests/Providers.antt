-- ===== src/Tests/Providers.antt =====
-- The theorems about the providers, and about what the settings select, at concrete inputs.
use recommendation_service.Base.{
  ℕ, ◌≡◌, ◌⊎◌, refl, false, Option, none, some, List, [], ◌∷◌, map, arith, All, length, take,
  filter,
}
use recommendation_service.Base.Dict.{update}
use recommendation_service.Base.Effects.{ok, err, value_error}
use recommendation_service.Base.Sort.{sort}
use recommendation_service.Base.Text.{text, strip}
use recommendation_service.Access.{Actor, Credentials, optional_actor, support}
use recommendation_service.Adapters.Embedder.{remote_embed}
use recommendation_service.Adapters.Embedder.Shape.{Fits, vector_json}
use recommendation_service.Adapters.Explainer.{ChatRequest, explain}
use recommendation_service.Adapters.Explainer.Reasons.{
  Justified, heard, told, explain-Justified, Ended, explain-cases,
}
use recommendation_service.Catalog.{embedding_text}
use recommendation_service.Catalog.Laws.{IsProfile}
use recommendation_service.Composition.{Outside, embedder, tokens, identity}
use recommendation_service.Composition.EmbeddingPass.{
  embedding_pass_total, with_vectors, store_with,
}
use recommendation_service.Composition.Startup.{embedder-Fits, production-Claims}
use recommendation_service.Generate.{ExplanationRequest, embed_pending}
use recommendation_service.Http.Token.{Claims, verify}
use recommendation_service.Json.{
  Json, Fields, null, string, array, object, nil, item, end, field, of_list,
}
use recommendation_service.Settings.{
  Settings, validated, local, prod, memory, jwt, fake, in_memory, hashing, huggingface, silent,
  sparse,
}
use recommendation_service.Store.{begin}
use recommendation_service.Store.Repositories.{needing_embedding}
use recommendation_service.Tests.Domain.{racer-IsProfile}
use recommendation_service.Tests.Values.{numbers, shop, one}

abbrev pub defaults : Settings
defaults = record {
  app_env = local;
  persistence_backend = memory;
  identity_backend = fake;
  cache_backend = in_memory;
  embedding_backend = hashing;
  explanation_backend = silent;
  scoring_backend = sparse;
  jwt_secret = text "CHANGE_ME_IN_PRODUCTION";
  jwt_issuer = text "arcadia-auth";
  jwt_audience = text "arcadia";
  database_url = text "localhost";
  topic_reco_events = text "reco-events";
  service_name = text "recommendation-service";
  generation_batch_size = 500;
  catalogue_scan_limit = 500;
  embedding_dimensions = 2;
  embedding_endpoint = [];
  embedding_api_key = [];
  embedding_batch_size = 32;
  embedding_prefix = [];
  explanation_base_url = [];
  explanation_api_key = [];
  explanation_model = text "gpt-4o-mini";
  explanation_max_tokens = 800;
}

abbrev deployed : Settings
deployed = record defaults { app_env = prod; identity_backend = jwt }

abbrev supporter : Fields ℕ
supporter = field (text "sub") (string (9 ∷ [])) (field (text "role") (string (text "SUPPORT")) end)

abbrev pub outside : Outside ℕ
outside = record {
  digest = λ s. record { b0 = 0; b1 = 0; b2 = 0; b3 = length s; b4 = length s };
  embedding_answer = λ q. some (array (of_list (map vector_json ((one ∷ one ∷ []) ∷ []))));
  chat_answer = λ q. some (
      object (
        field (text "choices")
          (array (
            item
              (object (
                field (text "message") (object (field (text "content") (string (text "{}")) end))
                  end))
              nil))
          end));
  float_of_text = λ s. err value_error;
  loads = λ s. some (
      object (
        field (text "reasons")
          (array (
            item
              (object (
                field (text "id") (string (1 ∷ []))
                  (field (text "reason") (string (text "fast")) end)))
              nil))
          end));
  decode = λ s. some supporter;
}

pub defaults-validated : validated (λ s. s) defaults ≡ ok defaults
unfolding validated
defaults-validated = refl

abbrev remote : Settings
remote = record defaults { embedding_backend = huggingface; embedding_endpoint = text "https://e" }

remote-validated : validated (λ s. s) remote ≡ ok remote
unfolding validated
remote-validated = refl

remote-answers : embedder remote outside (text "Racer" ∷ []) ≡ ok ((one ∷ one ∷ []) ∷ [])
unfolding embedder remote_embed of_list
remote-answers = refl

embedder-Fits_example : Fits 2 (text "Racer" ∷ []) ((one ∷ one ∷ []) ∷ [])
embedder-Fits_example =
    embedder-Fits (λ s. s) remote outside (text "Racer" ∷ []) ((one ∷ one ∷ []) ∷ [])
      remote-validated remote-answers

shop_pending-IsProfile : All IsProfile (needing_embedding 32 (begin shop))
unfolding needing_embedding strip take sort filter update
shop_pending-IsProfile = (
  record { titled = refl; in_bounds = omega arith; described = λ h. cc h },
  (racer-IsProfile, tt),
)

embedding_pass_total_example :
    let pending = needing_embedding 32 (begin shop) in
    (embed_pending (embedder defaults outside) 32 shop ≡ (ok 0, shop))
    ⊎ ((vectors : List (List ℕ)) × Fits 2 (map embedding_text pending) vectors
        × (embed_pending (embedder defaults outside) 32 shop
            ≡ (ok (length pending), store_with shop (with_vectors pending vectors))))
embedding_pass_total_example =
    embedding_pass_total (λ s. s) defaults outside 32 shop defaults-validated shop_pending-IsProfile

abbrev bearer_token : Credentials
bearer_token = record { scheme = text "Bearer"; credentials = text "t" }

abbrev agent : Actor
agent = record { user_id = 9; role = support; is_banned = false }

agent-identified :
    optional_actor numbers.lower numbers.uuid_of
      (tokens deployed outside)
      (identity deployed)
      (some bearer_token)
      none
    ≡ ok (some agent)
unfolding optional_actor tokens verify
agent-identified = refl

production-Claims_example :
    (c : Credentials) × (claims : Fields ℕ) × (some bearer_token ≡ some c)
    × (outside.decode c.credentials ≡ some claims)
    × Claims claims agent
production-Claims_example =
    production-Claims numbers.lower numbers.uuid_of deployed outside (some bearer_token) none agent
      refl agent-identified

abbrev about_racer : ExplanationRequest
about_racer = record {
  liked = [];
  candidates = record { game_id = 1; title = text "Racer"; genres = []; tags = [] } ∷ [];
}

explained-racer :
    explain outside.chat_answer outside.loads (text "u") [] (text "m") 800 about_racer
    ≡ ok ((1, text "fast" ∷ []) ∷ [])
unfolding explain
explained-racer = refl

explain-Justified_example :
    All
      (Justified about_racer.candidates (
        heard outside.loads
          (told outside.chat_answer outside.loads (text "u") [] (text "m") 800 about_racer)))
      ((1, text "fast" ∷ []) ∷ [])
explain-Justified_example =
    explain-Justified outside.chat_answer outside.loads (text "u") [] (text "m") 800 about_racer
      ((1, text "fast" ∷ []) ∷ []) explained-racer

-- An endpoint that answers without a content.
abbrev mute : ChatRequest → Option (Json ℕ)
mute q = some (
    object (
      field (text "choices")
        (array (
          item (object (field (text "message") (object (field (text "content") null end)) end))
            nil))
        end))

explain-cases_example :
    Ended outside.loads
      (told mute outside.loads (text "u") [] (text "m") 800 about_racer)
      (explain mute outside.loads (text "u") [] (text "m") 800 about_racer)
explain-cases_example =
    explain-cases mute outside.loads (text "u") [] (text "m") 800 about_racer refl
