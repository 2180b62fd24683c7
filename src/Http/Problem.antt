-- ===== src/Http/Problem.antt =====
-- presentation/http/errors.py: the responses that exceptions become. The text of an exception, `str(exc)`,
-- and the correlation id of the request are given. A response keeps its status, its challenge and
-- its body; the media type is the same on all.
use recommendation_service.Base.{
  ℕ, ◌≡◌, refl, ◌↔◌, ◌⊎◌, inl, inr, Option, none, some, List, [], if◌then◌else◌, ◌++◌, ◌≤◌, map,
  arith, drop, false, nat_beq,
}
use recommendation_service.Access.{status_of}
use recommendation_service.Base.Dict.{get_or}
use recommendation_service.Base.Effects.{
  Error, invariant_violation, not_found, forbidden, authentication, authorization,
  debug_auth_disabled, provider_unavailable, connection_lost, value_error, foreign,
}
use recommendation_service.Base.Text.{Text, text, text_eq, is_empty, join}
use recommendation_service.Json.{Fields, integer, string, object, end, field, get}

pub record Response (F : Type 0) : Type 0 where
  pub status : ℕ
  pub www_authenticate : Option Text
  pub body : Fields F

-- `_TITLE_MAP.get(type(exc), "BAD_REQUEST")`
unfoldable pub title_of : Error → Text
title_of invariant_violation = text "INVALID_ARGUMENT"
title_of not_found = text "NOT_FOUND"
title_of forbidden = text "PERMISSION_DENIED"
title_of authentication = text "UNAUTHENTICATED"
title_of authorization = text "PERMISSION_DENIED"
title_of debug_auth_disabled = text "PERMISSION_DENIED"
title_of _ = text "BAD_REQUEST"

-- `_STATUS_MAP.get(type(exc), 400)`
abbrev known_status : Error → ℕ
unfolding status_of
known_status provider_unavailable = 400
known_status connection_lost = 400
known_status value_error = 400
known_status foreign = 400
known_status e = status_of e

-- One of `exc.errors()`, of which `loc` is given by the text of its parts.
abbrev describe_error : List Text × Text → Text
unfolding join
describe_error (loc, msg) = join (text ".") (drop 1 loc) ++ (text ": " ++ msg)

-- What the registered handlers answer: an exception with its text, or FastAPI's
-- `RequestValidationError`, of which `exc.errors()` is given. `HTTPException`, which FastAPI answers
-- itself, is not among them.
pub data Raised : Type 0 where
  thrown : Error → (message : Text) → Raised
  request_invalid : List (List Text × Text) → Raised

-- The same exception with another text.
abbrev pub reworded : Raised → Text → Raised
reworded (thrown e message) other = thrown e other
reworded (request_invalid errors) other = request_invalid errors

-- The statuses that callers can rely on.
pub data Promised : Raised → ℕ → Type 0 where
  unidentified : (message : Text) → Promised (thrown authentication message) 401
  not_permitted : (message : Text) → Promised (thrown forbidden message) 403
  lacks_role : (message : Text) → Promised (thrown authorization message) 403
  debug_refused : (message : Text) → Promised (thrown debug_auth_disabled message) 403
  missing : (message : Text) → Promised (thrown not_found message) 404
  broken_rule : (message : Text) → Promised (thrown invariant_violation message) 422
  malformed : (errors : List (List Text × Text)) → Promised (request_invalid errors) 422
  no_provider : (message : Text) → Promised (thrown provider_unavailable message) 500
  no_connection : (message : Text) → Promised (thrown connection_lost message) 500
  bad_value : (message : Text) → Promised (thrown value_error message) 500
  unforeseen : (message : Text) → Promised (thrown foreign message) 500

-- No challenge, where the status is not 401.
unchallenged : (n : ℕ) → nat_beq n 401 ≡ false → ((none ≡ some (text "Bearer")) ↔ (n ≡ 401))
unchallenged n k = (λ h. cc h, λ h. ground (arith, h, k))

module _ {F : Type 0} (correlation_id : Option Text) where
  -- `_problem`
  unfoldable pub problem : (status : ℕ) (title detail reason : Text) → Response F
  problem status title detail reason = record {
    status = status;
    www_authenticate = none;
    body = field (text "type") (string (text "about:blank")) (
        field (text "title") (string title) (
          field (text "status") (integer status) (
            field (text "detail") (string detail) (
              field (text "reason") (string (if is_empty reason then title else reason)) (
                field (text "details") (object end)
                  (field (text "trace_id") (string (get_or correlation_id [])) end))))));
  }

  -- `_handle_known_error`
  unfoldable pub handle_known_error : Error → (message : Text) → Response F
  unfolding problem title_of status_of
  handle_known_error debug_auth_disabled message =
      problem (known_status debug_auth_disabled) (title_of debug_auth_disabled)
        (text "Debug authentication is not available.") []
  handle_known_error authentication message =
      record (problem (known_status authentication) (title_of authentication) message []) {
        www_authenticate = some (text "Bearer");
      }
  handle_known_error e message = problem (known_status e) (title_of e) message []

  -- `_handle_unexpected_error`
  unfoldable pub handle_unexpected_error : Response F
  unfolding problem
  handle_unexpected_error =
      problem 500 (text "INTERNAL") (text "Internal server error.") (text "INTERNAL")

  -- `_handle_validation_error`
  unfoldable pub handle_validation_error : List (List Text × Text) → Response F
  unfolding problem join
  handle_validation_error errors =
      problem 422 (text "INVALID_ARGUMENT") (join (text "; ") (map describe_error errors))
        (text "VALIDATION_FAILED")

  -- The handler that `register_exception_handlers` gives each exception.
  unfoldable pub response_to : Raised → Response F
  unfolding handle_known_error handle_unexpected_error handle_validation_error
  response_to (thrown provider_unavailable message) = handle_unexpected_error
  response_to (thrown connection_lost message) = handle_unexpected_error
  response_to (thrown value_error message) = handle_unexpected_error
  response_to (thrown foreign message) = handle_unexpected_error
  response_to (thrown e message) = handle_known_error e message
  response_to (request_invalid errors) = handle_validation_error errors

  -- What a problem response tells its caller.
  pub record Told (status : ℕ) (response : Response F) : Type 0 where
    pub coded : response.status ≡ status
    pub repeated : get response.body (text "status") ≡ some (integer status)
    pub traced : get response.body (text "trace_id") ≡ some (string (get_or correlation_id []))
    pub challenged : (response.www_authenticate ≡ some (text "Bearer")) ↔ (status ≡ 401)

  problem-Told :
      (status : ℕ) (challenge : Option Text) (title detail reason : Text)
      → ((challenge ≡ some (text "Bearer")) ↔ (status ≡ 401))
      → Told status (record (problem status title detail reason) { www_authenticate = challenge })
  unfolding problem get
  problem-Told status challenge title detail reason h = record {
    coded = refl;
    repeated = refl;
    traced = refl;
    challenged = h;
  }

  internal-Told : Told 500 handle_unexpected_error
  unfolding handle_unexpected_error problem
  internal-Told = problem-Told 500 none _ _ (text "INTERNAL") (unchallenged _ refl)

  pub response_to-Told :
      (exception : Raised) (other : Text)
      → (status : ℕ) × Promised exception status
        × Told status (response_to exception)
        × ((response_to exception ≡ response_to (reworded exception other)) ⊎ (status ≤ 499))
  unfolding response_to problem status_of
  response_to-Told (thrown invariant_violation message) other = (
    422,
    broken_rule message,
    problem-Told 422 none _ message [] (unchallenged _ refl),
    inr (omega arith),
  )
  response_to-Told (thrown not_found message) other = (
    404,
    missing message,
    problem-Told 404 none _ message [] (unchallenged _ refl),
    inr (omega arith),
  )
  response_to-Told (thrown forbidden message) other = (
    403,
    not_permitted message,
    problem-Told 403 none _ message [] (unchallenged _ refl),
    inr (omega arith),
  )
  response_to-Told (thrown authentication message) other = (
    401,
    unidentified message,
    problem-Told 401 (some (text "Bearer")) _ message [] (λ h. refl, λ h. refl),
    inr (omega arith),
  )
  response_to-Told (thrown authorization message) other = (
    403,
    lacks_role message,
    problem-Told 403 none _ message [] (unchallenged _ refl),
    inr (omega arith),
  )
  response_to-Told (thrown debug_auth_disabled message) other =
      (403, debug_refused message, problem-Told 403 none _ _ [] (unchallenged _ refl), inl refl)
  response_to-Told (thrown provider_unavailable message) other =
      (500, no_provider message, internal-Told, inl refl)
  response_to-Told (thrown connection_lost message) other =
      (500, no_connection message, internal-Told, inl refl)
  response_to-Told (thrown value_error message) other =
      (500, bad_value message, internal-Told, inl refl)
  response_to-Told (thrown foreign message) other =
      (500, unforeseen message, internal-Told, inl refl)
  response_to-Told (request_invalid errors) other = (
    422,
    malformed errors,
    problem-Told 422 none _ _ (text "VALIDATION_FAILED") (unchallenged _ refl),
    inr (omega arith),
  )
