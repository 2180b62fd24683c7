-- ===== src/Access.antt =====
-- presentation/http/deps/auth.py, domain/shared/actor.py, and the status of presentation/http/errors.py
-- that each exception is answered with. `verify` is the verification of a token.
pub mod Debug
use recommendation_service.Base.{
  ℕ, Bool, true, false, not, ◌&&◌, ◌||◌, Option, none, some, List, [], ◌∷◌, if◌then◌else◌, ◌==◌,
}
use recommendation_service.Base.Effects.{
  Error, Result, ok, err, and_then, invariant_violation, not_found, forbidden, authentication,
  authorization, debug_auth_disabled,
}
use recommendation_service.Base.Text.{Text, text, text_eq, is_empty}

pub data Role : Type 0 where
  basic_user developer support admin : Role

pub record Actor : Type 0 where
  pub user_id : ℕ
  pub role : Role
  pub is_banned : Bool

abbrev pub is_moderator : Actor → Bool
is_moderator actor = elim (actor.role) [ support ↦ true | admin ↦ true | _ ↦ false ]

-- The header `Authorization`, split by FastAPI.
pub record Credentials : Type 0 where
  pub scheme : Text
  pub credentials : Text

-- What the guard reads of the settings.
pub record Identity : Type 0 where
  pub is_local : Bool
  pub backend : Text

abbrev pub Verify : Type 0
Verify = Option (Text → Result Actor)

abbrev pub debug_actor : Option ℕ → Result (Option Actor)
debug_actor none = err authorization
debug_actor (some id) = ok (some (record { user_id = id; role = basic_user; is_banned = false }))

-- `lower` is `stlower`; `uuid_of` is `UUID(text)`, where `none` is `ValueError`.
module _ (lower : Text → Text) (uuid_of : Text → Option ℕ) where
  abbrev pub from_debug : Identity → Option Text → Result (Option Actor)
  from_debug identity none = ok none
  from_debug identity (some header) =
      if not (identity.is_local && identity.backend == text "fake")
      then err debug_auth_disabled
      else debug_actor (uuid_of header)

  abbrev pub from_token : (Text → Result Actor) → Credentials → Result (Option Actor)
  from_token verify given =
      if not (lower given.scheme == text "bearer") || is_empty given.credentials
      then err authentication
      else and_then (verify given.credentials) λ actor. ok (some actor)

  unfoldable pub optional_actor :
      Verify → Identity → Option Credentials → Option Text → Result (Option Actor)
  optional_actor (some verify) identity (some given) header = from_token verify given
  optional_actor (some verify) identity none header = from_debug identity header
  optional_actor none identity given header = from_debug identity header

abbrev pub current_actor : Option Actor → Result Actor
current_actor none = err authorization
current_actor (some actor) = ok actor

-- `require_roles(Role.SUPPORT, Role.ADMIN)`
abbrev pub require_moderator : Actor → Result Actor
require_moderator actor = if is_moderator actor then ok actor else err authorization

-- `_STATUS_MAP`, and 500 for what it does not name
unfoldable pub status_of : Error → ℕ
status_of invariant_violation = 422
status_of not_found = 404
status_of forbidden = 403
status_of authentication = 401
status_of authorization = 403
status_of debug_auth_disabled = 403
status_of _ = 500
