-- ===== src/Tests/Callers.antt =====
-- The theorem about callers at a concrete input.
use recommendation_service.Access.{Actor, Credentials, Identity, basic_user, optional_actor}
use recommendation_service.Access.Debug.{optional_actor-cases}
use recommendation_service.Base.{◌≡◌, refl, true, false, ◌⊎◌, none, some, ◌==◌}
use recommendation_service.Base.Effects.{Result, ok}
use recommendation_service.Base.Text.{Text, text, text_eq}

abbrev local_run : Identity
local_run = record { is_local = true; backend = text "fake" }

abbrev caller : Actor
caller = record { user_id = 7; role = basic_user; is_banned = false }

optional_actor-cases_example :
    ((check : Text → Result Actor) × (c : Credentials) × (none ≡ some check)
      × (none ≡ some c)
      × (check c.credentials ≡ ok caller))
    ⊎ ((local_run.is_local ≡ true)
        × ((local_run.backend == text "fake") ≡ true)
        × (caller.role ≡ basic_user))
optional_actor-cases_example =
    optional_actor-cases (λ s. s) (λ s. some 7) none local_run none (some (text "7")) caller
      (unfold optional_actor in refl)
