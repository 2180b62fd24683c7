-- ===== src/Http/Health.antt =====
-- presentation/http/health.py and infrastructure/health.py. `ping` of a dependency is what its call
-- gives; the text of an error is not kept.
use recommendation_service.Base.{
  ℕ, ◌≡◌, ◌↔◌, refl, Bool, true, false, not, ◌&&◌, Option, none, some, List, [], ◌∷◌, ◌++◌,
  if◌then◌else◌, arith,
}
use recommendation_service.Base.Effects.{Result, ok, err}
use recommendation_service.Base.Text.{Text, text}

pub data Status : Type 0 where
  up down degraded : Status

-- `check(probe, critical=critical)`
unfoldable pub check : Bool → Result (Unit {0}) → Status
check critical (ok answer) = up
check true (err e) = down
check false (err e) = degraded

-- What the container holds that the report asks.
pub record Adapters : Type 0 where
  pub persistence : Result (Unit {0})
  pub dispatcher_is_running : Bool
  pub cache : Option (Result (Unit {0}))
  pub generation_enabled : Bool
  pub scheduler_is_running : Bool

pub record Readiness : Type 0 where
  pub status_code : ℕ
  pub status : Status
  pub checks : List (Text × Status)

abbrev pub cache_check : Option (Result (Unit {0})) → List (Text × Status)
unfolding check
cache_check none = []
cache_check (some ping) = (text "cache", check false ping) ∷ []

abbrev pub is_down : Status → Bool
is_down down = true
is_down _ = false

unfoldable pub all_standing : List (Text × Status) → Bool
all_standing [] = true
all_standing (entry ∷ checks) = not (is_down entry.1) && all_standing checks

unfoldable pub readyz : Adapters → Readiness
unfolding check cache_check all_standing
readyz adapters =
    let scheduler = if adapters.scheduler_is_running then up else degraded in
    let checks =
      (text "persistence", check true adapters.persistence)
        ∷ (text "outbox_dispatcher", (if adapters.dispatcher_is_running then up else down))
        ∷ cache_check adapters.cache
      ++ (if adapters.generation_enabled
          then (text "generation_scheduler", scheduler) ∷ []
          else []) in
    record {
      status_code = if all_standing checks then 200 else 503;
      status = if all_standing checks then up else down;
      checks = checks;
    }

abbrev pub answers : Result (Unit {0}) → Bool
answers (ok x) = true
answers (err e) = false

rest_standing :
    (cache : Option (Result (Unit {0}))) (enabled running : Bool)
    → all_standing (
        cache_check cache
        ++ (if enabled
            then (text "generation_scheduler", (if running then up else degraded)) ∷ []
            else []))
      ≡ true
unfolding all_standing cache_check check
rest_standing none false running = refl
rest_standing none true true = refl
rest_standing none true false = refl
rest_standing (some (ok x)) false running = refl
rest_standing (some (ok x)) true true = refl
rest_standing (some (ok x)) true false = refl
rest_standing (some (err e)) false running = refl
rest_standing (some (err e)) true true = refl
rest_standing (some (err e)) true false = refl

abbrev code : Bool → ℕ
code b = if b then 200 else 503

-- A replica is ready, with the status 200, exactly where its persistence answers and its dispatcher
-- runs: neither the cache nor the scheduler takes it out of the load balancer.
readyz_iff :
    (adapters : Adapters)
    → ((readyz adapters).status_code ≡ 200)
      ↔ ((answers adapters.persistence && adapters.dispatcher_is_running) ≡ true)
unfolding readyz check cache_check all_standing
readyz_iff adapters =
    rw (rest_standing adapters.cache adapters.generation_enabled adapters.scheduler_is_running)
      (by_cases adapters.persistence adapters.dispatcher_is_running)
  where
    by_cases :
        (persistence : Result (Unit {0})) (running : Bool)
        → (code (
              not (is_down (check true persistence))
              && (not (is_down (if running then up else down)) && true))
            ≡ 200)
          ↔ ((answers persistence && running) ≡ true)
    by_cases (ok x) true = (λ _. refl, λ _. refl)
    by_cases (ok x) false = (λ h. absurd (omega (arith, h)), λ h. absurd (cc h))
    by_cases (err e) running = (λ h. absurd (omega (arith, h)), λ h. absurd (cc h))
