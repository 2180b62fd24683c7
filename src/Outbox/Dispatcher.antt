-- ===== src/Outbox/Dispatcher.antt =====
-- infrastructure/messaging/outbox/dispatcher.py over persistence/memory/outbox_store.py. A time is a
-- number of microseconds; the publisher is a parameter with a state of its own, and so is the
-- random part of the delay.
pub mod Progress
use recommendation_service.Base.{
  ℕ, ◌+◌, ◌-◌, ◌*◌, ◌^◌, Bool, true, false, ◌&&◌, Option, none, some, List, [], ◌∷◌, nat_eq,
  if◌then◌else◌, leb, take, filter, length,
}
use recommendation_service.Base.Dict.{put, values}
use recommendation_service.Base.Effects.{Result, Exec, ok, err}
use recommendation_service.Base.Sort.{sort}
use recommendation_service.Outbox.{OutboxRecord, is_pending}
use recommendation_service.Store.{MemoryStore}

abbrev pub max_attempts : ℕ
max_attempts = 5

-- `BASE_BACKOFF_SECONDS`
abbrev pub base_backoff : ℕ
base_backoff = 500000

abbrev pub backoff : ℕ → ℕ
backoff attempts = base_backoff * 2 ^ (attempts - 1)

abbrev pub has_come : ℕ → Option ℕ → Bool
has_come now none = true
has_come now (some at) = leb at now

abbrev pub succeeded : Result (Unit {0}) → ℕ
succeeded (ok _) = 1
succeeded (err e) = 0

module _ {F : Type 0} where
  -- MemoryOutboxStore.due
  unfoldable pub due : ℕ → ℕ → MemoryStore F → List (OutboxRecord F)
  due now limit store = take limit (
      sort (λ a b. leb a.occurred_at b.occurred_at)
        (filter (λ l. is_pending l && has_come now l.next_attempt_at) (values store.outbox)))

  unfoldable pub pending_count : MemoryStore F → ℕ
  pending_count store = length (filter is_pending (values store.outbox))

  unfoldable pub dlq_depth : MemoryStore F → ℕ
  dlq_depth store = length (filter (λ l. l.dead_lettered) (values store.outbox))

  -- `record_published` and `record_failure`
  abbrev pub record_letter : OutboxRecord F → MemoryStore F → MemoryStore F
  record_letter letter store = record store { outbox = put letter.id letter store.outbox }

  -- What `_publish` makes of a letter, by what the publisher answered. `jitter` is the random part
  -- of the delay, in microseconds, by the number of the attempt.
  unfoldable pub attempted :
      (jitter : ℕ → ℕ) (now : ℕ) → Result (Unit {0}) → OutboxRecord F → OutboxRecord F
  attempted jitter now (ok _) letter = record letter {
    attempts = letter.attempts + 1;
    published_at = some now;
    last_error = none;
  }
  attempted jitter now (err e) letter =
      if leb max_attempts (letter.attempts + 1)
      then record letter {
        attempts = letter.attempts + 1;
        last_error = some e;
        dead_lettered = true;
      }
      else record letter {
        attempts = letter.attempts + 1;
        last_error = some e;
        next_attempt_at =
            some (now + (backoff (letter.attempts + 1) + jitter (letter.attempts + 1)));
      }

  module _ {P : Type 0} (publisher : OutboxRecord F → Exec P (Unit {0})) (jitter : ℕ → ℕ)
      (now : ℕ) where
    -- The loop of `drain_once`. The publisher is handed the letter with its attempt counted.
    unfoldable pub drain :
        List (OutboxRecord F) → (published : ℕ) → MemoryStore F → P → (ℕ × MemoryStore F × P)
    unfolding attempted
    drain [] published store p = (published, store, p)
    drain (letter ∷ letters) published store p =
        let (answer, p') = publisher (record letter { attempts = letter.attempts + 1 }) p in
        drain letters (published + succeeded answer)
          (record_letter (attempted jitter now answer letter) store) p'

    -- OutboxDispatcher.drain_once
    unfoldable pub drain_once : (batch_size : ℕ) → MemoryStore F → P → (ℕ × MemoryStore F × P)
    unfolding due drain
    drain_once batch_size store p = drain (due now batch_size store) 0 store p
