-- ===== src/Outbox.antt =====
-- The outbox: infrastructure/messaging/outbox, the in-memory store's side of it, and the
-- envelope of infrastructure/messaging/serialization.py.
pub mod Envelope
pub mod Dispatcher
use recommendation_service.Base.{ℕ, Bool, true, false, not, ◌&&◌, Option, none, some}
use recommendation_service.Base.Effects.{Error}
use recommendation_service.Base.Text.{Text}
use recommendation_service.Json.{Fields}

-- `OutboxRecord`. Its `headers` are written and read nowhere; of `last_error` the kind is kept.
pub record OutboxRecord (F : Type 0) : Type 0 where
  pub id : ℕ
  pub aggregate_id : ℕ
  pub aggregate_type : Text
  pub event_type : Text
  pub payload : Fields F
  pub occurred_at : ℕ
  pub topic : Text
  pub partition_key : Text
  pub correlation_id : Option Text
  pub published_at : Option ℕ
  pub attempts : ℕ
  pub last_error : Option Error
  pub next_attempt_at : Option ℕ
  pub dead_lettered : Bool

abbrev pub is_none : {A : Type 0} → Option A → Bool
is_none none = true
is_none (some a) = false

abbrev pub is_pending : {F : Type 0} → OutboxRecord F → Bool
is_pending letter = is_none letter.published_at && not letter.dead_lettered
