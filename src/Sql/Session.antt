-- ===== src/Sql/Session.antt =====
-- infrastructure/persistence/sql/unit_of_work.py: the rows that SqlOutbox and SqlProcessedEventStore
-- add inside a session. The transaction round them is the database's.
pub mod Agreement
use recommendation_service.Base.{
  ℕ, Bool, true, false, Option, none, some, List, [], ◌∷◌, ◌++◌, ◌==◌, if◌then◌else◌, map, contains,
  nat_eq,
}
use recommendation_service.Base.Effects.{Result, Exec, ok, err, modify, pure, ◌>>=◌, ◌>>◌, continue}
use recommendation_service.Base.Text.{Text}
use recommendation_service.Outbox.Envelope.{
  aggregate_type, event_type, event_envelope, partition_key,
}
use recommendation_service.Recommendation.{RecommendationGenerated}
use recommendation_service.Runtime.{Runtime}
use recommendation_service.Sql.{Moment, zoned, GameProfileRow, UserPreferenceRow, RecommendationRow}
use recommendation_service.Sql.Queries.{OutboxRow, OwnershipRow}

pub record ProcessedEventRow : Type 0 where
  pub event_id : ℕ
  pub processed_at : Moment

-- The tables that a session writes to beside those of the repositories.
pub record Tables (F : Type 0) : Type 0 where
  pub outbox : List (OutboxRow F)
  pub processed_events : List ProcessedEventRow

-- SqlProcessedEventStore
unfoldable pub seen_row : ℕ → List ProcessedEventRow → Bool
unfolding contains
seen_row event_id rows = contains (map (λ (row : ProcessedEventRow). row.event_id) rows) event_id

unfoldable pub mark_row : (event_id now : ℕ) → List ProcessedEventRow → List ProcessedEventRow
unfolding seen_row
mark_row event_id now rows =
    if seen_row event_id rows
    then rows
    else rows ++ record { event_id = event_id; processed_at = zoned now } ∷ []

module _ {F : Type 0} ⦃r : Runtime F⦄ where
  -- One row of `SqlOutbox.enqueue`
  unfoldable pub outbox_row : Text → Option Text → RecommendationGenerated F → OutboxRow F
  unfolding event_envelope partition_key
  outbox_row topic correlation_id event = record {
    id = event.event_id;
    aggregate_type = aggregate_type;
    aggregate_id = event.aggregate_id;
    event_type = event_type;
    topic = topic;
    partition_key = partition_key event;
    payload = event_envelope event correlation_id;
    correlation_id = correlation_id;
    occurred_at = zoned event.occurred_at;
    published_at = none;
    attempts = 0;
    last_error = none;
    next_attempt_at = none;
    dead_lettered = false;
  }

  unfoldable pub enqueue_rows :
      Text → Option Text → List (RecommendationGenerated F) → Tables F → Tables F
  unfolding outbox_row
  enqueue_rows topic correlation_id events tables = record tables {
    outbox = tables.outbox ++ map (outbox_row topic correlation_id) events;
  }

  unfoldable pub mark_event : (event_id now : ℕ) → Tables F → Tables F
  unfolding mark_row
  mark_event event_id now tables = record tables {
    processed_events = mark_row event_id now tables.processed_events;
  }
