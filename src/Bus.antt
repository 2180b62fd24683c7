-- ===== src/Bus.antt =====
-- infrastructure/messaging/bus/in_process.py, and presentation/consumers/registry.py on it. A
-- handler shares the program's state `S`. Nothing suspends a handler over the in-memory adapters, so
-- that `asyncio.gather` runs the handlers of a record one after the other, all of them, and raises
-- what the first of them raised.
pub mod Registry
use recommendation_service.Base.{
  ℕ, Bool, true, false, Option, none, some, List, [], ◌∷◌, ◌++◌, if◌then◌else◌,
}
use recommendation_service.Base.Dict.{Dict, lookup, put, get_or}
use recommendation_service.Base.Effects.{Result, Exec, ok, err, connection_lost, and_then}
use recommendation_service.Base.Text.{Text, text, text_eq}
use recommendation_service.Consumers.{
  Delivered, Kind, game_published_kind, game_withdrawn_kind, purchase_completed_kind,
  review_posted_kind, deliver,
}
use recommendation_service.Outbox.{OutboxRecord}
use recommendation_service.Runtime.{Runtime}
use recommendation_service.Store.{MemoryStore}

abbrev pub Handler : (F S : Type 0) → Type 0
Handler F S = OutboxRecord F → Exec S (Unit {0})

-- `_delivered` keeps each record as it stood when it was published; the dispatcher writes to the same
-- object afterwards.
pub record InProcessEventBus (F S : Type 0) : Type 0 where
  pub handlers : Dict Text (List (Handler F S))
  pub delivered : List (OutboxRecord F)
  pub down : Bool

-- What the consumers read of a record.
abbrev pub message_of : {F : Type 0} → OutboxRecord F → Delivered F
message_of letter = record {
  id = letter.id;
  event_type = letter.event_type;
  payload = letter.payload;
}

module _ {F S : Type 0} where
  -- `__init__`
  abbrev pub quiet : InProcessEventBus F S
  quiet = record { handlers = []; delivered = []; down = false }

  unfoldable pub subscribe :
      (topic event_type : Text) → Handler F S → InProcessEventBus F S → InProcessEventBus F S
  unfolding put lookup
  subscribe topic event_type handler bus = record bus {
    handlers =
        put event_type (get_or (lookup event_type bus.handlers) [] ++ handler ∷ []) bus.handlers;
  }

  abbrev pub force_down : Bool → InProcessEventBus F S → InProcessEventBus F S
  force_down down bus = record bus { down = down }

  -- `asyncio.gather(*(handler(record) for handler in handlers))`
  unfoldable pub gather : List (Handler F S) → Handler F S
  gather [] letter s = (ok tt, s)
  gather (handler ∷ handlers) letter s =
      let (answer, t) = handler letter s in
      let (rest, u) = gather handlers letter t in (and_then answer (λ _. rest), u)

  unfoldable pub publish : OutboxRecord F → Exec (InProcessEventBus F S × S) (Unit {0})
  unfolding lookup gather
  publish letter (bus, s) =
      if bus.down
      then (err connection_lost, (bus, s))
      else let (answer, t) = gather (get_or (lookup letter.event_type bus.handlers) []) letter s in
        (answer, (record bus { delivered = bus.delivered ++ letter ∷ [] }, t))

-- GAME_PUBLISHED, GAME_WITHDRAWN, PURCHASE_COMPLETED and REVIEW_POSTED
unfoldable pub name_of : Kind → Text
name_of game_published_kind = text "arcadia.catalog.v1.GamePublished"
name_of game_withdrawn_kind = text "arcadia.catalog.v1.GameWithdrawn"
name_of purchase_completed_kind = text "arcadia.order.v1.PurchaseCompleted"
name_of review_posted_kind = text "arcadia.review.v1.ReviewPosted"

-- The topics of the settings.
pub record Topics : Type 0 where
  pub game_events : Text
  pub purchase_events : Text
  pub review_events : Text

module _ {F : Type 0} ⦃r : Runtime F⦄ (topics : Topics) (backfill_limit now : ℕ) where
  abbrev pub handler_of : Kind → Handler F (MemoryStore F)
  handler_of kind letter = deliver backfill_limit now kind (message_of letter)

  unfoldable pub register_consumers :
      InProcessEventBus F (MemoryStore F) → InProcessEventBus F (MemoryStore F)
  unfolding name_of subscribe
  register_consumers bus =
      subscribe topics.review_events (name_of review_posted_kind) (handler_of review_posted_kind) (
        subscribe topics.purchase_events (name_of purchase_completed_kind)
          (handler_of purchase_completed_kind)
          (subscribe topics.game_events (name_of game_withdrawn_kind)
            (handler_of game_withdrawn_kind)
            (subscribe topics.game_events (name_of game_published_kind)
              (handler_of game_published_kind) bus)))
