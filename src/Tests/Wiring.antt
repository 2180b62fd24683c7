-- ===== src/Tests/Wiring.antt =====
-- The registered consumers at concrete records.
use recommendation_service.Base.{ℕ, ◌≡◌, refl, [], ◌∷◌, map, length, true, false}
use recommendation_service.Base.Effects.{ok, err, connection_lost}
use recommendation_service.Base.Text.{text}
use recommendation_service.Bus.{Topics, publish, message_of, name_of}
use recommendation_service.Bus.Registry.{
  registered, counted, recorded, publish-name_of, drain_once-own,
}
use recommendation_service.Consumers.{purchase_completed_kind, deliver}
use recommendation_service.Json.{object, string, end, field}
use recommendation_service.Outbox.{OutboxRecord}
use recommendation_service.Outbox.Dispatcher.{due, drain_once}
use recommendation_service.Outbox.Envelope.{event_type}
use recommendation_service.Store.{MemoryStore}
use recommendation_service.Tests.Values.{numbers, shop, fresh_letter}

abbrev topics : Topics
topics = record {
  game_events = text "game-events";
  purchase_events = text "purchase-events";
  review_events = text "review-events";
}

abbrev receipt : OutboxRecord ℕ
receipt = record fresh_letter {
  event_type = text "arcadia.order.v1.PurchaseCompleted";
  payload =
      field (text "payload")
        (object (
          field (text "recipient_id") (string (7 ∷ []))
            (field (text "game_id") (string (3 ∷ [])) end)))
        end;
}

receipt_type : receipt.event_type ≡ name_of purchase_completed_kind
unfolding name_of
receipt_type = refl

publish-name_of_example :
    let (answer, t) = deliver 10 50 purchase_completed_kind (message_of receipt) shop in
    publish receipt (registered topics 10 50 false [], shop)
    ≡ (answer, (registered topics 10 50 false (receipt ∷ []), t))
publish-name_of_example =
    publish-name_of topics 10 50 purchase_completed_kind receipt [] shop receipt_type

-- A store with one letter of the service's own.
abbrev lettered : MemoryStore ℕ
lettered = record shop { outbox = (100, record fresh_letter { event_type = event_type }) ∷ [] }

drain_once-own_example :
    let letters = due 50 10 lettered in
    (drain_once publish (λ n. 0) 50 10 lettered (registered topics 10 50 false [], shop) ≡ (
      length letters,
      recorded (λ n. 0) 50 (ok tt) letters lettered,
      (registered topics 10 50 false (map counted letters), shop),
    ))
    × (drain_once publish (λ n. 0) 50 10 lettered (registered topics 10 50 true [], shop) ≡ (
      0,
      recorded (λ n. 0) 50 (err connection_lost) letters lettered,
      (registered topics 10 50 true [], shop),
    ))
drain_once-own_example = drain_once-own topics 10 50 (λ n. 0) 50 10 lettered [] shop (refl, tt)
