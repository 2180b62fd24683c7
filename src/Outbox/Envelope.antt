-- ===== src/Outbox/Envelope.antt =====
-- serialization.py: the platform's envelope round one event. A datetime is written by `isoformat`,
-- an id by `str`, a source by its name.
use recommendation_service.Base.{false, Option, none, some, ◌++◌, map}
use recommendation_service.Base.Text.{Text, text}
use recommendation_service.Json.{
  Json, Fields, integer, decimal, string, array, object, null, end, field, of_list,
}
use recommendation_service.Outbox.{OutboxRecord}
use recommendation_service.Recommendation.{
  RecommendationSource, RecommendationGenerated, EventItem, content, collab, hybrid, fallback,
}
use recommendation_service.Runtime.{Runtime}

abbrev pub producer : Text
producer = text "recommendation-service"

abbrev pub aggregate_type : Text
aggregate_type = text "recommendation-set"

-- `NAMESPACE` and the name of the class
abbrev pub event_type : Text
event_type = text "arcadia.reco.v1" ++ text "." ++ text "RecommendationGenerated"

unfoldable pub source_text : RecommendationSource → Text
source_text content = text "CONTENT"
source_text collab = text "COLLAB"
source_text hybrid = text "HYBRID"
source_text fallback = text "FALLBACK"

abbrev pub or_null : {F : Type 0} → Option Text → Json F
or_null none = null
or_null (some s) = string s

module _ {F : Type 0} ⦃r : Runtime F⦄ where
  -- `_primitive` of one element of `items`
  unfoldable pub item_payload : EventItem F → Json F
  unfolding source_text
  item_payload i = object (
      field (text "game_id") (string (r.uuid_text i.game_id)) (
        field (text "score") (decimal i.score) (
          field (text "source") (string (source_text i.source))
            (field (text "rank") (integer i.rank) end))))

  unfoldable pub event_payload : RecommendationGenerated F → Fields F
  unfolding item_payload of_list
  event_payload event = field (text "user_id") (string (r.uuid_text event.user_id)) (
      field (text "generated_at") (string (r.iso_text event.generated_at))
        (field (text "items") (array (of_list (map item_payload event.items))) end))

  unfoldable pub event_envelope : RecommendationGenerated F → Option Text → Fields F
  unfolding event_payload
  event_envelope event correlation_id =
      field (text "event_id") (string (r.uuid_text event.event_id)) (
        field (text "event_type") (string event_type) (
          field (text "schema_version") (integer 1) (
            field (text "occurred_at") (string (r.iso_text event.occurred_at)) (
              field (text "producer") (string producer) (
                field (text "aggregate_type") (string aggregate_type) (
                  field (text "aggregate_id") (string (r.uuid_text event.aggregate_id)) (
                    field (text "correlation_id") (or_null correlation_id)
                      (field (text "payload") (object (event_payload event)) end))))))))

  unfoldable pub partition_key : RecommendationGenerated F → Text
  partition_key event = r.uuid_text event.aggregate_id

  -- One record of `MemoryOutbox.enqueue`.
  unfoldable pub letter_of : Text → Option Text → RecommendationGenerated F → OutboxRecord F
  unfolding event_envelope partition_key
  letter_of topic correlation_id event = record {
    id = event.event_id;
    aggregate_id = event.aggregate_id;
    aggregate_type = aggregate_type;
    event_type = event_type;
    payload = event_envelope event correlation_id;
    occurred_at = event.occurred_at;
    topic = topic;
    partition_key = partition_key event;
    correlation_id = correlation_id;
    published_at = none;
    attempts = 0;
    last_error = none;
    next_attempt_at = none;
    dead_lettered = false;
  }
