-- ===== src/Subscriber.antt =====
-- infrastructure/messaging/kafka/subscriber.py: the routing of a message to its handlers, the
-- retries, and the topic a message is moved to when they are used up. What others do to the
-- state `S` while the subscriber sleeps between two attempts is a parameter, `pause`.
pub mod Retries
use recommendation_service.Base.{
  ℕ, zero, suc, Bool, true, false, Option, none, some, List, [], ◌∷◌, ◌++◌, if◌then◌else◌, ◌==◌,
  reverse,
}
use recommendation_service.Base.Dict.{Dict, lookup, get_or}
use recommendation_service.Base.Effects.{
  Error, Result, Exec, ok, err, value_error, and_then, pure, lift, ◌>>=◌, ◌>>◌, continue,
}
use recommendation_service.Base.Text.{Text, text, text_eq}
use recommendation_service.Consumers.{Delivered, parsed, id_or, text_of}
use recommendation_service.Json.{Json, Fields, string, end, field, get, present}
use recommendation_service.Runtime.{Runtime}

abbrev pub retry_suffix : Text
retry_suffix = text ".retry"

abbrev pub dlq_suffix : Text
dlq_suffix = text ".dlq"

unfoldable pub starts_with : Text → Text → Bool
starts_with [] s = true
starts_with (c ∷ prefix) [] = false
starts_with (c ∷ prefix) (d ∷ s) =
    let rest = starts_with prefix s in if (c ∷ []) == (d ∷ []) then rest else false

-- `topic.endswith(suffix)`
abbrev pub ends_with : Text → Text → Bool
ends_with suffix s = starts_with (reverse suffix) (reverse s)

-- The topic of `_reroute`.
unfoldable pub target_of : Text → Text
unfolding starts_with
target_of topic =
    if ends_with retry_suffix topic then topic ++ dlq_suffix else topic ++ retry_suffix

-- The handlers of one event type, which share the program's state `S` with the producer.
abbrev pub Handlers : Type 0 → Type 0 → Type 0
Handlers F S = List (Delivered F → Exec S (Unit {0}))

-- `{**envelope, "error": error}`
unfoldable pub with_error : {F : Type 0} → Text → Fields F → Fields F
with_error error end = field (text "error") (string error) end
with_error error (field key value fields) =
    let rest = with_error error fields in
    if key == text "error" then field key (string error) fields else field key value rest

module _ {F S : Type 0} where
  unfoldable pub run_all : Handlers F S → Delivered F → Exec S (Unit {0})
  run_all [] message = pure tt
  run_all (handler ∷ handlers) message = do handler message; run_all handlers message

  module _ (producer : Option (Text → Fields F → Exec S (Unit {0})))
      (error_text : Error → Text) where
    unfoldable pub reroute : Text → Fields F → Error → Exec S (Unit {0})
    unfolding target_of with_error
    reroute topic envelope e = elim producer [
      | none ↦ pure tt
      | some send ↦ send (target_of topic) (with_error (error_text e) envelope)
    ]

  module _ (pause : S → S) (producer : Option (Text → Fields F → Exec S (Unit {0})))
      (error_text : Error → Text) where
    -- The loop of `_handle`, of which `left` attempts are left after this one.
    unfoldable pub attempt :
        (left : ℕ) → Handlers F S → Text → Fields F → Delivered F → Exec S (Unit {0})
    unfolding run_all reroute
    attempt zero handlers topic envelope message s =
        let (result, s') = run_all handlers message s in
        elim result [ ok _ ↦ (ok tt, s') | err e ↦ reroute producer error_text topic envelope e s' ]
    attempt (suc left) handlers topic envelope message s =
        let (result, s') = run_all handlers message s in
        elim result [
          | ok _ ↦ (ok tt, s')
          | err e ↦ attempt left handlers topic envelope message (pause s')
        ]

module _ {F : Type 0} ⦃r : Runtime F⦄ where
  abbrev pub text_or : Text → Option (Json F) → Text
  text_or default none = default
  text_or default (some value) = text_of value

  -- `record_from_envelope`, of which the consumers read three fields; `fresh_id` is `uuid4()`. A
  -- malformed `aggregate_id` or `occurred_at` raises here too.
  abbrev pub check_time : Option (Json F) → Delivered F → Result (Delivered F)
  check_time none message = ok message
  check_time (some value) message = elim (r.iso_of (text_of value)) [
    | none ↦ err value_error
    | some at ↦ ok message
  ]

  unfoldable pub record_from_envelope : (fresh_id : ℕ) → Fields F → Result (Delivered F)
  unfolding get present
  record_from_envelope fresh_id envelope =
      and_then (id_or fresh_id (present (get envelope (text "event_id")))) λ event_id.
        and_then (id_or event_id (present (get envelope (text "aggregate_id")))) λ aggregate_id.
          check_time (present (get envelope (text "occurred_at"))) (record {
            id = event_id;
            event_type = text_or [] (get envelope (text "event_type"));
            payload = envelope;
          })

  module _ {S : Type 0} (pause : S → S) (producer : Option (Text → Fields F → Exec S (Unit {0})))
      (error_text : Error → Text) (subscribed : Dict Text (Handlers F S)) where
    unfoldable pub dispatch :
        (max_retries : ℕ) → Handlers F S → Text → Fields F → Delivered F → Exec S (Unit {0})
    unfolding attempt
    dispatch zero handlers topic envelope message = pure tt
    dispatch (suc more) [] topic envelope message = pure tt
    dispatch (suc more) (handler ∷ handlers) topic envelope message =
        attempt pause producer error_text more (handler ∷ handlers) topic envelope message

    -- `_handle` of one topic
    unfoldable pub receive : (max_retries fresh_id : ℕ) → Text → Fields F → Exec S (Unit {0})
    unfolding record_from_envelope dispatch
    receive max_retries fresh_id topic envelope = do
      message ← lift (record_from_envelope fresh_id envelope)
      dispatch max_retries (get_or (lookup message.event_type subscribed) []) topic envelope message
