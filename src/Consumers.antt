-- ===== src/Consumers.antt =====
-- presentation/consumers, the idempotent wrapper of infrastructure/messaging/bus/idempotent.py, and
-- the routing and the retries of infrastructure/messaging/kafka/subscriber.py. A message is its
-- envelope, the dictionary that `json.loads` made.
pub mod Delivery
use recommendation_service.Base.{
  ℕ, Bool, true, false, not, ◌&&◌, Option, none, some, List, [], ◌∷◌, ◌++◌, map, filter,
  if◌then◌else◌, ◌==◌, take, nat_beq, nat_eq, contains,
}
use recommendation_service.Base.Dict.{get_or, or_else}
use recommendation_service.Base.Effects.{
  Error, Result, Exec, ok, err, value_error, and_then, pure, lift, gets, modify, raise, ◌>>=◌, ◌>>◌,
  continue,
}
use recommendation_service.Base.Text.{Text, text, text_eq, strip, is_empty}
use recommendation_service.Ingest.{
  Description, Inbound, publication, withdrawal, sale, opinion, handle,
}
use recommendation_service.Json.{
  Json, Fields, null, boolean, integer, decimal, string, array, object, nil, end, field, get,
  present, to_list,
}
use recommendation_service.Runtime.{Runtime}
use recommendation_service.Store.{MemoryStore, union}

-- The record of one delivered message, as far as the consumers read it.
pub record Delivered (F : Type 0) : Type 0 where
  pub id : ℕ
  pub event_type : Text
  pub payload : Fields F

pub data Kind : Type 0 where
  game_published_kind game_withdrawn_kind purchase_completed_kind review_posted_kind : Kind

-- `str(raw).replace("Z", "+00:00")`
unfoldable pub replace_z : Text → Text
replace_z [] = []
replace_z (c ∷ s) = if nat_beq c 90 then text "+00:00" ++ replace_z s else c ∷ replace_z s

abbrev pub parsed : Option ℕ → Result ℕ
parsed none = err value_error
parsed (some id) = ok id

abbrev pub sale_of : Option ℕ → Option ℕ → Option ℕ → Option Inbound
sale_of (some recipient_id) (some game_id) at = some (sale recipient_id game_id at)
sale_of _ _ at = none

abbrev pub withdrawal_of : Option ℕ → Option Inbound
withdrawal_of none = none
withdrawal_of (some game_id) = some (withdrawal game_id)

abbrev pub opinion_of : Option ℕ → Option ℕ → Bool → Option ℕ → Option Inbound
opinion_of (some author_id) (some game_id) liked at = some (opinion author_id game_id liked at)
opinion_of _ _ liked at = none

module _ {F : Type 0} where
  abbrev pub fields_of : Option (Json F) → Fields F
  fields_of (some (object fields)) = fields
  fields_of _ = end

  -- `payload_of`
  unfoldable pub payload_of : Delivered F → Fields F
  unfolding get
  payload_of message = fields_of (get message.payload (text "payload"))

module _ {F : Type 0} ⦃r : Runtime F⦄ where
  -- `str` of a value
  abbrev pub text_of : Json F → Text
  text_of (string s) = s
  text_of value = r.repr value

  -- `str(value or "")`
  abbrev pub text_or_empty : Option (Json F) → Text
  text_or_empty none = []
  text_or_empty (some null) = []
  text_or_empty (some (boolean false)) = []
  text_or_empty (some (integer n)) = if nat_beq n 0 then [] else r.repr (integer n)
  text_or_empty (some (decimal x)) = if r.eq x (r.lit 0 0) then [] else r.repr (decimal x)
  text_or_empty (some (array nil)) = []
  text_or_empty (some (object end)) = []
  text_or_empty (some value) = text_of value

  abbrev pub uuid_in : Option (Json F) → Option ℕ
  uuid_in none = none
  uuid_in (some value) = r.uuid_of (text_of value)

  -- `game_id_of` and `user_id_of`
  unfoldable pub id_at : Fields F → Text → Option ℕ
  unfolding get present
  id_at payload key = uuid_in (present (get payload key))

  abbrev pub iso_in : Option (Json F) → Option ℕ
  iso_in none = none
  iso_in (some value) = r.iso_of (replace_z (text_of value))

  unfoldable pub timestamp_of : Option (Json F) → Option ℕ
  unfolding present replace_z
  timestamp_of raw = iso_in (present raw)

  abbrev pub id_or : ℕ → Option (Json F) → Result ℕ
  id_or id none = ok id
  id_or id (some value) = parsed (r.uuid_of (text_of value))

  -- `event_id_of`, and `_event_id` of the wrapper
  unfoldable pub event_id_of : Delivered F → Result ℕ
  unfolding get present
  event_id_of message = id_or message.id (present (get message.payload (text "event_id")))

  -- `_strings`
  abbrev pub strings : Option (Json F) → List Text
  strings (some (array items)) =
      filter (λ s. not (is_empty s)) (map (λ value. strip (text_of value)) (to_list items))
  strings _ = []

  abbrev pub describe : Fields F → Option ℕ → Option ℕ → Text → Option Inbound
  describe payload (some game_id) (some developer_id) (c ∷ title) = some (
      publication (record {
        game_id = game_id;
        developer_id = developer_id;
        title = take 200 (c ∷ title);
        genres = strings (get payload (text "genres"));
        tags = strings (get payload (text "tags"));
        description = text_or_empty (get payload (text "description"));
        published_at = timestamp_of (get payload (text "published_at"));
      }))
  describe payload _ _ _ = none

  -- GamePublishedHandler
  unfoldable pub publication_in : Fields F → Option Inbound
  unfolding id_at get timestamp_of to_list strip
  publication_in payload =
      describe payload (id_at payload (text "game_id")) (id_at payload (text "developer_id"))
        (strip (text_or_empty (get payload (text "title"))))

  -- PurchaseCompletedHandler
  unfoldable pub sale_in : Fields F → Option Inbound
  unfolding id_at get timestamp_of
  sale_in payload =
      sale_of (or_else (id_at payload (text "recipient_id")) (id_at payload (text "buyer_id")))
        (id_at payload (text "game_id"))
        (or_else (timestamp_of (get payload (text "completed_at")))
          (timestamp_of (get payload (text "created_at"))))

  -- `str(payload.get("sentiment", ""))`
  abbrev pub sentiment_text : Option (Json F) → Text
  sentiment_text none = []
  sentiment_text (some value) = text_of value

  -- ReviewPostedHandler; the time is the envelope's.
  unfoldable pub opinion_in : Fields F → Fields F → Option Inbound
  unfolding id_at get timestamp_of
  opinion_in envelope payload =
      opinion_of (id_at payload (text "author_id")) (id_at payload (text "game_id"))
        (r.upper (sentiment_text (get payload (text "sentiment"))) == text "LIKE")
        (timestamp_of (get envelope (text "occurred_at")))

  -- What a message of a kind asks for: `none` where the handler warns and returns.
  unfoldable pub inbound : Kind → Delivered F → Option Inbound
  unfolding payload_of publication_in sale_in opinion_in id_at
  inbound game_published_kind message = publication_in (payload_of message)
  inbound game_withdrawn_kind message = withdrawal_of (id_at (payload_of message) (text "game_id"))
  inbound purchase_completed_kind message = sale_in (payload_of message)
  inbound review_posted_kind message = opinion_in message.payload (payload_of message)

  unfoldable pub execute :
      (backfill_limit now : ℕ) → Delivered F → Option Inbound → Exec (MemoryStore F) (Unit {0})
  unfolding event_id_of
  execute backfill_limit now message none = pure tt
  execute backfill_limit now message (some e) = do
    event_id ← lift (event_id_of message)
    handle backfill_limit now event_id e

  -- IdempotentHandler over MemoryProcessedEventLog
  unfoldable pub deliver :
      (backfill_limit now : ℕ) → Kind → Delivered F → Exec (MemoryStore F) (Unit {0})
  unfolding event_id_of inbound execute union
  deliver backfill_limit now kind message = do
    event_id ← lift (event_id_of message)
    handled ← gets (λ s. contains s.processed_events event_id)
    if handled then pure tt else do
      execute backfill_limit now message (inbound kind message)
      modify (λ s. record s { processed_events = union s.processed_events (event_id ∷ []) })
