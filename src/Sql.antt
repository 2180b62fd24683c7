-- ===== src/Sql.antt =====
-- infrastructure/persistence/sql: the rows of models.py, and the mapping between them and the domain.
pub mod RoundTrip
pub mod Queries
pub mod Session
use recommendation_service.Base.{
  ℕ, Bool, true, false, ◌&&◌, Option, none, some, List, [], ◌∷◌, map, filter, if◌then◌else◌, ◌==◌,
}
use recommendation_service.Base.Dict.{Dict, is_some}
use recommendation_service.Base.Effects.{Result, ok, err, value_error, foreign, and_then}
use recommendation_service.Base.Sort.{sort}
use recommendation_service.Base.Text.{Text, text, text_eq, text_le}
use recommendation_service.Catalog.{GameProfile, post_init}
use recommendation_service.Embedding.Dense.{DenseEmbedding, is_blank}
use recommendation_service.Embedding.Dense
use recommendation_service.Embedding.Sparse.{embedding}
use recommendation_service.Json.{
  Json, Fields, null, boolean, integer, decimal, string, array, object, end, field, get,
}
use recommendation_service.Outbox.Envelope.{source_text}
use recommendation_service.Preference.{UserPreference, SignalRecord, add_member}
use recommendation_service.Recommendation.{
  Recommendation, RecommendationSource, content, collab, hybrid, fallback, checked,
}
use recommendation_service.Runtime.{Runtime}

-- A `datetime` as a driver hands it back: with an offset or without one. Both hold the instant in UTC.
pub data Moment : Type 0 where
  naive zoned : ℕ → Moment

unfoldable pub aware : Moment → ℕ
aware (naive at) = at
aware (zoned at) = at

abbrev pub map_option {ℓ κ} : {A : Type ℓ} {B : Type κ} → (A → B) → Option A → Option B
map_option f none = none
map_option f (some a) = some (f a)

-- The columns; a JSONB column holds what `json` makes of the value.
pub record GameProfileRow (F : Type 0) : Type 0 where
  pub game_id : ℕ
  pub developer_id : ℕ
  pub title : Text
  pub genres : List Text
  pub tags : List Text
  pub description : Text
  pub embedding : Dict Text F
  pub dense : Option (List F)
  pub is_published : Bool
  pub purchase_count : ℕ
  pub published_at : Option Moment

pub record UserPreferenceRow (F : Type 0) : Type 0 where
  pub user_id : ℕ
  pub taste : Dict Text F
  pub taste_dense : Option (List F)
  pub owned : List Text
  pub history : List (Json F)
  pub signal_count : ℕ
  pub updated_at : Option Moment

pub record RecommendationRow (F : Type 0) : Type 0 where
  pub id : ℕ
  pub user_id : ℕ
  pub game_id : ℕ
  pub score : F
  pub source : Text
  pub rank : ℕ
  pub reasons : List Text
  pub generated_at : Moment

module _ {F : Type 0} where
  unfoldable pub dense_to_domain : Option (List F) → DenseEmbedding F
  dense_to_domain none = Dense.empty
  dense_to_domain (some values) = record { components = values }

  unfoldable pub dense_to_column : DenseEmbedding F → Option (List F)
  dense_to_column dense = if is_blank dense then none else some dense.components

  unfoldable pub write_game : GameProfileRow F → GameProfile F → GameProfileRow F
  unfolding dense_to_column
  write_game row game = record row {
    game_id = game.game_id;
    developer_id = game.developer_id;
    title = game.title;
    genres = game.genres;
    tags = game.tags;
    description = game.description;
    embedding = game.embedding.weights;
    dense = dense_to_column game.dense;
    is_published = game.is_published;
    purchase_count = game.purchase_count;
    published_at = map_option zoned game.published_at;
  }

  -- `_is_record`
  unfoldable pub is_record : Json F → Bool
  unfolding get
  is_record (object fields) =
      is_some (get fields (text "game_id")) && is_some (get fields (text "weight"))
  is_record _ = false

-- `RecommendationSource(raw)`
unfoldable pub source_of : Text → Result RecommendationSource
unfolding source_text
source_of raw =
    if raw == source_text content
    then ok content
    else if raw == source_text collab
    then ok collab
    else if raw == source_text hybrid
    then ok hybrid
    else if raw == source_text fallback
    then ok fallback
    else err value_error

abbrev pub found_or : Option ℕ → Result ℕ
found_or none = err value_error
found_or (some id) = ok id

-- The set of the ids that the texts name, where `UUID` accepts them all.
unfoldable pub id_set : (Text → Option ℕ) → List Text → Result (List ℕ)
unfolding add_member
id_set uuid_of [] = ok []
id_set uuid_of (raw ∷ texts) =
    and_then (found_or (uuid_of raw))
      λ id. and_then (id_set uuid_of texts) λ ids. ok (add_member id ids)

module _ {F : Type 0} ⦃r : Runtime F⦄ where
  unfoldable pub game_to_domain : GameProfileRow F → Result (GameProfile F)
  unfolding aware dense_to_domain embedding
  game_to_domain row = post_init (record {
    game_id = row.game_id;
    developer_id = row.developer_id;
    title = row.title;
    genres = row.genres;
    tags = row.tags;
    description = row.description;
    published_at = map_option aware row.published_at;
    is_published = row.is_published;
    purchase_count = row.purchase_count;
    embedding = embedding row.embedding;
    dense = dense_to_domain row.dense;
  })

  -- `float` of a value; `parse` is `float` of a string
  abbrev pub float_of : (Text → Result F) → Option (Json F) → Result F
  float_of parse (some (decimal x)) = ok x
  float_of parse (some (integer n)) = ok (r.lit n 0)
  float_of parse (some (boolean true)) = ok (r.lit 1 0)
  float_of parse (some (boolean false)) = ok (r.lit 0 0)
  float_of parse (some (string s)) = parse s
  float_of parse _ = err foreign

  abbrev pub uuid_in : Option (Json F) → Result ℕ
  uuid_in none = err foreign
  uuid_in (some (string s)) = found_or (r.uuid_of s)
  uuid_in (some value) = found_or (r.uuid_of (r.repr value))

  -- `_record`
  unfoldable pub record_of : (Text → Result F) → Json F → Result (SignalRecord F)
  unfolding get
  record_of parse (object fields) = and_then (uuid_in (get fields (text "game_id"))) λ game_id.
      and_then (float_of parse (get fields (text "weight")))
        λ weight. ok (record { game_id = game_id; weight = weight })
  record_of parse _ = err foreign

  unfoldable pub history_of : (Text → Result F) → List (Json F) → Result (List (SignalRecord F))
  unfolding is_record record_of
  history_of parse [] = ok []
  history_of parse (entry ∷ entries) =
      let rest = history_of parse entries in
      if is_record entry
      then and_then (record_of parse entry) (λ first. and_then rest λ records. ok (first ∷ records))
      else rest

  unfoldable pub preference_to_domain :
      (Text → Result F) → UserPreferenceRow F → Result (UserPreference F)
  unfolding aware dense_to_domain embedding history_of id_set
  preference_to_domain parse row = and_then (id_set r.uuid_of row.owned) λ owned.
      and_then (history_of parse row.history) λ history. ok (record {
        user_id = row.user_id;
        taste = embedding row.taste;
        taste_dense = dense_to_domain row.taste_dense;
        owned = owned;
        history = history;
        signal_count = row.signal_count;
        updated_at = map_option aware row.updated_at;
      })

  abbrev pub entry_of : SignalRecord F → Json F
  entry_of signal = object (
      field (text "game_id") (string (r.uuid_text signal.game_id))
        (field (text "weight") (decimal signal.weight) end))

  unfoldable pub write_preference : UserPreferenceRow F → UserPreference F → UserPreferenceRow F
  unfolding dense_to_column
  write_preference row preference = record row {
    user_id = preference.user_id;
    taste = preference.taste.weights;
    taste_dense = dense_to_column preference.taste_dense;
    owned = sort text_le (map r.uuid_text preference.owned);
    history = map entry_of preference.history;
    signal_count = preference.signal_count;
    updated_at = map_option zoned preference.updated_at;
  }

  unfoldable pub recommendation_row : Recommendation F → RecommendationRow F
  unfolding source_text
  recommendation_row item = record {
    id = item.id;
    user_id = item.user_id;
    game_id = item.game_id;
    score = item.score;
    source = source_text item.source;
    rank = item.rank;
    reasons = item.reasons;
    generated_at = zoned item.generated_at;
  }

  unfoldable pub recommendation_to_domain : RecommendationRow F → Result (Recommendation F)
  unfolding aware source_of checked
  recommendation_to_domain row = and_then (source_of row.source) λ source. checked (record {
    id = row.id;
    user_id = row.user_id;
    game_id = row.game_id;
    score = row.score;
    source = source;
    rank = row.rank;
    generated_at = aware row.generated_at;
    reasons = row.reasons;
  })
