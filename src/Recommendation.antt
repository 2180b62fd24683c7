-- ===== src/Recommendation.antt =====
-- domain/recommendation: one suggested game, and the event that carries a generated list.
use recommendation_service.Base.{ℕ, List, map, ltb, if◌then◌else◌}
use recommendation_service.Base.Effects.{Result, ok, err, invariant_violation}
use recommendation_service.Base.Text.{Text}
use recommendation_service.Runtime.{Runtime}

pub data RecommendationSource : Type 0 where
  content collab hybrid fallback : RecommendationSource

pub record Recommendation (F : Type 0) : Type 0 where
  pub id : ℕ
  pub user_id : ℕ
  pub game_id : ℕ
  pub score : F
  pub source : RecommendationSource
  pub rank : ℕ
  pub generated_at : ℕ
  pub reasons : List Text

-- One element of the event's `items`, the keys being `game_id`, `score`, `source` and `rank`.
pub record EventItem (F : Type 0) : Type 0 where
  pub game_id : ℕ
  pub score : F
  pub source : RecommendationSource
  pub rank : ℕ

-- `RecommendationGenerated`, with the fields of `DomainEvent`. Its type is derived from the class
-- name, and there is one class of events.
pub record RecommendationGenerated (F : Type 0) : Type 0 where
  pub event_id : ℕ
  pub occurred_at : ℕ
  pub aggregate_id : ℕ
  pub user_id : ℕ
  pub generated_at : ℕ
  pub items : List (EventItem F)

module _ {F : Type 0} ⦃r : Runtime F⦄ where
  -- `Recommendation.__post_init__`
  unfoldable pub checked : Recommendation F → Result (Recommendation F)
  checked item =
      if ltb item.rank 1
      then err invariant_violation
      else if r.lt item.score (r.lit 0 0)
      then err invariant_violation
      else ok item

  abbrev pub event_item : Recommendation F → EventItem F
  event_item item = record {
    game_id = item.game_id;
    score = r.round6 item.score;
    source = item.source;
    rank = item.rank;
  }

  -- `RecommendationGenerated.of`, where the stamp is the pair of its id and its instant
  unfoldable pub generated_event :
      (user_id : ℕ)
      → List (Recommendation F)
      → (event_id occurred_at : ℕ) → RecommendationGenerated F
  generated_event user_id recommendations event_id occurred_at = record {
    event_id = event_id;
    occurred_at = occurred_at;
    aggregate_id = user_id;
    user_id = user_id;
    generated_at = occurred_at;
    items = map event_item recommendations;
  }
