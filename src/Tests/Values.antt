-- ===== src/Tests/Values.antt =====
-- A runtime over numbers, and a small catalogue with its users.
use recommendation_service.Base.{
  take, filter, ℕ, zero, suc, ◌+◌, ◌-◌, ◌*◌, ◌/◌, ◌^◌, refl, true, false, Option, none, some, List,
  [], ◌∷◌, map, leb, ltb, nat_beq, if◌then◌else◌, arith,
}
use recommendation_service.Base.Text.{Text, text}
use recommendation_service.Catalog.{GameProfile}
use recommendation_service.Embedding.Dense.{DenseEmbedding}
use recommendation_service.Embedding.Sparse.{Embedding}
use recommendation_service.Json.{end}
use recommendation_service.Outbox.{OutboxRecord}
use recommendation_service.Preference.{UserPreference}
use recommendation_service.Runtime.{Runtime}
use recommendation_service.Runtime.Laws.{Ordered}
use recommendation_service.Base.Sort.{sort}
use recommendation_service.Sql.{GameProfileRow, UserPreferenceRow, Moment, naive, aware}
use recommendation_service.Sql.Queries.{Select, OutboxRow, OwnershipRow}
use recommendation_service.Store.{MemoryStore}

-- The number of 0.0; one is 1000 further.
abbrev pub origin : ℕ
origin = 1000000

abbrev pub one : ℕ
one = 1001000

abbrev in_range : ℕ → ℕ
in_range a = if leb a (2 * origin) then a else 2 * origin

abbrev scaled : (ℕ → ℕ → ℕ) → ℕ → ℕ → ℕ
scaled f a b =
    if leb origin a
    then (if leb origin b
        then origin + f (a - origin) (b - origin)
        else origin - f (a - origin) (origin - b))
    else (if leb origin b
        then origin - f (origin - a) (b - origin)
        else origin + f (origin - a) (origin - b))

-- Newton's steps toward the root of `n`.
abbrev pub root : (steps n x : ℕ) → ℕ
root zero n x = x
root (suc k) n x = root k n ((x + n / x) / 2)

abbrev total : List ℕ → ℕ
total [] = origin
total (x ∷ xs) = x + total xs - origin

abbrev lowered : ℕ → ℕ
lowered c = if leb 65 c then (if leb c 90 then c + 32 else c) else c

abbrev raised : ℕ → ℕ
raised c = if leb 97 c then (if leb c 122 then c - 32 else c) else c

abbrev one_code : Text → Option ℕ
one_code (c ∷ []) = some c
one_code _ = none

instance abbrev pub numbers : Runtime ℕ
numbers = record {
  lit = λ n d. origin + n * 1000 / 10 ^ d;
  add = λ a b. a + b - origin;
  mul = scaled (λ a b. a * b / 1000);
  div = scaled (λ a b. a * 1000 / b);
  neg = λ a. 2 * origin - a;
  sqrt = λ a. origin + root 20 ((a - origin) * 1000) 1000;
  sum = total;
  lt = λ a b. ltb (in_range a) (in_range b);
  le = λ a b. leb (in_range a) (in_range b);
  eq = λ a b. nat_beq (in_range a) (in_range b);
  round6 = λ a. a;
  true_div = λ a b. origin + a * 1000 / b;
  lower = map lowered;
  upper = map raised;
  set_order = λ xs. xs;
  id_order = λ xs. xs;
  uuid_text = λ a. a ∷ [];
  uuid_of = one_code;
  iso_text = λ a. a ∷ [];
  iso_of = one_code;
  repr = λ j. text "?";
}

abbrev pub numbers_Ordered : Ordered ℕ
numbers_Ordered = record {
  position = in_range;
  lt_lem = λ a b. refl;
  le_lem = λ a b. refl;
  eq_lem = λ a b. refl;
  neg_lem = λ a. ground arith;
}

abbrev pub no_vector : DenseEmbedding ℕ
no_vector = record { components = [] }

abbrev pub wide : DenseEmbedding ℕ
wide = record { components = one ∷ one ∷ [] }

abbrev pub narrow : DenseEmbedding ℕ
narrow = record { components = one ∷ [] }

abbrev pub racing_taste : Embedding ℕ
racing_taste = record { weights = (text "genre:race", one) ∷ [] }

abbrev pub racer : GameProfile ℕ
racer = record {
  game_id = 1;
  developer_id = 9;
  title = text "Racer";
  genres = text "race" ∷ [];
  tags = [];
  description = [];
  published_at = none;
  is_published = true;
  purchase_count = 3;
  embedding = racing_taste;
  dense = no_vector;
}

abbrev pub drifter : GameProfile ℕ
drifter = record racer { game_id = 2; title = text "Drifter"; purchase_count = 5 }

-- A user who owns `drifter` and likes races.
abbrev pub fan : UserPreference ℕ
fan = record {
  user_id = 7;
  taste = racing_taste;
  taste_dense = no_vector;
  owned = 2 ∷ [];
  history = record { game_id = 2; weight = one } ∷ [];
  signal_count = 1;
  updated_at = some 40;
}

abbrev pub empty_store : MemoryStore ℕ
empty_store = record {
  games = [];
  preferences = [];
  ownerships = [];
  recommendations = [];
  outbox = [];
  processed_events = [];
}

abbrev pub shop : MemoryStore ℕ
shop = record empty_store {
  games = (1, racer) ∷ (2, drifter) ∷ [];
  preferences = (7, fan) ∷ [];
  ownerships = (2, (7, true) ∷ []) ∷ [];
}

abbrev pub fresh_letter : OutboxRecord ℕ
fresh_letter = record {
  id = 30;
  aggregate_id = 7;
  aggregate_type = text "recommendation-set";
  event_type = text "arcadia.reco.v1.RecommendationGenerated";
  payload = end;
  occurred_at = 10;
  topic = text "reco-events";
  partition_key = text "7";
  correlation_id = none;
  published_at = none;
  attempts = 4;
  last_error = none;
  next_attempt_at = none;
  dead_lettered = false;
}

-- `select` by sorting.
abbrev pub sorted_select : Select
sorted_select = λ A test le n rows. take n (sort le (filter test rows))

-- A driver that drops offsets.
abbrev pub dropping : Moment → Moment
dropping at = naive (aware at)

abbrev pub blank_row : GameProfileRow ℕ
blank_row = record {
  game_id = 1;
  developer_id = 0;
  title = [];
  genres = [];
  tags = [];
  description = [];
  embedding = [];
  dense = none;
  is_published = false;
  purchase_count = 0;
  published_at = none;
}

abbrev pub fan_row : UserPreferenceRow ℕ
fan_row = record {
  user_id = 7;
  taste = [];
  taste_dense = none;
  owned = [];
  history = [];
  signal_count = 0;
  updated_at = none;
}

-- A row of the outbox that nobody has claimed.
abbrev pub fresh_row : OutboxRow ℕ
fresh_row = record {
  id = 30;
  aggregate_type = text "recommendation-set";
  aggregate_id = 7;
  event_type = text "arcadia.reco.v1.RecommendationGenerated";
  topic = text "reco-events";
  partition_key = text "7";
  payload = end;
  correlation_id = none;
  occurred_at = naive 10;
  published_at = none;
  attempts = 0;
  last_error = none;
  next_attempt_at = none;
  dead_lettered = false;
}

abbrev pub bought_row : OwnershipRow
bought_row = record { user_id = 7; game_id = 2; acquired_at = 5; counted = false }
