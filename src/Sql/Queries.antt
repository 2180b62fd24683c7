-- ===== src/Sql/Queries.antt =====
-- sql/repositories.py and sql/outbox_store.py. A table is a list of its rows. `update`, `insert ... on
-- conflict` and `delete` are written out; `select ... where ... order by ... limit` is a parameter,
-- since the order of rows that tie is the database's own.
pub mod Agreement
pub mod Lease
pub mod Ownership
use Prim.Native.Nat.{min}
use recommendation_service.Base.{
  ℕ, ◌+◌, ◌≡◌, Bool, true, false, not, ◌&&◌, ◌||◌, Option, none, some, List, [], ◌∷◌, ◌++◌, map,
  filter, if◌then◌else◌, leb, ltb, nat_beq, nat_eq, contains, length,
}
use recommendation_service.Base.Dict.{get_or}
use recommendation_service.Base.Effects.{Error, Result, ok, and_then}
use recommendation_service.Base.Sort.{Selects}
use recommendation_service.Base.Text.{Text}
use recommendation_service.Catalog.{GameProfile}
use recommendation_service.Json.{Fields}
use recommendation_service.Outbox.{OutboxRecord, is_none}
use recommendation_service.Recommendation.{Recommendation}
use recommendation_service.Runtime.{Runtime}
use recommendation_service.Sql.{
  GameProfileRow, UserPreferenceRow, RecommendationRow, Moment, zoned, aware, map_option,
  game_to_domain, recommendation_to_domain, recommendation_row,
}

-- Executes `select(Row).where(test).order_by(key).limit(n)`; `le a b` is that `a` may come before `b`.
abbrev pub Select : Type 1
Select = (A : Type 0) → (A → Bool) → (A → A → Bool) → ℕ → List A → List A

-- What SQL promises of it, for a key whose values are in a total order.
abbrev pub Selecting : Select → Type 1
Selecting select =
    (A : Type 0) (test : A → Bool) (le : A → A → Bool)
    → ((a b : A) → le a b ≡ false → le b a ≡ true)
    → ((a b c : A) → le a b ≡ true → le b c ≡ true → le a c ≡ true)
    → (n : ℕ) (rows : List A) → Selects le n (select A test le n rows) (filter test rows)

-- `update(Row).where(test).values(...)`
abbrev pub update_where : {A : Type 0} → (A → Bool) → (A → A) → List A → List A
update_where test change [] = []
update_where test change (row ∷ rows) =
    (if test row then change row else row) ∷ update_where test change rows

pub record OwnershipRow : Type 0 where
  pub user_id : ℕ
  pub game_id : ℕ
  pub acquired_at : ℕ
  pub counted : Bool

pub record OutboxRow (F : Type 0) : Type 0 where
  pub id : ℕ
  pub aggregate_type : Text
  pub aggregate_id : ℕ
  pub event_type : Text
  pub topic : Text
  pub partition_key : Text
  pub payload : Fields F
  pub correlation_id : Option Text
  pub occurred_at : Moment
  pub published_at : Option Moment
  pub attempts : ℕ
  pub last_error : Option Error
  pub next_attempt_at : Option Moment
  pub dead_lettered : Bool

-- What a poll returns, the table after it, and the two gauges.
pub record Poll (F : Type 0) : Type 0 where
  pub records : List (OutboxRecord F)
  pub table : List (OutboxRow F)
  pub pending_count : ℕ
  pub dlq_depth : ℕ

abbrev pub same_row : ℕ → ℕ → OwnershipRow → Bool
same_row user_id game_id row = nat_beq row.user_id user_id && nat_beq row.game_id game_id

-- SqlOwnershipRepository.record: the insert, and on conflict of the primary key `counted` is raised.
unfoldable pub record_row : (now user_id game_id : ℕ) → Bool → List OwnershipRow → List OwnershipRow
record_row now user_id game_id counted [] =
    record { user_id = user_id; game_id = game_id; acquired_at = now; counted = counted } ∷ []
record_row now user_id game_id counted (row ∷ rows) =
    if same_row user_id game_id row
    then record row { counted = row.counted || counted } ∷ rows
    else row ∷ record_row now user_id game_id counted rows

unfoldable pub mark_rows : ℕ → List ℕ → List OwnershipRow → List OwnershipRow
mark_rows game_id user_ids rows =
    update_where (λ row. nat_beq row.game_id game_id && contains user_ids row.user_id)
      (λ row. record row { counted = true }) rows

-- `nullslast()` after `updated_at.desc()`, then the id.
abbrev pub recent_first : Option ℕ → ℕ → Option ℕ → ℕ → Bool
recent_first none i none j = leb i j
recent_first none i (some b) j = false
recent_first (some a) i none j = true
recent_first (some a) i (some b) j = if nat_beq a b then leb i j else ltb b a

abbrev pub open_at : ℕ → Option ℕ → Bool
open_at now none = true
open_at now (some at) = leb at now

module _ {F : Type 0} where
  -- `purchase_count.desc(), game_id`
  abbrev pub popular_row : GameProfileRow F → GameProfileRow F → Bool
  popular_row a b =
      if nat_beq b.purchase_count a.purchase_count
      then leb a.game_id b.game_id
      else ltb b.purchase_count a.purchase_count

  unfoldable pub to_record : OutboxRow F → OutboxRecord F
  unfolding aware
  to_record row = record {
    id = row.id;
    aggregate_id = row.aggregate_id;
    aggregate_type = row.aggregate_type;
    event_type = row.event_type;
    payload = row.payload;
    occurred_at = aware row.occurred_at;
    topic = row.topic;
    partition_key = row.partition_key;
    correlation_id = row.correlation_id;
    published_at = map_option aware row.published_at;
    attempts = row.attempts;
    last_error = row.last_error;
    next_attempt_at = map_option aware row.next_attempt_at;
    dead_lettered = row.dead_lettered;
  }

  abbrev pub is_due : ℕ → OutboxRow F → Bool
  is_due now row =
      is_none row.published_at
      && not row.dead_lettered
      && open_at now (map_option aware row.next_attempt_at)

  -- `_refresh_counts`
  unfoldable pub pending_rows : List (OutboxRow F) → ℕ
  pending_rows table =
      length (filter (λ row. is_none row.published_at && not row.dead_lettered) table)

  unfoldable pub dead_rows : List (OutboxRow F) → ℕ
  dead_rows table = length (filter (λ row. row.dead_lettered) table)

  -- SqlOutboxStore.due: the rows that a poll claims get its lease. `locked` are the rows that another
  -- transaction holds, which `SKIP LOCKED` leaves out.
  unfoldable pub claim :
      Select
      → (lease batch_size : ℕ) → (locked : OutboxRow F → Bool) → (now limit : ℕ)
      → List (OutboxRow F)
      → Poll F
  unfolding to_record aware pending_rows dead_rows
  claim select lease batch_size locked now limit table =
      let rows =
        select (OutboxRow F) (λ row. is_due now row && not (locked row))
          (λ a b. leb (aware a.occurred_at) (aware b.occurred_at)) (min limit batch_size) table in
      let ids = map (λ (row : OutboxRow F). row.id) rows in
      let leased =
        update_where (λ row. contains ids row.id)
          (λ row. record row { next_attempt_at = some (zoned (now + lease)) }) table in
      record {
        records = map to_record rows;
        table = leased;
        pending_count = pending_rows leased;
        dlq_depth = dead_rows leased;
      }

  -- SqlOutboxStore.record_published and record_failure
  unfoldable pub apply_published : OutboxRecord F → List (OutboxRow F) → List (OutboxRow F)
  apply_published letter table =
      update_where (λ row. nat_beq row.id letter.id)
        (λ row. record row {
          published_at = map_option zoned letter.published_at;
          attempts = letter.attempts;
          last_error = none;
        })
        table

  unfoldable pub apply_failure : OutboxRecord F → List (OutboxRow F) → List (OutboxRow F)
  apply_failure letter table =
      update_where (λ row. nat_beq row.id letter.id)
        (λ row. record row {
          attempts = letter.attempts;
          last_error = letter.last_error;
          next_attempt_at = map_option zoned letter.next_attempt_at;
          dead_lettered = letter.dead_lettered;
        })
        table

module _ {F : Type 0} ⦃r : Runtime F⦄ where
  -- `[game_to_domain(row) for row in rows]`
  unfoldable pub all_to_domain : List (GameProfileRow F) → Result (List (GameProfile F))
  all_to_domain [] = ok []
  all_to_domain (row ∷ rows) =
      and_then (game_to_domain row) λ game. and_then (all_to_domain rows) λ games. ok (game ∷ games)

module _ (select : Select) where
  unfoldable pub uncounted_users : ℕ → ℕ → List OwnershipRow → List ℕ
  uncounted_users game_id limit rows =
      map (λ row. row.user_id)
        (select OwnershipRow (λ row. nat_beq row.game_id game_id && not row.counted)
          (λ a b. leb a.acquired_at b.acquired_at) limit rows)

  module _ {F : Type 0} where
    unfoldable pub users_with_signals : ℕ → List (UserPreferenceRow F) → List ℕ
    unfolding aware
    users_with_signals limit rows =
        map (λ row. row.user_id)
          (select (UserPreferenceRow F) (λ row. ltb 0 row.signal_count)
            (λ a b.
              recent_first (map_option aware a.updated_at) a.user_id (map_option aware b.updated_at)
                b.user_id)
            limit rows)

  module _ {F : Type 0} ⦃r : Runtime F⦄ where
    unfoldable pub recommendable_rows : ℕ → List (GameProfileRow F) → Result (List (GameProfile F))
    unfolding all_to_domain
    recommendable_rows limit rows =
        all_to_domain (select (GameProfileRow F) (λ row. row.is_published) popular_row limit rows)

    unfoldable pub needing_embedding_rows :
        ℕ → List (GameProfileRow F) → Result (List (GameProfile F))
    unfolding all_to_domain
    needing_embedding_rows limit rows = all_to_domain (
        select (GameProfileRow F) (λ row. row.is_published && is_none row.dense) popular_row limit
          rows)

-- SqlRecommendationRepository.replace_for: delete, then insert.
unfoldable pub replace_rows :
    {F : Type 0} ⦃r : Runtime F⦄
    → ℕ
    → List (Recommendation F)
    → List (RecommendationRow F)
    → List (RecommendationRow F)
unfolding recommendation_row
replace_rows user_id items rows =
    filter (λ row. not (nat_beq row.user_id user_id)) rows ++ map recommendation_row items
