-- ===== src/Sql/Queries/Ownership.antt =====
-- sql/repositories.py, SqlOwnershipRepository, against the ownership of the in-memory store.
use recommendation_service.Base.{
  ℕ, ◌≡◌, refl, Bool, true, false, ◌&&◌, ◌||◌, Option, none, some, List, [], ◌∷◌, map, arith, All,
  if◌then◌else◌, nat_beq, nat_eq, contains, ◌∙◌, ap, sym,
}
use recommendation_service.Base.Dict.{Dict, is_some}
use recommendation_service.Store.{add_ownerships}
use recommendation_service.Store.Commit.{flag_in, raised, flag-add_ownerships, raised_all-counted}
use recommendation_service.Sql.Queries.{OwnershipRow, same_row, record_row, mark_rows}

-- The `counted` column of the row of a user and a game.
abbrev pub row_flag : (user_id game_id : ℕ) → List OwnershipRow → Option Bool
row_flag user_id game_id [] = none
row_flag user_id game_id (row ∷ rows) =
    if same_row user_id game_id row then some row.counted else row_flag user_id game_id rows

-- What one method writes: `record` one row, `mark_counted` the rows of a game.
pub data OwnershipWrite : Type 0 where
  recorded : (user_id game_id : ℕ) → Bool → OwnershipWrite
  marked : (game_id : ℕ) → (user_ids : List ℕ) → OwnershipWrite

-- The rows that the memory repository stages for it.
abbrev pub staged_by : OwnershipWrite → List (ℕ × ℕ × Bool)
staged_by (recorded user_id game_id counted) = (user_id, game_id, counted) ∷ []
staged_by (marked game_id user_ids) = map (λ u. (u, game_id, true)) user_ids

unfoldable pub write_rows : ℕ → OwnershipWrite → List OwnershipRow → List OwnershipRow
unfolding record_row mark_rows
write_rows now (recorded user_id game_id counted) rows = record_row now user_id game_id counted rows
write_rows now (marked game_id user_ids) rows = mark_rows game_id user_ids rows

-- `mark_counted` is called with owners on record only.
abbrev pub OnRecord : OwnershipWrite → List OwnershipRow → Type 0
OnRecord (recorded user_id game_id counted) rows = Unit
OnRecord (marked game_id user_ids) rows =
    All (λ u. is_some (row_flag u game_id rows) ≡ true) user_ids

abbrev pub Agree : List OwnershipRow → Dict ℕ (Dict ℕ Bool) → Type 0
Agree rows d = (user_id game_id : ℕ) → row_flag user_id game_id rows ≡ flag_in d user_id game_id

row_flag-record_row :
    (now user_id game_id u g : ℕ) (counted : Bool) (rows : List OwnershipRow)
    → row_flag user_id game_id (record_row now u g counted rows)
      ≡ raised user_id game_id (u, g, counted) (row_flag user_id game_id rows)
unfolding record_row
row_flag-record_row now user_id game_id u g counted [] = ground arith
row_flag-record_row now user_id game_id u g counted (row ∷ rows) =
    ground (arith, row_flag-record_row now user_id game_id u g counted rows)

abbrev marked_flag : Bool → Option Bool → Option Bool
marked_flag b none = none
marked_flag b (some counted) = some (b || counted)

row_flag-mark_rows :
    (user_id game_id g : ℕ) (users : List ℕ) (rows : List OwnershipRow)
    → row_flag user_id game_id (mark_rows g users rows)
      ≡ marked_flag (contains users user_id && nat_beq g game_id) (row_flag user_id game_id rows)
unfolding mark_rows
row_flag-mark_rows user_id game_id g users [] = refl
row_flag-mark_rows user_id game_id g users (row ∷ rows) =
    ground (arith, row_flag-mark_rows user_id game_id g users rows)

owner_on_record :
    (rows : List OwnershipRow) (g u : ℕ) (users : List ℕ)
    → All (λ v. is_some (row_flag v g rows) ≡ true) users
    → contains users u ≡ true
    → is_some (row_flag u g rows) ≡ true
unfolding contains
owner_on_record rows g u [] h k = absurd (cc k)
owner_on_record rows g u (x ∷ users) h k =
    ground (arith, h.0, ap (λ v. is_some (row_flag v g rows)), owner_on_record rows g u users h.1)

marked_as :
    (b : Bool) (before : Option Bool)
    → (b ≡ true → is_some before ≡ true)
    → marked_flag b before ≡ (if b then some true else before)
marked_as true none h = absurd (cc (h refl))
marked_as true (some counted) h = refl
marked_as false none h = refl
marked_as false (some counted) h = refl

-- Where the table and the in-memory store agree on which purchases are on record and which are
-- credited, they agree after the same write: the upsert, and the marking of owners on record.
pub write-Agree :
    (now : ℕ) (w : OwnershipWrite) (rows : List OwnershipRow) (d : Dict ℕ (Dict ℕ Bool))
    → Agree rows d
    → OnRecord w rows
    → Agree (write_rows now w rows) (add_ownerships (staged_by w) d)
unfolding write_rows
write-Agree now (recorded u g counted) rows d h _ user_id game_id =
    row_flag-record_row now user_id game_id u g counted rows
    ∙ ap (raised user_id game_id (u, g, counted)) (h user_id game_id)
    ∙ sym (flag-add_ownerships user_id game_id ((u, g, counted) ∷ []) d)
write-Agree now (marked g users) rows d h known user_id game_id =
    row_flag-mark_rows user_id game_id g users rows
    ∙ marked_as (contains users user_id && nat_beq g game_id) (row_flag user_id game_id rows)
        (λ e. ground (arith, owner_on_record rows g user_id users known))
    ∙ ap (λ before. if contains users user_id && nat_beq g game_id then some true else before)
        (h user_id game_id)
    ∙ sym (raised_all-counted user_id game_id g users (flag_in d user_id game_id))
    ∙ sym (flag-add_ownerships user_id game_id (map (λ u. (u, g, true)) users) d)
