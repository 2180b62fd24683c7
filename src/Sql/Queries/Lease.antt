-- ===== src/Sql/Queries/Lease.antt =====
-- sql/outbox_store.py: two polls of the outbox do not claim one row within the lease.
use Prim.Native.Nat.{min}
use mathlib.Core.List.Permᴰ
use recommendation_service.Base.Lists.{All-append}
use recommendation_service.Base.{
  nat_beq, ℕ, ◌+◌, ◌<◌, ◌≡◌, refl, Bool, true, false, not, ◌&&◌, some, List, [], ◌∷◌, ◌++◌, map,
  filter, arith, All, All-imp, All-both, filter-All, leb, nat_eq, contains, Bool-cases, inl, inr,
  All-filter, ap, subst, sym,
}
use recommendation_service.Base.Sort.{Selects, All-perm}
use recommendation_service.Outbox.{OutboxRecord}
use recommendation_service.Sql.{zoned, aware}
use recommendation_service.Sql.Queries.{
  Select, Selecting, OutboxRow, update_where, apply_published, apply_failure, is_due, claim,
  to_record,
}

module _ {A : Type 0} where
  All-front : (P : A → Type 0) (xs ys : List A) → All P (xs ++ ys) → All P xs
  All-front P [] ys h = tt
  All-front P (x ∷ xs) ys h = (h.0, All-front P xs ys h.1)

  -- What all rows of a table meet, all selected rows meet.
  Selects-All :
      (P : A → Type 0) (le : A → A → Bool) (n : ℕ) (chosen : List A) (xs : List A)
      → Selects le n chosen xs
      → All P xs
      → All P chosen
  Selects-All P le n chosen xs s h =
      All-front P chosen s.others (All-perm P (Permᴰ.symm s.all_there) h)

  update_where-All :
      (P : A → Type 0) (test : A → Bool) (change : A → A)
      → ((a : A) → test a ≡ true → P (change a))
      → ((a : A) → test a ≡ false → P a)
      → (rows : List A) → All P (update_where test change rows)
  update_where-All P test change changed kept [] = tt
  update_where-All P test change changed kept (a ∷ rows) = (
    elim (Bool-cases (test a)) [ inl h ↦ rw h (changed a h) | inr h ↦ rw h (kept a h) ],
    update_where-All P test change changed kept rows,
  )

  update_where-keeps :
      (P : A → Type 0) (test : A → Bool) (change : A → A)
      → ((a : A) → test a ≡ true → P a → P (change a))
      → (rows : List A) → All P rows
      → All P (update_where test change rows)
  update_where-keeps P test change changed [] h = tt
  update_where-keeps P test change changed (a ∷ rows) h = (
    elim (Bool-cases (test a)) [ inl k ↦ rw k (changed a k h.0) | inr k ↦ rw k h.0 ],
    update_where-keeps P test change changed rows h.1,
  )

apart :
    (ids others : List ℕ) (x : ℕ)
    → All (λ i. contains ids i ≡ false) others
    → contains others x ≡ true
    → contains ids x ≡ true
    → ⊥
unfolding contains
apart ids [] x h k c = cc k
apart ids (y ∷ others) x h k c = elim (Bool-cases (nat_beq x y)) [
  | inl same ↦
      let at : x ≡ y = (nat_eq.beq_iff x y).0 same in
      cc (subst (λ z. contains ids z ≡ true) at c, h.0)
  | inr differ ↦ apart ids others x h.1 (ground (arith, k, differ)) c
]

module _ {F : Type 0} where
  abbrev letter_ids : List (OutboxRow F) → List ℕ
  letter_ids = map (λ row. row.id)

  ids-records :
      (rows : List (OutboxRow F))
      → map (λ (k : OutboxRecord F). k.id) (map to_record rows)
        ≡ map (λ (row : OutboxRow F). row.id) rows
  unfolding to_record aware
  ids-records [] = refl
  ids-records (row ∷ rows) = ap (λ l. row.id ∷ l) (ids-records rows)

  records-All :
      (Q : ℕ → Type 0) (rows : List (OutboxRow F))
      → All (λ (row : OutboxRow F). Q row.id) rows
      → All (λ (k : OutboxRecord F). Q k.id) (map to_record rows)
  unfolding to_record aware
  records-All Q [] h = tt
  records-All Q (row ∷ rows) h = (h.0, records-All Q rows h.1)

  older_total :
      (a b : OutboxRow F)
      → leb (aware a.occurred_at) (aware b.occurred_at) ≡ false
      → leb (aware b.occurred_at) (aware a.occurred_at) ≡ true
  older_total a b h = ground arith

  older_trans :
      (a b c : OutboxRow F)
      → leb (aware a.occurred_at) (aware b.occurred_at) ≡ true
      → leb (aware b.occurred_at) (aware c.occurred_at) ≡ true
      → leb (aware a.occurred_at) (aware c.occurred_at) ≡ true
  older_trans a b c h k = ground arith

  abbrev claimed : Select → (ℕ → (OutboxRow F → Bool) → ℕ → List (OutboxRow F) → List (OutboxRow F))
  claimed select now locked n table =
      select (OutboxRow F) (λ row. is_due now row && not (locked row))
        (λ a b. leb (aware a.occurred_at) (aware b.occurred_at)) n table

  -- A row that is not due before `until`, if its id is among `ids`.
  abbrev Held : List ℕ → ℕ → OutboxRow F → Type 0
  Held ids until row = contains ids row.id ≡ true → row.next_attempt_at ≡ some (zoned until)

  waits :
      (now until : ℕ) (ids : List ℕ) (locked : OutboxRow F → Bool) (row : OutboxRow F)
      → now < until
      → Held ids until row
      → (is_due now row && not (locked row)) ≡ true
      → contains ids row.id ≡ false
  unfolding aware
  waits now until ids locked row h held due = elim (Bool-cases (contains ids row.id)) [
    | inl k ↦ ground (arith, held k)
    | inr k ↦ k
  ]

  module _ (select : Select) (law : Selecting select) where
    -- What happens to the outbox while letters are out: polls before `until`, new letters, letters
    -- that are published, and failures of letters whose ids are not among `ids`.
    pub data Elapsed (ids : List ℕ) (until : ℕ)
        : List (OutboxRow F) → List (OutboxRow F) → Type 0 where
      still : (table : List (OutboxRow F)) → Elapsed ids until table table
      polled :
          (before after : List (OutboxRow F)) (lease batch_size limit now : ℕ)
          (locked : OutboxRow F → Bool)
          → now < until
          → Elapsed ids until before after
          → Elapsed ids until before (claim select lease batch_size locked now limit after).table
      added :
          (before after : List (OutboxRow F)) (row : OutboxRow F)
          → contains ids row.id ≡ false
          → Elapsed ids until before after
          → Elapsed ids until before (after ++ row ∷ [])
      published :
          (before after : List (OutboxRow F)) (letter : OutboxRecord F)
          → Elapsed ids until before after
          → Elapsed ids until before (apply_published letter after)
      failed :
          (before after : List (OutboxRow F)) (letter : OutboxRecord F)
          → contains ids letter.id ≡ false
          → Elapsed ids until before after
          → Elapsed ids until before (apply_failure letter after)

    -- No poll in time claims a held row.
    claimed-apart :
        (ids : List ℕ) (until now : ℕ) (locked : OutboxRow F → Bool) (n : ℕ)
        (table : List (OutboxRow F))
        → now < until
        → All (Held ids until) table
        → All
            (λ (row : OutboxRow F). contains ids row.id ≡ false)
            (claimed select now locked n table)
    claimed-apart ids until now locked n table h held =
        let test : OutboxRow F → Bool = λ row. is_due now row && not (locked row) in
        Selects-All (λ (row : OutboxRow F). contains ids row.id ≡ false) _ n _ (filter test table)
          (law (OutboxRow F) test _ older_total older_trans n table)
          (All-imp _ _ (filter test table) (λ row p. waits now until ids locked row h p.1 p.0)
            (All-both (λ row. test row ≡ true) (Held ids until) (filter test table)
              (filter-All test table) (All-filter (Held ids until) test table held)))

    letter_ids-All :
        (Q : ℕ → Type 0) (rows : List (OutboxRow F))
        → All (λ (row : OutboxRow F). Q row.id) rows
        → All Q (letter_ids rows)
    letter_ids-All Q [] h = tt
    letter_ids-All Q (row ∷ rows) h = (h.0, letter_ids-All Q rows h.1)

    Elapsed-Held :
        (ids : List ℕ) (until : ℕ) (before after : List (OutboxRow F))
        → Elapsed ids until before after
        → All (Held ids until) before
        → All (Held ids until) after
    unfolding claim apply_published apply_failure
    Elapsed-Held ids until _ _ (still table) h = h
    Elapsed-Held ids until _ _ (polled before after lease batch_size limit now locked t e) h =
        let held = Elapsed-Held ids until before after e h in
        let rows = claimed select now locked (min limit batch_size) after in
        let free =
          letter_ids-All (λ i. contains ids i ≡ false) rows
            (claimed-apart ids until now locked (min limit batch_size) after t held) in
        update_where-keeps (Held ids until) (λ row. contains (letter_ids rows) row.id)
          (λ row. record row { next_attempt_at = some (zoned (now + lease)) })
          (λ row k c. λ i. absurd (apart ids (letter_ids rows) row.id free k i)) after held
    Elapsed-Held ids until _ _ (added before after row new e) h =
        All-append (Held ids until) after (row ∷ []) (Elapsed-Held ids until before after e h)
          ((λ i. cc (i, new)), tt)
    Elapsed-Held ids until _ _ (published before after letter e) h =
        update_where-keeps (Held ids until) _ _ (λ row k c. c) after
          (Elapsed-Held ids until before after e h)
    Elapsed-Held ids until _ _ (failed before after letter other e) h =
        update_where-keeps (Held ids until) _ _
          (λ row k c. λ i. absurd (
            cc (
              subst (λ z. contains ids z ≡ true) ((nat_eq.beq_iff row.id letter.id).0 k) i,
              other,
            )))
          after (Elapsed-Held ids until before after e h)

    pub claims-apart :
        (lease batch_size limit lease' batch_size' limit' now later : ℕ)
        (locked locked' : OutboxRow F → Bool) (table after : List (OutboxRow F))
        → let first = claim select lease batch_size locked now limit table in
          let ids = map (λ (k : OutboxRecord F). k.id) first.records in
          let second = claim select lease' batch_size' locked' later limit' after in
          Elapsed ids (now + lease) first.table after
          → later < now + lease
          → All (λ (l : OutboxRecord F). contains ids l.id ≡ false) second.records
    unfolding claim to_record aware
    claims-apart lease batch_size limit lease' batch_size' limit' now later locked locked' table
          after e h =
        let first = claim select lease batch_size locked now limit table in
        let rows = claimed select now locked (min limit batch_size) table in
        let same = ids-records rows in
        let again = claimed select later locked' (min limit' batch_size') after in
        let ids = map (λ (k : OutboxRecord F). k.id) first.records in
        let held =
          subst (λ l. All (Held l (now + lease)) first.table) (sym same)
            (update_where-All (Held (letter_ids rows) (now + lease))
              (λ row. contains (letter_ids rows) row.id)
              (λ row. record row { next_attempt_at = some (zoned (now + lease)) }) (λ row k c. refl)
              (λ row k c. cc (k, c)) table) in
        records-All (λ i. contains ids i ≡ false) again
          (claimed-apart ids (now + lease) later locked' (min limit' batch_size') after h
            (Elapsed-Held ids (now + lease) first.table after e held))
