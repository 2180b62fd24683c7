-- ===== src/Ingest/Frame.antt =====
-- The frame of the four handlers: a second delivery changes nothing, and neither does a failure.
use recommendation_service.Base.{
  ℕ, ◌≡◌, refl, Bool, true, false, ◌||◌, inl, inr, Option, List, [], ◌∷◌, arith, contains, nat_beq,
  Bool-cases, ◌∙◌, ap, subst, sym, nat_eq,
}
use recommendation_service.Base.Effects.{
  Error, Result, Exec, ok, err, lift, modify, ◌>>=◌, ◌>>◌, continue,
}
use recommendation_service.Catalog.{GameProfile}
use recommendation_service.Ingest.{
  Inbound, Description, publication, withdrawal, sale, opinion, once, credit, credit_all, backfill,
  publish_body, withdraw_body, purchase_body, review_body, body_of, handle, game_published,
  game_withdrawn, purchase_completed, review_posted, described,
}
use recommendation_service.Preference.{SignalKind, purchase}
use recommendation_service.Runtime.{Runtime}
use recommendation_service.Store.{
  MemoryStore, UnitOfWork, begin, commit, with_uow, union, rollback, close,
}
use recommendation_service.Store.Repositories.{
  seen, mark, upsert_preference, upsert_game, record_ownership, mark_counted, uncounted_owners,
  get_game,
}

pub contains-union :
    (xs ys : List ℕ) (a : ℕ) → contains (union xs ys) a ≡ (contains xs a || contains ys a)
unfolding union contains
contains-union xs [] a = ground arith
contains-union xs (y ∷ ys) a =
    ground (arith, contains-union xs ys a, contains-union (y ∷ xs) ys a, same)
  where
    same : nat_beq a y ≡ true → contains xs a ≡ contains xs y
    same h = ap (contains xs) (ground arith)

-- What the frame makes of the result of a body: a success is marked and committed, a failure
-- leaves the store as it was.
abbrev pub settle :
    {F : Type 0}
    → ℕ
    → MemoryStore F
    → Result (Unit {0}) × UnitOfWork F
    → Result (Unit {0}) × MemoryStore F
settle event_id s (ok _, u) = (ok tt, (commit (mark event_id u)).store)
settle event_id s (err e, u) = (err e, s)

module _ {F : Type 0} where
  -- A body stages writes, and leaves the store and the commit flag to its frame.
  pub record Stages (m : Exec (UnitOfWork F) (Unit {0})) : Type 0 where
    pub store : (u : UnitOfWork F) → (m u).1.store ≡ u.store
    pub open_still : (u : UnitOfWork F) → (m u).1.committed ≡ u.committed

  Stages-then : (m n : Exec (UnitOfWork F) (Unit {0})) → Stages m → Stages n → Stages (m >> n)
  Stages-then m n sm sn = record {
    store = λ u. after u (m u) (sm.store u);
    open_still = λ u. after_flag u (m u) (sm.open_still u);
  }
    where
      after :
          (u : UnitOfWork F) (x : Result (Unit {0}) × UnitOfWork F)
          → x.1.store ≡ u.store
          → (continue (λ _. n) x).1.store ≡ u.store
      after u (ok _, v) h = sn.store v ∙ h
      after u (err _, v) h = h

      after_flag :
          (u : UnitOfWork F) (x : Result (Unit {0}) × UnitOfWork F)
          → x.1.committed ≡ u.committed
          → (continue (λ _. n) x).1.committed ≡ u.committed
      after_flag u (ok _, v) h = sn.open_still v ∙ h
      after_flag u (err _, v) h = h

  module _ (event_id : ℕ) (body : Exec (UnitOfWork F) (Unit {0})) where
    pub once_seen :
        (s : MemoryStore F)
        → contains s.processed_events event_id ≡ true
        → with_uow (once event_id body) s ≡ (ok tt, s)
    unfolding with_uow once seen contains
    once_seen s h = rw h

    finish : Result (Unit {0}) × UnitOfWork F → Result (Unit {0}) × MemoryStore F
    finish x =
        let (result, uow) = continue (λ _. modify (mark event_id) >> modify commit) x in
        (result, (close uow).store)

    finish-settle :
        (s : MemoryStore F) (x : Result (Unit {0}) × UnitOfWork F)
        → x.1.store ≡ s
        → x.1.committed ≡ false
        → finish x ≡ settle event_id s x
    unfolding finish close commit rollback
    finish-settle s (ok _, u) h k = refl
    finish-settle s (err e, u) h k = rw k (ap (λ (t : MemoryStore F). (err e, t)) h)

    pub once_new :
        (s : MemoryStore F)
        → Stages body
        → contains s.processed_events event_id ≡ false
        → with_uow (once event_id body) s ≡ settle event_id s (body (begin s))
    unfolding with_uow once seen contains finish
    once_new s st h =
        rw h (finish-settle s (body (begin s)) (st.store (begin s)) (st.open_still (begin s)))

    settle-err :
        (s : MemoryStore F) (x : Result (Unit {0}) × UnitOfWork F) (e : Error) (t : MemoryStore F)
        → settle event_id s x ≡ (err e, t)
        → t ≡ s
    settle-err s (ok _, u) e t h = cc
    settle-err s (err f, u) e t h = cc

    settle-ok :
        (s : MemoryStore F) (x : Result (Unit {0}) × UnitOfWork F) (t : MemoryStore F)
        → settle event_id s x ≡ (ok tt, t)
        → (u : UnitOfWork F) × (x ≡ (ok tt, u)) × (t ≡ (commit (mark event_id u)).store)
    settle-ok s (ok _, u) t h = (u, refl, cc)
    settle-ok s (err f, u) t h = cc

    processed_after :
        (u : UnitOfWork F)
        → contains (commit (mark event_id u)).store.processed_events event_id ≡ true
    unfolding commit mark contains
    processed_after u =
        rw (contains-union, contains-union) (ground (arith, nat_eq.beq_iff event_id event_id))

    -- A frame that ended well has the event among the processed ones.
    once_marks :
        (s t : MemoryStore F)
        → Stages body
        → with_uow (once event_id body) s ≡ (ok tt, t)
        → contains t.processed_events event_id ≡ true
    once_marks s t st h = elim (Bool-cases (contains s.processed_events event_id)) [
      | inl old ↦
          let same : s ≡ t = cc (once_seen s old, h) in
          subst (λ (x : MemoryStore F). contains x.processed_events event_id ≡ true) same old
      | inr new ↦
          let (u, ran, result) = settle-ok s (body (begin s)) t (sym (once_new s st new) ∙ h) in
          subst (λ (x : MemoryStore F). contains x.processed_events event_id ≡ true) (sym result)
            (processed_after u)
    ]

    once-err :
        (s t : MemoryStore F) (e : Error)
        → Stages body
        → with_uow (once event_id body) s ≡ (err e, t)
        → t ≡ s
    once-err s t e st h = elim (Bool-cases (contains s.processed_events event_id)) [
      | inl old ↦ cc (once_seen s old, h)
      | inr new ↦ settle-err s (body (begin s)) e t (sym (once_new s st new) ∙ h)
    ]

module _ {F : Type 0} ⦃r : Runtime F⦄ where
  credit-Stages :
      (game : GameProfile F) (kind : SignalKind) (at user_id : ℕ)
      → Stages (credit game kind at user_id)
  unfolding credit upsert_preference
  credit-Stages game kind at user_id = record {
    store = λ u. ground arith;
    open_still = λ u. ground arith;
  }

  modify-Stages :
      (f : UnitOfWork F → UnitOfWork F)
      → ((u : UnitOfWork F) → (f u).store ≡ u.store)
      → ((u : UnitOfWork F) → (f u).committed ≡ u.committed)
      → Stages (modify f)
  modify-Stages f h k = record { store = h; open_still = k }

  credit_all-Stages :
      (game : GameProfile F) (at : ℕ) (owners : List ℕ) → Stages (credit_all game at owners)
  unfolding credit_all
  credit_all-Stages game at [] = record { store = λ u. refl; open_still = λ u. refl }
  credit_all-Stages game at (user_id ∷ owners) =
      Stages-then _ _ (credit-Stages game purchase at user_id) (credit_all-Stages game at owners)

  backfill-Stages :
      (backfill_limit now : ℕ) (game : GameProfile F) → Stages (backfill backfill_limit now game)
  unfolding backfill mark_counted
  backfill-Stages backfill_limit now game =
      let both = λ (owners : List ℕ).
        Stages-then (credit_all game now owners) (modify (mark_counted game.game_id owners))
          (credit_all-Stages game now owners)
          (record { store = λ u. refl; open_still = λ u. refl }) in
      record {
        store =
            λ u. ground (arith, (both (uncounted_owners game.game_id backfill_limit u)).store u);
        open_still = λ u.
            ground (arith, (both (uncounted_owners game.game_id backfill_limit u)).open_still u);
      }

  pub publish_body-Stages :
      (backfill_limit now : ℕ) (d : Description)
      → Stages {F = F} (publish_body backfill_limit now d)
  unfolding publish_body upsert_game
  publish_body-Stages backfill_limit now d = record {
    store = λ u. publish_from-store u (described d (get_game d.game_id u));
    open_still = λ u. publish_from-flag u (described d (get_game d.game_id u));
  }
    where
      rest :
          (game : GameProfile F)
          → Stages (modify (upsert_game game) >> backfill backfill_limit now game)
      rest game =
          Stages-then (modify (upsert_game game)) (backfill backfill_limit now game)
            (record { store = λ u. refl; open_still = λ u. refl })
            (backfill-Stages backfill_limit now game)

      publish_from-store :
          (u : UnitOfWork F) (x : Result (GameProfile F))
          → ((lift x >>= λ game. modify (upsert_game game) >> backfill backfill_limit now game)
              u).1.store
            ≡ u.store
      publish_from-store u (ok game) = (rest game).store u
      publish_from-store u (err e) = refl

      publish_from-flag :
          (u : UnitOfWork F) (x : Result (GameProfile F))
          → ((lift x >>= λ game. modify (upsert_game game) >> backfill backfill_limit now game)
              u).1.committed
            ≡ u.committed
      publish_from-flag u (ok game) = (rest game).open_still u
      publish_from-flag u (err e) = refl

  withdraw_body-Stages : (game_id : ℕ) → Stages {F = F} (withdraw_body game_id)
  unfolding withdraw_body upsert_game
  withdraw_body-Stages game_id = record {
    store = λ u. ground arith;
    open_still = λ u. ground arith;
  }

  pub purchase_body-Stages :
      (recipient_id game_id : ℕ) (at : Option ℕ) (now : ℕ)
      → Stages {F = F} (purchase_body recipient_id game_id at now)
  unfolding purchase_body record_ownership upsert_game upsert_preference
  purchase_body-Stages recipient_id game_id at now = record {
    store = λ u. ground arith;
    open_still = λ u. ground arith;
  }

  review_body-Stages :
      (author_id game_id : ℕ) (liked : Bool) (at : Option ℕ) (now : ℕ)
      → Stages {F = F} (review_body author_id game_id liked at now)
  unfolding review_body upsert_preference
  review_body-Stages author_id game_id liked at now = record {
    store = λ u. ground arith;
    open_still = λ u. ground arith;
  }

  body_of-Stages :
      (backfill_limit now : ℕ) (e : Inbound) → Stages {F = F} (body_of backfill_limit now e)
  unfolding body_of
  body_of-Stages backfill_limit now (publication d) = publish_body-Stages backfill_limit now d
  body_of-Stages backfill_limit now (withdrawal game_id) = withdraw_body-Stages game_id
  body_of-Stages backfill_limit now (sale u g at) = purchase_body-Stages u g at now
  body_of-Stages backfill_limit now (opinion u g liked at) = review_body-Stages u g liked at now

  -- Each handler is the frame round its body.
  pub handle-once :
      (backfill_limit now event_id : ℕ) (e : Inbound) (s : MemoryStore F)
      → handle backfill_limit now event_id e s
        ≡ with_uow (once event_id (body_of backfill_limit now e)) s
  unfolding handle body_of game_published game_withdrawn purchase_completed review_posted
  handle-once backfill_limit now event_id (publication d) s = refl
  handle-once backfill_limit now event_id (withdrawal game_id) s = refl
  handle-once backfill_limit now event_id (sale u g at) s = refl
  handle-once backfill_limit now event_id (opinion u g liked at) s = refl

  -- Once a handler has succeeded, any handler that meets the same event id again, with any contents
  -- and at any time, succeeds and changes nothing.
  pub handle-again :
      (backfill_limit backfill_limit' now later event_id : ℕ) (e e' : Inbound) (s t : MemoryStore F)
      → handle backfill_limit now event_id e s ≡ (ok tt, t)
      → handle backfill_limit' later event_id e' t ≡ (ok tt, t)
  handle-again backfill_limit backfill_limit' now later event_id e e' s t h =
      handle-once backfill_limit' later event_id e' t
      ∙ once_seen event_id (body_of backfill_limit' later e') t (
          once_marks event_id (body_of backfill_limit now e) s t
            (body_of-Stages backfill_limit now e)
            (sym (handle-once backfill_limit now event_id e s) ∙ h))

  -- A handler that raises leaves the store as it was.
  pub handle_raises :
      (backfill_limit now event_id : ℕ) (e : Inbound) (s t : MemoryStore F) (x : Error)
      → handle backfill_limit now event_id e s ≡ (err x, t)
      → t ≡ s
  handle_raises backfill_limit now event_id e s t x h =
      once-err event_id (body_of backfill_limit now e) s t x (body_of-Stages backfill_limit now e)
        (sym (handle-once backfill_limit now event_id e s) ∙ h)

  -- A handler that meets a new event id and succeeds has run its body to a success, and its store
  -- is what the commit made of the staged writes.
  pub handle-settled :
      (backfill_limit now event_id : ℕ) (e : Inbound) (s t : MemoryStore F)
      → contains s.processed_events event_id ≡ false
      → handle backfill_limit now event_id e s ≡ (ok tt, t)
      → (u : UnitOfWork F) × (body_of backfill_limit now e (begin s) ≡ (ok tt, u))
        × (t ≡ (commit (mark event_id u)).store)
  handle-settled backfill_limit now event_id e s t new h =
      settle-ok event_id (body_of backfill_limit now e) s (body_of backfill_limit now e (begin s)) t
        (sym (
            once_new event_id (body_of backfill_limit now e) s (body_of-Stages backfill_limit now e)
              new)
          ∙ sym (handle-once backfill_limit now event_id e s)
          ∙ h)
