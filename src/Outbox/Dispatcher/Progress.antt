-- ===== src/Outbox/Dispatcher/Progress.antt =====
-- How the letters of the outbox advance under the dispatcher.
use mathlib.Core.List.Permᴰ
use recommendation_service.Base.{
  ℕ, ◌+◌, ◌*◌, ◌^◌, ◌≤◌, ◌≡◌, true, false, ◌⊎◌, inl, inr, Option, none, some, List, [], ◌∷◌, arith,
  leb, All, refl, nat_beq, nat_eq, Bool-cases, All-imp, All-take, All-filter, filter-All, All-both,
}
use recommendation_service.Base.Dict.{Dict, put, values}
use recommendation_service.Base.Effects.{Result, Exec, ok, err}
use recommendation_service.Base.Sort.{All-perm, sort-perm}
use recommendation_service.Outbox.{OutboxRecord, is_none, is_pending}
use recommendation_service.Outbox.Dispatcher.{
  max_attempts, backoff, due, record_letter, attempted, drain, drain_once,
}
use recommendation_service.Store.{MemoryStore}

unpublished : (x : Option ℕ) → is_none x ≡ true → x ≡ none
unpublished none h = refl
unpublished (some a) h = cc h

module _ {F : Type 0} where
  -- A letter as the dispatcher keeps it: a pending one has been tried fewer than five times, a dead
  -- one exactly five times, and a dead one was not published.
  pub record IsLetter (l : OutboxRecord F) : Type 0 where
    pub pending : is_pending l ≡ true → l.attempts ≤ 4
    pub dead : l.dead_lettered ≡ true → (l.attempts ≡ 5) × (l.published_at ≡ none)
    pub bounded : l.attempts ≤ 5

  -- One attempt on a pending letter counts it and ends in one of three ways. The letter is published
  -- now, or it is dead after its fifth attempt, or it is pending and waits at least half a second,
  -- doubled for every attempt before.
  pub record Advanced (now : ℕ) (before after : OutboxRecord F) : Type 0 where
    pub counted : after.attempts ≡ before.attempts + 1
    pub ended :
        ((after.published_at ≡ some now) × (after.dead_lettered ≡ false))
        ⊎ (((after.dead_lettered ≡ true) × (after.attempts ≡ 5) × (after.published_at ≡ none))
            ⊎ ((is_pending after ≡ true)
                × (at : ℕ) × (after.next_attempt_at ≡ some at)
                × (now + 500000 * 2 ^ before.attempts ≤ at)))

  pending-parts :
      (l : OutboxRecord F)
      → is_pending l ≡ true
      → (l.published_at ≡ none) × (l.dead_lettered ≡ false)
  pending-parts l h = (unpublished l.published_at (ground (arith, h)), ground (arith, h))

  pub attempted-Advanced :
      (jitter : ℕ → ℕ) (now : ℕ) (answer : Result (Unit {0})) (l : OutboxRecord F)
      → IsLetter l
      → is_pending l ≡ true
      → Advanced now l (attempted jitter now answer l)
  unfolding attempted
  attempted-Advanced jitter now (ok _) l w h = record {
    counted = refl;
    ended = inl (refl, (pending-parts l h).1);
  }
  attempted-Advanced jitter now (err e) l w h =
      elim (Bool-cases (leb max_attempts (l.attempts + 1))) [
        | inl last ↦ rw last (record {
          counted = refl;
          ended = inr (inl (refl, ground (arith, last, w.pending h), (pending-parts l h).0));
        })
        | inr more ↦ rw more (record {
          counted = refl;
          ended = inr (
              inr (
                h,
                now + (backoff (l.attempts + 1) + jitter (l.attempts + 1)),
                refl,
                ground arith,
              ));
        })
      ]

  attempted-IsLetter :
      (jitter : ℕ → ℕ) (now : ℕ) (answer : Result (Unit {0})) (l : OutboxRecord F)
      → IsLetter l
      → is_pending l ≡ true
      → IsLetter (attempted jitter now answer l)
  unfolding attempted
  attempted-IsLetter jitter now (ok _) l w h = record {
    pending = λ k. cc k;
    dead = λ k. cc (k, (pending-parts l h).1);
    bounded = ground (arith, w.pending h);
  }
  attempted-IsLetter jitter now (err e) l w h = record {
    pending = λ k. ground (arith, w.pending h);
    dead = λ k. ground (arith, w.pending h, (pending-parts l h).0, (pending-parts l h).1);
    bounded = ground (arith, w.pending h);
  }

  All-put :
      (Q : OutboxRecord F → Type 0) (k : ℕ) (l : OutboxRecord F) (d : Dict ℕ (OutboxRecord F))
      → Q l
      → All Q (values d)
      → All Q (values (put k l d))
  unfolding put
  All-put Q k l [] q h = (q, tt)
  All-put Q k l ((i, m) ∷ d) q h = elim (Bool-cases (nat_beq i k)) [
    | inl e ↦ rw e (q, h.1)
    | inr e ↦ rw e (h.0, All-put Q k l d q h.1)
  ]

  module _ {P : Type 0} (publisher : OutboxRecord F → Exec P (Unit {0})) (jitter : ℕ → ℕ)
      (now : ℕ) where
    drain-IsLetter :
        (letters : List (OutboxRecord F)) (n : ℕ) (s : MemoryStore F) (p : P)
        → All (λ l. (is_pending l ≡ true) × IsLetter l) letters
        → All IsLetter (values s.outbox)
        → All IsLetter (values (drain publisher jitter now letters n s p).1.outbox)
    unfolding drain
    drain-IsLetter [] n s p h k = k
    drain-IsLetter (l ∷ letters) n s p h k =
        let (answer, q) = publisher (record l { attempts = l.attempts + 1 }) p in
        drain-IsLetter letters _ (record_letter (attempted jitter now answer l) s) q h.1 (
          All-put IsLetter (attempted jitter now answer l).id (attempted jitter now answer l)
            s.outbox (attempted-IsLetter jitter now answer l h.0.1 h.0.0) k)

    -- Whatever the publisher answers, a run of `drain_once` over an outbox of well-formed letters
    -- leaves one: no letter is tried a sixth time, and one is dead only after five failures.
    pub drain_once-IsLetter :
        (batch_size : ℕ) (s : MemoryStore F) (p : P)
        → All IsLetter (values s.outbox)
        → All IsLetter (values (drain_once publisher jitter now batch_size s p).1.outbox)
    unfolding drain_once due
    drain_once-IsLetter batch_size s p h =
        drain-IsLetter (due now batch_size s) 0 s p
          (All-take _ batch_size _ (
            All-perm _ (Permᴰ.symm (sort-perm _ _)) (
              All-both _ _ _
                (All-imp _ _ _ (λ l k. ground (arith, k)) (filter-All _ (values s.outbox)))
                (All-filter IsLetter _ (values s.outbox) h))))
          h
