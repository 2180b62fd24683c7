-- ===== src/Consumers/Delivery.antt =====
-- A message is handled once, however often it is delivered, and a failed delivery leaves no trace.
use recommendation_service.Base.{
  ℕ, ◌≡◌, refl, true, inl, inr, Option, none, some, [], ◌∷◌, arith, contains, nat_eq, Bool-cases,
  ◌∙◌, ap, sym, subst,
}
use recommendation_service.Base.Effects.{Error, Result, ok, err, modify, continue, Result-cases}
use recommendation_service.Consumers.{Kind, Delivered, event_id_of, inbound, execute, deliver}
use recommendation_service.Ingest.{Inbound}
use recommendation_service.Ingest.Frame.{handle_raises, contains-union}
use recommendation_service.Runtime.{Runtime}
use recommendation_service.Store.{MemoryStore, union}

module _ {F : Type 0} ⦃r : Runtime F⦄ where
  execute_raises :
      (backfill_limit now : ℕ) (message : Delivered F) (asked : Option Inbound)
      (s t : MemoryStore F) (x : Error)
      → execute backfill_limit now message asked s ≡ (err x, t)
      → t ≡ s
  unfolding execute
  execute_raises backfill_limit now message none s t x h = cc h
  execute_raises backfill_limit now message (some e) s t x h =
      elim (Result-cases (event_id_of message)) [
        | inl (id, found) ↦ handle_raises backfill_limit now id e s t x (rw found at h)
        | inr (y, found) ↦ cc (rw found at h)
      ]

  -- A delivery that raises leaves the store as it was.
  pub deliver_raises :
      (backfill_limit now : ℕ) (kind : Kind) (message : Delivered F) (s t : MemoryStore F)
      (x : Error)
      → deliver backfill_limit now kind message s ≡ (err x, t)
      → t ≡ s
  unfolding deliver
  deliver_raises backfill_limit now kind message s t x h =
      elim (Result-cases (event_id_of message)) [
        | inr (y, found) ↦ cc (rw found at h)
        | inl (id, found) ↦ elim (Bool-cases (contains s.processed_events id)) [
          | inl old ↦ cc (rw (found, old) at h)
          | inr new ↦
              finish id (execute backfill_limit now message (inbound kind message) s) refl
                (rw (found, new) at h)
        ]
      ]
    where
      finish :
          (id : ℕ) (y : Result (Unit {0}) × MemoryStore F)
          → execute backfill_limit now message (inbound kind message) s ≡ y
          → continue
              (λ _.
                modify (λ s. record s { processed_events = union s.processed_events (id ∷ []) }))
              y
            ≡ (err x, t)
          → t ≡ s
      finish id (ok _, u) e k = cc k
      finish id (err z, u) e k =
          ap (λ w. w.1) (sym k)
          ∙ execute_raises backfill_limit now message (inbound kind message) s u z e

  -- Once a message was delivered with success, a message with the same event id, of any kind and at
  -- any later time, is taken with success and changes nothing.
  pub deliver-again :
      (backfill_limit now later event_id : ℕ) (kind kind' : Kind) (message message' : Delivered F)
      (s t : MemoryStore F)
      → event_id_of message ≡ ok event_id
      → event_id_of message' ≡ ok event_id
      → deliver backfill_limit now kind message s ≡ (ok tt, t)
      → deliver backfill_limit later kind' message' t ≡ (ok tt, t)
  unfolding deliver contains
  deliver-again backfill_limit now later event_id kind kind' message message' s t e e' h =
      rw e' (rw marked refl)
    where
      finish :
          (y : Result (Unit {0}) × MemoryStore F)
          → continue
              (λ _.
                modify
                  (λ s. record s { processed_events = union s.processed_events (event_id ∷ []) }))
              y
            ≡ (ok tt, t)
          → contains t.processed_events event_id ≡ true
      finish (err z, u) k = cc k
      finish (ok _, u) k =
          subst (λ (w : MemoryStore F). contains w.processed_events event_id ≡ true)
            (ap (λ w. w.1) k)
            (contains-union u.processed_events (event_id ∷ []) event_id
              ∙ ground (arith, nat_eq.beq_iff event_id event_id))

      marked : contains t.processed_events event_id ≡ true
      marked = elim (Bool-cases (contains s.processed_events event_id)) [
        | inl old ↦
            let same : s ≡ t = ap (λ w. w.1) (rw (e, old) at h) in
            subst (λ (w : MemoryStore F). contains w.processed_events event_id ≡ true) same old
        | inr new ↦
            finish (execute backfill_limit now message (inbound kind message) s) (rw (e, new) at h)
      ]
