-- ===== src/Bus/Registry.antt =====
-- The bus with the registered consumers, under the dispatcher. What the handlers work on stands
-- beside the bus, apart from the store that the dispatcher writes to.
use recommendation_service.Base.{
  ℕ, ◌+◌, ◌≡◌, refl, sym, ap, ap₂, ◌∙◌, Bool, true, false, ◌&&◌, List, [], ◌∷◌, ◌++◌, map, arith,
  All, All-take, All-filter, length, filter, leb,
}
use recommendation_service.Base.Dict.{lookup, values, put}
use recommendation_service.Base.Effects.{Result, ok, err, and_then-ok, connection_lost}
use recommendation_service.Base.Sort.{sort, sort-perm, All-perm}
use mathlib.Core.List.Permᴰ
use mathlib.Core.List.{append_assoc, append-nil}
use recommendation_service.Bus.{
  InProcessEventBus, Topics, quiet, subscribe, force_down, gather, publish, name_of, message_of,
  register_consumers,
}
use recommendation_service.Consumers.{
  Kind, game_published_kind, game_withdrawn_kind, purchase_completed_kind, review_posted_kind,
  deliver,
}
use recommendation_service.Outbox.{OutboxRecord, is_pending}
use recommendation_service.Outbox.Envelope.{event_type}
use recommendation_service.Outbox.Dispatcher.{
  due, has_come, attempted, record_letter, drain, drain_once,
}
use recommendation_service.Runtime.{Runtime}
use recommendation_service.Store.{MemoryStore}

module _ {F : Type 0} where
  abbrev pub counted : OutboxRecord F → OutboxRecord F
  counted letter = record letter { attempts = letter.attempts + 1 }

  -- The store after one attempt on each letter, all with the same answer of the publisher.
  abbrev pub recorded :
      (jitter : ℕ → ℕ) (at : ℕ)
      → Result (Unit {0})
      → List (OutboxRecord F)
      → MemoryStore F
      → MemoryStore F
  recorded jitter at answer [] store = store
  recorded jitter at answer (l ∷ letters) store =
      recorded jitter at answer letters (record_letter (attempted jitter at answer l) store)

module _ {F : Type 0} ⦃r : Runtime F⦄ (topics : Topics) (backfill_limit now : ℕ) where
  -- The bus of a service that has started, with what it has delivered so far.
  abbrev pub registered : Bool → List (OutboxRecord F) → InProcessEventBus F (MemoryStore F)
  registered down past =
      force_down down
        (record (register_consumers topics backfill_limit now quiet) { delivered = past })

  -- A record of one of the four inbound types that is published while the bus is up runs the
  -- idempotent handler of that type, that one alone and once: the publication raises what the handler
  -- raises, leaves the store that it leaves, and the record is listed as delivered in both cases.
  pub publish-name_of :
      (kind : Kind) (letter : OutboxRecord F) (past : List (OutboxRecord F)) (s : MemoryStore F)
      → letter.event_type ≡ name_of kind
      → let (answer, t) = deliver backfill_limit now kind (message_of letter) s in
        publish letter (registered false past, s)
        ≡ (answer, (registered false (past ++ letter ∷ []), t))
  unfolding publish register_consumers name_of subscribe lookup put gather
  publish-name_of game_published_kind letter past s e = rw (e, and_then-ok) refl
  publish-name_of game_withdrawn_kind letter past s e = rw (e, and_then-ok) refl
  publish-name_of purchase_completed_kind letter past s e = rw (e, and_then-ok) refl
  publish-name_of review_posted_kind letter past s e = rw (e, and_then-ok) refl

  -- A record of the service's own type reaches no handler.
  publish-own :
      (letter : OutboxRecord F) (past : List (OutboxRecord F)) (s : MemoryStore F)
      → letter.event_type ≡ event_type
      → publish letter (registered false past, s)
        ≡ (ok tt, (registered false (past ++ letter ∷ []), s))
  unfolding publish register_consumers name_of subscribe lookup put gather
  publish-own letter past s e = rw e refl

  publish-down :
      (letter : OutboxRecord F) (past : List (OutboxRecord F)) (s : MemoryStore F)
      → publish letter (registered true past, s) ≡ (err connection_lost, (registered true past, s))
  unfolding publish
  publish-down letter past s = refl

  drain-own :
      (jitter : ℕ → ℕ) (at : ℕ) (letters : List (OutboxRecord F)) (n : ℕ) (store : MemoryStore F)
      (past : List (OutboxRecord F)) (s : MemoryStore F)
      → All (λ l. l.event_type ≡ event_type) letters
      → drain publish jitter at letters n store (registered false past, s) ≡ (
        n + length letters,
        recorded jitter at (ok tt) letters store,
        (registered false (past ++ map counted letters), s),
      )
  unfolding drain
  drain-own jitter at [] n store past s h =
      ap₂ (λ m d. (m, store, (registered false d, s))) (omega arith) (sym (append-nil past))
  drain-own jitter at (l ∷ letters) n store past s h =
      let rest = record_letter (attempted jitter at (ok tt) l) store in
      rw (publish-own (counted l) past s h.0) (
        drain-own jitter at letters (n + 1) rest (past ++ counted l ∷ []) s h.1
        ∙ ap₂ (λ m d. (m, recorded jitter at (ok tt) letters rest, (registered false d, s)))
            (omega arith) (append_assoc past (counted l ∷ []) (map counted letters)))

  drain-down :
      (jitter : ℕ → ℕ) (at : ℕ) (letters : List (OutboxRecord F)) (n : ℕ) (store : MemoryStore F)
      (past : List (OutboxRecord F)) (s : MemoryStore F)
      → drain publish jitter at letters n store (registered true past, s)
        ≡ (n, recorded jitter at (err connection_lost) letters store, (registered true past, s))
  unfolding drain
  drain-down jitter at [] n store past s = refl
  drain-down jitter at (l ∷ letters) n store past s =
      let rest = record_letter (attempted jitter at (err connection_lost) l) store in
      rw (publish-down (counted l) past s) (
        drain-down jitter at letters (n + 0) rest past s
        ∙ ap
            (λ m.
              (m, recorded jitter at (err connection_lost) letters rest, (registered true past, s)))
            (omega arith))

  due-own :
      (at batch_size : ℕ) (store : MemoryStore F)
      → All (λ l. l.event_type ≡ event_type) (values store.outbox)
      → All (λ l. l.event_type ≡ event_type) (due at batch_size store)
  unfolding due
  due-own at batch_size store h =
      let ready =
        filter (λ l. is_pending l && has_come at l.next_attempt_at) (values store.outbox) in
      All-take (λ l. l.event_type ≡ event_type) batch_size
        (sort (λ a b. leb a.occurred_at b.occurred_at) ready)
        (All-perm (λ l. l.event_type ≡ event_type)
          (Permᴰ.symm (sort-perm (λ a b. leb a.occurred_at b.occurred_at) ready))
          (All-filter (λ l. l.event_type ≡ event_type)
            (λ l. is_pending l && has_come at l.next_attempt_at) (values store.outbox) h))

  pub drain_once-own :
      (jitter : ℕ → ℕ) (at batch_size : ℕ) (store : MemoryStore F) (past : List (OutboxRecord F))
      (s : MemoryStore F)
      → All (λ l. l.event_type ≡ event_type) (values store.outbox)
      → let letters = due at batch_size store in
        (drain_once publish jitter at batch_size store (registered false past, s) ≡ (
          length letters,
          recorded jitter at (ok tt) letters store,
          (registered false (past ++ map counted letters), s),
        ))
        × (drain_once publish jitter at batch_size store (registered true past, s) ≡ (
          0,
          recorded jitter at (err connection_lost) letters store,
          (registered true past, s),
        ))
  unfolding drain_once
  drain_once-own jitter at batch_size store past s h =
      let letters = due at batch_size store in
      (
        drain-own jitter at letters 0 store past s (due-own at batch_size store h)
            ∙ ap
                (λ m. (
                  m,
                  recorded jitter at (ok tt) letters store,
                  (registered false (past ++ map counted letters), s),
                ))
                (omega arith),
        drain-down jitter at letters 0 store past s,
      )
