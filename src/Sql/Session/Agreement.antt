-- ===== src/Sql/Session/Agreement.antt =====
-- The outbox and the marks of a session hold what those of the in-memory unit of work hold.
use mathlib.Core.List.{append_assoc}
use recommendation_service.Base.{
  ℕ, ◌≡◌, refl, ap, ◌∙◌, inl, inr, true, false, ◌||◌, List, [], ◌∷◌, ◌++◌, map, contains,
  contains-append, Distinct, nat_eq, nat_beq, Bool-cases, arith,
}
use recommendation_service.Generate.{GenerateConfig, enqueue}
use recommendation_service.Ingest.Frame.{contains-union}
use recommendation_service.Outbox.{OutboxRecord}
use recommendation_service.Outbox.Envelope.{letter_of}
use recommendation_service.Recommendation.{RecommendationGenerated}
use recommendation_service.Runtime.{Runtime}
use recommendation_service.Sql.{aware}
use recommendation_service.Sql.Queries.{to_record}
use recommendation_service.Sql.Session.{
  ProcessedEventRow, Tables, seen_row, mark_row, outbox_row, enqueue_rows, mark_event,
}
use recommendation_service.Store.{UnitOfWork}
use recommendation_service.Store.Repositories.{seen, mark}

-- The ids of the marked events.
abbrev pub marked_ids : List ProcessedEventRow → List ℕ
marked_ids rows = map (λ (row : ProcessedEventRow). row.event_id) rows

map-snoc :
    {A B : Type 0} (f : A → B) (xs : List A) (x : A) → map f (xs ++ x ∷ []) ≡ map f xs ++ f x ∷ []
map-snoc f [] x = refl
map-snoc f (y ∷ xs) x = ap (λ l. f y ∷ l) (map-snoc f xs x)

Distinct-snoc :
    (xs : List ℕ) (x : ℕ) → Distinct xs → contains xs x ≡ false → Distinct (xs ++ x ∷ [])
unfolding contains
Distinct-snoc [] x h k = (refl, tt)
Distinct-snoc (y ∷ xs) x h k = (
  ground (arith, contains-append xs (x ∷ []) y, h.0, k),
  Distinct-snoc xs x h.1 (ground (arith, k)),
)

seen_row-mark_row :
    (x event_id now : ℕ) (rows : List ProcessedEventRow)
    → seen_row x (mark_row event_id now rows) ≡ (seen_row x rows || nat_beq x event_id)
unfolding seen_row mark_row contains
seen_row-mark_row x event_id now rows = elim (Bool-cases (contains (marked_ids rows) event_id)) [
  | inl old ↦ rw old (ground (arith, same, old))
  | inr new ↦
      rw (new, map-snoc) (ground (arith, contains-append (marked_ids rows) (event_id ∷ []) x))
]
  where
    same :
        nat_beq x event_id ≡ true
        → contains (marked_ids rows) x ≡ contains (marked_ids rows) event_id
    same h = ap (contains (marked_ids rows)) (ground arith)

mark_row-Distinct :
    (event_id now : ℕ) (rows : List ProcessedEventRow)
    → Distinct (marked_ids rows)
    → Distinct (marked_ids (mark_row event_id now rows))
unfolding seen_row mark_row
mark_row-Distinct event_id now rows h = elim (Bool-cases (contains (marked_ids rows) event_id)) [
  | inl old ↦ rw old h
  | inr new ↦ rw (new, map-snoc) (Distinct-snoc (marked_ids rows) event_id h new)
]

-- What a unit of work may write beside the repositories.
pub data Write (F : Type 0) : Type 0 where
  announced : RecommendationGenerated F → Write F
  handled : (event_id : ℕ) → Write F

module _ {F : Type 0} ⦃r : Runtime F⦄ where
  -- The session's tables show the in-memory unit of work: behind the letters `earlier`, which were
  -- there before, the letters it has staged; as seen the events it takes for seen; and each once.
  pub record Shows (earlier : List (OutboxRecord F)) (tables : Tables F) (uow : UnitOfWork F)
      : Type 0 where
    pub letters : map to_record tables.outbox ≡ earlier ++ uow.events
    pub marks : (x : ℕ) → seen_row x tables.processed_events ≡ seen x uow
    pub keyed : Distinct (marked_ids tables.processed_events)

  module _ (config : GenerateConfig F) (now : ℕ) where
    abbrev pub in_session : List (Write F) → Tables F → Tables F
    in_session [] tables = tables
    in_session (announced event ∷ writes) tables =
        in_session writes (enqueue_rows config.topic config.correlation_id (event ∷ []) tables)
    in_session (handled event_id ∷ writes) tables =
        in_session writes (mark_event event_id now tables)

    abbrev pub in_memory : List (Write F) → UnitOfWork F → UnitOfWork F
    in_memory [] uow = uow
    in_memory (announced event ∷ writes) uow = in_memory writes (enqueue config event uow)
    in_memory (handled event_id ∷ writes) uow = in_memory writes (mark event_id uow)

    to_record-outbox_row :
        (event : RecommendationGenerated F)
        → to_record (outbox_row config.topic config.correlation_id event)
          ≡ letter_of config.topic config.correlation_id event
    unfolding to_record outbox_row letter_of aware
    to_record-outbox_row event = refl

    announced-Shows :
        (earlier : List (OutboxRecord F)) (tables : Tables F) (uow : UnitOfWork F)
        (event : RecommendationGenerated F)
        → Shows earlier tables uow
        → Shows earlier
            (enqueue_rows config.topic config.correlation_id (event ∷ []) tables)
            (enqueue config event uow)
    unfolding enqueue_rows enqueue seen
    announced-Shows earlier tables uow event h = record {
      letters =
          map-snoc to_record tables.outbox (outbox_row config.topic config.correlation_id event)
          ∙ ap
              (λ (l : List (OutboxRecord F)).
                l ++ to_record (outbox_row config.topic config.correlation_id event) ∷ [])
              h.letters
          ∙ append_assoc earlier uow.events _
          ∙ ap (λ (l : OutboxRecord F). earlier ++ (uow.events ++ l ∷ []))
              (to_record-outbox_row event);
      marks = h.marks;
      keyed = h.keyed;
    }

    handled-Shows :
        (earlier : List (OutboxRecord F)) (tables : Tables F) (uow : UnitOfWork F) (event_id : ℕ)
        → Shows earlier tables uow
        → Shows earlier (mark_event event_id now tables) (mark event_id uow)
    unfolding mark_event mark seen contains
    handled-Shows earlier tables uow event_id h = record {
      letters = h.letters;
      marks = λ x.
          seen_row-mark_row x event_id now tables.processed_events
          ∙ ap (λ b. b || nat_beq x event_id) (h.marks x)
          ∙ ground (arith, contains-union uow.processed (event_id ∷ []) x);
      keyed = mark_row-Distinct event_id now tables.processed_events h.keyed;
    }

    -- From tables that show the in-memory unit of work, and whatever is announced and marked then, in
    -- any order and number: the rows of the session are read as the letters that the in-memory
    -- unit of work has staged, behind those that were there before; the session sees exactly the
    -- events that the other sees; and no event has two rows.
    pub in_session-Shows :
        (earlier : List (OutboxRecord F)) (writes : List (Write F)) (tables : Tables F)
        (uow : UnitOfWork F)
        → Shows earlier tables uow
        → Shows earlier (in_session writes tables) (in_memory writes uow)
    in_session-Shows earlier [] tables uow h = h
    in_session-Shows earlier (announced event ∷ writes) tables uow h =
        in_session-Shows earlier writes _ _ (announced-Shows earlier tables uow event h)
    in_session-Shows earlier (handled event_id ∷ writes) tables uow h =
        in_session-Shows earlier writes _ _ (handled-Shows earlier tables uow event_id h)
