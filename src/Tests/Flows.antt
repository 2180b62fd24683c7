-- ===== src/Tests/Flows.antt =====
-- The theorems about the store, the handlers, the batch and the messages at concrete inputs.
use mathlib.Core.List.{filter_map}
use recommendation_service.Base.{
  suc, ltb, if◌then◌else◌, ℕ, ◌+◌, ◌≡◌, ◌⊎◌, refl, true, false, ◌&&◌, none, some, List, [], ◌∷◌,
  arith, All, inl, inr, Bool-cases, contains, filter, take, take_last, drop, dedup, nat_eq, nat_beq,
  if◌then◌else◌,
}
use recommendation_service.Base.Dict.{lookup, get_or, values, put, update}
use recommendation_service.Base.Effects.{
  Result, Exec, ok, err, invariant_violation, connection_lost, value_error, foreign,
}
use recommendation_service.Base.Lists.{dedup_from}
use recommendation_service.Base.Sort.{sort}
use recommendation_service.Base.Sort.{Selects}
use recommendation_service.Base.Text.{is_space, strip_left, text_le, text, strip, join, split}
use recommendation_service.Catalog.{published, embed, features, post_init, redescribed, trimmed}
use recommendation_service.Consumers.{
  game_published_kind, purchase_completed_kind, Delivered, deliver, event_id_of,
}
use recommendation_service.Consumers.Delivery.{deliver-again, deliver_raises}
use recommendation_service.Embedding.Dense
use recommendation_service.Embedding.Sparse
use recommendation_service.Generate.{
  GenerateConfig, Stamps, generate, recommend, explained, announce, enqueue, explanation_request,
  generate_body, generate_cold, generate_warm, ranked, refreshed,
}
use recommendation_service.Generate.Stored.{Left, generate-Left}
use recommendation_service.Ingest.{
  Inbound, Description, publication, sale, handle, game_published, purchase_completed, backfill,
  credit, credit_all, described, once, preference_of, publish_body,
}
use recommendation_service.Ingest.Frame.{handle-again, handle_raises}
use recommendation_service.Ingest.Publication.{Announced, IsKeyed, game_published-Announced}
use recommendation_service.Ingest.Purchase.{
  Sold, purchase_completed-Sold, purchase_completed-unknown,
}
use recommendation_service.Json.{of_list, string, object, field, end}
use recommendation_service.Outbox.{OutboxRecord}
use recommendation_service.Outbox.Envelope.{
  event_envelope, event_payload, item_payload, letter_of, partition_key, source_text,
}
use recommendation_service.Outbox.Dispatcher.{attempted, drain_once}
use recommendation_service.Outbox.Dispatcher.Progress.{
  IsLetter, Advanced, attempted-Advanced, drain_once-IsLetter,
}
use recommendation_service.Preference.{
  blank, observe, add_member, weight_of, rebuild, rebuilt_in, remembered_games,
}
use recommendation_service.Recommendation.{Recommendation, checked, generated_event}
use recommendation_service.Scoring.{
  content_based_scorer, ScoredGame, blend, rank, clamped, score_candidates, scored_game, scores,
  source,
}
use recommendation_service.Serve.{RecommendationsResponse, serve}
use recommendation_service.Serve.Envelope.{by_rank, stored_for, FromSales, FromStore, serve-cases}
use recommendation_service.Store.{
  MemoryStore, UnitOfWork, begin, commit, close, rollback, union, with_uow, add_letters,
  add_ownership, add_ownerships,
}
use recommendation_service.Store.Commit.{flag, flag_in, commit_keeps_credit}
use recommendation_service.Store.Repositories.{
  seen, mark, get_game, record_ownership, uncounted_owners, uncounted_stored, upsert_game,
  get_preference, upsert_preference, mark_counted, recommendable, co_purchases, all_owners, by_ids,
  count_games, count_neighbours, owned_by, owners_of, replace_for,
}
use recommendation_service.Subscriber.{attempt}
use recommendation_service.Subscriber.Retries.{Atomic, Handled, GivenUp, attempt-ends}
use recommendation_service.Tests.Domain.{racer-IsProfile, fan_after, observe_run}
use recommendation_service.Tests.Values.{
  numbers, origin, one, racer, empty_store, shop, fresh_letter,
}

-- A purchase of a game that is not known yet.
abbrev unknown_sale : Inbound
unknown_sale = sale 7 3 none

abbrev after_unknown : MemoryStore ℕ
after_unknown = record empty_store {
  ownerships = (3, (7, false) ∷ []) ∷ [];
  processed_events = 100 ∷ [];
}

unknown_run : handle 10 50 100 unknown_sale empty_store ≡ (ok tt, after_unknown)
unfolding handle purchase_completed seen contains get_game lookup commit update mark
    record_ownership
unknown_run = refl

handle-again_example : handle 10 60 100 unknown_sale after_unknown ≡ (ok tt, after_unknown)
handle-again_example =
    handle-again 10 10 50 60 100 unknown_sale unknown_sale empty_store after_unknown unknown_run

-- A publication without a title.
abbrev untitled : Description
untitled = record {
  game_id = 3;
  developer_id = 9;
  title = [];
  genres = [];
  tags = [];
  description = [];
  published_at = none;
}

untitled_run :
    handle 10 50 100 (publication untitled) empty_store
    ≡ (err invariant_violation, (handle 10 50 100 (publication untitled) empty_store).1)
unfolding handle game_published seen contains get_game lookup published embed strip
untitled_run = refl

handle_raises_example : (handle 10 50 100 (publication untitled) empty_store).1 ≡ empty_store
handle_raises_example =
    handle_raises 10 50 100 (publication untitled) empty_store
      (handle 10 50 100 (publication untitled) empty_store).1 invariant_violation untitled_run

purchase_completed-unknown_example :
    (t : MemoryStore ℕ) × (purchase_completed 50 100 7 3 none empty_store ≡ (ok tt, t))
    × (t.games ≡ [])
    × (t.preferences ≡ [])
    × ((u g : ℕ)
        → flag t u g ≡ (
            if nat_beq 7 u && nat_beq 3 g
            then some (get_or (flag empty_store u g) false)
            else flag empty_store u g))
purchase_completed-unknown_example =
    purchase_completed-unknown 50 100 7 3 none empty_store (unfold contains in refl)
      (unfold lookup in refl)

purchase_completed-Sold_example :
    (t : MemoryStore ℕ) × (purchase_completed 50 100 7 1 none shop ≡ (ok tt, t))
    × Sold 50 100 7 1 none shop racer fan_after t
purchase_completed-Sold_example =
    purchase_completed-Sold 50 100 7 1 none shop racer fan_after (unfold contains in refl)
      (unfold lookup in refl) refl racer-IsProfile refl (unfold lookup in observe_run)

-- The publication of the game that was bought before it was known.
abbrev speedway : Description
speedway = record untitled { title = text "Speedway"; genres = text "race" ∷ [] }

after_unknown-IsKeyed : IsKeyed 10 60 after_unknown
unfolding lookup contains uncounted_stored uncounted_owners take filter filter_map
after_unknown-IsKeyed = record {
  games = λ g p h. cc h;
  profiles = λ u p h. cc h;
  owners = λ g. elim (Bool-cases (nat_beq 3 g)) [ inl e ↦ rw e (refl, tt) | inr e ↦ rw e tt ];
}

abbrev after_speedway : MemoryStore ℕ
after_speedway = (game_published 10 60 101 speedway after_unknown).1

speedway_run : game_published 10 60 101 speedway after_unknown ≡ (ok tt, after_speedway)
unfolding game_published seen contains get_game lookup published embed strip Sparse.feature join
    split Sparse.bag_of filter dedup uncounted_owners take upsert_game observe filter_map put update
    dedup_from drop take_last is_space strip_left features post_init redescribed trimmed Dense.plus
    Sparse.plus Sparse.empty backfill credit credit_all described once preference_of publish_body
    add_member blank weight_of get_preference mark mark_counted uncounted_stored upsert_preference
    add_letters add_ownership add_ownerships close commit rollback union with_uow
speedway_run = refl

game_published-Announced_example : Announced 10 60 101 after_unknown speedway after_speedway
game_published-Announced_example =
    game_published-Announced 10 60 101 speedway after_unknown after_speedway after_unknown-IsKeyed
      (unfold contains in refl) speedway_run

-- A later row of the same purchase that is not counted.
abbrev late_row : UnitOfWork ℕ
late_row = record (begin shop) { ownerships = (7, 2, false) ∷ [] }

commit_keeps_credit_example : flag (commit late_row).store 7 2 ≡ some true
commit_keeps_credit_example = commit_keeps_credit late_row 7 2 (unfold flag_in lookup in refl)

abbrev config : GenerateConfig ℕ
config = record {
  scorer = content_based_scorer;
  catalogue_limit = 500;
  explanations = none;
  dense_space = false;
  topic = text "reco-events";
  correlation_id = none;
}

abbrev stamps : Stamps
stamps = record { now = 70; new_uuid = λ n. 200 + n; event_id = 300; emitted_at = 70 }

abbrev suggestion : ScoredGame ℕ
suggestion = record { game = racer; content = one; collaborative = origin; reasons = [] }

abbrev after_sweep : MemoryStore ℕ
after_sweep = (generate config stamps 7 10 shop).1

generate_run : generate config stamps 7 10 shop ≡ (ok 1, after_sweep)
unfolding generate get_preference lookup explained rank take sort filter_map recommendable filter
    update contains blend content_based_scorer Sparse.cosine co_purchases dedup checked put
    dedup_from text_le Dense.plus Dense.zip_with Sparse.embedding Sparse.empty Sparse.magnitude
    Sparse.overlap Sparse.shared announce enqueue explanation_request generate_body generate_cold
    generate_warm ranked recommend refreshed of_list event_envelope event_payload item_payload
    letter_of partition_key source_text blank rebuild rebuilt_in remembered_games generated_event
    clamped score_candidates scored_game scores source all_owners by_ids count_games
    count_neighbours owned_by owners_of replace_for upsert_preference add_letters add_ownership
    add_ownerships close commit rollback union with_uow
generate_run = refl

generate-Left_example : Left config stamps 7 10 shop after_sweep 1
generate-Left_example = generate-Left config stamps 7 10 shop after_sweep 1 generate_run

serve-cases_example :
    (response : RecommendationsResponse ℕ) × (read : List (Recommendation ℕ)) × (serve 7 10 shop
      ≡ (ok response, shop))
    × Selects by_rank 10 read (stored_for 7 shop)
    × (((read ≡ []) × FromSales (get_or (lookup 7 shop.preferences) (blank 7)) 10 response)
        ⊎ ((first : Recommendation ℕ) × (rest : List (Recommendation ℕ)) × (read ≡ first ∷ rest)
            × FromStore first rest response))
serve-cases_example = serve-cases 7 10 shop

fresh_letter-IsLetter : IsLetter fresh_letter
fresh_letter-IsLetter = record {
  pending = λ h. omega arith;
  dead = λ h. cc h;
  bounded = omega arith;
}

abbrev refused : Result (Unit {0})
refused = err connection_lost

attempted-Advanced_example : Advanced 90 fresh_letter (attempted (λ n. n) 90 refused fresh_letter)
attempted-Advanced_example =
    attempted-Advanced (λ n. n) 90 refused fresh_letter fresh_letter-IsLetter refl

abbrev with_letter : MemoryStore ℕ
with_letter = record shop { outbox = (30, fresh_letter) ∷ [] }

abbrev broker : OutboxRecord ℕ → Exec ℕ (Unit {0})
broker l calls = (refused, calls + 1)

drain_once-IsLetter_example :
    All IsLetter (values (drain_once broker (λ n. n) 90 50 with_letter 0).1.outbox)
drain_once-IsLetter_example =
    drain_once-IsLetter broker (λ n. n) 90 50 with_letter 0 (fresh_letter-IsLetter, tt)

abbrev receipt : Delivered ℕ
receipt = record {
  id = 100;
  event_type = text "arcadia.order.v1.PurchaseCompleted";
  payload =
      field (text "payload")
        (object (
          field (text "recipient_id") (string (7 ∷ []))
            (field (text "game_id") (string (3 ∷ [])) end)))
        end;
}

abbrev after_receipt : MemoryStore ℕ
after_receipt = (deliver 10 50 purchase_completed_kind receipt empty_store).1

receipt_run : deliver 10 50 purchase_completed_kind receipt empty_store ≡ (ok tt, after_receipt)
unfolding deliver contains handle purchase_completed seen get_game lookup
receipt_run = refl

receipt_id : event_id_of receipt ≡ ok 100
unfolding event_id_of
receipt_id = refl

deliver-again_example :
    deliver 10 60 purchase_completed_kind receipt after_receipt ≡ (ok tt, after_receipt)
deliver-again_example =
    deliver-again 10 50 60 100 purchase_completed_kind purchase_completed_kind receipt receipt
      empty_store after_receipt receipt_id receipt_id receipt_run

-- An event id that is no UUID.
abbrev garbled : Delivered ℕ
garbled = record receipt { payload = field (text "event_id") (string (text "no id")) end }

garbled_run :
    deliver 10 50 game_published_kind garbled shop
    ≡ (err value_error, (deliver 10 50 game_published_kind garbled shop).1)
unfolding deliver
garbled_run = refl

deliver_raises_example : (deliver 10 50 game_published_kind garbled shop).1 ≡ shop
deliver_raises_example =
    deliver_raises 10 50 game_published_kind garbled shop
      (deliver 10 50 game_published_kind garbled shop).1 value_error garbled_run

-- A handler over a state that counts attempts, which succeeds at the second.
abbrev slow : Delivered ℕ → Exec ℕ (Unit {0})
slow message n = if ltb n 6 then (err foreign, n) else (ok tt, 100)

slow-Atomic : Atomic slow
slow-Atomic message s t x h = ground (arith, h)

attempt-ends_example :
    Handled suc none
      (λ e. [])
      slow
      slow-Atomic
      2
      receipt
      5
      (attempt suc none (λ e. []) 2 (slow ∷ []) (text "game-events") end receipt 5)
    ⊎ GivenUp suc none
        (λ e. [])
        slow
        slow-Atomic
        2
        (text "game-events")
        end
        receipt
        5
        (attempt suc none (λ e. []) 2 (slow ∷ []) (text "game-events") end receipt 5)
attempt-ends_example =
    attempt-ends suc none (λ e. []) slow slow-Atomic 2 (text "game-events") end receipt 5
