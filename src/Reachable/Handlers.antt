-- ===== src/Reachable/Handlers.antt =====
-- application/usecases/ingest.py: the four handlers keep the store well formed.
use recommendation_service.Base.{
  ℕ, ◌≡◌, Bool, true, false, Option, none, some, List, [], ◌∷◌, Bool-cases, inl, inr, arith,
}
use recommendation_service.Base.Dict.{get_or, Option-cases}
use recommendation_service.Base.Effects.{ok, Exec, lift, modify, ◌>>=◌, ◌>>◌}
use recommendation_service.Base.Text.{is_empty}
use recommendation_service.Catalog.{GameProfile, withdrawn, bought}
use recommendation_service.Catalog.Laws.{
  IsProfile, post_init-IsProfile, published-IsProfile, redescribed-keeps,
}
use recommendation_service.Embedding.Sparse.Weights.{empty-IsEmbedding}
use recommendation_service.Ingest.{
  Description, Inbound, publication, withdrawal, sale, opinion, once, preference_of, credit,
  credit_all, backfill, described, publish_body, withdraw, withdraw_body, buy, purchase_body,
  review, review_body, body_of, handle, game_published, game_withdrawn, purchase_completed,
  review_posted, review_kind,
}
use recommendation_service.Preference.{UserPreference, SignalKind, purchase, observe, blank}
use recommendation_service.Preference.History.{IsPreference, observe-IsPreference}
use recommendation_service.Reachable.Sound.{
  WellFormed, Sound, Keeps, bind-Keeps, lift-Keeps, found-IsPreference, upsert_game-Keeps,
  upsert_preference-Keeps, commit-Keeps, with_uow-WellFormed,
}
use recommendation_service.Runtime.{Runtime}
use recommendation_service.Store.{MemoryStore, UnitOfWork, commit}
use recommendation_service.Store.Repositories.{
  get_game, upsert_game, get_preference, upsert_preference, record_ownership, uncounted_owners,
  mark_counted, seen, mark,
}

module _ {F : Type 0} ⦃r : Runtime F⦄ where
  blank-IsPreference : (user_id : ℕ) → IsPreference {F = F} (blank user_id)
  unfolding blank
  blank-IsPreference user_id = record { taste = empty-IsEmbedding; bounded = omega arith }

  pub or_blank-IsPreference :
      (user_id : ℕ) (u : UnitOfWork F)
      → Sound u
      → IsPreference (get_or (get_preference user_id u) (blank user_id))
  or_blank-IsPreference user_id u h = elim (Option-cases (get_preference user_id u)) [
    | inl e ↦ rw e (blank-IsPreference user_id)
    | inr (p, e) ↦ rw e (found-IsPreference user_id u p h e)
  ]

  record_ownership-Keeps :
      (user_id game_id : ℕ) (counted : Bool)
      → Keeps {F = F} (modify (record_ownership user_id game_id counted))
  unfolding record_ownership
  record_ownership-Keeps user_id game_id counted u h = record {
    store = h.store;
    games = h.games;
    preferences = h.preferences;
    recommendations = h.recommendations;
  }

  mark_counted-Keeps :
      (game_id : ℕ) (owners : List ℕ) → Keeps {F = F} (modify (mark_counted game_id owners))
  unfolding mark_counted
  mark_counted-Keeps game_id owners u h = record {
    store = h.store;
    games = h.games;
    preferences = h.preferences;
    recommendations = h.recommendations;
  }

  mark-Keeps : (event_id : ℕ) → Keeps {F = F} (modify (mark event_id))
  unfolding mark
  mark-Keeps event_id u h = record {
    store = h.store;
    games = h.games;
    preferences = h.preferences;
    recommendations = h.recommendations;
  }

  credit-Keeps :
      (game : GameProfile F) (kind : SignalKind) (at user_id : ℕ)
      → Keeps (credit game kind at user_id)
  unfolding credit preference_of
  credit-Keeps game kind at user_id u h =
      let p : UserPreference F = get_or (get_preference user_id u) (blank user_id) in
      lift-Keeps (observe p game kind at) (λ updated. modify (upsert_preference updated))
        (λ q e.
          upsert_preference-Keeps q
            (observe-IsPreference p game kind at q (or_blank-IsPreference user_id u h).taste e))
        u h

  credit_all-Keeps :
      (game : GameProfile F) (at : ℕ) (owners : List ℕ) → Keeps (credit_all game at owners)
  unfolding credit_all
  credit_all-Keeps game at [] u h = h
  credit_all-Keeps game at (user_id ∷ owners) u h =
      bind-Keeps (credit game purchase at user_id) (λ _. credit_all game at owners)
        (credit-Keeps game purchase at user_id) (λ _. credit_all-Keeps game at owners) u h

  backfill-Keeps :
      (backfill_limit now : ℕ) (game : GameProfile F) → Keeps (backfill backfill_limit now game)
  unfolding backfill
  backfill-Keeps backfill_limit now game u h =
      let owners = uncounted_owners game.game_id backfill_limit u in
      elim (Bool-cases (is_empty owners)) [
        | inl e ↦ rw e h
        | inr e ↦ rw e (
            bind-Keeps (credit_all game now owners) (λ _. modify (mark_counted game.game_id owners))
              (credit_all-Keeps game now owners) (λ _. mark_counted-Keeps game.game_id owners) u h)
      ]

  described-IsProfile :
      (d : Description) (existing : Option (GameProfile F)) (g : GameProfile F)
      → described d existing ≡ ok g
      → IsProfile g
  unfolding described
  described-IsProfile d (some old) g e =
      (redescribed-keeps old d.title d.genres d.tags d.description g e).0
  described-IsProfile d none g e =
      (published-IsProfile d.game_id d.developer_id d.title d.genres d.tags d.description
        d.published_at g e).0

  publish_body-Keeps :
      (backfill_limit now : ℕ) (d : Description) → Keeps {F = F} (publish_body backfill_limit now d)
  unfolding publish_body
  publish_body-Keeps backfill_limit now d u h =
      lift-Keeps (described d (get_game d.game_id u))
        (λ game. modify (upsert_game game) >> backfill backfill_limit now game)
        (λ g e.
          bind-Keeps (modify (upsert_game g)) (λ _. backfill backfill_limit now g)
            (upsert_game-Keeps g (described-IsProfile d (get_game d.game_id u) g e))
            (λ _. backfill-Keeps backfill_limit now g))
        u h

  withdraw-Keeps : (found : Option (GameProfile F)) → Keeps (withdraw found)
  unfolding withdraw withdrawn
  withdraw-Keeps none u h = h
  withdraw-Keeps (some game) u h =
      lift-Keeps (withdrawn game) (λ changed. modify (upsert_game changed))
        (λ g e. upsert_game-Keeps g (post_init-IsProfile _ g e)) u h

  buy-Keeps :
      (recipient_id game_id at : ℕ) (found : Option (GameProfile F))
      → Keeps (buy recipient_id game_id at found)
  unfolding buy bought
  buy-Keeps recipient_id game_id at none = record_ownership-Keeps recipient_id game_id false
  buy-Keeps recipient_id game_id at (some game) =
      let count : Exec (UnitOfWork F) (Unit {0}) =
        lift (bought game) >>= λ changed. modify (upsert_game changed) in
      bind-Keeps (credit game purchase at recipient_id)
        (λ _. modify (record_ownership recipient_id game_id true) >> count)
        (credit-Keeps game purchase at recipient_id)
        (λ _.
          bind-Keeps (modify (record_ownership recipient_id game_id true)) (λ _. count)
            (record_ownership-Keeps recipient_id game_id true)
            (λ _.
              lift-Keeps (bought game) (λ changed. modify (upsert_game changed))
                (λ g e. upsert_game-Keeps g (post_init-IsProfile _ g e))))

  review-Keeps :
      (author_id : ℕ) (liked : Bool) (at : ℕ) (found : Option (GameProfile F))
      → Keeps (review author_id liked at found)
  unfolding review
  review-Keeps author_id liked at none u h = h
  review-Keeps author_id liked at (some game) u h =
      credit-Keeps game (review_kind liked) at author_id u h

  body_of-Keeps :
      (backfill_limit now : ℕ) (e : Inbound) → Keeps {F = F} (body_of backfill_limit now e)
  unfolding body_of withdraw_body purchase_body review_body
  body_of-Keeps backfill_limit now (publication d) u h = publish_body-Keeps backfill_limit now d u h
  body_of-Keeps backfill_limit now (withdrawal game_id) u h =
      withdraw-Keeps (get_game game_id u) u h
  body_of-Keeps backfill_limit now (sale recipient_id game_id at) u h =
      buy-Keeps recipient_id game_id (get_or at now) (get_game game_id u) u h
  body_of-Keeps backfill_limit now (opinion author_id game_id liked at) u h =
      review-Keeps author_id liked (get_or at now) (get_game game_id u) u h

  once-Keeps :
      (event_id : ℕ) (body : Exec (UnitOfWork F) (Unit {0}))
      → Keeps body
      → Keeps (once event_id body)
  unfolding once
  once-Keeps event_id body k u h = elim (Bool-cases (seen event_id u)) [
    | inl e ↦ rw e h
    | inr e ↦ rw e (
        bind-Keeps body (λ _. modify (mark event_id) >> modify commit) k
          (λ _.
            bind-Keeps (modify (mark event_id)) (λ _. modify commit) (mark-Keeps event_id)
              (λ _. commit-Keeps))
          u h)
  ]

  -- A handler leaves a well-formed store well formed, also where it raises.
  pub handle-WellFormed :
      (backfill_limit now event_id : ℕ) (e : Inbound) (s : MemoryStore F)
      → WellFormed s
      → WellFormed (handle backfill_limit now event_id e s).1
  unfolding handle game_published game_withdrawn purchase_completed review_posted body_of
  handle-WellFormed backfill_limit now event_id (publication d) s =
      with_uow-WellFormed (once event_id (publish_body backfill_limit now d)) s
        (once-Keeps event_id _ (body_of-Keeps backfill_limit now (publication d)))
  handle-WellFormed backfill_limit now event_id (withdrawal game_id) s =
      with_uow-WellFormed (once event_id (withdraw_body game_id)) s
        (once-Keeps event_id _ (body_of-Keeps backfill_limit now (withdrawal game_id)))
  handle-WellFormed backfill_limit now event_id (sale recipient_id game_id at) s =
      with_uow-WellFormed (once event_id (purchase_body recipient_id game_id at now)) s
        (once-Keeps event_id _ (body_of-Keeps backfill_limit now (sale recipient_id game_id at)))
  handle-WellFormed backfill_limit now event_id (opinion author_id game_id liked at) s =
      with_uow-WellFormed (once event_id (review_body author_id game_id liked at now)) s (
        once-Keeps event_id _
          (body_of-Keeps backfill_limit now (opinion author_id game_id liked at)))
