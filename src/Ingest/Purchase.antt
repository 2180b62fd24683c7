-- ===== src/Ingest/Purchase.antt =====
-- What the handler of `PurchaseCompleted` does to the store, on each of its ways.
use recommendation_service.Base.{
  ℕ, ◌+◌, ◌≡◌, refl, true, false, ◌&&◌, Option, none, some, [], ◌∷◌, arith, if◌then◌else◌, nat_beq,
  nat_eq, contains, ◌∙◌, ap,
}
use recommendation_service.Base.Dict.{lookup, put, update, get_or}
use recommendation_service.Base.Effects.{ok}
use recommendation_service.Catalog.{GameProfile}
use recommendation_service.Catalog.Laws.{IsProfile, updates_succeed}
use recommendation_service.Embedding.Dense
use recommendation_service.Ingest.{purchase_body, purchase_completed}
use recommendation_service.Ingest.Frame.{once_new, purchase_body-Stages, settle}
use recommendation_service.Preference.{UserPreference, purchase, observe, blank}
use recommendation_service.Runtime.{Runtime}
use recommendation_service.Store.{MemoryStore, UnitOfWork, begin, commit}
use recommendation_service.Store.Commit.{
  flag, flag-add_ownerships, games-commit, preferences-commit,
}
use recommendation_service.Store.Repositories.{
  get_game, upsert_game, get_preference, upsert_preference, record_ownership, mark,
}

module _ {F : Type 0} ⦃r : Runtime F⦄ (now event_id user_id game_id : ℕ) (at : Option ℕ) where
  -- What a purchase of a game leaves: the buyer's new profile, one more purchase of the game, the
  -- row of the owner, and every other game, profile and row as it was.
  pub record Sold (s : MemoryStore F) (game : GameProfile F) (q : UserPreference F)
      (t : MemoryStore F) : Type 0 where
    pub games :
        (g : ℕ)
        → lookup g t.games ≡ (
            if nat_beq game_id g
            then some (record game { purchase_count = game.purchase_count + 1 })
            else lookup g s.games)
    pub preferences :
        (u : ℕ)
        → lookup u t.preferences ≡ (if nat_beq user_id u then some q else lookup u s.preferences)
    pub flags :
        (u g : ℕ)
        → flag t u g ≡ (if nat_beq user_id u && nat_beq game_id g then some true else flag s u g)

  staged_sale : MemoryStore F → GameProfile F → UserPreference F → UnitOfWork F
  staged_sale s game q = record (begin s) {
    games = (game_id, record game { purchase_count = game.purchase_count + 1 }) ∷ [];
    preferences = (user_id, q) ∷ [];
    ownerships = (user_id, game_id, true) ∷ [];
  }

  runs :
      (s : MemoryStore F) (game : GameProfile F) (q : UserPreference F)
      → lookup game_id s.games ≡ some game
      → game.game_id ≡ game_id
      → q.user_id ≡ user_id
      → IsProfile game
      → observe
          (get_or (lookup user_id s.preferences) (blank user_id))
          game
          purchase
          (get_or at now)
        ≡ ok q
      → purchase_body user_id game_id at now (begin s) ≡ (ok tt, staged_sale s game q)
  unfolding purchase_body get_game get_preference upsert_game upsert_preference record_ownership
      lookup put staged_sale
  runs s game q found id user valid seen_so =
      ground (arith, (updates_succeed game Dense.empty valid).0)

  sold :
      (s : MemoryStore F) (game : GameProfile F) (q : UserPreference F)
      → Sold s game q (commit (mark event_id (staged_sale s game q))).store
  unfolding commit mark staged_sale
  sold s game q = record {
    games = λ g.
        games-commit (mark event_id (staged_sale s game q)) g (unfold contains in (refl, tt))
        ∙ (unfold get_game lookup in ground arith);
    preferences = λ u.
        preferences-commit (mark event_id (staged_sale s game q)) u (unfold contains in (refl, tt))
        ∙ (unfold get_preference lookup in ground arith);
    flags =
        λ u g. flag-add_ownerships u g ((user_id, game_id, true) ∷ []) s.ownerships ∙ ground arith;
  }

  -- A new purchase of a known, well-formed game by a user whose vector fits the game's succeeds. It
  -- folds the game into the profile, counts the purchase once, records the owner as credited, and
  -- changes no other game, profile or row.
  pub purchase_completed-Sold :
      (s : MemoryStore F) (game : GameProfile F) (q : UserPreference F)
      → contains s.processed_events event_id ≡ false
      → lookup game_id s.games ≡ some game
      → game.game_id ≡ game_id
      → IsProfile game
      → q.user_id ≡ user_id
      → observe
          (get_or (lookup user_id s.preferences) (blank user_id))
          game
          purchase
          (get_or at now)
        ≡ ok q
      → (t : MemoryStore F) × (purchase_completed now event_id user_id game_id at s ≡ (ok tt, t))
        × Sold s game q t
  unfolding purchase_completed
  purchase_completed-Sold s game q new found id valid user seen_so = (
    (commit (mark event_id (staged_sale s game q))).store,
    once_new event_id (purchase_body user_id game_id at now) s
          (purchase_body-Stages user_id game_id at now) new
        ∙ ap (settle event_id s) (runs s game q found id user valid seen_so),
    sold s game q,
  )

  staged_unknown : MemoryStore F → UnitOfWork F
  staged_unknown s = record (begin s) { ownerships = (user_id, game_id, false) ∷ [] }

  runs_unknown :
      (s : MemoryStore F)
      → lookup game_id s.games ≡ none
      → purchase_body user_id game_id at now (begin s) ≡ (ok tt, staged_unknown s)
  unfolding purchase_body get_game record_ownership lookup staged_unknown
  runs_unknown s missing = ground arith

  -- A new purchase of a game that is not known yet succeeds. It records the owner, as uncredited
  -- unless a credit is there already, and changes no game, no profile and no other row.
  pub purchase_completed-unknown :
      (s : MemoryStore F)
      → contains s.processed_events event_id ≡ false
      → lookup game_id s.games ≡ none
      → (t : MemoryStore F) × (purchase_completed now event_id user_id game_id at s ≡ (ok tt, t))
        × (t.games ≡ s.games)
        × (t.preferences ≡ s.preferences)
        × ((u g : ℕ)
            → flag t u g ≡ (
                if nat_beq user_id u && nat_beq game_id g
                then some (get_or (flag s u g) false)
                else flag s u g))
  unfolding purchase_completed staged_unknown commit mark update
  purchase_completed-unknown s new missing = (
    (commit (mark event_id (staged_unknown s))).store,
    once_new event_id (purchase_body user_id game_id at now) s
          (purchase_body-Stages user_id game_id at now) new
        ∙ ap (settle event_id s) (runs_unknown s missing),
    refl,
    refl,
    λ u g. flag-add_ownerships u g ((user_id, game_id, false) ∷ []) s.ownerships ∙ ground arith,
  )
