-- ===== src/Ingest/Publication.antt =====
-- The handler of `GamePublished` as a whole: the profile that it stores, whom it credits, and what
-- it leaves alone.
use mathlib.Core.List.{append-nil}
use recommendation_service.Base.{
  ℕ, ◌≡◌, refl, true, false, ◌&&◌, ◌||◌, Option, none, some, List, [], ◌∷◌, ◌++◌, map, arith,
  if◌then◌else◌, nat_beq, nat_eq, contains, Distinct, ◌∙◌, ap, sym, subst, inl, inr,
}
use recommendation_service.Base.Dict.{lookup, put, update, IsDict}
use recommendation_service.Base.Effects.{Result, ok, Result-cases, bind-eq_ok, ◌>>◌, modify}
use recommendation_service.Base.Text.{is_empty}
use recommendation_service.Catalog.{GameProfile}
use recommendation_service.Catalog.Laws.{IsProfile, published-IsProfile, redescribed-keeps}
use recommendation_service.Ingest.{
  Description, publication, publish_body, body_of, handle, game_published, credit_all, backfill,
  described, preference_of,
}
use recommendation_service.Ingest.Backfill.{CreditedTo, Keyed, AllCredited, credit_all-AllCredited}
use recommendation_service.Ingest.Frame.{handle-settled, contains-union}
use recommendation_service.Preference.{UserPreference}
use recommendation_service.Runtime.{Runtime}
use recommendation_service.Store.{MemoryStore, UnitOfWork, begin, commit, add_letters, union}
use recommendation_service.Store.Commit.{
  flag, flag-add_ownerships, raised_all, raised_all-counted, games-commit, preferences-commit,
}
use recommendation_service.Store.Repositories.{
  get_game, upsert_game, get_preference, uncounted_owners, mark_counted, mark,
}

module _ {F : Type 0} ⦃r : Runtime F⦄ (backfill_limit now : ℕ) where
  -- Those whom the publication of a game owes a credit: the first `backfill_limit` owners whose
  -- purchase reached no taste vector.
  abbrev pub owed : MemoryStore F → ℕ → List ℕ
  owed s game_id = uncounted_owners game_id backfill_limit (begin s)

  -- Every stored game and profile stands under its own id, and no owner is listed twice.
  pub record IsKeyed (s : MemoryStore F) : Type 0 where
    pub games : (g : ℕ) (p : GameProfile F) → lookup g s.games ≡ some p → p.game_id ≡ g
    pub profiles : (u : ℕ) (p : UserPreference F) → lookup u s.preferences ≡ some p → p.user_id ≡ u
    pub owners : (g : ℕ) → Distinct (owed s g)

  described-id :
      (d : Description) (existing : Option (GameProfile F)) (game : GameProfile F)
      → ((p : GameProfile F) → existing ≡ some p → p.game_id ≡ d.game_id)
      → described d existing ≡ ok game
      → (game.game_id ≡ d.game_id) × IsProfile game
  unfolding described
  described-id d none game k h =
      let (valid, id, _, _) = published-IsProfile _ _ _ _ _ _ _ game h in (id, valid)
  described-id d (some p) game k h =
      let (valid, id, _, _, _) = redescribed-keeps p _ _ _ _ game h in (id ∙ k p refl, valid)

  backfill-eq_ok :
      (game : GameProfile F) (before after : UnitOfWork F)
      → backfill backfill_limit now game before ≡ (ok tt, after)
      → let owners = uncounted_owners game.game_id backfill_limit before in
        (mid : UnitOfWork F) × (credit_all game now owners before ≡ (ok tt, mid))
        × (after ≡ mark_counted game.game_id owners mid)
  unfolding backfill mark_counted credit_all
  backfill-eq_ok game before after h = split (uncounted_owners game.game_id backfill_limit before) h
    where
      split :
          (owners : List ℕ)
          → (if is_empty owners
                then (λ (u : UnitOfWork F).
                    let x : Result (Unit {0}) × UnitOfWork F = (ok tt, u) in x)
                else (credit_all game now owners >> modify (mark_counted game.game_id owners)))
              before
            ≡ (ok tt, after)
          → (mid : UnitOfWork F) × (credit_all game now owners before ≡ (ok tt, mid))
            × (after ≡ mark_counted game.game_id owners mid)
      split [] k = (before, refl, cc (k, append-nil before.ownerships))
      split (x ∷ owners) k =
          let (_, mid, ran, rest) =
            bind-eq_ok (credit_all game now (x ∷ owners))
              (λ _. modify (mark_counted game.game_id (x ∷ owners))) before after tt k in
          (mid, ran, cc rest)

  -- What a publication leaves: the game's profile as `described` makes it, every owner who was owed
  -- one credited and marked, the event among the processed ones, and every other game, profile and
  -- row, every list of recommendations and the outbox as they were.
  pub record Announced (event_id : ℕ) (s : MemoryStore F) (d : Description) (t : MemoryStore F)
      : Type 0 where
    pub game : GameProfile F
    pub made : described d (lookup d.game_id s.games) ≡ ok game
    pub valid : IsProfile game
    pub id : game.game_id ≡ d.game_id
    pub games :
        (g : ℕ) → lookup g t.games ≡ (if nat_beq d.game_id g then some game else lookup g s.games)
    pub credited :
        (u : ℕ)
        → contains (owed s d.game_id) u ≡ true
        → CreditedTo game now (begin s) u (lookup u t.preferences)
    pub others :
        (u : ℕ)
        → contains (owed s d.game_id) u ≡ false
        → lookup u t.preferences ≡ lookup u s.preferences
    pub flags :
        (u g : ℕ)
        → flag t u g
          ≡ (if contains (owed s d.game_id) u && nat_beq d.game_id g then some true else flag s u g)
    pub recommendations : t.recommendations ≡ s.recommendations
    pub outbox : t.outbox ≡ s.outbox
    pub processed :
        (e : ℕ)
        → contains t.processed_events e ≡ (contains s.processed_events e || nat_beq event_id e)

  module _ (event_id : ℕ) (d : Description) (s : MemoryStore F) (k : IsKeyed s)
      (game : GameProfile F) (made : described d (lookup d.game_id s.games) ≡ ok game)
      (u : UnitOfWork F)
      (ran : backfill backfill_limit now game (upsert_game game (begin s)) ≡ (ok tt, u)) where
    id_valid : (game.game_id ≡ d.game_id) × IsProfile game
    id_valid = described-id d (lookup d.game_id s.games) game (k.games d.game_id) made

    owners : List ℕ
    owners = uncounted_owners game.game_id backfill_limit (upsert_game game (begin s))

    owners-owed : owners ≡ owed s d.game_id
    unfolding owners uncounted_owners upsert_game
    owners-owed = ap (λ i. owed s i) id_valid.0

    Keyed-begin : Keyed game now (upsert_game game (begin s))
    unfolding get_preference upsert_game lookup
    Keyed-begin x p h = k.profiles x p h

    -- The unit of work at the end of the backfill.
    record Ended : Type 0 where
      games : u.games ≡ (game.game_id, game) ∷ []
      store : u.store ≡ s
      ownerships : u.ownerships ≡ map (λ x. (x, game.game_id, true)) owners
      preferences : IsDict u.preferences
      recommendations : u.recommendations ≡ []
      events : u.events ≡ []
      processed : u.processed ≡ []
      credited :
          (x : ℕ)
          → contains owners x ≡ true
          → CreditedTo game now (upsert_game game (begin s)) x (get_preference x u)
      others :
          (x : ℕ)
          → contains owners x ≡ false
          → get_preference x u ≡ get_preference x (upsert_game game (begin s))

    ended : Ended
    unfolding owners upsert_game
    ended =
        let (mid, all, last) = backfill-eq_ok game (upsert_game game (begin s)) u ran in
        let c =
          credit_all-AllCredited game now owners (upsert_game game (begin s)) mid Keyed-begin tt
            (subst Distinct (sym owners-owed) (k.owners d.game_id)) all in
        ended_from mid c last
      where
        ended_from :
            (mid : UnitOfWork F)
            → AllCredited game now owners (upsert_game game (begin s)) mid
            → u ≡ mark_counted game.game_id owners mid
            → Ended
        ended_from mid c last =
            unfold mark_counted upsert_game put get_preference in
            record {
              games = ap (λ (x : UnitOfWork F). x.games) last ∙ c.games;
              store = ap (λ (x : UnitOfWork F). x.store) last ∙ c.store;
              ownerships =
                  ap (λ (x : UnitOfWork F). x.ownerships) last
                  ∙ ap (λ o. o ++ map (λ x. (x, game.game_id, true)) owners) c.ownerships;
              preferences =
                  subst (λ (x : UnitOfWork F). IsDict x.preferences) (sym last) c.dictionary;
              recommendations =
                  ap (λ (x : UnitOfWork F). x.recommendations) last ∙ c.recommendations;
              events = ap (λ (x : UnitOfWork F). x.events) last ∙ c.events;
              processed = ap (λ (x : UnitOfWork F). x.processed) last ∙ c.processed;
              credited = λ x h.
                  subst
                    (λ (v : UnitOfWork F).
                      CreditedTo game now (upsert_game game (begin s)) x (get_preference x v))
                    (sym last) (c.credited x h);
              others = λ x h. ap (get_preference x) last ∙ c.others x h;
            }

    preference-after :
        (x : ℕ) → lookup x (commit (mark event_id u)).store.preferences ≡ get_preference x u
    unfolding mark get_preference
    preference-after x = preferences-commit (mark event_id u) x ended.preferences

    credited-begin :
        (x : ℕ)
        → CreditedTo game now (upsert_game game (begin s)) x (get_preference x u)
        → CreditedTo game now (begin s) x (get_preference x u)
    unfolding preference_of get_preference upsert_game
    credited-begin x h = h

    raised_after :
        (x g : ℕ)
        → raised_all x g u.ownerships (flag u.store x g)
          ≡ (if contains (owed s d.game_id) x && nat_beq d.game_id g then some true else flag s x g)
    raised_after x g =
        rw (ended.ownerships, ended.store)
          (raised_all-counted x g game.game_id owners (flag s x g)
            ∙ ap
                (λ (l : List ℕ).
                  if contains l x && nat_beq game.game_id g then some true else flag s x g)
                owners-owed
            ∙ ap
                (λ (i : ℕ).
                  if contains (owed s d.game_id) x && nat_beq i g then some true else flag s x g)
                id_valid.0)

    announced : Announced event_id s d (commit (mark event_id u)).store
    unfolding commit mark
    announced = record {
      game = game;
      made = made;
      valid = id_valid.1;
      id = id_valid.0;
      games = λ g.
          games-commit (mark event_id u) g (rw ended.games (unfold contains in (refl, tt)))
          ∙ (unfold get_game lookup in rw (ended.games, ended.store, id_valid.0) (ground arith));
      credited = λ x h.
          let was : contains owners x ≡ true = ap (λ (l : List ℕ). contains l x) owners-owed ∙ h in
          subst (CreditedTo game now (begin s) x) (sym (preference-after x))
            (credited-begin x (ended.credited x was));
      others = λ x h.
          let was : contains owners x ≡ false = ap (λ (l : List ℕ). contains l x) owners-owed ∙ h in
          preference-after x
          ∙ ended.others x was
          ∙ (unfold get_preference upsert_game lookup in refl);
      flags = λ x g. flag-add_ownerships x g u.ownerships u.store.ownerships ∙ raised_after x g;
      recommendations = rw (ended.recommendations, ended.store) (unfold update in refl);
      outbox = rw (ended.events, ended.store) (unfold add_letters in refl);
      processed = λ e.
          rw (ended.processed, ended.store, contains-union) (unfold contains union in ground arith);
    }

  publish_body-eq_ok :
      (d : Description) (s : MemoryStore F) (u : UnitOfWork F)
      → publish_body backfill_limit now d (begin s) ≡ (ok tt, u)
      → (game : GameProfile F) × (described d (lookup d.game_id s.games) ≡ ok game)
        × (backfill backfill_limit now game (upsert_game game (begin s)) ≡ (ok tt, u))
  unfolding publish_body get_game lookup
  publish_body-eq_ok d s u h = elim (Result-cases (described d (lookup d.game_id s.games))) [
    | inl (game, e) ↦ (game, e, (rw e at h))
    | inr (x, e) ↦ cc (rw e at h)
  ]

  pub game_published-Announced :
      (event_id : ℕ) (d : Description) (s t : MemoryStore F)
      → IsKeyed s
      → contains s.processed_events event_id ≡ false
      → game_published backfill_limit now event_id d s ≡ (ok tt, t)
      → Announced event_id s d t
  game_published-Announced event_id d s t k new h =
      let (u, ran, result) =
        handle-settled backfill_limit now event_id (publication d) s t new (unfold handle in h) in
      let (game, made, rest) = publish_body-eq_ok d s u (unfold body_of in ran) in
      subst (Announced event_id s d) (sym result) (announced event_id d s k game made u rest)
