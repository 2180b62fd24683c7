-- ===== src/Ingest/Backfill.antt =====
-- What the handler of `GamePublished` does: the description, and the credit to those who bought the
-- game before it was known.
use recommendation_service.Base.{
  ℕ, ◌≡◌, refl, true, false, Option, some, List, [], ◌∷◌, arith, if◌then◌else◌, nat_beq, nat_eq,
  contains, Distinct, ◌∙◌, ap, sym, subst, Bool-cases, inl, inr,
}
use recommendation_service.Base.Dict.{lookup-put, IsDict, put-IsDict, Option-cases}
use recommendation_service.Base.Effects.{ok, Result-cases, bind-eq_ok}
use recommendation_service.Catalog.{GameProfile}
use recommendation_service.Ingest.{preference_of, credit, credit_all}
use recommendation_service.Preference.{UserPreference, purchase, observe, blank}
use recommendation_service.Preference.History.{observe-Observed}
use recommendation_service.Runtime.{Runtime}
use recommendation_service.Store.{UnitOfWork}
use recommendation_service.Store.Repositories.{get_preference, upsert_preference}

module _ {F : Type 0} ⦃r : Runtime F⦄ (game : GameProfile F) (at : ℕ) where
  -- A user's stored profile after the credit, where `before` is the unit of work before it.
  abbrev pub CreditedTo : UnitOfWork F → ℕ → Option (UserPreference F) → Type 0
  CreditedTo before user_id after =
      (q : UserPreference F) × (after ≡ some q)
      × (observe (preference_of user_id before) game purchase at ≡ ok q)

  -- Every visible profile stands under its own user.
  abbrev pub Keyed : UnitOfWork F → Type 0
  Keyed u = (x : ℕ) (p : UserPreference F) → get_preference x u ≡ some p → p.user_id ≡ x

  credit-eq_ok :
      (user_id : ℕ) (before after : UnitOfWork F)
      → credit game purchase at user_id before ≡ (ok tt, after)
      → (q : UserPreference F) × (observe (preference_of user_id before) game purchase at ≡ ok q)
        × (after ≡ upsert_preference q before)
  unfolding credit
  credit-eq_ok user_id before after h =
      elim (Result-cases (observe (preference_of user_id before) game purchase at)) [
        | inl (q, e) ↦ (q, e, cc (rw e at h))
        | inr (x, e) ↦ cc (rw e at h)
      ]

  preference_of-user :
      (user_id : ℕ) (u : UnitOfWork F) → Keyed u → (preference_of user_id u).user_id ≡ user_id
  unfolding preference_of blank
  preference_of-user user_id u k = elim (Option-cases (get_preference user_id u)) [
    | inl e ↦ rw e
    | inr (p, e) ↦ rw e (k user_id p e)
  ]

  get_preference-upsert :
      (x : ℕ) (q : UserPreference F) (u : UnitOfWork F)
      → get_preference x (upsert_preference q u)
        ≡ (if nat_beq q.user_id x then some q else get_preference x u)
  unfolding get_preference upsert_preference
  get_preference-upsert x q u = ground (arith, lookup-put x q.user_id q u.preferences)

  -- What the loop over the owners leaves.
  pub record AllCredited (owners : List ℕ) (before after : UnitOfWork F) : Type 0 where
    pub store : after.store ≡ before.store
    pub games : after.games ≡ before.games
    pub ownerships : after.ownerships ≡ before.ownerships
    pub recommendations : after.recommendations ≡ before.recommendations
    pub events : after.events ≡ before.events
    pub processed : after.processed ≡ before.processed
    pub dictionary : IsDict after.preferences
    pub credited : (x : ℕ) → contains owners x ≡ true → CreditedTo before x (get_preference x after)
    pub others :
        (x : ℕ) → contains owners x ≡ false → get_preference x after ≡ get_preference x before

  credited_before :
      (y : ℕ) (before mid : UnitOfWork F) {after : Option (UserPreference F)}
      → get_preference y mid ≡ get_preference y before
      → CreditedTo mid y after
      → CreditedTo before y after
  unfolding preference_of
  credited_before y before mid same (q, e, obs) = (q, e, (rw same at obs))

  module _ (x : ℕ) (q : UserPreference F) (before mid : UnitOfWork F) (k : Keyed before)
      (seen_so : observe (preference_of x before) game purchase at ≡ ok q)
      (up : mid ≡ upsert_preference q before) where
    step-user : q.user_id ≡ x
    step-user =
        (observe-Observed (preference_of x before) game purchase at q seen_so).user
        ∙ preference_of-user x before k

    credit-step :
        (y : ℕ) → get_preference y mid ≡ (if nat_beq x y then some q else get_preference y before)
    credit-step y =
        ap (get_preference y) up
        ∙ get_preference-upsert y q before
        ∙ ap (λ (i : ℕ). if nat_beq i y then some q else get_preference y before) step-user

    step-Keyed : Keyed mid
    step-Keyed y p h = ground (arith, credit-step y, step-user, k y p)

    step-IsDict : IsDict before.preferences → IsDict mid.preferences
    step-IsDict d =
        subst (λ (u : UnitOfWork F). IsDict u.preferences) (sym up)
          (unfold upsert_preference in put-IsDict q.user_id q before.preferences d)

  pub credit_all-AllCredited :
      (owners : List ℕ) (before after : UnitOfWork F)
      → Keyed before
      → IsDict before.preferences
      → Distinct owners
      → credit_all game at owners before ≡ (ok tt, after)
      → AllCredited owners before after
  unfolding credit_all contains upsert_preference
  credit_all-AllCredited [] before after k d distinct h =
      let same : before ≡ after = ground arith in
      subst (λ (u : UnitOfWork F). AllCredited [] before u) same
        (record {
          store = refl;
          games = refl;
          ownerships = refl;
          recommendations = refl;
          events = refl;
          processed = refl;
          dictionary = d;
          credited = λ x c. cc c;
          others = λ x c. refl;
        })
  credit_all-AllCredited (x ∷ owners) before after k d distinct h =
      let (_, mid, ran, rest) =
        bind-eq_ok (credit game purchase at x) (λ _. credit_all game at owners) before after tt h in
      let (q, seen_so, up) = credit-eq_ok x before mid ran in
      let step = credit-step x q before mid k seen_so up in
      let all =
        credit_all-AllCredited owners mid after (step-Keyed x q before mid k seen_so up)
          (step-IsDict x q before mid k seen_so up d) distinct.1 rest in
      record {
        store = all.store ∙ ap (λ (u : UnitOfWork F). u.store) up;
        games = all.games ∙ ap (λ (u : UnitOfWork F). u.games) up;
        ownerships = all.ownerships ∙ ap (λ (u : UnitOfWork F). u.ownerships) up;
        recommendations = all.recommendations ∙ ap (λ (u : UnitOfWork F). u.recommendations) up;
        events = all.events ∙ ap (λ (u : UnitOfWork F). u.events) up;
        processed = all.processed ∙ ap (λ (u : UnitOfWork F). u.processed) up;
        dictionary = all.dictionary;
        credited = λ y c. elim (Bool-cases (nat_beq x y)) [
          | inl here ↦
              subst (λ z. CreditedTo before z (get_preference z after))
                ((nat_eq.beq_iff x y).0 here)
                (q, all.others x distinct.0 ∙ step x ∙ ground arith, seen_so)
          | inr there ↦
              credited_before y before mid (step y ∙ rw there) (all.credited y (ground arith))
        ];
        others = λ y c. all.others y (ground arith) ∙ step y ∙ ground arith;
      }
