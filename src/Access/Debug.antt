-- ===== src/Access/Debug.antt =====
-- Who may act as a moderator, and where the debug header is heard.
use recommendation_service.Base.{
  ℕ, ◌≡◌, refl, true, not, ◌&&◌, ◌⊎◌, inl, inr, Option, none, some, ◌==◌, arith, Bool-cases,
  and-eq_true, ◌∙◌, ap, ◌||◌,
}
use recommendation_service.Base.Effects.{Result, ok, and_then-eq_ok}
use recommendation_service.Base.Text.{Text, text, text_eq, is_empty}
use recommendation_service.Access.{
  Actor, Credentials, Identity, Verify, basic_user, optional_actor, from_debug, from_token,
  debug_actor,
}

debug_actor-basic :
    (found : Option ℕ) (actor : Actor)
    → debug_actor found ≡ ok (some actor)
    → actor.role ≡ basic_user
debug_actor-basic none actor h = cc h
debug_actor-basic (some id) actor h = ground (arith, h)

some-eq : {a b : Actor} → ok (some a) ≡ ok (some b) → a ≡ b
some-eq h = ground (arith, h)

module _ (lower : Text → Text) (uuid_of : Text → Option ℕ) where
  local_only :
      (identity : Identity) (header : Option Text) (actor : Actor)
      → from_debug lower uuid_of identity header ≡ ok (some actor)
      → (identity.is_local ≡ true)
        × ((identity.backend == text "fake") ≡ true)
        × (actor.role ≡ basic_user)
  local_only identity none actor h = cc h
  local_only identity (some header) actor h =
      elim (Bool-cases (identity.is_local && identity.backend == text "fake")) [
        | inl on ↦
            let parts = and-eq_true _ _ on in
            (parts.0, parts.1, debug_actor-basic (uuid_of header) actor (rw on at h))
        | inr off ↦ cc (rw off at h)
      ]

  verified :
      (check : Text → Result Actor) (c : Credentials) (actor : Actor)
      → from_token lower uuid_of check c ≡ ok (some actor)
      → check c.credentials ≡ ok actor
  verified check c actor h =
      elim (Bool-cases (not (lower c.scheme == text "bearer") || is_empty c.credentials)) [
        | inl bad ↦ cc (rw bad at h)
        | inr good ↦
            let (a, e, rest) = and_then-eq_ok (check c.credentials) _ (rw good at h) in
            e ∙ ap (λ x. ok x) (some-eq rest)
      ]

  -- A caller is identified in one of two ways only. Either a token was verified as that caller's, or
  -- the service runs locally with the fake identity backend, and the caller is a basic user.
  pub optional_actor-cases :
      (verify : Verify) (identity : Identity) (given : Option Credentials) (header : Option Text)
      (actor : Actor)
      → optional_actor lower uuid_of verify identity given header ≡ ok (some actor)
      → ((check : Text → Result Actor) × (c : Credentials) × (verify ≡ some check)
          × (given ≡ some c)
          × (check c.credentials ≡ ok actor))
        ⊎ ((identity.is_local ≡ true)
            × ((identity.backend == text "fake") ≡ true)
            × (actor.role ≡ basic_user))
  unfolding optional_actor
  optional_actor-cases (some check) identity (some c) header actor h =
      inl (check, c, refl, refl, verified check c actor h)
  optional_actor-cases (some check) identity none header actor h =
      inr (local_only identity header actor h)
  optional_actor-cases none identity given header actor h = inr (local_only identity header actor h)
