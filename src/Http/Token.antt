-- ===== src/Http/Token.antt =====
-- infrastructure/security/jwt_verifier.py. `decode` is `jwt.decode` with the secret, the algorithm, the
-- issuer and the audience of the verifier; `none` is a `PyJWTError`.
use recommendation_service.Base.{
  ℕ, ◌≡◌, true, not, Option, none, some, [], if◌then◌else◌, ◌==◌, arith, ap, sym, ◌∙◌, Bool-cases,
  inl, inr,
}
use recommendation_service.Base.Effects.{
  Result, ok, err, and_then, and_then-eq_ok, authentication, invariant_violation,
}
use recommendation_service.Base.Text.{Text, text, text_eq}
use recommendation_service.Access.{Actor, Role, basic_user, developer, support, admin}
use recommendation_service.Json.{Json, Fields, get, present}
use recommendation_service.Runtime.{Runtime, str_or}

-- `Role(raw)`
unfoldable pub role_of : Text → Result Role
role_of raw =
    if raw == text "BASIC_USER"
    then ok basic_user
    else if raw == text "DEVELOPER"
    then ok developer
    else if raw == text "SUPPORT"
    then ok support
    else if raw == text "ADMIN"
    then ok admin
    else err authentication

-- `claims.get("sub")`, which may not be `None`
abbrev pub subject_in : {F : Type 0} → Option (Json F) → Result (Json F)
subject_in none = err authentication
subject_in (some subject) = ok subject

-- `UserId.parse`
abbrev pub parsed_id : Option ℕ → Result ℕ
parsed_id none = err invariant_violation
parsed_id (some id) = ok id

parsed_ok : (found : Option ℕ) (id : ℕ) → parsed_id found ≡ ok id → found ≡ some id
parsed_ok none id h = cc h
parsed_ok (some i) id h = cc h

ok-eq : {a b : Actor} → ok a ≡ ok b → a ≡ b
ok-eq h = ground (arith, h)

module _ {F : Type 0} ⦃r : Runtime F⦄ where
  unfoldable pub actor_of : Fields F → Result Actor
  unfolding get present role_of
  actor_of claims =
      if not (str_or (text "access") (get claims (text "typ")) == text "access")
      then err authentication
      else and_then (subject_in (present (get claims (text "sub")))) λ subject.
        and_then (role_of (str_or (text "BASIC_USER") (get claims (text "role")))) λ role.
          and_then (parsed_id (r.uuid_of (str_or [] (some subject)))) λ user_id. ok (record {
            user_id = user_id;
            role = role;
            is_banned = r.upper (str_or [] (get claims (text "state"))) == text "BANNED";
          })

  abbrev pub decoded : Option (Fields F) → Result (Fields F)
  decoded none = err authentication
  decoded (some claims) = ok claims

  unfoldable pub verify : (Text → Option (Fields F)) → Text → Result Actor
  unfolding actor_of
  verify decode token = and_then (decoded (decode token)) actor_of

  -- Whom a token makes: what its claims say, which `decode` vouches for.
  pub record Claims (claims : Fields F) (actor : Actor) : Type 0 where
    pub access : (str_or (text "access") (get claims (text "typ")) == text "access") ≡ true
    pub subject : Json F
    pub present_subject : present (get claims (text "sub")) ≡ some subject
    pub user : r.uuid_of (str_or [] (some subject)) ≡ some actor.user_id
    pub role : role_of (str_or (text "BASIC_USER") (get claims (text "role"))) ≡ ok actor.role
    pub banned :
        actor.is_banned ≡ (r.upper (str_or [] (get claims (text "state"))) == text "BANNED")

  decoded_ok :
      (found : Option (Fields F)) (claims : Fields F)
      → decoded found ≡ ok claims
      → found ≡ some claims
  decoded_ok none claims h = cc h
  decoded_ok (some c) claims h = cc h

  subject_ok :
      (found : Option (Json F)) (subject : Json F)
      → subject_in found ≡ ok subject
      → found ≡ some subject
  subject_ok none subject h = cc h
  subject_ok (some s) subject h = cc h

  actor_of-Claims :
      (claims : Fields F) (actor : Actor) → actor_of claims ≡ ok actor → Claims claims actor
  unfolding actor_of
  actor_of-Claims claims actor h =
      elim (Bool-cases (str_or (text "access") (get claims (text "typ")) == text "access")) [
        | inl access ↦
            let h1 = rw access at h in
            let (subject, s, h2) =
              and_then-eq_ok (subject_in (present (get claims (text "sub")))) _ h1 in
            let (role, made, h3) =
              and_then-eq_ok (role_of (str_or (text "BASIC_USER") (get claims (text "role")))) _
                h2 in
            let (id, found, h4) =
              and_then-eq_ok (parsed_id (r.uuid_of (str_or [] (some subject)))) _ h3 in
            let same = ok-eq h4 in
            record {
              access = access;
              subject = subject;
              present_subject = subject_ok _ subject s;
              user = parsed_ok _ id found ∙ ap (λ (a : Actor). some a.user_id) same;
              role = made ∙ ap (λ (a : Actor). ok a.role) same;
              banned = sym (ap (λ (a : Actor). a.is_banned) same);
            }
        | inr other ↦ absurd (cc (rw other at h))
      ]

  -- A token is accepted only where `decode` accepts it, it is not a token of another type than an access
  -- token, and its subject, role and state are those of the actor.
  pub verify-Claims :
      (decode : Text → Option (Fields F)) (token : Text) (actor : Actor)
      → verify decode token ≡ ok actor
      → (claims : Fields F) × (decode token ≡ some claims) × Claims claims actor
  unfolding verify actor_of
  verify-Claims decode token actor h =
      let (claims, d, made) = and_then-eq_ok (decoded (decode token)) actor_of h in
      (claims, decoded_ok (decode token) claims d, actor_of-Claims claims actor made)
