-- ===== src/Base/Effects.antt =====
-- Computations that may raise, alone and over a state. The messages of the exceptions are not
-- kept: they reach the log and the body of an error response, and nothing branches on them.
use mathlib.Core.Path.{◌≡◌, refl}
use mathlib.Core.Logic.{◌⊎◌, inl, inr}

-- The exceptions of domain/shared/errors.py, application/errors.py, deps/auth.py and
-- adapters/embedding.py, the broker's `ConnectionError`, `ValueError` (of `UUID`, of
-- `datetime.fromisoformat` and of `zip(..., strict=True)`), and what code outside src/ raises.
pub data Error : Type 0 where
  invariant_violation not_found forbidden : Error
  authentication authorization debug_auth_disabled : Error
  provider_unavailable connection_lost value_error foreign : Error

pub data Result {ℓ} (A : Type ℓ) : Type ℓ where
  ok : A → Result A
  err : Error → Result A

-- `bind` of a value that was computed without a state.
abbrev pub and_then {ℓ κ} : {A : Type ℓ} {B : Type κ} → Result A → (A → Result B) → Result B
and_then (ok a) f = f a
and_then (err e) f = err e

pub Result-cases {ℓ} :
    {A : Type ℓ} (m : Result A) → ((a : A) × (m ≡ ok a)) ⊎ ((e : Error) × (m ≡ err e))
Result-cases (ok a) = inl (a, refl)
Result-cases (err e) = inr (e, refl)

pub and_then-ok {ℓ} : {A : Type ℓ} (m : Result A) → and_then m (λ a. ok a) ≡ m
and_then-ok (ok a) = refl
and_then-ok (err e) = refl

-- What a success of both says of the first.
pub and_then-eq_ok {ℓ κ} :
    {A : Type ℓ} {B : Type κ} (m : Result A) (f : A → Result B) {b : B}
    → and_then m f ≡ ok b
    → (a : A) × (m ≡ ok a) × (f a ≡ ok b)
and_then-eq_ok (ok a) f h = (a, refl, h)
and_then-eq_ok (err e) f h = cc

-- A method on a mutable object: what was written before a raise stays written, so that the state
-- comes back beside the exception too.
abbrev pub Exec : Type 0 → Type 0 → Type 0
Exec S A = S → Result A × S

module _ {S A : Type 0} where
  abbrev pub pure : A → Exec S A
  pure a s = (ok a, s)

  abbrev pub raise : Error → Exec S A
  raise e s = (err e, s)

  abbrev pub lift : Result A → Exec S A
  lift r s = (r, s)

  abbrev pub gets : (S → A) → Exec S A
  gets f s = (ok (f s), s)

abbrev pub modify : {S : Type 0} → (S → S) → Exec S (Unit {0})
modify f s = (ok tt, f s)

module _ {S A B : Type 0} where
  abbrev pub continue : (A → Exec S B) → Result A × S → Result B × S
  continue f (ok a, s) = f a s
  continue f (err e, s) = (err e, s)

  infixl 5 ◌>>=◌ ◌>>◌
  abbrev pub ◌>>=◌ : Exec S A → (A → Exec S B) → Exec S B
  ◌>>=◌ m f s = continue f (m s)

  abbrev pub ◌>>◌ : Exec S A → Exec S B → Exec S B
  m >> n = m >>= λ _. n

  -- What a success of a sequence says of its parts.
  pub bind-eq_ok :
      (m : Exec S A) (f : A → Exec S B) (s t : S) (b : B)
      → (m >>= f) s ≡ (ok b, t)
      → (a : A) × (mid : S) × (m s ≡ (ok a, mid)) × (f a mid ≡ (ok b, t))
  bind-eq_ok m f s t b h = from (m s) refl h
    where
      from :
          (x : Result A × S)
          → m s ≡ x
          → continue f x ≡ (ok b, t)
          → (a : A) × (mid : S) × (m s ≡ (ok a, mid)) × (f a mid ≡ (ok b, t))
      from (ok a, mid) e k = (a, mid, e, k)
      from (err x, mid) e k = cc k
