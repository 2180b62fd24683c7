-- ===== src/Base/Dict.antt =====
-- Python's `dict`: the entries in the order in which their keys came in. An assignment to a key that
-- is there keeps its place.
use mathlib.Core.Path.{◌≡◌, refl, sym, ap₂, subst}
use mathlib.Core.Logic.{◌⊎◌, inl, inr}
use mathlib.Core.Bool.{Bool, true, false, ◌||◌}
use mathlib.Core.Option.{Option, none, some}
use mathlib.Core.List.{List, [], ◌∷◌, map}
use native.Mathlib.Omega.{arith}
use recommendation_service.Base.Tests.{if◌then◌else◌, Eq, ◌==◌, Bool-cases}
use recommendation_service.Base.Lists.{contains, Distinct, All}

abbrev pub Dict {ℓ κ} : Type ℓ → Type κ → Type (ℓ ⊔ κ)
Dict K V = List (K × V)

module _ {ℓ κ} {K : Type ℓ} {V : Type κ} where
  abbrev pub keys : Dict K V → List K
  keys = map (λ e. e.0)

  abbrev pub values : Dict K V → List V
  values = map (λ e. e.1)

abbrev pub or_else {ℓ} : {A : Type ℓ} → Option A → Option A → Option A
or_else (some a) b = some a
or_else none b = b

abbrev pub get_or {ℓ} : {A : Type ℓ} → Option A → A → A
get_or (some a) b = a
get_or none b = b

abbrev pub is_some {ℓ} : {A : Type ℓ} → Option A → Bool
is_some (some a) = true
is_some none = false

-- To split on a computed option and keep the equation.
pub Option-cases {ℓ} : {A : Type ℓ} (o : Option A) → (o ≡ none) ⊎ ((a : A) × (o ≡ some a))
Option-cases none = inl refl
Option-cases (some a) = inr (a, refl)

module _ {ℓ κ} {K : Type ℓ} {V : Type κ} ⦃e : Eq K⦄ where
  -- `d.get(k)`
  unfoldable pub lookup : K → Dict K V → Option V
  lookup k [] = none
  lookup k ((j, v) ∷ d) = if j == k then some v else lookup k d

  -- `d[k] = v`
  unfoldable pub put : K → V → Dict K V → Dict K V
  put k v [] = (k, v) ∷ []
  put k v ((j, w) ∷ d) = if j == k then (j, v) ∷ d else (j, w) ∷ put k v d

  -- `d.update(new)`, and `{**d, **new}`
  unfoldable pub update : Dict K V → Dict K V → Dict K V
  unfolding put
  update d [] = d
  update d ((k, v) ∷ new) = update (put k v d) new

  abbrev pub IsDict : Dict K V → Type 0
  IsDict d = Distinct (keys d)

  pub lookup-put :
      (j k : K) (v : V) (d : Dict K V)
      → lookup j (put k v d) ≡ (if k == j then some v else lookup j d)
  unfolding lookup put
  lookup-put j k v [] = refl
  lookup-put j k v ((i, w) ∷ d) =
      ground (arith, lookup-put j k v d, e.beq_iff i k, e.beq_iff i j, e.beq_iff k j)

  pub contains-put :
      (j k : K) (v : V) (d : Dict K V)
      → contains (keys (put k v d)) j ≡ (j == k || contains (keys d) j)
  unfolding put contains
  contains-put j k v [] = refl
  contains-put j k v ((i, w) ∷ d) =
      ground (arith, contains-put j k v d, e.beq_iff i k, e.beq_iff j i, e.beq_iff j k)

  pub put-IsDict : (k : K) (v : V) (d : Dict K V) → IsDict d → IsDict (put k v d)
  unfolding put contains
  put-IsDict k v [] h = (refl, tt)
  put-IsDict k v ((i, w) ∷ d) h =
      ground (arith, put-IsDict k v d, contains-put i k v d, e.beq_iff i k)

  pub update-IsDict : (d new : Dict K V) → IsDict d → IsDict (update d new)
  unfolding update
  update-IsDict d [] h = h
  update-IsDict d ((k, v) ∷ new) h = update-IsDict (put k v d) new (put-IsDict k v d h)

  lookup_absent : (k : K) (d : Dict K V) → contains (keys d) k ≡ false → lookup k d ≡ none
  unfolding lookup contains
  lookup_absent k [] h = refl
  lookup_absent k ((i, w) ∷ d) h = ground (arith, lookup_absent k d, e.beq_iff i k, e.beq_iff k i)

  -- What an update holds at a key: the new value, or else the old one.
  pub lookup-update :
      (j : K) (d new : Dict K V)
      → IsDict new
      → lookup j (update d new) ≡ or_else (lookup j new) (lookup j d)
  unfolding update lookup
  lookup-update j d [] h = refl
  lookup-update j d ((k, v) ∷ new) h = ground (
    arith,
    lookup-update j (put k v d) new h.1,
    lookup-put j k v d,
    lookup_absent k new h.0,
    e.beq_iff k j,
  )

  pub is_some-lookup : (k : K) (d : Dict K V) → is_some (lookup k d) ≡ contains (keys d) k
  unfolding lookup contains
  is_some-lookup k [] = refl
  is_some-lookup k ((i, w) ∷ d) = ground (arith, is_some-lookup k d, e.beq_iff i k, e.beq_iff k i)

module _ {K V : Type 0} ⦃q : Eq K⦄ where
  -- What all entries meet, an entry meets that is put beside them.
  pub All-put :
      (P : K × V → Type 0) (k : K) (v : V) (d : Dict K V) → P (k, v) → All P d → All P (put k v d)
  unfolding put
  All-put P k v [] p h = (p, tt)
  All-put P k v (b ∷ d) p h = elim (Bool-cases (b.0 == k)) [
    | inl t ↦ rw t (subst (λ j. P (j, v)) (sym ((q.beq_iff b.0 k).0 t)) p, h.1)
    | inr t ↦ rw t (h.0, All-put P k v d p h.1)
  ]

  -- What all entries meet, the entry meets that a lookup finds.
  pub All-lookup :
      (P : K × V → Type 0) (k : K) (v : V) (d : Dict K V) → All P d → lookup k d ≡ some v → P (k, v)
  unfolding lookup
  All-lookup P k v [] h e = absurd (cc e)
  All-lookup P k v (b ∷ d) h e = elim (Bool-cases (b.0 == k)) [
    | inl t ↦ subst P (ap₂ (λ j w. (j, w)) ((q.beq_iff b.0 k).0 t) (ground arith)) h.0
    | inr t ↦ All-lookup P k v d h.1 (ground arith)
  ]
