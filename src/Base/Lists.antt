-- ===== src/Base/Lists.antt =====
-- Lists over the native numbers.
use Prim.Native.Nat.{ℕ, zero, suc, ◌+◌, ◌-◌, ◌≤◌, min}
use mathlib.Core.Path.{◌≡◌, refl, ap}
use mathlib.Core.Bool.{Bool, true, false, not, ◌||◌, ◌&&◌}
use mathlib.Core.List.{List, [], ◌∷◌, ◌++◌, Mem, mem-cons_self, mem-cons_of_mem}
use native.Mathlib.Omega.{arith}
use recommendation_service.Base.Tests.{if◌then◌else◌, Eq, ◌==◌}

module _ {ℓ} {A : Type ℓ} where
  abbrev pub length : List A → ℕ
  length [] = 0
  length (x ∷ xs) = suc (length xs)

  -- `xs[:n]`
  unfoldable pub take : ℕ → List A → List A
  take zero xs = []
  take (suc n) [] = []
  take (suc n) (x ∷ xs) = x ∷ take n xs

  -- `xs[n:]`
  unfoldable pub drop : ℕ → List A → List A
  drop zero xs = xs
  drop (suc n) [] = []
  drop (suc n) (x ∷ xs) = drop n xs

  -- `xs[-n:]` for a positive `n`
  unfoldable pub take_last : ℕ → List A → List A
  take_last n xs = drop (length xs - n) xs

  -- `[x for x in xs if test(x)]`
  unfoldable pub filter : (A → Bool) → List A → List A
  filter p [] = []
  filter p (x ∷ xs) = let rest = filter p xs in if p x then x ∷ rest else rest

  abbrev pub All {κ} : (A → Type κ) → List A → Type κ
  All P [] = Unit
  All P (x ∷ xs) = P x × All P xs

  pub length-append : (xs ys : List A) → length (xs ++ ys) ≡ length xs + length ys
  length-append [] ys = omega arith
  length-append (x ∷ xs) ys = omega (arith, length-append xs ys)

  pub length-take : (n : ℕ) (xs : List A) → length (take n xs) ≡ min n (length xs)
  unfolding take
  length-take zero xs = omega arith
  length-take (suc n) [] = omega arith
  length-take (suc n) (x ∷ xs) = omega (arith, length-take n xs)

  pub length-drop : (n : ℕ) (xs : List A) → length (drop n xs) ≡ length xs - n
  unfolding drop
  length-drop zero xs = omega arith
  length-drop (suc n) [] = omega arith
  length-drop (suc n) (x ∷ xs) = omega (arith, length-drop n xs)

  pub length-take_last : (n : ℕ) (xs : List A) → length (take_last n xs) ≡ min n (length xs)
  unfolding take_last
  length-take_last n xs = omega (arith, length-drop (length xs - n) xs)

  pub take_last_short : (n : ℕ) (xs : List A) → length xs ≤ n → take_last n xs ≡ xs
  unfolding take_last drop
  take_last_short n xs h = drop_none (length xs - n) (omega arith)
    where
      drop_none : (k : ℕ) → k ≡ 0 → drop k xs ≡ xs
      drop_none zero _ = refl
      drop_none (suc k) e = absurd (omega arith)

  pub All-take {κ} : (P : A → Type κ) (n : ℕ) (xs : List A) → All P xs → All P (take n xs)
  unfolding take
  All-take P zero xs h = tt
  All-take P (suc n) [] h = tt
  All-take P (suc n) (x ∷ xs) h = (h.0, All-take P n xs h.1)

  if_list {κ} :
      (P : A → Type κ) (b : Bool) (x : A) (xs : List A)
      → (b ≡ true → P x)
      → All P xs
      → All P (if b then x ∷ xs else xs)
  if_list P true x xs h k = (h refl, k)
  if_list P false x xs h k = k

  pub All-filter {κ} :
      (P : A → Type κ) (p : A → Bool) (xs : List A) → All P xs → All P (filter p xs)
  unfolding filter
  All-filter P p [] h = tt
  All-filter P p (x ∷ xs) h = if_list P (p x) x (filter p xs) (λ _. h.0) (All-filter P p xs h.1)

  -- What `filter` keeps passes the test.
  pub filter-All : (p : A → Bool) (xs : List A) → All (λ x. p x ≡ true) (filter p xs)
  unfolding filter
  filter-All p [] = tt
  filter-All p (x ∷ xs) = if_list (λ y. p y ≡ true) (p x) x (filter p xs) (λ e. e) (filter-All p xs)

  pub All-drop {κ} : (P : A → Type κ) (n : ℕ) (xs : List A) → All P xs → All P (drop n xs)
  unfolding drop
  All-drop P zero xs h = h
  All-drop P (suc n) [] h = tt
  All-drop P (suc n) (x ∷ xs) h = All-drop P n xs h.1

  pub take-append-drop : (n : ℕ) (xs : List A) → take n xs ++ drop n xs ≡ xs
  unfolding take drop
  take-append-drop zero xs = refl
  take-append-drop (suc n) [] = refl
  take-append-drop (suc n) (x ∷ xs) = ap (◌∷◌ x) (take-append-drop n xs)

  pub length-filter-le : (p : A → Bool) (xs : List A) → length (filter p xs) ≤ length xs
  unfolding filter
  length-filter-le p [] = omega arith
  length-filter-le p (x ∷ xs) = ground (arith, length-filter-le p xs)

  pub All-imp {κ} : (P Q : A → Type κ) (xs : List A) → ((x : A) → P x → Q x) → All P xs → All Q xs
  All-imp P Q [] f h = tt
  All-imp P Q (x ∷ xs) f h = (f x h.0, All-imp P Q xs f h.1)

  -- Each element of a list is a member of it.
  pub All-Mem : (xs : List A) → All (λ x. Mem x xs) xs
  All-Mem [] = tt
  All-Mem (x ∷ xs) = (mem-cons_self, All-imp _ _ xs (λ y m. mem-cons_of_mem x m) (All-Mem xs))

  pub All-both {κ} :
      (P Q : A → Type κ) (xs : List A) → All P xs → All Q xs → All (λ x. P x × Q x) xs
  All-both P Q [] h k = tt
  All-both P Q (x ∷ xs) h k = ((h.0, k.0), All-both P Q xs h.1 k.1)

  pub All-append {κ} : (P : A → Type κ) (xs ys : List A) → All P xs → All P ys → All P (xs ++ ys)
  All-append P [] ys h k = k
  All-append P (x ∷ xs) ys h k = (h.0, All-append P xs ys h.1 k)

-- `x in xs`
module _ {ℓ} {A : Type ℓ} ⦃e : Eq A⦄ where
  unfoldable pub contains : List A → A → Bool
  contains [] a = false
  contains (x ∷ xs) a = a == x || contains xs a

  -- `dict.fromkeys(xs)`, `set(xs)`: each value once, in the order of its first occurrence
  unfoldable pub dedup_from : List A → List A → List A
  unfolding contains
  dedup_from seen [] = []
  dedup_from seen (x ∷ xs) =
      if contains seen x then dedup_from seen xs else x ∷ dedup_from (x ∷ seen) xs

  unfoldable pub dedup : List A → List A
  unfolding dedup_from
  dedup xs = dedup_from [] xs

  pub contains-append :
      (xs ys : List A) (a : A) → contains (xs ++ ys) a ≡ (contains xs a || contains ys a)
  unfolding contains
  contains-append [] ys a = refl
  contains-append (x ∷ xs) ys a = ground (arith, contains-append xs ys a)

  pub contains-filter :
      (p : A → Bool) (xs : List A) (a : A) → contains (filter p xs) a ≡ (contains xs a && p a)
  unfolding contains filter
  contains-filter p [] a = refl
  contains-filter p (x ∷ xs) a = ground (arith, contains-filter p xs a, e.beq_iff a x)

  -- What `dedup_from` keeps: the values of the list that were not seen before.
  pub contains-dedup_from :
      (seen xs : List A) (a : A)
      → contains (dedup_from seen xs) a ≡ (contains xs a && not (contains seen a))
  unfolding dedup_from contains
  contains-dedup_from seen [] a = refl
  contains-dedup_from seen (x ∷ xs) a =
      ground
        (arith, contains-dedup_from seen xs a, contains-dedup_from (x ∷ seen) xs a, e.beq_iff a x)

  pub contains-dedup : (xs : List A) (a : A) → contains (dedup xs) a ≡ contains xs a
  unfolding dedup contains
  contains-dedup xs a = ground (arith, contains-dedup_from [] xs a)

  -- No value stands twice.
  abbrev pub Distinct : List A → Type 0
  Distinct [] = Unit
  Distinct (x ∷ xs) = (contains xs x ≡ false) × Distinct xs

  pub dedup_from-Distinct : (seen xs : List A) → Distinct (dedup_from seen xs)
  unfolding dedup_from contains
  dedup_from-Distinct seen [] = tt
  dedup_from-Distinct seen (x ∷ xs) = ground (
    arith,
    dedup_from-Distinct seen xs,
    dedup_from-Distinct (x ∷ seen) xs,
    contains-dedup_from (x ∷ seen) xs x,
    e.beq_iff x x,
  )

  pub dedup-Distinct : (xs : List A) → Distinct (dedup xs)
  unfolding dedup
  dedup-Distinct xs = dedup_from-Distinct [] xs
