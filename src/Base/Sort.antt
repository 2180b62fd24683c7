-- ===== src/Base/Sort.antt =====
-- Python's `sorted(xs, key=...)` and `list.sort`: the stable sort. The comparison of two keys is an
-- argument; `le x y` is `not (key(y) < key(x))`, which keeps `x` in front of `y`.
use mathlib.Core.Path.{◌≡◌, refl, sym, ap, subst, ◌∙◌}
use mathlib.Core.Bool.{Bool, true, false, ◌&&◌}
use mathlib.Core.List.{List, [], ◌∷◌, ◌++◌, Permᴰ}
use mathlib.Core.List.Permᴰ
use Prim.Native.Nat.{ℕ, zero, suc, ◌≤◌}
use mathlib.Core.Logic.{◌≢◌, inl, inr}
use native.Mathlib.Omega.{arith}
use recommendation_service.Base.Tests.{if◌then◌else◌, Bool-cases, Eq}
use recommendation_service.Base.Lists.{
  length, All, All-imp, contains, take, drop, All-take, All-drop, take-append-drop, length-take,
}

module _ {ℓ} {A : Type ℓ} (le : A → A → Bool) where
  unfoldable pub insert : A → List A → List A
  insert x [] = x ∷ []
  insert x (y ∷ ys) = let rest = insert x ys in if le x y then x ∷ y ∷ ys else y ∷ rest

  unfoldable pub sort : List A → List A
  unfolding insert
  sort [] = []
  sort (x ∷ xs) = insert x (sort xs)

  -- Everything in the list may stand behind `x`.
  abbrev pub Below : A → List A → Type 0
  Below x ys = All (λ y. le x y ≡ true) ys

  abbrev pub IsSorted : List A → Type 0
  IsSorted [] = Unit
  IsSorted (x ∷ xs) = Below x xs × IsSorted xs

  -- No two elements tie.
  abbrev pub Apart : List A → Type 0
  Apart [] = Unit
  Apart (x ∷ xs) = All (λ y. (le x y && le y x) ≡ false) xs × Apart xs

  -- `sorted(xs)[:n]`: `chosen` ascends and is a selection of `n` elements, or of all, and none of
  -- those left out has to stand before one that was chosen.
  pub record Selects (n : ℕ) (chosen xs : List A) : Type ℓ where
    pub ascending : IsSorted chosen
    pub others : List A
    pub all_there : Permᴰ (chosen ++ others) xs
    pub foremost : All (λ x. Below x others) chosen
    pub bounded : length chosen ≤ n
    pub filled : others ≢ [] → length chosen ≡ n

  insert-perm : (x : A) (xs : List A) → Permᴰ (insert x xs) (x ∷ xs)
  unfolding insert
  insert-perm x [] = Permᴰ.refl (x ∷ [])
  insert-perm x (y ∷ ys) =
      place (le x y) (Permᴰ.trans (Permᴰ.cons refl (insert-perm x ys)) (Permᴰ.swap refl refl))
    where
      place :
          (b : Bool)
          → Permᴰ (y ∷ insert x ys) (x ∷ y ∷ ys)
          → Permᴰ (if b then x ∷ y ∷ ys else y ∷ insert x ys) (x ∷ y ∷ ys)
      place true p = Permᴰ.refl _
      place false p = p

  pub sort-perm : (xs : List A) → Permᴰ (sort xs) xs
  unfolding sort
  sort-perm [] = Permᴰ.nil
  sort-perm (x ∷ xs) = Permᴰ.trans (insert-perm x (sort xs)) (Permᴰ.cons refl (sort-perm xs))

pub All-perm {ℓ κ} :
    {A : Type ℓ} (P : A → Type κ) {xs ys : List A} → Permᴰ xs ys → All P xs → All P ys
All-perm P Permᴰ.nil h = h
All-perm P (Permᴰ.cons e p) h = (subst P e h.0, All-perm P p h.1)
All-perm P (Permᴰ.swap e f) h = (subst P f h.1.0, (subst P e h.0, h.1.1))
All-perm P (Permᴰ.trans p q) h = All-perm P q (All-perm P p h)

pub length-perm {ℓ} : {A : Type ℓ} {xs ys : List A} → Permᴰ xs ys → length xs ≡ length ys
length-perm Permᴰ.nil = refl
length-perm (Permᴰ.cons e p) = ap suc (length-perm p)
length-perm (Permᴰ.swap e f) = refl
length-perm (Permᴰ.trans p q) = length-perm p ∙ length-perm q

-- Two arrangements of one list have the same members.
pub contains-perm {ℓ} :
    {A : Type ℓ} ⦃e : Eq A⦄ {xs ys : List A} (a : A) → Permᴰ xs ys → contains xs a ≡ contains ys a
unfolding contains
contains-perm a Permᴰ.nil = refl
contains-perm a (Permᴰ.cons e p) = ground (arith, e, contains-perm a p)
contains-perm a (Permᴰ.swap e f) = ground (arith, e, f)
contains-perm a (Permᴰ.trans p q) = contains-perm a p ∙ contains-perm a q

module _ {ℓ} {A : Type ℓ} (le : A → A → Bool) (total : (a b : A) → le a b ≡ false → le b a ≡ true)
    (transitive : (a b c : A) → le a b ≡ true → le b c ≡ true → le a c ≡ true) where
  Below-trans : (x y : A) (ys : List A) → le x y ≡ true → Below le y ys → Below le x ys
  Below-trans x y ys h b =
      All-imp (λ z. le y z ≡ true) (λ z. le x z ≡ true) ys (λ z k. transitive x y z h k) b

  insert-Below :
      (x y : A) (ys : List A) → le y x ≡ true → Below le y ys → Below le y (insert le x ys)
  insert-Below x y ys h b = All-perm (λ z. le y z ≡ true) (Permᴰ.symm (insert-perm le x ys)) (h, b)

  insert-IsSorted : (x : A) (xs : List A) → IsSorted le xs → IsSorted le (insert le x xs)
  unfolding insert
  insert-IsSorted x [] s = (tt, tt)
  insert-IsSorted x (y ∷ ys) s = elim (Bool-cases (le x y)) [
    | inl h ↦ rw h ((h, Below-trans x y ys h s.0), s)
    | inr h ↦ rw h (insert-Below x y ys (total x y h) s.0, insert-IsSorted x ys s.1)
  ]

  -- The result ascends.
  pub sort-IsSorted : (xs : List A) → IsSorted le (sort le xs)
  unfolding sort
  sort-IsSorted [] = tt
  sort-IsSorted (x ∷ xs) = insert-IsSorted x (sort le xs) (sort-IsSorted xs)

  -- Two elements that do not tie can be inserted in either order.
  insert_comm :
      (x y : A) (zs : List A)
      → (le x y && le y x) ≡ false
      → insert le x (insert le y zs) ≡ insert le y (insert le x zs)
  unfolding insert
  insert_comm x y [] h = ground (arith, total x y)
  insert_comm x y (z ∷ zs) h = ground (
    arith,
    insert_comm x y zs h,
    total x y,
    total x z,
    total y z,
    transitive x y z,
    transitive y x z,
    transitive x z y,
    transitive y z x,
  )

  Apart-perm : {xs ys : List A} → Permᴰ xs ys → Apart le xs → Apart le ys
  Apart-perm Permᴰ.nil h = h
  Apart-perm (Permᴰ.cons {a} {b} {l₁ = ys} {l₂ = zs} e p) h = (
    All-perm (λ z. (le b z && le z b) ≡ false) p
        (subst (λ c. All (λ z. (le c z && le z c) ≡ false) ys) e h.0),
    Apart-perm p h.1,
  )
  Apart-perm (Permᴰ.swap {a} {b} {b'} {l} e f) h =
      subst (λ c. Apart le (c ∷ b' ∷ l)) f
        (subst (λ c. Apart le (b ∷ c ∷ l)) e ((ground arith, h.1.0), (h.0.1, h.1.1)))
  Apart-perm (Permᴰ.trans p q) h = Apart-perm q (Apart-perm p h)

  -- Where nothing ties, the result does not depend on the order of the input.
  pub sort-perm_invariant : {xs ys : List A} → Permᴰ xs ys → Apart le xs → sort le xs ≡ sort le ys
  unfolding sort
  sort-perm_invariant Permᴰ.nil h = refl
  sort-perm_invariant (Permᴰ.cons {a} {b} {l₂ = zs} e p) h =
      ap (insert le a) (sort-perm_invariant p h.1) ∙ ap (λ c. insert le c (sort le zs)) e
  sort-perm_invariant (Permᴰ.swap {a} {b} {l} e f) h =
      rw (← e, ← f) (insert_comm a b (sort le l) h.0.0)
  sort-perm_invariant (Permᴰ.trans p q) h =
      sort-perm_invariant p h ∙ sort-perm_invariant q (Apart-perm p h)

  -- Of an ascending list, what a prefix keeps may stand before all that it leaves out.
  sorted_split :
      (n : ℕ) (xs : List A) → IsSorted le xs → All (λ x. Below le x (drop n xs)) (take n xs)
  unfolding take drop
  sorted_split zero xs s = tt
  sorted_split (suc n) [] s = tt
  sorted_split (suc n) (x ∷ xs) s = (All-drop _ n xs s.0, sorted_split n xs s.1)

  take-IsSorted : (n : ℕ) (xs : List A) → IsSorted le xs → IsSorted le (take n xs)
  unfolding take
  take-IsSorted zero xs s = tt
  take-IsSorted (suc n) [] s = tt
  take-IsSorted (suc n) (x ∷ xs) s = (All-take _ n xs s.0, take-IsSorted n xs s.1)

  filled : (n : ℕ) (xs : List A) → drop n xs ≢ [] → length (take n xs) ≡ n
  unfolding take drop
  filled zero xs h = refl
  filled (suc n) [] h = absurd (h refl)
  filled (suc n) (x ∷ xs) h = ap suc (filled n xs h)

  pub take-sort-Selects : (n : ℕ) (xs : List A) → Selects le n (take n (sort le xs)) xs
  take-sort-Selects n xs =
      let ascending = sort-IsSorted xs in
      record {
        ascending = take-IsSorted n (sort le xs) ascending;
        others = drop n (sort le xs);
        all_there =
            subst (λ l. Permᴰ l xs) (sym (take-append-drop n (sort le xs))) (sort-perm le xs);
        foremost = sorted_split n (sort le xs) ascending;
        bounded = omega (arith, length-take n (sort le xs));
        filled = λ more. filled n (sort le xs) more;
      }

-- A selection by one order is one by every order that it implies.
module _ {ℓ} {A : Type ℓ} (le better : A → A → Bool)
    (implies : (x y : A) → le x y ≡ true → better x y ≡ true) where
  IsSorted-imp : (xs : List A) → IsSorted le xs → IsSorted better xs
  IsSorted-imp [] s = tt
  IsSorted-imp (x ∷ xs) s = (All-imp _ _ xs (λ y h. implies x y h) s.0, IsSorted-imp xs s.1)

  pub Selects-imp :
      {n : ℕ} {chosen xs : List A} → Selects le n chosen xs → Selects better n chosen xs
  Selects-imp {chosen = chosen} s = record {
    ascending = IsSorted-imp chosen s.ascending;
    others = s.others;
    all_there = s.all_there;
    foremost = All-imp _ _ chosen (λ x h. All-imp _ _ s.others (λ y k. implies x y k) h) s.foremost;
    bounded = s.bounded;
    filled = s.filled;
  }
