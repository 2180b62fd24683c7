-- ===== src/Base/Selection.antt =====
-- A selection in an order without ties is the only one, and selections commute with a renaming of
-- their elements.
use mathlib.Core.Path.{◌≡◌, refl, sym, ap, ◌∙◌}
use mathlib.Core.Bool.{Bool, true, false}
use mathlib.Core.Logic.{◌≢◌, inl, inr}
use mathlib.Core.List.{List, [], ◌∷◌, ◌++◌, append-nil, map}
use mathlib.Core.List.Permᴰ
use Prim.Native.Nat.{ℕ, zero, suc, ◌≤◌}
use native.Mathlib.Omega.{arith}
use recommendation_service.Base.Tests.{Bool-cases}
use recommendation_service.Base.Lists.{length, All, All-append, take, filter}
use recommendation_service.Base.Sort.{
  insert, sort, Below, IsSorted, Apart, Selects, sort-perm, All-perm, sort-perm_invariant,
}

module _ {ℓ} {A : Type ℓ} where
  insert_first : (le : A → A → Bool) (x : A) (ys : List A) → Below le x ys → insert le x ys ≡ x ∷ ys
  unfolding insert
  insert_first le x [] h = refl
  insert_first le x (y ∷ ys) h = rw h.0 refl

  -- An ascending list in front of what it may stand before stays in front.
  sort-append :
      (le : A → A → Bool) (chosen others : List A)
      → IsSorted le chosen
      → All (λ x. Below le x others) chosen
      → sort le (chosen ++ others) ≡ chosen ++ sort le others
  unfolding sort
  sort-append le [] others s h = refl
  sort-append le (x ∷ chosen) others s h =
      ap (insert le x) (sort-append le chosen others s.1 h.1)
      ∙ insert_first le x (chosen ++ sort le others) (
          All-append _ chosen (sort le others) s.0
            (All-perm _ (Permᴰ.symm (sort-perm le others)) h.0))

  take_all : (n : ℕ) (xs : List A) → length xs ≤ n → take n xs ≡ xs
  unfolding take
  take_all zero [] h = refl
  take_all zero (x ∷ xs) h = absurd (omega arith)
  take_all (suc n) [] h = refl
  take_all (suc n) (x ∷ xs) h = ap (λ l. x ∷ l) (take_all n xs (omega arith))

  take-append : (n : ℕ) (xs ys : List A) → length xs ≡ n → take n (xs ++ ys) ≡ xs
  unfolding take
  take-append zero [] ys h = refl
  take-append zero (x ∷ xs) ys h = absurd (omega arith)
  take-append (suc n) [] ys h = absurd (omega arith)
  take-append (suc n) (x ∷ xs) ys h = ap (λ l. x ∷ l) (take-append n xs ys (omega arith))

  module _ (le : A → A → Bool) (total : (a b : A) → le a b ≡ false → le b a ≡ true)
      (transitive : (a b c : A) → le a b ≡ true → le b c ≡ true → le a c ≡ true) where
    -- Where nothing ties, what was selected is what sorting and cutting gives.
    pub Selects-unique :
        (n : ℕ) (chosen xs : List A)
        → Apart le xs
        → Selects le n chosen xs
        → chosen ≡ take n (sort le xs)
    Selects-unique n chosen xs apart s = sym (
        ap (take n) (
          sort-perm_invariant le total transitive (Permᴰ.symm s.all_there) apart
          ∙ sort-append le chosen s.others s.ascending s.foremost)
        ∙ cut s.others s.bounded s.filled)
      where
        cut :
            (others : List A)
            → length chosen ≤ n
            → (others ≢ [] → length chosen ≡ n)
            → take n (chosen ++ sort le others) ≡ chosen
        cut [] h k =
            take_all n (chosen ++ sort le []) (unfold sort in rw (append-nil chosen) h)
            ∙ (unfold sort in append-nil chosen)
        cut (x ∷ others) h k = take-append n chosen (sort le (x ∷ others)) (k (λ e. cc e))

module _ {ℓ κ} {A : Type ℓ} {B : Type κ} (f : A → B) where
  pub filter-map :
      (p : B → Bool) (xs : List A) → filter p (map f xs) ≡ map f (filter (λ x. p (f x)) xs)
  unfolding filter
  filter-map p [] = refl
  filter-map p (x ∷ xs) = elim (Bool-cases (p (f x))) [
    | inl h ↦ rw h (ap (λ l. f x ∷ l) (filter-map p xs))
    | inr h ↦ rw h (filter-map p xs)
  ]

  insert-map :
      (le : B → B → Bool) (x : A) (ys : List A)
      → insert le (f x) (map f ys) ≡ map f (insert (λ a b. le (f a) (f b)) x ys)
  unfolding insert
  insert-map le x [] = refl
  insert-map le x (y ∷ ys) = elim (Bool-cases (le (f x) (f y))) [
    | inl h ↦ rw h refl
    | inr h ↦ rw h (ap (λ l. f y ∷ l) (insert-map le x ys))
  ]

  pub sort-map :
      (le : B → B → Bool) (xs : List A)
      → sort le (map f xs) ≡ map f (sort (λ a b. le (f a) (f b)) xs)
  unfolding sort
  sort-map le [] = refl
  sort-map le (x ∷ xs) =
      ap (insert le (f x)) (sort-map le xs) ∙ insert-map le x (sort (λ a b. le (f a) (f b)) xs)

  pub take-map : (n : ℕ) (xs : List A) → take n (map f xs) ≡ map f (take n xs)
  unfolding take
  take-map zero xs = refl
  take-map (suc n) [] = refl
  take-map (suc n) (x ∷ xs) = ap (λ l. f x ∷ l) (take-map n xs)
