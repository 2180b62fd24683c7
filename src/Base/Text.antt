-- ===== src/Base/Text.antt =====
-- Python's `str` as its code points, and what the program calls of it.
use mathlib.Core.Path.{◌≡◌, refl}
use mathlib.Core.Bool.{Bool, true, false, ◌&&◌, ◌||◌}
use mathlib.Core.Logic.{◌↔◌}
use mathlib.Core.List.{List, [], ◌∷◌, ◌++◌, reverse}
use Prim.Native.Nat.{ℕ}
use Prim.Native.Char.{code}
use Prim.Native.String.{String}
use native.Mathlib.Omega.{arith}
use recommendation_service.Base.Tests.{ltb, leb, if◌then◌else◌, Eq, nat_beq}

abbrev pub Text : Type 0
Text = List ℕ

abbrev pub text : String → Text
text String.[] = []
text (String.◌∷◌ c s) = code c ∷ text s

abbrev pub text_beq : Text → Text → Bool
text_beq [] [] = true
text_beq (c ∷ s) (d ∷ t) = nat_beq c d && text_beq s t
text_beq _ _ = false

pub text_beq_iff : (s t : Text) → (text_beq s t ≡ true) ↔ (s ≡ t)
text_beq_iff [] [] = (λ _. refl, λ _. refl)
text_beq_iff [] (d ∷ t) = (λ h. cc, λ h. cc)
text_beq_iff (c ∷ s) [] = (λ h. cc, λ h. cc)
text_beq_iff (c ∷ s) (d ∷ t) =
    (λ h. ground (arith, text_beq_iff s t), λ h. ground (arith, text_beq_iff s t))

instance abbrev pub text_eq : Eq Text
text_eq = record { beq = text_beq; beq_iff = text_beq_iff }

-- `not (t < s)`: the order of code points, a prefix first.
unfoldable pub text_le : Text → Text → Bool
text_le [] t = true
text_le (c ∷ s) [] = false
text_le (c ∷ s) (d ∷ t) = let rest = text_le s t in if nat_beq c d then rest else ltb c d

pub text_le_total : (s t : Text) → text_le s t ≡ false → text_le t s ≡ true
unfolding text_le
text_le_total [] t h = cc
text_le_total (c ∷ s) [] h = refl
text_le_total (c ∷ s) (d ∷ t) h = ground (arith, text_le_total s t)

pub text_le_trans : (r s t : Text) → text_le r s ≡ true → text_le s t ≡ true → text_le r t ≡ true
unfolding text_le
text_le_trans [] s t h k = refl
text_le_trans (c ∷ r) [] t h k = cc
text_le_trans (c ∷ r) (d ∷ s) [] h k = cc
text_le_trans (c ∷ r) (d ∷ s) (e ∷ t) h k = ground (arith, text_le_trans r s t)

pub text_le_antisymm : (s t : Text) → text_le s t ≡ true → text_le t s ≡ true → text_beq s t ≡ true
unfolding text_le
text_le_antisymm [] [] h k = refl
text_le_antisymm [] (d ∷ t) h k = cc
text_le_antisymm (c ∷ s) [] h k = cc
text_le_antisymm (c ∷ s) (d ∷ t) h k = ground (arith, text_le_antisymm s t)

-- `str.isspace` of one character: the white space of Unicode.
unfoldable pub is_space : ℕ → Bool
is_space c =
    (leb 9 c && leb c 13)
    || (leb 28 c && leb c 32)
    || nat_beq c 0x85
    || nat_beq c 0xa0
    || nat_beq c 0x1680
    || (leb 0x2000 c && leb c 0x200a)
    || nat_beq c 0x2028
    || nat_beq c 0x2029
    || nat_beq c 0x202f
    || nat_beq c 0x205f
    || nat_beq c 0x3000

unfoldable pub strip_left : Text → Text
unfolding is_space
strip_left [] = []
strip_left (c ∷ s) = let rest = strip_left s in if is_space c then rest else c ∷ s

-- `s.strip()`
unfoldable pub strip : Text → Text
unfolding strip_left
strip s = reverse (strip_left (reverse (strip_left s)))

-- `not s`
abbrev pub is_empty {ℓ} : {A : Type ℓ} → List A → Bool
is_empty [] = true
is_empty (x ∷ xs) = false

-- `s.split()`: the words between runs of white space. `word` is the word so far, reversed.
split_from : Text → Text → List Text
unfolding is_space
split_from word [] = if is_empty word then [] else reverse word ∷ []
split_from word (c ∷ s) =
    let ended = split_from [] s in
    let more = split_from (c ∷ word) s in
    if is_space c then (if is_empty word then ended else reverse word ∷ ended) else more

unfoldable pub split : Text → List Text
unfolding split_from
split = split_from []

-- `separator.join(parts)`
unfoldable pub join : Text → List Text → Text
join sep [] = []
join sep (s ∷ []) = s
join sep (s ∷ t ∷ rest) = s ++ sep ++ join sep (t ∷ rest)
