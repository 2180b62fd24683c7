-- ===== src/Adapters/Embedder.antt =====
-- adapters/embedding.py. HashingEmbedder, and HuggingFaceEmbedder over the exchange with its endpoint.
pub mod Shape
use recommendation_service.Base.{
  ℕ, ◌+◌, ◌*◌, ◌%◌, zero, suc, Bool, true, false, not, ◌&&◌, ◌||◌, Option, none, some, List, [],
  ◌∷◌, ◌++◌, map, filter, if◌then◌else◌, nat_beq, nat_eq, contains, length, reverse,
}
use recommendation_service.Base.Effects.{
  Error, Result, ok, err, and_then, foreign, provider_unavailable,
}
use recommendation_service.Base.Text.{Text, text, is_empty, split, strip}
use recommendation_service.Json.{
  Json, null, boolean, integer, decimal, string, array, object, to_list,
}
use recommendation_service.Runtime.{Runtime}
use recommendation_service.Sql.{float_of}

-- The first five bytes of a digest.
pub record Digest : Type 0 where
  pub b0 : ℕ
  pub b1 : ℕ
  pub b2 : ℕ
  pub b3 : ℕ
  pub b4 : ℕ

-- `int.from_bytes(digest[:4], "big")` and `digest[4] & 1`
abbrev pub bucket_of : Digest → ℕ
bucket_of d = ((d.b0 * 256 + d.b1) * 256 + d.b2) * 256 + d.b3

abbrev pub is_odd : Digest → Bool
is_odd d = nat_beq (d.b4 % 2) 1

abbrev pub punctuation : Text
punctuation = text ".,:;!?()[]\"'"

unfoldable pub strip_front : Text → Text → Text
unfolding contains
strip_front marks [] = []
strip_front marks (c ∷ s) =
    let rest = strip_front marks s in if contains marks c then rest else c ∷ s

-- `word.strip(marks)`
unfoldable pub strip_of : Text → Text → Text
unfolding strip_front
strip_of marks s = reverse (strip_front marks (reverse (strip_front marks s)))

-- `[f(text) for text in texts]`
unfoldable pub each {ℓ κ} : {A : Type ℓ} {B : Type κ} → (A → Result B) → List A → Result (List B)
each f [] = ok []
each f (x ∷ xs) = and_then (f x) λ y. and_then (each f xs) λ ys. ok (y ∷ ys)

module _ {F : Type 0} ⦃r : Runtime F⦄ where
  -- `[0.0] * n`
  unfoldable pub zeros : ℕ → List F
  zeros zero = []
  zeros (suc n) = r.lit 0 0 ∷ zeros n

  -- `buckets[index] += delta`, for an index in range
  unfoldable pub add_at : ℕ → F → List F → List F
  add_at index delta [] = []
  add_at zero delta (x ∷ xs) = r.add x delta ∷ xs
  add_at (suc index) delta (x ∷ xs) = x ∷ add_at index delta xs

  -- The loop over the words; `%` raises where there is no bucket.
  unfoldable pub add_words : (Text → Digest) → ℕ → List Text → List F → Result (List F)
  unfolding strip strip_of add_at
  add_words digest dimensions [] buckets = ok buckets
  add_words digest dimensions (word ∷ words) buckets =
      let token = strip (strip_of punctuation word) in
      let d = digest token in
      let signed = if is_odd d then r.lit 1 0 else r.neg (r.lit 1 0) in
      let skipped = add_words digest dimensions words buckets in
      let added =
        add_words digest dimensions words (add_at (bucket_of d % dimensions) signed buckets) in
      if is_empty token then skipped else if nat_beq dimensions 0 then err foreign else added

  unfoldable pub normalised : List F → List F
  normalised buckets =
      let magnitude = r.sqrt (r.sum (map (λ x. r.mul x x) buckets)) in
      if r.eq magnitude (r.lit 0 0) then buckets else map (λ x. r.div x magnitude) buckets

  -- HashingEmbedder
  unfoldable pub hash_one : (Text → Digest) → ℕ → Text → Result (List F)
  unfolding add_words zeros normalised split
  hash_one digest dimensions s =
      and_then (add_words digest dimensions (split (r.lower s)) (zeros dimensions))
        λ buckets. ok (normalised buckets)

  unfoldable pub hash_embed : (Text → Digest) → ℕ → List Text → Result (List (List F))
  unfolding each hash_one
  hash_embed digest dimensions = each (hash_one digest dimensions)

  -- `_as_list`
  unfoldable pub as_list : Json F → Result (List (Json F))
  unfolding to_list
  as_list (array items) = ok (to_list items)
  as_list _ = err provider_unavailable

  -- `isinstance(value, int | float)`
  abbrev pub is_number : Json F → Bool
  is_number (boolean b) = true
  is_number (integer n) = true
  is_number (decimal x) = true
  is_number _ = false

  abbrev pub all_numbers : List (Json F) → Bool
  all_numbers [] = true
  all_numbers (value ∷ values) = is_number value && all_numbers values

  -- The items of a value that is a list and not empty.
  abbrev pub row_in : Json F → Option (List (Json F))
  unfolding to_list
  row_in (array items) = if is_empty (to_list items) then none else some (to_list items)
  row_in _ = none

  abbrev pub add_row : Option (List (Json F)) → List (List (Json F)) → List (List (Json F))
  add_row none rows = rows
  add_row (some row) rows = row ∷ rows

  unfoldable pub rows_of : List (Json F) → List (List (Json F))
  unfolding row_in
  rows_of [] = []
  rows_of (item ∷ items) = add_row (row_in item) (rows_of items)

  -- `row[index]`
  unfoldable pub at : ℕ → List (Json F) → Option (Json F)
  at index [] = none
  at zero (value ∷ row) = some value
  at (suc index) (value ∷ row) = at index row

  -- One component of the mean, for `index` from `first` on, `count` times.
  unfoldable pub means :
      (Text → Result F) → List (List (Json F)) → (first count : ℕ) → Result (List F)
  unfolding each at
  means parse rows first zero = ok []
  means parse rows first (suc count) =
      and_then (each (λ row. float_of parse (at first row)) rows) λ column.
        and_then (means parse rows (first + 1) count)
          λ rest. ok (r.div (r.sum column) (r.lit (length rows) 0) ∷ rest)

  unfoldable pub mean_of : (Text → Result F) → List (List (Json F)) → Result (List F)
  unfolding means
  mean_of parse [] = err provider_unavailable
  mean_of parse (row ∷ rows) = means parse (row ∷ rows) 0 (length row)

  -- `_pooled`; `parse` is `float` of a string
  unfoldable pub pooled : (Text → Result F) → Json F → Result (List F)
  unfolding to_list each mean_of rows_of
  pooled parse (array items) =
      let values = to_list items in
      if is_empty values
      then err provider_unavailable
      else if all_numbers values
      then each (λ value. float_of parse (some value)) values
      else mean_of parse (rows_of values)
  pooled parse _ = err provider_unavailable

  unfoldable pub all_wide : ℕ → List (List F) → Bool
  all_wide dimensions [] = true
  all_wide dimensions (vector ∷ vectors) =
      nat_beq (length vector) dimensions && all_wide dimensions vectors

-- What goes to the endpoint; without a key there is no `Authorization` header.
pub record EmbeddingRequest : Type 0 where
  pub endpoint : Text
  pub authorization : Option Text
  pub inputs : List Text
  pub wait_for_model : Bool

abbrev pub bearer : Text → Option Text
bearer api_key = if is_empty api_key then none else some (text "Bearer " ++ api_key)

module _ {F : Type 0} ⦃r : Runtime F⦄ where
  -- HuggingFaceEmbedder.embed. `ask` is the exchange up to `response.json()`; `none` is an
  -- `httpx.HTTPError` or a `ValueError`.
  unfoldable pub checked_vectors : ℕ → List Text → List (List F) → Result (List (List F))
  unfolding all_wide
  checked_vectors dimensions texts vectors =
      if not (nat_beq (length vectors) (length texts))
      then err provider_unavailable
      else if not (all_wide dimensions vectors)
      then err provider_unavailable
      else ok vectors

  unfoldable pub read_body :
      (Text → Result F) → ℕ → List Text → Option (Json F) → Result (List (List F))
  unfolding as_list each pooled checked_vectors
  read_body parse dimensions texts none = err provider_unavailable
  read_body parse dimensions texts (some body) = and_then (as_list body) λ items.
      and_then (each (pooled parse) items) λ vectors. checked_vectors dimensions texts vectors

  unfoldable pub remote_embed :
      (EmbeddingRequest → Option (Json F))
      → (Text → Result F)
      → (endpoint api_key : Text) → (dimensions : ℕ) → (prefix : Text) → List Text
      → Result (List (List F))
  unfolding read_body
  remote_embed ask parse endpoint api_key dimensions prefix texts =
      if is_empty texts
      then ok []
      else read_body parse dimensions texts (
          ask (record {
            endpoint = endpoint;
            authorization = bearer api_key;
            inputs = map (λ s. prefix ++ s) texts;
            wait_for_model = true;
          }))
