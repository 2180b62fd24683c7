-- ===== src/Adapters/Embedder/Shape.antt =====
-- The shape of what the embedding providers answer: one vector per text, each of the stored width.
use recommendation_service.Base.{
  ℕ, ◌<◌, ◌≡◌, refl, ap, ◌∙◌, zero, suc, ◌%◌, true, Option, none, some, List, [], ◌∷◌, ◌++◌, map,
  arith, All, subst, if◌then◌else◌, length, Bool-cases, inl, inr,
}
use recommendation_service.Base.Effects.{Result, ok, and_then, and_then-eq_ok}
use recommendation_service.Base.Text.{Text, is_empty, strip, split}
use recommendation_service.Json.{Json, decimal, array, to_list, of_list}
use recommendation_service.Runtime.{Runtime}
use recommendation_service.Sql.{float_of}
use recommendation_service.Adapters.Embedder.{
  Digest, bucket_of, is_odd, punctuation, strip_of, each, zeros, add_at, add_words, normalised,
  hash_one, hash_embed, EmbeddingRequest, bearer, as_list, pooled, all_numbers, all_wide,
  checked_vectors, read_body, remote_embed,
}

-- One vector for each text, of the width of the column.
abbrev pub Fits : {F : Type 0} → ℕ → List Text → List (List F) → Type 0
Fits dimensions texts vectors =
    (length vectors ≡ length texts) × All (λ v. length v ≡ dimensions) vectors

length-zeros : (F : Type 0) ⦃r : Runtime F⦄ (n : ℕ) → length {A = F} (zeros n) ≡ n
unfolding zeros
length-zeros F zero = refl
length-zeros F (suc n) = ap suc (length-zeros F n)

module _ {F : Type 0} ⦃r : Runtime F⦄ where
  length-add_at : (index : ℕ) (delta : F) (xs : List F) → length (add_at index delta xs) ≡ length xs
  unfolding add_at
  length-add_at index delta [] = refl
  length-add_at zero delta (x ∷ xs) = refl
  length-add_at (suc index) delta (x ∷ xs) = ap suc (length-add_at index delta xs)

  length-map : (f : F → F) (xs : List F) → length (map f xs) ≡ length xs
  length-map f [] = refl
  length-map f (x ∷ xs) = ap suc (length-map f xs)

  length-normalised : (xs : List F) → length (normalised xs) ≡ length xs
  unfolding normalised
  length-normalised xs =
      ground (arith, length-map (λ x. r.div x (r.sqrt (r.sum (map (λ y. r.mul y y) xs)))) xs)

  add_words_total :
      (digest : Text → Digest) (dimensions : ℕ) (words : List Text) (buckets : List F)
      → 0 < dimensions
      → (out : List F) × (add_words digest dimensions words buckets ≡ ok out)
        × (length out ≡ length buckets)
  unfolding add_words
  add_words_total digest dimensions [] buckets h = (buckets, refl, refl)
  add_words_total digest dimensions (word ∷ words) buckets h =
      let token = strip (strip_of punctuation word) in
      let d = digest token in
      let signed : F = if is_odd d then r.lit 1 0 else r.neg (r.lit 1 0) in
      let filled = add_at (bucket_of d % dimensions) signed buckets in
      let skipped = add_words_total digest dimensions words buckets h in
      let added = add_words_total digest dimensions words filled h in
      elim (Bool-cases (is_empty token)) [
        | inl e ↦ rw e skipped
        | inr e ↦ (
          added.0,
          ground (arith, added.1),
          added.2 ∙ length-add_at (bucket_of d % dimensions) signed buckets,
        )
      ]

  hash_one_total :
      (digest : Text → Digest) (dimensions : ℕ) (s : Text)
      → 0 < dimensions
      → (out : List F) × (hash_one digest dimensions s ≡ ok out) × (length out ≡ dimensions)
  unfolding hash_one
  hash_one_total digest dimensions s h =
      let (buckets, e, l) =
        add_words_total digest dimensions (split (r.lower s)) (zeros dimensions) h in
      (normalised buckets, rw e refl, length-normalised buckets ∙ l ∙ length-zeros F dimensions)

  -- With at least one dimension the hashing embedder answers for all texts, with one vector for each,
  -- each of the declared width.
  pub hash_embed-Fits :
      (digest : Text → Digest) (dimensions : ℕ) (texts : List Text)
      → 0 < dimensions
      → (vectors : List (List F)) × (hash_embed digest dimensions texts ≡ ok vectors)
        × Fits dimensions texts vectors
  unfolding hash_embed each
  hash_embed-Fits digest dimensions [] h = ([], refl, (refl, tt))
  hash_embed-Fits digest dimensions (s ∷ texts) h =
      let (first, e, l) = hash_one_total digest dimensions s h in
      let (rest, es, (n, ls)) = hash_embed-Fits digest dimensions texts h in
      (first ∷ rest, rw (e, es) refl, (ap suc n, (l, ls)))

  all_wide-All :
      (dimensions : ℕ) (vectors : List (List F))
      → all_wide dimensions vectors ≡ true
      → All (λ v. length v ≡ dimensions) vectors
  unfolding all_wide
  all_wide-All dimensions [] h = tt
  all_wide-All dimensions (v ∷ vectors) h =
      (ground arith, all_wide-All dimensions vectors (ground arith))

  checked_vectors-Fits :
      (dimensions : ℕ) (texts : List Text) (answer vectors : List (List F))
      → checked_vectors dimensions texts answer ≡ ok vectors
      → Fits dimensions texts vectors
  unfolding checked_vectors
  checked_vectors-Fits dimensions texts answer vectors h =
      let n : length answer ≡ length texts = ground arith in
      let wide : all_wide dimensions answer ≡ true = ground arith in
      let same : answer ≡ vectors = ground arith in
      subst (Fits dimensions texts) same (n, all_wide-All dimensions answer wide)

  read_body-Fits :
      (parse : Text → Result F) (dimensions : ℕ) (texts : List Text) (answer : Option (Json F))
      (vectors : List (List F))
      → read_body parse dimensions texts answer ≡ ok vectors
      → Fits dimensions texts vectors
  unfolding read_body
  read_body-Fits parse dimensions texts none vectors h = absurd (cc h)
  read_body-Fits parse dimensions texts (some body) vectors h =
      let (items, _, h') = and_then-eq_ok (as_list body) _ h in
      let (answer, _, h'') = and_then-eq_ok (each (pooled parse) items) _ h' in
      checked_vectors-Fits dimensions texts answer vectors h''

  -- A vector of floats as JSON, and a list of them.
  abbrev pub vector_json : List F → Json F
  unfolding of_list
  vector_json v = array (of_list (map (λ x. decimal x) v))

  vector_items :
      (v : List F) → to_list (of_list (map (λ (x : F). decimal x) v)) ≡ map (λ (x : F). decimal x) v
  unfolding of_list to_list
  vector_items [] = refl
  vector_items (x ∷ v) = ap (λ l. decimal x ∷ l) (vector_items v)

  all_numbers-vector : (v : List F) → all_numbers (map (λ (x : F). decimal x) v) ≡ true
  all_numbers-vector [] = refl
  all_numbers-vector (x ∷ v) = all_numbers-vector v

  floats-vector :
      (parse : Text → Result F) (v : List F)
      → each (λ value. float_of parse (some value)) (map (λ (x : F). decimal x) v) ≡ ok v
  unfolding each
  floats-vector parse [] = refl
  floats-vector parse (x ∷ v) = ap (λ rest. and_then rest λ ys. ok (x ∷ ys)) (floats-vector parse v)

  pooled-vector :
      (parse : Text → Result F) (x : F) (v : List F)
      → pooled parse (vector_json (x ∷ v)) ≡ ok (x ∷ v)
  unfolding pooled vector_json of_list to_list
  pooled-vector parse x v = rw (vector_items v, all_numbers-vector v) (floats-vector parse (x ∷ v))

  -- Where the embedder of the endpoint answers, it is with one vector for each text, each of the width
  -- of the column, whatever the endpoint sent.
  pub remote_embed-Fits :
      (ask : EmbeddingRequest → Option (Json F)) (parse : Text → Result F) (endpoint api_key : Text)
      (dimensions : ℕ) (prefix : Text) (texts : List Text) (vectors : List (List F))
      → remote_embed ask parse endpoint api_key dimensions prefix texts ≡ ok vectors
      → Fits dimensions texts vectors
  unfolding remote_embed
  remote_embed-Fits ask parse endpoint api_key dimensions prefix [] vectors h =
      subst (Fits dimensions []) {x = []} (cc h) (refl, tt)
  remote_embed-Fits ask parse endpoint api_key dimensions prefix (s ∷ texts) vectors h =
      read_body-Fits parse dimensions (s ∷ texts)
        (ask (record {
          endpoint = endpoint;
          authorization = bearer api_key;
          inputs = map (λ t. prefix ++ t) (s ∷ texts);
          wait_for_model = true;
        }))
        vectors h

  All-all_wide :
      (dimensions : ℕ) (vectors : List (List F))
      → All (λ v. length v ≡ dimensions) vectors
      → all_wide dimensions vectors ≡ true
  unfolding all_wide
  All-all_wide dimensions [] h = refl
  All-all_wide dimensions (v ∷ vectors) h = ground (arith, h.0, All-all_wide dimensions vectors h.1)

  pooled_all :
      (parse : Text → Result F) (dimensions : ℕ) (vectors : List (List F))
      → 0 < dimensions
      → All (λ v. length v ≡ dimensions) vectors
      → each (pooled parse) (to_list (of_list (map vector_json vectors))) ≡ ok vectors
  unfolding each of_list to_list
  pooled_all parse dimensions [] h w = refl
  pooled_all parse dimensions ([] ∷ vectors) h w = absurd (omega (arith, w.0))
  pooled_all parse dimensions ((x ∷ v) ∷ vectors) h w =
      ap
        (λ first. and_then first λ y.
          and_then (each (pooled parse) (to_list (of_list (map vector_json vectors))))
            λ ys. ok (y ∷ ys))
        (pooled-vector parse x v)
      ∙ ap (λ rest. and_then rest λ ys. ok ((x ∷ v) ∷ ys))
          (pooled_all parse dimensions vectors h w.1)

  -- Where the endpoint sends one vector of floats for each of one or more texts, each of the width of
  -- the column, which is positive, the embedder of the endpoint answers with these vectors.
  remote_embed_keeps :
      (ask : EmbeddingRequest → Option (Json F)) (parse : Text → Result F) (endpoint api_key : Text)
      (dimensions : ℕ) (prefix : Text) (s : Text) (texts : List Text) (vectors : List (List F))
      → 0 < dimensions
      → Fits dimensions (s ∷ texts) vectors
      → ask (record {
        endpoint = endpoint;
        authorization = bearer api_key;
        inputs = map (λ t. prefix ++ t) (s ∷ texts);
        wait_for_model = true;
      })
        ≡ some (array (of_list (map vector_json vectors)))
      → remote_embed ask parse endpoint api_key dimensions prefix (s ∷ texts) ≡ ok vectors
  unfolding remote_embed read_body as_list checked_vectors
  remote_embed_keeps ask parse endpoint api_key dimensions prefix s texts vectors h fits answer =
      rw (answer) (
        rw (pooled_all parse dimensions vectors h fits.1, All-all_wide dimensions vectors fits.1)
          (ground (arith, fits.0)))
