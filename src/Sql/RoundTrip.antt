-- ===== src/Sql/RoundTrip.antt =====
-- What is written to a row is what is read from it.
use mathlib.Core.List.Permᴰ
use recommendation_service.Base.{
  ℕ, ◌≡◌, refl, ◌∙◌, ap, sym, Bool, true, false, Option, none, some, List, [], ◌∷◌, map, filter,
  arith, All, contains, ◌==◌, nat_eq, nat_beq,
}
use recommendation_service.Base.Effects.{Result, ok}
use recommendation_service.Base.Sort.{sort, sort-perm, All-perm, contains-perm}
use recommendation_service.Base.Text.{Text, text_eq, text_beq_iff, text_le}
use recommendation_service.Catalog.{GameProfile}
use recommendation_service.Catalog.Laws.{IsProfile, post_init_ok}
use recommendation_service.Embedding.Dense.{DenseEmbedding}
use recommendation_service.Embedding.Sparse.{Embedding, embedding, is_weight}
use recommendation_service.Embedding.Sparse.Weights.{IsEmbedding}
use recommendation_service.Json.{get}
use recommendation_service.Outbox.Envelope.{source_text}
use recommendation_service.Preference.{UserPreference, SignalRecord, add_member}
use recommendation_service.Preference.History.{contains-add_member}
use recommendation_service.Recommendation.{
  Recommendation, checked, content, collab, hybrid, fallback, RecommendationSource,
}
use recommendation_service.Runtime.{Runtime}
use recommendation_service.Sql.{
  Moment, zoned, aware, map_option, GameProfileRow, UserPreferenceRow, dense_to_domain,
  dense_to_column, write_game, game_to_domain, write_preference, preference_to_domain,
  recommendation_row, recommendation_to_domain, source_of, id_set, history_of, record_of, is_record,
  entry_of,
}

-- A driver keeps the instant of a time that it hands back, whether it keeps the offset or not.
abbrev pub KeepsInstant : (Moment → Moment) → Type 0
KeepsInstant driver = (at : ℕ) → aware (driver (zoned at)) ≡ at

aware-option :
    (driver : Moment → Moment)
    → KeepsInstant driver
    → (at : Option ℕ) → map_option aware (map_option driver (map_option zoned at)) ≡ at
aware-option driver keeps none = refl
aware-option driver keeps (some at) = ap some (keeps at)

module _ {F : Type 0} where
  pub dense_roundtrip : (dense : DenseEmbedding F) → dense_to_domain (dense_to_column dense) ≡ dense
  unfolding dense_to_domain dense_to_column
  dense_roundtrip dense = from dense.components
    where
      from :
          (values : List F)
          → dense_to_domain (dense_to_column (record { components = values }))
            ≡ record { components = values }
      from [] = refl
      from (x ∷ xs) = refl

module _ {F : Type 0} ⦃r : Runtime F⦄ where
  filter_all :
      (weights : List (Text × F))
      → All (λ w. is_weight w ≡ true) weights
      → filter is_weight weights ≡ weights
  unfolding filter
  filter_all [] h = refl
  filter_all (w ∷ weights) h = rw h.0 (ap (λ l. w ∷ l) (filter_all weights h.1))

  embedding_again : (e : Embedding F) → IsEmbedding e → embedding e.weights ≡ e
  unfolding embedding
  embedding_again e h =
      ap (λ (l : List (Text × F)). let x : Embedding F = record { weights = l } in x)
        (filter_all e.weights h.weights)

  -- A well-formed profile is read back from the row it was written to, over whatever the row held,
  -- and with a driver that may drop the offsets of times.
  pub game_roundtrip :
      (driver : Moment → Moment)
      → KeepsInstant driver
      → (row : GameProfileRow F) (game : GameProfile F) → IsProfile game
      → IsEmbedding game.embedding
      → game_to_domain (record (write_game row game) {
        published_at = map_option driver (write_game row game).published_at;
      })
        ≡ ok game
  unfolding game_to_domain write_game
  game_roundtrip driver keeps row game valid vector =
      rw
        (
          embedding_again game.embedding vector,
          dense_roundtrip game.dense,
          aware-option driver keeps game.published_at,
        )
        (post_init_ok game valid)

source_roundtrip : (source : RecommendationSource) → source_of (source_text source) ≡ ok source
unfolding source_of source_text
source_roundtrip content = refl
source_roundtrip collab = refl
source_roundtrip hybrid = refl
source_roundtrip fallback = refl

module _ {F : Type 0} ⦃r : Runtime F⦄ where
  -- A recommendation that passes its own checks is read back from the row it was written to.
  pub recommendation_roundtrip :
      (driver : Moment → Moment)
      → KeepsInstant driver
      → (item : Recommendation F) → checked item ≡ ok item
      → recommendation_to_domain (record (recommendation_row item) {
        generated_at = driver (recommendation_row item).generated_at;
      })
        ≡ ok item
  unfolding recommendation_to_domain recommendation_row
  recommendation_roundtrip driver keeps item valid =
      rw (source_roundtrip item.source, keeps item.generated_at) valid

  history_roundtrip :
      (reads : (id : ℕ) → r.uuid_of (r.uuid_text id) ≡ some id) (parse : Text → Result F)
      (history : List (SignalRecord F))
      → history_of parse (map entry_of history) ≡ ok history
  unfolding history_of is_record record_of get
  history_roundtrip reads parse [] = refl
  history_roundtrip reads parse (s ∷ history) =
      rw (reads s.game_id, history_roundtrip reads parse history) refl

module _ (uuid_text : ℕ → Text) (uuid_of : Text → Option ℕ)
    (reads : (id : ℕ) → uuid_of (uuid_text id) ≡ some id) where
  -- A text that is an id, as `str` writes it.
  abbrev Written : Text → Type 0
  Written t = (id : ℕ) × (t ≡ uuid_text id)

  same_text : (x y : ℕ) → (uuid_text x == uuid_text y) ≡ nat_beq x y
  same_text x y =
      both (uuid_text x == uuid_text y) (nat_beq x y)
        (λ h. (nat_eq.beq_iff x y).1 (same_id ((text_beq_iff (uuid_text x) (uuid_text y)).0 h)))
        (λ h.
          (text_beq_iff (uuid_text x) (uuid_text y)).1 (ap uuid_text ((nat_eq.beq_iff x y).0 h)))
    where
      both : (a b : Bool) → (a ≡ true → b ≡ true) → (b ≡ true → a ≡ true) → a ≡ b
      both true b f g = sym (f refl)
      both false true f g = g refl
      both false false f g = refl

      same_id : uuid_text x ≡ uuid_text y → x ≡ y
      same_id e = cc (sym (reads x) ∙ ap uuid_of e ∙ reads y)

  id_set-Written :
      (texts : List Text)
      → All Written texts
      → (ids : List ℕ) × (id_set uuid_of texts ≡ ok ids)
        × ((x : ℕ) → contains ids x ≡ contains texts (uuid_text x))
  unfolding id_set contains
  id_set-Written [] h = ([], refl, λ x. refl)
  id_set-Written (t ∷ texts) h =
      let (ids, e, same) = id_set-Written texts h.1 in
      (
        add_member h.0.0 ids,
        rw (h.0.1, reads h.0.0, e) refl,
        λ x. ground (arith, contains-add_member h.0.0 x ids, same x, same_text x h.0.0, h.0.1),
      )

  written : (ids : List ℕ) → All Written (map uuid_text ids)
  written [] = tt
  written (id ∷ ids) = ((id, refl), written ids)

  contains-written :
      (ids : List ℕ) (x : ℕ) → contains (map uuid_text ids) (uuid_text x) ≡ contains ids x
  unfolding contains
  contains-written [] x = refl
  contains-written (id ∷ ids) x = ground (arith, contains-written ids x, same_text x id)

  -- The set of the ids, from their texts in order.
  owned_roundtrip :
      (owned : List ℕ)
      → (ids : List ℕ) × (id_set uuid_of (sort text_le (map uuid_text owned)) ≡ ok ids)
        × ((x : ℕ) → contains ids x ≡ contains owned x)
  owned_roundtrip owned =
      let (ids, e, same) =
        id_set-Written (sort text_le (map uuid_text owned)) (
          All-perm Written (Permᴰ.symm (sort-perm text_le (map uuid_text owned)))
            (written owned)) in
      (
        ids,
        e,
        λ x.
            same x
            ∙ contains-perm (uuid_text x) (sort-perm text_le (map uuid_text owned))
            ∙ contains-written owned x,
      )

module _ {F : Type 0} ⦃r : Runtime F⦄ where
  -- Where `UUID` reads what `str` writes of an id, a profile with a well-formed sparse vector is read
  -- back from the row it was written to: the owned games as a set, everything else as it was, the
  -- history in its order.
  pub preference_roundtrip :
      (driver : Moment → Moment)
      → KeepsInstant driver
      → (reads : (id : ℕ) → r.uuid_of (r.uuid_text id) ≡ some id)
      → (parse : Text → Result F) (row : UserPreferenceRow F) (p : UserPreference F)
      → IsEmbedding p.taste
      → (owned : List ℕ) × (preference_to_domain parse (record (write_preference row p) {
        updated_at = map_option driver (write_preference row p).updated_at;
      })
          ≡ ok (record p { owned = owned }))
        × ((x : ℕ) → contains owned x ≡ contains p.owned x)
  unfolding preference_to_domain write_preference
  preference_roundtrip driver keeps reads parse row p vector =
      let (ids, e, same) = owned_roundtrip r.uuid_text r.uuid_of reads p.owned in
      (
        ids,
        rw
            (
              e,
              history_roundtrip reads parse p.history,
              embedding_again p.taste vector,
              dense_roundtrip p.taste_dense,
              aware-option driver keeps p.updated_at,
            )
            refl,
        same,
      )
