-- ===== src/Sql/Queries/Agreement.antt =====
-- sql/repositories.py, SqlGameProfileRepository, against the in-memory repository: the scans that
-- `limit` truncates read the same games.
use recommendation_service.Base.{
  ℕ, ◌≡◌, refl, ap, ◌∙◌, Bool, true, false, ◌&&◌, List, [], ◌∷◌, map, All, All-filter, All-take,
  Distinct, contains, nat_eq, take, filter, Bool-cases, inl, inr, arith, subst,
}
use mathlib.Core.List.Permᴰ
use recommendation_service.Base.Dict.{values}
use recommendation_service.Base.Effects.{ok, and_then}
use recommendation_service.Base.Selection.{Selects-unique, filter-map, sort-map, take-map}
use recommendation_service.Base.Sort.{sort, Apart, All-perm, sort-perm}
use recommendation_service.Catalog.{GameProfile, needs_embedding}
use recommendation_service.Catalog.Laws.{IsProfile}
use recommendation_service.Embedding.Sparse.Weights.{IsEmbedding}
use recommendation_service.Outbox.{is_none}
use recommendation_service.Runtime.{Runtime}
use recommendation_service.Scoring.{more_popular}
use recommendation_service.Sql.{GameProfileRow, Moment, write_game, dense_to_column, map_option}
use recommendation_service.Sql.RoundTrip.{KeepsInstant, game_roundtrip}
use recommendation_service.Sql.Queries.{
  Select, Selecting, popular_row, all_to_domain, recommendable_rows, needing_embedding_rows,
}
use recommendation_service.Store.{UnitOfWork}
use recommendation_service.Store.Repositories.{merged_games, recommendable, needing_embedding}

filter_same :
    {A : Type 0} (p q : A → Bool)
    → ((x : A) → p x ≡ q x)
    → (xs : List A) → filter p xs ≡ filter q xs
unfolding filter
filter_same p q same [] = refl
filter_same p q same (x ∷ xs) = rw (same x, filter_same p q same xs) refl

module _ {F : Type 0} where
  popular_row_total : (a b : GameProfileRow F) → popular_row a b ≡ false → popular_row b a ≡ true
  popular_row_total a b h = ground arith

  popular_row_trans :
      (a b c : GameProfileRow F)
      → popular_row a b ≡ true
      → popular_row b c ≡ true
      → popular_row a c ≡ true
  popular_row_trans a b c h k = ground arith

  -- The ids of the rows are distinct, as a primary key is.
  abbrev pub row_ids : List (GameProfileRow F) → List ℕ
  row_ids = map (λ (row : GameProfileRow F). row.game_id)

  Distinct-Apart :
      (rows : List (GameProfileRow F)) → Distinct (row_ids rows) → Apart popular_row rows
  unfolding contains
  Distinct-Apart [] h = tt
  Distinct-Apart (row ∷ rows) h = (absent rows h.0, Distinct-Apart rows h.1)
    where
      absent :
          (rest : List (GameProfileRow F))
          → contains (row_ids rest) row.game_id ≡ false
          → All (λ other. (popular_row row other && popular_row other row) ≡ false) rest
      absent [] k = tt
      absent (other ∷ rest) k = (ground arith, absent rest (ground arith))

  Distinct-filter :
      (p : GameProfileRow F → Bool) (rows : List (GameProfileRow F))
      → Distinct (row_ids rows)
      → Distinct (row_ids (filter p rows))
  unfolding filter contains
  Distinct-filter p [] h = tt
  Distinct-filter p (row ∷ rows) h = elim (Bool-cases (p row)) [
    | inl e ↦ rw e (absent rows h.0, Distinct-filter p rows h.1)
    | inr e ↦ rw e (Distinct-filter p rows h.1)
  ]
    where
      absent :
          (rest : List (GameProfileRow F))
          → contains (row_ids rest) row.game_id ≡ false
          → contains (row_ids (filter p rest)) row.game_id ≡ false
      absent [] k = refl
      absent (other ∷ rest) k = ground (arith, absent rest)

module _ {F : Type 0} ⦃r : Runtime F⦄ (driver : Moment → Moment) (row : GameProfileRow F) where
  -- The row of a game, as a driver hands it back.
  abbrev pub stored_game : GameProfile F → GameProfileRow F
  unfolding write_game
  stored_game game = record (write_game row game) {
    published_at = map_option driver (write_game row game).published_at;
  }

  all_to_domain-stored :
      KeepsInstant driver
      → (games : List (GameProfile F)) → All (λ g. IsProfile g × IsEmbedding g.embedding) games
      → all_to_domain (map stored_game games) ≡ ok games
  unfolding all_to_domain stored_game
  all_to_domain-stored keeps [] h = refl
  all_to_domain-stored keeps (game ∷ games) h =
      ap
        (λ first.
          and_then first λ g. and_then (all_to_domain (map stored_game games)) λ gs. ok (g ∷ gs))
        (game_roundtrip driver keeps row game h.0.0 h.0.1)
      ∙ ap (λ rest. and_then rest λ gs. ok (game ∷ gs)) (all_to_domain-stored keeps games h.1)

  distinct_rows :
      (games : List (GameProfile F))
      → Distinct (map (λ (g : GameProfile F). g.game_id) games)
      → Distinct (row_ids (map stored_game games))
  unfolding contains write_game
  distinct_rows games h = subst Distinct (same games) h
    where
      same :
          (games : List (GameProfile F))
          → map (λ (g : GameProfile F). g.game_id) games ≡ row_ids (map stored_game games)
      same [] = refl
      same (game ∷ games) = ap (λ l. game.game_id ∷ l) (same games)

  module _ (select : Select) (law : Selecting select) (keeps : KeepsInstant driver) where
    scan :
        (test : GameProfileRow F → Bool) (p : GameProfile F → Bool)
        → ((g : GameProfile F) → test (stored_game g) ≡ p g)
        → (games : List (GameProfile F)) → All (λ g. IsProfile g × IsEmbedding g.embedding) games
        → Distinct (map (λ (g : GameProfile F). g.game_id) games)
        → (limit : ℕ)
        → all_to_domain (select (GameProfileRow F) test popular_row limit (map stored_game games))
          ≡ ok (take limit (sort more_popular (filter p games)))
    unfolding write_game
    scan test p same games valid keys limit =
        let rows = map stored_game games in
        let kept = filter p games in
        ap all_to_domain (
          Selects-unique popular_row popular_row_total popular_row_trans limit
            (select (GameProfileRow F) test popular_row limit rows) (filter test rows)
            (Distinct-Apart (filter test rows)
              (Distinct-filter test rows (distinct_rows games keys)))
            (law (GameProfileRow F) test popular_row popular_row_total popular_row_trans limit rows)
          ∙ ap (λ l. take limit (sort popular_row l))
              (filter-map stored_game test games
                ∙ ap (map stored_game) (filter_same _ p same games))
          ∙ ap (take limit) (sort-map stored_game popular_row kept)
          ∙ take-map stored_game limit (sort more_popular kept))
        ∙ all_to_domain-stored keeps (take limit (sort more_popular kept)) (
            All-take _ limit (sort more_popular kept)
              (All-perm _ (Permᴰ.symm (sort-perm more_popular kept)) (All-filter _ p games valid)))

    -- Over the rows of the games that a unit of work sees, where these are well-formed and have
    -- distinct ids, the query for the candidates and the one for the games without a vector give
    -- what the memory repository gives, whatever `select` does with rows that tie, and whether or
    -- not the driver drops the offsets of times.
    pub scans_agree :
        (uow : UnitOfWork F)
        → All (λ g. IsProfile g × IsEmbedding g.embedding) (values (merged_games uow))
        → Distinct (map (λ (g : GameProfile F). g.game_id) (values (merged_games uow)))
        → (limit : ℕ)
        → (recommendable_rows select limit (map stored_game (values (merged_games uow)))
            ≡ ok (recommendable limit uow))
          × (needing_embedding_rows select limit (map stored_game (values (merged_games uow)))
              ≡ ok (needing_embedding limit uow))
    unfolding recommendable_rows needing_embedding_rows recommendable needing_embedding write_game
        dense_to_column
    scans_agree uow valid keys limit = (
      scan (λ row. row.is_published) (λ g. g.is_published) (λ g. refl) (values (merged_games uow))
          valid keys limit,
      scan (λ row. row.is_published && is_none row.dense) needs_embedding (λ g. ground arith)
          (values (merged_games uow)) valid keys limit,
    )
