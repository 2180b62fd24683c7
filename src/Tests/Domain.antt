-- ===== src/Tests/Domain.antt =====
-- The theorems about the domain at concrete inputs.
use mathlib.Core.List.{Permᴰ}
use recommendation_service.Base.{
  ◌⊎◌, ℕ, ◌+◌, ◌≡◌, ◌↔◌, refl, some, List, [], ◌∷◌, map, arith, All, filter, take_last, drop,
  contains, nat_eq,
}
use recommendation_service.Base.Dict.{lookup, put}
use recommendation_service.Base.Effects.{ok, err, invariant_violation}
use recommendation_service.Base.Sort.{Selects}
use recommendation_service.Base.Text.{text, text_eq, strip}
use recommendation_service.Catalog.Laws.{IsProfile}
use recommendation_service.Embedding.Dense.{Mismatch, plus_raises_iff}
use recommendation_service.Embedding.Dense
use recommendation_service.Embedding.Sparse.{overlap, is_positive, stronger}
use recommendation_service.Embedding.Sparse
use recommendation_service.Embedding.Sparse.Weights.{IsEmbedding}
use recommendation_service.Preference.{
  UserPreference, purchase, observe, blank, rebuilt_in, weight_of, add_member,
}
use recommendation_service.Preference.History.{IsPreference, observe-IsPreference}
use recommendation_service.Preference.Action.{Acted, observe-cases, observe_raises_iff}
use recommendation_service.Preference.Rebuild.{
  Action, observe_all, in_space, rebuilt_in-observe_all,
}
use recommendation_service.Scoring.{rank, content_based_scorer, score_candidates, scores}
use recommendation_service.Scoring.Rank.{
  better, Suggested, rank-Suggested, rank-Selects, rank-perm_invariant,
}
use recommendation_service.Tests.Values.{
  numbers, numbers_Ordered, one, wide, narrow, racing_taste, racer, drifter, fan,
}

pub racing_taste-IsEmbedding : IsEmbedding racing_taste
unfolding contains
racing_taste-IsEmbedding = record { names = (refl, tt); weights = (refl, tt) }

pub racer-IsProfile : IsProfile racer
unfolding strip
racer-IsProfile = record { titled = refl; in_bounds = omega arith; described = λ h. cc h }

abbrev pub fan_after : UserPreference ℕ
fan_after = record fan {
  taste = record { weights = (text "genre:race", one + 1000) ∷ [] };
  owned = 1 ∷ 2 ∷ [];
  history = record { game_id = 2; weight = one } ∷ record { game_id = 1; weight = one } ∷ [];
  signal_count = 2;
  updated_at = some 50;
}

pub observe_run : observe fan racer purchase 50 ≡ ok fan_after
unfolding observe Dense.plus Sparse.plus take_last filter put lookup weight_of add_member drop
    contains
observe_run = refl

observe-cases_example :
    (Mismatch fan.taste_dense racer.dense
      × (observe fan racer purchase 50 ≡ err invariant_violation))
    ⊎ ((q : UserPreference ℕ) × (observe fan racer purchase 50 ≡ ok q)
        × Acted fan racer purchase 50 q)
observe-cases_example =
    observe-cases fan racer purchase 50 racing_taste-IsEmbedding racing_taste-IsEmbedding

observe-IsPreference_example : IsPreference fan_after
observe-IsPreference_example =
    observe-IsPreference fan racer purchase 50 fan_after racing_taste-IsEmbedding observe_run

abbrev newcomer : UserPreference ℕ
newcomer = record fan_after {
  taste = racing_taste;
  owned = 1 ∷ [];
  history = record { game_id = 1; weight = one } ∷ [];
  signal_count = 1;
}

abbrev early : List (Action ℕ)
early = record { game = racer; kind = purchase; at = 50 } ∷ []

early_run : observe_all (blank 7) early ≡ ok newcomer
unfolding observe_all blank observe Dense.plus Sparse.plus take_last filter put lookup weight_of
    add_member drop contains Sparse.empty
early_run = refl

ideal_run :
    observe_all (blank 7) (map (in_space ((1, wide) ∷ [])) early)
    ≡ ok (record newcomer { taste_dense = wide })
unfolding observe_all blank observe Dense.plus Sparse.plus take_last filter put lookup weight_of
    add_member drop contains Sparse.empty
ideal_run = refl

rebuilt_in_example :
    rebuilt_in newcomer ((1, wide) ∷ []) ≡ ok (record newcomer { taste_dense = wide })
rebuilt_in_example =
    rebuilt_in-observe_all ((1, wide) ∷ []) 7 early newcomer
      (record newcomer { taste_dense = wide }) (omega arith) early_run ideal_run

observe_raises_example :
    (observe (record fan { taste_dense = wide }) (record racer { dense = narrow }) purchase 50
      ≡ err invariant_violation)
    ↔ ((invariant_violation ≡ invariant_violation) × Mismatch wide narrow)
observe_raises_example =
    observe_raises_iff (record fan { taste_dense = wide }) (record racer { dense = narrow })
      purchase 50 invariant_violation

rank-Suggested_example :
    All
      (Suggested content_based_scorer fan [] (racer ∷ drifter ∷ []))
      (rank content_based_scorer fan (racer ∷ drifter ∷ []) [] 5)
rank-Suggested_example = rank-Suggested content_based_scorer fan [] (racer ∷ drifter ∷ []) 5

rank-Selects_example :
    Selects better 5
      (rank content_based_scorer fan (racer ∷ drifter ∷ []) [] 5)
      (score_candidates content_based_scorer fan (scores []) (racer ∷ drifter ∷ []))
rank-Selects_example =
    rank-Selects content_based_scorer fan [] numbers_Ordered (racer ∷ drifter ∷ []) 5

rank-perm_invariant_example :
    rank content_based_scorer fan (racer ∷ drifter ∷ []) [] 5
    ≡ rank content_based_scorer fan (drifter ∷ racer ∷ []) [] 5
rank-perm_invariant_example =
    rank-perm_invariant content_based_scorer fan [] numbers_Ordered 5 (Permᴰ.swap refl refl)
      (unfold contains in (refl, (refl, tt)))
