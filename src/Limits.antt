-- ===== src/Limits.antt =====
-- The bounds of domain/shared/limits.py.
use recommendation_service.Base.{ℕ}

abbrev pub default_recommendation_count : ℕ
default_recommendation_count = 10

abbrev pub max_recommendation_count : ℕ
max_recommendation_count = 50

abbrev pub max_collaborative_candidates : ℕ
max_collaborative_candidates = 200

abbrev pub max_feature_chars : ℕ
max_feature_chars = 64

abbrev pub max_title_chars : ℕ
max_title_chars = 200

abbrev pub max_description_chars : ℕ
max_description_chars = 2000

abbrev pub max_signal_history : ℕ
max_signal_history = 200

abbrev pub max_explained_candidates : ℕ
max_explained_candidates = 10
