-- ===== src/Runtime.antt =====
-- What Python's runtime brings to the program and a model over numbers cannot compute: floating
-- point, Unicode's cases, the order in which a set is walked, and how the standard library writes
-- and reads UUIDs, instants and other values. The type of the floats and these operations are
-- parameters of every definition that uses them.
pub mod Laws
use recommendation_service.Base.{ℕ, Bool, Option, none, some, List}
use recommendation_service.Json.{Json, string}
use recommendation_service.Base.Text.{Text}

pub record Runtime (F : Type 0) : Type 0 where
  -- `lit n d` is the float nearest to n / 10^d: a literal, and an `int` that meets a float.
  pub lit : ℕ → ℕ → F
  pub add : F → F → F
  pub mul : F → F → F
  pub div : F → F → F
  pub neg : F → F
  pub sqrt : F → F
  -- The built-in `sum` of floats, which does not round as repeated `+` does.
  pub sum : List F → F
  pub lt : F → F → Bool
  pub le : F → F → Bool
  pub eq : F → F → Bool
  -- `round(x, 6)`, and the true division of two ints.
  pub round6 : F → F
  pub true_div : ℕ → ℕ → F
  -- `str.lower`.
  pub lower : Text → Text
  pub upper : Text → Text
  -- The order in which a set with these elements is walked, which differs between processes.
  pub set_order : List Text → List Text
  pub id_order : List ℕ → List ℕ
  -- `str(UUID)` and `UUID(text)`, where `none` is `ValueError`; so for `datetime.isoformat` and
  -- `datetime.fromisoformat`.
  pub uuid_text : ℕ → Text
  pub uuid_of : Text → Option ℕ
  pub iso_text : ℕ → Text
  pub iso_of : Text → Option ℕ
  -- `str` of a JSON value that is no string.
  pub repr : Json F → Text

-- `str(mapping.get(key, default))`
abbrev pub str_or : {F : Type 0} ⦃r : Runtime F⦄ → Text → Option (Json F) → Text
str_or default none = default
str_or default (some (string s)) = s
str_or ⦃r⦄ default (some value) = r.repr value
