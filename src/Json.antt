-- ===== src/Json.antt =====
-- The values of `json.loads`, and of the dictionaries that become messages.
use recommendation_service.Base.{ℕ, Bool, Option, none, some, List, [], ◌∷◌, if◌then◌else◌, ◌==◌}
use recommendation_service.Base.Text.{Text, text_eq}

mutual
  pub data Json (F : Type 0) : Type 0 where
    null : Json F
    boolean : Bool → Json F
    integer : ℕ → Json F
    decimal : F → Json F
    string : Text → Json F
    array : Items F → Json F
    object : Fields F → Json F

  pub data Items (F : Type 0) : Type 0 where
    nil : Items F
    item : Json F → Items F → Items F

  pub data Fields (F : Type 0) : Type 0 where
    end : Fields F
    field : Text → Json F → Fields F → Fields F

-- `payload.get(key)`; the keys of a dictionary differ
unfoldable pub get : {F : Type 0} → Fields F → Text → Option (Json F)
get end key = none
get (field name value fields) key = if name == key then some value else get fields key

-- `payload.get(key)` with `None` for JSON's null, which the program does not tell from absence
unfoldable pub present : {F : Type 0} → Option (Json F) → Option (Json F)
present none = none
present (some null) = none
present (some value) = some value

unfoldable pub to_list : {F : Type 0} → Items F → List (Json F)
to_list nil = []
to_list (item value items) = value ∷ to_list items

unfoldable pub of_list : {F : Type 0} → List (Json F) → Items F
of_list [] = nil
of_list (value ∷ values) = item value (of_list values)
