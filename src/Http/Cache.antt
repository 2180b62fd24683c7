-- ===== src/Http/Cache.antt =====
-- infrastructure/response_cache.py. The client is a parameter in this way: it holds texts by key, and a
-- call of it raises or does what its name says. The life time of an entry is not kept: an entry may be
-- gone at any call.
pub mod Owners
use recommendation_service.Base.{
  ℕ, Bool, true, false, Option, none, some, List, [], ◌∷◌, ◌++◌, if◌then◌else◌, contains, filter,
  not,
}
use recommendation_service.Base.Dict.{Dict, put, lookup}
use recommendation_service.Base.Effects.{Error, Result, ok, err, and_then}
use recommendation_service.Base.Text.{Text, text, text_eq}

-- How the client takes the calls of one request: which entries have run out before it, and whether
-- `get` and `set` raise.
pub record Weather : Type 0 where
  pub expired : List Text
  pub read_fails : Bool
  pub write_fails : Bool

abbrev pub surviving : List Text → Dict Text Text → Dict Text Text
surviving expired = filter (λ e. not (contains expired e.0))

abbrev pub full_key : Text → Text → Text
full_key prefix key = prefix ++ (text ":" ++ key)

-- `json.dumps(value, default=str)`, and `json.loads`, which raises of a text that is not JSON.
pub record Codec (P : Type 0) : Type 0 where
  pub dumps : P → Text
  pub loads : Text → Result P

module _ {P : Type 0} (codec : Codec P) where
  unfoldable pub stored_after : Bool → Text → Result P → Dict Text Text → Dict Text Text
  unfolding put
  stored_after true key value entries = entries
  stored_after false key (ok value) entries = put key (codec.dumps value) entries
  stored_after false key (err e) entries = entries

  abbrev pub answer_from :
      Bool → Text → Result P → Dict Text Text → Option Text → Result P × Dict Text Text
  unfolding stored_after
  answer_from write_fails key computed entries (some cached) = (codec.loads cached, entries)
  answer_from write_fails key computed entries none =
      (computed, stored_after write_fails key computed entries)

  -- ResponseCache.get_or_set over the entries of the client; `computed` is what `compute()` gives.
  unfoldable pub get_or_set :
      (prefix key : Text) → Result P → Weather → Dict Text Text → Result P × Dict Text Text
  unfolding lookup answer_from
  get_or_set prefix key computed weather before =
      let entries = surviving weather.expired before in
      if weather.read_fails
      then (computed, entries)
      else answer_from weather.write_fails (full_key prefix key) computed entries
          (lookup (full_key prefix key) entries)

  -- Without a client it computes.
  unfoldable pub get_or_compute :
      Bool → (prefix key : Text) → Result P → Weather → Dict Text Text → Result P × Dict Text Text
  unfolding get_or_set
  get_or_compute false prefix key computed weather entries = (computed, entries)
  get_or_compute true prefix key computed weather entries =
      get_or_set prefix key computed weather entries
