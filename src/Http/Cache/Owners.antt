-- ===== src/Http/Cache/Owners.antt =====
-- The answers of the cached routes: nobody is served what was computed for somebody else.
use mathlib.Core.List.{Mem, mem-cons_self, mem-cons_of_mem}
use recommendation_service.Base.{
  ℕ, ◌≡◌, refl, sym, ap, ap₂, subst, ◌∙◌, Bool, true, false, not, some, List, [], ◌∷◌, ◌++◌, All,
  All-imp, All-filter, arith, contains, length, Bool-cases, inl, inr,
}
use recommendation_service.Base.Dict.{Dict, lookup, All-put, All-lookup, Option-cases}
use recommendation_service.Base.Effects.{Error, Result, ok, err}
use recommendation_service.Base.Text.{Text, text, text_eq}
use recommendation_service.Http.Cache.{
  Codec, Weather, surviving, full_key, stored_after, get_or_set,
}
use recommendation_service.Http.Routes.{Asked, own_list, similar_rail, key_of}

ok-eq : {A : Type 0} {a b : A} → ok a ≡ ok b → a ≡ b
ok-eq h = cc h

append_inj : (a b c d : Text) → length a ≡ length b → a ++ c ≡ b ++ d → (a ≡ b) × (c ≡ d)
append_inj [] [] c d n h = (refl, h)
append_inj [] (y ∷ b) c d n h = absurd (omega (arith, n))
append_inj (x ∷ a) [] c d n h = absurd (omega (arith, n))
append_inj (x ∷ a) (y ∷ b) c d n h =
    let (e, rest) = append_inj a b c d (omega (arith, n)) (cc h) in
    (ap₂ (λ z l. z ∷ l) (cc h) e, rest)

append_cancel : (a c d : Text) → a ++ c ≡ a ++ d → c ≡ d
append_cancel a c d h = (append_inj a a c d refl h).1

abbrev first_code : Text → ℕ
first_code [] = 0
first_code (c ∷ s) = c

-- What `str` of an id and of an int is like: ids are written in one length, and different ids and ints
-- are written differently.
pub record Writes (uuid_text number_text : ℕ → Text) : Type 0 where
  pub one_length : (i j : ℕ) → length (uuid_text i) ≡ length (uuid_text j)
  pub ids_differ : (i j : ℕ) → uuid_text i ≡ uuid_text j → i ≡ j
  pub numbers_differ : (i j : ℕ) → number_text i ≡ number_text j → i ≡ j

-- What was computed for a question goes on record.
abbrev pub logged : {P : Type 0} → Asked → Result P → List (Asked × P) → List (Asked × P)
logged a (ok p) log = (a, p) ∷ log
logged a (err e) log = log

-- The entries of the client after any requests, with the record of what was computed for them.
module _ {P : Type 0} (codec : Codec P) (uuid_text number_text : ℕ → Text) (prefix : Text) where
  pub data Reached : List (Asked × P) → Dict Text Text → Type 0 where
    start : Reached [] []
    asked :
        {log : List (Asked × P)} {entries : Dict Text Text}
        → Reached log entries
        → (a : Asked) (computed : Result P) (weather : Weather)
        → Reached
            (logged a computed log)
            (get_or_set codec prefix (key_of uuid_text number_text a) computed weather entries).1

module _ (uuid_text number_text : ℕ → Text) (w : Writes uuid_text number_text) where
  key_of_inj :
      (a b : Asked) → key_of uuid_text number_text a ≡ key_of uuid_text number_text b → a ≡ b
  unfolding key_of
  key_of_inj (own_list u l) (own_list v m) h =
      let (e, rest) =
        append_inj (uuid_text u) (uuid_text v) (text ":reco:" ++ number_text l)
          (text ":reco:" ++ number_text m) (w.one_length u v)
          (append_cancel (text "user:") _ _ h) in
      ap₂ (λ i n. own_list i n) (w.ids_differ u v e)
        (w.numbers_differ l m (append_cancel (text ":reco:") _ _ rest))
  key_of_inj (similar_rail g l) (similar_rail k m) h =
      let (e, rest) =
        append_inj (uuid_text g) (uuid_text k) (text ":similar:" ++ number_text l)
          (text ":similar:" ++ number_text m) (w.one_length g k)
          (append_cancel (text "game:") _ _ h) in
      ap₂ (λ i n. similar_rail i n) (w.ids_differ g k e)
        (w.numbers_differ l m (append_cancel (text ":similar:") _ _ rest))
  key_of_inj (own_list u l) (similar_rail g m) h = absurd (omega (arith, ap (first_code) h))
  key_of_inj (similar_rail g m) (own_list u l) h = absurd (omega (arith, ap first_code h))

  module _ {P : Type 0} (codec : Codec P) (reads : (p : P) → codec.loads (codec.dumps p) ≡ ok p)
      (prefix : Text) where
    abbrev pub key_for : Asked → Text
    key_for a = full_key prefix (key_of uuid_text number_text a)

    key_for_inj : (a b : Asked) → key_for a ≡ key_for b → a ≡ b
    key_for_inj a b h = key_of_inj a b (append_cancel (text ":") _ _ (append_cancel prefix _ _ h))

    record Owned (log : List (Asked × P)) (entry : Text × Text) : Type 0 where
      asked_by : Asked
      payload : P
      at_key : entry.0 ≡ key_for asked_by
      written : entry.1 ≡ codec.dumps payload
      on_record : Mem (asked_by, payload) log

    longer :
        (a : Asked) (computed : Result P) (log : List (Asked × P)) (m : Asked × P)
        → Mem m log
        → Mem m (logged a computed log)
    longer a (ok p) log m h = mem-cons_of_mem (a, p) h
    longer a (err e) log m h = h

    Owned-longer :
        (a : Asked) (computed : Result P) (log : List (Asked × P)) (entries : Dict Text Text)
        → All (Owned log) entries
        → All (Owned (logged a computed log)) entries
    Owned-longer a computed log entries h =
        All-imp (Owned log) (Owned (logged a computed log)) entries
          (λ e o. record {
            asked_by = o.asked_by;
            payload = o.payload;
            at_key = o.at_key;
            written = o.written;
            on_record = longer a computed log (o.asked_by, o.payload) o.on_record;
          })
          h

    stored_after-Owned :
        (write_fails : Bool) (a : Asked) (computed : Result P) (log : List (Asked × P))
        (entries : Dict Text Text)
        → All (Owned log) entries
        → All
            (Owned (logged a computed log))
            (stored_after codec write_fails (key_for a) computed entries)
    unfolding stored_after
    stored_after-Owned true a computed log entries h = Owned-longer a computed log entries h
    stored_after-Owned false a (err e) log entries h = h
    stored_after-Owned false a (ok p) log entries h =
        All-put (Owned ((a, p) ∷ log)) (key_for a) (codec.dumps p) entries
          (record {
            asked_by = a;
            payload = p;
            at_key = refl;
            written = refl;
            on_record = mem-cons_self;
          })
          (Owned-longer a (ok p) log entries h)

    computed_logged :
        (a : Asked) (computed : Result P) (log : List (Asked × P)) (p : P)
        → computed ≡ ok p
        → Mem (a, p) (logged a computed log)
    computed_logged a computed log p e =
        subst (λ c. Mem (a, p) (logged a c log)) (sym e) mem-cons_self

    -- A payload that is read under the key of a question was computed for it.
    found_own :
        (a : Asked) (log : List (Asked × P)) (entries : Dict Text Text) (cached : Text) (p : P)
        → All (Owned log) entries
        → lookup (key_for a) entries ≡ some cached
        → codec.loads cached ≡ ok p
        → Mem (a, p) log
    found_own a log entries cached p h found e =
        let o = All-lookup (Owned log) (key_for a) cached entries h found in
        let same : a ≡ o.asked_by = key_for_inj a o.asked_by o.at_key in
        let payload : o.payload ≡ p =
          ok-eq (sym (reads o.payload) ∙ ap codec.loads (sym o.written) ∙ e) in
        subst (λ m. Mem m log) (ap₂ (λ b q. (b, q)) (sym same) payload) o.on_record

    abbrev Answered : Asked → Result P → List (Asked × P) → Result P × Dict Text Text → Type 0
    Answered a computed log out =
        All (Owned (logged a computed log)) out.1
        × ((p : P) → out.0 ≡ ok p → Mem (a, p) (logged a computed log))

    answered :
        (a : Asked) (computed : Result P) (weather : Weather) (log : List (Asked × P))
        (before : Dict Text Text)
        → All (Owned log) before
        → Answered a computed log
            (get_or_set codec prefix (key_of uuid_text number_text a) computed weather before)
    unfolding get_or_set
    answered a computed weather log before h =
        let entries = surviving weather.expired before in
        let kept =
          All-filter (Owned log) (λ (e : Text × Text). not (contains weather.expired e.0)) before
            h in
        elim (Bool-cases weather.read_fails) [
          | inl failed ↦
              rw failed (
                Owned-longer a computed log entries kept,
                λ p e. computed_logged a computed log p e,
              )
          | inr heard ↦ rw heard (elim (Option-cases (lookup (key_for a) entries)) [
            | inl missing ↦ rw missing (
              stored_after-Owned weather.write_fails a computed log entries kept,
              λ p e. computed_logged a computed log p e,
            )
            | inr (cached, found) ↦ rw found (
              Owned-longer a computed log entries kept,
              λ p e. longer a computed log (a, p) (found_own a log entries cached p kept found e),
            )
          ])
        ]

    Reached-Owned :
        {log : List (Asked × P)} {entries : Dict Text Text}
        → Reached codec uuid_text number_text prefix log entries
        → All (Owned log) entries
    Reached-Owned start = tt
    Reached-Owned (asked {log} {entries} reached a computed weather) =
        (answered a computed weather log entries (Reached-Owned reached)).0

    -- After any requests to the cached routes, with entries that run out and calls of the client that
    -- raise at any time, an answer that is served for a question, which is a user or a game with a limit,
    -- was computed for the same question, now or by an earlier request. The conditions are that ids are
    -- written in one length, that different ids and different ints are written differently, and that
    -- `json.loads` reads what `json.dumps` writes.
    pub served_own :
        {log : List (Asked × P)} {entries : Dict Text Text}
        → Reached codec uuid_text number_text prefix log entries
        → (a : Asked) (computed : Result P) (weather : Weather) (p : P)
        → (get_or_set codec prefix (key_of uuid_text number_text a) computed weather entries).0
          ≡ ok p
        → Mem (a, p) (logged a computed log)
    served_own {log} {entries} reached a computed weather p h =
        (answered a computed weather log entries (Reached-Owned reached)).1 p h

    -- Under the same conditions, after any requests, a request raises only where its own computation does:
    -- neither a call of the client that raises nor an entry that it finds makes it fail.
    pub fails_open :
        {log : List (Asked × P)} {entries : Dict Text Text}
        → Reached codec uuid_text number_text prefix log entries
        → (a : Asked) (computed : Result P) (weather : Weather) (e : Error)
        → (get_or_set codec prefix (key_of uuid_text number_text a) computed weather entries).0
          ≡ err e
        → computed ≡ err e
    unfolding get_or_set
    fails_open {log} {entries} reached a computed weather e h =
        let left = surviving weather.expired entries in
        let kept =
          All-filter (Owned log) (λ (x : Text × Text). not (contains weather.expired x.0)) entries
            (Reached-Owned reached) in
        elim (Bool-cases weather.read_fails) [
          | inl failed ↦ rw failed at h
          | inr heard ↦ elim (Option-cases (lookup (key_for a) left)) [
            | inl missing ↦ rw (heard, missing) at h
            | inr (cached, found) ↦
                let o = All-lookup (Owned log) (key_for a) cached left kept found in
                absurd (cc (rw (heard, found) at h, reads o.payload, o.written))
          ]
        ]
