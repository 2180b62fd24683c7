-- ===== src/Subscriber/Retries.antt =====
-- A message is handled, or it is moved to another topic and the store is as it was.
use recommendation_service.Base.{
  ◌≤◌, arith, ℕ, zero, suc, ◌≡◌, refl, ◌⊎◌, inl, inr, Option, [], ◌∷◌, ◌∙◌, ap, subst,
}
use recommendation_service.Base.Effects.{Error, Result, Exec, ok, err, pure, continue}
use recommendation_service.Base.Text.{Text}
use recommendation_service.Consumers.{Delivered}
use recommendation_service.Json.{Fields}
use recommendation_service.Subscriber.{run_all, reroute, attempt}

-- The state after a number of pauses.
abbrev pub world : {S : Type 0} → (S → S) → ℕ → S → S
world pause zero s = s
world pause (suc k) s = world pause k (pause s)

module _ {F S : Type 0} where
  -- A handler that leaves no trace when it raises.
  abbrev pub Atomic : (Delivered F → Exec S (Unit {0})) → Type 0
  Atomic handler =
      (message : Delivered F) (s t : S) (x : Error) → handler message s ≡ (err x, t) → t ≡ s

  -- The first attempts, so many of them, all fail, with a pause after each.
  abbrev pub Failing : (S → S) → (Delivered F → Exec S (Unit {0})) → Delivered F → ℕ → S → Type 0
  Failing pause handler message zero s = Unit
  Failing pause handler message (suc k) s =
      ((x : Error) × (handler message s ≡ (err x, s))) × Failing pause handler message k (pause s)

  module _ (pause : S → S) (producer : Option (Text → Fields F → Exec S (Unit {0})))
      (error_text : Error → Text) (handler : Delivered F → Exec S (Unit {0}))
      (atomic : Atomic handler) where
    abbrev trying : ℕ → Text → Fields F → Delivered F → Exec S (Unit {0})
    trying left = attempt pause producer error_text left (handler ∷ [])

    -- How a message ends, of which `left` more attempts follow the first.
    pub record Handled (left : ℕ) (message : Delivered F) (s : S) (out : Result (Unit {0}) × S)
        : Type 0 where
      pub tried : ℕ
      pub in_bounds : tried ≤ left
      pub failures : Failing pause handler message tried s
      pub after : S
      pub success : handler message (world pause tried s) ≡ (ok tt, after)
      pub ended : out ≡ (ok tt, after)

    pub record GivenUp (left : ℕ) (topic : Text) (envelope : Fields F) (message : Delivered F)
        (s : S) (out : Result (Unit {0}) × S) : Type 0 where
      pub failures : Failing pause handler message left s
      pub error : Error
      pub failure : handler message (world pause left s) ≡ (err error, world pause left s)
      pub moved : out ≡ reroute producer error_text topic envelope error (world pause left s)

    -- With one handler, which leaves no trace when it raises, and whatever others do to the state in
    -- the pauses, a message has one of two ends. Either some attempt within the bound succeeds after
    -- all before it have failed, and then the state is what that attempt left and nothing is sent. Or
    -- all attempts fail, and the message goes to `_reroute` with the error of the last.
    pub attempt-ends :
        (left : ℕ) (topic : Text) (envelope : Fields F) (message : Delivered F) (s : S)
        → Handled left message s
            (attempt pause producer error_text left (handler ∷ []) topic envelope message s)
          ⊎ GivenUp left topic envelope message s
              (attempt pause producer error_text left (handler ∷ []) topic envelope message s)
    unfolding attempt run_all
    attempt-ends left topic envelope message s = ends left s (handler message s) refl
      where
        last : Result (Unit {0}) × S → Result (Unit {0}) × S
        last y =
            let (result, t) = continue (λ _. pure tt) y in
            elim result [
              | ok _ ↦ (ok tt, t)
              | err e ↦ reroute producer error_text topic envelope e t
            ]

        next : ℕ → Result (Unit {0}) × S → Result (Unit {0}) × S
        next left y =
            let (result, t) = continue (λ _. pure tt) y in
            elim result [ ok _ ↦ (ok tt, t) | err e ↦ trying left topic envelope message (pause t) ]

        succeed :
            (left : ℕ) (s t : S) (out : Result (Unit {0}) × S)
            → handler message s ≡ (ok tt, t)
            → out ≡ (ok tt, t)
            → Handled left message s out
        succeed left s t out e k = record {
          tried = 0;
          in_bounds = omega arith;
          failures = tt;
          after = t;
          success = e;
          ended = k;
        }

        ends :
            (left : ℕ) (s : S) (y : Result (Unit {0}) × S)
            → handler message s ≡ y
            → Handled left message s (trying left topic envelope message s)
              ⊎ GivenUp left topic envelope message s (trying left topic envelope message s)
        ends zero s (ok _, t) e = inl (succeed zero s t _ e (ap last e))
        ends (suc left) s (ok _, t) e = inl (succeed (suc left) s t _ e (ap (next left) e))
        ends zero s (err x, t) e =
            let same : t ≡ s = atomic message s t x e in
            inr (record {
              failures = tt;
              error = x;
              failure = subst (λ w. handler message s ≡ (err x, w)) same e;
              moved = ap last e ∙ ap (reroute producer error_text topic envelope x) same;
            })
        ends (suc left) s (err x, t) e =
            let same : t ≡ s = atomic message s t x e in
            let failed = subst (λ w. handler message s ≡ (err x, w)) same e in
            let again : trying (suc left) topic envelope message s
                ≡ trying left topic envelope message (pause s) =
              ap (next left) failed in
            elim (ends left (pause s) (handler message (pause s)) refl) [
              | inl h ↦ inl (record {
                tried = suc h.tried;
                in_bounds = omega (arith, h.in_bounds);
                failures = ((x, failed), h.failures);
                after = h.after;
                success = h.success;
                ended = again ∙ h.ended;
              })
              | inr h ↦ inr (record {
                failures = ((x, failed), h.failures);
                error = h.error;
                failure = h.failure;
                moved = again ∙ h.moved;
              })
            ]
