-- ===== src/Client/Http/Retries.antt =====
-- How the loops over the retries end.
use go_plugins.Prelude.{
  ℕ, ◌+◌, ◌<◌, zero, suc, ◌≡◌, refl, sym, ap, fun_ext, ◌∙◌, Bool, true, false, inl, inr, List, [],
  ◌∷◌, ◌++◌, Option, none, some, Bool-cases,
}
use go_plugins.Prelude.Outcome.{Outcome, ok, err, Outcome-cases}
use go_plugins.Client.Http.Streams
use go_plugins.Client.Http.Streams.{stream_all}
use go_plugins.Client.Http.{Fault, timeout, Mark, Source, World, Retry, attempt, rounds, call_all}

abbrev pub count : List Fault → ℕ
count [] = 0
count (e ∷ es) = suc (count es)

abbrev pub last_of : Option Fault → List Fault → Option Fault
last_of d [] = d
last_of d (e ∷ es) = last_of (some e) es

-- What `k` attempts from `i` on mark.
abbrev pub marks : {A : Type 0} → World A → Source → ℕ → ℕ → List Mark
marks w s i zero = []
marks w s i (suc k) = (attempt w s i).1 ++ marks w s (i + 1) k

module _ {A : Type 0} (w : World A) (s : Source) (retry : Retry) where
  -- An attempt that is made in time, fails with this error and is followed by another.
  abbrev pub GoesOn : ℕ → Fault → Type 0
  GoesOn i e = (w.ends i ≡ false) × ((attempt w s i).0 ≡ err e) × (retry i (some e) ≡ ok true)

  -- So do the attempts from `i` on with these errors.
  abbrev pub AllGoOn : ℕ → List Fault → Type 0
  AllGoOn i [] = Unit
  AllGoOn i (e ∷ es) = GoesOn i e × AllGoOn (i + 1) es

  -- The answer of the attempt `i` where the loop ends with it.
  pub data Stops (i : ℕ) : Outcome (Option Fault) A → Type 0 where
    overtaken : w.ends i ≡ true → Stops i (err (some timeout))
    answered : (a : A) → w.ends i ≡ false → (attempt w s i).0 ≡ ok a → Stops i (ok a)
    refused :
        (e : Fault)
        → w.ends i ≡ false
        → (attempt w s i).0 ≡ err e
        → retry i (some e) ≡ ok false
        → Stops i (err (some e))
    own_error :
        (e r : Fault)
        → w.ends i ≡ false
        → (attempt w s i).0 ≡ err e
        → retry i (some e) ≡ err r
        → Stops i (err (some r))

  -- The end behind the attempts with the errors `es`, the last of which is `last`: an attempt that
  -- stops the loop, or no retries are left.
  pub data Ends (retries : ℕ) (es : List Fault) (i : ℕ) (last : Option Fault)
      : Outcome (Option Fault) A → List Mark → Type 0 where
    stops :
        {o : Outcome (Option Fault) A}
        → Stops i o
        → count es < retries
        → Ends retries es i last o ((attempt w s i).1)
    spent : count es ≡ retries → Ends retries es i last (err last) []

  abbrev Ended : ℕ → ℕ → Option Fault → Type 0
  Ended n i last =
      (es : List Fault) × (o : Outcome (Option Fault) A) × (ms : List Mark) × AllGoOn i es
      × Ends n es (i + count es) (last_of last es) o ms
      × (rounds w s retry n i last ≡ (o, marks w s i (count es) ++ ms))

-- `Retry` as `Stream` calls it, without the error of the attempt.
abbrev pub blind : Retry → Retry
blind retry i e = retry i none

stream_rounds :
    {A : Type 0} (w : World A) (s : Source) (retry : Retry) (n i : ℕ) (last : Option Fault)
    → Streams.rounds w s retry n i last ≡ rounds w s (blind retry) n i last
unfolding Streams.rounds rounds
stream_rounds w s retry zero i last = refl
stream_rounds w s retry (suc n) i last = elim (Bool-cases (w.ends i)) [
  | inl t ↦ rw t refl
  | inr t ↦ elim (Outcome-cases (attempt w s i).0) [
    | inl (a, p) ↦ rw (t, p) refl
    | inr (e, p) ↦ elim (Outcome-cases (retry i none)) [
      | inl (true, q) ↦
          rw (t, p, q)
            (ap (λ r. (r.0, (attempt w s i).1 ++ r.1)) (stream_rounds w s retry n (i + 1) (some e)))
      | inl (false, q) ↦ rw (t, p, q) refl
      | inr (r, q) ↦ rw (t, p, q) refl
    ]
  ]
]

-- `Stream` answers and marks as `Call` would with a `Retry` that is never shown an error, whatever
-- `next` answers and whether or not the context has ended: so two functions that give the same answers
-- without an error lead to the same result, whatever they make of errors.
pub stream_all_lem :
    {A : Type 0} (w : World A) (s : Outcome Fault Source) (over : Bool) (retry retry' : Retry)
    (retries : ℕ)
    → ((i : ℕ) → retry i none ≡ retry' i none)
    → (stream_all w s over retry retries ≡ call_all w s over (λ i e. retry i none) retries)
      × (stream_all w s over retry retries ≡ stream_all w s over retry' retries)
unfolding stream_all call_all
stream_all_lem w (err e) over retry retry' retries h = (refl, refl)
stream_all_lem w (ok s) true retry retry' retries h = (refl, refl)
stream_all_lem w (ok s) false retry retry' retries h =
    let one = stream_rounds w s retry retries 0 none in
    let two = stream_rounds w s retry' retries 0 none in
    let same : blind retry ≡ blind retry' = fun_ext λ i. fun_ext λ e. h i in
    (one, one ∙ ap (λ r. rounds w s r retries 0 none) same ∙ sym two)
