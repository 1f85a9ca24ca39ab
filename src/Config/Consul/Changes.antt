-- ===== src/Config/Consul/Changes.antt =====
-- What a watcher of Consul returns.
use go_plugins.Prelude.{
  ℕ, String, ◌≡◌, ◌⊎◌, refl, sym, ap, ◌∙◌, Bool, List, [], ◌∷◌, ◌++◌, Option, none, some, arith,
  Option-cases, inl, inr, append_assoc, append-nil,
}
use go_plugins.Config.Consul.Source.{
  Encoder, ChangeSet, Given, Handled, silent, sends, breaks, Watcher, Event, given, next, stop,
  Moved, moved, waits, panicked, new_watcher, handle, call_next, call_handle, step, run,
}

abbrev pub held : Option ChangeSet → List ChangeSet
held none = []
held (some x) = x ∷ []

-- The changes of a watcher: those returned, and the one that waits.
abbrev pub changes : Watcher → List ChangeSet
changes w = w.returned ++ held w.waiting

abbrev pub sent : Handled → List ChangeSet
sent silent = []
sent breaks = []
sent (sends x) = x ∷ []

Moved-cases : (r : Moved) → ((w : Watcher) × (r ≡ moved w)) ⊎ ((r ≡ waits) ⊎ (r ≡ panicked))
Moved-cases (moved w) = inl (w, refl)
Moved-cases waits = inr (inl refl)
Moved-cases panicked = inr (inr refl)

Handled-cases : (h : Handled) → ((x : ChangeSet) × (h ≡ sends x)) ⊎ ((h ≡ silent) ⊎ (h ≡ breaks))
Handled-cases (sends x) = inl (x, refl)
Handled-cases silent = inr (inl refl)
Handled-cases breaks = inr (inr refl)

module _ {J : Type 0} (c : Encoder J) (strip : String) where
  -- The changes of what the watch hands over.
  unfoldable pub changes_of : List Event → List ChangeSet
  changes_of [] = []
  changes_of (given now x ∷ es) = sent (handle c strip now x) ++ changes_of es
  changes_of (next exits ∷ es) = changes_of es
  changes_of (stop ∷ es) = changes_of es

  call_next-changes :
      (b : Bool) (w w' : Watcher) → call_next c strip b w ≡ moved w' → changes w' ≡ changes w
  unfolding call_next
  call_next-changes b w w' h = elim (Option-cases w.waiting) [
    | inl x ↦ ground arith
    | inr (y, x) ↦ ground (arith, append_assoc w.returned (y ∷ []) [], append-nil w.returned)
  ]

  call_handle-changes :
      (now : ℕ) (x : Given) (w w' : Watcher)
      → call_handle c strip now x w ≡ moved w'
      → changes w' ≡ changes w ++ sent (handle c strip now x)
  unfolding call_handle
  call_handle-changes now x w w' h = elim (Option-cases w.waiting) [
    | inr (y, q) ↦ absurd (ground arith)
    | inl q ↦ elim (Handled-cases (handle c strip now x)) [
      | inl (y, r) ↦ ground (arith, append-nil w.returned)
      | inr (inl r) ↦ ground (arith, append-nil (changes w))
      | inr (inr r) ↦ absurd (ground arith)
    ]
  ]

  step-changes :
      (e : Event) (w w' : Watcher)
      → step c strip e w ≡ moved w'
      → changes w' ≡ changes w ++ changes_of (e ∷ [])
  unfolding step changes_of
  step-changes (given now x) w w' h =
      call_handle-changes now x w w' h
      ∙ ap (λ l. changes w ++ l) (sym (append-nil (sent (handle c strip now x))))
  step-changes (next b) w w' h = call_next-changes b w w' h ∙ sym (append-nil (changes w))
  step-changes stop w w' h = ground (arith, append-nil (changes w))

  changes_of_cons :
      (e : Event) (es : List Event) → changes_of (e ∷ es) ≡ changes_of (e ∷ []) ++ changes_of es
  unfolding changes_of
  changes_of_cons (given now x) es =
      ap (λ l. l ++ changes_of es) (sym (append-nil (sent (handle c strip now x))))
  changes_of_cons (next b) es = refl
  changes_of_cons stop es = refl

  run-changes_of :
      (es : List Event) (w w' : Watcher)
      → run c strip es w ≡ moved w'
      → changes w' ≡ changes w ++ changes_of es
  unfolding run changes_of
  run-changes_of [] w w' h = ground (arith, append-nil (changes w))
  run-changes_of (e ∷ es) w w' h = elim (Moved-cases (step c strip e w)) [
    | inl (n, x) ↦
        run-changes_of es n w' (ground arith)
        ∙ ap (λ l. l ++ changes_of es) (step-changes e w n x)
        ∙ append_assoc (changes w) (changes_of (e ∷ [])) (changes_of es)
        ∙ ap (λ l. changes w ++ l) (sym (changes_of_cons e es))
    | inr (inl x) ↦ absurd (ground arith)
    | inr (inr x) ↦ absurd (ground arith)
  ]

  -- Whatever comes to a new watcher, up to any moment at which it has not panicked: what `Next` has
  -- returned, and the change that may still wait, are the changes that the handler makes of what the
  -- watch handed over, each of them once and in that order.
  pub run-changes :
      (es : List Event) (w : Watcher)
      → run c strip es new_watcher ≡ moved w
      → w.returned ++ held w.waiting ≡ changes_of es
  run-changes es w h = run-changes_of es new_watcher w h
