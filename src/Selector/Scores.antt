-- ===== src/Selector/Scores.antt =====
-- Proofs about the closure of client/selector/shard/shard.go.
use mathlib.Core.List.{Perm}
use mathlib.Core.List.Perm
use go_plugins.Prelude.{
  ℕ, zero, suc, ◌+◌, ◌≤◌, ◌≡◌, refl, ◌⊎◌, inl, inr, true, false, List, [], ◌∷◌, Option, none, some,
  arith, leb, is_some, All, Bool-cases, ap, sym, subst,
}
use go_plugins.Registry.{Node}
use go_plugins.Selector.Shard.{Entry, scan, node_at, take_at, next}

-- The nodes that are left, with their scores.
abbrev pub left : List Entry → List (Node × ℕ)
left [] = []
left ((none, s) ∷ es) = left es
left ((some n, s) ∷ es) = (n, s) ∷ left es

abbrev pub AtMost : ℕ → List (Node × ℕ) → Type 0
AtMost b = All (λ (x : Node × ℕ). x.1 ≤ b)

-- The search keeps an upper bound of what it has seen.
AtMost-mono : (a b : ℕ) (xs : List (Node × ℕ)) → a ≤ b → AtMost a xs → AtMost b xs
AtMost-mono a b [] h k = tt
AtMost-mono a b (x ∷ xs) h k = (omega arith, AtMost-mono a b xs h k.1)

scan-nil : (i best : ℕ) (pos : Option ℕ) → scan i best pos [] ≡ (best, pos)
unfolding scan
scan-nil i best pos = refl

scan-taken :
    (i best s : ℕ) (pos : Option ℕ) (es : List Entry)
    → scan i best pos ((none, s) ∷ es) ≡ scan (i + 1) best pos es
unfolding scan
scan-taken i best s pos es = ground arith

scan-better :
    (i best s : ℕ) (n : Node) (pos : Option ℕ) (es : List Entry)
    → leb best s ≡ true
    → scan i best pos ((some n, s) ∷ es) ≡ scan (i + 1) s (some i) es
unfolding scan
scan-better i best s n pos es e = ground arith

scan-worse :
    (i best s : ℕ) (n : Node) (pos : Option ℕ) (es : List Entry)
    → leb best s ≡ false
    → scan i best pos ((some n, s) ∷ es) ≡ scan (i + 1) best pos es
unfolding scan
scan-worse i best s n pos es e = ground arith

-- What a result bounds.
abbrev Bounds : ℕ → List Entry → ℕ × Option ℕ → Type 0
Bounds best es r = (best ≤ r.0) × AtMost r.0 (left es)

scan-Bounds : (i best : ℕ) (pos : Option ℕ) (es : List Entry) → Bounds best es (scan i best pos es)
scan-Bounds i best pos [] = (ground (arith, scan-nil i best pos), tt)
scan-Bounds i best pos ((none, s) ∷ es) =
    subst (Bounds best ((none, s) ∷ es)) (sym (scan-taken i best s pos es))
      (scan-Bounds (i + 1) best pos es)
scan-Bounds i best pos ((some n, s) ∷ es) = elim (Bool-cases (leb best s)) [
  | inl e ↦
      subst (Bounds best ((some n, s) ∷ es)) (sym (scan-better i best s n pos es e))
        (let ih = scan-Bounds (i + 1) s (some i) es in (ground (arith, ih.0), (ih.0, ih.1)))
  | inr e ↦
      subst (Bounds best ((some n, s) ∷ es)) (sym (scan-worse i best s n pos es e))
        (let ih = scan-Bounds (i + 1) best pos es in (ih.0, (ground (arith, ih.0), ih.1)))
]

-- Where it found its score.
record Found (i : ℕ) (es : List Entry) (r : ℕ × Option ℕ) : Type 0 where
  index : ℕ
  node : Node
  pos_is : r.1 ≡ some (i + index)
  node_is : node_at index es ≡ some node
  split : Perm (left es) ((node, r.0) ∷ left (take_at index es))

Found-taken :
    (i s : ℕ) (es : List Entry) (r : ℕ × Option ℕ) → Found (i + 1) es r → Found i ((none, s) ∷ es) r
unfolding node_at take_at
Found-taken i s es r f = record {
  index = suc f.index;
  node = f.node;
  pos_is = ground (arith, f.pos_is);
  node_is = f.node_is;
  split = f.split;
}

Found-cons :
    (i s : ℕ) (n : Node) (es : List Entry) (r : ℕ × Option ℕ)
    → Found (i + 1) es r
    → Found i ((some n, s) ∷ es) r
unfolding node_at take_at
Found-cons i s n es r f = record {
  index = suc f.index;
  node = f.node;
  pos_is = ground (arith, f.pos_is);
  node_is = f.node_is;
  split =
      Perm.trans (Perm.cons (n, s) f.split)
        (Perm.swap (f.node, r.0) (n, s) (left (take_at f.index es)));
}

Found-here :
    (i s : ℕ) (n : Node) (es : List Entry) (r : ℕ × Option ℕ)
    → r ≡ (s, some i)
    → Found i ((some n, s) ∷ es) r
unfolding node_at take_at
Found-here i s n es r e = record {
  index = 0;
  node = n;
  pos_is = ground (arith, e);
  node_is = refl;
  split = subst (λ q. Perm ((n, s) ∷ left es) ((n, q) ∷ left es)) (sym (ap (λ x. x.0) e)) Perm.rfl;
}

scan-Found :
    (i best : ℕ) (pos : Option ℕ) (es : List Entry)
    → (scan i best pos es ≡ (best, pos)) ⊎ Found i es (scan i best pos es)
scan-Found i best pos [] = inl (scan-nil i best pos)
scan-Found i best pos ((none, s) ∷ es) =
    rw (scan-taken i best s pos es) (elim (scan-Found (i + 1) best pos es) [
      | inl e ↦ inl e
      | inr f ↦ inr (Found-taken i s es (scan (i + 1) best pos es) f)
    ])
scan-Found i best pos ((some n, s) ∷ es) = elim (Bool-cases (leb best s)) [
  | inl e ↦ rw (scan-better i best s n pos es e) (elim (scan-Found (i + 1) s (some i) es) [
    | inl h ↦ inr (Found-here i s n es (scan (i + 1) s (some i) es) h)
    | inr f ↦ inr (Found-cons i s n es (scan (i + 1) s (some i) es) f)
  ])
  | inr e ↦ rw (scan-worse i best s n pos es e) (elim (scan-Found (i + 1) best pos es) [
    | inl h ↦ inl h
    | inr f ↦ inr (Found-cons i s n es (scan (i + 1) best pos es) f)
  ])
]

scan-some : (i best p : ℕ) (es : List Entry) → is_some (scan i best (some p) es).1 ≡ true
unfolding scan
scan-some i best p [] = refl
scan-some i best p ((none, s) ∷ es) = ground (arith, scan-some (i + 1) best p es)
scan-some i best p ((some n, s) ∷ es) =
    ground (arith, scan-some (i + 1) best p es, scan-some (i + 1) s i es)

-- Nothing is found only where nothing is left.
scan-none : (i : ℕ) (es : List Entry) → (scan i 0 none es).1 ≡ none → left es ≡ []
unfolding scan
scan-none i [] h = refl
scan-none i ((none, s) ∷ es) h = ground (arith, scan-none (i + 1) es)
scan-none i ((some n, s) ∷ es) h = ground (arith, scan-some (i + 1) s i es)

take_at-AtMost : (b i : ℕ) (es : List Entry) → AtMost b (left es) → AtMost b (left (take_at i es))
unfolding take_at
take_at-AtMost b i [] h = tt
take_at-AtMost b zero ((none, s) ∷ es) h = h
take_at-AtMost b zero ((some n, s) ∷ es) h = h.1
take_at-AtMost b (suc i) ((none, s) ∷ es) h = take_at-AtMost b i es h
take_at-AtMost b (suc i) ((some n, s) ∷ es) h = (h.0, take_at-AtMost b i es h.1)

-- What one call does: it hands out a node of the best score that is left, and leaves the others.
pub data IsBest (es : List Entry) (r : Option Node × List Entry) : Type 0 where
  none_left : left es ≡ [] → r ≡ (none, es) → IsBest es r
  best_left :
      (n : Node) (s : ℕ)
      → r.0 ≡ some n
      → Perm (left es) ((n, s) ∷ left r.1)
      → AtMost s (left r.1)
      → IsBest es r

next-some :
    (es : List Entry) (f : Found 0 es (scan 0 0 none es))
    → next es ≡ (some f.node, take_at f.index es)
unfolding next
next-some es f = ground (arith, f.pos_is, f.node_is)

next-none : (es : List Entry) → scan 0 0 none es ≡ (0, none) → next es ≡ (none, es)
unfolding next
next-none es h = ground (arith, h)

-- A call hands out a node whose score no other that is left exceeds, and takes it, and it alone, out
-- of those that are left; it fails, and changes nothing, exactly when none is left.
pub next-IsBest : (es : List Entry) → IsBest es (next es)
next-IsBest es = elim (scan-Found 0 0 none es) [
  | inl h ↦ none_left (scan-none 0 es (ap (λ r. r.1) h)) (next-none es h)
  | inr f ↦ subst (IsBest es) (sym (next-some es f)) (
      best_left f.node (scan 0 0 none es).0 refl f.split
        (take_at-AtMost (scan 0 0 none es).0 f.index es (scan-Bounds 0 0 none es).1))
]
