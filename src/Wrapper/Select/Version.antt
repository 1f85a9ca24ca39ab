-- ===== src/Wrapper/Select/Version.antt =====
-- Proofs about wrapper/select/version: which services the filter leaves.
use go_plugins.Prelude.{
  String, ◌≡◌, refl, sym, ap, subst, ◌∙◌, Bool, true, false, not, ◌||◌, List, [], ◌∷◌, ◌==◌,
  string_eq, nat_eq, if◌then◌else◌, keep, any, is_nil, All, arith, Bool-cases, inl, inr, eq_iff,
}
use go_plugins.Registry.{Service}
use go_plugins.Wrapper.Select.{before, greatest, filter_latest}

before-irreflexive : (s : String) → before s s ≡ false
unfolding before
before-irreflexive String.[] = refl
before-irreflexive (String.◌∷◌ c s) = ground (arith, before-irreflexive s)

before_trans : (s t u : String) → before t s ≡ false → before u t ≡ false → before u s ≡ false
unfolding before
before_trans String.[] t String.[] h k = refl
before_trans String.[] String.[] (String.◌∷◌ e u) h k = k
before_trans String.[] (String.◌∷◌ d t) (String.◌∷◌ e u) h k = refl
before_trans (String.◌∷◌ c s) String.[] u h k = absurd (ground (arith, h))
before_trans (String.◌∷◌ c s) (String.◌∷◌ d t) String.[] h k = absurd (ground (arith, k))
before_trans (String.◌∷◌ c s) (String.◌∷◌ d t) (String.◌∷◌ e u) h k =
    ground (arith, h, k, before_trans s t u)

before_asym : (s t : String) → before s t ≡ true → before t s ≡ false
unfolding before
before_asym String.[] String.[] h = refl
before_asym String.[] (String.◌∷◌ d t) h = refl
before_asym (String.◌∷◌ c s) String.[] h = absurd (ground (arith, h))
before_asym (String.◌∷◌ c s) (String.◌∷◌ d t) h = ground (arith, h, before_asym s t)

greatest-cons :
    (v : String) (s : Service) (ss : List Service)
    → greatest v (s ∷ ss) ≡ greatest (if before v s.version then s.version else v) ss
unfolding greatest
greatest-cons v s ss = refl

-- No version stands behind `gt`.
abbrev pub IsLast : String → List Service → Type 0
IsLast gt ss = All (λ (s : Service). before gt s.version ≡ false) ss

greatest-IsLast :
    (v : String) (ss : List Service)
    → (before (greatest v ss) v ≡ false) × IsLast (greatest v ss) ss
greatest-IsLast v [] = unfold greatest in (before-irreflexive v, tt)
greatest-IsLast v (s ∷ ss) = elim (Bool-cases (before v s.version)) [
  | inl e ↦
      let (here, rest) = greatest-IsLast s.version ss in
      subst (λ g. (before g v ≡ false) × ((before g s.version ≡ false) × IsLast g ss))
        (sym (ground (arith, greatest-cons v s ss, e)))
        (
          before_trans v s.version (greatest s.version ss) (before_asym v s.version e) here,
          (here, rest),
        )
  | inr e ↦
      let (here, rest) = greatest-IsLast v ss in
      subst (λ g. (before g v ≡ false) × ((before g s.version ≡ false) × IsLast g ss))
        (sym (ground (arith, greatest-cons v s ss, e)))
        (here, (before_trans s.version v (greatest v ss) e here, rest))
]

-- The greatest is the first version or that of a service.
greatest_met :
    (v : String) (ss : List Service)
    → (greatest v ss == v || any (λ (s : Service). s.version == greatest v ss) ss) ≡ true
greatest_met v [] = unfold greatest in ground (arith, eq_iff v v)
greatest_met v (s ∷ ss) = elim (Bool-cases (before v s.version)) [
  | inl e ↦ ground (
    arith,
    e,
    greatest-cons v s ss,
    greatest_met s.version ss,
    eq_iff s.version (greatest s.version ss),
    eq_iff (greatest s.version ss) s.version,
  )
  | inr e ↦ ground (arith, e, greatest-cons v s ss, greatest_met v ss)
]

keep-is_nil : (p : Service → Bool) (ss : List Service) → is_nil (keep p ss) ≡ not (any p ss)
keep-is_nil p [] = refl
keep-is_nil p (s ∷ ss) = ground (arith, keep-is_nil p ss)

filter_latest-greatest :
    (s : Service) (ss : List Service)
    → filter_latest (s ∷ ss) ≡ keep (λ (x : Service). x.version == greatest s.version ss) (s ∷ ss)
unfolding filter_latest
filter_latest-greatest s [] = unfold greatest in ground (arith, eq_iff s.version s.version)
filter_latest-greatest s (t ∷ ss) = refl

-- Of a list with services the filter leaves at least one, and those of one version, which no version of
-- the list stands behind in the order of strings.
pub filter_latest_lem :
    (s : Service) (ss : List Service)
    → (gt : String) × (filter_latest (s ∷ ss) ≡ keep (λ (x : Service). x.version == gt) (s ∷ ss))
      × (is_nil (filter_latest (s ∷ ss)) ≡ false)
      × IsLast gt (s ∷ ss)
filter_latest_lem s ss =
    let gt = greatest s.version ss in
    let same = filter_latest-greatest s ss in
    (
      gt,
      same,
      ap is_nil same
          ∙ ground (
            arith,
            keep-is_nil (λ (x : Service). x.version == gt) (s ∷ ss),
            greatest_met s.version ss,
            eq_iff gt s.version,
            eq_iff s.version gt,
          ),
      greatest-IsLast s.version ss,
    )
