-- ===== src/Config/Consul/Paths.antt =====
-- The tree along a path, and what a write leaves there.
use go_plugins.Prelude.{
  String, ◌≡◌, refl, sym, ap, subst, ◌∙◌, Bool, true, false, not, ◌||◌, List, [], ◌∷◌, ◌++◌, Option,
  none, some, ◌==◌, string_eq, if◌then◌else◌, arith, eq_iff, Option-cases, Bool-cases, inl, inr,
}
use go_plugins.Config.Consul.{Value, plain, dir, Fields, empty, field, find, set, dir_at, place}

-- Neither path leads through the other's end.
abbrev pub apart : String → List String → String → List String → Bool
apart d [] e q = not (d == e)
apart d (d' ∷ p) e [] = not (d == e)
apart d (d' ∷ p) e (e' ∷ q) = not (d == e) || apart d' p e' q

module _ {J : Type 0} where
  -- What the tree holds along a path with a first part.
  unfoldable pub find_at : String → List String → Fields J → Option (Value J)
  find_at d [] m = find d m
  find_at d (e ∷ p) m = elim (find d m) [
    | none ↦ none
    | some (plain x) ↦ none
    | some (dir m') ↦ find_at e p m'
  ]

  find-set :
      (k j : String) (v : Value J) (m : Fields J)
      → find j (set k v m) ≡ (if k == j then some v else find j m)
  unfolding find set
  find-set k j v empty = refl
  find-set k j v (field i w m) =
      ground (arith, find-set k j v m, eq_iff i k, eq_iff i j, eq_iff k j)

  pub find_at-place :
      (d : String) (p : List String) (v : Value J) (m m' : Fields J)
      → place d p (some v) m ≡ some m'
      → find_at d p m' ≡ some v
  unfolding place find_at
  find_at-place d [] v m m' h = ground (arith, find-set d d v m, eq_iff d d)
  find_at-place d (e ∷ p) v m m' h = elim (Option-cases (dir_at d m)) [
    | inl x ↦ absurd (ground arith)
    | inr (n, x) ↦ elim (Option-cases (place e p (some v) n)) [
      | inl y ↦ absurd (ground arith)
      | inr (n', y) ↦
          ground (arith, find-set d d (dir n') m, eq_iff d d, find_at-place e p v n n' y)
    ]
  ]

  abbrev none_yet : Fields J
  none_yet = empty

  find_at-empty : (e : String) (q : List String) → find_at e q none_yet ≡ none
  unfolding find_at find
  find_at-empty e [] = refl
  find_at-empty e (e' ∷ q) = refl

  -- A write under another key.
  find_at-set :
      (d e : String) (q : List String) (v : Value J) (m : Fields J)
      → (d == e) ≡ false
      → find_at e q (set d v m) ≡ find_at e q m
  unfolding find_at
  find_at-set d e [] v m a = ground (arith, find-set d e v m)
  find_at-set d e (e' ∷ q) v m a = ground (arith, find-set d e v m)

  -- Below a key: what is there is what the map of `dir_at` has.
  find_at-dir_at :
      (d e : String) (q : List String) (m n : Fields J)
      → dir_at d m ≡ some n
      → find_at d (e ∷ q) m ≡ find_at e q n
  unfolding dir_at find_at
  find_at-dir_at d e q m n h = elim (Option-cases (find d m)) [
    | inl x ↦ ground (arith, find_at-empty e q)
    | inr (plain j, x) ↦ absurd (ground arith)
    | inr (dir m', x) ↦ ground arith
  ]

  find_at-set_same :
      (d e : String) (q : List String) (n m : Fields J)
      → find_at d (e ∷ q) (set d (dir n) m) ≡ find_at e q n
  unfolding find_at
  find_at-set_same d e q n m = ground (arith, find-set d d (dir n) m, eq_iff d d)

  -- Under one key, a change in the map there that a path does not see.
  below :
      (d e : String) (q : List String) (d' : String) (p : List String) (n' n m : Fields J)
      → ((e' : String) (q' : List String)
          → apart d' p e' q' ≡ true
          → find_at e' q' n' ≡ find_at e' q' n)
      → apart d (d' ∷ p) e q ≡ true
      → dir_at d m ≡ some n
      → (d == e) ≡ true
      → find_at e q (set d (dir n') m) ≡ find_at e q m
  below d e [] d' p n' n m same a x w = absurd (ground arith)
  below d e (e' ∷ q) d' p n' n m same a x w =
      subst (λ k. find_at k (e' ∷ q) (set d (dir n') m) ≡ find_at k (e' ∷ q) m) ((eq_iff d e).0 w)
        (find_at-set_same d e' q n' m
          ∙ same e' q (ground arith)
          ∙ sym (find_at-dir_at d e' q m n x))

  pub find_at-place-apart :
      (d : String) (p : List String) (e : String) (q : List String) (v : Option (Value J))
      (m m' : Fields J)
      → apart d p e q ≡ true
      → place d p v m ≡ some m'
      → find_at e q m' ≡ find_at e q m
  unfolding place
  find_at-place-apart d [] e q none m m' a h = ground arith
  find_at-place-apart d [] e q (some v) m m' a h = ground (arith, find_at-set d e q v m)
  find_at-place-apart d (d' ∷ p) e q v m m' a h = elim (Option-cases (dir_at d m)) [
    | inl x ↦ absurd (ground arith)
    | inr (n, x) ↦ elim (Option-cases (place d' p v n)) [
      | inl y ↦ absurd (ground arith)
      | inr (n', y) ↦
          let now : set d (dir n') m ≡ m' = ground arith in
          elim (Bool-cases (d == e)) [
            | inr w ↦ ap (find_at e q) (sym now) ∙ find_at-set d e q (dir n') m w
            | inl w ↦
                ap (find_at e q) (sym now)
                ∙ below d e q d' p n' n m (λ e' q' b. find_at-place-apart d' p e' q' v n n' b y) a x
                    w
          ]
    ]
  ]

  -- Nothing is put below a value that is no map.
  pub place_below :
      (d : String) (p : List String) (e : String) (q : List String) (x : J) (v : Option (Value J))
      (m : Fields J)
      → find_at d p m ≡ some (plain x)
      → place d (p ++ (e ∷ q)) v m ≡ none
  unfolding place find_at dir_at
  place_below d [] e q x v m h = ground arith
  place_below d (d' ∷ p) e q x v m h = elim (Option-cases (find d m)) [
    | inl y ↦ absurd (ground arith)
    | inr (plain j, y) ↦ absurd (ground arith)
    | inr (dir n, y) ↦ ground (arith, place_below d' p e q x v n)
  ]
