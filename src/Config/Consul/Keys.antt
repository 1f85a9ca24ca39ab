-- ===== src/Config/Consul/Keys.antt =====
-- Where the tree holds what the keys say.
use go_plugins.Prelude.{
  String, ◌≡◌, ◌⊎◌, refl, sym, subst, ◌∙◌, Bool, true, false, ◌||◌, List, [], ◌∷◌, ◌++◌, Option,
  none, some, ◌==◌, string_eq, arith, Option-cases, Bool-cases, inl, inr, All,
}
use go_plugins.Config.Consul.{
  Value, plain, Fields, empty, Result, made, undecoded, panics, place, Decoder, Pair, path_of,
  split, read, add, add_all, make_map,
}
use go_plugins.Config.Consul.Paths.{apart, find_at, find_at-place, find_at-place-apart, place_below}

-- The parts of a key's path, the first and the rest.
abbrev pub first : String → Pair → String
first strip p = (split (path_of strip p.key)).0

abbrev pub rest : String → Pair → List String
rest strip p = (split (path_of strip p.key)).1

abbrev pub at_root : String → Pair → Bool
at_root strip p = path_of strip p.key == ""

module _ {J : Type 0} (d : Decoder J) (strip : String) where
  Result-cases : (r : Result J) → ((m : Fields J) × (r ≡ made m)) ⊎ ((r ≡ undecoded) ⊎ (r ≡ panics))
  Result-cases (made m) = inl (m, refl)
  Result-cases undecoded = inr (inl refl)
  Result-cases panics = inr (inr refl)

  -- A key that is skipped, or whose path and this one's do not lead through each other's ends.
  abbrev pub keeps : Pair → Pair → Bool
  keeps p r = at_root strip r || apart (first strip r) (rest strip r) (first strip p) (rest strip p)

  add_keeps :
      (p r : Pair) (m m' : Fields J)
      → keeps p r ≡ true
      → add d strip r m ≡ made m'
      → find_at (first strip p) (rest strip p) m' ≡ find_at (first strip p) (rest strip p) m
  unfolding add
  add_keeps p r m m' k h = elim (Bool-cases (at_root strip r)) [
    | inl z ↦ ground arith
    | inr z ↦ elim (Option-cases (read d r.value)) [
      | inl y ↦ absurd (ground arith)
      | inr (v, y) ↦ elim (Option-cases (place (first strip r) (rest strip r) v m)) [
        | inl x ↦ absurd (ground arith)
        | inr (n, x) ↦ ground (
          arith,
          find_at-place-apart (first strip r) (rest strip r) (first strip p) (rest strip p) v m n,
        )
      ]
    ]
  ]

  add_all_keeps :
      (p : Pair) (rs : List Pair) (m m' : Fields J)
      → All (λ r. keeps p r ≡ true) rs
      → add_all d strip rs m ≡ made m'
      → find_at (first strip p) (rest strip p) m' ≡ find_at (first strip p) (rest strip p) m
  unfolding add_all
  add_all_keeps p [] m m' k h = ground arith
  add_all_keeps p (r ∷ rs) m m' k h = elim (Result-cases (add d strip r m)) [
    | inl (n, x) ↦ ground (arith, add_keeps p r m n k.0 x, add_all_keeps p rs n m' k.1)
    | inr (inl x) ↦ absurd (ground arith)
    | inr (inr x) ↦ absurd (ground arith)
  ]

  add_lem :
      (p : Pair) (v : Value J) (m m' : Fields J)
      → at_root strip p ≡ false
      → read d p.value ≡ some (some v)
      → add d strip p m ≡ made m'
      → find_at (first strip p) (rest strip p) m' ≡ some v
  unfolding add
  add_lem p v m m' z y h = elim (Option-cases (place (first strip p) (rest strip p) (some v) m)) [
    | inl x ↦ absurd (ground arith)
    | inr (n, x) ↦ ground (arith, find_at-place (first strip p) (rest strip p) v m n x)
  ]

  add_all_lem :
      (before : List Pair) (p : Pair) (after : List Pair) (v : Value J) (m m' : Fields J)
      → at_root strip p ≡ false
      → read d p.value ≡ some (some v)
      → All (λ r. keeps p r ≡ true) after
      → add_all d strip (before ++ (p ∷ after)) m ≡ made m'
      → find_at (first strip p) (rest strip p) m' ≡ some v
  unfolding add_all
  add_all_lem [] p after v m m' z y k h = elim (Result-cases (add d strip p m)) [
    | inl (n, x) ↦ ground (arith, add_lem p v m n z y x, add_all_keeps p after n m' k)
    | inr (inl x) ↦ absurd (ground arith)
    | inr (inr x) ↦ absurd (ground arith)
  ]
  add_all_lem (b ∷ before) p after v m m' z y k h = elim (Result-cases (add d strip b m)) [
    | inl (n, x) ↦ add_all_lem before p after v n m' z y k (ground arith)
    | inr (inl x) ↦ absurd (ground arith)
    | inr (inr x) ↦ absurd (ground arith)
  ]

  -- When the map is made, every key with a value that was read, and a path that is not empty, is found
  -- in it along its path with that value, if no later key's path leads through its end or ends on its
  -- way.
  pub find_at-make_map :
      (before : List Pair) (p : Pair) (after : List Pair) (v : Value J) (m : Fields J)
      → at_root strip p ≡ false
      → read d p.value ≡ some (some v)
      → All (λ r. keeps p r ≡ true) after
      → make_map d (before ++ (p ∷ after)) strip ≡ made m
      → find_at (first strip p) (rest strip p) m ≡ some v
  unfolding make_map
  find_at-make_map before p after v m z y k h = add_all_lem before p after v empty m z y k h

  add_below :
      (r : Pair) (x : J) (w : Option (Value J)) (f e : String) (p q : List String) (m : Fields J)
      → at_root strip r ≡ false
      → split (path_of strip r.key) ≡ (f, p ++ (e ∷ q))
      → read d r.value ≡ some w
      → find_at f p m ≡ some (plain x)
      → add d strip r m ≡ panics
  unfolding add
  add_below r x w f e p q m z s y h =
      let stuck : place (first strip r) (rest strip r) w m ≡ none =
        subst (λ a. place a.0 a.1 w m ≡ none) (sym s) (place_below f p e q x w m h) in
      ground arith

  add-read :
      (p : Pair) (v : Option (Value J)) (m : Fields J)
      → at_root strip p ≡ false
      → read d p.value ≡ some v
      → ((n : Fields J) × (add d strip p m ≡ made n)) ⊎ (add d strip p m ≡ panics)
  unfolding add
  add-read p v m z y = elim (Option-cases (place (first strip p) (rest strip p) v m)) [
    | inl x ↦ inr (ground arith)
    | inr (n, x) ↦ inl (n, ground arith)
  ]

  add_all_below :
      (p r : Pair) (after : List Pair) (x : J) (w : Option (Value J)) (e : String) (q : List String)
      (m : Fields J)
      → at_root strip p ≡ false
      → read d p.value ≡ some (some (plain x))
      → at_root strip r ≡ false
      → split (path_of strip r.key) ≡ (first strip p, rest strip p ++ (e ∷ q))
      → read d r.value ≡ some w
      → add_all d strip (p ∷ r ∷ after) m ≡ panics
  unfolding add_all
  add_all_below p r after x w e q m zp yp zr s yr = elim (add-read p (some (plain x)) m zp yp) [
    | inl (n, h) ↦ ground (
      arith,
      add_below r x w (first strip p) e (rest strip p) q n zr s yr
          (add_lem p (plain x) m n zp yp h),
    )
    | inr h ↦ ground arith
  ]

  add_all-append :
      (ps rs : List Pair) (m m' : Fields J)
      → add_all d strip ps m ≡ made m'
      → add_all d strip (ps ++ rs) m ≡ add_all d strip rs m'
  unfolding add_all
  add_all-append [] rs m m' h = ground arith
  add_all-append (p ∷ ps) rs m m' h = elim (Result-cases (add d strip p m)) [
    | inl (n, x) ↦ ground (arith, add_all-append ps rs n m')
    | inr (inl x) ↦ absurd (ground arith)
    | inr (inr x) ↦ absurd (ground arith)
  ]

  -- After keys whose map is made, a key whose value is read as an array panics with the next key when
  -- that one's path goes on from the end of the first one's, and its value is empty or can be read;
  -- whatever keys follow.
  pub make_map_panics :
      (before : List Pair) (p r : Pair) (after : List Pair) (x : J) (w : Option (Value J))
      (e : String) (q : List String) (m : Fields J)
      → make_map d before strip ≡ made m
      → at_root strip p ≡ false
      → read d p.value ≡ some (some (plain x))
      → at_root strip r ≡ false
      → split (path_of strip r.key) ≡ (first strip p, rest strip p ++ (e ∷ q))
      → read d r.value ≡ some w
      → make_map d (before ++ (p ∷ r ∷ after)) strip ≡ panics
  unfolding make_map
  make_map_panics before p r after x w e q m b zp yp zr s yr =
      add_all-append before (p ∷ r ∷ after) empty m b
      ∙ add_all_below p r after x w e q m zp yp zr s yr
