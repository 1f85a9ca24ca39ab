-- ===== src/Micro/Router/Choice.antt =====
-- Proofs about micro/router: which route answers a request.
use Prim.Native.Char.{code}
use Prim.Native.String.{◌++◌ as str_append}
use text.Mathlib.TextEquality.{Char-path}
use text.Mathlib.TextLemmas.{nil-append, cons-append}
use go_plugins.Prelude.{
  ℕ, String, ◌≡◌, refl, sym, ap, subst, ◌∙◌, true, false, List, [], ◌∷◌, none, some, ◌==◌,
  string_eq, nat_eq, nat_beq_iff, All, arith, Bool-cases, Option-cases, inl, inr, ◌⊎◌, ◌↔◌,
}
use go_plugins.Micro.Router.{
  Floats, ltz, pos, negsuc, less, Route, Request, strip, replace_first, fits, proxied,
  default_handler, match, write_route, choose, handle, run, Event, scanned, unscannable, next_error,
  update,
}

strip-append : (p s : String) → strip p (str_append p s) ≡ some s
unfolding strip
strip-append String.[] s = ground (arith, nil-append s)
strip-append (String.◌∷◌ c p) s =
    ground (arith, strip-append p s, cons-append c p s, nat_beq_iff (code c) (code c))

strip-some : (p s t : String) → strip p s ≡ some t → s ≡ str_append p t
unfolding strip
strip-some String.[] s t h = ground (arith, h, nil-append t)
strip-some (String.◌∷◌ c p) String.[] t h = absurd (ground (arith, h))
strip-some (String.◌∷◌ c p) (String.◌∷◌ d s) t h = elim (Bool-cases (code c == code d)) [
  | inl e ↦
      let same : d ≡ c = Char-path d c (ground (arith, e)) in
      let rest : s ≡ str_append p t = strip-some p s t (ground (arith, e, h)) in
      (λ i. String.◌∷◌ (same i) (rest i)) ∙ sym (cons-append c p t)
  | inr e ↦ absurd (ground (arith, h, e))
]

replace_first-append :
    (old new s : String) → replace_first old new (str_append old s) ≡ str_append new s
unfolding replace_first
replace_first-append String.[] new String.[] =
    ground (arith, strip-append String.[] String.[], nil-append String.[])
replace_first-append String.[] new (String.◌∷◌ c s) =
    ground (arith, nil-append (String.◌∷◌ c s), strip-append String.[] (String.◌∷◌ c s))
replace_first-append (String.◌∷◌ c old) new s =
    ground (arith, cons-append c old s, strip-append (String.◌∷◌ c old) s)

module _ (f : Floats) where
  -- The routes stand in the order of their priorities.
  abbrev pub IsSorted : List (Route f.F) → Type 0
  IsSorted [] = Unit {0}
  IsSorted (r ∷ rs) = All (λ (s : Route f.F). less s r ≡ false) rs × IsSorted rs

  abbrev pub In : Route f.F → List (Route f.F) → Type 0
  In r [] = ⊥
  In r (s ∷ rs) = (r ≡ s) ⊎ In r rs

  -- The route has a weight, and no number that is drawn is above it.
  abbrev pub IsSure : (ℕ → f.F) → Route f.F → Type 0
  IsSure draws r = (f.is_zero r.weight ≡ false) × ((n : ℕ) → f.below r.weight (draws n) ≡ false)

  match_sure :
      (draws : ℕ → f.F) (r : Route f.F) (q : Request) (n : ℕ)
      → IsSure draws r
      → (match f draws r q n).0 ≡ fits r.request q
  unfolding match
  match_sure draws r q n (w, d) = ground (arith, w, d n)

  match-fits :
      (draws : ℕ → f.F) (r : Route f.F) (q : Request) (n : ℕ)
      → (match f draws r q n).0 ≡ true
      → fits r.request q ≡ true
  unfolding match
  match-fits draws r q n h = elim (Bool-cases (fits r.request q)) [
    | inl e ↦ e
    | inr e ↦ absurd (ground (arith, e, h))
  ]

  -- The route that is chosen is one of the table, and fits the request.
  choose-fits :
      (draws : ℕ → f.F) (rs : List (Route f.F)) (q : Request) (n : ℕ) (r : Route f.F)
      → choose f draws rs q n ≡ some r
      → In r rs × (fits r.request q ≡ true)
  unfolding choose
  choose-fits draws [] q n r h = absurd (ground (arith, h))
  choose-fits draws (x ∷ rs) q n r h = elim (Bool-cases (match f draws x q n).0) [
    | inl e ↦
        let same : x ≡ r = ground (arith, e, h) in
        (inl (sym same), subst (λ y. fits y.request q ≡ true) same (match-fits draws x q n e))
    | inr e ↦
        let (there, fit) =
          choose-fits draws rs q (match f draws x q n).1 r (ground (arith, e, h)) in
        (inr there, fit)
  ]

  less-irreflexive : (r : Route f.F) → less r r ≡ false
  less-irreflexive r = elim r.priority as (λ p. ltz p p ≡ false) [
    | pos a ↦ ground arith
    | negsuc a ↦ ground arith
  ]

  first-least :
      (r r0 : Route f.F) (rs : List (Route f.F))
      → All (λ (s : Route f.F). less s r ≡ false) rs
      → In r0 (r ∷ rs)
      → less r0 r ≡ false
  first-least r r0 rs h (inl e) = subst (λ x. less x r ≡ false) (sym e) (less-irreflexive r)
  first-least r r0 [] h (inr m) = absurd m
  first-least r r0 (s ∷ rs) h (inr (inl e)) = subst (λ x. less x r ≡ false) (sym e) h.0
  first-least r r0 (s ∷ rs) h (inr (inr m)) = first-least r r0 rs h.1 (inr m)

  choose_sure :
      (draws : ℕ → f.F) (rs : List (Route f.F)) (q : Request) (n : ℕ) (r0 : Route f.F)
      → IsSorted rs
      → In r0 rs
      → fits r0.request q ≡ true
      → IsSure draws r0
      → (r : Route f.F) × (choose f draws rs q n ≡ some r) × (less r0 r ≡ false)
  unfolding choose
  choose_sure draws [] q n r0 sorted there fit sure = absurd there
  choose_sure draws (x ∷ rs) q n r0 sorted there fit sure =
      elim (Bool-cases (match f draws x q n).0) [
        | inl e ↦ (x, ground (arith, e), first-least x r0 rs sorted.0 there)
        | inr e ↦ elim there [
          | inl same ↦ absurd (
              ground (
                arith,
                e,
                match_sure draws r0 q n sure,
                fit,
                ap (λ y. (match f draws y q n).0) same,
              ))
          | inr m ↦
              let (r, c, least) =
                choose_sure draws rs q (match f draws x q n).1 r0 sorted.1 m fit sure in
              (r, ground (arith, e, c), least)
        ]
      ]

  -- The last table that could be scanned.
  abbrev pub last_scanned : List (Event f) → List (Route f.F) → List (Route f.F)
  last_scanned [] rs = rs
  last_scanned (scanned x ∷ es) rs = last_scanned es x
  last_scanned (unscannable ∷ es) rs = last_scanned es rs
  last_scanned (next_error ∷ es) rs = last_scanned es rs

  run_last :
      (sort : List (Route f.F) → List (Route f.F)) (es : List (Event f)) (rs : List (Route f.F))
      → run f sort es (sort rs) ≡ sort (last_scanned es rs)
  unfolding run update
  run_last sort [] rs = refl
  run_last sort (scanned x ∷ es) rs = run_last sort es x
  run_last sort (unscannable ∷ es) rs = run_last sort es rs
  run_last sort (next_error ∷ es) rs = run_last sort es rs

  -- A router has the table `rs`, and its watcher has given some tables, values that could not be scanned
  -- and errors. If `sort.Sort` sorts by Less the last table that could be scanned, with the same routes,
  -- then a request that fits a route whose weight never fails is answered: by a route of that table that
  -- fits it, and that no such route comes before.
  pub handle-run :
      (sort : List (Route f.F) → List (Route f.F)) (es : List (Event f)) (rs : List (Route f.F))
      → (draws : ℕ → f.F) (q : Request) (n : ℕ) (r0 : Route f.F)
      → let table = last_scanned es rs in
        IsSorted (sort table)
        → ((r : Route f.F) → In r (sort table) ↔ In r table)
        → In r0 table
        → fits r0.request q ≡ true
        → IsSure draws r0
        → (r : Route f.F) × (handle f draws (run f sort es (sort rs)) q n ≡ write_route f r q)
          × In r table
          × (fits r.request q ≡ true)
          × (less r0 r ≡ false)
  unfolding handle
  handle-run sort es rs draws q n r0 sorted same there fit sure =
      let table = sort (last_scanned es rs) in
      let (r, c, least) = choose_sure draws table q n r0 sorted ((same r0).1 there) fit sure in
      let (m, fits_too) = choose-fits draws table q n r c in
      (r, ground (arith, run_last sort es rs, c), (same r).0 m, fits_too, least)

  choose-none :
      (draws : ℕ → f.F) (rs : List (Route f.F)) (q : Request) (n : ℕ)
      → All (λ (r : Route f.F). fits r.request q ≡ false) rs
      → choose f draws rs q n ≡ none
  unfolding choose match
  choose-none draws [] q n h = refl
  choose-none draws (r ∷ rs) q n h = ground (arith, h.0, choose-none draws rs q n h.1)

  -- A request that fits no route of the table is left to the default handler.
  pub handle_default :
      (draws : ℕ → f.F) (rs : List (Route f.F)) (q : Request) (n : ℕ)
      → All (λ (r : Route f.F). fits r.request q ≡ false) rs
      → handle f draws rs q n ≡ default_handler ∷ []
  unfolding handle
  handle_default draws rs q n h = ground (arith, choose-none draws rs q n h)

  fits-path :
      (r : Route f.F) (q : Request)
      → fits r.request q ≡ true
      → (rest : String) × (q.path ≡ str_append r.request.path rest)
  unfolding fits
  fits-path r q h = elim (Option-cases (strip r.request.path q.path)) [
    | inl e ↦ absurd (ground (arith, e, h))
    | inr (rest, e) ↦ (rest, strip-some r.request.path q.path rest e)
  ]

  -- A request that is answered by a proxy route goes to the host and with the scheme of the proxy; its path
  -- begins with the path of the route, in place of which the proxy's stands, and what follows is as it was.
  pub handle_proxy :
      (draws : ℕ → f.F) (rs : List (Route f.F)) (q : Request) (n : ℕ) (r : Route f.F)
      → choose f draws rs q n ≡ some r
      → (r.kind == "proxy") ≡ true
      → (rest : String) × (q.path ≡ str_append r.request.path rest)
        × (handle f draws rs q n
            ≡ proxied r.proxy_url.scheme r.proxy_url.host
                (str_append r.proxy_url.path rest)
                r.insecure
              ∷ [])
  unfolding handle write_route
  handle_proxy draws rs q n r c k =
      let (rest, e) = fits-path r q (choose-fits draws rs q n r c).1 in
      let path =
        ap (λ x. replace_first r.request.path r.proxy_url.path x) e
        ∙ replace_first-append r.request.path r.proxy_url.path rest in
      (rest, e, ground (arith, c, k, path))
