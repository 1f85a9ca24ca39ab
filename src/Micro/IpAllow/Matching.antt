-- ===== src/Micro/IpAllow/Matching.antt =====
-- Proofs about micro/ip_allow: whom a list of addresses and networks lets in.
use go_plugins.Prelude.{
  String, ◌≡◌, refl, sym, ap, subst, ◌∙◌, Bool, true, false, ◌||◌, List, [], ◌∷◌, none, some, ◌==◌,
  string_eq, nat_eq, if◌then◌else◌, or_else, any, arith, eq_iff, Option-cases, Bool-cases, inl, inr,
}
use go_plugins.Prelude.Dict.{Dict, lookup, insert, lookup-insert}
use go_plugins.Micro.IpAllow.{
  Ips, slashes, Allow, load_one, load, matches, forbidden, served, handle, empty,
}

module _ (p : Ips) (prints : (m n : p.Network) → p.show_network m ≡ p.show_network n → m ≡ n) where
  -- An entry lets an address in: as its text, or as a network that contains it.
  unfoldable pub lets_in : String → String → Bool
  lets_in ip entry =
      let nip = p.parse_ip ip in
      if slashes entry == 0
      then entry == p.show_ip nip
      else elim (p.parse_cidr entry) [ none ↦ false | some n ↦ p.contains n nip ]

  -- The networks stand under their texts.
  abbrev IsKeyed : Dict String p.Network → Type 0
  IsKeyed [] = Unit {0}
  IsKeyed ((k, n) ∷ m) = (k ≡ p.show_network n) × IsKeyed m

  insert-IsKeyed :
      (n : p.Network) (m : Dict String p.Network)
      → IsKeyed m
      → IsKeyed (insert (p.show_network n) n m)
  unfolding insert
  insert-IsKeyed n [] h = (refl, tt)
  insert-IsKeyed n ((k, x) ∷ m) h = elim (Bool-cases (k == p.show_network n)) [
    | inl e ↦ rw e ((eq_iff k (p.show_network n)).0 e, h.1)
    | inr e ↦ rw e (h.0, insert-IsKeyed n m h.1)
  ]

  any-insert :
      (q : p.Network → Bool) (n : p.Network) (m : Dict String p.Network)
      → IsKeyed m
      → any (λ (kv : String × p.Network). q kv.1) (insert (p.show_network n) n m)
        ≡ (any (λ (kv : String × p.Network). q kv.1) m || q n)
  unfolding insert
  any-insert q n [] h = ground arith
  any-insert q n ((k, x) ∷ m) h = elim (Bool-cases (k == p.show_network n)) [
    | inl e ↦ ground (arith, e, ap q (prints x n (sym h.0 ∙ (eq_iff k (p.show_network n)).0 e)))
    | inr e ↦ ground (arith, e, any-insert q n m h.1)
  ]

  load_one_lem :
      (ip entry : String) (w w' : Allow p)
      → IsKeyed w.cidrs
      → load_one p entry w ≡ some w'
      → IsKeyed w'.cidrs × (matches p ip w' ≡ (matches p ip w || lets_in ip entry))
  unfolding load_one matches lets_in
  load_one_lem ip entry w w' h l = elim (Bool-cases (slashes entry == 0)) [
    | inl z ↦ (
      subst IsKeyed (ground (arith, z, l)) h,
      ground (arith, z, l, lookup-insert entry (p.show_ip (p.parse_ip ip)) true w.ips),
    )
    | inr z ↦ elim (Bool-cases (slashes entry == 1)) [
      | inr o ↦ absurd (ground (arith, z, o, l))
      | inl o ↦ elim (Option-cases (p.parse_cidr entry)) [
        | inl c ↦ absurd (ground (arith, z, o, c, l))
        | inr (n, c) ↦ (
          subst IsKeyed (ground (arith, z, o, c, l)) (insert-IsKeyed n w.cidrs h),
          ground (arith, z, o, c, l, any-insert (λ x. p.contains x (p.parse_ip ip)) n w.cidrs h),
        )
      ]
    ]
  ]

  matches-empty : (ip : String) → matches p ip (empty p) ≡ false
  unfolding matches lookup
  matches-empty ip = refl

  load_lem :
      (ip : String) (entries : List String) (w w' : Allow p)
      → IsKeyed w.cidrs
      → load p entries w ≡ some w'
      → matches p ip w' ≡ (matches p ip w || any (lets_in ip) entries)
  unfolding load
  load_lem ip [] w w' h l = ground (arith, ap (λ o. matches p ip (or_else o w)) l)
  load_lem ip (entry ∷ entries) w w' h l = elim (Option-cases (load_one p entry w)) [
    | inl e ↦ absurd (ground (arith, e, l))
    | inr (v, e) ↦
        let (keyed, one) = load_one_lem ip entry w v h e in
        ground (arith, one, load_lem ip entries v w' keyed (ground (arith, e, l)))
  ]

  -- If networks are told apart by their texts, and the list of addresses and networks can be loaded, then
  -- the handler serves a request when its remote address has no port to split off, or when an entry of the
  -- list lets the address in: as the text that package net gives it, or as a network that contains it. It
  -- refuses every other request.
  pub handle-load :
      (entries : List String) (w : Allow p) (addr : String)
      → load p entries (empty p) ≡ some w
      → handle p addr w ≡ elim (p.split_host_port addr) [
        | none ↦ served
        | some ip ↦ if any (lets_in ip) entries then served else forbidden
      ]
  unfolding handle
  handle-load entries w addr l = elim (Option-cases (p.split_host_port addr)) [
    | inl e ↦ ground (arith, e)
    | inr (ip, e) ↦ ground (arith, e, load_lem ip entries (empty p) w tt l, matches-empty ip)
  ]
