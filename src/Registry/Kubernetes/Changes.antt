-- ===== src/Registry/Kubernetes/Changes.antt =====
-- Proofs about registry/kubernetes/watcher.go: which results an event has, and which pod it is compared with.
use go_plugins.Prelude.{
  Bool, String, ◌≡◌, refl, any, sym, subst, true, false, not, ◌&&◌, ◌||◌, List, [], ◌∷◌, ◌++◌,
  Option, none, some, ◌==◌, string_eq, nat_eq, if◌then◌else◌, map, All, is_some, arith,
  Option-cases, Bool-cases, inl, inr, eq_iff, ◌⊎◌,
}
use go_plugins.Prelude.Dict.{lookup}
use go_plugins.Registry.{Service}
use go_plugins.Registry.Kubernetes.Pods.{Ref, Strings, Json, is_service_key}
use go_plugins.Registry.Kubernetes.Watch.{
  update, create, delete, Result, identical, present, ignored, absent,
}

abbrev pub In : Result → List Result → Type 0
In x [] = ⊥
In x (y ∷ ys) = (x ≡ y) ⊎ In x ys

pub In-append_right : (x : Result) (xs ys : List Result) → In x ys → In x (xs ++ ys)
In-append_right x [] ys h = h
In-append_right x (y ∷ xs) ys h = inr (In-append_right x xs ys h)

-- No service annotation is nil.
abbrev pub HasNoNil : Strings → Type 0
HasNoNil = All (λ (kv : String × Option Ref). (is_service_key kv.0 && not (is_some kv.1)) ≡ false)

-- The deletes of the second loop, where it does not panic.
unfoldable pub gone : Json → Strings → Strings → List Result
gone j ann [] = []
gone j ann ((ak, none) ∷ cache) = gone j ann cache
gone j ann ((ak, some r) ∷ cache) =
    let rest = gone j ann cache in
    if ignored ak ann || not (is_service_key ak) then rest else elim (j.unmarshal r.text) [
      | none ↦ rest
      | some s ↦ record { action = delete; service = s } ∷ rest
    ]

pub absent_lem :
    (j : Json) (ann cache : Strings) → HasNoNil cache → absent j ann cache ≡ some (gone j ann cache)
unfolding absent gone
absent_lem j ann [] h = refl
absent_lem j ann ((ak, none) ∷ cache) h = ground (arith, h.0, absent_lem j ann cache h.1)
absent_lem j ann ((ak, some r) ∷ cache) h = ground (arith, absent_lem j ann cache h.1)

In-gone_cons :
    (j : Json) (ann cache : Strings) (ak : String) (av : Option Ref) (x : Result)
    → In x (gone j ann cache)
    → In x (gone j ann ((ak, av) ∷ cache))
unfolding gone
In-gone_cons j ann cache ak none x h = h
In-gone_cons j ann cache ak (some r) x h =
    elim (Bool-cases (ignored ak ann || not (is_service_key ak))) [
      | inl e ↦ rw e h
      | inr e ↦ elim (Option-cases (j.unmarshal r.text)) [
        | inl f ↦ rw (e, f) h
        | inr (s, f) ↦ rw (e, f) (inr h)
      ]
    ]

gone-cons :
    (j : Json) (ann cache : Strings) (k : String) (r : Ref) (s : Option Service)
    → is_service_key k ≡ true
    → ignored k ann ≡ false
    → j.unmarshal r.text ≡ some s
    → gone j ann ((k, some r) ∷ cache) ≡ record { action = delete; service = s } ∷ gone j ann cache
unfolding gone
gone-cons j ann cache k r s key new u = ground (arith, key, new, u)

-- A cached service whose key the pod no longer has is deleted.
pub In-gone :
    (j : Json) (ann cache : Strings) (k : String) (r : Ref) (s : Option Service)
    → is_service_key k ≡ true
    → ignored k ann ≡ false
    → lookup k cache ≡ some (some r)
    → j.unmarshal r.text ≡ some s
    → In (record { action = delete; service = s }) (gone j ann cache)
unfolding lookup
In-gone j ann [] k r s key new l u = absurd (ground (arith, l))
In-gone j ann ((ak, av) ∷ cache) k r s key new l u =
    let x : Result = record { action = delete; service = s } in
    elim (Bool-cases (ak == k)) [
      | inl e ↦
          let same : (ak, av) ∷ cache ≡ (k, some r) ∷ cache = ground (arith, e, l, eq_iff ak k) in
          subst (λ c. In x (gone j ann c)) (sym same)
            (subst (In x) (sym (gone-cons j ann cache k r s key new u)) (inl refl))
      | inr e ↦
          In-gone_cons j ann cache ak av x
            (In-gone j ann cache k r s key new (ground (arith, l, e)) u)
    ]

-- There is an annotation under the key.
abbrev pub has_key : String → Strings → Bool
has_key k ann = any (λ (kv : String × Option Ref). kv.0 == k) ann

has_key_lem : (k : String) (ann : Strings) → is_some (lookup k ann) ≡ has_key k ann
unfolding lookup
has_key_lem k [] = refl
has_key_lem k ((j, v) ∷ ann) = ground (arith, has_key_lem k ann)

-- No annotation is the cached pointer itself.
abbrev pub IsFresh : Strings → Strings → Type 0
IsFresh ann cache =
    All
      (λ (kv : String × Option Ref).
        elim kv.1 [ none ↦ false | some r ↦ identical r (lookup kv.0 cache) ] ≡ false)
      ann

-- The services of the annotations that can be read, with their keys.
unfoldable pub readable : Json → Strings → List (String × Option Service)
readable j [] = []
readable j ((ak, none) ∷ ann) = readable j ann
readable j ((ak, some r) ∷ ann) =
    let rest = readable j ann in
    if not (is_service_key ak)
    then rest
    else elim (j.unmarshal r.text) [ none ↦ rest | some s ↦ (ak, s) ∷ rest ]

-- An update of a service whose key is cached, and else a creation.
abbrev pub news_of : Strings → String × Option Service → Result
news_of cache (k, s) = record { action = if has_key k cache then update else create; service = s }

pub present_lem :
    (j : Json) (ann cache : Strings)
    → IsFresh ann cache
    → present j ann cache ≡ map (news_of cache) (readable j ann)
unfolding present readable
present_lem j [] cache h = refl
present_lem j ((ak, none) ∷ ann) cache h = ground (arith, present_lem j ann cache h.1)
present_lem j ((ak, some r) ∷ ann) cache h =
    ground (arith, h.0, present_lem j ann cache h.1, has_key_lem ak cache)

pub IsFresh-nil : (ann : Strings) → IsFresh ann []
unfolding lookup
IsFresh-nil [] = tt
IsFresh-nil ((ak, none) ∷ ann) = (refl, IsFresh-nil ann)
IsFresh-nil ((ak, some r) ∷ ann) = (refl, IsFresh-nil ann)
