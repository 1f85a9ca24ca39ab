-- ===== src/Registry/Multi/AnyOrder.antt =====
-- Proofs about registry/multi/multi.go: what does not depend on the order of the answers.
use mathlib.Core.List.{Perm, perm_middle, Mem, mem-cons_self}
use mathlib.Core.List.Perm
use go_plugins.Prelude.{
  List, [], ◌∷◌, ◌++◌, Option, none, some, ◌≡◌, refl, sym, subst, append-nil, append_assoc, arith,
  ◌⊎◌, inl, inr, is_nil, false,
}
use go_plugins.Registry.{Service}
use go_plugins.Registry.Multi.{
  Fault, not_found, other, Answer, Collected, nothing, absorb, absorb_found, Run, done, next,
  first_error, Reply, missing, failed, found, get_reply,
}

-- What a function that reads an answer gives for all of them.
abbrev pub all_of : {A : Type 0} → (Answer → List A) → List Answer → List A
all_of f [] = []
all_of f (a ∷ rest) = f a ++ all_of f rest

append_swap : {A : Type 0} (xs ys : List A) → Perm (xs ++ ys) (ys ++ xs)
append_swap [] ys = subst (λ z. Perm ys z) (sym (append-nil ys)) (Perm.refl ys)
append_swap (x ∷ xs) ys =
    Perm.trans (Perm.cons x (append_swap xs ys)) (Perm.symm (perm_middle ys xs))

append_swap_left : {A : Type 0} (xs ys zs : List A) → Perm (xs ++ (ys ++ zs)) (ys ++ (xs ++ zs))
append_swap_left xs ys zs =
    subst (λ w. Perm w (ys ++ (xs ++ zs))) (append_assoc xs ys zs)
      (subst (λ w. Perm ((xs ++ ys) ++ zs) w) (append_assoc ys xs zs)
        (Perm.append_right zs (append_swap xs ys)))

all_of-middle :
    {A : Type 0} (f : Answer → List A) (xs : List Answer) (a : Answer) (ys : List Answer)
    → Perm (f a ++ all_of f (xs ++ ys)) (all_of f (xs ++ a ∷ ys))
all_of-middle f [] a ys = Perm.refl (f a ++ all_of f ys)
all_of-middle f (x ∷ xs) a ys =
    Perm.trans (append_swap_left (f a) (f x) (all_of f (xs ++ ys)))
      (Perm.append_left (f x) (all_of-middle f xs a ys))

one_step :
    {A : Type 0} (f : Answer → List A) (all xs : List Answer) (a : Answer) (ys : List Answer)
    (old new end : List A)
    → all ≡ xs ++ a ∷ ys
    → new ≡ old ++ f a
    → Perm end (new ++ all_of f (xs ++ ys))
    → Perm end (old ++ all_of f all)
one_step f all xs a ys old new end e n p =
    subst (λ z. Perm end (old ++ all_of f z)) (sym e)
      (Perm.trans p (
        subst (λ z. Perm (z ++ all_of f (xs ++ ys)) (old ++ all_of f (xs ++ a ∷ ys))) (sym n)
          (subst (λ z. Perm z (old ++ all_of f (xs ++ a ∷ ys)))
            (sym (append_assoc old (f a) (all_of f (xs ++ ys))))
            (Perm.append_left old (all_of-middle f xs a ys)))))

-- A step that appends what `f` reads and what `g` reads.
module _ (take : Answer → Collected → Collected) (f : Answer → List Service)
    (g : Answer → List Fault)
    (services : (a : Answer) (c : Collected) → (take a c).svcs ≡ c.svcs ++ f a)
    (faults : (a : Answer) (c : Collected) → (take a c).errs ≡ c.errs ++ g a) where
  collects :
      {all : List Answer} {c d : Collected}
      → Run take all c d
      → Perm d.svcs (c.svcs ++ all_of f all) × Perm d.errs (c.errs ++ all_of g all)
  collects {c = c} done = (
    subst (λ z. Perm c.svcs z) (sym (append-nil c.svcs)) (Perm.refl c.svcs),
    subst (λ z. Perm c.errs z) (sym (append-nil c.errs)) (Perm.refl c.errs),
  )
  collects {all} {c = c} {d = d} (next xs a ys e r) =
      let (s, t) = collects r in
      (
        one_step f all xs a ys c.svcs (take a c).svcs d.svcs e (services a c) s,
        one_step g all xs a ys c.errs (take a c).errs d.errs e (faults a c) t,
      )

-- The services, and the errors, that an answer adds to those of `GetService`.
abbrev pub found_of : Answer → List Service
found_of a = elim a.fault [ none ↦ a.services | some not_found ↦ a.services | some (other e) ↦ [] ]

abbrev pub faults_of : Answer → List Fault
faults_of a = elim a.fault [ none ↦ [] | some not_found ↦ [] | some (other e) ↦ other e ∷ [] ]

-- What a reply says of the answers, in whatever order they came.
abbrev pub Agrees : Reply → List Answer → Type 0
Agrees missing all = (all_of faults_of all ≡ []) × (all_of found_of all ≡ [])
Agrees (failed e) all = Mem e (all_of faults_of all)
Agrees (found ss) all =
    (all_of faults_of all ≡ []) × (is_nil ss ≡ false) × Perm ss (all_of found_of all)

steps :
    (a : Answer) (c : Collected) (x : Option Fault)
    → a.fault ≡ x
    → ((absorb_found a c).svcs ≡ c.svcs ++ found_of a)
      × ((absorb_found a c).errs ≡ c.errs ++ faults_of a)
unfolding absorb_found
steps a c none e = (ground (arith, e), ground (arith, e, append-nil c.errs))
steps a c (some not_found) e = (ground (arith, e), ground (arith, e, append-nil c.errs))
steps a c (some (other n)) e = (ground (arith, e, append-nil c.svcs), ground (arith, e))

agree :
    (d : Collected) (all : List Answer) (errs : List Fault) (svcs : List Service)
    → d.errs ≡ errs
    → d.svcs ≡ svcs
    → Perm errs (all_of faults_of all)
    → Perm svcs (all_of found_of all)
    → Agrees (get_reply d) all
unfolding get_reply
agree d all [] [] e s p q = rw (e, s) (sym (Perm.nil-eq p), sym (Perm.nil-eq q))
agree d all [] (x ∷ xs) e s p q = rw (e, s) (sym (Perm.nil-eq p), refl, q)
agree d all (x ∷ xs) svcs e s p q = rw e ((Perm.mem_iff p).0 (mem-cons_self {a = x} {l = xs}))

-- Whatever the order in which the registries answer, `GetService` fails with the error of one of them if
-- one has an error, where a service that is not found is none; else it returns the services of all of
-- them, in some order, and at least one; or ErrNotFound where there are none.
pub Agrees-get_reply :
    (all : List Answer) (d : Collected) → Run absorb_found all nothing d → Agrees (get_reply d) all
Agrees-get_reply all d r =
    let (s, t) =
      collects absorb_found found_of faults_of (λ a c. (steps a c a.fault refl).0)
        (λ a c. (steps a c a.fault refl).1) r in
    agree d all d.errs d.svcs refl refl t s

abbrev errors_of : Answer → List Fault
errors_of a = elim a.fault [ none ↦ [] | some e ↦ e ∷ [] ]

abbrev listed_of : Answer → List Service
listed_of a = elim a.fault [ none ↦ a.services | some e ↦ [] ]

absorb_steps :
    (a : Answer) (c : Collected) (x : Option Fault)
    → a.fault ≡ x
    → ((absorb a c).svcs ≡ c.svcs ++ listed_of a) × ((absorb a c).errs ≡ c.errs ++ errors_of a)
unfolding absorb
absorb_steps a c none e = (ground (arith, e), ground (arith, e, append-nil c.errs))
absorb_steps a c (some n) e = (ground (arith, e, append-nil c.svcs), ground (arith, e))

first :
    (d : Collected) (es errs : List Fault)
    → d.errs ≡ es
    → Perm es errs
    → ((first_error d ≡ none) × (errs ≡ [])) ⊎ ((e : Fault) × (first_error d ≡ some e) × Mem e errs)
unfolding first_error
first d [] errs e p = inl (ground (arith, e), sym (Perm.nil-eq p))
first d (x ∷ es) errs e p =
    inr (x, ground (arith, e), (Perm.mem_iff p).0 (mem-cons_self {a = x} {l = es}))

-- Whatever the order of the answers, `Register` and `Deregister` return no error if no registry has one,
-- and else the error of one of them.
pub register_any_order :
    (all : List Answer) (d : Collected)
    → Run absorb all nothing d
    → ((first_error d ≡ none) × (all_of errors_of all ≡ []))
      ⊎ ((e : Fault) × (first_error d ≡ some e) × Mem e (all_of errors_of all))
register_any_order all d r =
    let (s, t) =
      collects absorb listed_of errors_of (λ a c. (absorb_steps a c a.fault refl).0)
        (λ a c. (absorb_steps a c a.fault refl).1) r in
    first d d.errs (all_of errors_of all) refl t
