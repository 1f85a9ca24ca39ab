-- ===== src/Prelude/Kept.antt =====
-- Lists of what a test keeps.
use mathlib.Core.List.{Perm, perm_middle}
use mathlib.Core.List.Perm
use go_plugins.Prelude.{
  ◌≡◌, refl, sym, subst, Bool, true, false, not, ◌&&◌, List, [], ◌∷◌, ◌++◌, arith, keep, All,
  Bool-cases, inl, inr,
}

module _ {ℓ} {A : Type ℓ} where
  pub keep_cong : (p q : A → Bool) (xs : List A) → All (λ x. p x ≡ q x) xs → keep p xs ≡ keep q xs
  keep_cong p q [] h = refl
  keep_cong p q (x ∷ xs) h = ground (arith, keep_cong p q xs h.1)

  pub keep-keep : (p q : A → Bool) (xs : List A) → keep p (keep q xs) ≡ keep (λ x. q x && p x) xs
  keep-keep p q [] = refl
  keep-keep p q (x ∷ xs) = ground (arith, keep-keep p q xs)

  pub keep-All : (p : A → Bool) (xs : List A) → All (λ x. p x ≡ true) xs → keep p xs ≡ xs
  keep-All p [] h = refl
  keep-All p (x ∷ xs) h = ground (arith, keep-All p xs h.1)

  pub All-both {κ} :
      {P Q R : A → Type κ} (xs : List A)
      → All P xs
      → All Q xs
      → ((x : A) → P x → Q x → R x)
      → All R xs
  All-both [] hp hq f = tt
  All-both (x ∷ xs) hp hq f = (f x hp.0 hq.0, All-both xs hp.1 hq.1 f)

  halves_true :
      (p : A → Bool) (x : A) (xs : List A)
      → p x ≡ true
      → keep p (x ∷ xs) ++ keep (λ y. not (p y)) (x ∷ xs)
        ≡ x ∷ keep p xs ++ keep (λ y. not (p y)) xs
  halves_true p x xs e = ground arith

  halves_false :
      (p : A → Bool) (x : A) (xs : List A)
      → p x ≡ false
      → keep p (x ∷ xs) ++ keep (λ y. not (p y)) (x ∷ xs)
        ≡ keep p xs ++ x ∷ keep (λ y. not (p y)) xs
  halves_false p x xs e = ground arith

  -- The two halves of a test are a permutation of the list.
  pub keep-perm : (p : A → Bool) (xs : List A) → Perm (keep p xs ++ keep (λ x. not (p x)) xs) xs
  keep-perm p [] = Perm.nil
  keep-perm p (x ∷ xs) = elim (Bool-cases (p x)) [
    | inl e ↦
        subst (λ l. Perm l (x ∷ xs)) (sym (halves_true p x xs e)) (Perm.cons x (keep-perm p xs))
    | inr e ↦
        subst (λ l. Perm l (x ∷ xs)) (sym (halves_false p x xs e))
          (Perm.trans (perm_middle (keep p xs) (keep (λ y. not (p y)) xs))
            (Perm.cons x (keep-perm p xs)))
  ]
