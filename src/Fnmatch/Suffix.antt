-- ===== src/Fnmatch/Suffix.antt =====
-- fnmatch: a pattern that starts with `*` and goes on with plain characters asks for a suffix.
use mathlib.Core.List.{reverse-cons, reverse-reverse}
use prunepytest.Prelude.{
  ℕ, ◌≡◌, refl, ◌∙◌, sym, ap, false, ◌||◌, ◌&&◌, List, [], ◌∷◌, ◌++◌, reverse, arith, inl, inr,
  Bool-cases, ◌==◌, eq_refl, list_eq, nat_eq,
}
use prunepytest.Text.{Text, starts_with, ends_with}
use prunepytest.Fnmatch.{Token, star, char, some_suffix, matches}

unfoldable pub chars : Text → List Token
chars [] = []
chars (x ∷ p) = char x ∷ chars p

matches-chars : (p s : Text) → matches (chars p) s ≡ (s == p)
unfolding matches chars list_eq
matches-chars [] [] = refl
matches-chars [] (x ∷ s) = refl
matches-chars (c ∷ p) [] = refl
matches-chars (c ∷ p) (x ∷ s) = ground (arith, matches-chars p s)

starts_with-append_one :
    (s p : Text) (x : ℕ) → starts_with (s ++ x ∷ []) p ≡ (starts_with s p || (s ++ x ∷ []) == p)
unfolding starts_with
starts_with-append_one [] [] x = refl
starts_with-append_one [] (y ∷ []) x = ground arith
starts_with-append_one [] (y ∷ z ∷ p) x = ground arith
starts_with-append_one (a ∷ s) [] x = refl
starts_with-append_one (a ∷ s) (y ∷ p) x = ground (arith, starts_with-append_one s p x)

reverse-eq : (s p : Text) → (reverse s == reverse p) ≡ (s == p)
reverse-eq s p = elim (Bool-cases (s == p)) [
  | inl e ↦ let q : s ≡ p = ground arith in rw q (eq_refl (reverse p) ∙ sym (eq_refl p))
  | inr e ↦ elim (Bool-cases (reverse s == reverse p)) [
    | inl h ↦
        let q : reverse s ≡ reverse p = ground arith in
        let same : s ≡ p = sym (reverse-reverse s) ∙ ap reverse q ∙ reverse-reverse p in
        absurd (ground (arith, same, e))
    | inr h ↦ h ∙ sym e
  ]
]

starts_with-nil : (r : Text) (y : ℕ) → starts_with [] (r ++ y ∷ []) ≡ false
unfolding starts_with
starts_with-nil [] y = refl
starts_with-nil (x ∷ r) y = refl

ends_with-nil : (p : Text) → ends_with [] p ≡ ([] == p)
unfolding ends_with list_eq starts_with
ends_with-nil [] = refl
ends_with-nil (y ∷ p) = ap (starts_with []) (reverse-cons y p) ∙ starts_with-nil (reverse p) y

pub ends_with-cons : (x : ℕ) (s p : Text) → ends_with (x ∷ s) p ≡ (ends_with s p || (x ∷ s) == p)
unfolding ends_with
ends_with-cons x s p =
    ap (λ r. starts_with r (reverse p)) (reverse-cons x s)
    ∙ starts_with-append_one (reverse s) (reverse p) x
    ∙ ap (λ r. starts_with (reverse s) (reverse p) || r == reverse p) (sym (reverse-cons x s))
    ∙ ap (λ b. starts_with (reverse s) (reverse p) || b) (reverse-eq (x ∷ s) p)

some_suffix-chars : (p s : Text) → some_suffix (matches (chars p)) s ≡ ends_with s p
unfolding some_suffix
some_suffix-chars p [] = matches-chars p [] ∙ sym (ends_with-nil p)
some_suffix-chars p (x ∷ s) =
    ground (arith, matches-chars p (x ∷ s), some_suffix-chars p s, ends_with-cons x s p)

-- `*` and plain characters: a suffix
pub matches-star : (p s : Text) → matches (star ∷ chars p) s ≡ ends_with s p
unfolding matches
matches-star p s = some_suffix-chars p s

-- Plain characters in front: a prefix, and then the rest of the pattern
pub matches-char :
    (c x : ℕ) (ts : List Token) (s : Text)
    → matches (char c ∷ ts) (x ∷ s) ≡ (c == x && matches ts s)
unfolding matches
matches-char c x ts s = refl
