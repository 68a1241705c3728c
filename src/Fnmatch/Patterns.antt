-- ===== src/Fnmatch/Patterns.antt =====
-- api.py: the default of `is_test_file` is the pair of patterns in its comment.
use prunepytest.Prelude.{
  ℕ, ◌≡◌, refl, ◌∙◌, sym, ap, false, ◌||◌, ◌&&◌, [], ◌∷◌, ◌++◌, contains, arith, ◌==◌, list_eq,
  nat_eq,
}
use prunepytest.Text.{Text, text, starts_with, ends_with}
use prunepytest.Fnmatch.{star, matches, tokens, fnmatch, mixin_is_test_file}
use prunepytest.Fnmatch.Suffix.{chars, matches-star, ends_with-cons}

unequal : (x d : ℕ) (s q : Text) → (d == x) ≡ false → ((x ∷ s) == d ∷ q) ≡ false
unfolding list_eq
unequal x d s q h = ground arith

-- A prefix, `*`, and a suffix that starts with a character that the prefix does not have
matches-both :
    (p : Text) (d : ℕ) (q s : Text)
    → contains p d ≡ false
    → matches (chars p ++ star ∷ chars (d ∷ q)) s ≡ (starts_with s p && ends_with s (d ∷ q))
unfolding matches chars starts_with
matches-both [] d q s h = matches-star (d ∷ q) s ∙ ground arith
matches-both (c ∷ p) d q [] h = refl
matches-both (c ∷ p) d q (x ∷ s) h =
    ground (arith, matches-both p d q s (ground arith), ends_with-cons x s (d ∷ q), unequal x d s q)

tokens_test_star : tokens 0 (text "test_*.py") ≡ chars (text "test_") ++ star ∷ chars (text ".py")
unfolding tokens chars nat_eq
tokens_test_star = refl

tokens_star_test : tokens 0 (text "*_test.py") ≡ star ∷ chars (text "_test.py")
unfolding tokens chars nat_eq
tokens_star_test = refl

no_dot : contains (text "test_") b'.' ≡ false
unfolding nat_eq
no_dot = refl

-- Without a pattern of its own, a hook takes a name for that of a test file if and only if `fnmatch`
-- matches it with `test_*.py` or with `*_test.py`.
pub mixin_is_test_file-fnmatch :
    (name : Text)
    → mixin_is_test_file name ≡ (fnmatch name (text "test_*.py") || fnmatch name (text "*_test.py"))
unfolding mixin_is_test_file fnmatch
mixin_is_test_file-fnmatch name = sym (
    ap (λ ts. matches ts name || matches (tokens 0 (text "*_test.py")) name) tokens_test_star
    ∙ ap (λ b. b || matches (tokens 0 (text "*_test.py")) name)
        (matches-both (text "test_") b'.' (text "py") name no_dot)
    ∙ ap (λ ts. (starts_with name (text "test_") && ends_with name (text ".py")) || matches ts name)
        tokens_star_test
    ∙ ap (λ b. (starts_with name (text "test_") && ends_with name (text ".py")) || b)
        (matches-star (text "_test.py") name))
