-- ===== src/Sets.antt =====
-- Python's `set`, as a list whose order and repetitions no operation shows.
use prunepytest.Prelude.{
  ◌≡◌, refl, true, false, not, ◌&&◌, ◌||◌, List, [], ◌∷◌, arith, Eq, ◌==◌, contains, if◌then◌else◌,
}

abbrev pub Set {ℓ} : Type ℓ → Type ℓ
Set A = List A

module _ {ℓ} {A : Type ℓ} ⦃e : Eq A⦄ where
  -- `s.add(a)`
  unfoldable pub add : A → Set A → Set A
  add a s = if contains s a then s else a ∷ s

  -- `s | t`, and `s.update(t)`
  unfoldable pub union : Set A → Set A → Set A
  unfolding add
  union s [] = s
  union s (x ∷ t) = add x (union s t)

  -- `s - t`
  unfoldable pub diff : Set A → Set A → Set A
  diff [] t = []
  diff (x ∷ s) t = let r = diff s t in if contains t x then r else x ∷ r

  -- `s.discard(a)`
  unfoldable pub discard : A → Set A → Set A
  discard a [] = []
  discard a (x ∷ s) = let r = discard a s in if a == x then r else x ∷ r

  pub contains-add : (a b : A) (s : Set A) → contains (add a s) b ≡ (b == a || contains s b)
  unfolding add
  contains-add a b s = ground arith

  pub contains-union :
      (s t : Set A) (b : A) → contains (union s t) b ≡ (contains s b || contains t b)
  unfolding union
  contains-union s [] b = ground arith
  contains-union s (x ∷ t) b = ground (arith, contains-union s t b, contains-add x b (union s t))

  pub contains-diff :
      (s t : Set A) (b : A) → contains (diff s t) b ≡ (contains s b && not (contains t b))
  unfolding diff
  contains-diff [] t b = refl
  contains-diff (x ∷ s) t b = ground (arith, contains-diff s t b)

  pub contains-discard :
      (a b : A) (s : Set A) → contains (discard a s) b ≡ (contains s b && not (b == a))
  unfolding discard
  contains-discard a b [] = refl
  contains-discard a b (x ∷ s) = ground (arith, contains-discard a b s)

  -- `s <= t`
  abbrev pub Subset : Set A → Set A → Type ℓ
  Subset s t = (a : A) → contains s a ≡ true → contains t a ≡ true

  pub diff-eq-nil : (s t : Set A) → diff s t ≡ [] → Subset s t
  diff-eq-nil s t h a m = ground (arith, contains-diff s t a)

  pub diff-ne-nil : (s t : Set A) (x : A) (r : Set A) → diff s t ≡ x ∷ r → contains t x ≡ false
  diff-ne-nil s t x r h = ground (arith, contains-diff s t x)

  pub Subset-diff-eq-nil : (s t : Set A) → Subset s t → diff s t ≡ []
  unfolding diff
  Subset-diff-eq-nil [] t h = refl
  Subset-diff-eq-nil (x ∷ s) t h =
      ground (arith, h x, Subset-diff-eq-nil s t (λ a m. h a (ground arith)))

pub ruleset set_laws = (contains-add, contains-union, contains-diff, contains-discard)
