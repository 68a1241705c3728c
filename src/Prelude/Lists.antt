-- ===== src/Prelude/Lists.antt =====
-- Lists measured and indexed by native numbers, under the library's names.
use Prim.Native.Nat.{ℕ, zero, suc, ◌+◌, ◌<◌, ◌≤◌}
use mathlib.Core.Path.{◌≡◌, refl, sym, ap}
use mathlib.Core.Logic.{◌≢◌}
use mathlib.Core.List.{List, [], ◌∷◌, ◌++◌, Memᴰ}
use mathlib.Core.Option.{Option, none, some}
use mathlib.Core.Path.{subst}
use mathlib.Core.Logic.{inl, inr}
use mathlib.Core.Bool.{Bool}
use native.Mathlib.Omega.{arith}
use prunepytest.Prelude.Tests.{if◌then◌else◌, Bool-cases}

module _ {ℓ} {A : Type ℓ} where
  abbrev pub length : List A → ℕ
  length [] = 0
  length (x ∷ xs) = suc (length xs)

  abbrev pub get_elem? : List A → ℕ → Option A
  get_elem? [] i = none
  get_elem? (x ∷ xs) zero = some x
  get_elem? (x ∷ xs) (suc i) = get_elem? xs i

  abbrev pub get_or : List A → ℕ → A → A
  get_or [] i d = d
  get_or (x ∷ xs) zero d = x
  get_or (x ∷ xs) (suc i) d = get_or xs i d

  abbrev pub set : List A → ℕ → A → List A
  set [] i v = []
  set (x ∷ xs) zero v = v ∷ xs
  set (x ∷ xs) (suc i) v = x ∷ set xs i v

  abbrev pub take : ℕ → List A → List A
  take zero xs = []
  take (suc n) [] = []
  take (suc n) (x ∷ xs) = x ∷ take n xs

  abbrev pub drop : ℕ → List A → List A
  drop zero xs = xs
  drop (suc n) [] = []
  drop (suc n) (x ∷ xs) = drop n xs

module _ {ℓ} {A : Type ℓ} where
  pub length-append : (xs ys : List A) → length (xs ++ ys) ≡ length xs + length ys
  length-append [] ys = omega arith
  length-append (x ∷ xs) ys = omega (arith, length-append xs ys)

  pub length-set : (xs : List A) (i : ℕ) (v : A) → length (set xs i v) ≡ length xs
  length-set [] i v = refl
  length-set (x ∷ xs) zero v = refl
  length-set (x ∷ xs) (suc i) v = ap suc (length-set xs i v)

  pub get_or-set_self :
      (xs : List A) (i : ℕ) (v d : A) → i < length xs → get_or (set xs i v) i d ≡ v
  get_or-set_self [] i v d h = elim h [ ]
  get_or-set_self (x ∷ xs) zero v d h = refl
  get_or-set_self (x ∷ xs) (suc i) v d h = get_or-set_self xs i v d (omega arith)

  pub get_or-set_ne :
      (xs : List A) (i j : ℕ) (v d : A) → i ≢ j → get_or (set xs i v) j d ≡ get_or xs j d
  get_or-set_ne [] i j v d h = refl
  get_or-set_ne (x ∷ xs) zero zero v d h = absurd (h refl)
  get_or-set_ne (x ∷ xs) zero (suc j) v d h = refl
  get_or-set_ne (x ∷ xs) (suc i) zero v d h = refl
  get_or-set_ne (x ∷ xs) (suc i) (suc j) v d h = get_or-set_ne xs i j v d (λ e. h (ap suc e))

  pub append-eq-nil : (xs ys : List A) → xs ++ ys ≡ [] → (xs ≡ []) × (ys ≡ [])
  append-eq-nil [] ys h = (refl, h)
  append-eq-nil (x ∷ xs) ys h = absurd (cc)

  pub get_or-append_left :
      (xs ys : List A) (i : ℕ) (d : A) → i < length xs → get_or (xs ++ ys) i d ≡ get_or xs i d
  get_or-append_left [] ys i d h = elim h [ ]
  get_or-append_left (x ∷ xs) ys zero d h = refl
  get_or-append_left (x ∷ xs) ys (suc i) d h = get_or-append_left xs ys i d (omega arith)

  pub get_or-beyond : (xs : List A) (i : ℕ) (d : A) → length xs ≤ i → get_or xs i d ≡ d
  get_or-beyond [] i d h = refl
  get_or-beyond (x ∷ xs) zero d h = elim h [ ]
  get_or-beyond (x ∷ xs) (suc i) d h = get_or-beyond xs i d (omega arith)

  pub get_or-append_new : (xs : List A) (i : ℕ) (d : A) → get_or (xs ++ d ∷ []) i d ≡ get_or xs i d
  get_or-append_new [] zero d = refl
  get_or-append_new [] (suc i) d = refl
  get_or-append_new (x ∷ xs) zero d = refl
  get_or-append_new (x ∷ xs) (suc i) d = get_or-append_new xs i d

module _ {ℓ} {A : Type ℓ} (P : A → Type 0) where
  abbrev pub Every : List A → Type 0
  Every [] = Unit
  Every (x ∷ xs) = P x × Every xs

  pub Every-append : (xs ys : List A) → Every xs → Every ys → Every (xs ++ ys)
  Every-append [] ys h k = k
  Every-append (x ∷ xs) ys (p, h) k = (p, Every-append xs ys h k)

  pub Every-Mem : (xs : List A) (a : A) → Every xs → Memᴰ a xs → P a
  Every-Mem [] a h m = elim m [ ]
  Every-Mem (x ∷ xs) a (p, h) (Memᴰ.head e) = subst P (sym e) p
  Every-Mem (x ∷ xs) a (p, h) (Memᴰ.tail k) = Every-Mem xs a h k

module _ {ℓ} {A : Type ℓ} (P Q : A → Type 0) (f : (a : A) → P a → Q a) where
  pub Every-map : (xs : List A) → Every P xs → Every Q xs
  Every-map [] h = tt
  Every-map (x ∷ xs) (p, h) = (f x p, Every-map xs h)

-- Python's `sorted`, by a Boolean order.
module _ {ℓ} {A : Type ℓ} (lt : A → A → Bool) where
  unfoldable pub insert_sorted : A → List A → List A
  insert_sorted a [] = a ∷ []
  insert_sorted a (b ∷ bs) =
      let rest = insert_sorted a bs in if lt a b then a ∷ b ∷ bs else b ∷ rest

  unfoldable pub sorted : List A → List A
  unfolding insert_sorted
  sorted [] = []
  sorted (a ∷ xs) = insert_sorted a (sorted xs)

module _ {ℓ} {A : Type ℓ} (lt : A → A → Bool) (P : A → Type 0) where
  Every-insert_sorted : (a : A) (xs : List A) → Every P (insert_sorted lt a xs) → P a × Every P xs
  unfolding insert_sorted
  Every-insert_sorted a [] (p, h) = (p, tt)
  Every-insert_sorted a (b ∷ xs) h =
      let pick = λ (t : Bool). if t then a ∷ b ∷ xs else b ∷ insert_sorted lt a xs in
      elim (Bool-cases (lt a b)) [
        | inl e ↦ let k : Every P (a ∷ b ∷ xs) = subst (λ t. Every P (pick t)) e h in k
        | inr e ↦
            let (q, k) : Every P (b ∷ insert_sorted lt a xs) = subst (λ t. Every P (pick t)) e h in
            let (p, r) = Every-insert_sorted a xs k in (p, (q, r))
      ]

  pub Every-sorted : (xs : List A) → Every P (sorted lt xs) → Every P xs
  unfolding sorted
  Every-sorted [] h = tt
  Every-sorted (a ∷ xs) h =
      let (p, k) = Every-insert_sorted a (sorted lt xs) h in (p, Every-sorted xs k)

pub some_eq {ℓ} : {A : Type ℓ} {a b : A} → some a ≡ some b → a ≡ b
some_eq e = cc
