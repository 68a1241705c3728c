-- ===== src/Tracker/Deps/Cycle.antt =====
-- tracker.py: the consolidation of an import cycle in `_find_and_load_helper`.
use prunepytest.Prelude.{
  ℕ, ◌<◌, ◌≡◌, refl, ◌∙◌, ◌≢◌, ◌⊎◌, inl, inr, true, ◌||◌, some, List, [], ◌∷◌, arith, ap, sym,
  subst, Option-cases, ℕ_discrete, ◌==◌, contains, length, Bool-cases, length-set, get_or-set_self,
  get_or-set_ne, if◌then◌else◌, list_eq, nat_eq,
}
use prunepytest.Sets.{Subset, union, contains-union}
use prunepytest.Dict.{lookup, has, lookup-insert}
use prunepytest.Tracker.Deps.{Name, Deps, fine, at, deps_of, above, merge, consolidate}

-- What one round of the consolidation changes.
module _ (a b : ℕ) (m : Name) (d : Deps) (known : lookup m d.tracked ≡ some b) where
  lookup-merge :
      (n : Name)
      → lookup n (merge a m b d).tracked ≡ (if n == m then some a else lookup n d.tracked)
  unfolding merge
  lookup-merge n = ground (arith, lookup-insert n m a d.tracked)

  at-merge_self :
      a < length d.heap
      → (x : Name)
      → contains (at a (merge a m b d)) x ≡ (contains (at a d) x || contains (at b d) x)
  unfolding merge
  at-merge_self h x = ground (
    arith,
    get_or-set_self d.heap a (union (at a d) (at b d)) [] h,
    contains-union (at a d) (at b d) x,
  )

  at-merge_ne : (c : ℕ) → a ≢ c → at c (merge a m b d) ≡ at c d
  unfolding merge
  at-merge_ne c h = ground (arith, get_or-set_ne d.heap a c (union (at a d) (at b d)) [] h)

  length-merge : length (merge a m b d).heap ≡ length d.heap
  unfolding merge
  length-merge = ground (arith, length-set d.heap a (union (at a d) (at b d)))

  stack-merge : (merge a m b d).stack ≡ d.stack
  unfolding merge
  stack-merge = ground arith

-- What a consolidation into the set at `a` leaves, from the state `d`.
pub record Consolidated (a : ℕ) (ms : List Name) (d d' : Deps) : Type 0 where
  pub stack : d'.stack ≡ d.stack
  pub size : length d'.heap ≡ length d.heap
  -- the modules named all have the set at `a`, the others keep theirs
  pub shared :
      (n : Name) → lookup n d'.tracked ≡ (if contains ms n then some a else lookup n d.tracked)
  -- no other set changes
  pub others : (c : ℕ) → a ≢ c → at c d' ≡ at c d
  -- nothing that the sets held is lost
  pub kept : Subset (at a d) (at a d')
  pub covers : (n : Name) → contains ms n ≡ true → Subset (deps_of n d) (at a d')
  -- and nothing is made up
  pub only :
      (x : Name)
      → contains (at a d') x ≡ true
      → (contains (at a d) x ≡ true)
        ⊎ ((n : Name) × (contains ms n ≡ true) × (contains (deps_of n d) x ≡ true))

module _ (a b : ℕ) (m : Name) (d : Deps) (known : lookup m d.tracked ≡ some b)
    (h : a < length d.heap) where
  at-merge_grows :
      (c : ℕ) (x : Name) → contains (at c d) x ≡ true → contains (at c (merge a m b d)) x ≡ true
  at-merge_grows c x g = elim (ℕ_discrete a c) [
    | yes p ↦
        subst (λ k. contains (at k (merge a m b d)) x ≡ true) p
          (ground (arith, at-merge_self a b m d known h x, ap (λ k. contains (at k d) x) p))
    | no ne ↦ rw (at-merge_ne a b m d known c ne) g
  ]

  at-merge_only :
      (c : ℕ) (x : Name)
      → contains (at c (merge a m b d)) x ≡ true
      → (contains (at c d) x ≡ true) ⊎ (contains (at a (merge a m b d)) x ≡ true)
  at-merge_only c x g = elim (ℕ_discrete a c) [
    | yes p ↦ inr (subst (λ k. contains (at k (merge a m b d)) x ≡ true) (sym p) g)
    | no ne ↦ inl (rw (at-merge_ne a b m d known c ne) at g)
  ]

  -- A round takes nothing from the set of any module, and gives it what the common set has.
  deps_of-merge_grows :
      (n x : Name) → contains (deps_of n d) x ≡ true → contains (deps_of n (merge a m b d)) x ≡ true
  unfolding deps_of
  deps_of-merge_grows n x g = elim (Option-cases (lookup n d.tracked)) [
    | inl e ↦ ground (arith, lookup-merge a b m d known n)
    | inr (c, e) ↦
        ground
          (arith, lookup-merge a b m d known n, at-merge_grows c x, at-merge_self a b m d known h x)
  ]

  deps_of-merge_only :
      (n x : Name)
      → contains (deps_of n (merge a m b d)) x ≡ true
      → (contains (deps_of n d) x ≡ true) ⊎ (contains (at a (merge a m b d)) x ≡ true)
  unfolding deps_of
  deps_of-merge_only n x g = elim (Option-cases (lookup n d.tracked)) [
    | inl e ↦ ground (arith, lookup-merge a b m d known n)
    | inr (c, e) ↦ ground (arith, lookup-merge a b m d known n, at-merge_only c x)
  ]

  at-merge_from :
      (ms : List Name) (x : Name)
      → contains (at a (merge a m b d)) x ≡ true
      → (contains (at a d) x ≡ true)
        ⊎ ((n : Name) × (contains (m ∷ ms) n ≡ true) × (contains (deps_of n d) x ≡ true))
  unfolding deps_of
  at-merge_from ms x p = elim (Bool-cases (contains (at a d) x)) [
    | inl e ↦ inl e
    | inr e ↦ inr (m, ground arith, ground (arith, at-merge_self a b m d known h x))
  ]

  -- Composition of a round with the rounds that follow.
  Consolidated-cons :
      (ms : List Name) (d' : Deps)
      → Consolidated a ms (merge a m b d) d'
      → Consolidated a (m ∷ ms) d d'
  unfolding deps_of
  Consolidated-cons ms d' C = record {
    stack = C.stack ∙ stack-merge a b m d known;
    size = C.size ∙ length-merge a b m d known;
    shared = λ n. ground (arith, C.shared n, lookup-merge a b m d known n);
    others = λ c ne. C.others c ne ∙ at-merge_ne a b m d known c ne;
    kept = λ x g. C.kept x (at-merge_grows a x g);
    covers = λ n g x i. elim (Bool-cases (contains ms n)) [
      | inl old ↦ C.covers n old x (deps_of-merge_grows n x i)
      | inr new ↦ C.kept x (ground (arith, at-merge_self a b m d known h x))
    ];
    only = λ x g. elim (C.only x g) [
      | inl p ↦ at-merge_from ms x p
      | inr (n, q, r) ↦ elim (deps_of-merge_only n x r) [
        | inl old ↦ inr (n, ground arith, old)
        | inr p ↦ at-merge_from ms x p
      ]
    ];
  }

consolidate-nil : (a : ℕ) (d : Deps) → consolidate a [] d ≡ fine d
unfolding consolidate
consolidate-nil a d = refl

consolidate-cons :
    (a b : ℕ) (m : Name) (d : Deps)
    → lookup m d.tracked ≡ some b
    → (ms : List Name) → consolidate a (m ∷ ms) d ≡ consolidate a ms (merge a m b d)
unfolding consolidate
consolidate-cons a b m d e ms = rw (e, consolidate)

pub consolidate_lem :
    (a : ℕ) (ms : List Name) (d : Deps)
    → a < length d.heap
    → ((n : Name) → contains ms n ≡ true → has n d.tracked ≡ true)
    → (d' : Deps) × (consolidate a ms d ≡ fine d') × Consolidated a ms d d'
unfolding has
consolidate_lem a [] d h t = (
  d,
  consolidate-nil a d,
  record {
    stack = refl;
    size = refl;
    shared = λ n. refl;
    others = λ c ne. refl;
    kept = λ x m. m;
    covers = λ n m. cc;
    only = λ x m. inl m;
  },
)
consolidate_lem a (m ∷ ms) d h t = elim (Option-cases (lookup m d.tracked)) [
  | inl e ↦ absurd (ground (arith, t m))
  | inr (b, e) ↦
      let (d', r, C) =
        consolidate_lem a ms (merge a m b d) (rw (length-merge a b m d e) h)
          (λ n i. ground (arith, lookup-merge a b m d e n, t n)) in
      (d', consolidate-cons a b m d e ms ∙ r, Consolidated-cons a b m d e h ms d' C)
]

-- The modules above the lowest entry of `n` are on the stack, and the top is one, or is `n`.
pub above-mem :
    (n : Name) (s c : List Name)
    → above n s ≡ some c
    → (x : Name) → contains c x ≡ true
    → contains s x ≡ true
unfolding above
above-mem n [] c h x m = cc
above-mem n (y ∷ s) c h x m = elim (Option-cases (above n s)) [
  | inl e ↦ ground arith
  | inr (b, e) ↦ ground (arith, above-mem n s b e x)
]

pub above-top :
    (n t : Name) (s c : List Name) → above n (t ∷ s) ≡ some c → (contains c t ≡ true) ⊎ (t ≡ n)
unfolding above
above-top n t s c h = ground arith
