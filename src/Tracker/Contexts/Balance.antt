-- ===== src/Tracker/Contexts/Balance.antt =====
-- tracker.py: a context that is entered and left again, and the dependencies that `with_dynamic`
-- reports.
use prunepytest.Prelude.{
  ℕ, ◌<◌, ◌≡◌, refl, ◌∙◌, sym, subst, ap, true, false, none, some, List, [], ◌∷◌, contains, arith,
  eq_refl, inl, inr, Option-cases, Bool-cases, length, length-append, length-set, get_or-set_self,
  get_or-set_ne, get_or-append_new, get_or-beyond, ℕ_discrete, ◌||◌, list_eq, nat_eq, pair_eq, ◌⊎◌,
  ◌↔◌,
}
use prunepytest.Sets.{Set, Subset, union, contains-union}
use prunepytest.Dict.{Dict, lookup, lookup_or, has, lookup-insert}
use prunepytest.Tracker.Deps.{Name, Deps, fine, at, deps_of}
use prunepytest.Tracker.Deps.Invariant.{TopIs, TopIs-cases, IsValid, Kept}
use prunepytest.Tracker.State.{Anchor, Tracker}
use prunepytest.Tracker.Contexts.{enter, enter_fresh, exit, exit_to, imports_of, with_dynamic}

-- What entering the context `c` leaves.
pub record Entered (c : Name) (d d' : Deps) : Type 0 where
  pub valid : IsValid d'
  pub stack : d'.stack ≡ c ∷ d.stack
  pub tracked : (m : Name) → has m d.tracked ≡ true → has m d'.tracked ≡ true
  -- the dependencies of every module, also those that the context had before, are kept
  pub sets : (m : Name) → deps_of m d' ≡ deps_of m d

enter_new :
    (c : Name) (d : Deps)
    → IsValid d
    → contains d.stack c ≡ false
    → lookup c d.tracked ≡ none
    → (d' : Deps) × (enter c d ≡ fine d') × Entered c d d'
unfolding has deps_of enter_fresh
enter_new c d v out e =
    let a = length d.heap in
    (
      enter_fresh c d,
      unfold enter in rw (out, e),
      record {
        valid = record {
          top = ground (arith, lookup-insert c c a d.tracked);
          stacked = λ m h. ground (arith, lookup-insert m c a d.tracked, v.stacked m);
          bounded = λ m b h.
              ground (
                arith,
                length-append d.heap ([] ∷ []),
                lookup-insert m c a d.tracked,
                v.bounded m b,
              );
        };
        stack = refl;
        tracked = λ m h. ground (arith, lookup-insert m c a d.tracked);
        sets = λ m. elim (Option-cases (lookup m d.tracked)) [
          | inl none_ ↦ ground (
            arith,
            lookup-insert m c a d.tracked,
            get_or-append_new d.heap a [],
            get_or-beyond d.heap a [] (omega arith),
          )
          | inr (b, some_) ↦
              ground (arith, lookup-insert m c a d.tracked, get_or-append_new d.heap b [])
        ];
      },
    )

pub enter_lem :
    (c : Name) (d : Deps)
    → IsValid d
    → contains d.stack c ≡ false
    → (d' : Deps) × (enter c d ≡ fine d') × Entered c d d'
unfolding has deps_of
enter_lem c d v out = elim (Option-cases (lookup c d.tracked)) [
  | inl e ↦ enter_new c d v out e
  | inr (a, e) ↦ (
    record d { stack = c ∷ d.stack; cxt = a },
    unfold enter in rw (out, e),
    record {
      valid = record { top = e; stacked = λ m h. ground (arith, v.stacked m); bounded = v.bounded };
      stack = refl;
      tracked = λ m h. h;
      sets = λ m. refl;
    },
  )
]

-- What leaving the context `c` again leaves, from the state `d0` before it was entered.
pub record Exited (c : Name) (d0 d d' : Deps) : Type 0 where
  pub kept : Kept d0 d'
  -- what was imported in the context is a dependency of the one below, which loses nothing
  pub covers : Subset (deps_of c d) (at d'.cxt d')
  pub grows : (a : ℕ) → Subset (at a d) (at a d')
  -- the set of the context itself stays for `with_dynamic`
  pub own : Subset (deps_of c d) (deps_of c d')
  pub tracked : (m : Name) → has m d.tracked ≡ true → has m d'.tracked ≡ true

module _ (s : List Name) (down : ℕ) (d : Deps) (bound : down < length d.heap) where
  at-exit_self :
      (x : Name)
      → contains (at down (exit_to s down d)) x
        ≡ (contains (at down d) x || contains (at d.cxt d) x)
  unfolding exit_to
  at-exit_self x =
      ap (λ t. contains t x) (get_or-set_self d.heap down (union (at down d) (at d.cxt d)) [] bound)
      ∙ contains-union (at down d) (at d.cxt d) x

  at-exit_grows : (a : ℕ) → Subset (at a d) (at a (exit_to s down d))
  at-exit_grows a x h = elim (ℕ_discrete down a) [
    | yes p ↦
        subst (λ k. contains (at k (exit_to s down d)) x ≡ true) p
          (ground (arith, at-exit_self x, ap (λ k. contains (at k d) x) p))
    | no ne ↦
        unfold exit_to in rw (get_or-set_ne d.heap down a (union (at down d) (at d.cxt d)) [] ne) h
  ]

module _ (s : List Name) (down : ℕ) (d : Deps) (bound : down < length d.heap) (c : Name)
    (known : lookup c d.tracked ≡ some d.cxt) where
  own_covers : Subset (deps_of c d) (at down (exit_to s down d))
  unfolding deps_of
  own_covers x h = ground (arith, at-exit_self s down d bound x)

  own_kept : Subset (deps_of c d) (deps_of c (exit_to s down d))
  unfolding deps_of exit_to
  own_kept x h = ground (arith, at-exit_grows s down d bound d.cxt x)

exit-eq :
    (c m : Name) (r : List Name) (down : ℕ) (d : Deps)
    → d.stack ≡ c ∷ m ∷ r
    → lookup m d.tracked ≡ some down
    → exit c d ≡ fine (exit_to (m ∷ r) down d)
unfolding exit
exit-eq c m r down d e h = rw e (rw (eq_refl c, h))

known_of_has : (m : Name) (t : Dict Name ℕ) → has m t ≡ true → (a : ℕ) × (lookup m t ≡ some a)
unfolding has
known_of_has m t h = ground arith

-- A context that is entered, used by any code that keeps the contexts in order, and left: the
-- assertion holds, the stack and the invariant are back, and the imports reach the context below.
pub exit_lem :
    (c : Name) (d0 d1 d : Deps)
    → IsValid d0
    → Entered c d0 d1
    → Kept d1 d
    → (d' : Deps) × (exit c d ≡ fine d') × Exited c d0 d d'
unfolding deps_of has
exit_lem c d0 d1 d v0 n k =
    let (m, r, s0, k0) = TopIs-cases d0.stack d0.tracked d0.cxt v0.top in
    let here = k.stack ∙ n.stack ∙ ap (λ s. c ∷ s) s0 in
    let still = λ (j : Name) (h : has j d0.tracked ≡ true). k.tracked j (n.tracked j h) in
    let (down, kd) = known_of_has m d.tracked (still m (v0.stacked m (rw s0 (ground arith)))) in
    let bound = k.valid.bounded m down kd in
    let known : lookup c d.tracked ≡ some d.cxt =
      subst (λ s. TopIs s d.tracked d.cxt) here k.valid.top in
    (
      exit_to (m ∷ r) down d,
      exit-eq c m r down d here kd,
      record {
        kept = record {
          valid = record {
            top = unfold exit_to in kd;
            stacked = λ j h. unfold exit_to in still j (v0.stacked j (rw s0 (unfold exit_to in h)));
            bounded = λ j a h. unfold exit_to in rw length-set (k.valid.bounded j a h);
          };
          stack = unfold exit_to in sym s0;
          tracked = λ j h. unfold exit_to in still j h;
        };
        covers = λ x h. unfold exit_to in own_covers (m ∷ r) down d bound c known x h;
        grows = at-exit_grows (m ∷ r) down d bound;
        own = λ x h. own_kept (m ∷ r) down d bound c known x h;
        tracked = λ j h. unfold exit_to in h;
      },
    )

-- What `with_dynamic` reports of a module: its own dependencies, and the dynamic imports of every
-- function that it uses.
contains-imports_of :
    (us : List Anchor) (imports : Dict Anchor (Set Name)) (x : Name)
    → (contains (imports_of us imports) x ≡ true)
      ↔ ((u : Anchor) × (contains us u ≡ true) × (contains (lookup_or u [] imports) x ≡ true))
unfolding imports_of
contains-imports_of [] imports x = (λ h. absurd (cc), λ t. absurd (cc (t.1)))
contains-imports_of (u ∷ us) imports x =
    let e = contains-union (lookup_or u [] imports) (imports_of us imports) x in
    let ih = contains-imports_of us imports x in
    (
      λ h. elim (Bool-cases (contains (lookup_or u [] imports) x)) [
        | inl a ↦ (u, ground arith, a)
        | inr b ↦ let (w, p, q) = ih.0 (ground arith) in (w, ground arith, q)
      ],
      λ t.
          let back = λ (p : contains us t.0 ≡ true). ih.1 (t.0, p, t.2) in
          let (w, p, q) = t in ground (arith, back, p, q),
    )

known_with_dynamic :
    (m : Name) (s : Tracker) (a : ℕ)
    → lookup m s.deps.tracked ≡ some a
    → with_dynamic m s
      ≡ some (union (at a s.deps) (imports_of (lookup_or m [] s.dynamic_users) s.dynamic_imports))
unfolding with_dynamic
known_with_dynamic m s a e = ground arith

-- For a tracked module, `with_dynamic` is exactly its dependencies and the dynamic imports of the
-- functions that it uses.
pub with_dynamic_lem :
    (m : Name) (s : Tracker)
    → has m s.deps.tracked ≡ true
    → (r : Set Name) × (with_dynamic m s ≡ some r)
      × ((x : Name)
          → (contains r x ≡ true) ↔ (
              (contains (deps_of m s.deps) x ≡ true)
              ⊎ ((u : Anchor) × (contains (lookup_or m [] s.dynamic_users) u ≡ true)
                  × (contains (lookup_or u [] s.dynamic_imports) x ≡ true))))
with_dynamic_lem m s h =
    let (a, e) = known_of_has m s.deps.tracked h in
    let users = lookup_or m [] s.dynamic_users in
    let dyn = imports_of users s.dynamic_imports in
    (
      union (at a s.deps) dyn,
      known_with_dynamic m s a e,
      λ x.
          let c = contains-union (at a s.deps) dyn x in
          let i = contains-imports_of users s.dynamic_imports x in
          (
            λ g. elim (Bool-cases (contains (at a s.deps) x)) [
              | inl p ↦ inl (unfold deps_of in ground arith)
              | inr p ↦ inr (i.0 (ground arith))
            ],
            λ g. elim g [
              | inl p ↦ unfold deps_of in ground arith
              | inr t ↦ let q = i.1 t in ground arith
            ],
          ),
    )
