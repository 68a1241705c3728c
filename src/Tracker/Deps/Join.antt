-- ===== src/Tracker/Deps/Join.antt =====
-- tracker.py: an import of a module that is tracked already (`_find_and_load_helper`).
use mathlib.Core.List.{reverse_aux}
use prunepytest.Prelude.{
  ℕ, ◌<◌, ◌≡◌, refl, ◌∙◌, ◌≢◌, inl, inr, true, ◌||◌, none, some, List, [], ◌∷◌, reverse, arith, ap,
  sym, Option-cases, contains, length, get_or, set, Bool-cases, get_or-set_self, get_or-set_ne,
  list_eq, nat_eq,
}
use prunepytest.Sets.{Subset, union, contains-union}
use prunepytest.Dict.{lookup, has}
use prunepytest.Tracker.Deps.{Name, Deps, fine, at, deps_of, above, update_cxt, join}
use prunepytest.Tracker.Deps.Invariant.{TopIs-cases, TopIs-of, IsValid, Kept, update_cxt-Kept}
use prunepytest.Tracker.Deps.Cycle.{Consolidated, consolidate_lem, above-mem, above-top}

-- What an import of the tracked module `n` leaves, before the real import is called.
pub record Joined (n : Name) (d d' : Deps) : Type 0 where
  pub kept : Kept d d'
  -- the current context loses nothing, and covers the module imported
  pub grows : Subset (at d.cxt d) (at d'.cxt d')
  pub covers : Subset (deps_of n d) (at d'.cxt d')
  -- if the import closes a cycle, all modules of the cycle share the one set, and it covers each
  pub shared :
      (c : List Name)
      → above n d.stack ≡ some c
      → (m : Name) → contains (n ∷ c) m ≡ true
      → (lookup m d'.tracked ≡ some d'.cxt) × Subset (deps_of m d) (at d'.cxt d')
  -- no other set changes
  pub others : (c : ℕ) → d'.cxt ≢ c → at c d' ≡ at c d

contains-reverse_aux :
    (xs ys : List Name) (x : Name)
    → contains (reverse_aux xs ys) x ≡ (contains xs x || contains ys x)
contains-reverse_aux [] ys x = refl
contains-reverse_aux (y ∷ xs) ys x = ground (arith, contains-reverse_aux xs (y ∷ ys) x)

contains-reverse : (xs : List Name) (x : Name) → contains (reverse xs) x ≡ contains xs x
contains-reverse xs x = ground (arith, contains-reverse_aux xs [] x)

module _ (n : Name) (d : Deps) (v : IsValid d) (a : ℕ) (known : lookup n d.tracked ≡ some a) where
  -- every module of the cycle is given the set at `a`, and that set covers it
  cycle_shared :
      (c : List Name) (d' : Deps)
      → Consolidated a (reverse c) d d'
      → (m : Name) → contains (n ∷ c) m ≡ true
      → (lookup m d'.tracked ≡ some a) × Subset (deps_of m d) (at a d')
  unfolding deps_of
  cycle_shared c d' C m i = elim (Bool-cases (contains c m)) [
    | inl e ↦
        (ground (arith, C.shared m, contains-reverse c m), C.covers m (contains-reverse c m ∙ e))
    | inr e ↦ (ground (arith, C.shared m, contains-reverse c m), λ x g. C.kept x (ground arith))
  ]

  cycle_tracked :
      (c : List Name) (d' : Deps)
      → Consolidated a (reverse c) d d'
      → (m : Name) → has m d.tracked ≡ true
      → has m d'.tracked ≡ true
  unfolding has
  cycle_tracked c d' C m h = ground (arith, C.shared m)

  cycle_top :
      (c : List Name)
      → above n d.stack ≡ some c
      → (t : Name) × (r : List Name) × (d.stack ≡ t ∷ r)
        × (lookup t d.tracked ≡ some d.cxt)
        × (contains (n ∷ c) t ≡ true)
  cycle_top c e =
      let (t, r, s, k) = TopIs-cases d.stack d.tracked d.cxt v.top in
      (
        t,
        r,
        s,
        k,
        elim (above-top n t r c (rw s at e)) [ inl i ↦ ground arith | inr q ↦ ground arith ],
      )

  -- outside a cycle
  apart-Joined : above n d.stack ≡ none → Joined n d (update_cxt (at a d) d)
  unfolding update_cxt deps_of
  apart-Joined e = record {
    kept = update_cxt-Kept d v (at a d);
    grows = λ x g. ground (arith, here x);
    covers = λ x g. ground (arith, here x);
    shared = λ c h. absurd (cc);
    others = λ c h. get_or-set_ne d.heap d.cxt c _ [] h;
  }
    where
      in_heap : d.cxt < length d.heap
      in_heap = let (t, r, s, k) = TopIs-cases d.stack d.tracked d.cxt v.top in v.bounded t d.cxt k

      here :
          (x : Name)
          → contains (get_or (set d.heap d.cxt (union (at d.cxt d) (at a d))) d.cxt []) x
            ≡ (contains (at d.cxt d) x || contains (at a d) x)
      here x =
          ap (λ s. contains s x)
            (get_or-set_self d.heap d.cxt (union (at d.cxt d) (at a d)) [] in_heap)
          ∙ contains-union (at d.cxt d) (at a d) x

  -- on a cycle
  cycle-Joined :
      (c : List Name) (d' : Deps)
      → above n d.stack ≡ some c
      → Consolidated a (reverse c) d d'
      → Joined n d (record d' { cxt = a })
  unfolding deps_of has
  cycle-Joined c d' e C =
      let (t, r, s, k, i) = cycle_top c e in
      let (k', covered) = cycle_shared c d' C t i in
      record {
        kept = record {
          valid = record {
            top = TopIs-of d'.stack d'.tracked a t r (C.stack ∙ s) k';
            stacked = λ m h. cycle_tracked c d' C m (v.stacked m (rw C.stack at h));
            bounded =
                λ m b h. rw C.size (ground (arith, C.shared m, v.bounded m b, v.bounded n a known));
          };
          stack = C.stack;
          tracked = cycle_tracked c d' C;
        };
        grows = λ x g. covered x (ground arith);
        covers = λ x g. C.kept x (ground arith);
        shared = λ b f m h. cycle_shared c d' C m (ground arith);
        others = C.others;
      }

-- In a valid state an import of a tracked module raises nothing by itself. Afterwards the current
-- context covers the dependencies of that module, and in a cycle all its modules share them.
pub join_lem :
    (n : Name) (d : Deps)
    → IsValid d
    → has n d.tracked ≡ true
    → (d' : Deps) × (join n d ≡ fine d') × Joined n d d'
unfolding has
join_lem n d v h = elim (Option-cases (lookup n d.tracked)) [
  | inl e ↦ absurd (ground arith)
  | inr (a, e) ↦ elim (Option-cases (above n d.stack)) [
    | inl apart ↦ (update_cxt (at a d) d, unfold join in ground arith, apart-Joined n d v a e apart)
    | inr (c, on) ↦
        let (d', r, C) =
          consolidate_lem a (reverse c) d (v.bounded n a e)
            (λ m i. v.stacked m (above-mem n d.stack c on m (sym (contains-reverse c m) ∙ i))) in
        (record d' { cxt = a }, unfold join in ground arith, cycle-Joined n d v a e c d' on C)
  ]
]
