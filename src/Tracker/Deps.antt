-- ===== src/Tracker/Deps.antt =====
pub mod Invariant
pub mod Cycle
pub mod Join
-- tracker.py: the import contexts of a `Tracker`, with the aliasing of its sets of dependencies.
-- A `set` instance is an address in `heap`; `tracked` and `cxt` hold addresses, so that two modules
-- of an import cycle can share one instance. The stack is kept with its top first.
use prunepytest.Prelude.{
  ℕ, ◌≡◌, refl, ◌⊎◌, inl, inr, Bool, true, false, not, ◌||◌, Option, none, some, List, [], ◌∷◌,
  ◌++◌, reverse, ◌==◌, contains, eqb, length, get_or, set, if◌then◌else◌, list_eq, nat_eq,
}
use prunepytest.Text.{Text}
use prunepytest.Sets.{Set, add, union, discard}
use prunepytest.Dict.{Dict, lookup, insert, erase, has}

abbrev pub Name : Type 0
Name = Text

pub record Deps : Type 0 where
  pub heap : List (Set Name)
  pub stack : List Name
  pub cxt : ℕ
  pub tracked : Dict Name ℕ

-- What leaves a method instead of a value.
pub data Exn : Type 0 where
  key_error index_error assertion_error recursion_error : Exn
  module_error : ℕ → Exn
  unexpected_import patch_error : Name → Exn

-- A statement that went through, or one that raised, with the state that it left.
pub data Step (S : Type 0) : Type 0 where
  fine : S → Step S
  fault : Exn → S → Step S

pub Step-cases :
    {S : Type 0} (r : Step S) → ((s : S) × (r ≡ fine s)) ⊎ ((e : Exn) × (s : S) × (r ≡ fault e s))
Step-cases (fine s) = inl (s, refl)
Step-cases (fault e s) = inr (e, s, refl)

-- The state that a statement leaves, whether it raised or not.
abbrev pub state_of : {S : Type 0} → Step S → S
state_of (fine s) = s
state_of (fault e s) = s

-- The instance at an address, and the dependencies of a module (none if it is not tracked).
abbrev pub at : ℕ → Deps → Set Name
at a d = get_or d.heap a []

unfoldable pub deps_of : Name → Deps → Set Name
unfolding lookup
deps_of n d = elim (lookup n d.tracked) [ none ↦ [] | some a ↦ at a d ]

abbrev pub put : ℕ → Set Name → Deps → Deps
put a s d = record d { heap = set d.heap a s }

-- `Tracker.__init__`: one context, of the empty name.
abbrev pub initial : Deps
initial = record { heap = [] ∷ []; stack = [] ∷ []; cxt = 0; tracked = ([], 0) ∷ [] }

-- `self.cxt.add(name)`, `self.cxt.update(s)` and `self.cxt.discard(name)`
unfoldable pub add_cxt : Name → Deps → Deps
unfolding add
add_cxt n d = put d.cxt (add n (at d.cxt d)) d

unfoldable pub update_cxt : Set Name → Deps → Deps
unfolding union
update_cxt s d = put d.cxt (union (at d.cxt d) s) d

unfoldable pub discard_cxt : Name → Deps → Deps
unfolding discard
discard_cxt n d = put d.cxt (discard n (at d.cxt d)) d

-- A fresh set becomes `tracked[name]` and `cxt`, and the name goes on the stack.
unfoldable pub push : Name → Deps → Deps
unfolding insert
push n d = record {
  heap = d.heap ++ [] ∷ [];
  stack = n ∷ d.stack;
  cxt = length d.heap;
  tracked = insert n (length d.heap) d.tracked;
}

-- `cycle[1:]` for the cycle that starts at the lowest entry `name`, top first.
unfoldable pub above : Name → List Name → Option (List Name)
above n [] = none
above n (m ∷ s) = elim (above n s) [
  | some c ↦ some (m ∷ c)
  | none ↦ if n == m then some [] else none
]

-- One round of the consolidation: the set of `mod`, if it is another instance, is merged into the
-- one at `a`, which `mod` then shares.
unfoldable pub merge : ℕ → Name → ℕ → Deps → Deps
unfolding insert union
merge a m b d =
    if eqb b a
    then d
    else record d { heap = set d.heap a (union (at a d) (at b d)); tracked = insert m a d.tracked }

unfoldable pub consolidate : ℕ → List Name → Deps → Step Deps
unfolding merge lookup
consolidate a [] d = fine d
consolidate a (m ∷ ms) d = elim (lookup m d.tracked) [
  | none ↦ fault key_error d
  | some b ↦ consolidate a ms (merge a m b d)
]

abbrev pub with_cxt : ℕ → Step Deps → Step Deps
with_cxt a (fine d) = fine (record d { cxt = a })
with_cxt a (fault e d) = fault e d

-- A module that is tracked already: its dependencies are taken over, or the modules of the import
-- cycle that it closes are given one common set.
unfoldable pub join : Name → Deps → Step Deps
unfolding above consolidate update_cxt lookup
join n d = elim (lookup n d.tracked) [
  | none ↦ fault key_error d
  | some a ↦ elim (above n d.stack) [
    | none ↦ fine (update_cxt (at a d) d)
    | some c ↦ with_cxt a (consolidate a (reverse c) d)
  ]
]

-- The part of `_find_and_load_helper` before the real import; the flag is `new_context`.
unfoldable pub begin : Name → Bool → Deps → Step Deps × Bool
unfolding add_cxt push join has
begin n is_ignored d =
    let d' = if is_ignored then d else add_cxt n d in
    if not (has n d'.tracked)
    then (fine (push n d'), true)
    else if is_ignored
    then (fine d', false)
    else (join n d', false)

-- The context below becomes current; the popped one is merged into it, unless it is the same set.
unfoldable pub leave_to : Bool → List Name → ℕ → Deps → Deps
unfolding union
leave_to is_ignored s down d = record d {
  heap =
      if eqb down d.cxt || is_ignored
      then d.heap
      else set d.heap down (union (at down d) (at d.cxt d));
  stack = s;
  cxt = down;
}

-- `stack.pop()` and what follows it in the `finally` of `_find_and_load_helper`.
unfoldable pub leave : Bool → Deps → Step Deps
unfolding leave_to lookup
leave is_ignored d = elim d.stack [
  | [] ↦ fault index_error d
  | n ∷ s ↦ elim s [
    | [] ↦ fault index_error (record d { stack = [] })
    | m ∷ r ↦ elim (lookup m d.tracked) [
      | none ↦ fault key_error (record d { stack = m ∷ r })
      | some down ↦ fine (leave_to is_ignored (m ∷ r) down d)
    ]
  ]
]

-- `stack[:-1]`
abbrev pub below_top : List Name → List Name
below_top [] = []
below_top (n ∷ s) = s

-- The removal of a module whose import failed; with the exception that is raised then.
unfoldable pub untrack : Name → Exn → Deps → Exn × Deps
unfolding erase has
untrack n e d =
    if contains (below_top d.stack) n
    then (e, d)
    else if has n d.tracked
    then (e, record d { tracked = erase n d.tracked })
    else (key_error, d)
