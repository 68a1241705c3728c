-- ===== src/Tracker/Load/Parts.antt =====
-- tracker.py: the statements of `_find_and_load_helper` and of the two hooks that do not call back
-- into the import machinery.
use prunepytest.Prelude.{
  ℕ, Bool, false, not, ◌||◌, ◌&&◌, Option, none, some, List, [], ◌∷◌, ◌++◌, ◌==◌, contains,
  is_empty, if◌then◌else◌, list_eq, nat_eq, pair_eq,
}
use prunepytest.Text.{Text, text, starts_with, dot}
use prunepytest.Sets.{Set, diff}
use prunepytest.Dict.{lookup, insert, lookup_or, has}
use prunepytest.Tracker.Deps.{
  Name, Deps, Exn, Step, fine, fault, index_error, patch_error, unexpected_import, at, deps_of,
  add_cxt, update_cxt, discard_cxt, leave, untrack,
}
use prunepytest.Tracker.State.{
  Anchor, Module, Outcome, loaded, raised, Tracker, base_ns, parent, add_users, add_imports,
  add_recorders,
}
use prunepytest.Tracker.Load.Machinery.{System}

-- `any(name.startswith(i) for i in prefixes)`
unfoldable pub any_prefix : Name → Set Name → Bool
unfolding starts_with
any_prefix name [] = false
any_prefix name (p ∷ ps) = starts_with name p || any_prefix name ps

-- The test of `_new_find_and_load`: only names of the tracked namespaces, less the ignored ones.
unfoldable pub is_relevant : Name → Tracker → Bool
unfolding any_prefix
is_relevant name s = contains s.prefixes (base_ns name) && not (any_prefix name s.ignore_prefixes)

unfoldable pub record_file : Name → Module → Tracker → Tracker
unfolding insert
record_file name m s = elim m.file [
  | none ↦ s
  | some f ↦ if is_empty f then s else record s { file_to_module = insert f name s.file_to_module }
]

-- `if self.import_callback: self.import_callback(name)`
unfoldable pub notify : Name → Tracker → Step Tracker
notify name s = elim s.import_callback [
  | none ↦ fine s
  | some raises ↦
      let s' = record s { notified = s.notified ++ name ∷ [] } in
      if raises name then fault (unexpected_import name) s' else fine s'
]

-- The dependency on the parent package, which a cached import does not show.
unfoldable pub reify_parent : Name → Bool → Tracker → Tracker
unfolding has add_cxt update_cxt deps_of add_users lookup_or
reify_parent name is_ignored s =
    let p = parent name in
    let d = add_cxt p s.deps in
    let s' = record s { deps = update_cxt (deps_of p d) d } in
    let shown =
      is_empty p || contains (at s.deps.cxt s.deps) p || not (has p s.deps.tracked) || is_ignored in
    if shown
    then s
    else if has p s.dynamic_users
    then add_users name (lookup_or p [] s.dynamic_users) s'
    else s'

-- After the callback: the parent package, and the wrapping of aggregation points.
unfoldable pub finish_load : Name → Bool → Module → Tracker → Tracker
unfolding reify_parent add_recorders has lookup_or
finish_load name is_ignored m s =
    let s' = reify_parent name is_ignored s in
    if has name s'.dynamic_anchors
    then add_recorders m name (lookup_or name [] s'.dynamic_anchors) s'
    else s'

unfoldable pub notify_then : Name → Bool → Module → Tracker → Outcome × Tracker
unfolding notify finish_load
notify_then name is_ignored m s = elim (notify name s) [
  | fault e s' ↦ (raised e, s')
  | fine s' ↦ (loaded m, finish_load name is_ignored m s')
]

-- What the `try` body does once the real import has returned the module.
unfoldable pub after_load :
    (sys : System) → Name → Bool → Module → Tracker → sys.World → Outcome × Tracker × sys.World
unfolding record_file notify_then
after_load sys name is_ignored m s w =
    let s' = record_file name m s in
    let (o, t) = notify_then name is_ignored m s' in
    let (fails, w') = sys.patch w name in
    if not (contains s.patches name)
    then (o, t, w)
    else if fails
    then (raised (patch_error name), s', w')
    else (o, t, w')

-- `self.cxt.discard(name)` in the `finally`, after an error
unfoldable pub forget : Name → Bool → Deps → Deps
unfolding discard_cxt
forget name is_ignored d = if is_ignored then d else discard_cxt name d

-- The `finally` for a module that was pushed, after an error or not.
unfoldable pub settle_loaded : Module → Bool → Bool → Deps → Outcome × Deps
unfolding leave
settle_loaded m new_context is_ignored d =
    if new_context
    then elim (leave is_ignored d) [ fine d' ↦ (loaded m, d') | fault e d' ↦ (raised e, d') ]
    else (loaded m, d)

unfoldable pub after_leave : Name → Exn → Bool → Step Deps → Outcome × Deps
unfolding forget
after_leave name e is_ignored (fine d) = (raised e, forget name is_ignored d)
after_leave name e is_ignored (fault e2 d) = (raised e2, d)

unfoldable pub settle_raised : Name → Exn → Bool → Bool → Deps → Outcome × Deps
unfolding untrack leave after_leave
settle_raised name e new_context is_ignored d =
    let (e', d') = untrack name e d in
    if new_context
    then after_leave name e' is_ignored (leave is_ignored d')
    else (raised e, forget name is_ignored d)

-- The `except` and `finally` of `_find_and_load_helper`.
unfoldable pub settle : Name → Bool → Bool → Outcome → Tracker → Outcome × Tracker
unfolding settle_loaded settle_raised
settle name new_context is_ignored (loaded m) s =
    let (o, d) = settle_loaded m new_context is_ignored s.deps in (o, record s { deps = d })
settle name new_context is_ignored (raised e) s =
    let (o, d) = settle_raised name e new_context is_ignored s.deps in (o, record s { deps = d })

-- The module that `from module import x` makes a dependency, if it is one.
unfoldable pub from_module : Module → Text → Tracker → Option Name
unfolding lookup
from_module m x s = elim (lookup x m.attrs) [
  | none ↦ none
  | some o ↦ elim o [
    | none ↦ none
    | some canonical ↦
        if x == text "*"
          || (not (canonical == m.name ++ dot ∷ x) && not (contains s.prefixes (base_ns canonical)))
        then none
        else some canonical
  ]
]

-- `self.cxt.add(canonical)`, and its dependencies if it is tracked
unfoldable pub add_module : Name → Tracker → Tracker
unfolding add_cxt update_cxt has deps_of
add_module canonical s =
    let d = add_cxt canonical s.deps in
    record s { deps = if has canonical d.tracked then update_cxt (deps_of canonical d) d else d }

-- The body of the loop over the `from` list.
unfoldable pub track_from : Module → Text → Tracker → Step Tracker
unfolding from_module notify add_module
track_from m x s = elim (from_module m x s) [
  | none ↦ fine s
  | some canonical ↦ elim (notify canonical s) [
    | fault e s' ↦ fault e s'
    | fine s' ↦ fine (add_module canonical s')
  ]
]

unfoldable pub track_all : Module → List Text → Tracker → Step Tracker
unfolding track_from
track_all m [] s = fine s
track_all m (x ∷ xs) s = elim (track_from m x s) [
  | fault e s' ↦ fault e s'
  | fine s' ↦ track_all m xs s'
]

-- `_new_handle_fromlist` before the real function is called.
unfoldable pub track_fromlist : Module → List Text → Tracker → Step Tracker
unfolding track_all
track_fromlist m fromlist s =
    if m.has_path && contains s.prefixes (base_ns m.name) then track_all m fromlist s else fine s

-- `dynamic_base`: a copy of the context before the import
unfoldable pub dynamic_base : Option Anchor → Bool → Tracker → Option (Set Name)
dynamic_base none is_ignored s = none
dynamic_base (some a) is_ignored s = if is_ignored then none else some (at s.deps.cxt s.deps)

-- The top of the stack is marked as a user of the anchor.
unfoldable pub mark_user : Option Anchor → Bool → Tracker → Step Tracker
unfolding add_users
mark_user none is_ignored s = fine s
mark_user (some a) is_ignored s =
    if is_ignored
    then fine s
    else elim s.deps.stack [ [] ↦ fault index_error s | t ∷ r ↦ fine (add_users t (a ∷ []) s) ]

-- `if dynamic_anchor and dynamic_base:`, where an empty set counts as false
unfoldable pub record_imports : Option Anchor → Option (Set Name) → Tracker → Tracker
unfolding add_imports diff
record_imports none base s = s
record_imports (some a) none s = s
record_imports (some a) (some b) s =
    if is_empty b then s else add_imports a (diff (at s.deps.cxt s.deps) b) s

unfoldable pub settle_dynamic :
    Name → Bool → ℕ → Option Anchor → Option (Set Name) → Outcome → Tracker → Outcome × Tracker
unfolding has add_users lookup_or record_imports
settle_dynamic name is_ignored prev anchor base o s =
    let rest : Tracker → Outcome × Tracker =
      λ t. (o, record_imports anchor base (record t { dynamic_stack = prev })) in
    if has name s.dynamic_users && not is_ignored
    then elim s.deps.stack [
      | [] ↦ (raised index_error, s)
      | t ∷ r ↦ rest (add_users t (lookup_or name [] s.dynamic_users) s)
    ]
    else rest s
