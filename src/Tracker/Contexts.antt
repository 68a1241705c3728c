-- ===== src/Tracker/Contexts.antt =====
-- tracker.py: `start_tracking`, `_init_loaded_modules`, `enter_context`, `exit_context`,
-- `with_dynamic`.
pub mod Balance
pub mod Start
use prunepytest.Prelude.{
  ℕ, Bool, true, false, not, ◌||◌, ◌&&◌, Option, none, some, List, [], ◌∷◌, ◌++◌, ◌==◌, contains,
  length, is_empty, set, if◌then◌else◌, list_eq, nat_eq, pair_eq,
}
use prunepytest.Text.{Text, starts_with, dot}
use prunepytest.Sets.{Set, union, diff}
use prunepytest.Dict.{Dict, lookup, insert, lookup_or, has, keys}
use prunepytest.Tracker.Deps.{
  Name, Deps, Exn, Step, fine, fault, index_error, key_error, assertion_error, at,
}
use prunepytest.Tracker.State.{Anchor, Module, Tracker, add_recorders}
use prunepytest.Tracker.Load.Parts.{record_file}

-- `any(i.startswith(p + ".") for p in prefixes)`
unfoldable pub under_any : Name → Set Name → Bool
unfolding starts_with
under_any i [] = false
under_any i (p ∷ ps) = starts_with i (p ++ dot ∷ []) || under_any i ps

-- `{i for i in ignore_prefixes if …}`
unfoldable pub kept_prefixes : Set Name → Set Name → Set Name
unfolding under_any
kept_prefixes prefixes [] = []
kept_prefixes prefixes (i ∷ is) =
    let r = kept_prefixes prefixes is in if under_any i prefixes then i ∷ r else r

-- One module of `sys.modules`: its file is mapped, its aggregation points are wrapped.
unfoldable pub init_module : Dict Name Module → Name → Tracker → Tracker
unfolding lookup record_file has add_recorders lookup_or
init_module modules name s = elim (lookup name modules) [
  | none ↦ s
  | some m ↦
      let s' = record_file name m s in
      if has name s'.dynamic_anchors
      then add_recorders m name (lookup_or name [] s'.dynamic_anchors) s'
      else s'
]

unfoldable pub init_modules : Dict Name Module → List Name → Tracker → Tracker
unfolding init_module
init_modules modules [] s = s
init_modules modules (n ∷ ns) s = init_modules modules ns (init_module modules n s)

-- `_init_loaded_modules`, over the contents of `sys.modules` at the start of each round of its
-- loop: a round may cause modules to be loaded. `seen` is `modules`.
unfoldable pub init_loaded_modules : List (Dict Name Module) → Set Name → Tracker → Tracker
unfolding diff union init_modules
init_loaded_modules [] seen s = s
init_loaded_modules (modules ∷ rounds) seen s =
    let new_modules = diff (keys modules) seen in
    let rest =
      init_loaded_modules rounds (union seen new_modules) (init_modules modules new_modules s) in
    if is_empty new_modules then s else rest

-- The arguments of `start_tracking` that the model keeps.
pub record Settings : Type 0 where
  pub prefixes : Set Name
  pub patches : Set Name
  pub implicit_anchor_aggregation : Bool
  pub dynamic_anchors : Dict Name (Set Text)
  pub dynamic_ignores : Dict Name (Set Text)
  pub ignore_prefixes : Set Name

-- `start_tracking`, up to the replacement of the two functions of the import machinery.
unfoldable pub start_tracking : Settings → List (Dict Name Module) → Tracker → Tracker
unfolding kept_prefixes init_loaded_modules
start_tracking c rounds s = init_loaded_modules rounds [] (record s {
  prefixes = c.prefixes;
  ignore_prefixes = kept_prefixes c.prefixes c.ignore_prefixes;
  patches = c.patches;
  dynamic_anchors = c.dynamic_anchors;
  dynamic_ignores = c.dynamic_ignores;
  implicit_anchor_aggregation = c.implicit_anchor_aggregation;
})

-- A fresh set becomes `tracked[cxt]` and the current context.
unfoldable pub enter_fresh : Name → Deps → Deps
unfolding insert
enter_fresh c d = record {
  heap = d.heap ++ [] ∷ [];
  stack = c ∷ d.stack;
  cxt = length d.heap;
  tracked = insert c (length d.heap) d.tracked;
}

-- `enter_context`: the context is `tracked[cxt]`, a fresh set if there is none.
unfoldable pub enter : Name → Deps → Step Deps
unfolding lookup enter_fresh
enter c d = if contains d.stack c then fault assertion_error d else elim (lookup c d.tracked) [
  | none ↦ fine (enter_fresh c d)
  | some a ↦ fine (record d { stack = c ∷ d.stack; cxt = a })
]

-- The context below, after the popped one was merged into it.
unfoldable pub exit_to : List Name → ℕ → Deps → Deps
unfolding union
exit_to s down d = record d {
  heap = set d.heap down (union (at down d) (at d.cxt d));
  stack = s;
  cxt = down;
}

unfoldable pub exit : Name → Deps → Step Deps
unfolding lookup exit_to
exit expected d = elim d.stack [
  | [] ↦ fault index_error d
  | actual ∷ s ↦
      if not (actual == expected) then fault assertion_error (record d { stack = s }) else elim s [
        | [] ↦ fault index_error (record d { stack = [] })
        | m ∷ r ↦ elim (lookup m d.tracked) [
          | none ↦ fault key_error (record d { stack = m ∷ r })
          | some down ↦ fine (exit_to (m ∷ r) down d)
        ]
      ]
]

-- The deps of a tracker, changed by a step.
abbrev pub with_deps : Tracker → Step Deps → Step Tracker
with_deps s (fine d) = fine (record s { deps = d })
with_deps s (fault e d) = fault e (record s { deps = d })

unfoldable pub set_callback : Option (Name → Bool) → Step Tracker → Step Tracker
set_callback cb (fine s) = fine (record s { import_callback = cb })
set_callback cb (fault e s) = fault e s

unfoldable pub enter_context : Name → Option (Name → Bool) → Tracker → Step Tracker
unfolding enter set_callback
enter_context c cb s = set_callback cb (with_deps s (enter c s.deps))

unfoldable pub exit_context : Name → Tracker → Step Tracker
unfolding exit
exit_context expected s = with_deps (record s { import_callback = none }) (exit expected s.deps)

-- `{i for u in users for i in dynamic_imports.get(u, ())}`
unfoldable pub imports_of : List Anchor → Dict Anchor (Set Name) → Set Name
unfolding union lookup_or
imports_of [] imports = []
imports_of (u ∷ us) imports = union (lookup_or u [] imports) (imports_of us imports)

-- `with_dynamic`; `none` is a KeyError.
unfoldable pub with_dynamic : Name → Tracker → Option (Set Name)
with_dynamic m s = elim (lookup m s.deps.tracked) [
  | none ↦ none
  | some a ↦
      some (union (at a s.deps) (imports_of (lookup_or m [] s.dynamic_users) s.dynamic_imports))
]
