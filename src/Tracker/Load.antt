-- ===== src/Tracker/Load.antt =====
-- tracker.py: the two hooks in the import machinery, `_new_find_and_load` and
-- `_new_handle_fromlist`, and `_find_and_load_helper`, the core of the tracking.
pub mod Machinery
pub mod Parts
pub mod Kept
pub mod Settle
pub mod Balance
pub mod Imports
pub mod Callback
use prunepytest.Prelude.{
  ℕ, zero, suc, Bool, true, false, not, ◌||◌, ◌&&◌, Option, none, some, List, [], ◌∷◌, ◌++◌, ◌==◌,
  contains, is_empty, if◌then◌else◌, list_eq, nat_eq, pair_eq,
}
use prunepytest.Text.{Text}
use prunepytest.Sets.{Set, diff}
use prunepytest.Dict.{lookup_or, has}
use prunepytest.Tracker.Deps.{
  Name, Deps, Exn, Step, fine, fault, recursion_error, index_error, at, begin,
}
use prunepytest.Tracker.State.{
  Anchor, Frame, Module, Outcome, loaded, raised, Tracker, base_ns, add_users, add_imports,
  record_use,
}
use prunepytest.Tracker.Dynamic.{Recorded, not_dynamic, import_at, failed, record_dynamic_imports}
use prunepytest.Tracker.Load.Machinery.{Body, done, import_, from_import, use_anchor, System}
use prunepytest.Tracker.Load.Parts.{
  after_load, settle, is_relevant, track_fromlist, mark_user, dynamic_base, settle_dynamic,
}

module _ (sys : System) where
  open sys use {World}

  abbrev pub Result : Type 0
  Result = Outcome × Tracker × World

  -- An import of a name, and the handling of a `from` list, from a state of tracker and world.
  abbrev pub Importer : Type 0
  Importer = Name → Tracker → World → Result

  abbrev pub FromImporter : Type 0
  FromImporter = Module → List Text → Tracker → World → Result

  -- The `try` body of `_find_and_load_helper` from the result of the real import on.
  unfoldable pub loaded_then : Name → Bool → Result → Result
  unfolding after_load
  loaded_then name is_ignored (loaded m, s, w) = after_load sys name is_ignored m s w
  loaded_then name is_ignored (raised e, s, w) = (raised e, s, w)

  -- Its `except` and `finally`.
  unfoldable pub settled : Name → Bool → Bool → Result → Result
  unfolding settle
  settled name new_context is_ignored (o, s, w) =
      let (o', s') = settle name new_context is_ignored o s in (o', s', w)

  -- From the real import on, unless the statements before it have raised.
  unfoldable pub continue_load :
      Importer → Name → Bool → Tracker → World → Step Deps × Bool → Result
  unfolding loaded_then settled
  continue_load load name is_ignored s w (fault e d, new_context) =
      (raised e, record s { deps = d }, w)
  continue_load load name is_ignored s w (fine d, new_context) =
      settled name new_context is_ignored
        (loaded_then name is_ignored (load name (record s { deps = d }) w))

  -- `_find_and_load_helper`, over the import `load` of the real machinery. `_cycle_marker` is
  -- `load`.
  unfoldable pub find_and_load_helper : Importer → Name → Bool → Tracker → World → Result
  unfolding begin continue_load
  find_and_load_helper load name is_ignored s w =
      continue_load load name is_ignored s w (begin name is_ignored s.deps)

  -- The `finally` of `_new_find_and_load` for a dynamic import.
  unfoldable pub settled_dynamic :
      Name → Bool → ℕ → Option Anchor → Option (Set Name) → Result → Result
  unfolding settle_dynamic
  settled_dynamic name is_ignored prev anchor base (o, s, w) =
      let (o', s') = settle_dynamic name is_ignored prev anchor base o s in (o', s', w)

  -- A dynamic import: its user is marked before it, and what it brought in is recorded after it.
  unfoldable pub load_marked :
      Importer → Name → ℕ → Option Anchor → Bool → Option (Set Name) → World → Step Tracker → Result
  unfolding find_and_load_helper settled_dynamic
  load_marked load name prev anchor is_ignored base w (fault e s) = (raised e, s, w)
  load_marked load name prev anchor is_ignored base w (fine s) =
      settled_dynamic name is_ignored prev anchor base
        (find_and_load_helper load name is_ignored s w)

  unfoldable pub load_dynamic :
      Importer → Name → ℕ → Option Anchor → Bool → Tracker → World → Result
  unfolding dynamic_base mark_user load_marked
  load_dynamic load name prev anchor is_ignored s w =
      load_marked load name prev anchor is_ignored (dynamic_base anchor is_ignored s) w
        (mark_user anchor is_ignored s)

  -- `_new_find_and_load` after the call of `record_dynamic_imports`
  unfoldable pub load_recorded : Importer → Name → World → Tracker × Recorded → Result
  unfolding find_and_load_helper load_dynamic
  load_recorded load name w (s, failed e) = (raised e, s, w)
  load_recorded load name w (s, not_dynamic) = find_and_load_helper load name false s w
  load_recorded load name w (s, import_at prev anchor is_ignored) =
      load_dynamic load name prev anchor is_ignored s w

  -- `_new_find_and_load`; the flag is `record_dynamic`.
  unfoldable pub new_find_and_load : Bool → Importer → Importer
  unfolding is_relevant record_dynamic_imports find_and_load_helper load_recorded
  new_find_and_load record_dynamic load name s w =
      if not (is_relevant name s)
      then load name s w
      else if record_dynamic
      then load_recorded load name w (record_dynamic_imports sys.paths (sys.extract_stack w) s)
      else find_and_load_helper load name false s w

  -- `_new_handle_fromlist`
  unfoldable pub handle_tracked : FromImporter → Module → List Text → World → Step Tracker → Result
  handle_tracked handle m fromlist w (fault e s) = (raised e, s, w)
  handle_tracked handle m fromlist w (fine s) = handle m fromlist s w

  unfoldable pub new_handle_fromlist : FromImporter → FromImporter
  unfolding track_fromlist handle_tracked
  new_handle_fromlist handle m fromlist s w =
      handle_tracked handle m fromlist w (track_fromlist m fromlist s)

  -- The two hooks, as code that runs under them calls them.
  pub record Hooks : Type 0 where
    pub find : Importer
    pub from_list : FromImporter

  -- Code of the import machinery, and of the modules that it executes, under the hooks.
  unfoldable pub run : Hooks → Body World → Tracker → Result
  unfolding record_use
  run h (done o w) s = (o, s, w)
  run h (import_ name w k) s = let (o, s', w') = h.find name s w in run h (k o w') s'
  run h (from_import m fromlist w k) s =
      let (o, s', w') = h.from_list m fromlist s w in run h (k o w') s'
  run h (use_anchor (m, fn) w k) s = run h (k w) (record_use m fn (sys.extract_stack w) s)

  -- The hooks at a depth of nested calls that is left: at zero a call raises a RecursionError.
  unfoldable pub hooks : Bool → ℕ → Hooks
  unfolding new_find_and_load new_handle_fromlist run
  hooks record_dynamic zero = record {
    find = λ name s w. (raised recursion_error, s, w);
    from_list = λ m fromlist s w. (raised recursion_error, s, w);
  }
  hooks record_dynamic (suc depth) =
      let h = hooks record_dynamic depth in
      record {
        find = new_find_and_load record_dynamic (λ name s w. run h (sys.find_and_load w name) s);
        from_list =
            new_handle_fromlist (λ m fromlist s w. run h (sys.handle_fromlist w m fromlist) s);
      }
