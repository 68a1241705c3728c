-- ===== src/Tracker/Load/Callback.antt =====
-- tracker.py: every statement of the hooks leaves the import callback installed.
pub mod Refused
use prunepytest.Prelude.{
  ℕ, zero, suc, ◌≡◌, refl, ◌∙◌, sym, subst, ap, Bool, true, false, not, Option, none, some, List,
  [], ◌∷◌, arith, inl, inr, Option-cases, Bool-cases, list_eq, nat_eq, is_empty,
}
use prunepytest.Text.{Text}
use prunepytest.Sets.{Set}
use prunepytest.Dict.{lookup_or, has}
use prunepytest.Tracker.Deps.{
  Name, Deps, Exn, Step, fine, fault, Step-cases, state_of, begin, leave, untrack,
}
use prunepytest.Tracker.State.{
  Anchor, Frame, Module, Outcome, loaded, raised, Tracker, add_users, add_imports, add_recorders,
  add_dynamic_usage_recorder, record_use,
}
use prunepytest.Tracker.Frames.{Paths}
use prunepytest.Tracker.Dynamic.{Recorded, failed, not_dynamic, import_at, record_dynamic_imports}
use prunepytest.Tracker.Load.Machinery.{Body, done, import_, from_import, use_anchor, System}
use prunepytest.Tracker.Load.Parts.{
  record_file, notify, reify_parent, finish_load, notify_then, after_load, settle, settle_raised,
  after_leave, add_module, from_module, track_from, track_all, track_fromlist, dynamic_base,
  mark_user, record_imports, settle_dynamic, is_relevant,
}
use prunepytest.Tracker.Load.{
  Result, Importer, FromImporter, loaded_then, settled, continue_load, find_and_load_helper,
  settled_dynamic, load_dynamic, load_marked, handle_tracked, load_recorded, new_find_and_load,
  new_handle_fromlist, Hooks, run, hooks,
}

-- Each statement of the hooks leaves the callback.
add_recorders-callback :
    (m : Module) (n : Name) (fns : Set Text) (s : Tracker)
    → (add_recorders m n fns s).import_callback ≡ s.import_callback
unfolding add_recorders
add_recorders-callback m n [] s = refl
add_recorders-callback m n (fn ∷ fns) s =
    add_recorders-callback m n fns (add_dynamic_usage_recorder m n fn s) ∙ ground arith

notify-callback :
    (n : Name) (s : Tracker) → (state_of (notify n s)).import_callback ≡ s.import_callback
unfolding notify
notify-callback n s = ground arith

reify_parent-callback :
    (n : Name) (ig : Bool) (s : Tracker) → (reify_parent n ig s).import_callback ≡ s.import_callback
unfolding reify_parent add_users
reify_parent-callback n ig s = ground arith

finish_load-callback :
    (n : Name) (ig : Bool) (m : Module) (s : Tracker)
    → (finish_load n ig m s).import_callback ≡ s.import_callback
unfolding finish_load
finish_load-callback n ig m s =
    let s' = reify_parent n ig s in
    ground (
      arith,
      reify_parent-callback n ig s,
      add_recorders-callback m n (lookup_or n [] s'.dynamic_anchors) s',
    )

pub notify_then-callback :
    (n : Name) (ig : Bool) (m : Module) (s : Tracker)
    → (notify_then n ig m s).1.import_callback ≡ s.import_callback
unfolding notify_then
notify_then-callback n ig m s = elim (Step-cases (notify n s)) [
  | inl (t, e) ↦ ground (arith, notify-callback n s, finish_load-callback n ig m t)
  | inr (x, t, e) ↦ ground (arith, notify-callback n s)
]

pub record_file-callback :
    (n : Name) (m : Module) (s : Tracker) → (record_file n m s).import_callback ≡ s.import_callback
unfolding record_file
record_file-callback n m s = ground arith

pub after_load-callback :
    (sys : System) (n : Name) (ig : Bool) (m : Module) (s : Tracker) (w : sys.World)
    → (after_load sys n ig m s w).1.import_callback ≡ s.import_callback
unfolding after_load
after_load-callback sys n ig m s w =
    ground (arith, notify_then-callback n ig m (record_file n m s), record_file-callback n m s)

pub settle-callback :
    (n : Name) (nc ig : Bool) (o : Outcome) (s : Tracker)
    → (settle n nc ig o s).1.import_callback ≡ s.import_callback
unfolding settle
settle-callback n nc ig (loaded m) s = refl
settle-callback n nc ig (raised e) s = refl

track_from-callback :
    (m : Module) (x : Text) (s : Tracker)
    → (state_of (track_from m x s)).import_callback ≡ s.import_callback
unfolding track_from
track_from-callback m x s = elim (Option-cases (from_module m x s)) [
  | inl e ↦ ground arith
  | inr (c, e) ↦ ground (arith, notify-callback c s)
]

track_all-callback :
    (m : Module) (xs : List Text) (s : Tracker)
    → (state_of (track_all m xs s)).import_callback ≡ s.import_callback
unfolding track_all
track_all-callback m [] s = refl
track_all-callback m (x ∷ xs) s = elim (Step-cases (track_from m x s)) [
  | inl (t, e) ↦ ground (arith, track_from-callback m x s, track_all-callback m xs t)
  | inr (y, t, e) ↦ ground (arith, track_from-callback m x s)
]

pub track_fromlist-callback :
    (m : Module) (xs : List Text) (s : Tracker)
    → (state_of (track_fromlist m xs s)).import_callback ≡ s.import_callback
unfolding track_fromlist
track_fromlist-callback m xs s = ground (arith, track_all-callback m xs s)

record_imports-callback :
    (a : Option Anchor) (b : Option (Set Name)) (s : Tracker)
    → (record_imports a b s).import_callback ≡ s.import_callback
unfolding record_imports
record_imports-callback none b s = refl
record_imports-callback (some a) none s = refl
record_imports-callback (some a) (some b) s = ground arith

pub settle_dynamic-callback :
    (n : Name) (ig : Bool) (prev : ℕ) (a : Option Anchor) (b : Option (Set Name)) (o : Outcome)
    (s : Tracker)
    → (settle_dynamic n ig prev a b o s).1.import_callback ≡ s.import_callback
unfolding settle_dynamic add_users
settle_dynamic-callback n ig prev a b o s = ground (
  arith,
  record_imports-callback a b (record s { dynamic_stack = prev }),
  record_imports-callback a b
      (record (add_users (top s.deps.stack) (lookup_or n [] s.dynamic_users) s) {
        dynamic_stack = prev;
      }),
)
  where
    top : List Name → Name
    top [] = []
    top (t ∷ r) = t

pub mark_user-callback :
    (a : Option Anchor) (ig : Bool) (s : Tracker)
    → (state_of (mark_user a ig s)).import_callback ≡ s.import_callback
unfolding mark_user add_users
mark_user-callback none ig s = refl
mark_user-callback (some a) ig s = ground arith

pub record_use-callback :
    (m : Name) (fn : Text) (tb : List Frame) (s : Tracker)
    → (record_use m fn tb s).import_callback ≡ s.import_callback
unfolding record_use add_users
record_use-callback m fn [] s = refl
record_use-callback m fn (f ∷ tb) s = record_use-callback m fn tb _ ∙ ground arith

pub record_dynamic_imports-callback :
    (p : Paths) (tb : List Frame) (s : Tracker)
    → (record_dynamic_imports p tb s).0.import_callback ≡ s.import_callback
unfolding record_dynamic_imports
record_dynamic_imports-callback p tb s = ground arith
