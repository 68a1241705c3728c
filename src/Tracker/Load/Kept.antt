-- ===== src/Tracker/Load/Kept.antt =====
-- tracker.py: every statement of the hooks keeps the import contexts in order.
use prunepytest.Prelude.{
  ℕ, ◌≡◌, refl, ◌∙◌, sym, subst, Bool, Option, none, some, List, [], ◌∷◌, arith, inl, inr,
  Option-cases, Bool-cases, list_eq, nat_eq,
}
use prunepytest.Text.{Text}
use prunepytest.Sets.{Set}
use prunepytest.Dict.{lookup_or, has}
use prunepytest.Tracker.Deps.{
  Name, Deps, Step, fine, fault, Step-cases, state_of, deps_of, add_cxt, update_cxt,
}
use prunepytest.Tracker.Deps.Invariant.{
  IsValid, Kept, Kept-refl, Kept-trans, add_cxt-Kept, update_cxt-Kept,
}
use prunepytest.Tracker.State.{
  Module, Outcome, Tracker, parent, add_users, add_recorders, add_imports,
  add_dynamic_usage_recorder, record_use, Frame,
}
use prunepytest.Tracker.Frames.{Paths}
use prunepytest.Tracker.Dynamic.{record_dynamic_imports}
use prunepytest.Tracker.Load.Machinery.{System}
use prunepytest.Tracker.Load.Parts.{
  record_file, notify, reify_parent, finish_load, notify_then, after_load, add_module, from_module,
  track_from, track_all, track_fromlist, mark_user, record_imports, settle_dynamic,
}

-- Statements that do not touch the import contexts.
add_recorders-deps :
    (m : Module) (n : Name) (fns : Set Text) (s : Tracker) → (add_recorders m n fns s).deps ≡ s.deps
unfolding add_recorders
add_recorders-deps m n [] s = refl
add_recorders-deps m n (fn ∷ fns) s =
    add_recorders-deps m n fns (add_dynamic_usage_recorder m n fn s) ∙ ground arith

notify-deps : (n : Name) (s : Tracker) → (state_of (notify n s)).deps ≡ s.deps
unfolding notify
notify-deps n s = ground arith

record_file-deps : (n : Name) (m : Module) (s : Tracker) → (record_file n m s).deps ≡ s.deps
unfolding record_file
record_file-deps n m s = ground arith

record_imports-deps :
    (a : Option (Name × Text)) (b : Option (Set Name)) (s : Tracker)
    → (record_imports a b s).deps ≡ s.deps
unfolding record_imports
record_imports-deps none b s = refl
record_imports-deps (some a) none s = refl
record_imports-deps (some a) (some b) s = unfold add_imports in ground arith

Kept-of_eq : {d : Deps} (d' : Deps) → IsValid d → d' ≡ d → Kept d d'
Kept-of_eq {d} d' v e = subst (λ t. Kept d t) (sym e) (Kept-refl v)

pub notify-Kept :
    (n : Name) (s : Tracker)
    → IsValid s.deps
    → (r : Step Tracker) → notify n s ≡ r
    → Kept s.deps (state_of r).deps
notify-Kept n s v r e =
    subst (λ (r : Step Tracker). Kept s.deps (state_of r).deps) e (Kept-of_eq _ v (notify-deps n s))

add_update-Kept :
    (n : Name) (t : Set Name) (d : Deps) → IsValid d → Kept d (update_cxt t (add_cxt n d))
add_update-Kept n t d v =
    let k = add_cxt-Kept d v n in Kept-trans k (update_cxt-Kept (add_cxt n d) k.valid t)

reify_parent-Kept :
    (n : Name) (ig : Bool) (s : Tracker) → IsValid s.deps → Kept s.deps (reify_parent n ig s).deps
unfolding reify_parent add_users
reify_parent-Kept n ig s v =
    let p = parent n in
    let d = add_cxt p s.deps in
    ground (arith, Kept-refl v, add_update-Kept p (deps_of p d) s.deps v)

finish_load-Kept :
    (n : Name) (ig : Bool) (m : Module) (s : Tracker)
    → IsValid s.deps
    → Kept s.deps (finish_load n ig m s).deps
unfolding finish_load
finish_load-Kept n ig m s v =
    let s' = reify_parent n ig s in
    let k = reify_parent-Kept n ig s v in
    elim (Bool-cases (has n s'.dynamic_anchors)) [
      | inl e ↦ rw (e, add_recorders-deps) k
      | inr e ↦ rw e k
    ]

notify_then-Kept :
    (n : Name) (ig : Bool) (m : Module) (s : Tracker)
    → IsValid s.deps
    → Kept s.deps (notify_then n ig m s).1.deps
unfolding notify_then
notify_then-Kept n ig m s v = elim (Step-cases (notify n s)) [
  | inl (t, e) ↦
      let k = notify-Kept n s v (fine t) e in
      rw (e, notify_then) (Kept-trans k (finish_load-Kept n ig m t k.valid))
  | inr (x, t, e) ↦ rw (e, notify_then) (notify-Kept n s v (fault x t) e)
]

pub after_load-Kept :
    (sys : System) (n : Name) (ig : Bool) (m : Module) (s : Tracker) (w : sys.World)
    → IsValid s.deps
    → Kept s.deps (after_load sys n ig m s w).1.deps
unfolding after_load
after_load-Kept sys n ig m s w v =
    let s' = record_file n m s in
    let e = record_file-deps n m s in
    let v' : IsValid s'.deps = subst IsValid (sym e) v in
    let k : Kept s.deps (notify_then n ig m s').1.deps =
      subst (λ d. Kept d (notify_then n ig m s').1.deps) e (notify_then-Kept n ig m s' v') in
    let k' = Kept-of_eq s'.deps v e in ground (arith, k, k')

-- The `from` list.
add_module-Kept : (n : Name) (s : Tracker) → IsValid s.deps → Kept s.deps (add_module n s).deps
unfolding add_module
add_module-Kept n s v =
    let d = add_cxt n s.deps in
    ground (arith, add_cxt-Kept s.deps v n, add_update-Kept n (deps_of n d) s.deps v)

track_from-Kept :
    (m : Module) (x : Text) (s : Tracker)
    → IsValid s.deps
    → Kept s.deps (state_of (track_from m x s)).deps
unfolding track_from
track_from-Kept m x s v = elim (Option-cases (from_module m x s)) [
  | inl e ↦ rw (e, track_from) (Kept-refl v)
  | inr (c, e) ↦ elim (Step-cases (notify c s)) [
    | inl (t, f) ↦
        let k = notify-Kept c s v (fine t) f in
        rw (e, f, track_from) (Kept-trans k (add_module-Kept c t k.valid))
    | inr (y, t, f) ↦ rw (e, f, track_from) (notify-Kept c s v (fault y t) f)
  ]
]

track_all-Kept :
    (m : Module) (xs : List Text) (s : Tracker)
    → IsValid s.deps
    → Kept s.deps (state_of (track_all m xs s)).deps
unfolding track_all
track_all-Kept m [] s v = Kept-refl v
track_all-Kept m (x ∷ xs) s v = elim (Step-cases (track_from m x s)) [
  | inl (t, e) ↦
      let k =
        subst (λ (r : Step Tracker). Kept s.deps (state_of r).deps) e (track_from-Kept m x s v) in
      rw (e, track_all) (Kept-trans k (track_all-Kept m xs t k.valid))
  | inr (y, t, e) ↦
      rw (e, track_all)
        (subst (λ (r : Step Tracker). Kept s.deps (state_of r).deps) e (track_from-Kept m x s v))
]

pub track_fromlist-Kept :
    (m : Module) (xs : List Text) (s : Tracker)
    → IsValid s.deps
    → Kept s.deps (state_of (track_fromlist m xs s)).deps
unfolding track_fromlist
track_fromlist-Kept m xs s v = ground (arith, Kept-refl v, track_all-Kept m xs s v)

-- The book-keeping of a dynamic import.
pub settle_dynamic-deps :
    (n : Name) (ig : Bool) (prev : ℕ) (a : Option (Name × Text)) (b : Option (Set Name))
    (o : Outcome) (s : Tracker)
    → (settle_dynamic n ig prev a b o s).1.deps ≡ s.deps
unfolding settle_dynamic add_users
settle_dynamic-deps n ig prev a b o s = ground (
  arith,
  record_imports-deps a b (record s { dynamic_stack = prev }),
  record_imports-deps a b
      (record (add_users (top s.deps.stack) (lookup_or n [] s.dynamic_users) s) {
        dynamic_stack = prev;
      }),
)
  where
    top : List Name → Name
    top [] = []
    top (t ∷ r) = t

pub mark_user-deps :
    (a : Option (Name × Text)) (ig : Bool) (s : Tracker)
    → (state_of (mark_user a ig s)).deps ≡ s.deps
unfolding mark_user add_users
mark_user-deps none ig s = refl
mark_user-deps (some a) ig s = ground arith

pub record_use-deps :
    (m : Name) (fn : Text) (tb : List Frame) (s : Tracker) → (record_use m fn tb s).deps ≡ s.deps
unfolding record_use add_users
record_use-deps m fn [] s = refl
record_use-deps m fn (f ∷ tb) s = record_use-deps m fn tb _ ∙ ground arith

pub record_dynamic_imports-deps :
    (p : Paths) (tb : List Frame) (s : Tracker) → (record_dynamic_imports p tb s).0.deps ≡ s.deps
unfolding record_dynamic_imports
record_dynamic_imports-deps p tb s = ground arith
