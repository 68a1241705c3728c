-- ===== src/Tracker/Load/Imports.antt =====
-- tracker.py: what an import through the hooks does to the dependencies, for any import machinery.
use prunepytest.Prelude.{
  ℕ, ◌≡◌, refl, ap, Bool, true, false, not, ◌&&◌, [], if◌then◌else◌, Bool-cases, inl, inr, arith,
  Option, none, contains, list_eq, nat_eq,
}
use prunepytest.Sets.{Set, Subset}
use prunepytest.Dict.{has}
use prunepytest.Tracker.Deps.{Name, Exn, fine, at, deps_of}
use prunepytest.Tracker.Deps.Invariant.{IsValid, Kept}
use prunepytest.Tracker.State.{Module, loaded, raised, Tracker}
use prunepytest.Tracker.Load.Machinery.{Body, System}
use prunepytest.Tracker.Load.{Importer, hooks, run, find_and_load_helper}
use prunepytest.Tracker.Load.Balance.{hooks-Kept, run-Kept, find_and_load_helper_lem}
use prunepytest.Tracker.Contexts.{enter_context, exit_context, set_callback, with_deps}
use prunepytest.Tracker.Contexts.Balance.{enter_lem, exit_lem, Exited}

Subset-unless :
    (b : Bool) (s t : Set Name) → (b ≡ false → Subset s t) → Subset (if b then [] else s) t
Subset-unless true s t h = λ x k. absurd (cc)
Subset-unless false s t h = h refl

module _ (sys : System) (record_dynamic : Bool) (depth : ℕ) where
  open sys use {World}

  -- Whatever the import machinery and the modules do, whether they return or raise, and however
  -- deep their imports nest, the hook on imports leaves valid contexts: the stack is what it was
  -- before, the current context is the set of its top, and no module that was tracked is forgotten.
  pub find-Kept :
      (n : Name) (s : Tracker) (w : World)
      → IsValid s.deps
      → Kept s.deps ((hooks sys record_dynamic depth).find n s w).1.deps
  find-Kept = (hooks-Kept sys record_dynamic depth).0

  -- The same of any code that runs under the hooks.
  pub code-Kept :
      (b : Body World) (s : Tracker)
      → IsValid s.deps
      → Kept s.deps (run sys (hooks sys record_dynamic depth) b s).1.deps
  code-Kept =
      let (kf, kl) = hooks-Kept sys record_dynamic depth in
      run-Kept sys (hooks sys record_dynamic depth) kf kl

  -- The real import of a module, under the hooks.
  abbrev pub real_import : Importer sys
  real_import n s w = run sys (hooks sys record_dynamic depth) (sys.find_and_load w n) s

  -- If `_find_and_load_helper` imports a module that was not tracked, then the module is tracked
  -- afterwards, and unless the import is ignored, the importing context has all the dependencies of the
  -- module.
  pub loaded_covers :
      (n : Name) (is_ignored : Bool) (s : Tracker) (w : World) (m : Module)
      → IsValid s.deps
      → has n s.deps.tracked ≡ false
      → let r = find_and_load_helper sys real_import n is_ignored s w in
        r.0 ≡ loaded m
        → (has n r.1.deps.tracked ≡ true)
          × Subset (if is_ignored then [] else deps_of n r.1.deps) (at r.1.deps.cxt r.1.deps)
  loaded_covers n is_ignored s w m v new e =
      let h =
        find_and_load_helper_lem sys real_import (λ n s w. code-Kept (sys.find_and_load w n) s) n
          is_ignored s w v in
      let (t, c) = h.covers new m e in
      let deps = find_and_load_helper sys real_import n is_ignored s w in
      (t, Subset-unless is_ignored (deps_of n deps.1.deps) (at deps.1.deps.cxt deps.1.deps) c)

  -- If `_find_and_load_helper` fails to import a module that was not tracked, then the module is not
  -- tracked afterwards either, and unless the import is ignored, the importing context does not name it.
  pub failed_forgotten :
      (n : Name) (is_ignored : Bool) (s : Tracker) (w : World) (x : Exn)
      → IsValid s.deps
      → has n s.deps.tracked ≡ false
      → let r = find_and_load_helper sys real_import n is_ignored s w in
        r.0 ≡ raised x
        → (has n r.1.deps.tracked ≡ false)
          × ((contains (at r.1.deps.cxt r.1.deps) n && not is_ignored) ≡ false)
  failed_forgotten n is_ignored s w x v new e =
      let h =
        find_and_load_helper_lem sys real_import (λ n s w. code-Kept (sys.find_and_load w n) s) n
          is_ignored s w v in
      let (t, c) = h.forgets new x e in
      (
        t,
        elim (Bool-cases is_ignored) [ inl b ↦ ground (arith, b) | inr b ↦ ground (arith, b, c b) ],
      )

  -- A context that is not on the stack can be entered; after any code under the hooks it can be
  -- left. Neither call raises, the contexts are valid and the stack is what it was, and all that
  -- the code imported in the context is a dependency of the context below.
  pub context_round_trip :
      (c : Name) (cb : Option (Name → Bool)) (b : Body World) (s : Tracker)
      → IsValid s.deps
      → contains s.deps.stack c ≡ false
      → (s1 s2 : Tracker) × (enter_context c cb s ≡ fine s1)
        × (exit_context c (run sys (hooks sys record_dynamic depth) b s1).1 ≡ fine s2)
        × Exited c s.deps (run sys (hooks sys record_dynamic depth) b s1).1.deps s2.deps
  unfolding enter_context exit_context set_callback
  context_round_trip c cb b s v out =
      let (d1, e1, n) = enter_lem c s.deps v out in
      let s1 : Tracker = record s { deps = d1; import_callback = cb } in
      let t = (run sys (hooks sys record_dynamic depth) b s1).1 in
      let (d2, e2, x) = exit_lem c s.deps d1 t.deps v n (code-Kept b s1 n.valid) in
      (
        s1,
        record t { deps = d2; import_callback = none },
        ap (λ r. set_callback cb (with_deps s r)) e1,
        ap (λ r. with_deps (record t { import_callback = none }) r) e2,
        x,
      )
