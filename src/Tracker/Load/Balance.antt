-- ===== src/Tracker/Load/Balance.antt =====
-- tracker.py: the hooks keep the import contexts in order, whatever code runs under them.
use prunepytest.Prelude.{
  ℕ, zero, suc, ◌≡◌, refl, ◌∙◌, sym, subst, ap, Bool, true, false, Option, List, contains, inl, inr,
  Bool-cases, list_eq, nat_eq,
}
use prunepytest.Text.{Text}
use prunepytest.Sets.{Set, Subset}
use prunepytest.Dict.{has}
use prunepytest.Tracker.Deps.{Name, Deps, Exn, Step, fine, fault, state_of, at, deps_of}
use prunepytest.Tracker.Deps.Invariant.{IsValid, Kept, Kept-refl, Kept-trans, Kept-along}
use prunepytest.Tracker.State.{Anchor, Module, Outcome, loaded, raised, Tracker, record_use}
use prunepytest.Tracker.Dynamic.{Recorded, failed, not_dynamic, import_at, record_dynamic_imports}
use prunepytest.Tracker.Load.Machinery.{Body, done, import_, from_import, use_anchor, System}
use prunepytest.Tracker.Load.Parts.{
  settle, settle_loaded, settle_raised, track_fromlist, mark_user, dynamic_base, is_relevant,
}
use prunepytest.Tracker.Load.Kept.{
  after_load-Kept, track_fromlist-Kept, settle_dynamic-deps, mark_user-deps, record_use-deps,
  record_dynamic_imports-deps,
}
use prunepytest.Tracker.Load.Settle.{Begun, begin_lem, leave-loaded, leave-raised, forget-Kept}
use prunepytest.Tracker.Load.{
  Result, Importer, FromImporter, loaded_then, settled, continue_load, find_and_load_helper,
  settled_dynamic, load_dynamic, load_marked, handle_tracked, load_recorded, new_find_and_load,
  new_handle_fromlist, Hooks, run, hooks,
}

module _ (sys : System) where
  open sys use {World}

  -- A call that keeps the contexts in order.
  abbrev pub Keeps : Importer sys → Type 0
  Keeps load =
      (n : Name) (s : Tracker) (w : World) → IsValid s.deps → Kept s.deps (load n s w).1.deps

  loaded_then-Kept :
      (n : Name) (ig : Bool) (r : Result sys)
      → IsValid r.1.deps
      → Kept r.1.deps (loaded_then sys n ig r).1.deps
  unfolding loaded_then
  loaded_then-Kept n ig (loaded m, s, w) v = after_load-Kept sys n ig m s w v
  loaded_then-Kept n ig (raised e, s, w) v = Kept-refl v

  -- What an import of `n` through the helper leaves, from the state `s`.
  pub record Handled (n : Name) (ig : Bool) (s : Tracker) (r : Result sys) : Type 0 where
    pub kept : Kept s.deps r.1.deps
    -- a new module that was loaded is tracked, and its importer depends on all that it depends on
    pub covers :
        has n s.deps.tracked ≡ false
        → (m : Module) → r.0 ≡ loaded m
        → (has n r.1.deps.tracked ≡ true)
          × (ig ≡ false → Subset (deps_of n r.1.deps) (at r.1.deps.cxt r.1.deps))
    -- a new module that failed is forgotten, also by its importer
    pub forgets :
        has n s.deps.tracked ≡ false
        → (e : Exn) → r.0 ≡ raised e
        → (has n r.1.deps.tracked ≡ false)
          × (ig ≡ false → contains (at r.1.deps.cxt r.1.deps) n ≡ false)

  -- `begin` and the import from a state that keeps its stack
  Begun-Kept :
      (n : Name) (s : Tracker) (d1 d : Deps) → Begun n s.deps d1 false → Kept d1 d → Kept s.deps d
  Begun-Kept n s d1 d b k = record {
    valid = k.valid;
    stack = k.stack ∙ b.stack;
    tracked = λ m h. k.tracked m (b.tracked m h);
  }

  settled-Handled :
      (n : Name) (ig nc : Bool) (s : Tracker) (d1 : Deps) (r : Result sys)
      → IsValid s.deps
      → Begun n s.deps d1 nc
      → Kept d1 r.1.deps
      → Handled n ig s (settled sys n nc ig r)
  unfolding settled settle settle_loaded settle_raised
  settled-Handled n ig true s d1 (loaded m, t, w) v b k =
      let (d', e, K, T, C) = leave-loaded n ig s.deps d1 t.deps v b k m in
      subst (Handled n ig s)
        (sym (ap (λ (p : Outcome × Deps). (p.0, record t { deps = p.1 }, w)) e))
        (record { kept = K; covers = λ new m2 h. (T, C); forgets = λ new x h. absurd (cc) })
  settled-Handled n ig false s d1 (loaded m, t, w) v b k = record {
    kept = Begun-Kept n s d1 t.deps b k;
    covers = λ new m2 h. absurd (cc (b.old refl));
    forgets = λ new x h. absurd (cc);
  }
  settled-Handled n ig true s d1 (raised x, t, w) v b k =
      let (d', e, K, T, C) = leave-raised n ig s.deps d1 t.deps v b k x in
      subst (Handled n ig s)
        (sym (ap (λ (p : Outcome × Deps). (p.0, record t { deps = p.1 }, w)) e))
        (record { kept = K; covers = λ new m2 h. absurd (cc); forgets = λ new y h. (T, C) })
  settled-Handled n ig false s d1 (raised x, t, w) v b k = record {
    kept = Kept-trans (Begun-Kept n s d1 t.deps b k) (forget-Kept n ig t.deps k.valid);
    covers = λ new m2 h. absurd (cc);
    forgets = λ new y h. absurd (cc (b.old refl));
  }

  module _ (load : Importer sys) (keeps : Keeps load) where
    pub find_and_load_helper_lem :
        (n : Name) (ig : Bool) (s : Tracker) (w : World)
        → IsValid s.deps
        → Handled n ig s (find_and_load_helper sys load n ig s w)
    unfolding find_and_load_helper continue_load
    find_and_load_helper_lem n ig s w v =
        let (d1, nc, e, b) = begin_lem n ig s.deps v in
        let k = keeps n (record s { deps = d1 }) w b.valid in
        let r = load n (record s { deps = d1 }) w in
        subst (λ p. Handled n ig s (continue_load sys load n ig s w p)) (sym e)
          (settled-Handled n ig nc s d1 (loaded_then sys n ig r) v b
            (Kept-trans k (loaded_then-Kept n ig r k.valid)))

    settled_dynamic-Kept :
        (n : Name) (ig : Bool) (prev : ℕ) (a : Option Anchor) (b : Option (Set Name)) (d : Deps)
        (r : Result sys)
        → Kept d r.1.deps
        → Kept d (settled_dynamic sys n ig prev a b r).1.deps
    unfolding settled_dynamic
    settled_dynamic-Kept n ig prev a b d (o, t, w) k =
        subst (Kept d) (sym (settle_dynamic-deps n ig prev a b o t)) k

    load_marked-Kept :
        (n : Name) (prev : ℕ) (a : Option Anchor) (ig : Bool) (b : Option (Set Name)) (w : World)
        (d : Deps) (r : Step Tracker)
        → IsValid d
        → (state_of r).deps ≡ d
        → Kept d (load_marked sys load n prev a ig b w r).1.deps
    unfolding load_marked
    load_marked-Kept n prev a ig b w d (fault x s) v e =
        Kept-along e (Kept-refl (subst IsValid (sym e) v))
    load_marked-Kept n prev a ig b w d (fine s) v e =
        settled_dynamic-Kept n ig prev a b d (find_and_load_helper sys load n ig s w)
          (Kept-along e (find_and_load_helper_lem n ig s w (subst IsValid (sym e) v)).kept)

    load_dynamic-Kept :
        (n : Name) (prev : ℕ) (a : Option Anchor) (ig : Bool) (s : Tracker) (w : World)
        → IsValid s.deps
        → Kept s.deps (load_dynamic sys load n prev a ig s w).1.deps
    unfolding load_dynamic
    load_dynamic-Kept n prev a ig s w v =
        load_marked-Kept n prev a ig (dynamic_base a ig s) w s.deps (mark_user a ig s) v
          (mark_user-deps a ig s)

    load_recorded-Kept :
        (n : Name) (w : World) (d : Deps) (r : Tracker × Recorded)
        → IsValid d
        → r.0.deps ≡ d
        → Kept d (load_recorded sys load n w r).1.deps
    unfolding load_recorded
    load_recorded-Kept n w d (s, failed x) v e = Kept-along e (Kept-refl (subst IsValid (sym e) v))
    load_recorded-Kept n w d (s, not_dynamic) v e =
        Kept-along e (find_and_load_helper_lem n false s w (subst IsValid (sym e) v)).kept
    load_recorded-Kept n w d (s, import_at prev a ig) v e =
        Kept-along e (load_dynamic-Kept n prev a ig s w (subst IsValid (sym e) v))

    pub new_find_and_load-Keeps :
        (record_dynamic : Bool) → Keeps (new_find_and_load sys record_dynamic load)
    new_find_and_load-Keeps rd n s w v =
        let r = record_dynamic_imports sys.paths (sys.extract_stack w) s in
        let k = keeps n s w v in
        let h = (find_and_load_helper_lem n false s w v).kept in
        let l =
          load_recorded-Kept n w s.deps r v
            (record_dynamic_imports-deps sys.paths (sys.extract_stack w) s) in
        elim (Bool-cases (is_relevant n s)) [
          | inl p ↦ elim (Bool-cases rd) [
            | inl q ↦ unfold new_find_and_load in rw (p, q) l
            | inr q ↦ unfold new_find_and_load in rw (p, q) h
          ]
          | inr p ↦ unfold new_find_and_load in rw p k
        ]

  -- Any code of the import machinery, under hooks that keep the contexts in order.
  pub run-Kept :
      (h : Hooks sys)
      → Keeps h.find
      → ((m : Module) (xs : List Text) (s : Tracker) (w : World)
          → IsValid s.deps
          → Kept s.deps (h.from_list m xs s w).1.deps)
      → (b : Body World) (s : Tracker) → IsValid s.deps
      → Kept s.deps (run sys h b s).1.deps
  unfolding run
  run-Kept h kf kl (done o w) s v = Kept-refl v
  run-Kept h kf kl (import_ n w c) s v =
      let k = kf n s w v in
      let r = h.find n s w in Kept-trans k (run-Kept h kf kl (c r.0 r.2) r.1 k.valid)
  run-Kept h kf kl (from_import m xs w c) s v =
      let k = kl m xs s w v in
      let r = h.from_list m xs s w in Kept-trans k (run-Kept h kf kl (c r.0 r.2) r.1 k.valid)
  run-Kept h kf kl (use_anchor (m, fn) w c) s v =
      let e = record_use-deps m fn (sys.extract_stack w) s in
      Kept-along e
        (run-Kept h kf kl (c w) (record_use m fn (sys.extract_stack w) s) (subst IsValid (sym e) v))

  handle_tracked-Kept :
      (h : FromImporter sys)
      → ((m : Module) (xs : List Text) (s : Tracker) (w : World)
          → IsValid s.deps
          → Kept s.deps (h m xs s w).1.deps)
      → (m : Module) (xs : List Text) (w : World) (d : Deps) (r : Step Tracker)
      → Kept d (state_of r).deps
      → Kept d (handle_tracked sys h m xs w r).1.deps
  unfolding handle_tracked
  handle_tracked-Kept h kh m xs w d (fine s) k = Kept-trans k (kh m xs s w k.valid)
  handle_tracked-Kept h kh m xs w d (fault e s) k = k

  pub hooks-Kept :
      (rd : Bool) (depth : ℕ)
      → Keeps (hooks sys rd depth).find
        × ((m : Module) (xs : List Text) (s : Tracker) (w : World)
            → IsValid s.deps
            → Kept s.deps ((hooks sys rd depth).from_list m xs s w).1.deps)
  unfolding hooks new_handle_fromlist
  hooks-Kept rd zero = (λ n s w v. Kept-refl v, λ m xs s w v. Kept-refl v)
  hooks-Kept rd (suc depth) =
      let h = hooks sys rd depth in
      let (kf, kl) = hooks-Kept rd depth in
      (
        new_find_and_load-Keeps (λ n s w. run sys h (sys.find_and_load w n) s)
            (λ n s w v. run-Kept h kf kl (sys.find_and_load w n) s v) rd,
        λ m xs s w v.
            handle_tracked-Kept (λ m xs s w. run sys h (sys.handle_fromlist w m xs) s)
              (λ m xs s w v. run-Kept h kf kl (sys.handle_fromlist w m xs) s v) m xs w s.deps
              (track_fromlist m xs s) (track_fromlist-Kept m xs s v),
      )
