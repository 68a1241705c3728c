-- ===== src/Tracker/Load/Callback/Refused.antt =====
-- tracker.py: the import callback stays installed whatever runs under the hooks, and an import that it
-- refuses does not succeed.
use prunepytest.Prelude.{
  ℕ, zero, suc, ◌≡◌, refl, ◌∙◌, Bool, true, false, Option, some, List, arith, inl, inr, Bool-cases,
  list_eq, nat_eq,
}
use prunepytest.Text.{Text}
use prunepytest.Sets.{Set}
use prunepytest.Tracker.Deps.{Name, Deps, Exn, Step, fine, fault, state_of, begin, leave, untrack}
use prunepytest.Tracker.State.{Anchor, Module, loaded, raised, Tracker, record_use}
use prunepytest.Tracker.Dynamic.{Recorded, failed, not_dynamic, import_at, record_dynamic_imports}
use prunepytest.Tracker.Load.Machinery.{Body, done, import_, from_import, use_anchor, System}
use prunepytest.Tracker.Load.Parts.{
  record_file, notify, notify_then, after_load, settle, settle_raised, after_leave, track_fromlist,
  dynamic_base, mark_user, settle_dynamic, is_relevant,
}
use prunepytest.Tracker.Load.{
  Result, Importer, FromImporter, loaded_then, settled, continue_load, find_and_load_helper,
  settled_dynamic, load_dynamic, load_marked, handle_tracked, load_recorded, new_find_and_load,
  new_handle_fromlist, Hooks, run, hooks,
}
use prunepytest.Tracker.Load.Callback.{
  record_file-callback, after_load-callback, settle-callback, track_fromlist-callback,
  settle_dynamic-callback, mark_user-callback, record_use-callback, record_dynamic_imports-callback,
}

-- A loaded module is one that the callback let through.
notify_then-passed :
    (n : Name) (ig : Bool) (m m' : Module) (s : Tracker) (c : Name → Bool)
    → s.import_callback ≡ some c
    → (notify_then n ig m s).0 ≡ loaded m'
    → c n ≡ false
unfolding notify_then notify
notify_then-passed n ig m m' s c k h = ground arith

after_load-passed :
    (sys : System) (n : Name) (ig : Bool) (m m' : Module) (s : Tracker) (w : sys.World)
    (c : Name → Bool)
    → s.import_callback ≡ some c
    → (after_load sys n ig m s w).0 ≡ loaded m'
    → c n ≡ false
unfolding after_load
after_load-passed sys n ig m m' s w c k h =
    let q = notify_then-passed n ig m m' (record_file n m s) c (record_file-callback n m s ∙ k) in
    ground (arith, q)

after_leave-raised :
    (n : Name) (e : Exn) (ig : Bool) (r : Step Deps) (m : Module)
    → ¬ ((after_leave n e ig r).0 ≡ loaded m)
unfolding after_leave
after_leave-raised n e ig (fine d) m h = cc
after_leave-raised n e ig (fault x d) m h = cc

settle_raised-raised :
    (n : Name) (e : Exn) (nc ig : Bool) (d : Deps) (m : Module)
    → ¬ ((settle_raised n e nc ig d).0 ≡ loaded m)
unfolding settle_raised
settle_raised-raised n e true ig d m h =
    let (e', d') = untrack n e d in after_leave-raised n e' ig (leave ig d') m h
settle_raised-raised n e false ig d m h = cc

module _ (sys : System) where
  open sys use {World}

  abbrev pub Leaves : Importer sys → Type 0
  Leaves load =
      (n : Name) (s : Tracker) (w : World) → (load n s w).1.import_callback ≡ s.import_callback

  loaded_then-callback :
      (n : Name) (ig : Bool) (r : Result sys)
      → (loaded_then sys n ig r).1.import_callback ≡ r.1.import_callback
  unfolding loaded_then
  loaded_then-callback n ig (loaded m, s, w) = after_load-callback sys n ig m s w
  loaded_then-callback n ig (raised e, s, w) = refl

  loaded_then-passed :
      (n : Name) (ig : Bool) (r : Result sys) (m' : Module) (c : Name → Bool)
      → r.1.import_callback ≡ some c
      → (loaded_then sys n ig r).0 ≡ loaded m'
      → c n ≡ false
  unfolding loaded_then
  loaded_then-passed n ig (loaded m, s, w) m' c k h = after_load-passed sys n ig m m' s w c k h
  loaded_then-passed n ig (raised e, s, w) m' c k h = absurd (cc)

  settled-callback :
      (n : Name) (nc ig : Bool) (r : Result sys)
      → (settled sys n nc ig r).1.import_callback ≡ r.1.import_callback
  unfolding settled
  settled-callback n nc ig (o, s, w) = settle-callback n nc ig o s

  -- An error stays an error at the end of an import.
  settled-loaded :
      (n : Name) (nc ig : Bool) (r : Result sys) (m' : Module)
      → (settled sys n nc ig r).0 ≡ loaded m'
      → (m : Module) × (r.0 ≡ loaded m)
  unfolding settled settle
  settled-loaded n nc ig (loaded m, s, w) m' h = (m, refl)
  settled-loaded n nc ig (raised e, s, w) m' h = absurd (settle_raised-raised n e nc ig s.deps m' h)

  continue_load-callback :
      (load : Importer sys)
      → Leaves load
      → (n : Name) (ig : Bool) (s : Tracker) (w : World) (b : Step Deps × Bool)
      → (continue_load sys load n ig s w b).1.import_callback ≡ s.import_callback
  unfolding continue_load
  continue_load-callback load l n ig s w (fault e d, nc) = refl
  continue_load-callback load l n ig s w (fine d, nc) =
      let r = load n (record s { deps = d }) w in
      settled-callback n nc ig (loaded_then sys n ig r)
      ∙ loaded_then-callback n ig r
      ∙ l n (record s { deps = d }) w

  continue_load-passed :
      (load : Importer sys)
      → Leaves load
      → (n : Name) (ig : Bool) (s : Tracker) (w : World) (b : Step Deps × Bool) (m' : Module)
        (c : Name → Bool)
      → s.import_callback ≡ some c
      → (continue_load sys load n ig s w b).0 ≡ loaded m'
      → c n ≡ false
  unfolding continue_load
  continue_load-passed load l n ig s w (fault e d, nc) m' c k h = absurd (cc)
  continue_load-passed load l n ig s w (fine d, nc) m' c k h =
      let r = load n (record s { deps = d }) w in
      let (m, q) = settled-loaded n nc ig (loaded_then sys n ig r) m' h in
      loaded_then-passed n ig r m c (l n (record s { deps = d }) w ∙ k) q

  settled_dynamic-callback :
      (n : Name) (ig : Bool) (prev : ℕ) (a : Option Anchor) (b : Option (Set Name)) (r : Result sys)
      → (settled_dynamic sys n ig prev a b r).1.import_callback ≡ r.1.import_callback
  unfolding settled_dynamic
  settled_dynamic-callback n ig prev a b (o, t, w) = settle_dynamic-callback n ig prev a b o t

  settled_dynamic-loaded :
      (n : Name) (ig : Bool) (prev : ℕ) (a : Option Anchor) (b : Option (Set Name)) (r : Result sys)
      (m : Module)
      → (settled_dynamic sys n ig prev a b r).0 ≡ loaded m
      → r.0 ≡ loaded m
  unfolding settled_dynamic settle_dynamic
  settled_dynamic-loaded n ig prev a b (o, t, w) m h = ground arith

  module _ (load : Importer sys) (l : Leaves load) where
    helper-callback :
        (n : Name) (ig : Bool) (s : Tracker) (w : World)
        → (find_and_load_helper sys load n ig s w).1.import_callback ≡ s.import_callback
    unfolding find_and_load_helper
    helper-callback n ig s w = continue_load-callback load l n ig s w (begin n ig s.deps)

    helper-passed :
        (n : Name) (ig : Bool) (s : Tracker) (w : World) (m : Module) (c : Name → Bool)
        → s.import_callback ≡ some c
        → (find_and_load_helper sys load n ig s w).0 ≡ loaded m
        → c n ≡ false
    unfolding find_and_load_helper
    helper-passed n ig s w m c k h =
        continue_load-passed load l n ig s w (begin n ig s.deps) m c k h

    load_marked-callback :
        (n : Name) (prev : ℕ) (a : Option Anchor) (ig : Bool) (b : Option (Set Name)) (w : World)
        (r : Step Tracker)
        → (load_marked sys load n prev a ig b w r).1.import_callback ≡ (state_of r).import_callback
    unfolding load_marked
    load_marked-callback n prev a ig b w (fault x s) = refl
    load_marked-callback n prev a ig b w (fine s) =
        settled_dynamic-callback n ig prev a b (find_and_load_helper sys load n ig s w)
        ∙ helper-callback n ig s w

    load_marked-passed :
        (n : Name) (prev : ℕ) (a : Option Anchor) (ig : Bool) (b : Option (Set Name)) (w : World)
        (r : Step Tracker) (m : Module) (c : Name → Bool)
        → (state_of r).import_callback ≡ some c
        → (load_marked sys load n prev a ig b w r).0 ≡ loaded m
        → c n ≡ false
    unfolding load_marked
    load_marked-passed n prev a ig b w (fault x s) m c k h = absurd (cc)
    load_marked-passed n prev a ig b w (fine s) m c k h =
        helper-passed n ig s w m c k
          (settled_dynamic-loaded n ig prev a b (find_and_load_helper sys load n ig s w) m h)

    load_recorded-callback :
        (n : Name) (w : World) (r : Tracker × Recorded)
        → (load_recorded sys load n w r).1.import_callback ≡ r.0.import_callback
    unfolding load_recorded load_dynamic
    load_recorded-callback n w (s, failed x) = refl
    load_recorded-callback n w (s, not_dynamic) = helper-callback n false s w
    load_recorded-callback n w (s, import_at prev a ig) =
        load_marked-callback n prev a ig (dynamic_base a ig s) w (mark_user a ig s)
        ∙ mark_user-callback a ig s

    load_recorded-passed :
        (n : Name) (w : World) (r : Tracker × Recorded) (m : Module) (c : Name → Bool)
        → r.0.import_callback ≡ some c
        → (load_recorded sys load n w r).0 ≡ loaded m
        → c n ≡ false
    unfolding load_recorded load_dynamic
    load_recorded-passed n w (s, failed x) m c k h = absurd (cc)
    load_recorded-passed n w (s, not_dynamic) m c k h = helper-passed n false s w m c k h
    load_recorded-passed n w (s, import_at prev a ig) m c k h =
        load_marked-passed n prev a ig (dynamic_base a ig s) w (mark_user a ig s) m c
          (mark_user-callback a ig s ∙ k) h

    new_find_and_load-callback : (rd : Bool) → Leaves (new_find_and_load sys rd load)
    new_find_and_load-callback rd n s w =
        let r = record_dynamic_imports sys.paths (sys.extract_stack w) s in
        let q =
          load_recorded-callback n w r
          ∙ record_dynamic_imports-callback sys.paths (sys.extract_stack w) s in
        elim (Bool-cases (is_relevant n s)) [
          | inl p ↦ elim (Bool-cases rd) [
            | inl t ↦ unfold new_find_and_load in rw (p, t) q
            | inr t ↦ unfold new_find_and_load in rw (p, t) (helper-callback n false s w)
          ]
          | inr p ↦ unfold new_find_and_load in rw p (l n s w)
        ]

    new_find_and_load-passed :
        (rd : Bool) (n : Name) (s : Tracker) (w : World) (m : Module) (c : Name → Bool)
        → is_relevant n s ≡ true
        → s.import_callback ≡ some c
        → (new_find_and_load sys rd load n s w).0 ≡ loaded m
        → c n ≡ false
    unfolding new_find_and_load
    new_find_and_load-passed true n s w m c p k h =
        let r = record_dynamic_imports sys.paths (sys.extract_stack w) s in
        load_recorded-passed n w r m c
          (record_dynamic_imports-callback sys.paths (sys.extract_stack w) s ∙ k) (rw p at h)
    new_find_and_load-passed false n s w m c p k h = helper-passed n false s w m c k (rw p at h)

  run-callback :
      (h : Hooks sys)
      → Leaves h.find
      → ((m : Module) (xs : List Text) (s : Tracker) (w : World)
          → (h.from_list m xs s w).1.import_callback ≡ s.import_callback)
      → (b : Body World) (s : Tracker) → (run sys h b s).1.import_callback ≡ s.import_callback
  unfolding run
  run-callback h kf kl (done o w) s = refl
  run-callback h kf kl (import_ n w c) s =
      let r = h.find n s w in run-callback h kf kl (c r.0 r.2) r.1 ∙ kf n s w
  run-callback h kf kl (from_import m xs w c) s =
      let r = h.from_list m xs s w in run-callback h kf kl (c r.0 r.2) r.1 ∙ kl m xs s w
  run-callback h kf kl (use_anchor (m, fn) w c) s =
      run-callback h kf kl (c w) (record_use m fn (sys.extract_stack w) s)
      ∙ record_use-callback m fn (sys.extract_stack w) s

  handle_tracked-callback :
      (h : FromImporter sys)
      → ((m : Module) (xs : List Text) (s : Tracker) (w : World)
          → (h m xs s w).1.import_callback ≡ s.import_callback)
      → (m : Module) (xs : List Text) (w : World) (r : Step Tracker)
      → (handle_tracked sys h m xs w r).1.import_callback ≡ (state_of r).import_callback
  unfolding handle_tracked
  handle_tracked-callback h kh m xs w (fine s) = kh m xs s w
  handle_tracked-callback h kh m xs w (fault e s) = refl

  hooks-callback :
      (rd : Bool) (depth : ℕ)
      → Leaves (hooks sys rd depth).find
        × ((m : Module) (xs : List Text) (s : Tracker) (w : World)
            → ((hooks sys rd depth).from_list m xs s w).1.import_callback ≡ s.import_callback)
  unfolding hooks new_handle_fromlist
  hooks-callback rd zero = (λ n s w. refl, λ m xs s w. refl)
  hooks-callback rd (suc depth) =
      let h = hooks sys rd depth in
      let (kf, kl) = hooks-callback rd depth in
      (
        new_find_and_load-callback (λ n s w. run sys h (sys.find_and_load w n) s)
            (λ n s w. run-callback h kf kl (sys.find_and_load w n) s) rd,
        λ m xs s w.
            handle_tracked-callback (λ m xs s w. run sys h (sys.handle_fromlist w m xs) s)
              (λ m xs s w. run-callback h kf kl (sys.handle_fromlist w m xs) s) m xs w
              (track_fromlist m xs s)
            ∙ track_fromlist-callback m xs s,
      )

  -- The callback that is installed when code starts to run under the hooks is installed when it ends.
  pub code-callback :
      (rd : Bool) (depth : ℕ) (b : Body World) (s : Tracker)
      → (run sys (hooks sys rd depth) b s).1.import_callback ≡ s.import_callback
  code-callback rd depth =
      let (kf, kl) = hooks-callback rd depth in run-callback (hooks sys rd depth) kf kl

  -- If an import of a name in a tracked namespace through the hook succeeds while a callback is
  -- installed, then the callback does not raise on that name.
  pub find-passed :
      (rd : Bool) (depth : ℕ) (n : Name) (s : Tracker) (w : World) (m : Module) (c : Name → Bool)
      → is_relevant n s ≡ true
      → s.import_callback ≡ some c
      → ((hooks sys rd depth).find n s w).0 ≡ loaded m
      → c n ≡ false
  unfolding hooks
  find-passed rd zero n s w m c p k h = absurd (cc)
  find-passed rd (suc depth) n s w m c p k h =
      let (kf, kl) = hooks-callback rd depth in
      new_find_and_load-passed (λ n s w. run sys (hooks sys rd depth) (sys.find_and_load w n) s)
        (λ n s w. run-callback (hooks sys rd depth) kf kl (sys.find_and_load w n) s) rd n s w m c p
        k h
