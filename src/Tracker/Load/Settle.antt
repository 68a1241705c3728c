-- ===== src/Tracker/Load/Settle.antt =====
-- tracker.py: the entry and the `finally` of `_find_and_load_helper`, which pushes a context and
-- pops it.
use prunepytest.Prelude.{
  ℕ, ◌<◌, ◌≡◌, refl, ◌∙◌, sym, subst, ap, Bool, true, false, ◌||◌, some, List, [], ◌∷◌, ◌==◌,
  contains, arith, get_or-set_self, get_or-set_ne, inl, inr, Bool-cases, length, if◌then◌else◌,
  list_eq, nat_eq,
}
use prunepytest.Sets.{Set, Subset, union, contains-union, discard, contains-discard}
use prunepytest.Dict.{Dict, lookup, has, erase, lookup-erase, lookup-insert}
use prunepytest.Tracker.Deps.{
  Name, Deps, Exn, fine, at, deps_of, push, add_cxt, discard_cxt, leave, leave_to, untrack, begin,
}
use prunepytest.Tracker.Deps.Invariant.{
  TopIs-cases, IsValid, Kept, Kept-refl, Kept-trans, add_cxt-Kept, discard_cxt-Kept, push-IsValid,
  leave_lem,
}
use prunepytest.Tracker.Deps.Join.{join_lem}
use prunepytest.Tracker.State.{Module, loaded, raised}
use prunepytest.Tracker.Load.Parts.{forget, after_leave, settle_loaded, settle_raised}

-- What `begin` leaves: the state is valid, and either the stack is as it was, or `n` was not
-- tracked and is now on top of it.
pub record Begun (n : Name) (d d' : Deps) (new_context : Bool) : Type 0 where
  pub valid : IsValid d'
  pub tracked : (m : Name) → has m d.tracked ≡ true → has m d'.tracked ≡ true
  pub stack : d'.stack ≡ (if new_context then n ∷ d.stack else d.stack)
  pub fresh : new_context ≡ true → has n d.tracked ≡ false
  pub old : new_context ≡ false → has n d.tracked ≡ true

has-push : (m n : Name) (d : Deps) → has m (push n d).tracked ≡ (m == n || has m d.tracked)
unfolding has push
has-push m n d = ground (arith, lookup-insert m n (length d.heap) d.tracked)

stack-push : (n : Name) (d : Deps) → (push n d).stack ≡ n ∷ d.stack
unfolding push
stack-push n d = refl

-- The state in which `begin` looks for the name.
abbrev entered : Name → Bool → Deps → Deps
entered n ig d = if ig then d else add_cxt n d

entered-Kept : (n : Name) (ig : Bool) (d : Deps) → IsValid d → Kept d (entered n ig d)
entered-Kept n true d v = Kept-refl v
entered-Kept n false d v = add_cxt-Kept d v n

tracked-entered : (n : Name) (ig : Bool) (d : Deps) → (entered n ig d).tracked ≡ d.tracked
unfolding add_cxt
tracked-entered n true d = refl
tracked-entered n false d = refl

seen :
    (n : Name) (ig : Bool) (d : Deps)
    → IsValid d
    → has n (entered n ig d).tracked ≡ true
    → (d' : Deps) × (new_context : Bool) × (begin n ig d ≡ (fine d', new_context))
      × Begun n d d' new_context
unfolding begin
seen n true d v old = (
  d,
  false,
  rw old,
  record { valid = v; tracked = λ m h. h; stack = refl; fresh = λ h. cc; old = λ h. old },
)
seen n false d v old =
    let k = add_cxt-Kept d v n in
    let (d', r, J) = join_lem n (add_cxt n d) k.valid old in
    let t = Kept-trans k J.kept in
    (
      d',
      false,
      rw (old, r),
      record {
        valid = t.valid;
        tracked = t.tracked;
        stack = t.stack;
        fresh = λ h. cc;
        old = λ h. ap (has n) (sym (tracked-entered n false d)) ∙ old;
      },
    )

pub begin_lem :
    (n : Name) (ig : Bool) (d : Deps)
    → IsValid d
    → (d' : Deps) × (new_context : Bool) × (begin n ig d ≡ (fine d', new_context))
      × Begun n d d' new_context
begin_lem n ig d v = elim (Bool-cases (has n (entered n ig d).tracked)) [
  | inl old ↦ seen n ig d v old
  | inr new ↦
      let e = entered n ig d in
      let k = entered-Kept n ig d v in
      (
        push n e,
        true,
        unfold begin in rw new,
        record {
          valid = push-IsValid e k.valid n;
          tracked = λ m h. ground (arith, has-push m n e, k.tracked m h);
          stack = stack-push n e ∙ ap (λ s. n ∷ s) k.stack;
          fresh = λ h. ap (has n) (sym (tracked-entered n ig d)) ∙ new;
          old = λ h. cc;
        },
      )
]

pub has-erase :
    (j n : Name) (t : Dict Name ℕ) → has j (erase n t) ≡ (if j == n then false else has j t)
unfolding has
has-erase j n t = ground (arith, lookup-erase j n t)

cxt_in_heap : (d : Deps) → IsValid d → d.cxt < length d.heap
cxt_in_heap d v =
    let (t, r, s, k) = TopIs-cases d.stack d.tracked d.cxt v.top in v.bounded t d.cxt k

-- The set of the context below covers the one that is left.
covers-leave_to :
    (n : Name) (s : List Name) (down : ℕ) (d : Deps)
    → lookup n d.tracked ≡ some d.cxt
    → down < length d.heap
    → Subset (deps_of n (leave_to false s down d)) (at down (leave_to false s down d))
unfolding leave_to deps_of
covers-leave_to n s down d known bound x h =
    let here : Set Name = union (at down d) (at d.cxt d) in
    ground (
      arith,
      get_or-set_self d.heap down here [] bound,
      get_or-set_ne d.heap down d.cxt here [],
      contains-union (at down d) (at d.cxt d) x,
    )

pub forget-Kept : (n : Name) (ig : Bool) (d : Deps) → IsValid d → Kept d (forget n ig d)
unfolding forget
forget-Kept n true d v = Kept-refl v
forget-Kept n false d v = discard_cxt-Kept d v n

tracked-forget : (n : Name) (ig : Bool) (d : Deps) → (forget n ig d).tracked ≡ d.tracked
unfolding forget discard_cxt
tracked-forget n true d = refl
tracked-forget n false d = refl

forget_lem :
    (n : Name) (d : Deps)
    → IsValid d
    → contains (at (forget n false d).cxt (forget n false d)) n ≡ false
unfolding forget discard_cxt
forget_lem n d v =
    let e = get_or-set_self d.heap d.cxt (discard n (at d.cxt d)) [] (cxt_in_heap d v) in
    rw e (ground (arith, contains-discard n n (at d.cxt d)))

-- The statements of the `finally`, on a valid state `d` that `begin` and the import led to from
-- `d0`.
module _ (n : Name) (ig : Bool) (d0 d1 d : Deps) (v0 : IsValid d0) (b : Begun n d0 d1 true)
    (k : Kept d1 d) where
  -- the name is not below itself on the stack
  not_below : contains d0.stack n ≡ false
  not_below = elim (Bool-cases (contains d0.stack n)) [
    | inl e ↦ absurd (cc (v0.stacked n e, b.fresh refl))
    | inr e ↦ e
  ]

  stack_here : d.stack ≡ n ∷ d0.stack
  stack_here = k.stack ∙ b.stack

  tracked_here : (m : Name) → contains (n ∷ d0.stack) m ≡ true → has m d.tracked ≡ true
  tracked_here m h = k.valid.stacked m (rw stack_here h)

  still_tracked : (m : Name) → has m d0.tracked ≡ true → has m d.tracked ≡ true
  still_tracked m h = k.tracked m (b.tracked m h)

  removed : Deps
  removed = record d { tracked = erase n d.tracked }

  -- so its removal after an error is never put off
  untrack-eq : (e : Exn) → untrack n e d ≡ (e, removed)
  unfolding untrack removed
  untrack-eq e = rw stack_here (rw (not_below, tracked_here n (ground arith)) refl)

  known_here : lookup n d.tracked ≡ some d.cxt
  known_here =
      let (t, r, s, h) = TopIs-cases d.stack d.tracked d.cxt k.valid.top in
      subst (λ j. lookup j d.tracked ≡ some d.cxt) (head_eq t r s) h
    where
      head_eq : (t : Name) (r : List Name) → d.stack ≡ t ∷ r → t ≡ n
      head_eq t r s = cc (s, stack_here)

  covered :
      (m : Name) (r : List Name) (down : ℕ)
      → down < length d.heap
      → ig ≡ false
      → Subset
          (deps_of n (leave_to ig (m ∷ r) down d))
          (at (leave_to ig (m ∷ r) down d).cxt (leave_to ig (m ∷ r) down d))
  unfolding leave_to
  covered m r down h live =
      subst
        (λ i. Subset (deps_of n (leave_to i (m ∷ r) down d)) (at down (leave_to i (m ∷ r) down d)))
        (sym live) (covers-leave_to n (m ∷ r) down d known_here h)

  -- After the module was loaded its context is left, and its dependencies reach the one below.
  pub leave-loaded :
      (m0 : Module)
      → (d' : Deps) × (settle_loaded m0 true ig d ≡ (loaded m0, d'))
        × Kept d0 d'
        × (has n d'.tracked ≡ true)
        × (ig ≡ false → Subset (deps_of n d') (at d'.cxt d'))
  leave-loaded m0 =
      let (m, r, s0, k0) = TopIs-cases d0.stack d0.tracked d0.cxt v0.top in
      let (down, kd, e, v') =
        leave_lem d ig n m r (stack_here ∙ ap (λ s. n ∷ s) s0)
          (λ j h. tracked_here j (rw s0 (ground arith))) k.valid.bounded in
      (
        leave_to ig (m ∷ r) down d,
        unfold settle_loaded in rw e,
        record {
          valid = v';
          stack = unfold leave_to in sym s0;
          tracked = λ j h. unfold leave_to in still_tracked j h;
        },
        unfold leave_to in tracked_here n (ground arith),
        covered m r down (k.valid.bounded m down kd),
      )

  settle_raised-eq :
      (e : Exn) (d' : Deps)
      → leave ig removed ≡ fine d'
      → settle_raised n e true ig d ≡ (raised e, forget n ig d')
  unfolding settle_raised
  settle_raised-eq e d' h =
      ap (λ (p : Exn × Deps). after_leave n p.0 ig (leave ig p.1)) (untrack-eq e)
      ∙ ap (after_leave n e ig) h

  tracked_below : (m : Name) → has m d0.tracked ≡ true → has m removed.tracked ≡ true
  unfolding removed
  tracked_below m h = ground (arith, has-erase m n d.tracked, still_tracked m h, b.fresh refl)

  -- After an error the module is forgotten, the context is left, and the name is taken out of the
  -- dependencies of the one below.
  pub leave-raised :
      (e : Exn)
      → (d' : Deps) × (settle_raised n e true ig d ≡ (raised e, d'))
        × Kept d0 d'
        × (has n d'.tracked ≡ false)
        × (ig ≡ false → contains (at d'.cxt d') n ≡ false)
  unfolding removed
  leave-raised e =
      let (m, r, s0, k0) = TopIs-cases d0.stack d0.tracked d0.cxt v0.top in
      let (down, kd, q, v') =
        leave_lem removed ig n m r (stack_here ∙ ap (λ s. n ∷ s) s0)
          (λ j h. tracked_below j (v0.stacked j (rw s0 h)))
          (λ j a h.
            k.valid.bounded j a (unfold removed in ground (arith, lookup-erase j n d.tracked))) in
      let dl = leave_to ig (m ∷ r) down removed in
      let f = forget-Kept n ig dl v' in
      (
        forget n ig dl,
        settle_raised-eq e dl q,
        record {
          valid = f.valid;
          stack = f.stack ∙ unfold leave_to in sym s0;
          tracked = λ j h. f.tracked j (unfold leave_to in tracked_below j h);
        },
        rw tracked-forget (unfold leave_to removed in ground (arith, has-erase n n d.tracked)),
        λ live.
            subst (λ i. contains (at (forget n i dl).cxt (forget n i dl)) n ≡ false) (sym live)
              (forget_lem n dl v'),
      )
