-- ===== src/Tracker/Deps/Invariant.antt =====
-- tracker.py: what holds of the import contexts between two statements, and how the statements
-- change it.
use prunepytest.Prelude.{
  ℕ, ◌<◌, ◌≡◌, refl, ◌∙◌, subst, Bool, true, Option, none, some, List, [], ◌∷◌, arith, contains,
  length, set, length-append, length-set, list_eq, nat_eq,
}
use prunepytest.Sets.{Set, union}
use prunepytest.Dict.{Dict, lookup, has, lookup-insert}
use prunepytest.Tracker.Deps.{
  Name, Deps, fine, at, push, add_cxt, update_cxt, discard_cxt, leave, leave_to, initial,
}

-- The context is the one of the top of the stack.
abbrev pub TopIs : List Name → Dict Name ℕ → ℕ → Type 0
TopIs [] t c = ⊥
TopIs (n ∷ s) t c = lookup n t ≡ some c

pub TopIs-cases :
    (s : List Name) (t : Dict Name ℕ) (c : ℕ)
    → TopIs s t c
    → (n : Name) × (r : List Name) × (s ≡ n ∷ r) × (lookup n t ≡ some c)
TopIs-cases [] t c h = absurd h
TopIs-cases (n ∷ r) t c h = (n, r, refl, h)

pub TopIs-of :
    (s : List Name) (t : Dict Name ℕ) (c : ℕ) (n : Name) (r : List Name)
    → s ≡ n ∷ r
    → lookup n t ≡ some c
    → TopIs s t c
TopIs-of s t c n r e h = rw e h

pub record IsValid (d : Deps) : Type 0 where
  pub top : TopIs d.stack d.tracked d.cxt
  pub stacked : (n : Name) → contains d.stack n ≡ true → has n d.tracked ≡ true
  pub bounded : (n : Name) (a : ℕ) → lookup n d.tracked ≡ some a → a < length d.heap

-- From `d` to `d'`: the invariant holds, the stack is what it was, and no module is forgotten.
pub record Kept (d d' : Deps) : Type 0 where
  pub valid : IsValid d'
  pub stack : d'.stack ≡ d.stack
  pub tracked : (n : Name) → has n d.tracked ≡ true → has n d'.tracked ≡ true

pub Kept-refl : {d : Deps} → IsValid d → Kept d d
Kept-refl v = record { valid = v; stack = refl; tracked = λ n h. h }

pub Kept-trans : {a b c : Deps} → Kept a b → Kept b c → Kept a c
Kept-trans h k = record {
  valid = k.valid;
  stack = k.stack ∙ h.stack;
  tracked = λ n t. k.tracked n (h.tracked n t);
}

-- From the same contexts in another state.
pub Kept-along : {a b d : Deps} → b ≡ a → Kept b d → Kept a d
Kept-along {d = d} e k = subst (λ t. Kept t d) e k

pub initial-IsValid : IsValid initial
unfolding has lookup list_eq
initial-IsValid = record {
  top = refl;
  stacked = λ n h. ground arith;
  bounded = λ n a h. ground arith;
}

module _ (d : Deps) (v : IsValid d) where
  -- A change of the sets alone.
  pub put-Kept : (a : ℕ) (s : Set Name) → Kept d (record d { heap = set d.heap a s })
  put-Kept a s = record {
    valid = record {
      top = v.top;
      stacked = v.stacked;
      bounded = λ n b h. rw length-set (v.bounded n b h);
    };
    stack = refl;
    tracked = λ n h. h;
  }

  pub add_cxt-Kept : (n : Name) → Kept d (add_cxt n d)
  unfolding add_cxt
  add_cxt-Kept n = put-Kept _ _

  pub update_cxt-Kept : (s : Set Name) → Kept d (update_cxt s d)
  unfolding update_cxt
  update_cxt-Kept s = put-Kept _ _

  pub discard_cxt-Kept : (n : Name) → Kept d (discard_cxt n d)
  unfolding discard_cxt
  discard_cxt-Kept n = put-Kept _ _

  pub push-IsValid : (n : Name) → IsValid (push n d)
  unfolding push has
  push-IsValid n = record {
    top = ground (arith, lookup-insert n n (length d.heap) d.tracked);
    stacked = λ m h. ground (arith, lookup-insert m n (length d.heap) d.tracked, v.stacked m);
    bounded = λ m a h. ground (
      arith,
      length-append d.heap ([] ∷ []),
      lookup-insert m n (length d.heap) d.tracked,
      v.bounded m a,
    );
  }

pub leave_lem :
    (d : Deps) (is_ignored : Bool) (n m : Name) (r : List Name)
    → d.stack ≡ n ∷ m ∷ r
    → ((k : Name) → contains (m ∷ r) k ≡ true → has k d.tracked ≡ true)
    → ((k : Name) (a : ℕ) → lookup k d.tracked ≡ some a → a < length d.heap)
    → (down : ℕ) × (lookup m d.tracked ≡ some down)
      × (leave is_ignored d ≡ fine (leave_to is_ignored (m ∷ r) down d))
      × IsValid (leave_to is_ignored (m ∷ r) down d)
unfolding leave leave_to has
leave_lem d is_ignored n m r e all_tracked bounded = go (lookup m d.tracked) refl
  where
    go :
        (o : Option ℕ)
        → lookup m d.tracked ≡ o
        → (down : ℕ) × (lookup m d.tracked ≡ some down)
          × (leave is_ignored d ≡ fine (leave_to is_ignored (m ∷ r) down d))
          × IsValid (leave_to is_ignored (m ∷ r) down d)
    go none h = absurd (ground (arith, all_tracked m))
    go (some a) h = (
      a,
      h,
      ground arith,
      record {
        top = h;
        stacked = all_tracked;
        bounded =
            λ k b g. ground (arith, bounded k b, length-set d.heap a (union (at a d) (at d.cxt d)));
      },
    )
