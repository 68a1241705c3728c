-- ===== src/Loader/Hooks.antt =====
-- util.py: the choice of a hook among the names of a file.
use prunepytest.Prelude.{
  ◌≡◌, refl, ap, Bool, true, false, ◌&&◌, ◌⊎◌, inl, inr, Option, none, some, [], ◌∷◌, ◌++◌, Every,
  Bool-cases, ◌==◌, if◌then◌else◌, list_eq, nat_eq,
}
use prunepytest.Text.{Text, text}
use prunepytest.Dict.{Dict}

-- A value in a module: its `__module__`, whether it is a class, and if so, its superclasses among
-- those that are asked for.
pub record Value : Type 0 where
  pub module_of : Option Text
  pub is_type : Bool
  pub is_base : Bool
  pub is_default : Bool

pub data Chosen : Type 0 where
  from_default : Text → Chosen
  instance_of : Text → Chosen
  value_error : Chosen

abbrev pub is_own : Option Text → Bool
is_own none = false
is_own (some m) = m == text "prunepytest._hook"

-- The three conditions that are not skipped by `continue`.
abbrev pub is_eligible : Text × Value → Bool
is_eligible (n, v) = is_own v.module_of && v.is_type && v.is_base

abbrev pub choose : Text × Value → Chosen
choose (n, v) = if v.is_default then from_default n else instance_of n

-- The loop of `load_hook`, over the names of the module in order.
unfoldable pub load_hook : Dict Text Value → Chosen
load_hook [] = value_error
load_hook (e ∷ es) = let rest = load_hook es in if is_eligible e then choose e else rest

abbrev pub IsSkipped : Text × Value → Type 0
IsSkipped e = is_eligible e ≡ false

-- `load_hook` takes the first class of the file itself that has the base class; it raises a ValueError
-- if and only if there is none.
pub load_hook-choose :
    (es : Dict Text Value)
    → ((before after : Dict Text Value) × (e : Text × Value) × (es ≡ before ++ e ∷ after)
        × Every IsSkipped before
        × (is_eligible e ≡ true)
        × (load_hook es ≡ choose e))
      ⊎ (Every IsSkipped es × (load_hook es ≡ value_error))
unfolding load_hook
load_hook-choose [] = inr (tt, refl)
load_hook-choose (e ∷ es) = elim (Bool-cases (is_eligible e)) [
  | inl h ↦ inl ([], es, e, refl, tt, h, rw h refl)
  | inr h ↦ elim (load_hook-choose es) [
    | inl (before, after, x, q, skipped, i, r) ↦
        inl (e ∷ before, after, x, ap (λ z. e ∷ z) q, (h, skipped), i, rw h r)
    | inr (skipped, r) ↦ inr ((h, skipped), rw h r)
  ]
]
