-- ===== src/Validator/Main/Stacks.antt =====
-- validator.py: the stacks of dynamic imports that are printed.
use prunepytest.Prelude.{
  ℕ, suc, ◌≡◌, Bool, false, ◌||◌, List, [], ◌∷◌, arith, contains, map, ◌==◌, if◌then◌else◌, list_eq,
  nat_eq, pair_eq,
}
use prunepytest.Text.{Text}
use prunepytest.Sets.{Set}
use prunepytest.Tracker.State.{Frame}
use prunepytest.Validator.Main.{location, dedup}

-- How often a list of locations stands among those of the stacks.
pub times : List (Text × ℕ) → List (List Frame) → ℕ
times k [] = 0
times k (tb ∷ stacks) = let n = times k stacks in if k == map location tb then suc n else n

-- Whether it does at all.
pub occurs : List (Text × ℕ) → List (List Frame) → Bool
occurs k [] = false
occurs k (tb ∷ stacks) = k == map location tb || occurs k stacks

-- Of the stacks with the same locations one is printed if they are new, and none otherwise.
pub times-dedup :
    (stacks : List (List Frame)) (seen : Set (List (Text × ℕ))) (k : List (Text × ℕ))
    → times k (dedup stacks seen)
      ≡ (if contains seen k then 0 else if occurs k stacks then 1 else 0)
unfolding dedup times occurs
times-dedup [] seen k = ground arith
times-dedup (tb ∷ stacks) seen k =
    ground (arith, times-dedup stacks seen k, times-dedup stacks (map location tb ∷ seen) k)
