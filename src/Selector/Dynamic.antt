-- ===== src/Selector/Dynamic.antt =====
-- pytest/selector.py: the names of modules that import dynamically, which are compared with the
-- paths of files.
use prunepytest.Prelude.{
  ◌≡◌, refl, ◌∙◌, sym, ap, Bool, true, false, ◌==◌, Option, none, some, List, [], ◌∷◌, arith, Every,
  contains, inl, inr, Bool-cases, list_eq, nat_eq,
}
use prunepytest.Text.{Text, text, slash}
use prunepytest.Sets.{Set}
use prunepytest.Graph.{ModuleGraph}
use prunepytest.Items.{Item}
use prunepytest.Selector.{Config, Caches, in_set, locate, unhandled_imports, should_keep}
use prunepytest.Selector.Laws.{IsValid, judge, verdict, should_keep-verdict}

-- A dotted name, as opposed to the path of a file in a folder.
abbrev pub IsDotted : Text → Type 0
IsDotted n = contains n slash ≡ false

abbrev pub IsNested : Text → Type 0
IsNested f = contains f slash ≡ true

-- Data without a path, or with a nested one.
abbrev pub IsNestedData : Option Text → Type 0
IsNestedData none = Unit
IsNestedData (some d) = IsNested d

-- The same surroundings, for a hook that knows of dynamic imports.
abbrev pub with_dynamic_hooks : Config → Config
with_dynamic_hooks c = record c { has_dynamic_hooks = true }

contains-IsDotted :
    (names : List Text) (f : Text) → Every IsDotted names → IsNested f → contains names f ≡ false
contains-IsDotted [] f h n = refl
contains-IsDotted (m ∷ names) f (p, h) n = elim (Bool-cases (f == m)) [
  | inl e ↦
      let same : f ≡ m = ground arith in
      absurd (ground (arith, ap (λ t. contains t slash) same, p, n))
  | inr e ↦ ground (arith, e, contains-IsDotted names f h n)
]

in_set-IsDotted :
    (names : List Text) (d : Option Text)
    → Every IsDotted names
    → IsNestedData d
    → in_set d names ≡ false
in_set-IsDotted names none h n = refl
in_set-IsDotted names (some d) h n = contains-IsDotted names d h n

judge-with_dynamic_hooks :
    (c : Config) (g : ModuleGraph) (affected : Set Text) (item : Item) (file : Text)
    (data_ : Option Text)
    → Every IsDotted (g.affected_by_modules (text "importlib" ∷ text "__import__" ∷ []))
    → IsNested file
    → IsNestedData data_
    → judge c g affected item (file, data_)
      ≡ judge (with_dynamic_hooks c) g affected item (file, data_)
unfolding judge unhandled_imports
judge-with_dynamic_hooks c g affected item file data_ h n m =
    let names = g.affected_by_modules (text "importlib" ∷ text "__import__" ∷ []) in
    elim (Bool-cases c.has_dynamic_hooks) [
      | inl e ↦ ground (arith, e)
      | inr e ↦ ground (arith, e, contains-IsDotted names file h n, in_set-IsDotted names data_ h m)
    ]

-- The graph names modules where the selector looks for files: if all the names are dotted, and the
-- file of a test and its data are in folders, then the test is kept or deselected as if the hook
-- knew of dynamic imports.
pub should_keep-with_dynamic_hooks :
    (c : Config) (g : ModuleGraph) (affected : Set Text) (item : Item) (s s' : Caches) (file : Text)
    (data_ : Option Text)
    → IsValid c g s
    → IsValid (with_dynamic_hooks c) g s'
    → Every IsDotted (g.affected_by_modules (text "importlib" ∷ text "__import__" ∷ []))
    → locate c item ≡ some (file, data_)
    → IsNested file
    → IsNestedData data_
    → (should_keep c g affected item s).0
      ≡ (should_keep (with_dynamic_hooks c) g affected item s').0
unfolding verdict locate
should_keep-with_dynamic_hooks c g affected item s s' file data_ v v' h l n m =
    let c' = with_dynamic_hooks c in
    (should_keep-verdict c g affected item s v).0
    ∙ ap (sentence c) l
    ∙ ap some (judge-with_dynamic_hooks c g affected item file data_ h n m)
    ∙ sym (ap (sentence c') (locate_same ∙ l))
    ∙ sym (should_keep-verdict c' g affected item s' v').0
  where
    sentence : Config → Option (Text × Option Text) → Option Bool
    sentence d o = elim o [ none ↦ none | some found ↦ some (judge d g affected item found) ]

    locate_same : locate (with_dynamic_hooks c) item ≡ locate c item
    locate_same = refl
