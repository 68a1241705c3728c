-- ===== src/Tracker/Contexts/Start.antt =====
-- tracker.py: the modules that are loaded before `start_tracking`.
use prunepytest.Prelude.{
  ◌≡◌, refl, ◌∙◌, subst, ap, Bool, true, false, some, List, [], ◌∷◌, contains, arith, inl, inr,
  Bool-cases, Option-cases, eq_refl, ◌==◌, is_empty, if-cases, list_eq, nat_eq,
}
use prunepytest.Text.{Text}
use prunepytest.Sets.{Set, diff, union, contains-diff}
use prunepytest.Dict.{Dict, lookup, lookup_or, has, keys, lookup-insert, contains-keys}
use prunepytest.Tracker.Deps.{Name}
use prunepytest.Tracker.State.{Module, Tracker, add_recorders, add_dynamic_usage_recorder}
use prunepytest.Tracker.Load.Parts.{record_file}
use prunepytest.Tracker.Contexts.{
  init_module, init_modules, init_loaded_modules, Settings, start_tracking, kept_prefixes,
}

-- A file is mapped to a module.
abbrev pub is_mapped : Text → Tracker → Bool
is_mapped f s = has f s.file_to_module

add_recorders-file_to_module :
    (m : Module) (n : Name) (fns : Set Text) (s : Tracker)
    → (add_recorders m n fns s).file_to_module ≡ s.file_to_module
unfolding add_recorders add_dynamic_usage_recorder
add_recorders-file_to_module m n [] s = refl
add_recorders-file_to_module m n (fn ∷ fns) s =
    add_recorders-file_to_module m n fns (add_dynamic_usage_recorder m n fn s) ∙ ground arith

record_file-keeps :
    (f : Text) (n : Name) (m : Module) (s : Tracker)
    → is_mapped f s ≡ true
    → is_mapped f (record_file n m s) ≡ true
unfolding record_file has
record_file-keeps f n m s h = elim (Option-cases m.file) [
  | inl e ↦ ground (arith, h, e)
  | inr (g, e) ↦ ground (arith, h, e, lookup-insert f g n s.file_to_module)
]

record_file-maps :
    (f : Text) (n : Name) (m : Module) (s : Tracker)
    → m.file ≡ some f
    → is_empty f ≡ false
    → is_mapped f (record_file n m s) ≡ true
unfolding record_file has
record_file-maps f n m s e h = ground (arith, h, e, lookup-insert f f n s.file_to_module, eq_refl f)

-- One module more: what was mapped stays so, and its own file is.
init_module-keeps :
    (f : Text) (modules : Dict Name Module) (n : Name) (s : Tracker)
    → is_mapped f s ≡ true
    → is_mapped f (init_module modules n s) ≡ true
unfolding init_module
init_module-keeps f modules n s h = elim (Option-cases (lookup n modules)) [
  | inl e ↦ ground (arith, e, h)
  | inr (m, e) ↦
      let s' = record_file n m s in
      let k = record_file-keeps f n m s h in
      ground (
        arith,
        e,
        k,
        ap (λ d. has f d) (add_recorders-file_to_module m n (lookup_or n [] s'.dynamic_anchors) s'),
      )
]

init_module-maps :
    (f : Text) (modules : Dict Name Module) (n : Name) (m : Module) (s : Tracker)
    → lookup n modules ≡ some m
    → m.file ≡ some f
    → is_empty f ≡ false
    → is_mapped f (init_module modules n s) ≡ true
unfolding init_module
init_module-maps f modules n m s e q h =
    let s' = record_file n m s in
    let k = record_file-maps f n m s q h in
    ground (
      arith,
      e,
      k,
      ap (λ d. has f d) (add_recorders-file_to_module m n (lookup_or n [] s'.dynamic_anchors) s'),
    )

init_modules-keeps :
    (f : Text) (modules : Dict Name Module) (ns : List Name) (s : Tracker)
    → is_mapped f s ≡ true
    → is_mapped f (init_modules modules ns s) ≡ true
unfolding init_modules
init_modules-keeps f modules [] s h = h
init_modules-keeps f modules (n ∷ ns) s h =
    init_modules-keeps f modules ns (init_module modules n s) (init_module-keeps f modules n s h)

init_modules-maps :
    (f : Text) (modules : Dict Name Module) (ns : List Name) (n : Name) (m : Module) (s : Tracker)
    → lookup n modules ≡ some m
    → m.file ≡ some f
    → is_empty f ≡ false
    → contains ns n ≡ true
    → is_mapped f (init_modules modules ns s) ≡ true
unfolding init_modules
init_modules-maps f modules [] n m s e q h c = absurd (cc)
init_modules-maps f modules (j ∷ ns) n m s e q h c = elim (Bool-cases (n == j)) [
  | inl b ↦
      let same : n ≡ j = ground arith in
      init_modules-keeps f modules ns (init_module modules j s) (
        subst (λ k. is_mapped f (init_module modules k s) ≡ true) same
          (init_module-maps f modules n m s e q h))
  | inr b ↦
      init_modules-maps f modules ns n m (init_module modules j s) e q h (ground (arith, b, c))
]

init_loaded_modules-keeps :
    (f : Text) (rounds : List (Dict Name Module)) (seen : Set Name) (s : Tracker)
    → is_mapped f s ≡ true
    → is_mapped f (init_loaded_modules rounds seen s) ≡ true
unfolding init_loaded_modules
init_loaded_modules-keeps f [] seen s h = h
init_loaded_modules-keeps f (modules ∷ rounds) seen s h =
    let new_modules = diff (keys modules) seen in
    if-cases (λ t. is_mapped f t ≡ true) (is_empty new_modules) s
      (init_loaded_modules rounds (union seen new_modules) (init_modules modules new_modules s))
      (λ e. h)
      (λ e.
        init_loaded_modules-keeps f rounds (union seen new_modules)
          (init_modules modules new_modules s) (init_modules-keeps f modules new_modules s h))

-- After `start_tracking`, the file of every module that was loaded before is mapped to a module,
-- whatever modules are loaded during the loop.
start_tracking-maps :
    (c : Settings) (modules : Dict Name Module) (rounds : List (Dict Name Module)) (s : Tracker)
    (n : Name) (m : Module) (f : Text)
    → lookup n modules ≡ some m
    → m.file ≡ some f
    → is_empty f ≡ false
    → has f (start_tracking c (modules ∷ rounds) s).file_to_module ≡ true
unfolding start_tracking init_loaded_modules has
start_tracking-maps c modules rounds s n m f e q h =
    let new_modules = diff (keys modules) [] in
    let s' : Tracker = record s {
      prefixes = c.prefixes;
      ignore_prefixes = kept_prefixes c.prefixes c.ignore_prefixes;
      patches = c.patches;
      dynamic_anchors = c.dynamic_anchors;
      dynamic_ignores = c.dynamic_ignores;
      implicit_anchor_aggregation = c.implicit_anchor_aggregation;
    } in
    let there : contains new_modules n ≡ true =
      contains-diff (keys modules) [] n ∙ ground (arith, contains-keys n modules, e) in
    if-cases (λ t. is_mapped f t ≡ true) (is_empty new_modules) s'
      (init_loaded_modules rounds (union [] new_modules) (init_modules modules new_modules s'))
      (λ z. absurd (nonempty new_modules n z there))
      (λ z.
        init_loaded_modules-keeps f rounds (union [] new_modules)
          (init_modules modules new_modules s')
          (init_modules-maps f modules new_modules n m s' e q h there))
  where
    nonempty : (ns : List Name) (n : Name) → is_empty ns ≡ true → ¬ (contains ns n ≡ true)
    nonempty [] n z h = cc
    nonempty (j ∷ ns) n z h = cc
