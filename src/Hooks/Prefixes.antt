-- ===== src/Hooks/Prefixes.antt =====
-- api.py and tracker.py: a tracker that is started for the default hook.
use prunepytest.Prelude.{
  ◌≡◌, refl, ◌∙◌, ap, true, Option, some, List, [], ◌∷◌, arith, inl, inr, Option-cases, Every,
  Every-map, contains, list_eq, nat_eq,
}
use prunepytest.Text.{Text}
use prunepytest.Sets.{Set, union, contains-union, diff}
use prunepytest.Dict.{Dict, lookup, lookup_or, keys}
use prunepytest.Tracker.Deps.{Name}
use prunepytest.Tracker.State.{
  Module, Tracker, add_recorders, add_dynamic_usage_recorder, new_tracker,
}
use prunepytest.Tracker.Load.Parts.{record_file}
use prunepytest.Tracker.Contexts.{
  init_module, init_modules, init_loaded_modules, start_tracking, Settings,
}
use prunepytest.Defaults.Pyproject.{Toml}
use prunepytest.Defaults.Assemble.{DefaultHook, Scan, top_of, hook_default}
use prunepytest.Defaults.Assemble.Folders.{IsNamed}
use prunepytest.Defaults.Assemble.Cover.{hook_default-IsCovered}
use prunepytest.Hooks.{validator_hook, default_methods, settings_of}

add_recorders-prefixes :
    (m : Module) (n : Name) (fns : Set Text) (s : Tracker)
    → (add_recorders m n fns s).prefixes ≡ s.prefixes
unfolding add_recorders add_dynamic_usage_recorder
add_recorders-prefixes m n [] s = refl
add_recorders-prefixes m n (fn ∷ fns) s =
    add_recorders-prefixes m n fns (add_dynamic_usage_recorder m n fn s) ∙ ground arith

record_file-prefixes :
    (n : Name) (m : Module) (s : Tracker) → (record_file n m s).prefixes ≡ s.prefixes
unfolding record_file
record_file-prefixes n m s = ground arith

init_module-prefixes :
    (modules : Dict Name Module) (n : Name) (s : Tracker)
    → (init_module modules n s).prefixes ≡ s.prefixes
unfolding init_module
init_module-prefixes modules n s = elim (Option-cases (lookup n modules)) [
  | inl e ↦ ground (arith, e)
  | inr (m, e) ↦
      let s' = record_file n m s in
      ground (
        arith,
        e,
        record_file-prefixes n m s,
        add_recorders-prefixes m n (lookup_or n [] s'.dynamic_anchors) s',
      )
]

init_modules-prefixes :
    (modules : Dict Name Module) (ns : List Name) (s : Tracker)
    → (init_modules modules ns s).prefixes ≡ s.prefixes
unfolding init_modules
init_modules-prefixes modules [] s = refl
init_modules-prefixes modules (n ∷ ns) s =
    init_modules-prefixes modules ns (init_module modules n s) ∙ init_module-prefixes modules n s

init_loaded_modules-prefixes :
    (rounds : List (Dict Name Module)) (seen : Set Name) (s : Tracker)
    → (init_loaded_modules rounds seen s).prefixes ≡ s.prefixes
unfolding init_loaded_modules
init_loaded_modules-prefixes [] seen s = refl
init_loaded_modules-prefixes (modules ∷ rounds) seen s =
    let new_modules = diff (keys modules) seen in
    ground (
      arith,
      init_loaded_modules-prefixes rounds (union seen new_modules)
          (init_modules modules new_modules s),
      init_modules-prefixes modules new_modules s,
    )

pub start_tracking-prefixes :
    (c : Settings) (rounds : List (Dict Name Module)) (s : Tracker)
    → (start_tracking c rounds s).prefixes ≡ c.prefixes
unfolding start_tracking
start_tracking-prefixes c rounds s = init_loaded_modules-prefixes rounds [] _

abbrev pub IsTracked : Tracker → Text × Text → Type 0
IsTracked t (fs, py) = contains t.prefixes (top_of py) ≡ true

-- If hook_default raises no exception, a tracker that is started for its hook tracks the namespace
-- of every source root, whatever modules are loaded already.
pub start_tracking-IsTracked :
    (scan : Scan) (pyproj : Toml) (h : DefaultHook) (pattern : Option Text)
    (rounds : List (Dict Name Module))
    → hook_default scan pyproj ≡ some h
    → Every
        (IsTracked (
          start_tracking
            (settings_of (validator_hook (default_methods h pattern)))
            rounds
            new_tracker))
        h.src_roots
unfolding settings_of validator_hook default_methods
start_tracking-IsTracked scan pyproj h pattern rounds e =
    let c = settings_of (validator_hook (default_methods h pattern)) in
    Every-map (IsNamed h.global_ns h.local_ns) (IsTracked (start_tracking c rounds new_tracker))
      (λ r q.
        ap (λ ps. contains ps (top_of r.1)) (start_tracking-prefixes c rounds new_tracker)
        ∙ contains-union h.global_ns h.local_ns (top_of r.1)
        ∙ q)
      h.src_roots (hook_default-IsCovered scan pyproj h e).0
