-- ===== src/Plugin/Names.antt =====
-- pytest/plugin.py: the names under which plugins are registered, for given options.
use prunepytest.Prelude.{
  ◌≡◌, refl, ◌∙◌, sym, subst, Bool-cases, inl, inr, ap, Bool, true, false, not, ◌&&◌, ◌||◌, Option,
  none, some, List, [], ◌∷◌, ◌++◌, arith, list_eq, nat_eq, if◌then◌else◌,
}
use prunepytest.Text.{Text, text}
use prunepytest.Sets.{Set}
use prunepytest.FilePath.{relative_to}
use prunepytest.Loader.{Hook}
use prunepytest.Loader.Shared.{Loader}
use prunepytest.Plugin.{
  Options, Vcs, Process, Plugin, validator, Call, set_blocked, register, Configured, configured,
  raised, calls_of, after, known_graph, shared_path, add_xdist_hook, modified_set,
  register_selector, configure_selector, configure_tests, vcs_commits, register_impact, loader_of,
  configure_plugins, configure_hook, find_graph_root, find_hook, configure_below, configure_from,
  pytest_configure,
}

unfoldable pub names : List Call → List Text
names [] = []
names (set_blocked n ∷ cs) = n ∷ names cs
names (register p n ∷ cs) = n ∷ names cs

-- If the function returns, it has made calls with the names `ns`.
abbrev pub Named : List Text → Configured → Type 0
Named ns (configured cs) = names cs ≡ ns
Named ns (raised cs) = Unit

names-append : (xs ys : List Call) → names (xs ++ ys) ≡ names xs ++ names ys
unfolding names
names-append [] ys = refl
names-append (set_blocked n ∷ xs) ys = ap (λ r. n ∷ r) (names-append xs ys)
names-append (register p n ∷ xs) ys = ap (λ r. n ∷ r) (names-append xs ys)

Named-after :
    (xs : List Call) (ns : List Text) (r : Configured)
    → Named ns r
    → Named (names xs ++ ns) (after xs r)
Named-after xs ns (configured cs) h = names-append xs cs ∙ ap (λ z. names xs ++ z) h
Named-after xs ns (raised cs) h = tt

Named-unless :
    (b : Bool) (ns : List Text) (r : Configured)
    → Named ns r
    → Named (if b then [] else ns) (if b then configured [] else r)
unfolding names
Named-unless true ns r h = refl
Named-unless false ns r h = h

names-unless :
    (b : Bool) (p : Plugin) (n : Text)
    → names (if b then [] else register p n ∷ []) ≡ (if b then [] else n ∷ [])
unfolding names
names-unless true p n = refl
names-unless false p n = refl

-- The names for options with `--prune`; the flag is whether pytest-xdist is active.
unfoldable pub test_names : Options → List Text
test_names o =
    (if o.prune_novalidate then [] else text "PruneValidator" ∷ [])
    ++ (if o.prune_noselect then [] else text "PruneSelector" ∷ [])

unfoldable pub names_for : Options → Bool → List Text
unfolding test_names
names_for o xdist =
    if o.prune_impact
    then text "dsession" ∷ text "PruneValidator" ∷ []
    else (if xdist then text "PruneXdistConfig" ∷ [] else []) ++ test_names o

module _ (o : Options) (vcs : Option Vcs) (process : Process) where
  selector-Named :
      (l : Loader) (r : Text) (m : Option (Set Text))
      → Named (text "PruneSelector" ∷ []) (register_selector o vcs process l r m)
  unfolding names
  selector-Named l r none = tt
  selector-Named l r (some m) = refl

  tests-Named : (l : Loader) (r : Text) → Named (test_names o) (configure_tests o vcs process l r)
  unfolding configure_tests configure_selector test_names
  tests-Named l r =
      let selected = if o.prune_noselect then [] else text "PruneSelector" ∷ [] in
      let validates =
        if o.prune_novalidate then [] else register (validator l r) (text "PruneValidator") ∷ [] in
      subst (λ ns. Named (ns ++ selected) (after validates (configure_selector o vcs process l r)))
        (names-unless o.prune_novalidate (validator l r) (text "PruneValidator"))
        (Named-after validates selected (configure_selector o vcs process l r) (
          Named-unless o.prune_noselect (text "PruneSelector" ∷ [])
            (register_selector o vcs process l r (modified_set o vcs process))
            (selector-Named l r (modified_set o vcs process))))

  impact-Named :
      (l : Loader) (r : Text) (commits : Option (List Text))
      → Named (text "PruneValidator" ∷ []) (register_impact o vcs process l r commits)
  unfolding names
  impact-Named l r none = tt
  impact-Named l r (some commits) = refl

  plugins-Named :
      (graph_root r : Text) (p : Option Text) (hook : Hook)
      → Named
          (names_for o (process.has_xdist && process.has_plugin_xdist))
          (configure_plugins o vcs process graph_root r p hook)
  unfolding configure_plugins names_for names
  plugins-Named graph_root r p hook =
      let l = loader_of o vcs process graph_root hook in
      let shared = shared_path process.basetemp p in
      chosen o.prune_impact (process.has_xdist && process.has_plugin_xdist)
        (after (set_blocked (text "dsession") ∷ [])
          (register_impact o vcs process (l p) r (vcs_commits o vcs process vcs)))
        (after (add_xdist_hook shared) (configure_tests o vcs process (l (some shared)) r))
        (configure_tests o vcs process (l p) r)
        (Named-after (set_blocked (text "dsession") ∷ []) (text "PruneValidator" ∷ [])
          (register_impact o vcs process (l p) r (vcs_commits o vcs process vcs))
          (impact-Named (l p) r (vcs_commits o vcs process vcs)))
        (Named-after (add_xdist_hook shared) (test_names o)
          (configure_tests o vcs process (l (some shared)) r) (tests-Named (l (some shared)) r))
        (tests-Named (l p) r)
    where
      chosen :
          (i x : Bool) (impacts spread alone : Configured)
          → Named (text "dsession" ∷ text "PruneValidator" ∷ []) impacts
          → Named (text "PruneXdistConfig" ∷ test_names o) spread
          → Named (test_names o) alone
          → Named
              (if i
                then text "dsession" ∷ text "PruneValidator" ∷ []
                else (if x then text "PruneXdistConfig" ∷ [] else []) ++ test_names o)
              (if i then impacts else if x then spread else alone)
      chosen true x impacts spread alone h k m = h
      chosen false true impacts spread alone h k m = k
      chosen false false impacts spread alone h k m = m

  from-Named :
      (root : Option Text)
      → Named
          (names_for o (process.has_xdist && process.has_plugin_xdist))
          (configure_from o vcs process root)
  from-Named none = tt
  from-Named (some root) = below (relative_to process.rootpath root)
    where
      hooked :
          (r : Text) (hook : Option Hook)
          → Named
              (names_for o (process.has_xdist && process.has_plugin_xdist))
              (configure_hook o vcs process root r hook)
      hooked r none = tt
      hooked r (some hook) = plugins-Named root r (known_graph process.world o.prune_graph) hook

      below :
          (r : Option Text)
          → Named
              (names_for o (process.has_xdist && process.has_plugin_xdist))
              (configure_below o vcs process root r)
      below none = tt
      below (some r) = hooked r (find_hook o vcs process)

  -- If no exception ends the function, then the plugin manager is called exactly with the names that
  -- the options ask for, in this order: with none without `--prune`, and with none if pytest only
  -- collects, unless the impact is asked for.
  pub names-pytest_configure :
      (cs : List Call)
      → pytest_configure o vcs process ≡ configured cs
      → names cs ≡ (
          if o.prune && (o.prune_impact || not o.collectonly)
          then names_for o (process.has_xdist && process.has_plugin_xdist)
          else [])
  unfolding pytest_configure names
  names-pytest_configure cs e =
      elim (Bool-cases (o.prune && (o.prune_impact || not o.collectonly))) [
        | inl b ↦
            let run : configure_from o vcs process (find_graph_root o vcs process) ≡ configured cs =
              ground (arith, b, e) in
            let named : names cs ≡ names_for o (process.has_xdist && process.has_plugin_xdist) =
              subst (Named (names_for o (process.has_xdist && process.has_plugin_xdist))) run
                (from-Named (find_graph_root o vcs process)) in
            rw b named
        | inr b ↦
            let skipped : configured [] ≡ configured cs = ground (arith, b, e) in
            let nil : [] ≡ cs = ap calls_of skipped in rw b (ap names (sym nil))
      ]
