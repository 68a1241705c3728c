-- ===== src/Plugin/Spec.antt =====
-- pytest/plugin.py: which plugins are registered, and with what.
use prunepytest.Prelude.{
  ◌≡◌, refl, ◌∙◌, true, false, not, ◌&&◌, ◌||◌, Option, none, some, List, [], ◌∷◌, ◌++◌, Every,
  Every-append, contains, arith, if-cases, list_eq, nat_eq, ◌==◌, if◌then◌else◌,
}
use prunepytest.Text.{Text, text}
use prunepytest.Sets.{Set, contains-diff}
use prunepytest.FilePath.{relative_to}
use prunepytest.Loader.{Hook}
use prunepytest.Loader.Shared.{Loader}
use prunepytest.Plugin.{
  Options, Vcs, Process, impact, validator, selector, xdist_config, Call, set_blocked, register,
  Configured, configured, raised, calls_of, after, known_graph, shared_path, add_xdist_hook,
  modified_set, register_selector, configure_selector, configure_tests, vcs_commits,
  register_impact, loader_of, configure_plugins, configure_hook, find_graph_root, find_hook,
  configure_below, configure_from, pytest_configure,
}

calls_of-after : (cs : List Call) (r : Configured) → calls_of (after cs r) ≡ cs ++ calls_of r
calls_of-after cs (configured more) = refl
calls_of-after cs (raised more) = refl

Every-after :
    (P : Call → Type 0) (cs : List Call) (r : Configured)
    → Every P cs
    → Every P (calls_of r)
    → Every P (calls_of (after cs r))
Every-after P cs r h k = rw (calls_of-after cs r) (Every-append P cs (calls_of r) h k)

module _ (o : Options) (vcs : Option Vcs) (process : Process) where
  -- The set of a selector is `modified`, without the empty name.
  abbrev pub IsModified : Set Text → Option (Set Text) → Type 0
  IsModified m none = ⊥
  IsModified m (some files) = (x : Text) → contains m x ≡ (contains files x && not (x == []))

  -- The path that loaders share: with pytest-xdist there always is one.
  abbrev pub common_path : Option Text
  common_path =
      let known = known_graph process.world o.prune_graph in
      if process.has_xdist && process.has_plugin_xdist
      then some (shared_path process.basetemp known)
      else known

  -- The condition on which a call is made.
  abbrev pub Allowed : Call → Type 0
  Allowed (set_blocked n) = o.prune_impact ≡ true
  Allowed (register (impact l r commits) n) =
      (o.prune_impact ≡ true) × (vcs_commits o vcs process vcs ≡ some commits)
  Allowed (register (validator l r) n) =
      (o.prune_impact ≡ false) × (o.prune_novalidate ≡ false) × (l.graph_path ≡ common_path)
  Allowed (register (selector l m r) n) =
      (o.prune_impact ≡ false)
      × (o.prune_noselect ≡ false)
      × (l.graph_path ≡ common_path)
      × IsModified m (modified_set o vcs process)
  Allowed (register (xdist_config p) n) =
      (o.prune_impact ≡ false)
      × ((process.has_xdist && process.has_plugin_xdist) ≡ true)
      × (some p ≡ common_path)

  selector-Allowed :
      (l : Loader) (r : Text) (m : Option (Set Text))
      → o.prune_impact ≡ false
      → o.prune_noselect ≡ false
      → l.graph_path ≡ common_path
      → modified_set o vcs process ≡ m
      → Every Allowed (calls_of (register_selector o vcs process l r m))
  selector-Allowed l r none i s q e = tt
  selector-Allowed l r (some m) i s q e =
      ((i, s, q, rw e (λ x. contains-diff m ([] ∷ []) x ∙ ground arith)), tt)

  tests-Allowed :
      (l : Loader) (r : Text)
      → o.prune_impact ≡ false
      → l.graph_path ≡ common_path
      → Every Allowed (calls_of (configure_tests o vcs process l r))
  unfolding configure_tests configure_selector
  tests-Allowed l r i q =
      Every-after Allowed
        (if o.prune_novalidate then [] else register (validator l r) (text "PruneValidator") ∷ [])
        (configure_selector o vcs process l r)
        (if-cases (Every Allowed) o.prune_novalidate []
          (register (validator l r) (text "PruneValidator") ∷ []) (λ v. tt) (λ v. ((i, v, q), tt)))
        (if-cases (λ c. Every Allowed (calls_of c)) o.prune_noselect (configured [])
          (register_selector o vcs process l r (modified_set o vcs process)) (λ s. tt)
          (λ s. selector-Allowed l r (modified_set o vcs process) i s q refl))

  impact-Allowed :
      (l : Loader) (r : Text) (commits : Option (List Text))
      → o.prune_impact ≡ true
      → vcs_commits o vcs process vcs ≡ commits
      → Every Allowed (calls_of (register_impact o vcs process l r commits))
  impact-Allowed l r none i e = tt
  impact-Allowed l r (some commits) i e = ((i, e), tt)

  plugins-Allowed :
      (graph_root r : Text) (hook : Hook)
      → Every Allowed (
          calls_of (
            configure_plugins o vcs process graph_root r
              (known_graph process.world o.prune_graph)
              hook))
  unfolding configure_plugins
  plugins-Allowed graph_root r hook =
      let p = known_graph process.world o.prune_graph in
      let l = loader_of o vcs process graph_root hook in
      let shared = shared_path process.basetemp p in
      let impacts =
        after (set_blocked (text "dsession") ∷ [])
          (register_impact o vcs process (l p) r (vcs_commits o vcs process vcs)) in
      let xdist = process.has_xdist && process.has_plugin_xdist in
      let alone = configure_tests o vcs process (l p) r in
      let spread =
        after (add_xdist_hook shared) (configure_tests o vcs process (l (some shared)) r) in
      let P : Configured → Type 0 = λ c. Every Allowed (calls_of c) in
      if-cases P o.prune_impact impacts (if xdist then spread else alone)
        (λ i.
          Every-after Allowed (set_blocked (text "dsession") ∷ [])
            (register_impact o vcs process (l p) r (vcs_commits o vcs process vcs)) (i, tt)
            (impact-Allowed (l p) r (vcs_commits o vcs process vcs) i refl))
        (λ i.
          if-cases P xdist spread alone
            (λ x.
              Every-after Allowed (add_xdist_hook shared)
                (configure_tests o vcs process (l (some shared)) r) ((i, x, rw x refl), tt)
                (tests-Allowed (l (some shared)) r i (rw x refl)))
            (λ x. tests-Allowed (l p) r i (rw x refl)))

  hook-Allowed :
      (graph_root r : Text) (hook : Option Hook)
      → Every Allowed (calls_of (configure_hook o vcs process graph_root r hook))
  hook-Allowed graph_root r none = tt
  hook-Allowed graph_root r (some hook) = plugins-Allowed graph_root r hook

  below-Allowed :
      (graph_root : Text) (r : Option Text)
      → Every Allowed (calls_of (configure_below o vcs process graph_root r))
  below-Allowed graph_root none = tt
  below-Allowed graph_root (some r) = hook-Allowed graph_root r (find_hook o vcs process)

  from-Allowed : (root : Option Text) → Every Allowed (calls_of (configure_from o vcs process root))
  from-Allowed none = tt
  from-Allowed (some root) = below-Allowed root (relative_to process.rootpath root)

  -- For all options, in any process: the impact report is registered only with `--prune-impact`, for
  -- the commits that were asked for; validation and selection, and the sharing of the graph, only
  -- without it and where they are not switched off; and the modified files of the selection are those
  -- of the option or of the version control system, without an empty name. The loaders of
  -- validation and selection have the path of the graph that the workers of pytest-xdist are given.
  pub pytest_configure-Allowed : Every Allowed (calls_of (pytest_configure o vcs process))
  unfolding pytest_configure
  pytest_configure-Allowed =
      if-cases (λ c. Every Allowed (calls_of c))
        (not o.prune || (not o.prune_impact && o.collectonly)) (configured [])
        (configure_from o vcs process (find_graph_root o vcs process)) (λ s. tt)
        (λ s. from-Allowed (find_graph_root o vcs process))
