-- ===== src/Validator/Main/Trust.antt =====
-- validator.py: what an exit status of 0 tells of the graph that is left in the file.
use prunepytest.Prelude.{
  ◌≡◌, refl, ◌∙◌, sym, ap, subst, false, Option, none, some, List, [], ◌∷◌, arith, inl, inr,
  Option-cases, Bool-cases, true, if◌then◌else◌, Every, is_empty,
}
use prunepytest.Text.{Text}
use prunepytest.Graph.{ModuleGraph}
use prunepytest.Args.{hook_path, graph_path, ArgValues, values, parse_args}
use prunepytest.Loader.{World, Hook, load_import_graph, build_graph}
use prunepytest.Hooks.{ValidatorHook}
use prunepytest.Session.{exits, failed, Exit, Outcome, Process, load_hook_or_default}
use prunepytest.Validator.Subset.{Covered}
use prunepytest.Validator.Folder.{Interp, exit_status, is_global, tracked_sets}
use prunepytest.Validator.Folder as Folder
use prunepytest.Validator.Folder.Local.{Comparison, IsCompared, comparisons, exit_status-IsCompared}
use prunepytest.Validator.Folder.Cleanup.{exit_status-validate}
use prunepytest.Validator.Prepare.{prepare_graph, prepare_graph-load}
use prunepytest.Validator.Main.{
  Runtime, log_path, can_log, logs_of, with_logs, validate_hook, env_of, dynamic_stacks,
  start_validation, sorted_folders, Validated, counted, validate_graph, validate_prepared, validate,
  conclude, main,
}

-- What was compared in the folders of the local namespaces.
abbrev pub local_comparisons : Runtime → ValidatorHook → ModuleGraph → List Comparison
local_comparisons rt hook g =
    comparisons (env_of rt hook) g (sorted_folders rt hook) (start_validation rt hook)

-- The graph covers what was tracked of the global namespaces, and of the tests in those folders.
abbrev pub IsTrusted : Runtime → ValidatorHook → ModuleGraph → Interp → Type 0
IsTrusted rt hook g i =
    Every (Covered g (is_global (env_of rt hook) g) none)
      (tracked_sets i.tracker i.tracker.deps.tracked)
    × Every (IsCompared (env_of rt hook) g) (local_comparisons rt hook g)

abbrev exit_of : Outcome → Exit
exit_of o = o.exit

abbrev world_of : Outcome → World
world_of o = o.world

conclude-world : (r : Option Validated) (w : World) → (conclude (r, w)).world ≡ w
conclude-world none w = refl
conclude-world (some x) w = refl

module _ (p : Process) (rt : Runtime) (hook : ValidatorHook) where
  conclude-IsTrusted :
      (g : ModuleGraph) (w : World)
      → (conclude (validate_graph p rt hook g, w)).exit ≡ exits 0
      → (x : Validated) × (validate_graph p rt hook g ≡ some x) × IsTrusted rt hook g x.interp
  unfolding validate_graph
  conclude-IsTrusted g w e =
      let folders = sorted_folders rt hook in
      let i = start_validation rt hook in
      elim (Option-cases (Folder.validate (env_of rt hook) g folders i)) [
        | inl n ↦ absurd (ground (arith, n, e))
        | inr (((n, m), j), q) ↦
            let z : exits (exit_status n m) ≡ exits 0 =
              subst (λ r. (conclude (counted hook r, w)).exit ≡ exits 0) q e in
            (
              record { n_err = n; m_missing = m; stacks = dynamic_stacks hook j; interp = j },
              ap (counted hook) q,
              (
                (exit_status-validate (env_of rt hook) g folders i n m j q (cc)).1,
                exit_status-IsCompared (env_of rt hook) g folders i n m j q (cc),
              ),
            )
      ]

  -- An exit with 0 shows that the hook's log could be opened.
  can_log-exits :
      (w : World) (r : Option Validated × World)
      → (conclude (if can_log rt (log_path hook.tracking.tracker_log) then r else (none, w))).exit
        ≡ exits 0
      → can_log rt (log_path hook.tracking.tracker_log) ≡ true
  can_log-exits w r e = elim (Bool-cases (can_log rt (log_path hook.tracking.tracker_log))) [
    | inl b ↦ b
    | inr b ↦
        let bad : failed ≡ exits 0 =
          subst (λ t. (conclude (if t then r else (none, w))).exit ≡ exits 0) b e in
        absurd (cc)
  ]

  -- If `main` is given a path for the graph, exits with 0, and a graph that it has built is read
  -- back as it was written, then in the files that it leaves every hook's graph is loaded from that
  -- path, and that graph covers the tracked dependencies of every module of the global namespaces,
  -- and of the test modules in each folder of a local namespace.
  pub main-IsTrusted :
      (args : List Text) (v : ArgValues) (path : Text) (w : World)
      → parse_args p.argparse args (hook_path ∷ graph_path ∷ []) false ≡ values v
      → v.graph_path ≡ some path
      → is_empty path ≡ false
      → load_hook_or_default p v.hook_path w ≡ some hook
      → p.graphs.parse (p.graphs.dump (build_graph p.graphs hook.base none w))
        ≡ some (build_graph p.graphs hook.base none w)
      → (main p rt args w).exit ≡ exits 0
      → (g : ModuleGraph) × (x : Validated) × ((other : Hook)
          → load_import_graph p.graphs other (some path) none (main p rt args w).world ≡ some g)
        × ((validate p rt v.hook_path v.graph_path w).0 ≡ some x)
        × IsTrusted rt hook g x.interp
  unfolding main validate
  main-IsTrusted args v path w parsed given nonempty loaded law e =
      let prepared = prepare_graph p.graphs hook.base (some path) w in
      let logs = logs_of rt (some hook) in
      let val0 : validate p rt v.hook_path v.graph_path w
          ≡ validate_hook p rt (some path) w (some hook) =
        rw (given, loaded) in
      let all0 : main p rt args w
          ≡ with_logs logs (conclude (validate_hook p rt (some path) w (some hook))) =
        rw (parsed, given, loaded) in
      let opened =
        can_log-exits w (validate_prepared p rt hook w prepared) (sym (ap exit_of all0) ∙ e) in
      let same : validate_hook p rt (some path) w (some hook)
          ≡ validate_prepared p rt hook w prepared =
        rw opened refl in
      let val : validate p rt v.hook_path v.graph_path w ≡ validate_prepared p rt hook w prepared =
        val0 ∙ same in
      let all : main p rt args w
          ≡ with_logs logs (conclude (validate_prepared p rt hook w prepared)) =
        all0 ∙ ap (λ r. with_logs logs (conclude r)) same in
      elim (Option-cases prepared) [
        | inl n ↦
            let bad : failed ≡ exits 0 =
              sym (
                ap exit_of
                  (all ∙ ap (λ r. with_logs logs (conclude (validate_prepared p rt hook w r))) n))
              ∙ e in
            absurd (cc)
        | inr ((g, w'), q) ↦
            let here : main p rt args w
                ≡ with_logs logs (conclude (validate_graph p rt hook g, w')) =
              all ∙ ap (λ r. with_logs logs (conclude (validate_prepared p rt hook w r))) q in
            let (x, run, covered) = conclude-IsTrusted g w' (sym (ap exit_of here) ∙ e) in
            let left : (main p rt args w).world ≡ w' =
              ap world_of here ∙ conclude-world (validate_graph p rt hook g) w' in
            (
              g,
              x,
              λ other.
                  subst (λ u. load_import_graph p.graphs other (some path) none u ≡ some g)
                    (sym left)
                    (prepare_graph-load p.graphs hook.base other path w w' g nonempty law q),
              ap (λ (r : Option Validated × World). r.0)
                    (val ∙ ap (validate_prepared p rt hook w) q)
                  ∙ run,
              covered,
            )
      ]
