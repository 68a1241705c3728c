-- ===== src/Command/Files.antt =====
-- __main__.py: the files that a command leaves.
use prunepytest.Prelude.{
  eq_same, ◌≡◌, refl, sym, subst, ◌⊎◌, inl, inr, true, false, Option, none, some, List, [], ◌∷◌,
  if-cases, Bool-cases, contains, ◌==◌, is_empty, list_eq, nat_eq,
}
use prunepytest.Text.{Text, text}
use prunepytest.Sets.{Set}
use prunepytest.Graph.{ModuleGraph}
use prunepytest.Args.{
  hook_path, graph_path, modified, base_commit, ArgValues, Args, values, unknown, stopped, raises,
  parse_args,
}
use prunepytest.Loader.{World, load_import_graph, to_file}
use prunepytest.Hooks.{ValidatorHook}
use prunepytest.Session.{
  Line, usage, unknown_command, Exit, exits, failed, Outcome, ends, Process, load_hook_or_default,
  with_values,
}
use prunepytest.Validator.Main.{
  Runtime, log_path, can_log, logs_at, logs_of, with_logs, Validated, validate_graph,
  validate_prepared, validate_hook, conclude, validate,
}
use prunepytest.Validator.Main as Validator
use prunepytest.Validator.Prepare.{prepare_graph, prepare_graph-files}
use prunepytest.Command.{
  Modified, found, no_vcs_exit, raised, with_modified, vcs_modified, given_modified, with_hook,
  with_graph, load_both, show_hook, first_arg, hook_command, save_graph, saved_to, report_graph,
  graph_command, show_files, modified_command, depends_command, show_affected, affected_command,
  help_names, dispatch, main,
}

-- A graph was saved to the path that the arguments give.
abbrev pub HasSaved : Process → List Text → World → World → Type 0
HasSaved p args w w' =
    (v : ArgValues) × (path : Text) × (g : ModuleGraph) × (parse_args p.argparse args
        (hook_path ∷ graph_path ∷ []) false
      ≡ values v)
    × (v.graph_path ≡ some path)
    × (to_file p.graphs g path w ≡ some w')

-- The log of the hook that the arguments give was opened.
abbrev pub HasLogged : Process → Runtime → List Text → World → List Text → Type 0
HasLogged p rt args w logs =
    (v : ArgValues) × (hook : ValidatorHook) × (path : Text) × (parse_args p.argparse args
        (hook_path ∷ graph_path ∷ []) false
      ≡ values v)
    × (load_hook_or_default p v.hook_path w ≡ some hook)
    × (log_path hook.tracking.tracker_log ≡ some path)
    × (rt.opens_log path ≡ true)
    × (logs ≡ path ∷ [])

-- Postconditions that hold of an end which leaves the files as they are.
module _ (p : Process) (w : World) (P : Outcome → Type 0)
    (stays : (e : Exit) (lines : List Line) → P (ends e lines w)) where
  with_values-post :
      (k : ArgValues → Outcome) (a : Args)
      → ((v : ArgValues) → a ≡ values v → P (k v))
      → P (with_values w k a)
  with_values-post k (values v) h = h v refl
  with_values-post k (unknown rest) h = stays _ _
  with_values-post k (stopped n) h = stays _ _
  with_values-post k raises h = stays _ _

  with_modified-post :
      (k : Set Text → Outcome) (m : Modified)
      → ((ms : Set Text) → P (k ms))
      → P (with_modified w k m)
  with_modified-post k (found ms) h = h ms
  with_modified-post k no_vcs_exit h = stays _ _
  with_modified-post k raised h = stays _ _

  with_graph-post :
      (k : ModuleGraph → Outcome) (o : Option ModuleGraph)
      → ((g : ModuleGraph) → P (k g))
      → P (with_graph p w k o)
  with_graph-post k none h = stays _ _
  with_graph-post k (some g) h = h g

  with_hook-post :
      (v : ArgValues) (k : ValidatorHook → ModuleGraph → Outcome) (o : Option ValidatorHook)
      → ((hook : ValidatorHook) (g : ModuleGraph) → P (k hook g))
      → P (with_hook p v w k o)
  with_hook-post v k none h = stays _ _
  with_hook-post v k (some hook) h =
      with_graph-post (k hook) (load_import_graph p.graphs hook.base v.graph_path none w) (h hook)

  hook_command-post : (args : List Text) → P (hook_command p args w)
  unfolding hook_command
  hook_command-post args = shown (load_hook_or_default p (first_arg p args) w)
    where
      shown : (o : Option ValidatorHook) → P (show_hook p w o)
      shown none = stays _ _
      shown (some hook) = stays _ _

  modified_command-post : (args : List Text) → P (modified_command p args w)
  unfolding modified_command
  modified_command-post args =
      with_values-post _ (parse_args p.argparse args (base_commit ∷ []) false)
        (λ v _. with_modified-post (show_files p w) (vcs_modified p v) (λ ms. stays _ _))

  depends_command-post : (args : List Text) → P (depends_command p args w)
  unfolding depends_command
  depends_command-post args =
      with_values-post _ (parse_args p.argparse args (hook_path ∷ graph_path ∷ []) true)
        (λ v _. with_hook-post v _ (load_hook_or_default p v.hook_path w) (λ hook g. stays _ _))

  affected_command-post : (args : List Text) → P (affected_command p args w)
  unfolding affected_command
  affected_command-post args =
      with_values-post _
        (parse_args p.argparse args (hook_path ∷ graph_path ∷ modified ∷ base_commit ∷ []) false)
        (λ v _. with_hook-post v _ (load_hook_or_default p v.hook_path w) (λ hook g.
          with_modified-post (show_affected p w g) (given_modified p v v.modified)
            (λ ms. stays _ _)))

  save_graph-post :
      (path : Option Text) (g : ModuleGraph) (lines : List Line)
      → ((q : Text) (e : Exit) (w' : World)
          → path ≡ some q
          → to_file p.graphs g q w ≡ some w'
          → P (ends e lines w'))
      → P (save_graph p path w g lines)
  save_graph-post none g lines h = stays _ _
  save_graph-post (some q) g lines h =
      if-cases P (is_empty q) (ends (exits 0) lines w) (saved_to p lines w (to_file p.graphs g q w))
        (λ e. stays _ _) (λ e. saves (to_file p.graphs g q w) refl)
    where
      saves : (o : Option World) → to_file p.graphs g q w ≡ o → P (saved_to p lines w o)
      saves none e = stays _ _
      saves (some w') e = h q (exits 0) w' refl e

  load_both-post :
      (v : ArgValues) (k : ValidatorHook → ModuleGraph → Outcome)
      → ((hook : ValidatorHook) (g : ModuleGraph) → P (k hook g))
      → P (load_both p v w k)
  load_both-post v k = with_hook-post v k (load_hook_or_default p v.hook_path w)

  -- The rule for a command that may save a graph.
  module _ (args : List Text)
      (saves : (e : Exit) (lines : List Line) (w' : World)
        → HasSaved p args w w'
        → P (ends e lines w')) where
    graph_command-post : P (graph_command p args w)
    unfolding graph_command
    graph_command-post =
        with_values-post _ (parse_args p.argparse args (hook_path ∷ graph_path ∷ []) false) (λ v a.
          load_both-post v (report_graph p v w) (λ hook g.
            save_graph-post v.graph_path g _ (λ q e w' b c. saves e _ w' (v, q, g, a, b, c))))

    conclude-post :
        (r : Option Validated) (w' : World) → (w' ≡ w) ⊎ HasSaved p args w w' → P (conclude (r, w'))
    conclude-post none w' (inl e) = subst (λ u. P (ends failed [] u)) (sym e) (stays _ _)
    conclude-post none w' (inr h) = saves _ _ w' h
    conclude-post (some x) w' (inl e) = subst (λ u. P (conclude (some x, u))) (sym e) (stays _ _)
    conclude-post (some x) w' (inr h) = saves _ _ w' h

    validate_prepared-post :
        (rt : Runtime) (v : ArgValues) (hook : ValidatorHook) (r : Option (ModuleGraph × World))
        → parse_args p.argparse args (hook_path ∷ graph_path ∷ []) false ≡ values v
        → prepare_graph p.graphs hook.base v.graph_path w ≡ r
        → P (conclude (validate_prepared p rt hook w r))
    validate_prepared-post rt v hook none a e = stays _ _
    validate_prepared-post rt v hook (some (g, w')) a e =
        conclude-post (validate_graph p rt hook g) w'
          (elim (prepare_graph-files p.graphs hook.base v.graph_path w w' g e) [
            | inl same ↦ inl same
            | inr (q, b, c) ↦ inr (v, q, g, a, b, c)
          ])

    validate_hook-post :
        (rt : Runtime) (v : ArgValues) (o : Option ValidatorHook)
        → parse_args p.argparse args (hook_path ∷ graph_path ∷ []) false ≡ values v
        → P (conclude (validate_hook p rt v.graph_path w o))
    validate_hook-post rt v none a = stays _ _
    validate_hook-post rt v (some hook) a =
        let prepared = prepare_graph p.graphs hook.base v.graph_path w in
        if-cases (λ r. P (conclude r)) (can_log rt (log_path hook.tracking.tracker_log))
          (validate_prepared p rt hook w prepared) (none, w)
          (λ _. validate_prepared-post rt v hook prepared a refl) (λ _. stays _ _)

-- What `main` may leave.
abbrev pub IsLeft : Process → Runtime → Text → List Text → World → Outcome → Type 0
IsLeft p rt cmd args w o =
    ((o.world ≡ w) ⊎ (HasSaved p args w o.world × ((cmd ≡ text "graph") ⊎ (cmd ≡ text "validate"))))
    × ((o.logs ≡ []) ⊎ (HasLogged p rt args w o.logs × (cmd ≡ text "validate")))

module _ (p : Process) (rt : Runtime) (cmd : Text) (args : List Text) (w : World) where
  abbrev Left : Outcome → Type 0
  Left = IsLeft p rt cmd args w

  stays : (e : Exit) (lines : List Line) → Left (ends e lines w)
  stays e lines = (inl refl, inl refl)

  main-post : cmd ≡ text "validate" → Left (Validator.main p rt args w)
  unfolding Validator.main Validator.validate logs_of
  main-post c =
      with_values-post p w Left stays (Validator.run_validate p rt w)
        (parse_args p.argparse args (hook_path ∷ graph_path ∷ []) false)
        (λ v a. found_hook v a (load_hook_or_default p v.hook_path w) refl)
    where
      logged :
          (v : ArgValues) (hook : ValidatorHook)
          → parse_args p.argparse args (hook_path ∷ graph_path ∷ []) false ≡ values v
          → load_hook_or_default p v.hook_path w ≡ some hook
          → (q : Option Text) → log_path hook.tracking.tracker_log ≡ q
          → (logs_at rt q ≡ []) ⊎ (HasLogged p rt args w (logs_at rt q) × (cmd ≡ text "validate"))
      logged v hook a l none e = inl refl
      logged v hook a l (some q) e = elim (Bool-cases (rt.opens_log q)) [
        | inl b ↦ inr (rw b (v, hook, q, a, l, e, b, refl), c)
        | inr b ↦ inl (rw b refl)
      ]

      found_hook :
          (v : ArgValues)
          → parse_args p.argparse args (hook_path ∷ graph_path ∷ []) false ≡ values v
          → (o : Option ValidatorHook) → load_hook_or_default p v.hook_path w ≡ o
          → Left (with_logs (logs_of rt o) (conclude (validate_hook p rt v.graph_path w o)))
      found_hook v a none l = stays failed []
      found_hook v a (some hook) l =
          let logs = logged v hook a l (log_path hook.tracking.tracker_log) refl in
          validate_hook-post p w (λ o. Left (with_logs (logs_of rt (some hook)) o))
            (λ e lines. (inl refl, logs)) args (λ e lines w' h. (inr (h, inr c), logs)) rt v
            (some hook) a

  dispatch-post : Left (dispatch p rt cmd args w)
  unfolding dispatch
  dispatch-post =
      if-cases Left (cmd == text "hook") _ _ (λ _. hook_command-post p w Left stays args)
        λ _.
          if-cases Left (cmd == text "graph") _ _
            (λ e.
              graph_command-post p w Left stays args
                (λ x lines w' h. (inr (h, inl (eq_same cmd (text "graph") e)), inl refl)))
            λ _.
              if-cases Left (cmd == text "modified") _ _
                (λ _. modified_command-post p w Left stays args)
                λ _.
                  if-cases Left (cmd == text "depends") _ _
                    (λ _. depends_command-post p w Left stays args)
                    λ _.
                      if-cases Left (cmd == text "affected") _ _
                        (λ _. affected_command-post p w Left stays args)
                        λ _.
                          if-cases Left (cmd == text "validate") _ _
                            (λ e. main-post (eq_same cmd (text "validate") e))
                            λ _.
                              if-cases Left (contains (help_names p) cmd) _ _
                                (λ _. stays (exits 0) (usage ∷ []))
                                (λ _. stays (exits 1) (unknown_command cmd ∷ usage ∷ []))

pub main-IsLeft :
    (p : Process) (rt : Runtime) (program cmd : Text) (args : List Text) (w : World)
    → IsLeft p rt cmd args w (main p rt (program ∷ cmd ∷ args) w)
unfolding main
main-IsLeft p rt program cmd args w = dispatch-post p rt cmd args w
