-- ===== src/Command/Answer.antt =====
-- __main__.py: what `graph` and `affected` mean for one another, and for the selection of tests.
use prunepytest.Prelude.{
  ◌≡◌, ◌∙◌, sym, ap, subst, false, ◌||◌, Option, none, some, List, [], ◌∷◌, arith, inl, inr, Every,
  Every-map, Option-cases, contains, is_empty, list_eq, nat_eq,
}
use prunepytest.Text.{Text, text}
use prunepytest.Sets.{Set}
use prunepytest.Graph.{ModuleGraph}
use prunepytest.Items.{Item}
use prunepytest.Args.{hook_path, graph_path, modified, base_commit, ArgValues, values, parse_args}
use prunepytest.Loader.{World, Hook, load_import_graph, to_file}
use prunepytest.Hooks.{ValidatorHook}
use prunepytest.Session.{Line, files, exits, Exit, Outcome, ends, Process, load_hook_or_default}
use prunepytest.Selector.{Config, Caches, in_set, locate}
use prunepytest.Selector.Laws.{IsValid, judge, verdict}
use prunepytest.Selector.Collection.{Selection, affected_files, modify_items}
use prunepytest.Selector.Collection.Verdicts.{modify_items-verdict}
use prunepytest.Validator.Main.{Runtime}
use prunepytest.Validator.Prepare.{from_file-to_file, from_file-any}
use prunepytest.Command.{
  found, given_modified, dynamic_lines, dynamic_tests, dynamic_names, save_graph, graph_command,
  affected_command, dispatch, main,
}

abbrev exit_of : Outcome → Exit
exit_of o = o.exit

abbrev lines_of : Outcome → List Line
lines_of o = o.lines

shown_eq : {a b : Set Text} → ◌≡◌ {A = List Line} (files a ∷ []) (files b ∷ []) → a ≡ b
shown_eq e = cc

-- A test with neither its file nor its data in a set.
abbrev pub IsOutside : Config → Set Text → Item → Type 0
IsOutside c affected i =
    (file : Text) (data_ : Option Text)
    → locate c i ≡ some (file, data_)
    → (contains affected file || in_set data_ affected) ≡ false

pub verdict-IsOutside :
    (c : Config) (g : ModuleGraph) (affected : Set Text) (i : Item)
    → verdict c g affected i ≡ some false
    → IsOutside c affected i
unfolding verdict judge
verdict-IsOutside c g affected i h file data_ l = ground (arith, h, l)

module _ (p : Process) (rt : Runtime) (program : Text) (args : List Text) (v : ArgValues)
    (hook : ValidatorHook) (w : World) (g : ModuleGraph) where
  affected_command_lem :
      (ms : Set Text)
      → parse_args p.argparse args (hook_path ∷ graph_path ∷ modified ∷ base_commit ∷ []) false
        ≡ values v
      → load_hook_or_default p v.hook_path w ≡ some hook
      → load_import_graph p.graphs hook.base v.graph_path none w ≡ some g
      → given_modified p v v.modified ≡ found ms
      → main p rt (program ∷ text "affected" ∷ args) w
        ≡ ends (exits 0) (files (affected_files g ms) ∷ []) w
  unfolding main dispatch affected_command list_eq nat_eq
  affected_command_lem ms a h l m = rw (a, h, l, m)

  -- If `affected` prints a set of files, then the selector with the same graph and the same modified
  -- files deselects no test whose file or data is in that set.
  pub main-modify_items :
      (ms : Set Text)
      → parse_args p.argparse args (hook_path ∷ graph_path ∷ modified ∷ base_commit ∷ []) false
        ≡ values v
      → load_hook_or_default p v.hook_path w ≡ some hook
      → load_import_graph p.graphs hook.base v.graph_path none w ≡ some g
      → given_modified p v v.modified ≡ found ms
      → (shown : Set Text)
      → (main p rt (program ∷ text "affected" ∷ args) w).lines ≡ files shown ∷ []
      → (c : Config) (items : List Item) (s t : Caches) (r : Selection) → IsValid c g s
      → modify_items c g ms items s ≡ some (r, t)
      → Every (IsOutside c shown) r.deselected
  main-modify_items ms a h l m shown e c items s t r valid k =
      let same : affected_files g ms ≡ shown =
        shown_eq (sym (ap lines_of (affected_command_lem ms a h l m)) ∙ e) in
      subst (λ u. Every (IsOutside c u) r.deselected) same
        (Every-map (λ i. verdict c g (affected_files g ms) i ≡ some false)
          (IsOutside c (affected_files g ms)) (verdict-IsOutside c g (affected_files g ms))
          r.deselected (modify_items-verdict c g ms items s valid r t k).0)

  graph_command_lem :
      (path : Text)
      → parse_args p.argparse args (hook_path ∷ graph_path ∷ []) false ≡ values v
      → v.graph_path ≡ some path
      → load_hook_or_default p v.hook_path w ≡ some hook
      → load_import_graph p.graphs hook.base (some path) none w ≡ some g
      → main p rt (program ∷ text "graph" ∷ args) w
        ≡ save_graph p
            (some path)
            w
            g
            (dynamic_lines (dynamic_tests hook.is_test_file (g.affected_by_modules dynamic_names)))
  unfolding main dispatch graph_command list_eq nat_eq
  graph_command_lem path a e h l = rw (a, e, h, l)

  save_graph-to_file :
      (path : Text) (lines : List Line)
      → is_empty path ≡ false
      → (save_graph p (some path) w g lines).exit ≡ exits 0
      → to_file p.graphs g path w ≡ some (save_graph p (some path) w g lines).world
  save_graph-to_file path lines n e = elim (Option-cases (to_file p.graphs g path w)) [
    | inl z ↦ absurd (ground (arith, n, e, z))
    | inr (w', z) ↦ ground (arith, n, z)
  ]

  -- If `graph` exits with 0 after it was given a path, and its graph is read back as it was written,
  -- then a later command that is given that path has the same graph, whatever its hook.
  pub main-load_import_graph :
      (path : Text)
      → parse_args p.argparse args (hook_path ∷ graph_path ∷ []) false ≡ values v
      → v.graph_path ≡ some path
      → is_empty path ≡ false
      → load_hook_or_default p v.hook_path w ≡ some hook
      → load_import_graph p.graphs hook.base (some path) none w ≡ some g
      → p.graphs.parse (p.graphs.dump g) ≡ some g
      → (main p rt (program ∷ text "graph" ∷ args) w).exit ≡ exits 0
      → (other : Hook)
      → load_import_graph p.graphs other
          (some path)
          none
          (main p rt (program ∷ text "graph" ∷ args) w).world
        ≡ some g
  main-load_import_graph path a b n h l law e other =
      let lines =
        dynamic_lines (dynamic_tests hook.is_test_file (g.affected_by_modules dynamic_names)) in
      let o = save_graph p (some path) w g lines in
      let here = graph_command_lem path a b h l in
      let saved : to_file p.graphs g path w ≡ some o.world =
        save_graph-to_file path lines n (sym (ap exit_of here) ∙ e) in
      let (there, back) = from_file-to_file p.graphs w o.world g path law saved in
      ap (λ (u : Outcome). load_import_graph p.graphs other (some path) none u.world) here
      ∙ from_file-any p.graphs other path o.world n there
      ∙ back
