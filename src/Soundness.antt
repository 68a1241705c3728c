-- ===== src/Soundness.antt =====
-- validator.py and pytest/selector.py: a graph that the validator trusts makes the selection of
-- tests safe.
use mathlib.Core.List.{Memᴰ}
use prunepytest.Prelude.{
  some_eq, Every-Mem, ◌≡◌, ◌∙◌, sym, subst, ◌≢◌, true, false, Option, none, some, List, [], ◌∷◌,
  arith, inl, inr, Every, Every-map, Bool-cases, Option-cases, contains, is_empty, ◌==◌, list_eq,
  nat_eq,
}
use prunepytest.Text.{Text}
use prunepytest.Sets.{Set, contains-union}
use prunepytest.Dict.{Dict, lookup}
use prunepytest.Graph.{ModuleGraph}
use prunepytest.Items.{Item}
use prunepytest.Args.{hook_path, graph_path, ArgValues, values, parse_args}
use prunepytest.Loader.{World, Hook, load_import_graph, build_graph}
use prunepytest.Hooks.{ValidatorHook}
use prunepytest.Session.{exits, Process, load_hook_or_default}
use prunepytest.Selector.{Config, Caches, locate}
use prunepytest.Selector.Laws.{IsValid, verdict}
use prunepytest.Selector.Collection.{Selection, affected_files, modify_items}
use prunepytest.Selector.Collection.Verdicts.{modify_items-verdict}
use prunepytest.Tracker.Deps.{Name}
use prunepytest.Validator.Subset.{Covered, rdeps}
use prunepytest.Validator.Folder.{is_global, is_local_test_module, tracked_sets}
use prunepytest.Validator.Folder.Local.{IsCompared}
use prunepytest.Validator.Main.{Runtime, Validated, env_of, validate, main}
use prunepytest.Validator.Main.Trust.{IsTrusted, local_comparisons, main-IsTrusted}
use prunepytest.Command.Answer.{verdict-IsOutside}

-- The two answers of a graph belong together: if a module depends on another, whose file is
-- modified, then the file of the first is affected. `file_of` gives the file of a module in a package.
abbrev pub IsConsistent : (Name → Option Text → Option Text) → ModuleGraph → Type 0
IsConsistent file_of g =
    (m d : Name) (pkg : Option Text) (deps : Set Name) (f changed : Text) (modified : Set Text)
    → g.module_depends_on m pkg ≡ some deps
    → contains deps d ≡ true
    → file_of m pkg ≡ some f
    → file_of d pkg ≡ some changed
    → contains modified changed ≡ true
    → contains (g.affected_by_files modified) f ≡ true

Every-lookup :
    {V : Type 0} (P : Text × V → Type 0) (d : Dict Text V) (k : Text) (v : V)
    → Every P d
    → lookup k d ≡ some v
    → P (k, v)
unfolding lookup
Every-lookup P [] k v h e = absurd (cc)
Every-lookup P ((j, w) ∷ d) k v (p, h) e = elim (Bool-cases (k == j)) [
  | inl q ↦
      let same_key : k ≡ j = ground arith in
      let same : w ≡ v = ground (arith, e, q) in
      subst (λ u. P (u, v)) (sym same_key) (subst (λ u. P (j, u)) same p)
  | inr q ↦ Every-lookup P d k v h (ground (arith, e, q))
]

-- A file that is affected is not the file of a test that is deselected.
affected-Kept :
    (c : Config) (g : ModuleGraph) (modified : Set Text) (f : Text)
    → contains (g.affected_by_files modified) f ≡ true
    → (items : List Item) (s t : Caches) (r : Selection) → IsValid c g s
    → modify_items c g modified items s ≡ some (r, t)
    → Every (λ i. (data_ : Option Text) → locate c i ≢ some (f, data_)) r.deselected
affected-Kept c g modified f a items s t r valid k =
    Every-map (λ i. verdict c g (affected_files g modified) i ≡ some false)
      (λ i. (data_ : Option Text) → locate c i ≢ some (f, data_))
      (λ i b data_ l. absurd (
        ground (
          arith,
          verdict-IsOutside c g (affected_files g modified) i b f data_ l,
          contains-union (g.affected_by_files modified) modified f,
          a,
        )))
      r.deselected (modify_items-verdict c g modified items s valid r t k).0

-- `module_depends_on(…) or frozenset()`
abbrev depends_of : Option (Set Name) → Set Name
depends_of none = []
depends_of (some deps) = deps

depends_of-affected :
    (file_of : Name → Option Text → Option Text) (g : ModuleGraph)
    → IsConsistent file_of g
    → (m d : Name) (pkg : Option Text) (modified : Set Text) (f changed : Text)
    → contains (depends_of (g.module_depends_on m pkg)) d ≡ true
    → file_of m pkg ≡ some f
    → file_of d pkg ≡ some changed
    → contains modified changed ≡ true
    → contains (g.affected_by_files modified) f ≡ true
depends_of-affected file_of g law m d pkg modified f changed h a b e =
    elim (Option-cases (g.module_depends_on m pkg)) [
      | inl n ↦ absurd (ground (arith, n, h))
      | inr (deps, n) ↦ law m d pkg deps f changed modified n (ground (arith, n, h)) a b e
    ]

-- What the validator has seen of a module `m` in a package: the modules that it imports.
pub data IsSeen (rt : Runtime) (hook : ValidatorHook) (g : ModuleGraph) (x : Validated) (m : Name)
    : Option Text → Set Name → Type 0 where
  globally :
      {deps : Set Name}
      → is_global (env_of rt hook) g m ≡ true
      → lookup m (tracked_sets x.interp.tracker x.interp.tracker.deps.tracked) ≡ some deps
      → IsSeen rt hook g x m none deps
  locally :
      {fs : Text} {py : Name} {tracked : Dict Name (Set Name)} {deps : Set Name}
      → is_local_test_module (env_of rt hook) g py m ≡ true
      → Memᴰ (fs, py, tracked) (local_comparisons rt hook g)
      → lookup m tracked ≡ some deps
      → IsSeen rt hook g x m (some fs) deps

abbrev Has : ModuleGraph → Name → Option Text → Name → Type 0
Has g m pkg d = contains (depends_of (g.module_depends_on m pkg)) d ≡ true

IsTrusted-Has :
    (rt : Runtime) (hook : ValidatorHook) (g : ModuleGraph) (x : Validated) (m d : Name)
    (pkg : Option Text) (deps : Set Name)
    → IsTrusted rt hook g x.interp
    → IsSeen rt hook g x m pkg deps
    → contains deps d ≡ true
    → Has g m pkg d
unfolding rdeps
IsTrusted-Has rt hook g x m d none deps (every, local) (globally is_in e) c =
    Every-lookup (Covered g (is_global (env_of rt hook) g) none)
      (tracked_sets x.interp.tracker x.interp.tracker.deps.tracked) m deps every e is_in d c
IsTrusted-Has rt hook g x m d (some fs) deps (every, local) (locally {py} {tracked} is_in mem e) c =
    Every-lookup (Covered g (is_local_test_module (env_of rt hook) g py) (some fs)) tracked m deps
      (Every-Mem (IsCompared (env_of rt hook) g) (local_comparisons rt hook g) (fs, py, tracked)
        local mem)
      e is_in d c

-- Let the validator have exited with 0, with a path for the graph, a graph that it built be read back
-- as it was written, and the two answers of the graph belong together. If the validator has seen a
-- module of a global namespace, or a test module of a local one, import another module whose file is
-- modified, then the selector, with the graph in the file, deselects no test in the file of the first
-- module, if its caches are those of earlier verdicts and no assertion fails.
pub main-modify_items_sound :
    (p : Process) (rt : Runtime) (hook : ValidatorHook) (args : List Text) (v : ArgValues)
    (path : Text) (w : World) (x : Validated)
    → parse_args p.argparse args (hook_path ∷ graph_path ∷ []) false ≡ values v
    → v.graph_path ≡ some path
    → is_empty path ≡ false
    → load_hook_or_default p v.hook_path w ≡ some hook
    → p.graphs.parse (p.graphs.dump (build_graph p.graphs hook.base none w))
      ≡ some (build_graph p.graphs hook.base none w)
    → (main p rt args w).exit ≡ exits 0
    → (validate p rt v.hook_path v.graph_path w).0 ≡ some x
    → (g : ModuleGraph) (other : Hook)
    → load_import_graph p.graphs other (some path) none (main p rt args w).world ≡ some g
    → (file_of : Name → Option Text → Option Text) → IsConsistent file_of g
    → (m d : Name) (pkg : Option Text) (deps : Set Name) (f changed : Text)
    → IsSeen rt hook g x m pkg deps
    → contains deps d ≡ true
    → file_of m pkg ≡ some f
    → file_of d pkg ≡ some changed
    → (modified : Set Text) → contains modified changed ≡ true
    → (c : Config) (items : List Item) (s t : Caches) (r : Selection) → IsValid c g s
    → modify_items c g modified items s ≡ some (r, t)
    → Every (λ i. (data_ : Option Text) → locate c i ≢ some (f, data_)) r.deselected
main-modify_items_sound p rt hook args v path w x parsed given nonempty loaded law e run g other l
      file_of consistent m d pkg deps f changed seen dep a b modified mem c items s t r valid k =
    let (g', x', loads, run', trusted) =
      main-IsTrusted p rt hook args v path w parsed given nonempty loaded law e in
    let same_g : g' ≡ g = some_eq (sym (loads other) ∙ l) in
    let same_x : x' ≡ x = some_eq (sym run' ∙ run) in
    let trust : IsTrusted rt hook g x.interp =
      subst (λ h. IsTrusted rt hook h x.interp) same_g
        (subst (λ y. IsTrusted rt hook g' y.interp) same_x trusted) in
    affected-Kept c g modified f
      (depends_of-affected file_of g consistent m d pkg modified f changed
        (IsTrusted-Has rt hook g x m d pkg deps trust seen dep) a b mem)
      items s t r valid k
