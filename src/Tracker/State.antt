-- ===== src/Tracker/State.antt =====
-- tracker.py: the fields of a `Tracker` besides its import contexts, and the small methods on them.
-- The log file is left out: nothing reads it. Of the import callback, the model has whether it
-- raises on a name, and `notified`, the names that it was called on; of the functions that are
-- wrapped to record their use, it has the list `wrapped`.
use prunepytest.Prelude.{
  ℕ, Bool, true, not, ◌&&◌, Option, none, some, List, [], ◌∷◌, ◌++◌, ◌==◌, contains, if◌then◌else◌,
  list_eq, nat_eq, pair_eq,
}
use prunepytest.Text.{Text, dot, partition, rpartition}
use prunepytest.Sets.{Set, union}
use prunepytest.Dict.{Dict, lookup, insert, lookup_or, has}
use prunepytest.Tracker.Deps.{Name, Deps, Exn, initial}

-- `(module name, function name)`
abbrev pub Anchor : Type 0
Anchor = Name × Text

-- `traceback.FrameSummary`
pub record Frame : Type 0 where
  pub filename : Text
  pub name : Text
  pub line : Text
  pub lineno : ℕ

-- What the tracker reads of a module object: `__name__`, `__file__`, whether there is a `__path__`,
-- and the attributes, by their path from the module, with the `__name__` of those that are modules.
pub record Module : Type 0 where
  pub name : Name
  pub file : Option Text
  pub has_path : Bool
  pub attrs : Dict Text (Option Name)

-- What a call into the import machinery gives.
pub data Outcome : Type 0 where
  loaded : Module → Outcome
  raised : Exn → Outcome

pub record Tracker : Type 0 where
  pub deps : Deps
  pub open deps use *
  pub dynamic : List (List Frame)
  pub dynamic_stack : ℕ
  pub dynamic_anchors : Dict Name (Set Text)
  pub dynamic_ignores : Dict Name (Set Text)
  pub dynamic_imports : Dict Anchor (Set Name)
  pub dynamic_users : Dict Name (Set Anchor)
  pub file_to_module : Dict Text Name
  pub prefixes : Set Name
  pub ignore_prefixes : Set Name
  pub patches : Set Name
  pub import_callback : Option (Name → Bool)
  pub notified : List Name
  pub wrapped : List Anchor
  pub implicit_anchor_aggregation : Bool

-- `Tracker.__init__`
abbrev pub new_tracker : Tracker
new_tracker = record {
  deps = initial;
  dynamic = [];
  dynamic_stack = 0;
  dynamic_anchors = [];
  dynamic_ignores = [];
  dynamic_imports = [];
  dynamic_users = [];
  file_to_module = [];
  prefixes = [];
  ignore_prefixes = [];
  patches = [];
  import_callback = none;
  notified = [];
  wrapped = [];
  implicit_anchor_aggregation = true;
}

-- `name.partition(".")[0]`
abbrev pub base_ns : Name → Name
base_ns n = (partition dot n).0

-- `name.rpartition(".")[0]` and `name.rpartition(".")[2]`
abbrev pub parent : Name → Name
parent n = (rpartition dot n).0

abbrev pub last_part : Name → Name
last_part n = (rpartition dot n).2

-- `self.dynamic_users.setdefault(m, set()).update(anchors)`
unfoldable pub add_users : Name → Set Anchor → Tracker → Tracker
unfolding union lookup_or insert
add_users m anchors s = record s {
  dynamic_users = insert m (union (lookup_or m [] s.dynamic_users) anchors) s.dynamic_users;
}

-- `self.dynamic_imports.setdefault(anchor, set()).update(names)`
unfoldable pub add_imports : Anchor → Set Name → Tracker → Tracker
unfolding union lookup_or insert
add_imports a names s = record s {
  dynamic_imports = insert a (union (lookup_or a [] s.dynamic_imports) names) s.dynamic_imports;
}

-- `add_dynamic_usage_recorder`: the function is replaced by a wrapper if the module has it; for
-- `object.method` the object is looked up first.
unfoldable pub add_dynamic_usage_recorder : Module → Name → Text → Tracker → Tracker
unfolding partition has
add_dynamic_usage_recorder m module_name fn s =
    let object = (partition dot fn).0 in
    let found = if contains fn dot then has object m.attrs && has fn m.attrs else has fn m.attrs in
    if found then record s { wrapped = s.wrapped ++ (module_name, fn) ∷ [] } else s

-- the loop over `self.dynamic_anchors[name]`
unfoldable pub add_recorders : Module → Name → Set Text → Tracker → Tracker
unfolding add_dynamic_usage_recorder
add_recorders m name [] s = s
add_recorders m name (fn ∷ fns) s =
    add_recorders m name fns (add_dynamic_usage_recorder m name fn s)

-- `wrapped_fn`, the wrapper: each tracked module on the call stack becomes a user of the function.
unfoldable pub record_use : Name → Text → List Frame → Tracker → Tracker
unfolding lookup rpartition partition add_users
record_use module_name fn [] s = s
record_use module_name fn (f ∷ tb) s =
    record_use module_name fn tb (elim (lookup f.filename s.file_to_module) [
      | none ↦ s
      | some m ↦
          if not (m == []) && contains s.prefixes (base_ns m)
          then add_users m ((module_name, last_part fn) ∷ []) s
          else s
    ])
