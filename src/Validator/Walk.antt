-- ===== src/Validator/Walk.antt =====
-- validator.py: `recursive_import_tests`.
pub mod Laws
use prunepytest.Prelude.{
  ℕ, ◌-◌, Bool, true, false, ◌||◌, Option, List, [], ◌∷◌, ◌++◌, ◌==◌, contains, length, take,
  is_empty, if◌then◌else◌, list_eq, nat_eq,
}
use prunepytest.Text.{Text, text, ends_with, dot, slash}
use prunepytest.Sets.{Set, add, union}
use prunepytest.Dict.{Dict, insert}
use prunepytest.Tracker.Deps.{Exn}

-- What `os.scandir` lists of a folder, with what is in its folders.
pub data Entries : Type 0 where
  no_more : Entries
  folder : Text → Entries → Entries → Entries
  file : Text → Entries → Entries
  other : Text → Entries → Entries

-- How `import_with_capture` ends; `skipped` is the exception of `pytest.importorskip`.
pub data Import : Type 0 where
  imported_ : Import
  skipped : Exn → Import
  broken : Exn → Import

-- The interpreter that the modules are loaded into, and the hook.
pub record Loader {ℓ} (W : Type ℓ) : Type ℓ where
  pub import_with_capture : Text → W → Import × W
  pub is_test_file : Text → Bool
  pub before_file : Text → Text → W → W
  pub after_file : Text → Text → W → W

pub record Walk {ℓ} (W : Type ℓ) : Type ℓ where
  pub world : W
  pub imported : Set Text
  pub errors : Dict Text Exn

-- `os.path.join` for a name without separators
unfoldable pub join_path : Text → Text → Text
unfolding ends_with
join_path p n =
    if is_empty p then n else if ends_with p (slash ∷ []) then p ++ n else p ++ slash ∷ n

unfoldable pub lists_name : Text → Entries → Bool
lists_name n no_more = false
lists_name n (folder m inside rest) = n == m || lists_name n rest
lists_name n (file m rest) = n == m || lists_name n rest
lists_name n (other m rest) = n == m || lists_name n rest

-- `os.path.exists(os.path.join(path, "__init__.py"))`
abbrev pub has_init : Entries → Bool
has_init es = lists_name (text "__init__.py") es

-- `import_prefix + "." + e.name`, and `import_prefix + "." + e.name[:-3]`
abbrev pub sub_prefix : Text → Text → Text
sub_prefix prefix n = prefix ++ dot ∷ n

abbrev pub test_module : Text → Text → Text
test_module prefix n = prefix ++ dot ∷ take (length n - 3) n

module _ {ℓ} {W : Type ℓ} (l : Loader W) where
  -- An `__init__.py` that does not load is an error, a skipped one too.
  unfoldable pub record_init : Text → Walk W → Import × W → Walk W
  unfolding insert
  record_init path s (imported_, w) = record s { world = w }
  record_init path s (skipped e, w) = record s { world = w; errors = insert path e s.errors }
  record_init path s (broken e, w) = record s { world = w; errors = insert path e s.errors }

  unfoldable pub import_init : Text → Text → Walk W → Walk W
  unfolding join_path record_init
  import_init path prefix s =
      record_init (join_path path (text "__init__.py")) s (l.import_with_capture prefix s.world)

  unfoldable pub record_file : Text → Text → Walk W → Import × W → Walk W
  unfolding insert add
  record_file path fq s (imported_, w) = record s { world = w; imported = add fq s.imported }
  record_file path fq s (skipped e, w) = record s { world = w }
  record_file path fq s (broken e, w) = record s { world = w; errors = insert path e s.errors }

  -- One test file, between the calls of the hook.
  unfoldable pub import_file : Text → Text → Text → Walk W → Walk W
  unfolding join_path record_file
  import_file path prefix n s =
      let p = join_path path n in
      let fq = test_module prefix n in
      let t = record_file p fq s (l.import_with_capture fq (l.before_file p prefix s.world)) in
      record t { world = l.after_file p prefix t.world }

  -- The call for a folder starts from an empty set, which is joined to that of the caller.
  abbrev pub fresh : Walk W → Walk W
  fresh s = record s { imported = [] }

  unfoldable pub join_imported : Set Text → Walk W → Walk W
  unfolding union
  join_imported before t = record t { imported = union before t.imported }

  -- The loop over the entries of a folder, with the calls for the folders in it.
  unfoldable pub import_entries : Text → Text → Entries → Walk W → Walk W
  unfolding import_init import_file join_imported lists_name join_path
  import_entries path prefix no_more s = s
  import_entries path prefix (folder n inside rest) s =
      let sub = join_path path n in
      let sub_name = sub_prefix prefix n in
      let inner = import_entries sub sub_name inside (import_init sub sub_name (fresh s)) in
      import_entries path prefix rest (
        if has_init inside
        then join_imported s.imported inner
        else join_imported s.imported (fresh s))
  import_entries path prefix (file n rest) s =
      import_entries path prefix rest (if l.is_test_file n then import_file path prefix n s else s)
  import_entries path prefix (other n rest) s = import_entries path prefix rest s

  -- `recursive_import_tests`, from the world and the errors before the call
  unfoldable pub recursive_import_tests : Text → Text → Entries → Walk W → Walk W
  unfolding import_entries import_init lists_name
  recursive_import_tests path prefix es s =
      if has_init es
      then import_entries path prefix es (import_init path prefix (fresh s))
      else fresh s
