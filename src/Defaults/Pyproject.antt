-- ===== src/Defaults/Pyproject.antt =====
-- defaults.py: `toml_xtract`, a value by its path within a parsed TOML file.
pub mod Keys
use prunepytest.Prelude.{
  ℕ, zero, suc, ◌≡◌, refl, Bool, true, false, not, ◌||◌, Option, none, some, List, [], ◌∷◌, length,
  ◌==◌, is_empty, if◌then◌else◌, list_eq, nat_eq,
}
use prunepytest.Text.{Text, dot, partition, has_infix}

-- The values of `tomllib`; numbers, booleans and dates are a `scalar`,
-- which says whether it counts as true.
mutual
  pub data Toml : Type 0 where
    table : Entries → Toml
    array : Items → Toml
    string : Text → Toml
    scalar : Bool → Toml

  pub data Entries : Type 0 where
    no_entries : Entries
    entry : Text → Toml → Entries → Entries

  pub data Items : Type 0 where
    no_items : Items
    item : Toml → Items → Items

-- `None`, a value, or an exception.
pub data Found : Type 0 where
  absent : Found
  found : Toml → Found
  type_error : Found

-- `cfg[head]`, if `head` is in the table
unfoldable pub find_entry : Text → Entries → Option Toml
find_entry head no_entries = none
find_entry head (entry k v rest) = if head == k then some v else find_entry head rest

-- `head in cfg` for an array
unfoldable pub has_string : Text → Items → Bool
has_string head no_items = false
has_string head (item (string s) rest) = head == s || has_string head rest
has_string head (item (table t) rest) = has_string head rest
has_string head (item (array a) rest) = has_string head rest
has_string head (item (scalar b) rest) = has_string head rest

-- `cfg[head]`, or `None` unless `head in cfg`
unfoldable pub get_entry : Toml → Text → Found
unfolding find_entry has_string has_infix
get_entry (table t) head = elim (find_entry head t) [ none ↦ absent | some v ↦ found v ]
get_entry (array a) head = if has_string head a then type_error else absent
get_entry (string s) head = if has_infix s head then type_error else absent
get_entry (scalar b) head = type_error

abbrev pub continue_in : (Toml → Found) → Found → Found
continue_in rest absent = absent
continue_in rest type_error = type_error
continue_in rest (found v) = rest v

-- `cfg[head]` itself at the end of the path
abbrev pub descend : (Toml → Text → Found) → Text → Toml → Found
descend again tail v = if is_empty tail then found v else again v tail

-- `toml_xtract`; the fuel is more than the number of dots in the path.
unfoldable pub extract_for : ℕ → Toml → Text → Found
extract_for zero cfg path = type_error
extract_for (suc fuel) cfg path =
    let (head, separator, tail) = partition dot path in
    continue_in (descend (extract_for fuel) tail) (get_entry cfg head)

unfoldable pub toml_xtract : Toml → Text → Found
toml_xtract cfg path = extract_for (suc (length path)) cfg path

-- `if cfg:`
abbrev pub is_truthy : Toml → Bool
is_truthy (table no_entries) = false
is_truthy (table (entry k v rest)) = true
is_truthy (array no_items) = false
is_truthy (array (item v rest)) = true
is_truthy (string s) = not (is_empty s)
is_truthy (scalar b) = b

-- `name in cfg`; `none` is a TypeError.
unfoldable pub is_in : Text → Toml → Option Bool
unfolding find_entry has_string has_infix
is_in name (table t) = elim (find_entry name t) [ none ↦ some false | some v ↦ some true ]
is_in name (array a) = some (has_string name a)
is_in name (string s) = some (has_infix s name)
is_in name (scalar b) = none
