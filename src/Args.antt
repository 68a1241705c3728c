-- ===== src/Args.antt =====
-- args.py: the options of the command line. What argparse makes of a list of arguments is a
-- parameter.
pub mod Typed
use prunepytest.Prelude.{
  ℕ, Bool, true, false, not, ◌&&◌, ◌||◌, Option, none, some, List, [], ◌∷◌, ◌++◌, Eq, ◌==◌, drop,
  sorted, is_empty, if◌then◌else◌, list_eq, nat_eq,
}
use prunepytest.Text.{Text, text, starts_with, split, replace, text_lt}
use prunepytest.Dict.{Dict, lookup}

pub data Arg : Type 0 where
  hook_path graph_path modified base_commit : Arg

Arg-discrete : Discrete Arg
Arg-discrete = hlevel

instance unfoldable pub arg_eq : Eq Arg
unfolding Arg-discrete
arg_eq = record { dec = Arg-discrete }

-- The members of the enumeration, in order, with their values and names.
abbrev pub members : List Arg
members = hook_path ∷ graph_path ∷ modified ∷ base_commit ∷ []

abbrev pub value_of : Arg → Text
value_of hook_path = text "hook"
value_of graph_path = text "graph"
value_of modified = text "modified"
value_of base_commit = text "base-commit"

abbrev pub name_of : Arg → Text
name_of hook_path = text "hook_path"
name_of graph_path = text "graph_path"
name_of modified = text "modified"
name_of base_commit = text "base_commit"

abbrev pub option_string : Arg → List Text
option_string a = (text "--" ++ value_of a) ∷ (text "--prune-" ++ value_of a) ∷ []

-- `Arg.__lt__`
abbrev pub arg_lt : Arg → Arg → Bool
arg_lt a b = text_lt (value_of a) (value_of b)

-- The types of the fields of `ArgValues`.
pub data FieldType : Type 0 where
  str list_str : FieldType
  optional : FieldType → FieldType

-- `_is_optional_type`
abbrev pub is_optional_type : FieldType → Bool
is_optional_type str = false
is_optional_type list_str = false
is_optional_type (optional t) = true

-- What a field may hold.
pub data Value : Type 0 where
  nothing : Value
  string : Text → Value
  strings : List Text → Value

-- `_transform`
abbrev pub transform_as : FieldType → Text → Value
transform_as str v = string v
transform_as list_str v = strings (split b',' v)
transform_as (optional t) v = string v

abbrev pub inner : FieldType → FieldType
inner str = str
inner list_str = list_str
inner (optional t) = t

abbrev pub transform : Option Text → FieldType → Value
transform none t = nothing
transform (some v) t = transform_as (inner t) v

-- `fields(ArgValues)`: the name and the type of each.
abbrev pub fields : List (Text × FieldType)
fields =
    (text "_rest", list_str)
    ∷ (text "hook_path", optional str)
    ∷ (text "graph_path", optional str)
    ∷ (text "modified", optional list_str)
    ∷ (text "base_commit", optional str)
    ∷ []

infixl 5 ◌>>=◌
abbrev pub ◌>>=◌ {ℓ κ} : {A : Type ℓ} {B : Type κ} → Option A → (A → Option B) → Option B
none >>= f = none
some a >>= f = f a

-- `Arg[name]`; `none` is a KeyError.
abbrev pub arg_named : List Arg → Text → Option Arg
arg_named [] n = none
arg_named (a ∷ more) n = if n == name_of a then some a else arg_named more n

-- `_arg_types`
unfoldable pub types_of : List (Text × FieldType) → Option (Dict Arg FieldType)
unfolding starts_with
types_of [] = some []
types_of ((n, t) ∷ fs) =
    let rest = types_of fs in
    if starts_with n (text "_")
    then rest
    else do a ← arg_named members n; d ← rest; some ((a, t) ∷ d)

-- The type of an argument; `none` is a KeyError.
unfoldable pub arg_type : Arg → Option FieldType
unfolding types_of lookup
arg_type a = do d ← types_of fields; lookup a d

-- An `add_argument`.
pub record Declared : Type 0 where
  pub names : List Text
  pub required : Bool

-- `parse_known_args`: the namespace and the other arguments, or an exit of argparse's own.
pub data Parsed : Type 0 where
  parsed : Dict Text (Option Text) → List Text → Parsed
  stops : ℕ → Parsed

abbrev pub Argparse : Type 0
Argparse = List Declared → List Text → Parsed

unfoldable pub declare : List Arg → Option (List Declared)
unfolding arg_type
declare [] = some []
declare (a ∷ more) = do
  t ← arg_type a
  rest ← declare more
  some (record { names = option_string a; required = not (is_optional_type t) } ∷ rest)

-- `a.value.replace("-", "_")`
abbrev pub attribute : Arg → Text
attribute a = replace b'-' b'_' (value_of a)

-- The keyword arguments for `ArgValues`; `none` is an AttributeError or a KeyError.
unfoldable pub keywords : Dict Text (Option Text) → List Arg → Option (Dict Text Value)
unfolding lookup arg_type replace
keywords ns [] = some []
keywords ns (a ∷ more) = do
  v ← lookup (attribute a) ns
  t ← arg_type a
  rest ← keywords ns more
  some ((name_of a, transform v t) ∷ rest)

pub record ArgValues : Type 0 where
  pub rest : List Text
  pub hook_path : Option Text
  pub graph_path : Option Text
  pub modified : Option (List Text)
  pub base_commit : Option Text

-- A keyword argument as a field of type `Optional[str]` or `Optional[List[str]]`, with its default.
-- `none` is a value of another type.
abbrev pub text_field : Option Value → Option (Option Text)
text_field none = some none
text_field (some nothing) = some none
text_field (some (string s)) = some (some s)
text_field (some (strings ss)) = none

abbrev pub list_field : Option Value → Option (Option (List Text))
list_field none = some none
list_field (some nothing) = some none
list_field (some (string s)) = none
list_field (some (strings ss)) = some (some ss)

-- `ArgValues(_rest=rest, **kw)`
unfoldable pub arg_values : List Text → Dict Text Value → Option ArgValues
unfolding lookup
arg_values rest kw = do
  h ← text_field (lookup (text "hook_path") kw)
  g ← text_field (lookup (text "graph_path") kw)
  m ← list_field (lookup (text "modified") kw)
  b ← text_field (lookup (text "base_commit") kw)
  some (record { rest = rest; hook_path = h; graph_path = g; modified = m; base_commit = b })

-- `parse_args`: the values; or it prints the unknown arguments and exits with 2; or argparse exits;
-- or an exception.
pub data Args : Type 0 where
  values : ArgValues → Args
  unknown : List Text → Args
  stopped : ℕ → Args
  raises : Args

abbrev pub or_raises : Option ArgValues → Args
or_raises none = raises
or_raises (some v) = values v

abbrev pub accept : List Arg → Bool → Parsed → Args
accept supported allow_unknown (stops n) = stopped n
accept supported allow_unknown (parsed ns rest) =
    if not allow_unknown && not (is_empty rest)
    then unknown rest
    else or_raises do kw ← keywords ns supported; arg_values rest kw

abbrev pub parse_declared : Argparse → List Text → List Arg → Bool → Option (List Declared) → Args
parse_declared argparse args supported allow_unknown none = raises
parse_declared argparse args supported allow_unknown (some ds) =
    accept supported allow_unknown (argparse ds args)

unfoldable pub parse_args : Argparse → List Text → List Arg → Bool → Args
unfolding declare sorted keywords arg_values text_lt
parse_args argparse args supported allow_unknown =
    parse_declared argparse args supported allow_unknown (declare (sorted arg_lt supported))
