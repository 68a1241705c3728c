-- ===== src/Args/Typed.antt =====
-- args.py: the values have the types of their fields.
use mathlib.Core.Option
use prunepytest.Prelude.{
  ◌≡◌, refl, ◌∙◌, ap, Bool, true, false, ◌||◌, Option, none, some, List, [], ◌∷◌, ◌==◌, arith, inl,
  inr, Option-cases, Every, contains, drop, map, is_empty, sorted, Every-sorted, if◌then◌else◌,
  list_eq, nat_eq,
}
use prunepytest.Text.{Text, split, replace}
use prunepytest.Dict.{Dict, lookup, has}
use prunepytest.Args.{
  Arg, hook_path, graph_path, modified, base_commit, arg_eq, option_string, name_of, arg_lt,
  FieldType, str, list_str, optional, Value, transform, arg_type, Declared, Parsed, parsed, stops,
  Argparse, declare, attribute, keywords, ArgValues, text_field, list_field, arg_values, Args,
  values, unknown, stopped, accept, parse_declared, parse_args,
}

abbrev pub type_of : Arg → FieldType
type_of hook_path = optional str
type_of graph_path = optional str
type_of modified = optional list_str
type_of base_commit = optional str

arg_type-type_of : (a : Arg) → arg_type a ≡ some (type_of a)
unfolding arg_type arg_eq nat_eq list_eq
arg_type-type_of hook_path = refl
arg_type-type_of graph_path = refl
arg_type-type_of modified = refl
arg_type-type_of base_commit = refl

-- No argument is required.
abbrev pub declared : Arg → Declared
declared a = record { names = option_string a; required = false }

declare-map : (args : List Arg) → declare args ≡ some (map declared args)
unfolding declare
declare-map [] = refl
declare-map (hook_path ∷ more) = rw (arg_type-type_of hook_path, declare-map more)
declare-map (graph_path ∷ more) = rw (arg_type-type_of graph_path, declare-map more)
declare-map (modified ∷ more) = rw (arg_type-type_of modified, declare-map more)
declare-map (base_commit ∷ more) = rw (arg_type-type_of base_commit, declare-map more)

-- The attribute that argparse makes for an option: the first of its names without the dashes in
-- front, and with underscores for the others.
abbrev pub first_name : List Text → Text
first_name [] = []
first_name (n ∷ names) = n

abbrev pub dest : Declared → Text
dest d = replace b'-' b'_' (drop 2 (first_name d.names))

abbrev pub HasDest : Dict Text (Option Text) → Declared → Type 0
HasDest ns d = has (dest d) ns ≡ true

-- The namespace has the attribute of every option that was added.
abbrev pub IsDocumented : Argparse → Type 0
IsDocumented argparse =
    (ds : List Declared) (args : List Text) (ns : Dict Text (Option Text)) (rest : List Text)
    → argparse ds args ≡ parsed ns rest
    → Every (HasDest ns) ds

abbrev HasAttribute : Dict Text (Option Text) → Arg → Type 0
HasAttribute ns a = has (attribute a) ns ≡ true

HasDest-attribute :
    (ns : Dict Text (Option Text)) (a : Arg) → HasDest ns (declared a) → HasAttribute ns a
unfolding replace
HasDest-attribute ns hook_path h = h
HasDest-attribute ns graph_path h = h
HasDest-attribute ns modified h = h
HasDest-attribute ns base_commit h = h

HasAttribute-declared :
    (ns : Dict Text (Option Text)) (args : List Arg)
    → Every (HasDest ns) (map declared args)
    → Every (HasAttribute ns) args
HasAttribute-declared ns [] h = tt
HasAttribute-declared ns (a ∷ args) (p, h) =
    (HasDest-attribute ns a p, HasAttribute-declared ns args h)

abbrev pub or_nothing : Option (Option Text) → Option Text
or_nothing none = none
or_nothing (some v) = v

-- What is given for an argument: nothing, if it is not supported.
abbrev pub given : List Arg → Dict Text (Option Text) → Arg → Option Text
given supported ns a = if contains supported a then or_nothing (lookup (attribute a) ns) else none

abbrev given_value : List Arg → Dict Text (Option Text) → Arg → Option Value
given_value supported ns a =
    if contains supported a
    then some (transform (or_nothing (lookup (attribute a) ns)) (type_of a))
    else none

name_of-eq : (a b : Arg) → (name_of a == name_of b) ≡ (a == b)
unfolding arg_eq list_eq nat_eq
name_of-eq hook_path hook_path = refl
name_of-eq hook_path graph_path = refl
name_of-eq hook_path modified = refl
name_of-eq hook_path base_commit = refl
name_of-eq graph_path hook_path = refl
name_of-eq graph_path graph_path = refl
name_of-eq graph_path modified = refl
name_of-eq graph_path base_commit = refl
name_of-eq modified hook_path = refl
name_of-eq modified graph_path = refl
name_of-eq modified modified = refl
name_of-eq modified base_commit = refl
name_of-eq base_commit hook_path = refl
name_of-eq base_commit graph_path = refl
name_of-eq base_commit modified = refl
name_of-eq base_commit base_commit = refl

keywords_lem :
    (ns : Dict Text (Option Text)) (supported : List Arg)
    → Every (HasAttribute ns) supported
    → (kw : Dict Text Value) × (keywords ns supported ≡ some kw)
      × ((a : Arg) → lookup (name_of a) kw ≡ given_value supported ns a)
unfolding keywords has lookup
keywords_lem ns [] h = ([], refl, λ a. refl)
keywords_lem ns (b ∷ supported) (p, h) =
    let (kw, e, k) = keywords_lem ns supported h in
    elim (Option-cases (lookup (attribute b) ns)) [
      | inl n ↦ absurd (ground (arith, n, p))
      | inr (v, n) ↦ (
        (name_of b, transform v (type_of b)) ∷ kw,
        ground (arith, n, e, arg_type-type_of b),
        λ a. ground (arith, n, k a, name_of-eq a b),
      )
    ]

-- What `parse_args` has to give for what argparse gives.
abbrev pub values_given : List Arg → Dict Text (Option Text) → List Text → ArgValues
values_given supported ns rest = record {
  rest = rest;
  hook_path = given supported ns hook_path;
  graph_path = given supported ns graph_path;
  modified = Option.map (split b',') (given supported ns modified);
  base_commit = given supported ns base_commit;
}

abbrev pub outcome : List Arg → Bool → Parsed → Args
outcome supported allow_unknown (stops n) = stopped n
outcome supported allow_unknown (parsed ns rest) =
    if allow_unknown || is_empty rest then values (values_given supported ns rest) else unknown rest

text_field-transform :
    (b : Bool) (o : Option (Option Text))
    → text_field (if b then some (transform (or_nothing o) (optional str)) else none)
      ≡ some (if b then or_nothing o else none)
text_field-transform false o = refl
text_field-transform true none = refl
text_field-transform true (some none) = refl
text_field-transform true (some (some v)) = refl

list_field-transform :
    (b : Bool) (o : Option (Option Text))
    → list_field (if b then some (transform (or_nothing o) (optional list_str)) else none)
      ≡ some (Option.map (split b',') (if b then or_nothing o else none))
list_field-transform false o = refl
list_field-transform true none = refl
list_field-transform true (some none) = refl
list_field-transform true (some (some v)) = refl

-- Each field from the keyword argument of its name.
arg_values-given :
    (supported : List Arg) (ns : Dict Text (Option Text)) (rest : List Text) (kw : Dict Text Value)
    → ((a : Arg) → lookup (name_of a) kw ≡ given_value supported ns a)
    → arg_values rest kw ≡ some (values_given supported ns rest)
unfolding arg_values
arg_values-given supported ns rest kw h = rw (
  h hook_path,
  h graph_path,
  h modified,
  h base_commit,
  text_field-transform (contains supported hook_path) (lookup (attribute hook_path) ns),
  text_field-transform (contains supported graph_path) (lookup (attribute graph_path) ns),
  list_field-transform (contains supported modified) (lookup (attribute modified) ns),
  text_field-transform (contains supported base_commit) (lookup (attribute base_commit) ns),
)

accept_lem :
    (supported : List Arg) (allow_unknown : Bool) (ns : Dict Text (Option Text)) (rest : List Text)
    → Every (HasAttribute ns) supported
    → accept supported allow_unknown (parsed ns rest)
      ≡ outcome supported allow_unknown (parsed ns rest)
accept_lem supported allow_unknown ns rest h =
    let (kw, e, k) = keywords_lem ns supported h in
    ground (arith, e, arg_values-given supported ns rest kw k)

-- If argparse's namespace has the attribute of each option that was added, then `parse_args` raises
-- no exception of its own: it exits where argparse does, rejects unknown arguments unless they are
-- allowed, and otherwise gives each field a value of its declared type: that of its option, with a
-- list split at the commas, and none for an option that is not supported.
pub parse_args-outcome :
    (argparse : Argparse) (args : List Text) (supported : List Arg) (allow_unknown : Bool)
    → IsDocumented argparse
    → parse_args argparse args supported allow_unknown
      ≡ outcome supported allow_unknown (argparse (map declared (sorted arg_lt supported)) args)
unfolding parse_args
parse_args-outcome argparse args supported allow_unknown h =
    ap (parse_declared argparse args supported allow_unknown)
      (declare-map (sorted arg_lt supported))
    ∙ after (argparse (map declared (sorted arg_lt supported)) args) refl
  where
    after :
        (p : Parsed)
        → argparse (map declared (sorted arg_lt supported)) args ≡ p
        → accept supported allow_unknown p ≡ outcome supported allow_unknown p
    after (stops n) e = refl
    after (parsed ns rest) e = accept_lem supported allow_unknown ns rest (
        Every-sorted arg_lt (HasAttribute ns) supported (
          HasAttribute-declared ns (sorted arg_lt supported)
            (h (map declared (sorted arg_lt supported)) args ns rest e)))
