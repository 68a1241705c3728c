-- ===== src/Items.antt =====
-- pytest/util.py: test items and the file that a test comes from.
use prunepytest.Prelude.{ℕ, Bool, Option, none, some, List, [], ◌∷◌, Eq, ℕ_discrete, if◌then◌else◌}
use prunepytest.Text.{Text}

-- A node of the collection tree; its `id` stands for the identity of the object.
pub record Node : Type 0 where
  pub id : ℕ
  pub is_file : Bool
  pub path : Text

-- A `pytest.Item`: `is_function` is the `isinstance` test for plain functions and methods,
-- `parents` the chain of `.parent` from the item up.
pub record Item : Type 0 where
  pub id : ℕ
  pub name : Text
  pub is_function : Bool
  pub location : Text
  pub parents : List Node

-- What a cache is keyed by: an object, which is a node or an item.
pub data Key : Type 0 where
  of_node : Node → Key
  of_item : Item → Key

node_dec : Discrete Node
node_dec = hlevel ℕ_discrete

item_dec : Discrete Item
item_dec = hlevel (ℕ_discrete, node_dec)

key_dec : Discrete Key
key_dec = hlevel (node_dec, item_dec)

instance unfoldable pub key_eq : Eq Key
unfolding node_dec item_dec key_dec ℕ_discrete
key_eq = record { dec = key_dec }

-- The first `pytest.File` up the tree.
unfoldable pub find_file : List Node → Option Node
find_file [] = none
find_file (p ∷ ps) = let r = find_file ps in if p.is_file then some p else r

-- `actual_test_file`: the file, and for a test that is no function the location of its data
unfoldable pub actual_test_file : Item → Text × Option Text
unfolding find_file
actual_test_file item =
    let f = if item.is_function then none else some item.location in
    elim (find_file item.parents) [ none ↦ (item.location, none) | some p ↦ (p.path, f) ]
