-- ===== src/Defaults/Pyproject/Keys.antt =====
-- defaults.py: `toml_xtract` and the keys of a path, one by one.
use prunepytest.Prelude.{
  ℕ, zero, suc, ◌≡◌, ◌<◌, refl, ◌∙◌, ap, false, List, [], ◌∷◌, ◌++◌, length, length-append, arith,
  Every, contains, is_empty, if◌then◌else◌, list_eq, nat_eq, eq_refl,
}
use prunepytest.Text.{Text, dot, partition}
use prunepytest.Defaults.Pyproject.{
  Toml, Found, absent, found, type_error, get_entry, continue_in, descend, extract_for, toml_xtract,
}

-- One key after the other, the reference definition.
unfoldable pub walk : List Text → Toml → Found
walk [] v = found v
walk (k ∷ ks) v = continue_in (walk ks) (get_entry v k)

-- `".".join(keys)`
unfoldable pub join_keys : List Text → Text
join_keys [] = []
join_keys (k ∷ []) = k
join_keys (k ∷ j ∷ ks) = k ++ dot ∷ join_keys (j ∷ ks)

-- A key that can stand in a path.
abbrev pub IsKey : Text → Type 0
IsKey k = (is_empty k ≡ false) × (contains k dot ≡ false)

partition-dot :
    (k rest : Text) → contains k dot ≡ false → partition dot (k ++ dot ∷ rest) ≡ (k, dot ∷ [], rest)
unfolding partition
partition-dot [] rest h = ground (arith, eq_refl dot)
partition-dot (x ∷ k) rest h = ground (arith, partition-dot k rest (ground arith))

partition-plain : (k : Text) → contains k dot ≡ false → partition dot k ≡ (k, [], [])
unfolding partition
partition-plain [] h = refl
partition-plain (x ∷ k) h = ground (arith, partition-plain k (ground arith))

join_keys-is_empty :
    (k : Text) (ks : List Text) → is_empty k ≡ false → is_empty (join_keys (k ∷ ks)) ≡ false
unfolding join_keys
join_keys-is_empty [] ks h = absurd (cc)
join_keys-is_empty (x ∷ k) [] h = refl
join_keys-is_empty (x ∷ k) (j ∷ ks) h = refl

continue_in-along :
    (f g : Toml → Found) (r : Found) → ((v : Toml) → f v ≡ g v) → continue_in f r ≡ continue_in g r
continue_in-along f g absent h = refl
continue_in-along f g type_error h = refl
continue_in-along f g (found v) h = h v

extract_for-walk :
    (fuel : ℕ) (k : Text) (ks : List Text) (v : Toml)
    → Every IsKey (k ∷ ks)
    → length (join_keys (k ∷ ks)) < fuel
    → extract_for fuel v (join_keys (k ∷ ks)) ≡ walk (k ∷ ks) v
unfolding extract_for walk join_keys
extract_for-walk zero k ks v h l = absurd (omega arith)
extract_for-walk (suc fuel) k [] v ((filled, plain), h) l =
    ap (λ p. continue_in (descend (extract_for fuel) p.2) (get_entry v p.0))
      (partition-plain k plain)
extract_for-walk (suc fuel) k (j ∷ ks) v ((filled, plain), (q, h)) l =
    ap (λ p. continue_in (descend (extract_for fuel) p.2) (get_entry v p.0))
      (partition-dot k (join_keys (j ∷ ks)) plain)
    ∙ continue_in-along (descend (extract_for fuel) (join_keys (j ∷ ks))) (walk (j ∷ ks))
        (get_entry v k)
        (λ u.
          ap (λ b. if b then found u else extract_for fuel u (join_keys (j ∷ ks)))
            (join_keys-is_empty j ks q.0)
          ∙ extract_for-walk fuel j ks u (q, h)
              (omega (arith, l, length-append k (dot ∷ join_keys (j ∷ ks)))))

-- At a path of keys without dots, joined by dots, `toml_xtract` goes from table to table, one key
-- after the other: the recursion ends with the last key.
pub toml_xtract-walk :
    (k : Text) (ks : List Text) (cfg : Toml)
    → Every IsKey (k ∷ ks)
    → toml_xtract cfg (join_keys (k ∷ ks)) ≡ walk (k ∷ ks) cfg
unfolding toml_xtract
toml_xtract-walk k ks cfg h =
    extract_for-walk (suc (length (join_keys (k ∷ ks)))) k ks cfg h (omega arith)
