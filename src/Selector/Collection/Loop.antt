-- ===== src/Selector/Collection/Loop.antt =====
-- pytest/selector.py: the loop that deletes items by index visits each item once, from the last to
-- the first, and loses none.
use mathlib.Core.List.{reverse_aux, Perm, perm_middle, perm_append_comm, append_assoc}
use mathlib.Core.List.Perm
use mathlib.Core.Path.{ap₂}
use prunepytest.Prelude.{
  ℕ, suc, ◌+◌, ◌≡◌, refl, ◌∙◌, subst, ap, Bool, true, false, Option, none, some, List, [], ◌∷◌,
  ◌++◌, length, get_elem?, arith, Option-cases, inl, inr,
}
use prunepytest.Selector.Collection.{remove_at, visit, visit_all}

-- The same as a recursion on the items not yet visited, the last first; `rest` are the items kept.
unfoldable pub split_by {ℓ κ} :
    {A : Type ℓ} {S : Type κ}
    → (A → S → Option Bool × S)
    → List A
    → List A
    → List A
    → S
    → Option (List A × List A × S)
split_by keep [] rest skipped s = some (rest, skipped, s)
split_by keep (x ∷ xs) rest skipped s =
    let (r, t) = keep x s in
    elim r [
      | none ↦ none
      | some b ↦ elim b [
        | true ↦ split_by keep xs (x ∷ rest) skipped t
        | false ↦ split_by keep xs rest (skipped ++ x ∷ []) t
      ]
    ]

module _ {ℓ} {A : Type ℓ} where
  get_elem?-reverse_aux :
      (ys zs : List A) (i : ℕ) → get_elem? (reverse_aux ys zs) (i + length ys) ≡ get_elem? zs i
  get_elem?-reverse_aux [] zs i = ap (get_elem? zs) (omega arith)
  get_elem?-reverse_aux (y ∷ ys) zs i =
      ap (get_elem? (reverse_aux ys (y ∷ zs))) (omega arith)
      ∙ get_elem?-reverse_aux ys (y ∷ zs) (suc i)

  remove_at-reverse_aux :
      (ys zs : List A) (i : ℕ)
      → remove_at (i + length ys) (reverse_aux ys zs) ≡ reverse_aux ys (remove_at i zs)
  unfolding remove_at
  remove_at-reverse_aux [] zs i = ap (λ n. remove_at n zs) (omega arith)
  remove_at-reverse_aux (y ∷ ys) zs i =
      ap (λ n. remove_at n (reverse_aux ys (y ∷ zs))) (omega arith)
      ∙ remove_at-reverse_aux ys (y ∷ zs) (suc i)

  last_item : (y : A) (ys zs : List A) → get_elem? (reverse_aux ys (y ∷ zs)) (length ys) ≡ some y
  last_item y ys zs =
      ap (get_elem? (reverse_aux ys (y ∷ zs))) (omega arith) ∙ get_elem?-reverse_aux ys (y ∷ zs) 0

  without_last :
      (y : A) (ys zs : List A) → remove_at (length ys) (reverse_aux ys (y ∷ zs)) ≡ reverse_aux ys zs
  unfolding remove_at
  without_last y ys zs =
      ap (λ n. remove_at n (reverse_aux ys (y ∷ zs))) (omega arith)
      ∙ remove_at-reverse_aux ys (y ∷ zs) 0

  moved :
      (y : A) (ys rest skipped : List A)
      → ys ++ (rest ++ skipped) ++ y ∷ [] ≡ ys ++ (rest ++ (skipped ++ y ∷ []))
  moved y ys rest skipped = simp (append_assoc)

  pub length-reverse_aux : (xs ys : List A) → length (reverse_aux xs ys) ≡ length xs + length ys
  length-reverse_aux [] ys = omega arith
  length-reverse_aux (x ∷ xs) ys = omega (arith, length-reverse_aux xs (x ∷ ys))

  pub reverse_aux-reverse :
      (xs ys : List A) → reverse_aux (reverse_aux xs ys) [] ≡ reverse_aux ys xs
  reverse_aux-reverse [] ys = refl
  reverse_aux-reverse (x ∷ xs) ys = reverse_aux-reverse xs (x ∷ ys)

module _ {ℓ κ} {A : Type ℓ} {S : Type κ} (keep : A → S → Option Bool × S) where
  -- What a round makes of the verdict on the last item.
  ruled : A → List A → List A → List A → Option Bool × S → Option (List A × List A × S)
  ruled y ys rest skipped (none, t) = none
  ruled y ys rest skipped (some true, t) = some (reverse_aux ys (y ∷ rest), skipped, t)
  ruled y ys rest skipped (some false, t) = some (reverse_aux ys rest, skipped ++ y ∷ [], t)

  visit-last :
      (y : A) (ys rest skipped : List A) (s : S)
      → visit keep (length ys) (reverse_aux ys (y ∷ rest), skipped, s)
        ≡ ruled y ys rest skipped (keep y s)
  unfolding visit ruled
  visit-last y ys rest skipped s = ground (arith, last_item y ys rest, without_last y ys rest)

  pub visit_all-reverse_aux :
      (ys rest skipped : List A) (s : S)
      → visit_all keep (length ys) (reverse_aux ys rest, skipped, s)
        ≡ split_by keep ys rest skipped s
  unfolding visit_all split_by ruled
  visit_all-reverse_aux [] rest skipped s = refl
  visit_all-reverse_aux (y ∷ ys) rest skipped s = ground (
    arith,
    visit-last y ys rest skipped s,
    visit_all-reverse_aux ys (y ∷ rest) skipped (keep y s).1,
    visit_all-reverse_aux ys rest (skipped ++ y ∷ []) (keep y s).1,
  )

  pub parts :
      {a b c d : List A} {s t : S}
      → ◌≡◌ {A = Option (List A × List A × S)} (some (a, b, s)) (some (c, d, t))
      → (a ≡ c) × (b ≡ d) × (s ≡ t)
  parts h = (cc, cc, cc)

  pub split_by-Perm :
      (ys rest skipped : List A) (s : S) (kept deselected : List A) (t : S)
      → split_by keep ys rest skipped s ≡ some (kept, deselected, t)
      → Perm (kept ++ deselected) (ys ++ (rest ++ skipped))
  unfolding split_by
  split_by-Perm [] rest skipped s kept deselected t h =
      let (p, q, r) = parts h in
      subst (λ l. Perm l (rest ++ skipped)) (ap₂ ◌++◌ p q) (Perm.refl (rest ++ skipped))
  split_by-Perm (y ∷ ys) rest skipped s kept deselected t h = elim (Option-cases (keep y s).0) [
    | inl e ↦ absurd (ground arith)
    | inr (true, e) ↦
        Perm.trans
          (split_by-Perm ys (y ∷ rest) skipped (keep y s).1 kept deselected t (ground arith))
          (perm_middle ys (rest ++ skipped))
    | inr (false, e) ↦
        Perm.trans
          (split_by-Perm ys rest (skipped ++ y ∷ []) (keep y s).1 kept deselected t (ground arith))
          (subst (λ l. Perm l (y ∷ (ys ++ (rest ++ skipped)))) (moved y ys rest skipped)
            (perm_append_comm (ys ++ (rest ++ skipped)) (y ∷ [])))
  ]
