-- ===== src/Git/Fork.antt =====
-- vcs/git.py: `fork_point` without a reference to compare with.
use prunepytest.Prelude.{
  ◌≡◌, refl, ap, none, List, [], ◌∷◌, ◌⊎◌, inl, inr, Option-cases, arith, list_eq, nat_eq,
}
use prunepytest.Text.{Text, text}
use prunepytest.Dict.{Dict}
use prunepytest.Git.{
  Run, ref_of, commit_id, list_remotes, try_candidate, find_candidates, choose_candidate,
  fork_point_of, fork_point,
}

abbrev Found : Type 0
Found = Text × Dict Text Text

-- Two states of the loops from different commits: the same, or both without a candidate.
abbrev Alike : Found → Found → Type 0
Alike s t = (s ≡ t) ⊎ ((s.1 ≡ []) × (t.1 ≡ []))

module _ (git : Run) where
  try_candidate-Alike :
      (r b : Text) (s t : Found)
      → Alike s t
      → Alike (try_candidate git r b s) (try_candidate git r b t)
  unfolding try_candidate
  try_candidate-Alike r b (c, d) (c', d') (inl e) = inl (ap (try_candidate git r b) e)
  try_candidate-Alike r b (c, d) (c', d') (inr (p, q)) =
      elim (Option-cases (commit_id git (ref_of r b))) [
        | inl e ↦ inr (ground arith, ground arith)
        | inr (x, e) ↦ inl (ground arith)
      ]

  find_candidates-Alike :
      (rs : List Text) (s t : Found)
      → Alike s t
      → Alike (find_candidates git rs s) (find_candidates git rs t)
  unfolding find_candidates
  find_candidates-Alike [] s t h = h
  find_candidates-Alike (r ∷ rs) s t h =
      find_candidates-Alike rs _ _
        (try_candidate-Alike r (text "main") _ _ (try_candidate-Alike r (text "master") s t h))

  fork_point_of-Alike : (s t : Found) → Alike s t → fork_point_of git s ≡ fork_point_of git t
  unfolding fork_point_of choose_candidate
  fork_point_of-Alike s t (inl e) = ap (fork_point_of git) e
  fork_point_of-Alike (c, d) (c', d') (inr (p, q)) = ground arith

  -- Without a reference, `fork_point` does not depend on the commit that it is asked about.
  pub fork_point-commit : (c d : Text) → fork_point git c none ≡ fork_point git d none
  unfolding fork_point
  fork_point-commit c d = elim (Option-cases (list_remotes git)) [
    | inl e ↦ ground arith
    | inr (rs, e) ↦ ground (
      arith,
      fork_point_of-Alike (find_candidates git rs (c, [])) (find_candidates git rs (d, []))
          (find_candidates-Alike rs (c, []) (d, []) (inr (refl, refl))),
    )
  ]
