-- ===== src/Git.antt =====
-- vcs/git.py: the questions to git. `git` with its arguments is a parameter: what it prints, or
-- `none` for a CalledProcessError.
pub mod Words
pub mod Printed
pub mod Fork
use prunepytest.Prelude.{
  ℕ, String, Bool, true, false, not, ◌||◌, ◌&&◌, Option, none, some, List, [], ◌∷◌, ◌++◌, ◌==◌,
  contains, drop, map, length, is_empty, ltb, if◌then◌else◌, list_eq, nat_eq,
}
use prunepytest.Text.{Text, text, partition}
use prunepytest.Dict.{Dict, insert, has, lookup_or, keys}
use prunepytest.Git.Words.{words, split_lines, rstrip, strip}

abbrev pub Run : Type 0
Run = List Text → Option Text

-- `origin/master` and the like
abbrev pub ref_of : Text → Text → Text
ref_of remote branch = remote ++ text "/" ++ branch

-- `list(itertools.chain.from_iterable(…))`
unfoldable pub chain : List (List Text) → List Text
chain [] = []
chain (xs ∷ xss) = xs ++ chain xss

-- The paths in the lines of `git show --name-status`: `status[0]` raises on an empty line.
unfoldable pub status_paths : List Text → Option (List Text)
unfolding words
status_paths [] = some []
status_paths ([] ∷ lines) = none
status_paths ((c ∷ status) ∷ lines) = elim (status_paths lines) [
  | none ↦ none
  | some paths ↦
      some (if c == b'?' || c == b'!' then paths else drop 1 (words (c ∷ status)) ++ paths)
]

abbrev pub dirty_paths : Text → List Text
dirty_paths status = words (strip (drop 2 status))

abbrev pub range_of : Text → Text → Text
range_of base commit = if is_empty base then commit else base ++ text ".." ++ commit

-- The reference to compare with: the branch at `origin`, or else the first candidate.
unfoldable pub choose_candidate : Dict Text Text → Option Text
unfolding has lookup_or
choose_candidate candidates =
    if has (text "origin/master") candidates
    then some (lookup_or (text "origin/master") [] candidates)
    else if has (text "origin/main") candidates
    then some (lookup_or (text "origin/main") [] candidates)
    else elim (keys candidates) [ [] ↦ none | ref ∷ refs ↦ some ref ]

module _ (git : Run) where
  -- `.decode("utf-8").rstrip()` of what a command prints
  unfoldable pub ask : List Text → Option Text
  unfolding rstrip
  ask args = elim (git args) [ none ↦ none | some out ↦ some (rstrip out) ]

  unfoldable pub repo_root : Option Text
  unfolding ask
  repo_root = ask (text "rev-parse" ∷ text "--show-toplevel" ∷ [])

  unfoldable pub is_repo_clean : Option Bool
  unfolding ask
  is_repo_clean = elim (ask (text "status" ∷ text "--porcelain=v1" ∷ [])) [
    | none ↦ none
    | some out ↦ some (is_empty out)
  ]

  unfoldable pub commit_id : Text → Option Text
  unfolding ask
  commit_id ref = ask (text "rev-parse" ∷ ref ∷ [])

  unfoldable pub recent_commits : Text → Option (List Text)
  unfolding split_lines partition
  recent_commits n = elim (git (text "log" ∷ text "--oneline" ∷ text "-n" ∷ n ∷ [])) [
    | none ↦ none
    | some out ↦ some (map (λ l. (partition b' ' l).0) (split_lines out))
  ]

  unfoldable pub list_remotes : Option (List Text)
  unfolding ask words
  list_remotes = elim (ask (text "remote" ∷ [])) [ none ↦ none | some out ↦ some (words out) ]

  -- One round of the loops of `fork_point`: `commit_id` is assigned, and the candidate is kept.
  unfoldable pub try_candidate : Text → Text → Text × Dict Text Text → Text × Dict Text Text
  unfolding commit_id insert
  try_candidate remote branch (commit, candidates) = elim (commit_id (ref_of remote branch)) [
    | none ↦ (commit, candidates)
    | some c ↦ (c, insert (ref_of remote branch) branch candidates)
  ]

  unfoldable pub find_candidates : List Text → Text × Dict Text Text → Text × Dict Text Text
  unfolding try_candidate
  find_candidates [] s = s
  find_candidates (r ∷ rs) s =
      find_candidates rs (try_candidate r (text "main") (try_candidate r (text "master") s))

  unfoldable pub fork_point_from : Text → Text → Option Text
  unfolding ask
  fork_point_from commit from_ref = ask (
      text "merge-base" ∷ (if is_empty from_ref then [] else text "--fork-point" ∷ from_ref ∷ [])
      ++ commit ∷ [])

  -- What `fork_point` does once it has looked for candidates.
  unfoldable pub fork_point_of : Text × Dict Text Text → Option Text
  unfolding fork_point_from choose_candidate
  fork_point_of (c, candidates) = elim (choose_candidate candidates) [
    | none ↦ none
    | some ref ↦ fork_point_from c ref
  ]

  -- `fork_point`: `none` is also what a failed command gives.
  unfoldable pub fork_point : Text → Option Text → Option Text
  fork_point commit (some ref) = fork_point_from commit ref
  fork_point commit none = elim list_remotes [
    | none ↦ none
    | some remotes ↦ fork_point_of (find_candidates remotes (commit, []))
  ]

  unfoldable pub dirty_files : Option (List Text)
  unfolding split_lines words strip chain
  dirty_files = elim (git (text "status" ∷ text "--porcelain=v1" ∷ [])) [
    | none ↦ none
    | some out ↦ some (chain (map dirty_paths (split_lines out)))
  ]

  unfoldable pub parents : Text → Option (List Text)
  unfolding words
  parents commit = elim (git (text "show" ∷ text "-s" ∷ text "--pretty=%P" ∷ commit ∷ [])) [
    | none ↦ none
    | some out ↦ some (words out)
  ]

  unfoldable pub merge_base : List Text → Option Text
  unfolding ask
  merge_base commits = ask (text "merge-base" ∷ commits)

  -- The base commit: of a merge, the merge base of its parents; an empty text for none.
  unfoldable pub base_of : Text → Option Text
  unfolding parents merge_base
  base_of commit = elim (parents commit) [
    | none ↦ none
    | some ps ↦ if ltb 1 (length ps) then merge_base ps else some []
  ]

  unfoldable pub show_names : Text → Option (List Text)
  unfolding split_lines status_paths
  show_names range =
      elim (git (text "show" ∷ text "--pretty=" ∷ text "--name-status" ∷ range ∷ [])) [
        | none ↦ none
        | some out ↦ status_paths (split_lines out)
      ]

  -- `modified_files`; an empty `base_commit` is as good as none.
  unfoldable pub modified_files : Text → Text → Option (List Text)
  unfolding base_of show_names
  modified_files commit base =
      if is_empty base
      then elim (base_of commit) [ none ↦ none | some b ↦ show_names (range_of b commit) ]
      else show_names (range_of base commit)
