-- ===== src/Tests/Commits.antt =====
-- The output of git for a commit that renames one file and adds another.
use prunepytest.Prelude.{◌≡◌, refl, none, some, List, [], ◌∷◌, list_eq, nat_eq}
use prunepytest.Text.{text}
use prunepytest.Git.{Run, dirty_files, modified_files, fork_point}
use prunepytest.Git.Words.{is_space, is_break}
use prunepytest.Git.Printed.{Row, print_rows, paths_of, modified_files-print_rows}
use prunepytest.Git.Fork.{fork_point-commit}

abbrev two_rows : List Row
two_rows =
    record { status = (b'R', text "100"); paths = (b'a', text ".py") ∷ (b'b', text ".py") ∷ [] }
    ∷ record { status = (b'A', []); paths = (b'c', text ".py") ∷ [] }
    ∷ []

abbrev printing : Run
printing args = some (print_rows two_rows)

modified_files-print_rows_example :
    modified_files printing (text "HEAD") (text "main") ≡ some (paths_of two_rows)
unfolding is_space nat_eq
modified_files-print_rows_example =
    modified_files-print_rows printing (text "HEAD") (text "main") two_rows refl refl (
      (
        (refl, (refl, (refl, (refl, tt)))),
        ((refl, (refl, (refl, (refl, tt)))), ((refl, (refl, (refl, (refl, tt)))), tt)),
        refl,
      ),
      (((refl, tt), ((refl, (refl, (refl, (refl, tt)))), tt), refl), tt),
    )

fork_point-commit_example :
    fork_point printing (text "HEAD") none ≡ fork_point printing (text "v1") none
fork_point-commit_example = fork_point-commit printing (text "HEAD") (text "v1")

-- The arrow of a renamed file is returned like a path.
dirty_rename :
    dirty_files (λ args. some (text "R  a.py -> b.py"))
    ≡ some (text "a.py" ∷ text "->" ∷ text "b.py" ∷ [])
unfolding dirty_files is_space is_break nat_eq
dirty_rename = refl
