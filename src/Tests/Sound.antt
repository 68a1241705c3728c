-- ===== src/Tests/Sound.antt =====
-- The trust of the validator and the selection, on a small project.
use prunepytest.Tests.SmallProject.{
  small_argparse, saved_args, small_graph, hook, process, runtime, disk, graph_values, config,
  two_tests, changed, selected,
}
use prunepytest.Tracker.Contexts.{imports_of}
use prunepytest.Fnmatch.{mixin_is_test_file}
use prunepytest.Validator.Prepare.{save_new}
use prunepytest.Prelude.{
  eq_same, some_eq, ◌≡◌, refl, ap, subst, sym, ◌∙◌, ◌≢◌, Bool-cases, inl, inr, true, Option, none,
  some, [], ◌∷◌, ◌==◌, arith, contains, Every, if◌then◌else◌, list_eq, nat_eq,
}
use prunepytest.Text.{Text, text}
use prunepytest.Sets.{Set}
use prunepytest.FilePath.{join_paths, dirname}
use prunepytest.Args.{parse_args, arg_eq}
use prunepytest.Loader.{load_import_graph, build_graph, to_file, from_file, entry_at}
use prunepytest.Items.{key_eq}
use prunepytest.Selector.{no_caches, locate}
use prunepytest.Selector.Laws.{no_caches-IsValid}
use mathlib.Core.List.{Memᴰ}
use prunepytest.Tracker.State.{new_tracker}
use prunepytest.Validator.Folder.Local.{comparison, comparisons}
use prunepytest.Soundness.{IsConsistent, locally, main-modify_items_sound}
use prunepytest.Validator.Folder as Folder
use prunepytest.Validator.Folder.{Interp}
use prunepytest.Validator.Main.{Runtime, Validated, validate}
use prunepytest.Validator.Main as Validator

abbrev file_of : Text → Option Text → Option Text
file_of m pkg =
    if m == text "p.a"
    then some (text "p/a.py")
    else if m == text "p"
    then some (text "p/__init__.py")
    else if m == text "t.test_a"
    then some (text "t/test_a.py")
    else none

-- The four dependencies, with their files.
abbrev Answers : Text → Text → Type 0
Answers f changed =
    (modified : Set Text)
    → contains modified changed ≡ true
    → contains (small_graph.affected_by_files modified) f ≡ true

from_a :
    (f : Text)
    → contains (text "t/test_a.py" ∷ text "p/__init__.py" ∷ []) f ≡ true
    → Answers f (text "p/a.py")
from_a f h modified c = ground (arith, c, h)

from_init : Answers (text "t/test_a.py") (text "p/__init__.py")
unfolding list_eq nat_eq
from_init modified c = elim (Bool-cases (contains modified (text "p/a.py"))) [
  | inl e ↦ rw e refl
  | inr e ↦ rw (e, c) refl
]

deduce :
    (m d f changed m' d' f' changed' : Text) (pkg : Option Text)
    → m == m' ≡ true
    → d == d' ≡ true
    → file_of m' pkg ≡ some f'
    → file_of d' pkg ≡ some changed'
    → Answers f' changed'
    → file_of m pkg ≡ some f
    → file_of d pkg ≡ some changed
    → Answers f changed
deduce m d f changed m' d' f' changed' pkg p q u v ans a b =
    let same_f : f' ≡ f = some_eq (sym u ∙ ap (λ n. file_of n pkg) (sym (eq_same m m' p)) ∙ a) in
    let same_changed : changed' ≡ changed =
      some_eq (sym v ∙ ap (λ n. file_of n pkg) (sym (eq_same d d' q)) ∙ b) in
    subst (λ x. Answers x changed) same_f (subst (λ x. Answers f' x) same_changed ans)

file_of-a : (pkg : Option Text) → file_of (text "p.a") pkg ≡ some (text "p/a.py")
unfolding list_eq nat_eq
file_of-a pkg = refl

file_of-p : (pkg : Option Text) → file_of (text "p") pkg ≡ some (text "p/__init__.py")
unfolding list_eq nat_eq
file_of-p pkg = refl

file_of-test : (pkg : Option Text) → file_of (text "t.test_a") pkg ≡ some (text "t/test_a.py")
unfolding list_eq nat_eq
file_of-test pkg = refl

from_a_init : Answers (text "p/__init__.py") (text "p/a.py")
unfolding list_eq nat_eq
from_a_init = from_a (text "p/__init__.py") refl

from_a_test : Answers (text "t/test_a.py") (text "p/a.py")
unfolding list_eq nat_eq
from_a_test = from_a (text "t/test_a.py") refl

small_graph-IsConsistent : IsConsistent file_of small_graph
small_graph-IsConsistent m d pkg deps f changed modified e h a b c =
    elim (Bool-cases (m == text "p")) [
      | inl p ↦
          deduce m d f changed (text "p") (text "p.a") (text "p/__init__.py") (text "p/a.py") pkg p
            (ground (arith, e, p, h)) (file_of-p pkg) (file_of-a pkg) from_a_init a b modified c
      | inr p ↦ elim (Bool-cases (m == text "t.test_a")) [
        | inr t ↦ absurd (ground (arith, p, t, e))
        | inl t ↦ elim (Bool-cases (d == text "p")) [
          | inl q ↦
              deduce m d f changed (text "t.test_a") (text "p") (text "t/test_a.py")
                (text "p/__init__.py") pkg t q (file_of-test pkg) (file_of-p pkg) from_init a b
                modified c
          | inr q ↦
              deduce m d f changed (text "t.test_a") (text "p.a") (text "t/test_a.py")
                (text "p/a.py") pkg t (ground (arith, e, p, t, q, h)) (file_of-test pkg)
                (file_of-a pkg) from_a_test a b modified c
        ]
      ]
    ]

nothing_validated : Validated
nothing_validated = record {
  n_err = 0;
  m_missing = 0;
  stacks = [];
  interp = record { tracker = new_tracker; modules = []; path = [] };
}

validated : Validated
unfolding validate
validated = elim (validate process runtime none (some (text "g")) disk).0 [
  | none ↦ nothing_validated
  | some x ↦ x
]

main-modify_items_sound_example :
    Every
      (λ i. (data_ : Option Text) → locate config i ≢ some (text "t/test_a.py", data_))
      selected.0.deselected
unfolding selected validated parse_args arg_eq small_argparse build_graph hook Validator.main
    load_import_graph entry_at join_paths save_new to_file dirname Folder.validate
    mixin_is_test_file imports_of from_file comparisons comparison
main-modify_items_sound_example =
    main-modify_items_sound process runtime hook saved_args graph_values (text "g") disk validated
      refl refl refl refl refl refl refl small_graph hook.base refl file_of small_graph-IsConsistent
      (text "t.test_a") (text "p.a") (some (text "t")) (text "p" ∷ text "p.a" ∷ [])
      (text "t/test_a.py") (text "p/a.py")
      (locally {fs = text "t"} {py = text "t"} refl (Memᴰ.head refl) refl) refl refl refl changed
      refl config two_tests no_caches selected.1 selected.0 (no_caches-IsValid config small_graph)
      refl
