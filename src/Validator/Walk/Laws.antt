-- ===== src/Validator/Walk/Laws.antt =====
-- validator.py: `recursive_import_tests` passes over no test file.
use prunepytest.Prelude.{
  ◌≡◌, refl, Bool, true, false, List, [], ◌∷◌, ◌++◌, ◌⊎◌, inl, inr, contains, if◌then◌else◌,
  list_eq, nat_eq, arith, Every, Every-append, Every-map, eq_refl,
}
use prunepytest.Text.{Text, text}
use prunepytest.Sets.{Set, contains-add, contains-union}
use prunepytest.Dict.{has, lookup-insert, insert}
use prunepytest.Tracker.Deps.{Exn}
use prunepytest.Validator.Walk.{
  Entries, no_more, folder, file, other, Import, imported_, skipped, broken, Loader, Walk,
  join_path, has_init, lists_name, sub_prefix, test_module, record_init, import_init, record_file,
  import_file, fresh, join_imported, import_entries, recursive_import_tests,
}

module _ {W : Type 0} (l : Loader W) where
  -- The path and the module name of each test file of a folder and of the packages in it.
  pub tests_of : Text → Text → Entries → List (Text × Text)
  unfolding join_path lists_name
  tests_of path prefix no_more = []
  tests_of path prefix (folder n inside rest) =
      let below = tests_of (join_path path n) (sub_prefix prefix n) inside in
      (if has_init inside then below else []) ++ tests_of path prefix rest
  tests_of path prefix (file n rest) =
      let after = tests_of path prefix rest in
      if l.is_test_file n then (join_path path n, test_module prefix n) ∷ after else after
  tests_of path prefix (other n rest) = tests_of path prefix rest

  -- What becomes of a test file: it is imported, an error is reported for it, or its import skipped
  -- it.
  pub Accounted : Walk W → Text × Text → Type 0
  Accounted s (path, fq) =
      (contains s.imported fq ≡ true)
      ⊎ ((has path s.errors ≡ true)
          ⊎ ((w : W) × (e : Exn) × ((l.import_with_capture fq w).0 ≡ skipped e)))

  record Grows (s t : Walk W) : Type 0 where
    imports : (x : Text) → contains s.imported x ≡ true → contains t.imported x ≡ true
    reports : (x : Text) → has x s.errors ≡ true → has x t.errors ≡ true

  Grows-trans : (s t u : Walk W) → Grows s t → Grows t u → Grows s u
  Grows-trans s t u h k = record {
    imports = λ x m. k.imports x (h.imports x m);
    reports = λ x m. k.reports x (h.reports x m);
  }

  has-insert :
      (p x : Text) (e : Exn) (s : Walk W)
      → has x s.errors ≡ true
      → has x (insert p e s.errors) ≡ true
  unfolding has
  has-insert p x e s m = ground (arith, lookup-insert x p e s.errors)

  has-insert_self : (p : Text) (e : Exn) (s : Walk W) → has p (insert p e s.errors) ≡ true
  unfolding has
  has-insert_self p e s = ground (arith, lookup-insert p p e s.errors, eq_refl p)

  record_init-Grows : (path : Text) (s : Walk W) (r : Import × W) → Grows s (record_init l path s r)
  unfolding record_init
  record_init-Grows path s (imported_, w) = record { imports = λ x m. m; reports = λ x m. m }
  record_init-Grows path s (skipped e, w) = record {
    imports = λ x m. m;
    reports = λ x m. has-insert path x e s m;
  }
  record_init-Grows path s (broken e, w) = record {
    imports = λ x m. m;
    reports = λ x m. has-insert path x e s m;
  }

  record_file-Grows :
      (path fq : Text) (s : Walk W) (r : Import × W) → Grows s (record_file l path fq s r)
  unfolding record_file
  record_file-Grows path fq s (imported_, w) = record {
    imports = λ x m. ground (arith, contains-add fq x s.imported);
    reports = λ x m. m;
  }
  record_file-Grows path fq s (skipped e, w) = record { imports = λ x m. m; reports = λ x m. m }
  record_file-Grows path fq s (broken e, w) = record {
    imports = λ x m. m;
    reports = λ x m. has-insert path x e s m;
  }

  Accounted-Grows : (s t : Walk W) → Grows s t → (a : Text × Text) → Accounted s a → Accounted t a
  unfolding Accounted
  Accounted-Grows s t g (path, fq) h = elim h [
    | inl m ↦ inl (g.imports fq m)
    | inr k ↦ elim k [ inl m ↦ inr (inl (g.reports path m)) | inr q ↦ inr (inr q) ]
  ]

  settled_file :
      (path fq : Text) (s : Walk W) (w : W) (r : Import × W)
      → (l.import_with_capture fq w).0 ≡ r.0
      → Accounted (record_file l path fq s r) (path, fq)
  unfolding Accounted record_file
  settled_file path fq s w (imported_, v) h =
      inl (ground (arith, contains-add fq fq s.imported, eq_refl fq))
  settled_file path fq s w (skipped e, v) h = inr (inr (w, e, h))
  settled_file path fq s w (broken e, v) h = inr (inl (has-insert_self path e s))

  record_file-Accounted :
      (path fq : Text) (s : Walk W) (w : W)
      → Accounted (record_file l path fq s (l.import_with_capture fq w)) (path, fq)
  record_file-Accounted path fq s w = settled_file path fq s w (l.import_with_capture fq w) refl

  import_init-Grows : (path prefix : Text) (s : Walk W) → Grows s (import_init l path prefix s)
  unfolding import_init
  import_init-Grows path prefix s =
      record_init-Grows (join_path path (text "__init__.py")) s
        (l.import_with_capture prefix s.world)

  import_file-Grows : (path prefix n : Text) (s : Walk W) → Grows s (import_file l path prefix n s)
  unfolding import_file
  import_file-Grows path prefix n s =
      let p = join_path path n in
      let g =
        record_file-Grows p (test_module prefix n) s
          (l.import_with_capture (test_module prefix n) (l.before_file p prefix s.world)) in
      record { imports = g.imports; reports = g.reports }

  import_file-Accounted :
      (path prefix n : Text) (s : Walk W)
      → Accounted (import_file l path prefix n s) (join_path path n, test_module prefix n)
  unfolding import_file Accounted
  import_file-Accounted path prefix n s =
      let p = join_path path n in
      record_file-Accounted p (test_module prefix n) s (l.before_file p prefix s.world)

  join_imported-Grows :
      (s t : Walk W) → Grows (fresh l s) t → Grows s (join_imported l s.imported t)
  unfolding join_imported
  join_imported-Grows s t g = record {
    imports = λ x m. ground (arith, contains-union s.imported t.imported x);
    reports = g.reports;
  }

  Grows-join_imported : (before : Set Text) (t : Walk W) → Grows t (join_imported l before t)
  unfolding join_imported
  Grows-join_imported before t = record {
    imports = λ x m. ground (arith, contains-union before t.imported x);
    reports = λ x m. m;
  }

  Grows-refl : (s : Walk W) → Grows s s
  Grows-refl s = record { imports = λ x m. m; reports = λ x m. m }

  Grows-if : (b : Bool) (s x y : Walk W) → Grows s x → Grows s y → Grows s (if b then x else y)
  Grows-if true s x y g h = g
  Grows-if false s x y g h = h

  import_entries-Grows :
      (path prefix : Text) (es : Entries) (s : Walk W) → Grows s (import_entries l path prefix es s)
  unfolding import_entries
  import_entries-Grows path prefix no_more s = Grows-refl s
  import_entries-Grows path prefix (other n rest) s = import_entries-Grows path prefix rest s
  import_entries-Grows path prefix (file n rest) s =
      Grows-trans s _ _
        (Grows-if (l.is_test_file n) s (import_file l path prefix n s) s
          (import_file-Grows path prefix n s) (Grows-refl s))
        (import_entries-Grows path prefix rest _)
  import_entries-Grows path prefix (folder n inside rest) s =
      let sub = join_path path n in
      let started = import_init l sub (sub_prefix prefix n) (fresh l s) in
      let inner = import_entries l sub (sub_prefix prefix n) inside started in
      let g =
        Grows-trans (fresh l s) started inner
          (import_init-Grows sub (sub_prefix prefix n) (fresh l s))
          (import_entries-Grows sub (sub_prefix prefix n) inside started) in
      Grows-trans s _ _
        (Grows-if (has_init inside) s (join_imported l s.imported inner)
          (join_imported l s.imported (fresh l s)) (join_imported-Grows s inner g)
          (join_imported-Grows s (fresh l s) (Grows-refl (fresh l s))))
        (import_entries-Grows path prefix rest _)

  abbrev AllAccounted : Walk W → List (Text × Text) → Type 0
  AllAccounted s ts = Every (Accounted s) ts

  later :
      (s t : Walk W) (ts : List (Text × Text)) → Grows s t → AllAccounted s ts → AllAccounted t ts
  later s t ts g = Every-map (Accounted s) (Accounted t) (Accounted-Grows s t g) ts

  if_entered :
      (b : Bool) (x y : Walk W) (ts : List (Text × Text))
      → AllAccounted x ts
      → AllAccounted (if b then x else y) (if b then ts else [])
  if_entered true x y ts h = h
  if_entered false x y ts h = tt

  if_test :
      (b : Bool) (x y z : Walk W) (t : Text × Text) (ts : List (Text × Text))
      → Accounted x t
      → Grows (if b then x else y) z
      → AllAccounted z ts
      → AllAccounted z (if b then t ∷ ts else ts)
  if_test true x y z t ts a g h = (Accounted-Grows x z g t a, h)
  if_test false x y z t ts a g h = h

  import_entries-Accounted :
      (path prefix : Text) (es : Entries) (s : Walk W)
      → AllAccounted (import_entries l path prefix es s) (tests_of path prefix es)
  unfolding import_entries tests_of
  import_entries-Accounted path prefix no_more s = tt
  import_entries-Accounted path prefix (other n rest) s =
      import_entries-Accounted path prefix rest s
  import_entries-Accounted path prefix (file n rest) s =
      let t = if l.is_test_file n then import_file l path prefix n s else s in
      if_test (l.is_test_file n) (import_file l path prefix n s) s
        (import_entries l path prefix rest t) (join_path path n, test_module prefix n)
        (tests_of path prefix rest) (import_file-Accounted path prefix n s)
        (import_entries-Grows path prefix rest t) (import_entries-Accounted path prefix rest t)
  import_entries-Accounted path prefix (folder n inside rest) s =
      let sub = join_path path n in
      let started = import_init l sub (sub_prefix prefix n) (fresh l s) in
      let inner = import_entries l sub (sub_prefix prefix n) inside started in
      let joined = join_imported l s.imported inner in
      let passed = join_imported l s.imported (fresh l s) in
      let t = if has_init inside then joined else passed in
      let below = tests_of sub (sub_prefix prefix n) inside in
      Every-append (Accounted (import_entries l path prefix rest t))
        (if has_init inside then below else []) (tests_of path prefix rest)
        (later t (import_entries l path prefix rest t) (if has_init inside then below else [])
          (import_entries-Grows path prefix rest t)
          (if_entered (has_init inside) joined passed below (
            later inner joined below (Grows-join_imported s.imported inner)
              (import_entries-Accounted sub (sub_prefix prefix n) inside started))))
        (import_entries-Accounted path prefix rest t)

  -- `recursive_import_tests` passes over no test file: each one of a package and of the packages
  -- below it is imported, has an error reported for its path, or was skipped by its own import.
  pub recursive_import_tests-Accounted :
      (path prefix : Text) (es : Entries) (s : Walk W)
      → Every
          (Accounted (recursive_import_tests l path prefix es s))
          (if has_init es then tests_of path prefix es else [])
  unfolding recursive_import_tests
  recursive_import_tests-Accounted path prefix es s =
      if_entered (has_init es)
        (import_entries l path prefix es (import_init l path prefix (fresh l s))) (fresh l s)
        (tests_of path prefix es)
        (import_entries-Accounted path prefix es (import_init l path prefix (fresh l s)))
