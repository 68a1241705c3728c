-- ===== src/Plugin/Made.antt =====
-- pytest/plugin.py: on which options the calls of the plugin manager depend, and on what they name.
use prunepytest.Prelude.{
  ◌≡◌, refl, ◌∙◌, sym, subst, ap, ℕ, Bool, true, false, not, ◌&&◌, ◌||◌, Option, none, some, List,
  [], ◌∷◌, ◌++◌, Every, Every-map, contains, is_empty, arith, inl, inr, Bool-cases, Option-cases,
  ◌==◌, list_eq, nat_eq,
}
use prunepytest.Text.{Text, text, split, push}
use prunepytest.Sets.{Set}
use prunepytest.FilePath.{below}
use prunepytest.Loader.{is_file}
use prunepytest.Git.Words.{split_lines}
use prunepytest.Plugin.{
  Options, Vcs, Process, impact, validator, selector, xdist_config, Call, set_blocked, register,
  calls_of, known_graph, shared_path, modified_set, vcs_commits, vcs_modified, both,
  pytest_configure, configure_from, find_graph_root,
}
use prunepytest.Plugin.Spec.{IsModified, common_path, Allowed, pytest_configure-Allowed}

-- The parts with the separator between them
unfoldable pub join : ℕ → List Text → Text
join c [] = []
join c (s ∷ []) = s
join c (s ∷ t ∷ parts) = s ++ c ∷ join c (t ∷ parts)

join-push : (c x : ℕ) (parts : List Text) → join c (push x parts) ≡ x ∷ join c parts
unfolding join push
join-push c x [] = refl
join-push c x (s ∷ []) = refl
join-push c x (s ∷ t ∷ parts) = refl

join-split : (c : ℕ) (s : Text) → join c (split c s) ≡ s
unfolding join split
join-split c [] = refl
join-split c (x ∷ s) = elim (Bool-cases (x == c)) [
  | inl e ↦ rw e (separated (split c s) (split-nonempty s) ∙ ground (arith, e, join-split c s))
  | inr e ↦ rw e (join-push c x (split c s) ∙ ap (λ t. x ∷ t) (join-split c s))
]
  where
    separated :
        (parts : List Text) → is_empty parts ≡ false → join c ([] ∷ parts) ≡ c ∷ join c parts
    separated [] h = absurd (cc)
    separated (t ∷ parts) h = refl

    pushed : (x : ℕ) (parts : List Text) → is_empty (push x parts) ≡ false
    pushed x [] = unfold push in refl
    pushed x (t ∷ parts) = unfold push in refl

    split-nonempty : (s : Text) → is_empty (split c s) ≡ false
    split-nonempty [] = refl
    split-nonempty (x ∷ s) = ground (arith, pushed x (split c s))

contains-append :
    (xs ys : List Text) (x : Text) → contains (xs ++ ys) x ≡ (contains xs x || contains ys x)
contains-append [] ys x = refl
contains-append (z ∷ xs) ys x = ground (arith, contains-append xs ys x)

abbrev pub IsFree : ℕ → Text → Type 0
IsFree c s = contains s c ≡ false

push-IsFree :
    (c x : ℕ) (parts : List Text)
    → (x == c) ≡ false
    → Every (IsFree c) parts
    → Every (IsFree c) (push x parts)
unfolding push
push-IsFree c x [] e h = (ground (arith, e), tt)
push-IsFree c x (s ∷ parts) e (p, h) = (ground (arith, e, p), h)

split-IsFree : (c : ℕ) (s : Text) → Every (IsFree c) (split c s)
unfolding split
split-IsFree c [] = (refl, tt)
split-IsFree c (x ∷ s) = elim (Bool-cases (x == c)) [
  | inl e ↦ rw e (refl, split-IsFree c s)
  | inr e ↦ rw e (push-IsFree c x (split c s) e (split-IsFree c s))
]

-- Whether the path of the option names a file
abbrev pub has_graph : Process → Option Text → Bool
has_graph process none = false
has_graph process (some p) = not (is_empty p) && is_file process.world p

abbrev pub is_unset : Option Text → Bool
is_unset none = true
is_unset (some p) = is_empty p

module _ (o : Options) (vcs : Option Vcs) (process : Process) where
  abbrev pub spreads : Bool
  spreads = process.has_xdist && process.has_plugin_xdist

  -- The path of the graph: the file of the option if it is one; else none is set, or with pytest-xdist
  -- it is a file in the temporary folder.
  pub data IsGraphPath : Option Text → Type 0 where
    existing :
        {p : Text}
        → o.prune_graph ≡ some p
        → has_graph process o.prune_graph ≡ true
        → IsGraphPath (some p)
    unset :
        {q : Option Text}
        → has_graph process o.prune_graph ≡ false
        → spreads ≡ false
        → is_unset q ≡ true
        → IsGraphPath q
    temporary :
        has_graph process o.prune_graph ≡ false
        → spreads ≡ true
        → IsGraphPath (some (below process.basetemp (text "prune-graph.bin")))

  -- The modified files, without an empty name: those between the commas of the option, or those that
  -- the version control system has from the base commit on or finds to be dirty.
  pub data AreModified (m : Set Text) : Type 0 where
    from_option :
        {files : Text} (parts : List Text)
        → o.prune_modified ≡ some files
        → join b',' parts ≡ files
        → Every (IsFree b',') parts
        → ((x : Text) → contains m x ≡ (contains parts x && not (x == [])))
        → AreModified m
    from_vcs :
        {v : Vcs} {committed dirty : List Text}
        → o.prune_modified ≡ none
        → vcs ≡ some v
        → v.modified_files o.prune_base_commit ≡ some committed
        → v.dirty_files ≡ some dirty
        → ((x : Text)
            → contains m x ≡ ((contains committed x || contains dirty x) && not (x == [])))
        → AreModified m

  -- The commits of the impact report: the lines of a file, or the most recent ones.
  pub data AreCommits (commits : List Text) : Type 0 where
    listed :
        {s : Text}
        → is_empty o.prune_impact_list ≡ false
        → process.read o.prune_impact_list ≡ some s
        → split_lines s ≡ commits
        → AreCommits commits
    recent :
        {v : Vcs}
        → is_empty o.prune_impact_list ≡ true
        → vcs ≡ some v
        → v.recent_commits o.prune_impact_depth ≡ some commits
        → AreCommits commits

  -- When a call is made, and what its plugin is made from.
  abbrev pub IsAsked : Call → Type 0
  IsAsked (set_blocked n) = o.prune_impact ≡ true
  IsAsked (register (impact l r commits) n) = (o.prune_impact ≡ true) × AreCommits commits
  IsAsked (register (validator l r) n) =
      (o.prune_impact ≡ false) × (o.prune_novalidate ≡ false) × IsGraphPath l.graph_path
  IsAsked (register (selector l m r) n) =
      (o.prune_impact ≡ false)
      × (o.prune_noselect ≡ false)
      × IsGraphPath l.graph_path
      × AreModified m
  IsAsked (register (xdist_config p) n) =
      (o.prune_impact ≡ false) × (spreads ≡ true) × IsGraphPath (some p)

  -- `--prune` is given, and pytest does not only collect, unless the impact is asked for.
  abbrev pub IsOn : Type 0
  IsOn = (o.prune ≡ true) × ((o.prune_impact || not o.collectonly) ≡ true)

  common_path-IsGraphPath : IsGraphPath (common_path o vcs process)
  unfolding known_graph shared_path
  common_path-IsGraphPath = elim (Option-cases o.prune_graph) [
    | inl n ↦ elim (Bool-cases spreads) [
      | inl x ↦ subst IsGraphPath (ground (arith, n, x)) (temporary (rw n refl) x)
      | inr x ↦ subst IsGraphPath (ground (arith, n, x)) (unset {q = none} (rw n refl) x refl)
    ]
    | inr (p, n) ↦ elim (Bool-cases (is_empty p)) [
      | inl b ↦ elim (Bool-cases spreads) [
        | inl x ↦ subst IsGraphPath (ground (arith, n, x, b)) (temporary (rw (n, b) refl) x)
        | inr x ↦
            subst IsGraphPath (ground (arith, n, x, b)) (unset {q = some p} (rw (n, b) refl) x b)
      ]
      | inr b ↦ elim (Bool-cases (is_file process.world p)) [
        | inl f ↦
            subst IsGraphPath (ground (arith, n, b, f)) (existing {p = p} n (rw (n, b, f) refl))
        | inr f ↦ elim (Bool-cases spreads) [
          | inl x ↦ subst IsGraphPath (ground (arith, n, x, b, f)) (temporary (rw (n, b, f) refl) x)
          | inr x ↦
              subst IsGraphPath (ground (arith, n, x, b, f))
                (unset {q = none} (rw (n, b, f) refl) x refl)
        ]
      ]
    ]
  ]

  IsModified-AreModified :
      (m : Set Text) → IsModified o vcs process m (modified_set o vcs process) → AreModified m
  unfolding modified_set
  IsModified-AreModified m h = elim (Option-cases o.prune_modified) [
    | inr (files, n) ↦
        let e : modified_set o vcs process ≡ some (split b',' files) = ground (arith, n) in
        let k : IsModified o vcs process m (some (split b',' files)) =
          subst (IsModified o vcs process m) e h in
        from_option {files = files} (split b',' files) n (join-split b',' files)
          (split-IsFree b',' files) k
    | inl n ↦
        let e : modified_set o vcs process ≡ vcs_modified o vcs process vcs = ground (arith, n) in
        let k : IsModified o vcs process m (vcs_modified o vcs process vcs) =
          subst (IsModified o vcs process m) e h in
        in_vcs n vcs refl k
  ]
    where
      joined :
          (n : o.prune_modified ≡ none) (v : Vcs)
          → vcs ≡ some v
          → (xs ys : Option (List Text)) → v.modified_files o.prune_base_commit ≡ xs
          → v.dirty_files ≡ ys
          → IsModified o vcs process m (both o vcs process xs ys)
          → AreModified m
      joined n v e none ys a b k = absurd k
      joined n v e (some xs) none a b k = absurd k
      joined n v e (some xs) (some ys) a b k =
          from_vcs {v = v} {committed = xs} {dirty = ys} n e a b
            (λ x. k x ∙ ground (arith, contains-append xs ys x))

      in_vcs :
          (n : o.prune_modified ≡ none) (u : Option Vcs)
          → vcs ≡ u
          → IsModified o vcs process m (vcs_modified o vcs process u)
          → AreModified m
      in_vcs n none e k = absurd k
      in_vcs n (some v) e k =
          joined n v e (v.modified_files o.prune_base_commit) v.dirty_files refl refl k

  vcs_commits-AreCommits :
      (commits : List Text) → vcs_commits o vcs process vcs ≡ some commits → AreCommits commits
  vcs_commits-AreCommits commits h = in_vcs vcs refl h
    where
      in_vcs :
          (u : Option Vcs)
          → vcs ≡ u
          → vcs_commits o vcs process u ≡ some commits
          → AreCommits commits
      in_vcs none e k = absurd (cc)
      in_vcs (some v) e k = elim (Bool-cases (is_empty o.prune_impact_list)) [
        | inl b ↦ recent {v = v} b e (ground (arith, b, k))
        | inr b ↦ elim (Option-cases (process.read o.prune_impact_list)) [
          | inl n ↦ absurd (ground (arith, b, n, k))
          | inr (s, n) ↦ listed {s = s} b n (ground (arith, b, n, k))
        ]
      ]

  Allowed-IsAsked : (x : Call) → Allowed o vcs process x → IsAsked x
  Allowed-IsAsked (set_blocked n) h = h
  Allowed-IsAsked (register (impact l r commits) n) (i, h) = (i, vcs_commits-AreCommits commits h)
  Allowed-IsAsked (register (validator l r) n) (i, v, p) =
      (i, v, subst IsGraphPath (sym p) common_path-IsGraphPath)
  Allowed-IsAsked (register (selector l m r) n) (i, s, p, h) =
      (i, s, subst IsGraphPath (sym p) common_path-IsGraphPath, IsModified-AreModified m h)
  Allowed-IsAsked (register (xdist_config p) n) (i, x, q) =
      (i, x, subst IsGraphPath (sym q) common_path-IsGraphPath)

  pytest_configure-IsOn : Every (λ x. IsOn) (calls_of (pytest_configure o vcs process))
  unfolding pytest_configure
  pytest_configure-IsOn = elim (Bool-cases (not o.prune || (not o.prune_impact && o.collectonly))) [
    | inl b ↦ rw b tt
    | inr b ↦ rw b (
        everywhere (calls_of (configure_from o vcs process (find_graph_root o vcs process)))
          (ground (arith, b), ground (arith, b)))
  ]
    where
      everywhere : (xs : List Call) → IsOn → Every (λ x. IsOn) xs
      everywhere [] h = tt
      everywhere (x ∷ xs) h = (h, everywhere xs h)

  pub pytest_configure-IsAsked :
      Every (λ x. IsOn × IsAsked x) (calls_of (pytest_configure o vcs process))
  pytest_configure-IsAsked =
      both_of (calls_of (pytest_configure o vcs process)) pytest_configure-IsOn (
        Every-map (Allowed o vcs process) IsAsked Allowed-IsAsked
          (calls_of (pytest_configure o vcs process)) (pytest_configure-Allowed o vcs process))
    where
      both_of :
          (xs : List Call)
          → Every (λ x. IsOn) xs
          → Every IsAsked xs
          → Every (λ x. IsOn × IsAsked x) xs
      both_of [] h k = tt
      both_of (x ∷ xs) (p, h) (q, k) = ((p, q), both_of xs h k)
