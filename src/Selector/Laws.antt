-- ===== src/Selector/Laws.antt =====
-- pytest/selector.py: the caches of the selector show in no verdict on a test.
use prunepytest.Prelude.{
  ◌≡◌, refl, ◌∙◌, sym, subst, ap, Bool, not, ◌||◌, Option, none, some, contains, arith, is_none,
  Option-cases, Bool-cases, inl, inr, list_eq, nat_eq, eq_refl,
}
use mathlib.Core.Option.{some-injective}
use prunepytest.Text.{Text}
use prunepytest.Sets.{Set, add}
use prunepytest.Dict.{lookup, insert, lookup-insert, has}
use prunepytest.Graph.{ModuleGraph}
use prunepytest.Items.{key_eq, Item, actual_test_file}
use prunepytest.Selector.{
  Config, Caches, no_caches, file_cache_key, locate, unhandled_imports, cover, cached_test_file,
  in_set, keeps, should_keep, add_data,
}

-- Items with one cache key have one actual test file.
pub actual_test_file-file_cache_key :
    (i j : Item) → file_cache_key i ≡ file_cache_key j → actual_test_file i ≡ actual_test_file j
unfolding file_cache_key actual_test_file
actual_test_file-file_cache_key i j h = elim (Bool-cases i.is_function) [
  | inl a ↦ elim (Bool-cases j.is_function) [ inl b ↦ ground arith | inr b ↦ ground arith ]
  | inr a ↦ elim (Bool-cases j.is_function) [ inl b ↦ ground arith | inr b ↦ ground arith ]
]

module _ (c : Config) (g : ModuleGraph) where
  -- What the selector knows of a file that it has looked up.
  abbrev is_covered : Text → Bool
  is_covered f = not (is_none (g.file_depends_on f))

  pub record IsValid (s : Caches) : Type 0 where
    pub located :
        (item : Item) (found : Text × Option Text)
        → lookup (file_cache_key item) s.file_cache ≡ some found
        → locate c item ≡ some found
    pub looked_up :
        (item : Item) (found : Text × Option Text)
        → lookup (file_cache_key item) s.file_cache ≡ some found
        → lookup found.0 s.covered_files ≡ some (is_covered found.0)
    pub covered : (f : Text) (b : Bool) → lookup f s.covered_files ≡ some b → b ≡ is_covered f
    pub asked :
        (f : Text) (b : Bool)
        → lookup f s.covered_files ≡ some b
        → s.unhandled ≡ some (unhandled_imports c g)
    pub answered : (u : Set Text) → s.unhandled ≡ some u → u ≡ unhandled_imports c g

  pub no_caches-IsValid : IsValid no_caches
  unfolding lookup
  no_caches-IsValid = record {
    located = λ i f h. absurd (ground arith);
    looked_up = λ i f h. absurd (ground arith);
    covered = λ f b h. absurd (ground arith);
    asked = λ f b h. absurd (ground arith);
    answered = λ u h. absurd (ground arith);
  }

  locate-file_cache_key :
      (i j : Item) → file_cache_key i ≡ file_cache_key j → locate c i ≡ locate c j
  unfolding locate
  locate-file_cache_key i j h = ground (arith, actual_test_file-file_cache_key i j h)

  opened :
      (f : Text) (s : Caches)
      → lookup f s.covered_files ≡ none
      → s.unhandled ≡ none
      → (cover c g f s).unhandled ≡ some (unhandled_imports c g)
  unfolding cover has
  opened f s e n = ground arith

  kept_open :
      (f : Text) (s : Caches)
      → lookup f s.covered_files ≡ none
      → (u : Set Text) → s.unhandled ≡ some u
      → (cover c g f s).unhandled ≡ some u
  unfolding cover has
  kept_open f s e u n = ground arith

  cover-IsValid : (f : Text) (s : Caches) → IsValid s → IsValid (cover c g f s)
  unfolding cover has
  cover-IsValid f s v = elim (Option-cases (lookup f s.covered_files)) [
    | inl e ↦ record {
      located = λ i p h. v.located i p (ground arith);
      looked_up = λ i p h.
          ground (arith, v.looked_up i p, lookup-insert p.0 f (is_covered f) s.covered_files);
      covered =
          λ x b h. ground (arith, v.covered x b, lookup-insert x f (is_covered f) s.covered_files);
      asked = λ x b h. elim (Option-cases s.unhandled) [
        | inl n ↦ opened f s e n
        | inr (u, n) ↦ kept_open f s e u n ∙ ap some (v.answered u n)
      ];
      answered = λ u h. elim (Option-cases s.unhandled) [
        | inl n ↦ some-injective u (unhandled_imports c g) (sym h ∙ opened f s e n)
        | inr (w, n) ↦ some-injective u w (sym h ∙ kept_open f s e w n) ∙ v.answered w n
      ];
    }
    | inr (b, e) ↦ subst IsValid (ground arith) v
  ]

  cover-covered :
      (f : Text) (s : Caches)
      → IsValid s
      → lookup f (cover c g f s).covered_files ≡ some (is_covered f)
  unfolding cover has
  cover-covered f s v = elim (Option-cases (lookup f s.covered_files)) [
    | inl e ↦ ground (arith, lookup-insert f f (is_covered f) s.covered_files, eq_refl f)
    | inr (b, e) ↦ ground (arith, v.covered f b)
  ]

  -- What `actual_test_file` leaves for an item whose file was not in the cache.
  remembered : Item → Text × Option Text → Caches → Caches
  remembered item found t = record t {
    file_cache = insert (file_cache_key item) found t.file_cache;
    test_files = add_data found.1 (add found.0 t.test_files);
  }

  remembered-IsValid :
      (item : Item) (found : Text × Option Text) (t : Caches)
      → IsValid t
      → locate c item ≡ some found
      → lookup found.0 t.covered_files ≡ some (is_covered found.0)
      → IsValid (remembered item found t)
  unfolding remembered
  remembered-IsValid item found t v l k = record {
    located = λ i p h. ground (
      arith,
      v.located i p,
      locate-file_cache_key i item,
      lookup-insert (file_cache_key i) (file_cache_key item) found t.file_cache,
    );
    looked_up = λ i p h. ground (
      arith,
      v.looked_up i p,
      lookup-insert (file_cache_key i) (file_cache_key item) found t.file_cache,
    );
    covered = v.covered;
    asked = v.asked;
    answered = v.answered;
  }

  -- The verdict on a test at a place, without caches.
  unfoldable pub judge : Set Text → Item → Text × Option Text → Bool
  judge affected item (file, data_) =
      not (is_covered file)
      || (contains affected file || in_set data_ affected)
      || (contains c.always_run file
          || in_set data_ c.always_run
          || contains c.always_run item.name)
      || (contains (unhandled_imports c g) file || in_set data_ (unhandled_imports c g))

  unfoldable pub verdict : Set Text → Item → Option Bool
  verdict affected item = elim (locate c item) [
    | none ↦ none
    | some found ↦ some (judge affected item found)
  ]

  record Cached (item : Item) (r : Option (Text × Option Text) × Caches) : Type 0 where
    result : r.0 ≡ locate c item
    valid : IsValid r.1
    known :
        (found : Text × Option Text)
        → r.0 ≡ some found
        → lookup found.0 r.1.covered_files ≡ some (is_covered found.0)

  cached_test_file_lem :
      (item : Item) (s : Caches) → IsValid s → Cached item (cached_test_file c g item s)
  unfolding cached_test_file remembered
  cached_test_file_lem item s v = elim (Option-cases (lookup (file_cache_key item) s.file_cache)) [
    | inr (found, e) ↦
        let q : (some found, s) ≡ cached_test_file c g item s = ground arith in
        subst (Cached item) q (record {
          result = sym (v.located item found e);
          valid = v;
          known = λ p h. ground (arith, v.looked_up item found);
        })
    | inl e ↦ elim (Option-cases (locate c item)) [
      | inl n ↦
          let q : (none, s) ≡ cached_test_file c g item s = ground arith in
          subst (Cached item) q
            (record { result = sym n; valid = v; known = λ p h. absurd (ground arith) })
      | inr ((file, data_), n) ↦
          let k : lookup file (cover c g file s).covered_files ≡ some (is_covered file) =
            cover-covered file s v in
          let q : (some (file, data_), remembered item (file, data_) (cover c g file s))
              ≡ cached_test_file c g item s =
            ground arith in
          subst (Cached item) q (record {
            result = sym n;
            valid =
                remembered-IsValid item (file, data_) (cover c g file s) (cover-IsValid file s v) n
                  k;
            known = λ p h. ground (arith, k);
          })
    ]
  ]

  -- What `should_keep` makes of the file of a test.
  sentence : Set Text → Item → Option (Text × Option Text) × Caches → Option Bool × Caches
  sentence affected item (r, t) = elim r [
    | none ↦ (none, t)
    | some (file, data_) ↦ elim (lookup file t.covered_files) [
      | none ↦ (none, t)
      | some is_covered ↦ (some (keeps c item affected t file data_ is_covered), t)
    ]
  ]

  keeps-judge :
      (affected : Set Text) (item : Item) (file : Text) (data_ : Option Text) (t : Caches)
      → t.unhandled ≡ some (unhandled_imports c g)
      → keeps c item affected t file data_ (is_covered file) ≡ judge affected item (file, data_)
  unfolding keeps judge
  keeps-judge affected item file data_ t h = ground arith

  sentence-verdict :
      (affected : Set Text) (item : Item) (r : Option (Text × Option Text)) (t : Caches)
      → Cached item (r, t)
      → ((sentence affected item (r, t)).0 ≡ verdict affected item)
        × IsValid (sentence affected item (r, t)).1
  unfolding sentence verdict
  sentence-verdict affected item none t k = (ground (arith, k.result), k.valid)
  sentence-verdict affected item (some (file, data_)) t k =
      let l : lookup file t.covered_files ≡ some (is_covered file) = k.known (file, data_) refl in
      (
        ground (
          arith,
          l,
          keeps-judge affected item file data_ t (k.valid.asked file (is_covered file) l),
          k.result,
        ),
        subst IsValid (ground arith) k.valid,
      )

  -- From valid caches, `should_keep` answers what a verdict that reads no cache answers, on every
  -- item, exceptions included, and it leaves valid caches.
  pub should_keep-verdict :
      (affected : Set Text) (item : Item) (s : Caches)
      → IsValid s
      → ((should_keep c g affected item s).0 ≡ verdict affected item)
        × IsValid (should_keep c g affected item s).1
  unfolding should_keep sentence
  should_keep-verdict affected item s v =
      sentence-verdict affected item (cached_test_file c g item s).0 (cached_test_file c g item s).1
        (cached_test_file_lem item s v)
