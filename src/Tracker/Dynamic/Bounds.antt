-- ===== src/Tracker/Dynamic/Bounds.antt =====
-- tracker.py: where `record_dynamic_imports` finds a dynamic import.
use prunepytest.Prelude.{
  refl, sym, subst, ℕ, zero, suc, ◌+◌, ◌-◌, ◌≤◌, ◌<◌, ◌≡◌, List, [], ◌∷◌, length, Option, none,
  some, arith, Bool, true, false, ◌&&◌, ◌||◌, ◌==◌, contains, leb, ltb, eqb, get_elem?, Bool-cases,
  inl, inr, eq_same, list_eq, nat_eq,
}
use prunepytest.Text.{text, has_infix}
use prunepytest.Tracker.State.{Frame}
use prunepytest.Tracker.Frames.{Paths, find_dynamic}

module _ (p : Paths) where
  -- A dynamic import that is found is neither the oldest frame nor past the newest: the frame
  -- before it exists.
  pub find_dynamic-bounds :
      (tb : List Frame) (prev_stack fuel i found : ℕ)
      → 2 ≤ i
      → find_dynamic p tb prev_stack fuel i ≡ some found
      → (1 ≤ found) × (found < length tb)
  unfolding find_dynamic
  find_dynamic-bounds tb prev_stack zero i found h e = absurd (ground arith)
  find_dynamic-bounds tb prev_stack (suc fuel) i found h e =
      let one = find_dynamic-bounds tb prev_stack fuel (i + 1) found (omega arith) in
      let two = find_dynamic-bounds tb prev_stack fuel (i + 2) found (omega arith) in
      (ground arith, ground arith)

  -- The test on the frame before, which is the override of `builtins.__import__`
  abbrev pub is_override : List Frame → ℕ → Bool
  is_override tb i = elim (get_elem? tb (length tb - i - 1)) [
    | none ↦ false
    | some f ↦ ltb 0 (length tb - i - 1) && f.filename == p.file
  ]

  abbrev pub is_over : List Frame → ℕ → ℕ → Bool
  is_over tb prev_stack i = leb (length tb) i || eqb prev_stack (length tb - i)

  -- The loop from `i` frames on ends with the given result, after finitely many rounds: one round, or
  -- one that goes on with a loop that ends.
  pub data Ends (tb : List Frame) (prev_stack : ℕ) : ℕ → Option ℕ → Type 0 where
    over : {i : ℕ} → is_over tb prev_stack i ≡ true → Ends tb prev_stack i none
    at_function :
        {i : ℕ} {f : Frame}
        → is_over tb prev_stack i ≡ false
        → get_elem? tb (length tb - i) ≡ some f
        → contains (text "import_module" ∷ text "load_module" ∷ []) f.name ≡ true
        → Ends tb prev_stack i (some (length tb - i))
    past_override :
        {i : ℕ} {f : Frame} {r : Option ℕ}
        → is_over tb prev_stack i ≡ false
        → get_elem? tb (length tb - i) ≡ some f
        → f.name ≡ text "__import__"
        → is_override tb i ≡ true
        → Ends tb prev_stack (i + 2) r
        → Ends tb prev_stack i r
    at_builtin :
        {i : ℕ} {f : Frame}
        → is_over tb prev_stack i ≡ false
        → get_elem? tb (length tb - i) ≡ some f
        → f.name ≡ text "__import__"
        → is_override tb i ≡ false
        → Ends tb prev_stack i (some (length tb - i))
    in_line :
        {i : ℕ} {f : Frame}
        → is_over tb prev_stack i ≡ false
        → get_elem? tb (length tb - i) ≡ some f
        → (contains (text "import_module" ∷ text "load_module" ∷ []) f.name
            || f.name == text "__import__")
          ≡ false
        → has_infix f.line (text "__import__(") ≡ true
        → Ends tb prev_stack i (some (length tb - i + 1))
    past_frame :
        {i : ℕ} {f : Frame} {r : Option ℕ}
        → is_over tb prev_stack i ≡ false
        → get_elem? tb (length tb - i) ≡ some f
        → (contains (text "import_module" ∷ text "load_module" ∷ []) f.name
            || f.name == text "__import__")
          ≡ false
        → has_infix f.line (text "__import__(") ≡ false
        → Ends tb prev_stack (i + 1) r
        → Ends tb prev_stack i r

  get_elem?-some :
      (tb : List Frame) (i : ℕ) → i < length tb → (f : Frame) × (get_elem? tb i ≡ some f)
  get_elem?-some [] i h = absurd (omega arith)
  get_elem?-some (f ∷ tb) zero h = (f, refl)
  get_elem?-some (f ∷ tb) (suc i) h = get_elem?-some tb i (omega arith)

  find_dynamic-Ends :
      (tb : List Frame) (prev_stack fuel i : ℕ)
      → 1 ≤ i
      → length tb ≤ fuel + i
      → Ends tb prev_stack i (find_dynamic p tb prev_stack fuel i)
  unfolding find_dynamic
  find_dynamic-Ends tb prev_stack zero i h k = over (ground arith)
  find_dynamic-Ends tb prev_stack (suc fuel) i h k = elim (Bool-cases (is_over tb prev_stack i)) [
    | inl b ↦ becomes none (ground (arith, b)) (over b)
    | inr b ↦
        let (f, at_f) = get_elem?-some tb (length tb - i) (ground (arith, b)) in
        in_frame b f at_f (find_dynamic-Ends tb prev_stack fuel (i + 1) (omega arith) (omega arith))
          (find_dynamic-Ends tb prev_stack fuel (i + 2) (omega arith) (omega arith))
  ]
    where
      result : Option ℕ
      result = find_dynamic p tb prev_stack (suc fuel) i

      becomes : (r : Option ℕ) → result ≡ r → Ends tb prev_stack i r → Ends tb prev_stack i result
      becomes r e x = subst (Ends tb prev_stack i) (sym e) x

      in_frame :
          is_over tb prev_stack i ≡ false
          → (f : Frame) → get_elem? tb (length tb - i) ≡ some f
          → Ends tb prev_stack (i + 1) (find_dynamic p tb prev_stack fuel (i + 1))
          → Ends tb prev_stack (i + 2) (find_dynamic p tb prev_stack fuel (i + 2))
          → Ends tb prev_stack i result
      in_frame b f at_f one two =
          elim (Bool-cases (contains (text "import_module" ∷ text "load_module" ∷ []) f.name)) [
            | inl c ↦
                becomes (some (length tb - i)) (ground (arith, b, at_f, c)) (at_function b at_f c)
            | inr c ↦ elim (Bool-cases (f.name == text "__import__")) [
              | inl n ↦ elim (Bool-cases (is_override tb i)) [
                | inl o ↦
                    becomes (find_dynamic p tb prev_stack fuel (i + 2))
                      (ground (arith, b, at_f, c, n, o))
                      (past_override b at_f (eq_same f.name (text "__import__") n) o two)
                | inr o ↦
                    becomes (some (length tb - i)) (ground (arith, b, at_f, c, n, o))
                      (at_builtin b at_f (eq_same f.name (text "__import__") n) o)
              ]
              | inr n ↦ elim (Bool-cases (has_infix f.line (text "__import__("))) [
                | inl o ↦
                    becomes (some (length tb - i + 1)) (ground (arith, b, at_f, c, n, o))
                      (in_line b at_f (ground (arith, c, n)) o)
                | inr o ↦
                    becomes (find_dynamic p tb prev_stack fuel (i + 1))
                      (ground (arith, b, at_f, c, n, o))
                      (past_frame b at_f (ground (arith, c, n)) o one)
              ]
            ]
          ]

  -- The loop of `record_dynamic_imports` over the frames ends, with the result that `find_dynamic` has
  -- for the fuel that it is given.
  pub find_dynamic_lem :
      (tb : List Frame) (prev_stack : ℕ)
      → Ends tb prev_stack 2 (find_dynamic p tb prev_stack (length tb) 2)
  find_dynamic_lem tb prev_stack =
      find_dynamic-Ends tb prev_stack (length tb) 2 (omega arith) (omega arith)
