-- ===== src/Validator/Prepare.antt =====
-- validator.py: `validate` saves the graph that it has built, if a path is given.
use prunepytest.Prelude.{
  ◌≡◌, refl, ◌∙◌, ◌⊎◌, sym, subst, ap, true, false, not, ◌&&◌, Option, none, some, arith, inl, inr,
  Option-cases, Bool-cases, eq_refl, is_none, is_empty, if◌then◌else◌, list_eq, nat_eq,
}
use prunepytest.Text.{Text}
use prunepytest.Dict.{insert, lookup-insert}
use prunepytest.FilePath.{join_paths}
use prunepytest.Graph.{ModuleGraph}
use prunepytest.Loader.{
  World, regular, Hook, GraphClass, entry_at, read_entry, from_file, to_file, exists,
  load_import_graph, build_graph,
}

module _ (graphs : GraphClass) where
  abbrev pub with_graph : Option World → ModuleGraph → Option (ModuleGraph × World)
  with_graph none g = none
  with_graph (some w) g = some (g, w)

  -- `if graph_path and not os.path.exists(graph_path)`
  unfoldable pub save_new : Option Text → World → ModuleGraph → Option (ModuleGraph × World)
  save_new none w g = some (g, w)
  save_new (some p) w g =
      if not (is_empty p) && not (exists w p)
      then with_graph (to_file graphs g p w) g
      else some (g, w)

  abbrev pub save_of : Option Text → World → Option ModuleGraph → Option (ModuleGraph × World)
  save_of path w none = none
  save_of path w (some g) = save_new path w g

  -- The graph of `validate`; `none` is an exception.
  unfoldable pub prepare_graph : Hook → Option Text → World → Option (ModuleGraph × World)
  prepare_graph hook path w = save_of path w (load_import_graph graphs hook path none w)

  pub from_file-to_file :
      (w w' : World) (g : ModuleGraph) (p : Text)
      → graphs.parse (graphs.dump g) ≡ some g
      → to_file graphs g p w ≡ some w'
      → (exists w' p ≡ true) × (from_file graphs w' p ≡ some g)
  unfolding to_file from_file entry_at
  from_file-to_file w w' g p law e =
      let q : record w { entries = insert (join_paths w.cwd p) (regular (graphs.dump g)) w.entries }
          ≡ w' =
        ground (arith, e) in
      let k : entry_at w' p ≡ some (regular (graphs.dump g)) =
        ap (λ u. entry_at u p) (sym q)
        ∙ lookup-insert (join_paths w.cwd p) (join_paths w.cwd p) (regular (graphs.dump g))
            w.entries
        ∙ ground (arith, eq_refl (join_paths w.cwd p)) in
      (ap (λ o. not (is_none o)) k, ap (read_entry graphs) k ∙ law)

  save_of-same :
      (p : Text) (w w' : World) (r : Option ModuleGraph) (g : ModuleGraph)
      → (not (is_empty p) && not (exists w p)) ≡ false
      → save_of (some p) w r ≡ some (g, w')
      → w ≡ w'
  unfolding save_new
  save_of-same p w w' none g b e = absurd (cc)
  save_of-same p w w' (some x) g b e = ground (arith, b, e)

  save_of-graph :
      (p : Text) (w w' : World) (r : Option ModuleGraph) (g : ModuleGraph)
      → save_of (some p) w r ≡ some (g, w')
      → r ≡ some g
  unfolding save_new
  save_of-graph p w w' none g e = absurd (cc)
  save_of-graph p w w' (some x) g e = elim (Option-cases (to_file graphs x p w)) [
    | inl n ↦ ground (arith, e, n)
    | inr (u, n) ↦ ground (arith, e, n)
  ]

  save_new-to_file :
      (p : Text) (w w' : World) (x g : ModuleGraph)
      → (not (is_empty p) && not (exists w p)) ≡ true
      → save_of (some p) w (some x) ≡ some (g, w')
      → to_file graphs g p w ≡ some w'
  unfolding save_new
  save_new-to_file p w w' x g b e = elim (Option-cases (to_file graphs x p w)) [
    | inl n ↦ absurd (ground (arith, b, e, n))
    | inr (u, n) ↦
        let (same, here) : (x ≡ g) × (u ≡ w') = ground (arith, b, e, n) in
        ap (λ z. to_file graphs z p w) (sym same) ∙ n ∙ ap some here
  ]

  absent_load :
      (hook : Hook) (p : Text) (w : World)
      → (not (is_empty p) && not (exists w p)) ≡ true
      → load_import_graph graphs hook (some p) none w ≡ some (build_graph graphs hook none w)
  unfolding load_import_graph
  absent_load hook p w b = ground (arith, b)

  -- A second run with the same path has the graph of the first, and changes nothing, if the graph is
  -- read back as it was written.
  pub prepare_graph-again :
      (hook : Hook) (path : Option Text) (w w' : World) (g : ModuleGraph)
      → graphs.parse (graphs.dump g) ≡ some g
      → prepare_graph hook path w ≡ some (g, w')
      → prepare_graph hook path w' ≡ some (g, w')
  unfolding prepare_graph save_new load_import_graph
  prepare_graph-again hook none w w' g law e =
      let here : w ≡ w' = cc in subst (λ u. prepare_graph hook none u ≡ some (g, w')) here e
  prepare_graph-again hook (some p) w w' g law e =
      elim (Bool-cases (not (is_empty p) && not (exists w p))) [
        | inl b ↦
            let saved : to_file graphs g p w ≡ some w' =
              save_new-to_file p w w' (build_graph graphs hook none w) g b
                (subst (λ r. save_of (some p) w r ≡ some (g, w')) (absent_load hook p w b) e) in
            let (there, back) = from_file-to_file w w' g p law saved in
            ground (arith, b, there, back)
        | inr b ↦
            let here : w ≡ w' =
              save_of-same p w w' (load_import_graph graphs hook (some p) none w) g b e in
            subst (λ u. prepare_graph hook (some p) u ≡ some (g, w')) here e
      ]

  pub from_file-any :
      (hook : Hook) (p : Text) (w : World)
      → is_empty p ≡ false
      → exists w p ≡ true
      → load_import_graph graphs hook (some p) none w ≡ from_file graphs w p
  unfolding load_import_graph
  from_file-any hook p w a b = ground (arith, a, b)

  -- What a command loads from the file afterwards, with whatever hook.
  pub prepare_graph-load :
      (hook other : Hook) (p : Text) (w w' : World) (g : ModuleGraph)
      → is_empty p ≡ false
      → graphs.parse (graphs.dump (build_graph graphs hook none w))
        ≡ some (build_graph graphs hook none w)
      → prepare_graph hook (some p) w ≡ some (g, w')
      → load_import_graph graphs other (some p) none w' ≡ some g
  unfolding prepare_graph
  prepare_graph-load hook other p w w' g a law e = elim (Bool-cases (exists w p)) [
    | inl b ↦
        let here : w ≡ w' =
          save_of-same p w w' (load_import_graph graphs hook (some p) none w) g
            (ground (arith, a, b)) e in
        let read : load_import_graph graphs hook (some p) none w ≡ some g =
          save_of-graph p w w' (load_import_graph graphs hook (some p) none w) g e in
        subst (λ u. load_import_graph graphs other (some p) none u ≡ some g) here
          (from_file-any other p w a b ∙ sym (from_file-any hook p w a b) ∙ read)
    | inr b ↦
        let c : (not (is_empty p) && not (exists w p)) ≡ true = ground (arith, a, b) in
        let e' : save_of (some p) w (some (build_graph graphs hook none w)) ≡ some (g, w') =
          subst (λ r. save_of (some p) w r ≡ some (g, w')) (absent_load hook p w c) e in
        let saved : to_file graphs g p w ≡ some w' =
          save_new-to_file p w w' (build_graph graphs hook none w) g c e' in
        let same : some (build_graph graphs hook none w) ≡ some g =
          save_of-graph p w w' (some (build_graph graphs hook none w)) g e' in
        let law' : graphs.parse (graphs.dump g) ≡ some g = ground (arith, law, same) in
        let (there, back) = from_file-to_file w w' g p law' saved in
        from_file-any other p w' a there ∙ back
  ]

  -- The files are as they were, or the graph was saved to the path.
  pub prepare_graph-files :
      (hook : Hook) (path : Option Text) (w w' : World) (g : ModuleGraph)
      → prepare_graph hook path w ≡ some (g, w')
      → (w' ≡ w) ⊎ ((p : Text) × (path ≡ some p) × (to_file graphs g p w ≡ some w'))
  unfolding prepare_graph save_new
  prepare_graph-files hook path w w' g e =
      files_of path (load_import_graph graphs hook path none w) e
    where
      files_of :
          (path : Option Text) (r : Option ModuleGraph)
          → save_of path w r ≡ some (g, w')
          → (w' ≡ w) ⊎ ((p : Text) × (path ≡ some p) × (to_file graphs g p w ≡ some w'))
      files_of path none e = absurd (cc)
      files_of none (some x) e = inl (cc)
      files_of (some p) (some x) e = elim (Bool-cases (not (is_empty p) && not (exists w p))) [
        | inl b ↦ inr (p, refl, save_new-to_file p w w' x g b e)
        | inr b ↦ inl (sym (save_of-same p w w' (some x) g b e))
      ]
