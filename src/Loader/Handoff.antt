-- ===== src/Loader/Handoff.antt =====
-- pytest/util.py: the workers of pytest-xdist get the controller's graph.
use prunepytest.Loader.Replay.{get-load}
use prunepytest.Graph.{ModuleGraph}
use prunepytest.Dict.{Dict, lookup}
use prunepytest.Loader.Shared.{
  Session, Loader, safe_is_xdist_controller, existing_path, saved, save_loaded, read_shared,
  unchanged, load_own, load_as, load, keep, get, get_from, Helper, started, session_start,
}
use prunepytest.Loader.{World, GraphClass, in_dir, from_file, to_file, is_file, load_import_graph}
use prunepytest.Prelude.{
  if◌then◌else◌, ◌≡◌, refl, ◌∙◌, sym, subst, ap, Bool, true, false, ◌&&◌, Option, none, some, arith,
  inl, inr, Option-cases, Bool-cases, is_none, list_eq, nat_eq,
}
use prunepytest.Text.{Text, text}
use prunepytest.FilePath.{is_abs, relative_to}
use prunepytest.Loader.Files.{
  is_abs-is_empty, from_file-entries, from_file-saved, from_file-existing,
}

module _ (graphs : GraphClass) where
  saved-from_file :
      (w w' : World) (g : ModuleGraph) (p : Text) (r : Option ModuleGraph) (b : Bool)
      → graphs.parse (graphs.dump g) ≡ some g
      → is_abs p ≡ true
      → save_loaded graphs b (some p) w r ≡ some (g, w')
      → (b ≡ false → r ≡ some g → from_file graphs w p ≡ some g)
      → from_file graphs w' p ≡ some g
  unfolding saved
  saved-from_file w w' g p none b law h e old = absurd (cc)
  saved-from_file w w' g p (some x) false law h e old =
      let same : x ≡ g = cc in
      let here : w ≡ w' = cc in ap (λ u. from_file graphs u p) (sym here) ∙ old refl (ap some same)
  saved-from_file w w' g p (some x) true law h e old = elim (Option-cases (to_file graphs x p w)) [
    | inl n ↦ absurd (cc)
    | inr (u, k) ↦
        let (same, here) : (x ≡ g) × (u ≡ w') = ground arith in
        ap (λ u. from_file graphs u p) (sym here)
        ∙ from_file-saved graphs w u x p (rw same law) h k
        ∙ ap some same
  ]

  existing_path-some :
      (w : World) (p : Text)
      → is_abs p ≡ true
      → is_file w p ≡ true
      → existing_path w (some p) ≡ some p
  unfolding existing_path
  existing_path-some w p h f = ground (arith, is_abs-is_empty p h)

  existing_path-none :
      (w : World) (p : Text) → is_file w p ≡ false → existing_path w (some p) ≡ none
  unfolding existing_path
  existing_path-none w p f = ground arith

  -- What `load` of the controller has loaded stands in the file of the graph afterwards.
  load_own-from_file :
      (l : Loader) (s : Session) (w w' : World) (g : ModuleGraph) (p : Text) (rel : Option Text)
      → graphs.parse (graphs.dump g) ≡ some g
      → safe_is_xdist_controller s ≡ true
      → l.graph_path ≡ some p
      → is_abs p ≡ true
      → load_own graphs l s w rel ≡ some (g, w')
      → from_file graphs w' p ≡ some g
  unfolding load_own
  load_own-from_file l s w w' g p none law c q h e = absurd (cc)
  load_own-from_file l s w w' g p (some rel_root) law c q h e = elim (Bool-cases (is_file w p)) [
    | inl f ↦
        let k : save_loaded graphs false (some p) w
              (in_dir l.graph_root (load_import_graph graphs l.hook (some p) (some rel_root)) w)
            ≡ some (g, w') =
          path (some p) false (ap (existing_path w) q ∙ existing_path-some w p h f) (rw c refl) in
        saved-from_file w w' g p
          (in_dir l.graph_root (load_import_graph graphs l.hook (some p) (some rel_root)) w) false
          law h k (λ b r. from_file-existing graphs l.hook w g l.graph_root p rel_root h f r)
    | inr f ↦
        let k : save_loaded graphs true (some p) w
              (in_dir l.graph_root (load_import_graph graphs l.hook none (some rel_root)) w)
            ≡ some (g, w') =
          path none true (ap (existing_path w) q ∙ existing_path-none w p f) (rw c refl) in
        saved-from_file w w' g p
          (in_dir l.graph_root (load_import_graph graphs l.hook none (some rel_root)) w) true law h
          k (λ b r. absurd (cc))
  ]
    where
      path :
          (o : Option Text) (b : Bool)
          → existing_path w l.graph_path ≡ o
          → (safe_is_xdist_controller s && is_none o) ≡ b
          → save_loaded graphs b
              (some p)
              w
              (in_dir l.graph_root (load_import_graph graphs l.hook o (some rel_root)) w)
            ≡ some (g, w')
      path o b x y =
          subst
            (λ b.
              save_loaded graphs b (some p) w
                (in_dir l.graph_root (load_import_graph graphs l.hook o (some rel_root)) w)
              ≡ some (g, w'))
            y
            (subst
              (λ o.
                save_loaded graphs (safe_is_xdist_controller s && is_none o) (some p) w
                  (in_dir l.graph_root (load_import_graph graphs l.hook o (some rel_root)) w)
                ≡ some (g, w'))
              x
              (subst
                (λ z.
                  save_loaded graphs
                    (safe_is_xdist_controller s && is_none (existing_path w l.graph_path)) z w
                    (in_dir l.graph_root
                      (load_import_graph graphs l.hook (existing_path w l.graph_path)
                        (some rel_root))
                      w)
                  ≡ some (g, w'))
                q e))

  load_worker :
      (l : Loader) (s : Session) (w : World) (d : Dict Text Text) (p : Text) (g : ModuleGraph)
      → s.workerinput ≡ some d
      → lookup (text "graph_path") d ≡ some p
      → from_file graphs w p ≡ some g
      → load graphs l s w ≡ some (g, w)
  unfolding load
  load_worker l s w d p g e k f =
      ap (load_as graphs l s w) e ∙ ap (read_shared graphs w) k ∙ ap (unchanged graphs w) f

  session_start-load :
      (s : Session) (h h' : Helper) (w w' : World) (g : ModuleGraph)
      → safe_is_xdist_controller s ≡ true
      → s.workerinput ≡ none
      → h.loader.graph ≡ none
      → session_start graphs s h w ≡ some (h', w')
      → h'.loader.graph ≡ some g
      → load_own graphs h.loader s w (relative_to h.loader.rootpath h.loader.graph_root)
        ≡ some (g, w')
  unfolding session_start get load
  session_start-load s h h' w w' g c alone new e k = go (load_own graphs h.loader s w rel) (
      subst
        (λ z. started graphs (keep graphs h.loader (load_as graphs h.loader s w z)) ≡ some (h', w'))
        alone
        (subst (λ z. started graphs (get_from graphs z s h.loader w) ≡ some (h', w')) new
          (subst
            (λ b.
              (if b then started graphs (get graphs s h.loader w) else some (h, w)) ≡ some (h', w'))
            c e)))
    where
      rel : Option Text
      rel = relative_to h.loader.rootpath h.loader.graph_root

      go :
          (r : Option (ModuleGraph × World))
          → started graphs (keep graphs h.loader r) ≡ some (h', w')
          → r ≡ some (g, w')
      go none e = absurd (cc)
      go (some (x, u)) e =
          let helper : record { is_controller = true; loader = record h.loader { graph = some x } }
              ≡ h' =
            cc in
          let loaded : some x ≡ some g = ap (λ z. z.loader.graph) helper ∙ k in
          let same : x ≡ g = cc in let here : u ≡ w' = cc in cc

  -- If the graph is read back as it was written, the path of the graph is absolute and the start of
  -- the controller's session has loaded a graph, whether from that file or afresh, then a worker that
  -- is given the path gets the same graph, while the files are what they were then.
  pub get-session_start :
      (s s' : Session) (h h' : Helper) (l : Loader) (w w' u : World) (p : Text) (d : Dict Text Text)
      (g : ModuleGraph)
      → graphs.parse (graphs.dump g) ≡ some g
      → safe_is_xdist_controller s ≡ true
      → s.workerinput ≡ none
      → h.loader.graph ≡ none
      → h.loader.graph_path ≡ some p
      → is_abs p ≡ true
      → session_start graphs s h w ≡ some (h', w')
      → h'.loader.graph ≡ some g
      → s'.workerinput ≡ some d
      → lookup (text "graph_path") d ≡ some p
      → l.graph ≡ none
      → u.entries ≡ w'.entries
      → get graphs s' l u ≡ some (g, record l { graph = some g }, u)
  get-session_start s s' h h' l w w' u p d g law c alone new q a e k given key fresh same =
      get-load graphs s' l u u g fresh (
        load_worker l s' u d p g given key (
          from_file-entries graphs u w' p a same
          ∙ load_own-from_file h.loader s w w' g p
              (relative_to h.loader.rootpath h.loader.graph_root) law c q a
              (session_start-load s h h' w w' g c alone new e k)))
