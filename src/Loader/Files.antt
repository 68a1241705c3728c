-- ===== src/Loader/Files.antt =====
-- util.py: the graph in a file of absolute path, whatever the current directory.
use prunepytest.Graph.{ModuleGraph}
use prunepytest.Dict.{lookup, insert, lookup-insert}
use prunepytest.Loader.{
  World, regular, Hook, GraphClass, entry_at, in_dir, from_file, read_entry, to_file, is_file,
  load_import_graph,
}
use prunepytest.Prelude.{
  ◌≡◌, refl, ◌∙◌, sym, ap, true, false, some, [], ◌∷◌, arith, is_empty, list_eq, nat_eq, eq_refl,
}
use prunepytest.Text.{Text, starts_with}
use prunepytest.FilePath.{is_abs, join_paths, below}

pub is_abs-is_empty : (p : Text) → is_abs p ≡ true → is_empty p ≡ false
unfolding starts_with
is_abs-is_empty [] h = absurd (cc)
is_abs-is_empty (x ∷ p) h = refl

join_paths-abs : (a p : Text) → is_abs p ≡ true → join_paths a p ≡ p
unfolding join_paths
join_paths-abs a p h = ground (arith)

below-abs : (a p : Text) → is_abs p ≡ true → below a p ≡ p
unfolding below
below-abs a p h = ground (arith, join_paths-abs a p h)

module _ (graphs : GraphClass) where
  -- An absolute path names one entry, in whatever directory.
  entry_at-abs : (w : World) (p : Text) → is_abs p ≡ true → entry_at w p ≡ lookup p w.entries
  unfolding entry_at
  entry_at-abs w p h = ap (λ q. lookup q w.entries) (join_paths-abs w.cwd p h)

  from_file-abs :
      (u : World) (p : Text)
      → is_abs p ≡ true
      → from_file graphs u p ≡ read_entry graphs (lookup p u.entries)
  unfolding from_file
  from_file-abs u p h = ap (read_entry graphs) (entry_at-abs u p h)

  pub from_file-entries :
      (u w : World) (p : Text)
      → is_abs p ≡ true
      → u.entries ≡ w.entries
      → from_file graphs u p ≡ from_file graphs w p
  from_file-entries u w p h same =
      from_file-abs u p h
      ∙ ap (λ d. read_entry graphs (lookup p d)) same
      ∙ sym (from_file-abs w p h)

  to_file-entries :
      (w w' : World) (g : ModuleGraph) (p : Text)
      → is_abs p ≡ true
      → to_file graphs g p w ≡ some w'
      → w'.entries ≡ insert p (regular (graphs.dump g)) w.entries
  unfolding to_file
  to_file-entries w w' g p h e = ground (arith, join_paths-abs w.cwd p h)

  pub from_file-saved :
      (w w' : World) (g : ModuleGraph) (p : Text)
      → graphs.parse (graphs.dump g) ≡ some g
      → is_abs p ≡ true
      → to_file graphs g p w ≡ some w'
      → from_file graphs w' p ≡ some g
  from_file-saved w w' g p law h e =
      from_file-abs w' p h
      ∙ ap (λ d. read_entry graphs (lookup p d)) (to_file-entries w w' g p h e)
      ∙ ap (read_entry graphs) (lookup-insert p p (regular (graphs.dump g)) w.entries)
      ∙ ground (arith, eq_refl p, law)

  -- A file that exists is read, from the directory `root` too.
  pub from_file-existing :
      (hook : Hook) (w : World) (g : ModuleGraph) (root p rel_root : Text)
      → is_abs p ≡ true
      → is_file w p ≡ true
      → in_dir root (load_import_graph graphs hook (some p) (some rel_root)) w ≡ some g
      → from_file graphs w p ≡ some g
  unfolding in_dir load_import_graph
  from_file-existing hook w g root p rel_root h f e =
      let there : World = record w { cwd = join_paths w.cwd root } in
      ground (
        arith,
        is_abs-is_empty p h,
        below-abs rel_root p h,
        from_file-entries there w p h refl,
        entry_at-abs w p h,
        entry_at-abs there p h,
      )
