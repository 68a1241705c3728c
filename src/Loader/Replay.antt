-- ===== src/Loader/Replay.antt =====
-- pytest/util.py: `GraphLoader` hides a constant: whoever asks, and whenever, gets the graph that the
-- first call has loaded.
use prunepytest.Prelude.{
  ◌≡◌, refl, ◌∙◌, ap, Option, none, some, List, [], ◌∷◌, map, list_eq, nat_eq,
}
use prunepytest.Graph.{ModuleGraph}
use prunepytest.Loader.{World, GraphClass}
use prunepytest.Loader.Shared.{Session, Loader, load, keep, get, get_from}

module _ (graphs : GraphClass) where
  get-graph :
      (s : Session) (l : Loader) (w : World) (g : ModuleGraph)
      → l.graph ≡ some g
      → get graphs s l w ≡ some (g, l, w)
  unfolding get
  get-graph s l w g e = ap (λ o. get_from graphs o s l w) e

  pub get-load :
      (s : Session) (l : Loader) (w w' : World) (g : ModuleGraph)
      → l.graph ≡ none
      → load graphs l s w ≡ some (g, w')
      → get graphs s l w ≡ some (g, record l { graph = some g }, w')
  unfolding get
  get-load s l w w' g e h = ap (λ o. get_from graphs o s l w) e ∙ ap (λ r. keep graphs l r) h

  abbrev pub put_first : ModuleGraph → Option (List ModuleGraph) → Option (List ModuleGraph)
  put_first g none = none
  put_first g (some gs) = some (g ∷ gs)

  abbrev pub get_next :
      (Loader → Option (List ModuleGraph))
      → Option (ModuleGraph × Loader × World)
      → Option (List ModuleGraph)
  get_next rest none = none
  get_next rest (some (g, l, w)) = put_first g (rest l)

  -- The calls of `get` by the given sessions, one after the other; between two calls the world may
  -- become another one.
  unfoldable pub get_all : List (Session × World) → Loader → Option (List ModuleGraph)
  get_all [] l = some []
  get_all ((s, w) ∷ calls) l = get_next (get_all calls) (get graphs s l w)

  get_all-graph :
      (calls : List (Session × World)) (l : Loader) (g : ModuleGraph)
      → l.graph ≡ some g
      → get_all calls l ≡ some (map (λ c. g) calls)
  unfolding get_all
  get_all-graph [] l g e = refl
  get_all-graph ((s, w) ∷ calls) l g e =
      ap (get_next (get_all calls)) (get-graph s l w g e)
      ∙ ap (put_first g) (get_all-graph calls l g e)

  -- If the first call of a new loader succeeds, then so do all later ones, in any worlds, and all
  -- calls give the graph that the first has loaded.
  pub get_all-constant :
      (s : Session) (w w' : World) (calls : List (Session × World)) (l : Loader) (g : ModuleGraph)
      → l.graph ≡ none
      → load graphs l s w ≡ some (g, w')
      → get_all ((s, w) ∷ calls) l ≡ some (map (λ c. g) ((s, w) ∷ calls))
  unfolding get_all
  get_all-constant s w w' calls l g new e =
      ap (get_next (get_all calls)) (get-load s l w w' g new e)
      ∙ ap (put_first g) (get_all-graph calls (record l { graph = some g }) g refl)
