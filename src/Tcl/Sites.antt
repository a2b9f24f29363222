-- ===== src/Tcl/Sites.antt =====
-- The names of NMU and NSU nodes are read back as the sites that they stand for.
use rapidstream_noc.Common.{ℕ, ◌≡◌, ◌≢◌, ap, ◌∙◌, [], ◌∷◌, ◌++◌, All, All-append, arith, ok}
use rapidstream_noc.Common.Text.{Text, codes, str_of, split}
use rapidstream_noc.Common.Text.Split.{Clear-of_head, split_at, split_whole}
use rapidstream_noc.Graph.Names.{node_name}
use rapidstream_noc.Slots.RoundTrip.{str_of-ne}
use rapidstream_noc.Tcl.{split_x_y}

module _ (x y : ℕ) where
  abbrev coords : Text
  coords = str_of x ++ (codes "y" ++ str_of y)

  split_y : split coords (codes "y") ≡ str_of x ∷ str_of y ∷ []
  split_y =
      split_at b'y' [] (str_of x) (str_of y)
        (Clear-of_head b'y' [] (str_of x) _ (str_of-ne b'y' x (omega arith)))
      ∙ ap (λ parts. str_of x ∷ parts)
          (split_whole (codes "y") (str_of y)
            (Clear-of_head b'y' [] (str_of y) [] (str_of-ne b'y' y (omega arith))))

  -- A name of a node type without the letter x gives back the coordinates of the node.
  pub split_x_y-coords :
      (prefix : Text)
      → All (λ d. d ≢ b'x') prefix
      → split_x_y (prefix ++ (codes "x" ++ coords)) ≡ ok (str_of x, str_of y)
  unfolding split_x_y
  split_x_y-coords prefix no_x =
      let no_more = Clear-of_head b'x' [] coords [] (
        All-append (λ d. d ≢ b'x') (str_of x) (codes "y" ++ str_of y)
          (str_of-ne b'x' x (omega arith)) (omega arith, str_of-ne b'x' y (omega arith))) in
      let split_x : split (prefix ++ (codes "x" ++ coords)) (codes "x") ≡ prefix ∷ coords ∷ [] =
        split_at b'x' [] prefix coords (Clear-of_head b'x' [] prefix _ no_x)
        ∙ ap (λ parts. prefix ∷ parts) (split_whole (codes "x") coords no_more) in
      rw (split_x, split_y)

  -- The name of a NMU node, and of a NSU node, is read back as its coordinates.
  pub split_x_y-node_name :
      (split_x_y (node_name (codes "nmu") x y) ≡ ok (str_of x, str_of y))
      × (split_x_y (node_name (codes "nsu") x y) ≡ ok (str_of x, str_of y))
  split_x_y-node_name =
      (split_x_y-coords (codes "nmu_") (omega arith), split_x_y-coords (codes "nsu_") (omega arith))
