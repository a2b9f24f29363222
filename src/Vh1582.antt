-- ===== src/Vh1582.antt =====
-- vh1582_nocgraph.py: the NoC graph of the VH1582, which has HBM. The functions that it shares
-- with vp1802_nocgraph.py, text for text, are those of `Fabric`.
pub mod Hbm
pub mod Links
pub mod Tests
use rapidstream_noc.Common.{
  ℕ, zero, suc, ◌+◌, ◌-◌, ◌*◌, List, [], ◌∷◌, ◌++◌, map, sum, range, ltb, if◌then◌else◌, Result, ok,
  ◌>>=◌, get_item, concat_each,
}
use rapidstream_noc.Common.Text.{Text, codes, str_of}
use rapidstream_noc.Graph.{Node, Edge, NocGraph, init, add_edges, at, at_sub, with_nodes, in_turn}
use rapidstream_noc.Graph.Names.{node, create_nodes, create_columns}
use rapidstream_noc.Fabric
use rapidstream_noc.Fabric.{create_bidir_edges, one_edge, cross_slr_edges, ncrb_row_edges}

-- The dictionary that `vh1582_nodes` returns.
pub record Nodes : Type 0 where
  pub nmu_nodes : List (List Node)
  pub nsu_nodes : List (List Node)
  pub nps_vnoc_nodes : List (List Node)
  pub nps_hnoc_nodes : List (List Node)
  pub nps_slr0_nodes : List (List Node)
  pub ncrb_nodes : List (List Node)
  pub nps_hbm_nodes : List (List Node)
  pub ncrb_hbm_nodes : List (List Node)
  pub hbm_mc_nodes : List (List (List Node))
  pub nmu_hbm_nodes : List Node
  pub nps4_hbm_mc_nodes : List Node
  pub nps6_hbm_mc_nodes : List (List Node)

-- `num_slr * 2 * 2 - 2 - 2`; a negative number makes an empty range, as 0 does.
abbrev pub num_inter_rows : ℕ → ℕ
num_inter_rows num_slr = num_slr * 2 * 2 - 2 - 2

-- `Node(name=f"hbm_mc_x{x}y0_pc{pc}_port{p}")`.
abbrev pub mc_node : ℕ → ℕ → ℕ → Node
mc_node x pc p = record {
  name =
      codes "hbm_mc_x"
      ++ (str_of x ++ (codes "y0_pc" ++ (str_of pc ++ (codes "_port" ++ str_of p))));
}

-- `nmu_hbm_nodes`, in the order of the two nested loops.
abbrev pub nmu_hbm : List ℕ → List Node
nmu_hbm [] = []
nmu_hbm (x ∷ xs) = map (λ xx. node (codes "nmu_hbm") (x * 4 + xx) 0) (range 4) ++ nmu_hbm xs

abbrev pub vh1582_nodes : ℕ → ℕ → List ℕ → Nodes
vh1582_nodes num_slr num_col rows_per_slr = record {
  nmu_nodes = create_columns (codes "nmu") num_col (sum rows_per_slr);
  nsu_nodes = create_columns (codes "nsu") num_col (sum rows_per_slr);
  nps_vnoc_nodes = create_columns (codes "nps_vnoc") num_col (sum rows_per_slr * 2);
  nps_hnoc_nodes = create_columns (codes "nps_hnoc") num_col (num_inter_rows num_slr);
  nps_slr0_nodes = create_columns (codes "nps_slr0") num_col 4;
  ncrb_nodes = create_columns (codes "ncrb") (num_col - 1) (num_inter_rows num_slr);
  nps_hbm_nodes = create_columns (codes "nps_hbm") num_col 4;
  ncrb_hbm_nodes = create_columns (codes "ncrb_hbm") num_col 2;
  hbm_mc_nodes = map (λ x. map (λ pc. map (λ p. mc_node x pc p) (range 2)) (range 2)) (range 16);
  nmu_hbm_nodes = nmu_hbm (range 16);
  nps4_hbm_mc_nodes = map (λ x. node (codes "nps4_hbm_mc") x 0) (range 16);
  nps6_hbm_mc_nodes = create_columns (codes "nps6_hbm_mc") 8 4;
}

abbrev pub create_nmu_nsu_edges : NocGraph → ℕ → List ℕ → Result (List Edge)
create_nmu_nsu_edges = Fabric.create_nmu_nsu_edges

abbrev pub create_nps_slr0_edges : NocGraph → ℕ → Result (List Edge)
create_nps_slr0_edges = Fabric.create_nps_slr0_edges

-- One round of the first loop of `create_nps_hnoc_edges`, at the row `y` above SLR `slr`. The
-- index `y * 2 - 2 + r` counts from the end where it is negative.
unfoldable pub hnoc_round : NocGraph → ℕ → ℕ → ℕ → ℕ → Result (List Edge)
hnoc_round g num_slr num_col y slr = concat_each (range 2) λ r. concat_each (range num_col) λ x.
    in_turn (
      with_nodes create_bidir_edges (at g.nps_hnoc_nodes x (slr * 4 + (1 - r)))
        (at_sub g.nps_vnoc_nodes x (y * 2 + r) 2)
      ∷ (if ltb slr (num_slr - 1)
          then with_nodes create_bidir_edges (at g.nps_hnoc_nodes x (slr * 4 + 2 + (1 - r)))
              (at g.nps_vnoc_nodes x (y * 2 + r))
          else ok [])
      ∷ [])

-- The first loop, with `left` rounds to go.
unfoldable pub hnoc_rounds : NocGraph → ℕ → ℕ → List ℕ → ℕ → ℕ → ℕ → Result (List Edge)
hnoc_rounds g num_slr num_col rows_per_slr y slr zero = ok []
hnoc_rounds g num_slr num_col rows_per_slr y slr (suc left) = do
  here ← hnoc_round g num_slr num_col y slr
  height ← get_item rows_per_slr (slr + 1)
  above ← hnoc_rounds g num_slr num_col rows_per_slr (y + height) (suc slr) left
  ok (here ++ above)

unfoldable pub create_nps_hnoc_edges : NocGraph → ℕ → ℕ → List ℕ → Result (List Edge)
unfolding hnoc_rounds
create_nps_hnoc_edges g num_slr num_col rows_per_slr = do
  y ← get_item rows_per_slr 0
  in_turn (
      hnoc_rounds g num_slr num_col rows_per_slr y 0 (num_slr - 1)
      ∷ cross_slr_edges g num_slr num_col
      ∷ [])

unfoldable pub create_ncrb_edges : NocGraph → ℕ → ℕ → Result (List Edge)
create_ncrb_edges g num_slr num_col = ncrb_row_edges g (num_slr * 2 - 2) num_col

-- `num_row * 2 - 2 + r` counts from the end where it is negative.
unfoldable pub create_nps_hbm_edges : NocGraph → ℕ → ℕ → Result (List Edge)
create_nps_hbm_edges g num_col num_row = in_turn (
    concat_each (range num_col) (λ x. concat_each (range 2) λ r.
      let top = at_sub g.nps_vnoc_nodes x (num_row * 2 + r) 2 in
      in_turn (
        with_nodes one_edge (at g.ncrb_hbm_nodes x 0) top
        ∷ with_nodes one_edge top (at g.ncrb_hbm_nodes x 1)
        ∷ with_nodes one_edge (at g.nps_hbm_nodes x r) (at g.ncrb_hbm_nodes x 0)
        ∷ with_nodes one_edge (at g.ncrb_hbm_nodes x 1) (at g.nps_hbm_nodes x r)
        ∷ []))
    ∷ concat_each (range num_col) (λ x. in_turn (
        concat_each (range 2) (λ row.
          with_nodes create_bidir_edges (at g.nps_hbm_nodes x (row + 2)) (at g.nps_hbm_nodes x row))
        ∷ with_nodes create_bidir_edges (at g.nps_hbm_nodes x 2) (at g.nps_hbm_nodes x 3)
        ∷ []))
    ∷ [])

-- `hbm_mc_nodes[x][pc][p]`.
abbrev pub mc_at : NocGraph → ℕ → ℕ → ℕ → Result Node
mc_at g x pc p = get_item g.hbm_mc_nodes x >>= λ controller. at controller pc p

-- The loops of `create_hbm_mc_edges` over the memory controllers and their switches.
unfoldable pub mc_switch_edges : NocGraph → Result (List Edge)
mc_switch_edges g = in_turn (
    concat_each (range 8) (λ x. concat_each (range 2) λ pc. concat_each (range 2) λ p. in_turn (
      with_nodes create_bidir_edges (mc_at g (x * 2) pc p)
        (get_item g.nps4_hbm_mc_nodes (x * 2 + p))
      ∷ with_nodes create_bidir_edges (mc_at g (x * 2 + 1) pc p)
          (get_item g.nps4_hbm_mc_nodes (x * 2 + p))
      ∷ []))
    ∷ concat_each (range 8) (λ x. concat_each (range 4) λ y. concat_each (range 2) λ xx.
      with_nodes create_bidir_edges (get_item g.nmu_hbm_nodes (x * 8 + y * 2 + xx))
        (at g.nps6_hbm_mc_nodes x y))
    ∷ concat_each (range 8) (λ x. concat_each (range 4) λ y. concat_each (range 2) λ xx.
      with_nodes create_bidir_edges (at g.nps6_hbm_mc_nodes x y)
        (get_item g.nps4_hbm_mc_nodes (x * 2 + xx)))
    ∷ [])

-- The loops of `create_hbm_mc_edges` along the rows of HBM switches.
unfoldable pub hbm_row_edges : NocGraph → ℕ → Result (List Edge)
hbm_row_edges g num_col = in_turn (
    concat_each (range 4) (λ row. in_turn (
      with_nodes create_bidir_edges (at g.nps6_hbm_mc_nodes 0 row) (at g.nps_hbm_nodes 0 row)
      ∷ with_nodes create_bidir_edges (at g.nps_hbm_nodes 3 row) (at g.nps6_hbm_mc_nodes 7 row)
      ∷ []))
    ∷ concat_each (range (num_col - 1)) (λ x. concat_each (range 4) λ row. in_turn (
        with_nodes create_bidir_edges (at g.nps_hbm_nodes x row)
          (at g.nps6_hbm_mc_nodes (x * 2 + 1) row)
        ∷ with_nodes create_bidir_edges (at g.nps6_hbm_mc_nodes (x * 2 + 1) row)
            (at g.nps6_hbm_mc_nodes (x * 2 + 2) row)
        ∷ with_nodes create_bidir_edges (at g.nps6_hbm_mc_nodes (x * 2 + 2) row)
            (at g.nps_hbm_nodes (x + 1) row)
        ∷ []))
    ∷ [])

unfoldable pub create_hbm_mc_edges : NocGraph → ℕ → Result (List Edge)
create_hbm_mc_edges g num_col = in_turn (mc_switch_edges g ∷ hbm_row_edges g num_col ∷ [])

unfoldable pub vh1582_edges : NocGraph → ℕ → ℕ → List ℕ → Result (List Edge)
vh1582_edges g num_slr num_col rows_per_slr = in_turn (
    create_nmu_nsu_edges g num_col rows_per_slr
    ∷ create_nps_hnoc_edges g num_slr num_col rows_per_slr
    ∷ create_ncrb_edges g num_slr num_col
    ∷ create_nps_hbm_edges g num_col (sum rows_per_slr)
    ∷ create_nps_slr0_edges g num_col
    ∷ create_hbm_mc_edges g num_col
    ∷ [])

-- The graph before its edges are added.
abbrev pub bare_graph : ℕ → ℕ → List ℕ → NocGraph
bare_graph num_slr num_col rows_per_slr =
    let nodes = vh1582_nodes num_slr num_col rows_per_slr in
    record {
      num_slr = num_slr;
      num_col = num_col;
      rows_per_slr = rows_per_slr;
      nmu_nodes = nodes.nmu_nodes;
      nsu_nodes = nodes.nsu_nodes;
      nps_vnoc_nodes = nodes.nps_vnoc_nodes;
      nps_hnoc_nodes = nodes.nps_hnoc_nodes;
      nps_slr0_nodes = nodes.nps_slr0_nodes;
      ncrb_nodes = nodes.ncrb_nodes;
      nps_hbm_nodes = nodes.nps_hbm_nodes;
      ncrb_hbm_nodes = nodes.ncrb_hbm_nodes;
      hbm_mc_nodes = nodes.hbm_mc_nodes;
      nmu_hbm_nodes = nodes.nmu_hbm_nodes;
      nps4_hbm_mc_nodes = nodes.nps4_hbm_mc_nodes;
      nps6_hbm_mc_nodes = nodes.nps6_hbm_mc_nodes;
      edges = [];
    }

-- The body of `vh1582_nocgraph` for any numbers of SLRs, columns and rows.
unfoldable pub build : ℕ → ℕ → List ℕ → Result NocGraph
build num_slr num_col rows_per_slr = do
  g ← init (bare_graph num_slr num_col rows_per_slr)
  edges ← vh1582_edges g num_slr num_col rows_per_slr
  add_edges g edges

unfoldable pub vh1582_nocgraph : Result NocGraph
unfolding build
vh1582_nocgraph = build 2 4 (7 ∷ 6 ∷ [])
