-- ===== src/Vp1802.antt =====
-- vp1802_nocgraph.py: the NoC graph of the VP1802.
pub mod Links
pub mod Tests
use rapidstream_noc.Common.{
  ℕ, zero, suc, ◌+◌, ◌-◌, ◌*◌, List, [], ◌∷◌, ◌++◌, sum, range, ltb, if◌then◌else◌, Result, ok,
  ◌>>=◌, concat_each,
}
use rapidstream_noc.Common.Text.{codes}
use rapidstream_noc.Graph.{Node, Edge, NocGraph, init, add_edges, at, with_nodes, in_turn}
use rapidstream_noc.Graph.Names.{create_columns}
use rapidstream_noc.Fabric.{
  create_bidir_edges, create_nmu_nsu_edges, cross_slr_edges, ncrb_row_edges, create_nps_slr0_edges,
}

-- The dictionary that `vp1802_nodes` returns.
pub record Nodes : Type 0 where
  pub nmu_nodes : List (List Node)
  pub nsu_nodes : List (List Node)
  pub nps_vnoc_nodes : List (List Node)
  pub nps_hnoc_nodes : List (List Node)
  pub nps_slr0_nodes : List (List Node)
  pub ncrb_nodes : List (List Node)

-- `num_slr * 2 * 2 - 2`; a negative number makes an empty range, as 0 does.
abbrev pub num_inter_rows : ℕ → ℕ
num_inter_rows num_slr = num_slr * 2 * 2 - 2

abbrev pub vp1802_nodes : ℕ → ℕ → List ℕ → Nodes
vp1802_nodes num_slr num_col rows_per_slr = record {
  nmu_nodes = create_columns (codes "nmu") num_col (sum rows_per_slr);
  nsu_nodes = create_columns (codes "nsu") num_col (sum rows_per_slr);
  nps_vnoc_nodes = create_columns (codes "nps_vnoc") num_col (sum rows_per_slr * 2);
  nps_hnoc_nodes = create_columns (codes "nps_hnoc") num_col (num_inter_rows num_slr);
  nps_slr0_nodes = create_columns (codes "nps_slr0") num_col 4;
  ncrb_nodes = create_columns (codes "ncrb") (num_col - 1) (num_inter_rows num_slr);
}

-- One round of the first loop of `create_nps_hnoc_edges`, at the row `y` that ends SLR `slr`.
unfoldable pub hnoc_round : NocGraph → ℕ → ℕ → ℕ → ℕ → Result (List Edge)
hnoc_round g num_slr num_col y slr = concat_each (range 2) λ r. concat_each (range num_col) λ x.
    in_turn (
      with_nodes create_bidir_edges (at g.nps_hnoc_nodes x (slr * 4 + (1 - r)))
        (at g.nps_vnoc_nodes x (y * 2 - 2 + r))
      ∷ (if ltb slr (num_slr - 1)
          then with_nodes create_bidir_edges (at g.nps_hnoc_nodes x (slr * 4 + 2 + (1 - r)))
              (at g.nps_vnoc_nodes x (y * 2 + r))
          else ok [])
      ∷ [])

-- The first loop, with `left` rounds to go.
unfoldable pub hnoc_rounds : NocGraph → ℕ → ℕ → ℕ → ℕ → ℕ → Result (List Edge)
hnoc_rounds g num_slr num_col y slr zero = ok []
hnoc_rounds g num_slr num_col y slr (suc left) = do
  here ← hnoc_round g num_slr num_col y slr
  above ← hnoc_rounds g num_slr num_col (y + 6) (suc slr) left
  ok (here ++ above)

unfoldable pub create_nps_hnoc_edges : NocGraph → ℕ → ℕ → Result (List Edge)
unfolding hnoc_rounds
create_nps_hnoc_edges g num_slr num_col =
    in_turn (hnoc_rounds g num_slr num_col 7 0 num_slr ∷ cross_slr_edges g num_slr num_col ∷ [])

unfoldable pub create_ncrb_edges : NocGraph → ℕ → ℕ → Result (List Edge)
create_ncrb_edges g num_slr num_col = ncrb_row_edges g (num_slr * 2 - 1) num_col

unfoldable pub vp1802_edges : NocGraph → ℕ → ℕ → List ℕ → Result (List Edge)
vp1802_edges g num_slr num_col rows_per_slr = in_turn (
    create_nmu_nsu_edges g num_col rows_per_slr
    ∷ create_nps_hnoc_edges g num_slr num_col
    ∷ create_ncrb_edges g num_slr num_col
    ∷ create_nps_slr0_edges g num_col
    ∷ [])

-- The graph before its edges are added.
abbrev pub bare_graph : ℕ → ℕ → List ℕ → NocGraph
bare_graph num_slr num_col rows_per_slr =
    let nodes = vp1802_nodes num_slr num_col rows_per_slr in
    record {
      num_slr = num_slr;
      num_col = num_col;
      rows_per_slr = rows_per_slr;
      nmu_nodes = nodes.nmu_nodes;
      nsu_nodes = nodes.nsu_nodes;
      nps_vnoc_nodes = nodes.nps_vnoc_nodes;
      nps_hnoc_nodes = nodes.nps_hnoc_nodes;
      nps_slr0_nodes = nodes.nps_slr0_nodes;
      ncrb_nodes = nodes.ncrb_nodes;
      nps_hbm_nodes = [];
      ncrb_hbm_nodes = [];
      hbm_mc_nodes = [];
      nmu_hbm_nodes = [];
      nps4_hbm_mc_nodes = [];
      nps6_hbm_mc_nodes = [];
      edges = [];
    }

-- The body of `vp1802_nocgraph` for any numbers of SLRs, columns and rows.
unfoldable pub build : ℕ → ℕ → List ℕ → Result NocGraph
build num_slr num_col rows_per_slr = do
  g ← init (bare_graph num_slr num_col rows_per_slr)
  edges ← vp1802_edges g num_slr num_col rows_per_slr
  add_edges g edges

unfoldable pub vp1802_nocgraph : Result NocGraph
unfolding build
vp1802_nocgraph = build 4 4 (7 ∷ 6 ∷ 6 ∷ 6 ∷ [])
