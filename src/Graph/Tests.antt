-- ===== src/Graph/Tests.antt =====
-- Edges between three nodes, one of them a self loop.
use rapidstream_noc.Common.{◌≡◌, refl, List, [], ◌∷◌, All, ok, err, assertion_error}
use rapidstream_noc.Common.Text.{codes, Text}
use rapidstream_noc.Common.Text.Equality.{ne_of_clash}
use rapidstream_noc.Graph.{Node, Edge, NocGraph, add_edges}
use rapidstream_noc.Graph.Edges.{IsProper, add_edges_proper, add_edges_self_loop}

abbrev node_of : Text → Node
node_of t = record { name = t }

abbrev edge : Text → Text → Edge
edge s t = record { src = node_of s; dest = node_of t; bandwidth = 64000 }

abbrev graph : List Edge → NocGraph
graph es = record {
  num_slr = 0;
  num_col = 0;
  rows_per_slr = [];
  nmu_nodes = [];
  nsu_nodes = [];
  nps_vnoc_nodes = [];
  nps_hnoc_nodes = [];
  nps_slr0_nodes = [];
  ncrb_nodes = [];
  nps_hbm_nodes = [];
  ncrb_hbm_nodes = [];
  hbm_mc_nodes = [];
  nmu_hbm_nodes = [];
  nps4_hbm_mc_nodes = [];
  nps6_hbm_mc_nodes = [];
  edges = es;
}

abbrev ab : Edge
ab = edge (codes "a") (codes "b")

abbrev bc : Edge
bc = edge (codes "b") (codes "c")

ab-bc-IsProper : All IsProper (ab ∷ bc ∷ [])
ab-bc-IsProper = (ne_of_clash _ _ refl, (ne_of_clash _ _ refl, tt))

add_edges_proper_run : add_edges (graph (ab ∷ [])) (ab ∷ bc ∷ []) ≡ ok (graph (ab ∷ ab ∷ bc ∷ []))
add_edges_proper_run = add_edges_proper (graph (ab ∷ [])) (ab ∷ bc ∷ []) ab-bc-IsProper

add_edges_self_loop_run :
    add_edges (graph []) (ab ∷ edge (codes "b") (codes "b") ∷ bc ∷ []) ≡ err assertion_error
add_edges_self_loop_run =
    add_edges_self_loop (graph []) (ab ∷ []) (edge (codes "b") (codes "b")) (bc ∷ []) refl
