-- ===== src/Ilp/Parts.antt =====
-- noc_pass.py: the kinds of constraints that `ilp_noc_selector_add_stream_constr` adds, apart.
use rapidstream_noc.Common.{List, ◌++◌, map, All, All-append_inv}
use rapidstream_noc.Graph.{get_all_nmu_nodes, get_all_nsu_nodes}
use rapidstream_noc.Device.{Device}
use rapidstream_noc.Ilp.{
  NetworkX, StreamNodes, MmapNoc, Constr, get_nx_graph_from_noc_graph,
  ilp_noc_selector_add_stream_constr, source_constr, destination_constr, flow_constr, flat_map,
  nmu_constr, nsu_constr,
}

module _ (nx : NetworkX) (streams_nodes : StreamNodes) (mmap_noc : MmapNoc) (d : Device) where
  abbrev sources : List Constr
  sources = map source_constr streams_nodes

  abbrev destinations : List Constr
  destinations = map destination_constr streams_nodes

  abbrev flows : List Constr
  flows =
      flat_map (λ (s, ends). flow_constr (get_nx_graph_from_noc_graph nx d) s ends) streams_nodes

  abbrev nmus : List Constr
  nmus = map (nmu_constr streams_nodes mmap_noc) (get_all_nmu_nodes d.noc_graph)

  abbrev nsus : List Constr
  nsus = map (nsu_constr streams_nodes) (get_all_nsu_nodes d.noc_graph)

  pub parts :
      (P : Constr → Type 0)
      → All P (ilp_noc_selector_add_stream_constr nx streams_nodes mmap_noc d)
      → All P sources × (All P destinations × (All P flows × (All P nmus × All P nsus)))
  unfolding ilp_noc_selector_add_stream_constr
  parts P h =
      let (first, h1) = All-append_inv P sources (destinations ++ (flows ++ (nmus ++ nsus))) h in
      let (second, h2) = All-append_inv P destinations (flows ++ (nmus ++ nsus)) h1 in
      let (third, h3) = All-append_inv P flows (nmus ++ nsus) h2 in
      (first, (second, (third, All-append_inv P nmus nsus h3)))
