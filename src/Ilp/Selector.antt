-- ===== src/Ilp/Selector.antt =====
-- noc_pass.py: the objective, the special constraints, and ilp_noc_selector. The solver is a
-- parameter, which gives every variable of a problem a value or raises. The objective is multiplied by 4, as
-- the bandwidths are.
use rapidstream_noc.Common.{
  if◌then◌else◌, ℕ, ◌*◌, List, [], ◌∷◌, ◌++◌, map, range, map_each, Result, ok, ◌>>=◌, concat_each,
}
use rapidstream_noc.Common.Text.{Text}
use rapidstream_noc.Common.Text.Equality.{text_elem}
use rapidstream_noc.Graph.{
  get_all_edges, get_column_nmu_nodes, get_column_nsu_nodes, get_column_cross_slr_edges,
  get_column_entrance_edges,
}
use rapidstream_noc.Device.{Device, get_slot_to_noc_nodes}
use rapidstream_noc.Select.{StreamsSlots, get_stream_manhattan_bw}
use rapidstream_noc.Ilp.{
  NetworkX, Var, x, y, z, not_mapped_stream, StreamNodes, MmapNoc, Constr, Solution, flat_map,
  equals, is_at_most, ilp_noc_selector_add_stream_constr, post_process_noc_ilp,
}
use rapidstream_noc.Ilp.Lookups.{ilp_noc_selector_add_var, stream_lookups, mmap_lookups}
use rapidstream_noc.Ilp.Ports.{ilp_noc_selector_add_mmap_constr}
use rapidstream_noc.Ilp.Capacity.{StreamsBw, MmapBw, ilp_noc_selector_add_bw_constr}

-- The variables of the ends that stand in a column, which is asked for at every end.
abbrev pub ends_in_column : Result (List Text) → (Text → Var) → List Text → Result (List Var)
ends_in_column column var ends =
    concat_each ends λ n. column >>= λ names. ok (if text_elem n names then var n ∷ [] else [])

-- The two sums for one SLR.
unfoldable pub column_constr : StreamNodes → Device → ℕ → Result (List Constr)
column_constr streams_nodes d slr = do
  srcs ←
      concat_each streams_nodes
        λ (s, ends). ends_in_column (get_column_nmu_nodes d.noc_graph 0 slr) (y s) ends.src
  dests ←
      concat_each streams_nodes
        λ (s, ends). ends_in_column (get_column_nsu_nodes d.noc_graph 0 slr) (z s) ends.dest
  ok (is_at_most srcs 1 ∷ is_at_most dests 1 ∷ [])

unfoldable pub ilp_noc_selector_add_constr_special : StreamNodes → Device → Result (List Constr)
unfolding column_constr
ilp_noc_selector_add_constr_special streams_nodes d = do
  columns ← concat_each (range d.noc_graph.num_slr) (column_constr streams_nodes d)
  crossings ← map_each streams_nodes λ (s, ends). do
    edges ← get_column_cross_slr_edges d.noc_graph 0
    ok (equals (map (x s) edges) [] 0)
  entrances ← map_each streams_nodes λ (s, ends). do
    edges ← get_column_entrance_edges d.noc_graph 0
    ok (is_at_most (map (x s) edges) 1)
  ok (columns ++ (crossings ++ entrances))

-- The objective. Its lookups raise nothing after the other steps of `noc_problem`: the bandwidths are of
-- streams with slots, and every stream has an entry of its own.
unfoldable pub ilp_noc_selector_add_obj : StreamNodes → StreamsBw → Device → List (ℕ × Var)
ilp_noc_selector_add_obj streams_nodes streams_bw d =
    map (λ (s, bw). (bw, not_mapped_stream s)) streams_bw
    ++ map (λ v. (4 * 300, v))
        (flat_map (λ (s, ends). map (x s) (get_all_edges d.noc_graph)) streams_nodes)

pub record Problem : Type 0 where
  pub constraints : List Constr
  pub objective : List (ℕ × Var)

-- The problem, with the nodes of its streams.
unfoldable pub noc_problem :
    NetworkX → StreamsSlots → StreamsBw → MmapNoc → MmapBw → Device → Result (StreamNodes × Problem)
unfolding stream_lookups mmap_lookups ilp_noc_selector_add_stream_constr
    ilp_noc_selector_add_mmap_constr ilp_noc_selector_add_bw_constr ilp_noc_selector_add_obj
noc_problem nx streams_slots streams_bw mmap_noc mmap_bw d = do
  streams_nodes ← get_slot_to_noc_nodes streams_slots d
  let ilp_var = ilp_noc_selector_add_var streams_nodes mmap_noc
  streams_found ← stream_lookups nx ilp_var streams_nodes d
  ports_found ← mmap_lookups nx mmap_noc d
  bandwidths ← ilp_noc_selector_add_bw_constr ilp_var streams_bw mmap_bw d
  streams_manhattan_bw ← get_stream_manhattan_bw streams_slots streams_bw
  ok (
    streams_nodes,
    record {
      constraints =
          ilp_noc_selector_add_stream_constr nx streams_nodes mmap_noc d
          ++ (ilp_noc_selector_add_mmap_constr nx mmap_noc d ++ bandwidths);
      objective = ilp_noc_selector_add_obj streams_nodes streams_manhattan_bw d;
    },
  )

unfoldable pub ilp_noc_selector :
    (Problem → Result Solution)
    → NetworkX
    → StreamsSlots
    → StreamsBw
    → MmapNoc
    → MmapBw
    → Device
    → Result (List (Text × (Text × Text)))
unfolding noc_problem post_process_noc_ilp
ilp_noc_selector solve nx streams_slots streams_bw mmap_noc mmap_bw d = do
  (streams_nodes, m) ← noc_problem nx streams_slots streams_bw mmap_noc mmap_bw d
  a ← solve m
  ok (post_process_noc_ilp a streams_nodes)
