-- ===== src/Ilp/Lookups.antt =====
-- noc_pass.py: the variables by name (ilp_noc_selector_add_var), and the lookups in the dictionary of
-- the variables and in the graph that may raise while the constraints are made. A function that
-- raises adds no constraint that anything reads, so its lookups come first here, in the code's order.
use rapidstream_noc.Common.{
  none, some, List, [], ◌∷◌, ◌++◌, Result, ok, err, key_error, ◌>>=◌, ◌>>◌, lookup,
}
use rapidstream_noc.Common.Text.{Text, codes}
use rapidstream_noc.Common.Text.Edit.{replace_away}
use rapidstream_noc.Graph.{EdgeTuple, get_all_nodes, get_all_edges}
use rapidstream_noc.Device.{Device}
use rapidstream_noc.Ilp.{
  NetworkX, Var, x, y, z, not_mapped_stream, port_x, x_ret, StreamNodes, MmapNoc,
}

-- `f"{e}"` of an edge, for names without quotes and backslashes.
abbrev pub edge_text : EdgeTuple → Text
edge_text (u, v) = codes "('" ++ u ++ codes "', '" ++ v ++ codes "')"

-- The `name` that the code gives a variable.
unfoldable pub lp_name : Var → Text
unfolding replace_away
lp_name (x s e) = codes "x_" ++ replace_away s (codes "_") ++ codes "_" ++ edge_text e
lp_name (y s n) = codes "y_" ++ s ++ codes "_" ++ n
lp_name (z s n) = codes "z_" ++ s ++ codes "_" ++ n
lp_name (not_mapped_stream s) = codes "not_mapped_" ++ s
lp_name (port_x port e) = codes "x_" ++ port ++ codes "_" ++ edge_text e
lp_name (x_ret port e) = codes "x_ret_" ++ port ++ codes "_" ++ edge_text e

-- The dictionary `ilp_var`: the entries of the streams, and those of the ports, which replace the
-- entries of streams of the same name.
pub record IlpVar : Type 0 where
  pub streams : StreamNodes
  pub ports : MmapNoc

abbrev pub ilp_noc_selector_add_var : StreamNodes → MmapNoc → IlpVar
ilp_noc_selector_add_var streams_nodes mmap_noc = record {
  streams = streams_nodes;
  ports = mmap_noc;
}

-- `ilp_var[name]["x"][e]`, for an edge of the graph.
unfoldable pub x_of : IlpVar → Text → EdgeTuple → Result Var
unfolding lookup
x_of ilp_var name e = elim (lookup name ilp_var.ports) [
  | some _ ↦ ok (port_x name e)
  | none ↦ elim (lookup name ilp_var.streams) [ some _ ↦ ok (x name e) | none ↦ err key_error ]
]

-- `ilp_var[name]["x_ret"][e]`, for an edge of the graph: the entry of a stream has no such key.
unfoldable pub x_ret_of : IlpVar → Text → EdgeTuple → Result Var
unfolding lookup
x_ret_of ilp_var name e = elim (lookup name ilp_var.ports) [
  | some _ ↦ ok (x_ret name e)
  | none ↦ err key_error
]

-- `ilp_var[stream_name]["y"]`: the entry of a port has no such key.
unfoldable pub entry_of_stream : IlpVar → Text → Result (Unit {0})
unfolding lookup
entry_of_stream ilp_var s = elim (lookup s ilp_var.ports) [
  | some _ ↦ err key_error
  | none ↦ elim (lookup s ilp_var.streams) [ some _ ↦ ok tt | none ↦ err key_error ]
]

abbrev pub entries : IlpVar → StreamNodes → Result (Unit {0})
entries ilp_var [] = ok tt
entries ilp_var ((s, _) ∷ streams) = entry_of_stream ilp_var s >> entries ilp_var streams

-- `noc_nx_graph.successors(n)` and `noc_nx_graph.predecessors(n)`, for each of some nodes.
unfoldable pub neighbours : NetworkX → Device → List Text → Result (Unit {0})
neighbours nx d [] = ok tt
neighbours nx d (n ∷ ns) =
    nx.successors (get_all_nodes d.noc_graph) (get_all_edges d.noc_graph) n >>= λ after.
    nx.predecessors (get_all_nodes d.noc_graph) (get_all_edges d.noc_graph) n >>= λ before.
    neighbours nx d ns

abbrev pub stream_neighbours : NetworkX → Device → StreamNodes → Result (Unit {0})
stream_neighbours nx d [] = ok tt
stream_neighbours nx d ((_, ends) ∷ streams) =
    neighbours nx d (ends.src ++ ends.dest) >> stream_neighbours nx d streams

-- What `ilp_noc_selector_add_stream_constr` looks up: the entries of the streams for the constraints 1
-- and 2, then the neighbours of the streams' ends for the constraints 3.
unfoldable pub stream_lookups : NetworkX → IlpVar → StreamNodes → Device → Result (Unit {0})
unfolding entry_of_stream neighbours
stream_lookups nx ilp_var streams_nodes d =
    entries ilp_var streams_nodes >> stream_neighbours nx d streams_nodes

-- What `ilp_noc_selector_add_mmap_constr` looks up: the neighbours of the ports' ends.
unfoldable pub mmap_lookups : NetworkX → MmapNoc → Device → Result (Unit {0})
unfolding neighbours
mmap_lookups nx [] d = ok tt
mmap_lookups nx ((port, ends) ∷ ports) d =
    neighbours nx d (ends.src ∷ ends.dest ∷ []) >> mmap_lookups nx ports d
