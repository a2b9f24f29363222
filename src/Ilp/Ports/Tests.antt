-- ===== src/Ilp/Ports/Tests.antt =====
-- A memory-mapped port from n1 through m to s1, and back.
use mathlib.Core.List.{Memᴰ}
use rapidstream_noc.Common.{◌≤◌, ◌≡◌, refl, true, ◌||◌, [], ◌∷◌, All, arith}
use rapidstream_noc.Common.Text.{Text, codes, text_eq}
use rapidstream_noc.Graph.{Edge, NocGraph, get_all_edges}
use rapidstream_noc.Device.{Device, Ends}
use rapidstream_noc.Ilp.{
  Var, x, y, z, not_mapped_stream, port_x, x_ret, MmapNoc, Solution, Satisfies,
  get_nx_graph_from_noc_graph,
}
use rapidstream_noc.Ilp.Trail.{Walk, one_if}
use rapidstream_noc.Ilp.Tests.{
  noc, device, listed, listed-IsDiGraph, node_of, is_pair, one_if_le, all_hold, all_hold-Satisfies,
}
use rapidstream_noc.Ilp.Ports.{ilp_noc_selector_add_mmap_constr, port-Walk}

abbrev edge : Text → Text → Edge
edge s t = record { src = node_of s; dest = node_of t; bandwidth = 64000 }

abbrev both_ways : NocGraph
both_ways = record noc {
  edges =
      edge (codes "n1") (codes "m")
      ∷ edge (codes "m") (codes "s1")
      ∷ edge (codes "s1") (codes "m")
      ∷ edge (codes "m") (codes "n1")
      ∷ [];
}

abbrev with_port : Device
with_port = record device { noc_graph = both_ways }

abbrev ends : Ends Text
ends = record { src = codes "n1"; dest = codes "s1" }

abbrev mmap_noc : MmapNoc
mmap_noc = (codes "p", ends) ∷ []

abbrev routed : Solution
routed (x s e) = 0
routed (y s n) = 0
routed (z s n) = 0
routed (not_mapped_stream s) = 0
routed (port_x p (u, v)) =
    one_if (is_pair u v (codes "n1") (codes "m") || is_pair u v (codes "m") (codes "s1"))
routed (x_ret p (u, v)) =
    one_if (is_pair u v (codes "s1") (codes "m") || is_pair u v (codes "m") (codes "n1"))

routed_binary : (v : Var) → routed v ≤ 1
routed_binary (x s e) = omega arith
routed_binary (y s n) = omega arith
routed_binary (z s n) = omega arith
routed_binary (not_mapped_stream s) = omega arith
routed_binary (port_x p (u, v)) = one_if_le _
routed_binary (x_ret p (u, v)) = one_if_le _

checked : all_hold routed (ilp_noc_selector_add_mmap_constr listed mmap_noc with_port) ≡ true
unfolding ilp_noc_selector_add_mmap_constr get_nx_graph_from_noc_graph get_all_edges text_eq
checked = refl

solves : All (Satisfies routed) (ilp_noc_selector_add_mmap_constr listed mmap_noc with_port)
solves =
    all_hold-Satisfies routed (ilp_noc_selector_add_mmap_constr listed mmap_noc with_port) checked

port-Walk_example :
    Walk
      (λ e. Memᴰ e (get_all_edges with_port.noc_graph) × (routed (port_x (codes "p") e) ≡ 1))
      (codes "s1")
      (codes "n1")
    × Walk
        (λ e. Memᴰ e (get_all_edges with_port.noc_graph) × (routed (x_ret (codes "p") e) ≡ 1))
        (codes "n1")
        (codes "s1")
port-Walk_example =
    port-Walk listed listed-IsDiGraph mmap_noc with_port routed routed_binary solves (codes "p")
      ends (Memᴰ.head refl)
