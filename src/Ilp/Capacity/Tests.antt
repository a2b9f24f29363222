-- ===== src/Ilp/Capacity/Tests.antt =====
-- The bandwidth constraints of one stream of 32 bytes per cycle, over the edges of the small NoC.
use mathlib.Core.List.{Memᴰ}
use rapidstream_noc.Common.{
  true, ◌≤◌, ◌≡◌, refl, List, [], ◌∷◌, arith, ok, err, none, key_error, lookup, map_each,
}
use rapidstream_noc.Common.Text.{codes, str_of, int_of, text_eq}
use rapidstream_noc.Graph.{Edge}
use rapidstream_noc.Width.{round_up_to_noc_bw, round_up_to_noc_tdata}
use rapidstream_noc.Ilp.Lookups.{IlpVar, x_of, x_ret_of}
use rapidstream_noc.Ilp.{Constr, x, port_x, x_ret, at_most}
use rapidstream_noc.Ilp.Tests.{device, solution, all_hold, all_hold-Satisfies}
use rapidstream_noc.Ilp.Capacity.{
  StreamsBw, MmapBw, e_tuple, ilp_noc_selector_add_bw_constr, port_terms, carried, edge_capacity,
}

abbrev streams_bw : StreamsBw
streams_bw = (codes "a", 30000) ∷ []

abbrev mmap_bw : MmapBw
mmap_bw = (codes "p", record { read_bw = 100; write_bw = 50 }) ∷ []

-- The edge from n1 to m.
abbrev first_edge : Edge
first_edge = record {
  src = record { name = codes "n1" };
  dest = record { name = codes "m" };
  bandwidth = 64000;
}

abbrev constr_of : Edge → Constr
constr_of e = record {
  plus =
      (512000, x (codes "a") (e_tuple e))
      ∷ (950, port_x (codes "p") (e_tuple e))
      ∷ (1650, x_ret (codes "p") (e_tuple e))
      ∷ [];
  minus = [];
  sense = at_most;
  bound = 1024000;
  less = 0;
}

abbrev constrs : List Constr
constrs =
    constr_of first_edge
    ∷ constr_of (record {
      src = record { name = codes "m" };
      dest = record { name = codes "s1" };
      bandwidth = 64000;
    })
    ∷ constr_of (record {
      src = record { name = codes "n2" };
      dest = record { name = codes "s2" };
      bandwidth = 64000;
    })
    ∷ []

abbrev ilp_var : IlpVar
ilp_var = record {
  streams = (codes "a", record { src = []; dest = [] }) ∷ [];
  ports = (codes "p", record { src = []; dest = [] }) ∷ [];
}

-- A port that is in `mmap_bw` and not in `mmap_noc`.
port_unknown :
    ilp_noc_selector_add_bw_constr (record ilp_var { ports = [] }) streams_bw mmap_bw device
    ≡ err key_error
unfolding ilp_noc_selector_add_bw_constr round_up_to_noc_bw round_up_to_noc_tdata str_of int_of
    map_each lookup text_eq x_of port_terms
port_unknown = refl

made : ilp_noc_selector_add_bw_constr ilp_var streams_bw mmap_bw device ≡ ok constrs
unfolding ilp_noc_selector_add_bw_constr round_up_to_noc_bw round_up_to_noc_tdata str_of int_of
    map_each lookup text_eq x_of x_ret_of port_terms
made = refl

hold : all_hold solution constrs ≡ true
unfolding text_eq
hold = refl

no_port : lookup (codes "a") ilp_var.ports ≡ none
unfolding lookup text_eq
no_port = refl

edge_capacity_run : carried solution (codes "n1", codes "m") streams_bw ≤ 64000
edge_capacity_run =
    edge_capacity ilp_var streams_bw mmap_bw device constrs solution first_edge made
      (all_hold-Satisfies solution constrs hold) (((30, omega arith, refl), no_port), tt)
      (Memᴰ.head refl)
