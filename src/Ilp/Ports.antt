-- ===== src/Ilp/Ports.antt =====
-- noc_pass.py: the routes of the memory-mapped ports (ilp_noc_selector_add_mmap_constr).
pub mod Tests
use mathlib.Core.Path.{subst}
use mathlib.Core.List.Memᴰ
use mathlib.Core.List.{Memᴰ}
use rapidstream_noc.Common.{
  ℕ, sym, ap, ◌∙◌, ◌+◌, ◌≤◌, ◌≡◌, inl, inr, Bool, true, false, not, ◌&&◌, ◌==◌, List, [], ◌∷◌, ◌++◌,
  All, arith, Bool-cases, if◌then◌else◌, All-append_inv, length,
}
use rapidstream_noc.Common.Text.{Text, text_eq}
use rapidstream_noc.Common.Text.Equality.{text_eq_iff, text_elem, text_elem_iff}
use rapidstream_noc.Graph.{EdgeTuple, get_all_edges, get_all_nodes}
use rapidstream_noc.Device.{Device, Ends}
use rapidstream_noc.Ilp.{
  NetworkX, DiGraph, get_nx_graph_from_noc_graph, Var, port_x, x_ret, MmapNoc, Constr, Solution,
  Satisfies, flat_map, equals, is_at_most, inflow, outflow, total, lp_sum,
}
use rapidstream_noc.Ilp.Trail.{Walk, trail, outdegree, indegree, one_if, IsBalanced}
use rapidstream_noc.Ilp.Networkx.{IsDiGraph, neighbours-added, added, keep-All, added-All, All-Memᴰ}
use rapidstream_noc.Ilp.Balance.{
  All-flat_map, sum_of, total_lp, selected, selected-All, sum_of-heads, sum_of-tails, untouched,
}

-- The four constraints of a node that is neither end of the port.
abbrev pub port_on_the_way : DiGraph → Text → Ends Text → Text → List Constr
port_on_the_way g port ends n =
    if not (text_eq n ends.src) && not (text_eq n ends.dest)
    then (equals (inflow g (port_x port) n) (outflow g (port_x port) n) 0
        ∷ equals (inflow g (x_ret port) n) (outflow g (x_ret port) n) 0
        ∷ is_at_most (inflow g (port_x port) n ++ outflow g (port_x port) n) 2
        ∷ is_at_most (inflow g (x_ret port) n ++ outflow g (x_ret port) n) 2
        ∷ [])
    else []

-- The constraints of the two ends.
abbrev pub port_ends : DiGraph → Text → Ends Text → List Constr
port_ends g port ends =
    equals (outflow g (port_x port) ends.src) [] 1
    ∷ equals (inflow g (port_x port) ends.src) [] 0
    ∷ equals (outflow g (x_ret port) ends.dest) [] 1
    ∷ equals (inflow g (x_ret port) ends.dest) [] 0
    ∷ equals (inflow g (port_x port) ends.dest) [] 1
    ∷ equals (outflow g (port_x port) ends.dest) [] 0
    ∷ equals (inflow g (x_ret port) ends.src) [] 1
    ∷ equals (outflow g (x_ret port) ends.src) [] 0
    ∷ []

abbrev pub port_constr : DiGraph → Text × Ends Text → List Constr
port_constr g (port, ends) = flat_map (port_on_the_way g port ends) g.nodes ++ port_ends g port ends

unfoldable pub ilp_noc_selector_add_mmap_constr : NetworkX → MmapNoc → Device → List Constr
ilp_noc_selector_add_mmap_constr nx mmap_noc d =
    flat_map (port_constr (get_nx_graph_from_noc_graph nx d)) mmap_noc

-- The flow of one commodity from one node to another leads from the one to the other.
flow-Walk :
    (R : EdgeTuple → Type 0) (es : List EdgeTuple) (src dest : Text)
    → All R es
    → outdegree es src ≡ 1
    → indegree es src ≡ 0
    → ((n : Text) → text_eq n src ≡ false → text_eq n dest ≡ false → outdegree es n ≡ indegree es n)
    → Walk R dest src
flow-Walk R es src dest hs sent received between =
    let (goal, at_goal, walk, arrives) =
      trail R (λ n. text_eq n dest) (length es) es src (omega arith) hs balanced in
    subst (λ k. Walk R k src) ((text_eq_iff goal dest).0 at_goal) walk
  where
    balanced : IsBalanced (λ n. text_eq n dest) es src
    balanced w not_dest = elim (Bool-cases (text_eq w src)) [
      | inl same ↦
          let is_src = (text_eq_iff w src).0 same in
          omega (
            arith,
            ap (outdegree es) is_src,
            ap (indegree es) is_src,
            sent,
            received,
            ap one_if same,
          )
      | inr other ↦ omega (arith, between w other not_dest, ap one_if other)
    ]

module _ (nx : NetworkX) (lawful : IsDiGraph nx) (d : Device) (a : Solution)
    (binary : (v : Var) → a v ≤ 1) (var : EdgeTuple → Var) where
  abbrev edges : List EdgeTuple
  edges = get_all_edges d.noc_graph

  abbrev graph : DiGraph
  graph = get_nx_graph_from_noc_graph nx d

  abbrev taken : List EdgeTuple
  taken = selected (λ e. a (var e)) (added edges)

  sent_sum : (n : Text) → total a (lp_sum (outflow graph var n)) ≡ outdegree taken n
  unfolding get_nx_graph_from_noc_graph
  sent_sum n =
      total_lp a (λ v. var (n, v)) (graph.successors n)
      ∙ (ap (sum_of (λ v. a (var (n, v))))
            (neighbours-added nx lawful (get_all_nodes d.noc_graph) edges n).0
          ∙ sum_of-heads (λ e. a (var e)) (λ e. binary (var e)) n (added edges))

  received_sum : (n : Text) → total a (lp_sum (inflow graph var n)) ≡ indegree taken n
  unfolding get_nx_graph_from_noc_graph
  received_sum n =
      total_lp a (λ u. var (u, n)) (graph.predecessors n)
      ∙ (ap (sum_of (λ u. a (var (u, n))))
            (neighbours-added nx lawful (get_all_nodes d.noc_graph) edges n).1
          ∙ sum_of-tails (λ e. a (var e)) (λ e. binary (var e)) n (added edges))

  touch : All (λ (u, v). Memᴰ u graph.nodes × Memᴰ v graph.nodes) taken
  unfolding get_nx_graph_from_noc_graph
  touch =
      keep-All _ (λ e. a (var e) == 1) (added edges)
        (added-All _ edges (lawful.ends_are_nodes (get_all_nodes d.noc_graph) edges))

  commodity-Walk :
      (src dest : Text)
      → total a (lp_sum (outflow graph var src)) ≡ 1
      → total a (lp_sum (inflow graph var src)) ≡ 0
      → ((n : Text)
          → Memᴰ n graph.nodes
          → text_eq n src ≡ false
          → text_eq n dest ≡ false
          → total a (lp_sum (inflow graph var n)) ≡ total a (lp_sum (outflow graph var n)))
      → Walk (λ e. Memᴰ e edges × (a (var e) ≡ 1)) dest src
  commodity-Walk src dest sent received conserved =
      flow-Walk _ taken src dest
        (selected-All _ _ (added edges) (added-All _ edges (All-Memᴰ edges)))
        (sym (sent_sum src) ∙ sent) (sym (received_sum src) ∙ received)
        (λ n other far. elim (Bool-cases (text_elem n graph.nodes)) [
          | inl here_ ↦ omega (
            arith,
            conserved n ((text_elem_iff n graph.nodes).0 here_) other far,
            sent_sum n,
            received_sum n,
          )
          | inr outside ↦
              let (no_out, no_in) = untouched graph.nodes n taken touch outside in
              no_out ∙ sym no_in
        ])

-- When networkx has its documented behaviour and binary variables satisfy the constraints of
-- `ilp_noc_selector_add_mmap_constr`, a listed port has a walk from its source to its destination
-- along edges of the NoC graph whose forward variables are one, and a walk back along edges whose
-- return variables are one.
pub port-Walk :
    (nx : NetworkX) (lawful : IsDiGraph nx) (mmap_noc : MmapNoc) (d : Device) (a : Solution)
    (binary : (v : Var) → a v ≤ 1)
    → All (Satisfies a) (ilp_noc_selector_add_mmap_constr nx mmap_noc d)
    → (port : Text) (ends : Ends Text) → Memᴰ (port, ends) mmap_noc
    → Walk (λ e. Memᴰ e (get_all_edges d.noc_graph) × (a (port_x port e) ≡ 1)) ends.dest ends.src
      × Walk (λ e. Memᴰ e (get_all_edges d.noc_graph) × (a (x_ret port e) ≡ 1)) ends.src ends.dest
unfolding ilp_noc_selector_add_mmap_constr
port-Walk nx lawful mmap_noc d a binary solves port ends listed =
    let g = get_nx_graph_from_noc_graph nx d in
    let (way, (out_src, (in_src, (ret_out, (ret_in, more))))) =
      All-append_inv (Satisfies a) (flat_map (port_on_the_way g port ends) g.nodes)
        (port_ends g port ends)
        (All-flat_map (Satisfies a) (port_constr g) (port, ends) mmap_noc solves listed) in
    let between : (n : Text)
        → Memᴰ n g.nodes
        → text_eq n ends.src ≡ false
        → text_eq n ends.dest ≡ false
        → All (Satisfies a) (
            equals (inflow g (port_x port) n) (outflow g (port_x port) n) 0
            ∷ equals (inflow g (x_ret port) n) (outflow g (x_ret port) n) 0
            ∷ is_at_most (inflow g (port_x port) n ++ outflow g (port_x port) n) 2
            ∷ is_at_most (inflow g (x_ret port) n ++ outflow g (x_ret port) n) 2
            ∷ []) =
      λ n m not_src not_dest.
        let at_n : All (Satisfies a) (port_on_the_way g port ends n) =
          All-flat_map (Satisfies a) (port_on_the_way g port ends) n g.nodes way m in
        rw (not_src, not_dest) at at_n in
    (
      commodity-Walk nx lawful d a binary (port_x port) ends.src ends.dest (omega (arith, out_src))
          (omega (arith, in_src))
          (λ n m not_src not_dest. omega (arith, (between n m not_src not_dest).0)),
      commodity-Walk nx lawful d a binary (x_ret port) ends.dest ends.src (omega (arith, ret_out))
          (omega (arith, ret_in))
          (λ n m not_dest not_src. omega (arith, (between n m not_src not_dest).1.0)),
    )
