-- ===== src/Ilp/Path.antt =====
-- noc_pass.py: the route that a solution of `ilp_noc_selector_add_stream_constr` gives a stream
-- mapped to the NoC, and what `post_process_noc_ilp` reports of it.
use mathlib.Core.Path.{subst, ap₂}
use mathlib.Core.List.{Memᴰ}
use rapidstream_noc.Common.{
  sym, ap, ◌+◌, ◌≤◌, ◌≡◌, ◌≢◌, refl, inl, inr, true, false, not, ◌&&◌, List, [], ◌∷◌, ◌++◌, ◌∙◌,
  some, All, arith, Bool-cases, if◌then◌else◌, All-append_inv, All_at, length, ◌==◌,
}
use rapidstream_noc.Common.Text.{Text, text_eq}
use rapidstream_noc.Common.Text.Equality.{text_eq_iff, text_elem, text_elem_iff}
use rapidstream_noc.Graph.{EdgeTuple, get_all_edges, get_all_nodes}
use rapidstream_noc.Device.{Device, Ends}
use rapidstream_noc.Ilp.{
  NetworkX, DiGraph, get_nx_graph_from_noc_graph, Var, x, y, z, not_mapped_stream, StreamNodes,
  MmapNoc, Solution, Satisfies, ilp_noc_selector_add_stream_constr, chosen_ends, flow_constr,
  flat_map, is_truthy, total, lp_sum, intermediate, inflow, outflow, on_the_way, source_constr,
  destination_constr, at_source, at_destination,
}
use rapidstream_noc.Ilp.Trail.{Walk, trail, outdegree, indegree, one_if, IsBalanced}
use rapidstream_noc.Ilp.Parts.{parts}
use rapidstream_noc.Ilp.Balance.{
  All-flat_map, All_map_at, sum_of, total_lp, total_lp_snoc, selected, sum_of-heads, sum_of-tails,
  untouched, selected-All, TheOne, the_one,
}
use rapidstream_noc.Ilp.Networkx.{IsDiGraph, neighbours-added, added, keep-All, added-All, All-Memᴰ}

-- Where a solution sends a stream: the ends it chooses, and a walk between them along edges of the
-- NoC whose variables are one.
pub record Route (edges : List EdgeTuple) (a : Solution) (s : Text) (ends : Ends (List Text))
    : Type 0 where
  pub src : Text
  pub dest : Text
  pub src_listed : Memᴰ src ends.src
  pub dest_listed : Memᴰ dest ends.dest
  pub src_chosen : a (y s src) ≡ 1
  pub dest_chosen : a (z s dest) ≡ 1
  pub walk : Walk (λ e. Memᴰ e edges × (a (x s e) ≡ 1)) dest src
  pub reported : chosen_ends a (s, ends) ≡ (s, (src, dest)) ∷ []

truthy : (n : Text) → n ≢ [] → is_truthy (some n) ≡ true
truthy [] named = absurd (named refl)
truthy (c ∷ n) named = refl

module _ (nx : NetworkX) (lawful : IsDiGraph nx) (streams_nodes : StreamNodes) (mmap_noc : MmapNoc)
    (d : Device) (a : Solution) (binary : (v : Var) → a v ≤ 1)
    (solves : All (Satisfies a) (ilp_noc_selector_add_stream_constr nx streams_nodes mmap_noc d))
    (s : Text) (ends : Ends (List Text)) (listed : Memᴰ (s, ends) streams_nodes) where
  abbrev edges : List EdgeTuple
  edges = get_all_edges d.noc_graph

  abbrev graph : DiGraph
  graph = get_nx_graph_from_noc_graph nx d

  -- The edges that the solution selects for the stream.
  abbrev taken : List EdgeTuple
  taken = selected (λ e. a (x s e)) (added edges)

  -- The constraints 1 and 2, and the stream's own of 3.
  stream_constraints :
      (sum_of (λ n. a (y s n)) ends.src + a (not_mapped_stream s) ≡ 1)
      × (sum_of (λ n. a (z s n)) ends.dest + a (not_mapped_stream s) ≡ 1)
      × All (Satisfies a) (flow_constr graph s ends)
  stream_constraints =
      let (sources, (dests, (flow, _))) = parts nx streams_nodes mmap_noc d (Satisfies a) solves in
      let src = All_map_at (Satisfies a) source_constr (s, ends) streams_nodes sources listed in
      let dest = All_map_at (Satisfies a) destination_constr (s, ends) streams_nodes dests listed in
      (
        omega (arith, src, total_lp_snoc a (y s) ends.src (not_mapped_stream s)),
        omega (arith, dest, total_lp_snoc a (z s) ends.dest (not_mapped_stream s)),
        All-flat_map (Satisfies a) (λ (s, ends). flow_constr graph s ends) (s, ends) streams_nodes
            flow listed,
      )

  flow_parts :
      All (Satisfies a) (flat_map (on_the_way graph s ends) graph.nodes)
      × (All (Satisfies a) (flat_map (at_source graph s) ends.src)
          × All (Satisfies a) (flat_map (at_destination graph s) ends.dest))
  flow_parts =
      let (_, _, flow) = stream_constraints in
      let (middle, outer) =
        All-append_inv (Satisfies a) (flat_map (on_the_way graph s ends) graph.nodes)
          (flat_map (at_source graph s) ends.src ++ flat_map (at_destination graph s) ends.dest)
          flow in
      (
        middle,
        All-append_inv (Satisfies a) (flat_map (at_source graph s) ends.src)
            (flat_map (at_destination graph s) ends.dest) outer,
      )

  out_sum : (n : Text) → total a (lp_sum (outflow graph (x s) n)) ≡ outdegree taken n
  unfolding get_nx_graph_from_noc_graph
  out_sum n =
      total_lp a (λ v. x s (n, v)) (graph.successors n)
      ∙ (ap (sum_of (λ v. a (x s (n, v))))
            (neighbours-added nx lawful (get_all_nodes d.noc_graph) edges n).0
          ∙ sum_of-heads (λ e. a (x s e)) (λ e. binary (x s e)) n (added edges))

  in_sum : (n : Text) → total a (lp_sum (inflow graph (x s) n)) ≡ indegree taken n
  unfolding get_nx_graph_from_noc_graph
  in_sum n =
      total_lp a (λ u. x s (u, n)) (graph.predecessors n)
      ∙ (ap (sum_of (λ u. a (x s (u, n))))
            (neighbours-added nx lawful (get_all_nodes d.noc_graph) edges n).1
          ∙ sum_of-tails (λ e. a (x s e)) (λ e. binary (x s e)) n (added edges))

  -- A node where the stream may start takes nothing in, and sends on what it is chosen for.
  at_src : (n : Text) → Memᴰ n ends.src → (outdegree taken n ≡ a (y s n)) × (indegree taken n ≡ 0)
  at_src n m =
      let (_, (sources, dests)) = flow_parts in
      let (sent, (received, _)) =
        All-flat_map (Satisfies a) (at_source graph s) n ends.src sources m in
      (omega (arith, sent, out_sum n), omega (arith, received, in_sum n))

  -- A node where the stream may end sends nothing on, and takes in what it is chosen for.
  at_dest : (n : Text) → Memᴰ n ends.dest → (indegree taken n ≡ a (z s n)) × (outdegree taken n ≡ 0)
  at_dest n m =
      let (_, (sources, dests)) = flow_parts in
      let (received, (sent, _)) =
        All-flat_map (Satisfies a) (at_destination graph s) n ends.dest dests m in
      (omega (arith, received, in_sum n), omega (arith, sent, out_sum n))

  taken_touch : All (λ (u, v). Memᴰ u graph.nodes × Memᴰ v graph.nodes) taken
  unfolding get_nx_graph_from_noc_graph
  taken_touch =
      keep-All _ (λ e. a (x s e) == 1) (added edges)
        (added-All _ edges (lawful.ends_are_nodes (get_all_nodes d.noc_graph) edges))

  -- Any other node sends on what it takes in.
  elsewhere :
      (n : Text)
      → text_elem n ends.src ≡ false
      → text_elem n ends.dest ≡ false
      → outdegree taken n ≡ indegree taken n
  elsewhere n not_src not_dest = elim (Bool-cases (text_elem n graph.nodes)) [
    | inl here_ ↦
        let (middle, _) = flow_parts in
        let (conserved, _) =
          subst (λ t. All (Satisfies a) (if t then intermediate graph (x s) n else []))
            (ap₂ (λ p q. not p && not q) not_src not_dest)
            (All-flat_map (Satisfies a) (on_the_way graph s ends) n graph.nodes middle
              ((text_elem_iff n graph.nodes).0 here_)) in
        omega (arith, conserved, in_sum n, out_sum n)
    | inr outside ↦
        let (no_out, no_in) = untouched graph.nodes n taken taken_touch outside in
        no_out ∙ sym no_in
  ]

  -- From the source that is chosen, the edges taken balance until a destination.
  balance :
      (the : TheOne (λ n. a (y s n)) ends.src)
      → IsBalanced (λ n. text_elem n ends.dest) taken the.name
  balance the w not_dest = elim (Bool-cases (text_elem w ends.src)) [
    | inl source ↦
        let m = (text_elem_iff w ends.src).0 source in
        let (sent, received) = at_src w m in
        elim (Bool-cases (text_eq w the.name)) [
          | inl same ↦ omega (
            arith,
            sent,
            received,
            ap one_if same,
            ap (λ n. a (y s n)) ((text_eq_iff w the.name).0 same),
            the.is_one,
          )
          | inr other ↦ omega (
            arith,
            sent,
            received,
            ap one_if other,
            the.only w m (λ e. absurd (ground (arith, other, (text_eq_iff w the.name).1 e))),
          )
        ]
    | inr not_src ↦ elim (Bool-cases (text_eq w the.name)) [
      | inl same ↦ absurd (
          ground (
            arith,
            not_src,
            (text_elem_iff w ends.src).1
                (subst (λ t. Memᴰ t ends.src) (sym ((text_eq_iff w the.name).0 same)) the.listed),
          ))
      | inr other ↦ omega (arith, elsewhere w not_src not_dest, ap one_if other)
    ]
  ]

  taken_are : All (λ e. Memᴰ e edges × (a (x s e) ≡ 1)) taken
  taken_are = selected-All _ _ (added edges) (added-All _ edges (All-Memᴰ edges))

  reports :
      (source : TheOne (λ n. a (y s n)) ends.src) (dest : TheOne (λ n. a (z s n)) ends.dest)
      {goal : Text}
      → goal ≡ dest.name
      → source.name ≢ []
      → goal ≢ []
      → chosen_ends a (s, ends) ≡ (s, (source.name, goal)) ∷ []
  reports source dest same src_named goal_named =
      rw
        (
          chosen_ends,
          source.found,
          dest.found,
          sym same,
          truthy source.name src_named,
          truthy _ goal_named,
        )
        refl

  -- When networkx has its documented behaviour and binary variables satisfy the constraints of
  -- `ilp_noc_selector_add_stream_constr`, a listed stream that is mapped, and whose ends are nodes
  -- with names, has a route: a source and a destination out of its lists, both chosen, a walk from
  -- the one to the other along edges of the NoC graph whose variables are one, and these two ends in
  -- what `post_process_noc_ilp` adds for the stream.
  pub mapped_stream-Route :
      a (not_mapped_stream s) ≡ 0
      → All (λ n. n ≢ []) ends.src
      → All (λ n. n ≢ []) ends.dest
      → Route edges a s ends
  mapped_stream-Route mapped src_named dest_named =
      let (one_src, one_dest, _) = stream_constraints in
      let source =
        the_one (λ n. a (y s n)) (λ n. binary (y s n)) ends.src (omega (arith, one_src)) in
      let dest =
        the_one (λ n. a (z s n)) (λ n. binary (z s n)) ends.dest (omega (arith, one_dest)) in
      let (goal, stopped, walk, arrives) =
        trail _ (λ n. text_elem n ends.dest) (length taken) taken source.name (omega arith)
          taken_are (balance source) in
      let goal_listed = (text_elem_iff goal ends.dest).0 stopped in
      let goal_chosen : a (z s goal) ≡ 1 = elim arrives [
        | inl same ↦ absurd (
            omega (
              arith,
              (at_dest goal goal_listed).1,
              ap (outdegree taken) same,
              (at_src source.name source.listed).0,
              source.is_one,
            ))
        | inr into ↦ omega (arith, binary (z s goal), (at_dest goal goal_listed).0)
      ] in
      let same_dest : goal ≡ dest.name = elim (Bool-cases (text_eq goal dest.name)) [
        | inl e ↦ (text_eq_iff goal dest.name).0 e
        | inr ne ↦ absurd (
            omega (
              arith,
              goal_chosen,
              dest.only goal goal_listed
                  (λ e. absurd (ground (arith, ne, (text_eq_iff goal dest.name).1 e))),
            ))
      ] in
      record {
        src = source.name;
        dest = goal;
        src_listed = source.listed;
        dest_listed = goal_listed;
        src_chosen = source.is_one;
        dest_chosen = goal_chosen;
        walk = walk;
        reported =
            reports source dest same_dest (All_at _ source.name ends.src src_named source.listed)
              (All_at _ goal ends.dest dest_named goal_listed);
      }
