-- ===== src/Ilp/Serves.antt =====
-- noc_pass.py: what ilp_noc_selector as a whole returns, for a solver whose answer satisfies the
-- constraints of its problem.
pub mod Tests
use mathlib.Core.Path.{subst}
use mathlib.Core.List.Memᴰ
use mathlib.Core.List.{Memᴰ}
use rapidstream_noc.Common.{
  Result, ◌≤◌, ◌≡◌, ◌≢◌, refl, sym, ap, ◌∙◌, inl, inr, List, [], ◌∷◌, ◌++◌, All, All-append_inv,
  Returns, ok, ok_inj, >>=-eq-ok,
}
use rapidstream_noc.Common.Text.{Text}
use rapidstream_noc.Graph.{Edge, get_all_edges}
use rapidstream_noc.Device.{Device, Ends, get_slot_to_noc_nodes}
use rapidstream_noc.Select.{StreamsSlots, get_stream_manhattan_bw}
use rapidstream_noc.Ilp.{
  NetworkX, Var, not_mapped_stream, StreamNodes, MmapNoc, Constr, Solution, Satisfies, flat_map,
  chosen_ends, ilp_noc_selector_add_stream_constr, post_process_noc_ilp,
}
use rapidstream_noc.Ilp.Networkx.{IsDiGraph}
use rapidstream_noc.Ilp.Path.{Route, mapped_stream-Route}
use rapidstream_noc.Ilp.Lookups.{ilp_noc_selector_add_var, stream_lookups, mmap_lookups}
use rapidstream_noc.Ilp.Ports.{ilp_noc_selector_add_mmap_constr}
use rapidstream_noc.Ilp.Capacity.{
  StreamsBw, MmapBw, IsStreamBw, e_tuple, carried, ilp_noc_selector_add_bw_constr, edge_capacity,
}
use rapidstream_noc.Ilp.Selector.{Problem, noc_problem, ilp_noc_selector}

-- An entry that a stream adds is one of all the entries.
Memᴰ-flat_map {ℓ κ} :
    {A : Type ℓ} {B : Type κ} (f : A → List B) (xs : List A) (p : A) (r : B)
    → Memᴰ p xs
    → f p ≡ r ∷ []
    → Memᴰ r (flat_map f xs)
Memᴰ-flat_map f [] p r m e = absurd (Memᴰ.not-nil m)
Memᴰ-flat_map f (x ∷ xs) p r m e = elim (Memᴰ.cases_cons m) [
  | inl same ↦ subst (λ l. Memᴰ r (l ++ flat_map f xs)) (sym (sym (ap f same) ∙ e)) (Memᴰ.head refl)
  | inr later ↦ Memᴰ.append_right (f x) (Memᴰ-flat_map f xs p r later e)
]

module _ (solve : Problem → Result Solution) (nx : NetworkX) (streams_slots : StreamsSlots)
    (streams_bw : StreamsBw) (mmap_noc : MmapNoc) (mmap_bw : MmapBw) (d : Device)
    (streams_nodes : StreamNodes) (m : Problem)
    (posed : noc_problem nx streams_slots streams_bw mmap_noc mmap_bw d ≡ ok (streams_nodes, m))
    (a : Solution) (solved : solve m ≡ ok a) where
  returned :
      ilp_noc_selector solve nx streams_slots streams_bw mmap_noc mmap_bw d
      ≡ ok (post_process_noc_ilp a streams_nodes)
  unfolding ilp_noc_selector
  returned = rw (posed, solved) refl

  -- The constraints of the problem are those of the streams, of the ports and of the bandwidths.
  constrained :
      (bandwidths : List Constr) × (ilp_noc_selector_add_bw_constr
          (ilp_noc_selector_add_var streams_nodes mmap_noc)
          streams_bw
          mmap_bw
          d
        ≡ ok bandwidths)
      × (m.constraints
          ≡ ilp_noc_selector_add_stream_constr nx streams_nodes mmap_noc d
            ++ (ilp_noc_selector_add_mmap_constr nx mmap_noc d ++ bandwidths))
  unfolding noc_problem
  constrained =
      let (nodes, of_slots, e1) = >>=-eq-ok (get_slot_to_noc_nodes streams_slots d) _ posed in
      let (_, _, e11) =
        >>=-eq-ok (stream_lookups nx (ilp_noc_selector_add_var nodes mmap_noc) nodes d) _ e1 in
      let (_, _, e12) = >>=-eq-ok (mmap_lookups nx mmap_noc d) _ e11 in
      let (bandwidths, of_bw, e2) =
        >>=-eq-ok
          (ilp_noc_selector_add_bw_constr (ilp_noc_selector_add_var nodes mmap_noc) streams_bw
            mmap_bw d)
          _ e12 in
      let (weights, of_weights, e3) =
        >>=-eq-ok (get_stream_manhattan_bw streams_slots streams_bw) _ e2 in
      (
        bandwidths,
        subst
            (λ sn.
              ilp_noc_selector_add_bw_constr (ilp_noc_selector_add_var sn mmap_noc) streams_bw
                mmap_bw d
              ≡ ok bandwidths)
            (ap (λ q. q.0) (ok_inj e3)) of_bw,
        sym (ap (λ q. q.1.constraints) (ok_inj e3))
            ∙ ap
                (λ sn.
                  ilp_noc_selector_add_stream_constr nx sn mmap_noc d
                  ++ (ilp_noc_selector_add_mmap_constr nx mmap_noc d ++ bandwidths))
                (ap (λ q. q.0) (ok_inj e3)),
      )

  -- When `noc_problem` makes a problem and the solver an answer to it, networkx has its documented
  -- behaviour, the answer is binary and satisfies the problem's constraints, and the streams have whole
  -- bytes per cycle, at most 64, and other names than the ports, then `ilp_noc_selector` returns; for a
  -- stream of the problem that the answer maps and whose ends are nodes with names, it returns the ends
  -- of a route along edges of the NoC graph; and over an edge of the graph the streams are routed with no
  -- more bandwidth than the edge has.
  pub ilp_noc_selector-serves :
      IsDiGraph nx
      → ((v : Var) → a v ≤ 1)
      → All (Satisfies a) m.constraints
      → All (IsStreamBw mmap_noc) streams_bw
      → (s : Text) (ends : Ends (List Text)) → Memᴰ (s, ends) streams_nodes
      → a (not_mapped_stream s) ≡ 0
      → All (λ n. n ≢ []) ends.src
      → All (λ n. n ≢ []) ends.dest
      → (e : Edge) → Memᴰ e d.noc_graph.edges
      → Returns
          (λ node_loc.
            ((route : Route (get_all_edges d.noc_graph) a s ends) × Memᴰ
                (s, (route.src, route.dest))
                node_loc)
            × (carried a (e_tuple e) streams_bw ≤ e.bandwidth))
          (ilp_noc_selector solve nx streams_slots streams_bw mmap_noc mmap_bw d)
  unfolding post_process_noc_ilp
  ilp_noc_selector-serves lawful binary solves whole s ends listed mapped src_named dest_named e
        in_graph =
      let (bandwidths, of_bw, are) = constrained in
      let (of_streams, others) =
        All-append_inv (Satisfies a)
          (ilp_noc_selector_add_stream_constr nx streams_nodes mmap_noc d) _
          (subst (All (Satisfies a)) are solves) in
      let (of_ports, of_edges) =
        All-append_inv (Satisfies a) (ilp_noc_selector_add_mmap_constr nx mmap_noc d) bandwidths
          others in
      let route =
        mapped_stream-Route nx lawful streams_nodes mmap_noc d a binary of_streams s ends listed
          mapped src_named dest_named in
      (
        post_process_noc_ilp a streams_nodes,
        returned,
        (
          (route, Memᴰ-flat_map (chosen_ends a) streams_nodes (s, ends) _ listed route.reported),
          edge_capacity (ilp_noc_selector_add_var streams_nodes mmap_noc) streams_bw mmap_bw d
              bandwidths a e of_bw of_edges whole in_graph,
        ),
      )
