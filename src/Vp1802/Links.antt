-- ===== src/Vp1802/Links.antt =====
-- The VP1802's builder raises nothing and joins only nodes of its graph, for every number of SLRs
-- and columns, if there are rows enough for the strides 7 and 6 of `create_nps_hnoc_edges`.
use rapidstream_noc.Common.{
  ℕ, zero, suc, ◌+◌, ◌-◌, ◌*◌, ◌<◌, ◌≤◌, ◌≡◌, refl, inl, inr, List, [], ◌++◌, sum, length, ltb, All,
  All-append, All-map, arith, Bool-cases, Returns, ok,
}
use rapidstream_noc.Common.Text.Equality.{ne_of_clash}
use rapidstream_noc.Graph.{Edge, NocGraph}
use rapidstream_noc.Graph.Edges.{IsProper, init_ok, add_edges_proper}
use rapidstream_noc.Fabric.Layout.{
  IsLaidOut, IsLink, bidir-IsLink, loop-IsLink, steps-IsLink, vnoc-Spot, hnoc-Spot,
}
use rapidstream_noc.Fabric.Links.{
  create_nmu_nsu_edges-IsLink, cross_slr_edges-IsLink, ncrb_row_edges-IsLink,
  create_nps_slr0_edges-IsLink,
}
use rapidstream_noc.Vp1802.{
  num_inter_rows, hnoc_round, hnoc_rounds, create_nps_hnoc_edges, create_ncrb_edges, vp1802_edges,
  bare_graph, build,
}

module _ (g : NocGraph) {num_slr num_col num_row : ℕ}
    (l : IsLaidOut g num_col num_row (num_inter_rows num_slr)) (some_slr : 0 < num_slr)
    (room : num_slr * 6 + 1 ≤ num_row) where
  hnoc_round-IsLink :
      (y slr : ℕ)
      → y ≡ slr * 6 + 7
      → slr < num_slr
      → Returns (All (IsLink g)) (hnoc_round g num_slr num_col y slr)
  unfolding hnoc_round
  hnoc_round-IsLink y slr ey hs = loop-IsLink g 2 _ λ r hr. loop-IsLink g num_col _ λ x hx.
      steps-IsLink g _ (
        bidir-IsLink g _ _ (hnoc-Spot g l x (slr * 4 + (1 - r)) hx (omega arith))
            (vnoc-Spot g l x (y * 2 - 2 + r) hx (omega arith)) (ne_of_clash _ _ refl),
        (
          elim (Bool-cases (ltb slr (num_slr - 1))) [
            | inl below ↦ rw below (
                bidir-IsLink g _ _ (hnoc-Spot g l x (slr * 4 + 2 + (1 - r)) hx (ground arith))
                  (vnoc-Spot g l x (y * 2 + r) hx (ground arith)) (ne_of_clash _ _ refl))
            | inr top ↦ rw top ([], refl, tt)
          ],
          tt,
        ),
      )

  hnoc_rounds-IsLink :
      (y slr left : ℕ)
      → y ≡ slr * 6 + 7
      → slr + left ≤ num_slr
      → Returns (All (IsLink g)) (hnoc_rounds g num_slr num_col y slr left)
  unfolding hnoc_rounds
  hnoc_rounds-IsLink y slr zero ey h = ([], refl, tt)
  hnoc_rounds-IsLink y slr (suc left) ey h =
      let (here, e, p) = hnoc_round-IsLink y slr ey (omega arith) in
      let (above, e', q) = hnoc_rounds-IsLink (y + 6) (suc slr) left (omega arith) (omega arith) in
      (here ++ above, rw (e, e'), All-append (IsLink g) here above p q)

  vp1802_edges-IsLink :
      (rows_per_slr : List ℕ)
      → sum rows_per_slr ≡ num_row
      → Returns (All (IsLink g)) (vp1802_edges g num_slr num_col rows_per_slr)
  unfolding vp1802_edges create_nps_hnoc_edges create_ncrb_edges
  vp1802_edges-IsLink rows_per_slr total = steps-IsLink g _ (
    create_nmu_nsu_edges-IsLink g l rows_per_slr total,
    (
      steps-IsLink g _ (
        hnoc_rounds-IsLink 7 0 num_slr refl (omega arith),
        (cross_slr_edges-IsLink g l num_slr (omega arith), tt),
      ),
      (
        ncrb_row_edges-IsLink g l (num_slr * 2 - 1) (omega arith),
        (create_nps_slr0_edges-IsLink g l (omega arith), tt),
      ),
    ),
  )

-- What the builder returns: the graph that it starts with, and edges.
pub vp1802_build-made :
    (num_slr num_col : ℕ) (rows_per_slr : List ℕ)
    → 0 < num_slr
    → length rows_per_slr ≡ num_slr
    → num_slr * 6 + 1 ≤ sum rows_per_slr
    → (es : List Edge) × (build num_slr num_col rows_per_slr
        ≡ ok (record (bare_graph num_slr num_col rows_per_slr) { edges = es }))
      × All (IsLink (bare_graph num_slr num_col rows_per_slr)) es
unfolding build
vp1802_build-made num_slr num_col rows_per_slr some_slr given room =
    let g = bare_graph num_slr num_col rows_per_slr in
    let (es, made, links) = vp1802_edges-IsLink g laid_out some_slr room rows_per_slr refl in
    let proper = All-map {P = IsLink g} {Q = IsProper} (λ e h. h.0) es links in
    (es, rw (init_ok g given, made) (add_edges_proper g es proper), links)
  where
    laid_out :
        IsLaidOut
          (bare_graph num_slr num_col rows_per_slr)
          num_col
          (sum rows_per_slr)
          (num_inter_rows num_slr)
    laid_out = record { nmu = refl; nsu = refl; vnoc = refl; hnoc = refl; slr0 = refl; ncrb = refl }

-- If there is an SLR, the rows per SLR are given for each, and there are `6 * num_slr + 1` rows,
-- the builder raises nothing, and every edge of its graph joins two different nodes of the graph
-- with the bandwidth of the NoC.
pub vp1802_build-IsLink :
    (num_slr num_col : ℕ) (rows_per_slr : List ℕ)
    → 0 < num_slr
    → length rows_per_slr ≡ num_slr
    → num_slr * 6 + 1 ≤ sum rows_per_slr
    → Returns (λ g. All (IsLink g) g.edges) (build num_slr num_col rows_per_slr)
vp1802_build-IsLink num_slr num_col rows_per_slr some_slr given room =
    let (es, made, links) = vp1802_build-made num_slr num_col rows_per_slr some_slr given room in
    (record (bare_graph num_slr num_col rows_per_slr) { edges = es }, made, links)
