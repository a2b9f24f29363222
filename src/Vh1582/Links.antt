-- ===== src/Vh1582/Links.antt =====
-- The VH1582's builder raises nothing and joins only nodes of its graph, for every number of SLRs,
-- if every SLR has rows; the HBM part fixes four columns.
use rapidstream_noc.Common.{
  ℕ, zero, suc, ◌+◌, ◌-◌, ◌*◌, ◌<◌, ◌≡◌, refl, ap, ◌∙◌, List, [], ◌++◌, sum, take, length, All,
  All-append, All-map, arith, ok, Returns, Returns->>=, get_item-All, get_item, get_item-Returns,
  sum-take-suc, sum-take-lt, lt→ltb,
}
use rapidstream_noc.Common.Text.Equality.{ne_of_clash}
use rapidstream_noc.Graph.{Edge, NocGraph}
use rapidstream_noc.Graph.Edges.{IsProper, init_ok, add_edges_proper}
use rapidstream_noc.Fabric.Layout.{
  IsLaidOut, IsLink, bidir-IsLink, loop-IsLink, steps-IsLink, vnoc-Spot, hnoc-Spot,
}
use rapidstream_noc.Fabric.Links.{
  create_nmu_nsu_edges-IsLink, cross_slr_edges-IsLink, ncrb_row_edges-IsLink,
  create_nps_slr0_edges-IsLink,
}
use rapidstream_noc.Vh1582.{
  num_inter_rows, hnoc_round, hnoc_rounds, create_nps_hnoc_edges, create_ncrb_edges,
  create_hbm_mc_edges, vh1582_edges, bare_graph, build,
}
use rapidstream_noc.Vh1582.Hbm.{
  IsHbmLaidOut, vnoc_sub-Spot, mc_switch_edges-IsLink, hbm_row_edges-IsLink,
  create_nps_hbm_edges-IsLink,
}

module _ (g : NocGraph) {num_slr num_col : ℕ} (rows_per_slr : List ℕ)
    (l : IsLaidOut g num_col (sum rows_per_slr) (num_inter_rows num_slr))
    (some_rows : All (λ n. 0 < n) rows_per_slr) (given : length rows_per_slr ≡ num_slr) where
  hnoc_round-IsLink :
      (y slr : ℕ)
      → 0 < y
      → y < sum rows_per_slr
      → slr < num_slr - 1
      → Returns (All (IsLink g)) (hnoc_round g num_slr num_col y slr)
  unfolding hnoc_round
  hnoc_round-IsLink y slr low high hs = loop-IsLink g 2 _ λ r hr. loop-IsLink g num_col _ λ x hx.
      steps-IsLink g _ (
        bidir-IsLink g _ _ (hnoc-Spot g l x (slr * 4 + (1 - r)) hx (omega arith))
            (vnoc_sub-Spot g l x (y * 2 + r) 2 hx (omega arith) (omega arith))
            (ne_of_clash _ _ refl),
        (
          rw (lt→ltb slr (num_slr - 1) hs) (
              bidir-IsLink g _ _ (hnoc-Spot g l x (slr * 4 + 2 + (1 - r)) hx (omega arith))
                (vnoc-Spot g l x (y * 2 + r) hx (omega arith)) (ne_of_clash _ _ refl)),
          tt,
        ),
      )

  hnoc_rounds-IsLink :
      (y slr left : ℕ)
      → 0 < y
      → y ≡ sum (take (suc slr) rows_per_slr)
      → slr + left ≡ num_slr - 1
      → Returns (All (IsLink g)) (hnoc_rounds g num_slr num_col rows_per_slr y slr left)
  unfolding hnoc_rounds
  hnoc_rounds-IsLink y slr zero low ey h = ([], refl, tt)
  hnoc_rounds-IsLink y slr (suc left) low ey h =
      let (here, e, p) =
        hnoc_round-IsLink y slr low
          (omega (arith, sum-take-lt rows_per_slr (suc slr) some_rows (omega arith)))
          (omega arith) in
      let (height, e1, _) = get_item-Returns rows_per_slr (slr + 1) (omega arith) in
      let (above, e2, q) =
        hnoc_rounds-IsLink (y + height) (suc slr) left (omega arith)
          (omega (arith, sum-take-suc rows_per_slr (suc slr) height (next_height height e1)))
          (omega arith) in
      (here ++ above, rw (e, e1, e2), All-append (IsLink g) here above p q)
    where
      next_height :
          (height : ℕ)
          → get_item rows_per_slr (slr + 1) ≡ ok height
          → get_item rows_per_slr (suc slr) ≡ ok height
      next_height height e1 = ap (get_item rows_per_slr) {x = suc slr} (omega arith) ∙ e1

  create_nps_hnoc_edges-IsLink :
      0 < num_slr → Returns (All (IsLink g)) (create_nps_hnoc_edges g num_slr num_col rows_per_slr)
  unfolding create_nps_hnoc_edges
  create_nps_hnoc_edges-IsLink some_slr =
      let (y, e, _) = get_item-Returns rows_per_slr 0 (omega arith) in
      let positive = get_item-All (λ n. 0 < n) rows_per_slr 0 y some_rows e in
      let first = sum-take-suc rows_per_slr 0 y e in
      Returns->>= (get_item rows_per_slr 0) _ e (
        steps-IsLink g _ (
          hnoc_rounds-IsLink y 0 (num_slr - 1) positive (omega arith) (omega arith),
          (cross_slr_edges-IsLink g l num_slr (omega arith), tt),
        ))

  vh1582_edges-IsLink :
      IsHbmLaidOut g num_col
      → num_col ≡ 4
      → 0 < num_slr
      → Returns (All (IsLink g)) (vh1582_edges g num_slr num_col rows_per_slr)
  unfolding vh1582_edges create_ncrb_edges create_hbm_mc_edges
  vh1582_edges-IsLink h four some_slr =
      let total = sum-take-lt rows_per_slr 0 some_rows (omega arith) in
      steps-IsLink g _ (
        create_nmu_nsu_edges-IsLink g l rows_per_slr refl,
        (
          create_nps_hnoc_edges-IsLink some_slr,
          (
            ncrb_row_edges-IsLink g l (num_slr * 2 - 2) (omega arith),
            (
              create_nps_hbm_edges-IsLink g l h (omega arith),
              (
                create_nps_slr0_edges-IsLink g l (omega arith),
                (
                  steps-IsLink g _
                      (mc_switch_edges-IsLink g h, (hbm_row_edges-IsLink g h four, tt)),
                  tt,
                ),
              ),
            ),
          ),
        ),
      )

-- What the builder returns: the graph that it starts with, and edges.
pub vh1582_build-made :
    (num_slr : ℕ) (rows_per_slr : List ℕ)
    → 0 < num_slr
    → length rows_per_slr ≡ num_slr
    → All (λ n. 0 < n) rows_per_slr
    → (es : List Edge) × (build num_slr 4 rows_per_slr
        ≡ ok (record (bare_graph num_slr 4 rows_per_slr) { edges = es }))
      × All (IsLink (bare_graph num_slr 4 rows_per_slr)) es
unfolding build
vh1582_build-made num_slr rows_per_slr some_slr given some_rows =
    let g = bare_graph num_slr 4 rows_per_slr in
    let (es, made, links) =
      vh1582_edges-IsLink g rows_per_slr laid_out some_rows given hbm refl some_slr in
    let proper = All-map {P = IsLink g} {Q = IsProper} (λ e h. h.0) es links in
    (es, rw (init_ok g given, made) (add_edges_proper g es proper), links)
  where
    laid_out :
        IsLaidOut (bare_graph num_slr 4 rows_per_slr) 4 (sum rows_per_slr) (num_inter_rows num_slr)
    laid_out = record { nmu = refl; nsu = refl; vnoc = refl; hnoc = refl; slr0 = refl; ncrb = refl }

    hbm : IsHbmLaidOut (bare_graph num_slr 4 rows_per_slr) 4
    hbm = record {
      nps_hbm = refl;
      ncrb_hbm = refl;
      hbm_mc = refl;
      nmu_hbm = refl;
      nps4 = refl;
      nps6 = refl;
    }

-- If there is an SLR, the rows per SLR are given for each, and none is without rows, the builder
-- for four columns raises nothing, and every edge of its graph joins two different nodes of the
-- graph with the bandwidth of the NoC.
pub vh1582_build-IsLink :
    (num_slr : ℕ) (rows_per_slr : List ℕ)
    → 0 < num_slr
    → length rows_per_slr ≡ num_slr
    → All (λ n. 0 < n) rows_per_slr
    → Returns (λ g. All (IsLink g) g.edges) (build num_slr 4 rows_per_slr)
vh1582_build-IsLink num_slr rows_per_slr some_slr given some_rows =
    let (es, made, links) = vh1582_build-made num_slr rows_per_slr some_slr given some_rows in
    (record (bare_graph num_slr 4 rows_per_slr) { edges = es }, made, links)
