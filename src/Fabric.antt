-- ===== src/Fabric.antt =====
-- The parts of the NoC's mesh that vp1802_nocgraph.py and vh1582_nocgraph.py build alike: the two
-- files hold the same text for these functions. The NCRB rows and the crossings between SLRs are
-- loops that the two files run over their own ranges.
pub mod Layout
pub mod Links
use rapidstream_noc.Common.{
  ℕ, ◌+◌, ◌-◌, ◌*◌, List, [], ◌∷◌, map, sum, take, length, range, elem, if◌then◌else◌, Result, ok,
  concat_each,
}
use rapidstream_noc.Graph.{Node, Edge, NocGraph, at, with_nodes, in_turn}

-- 16000 MB/s in quarters.
abbrev pub noc_bandwidth : ℕ
noc_bandwidth = 64000

-- Every caller passes `bandwidth=16000`.
abbrev pub create_bidir_edges : Node → Node → List Edge
create_bidir_edges n1 n2 =
    record { src = n1; dest = n2; bandwidth = noc_bandwidth }
    ∷ record { src = n2; dest = n1; bandwidth = noc_bandwidth }
    ∷ []

abbrev pub one_edge : Node → Node → List Edge
one_edge n1 n2 = record { src = n1; dest = n2; bandwidth = noc_bandwidth } ∷ []

-- The rows above the entries of `y_at_slr_boundary`: the source subtracts 1 from each sum.
abbrev pub rows_above_boundary : List ℕ → List ℕ
rows_above_boundary rows_per_slr =
    map (λ i. sum (take (i + 1) rows_per_slr)) (range (length rows_per_slr))

-- `y not in y_at_slr_boundary` is `y + 1 not in rows_above_boundary`.
unfoldable pub create_nmu_nsu_edges : NocGraph → ℕ → List ℕ → Result (List Edge)
create_nmu_nsu_edges g num_col rows_per_slr = concat_each (range num_col) λ x.
    let nmu = at g.nmu_nodes x in
    let nsu = at g.nsu_nodes x in
    let vnoc = at g.nps_vnoc_nodes x in
    concat_each (range (sum rows_per_slr)) λ y. in_turn (
      with_nodes create_bidir_edges (nmu y) (vnoc (y * 2 + 1))
      ∷ with_nodes create_bidir_edges (nsu y) (vnoc (y * 2))
      ∷ with_nodes create_bidir_edges (vnoc (y * 2)) (vnoc (y * 2 + 1))
      ∷ (if elem (y + 1) (rows_above_boundary rows_per_slr)
          then ok []
          else in_turn (
              with_nodes create_bidir_edges (vnoc (y * 2)) (vnoc ((y + 1) * 2))
              ∷ with_nodes create_bidir_edges (vnoc (y * 2 + 1)) (vnoc ((y + 1) * 2 + 1))
              ∷ []))
      ∷ [])

-- The second loop of `create_nps_hnoc_edges`, over the boundaries between SLRs.
unfoldable pub cross_slr_edges : NocGraph → ℕ → ℕ → Result (List Edge)
cross_slr_edges g num_slr num_col = concat_each (range (num_slr - 1)) λ slr.
    concat_each (range 2) λ r. concat_each (range num_col) λ x.
      with_nodes create_bidir_edges (at g.nps_hnoc_nodes x (slr * 4 + r))
        (at g.nps_hnoc_nodes x (slr * 4 + r + 2))

-- The loop of `create_ncrb_edges` over `range(num_rows)`.
unfoldable pub ncrb_row_edges : NocGraph → ℕ → ℕ → Result (List Edge)
ncrb_row_edges g num_rows num_col = concat_each (range num_rows) λ y.
    concat_each (range (num_col - 1)) λ x.
      let ncrb = at g.ncrb_nodes x in
      let west = at g.nps_hnoc_nodes x in
      let east = at g.nps_hnoc_nodes (x + 1) in
      in_turn (
        with_nodes one_edge (ncrb (y * 2)) (west (y * 2))
        ∷ with_nodes one_edge (ncrb (y * 2)) (west (y * 2 + 1))
        ∷ with_nodes one_edge (east (y * 2)) (ncrb (y * 2))
        ∷ with_nodes one_edge (east (y * 2 + 1)) (ncrb (y * 2))
        ∷ with_nodes one_edge (west (y * 2)) (ncrb (y * 2 + 1))
        ∷ with_nodes one_edge (west (y * 2 + 1)) (ncrb (y * 2 + 1))
        ∷ with_nodes one_edge (ncrb (y * 2 + 1)) (east (y * 2))
        ∷ with_nodes one_edge (ncrb (y * 2 + 1)) (east (y * 2 + 1))
        ∷ [])

unfoldable pub create_nps_slr0_edges : NocGraph → ℕ → Result (List Edge)
create_nps_slr0_edges g num_col = in_turn (
    concat_each (range num_col) (λ x.
      concat_each (range 2)
        λ y. with_nodes create_bidir_edges (at g.nps_slr0_nodes x y) (at g.nps_vnoc_nodes x y))
    ∷ concat_each (range num_col) (λ x. concat_each (range 2) λ row.
      with_nodes create_bidir_edges (at g.nps_slr0_nodes x (row + 2)) (at g.nps_slr0_nodes x row))
    ∷ concat_each (range (num_col - 1)) (λ x. concat_each (range 4) λ row.
      with_nodes create_bidir_edges (at g.nps_slr0_nodes x row) (at g.nps_slr0_nodes (x + 1) row))
    ∷ [])
