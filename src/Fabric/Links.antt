-- ===== src/Fabric/Links.antt =====
-- On a laid-out graph the shared loops raise nothing, and yield edges between its nodes.
use mathlib.Core.List.Memᴰ
use mathlib.Core.List.{Memᴰ}
use rapidstream_noc.Common.{
  ℕ, ◌+◌, ◌-◌, ◌*◌, ◌<◌, ◌≤◌, ◌≡◌, inl, inr, refl, sym, ap, ◌∙◌, List, [], ◌∷◌, sum, take, take_all,
  length, All, arith, true, elem, elem_of_Memᴰ, Memᴰ-range_from, Bool-cases, if◌then◌else◌, ok,
  Returns, range,
}
use rapidstream_noc.Common.Text.{codes}
use rapidstream_noc.Common.Text.Equality.{ne_of_clash}
use rapidstream_noc.Graph.{NocGraph, in_turn, with_nodes, at}
use rapidstream_noc.Fabric.{
  rows_above_boundary, create_bidir_edges, create_nmu_nsu_edges, cross_slr_edges, ncrb_row_edges,
  create_nps_slr0_edges,
}
use rapidstream_noc.Fabric.Layout.{
  IsLaidOut, IsLink, bidir-IsLink, one-IsLink, loop-IsLink, steps-IsLink, nmu-Spot, nsu-Spot,
  vnoc-Spot, hnoc-Spot, slr0-Spot, ncrb-Spot, node_name-ne,
}

-- The last row of a column ends an SLR.
top_row_is_boundary :
    (rows_per_slr : List ℕ)
    → 0 < sum rows_per_slr
    → elem (sum rows_per_slr) (rows_above_boundary rows_per_slr) ≡ true
top_row_is_boundary [] h = elim h [ ]
top_row_is_boundary (n ∷ ns) h =
    elem_of_Memᴰ (sum rows) (rows_above_boundary rows)
      (Memᴰ.cast last (Memᴰ.map (λ i. sum (take (i + 1) rows)) in_range))
  where
    rows : List ℕ
    rows = n ∷ ns

    last : sum rows ≡ sum (take (length ns + 1) rows)
    last =
        ap sum (sym (take_all rows)) ∙ ap (λ k. sum (take k rows)) {x = length rows} (omega arith)

    in_range : Memᴰ (length ns) (range (length rows))
    in_range = (Memᴰ-range_from (length ns) 0 (length rows)).1 (omega arith, omega arith)

module _ (g : NocGraph) {num_col num_row num_inter_rows : ℕ}
    (l : IsLaidOut g num_col num_row num_inter_rows) where
  pub create_nmu_nsu_edges-IsLink :
      (rows_per_slr : List ℕ)
      → sum rows_per_slr ≡ num_row
      → Returns (All (IsLink g)) (create_nmu_nsu_edges g num_col rows_per_slr)
  unfolding create_nmu_nsu_edges
  create_nmu_nsu_edges-IsLink rows_per_slr total = loop-IsLink g num_col _ λ x hx.
      loop-IsLink g (sum rows_per_slr) _ λ y hy. steps-IsLink g _ (
        bidir-IsLink g _ _ (nmu-Spot g l x y hx (omega arith))
            (vnoc-Spot g l x (y * 2 + 1) hx (omega arith)) (ne_of_clash _ _ refl),
        (
          bidir-IsLink g _ _ (nsu-Spot g l x y hx (omega arith))
              (vnoc-Spot g l x (y * 2) hx (omega arith)) (ne_of_clash _ _ refl),
          (
            bidir-IsLink g _ _ (vnoc-Spot g l x (y * 2) hx (omega arith))
                (vnoc-Spot g l x (y * 2 + 1) hx (omega arith))
                (node_name-ne (codes "nps_vnoc") x (y * 2) x (y * 2 + 1) (inr (omega arith))),
            (vertical x y hx hy, tt),
          ),
        ),
      )
    where
      vertical :
          (x y : ℕ)
          → x < num_col
          → y < sum rows_per_slr
          → Returns (All (IsLink g)) (
              if elem (y + 1) (rows_above_boundary rows_per_slr)
              then ok []
              else in_turn (
                  with_nodes create_bidir_edges
                    (at g.nps_vnoc_nodes x (y * 2))
                    (at g.nps_vnoc_nodes x ((y + 1) * 2))
                  ∷ with_nodes create_bidir_edges
                      (at g.nps_vnoc_nodes x (y * 2 + 1))
                      (at g.nps_vnoc_nodes x ((y + 1) * 2 + 1))
                  ∷ []))
      vertical x y hx hy = elim (Bool-cases (elem (y + 1) (rows_above_boundary rows_per_slr))) [
        | inl top ↦ rw top ([], refl, tt)
        | inr below ↦
            let room : y + 1 < num_row = ground (arith, top_row_is_boundary rows_per_slr) in
            rw below (
              steps-IsLink g _ (
                bidir-IsLink g _ _ (vnoc-Spot g l x (y * 2) hx (omega arith))
                    (vnoc-Spot g l x ((y + 1) * 2) hx (omega arith))
                    (node_name-ne (codes "nps_vnoc") x (y * 2) x ((y + 1) * 2) (inr (omega arith))),
                (
                  bidir-IsLink g _ _ (vnoc-Spot g l x (y * 2 + 1) hx (omega arith))
                      (vnoc-Spot g l x ((y + 1) * 2 + 1) hx (omega arith))
                      (node_name-ne (codes "nps_vnoc") x (y * 2 + 1) x ((y + 1) * 2 + 1)
                        (inr (omega arith))),
                  tt,
                ),
              ))
      ]

  pub cross_slr_edges-IsLink :
      (num_slr : ℕ)
      → num_slr * 4 ≤ num_inter_rows + 4
      → Returns (All (IsLink g)) (cross_slr_edges g num_slr num_col)
  unfolding cross_slr_edges
  cross_slr_edges-IsLink num_slr h = loop-IsLink g (num_slr - 1) _ λ slr hs.
      loop-IsLink g 2 _ λ r hr. loop-IsLink g num_col _ λ x hx.
        bidir-IsLink g _ _ (hnoc-Spot g l x (slr * 4 + r) hx (omega arith))
          (hnoc-Spot g l x (slr * 4 + r + 2) hx (omega arith))
          (node_name-ne (codes "nps_hnoc") x (slr * 4 + r) x (slr * 4 + r + 2) (inr (omega arith)))

  pub ncrb_row_edges-IsLink :
      (num_rows : ℕ)
      → num_rows * 2 ≤ num_inter_rows
      → Returns (All (IsLink g)) (ncrb_row_edges g num_rows num_col)
  unfolding ncrb_row_edges
  ncrb_row_edges-IsLink num_rows h = loop-IsLink g num_rows _ λ y hy.
      loop-IsLink g (num_col - 1) _ λ x hx.
        let c0 = ncrb-Spot g l x (y * 2) hx (omega arith) in
        let c1 = ncrb-Spot g l x (y * 2 + 1) hx (omega arith) in
        let w0 = hnoc-Spot g l x (y * 2) (omega arith) (omega arith) in
        let w1 = hnoc-Spot g l x (y * 2 + 1) (omega arith) (omega arith) in
        let e0 = hnoc-Spot g l (x + 1) (y * 2) (omega arith) (omega arith) in
        let e1 = hnoc-Spot g l (x + 1) (y * 2 + 1) (omega arith) (omega arith) in
        steps-IsLink g _ (
          one-IsLink g _ _ c0 w0 (ne_of_clash _ _ refl),
          (
            one-IsLink g _ _ c0 w1 (ne_of_clash _ _ refl),
            (
              one-IsLink g _ _ e0 c0 (ne_of_clash _ _ refl),
              (
                one-IsLink g _ _ e1 c0 (ne_of_clash _ _ refl),
                (
                  one-IsLink g _ _ w0 c1 (ne_of_clash _ _ refl),
                  (
                    one-IsLink g _ _ w1 c1 (ne_of_clash _ _ refl),
                    (
                      one-IsLink g _ _ c1 e0 (ne_of_clash _ _ refl),
                      (one-IsLink g _ _ c1 e1 (ne_of_clash _ _ refl), tt),
                    ),
                  ),
                ),
              ),
            ),
          ),
        )

  pub create_nps_slr0_edges-IsLink :
      0 < num_row → Returns (All (IsLink g)) (create_nps_slr0_edges g num_col)
  unfolding create_nps_slr0_edges
  create_nps_slr0_edges-IsLink h = steps-IsLink g _ (
    loop-IsLink g num_col _ (λ x hx. loop-IsLink g 2 _ λ y hy.
        bidir-IsLink g _ _ (slr0-Spot g l x y hx (omega arith)) (vnoc-Spot g l x y hx (omega arith))
          (ne_of_clash _ _ refl)),
    (
      loop-IsLink g num_col _ (λ x hx. loop-IsLink g 2 _ λ row hr.
          bidir-IsLink g _ _ (slr0-Spot g l x (row + 2) hx (omega arith))
            (slr0-Spot g l x row hx (omega arith))
            (node_name-ne (codes "nps_slr0") x (row + 2) x row (inr (omega arith)))),
      (
        loop-IsLink g (num_col - 1) _ (λ x hx. loop-IsLink g 4 _ λ row hr.
            bidir-IsLink g _ _ (slr0-Spot g l x row (omega arith) hr)
              (slr0-Spot g l (x + 1) row (omega arith) hr)
              (node_name-ne (codes "nps_slr0") x row (x + 1) row (inl (omega arith)))),
        tt,
      ),
    ),
  )
