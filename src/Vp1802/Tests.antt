-- ===== src/Vp1802/Tests.antt =====
-- Small graphs of the VP1802's builder, and the theorem at the numbers of the device.
use rapidstream_noc.Common.{
  ◌≡◌, refl, [], ◌∷◌, All, length, arith, ok, Returns, ◌>>=◌, concat_each, err, index_error,
  assertion_error,
}
use rapidstream_noc.Common.Text.{str_of, text_eq}
use rapidstream_noc.Graph.{init, add_edges}
use rapidstream_noc.Fabric.{
  create_nmu_nsu_edges, cross_slr_edges, ncrb_row_edges, create_nps_slr0_edges,
}
use rapidstream_noc.Fabric.Layout.{IsLink}
use rapidstream_noc.Vp1802.{
  build, vp1802_edges, create_nps_hnoc_edges, hnoc_round, create_ncrb_edges,
}
use rapidstream_noc.Vp1802.Links.{vp1802_build-IsLink}

program : Unit {0}
unfolding build init add_edges vp1802_edges create_nmu_nsu_edges create_nps_hnoc_edges hnoc_round
    cross_slr_edges create_ncrb_edges ncrb_row_edges create_nps_slr0_edges str_of text_eq
    concat_each
program = tt

-- One SLR with one column of seven rows: 78 edges.
one_column : (build 1 1 (7 ∷ []) >>= λ g. ok (length g.edges)) ≡ ok 78
unfolding program
one_column = refl

-- With six rows the stride 7 of `create_nps_hnoc_edges` leaves the column.
too_few_rows : (build 1 1 (6 ∷ []) >>= λ g. ok (length g.edges)) ≡ err index_error
unfolding program
too_few_rows = refl

rows_missing : (build 2 1 (7 ∷ []) >>= λ g. ok (length g.edges)) ≡ err assertion_error
unfolding program
rows_missing = refl

vp1802_build-IsLink_example : Returns (λ g. All (IsLink g) g.edges) (build 4 4 (7 ∷ 6 ∷ 6 ∷ 6 ∷ []))
vp1802_build-IsLink_example =
    vp1802_build-IsLink 4 4 (7 ∷ 6 ∷ 6 ∷ 6 ∷ []) (omega arith) refl (omega arith)
