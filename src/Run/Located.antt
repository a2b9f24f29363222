-- ===== src/Run/Located.antt =====
-- The location constraints of memory-mapped ports name the interfaces that the block design connects.
use rapidstream_noc.Common.{
  suc, ◌+◌, ◌<◌, ◌≡◌, ◌≢◌, refl, ap, ◌∙◌, List, [], ◌∷◌, ◌++◌, Option, none, some, All, Returns,
  arith, Dict, if◌then◌else◌, true, false,
}
use rapidstream_noc.Common.Text.{Text, codes}
use rapidstream_noc.Tcl.{located, mmap_lines, print_mmap_noc_loc_tcl}
use rapidstream_noc.Bd.{MmapAttr}
use rapidstream_noc.Bd.Hbm.{count_if, regular_nmu, Connection, hbm_connections}
use rapidstream_noc.Bd.HbmCounters.{count_if-append}
use rapidstream_noc.Bd.HbmPorts.{
  is_over_noc, connection_after, connections_after, fresh, hbm_connections-fresh,
}
use rapidstream_noc.Run.Outputs.{located_nocs}

-- A constraint for each connection over the NoC: its node, and its interface.
abbrev pub constraints_of : List Connection → List Text
constraints_of [] = []
constraints_of (r ∷ rs) = elim r.attr.noc [
  | none ↦ constraints_of rs
  | some loc ↦ located loc (codes "/axi_noc_dut/" ++ r.noc_s_port) ∷ constraints_of rs
]

mmap_lines-after :
    (earlier ports : Dict MmapAttr)
    → All (λ (port, attr). attr.noc ≢ some []) ports
    → mmap_lines (count_if is_over_noc earlier) (located_nocs ports)
      ≡ constraints_of (connections_after earlier ports)
unfolding mmap_lines located_nocs
mmap_lines-after earlier [] _ = refl
mmap_lines-after earlier ((port, attr) ∷ ports) (named, all_named) =
    by_noc attr.noc refl named (count_if-append is_over_noc earlier port attr)
      (mmap_lines-after (earlier ++ (port, attr) ∷ []) ports all_named)
  where
    by_noc :
        (noc : Option Text)
        → attr.noc ≡ noc
        → attr.noc ≢ some []
        → count_if is_over_noc (earlier ++ (port, attr) ∷ [])
          ≡ (if is_over_noc attr then 1 else 0) + count_if is_over_noc earlier
        → mmap_lines (count_if is_over_noc (earlier ++ (port, attr) ∷ [])) (located_nocs ports)
          ≡ constraints_of (connections_after (earlier ++ (port, attr) ∷ []) ports)
        → mmap_lines (count_if is_over_noc earlier) (located_nocs ((port, attr) ∷ ports))
          ≡ constraints_of (connections_after earlier ((port, attr) ∷ ports))
    by_noc none is_noc some_name grown rest =
        let same : count_if is_over_noc earlier
            ≡ count_if is_over_noc (earlier ++ (port, attr) ∷ []) =
          let over : is_over_noc attr ≡ false = rw is_noc refl in omega (arith, rw over at grown) in
        rw is_noc (ap (λ n. mmap_lines n (located_nocs ports)) same ∙ rest)
    by_noc (some []) is_noc some_name grown rest = absurd (some_name is_noc)
    by_noc (some (c ∷ loc)) is_noc some_name grown rest =
        let one_more : suc (count_if is_over_noc earlier)
            ≡ count_if is_over_noc (earlier ++ (port, attr) ∷ []) =
          let over : is_over_noc attr ≡ true = rw is_noc refl in omega (arith, rw over at grown) in
        let slave_is : regular_nmu (count_if is_over_noc earlier)
            ≡ (connection_after earlier port attr).noc_s_port =
          rw is_noc refl in
        rw is_noc (
          ap
            (λ ls.
              located (c ∷ loc)
                (codes "/axi_noc_dut/" ++ regular_nmu (count_if is_over_noc earlier))
              ∷ ls)
            (ap (λ n. mmap_lines n (located_nocs ports)) one_more ∙ rest)
          ∙ ap
              (λ slave.
                located (c ∷ loc) (codes "/axi_noc_dut/" ++ slave)
                ∷ constraints_of (connections_after (earlier ++ (port, attr) ∷ []) ports))
              slave_is)

-- When every bank is below 32 and no node's name is empty, the constraints that print_mmap_noc_loc_tcl
-- gives for the nodes of the ports are, in order, for each port with a node the constraint of the
-- interface to which dut_hbm_mmap_tcl connects that port.
pub mmap_locations-interfaces :
    (ports : Dict MmapAttr)
    → All (λ (port, attr). attr.bank < 32) ports
    → All (λ (port, attr). attr.noc ≢ some []) ports
    → Returns
        (λ rs. print_mmap_noc_loc_tcl (located_nocs ports) ≡ constraints_of rs)
        (hbm_connections 0 (record { reg = 0; hbm = 0 }) fresh ports)
unfolding print_mmap_noc_loc_tcl
mmap_locations-interfaces ports small named =
    (connections_after [] ports, hbm_connections-fresh ports small, mmap_lines-after [] ports named)
