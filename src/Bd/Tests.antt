-- ===== src/Bd/Tests.antt =====
-- Three memory-mapped ports, two of them on one bank, and one of these over the NoC.
use mathlib.Core.List.{Memᴰ}
use rapidstream_noc.Common.{
  ℕ, ◌/◌, ◌≤◌, ◌<◌, ◌≡◌, ◌≢◌, refl, [], ◌∷◌, ◌++◌, map, none, some, false, All, Returns, ok, err,
  key_error, index_error, arith, Dict,
}
use rapidstream_noc.Common.Text.{codes, str_of, digits}
use rapidstream_noc.Select.{update_at}
use rapidstream_noc.Tcl.{join}
use rapidstream_noc.Bd.{MmapAttr}
use rapidstream_noc.Common.{◌>>=◌}
use rapidstream_noc.Common.Text.{Text}
use rapidstream_noc.Bd.Hbm.{
  count_if, get_hbm_noc_port, hbm_connections, hbm_interfaces, hbm_connect, hbm_busif,
  dut_hbm_mmap_tcl,
}
use rapidstream_noc.Bd.Ddr.{each_mc, ddr_connect, each_busif, dut_ddr_mmap_tcl}
use rapidstream_noc.Bd.ArmHbm.{create_hbm_noc, arm_hbm_port, arm_hbm_tcl}
use rapidstream_noc.Bd.HbmCounters.{is_on}
use rapidstream_noc.Bd.HbmPorts.{connections_after, fresh, dut_hbm_mmap_tcl-connections}
use rapidstream_noc.Bd.HbmApart.{
  Distinct, hbm_interfaces-Distinct, hbm_ports-Distinct, hbm_ports_beside_arm,
}
use rapidstream_noc.Bd.HbmRefused.{dut_hbm_mmap_tcl_refused, arm_hbm_tcl-channels}
use rapidstream_noc.Bd.DdrPorts.{
  named, mc_counts, ddr_connections_after, dut_ddr_mmap_tcl-interfaces, dut_ddr_mmap_tcl_refused,
}

abbrev on_bank : ℕ → MmapAttr
on_bank b = record { bank = b; noc = none; read_bw = 1000; write_bw = 50 }

abbrev over_noc : ℕ → MmapAttr
over_noc b = record {
  bank = b;
  noc = some (codes "NOC_NMU512_X0Y0");
  read_bw = 1000;
  write_bw = 50;
}

abbrev ports : Dict MmapAttr
ports = (codes "m0", on_bank 3) ∷ (codes "m1", over_noc 3) ∷ (codes "m2", on_bank 6) ∷ []

abbrev large : Dict MmapAttr
large = (codes "m0", on_bank 3) ∷ (codes "m1", on_bank 40) ∷ []

small : All (λ (port, attr). attr.bank < 32) ports
small = (omega arith, (omega arith, (omega arith, tt)))

interfaces_run :
    (hbm_connections 0 (record { reg = 0; hbm = 0 }) fresh ports >>= λ rs.
    ok (map {B = Text × Text} (λ r. (r.noc_s_port, r.noc_m_port)) rs))
    ≡ ok (
        (codes "HBM00_AXI", codes "HBM1_PORT3")
        ∷ (codes "S08_AXI", codes "HBM1_PORT2")
        ∷ (codes "HBM01_AXI", codes "HBM3_PORT1")
        ∷ [])
unfolding hbm_connections get_hbm_noc_port update_at str_of digits
interfaces_run = refl

dut_hbm_mmap_tcl-connections_example :
    dut_hbm_mmap_tcl ports (codes "a.mem")
    ≡ ok (
        hbm_interfaces ports (codes "a.mem") ∷ map hbm_connect (connections_after [] ports)
        ++ (hbm_busif (join (codes ":") (map (λ r. r.noc_s_port) (connections_after [] ports)))
            ∷ codes "endgroup"
            ∷ []))
dut_hbm_mmap_tcl-connections_example = dut_hbm_mmap_tcl-connections ports (codes "a.mem") small

hbm_interfaces-Distinct_example :
    Returns
      (λ rs. Distinct (map (λ r. r.noc_s_port) rs))
      (hbm_connections 0 (record { reg = 0; hbm = 0 }) fresh ports)
hbm_interfaces-Distinct_example = hbm_interfaces-Distinct ports small

at_most_two : (b : ℕ) → count_if (is_on b) ports ≤ 2
at_most_two b = ground arith

hbm_ports-Distinct_example :
    Returns
      (λ rs. Distinct (map (λ r. r.noc_m_port) rs))
      (hbm_connections 0 (record { reg = 0; hbm = 0 }) fresh ports)
hbm_ports-Distinct_example = hbm_ports-Distinct ports small at_most_two

abbrev apart : Dict MmapAttr
apart = (codes "m0", on_bank 3) ∷ (codes "m1", over_noc 2) ∷ []

at_most_one : (b : ℕ) → count_if (is_on b) apart ≤ 1
at_most_one b = ground arith

hbm_ports_beside_arm_example :
    Returns
      (λ rs. All (λ m. m ≢ arm_hbm_port 3) (map (λ r. r.noc_m_port) rs))
      (hbm_connections 0 (record { reg = 0; hbm = 0 }) fresh apart)
hbm_ports_beside_arm_example =
    hbm_ports_beside_arm apart 3 (omega arith, (omega arith, tt)) at_most_one

dut_hbm_mmap_tcl_refused_example : dut_hbm_mmap_tcl large (codes "a.mem") ≡ err key_error
dut_hbm_mmap_tcl_refused_example =
    dut_hbm_mmap_tcl_refused large (codes "a.mem") (codes "m1") (on_bank 40)
      (Memᴰ.tail (Memᴰ.head refl)) (omega arith)

arm_hbm_tcl-channels_example :
    Returns
      (λ tcl. (hbm_chnl : ℕ) × Memᴰ (create_hbm_noc hbm_chnl) tcl × (6 / 2 < hbm_chnl))
      (arm_hbm_tcl ports false)
arm_hbm_tcl-channels_example =
    arm_hbm_tcl-channels ports false (codes "m2") (on_bank 6)
      (Memᴰ.tail (Memᴰ.tail (Memᴰ.head refl))) (omega arith)

dut_ddr_mmap_tcl-interfaces_example :
    dut_ddr_mmap_tcl ports
    ≡ ok (
        each_mc 0 (mc_counts ports)
        ++ map ddr_connect (ddr_connections_after 0 [] ports)
        ++ each_busif 0 (named (mc_counts ports))
        ++ codes "endgroup" ∷ [])
dut_ddr_mmap_tcl-interfaces_example =
    dut_ddr_mmap_tcl-interfaces ports (omega arith, (omega arith, (omega arith, tt)))

dut_ddr_mmap_tcl_refused_run : dut_ddr_mmap_tcl large ≡ err index_error
dut_ddr_mmap_tcl_refused_run =
    dut_ddr_mmap_tcl_refused large (codes "m1") (on_bank 40) (Memᴰ.tail (Memᴰ.head refl))
      (omega arith)
