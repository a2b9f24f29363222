-- ===== src/Bd/Ddr.antt =====
-- gen_vivado_bd.py: dut_ddr_mmap_tcl.
use rapidstream_noc.Common.{
  ℕ, suc, ◌+◌, ◌/◌, ◌%◌, List, [], ◌∷◌, ◌++◌, map, if◌then◌else◌, Result, ok, ◌>>=◌, get_item, Dict,
  str_of_int,
}
use rapidstream_noc.Common.Text.{Text, codes, str_of}
use rapidstream_noc.Select.{update_at}
use rapidstream_noc.Tcl.{join}
use rapidstream_noc.Bd.{MmapAttr, is_dedicated, less_100, interface}
use rapidstream_noc.Tcl.{lines}

-- The loop that counts the ports of each memory controller.
unfoldable pub count_mcs : List ℕ → Dict MmapAttr → Result (List ℕ)
count_mcs ddr_mc_cnt [] = ok ddr_mc_cnt
count_mcs ddr_mc_cnt ((port, attr) ∷ ports) =
    update_at ddr_mc_cnt (attr.bank / 4) (λ n. ok (n + 1)) >>= λ counted. count_mcs counted ports

-- The command for the number of interfaces of a memory controller.
unfoldable pub ddr_interfaces : ℕ → ℕ → Text
ddr_interfaces i cnt = lines (
    []
    ∷ codes "# Create mmap noc"
    ∷ codes "startgroup"
    ∷ (codes "set_property -dict [list     CONFIG.NUM_SI {"
        ++ str_of cnt
        ++ codes "} ] $axi_noc_dut_"
        ++ str_of (i + 1))
    ∷ []
    ∷ [])

-- `enumerate(ddr_mc_cnt)`.
unfoldable pub each_mc : ℕ → List ℕ → List Text
unfolding ddr_interfaces
each_mc i [] = []
each_mc i (cnt ∷ cnts) = ddr_interfaces i cnt ∷ each_mc (suc i) cnts

-- What the loop has found out of the port with the number `i`.
pub record Connection : Type 0 where
  pub i : ℕ
  pub port : Text
  pub attr : MmapAttr
  pub mc : ℕ
  pub noc_s_port : Text
  pub noc_m_port : Text

abbrev pub ddr_si : ℕ → Text
ddr_si n = interface (codes "S") n (codes "_AXI")

-- The loop over the ports, from the number of the next one; its second result is `all_busif_ports`.
unfoldable pub ddr_connections :
    ℕ → List ℕ → List (List Text) → Dict MmapAttr → Result (List Connection × List (List Text))
ddr_connections i ddr_mc_cnt all_busif_ports [] = ok ([], all_busif_ports)
ddr_connections i ddr_mc_cnt all_busif_ports ((port, attr) ∷ ports) = do
  let mc = attr.bank / 4
  cnt ← get_item ddr_mc_cnt mc
  counted ← update_at ddr_mc_cnt mc (λ n. ok (n + 1))
  appended ← update_at all_busif_ports mc (λ names. ok (names ++ ddr_si cnt ∷ []))
  (rest, busifs) ← ddr_connections (suc i) counted appended ports
  ok (
    record {
      i = i;
      port = port;
      attr = attr;
      mc = mc;
      noc_s_port = ddr_si cnt;
      noc_m_port = codes "MC_" ++ str_of (attr.bank % 4);
    }
        ∷ rest,
    busifs,
  )

-- The commands for one port.
unfoldable pub ddr_connect : Connection → Text
ddr_connect r = lines (
    []
    ∷ (codes "set_property -dict [list CONFIG.CONNECTIONS {"
        ++ r.noc_m_port
        ++ codes " {     read_bw {"
        ++ str_of_int (less_100 r.attr.read_bw)
        ++ codes "}     write_bw {"
        ++ str_of_int (less_100 r.attr.write_bw)
        ++ codes "}     read_avg_burst {8}     write_avg_burst {8} \\")
    ∷ (codes "    # excl_group {"
        ++ (if is_dedicated r.attr then [] else str_of r.i)
        ++ codes "} \\")
    ∷ (codes "    sep_rt_group {" ++ str_of r.i ++ codes "} \\")
    ∷ (codes "}}] [get_bd_intf_pins /axi_noc_dut_"
        ++ str_of (r.mc + 1)
        ++ codes "/"
        ++ r.noc_s_port
        ++ codes "]")
    ∷ (codes "connect_bd_intf_net [get_bd_intf_pins $dut/"
        ++ r.port
        ++ codes "]     [get_bd_intf_pins /axi_noc_dut_"
        ++ str_of (r.mc + 1)
        ++ codes "/"
        ++ r.noc_s_port
        ++ codes "]")
    ∷ []
    ∷ [])

-- The command that ties the interfaces of a memory controller to the clock.
unfoldable pub ddr_busif : ℕ → List Text → Text
ddr_busif i busif =
    codes "set_property -dict [list CONFIG.ASSOCIATED_BUSIF {"
    ++ join (codes ":") busif
    ++ codes "}]                 [get_bd_pins /axi_noc_dut_"
    ++ str_of (i + 1)
    ++ codes "/aclk0]"

-- `enumerate(all_busif_ports)`.
unfoldable pub each_busif : ℕ → List (List Text) → List Text
unfolding ddr_busif
each_busif i [] = []
each_busif i ([] ∷ busifs) = each_busif (suc i) busifs
each_busif i ((n ∷ names) ∷ busifs) = ddr_busif i (n ∷ names) ∷ each_busif (suc i) busifs

unfoldable pub dut_ddr_mmap_tcl : Dict MmapAttr → Result (List Text)
unfolding count_mcs each_mc ddr_connections ddr_connect each_busif
dut_ddr_mmap_tcl mmap_ports = do
  counts ← count_mcs (0 ∷ 0 ∷ 0 ∷ []) mmap_ports
  (rs, all_busif_ports) ← ddr_connections 0 (0 ∷ 0 ∷ 0 ∷ []) ([] ∷ [] ∷ [] ∷ []) mmap_ports
  ok (
      each_mc 0 counts
      ++ map ddr_connect rs
      ++ each_busif 0 all_busif_ports
      ++ codes "endgroup" ∷ [])
