-- ===== src/Bd/Hbm.antt =====
-- gen_vivado_bd.py: dut_hbm_mmap_tcl.
use rapidstream_noc.Common.{
  ℕ, suc, ◌+◌, ◌-◌, ◌*◌, ◌/◌, ◌%◌, List, [], ◌∷◌, ◌++◌, map, range, none, some, Bool, if◌then◌else◌,
  length, get_elem?, Result, ok, err, key_error, ◌>>=◌, Dict, str_of_int,
}
use rapidstream_noc.Common.Text.{Text, codes, str_of}
use rapidstream_noc.Select.{update_at}
use rapidstream_noc.Tcl.{join}
use rapidstream_noc.Bd.{MmapAttr, is_dedicated, less_100, interface}
use rapidstream_noc.Tcl.{lines}

-- The number of entries that pass a test: `sum(1 for v in ports.values() if test(v))`.
abbrev pub count_if : (MmapAttr → Bool) → Dict MmapAttr → ℕ
count_if test [] = 0
count_if test ((port, attr) ∷ ports) =
    if test attr then suc (count_if test ports) else count_if test ports

-- The first command, for the numbers of interfaces.
unfoldable pub hbm_interfaces : Dict MmapAttr → Text → Text
hbm_interfaces mmap_ports hbm_init_file =
    let num_hbm_nmu = count_if is_dedicated mmap_ports in
    lines (
      []
      ∷ codes "startgroup"
      ∷ []
      ∷ (codes "set_property -dict [list     CONFIG.NUM_HBM_BLI {"
          ++ str_of num_hbm_nmu
          ++ codes "}     CONFIG.NUM_SI {"
          ++ str_of (length mmap_ports - num_hbm_nmu)
          ++ codes "}     CONFIG.NUM_CLKS {1}     CONFIG.HBM_MEM_BACKDOOR_WRITE "
          ++ codes "{true}     CONFIG.HBM_MEM_INIT_FILE {"
          ++ hbm_init_file
          ++ codes "} ] $axi_noc_dut")
      ∷ []
      ∷ [])

-- The port of the HBM controller of a bank, for the number of its ports so far.
abbrev pub hbm_port : ℕ → ℕ → Text
hbm_port bank cnt =
    codes "HBM" ++ (str_of (bank / 2) ++ (codes "_PORT" ++ str_of (bank % 2 * 2 + cnt % 2)))

-- `hbm_bank_cnt[bank]`.
abbrev pub of_bank : List ℕ → ℕ → Result ℕ
of_bank hbm_bank_cnt bank = elim (get_elem? hbm_bank_cnt bank) [
  | none ↦ err key_error
  | some cnt ↦ ok cnt
]

-- The port for a bank, with the counters after it.
unfoldable pub get_hbm_noc_port : List ℕ → ℕ → Result (Text × List ℕ)
get_hbm_noc_port hbm_bank_cnt bank = do
  cnt ← of_bank hbm_bank_cnt bank
  counted ← update_at hbm_bank_cnt bank (λ n. ok (n + 1))
  ok (hbm_port bank cnt, counted)

-- What the loop has found out of the port with the number `i`.
pub record Connection : Type 0 where
  pub i : ℕ
  pub port : Text
  pub attr : MmapAttr
  pub noc_s_port : Text
  pub noc_m_port : Text

-- `nmu_port_cnt`.
pub record NmuPortCnt : Type 0 where
  pub reg : ℕ
  pub hbm : ℕ

abbrev pub hbm_nmu : ℕ → Text
hbm_nmu n = interface (codes "HBM") n (codes "_AXI")

abbrev pub regular_nmu : ℕ → Text
regular_nmu n = interface (codes "S") (n + 8) (codes "_AXI")

-- The slave interface of a port, with the counters after it.
abbrev pub noc_s_port_of : NmuPortCnt → MmapAttr → Text × NmuPortCnt
noc_s_port_of c attr =
    if is_dedicated attr
    then (hbm_nmu c.hbm, record c { hbm = c.hbm + 1 })
    else (regular_nmu c.reg, record c { reg = c.reg + 1 })

-- The loop over the ports, from the number of the next one.
unfoldable pub hbm_connections : ℕ → NmuPortCnt → List ℕ → Dict MmapAttr → Result (List Connection)
unfolding get_hbm_noc_port
hbm_connections i c hbm_bank_cnt [] = ok []
hbm_connections i c hbm_bank_cnt ((port, attr) ∷ ports) = do
  (noc_m_port, counted) ← get_hbm_noc_port hbm_bank_cnt attr.bank
  let (noc_s_port, after) = noc_s_port_of c attr
  rest ← hbm_connections (suc i) after counted ports
  ok (
      record { i = i; port = port; attr = attr; noc_s_port = noc_s_port; noc_m_port = noc_m_port }
      ∷ rest)

abbrev pub excl_group : Connection → Text
excl_group r = if is_dedicated r.attr then [] else str_of r.i

-- The commands for one port.
unfoldable pub hbm_connect : Connection → Text
hbm_connect r = lines (
    []
    ∷ (codes "set_property -dict [list CONFIG.CONNECTIONS {"
        ++ r.noc_m_port
        ++ codes " {     read_bw {"
        ++ str_of_int (less_100 r.attr.read_bw)
        ++ codes "}     write_bw {"
        ++ str_of_int (less_100 r.attr.write_bw)
        ++ codes "}     read_avg_burst {8}     write_avg_burst {8} \\")
    ∷ (codes "    # excl_group {" ++ excl_group r ++ codes "} \\")
    ∷ (codes "    sep_rt_group {"
        ++ str_of r.i
        ++ codes "} }}] [get_bd_intf_pins /axi_noc_dut/"
        ++ r.noc_s_port
        ++ codes "]")
    ∷ (codes "connect_bd_intf_net [get_bd_intf_pins $dut/"
        ++ r.port
        ++ codes "]     [get_bd_intf_pins /axi_noc_dut/"
        ++ r.noc_s_port
        ++ codes "]")
    ∷ []
    ∷ [])

-- The command that ties the interfaces to the clock.
unfoldable pub hbm_busif : Text → Text
hbm_busif s_busif_ports =
    codes "set_property -dict [list CONFIG.ASSOCIATED_BUSIF {"
    ++ s_busif_ports
    ++ codes "}]             [get_bd_pins /axi_noc_dut/aclk0]"

unfoldable pub dut_hbm_mmap_tcl : Dict MmapAttr → Text → Result (List Text)
unfolding hbm_connections hbm_interfaces hbm_connect hbm_busif
dut_hbm_mmap_tcl mmap_ports hbm_init_file = do
  rs ← hbm_connections 0 (record { reg = 0; hbm = 0 }) (map (λ _. 1) (range 32)) mmap_ports
  ok (
      hbm_interfaces mmap_ports hbm_init_file ∷ map hbm_connect rs
      ++ (hbm_busif (join (codes ":") (map (λ r. r.noc_s_port) rs)) ∷ codes "endgroup" ∷ []))
