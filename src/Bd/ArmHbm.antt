-- ===== src/Bd/ArmHbm.antt =====
-- vivado_bd_helper.py: arm_hbm_tcl.
use rapidstream_noc.Common.{
  ℕ, ◌+◌, ◌*◌, ◌/◌, ◌%◌, List, [], ◌∷◌, ◌++◌, Bool, if◌then◌else◌, ltb, leb, length, Result, ok,
  err, value_error, assertion_error, guard, map, ◌>>=◌, ◌>>◌, Dict,
}
use rapidstream_noc.Common.Text.{Text, codes, str_of}
use rapidstream_noc.Bd.{MmapAttr}
use rapidstream_noc.Tcl.{lines}

abbrev pub num_hbm_ctrl : ℕ
num_hbm_ctrl = 64

abbrev pub cips_to_hbm : Text
cips_to_hbm = lines (
    []
    ∷ (codes "set_property -dict [ list     CONFIG.CONNECTIONS {M00_INI { "
        ++ codes "read_bw {1} write_bw {1}} }     CONFIG.CATEGORY {ps_cci} ] "
        ++ codes "[get_bd_intf_pins /cips_noc/S00_AXI]")
    ∷ []
    ∷ (codes "set_property -dict [ list     CONFIG.CONNECTIONS {M00_INI { "
        ++ codes "read_bw {1} write_bw {1}} }     CONFIG.CATEGORY {ps_cci} ] "
        ++ codes "[get_bd_intf_pins /cips_noc/S01_AXI]")
    ∷ []
    ∷ (codes "set_property -dict [ list     CONFIG.CONNECTIONS {M00_INI { "
        ++ codes "read_bw {1} write_bw {1}} }     CONFIG.CATEGORY {ps_cci} ] "
        ++ codes "[get_bd_intf_pins /cips_noc/S02_AXI]")
    ∷ []
    ∷ (codes "set_property -dict [ list     CONFIG.CONNECTIONS {M00_INI { "
        ++ codes "read_bw {1} write_bw {1}} }     CONFIG.CATEGORY {ps_cci} ] "
        ++ codes "[get_bd_intf_pins /cips_noc/S03_AXI]")
    ∷ []
    ∷ (codes "set_property -dict [ list     CONFIG.CONNECTIONS {M00_INI { "
        ++ codes "read_bw {1} write_bw {0}} }     CONFIG.CATEGORY {ps_nci} ] "
        ++ codes "[get_bd_intf_pins /cips_noc/S04_AXI]")
    ∷ []
    ∷ (codes "set_property -dict [ list     CONFIG.CONNECTIONS {M00_INI { "
        ++ codes "read_bw {1} write_bw {0}} }     CONFIG.CATEGORY {ps_nci} ] "
        ++ codes "[get_bd_intf_pins /cips_noc/S05_AXI]")
    ∷ []
    ∷ (codes "set_property -dict [ list     CONFIG.CONNECTIONS {M00_INI { "
        ++ codes "read_bw {1} write_bw {0}} }     CONFIG.CATEGORY {ps_pmc} ] "
        ++ codes "[get_bd_intf_pins /cips_noc/S07_AXI]")
    ∷ []
    ∷ [])

abbrev pub fpd_rpu : Text
fpd_rpu = lines (
    []
    ∷ (codes "set_property -dict [ list     CONFIG.CONNECTIONS {M00_INI { "
        ++ codes "read_bw {1} write_bw {0}} }     CONFIG.CATEGORY {ps_rpu} ] "
        ++ codes "[get_bd_intf_pins /cips_noc/S06_AXI]")
    ∷ []
    ∷ [])

abbrev pub lpd_rpu : Text
lpd_rpu = lines (
    []
    ∷ (codes "set_property -dict [ list     CONFIG.CONNECTIONS {M00_AXI { "
        ++ codes "read_bw {0} write_bw {1}}                         M00_INI { "
        ++ codes "read_bw {1} write_bw {0}} }     CONFIG.CATEGORY {ps_rpu} ] "
        ++ codes "[get_bd_intf_pins /cips_noc/S06_AXI]")
    ∷ []
    ∷ [])

-- The largest bank of some ports.
abbrev pub max_bank : ℕ → Dict MmapAttr → ℕ
max_bank most [] = most
max_bank most ((port, attr) ∷ ports) =
    max_bank (if ltb most attr.bank then attr.bank else most) ports

-- `max(attr["bank"] for attr in mmap_ports.values())`.
abbrev pub max_of_banks : Dict MmapAttr → Result ℕ
max_of_banks [] = err value_error
max_of_banks ((port, attr) ∷ ports) = ok (max_bank attr.bank ports)

-- The command that creates the NoC, for the number of HBM channels.
unfoldable pub create_hbm_noc : ℕ → Text
create_hbm_noc hbm_chnl = lines (
    []
    ∷ codes "# Create instance: axi_noc_dut, and set properties"
    ∷ (codes "set axi_noc_dut [ create_bd_cell -type ip -vlnv "
        ++ codes "xilinx.com:ip:axi_noc:1.1 axi_noc_dut ]")
    ∷ (codes "set_property -dict [list     CONFIG.HBM_NUM_CHNL {"
        ++ str_of hbm_chnl
        ++ codes "}     CONFIG.NUM_CLKS {1}     CONFIG.NUM_HBM_BLI {0}     "
        ++ codes "CONFIG.NUM_MI {0}     CONFIG.NUM_NSI {1} ] $axi_noc_dut")
    ∷ []
    ∷ codes "set_property -dict [list     CONFIG.CONNECTIONS {"
    ∷ []
    ∷ [])

-- The first port of the HBM controller of a bank.
abbrev pub arm_hbm_port : ℕ → Text
arm_hbm_port bank = codes "HBM" ++ (str_of (bank / 2) ++ (codes "_PORT" ++ str_of (bank % 2 * 2)))

abbrev pub arm_connection : ℕ → Text
arm_connection bank =
    codes "    "
    ++ arm_hbm_port bank
    ++ codes " {read_bw {5} write_bw {0} read_avg_burst {4} write_avg_burst {4}}"

-- The banks that ARM reads: those of the ports that the design writes.
unfoldable pub read_banks : Dict MmapAttr → List ℕ
read_banks [] = []
read_banks ((port, attr) ∷ ports) =
    if ltb 0 attr.write_bw then attr.bank ∷ read_banks ports else read_banks ports

abbrev pub end_connections : Text
end_connections = lines (
    []
    ∷ codes "}] [get_bd_intf_pins $axi_noc_dut/S00_INI]"
    ∷ []
    ∷ codes "# Create interface connections"
    ∷ (codes "connect_bd_intf_net -intf_net cips_noc_M00_INI     "
        ++ codes "[get_bd_intf_pins cips_noc/M00_INI] [get_bd_intf_pins "
        ++ codes "axi_noc_dut/S00_INI]")
    ∷ []
    ∷ [])

unfoldable pub arm_hbm_tcl : Dict MmapAttr → Bool → Result (List Text)
unfolding create_hbm_noc read_banks
arm_hbm_tcl mmap_ports fpd = do
  most ← max_of_banks mmap_ports
  let hbm_chnl = (most + 1 + 1) / 2
  guard (leb (length mmap_ports) num_hbm_ctrl) assertion_error
  ok (
      cips_to_hbm
      ∷ (if fpd then fpd_rpu else lpd_rpu)
      ∷ create_hbm_noc hbm_chnl
      ∷ (map arm_connection (read_banks mmap_ports) ++ end_connections ∷ []))
