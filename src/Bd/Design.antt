-- ===== src/Bd/Design.antt =====
-- gen_vivado_bd.py: dut_tcl, connect_dut_arm_ddr_tcl, connect_dut_arm_hbm_tcl, gen_arm_bd_ddr and gen_arm_bd_hbm.
use rapidstream_noc.Common.{
  List, [], ◌∷◌, ◌++◌, Bool, true, false, if◌then◌else◌, Result, ok, ◌>>=◌, Dict, item,
}
use rapidstream_noc.Common.Text.{Text, codes}
use rapidstream_noc.Bd.{MmapAttr}
use rapidstream_noc.Tcl.{lines}
use rapidstream_noc.Bd.Hbm.{dut_hbm_mmap_tcl}
use rapidstream_noc.Bd.Ddr.{dut_ddr_mmap_tcl}
use rapidstream_noc.Bd.Stream.{StreamAttr, dut_stream_noc_tcl}
use rapidstream_noc.Bd.Arm.{proc_tcl, arm_tcl, arm_ddr_tcl, assign_arm_bd_address}
use rapidstream_noc.Bd.ArmHbm.{arm_hbm_tcl}

-- The command that adds the design.
unfoldable pub add_dut : Text → Text
add_dut top_mod = lines (
    []
    ∷ codes "# ======================= Adding DUT ======================="
    ∷ []
    ∷ codes "startgroup"
    ∷ codes "# Add RTL module to BD"
    ∷ (codes "set dut [create_bd_cell -type module -reference " ++ top_mod ++ codes " dut_0]")
    ∷ []
    ∷ codes "# Associate AXI interfaces to clock"
    ∷ codes "# Assumes there is one clock and all AXI pins use the same clock"
    ∷ (codes "set_property CONFIG.ASSOCIATED_BUSIF [concat_axi_pins $dut] "
        ++ codes "[get_bd_clk_pins $dut]")
    ∷ codes "endgroup"
    ∷ []
    ∷ [])

-- The clock of the NoC of the streams, if there are any.
abbrev pub stream_clock : Dict StreamAttr → List Text
stream_clock [] = []
stream_clock (_ ∷ _) =
    (codes "connect_bd_net [get_bd_pins axis_noc_dut/aclk0]                 "
      ++ codes "[get_bd_pins CIPS_0/pl0_ref_clk]")
    ∷ []

unfoldable pub connect_dut_arm_ddr_tcl : Dict StreamAttr → List Text
connect_dut_arm_ddr_tcl stream_attr =
    (lines (
      []
      ∷ codes "# Create external clk port for simulation"
      ∷ (codes "set pl0_ref_clk_0 [ create_bd_port -dir O -type clk pl0_ref_clk_0 " ++ codes "]")
      ∷ (codes "connect_bd_net [get_bd_pins CIPS_0/pl0_ref_clk] [get_bd_ports "
          ++ codes "pl0_ref_clk_0]")
      ∷ []
      ∷ (codes "# connect_bd_net [get_bd_pins clk_wizard_0/clk_out1] "
          ++ codes "[get_bd_clk_pins $dut] #     [get_bd_pins axi_noc_dut/aclk0]")
      ∷ (codes "connect_bd_net [get_bd_pins CIPS_0/pl0_ref_clk] [get_bd_clk_pins "
          ++ codes "$dut]     [get_bd_pins axi_noc_dut_1/aclk0] [get_bd_pins "
          ++ codes "axi_noc_dut_2/aclk0]     [get_bd_pins axi_noc_dut_3/aclk0]")
      ∷ (codes "connect_bd_net [get_bd_pins proc_sys_reset_0/peripheral_aresetn] "
          ++ codes "[get_bd_rst_pins $dut]")
      ∷ (codes "connect_bd_intf_net [get_bd_intf_pins icn_ctrl/M01_AXI]     "
          ++ codes "[get_bd_intf_pins dut_0/s_axi_control]")
      ∷ (codes "connect_bd_net [get_bd_pins dut_0/interrupt] [get_bd_pins "
          ++ codes "axi_intc_0/intr]")
      ∷ []
      ∷ []))
    ∷ stream_clock stream_attr

unfoldable pub connect_dut_arm_hbm_tcl : Dict StreamAttr → List Text
connect_dut_arm_hbm_tcl stream_attr =
    (lines (
      []
      ∷ codes "# Create external clk and reset ports for simulation"
      ∷ (codes "set pl0_ref_clk_0 [ create_bd_port -dir O -type clk pl0_ref_clk_0 " ++ codes "]")
      ∷ (codes "connect_bd_net [get_bd_pins CIPS_0/pl0_ref_clk] [get_bd_ports "
          ++ codes "pl0_ref_clk_0]")
      ∷ []
      ∷ (codes "# connect_bd_net [get_bd_pins clk_wizard_0/clk_out1] "
          ++ codes "[get_bd_clk_pins $dut] #     [get_bd_pins $axi_noc_dut/aclk0]")
      ∷ (codes "connect_bd_net [get_bd_pins CIPS_0/pl0_ref_clk] [get_bd_clk_pins "
          ++ codes "$dut]     [get_bd_pins $axi_noc_dut/aclk0]")
      ∷ (codes "connect_bd_net [get_bd_pins proc_sys_reset_0/peripheral_aresetn] "
          ++ codes "[get_bd_rst_pins $dut]")
      ∷ (codes "connect_bd_intf_net [get_bd_intf_pins icn_ctrl/M01_AXI]     "
          ++ codes "[get_bd_intf_pins dut_0/s_axi_control]")
      ∷ (codes "connect_bd_net [get_bd_pins dut_0/interrupt] [get_bd_pins "
          ++ codes "axi_intc_0/intr]")
      ∷ []
      ∷ []))
    ∷ stream_clock stream_attr

-- The commands of the streams, if there are any.
abbrev pub streams_tcl : Dict StreamAttr → Result (List Text)
streams_tcl [] = ok []
streams_tcl (s ∷ streams) = dut_stream_noc_tcl (s ∷ streams)

unfoldable pub dut_tcl : Text → Dict MmapAttr → Dict StreamAttr → Bool → Text → Result (List Text)
unfolding add_dut dut_hbm_mmap_tcl dut_ddr_mmap_tcl dut_stream_noc_tcl
dut_tcl top_mod mmap_ports stream_attr hbm hbm_init_file = do
  mmap ← (if hbm then dut_hbm_mmap_tcl mmap_ports hbm_init_file else dut_ddr_mmap_tcl mmap_ports)
  streams ← streams_tcl stream_attr
  ok (add_dut top_mod ∷ (mmap ++ streams))

unfoldable pub gen_arm_bd_ddr :
    Dict Text → Dict MmapAttr → Dict StreamAttr → Bool → Result (List Text)
unfolding proc_tcl arm_tcl arm_ddr_tcl dut_tcl connect_dut_arm_ddr_tcl assign_arm_bd_address
gen_arm_bd_ddr bd_attr mmap_ports stream_attr fpd = do
  bd_name ← item (codes "bd_name") bd_attr
  frequency ← item (codes "frequency") bd_attr
  top_mod ← item (codes "top_mod") bd_attr
  hbm_init_file ← item (codes "hbm_init_file") bd_attr
  dut ← dut_tcl top_mod mmap_ports stream_attr false hbm_init_file
  ok (
      proc_tcl
      ++ arm_tcl bd_name frequency false fpd
      ++ arm_ddr_tcl fpd
      ++ dut
      ++ connect_dut_arm_ddr_tcl stream_attr
      ++ assign_arm_bd_address false)

unfoldable pub gen_arm_bd_hbm :
    Dict Text → Dict MmapAttr → Dict StreamAttr → Bool → Result (List Text)
unfolding proc_tcl arm_tcl arm_hbm_tcl dut_tcl connect_dut_arm_hbm_tcl assign_arm_bd_address
gen_arm_bd_hbm bd_attr mmap_ports stream_attr fpd = do
  bd_name ← item (codes "bd_name") bd_attr
  frequency ← item (codes "frequency") bd_attr
  arm_hbm ← arm_hbm_tcl mmap_ports fpd
  top_mod ← item (codes "top_mod") bd_attr
  hbm_init_file ← item (codes "hbm_init_file") bd_attr
  dut ← dut_tcl top_mod mmap_ports stream_attr true hbm_init_file
  ok (
      proc_tcl
      ++ arm_tcl bd_name frequency true fpd
      ++ arm_hbm
      ++ dut
      ++ connect_dut_arm_hbm_tcl stream_attr
      ++ assign_arm_bd_address true)
