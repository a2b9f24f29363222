-- ===== src/Bd/Arm.antt =====
-- vivado_bd_helper.py: proc_tcl, arm_tcl, arm_ddr_tcl and assign_arm_bd_address.
pub mod VhkCips
pub mod VpkCips
pub mod CipsNoc
pub mod Lpddr
use rapidstream_noc.Common.{List, [], ◌∷◌, ◌++◌, Bool, if◌then◌else◌}
use rapidstream_noc.Common.Text.{Text, codes}
use rapidstream_noc.Tcl.{lines}
use rapidstream_noc.Bd.Arm.VhkCips.{vhk_cips}
use rapidstream_noc.Bd.Arm.VpkCips.{vpk_cips}
use rapidstream_noc.Bd.Arm.CipsNoc.{cips_noc, fpd_control, lpd_control}
use rapidstream_noc.Bd.Arm.Lpddr.{cips_to_ddr, fpd_rpu, lpd_rpu, ddr_nocs}

unfoldable pub proc_tcl : List Text
proc_tcl =
    (lines (
      []
      ∷ codes "proc concat_axi_pins { cell } {"
      ∷ codes "    set pins [get_bd_intf_pins -of $cell]"
      ∷ codes "    set result []"
      ∷ []
      ∷ codes "    foreach pin $pins {"
      ∷ codes "        set last_word [lindex [split $pin /] end]"
      ∷ codes "        lappend result $last_word"
      ∷ codes "    }"
      ∷ []
      ∷ codes "    set final_result [join $result :]"
      ∷ codes "    return $final_result"
      ∷ codes "}"
      ∷ []
      ∷ codes "proc get_bd_clk_pins { cell } {"
      ∷ codes "    set result [get_bd_pins -of $cell -filter {TYPE == clk}]"
      ∷ codes "    return $result"
      ∷ codes "}"
      ∷ []
      ∷ codes "proc get_bd_rst_pins { cell } {"
      ∷ codes "    set result [get_bd_pins -of $cell -filter {TYPE == rst}]"
      ∷ codes "    return $result"
      ∷ codes "}"
      ∷ []
      ∷ []
      ∷ []))
    ∷ []

abbrev pub create_design : Text → Text
create_design bd_name = lines (
    []
    ∷ codes "# Create block design"
    ∷ (codes "set top_bd_file [get_files " ++ bd_name ++ codes ".bd]")
    ∷ codes "if {[llength $top_bd_file] > 0} {"
    ∷ codes "    remove_files $top_bd_file"
    ∷ codes "}"
    ∷ (codes "create_bd_design \"" ++ bd_name ++ codes "\"")
    ∷ codes "update_compile_order -fileset sources_1"
    ∷ []
    ∷ codes "# Create instance: CIPS_0"
    ∷ (codes "set CIPS_0 [ create_bd_cell -type ip -vlnv "
        ++ codes "xilinx.com:ip:versal_cips:3.4 CIPS_0 ]")
    ∷ []
    ∷ [])

abbrev pub pl0_frequency : Text → Text
pl0_frequency frequency = lines (
    []
    ∷ (codes "set_property -dict [list CONFIG.PS_PMC_CONFIG {     "
        ++ codes "PMC_CRP_PL0_REF_CTRL_FREQMHZ {"
        ++ frequency
        ++ codes "}")
    ∷ codes "} ] $CIPS_0"
    ∷ []
    ∷ [])

unfoldable pub arm_tcl : Text → Text → Bool → Bool → List Text
arm_tcl bd_name frequency hbm fpd =
    create_design bd_name
    ∷ (if hbm then vhk_cips else vpk_cips)
    ∷ pl0_frequency frequency
    ∷ ((if fpd
          then []
          else (codes "set_property CONFIG.PS_PMC_CONFIG {PS_USE_M_AXI_FPD {0}} $CIPS_0") ∷ [])
        ++ cips_noc ∷ (if fpd then fpd_control else lpd_control) ∷ [])

unfoldable pub arm_ddr_tcl : Bool → List Text
arm_ddr_tcl fpd = cips_to_ddr ∷ (if fpd then fpd_rpu else lpd_rpu) ∷ ddr_nocs ∷ []

unfoldable pub assign_arm_bd_address : Bool → List Text
assign_arm_bd_address hbm =
    (lines (
      []
      ∷ codes "# https://support.xilinx.com/s/article/000036160?language=en_US"
      ∷ codes "::bd::util_cmd enable_smm"
      ∷ (if hbm then codes "::bd::util_cmd revert_smm" else [])
      ∷ []
      ∷ codes "# Auto-assigns all"
      ∷ codes "assign_bd_address"
      ∷ []
      ∷ []))
    ∷ []
