-- ===== src/Bd/Arm/CipsNoc.antt =====
-- vivado_bd_helper.py: the NoC, the interrupt controller, the reset and the control interface in arm_tcl.
use rapidstream_noc.Common.{[], ◌∷◌, ◌++◌}
use rapidstream_noc.Common.Text.{Text, codes}
use rapidstream_noc.Tcl.{lines}

abbrev pub cips_noc : Text
cips_noc = lines (
    []
    ∷ codes "# Create instance: cips_noc, and set properties"
    ∷ (codes "set cips_noc [ create_bd_cell -type ip -vlnv "
        ++ codes "xilinx.com:ip:axi_noc:1.1 cips_noc ]")
    ∷ (codes "set_property -dict [list     CONFIG.NUM_CLKS {9}     "
        ++ codes "CONFIG.NUM_MI {0}     CONFIG.NUM_NMI {1}     CONFIG.NUM_NSI {0}   "
        ++ codes "  CONFIG.NUM_SI {8} ] $cips_noc")
    ∷ []
    ∷ (codes "set_property CONFIG.ASSOCIATED_BUSIF {S00_AXI} [get_bd_pins "
        ++ codes "/cips_noc/aclk0]")
    ∷ (codes "set_property CONFIG.ASSOCIATED_BUSIF {S01_AXI} [get_bd_pins "
        ++ codes "/cips_noc/aclk1]")
    ∷ (codes "set_property CONFIG.ASSOCIATED_BUSIF {S02_AXI} [get_bd_pins "
        ++ codes "/cips_noc/aclk2]")
    ∷ (codes "set_property CONFIG.ASSOCIATED_BUSIF {S03_AXI} [get_bd_pins "
        ++ codes "/cips_noc/aclk3]")
    ∷ (codes "set_property CONFIG.ASSOCIATED_BUSIF {S04_AXI} [get_bd_pins "
        ++ codes "/cips_noc/aclk4]")
    ∷ (codes "set_property CONFIG.ASSOCIATED_BUSIF {S05_AXI} [get_bd_pins "
        ++ codes "/cips_noc/aclk5]")
    ∷ (codes "set_property CONFIG.ASSOCIATED_BUSIF {S06_AXI} [get_bd_pins "
        ++ codes "/cips_noc/aclk6]")
    ∷ (codes "set_property CONFIG.ASSOCIATED_BUSIF {S07_AXI} [get_bd_pins "
        ++ codes "/cips_noc/aclk7]")
    ∷ []
    ∷ codes "# Create interface connections"
    ∷ (codes "connect_bd_intf_net -intf_net CIPS_0_FPD_AXI_NOC_0     "
        ++ codes "[get_bd_intf_pins CIPS_0/FPD_AXI_NOC_0] [get_bd_intf_pins "
        ++ codes "cips_noc/S04_AXI]")
    ∷ (codes "connect_bd_intf_net -intf_net CIPS_0_FPD_AXI_NOC_1     "
        ++ codes "[get_bd_intf_pins CIPS_0/FPD_AXI_NOC_1] [get_bd_intf_pins "
        ++ codes "cips_noc/S05_AXI]")
    ∷ (codes "connect_bd_intf_net -intf_net CIPS_0_FPD_CCI_NOC_0     "
        ++ codes "[get_bd_intf_pins CIPS_0/FPD_CCI_NOC_0] [get_bd_intf_pins "
        ++ codes "cips_noc/S00_AXI]")
    ∷ (codes "connect_bd_intf_net -intf_net CIPS_0_FPD_CCI_NOC_1     "
        ++ codes "[get_bd_intf_pins CIPS_0/FPD_CCI_NOC_1] [get_bd_intf_pins "
        ++ codes "cips_noc/S01_AXI]")
    ∷ (codes "connect_bd_intf_net -intf_net CIPS_0_FPD_CCI_NOC_2     "
        ++ codes "[get_bd_intf_pins CIPS_0/FPD_CCI_NOC_2] [get_bd_intf_pins "
        ++ codes "cips_noc/S02_AXI]")
    ∷ (codes "connect_bd_intf_net -intf_net CIPS_0_FPD_CCI_NOC_3     "
        ++ codes "[get_bd_intf_pins CIPS_0/FPD_CCI_NOC_3] [get_bd_intf_pins "
        ++ codes "cips_noc/S03_AXI]")
    ∷ (codes "connect_bd_intf_net -intf_net CIPS_0_LPD_AXI_NOC_0     "
        ++ codes "[get_bd_intf_pins CIPS_0/LPD_AXI_NOC_0] [get_bd_intf_pins "
        ++ codes "cips_noc/S06_AXI]")
    ∷ (codes "connect_bd_intf_net -intf_net CIPS_0_PMC_NOC_AXI_0     "
        ++ codes "[get_bd_intf_pins CIPS_0/PMC_NOC_AXI_0] [get_bd_intf_pins "
        ++ codes "cips_noc/S07_AXI]")
    ∷ []
    ∷ codes "# Create port connections"
    ∷ (codes "connect_bd_net [get_bd_pins CIPS_0/fpd_axi_noc_axi0_clk] "
        ++ codes "[get_bd_pins cips_noc/aclk4]")
    ∷ (codes "connect_bd_net [get_bd_pins CIPS_0/fpd_axi_noc_axi1_clk] "
        ++ codes "[get_bd_pins cips_noc/aclk5]")
    ∷ (codes "connect_bd_net [get_bd_pins CIPS_0/fpd_cci_noc_axi0_clk] "
        ++ codes "[get_bd_pins cips_noc/aclk0]")
    ∷ (codes "connect_bd_net [get_bd_pins CIPS_0/fpd_cci_noc_axi1_clk] "
        ++ codes "[get_bd_pins cips_noc/aclk1]")
    ∷ (codes "connect_bd_net [get_bd_pins CIPS_0/fpd_cci_noc_axi2_clk] "
        ++ codes "[get_bd_pins cips_noc/aclk2]")
    ∷ (codes "connect_bd_net [get_bd_pins CIPS_0/fpd_cci_noc_axi3_clk] "
        ++ codes "[get_bd_pins cips_noc/aclk3]")
    ∷ (codes "connect_bd_net [get_bd_pins CIPS_0/lpd_axi_noc_clk] [get_bd_pins "
        ++ codes "cips_noc/aclk6]")
    ∷ (codes "connect_bd_net [get_bd_pins CIPS_0/pmc_axi_noc_axi0_clk]     "
        ++ codes "[get_bd_pins cips_noc/aclk7]")
    ∷ []
    ∷ []
    ∷ codes "# Create instance: axi_intc_0, and set properties"
    ∷ (codes "set axi_intc_0 [ create_bd_cell -type ip -vlnv "
        ++ codes "xilinx.com:ip:axi_intc:4.1 axi_intc_0 ]")
    ∷ (codes "set_property -dict [list     CONFIG.C_ASYNC_INTR {0xFFFFFFFF}     "
        ++ codes "CONFIG.C_IRQ_CONNECTION {1} ] $axi_intc_0")
    ∷ []
    ∷ codes "# Create instance: clk_wizard_0, and set properties"
    ∷ (codes "# set clk_wizard_0 [ create_bd_cell -type ip #     -vlnv "
        ++ codes "xilinx.com:ip:clk_wizard:1.0 clk_wizard_0 ]")
    ∷ (codes "# set_property -dict [list #     CONFIG.CLKOUT_DRIVES "
        ++ codes "{BUFG,BUFG,BUFG,BUFG,BUFG,BUFG,BUFG} #     CONFIG.CLKOUT_DYN_PS "
        ++ codes "{None,None,None,None,None,None,None} #     "
        ++ codes "CONFIG.CLKOUT_MATCHED_ROUTING "
        ++ codes "{false,false,false,false,false,false,false} #     "
        ++ codes "CONFIG.CLKOUT_PORT {clk_out1,clk_out2,clk_out3,clk_out4,clk_out5,c"
        ++ codes "lk_out6,clk_out7}#     CONFIG.CLKOUT_REQUESTED_DUTY_CYCLE #       "
        ++ codes "  {50.000,50.000,50.000,50.000,50.000,50.000,50.000} #     "
        ++ codes "CONFIG.CLKOUT_REQUESTED_OUT_FREQUENCY #         "
        ++ codes "{300.000,250.000,200.000,100.000,100.000,100.000,100.000} #     "
        ++ codes "CONFIG.CLKOUT_REQUESTED_PHASE "
        ++ codes "{0.000,0.000,0.000,0.000,0.000,0.000,0.000} #     "
        ++ codes "CONFIG.CLKOUT_USED {true,false,false,false,false,false,false} #   "
        ++ codes "  CONFIG.JITTER_SEL {Min_O_Jitter} #     CONFIG.PRIM_SOURCE "
        ++ codes "{No_buffer} #     CONFIG.RESET_TYPE {ACTIVE_LOW} #     "
        ++ codes "CONFIG.USE_LOCKED {true} #     CONFIG.USE_PHASE_ALIGNMENT {true} "
        ++ codes "#     CONFIG.USE_RESET {true} # ] $clk_wizard_0")
    ∷ []
    ∷ []
    ∷ codes "# Create instance: proc_sys_reset_0, and set properties"
    ∷ (codes "set proc_sys_reset_0 [ create_bd_cell -type ip     -vlnv "
        ++ codes "xilinx.com:ip:proc_sys_reset:5.0 proc_sys_reset_0 ]")
    ∷ []
    ∷ codes "# Create instance: icn_ctrl, and set properties"
    ∷ (codes "set icn_ctrl [ create_bd_cell -type ip -vlnv "
        ++ codes "xilinx.com:ip:smartconnect:1.0 icn_ctrl ]")
    ∷ (codes "set_property -dict [list     CONFIG.NUM_CLKS {1}     "
        ++ codes "CONFIG.NUM_MI {2}     CONFIG.NUM_SI {1} ] $icn_ctrl")
    ∷ []
    ∷ codes "# Create interface connections"
    ∷ (codes "connect_bd_intf_net -intf_net icn_ctrl_M00_AXI     "
        ++ codes "[get_bd_intf_pins axi_intc_0/s_axi] [get_bd_intf_pins "
        ++ codes "icn_ctrl/M00_AXI]")
    ∷ []
    ∷ codes "# Create port connections"
    ∷ (codes "connect_bd_net -net axi_intc_0_irq     [get_bd_pins "
        ++ codes "axi_intc_0/irq] [get_bd_pins CIPS_0/pl_ps_irq8]")
    ∷ (codes "connect_bd_net -net proc_sys_reset_0_peripheral_aresetn     "
        ++ codes "[get_bd_pins proc_sys_reset_0/peripheral_aresetn]     "
        ++ codes "[get_bd_pins icn_ctrl/aresetn] [get_bd_pins "
        ++ codes "axi_intc_0/s_axi_aresetn]")
    ∷ []
    ∷ codes "# with clk_wizard"
    ∷ (codes "# connect_bd_net #     [get_bd_pins CIPS_0/pl0_ref_clk] "
        ++ codes "[get_bd_pins clk_wizard_0/clk_in1]")
    ∷ (codes "# connect_bd_net [get_bd_pins CIPS_0/pl0_resetn] #     "
        ++ codes "[get_bd_pins clk_wizard_0/resetn] [get_bd_pins "
        ++ codes "proc_sys_reset_0/ext_reset_in]")
    ∷ (codes "# connect_bd_net -net clk_wizard_0_clk_out1 [get_bd_pins "
        ++ codes "clk_wizard_0/clk_out1] #     [get_bd_pins axi_intc_0/s_axi_aclk] "
        ++ codes "[get_bd_pins icn_ctrl/aclk] #     [get_bd_pins "
        ++ codes "proc_sys_reset_0/slowest_sync_clk]")
    ∷ (codes "# connect_bd_net -net clk_wizard_0_locked #     [get_bd_pins "
        ++ codes "clk_wizard_0/locked] [get_bd_pins proc_sys_reset_0/dcm_locked]")
    ∷ []
    ∷ codes "# no clk_wizard"
    ∷ (codes "connect_bd_net [get_bd_pins CIPS_0/pl0_resetn]     [get_bd_pins "
        ++ codes "proc_sys_reset_0/ext_reset_in]")
    ∷ (codes "connect_bd_net [get_bd_pins CIPS_0/pl0_ref_clk]     [get_bd_pins "
        ++ codes "axi_intc_0/s_axi_aclk] [get_bd_pins icn_ctrl/aclk]     "
        ++ codes "[get_bd_pins proc_sys_reset_0/slowest_sync_clk]")
    ∷ []
    ∷ [])

-- With the interface of the full-power domain.
abbrev pub fpd_control : Text
fpd_control = lines (
    []
    ∷ (codes "connect_bd_intf_net -intf_net CIPS_0_M_AXI_GP0     "
        ++ codes "[get_bd_intf_pins CIPS_0/M_AXI_FPD] [get_bd_intf_pins "
        ++ codes "icn_ctrl/S00_AXI]")
    ∷ (codes "connect_bd_net [get_bd_pins CIPS_0/pl0_ref_clk] [get_bd_pins "
        ++ codes "CIPS_0/m_axi_fpd_aclk]")
    ∷ codes "# if clk_wizard"
    ∷ (codes "# connect_bd_net [get_bd_pins clk_wizard_0/clk_out1] [get_bd_pins "
        ++ codes "CIPS_0/m_axi_fpd_aclk]")
    ∷ []
    ∷ [])

-- With the interface of the low-power domain, over the NoC.
abbrev pub lpd_control : Text
lpd_control = lines (
    []
    ∷ codes "set_property CONFIG.NUM_MI {1} $cips_noc"
    ∷ (codes "set_property -dict [ list     CONFIG.CONNECTIONS {         "
        ++ codes "M00_AXI { read_bw {0} write_bw {1}}         M00_INI { read_bw {1} "
        ++ codes "write_bw {0}} }     CONFIG.CATEGORY {ps_rpu} ] [get_bd_intf_pins "
        ++ codes "/cips_noc/S06_AXI]")
    ∷ []
    ∷ (codes "connect_bd_intf_net -intf_net CIPS_0_M_AXI_GP0     "
        ++ codes "[get_bd_intf_pins /cips_noc/M00_AXI] [get_bd_intf_pins "
        ++ codes "icn_ctrl/S00_AXI]")
    ∷ (codes "connect_bd_net [get_bd_pins CIPS_0/pl0_ref_clk] [get_bd_pins "
        ++ codes "/cips_noc/aclk8]")
    ∷ (codes "set_property CONFIG.ASSOCIATED_BUSIF M00_AXI [get_bd_pins "
        ++ codes "/cips_noc/aclk8]")
    ∷ []
    ∷ [])
