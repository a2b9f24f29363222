-- ===== src/Bd/Arm/Lpddr.antt =====
-- vivado_bd_helper.py: the commands of arm_ddr_tcl.
use rapidstream_noc.Common.{[], ◌∷◌, ◌++◌}
use rapidstream_noc.Common.Text.{Text, codes}
use rapidstream_noc.Tcl.{lines}

abbrev pub cips_to_ddr : Text
cips_to_ddr = lines (
    []
    ∷ codes "set_property -dict [list     CONFIG.NUM_NMI {3} ] $cips_noc"
    ∷ []
    ∷ (codes "set_property -dict [ list     CONFIG.CONNECTIONS {M00_INI { "
        ++ codes "read_bw {1} write_bw {1}}                         M01_INI { "
        ++ codes "read_bw {1} write_bw {1}}                         M02_INI { "
        ++ codes "read_bw {1} write_bw {1}} }     CONFIG.CATEGORY {ps_cci} ] "
        ++ codes "[get_bd_intf_pins /cips_noc/S00_AXI]")
    ∷ []
    ∷ (codes "set_property -dict [ list     CONFIG.CONNECTIONS {M00_INI { "
        ++ codes "read_bw {1} write_bw {1}}                         M01_INI { "
        ++ codes "read_bw {1} write_bw {1}}                         M02_INI { "
        ++ codes "read_bw {1} write_bw {1}} }     CONFIG.CATEGORY {ps_cci} ] "
        ++ codes "[get_bd_intf_pins /cips_noc/S01_AXI]")
    ∷ []
    ∷ (codes "set_property -dict [ list     CONFIG.CONNECTIONS {M00_INI { "
        ++ codes "read_bw {1} write_bw {1}}                         M01_INI { "
        ++ codes "read_bw {1} write_bw {1}}                         M02_INI { "
        ++ codes "read_bw {1} write_bw {1}} }     CONFIG.CATEGORY {ps_cci} ] "
        ++ codes "[get_bd_intf_pins /cips_noc/S02_AXI]")
    ∷ []
    ∷ (codes "set_property -dict [ list     CONFIG.CONNECTIONS {M00_INI { "
        ++ codes "read_bw {1} write_bw {1}}                         M01_INI { "
        ++ codes "read_bw {1} write_bw {1}}                         M02_INI { "
        ++ codes "read_bw {1} write_bw {1}} }     CONFIG.CATEGORY {ps_cci} ] "
        ++ codes "[get_bd_intf_pins /cips_noc/S03_AXI]")
    ∷ []
    ∷ (codes "set_property -dict [ list     CONFIG.CONNECTIONS {M00_INI { "
        ++ codes "read_bw {1} write_bw {0}}                         M01_INI { "
        ++ codes "read_bw {1} write_bw {0}}                         M02_INI { "
        ++ codes "read_bw {1} write_bw {0}} }     CONFIG.CATEGORY {ps_nci} ] "
        ++ codes "[get_bd_intf_pins /cips_noc/S04_AXI]")
    ∷ []
    ∷ (codes "set_property -dict [ list     CONFIG.CONNECTIONS {M00_INI { "
        ++ codes "read_bw {1} write_bw {0}}                         M01_INI { "
        ++ codes "read_bw {1} write_bw {0}}                         M02_INI { "
        ++ codes "read_bw {1} write_bw {0}} }     CONFIG.CATEGORY {ps_nci} ] "
        ++ codes "[get_bd_intf_pins /cips_noc/S05_AXI]")
    ∷ []
    ∷ (codes "set_property -dict [ list     CONFIG.CONNECTIONS {M00_INI { "
        ++ codes "read_bw {1} write_bw {0}}                         M01_INI { "
        ++ codes "read_bw {1} write_bw {0}}                         M02_INI { "
        ++ codes "read_bw {1} write_bw {0}} }     CONFIG.CATEGORY {ps_pmc} ] "
        ++ codes "[get_bd_intf_pins /cips_noc/S07_AXI]")
    ∷ []
    ∷ [])

abbrev pub fpd_rpu : Text
fpd_rpu = lines (
    []
    ∷ (codes "set_property -dict [ list     CONFIG.CONNECTIONS {M00_INI { "
        ++ codes "read_bw {1} write_bw {0}}                         M01_INI { "
        ++ codes "read_bw {1} write_bw {0}}                         M02_INI { "
        ++ codes "read_bw {1} write_bw {0}} }     CONFIG.CATEGORY {ps_rpu} ] "
        ++ codes "[get_bd_intf_pins /cips_noc/S06_AXI]")
    ∷ []
    ∷ [])

abbrev pub lpd_rpu : Text
lpd_rpu = lines (
    []
    ∷ (codes "set_property -dict [ list     CONFIG.CONNECTIONS {M00_AXI { "
        ++ codes "read_bw {0} write_bw {1}}                         M00_INI { "
        ++ codes "read_bw {1} write_bw {0}}                         M01_INI { "
        ++ codes "read_bw {1} write_bw {0}}                         M02_INI { "
        ++ codes "read_bw {1} write_bw {0}} }     CONFIG.CATEGORY {ps_rpu} ] "
        ++ codes "[get_bd_intf_pins /cips_noc/S06_AXI]")
    ∷ []
    ∷ [])

abbrev pub ddr_nocs : Text
ddr_nocs = lines (
    []
    ∷ codes "# Create interface ports"
    ∷ (codes "set ch0_lpddr4_trip1 [ create_bd_intf_port -mode Master     -vlnv "
        ++ codes "xilinx.com:interface:lpddr4_rtl:1.0 ch0_lpddr4_trip1 ]")
    ∷ []
    ∷ (codes "set ch1_lpddr4_trip1 [ create_bd_intf_port -mode Master     -vlnv "
        ++ codes "xilinx.com:interface:lpddr4_rtl:1.0 ch1_lpddr4_trip1 ]")
    ∷ []
    ∷ (codes "set lpddr4_clk1 [ create_bd_intf_port -mode Slave     -vlnv "
        ++ codes "xilinx.com:interface:diff_clock_rtl:1.0 lpddr4_clk1 ]")
    ∷ []
    ∷ (codes "set_property -dict [ list     CONFIG.FREQ_HZ {200321000} ] " ++ codes "$lpddr4_clk1")
    ∷ []
    ∷ (codes "set ch0_lpddr4_trip2 [ create_bd_intf_port -mode Master     -vlnv "
        ++ codes "xilinx.com:interface:lpddr4_rtl:1.0 ch0_lpddr4_trip2 ]")
    ∷ []
    ∷ (codes "set ch1_lpddr4_trip2 [ create_bd_intf_port -mode Master     -vlnv "
        ++ codes "xilinx.com:interface:lpddr4_rtl:1.0 ch1_lpddr4_trip2 ]")
    ∷ []
    ∷ (codes "set lpddr4_clk2 [ create_bd_intf_port -mode Slave     -vlnv "
        ++ codes "xilinx.com:interface:diff_clock_rtl:1.0 lpddr4_clk2 ]")
    ∷ []
    ∷ (codes "set_property -dict [ list     CONFIG.FREQ_HZ {200321000} ] " ++ codes "$lpddr4_clk2")
    ∷ []
    ∷ (codes "set ch0_lpddr4_trip3 [ create_bd_intf_port -mode Master     -vlnv "
        ++ codes "xilinx.com:interface:lpddr4_rtl:1.0 ch0_lpddr4_trip3 ]")
    ∷ []
    ∷ (codes "set ch1_lpddr4_trip3 [ create_bd_intf_port -mode Master     -vlnv "
        ++ codes "xilinx.com:interface:lpddr4_rtl:1.0 ch1_lpddr4_trip3 ]")
    ∷ []
    ∷ (codes "set lpddr4_clk3 [ create_bd_intf_port -mode Slave     -vlnv "
        ++ codes "xilinx.com:interface:diff_clock_rtl:1.0 lpddr4_clk3 ]")
    ∷ []
    ∷ (codes "set_property -dict [ list     CONFIG.FREQ_HZ {200321000} ] " ++ codes "$lpddr4_clk3")
    ∷ []
    ∷ []
    ∷ codes "# Create instance: axi_noc_dut_1, and set properties"
    ∷ (codes "set axi_noc_dut_1 [ create_bd_cell -type ip     -vlnv "
        ++ codes "xilinx.com:ip:axi_noc:1.1 axi_noc_dut_1 ]")
    ∷ (codes "set_property -dict [list     CONFIG.sys_clk0_BOARD_INTERFACE "
        ++ codes "{lpddr4_clk1}     CONFIG.CH0_LPDDR4_0_BOARD_INTERFACE "
        ++ codes "{ch0_lpddr4_trip1}     CONFIG.CH1_LPDDR4_0_BOARD_INTERFACE "
        ++ codes "{ch1_lpddr4_trip1}     CONFIG.MC_CHAN_REGION0 {DDR_CH1}     "
        ++ codes "CONFIG.MC_CHANNEL_INTERLEAVING {true}     "
        ++ codes "CONFIG.MC_CH_INTERLEAVING_SIZE {256_Bytes}     "
        ++ codes "CONFIG.MC_EN_INTR_RESP {TRUE}     CONFIG.NUM_MCP {4}     "
        ++ codes "CONFIG.NUM_CLKS {0}     CONFIG.NUM_MI {0}     CONFIG.NUM_NSI {1}  "
        ++ codes "   CONFIG.NUM_SI {0} ] $axi_noc_dut_1")
    ∷ []
    ∷ (codes "set_property -dict [ list     CONFIG.CONNECTIONS         {MC_3 { "
        ++ codes "read_bw {1} write_bw {1} read_avg_burst {8} write_avg_burst {8}} "
        ++ codes "} ] [get_bd_intf_pins /axi_noc_dut_1/S00_INI]")
    ∷ []
    ∷ []
    ∷ codes "# Create instance: axi_noc_dut_2, and set properties"
    ∷ (codes "set axi_noc_dut_2 [ create_bd_cell -type ip     -vlnv "
        ++ codes "xilinx.com:ip:axi_noc:1.1 axi_noc_dut_2]")
    ∷ (codes "set_property -dict [list     CONFIG.sys_clk0_BOARD_INTERFACE "
        ++ codes "{lpddr4_clk2}     CONFIG.CH0_LPDDR4_0_BOARD_INTERFACE "
        ++ codes "{ch0_lpddr4_trip2}     CONFIG.CH1_LPDDR4_0_BOARD_INTERFACE "
        ++ codes "{ch1_lpddr4_trip2}     CONFIG.MC_CHAN_REGION0 {DDR_CH2}     "
        ++ codes "CONFIG.MC_CHANNEL_INTERLEAVING {true}     "
        ++ codes "CONFIG.MC_CH_INTERLEAVING_SIZE {256_Bytes}     "
        ++ codes "CONFIG.MC_EN_INTR_RESP {TRUE}     CONFIG.NUM_MCP {4}     "
        ++ codes "CONFIG.NUM_CLKS {0}     CONFIG.NUM_MI {0}     CONFIG.NUM_NSI {1}  "
        ++ codes "   CONFIG.NUM_SI {0} ] $axi_noc_dut_2")
    ∷ []
    ∷ (codes "set_property -dict [ list     CONFIG.CONNECTIONS {MC_0         { "
        ++ codes "read_bw {1} write_bw {1} read_avg_burst {8} write_avg_burst {8}} "
        ++ codes "} ] [get_bd_intf_pins /axi_noc_dut_2/S00_INI]")
    ∷ []
    ∷ []
    ∷ codes "# Create instance: axi_noc_dut_3, and set properties"
    ∷ (codes "set axi_noc_dut_3 [ create_bd_cell -type ip     -vlnv "
        ++ codes "xilinx.com:ip:axi_noc:1.1 axi_noc_dut_3]")
    ∷ (codes "set_property -dict [list     CONFIG.sys_clk0_BOARD_INTERFACE "
        ++ codes "{lpddr4_clk3}     CONFIG.CH0_LPDDR4_0_BOARD_INTERFACE "
        ++ codes "{ch0_lpddr4_trip3}     CONFIG.CH1_LPDDR4_0_BOARD_INTERFACE "
        ++ codes "{ch1_lpddr4_trip3}     CONFIG.MC_CHAN_REGION0 {DDR_CH3}     "
        ++ codes "CONFIG.MC_CHANNEL_INTERLEAVING {true}     "
        ++ codes "CONFIG.MC_CH_INTERLEAVING_SIZE {256_Bytes}     "
        ++ codes "CONFIG.MC_EN_INTR_RESP {TRUE}     CONFIG.NUM_MCP {4}     "
        ++ codes "CONFIG.NUM_CLKS {0}     CONFIG.NUM_MI {0}     CONFIG.NUM_NSI {1}  "
        ++ codes "   CONFIG.NUM_SI {0} ] $axi_noc_dut_3")
    ∷ []
    ∷ (codes "set_property -dict [ list     CONFIG.CONNECTIONS {MC_2         { "
        ++ codes "read_bw {1} write_bw {1} read_avg_burst {8} write_avg_burst {8}} "
        ++ codes "} ] [get_bd_intf_pins /axi_noc_dut_3/S00_INI]")
    ∷ []
    ∷ []
    ∷ codes "# Create interface connections"
    ∷ (codes "connect_bd_intf_net -intf_net cips_noc_M00_INI     "
        ++ codes "[get_bd_intf_pins cips_noc/M00_INI] [get_bd_intf_pins "
        ++ codes "axi_noc_dut_1/S00_INI]")
    ∷ (codes "connect_bd_intf_net -intf_net cips_noc_M01_INI     "
        ++ codes "[get_bd_intf_pins cips_noc/M01_INI] [get_bd_intf_pins "
        ++ codes "axi_noc_dut_2/S00_INI]")
    ∷ (codes "connect_bd_intf_net -intf_net cips_noc_M02_INI     "
        ++ codes "[get_bd_intf_pins cips_noc/M02_INI] [get_bd_intf_pins "
        ++ codes "axi_noc_dut_3/S00_INI]")
    ∷ (codes "connect_bd_intf_net -intf_net lpddr4_clk1_1     "
        ++ codes "[get_bd_intf_ports lpddr4_clk1] [get_bd_intf_pins "
        ++ codes "axi_noc_dut_1/sys_clk0]")
    ∷ (codes "connect_bd_intf_net -intf_net lpddr4_clk2_1     "
        ++ codes "[get_bd_intf_ports lpddr4_clk2] [get_bd_intf_pins "
        ++ codes "axi_noc_dut_2/sys_clk0]")
    ∷ (codes "connect_bd_intf_net -intf_net lpddr4_clk3_1     "
        ++ codes "[get_bd_intf_ports lpddr4_clk3] [get_bd_intf_pins "
        ++ codes "axi_noc_dut_3/sys_clk0]")
    ∷ (codes "connect_bd_intf_net -intf_net axi_noc_dut_1_CH0_LPDDR4_0     "
        ++ codes "[get_bd_intf_ports ch0_lpddr4_trip1] [get_bd_intf_pins "
        ++ codes "axi_noc_dut_1/CH0_LPDDR4_0]")
    ∷ (codes "connect_bd_intf_net -intf_net axi_noc_dut_1_CH1_LPDDR4_0     "
        ++ codes "[get_bd_intf_ports ch1_lpddr4_trip1] [get_bd_intf_pins "
        ++ codes "axi_noc_dut_1/CH1_LPDDR4_0]")
    ∷ (codes "connect_bd_intf_net -intf_net axi_noc_dut_2_CH0_LPDDR4_0     "
        ++ codes "[get_bd_intf_ports ch0_lpddr4_trip2] [get_bd_intf_pins "
        ++ codes "axi_noc_dut_2/CH0_LPDDR4_0]")
    ∷ (codes "connect_bd_intf_net -intf_net axi_noc_dut_2_CH1_LPDDR4_0     "
        ++ codes "[get_bd_intf_ports ch1_lpddr4_trip2] [get_bd_intf_pins "
        ++ codes "axi_noc_dut_2/CH1_LPDDR4_0]")
    ∷ (codes "connect_bd_intf_net -intf_net axi_noc_dut_3_CH0_LPDDR4_0     "
        ++ codes "[get_bd_intf_ports ch0_lpddr4_trip3] [get_bd_intf_pins "
        ++ codes "axi_noc_dut_3/CH0_LPDDR4_0]")
    ∷ (codes "connect_bd_intf_net -intf_net axi_noc_dut_3_CH1_LPDDR4_0     "
        ++ codes "[get_bd_intf_ports ch1_lpddr4_trip3] [get_bd_intf_pins "
        ++ codes "axi_noc_dut_3/CH1_LPDDR4_0]")
    ∷ []
    ∷ [])
