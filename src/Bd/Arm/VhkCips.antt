-- ===== src/Bd/Arm/VhkCips.antt =====
-- vivado_bd_helper.py: the properties of the CIPS block in arm_tcl for a device with HBM.
use rapidstream_noc.Common.{[], ◌∷◌, ◌++◌}
use rapidstream_noc.Common.Text.{Text, codes}
use rapidstream_noc.Tcl.{lines}

abbrev pub vhk_cips : Text
vhk_cips = lines (
    []
    ∷ codes "# Set CIPS properties"
    ∷ (codes "set_property -dict [list CONFIG.CLOCK_MODE {Custom} "
        ++ codes "CONFIG.DDR_MEMORY_MODE {Custom} CONFIG.PS_BOARD_INTERFACE "
        ++ codes "{ps_pmc_fixed_io} CONFIG.PS_PL_CONNECTIVITY_MODE {Custom} "
        ++ codes "CONFIG.PS_PMC_CONFIG {     BOOT_MODE {Custom}     CLOCK_MODE "
        ++ codes "{Custom}     DESIGN_MODE {1}     DEVICE_INTEGRITY_MODE {Sysmon "
        ++ codes "temperature voltage and external IO monitoring}     "
        ++ codes "PMC_CRP_PL0_REF_CTRL_FREQMHZ {99.999992}     "
        ++ codes "PMC_GPIO0_MIO_PERIPHERAL {{ENABLE 1} {IO {PMC_MIO 0 .. 25}}}     "
        ++ codes "PMC_GPIO1_MIO_PERIPHERAL {{ENABLE 1} {IO {PMC_MIO 26 .. 51}}}     "
        ++ codes "PMC_MIO12 {{AUX_IO 0} {DIRECTION out} {DRIVE_STRENGTH 8mA} "
        ++ codes "{OUTPUT_DATA default}         {PULL pullup} {SCHMITT 0} {SLEW "
        ++ codes "slow} {USAGE GPIO}}     PMC_MIO37 {{AUX_IO 0} {DIRECTION out} "
        ++ codes "{DRIVE_STRENGTH 8mA} {OUTPUT_DATA high}         {PULL pullup} "
        ++ codes "{SCHMITT 0} {SLEW slow} {USAGE GPIO}}     PMC_OSPI_PERIPHERAL "
        ++ codes "{{ENABLE 1} {IO {PMC_MIO 0 .. 11}} {MODE Single}}     "
        ++ codes "PMC_QSPI_PERIPHERAL_ENABLE {0}     PMC_REF_CLK_FREQMHZ {33.333}   "
        ++ codes "  PMC_SD1 {{CD_ENABLE 1} {CD_IO {PMC_MIO 28}} {POW_ENABLE 1} "
        ++ codes "{POW_IO {PMC_MIO 51}}         {RESET_ENABLE 0} {RESET_IO {PMC_MIO "
        ++ codes "12}} {WP_ENABLE 0} {WP_IO {PMC_MIO 1}}}     PMC_SD1_PERIPHERAL "
        ++ codes "{{CLK_100_SDR_OTAP_DLY 0x3} {CLK_200_SDR_OTAP_DLY 0x2}         "
        ++ codes "{CLK_50_DDR_ITAP_DLY 0x2A} {CLK_50_DDR_OTAP_DLY 0x3} "
        ++ codes "{CLK_50_SDR_ITAP_DLY 0x25}        {CLK_50_SDR_OTAP_DLY 0x4} "
        ++ codes "{ENABLE 1} {IO {PMC_MIO 26 .. 36}}}     PMC_SD1_SLOT_TYPE {SD 3.0 "
        ++ codes "AUTODIR}     PMC_USE_PMC_NOC_AXI0 {1}     PS_BOARD_INTERFACE "
        ++ codes "{ps_pmc_fixed_io}     PS_ENET0_MDIO {{ENABLE 1} {IO {PS_MIO 24 .. "
        ++ codes "25}}}     PS_ENET0_PERIPHERAL {{ENABLE 1} {IO {PS_MIO 0 .. 11}}}  "
        ++ codes "   PS_GEN_IPI0_ENABLE {1}     PS_GEN_IPI0_MASTER {A72}     "
        ++ codes "PS_GEN_IPI1_ENABLE {1}     PS_GEN_IPI2_ENABLE {1}     "
        ++ codes "PS_GEN_IPI3_ENABLE {1}     PS_GEN_IPI4_ENABLE {1}     "
        ++ codes "PS_GEN_IPI5_ENABLE {1}     PS_GEN_IPI6_ENABLE {1}     "
        ++ codes "PS_I2C0_PERIPHERAL {{ENABLE 1} {IO {PMC_MIO 46 .. 47}}}     "
        ++ codes "PS_I2C1_PERIPHERAL {{ENABLE 1} {IO {PMC_MIO 44 .. 45}}}     "
        ++ codes "PS_I2CSYSMON_PERIPHERAL {{ENABLE 0} {IO {PMC_MIO 39 .. 40}}}     "
        ++ codes "PS_IRQ_USAGE {{CH0 0} {CH1 0} {CH10 0} {CH11 0} {CH12 0} {CH13 0} "
        ++ codes "{CH14 0}         {CH15 0} {CH2 0} {CH3 0} {CH4 0} {CH5 0} {CH6 0} "
        ++ codes "{CH7 0} {CH8 1} {CH9 0}}     PS_MIO7 {{AUX_IO 0} {DIRECTION in} "
        ++ codes "{DRIVE_STRENGTH 8mA} {OUTPUT_DATA default}         {PULL disable} "
        ++ codes "{SCHMITT 0} {SLEW slow} {USAGE Reserved}}     PS_MIO9 {{AUX_IO 0} "
        ++ codes "{DIRECTION in} {DRIVE_STRENGTH 8mA} {OUTPUT_DATA default}         "
        ++ codes "{PULL disable} {SCHMITT 0} {SLEW slow} {USAGE Reserved}}     "
        ++ codes "PS_NUM_FABRIC_RESETS {1}     PS_PCIE_EP_RESET1_IO {PS_MIO 18}     "
        ++ codes "PS_PCIE_EP_RESET2_IO {PS_MIO 19}     PS_PCIE_RESET {ENABLE 1}     "
        ++ codes "PS_UART0_PERIPHERAL {{ENABLE 1} {IO {PMC_MIO 42 .. 43}}}     "
        ++ codes "PS_USB3_PERIPHERAL {{ENABLE 1} {IO {PMC_MIO 13 .. 25}}}     "
        ++ codes "PS_USE_FPD_AXI_NOC0 {1}     PS_USE_FPD_AXI_NOC1 {1}     "
        ++ codes "PS_USE_FPD_CCI_NOC {1}     PS_USE_M_AXI_FPD {1}     "
        ++ codes "PS_USE_NOC_LPD_AXI0 {1}     PS_USE_PMCPL_CLK0 {1}     SMON_ALARMS "
        ++ codes "{Set_Alarms_On}     SMON_ENABLE_TEMP_AVERAGING {0}     "
        ++ codes "SMON_INTERFACE_TO_USE {I2C}     SMON_PMBUS_ADDRESS {0x18}     "
        ++ codes "SMON_TEMP_AVERAGING_SAMPLES {0}     } ] [get_bd_cells CIPS_0]")
    ∷ []
    ∷ [])
