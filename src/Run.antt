-- ===== src/Run.antt =====
-- run_noc_pass.py: the options, the device, the selection of streams, and the Tcl files made of it.
-- The options are as click gives them, which refuses other names of devices and selectors. Files,
-- the commands that are run, and what is printed are not modelled.
pub mod Options
pub mod Devices
pub mod Outputs
pub mod Accepted
pub mod Located
pub mod Attached
pub mod Grid
pub mod Tests
