-- ===== src/Run/Devices.antt =====
-- run_noc_pass.py: the device of each supported name.
use rapidstream_noc.Common.{[], ◌∷◌, Result, ◌>>=◌}
use rapidstream_noc.Common.Text.{codes}
use rapidstream_noc.Graph.{NocGraph}
use rapidstream_noc.Vp1802.{vp1802_nocgraph}
use rapidstream_noc.Vh1582.{vh1582_nocgraph}
use rapidstream_noc.Device.{Device, init}
use rapidstream_noc.Run.Options.{DeviceEnum, vh1582, vp1802}

-- The data of `Device(...)`; the tables of NMUs and NSUs are generated.
abbrev pub vp1802_data : NocGraph → Device
vp1802_data g = record {
  part_num = codes "xcvp1802-lsvc4072-2MP-e-S";
  board_part = codes "xilinx.com:vpk180:part0:1.2";
  slot_width = 2;
  slot_height = 4;
  cr_mapping =
      (codes "CLOCKREGION_X0Y1:CLOCKREGION_X4Y4"
        ∷ codes "CLOCKREGION_X0Y5:CLOCKREGION_X4Y7"
        ∷ codes "CLOCKREGION_X0Y8:CLOCKREGION_X4Y10"
        ∷ codes "CLOCKREGION_X0Y11:CLOCKREGION_X4Y13"
        ∷ [])
      ∷ (codes "CLOCKREGION_X5Y1:CLOCKREGION_X9Y4"
          ∷ codes "CLOCKREGION_X5Y5:CLOCKREGION_X9Y7"
          ∷ codes "CLOCKREGION_X5Y8:CLOCKREGION_X9Y10"
          ∷ codes "CLOCKREGION_X5Y11:CLOCKREGION_X9Y13"
          ∷ [])
      ∷ [];
  noc_graph = g;
  nmu_per_slot = [];
  nsu_per_slot = [];
}

abbrev pub vh1582_data : NocGraph → Device
vh1582_data g = record {
  part_num = codes "xcvh1582-vsva3697-2MP-e-S";
  board_part = codes "xilinx.com:vhk158:part0:1.1";
  slot_width = 2;
  slot_height = 2;
  cr_mapping =
      (codes "CLOCKREGION_X0Y1:CLOCKREGION_X4Y4" ∷ codes "CLOCKREGION_X0Y5:CLOCKREGION_X4Y7" ∷ [])
      ∷ (codes "CLOCKREGION_X5Y1:CLOCKREGION_X9Y4" ∷ codes "CLOCKREGION_X5Y5:CLOCKREGION_X9Y7" ∷ [])
      ∷ [];
  noc_graph = g;
  nmu_per_slot = [];
  nsu_per_slot = [];
}

unfoldable pub device_of : DeviceEnum → Result Device
unfolding vp1802_nocgraph vh1582_nocgraph init
device_of vp1802 = vp1802_nocgraph >>= λ g. init (vp1802_data g)
device_of vh1582 = vh1582_nocgraph >>= λ g. init (vh1582_data g)
