-- ===== src/Bd.antt =====
-- gen_vivado_bd.py and vivado_bd_helper.py: the Tcl commands that build a Vivado block design. A text
-- of several lines is given line by line; a source line that ends in a backslash goes on in the next.
pub mod Hbm
pub mod HbmCounters
pub mod HbmPorts
pub mod Names
pub mod HbmApart
pub mod DdrPorts
pub mod HbmRefused
pub mod Tests
pub mod Ddr
pub mod Stream
pub mod Arm
pub mod ArmHbm
pub mod Design
use rapidstream_noc.Common.{
  ℕ, ◌-◌, List, [], ◌∷◌, ◌++◌, Option, none, some, Bool, true, false, leb, if◌then◌else◌, ℤ, pos,
  negsuc, str_of_int,
}
use rapidstream_noc.Common.Text.{Text, codes}
use rapidstream_noc.Tcl.{join, zfill2}

-- A memory-mapped port's entry; a bandwidth is a whole number.
pub record MmapAttr : Type 0 where
  pub bank : ℕ
  pub noc : Option Text
  pub read_bw : ℕ
  pub write_bw : ℕ

-- `attr.get("noc") is None`.
abbrev pub is_dedicated : MmapAttr → Bool
is_dedicated attr = elim attr.noc [ none ↦ true | some _ ↦ false ]

-- `bw - 100`.
abbrev pub less_100 : ℕ → ℤ
less_100 bw = if leb 100 bw then pos (bw - 100) else negsuc (99 - bw)

-- `f"{prefix}{n:02d}{suffix}"`.
abbrev pub interface : Text → ℕ → Text → Text
interface prefix n suffix = prefix ++ (zfill2 n ++ suffix)
