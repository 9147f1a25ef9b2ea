-- ===== src/Btier/Types.antt =====
-- btier/btier_types.h: tiers, locations, and the constants of the extent header.
use cxxlab.Prelude.{ℕ}

pub data Tier : Type 0 where
  fast slow : Tier

pub Tier-discrete : Discrete Tier
Tier-discrete = hlevel

pub record DiskLocation : Type 0 where
  pub offset : ℕ
  pub length : ℕ
  pub tier : Tier

pub data IoOp : Type 0 where
  read write : IoOp

-- ExtentState
abbrev pub active : ℕ
active = 0

abbrev pub migrating : ℕ
migrating = 1

-- ExtentHeader::HEADER_SIZE
abbrev pub header_size : ℕ
header_size = 4096

pub record KeyLocation : Type 0 where
  pub extent_id : ℕ
  pub offset : ℕ
  pub length : ℕ
