-- ===== src/Json/Kinds.antt =====
-- Json.h, `Kind`.
use mathlib.Core.Bool.{Bool, true, false}

pub data Kind : Type 0 where
  bad : Kind
  string : Kind
  integer : Kind
  number : Kind
  boolean : Kind
  nul : Kind
  object : Kind
  array : Kind

abbrev pub is_integer : Kind → Bool
is_integer Kind.integer = true
is_integer _ = false
