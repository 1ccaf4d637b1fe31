-- ===== src/Record.antt =====
-- attribution/attribution.go: records and entries.
use cloudip.Base.{Bool, Text, List, Option}
use cloudip.Base.Dict.{Dict}
use cloudip.Base.Int.{ℤ, negsuc, int_eq}
use cloudip.Net.Prefix.{Prefix}

-- `time.Time` in whole seconds since the Unix epoch.
abbrev pub Time : Type 0
Time = ℤ

-- The zero `time.Time`, the first second of year 1.
abbrev pub zero_time : Time
zero_time = negsuc 62135596799

-- `Time.IsZero`
unfoldable pub is_zero : Time → Bool
is_zero t = int_eq t zero_time

pub record Record : Type 0 where
  pub provider : Text
  pub region : Text
  pub services : List Text
  pub categories : List Text
  pub ipv6 : Bool
  pub source : Text
  pub synced_at : Time
  pub ext : Dict Text
  pub network : Prefix

pub record Entry : Type 0 where
  pub network : Prefix
  pub attribution : Record

-- An error by its message.
abbrev pub Error : Type 0
Error = Text

-- What an `iter.Seq2[Entry, error]` yields.
abbrev pub Item : Type 0
Item = Entry × Option Error
