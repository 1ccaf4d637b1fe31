-- ===== src/Storage.antt =====
-- attribution/storage.go: what is stored for one network. The values of `mmdbtype` that the program
-- writes are strings, numbers, flags, and slices and maps of those.
pub mod Key
pub mod Canonical
pub mod RoundTrip
pub mod Typed
use cloudip.Base.{
  ℕ, ◌-◌, ◌%◌, ◌^◌, Bool, true, false, not, ◌&&◌, Text, codes, text_eq, ◌==◌, List, [], ◌∷◌, ◌++◌,
  map, Option, none, some, if◌then◌else◌, ltb,
}
use cloudip.Base.Sort.{sort_texts}
use cloudip.Base.Dict.{Dict, put}
use cloudip.Base.Int.{pos, negsuc, pos_part}
use cloudip.Net.Prefix.{no_prefix}
use cloudip.Record.{Record, Time, zero_time, is_zero}

pub data Leaf : Type 0 where
  str : Text → Leaf
  uint64 : ℕ → Leaf
  boolean : Bool → Leaf

pub data Value : Type 0 where
  leaf : Leaf → Value
  slice : List Leaf → Value
  dict : Dict Leaf → Value

-- `mmdbtype.Map`
abbrev pub Stored : Type 0
Stored = Dict Value

-- The loop of `dedupeSorted`, with `last` the element appended last.
unfoldable pub dedupe : Option Text → List Text → List Text
dedupe last [] = []
dedupe none (s ∷ ss) = s ∷ dedupe (some s) ss
dedupe (some last) (s ∷ ss) = if s == last then dedupe (some last) ss else s ∷ dedupe (some s) ss

unfoldable pub dedupe_sorted : List Text → List Text
dedupe_sorted [] = []
dedupe_sorted (s ∷ ss) = dedupe none (sort_texts (s ∷ ss))

abbrev pub strs : List Text → List Leaf
strs = map (λ s. str s)

-- The loop over `r.Ext`, which leaves empty values out.
unfoldable pub stored_ext : Dict Text → Dict Leaf
stored_ext [] = []
stored_ext ((k, v) ∷ ext) = let rest = stored_ext ext in if v == [] then rest else (k, str v) ∷ rest

-- The `synced_at` of a record: 0 for the zero time and for times before 1970.
unfoldable pub stored_time : Time → ℕ
stored_time t = if is_zero t then 0 else pos_part t

unfoldable pub to_mmdb : Record → Bool → Stored
to_mmdb r ipv6 =
    let m : Stored =
      (Key.provider, leaf (str r.provider))
      ∷ (Key.region, leaf (str r.region))
      ∷ (Key.services, slice (strs (dedupe_sorted r.services)))
      ∷ (Key.ipv6, leaf (boolean ipv6))
      ∷ (Key.source, leaf (str r.source))
      ∷ (Key.synced_at, leaf (uint64 (stored_time r.synced_at)))
      ∷ (Key.ext, dict (stored_ext r.ext))
      ∷ [] in
    elim (dedupe_sorted r.categories) [
      | [] ↦ m
      | c ∷ cs ↦ put Key.categories (slice (strs (c ∷ cs))) m
    ]

-- `storedRecord`
pub record StoredRecord : Type 0 where
  pub provider : Text
  pub region : Text
  pub services : List Text
  pub categories : List Text
  pub ipv6 : Bool
  pub source : Text
  pub synced_at : ℕ
  pub ext : Dict Text

-- `int64(u)` of a uint64, as a time.
unfoldable pub unix : ℕ → Time
unix u = if ltb (u % 2 ^ 64) (2 ^ 63) then pos (u % 2 ^ 64) else negsuc (2 ^ 64 - 1 - u % 2 ^ 64)

unfoldable pub to_record : StoredRecord → Record
to_record s = record {
  provider = s.provider;
  region = s.region;
  services = s.services;
  categories = s.categories;
  ipv6 = s.ipv6;
  source = s.source;
  synced_at = if ltb 0 s.synced_at then unix s.synced_at else zero_time;
  ext = s.ext;
  network = no_prefix;
}
