-- ===== src/Build/Normalize.antt =====
-- `normalizePrefix`, of attribution/build.go, and `isV6Network`, of attribution/storage.go.
use cloudip.Base.{ℕ, ◌-◌, Bool, true, not, ◌&&◌, ltb, nat_eq, if◌then◌else◌, Option, none, some}
use cloudip.Net.Addr.{is6, is4_in6, unmap}
use cloudip.Net.Prefix.{Prefix, prefix_from}

-- `p.Bits() < 96`, which holds of the length -1 of an invalid prefix.
abbrev below_96 : Option ℕ → Bool
below_96 none = true
below_96 (some n) = ltb n 96

abbrev bits_less_96 : Option ℕ → ℕ
bits_less_96 none = 0
bits_less_96 (some n) = n - 96

-- `none` is the answer `ok = false`.
unfoldable pub normalize_prefix : Prefix → Option Prefix
normalize_prefix p =
    if is4_in6 p.addr
    then (if below_96 p.len then none else some (prefix_from (unmap p.addr) (bits_less_96 p.len)))
    else some p

unfoldable pub is_v6_network : Prefix → Bool
is_v6_network p = is6 p.addr && not (is4_in6 p.addr)

-- The family of the result of a valid prefix: a prefix of IPv4-mapped addresses becomes native.
abbrev pub family : Prefix → Bool
family p = not (is_v6_network p)
