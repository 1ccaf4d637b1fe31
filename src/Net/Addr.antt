-- ===== src/Net/Addr.antt =====
-- `netip.Addr`: the zero value, an IPv4 address, or an IPv6 address with its zone.
use Prim.Native.Nat.{compare, Ordering}
use cloudip.Base.{
  ℕ, ◌+◌, ◌-◌, ◌*◌, ◌/◌, ◌%◌, ◌^◌, Bool, true, false, ◌&&◌, Text, text_eq, nat_eq, [], ◌==◌, ltb,
  text_lt, if◌then◌else◌,
}

pub data Addr : Type 0 where
  invalid : Addr
  v4 : ℕ → Addr
  v6 : ℕ → Text → Addr

abbrev pub is_valid : Addr → Bool
is_valid invalid = false
is_valid _ = true

abbrev pub is4 : Addr → Bool
is4 (v4 _) = true
is4 _ = false

abbrev pub is6 : Addr → Bool
is6 (v6 _ _) = true
is6 _ = false

abbrev pub bit_len : Addr → ℕ
bit_len invalid = 0
bit_len (v4 _) = 32
bit_len (v6 _ _) = 128

-- The 128 bits of `netip.Addr`, where IPv4 is mapped.
abbrev pub bits : Addr → ℕ
bits invalid = 0
bits (v4 n) = 0xffff * 2 ^ 32 + n
bits (v6 n _) = n

abbrev pub zone : Addr → Text
zone (v6 _ z) = z
zone _ = []

unfoldable pub is4_in6 : Addr → Bool
is4_in6 (v6 n _) = n / 2 ^ 32 == 0xffff
is4_in6 _ = false

-- `Addr.Unmap`
unfoldable pub unmap : Addr → Addr
unmap (v6 n z) = if is4_in6 (v6 n z) then v4 (n % 2 ^ 32) else v6 n z
unmap a = a

abbrev pub without_zone : Addr → Addr
without_zone (v6 n _) = v6 n []
without_zone a = a

abbrev or_else : Ordering → Ordering → Ordering
or_else Ordering.eq o = o
or_else o _ = o

unfoldable pub compare_text : Text → Text → Ordering
compare_text a b =
    if text_lt a b then Ordering.lt else if text_lt b a then Ordering.gt else Ordering.eq

-- `Addr.Compare`: by family, then by value, then by zone.
unfoldable pub compare_addr : Addr → Addr → Ordering
compare_addr a b =
    or_else (compare (bit_len a) (bit_len b))
      (or_else (compare (bits a) (bits b)) (compare_text (zone a) (zone b)))

abbrev pub is_le : Ordering → Bool
is_le Ordering.gt = false
is_le _ = true

abbrev pub is_lt : Ordering → Bool
is_lt Ordering.lt = true
is_lt _ = false

-- `a.Compare(b) <= 0`, `a.Compare(b) < 0`
unfoldable pub addr_le : Addr → Addr → Bool
addr_le a b = is_le (compare_addr a b)

unfoldable pub addr_lt : Addr → Addr → Bool
addr_lt a b = is_lt (compare_addr a b)

-- `Addr.Next`: the zero value behind the last address of the family.
unfoldable pub next : Addr → Addr
next invalid = invalid
next (v4 n) = if ltb (n + 1) (2 ^ 32) then v4 (n + 1) else invalid
next (v6 n z) = if ltb (n + 1) (2 ^ 128) then v6 (n + 1) z else invalid

-- `Addr.Prev`
unfoldable pub prev : Addr → Addr
prev invalid = invalid
prev (v4 n) = if ltb 0 n then v4 (n - 1) else invalid
prev (v6 n z) = if ltb 0 n then v6 (n - 1) z else invalid

-- `a == b`
unfoldable pub addr_eq : Addr → Addr → Bool
addr_eq invalid invalid = true
addr_eq (v4 a) (v4 b) = a == b
addr_eq (v6 a y) (v6 b z) = a == b && y == z
addr_eq _ _ = false
