-- ===== src/Net/Netipx.antt =====
-- The part of `go4.org/netipx` that the program calls, as a parameter with its documented
-- behaviour: `RangeOfPrefix` is the range that a prefix covers, and `Prefixes` covers a range.
use cloudip.Base.{ℕ, ◌+◌, ◌≤◌, ◌<◌, ◌≡◌, Bool, true, ◌&&◌, leb, if◌then◌else◌, List, [], ◌∷◌, All}
use cloudip.Net.Addr.{Addr}
use cloudip.Net.Prefix.{Prefix, prefix_contains, prefix_valid}
use cloudip.Net.Plain.{size, value, addr_of, IsPlain}

pub record Netipx : Type 0 where
  pub range_of_prefix : Prefix → Addr × Addr
  pub prefixes : Addr → Addr → List Prefix

-- How many of the prefixes contain an address.
abbrev pub hits : List Prefix → Addr → ℕ
hits [] x = 0
hits (p ∷ ps) x = (if prefix_contains p x then 1 else 0) + hits ps x

-- A valid prefix of one family, without a zone.
abbrev pub IsNetwork : Bool → Prefix → Type 0
IsNetwork f p = IsPlain f p.addr × (prefix_valid p ≡ true)

pub record IsLawful (N : Netipx) : Type 0 where
  pub range_first : (f : Bool) (p : Prefix) → IsNetwork f p → IsPlain f (N.range_of_prefix p).0
  pub range_last : (f : Bool) (p : Prefix) → IsNetwork f p → IsPlain f (N.range_of_prefix p).1
  pub range_le :
      (f : Bool) (p : Prefix)
      → IsNetwork f p
      → value (N.range_of_prefix p).0 ≤ value (N.range_of_prefix p).1
  pub range_contains :
      (f : Bool) (p : Prefix) (x : ℕ)
      → IsNetwork f p
      → x < size f
      → prefix_contains p (addr_of f x)
        ≡ (leb (value (N.range_of_prefix p).0) x && leb x (value (N.range_of_prefix p).1))
  pub hits-prefixes :
      (f : Bool) (a b : Addr) (x : ℕ)
      → IsPlain f a
      → IsPlain f b
      → value a ≤ value b
      → x < size f
      → hits (N.prefixes a b) (addr_of f x) ≡ (if leb (value a) x && leb x (value b) then 1 else 0)
  pub prefixes-network :
      (f : Bool) (a b : Addr)
      → IsPlain f a
      → IsPlain f b
      → value a ≤ value b
      → All (IsNetwork f) (N.prefixes a b)
