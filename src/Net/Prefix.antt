-- ===== src/Net/Prefix.antt =====
-- `netip.Prefix`: an address without a zone and a length; `none` is the length -1 of a prefix that
-- is not valid.
use cloudip.Base.{
  ℕ, ◌-◌, ◌/◌, ◌^◌, Bool, true, false, ◌&&◌, Option, none, some, ◌==◌, nat_eq, leb, if◌then◌else◌,
  ◌≡◌, ◌≤◌, inl, inr, Option-cases, arith,
}
use cloudip.Net.Addr.{Addr, v4, v6, invalid, is_valid, bit_len, without_zone}

pub record Prefix : Type 0 where
  pub addr : Addr
  pub len : Option ℕ

-- `netip.PrefixFrom`
unfoldable pub prefix_from : Addr → ℕ → Prefix
prefix_from a n = record {
  addr = without_zone a;
  len = if is_valid a && leb n (bit_len a) then some n else none;
}

-- The zero `netip.Prefix`.
abbrev pub no_prefix : Prefix
no_prefix = record { addr = invalid; len = none }

-- `Prefix.IsValid`: the length is in the range of the address.
abbrev pub prefix_valid : Prefix → Bool
prefix_valid p = elim (p.len) [ none ↦ false | some n ↦ leb n (bit_len p.addr) ]

pub prefix_valid-len :
    (p : Prefix) → prefix_valid p ≡ true → (n : ℕ) × (p.len ≡ some n) × (n ≤ bit_len p.addr)
prefix_valid-len p h = elim (Option-cases p.len) [
  | inl e0 ↦ absurd (let h' = rw e0 at h in cc)
  | inr (n, e1) ↦ (n, e1, (let h' : leb n (bit_len p.addr) ≡ true = rw e1 at h in ground arith))
]

unfoldable pub same_network : Addr → ℕ → Addr → Bool
same_network (v4 a) n (v4 x) = a / 2 ^ (32 - n) == x / 2 ^ (32 - n)
same_network (v6 a _) n (v6 x _) = a / 2 ^ (128 - n) == x / 2 ^ (128 - n)
same_network _ _ _ = false

-- `Prefix.Contains`, of an address without a zone.
unfoldable pub prefix_contains : Prefix → Addr → Bool
prefix_contains p x = elim (p.len) [ none ↦ false | some n ↦ same_network p.addr n x ]
