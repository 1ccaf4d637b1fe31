-- ===== src/Build/Covered.antt =====
-- attribution/build.go: the addresses of the network that `normalizePrefix` makes of a network.
use mathlib.Core.Path.{subst}
use cloudip.Base.{
  ℕ, ◌-◌, ◌%◌, ◌^◌, ◌≤◌, ◌≡◌, refl, ◌∙◌, inl, inr, true, false, Text, [], Option, none, some, ltb,
  if◌then◌else◌, not, ◌&&◌, leb, Bool-cases, arith,
}
use cloudip.Net.Addr.{Addr, invalid, v4, v6, is4_in6, unmap, bit_len}
use cloudip.Net.Mapped.{
  mapped, at_least_96, IsNative, prefix_contains-mapped, unmap-is4_in6, prefix_from-v4,
}
use cloudip.Net.Prefix.{Prefix, prefix_contains, prefix_from, prefix_valid, prefix_valid-len}
use cloudip.Build.Normalize.{normalize_prefix}

-- An IPv4 address as the network writes it.
abbrev pub written : Prefix → ℕ → Addr
written p x = if is4_in6 p.addr then v6 (mapped x) [] else v4 x

-- What is made of a network: nothing, of one of mapped addresses that is shorter than 96 bits, and of
-- any other a valid one that is not of mapped addresses and that holds
-- the IPv4 addresses of the given one.
abbrev pub Covers : Prefix → ℕ → Option Prefix → Type 0
Covers p x none = (is4_in6 p.addr ≡ true) × (IsNative p)
Covers p x (some q) =
    (prefix_valid q ≡ true)
    × ((is4_in6 p.addr && not (at_least_96 p.len)) ≡ false)
    × (is4_in6 q.addr ≡ false)
    × (prefix_contains q (v4 x) ≡ prefix_contains p (written p x))

native_lem :
    (a n x : ℕ) (z : Text)
    → is4_in6 (v6 a z) ≡ true
    → 96 ≤ n
    → n ≤ 128
    → Covers
        (record { addr = v6 a z; len = some n })
        x
        (some (prefix_from (unmap (v6 a z)) (n - 96)))
native_lem a n x z m lo hi =
    let (valid, native) = prefix_from-v4 (a % 2 ^ 32) (n - 96) (omega arith) in
    let fam = unmap-is4_in6 a z m in
    let long : leb 96 n ≡ true = ground arith in
    (
      rw fam valid,
      rw (m, long) refl,
      rw fam native,
      prefix_contains-mapped a n x z m lo hi ∙ rw m refl,
    )

normalize_v6 :
    (a n x : ℕ) (z : Text)
    → n ≤ 128
    → Covers
        (record { addr = v6 a z; len = some n })
        x
        (normalize_prefix (record { addr = v6 a z; len = some n }))
unfolding normalize_prefix
normalize_v6 a n x z hi = elim (Bool-cases (is4_in6 (v6 a z))) [
  | inr other ↦ rw (other, normalize_prefix) (ground arith, rw other refl, other, rw other refl)
  | inl m ↦ elim (Bool-cases (ltb n 96)) [
    | inl short ↦ rw (m, short, normalize_prefix) (m, rw m (ground arith))
    | inr long ↦ rw (m, long, normalize_prefix) (native_lem a n x z m (ground arith) hi)
  ]
]

normalized :
    (a : Addr) (n x : ℕ)
    → n ≤ bit_len a
    → Covers
        (record { addr = a; len = some n })
        x
        (normalize_prefix (record { addr = a; len = some n }))
unfolding normalize_prefix is4_in6
normalized invalid n x hi = (ground arith, refl, refl, refl)
normalized (v4 a) n x hi = (ground arith, refl, refl, refl)
normalized (v6 a z) n x hi = normalize_v6 a n x z hi

-- `normalizePrefix` refuses a valid network exactly if it is one of IPv4-mapped addresses shorter
-- than 96 bits. What it makes of any other is valid, is not one of IPv4-mapped addresses, and holds
-- an IPv4 address exactly if the given one does, which writes it as a mapped address if it is one of
-- those.
pub normalize_prefix-Covers :
    (p : Prefix) (x : ℕ) → prefix_valid p ≡ true → Covers p x (normalize_prefix p)
normalize_prefix-Covers p x valid =
    let (n, len, hi) = prefix_valid-len p valid in
    let same : record { addr = p.addr; len = some n } ≡ p = cc in
    subst (λ q. Covers q x (normalize_prefix q)) same (normalized p.addr n x hi)
