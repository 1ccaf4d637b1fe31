-- ===== src/Net/Mapped.antt =====
-- IPv4-mapped networks: a network of `::ffff:0:0/96`, and the IPv4 network that `netip.PrefixFrom`
-- makes of it, hold the same addresses.
use native.Mathlib.Nat.{
  mul-add-div_right, one-le-pow, pow-suc, pow-zero, mul-one, mul_assoc, mul_comm,
  div-div-eq-div-mul,
}
use cloudip.Base.{
  ==-sound, ℕ, zero, suc, ◌+◌, ◌-◌, ◌*◌, ◌/◌, ◌%◌, ◌^◌, ◌≤◌, ◌≡◌, refl, sym, ap, ◌∙◌, Bool, true,
  false, Text, nat_eq, ◌==◌, [], Option, none, some, ◌&&◌, leb, arith,
}
use cloudip.Net.Addr.{v4, v6, unmap, is4_in6}
use cloudip.Net.Prefix.{Prefix, prefix_contains, prefix_from, prefix_valid, same_network}

-- At least the 96 bits of `::ffff:0:0/96`.
abbrev pub at_least_96 : Option ℕ → Bool
at_least_96 none = false
at_least_96 (some n) = leb 96 n

-- Not a network of IPv4-mapped addresses.
abbrev pub IsNative : Prefix → Type 0
IsNative p = (is4_in6 p.addr && at_least_96 p.len) ≡ false

pow-add : (b k j : ℕ) → b ^ (k + j) ≡ b ^ k * b ^ j
pow-add b k zero =
    let e : k + zero ≡ k = omega arith in
    ap (λ n. b ^ n) e ∙ sym (mul-one (b ^ k)) ∙ ap (λ t. b ^ k * t) (sym (pow-zero b))
pow-add b k (suc j) =
    let e : k + suc j ≡ suc (k + j) = omega arith in
    ap (λ n. b ^ n) e
    ∙ pow-suc b (k + j)
    ∙ ap (λ t. t * b) (pow-add b k j)
    ∙ mul_assoc (b ^ k) (b ^ j) b
    ∙ ap (λ t. b ^ k * t) (sym (pow-suc b j))

-- The value of the IPv4-mapped address of a number.
abbrev pub mapped : ℕ → ℕ
mapped x = 0xffff * 2 ^ 32 + x

-- The addresses of IPv4 are so many blocks of the hosts of a network.
blocks : (n : ℕ) → 96 ≤ n → n ≤ 128 → 2 ^ (n - 96) * 2 ^ (128 - n) ≡ 2 ^ 32
blocks n lo hi =
    let e : n - 96 + (128 - n) ≡ 32 = omega arith in
    sym (pow-add 2 (n - 96) (128 - n)) ∙ ap (λ k. 2 ^ k) e

mapped_div :
    (n x : ℕ)
    → 96 ≤ n
    → n ≤ 128
    → mapped x / 2 ^ (128 - n) ≡ 0xffff * 2 ^ (n - 96) + x / 2 ^ (128 - n)
mapped_div n x lo hi =
    let e : 0xffff * 2 ^ 32 ≡ 0xffff * 2 ^ (n - 96) * 2 ^ (128 - n) =
      ap (λ t. 0xffff * t) (sym (blocks n lo hi))
      ∙ sym (mul_assoc 0xffff (2 ^ (n - 96)) (2 ^ (128 - n))) in
    ap (λ t. (t + x) / 2 ^ (128 - n)) e
    ∙ mul-add-div_right (one-le-pow (128 - n) 2 (omega arith)) (0xffff * 2 ^ (n - 96)) x

same_offset : (c a x : ℕ) → (c + a == c + x) ≡ (a == x)
unfolding nat_eq
same_offset c a x = ground arith

-- The block of a mapped address is that of the address behind it.
same_network-mapped :
    (a x n : ℕ)
    → 96 ≤ n
    → n ≤ 128
    → (mapped a / 2 ^ (128 - n) == mapped x / 2 ^ (128 - n))
      ≡ (a / 2 ^ (32 - (n - 96)) == x / 2 ^ (32 - (n - 96)))
same_network-mapped a x n lo hi =
    let e : 32 - (n - 96) ≡ 128 - n = omega arith in
    rw (e, mapped_div n a lo hi, mapped_div n x lo hi) (same_offset _ _ _)

-- A number whose upper bits are those of IPv4-mapped addresses.
mapped_of : (a : ℕ) → (a / 2 ^ 32 == 0xffff) ≡ true → a ≡ mapped (a % 2 ^ 32)
unfolding nat_eq
mapped_of a h = ground arith

prefix_contains-prefix_from :
    (b n x : ℕ)
    → n ≤ 32
    → prefix_contains (prefix_from (v4 b) n) (v4 x) ≡ (b / 2 ^ (32 - n) == x / 2 ^ (32 - n))
unfolding prefix_contains prefix_from same_network
prefix_contains-prefix_from b n x h =
    let fits : leb n 32 ≡ true = ground arith in rw (fits, prefix_contains) refl

-- The native form of a network of mapped addresses holds an IPv4 address exactly if the network
-- holds the mapped one.
pub prefix_contains-mapped :
    (a n x : ℕ) (z : Text)
    → is4_in6 (v6 a z) ≡ true
    → 96 ≤ n
    → n ≤ 128
    → prefix_contains (prefix_from (unmap (v6 a z)) (n - 96)) (v4 x)
      ≡ prefix_contains (record { addr = v6 a z; len = some n }) (v6 (mapped x) [])
unfolding prefix_contains same_network is4_in6 unmap
prefix_contains-mapped a n x z m lo hi =
    let e = mapped_of a m in
    rw m (
      prefix_contains-prefix_from (a % 2 ^ 32) (n - 96) x (omega arith)
      ∙ sym (same_network-mapped (a % 2 ^ 32) x n lo hi)
      ∙ ap (λ t. t / 2 ^ (128 - n) == mapped x / 2 ^ (128 - n)) (sym e))

upper_bits : (a n : ℕ) → 96 ≤ n → n ≤ 128 → a / 2 ^ 32 ≡ a / 2 ^ (128 - n) / 2 ^ (n - 96)
upper_bits a n lo hi =
    ap (λ t. a / t) (sym (mul_comm (2 ^ (128 - n)) (2 ^ (n - 96)) ∙ blocks n lo hi))
    ∙ sym (div-div-eq-div-mul a (2 ^ (128 - n)) (2 ^ (n - 96)))

-- What lies in a network of mapped addresses is a mapped address.
pub mapped_inside :
    (a x n : ℕ) (y z : Text)
    → is4_in6 (v6 a z) ≡ true
    → 96 ≤ n
    → n ≤ 128
    → prefix_contains (record { addr = v6 a z; len = some n }) (v6 x y) ≡ true
    → (is4_in6 (v6 x y) ≡ true) × (x ≡ mapped (x % 2 ^ 32))
unfolding prefix_contains same_network is4_in6
mapped_inside a x n y z m lo hi h =
    let same : a / 2 ^ (128 - n) ≡ x / 2 ^ (128 - n) = ==-sound _ _ h in
    let e : a / 2 ^ 32 ≡ x / 2 ^ 32 =
      upper_bits a n lo hi ∙ ap (λ t. t / 2 ^ (n - 96)) same ∙ sym (upper_bits x n lo hi) in
    let m' : (x / 2 ^ 32 == 0xffff) ≡ true = rw (sym e) m in (m', mapped_of x m')

-- `Unmap` of a mapped address.
pub unmap-is4_in6 : (a : ℕ) (z : Text) → is4_in6 (v6 a z) ≡ true → unmap (v6 a z) ≡ v4 (a % 2 ^ 32)
unfolding unmap
unmap-is4_in6 a z m = rw m refl

-- `PrefixFrom` of an IPv4 address.
pub prefix_from-v4 :
    (b k : ℕ)
    → k ≤ 32
    → (prefix_valid (prefix_from (v4 b) k) ≡ true)
      × (is4_in6 (Prefix.addr (prefix_from (v4 b) k)) ≡ false)
unfolding prefix_from is4_in6
prefix_from-v4 b k h = let fits : leb k 32 ≡ true = ground arith in rw fits (fits, refl)
