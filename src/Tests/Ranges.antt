-- ===== src/Tests/Ranges.antt =====
-- A run of the enrichment of one entry, with ranges cut into single addresses.
use mathlib.Core.Path.{subst}
use native.Mathlib.Nat.{div-one, div-mul-le_self, one-le-pow}
use cloudip.Base.{
  ℕ, zero, suc, ◌+◌, ◌-◌, ◌*◌, ◌/◌, ◌^◌, ◌≤◌, ◌<◌, ◌≡◌, refl, ap, ◌∙◌, inl, inr, Bool, true, false,
  ◌&&◌, List, [], ◌∷◌, Option, none, some, if◌then◌else◌, leb, ltb, arith, ◌==◌, nat_eq,
  Option-cases, All,
}
use cloudip.Net.Addr.{Addr, v4, is4, is4_in6}
use cloudip.Net.Prefix.{Prefix, prefix_contains, prefix_valid, same_network}
use cloudip.Net.Netipx.{Netipx, hits, IsNetwork, IsLawful}
use cloudip.Net.Plain.{size, addr_of, value, IsPlain, addr_of-IsPlain}
use cloudip.Build.Normalize.{normalize_prefix}
use cloudip.Reader.Export.{same_block}

abbrev width : Bool → ℕ
width true = 32
width false = 128

abbrev host : Bool → ℕ → Prefix
host f n = record { addr = addr_of f n; len = some (width f) }

-- The addresses from n on, as prefixes.
abbrev pub hosts : Bool → ℕ → ℕ → List Prefix
hosts f n zero = []
hosts f n (suc count) = host f n ∷ hosts f (n + 1) count

abbrev smaller : ℕ → ℕ → ℕ
smaller a b = if leb a b then a else b

abbrev block_size : Bool → Option ℕ → ℕ
block_size f none = 1
block_size f (some n) = 2 ^ (width f - n)

abbrev start_of : Bool → Prefix → ℕ
start_of f p = value p.addr / block_size f p.len * block_size f p.len

abbrev end_of : Bool → Prefix → ℕ
end_of f p = smaller (start_of f p + (block_size f p.len - 1)) (size f - 1)

abbrev pub cut : Netipx
cut = record {
  range_of_prefix = λ p. (
    addr_of (is4 p.addr) (start_of (is4 p.addr) p),
    addr_of (is4 p.addr) (end_of (is4 p.addr) p),
  );
  prefixes = λ a b. hosts (is4 a) (value a) (value b - value a + 1);
}

host_hit : (f : Bool) (n x : ℕ) → prefix_contains (host f n) (addr_of f x) ≡ (n == x)
unfolding prefix_contains same_network
host_hit true n x = rw (div-one, div-one) refl
host_hit false n x = rw (div-one, div-one) refl

hits-hosts :
    (f : Bool) (count n x : ℕ)
    → hits (hosts f n count) (addr_of f x) ≡ (if leb n x && ltb x (n + count) then 1 else 0)
unfolding nat_eq
hits-hosts f zero n x = ground arith
hits-hosts f (suc count) n x =
    let ih = hits-hosts f count (n + 1) x in rw (host_hit f n x, ih) (ground arith)

plain_is4 : (f : Bool) (a : Addr) → IsPlain f a → is4 a ≡ f
plain_is4 true a p = ap is4 p.0
plain_is4 false a p = ap is4 p.0

block_pos : (f : Bool) (len : Option ℕ) → 0 < block_size f len
block_pos f none = omega arith
block_pos f (some n) = one-le-pow (width f - n) 2 (omega arith)

start_small : (f : Bool) (p : Prefix) → value p.addr < size f → start_of f p < size f
start_small f p h =
    let low = div-mul-le_self (value p.addr) (block_size f p.len) in omega (arith, h, low)

end_small : (f : Bool) (p : Prefix) → end_of f p < size f
end_small true p = ground arith
end_small false p = ground arith

start_end : (f : Bool) (p : Prefix) → value p.addr < size f → start_of f p ≤ end_of f p
start_end f p h = let s = start_small f p h in ground arith

within_family : (start k x n : ℕ) → x < n → leb x (start + k) ≡ leb x (smaller (start + k) (n - 1))
within_family start k x n h = ground arith

contains_at :
    (f : Bool) (a n x : ℕ)
    → x < size f
    → prefix_contains (record { addr = addr_of f a; len = some n }) (addr_of f x) ≡ (
        leb (start_of f (record { addr = addr_of f a; len = some n })) x
        && leb x (end_of f (record { addr = addr_of f a; len = some n })))
unfolding prefix_contains same_network
contains_at true a n x h =
    let k = 2 ^ (32 - n) in
    same_block a x k (one-le-pow (32 - n) 2 (omega arith))
    ∙ ap (λ b. leb (a / k * k) x && b) (within_family (a / k * k) (k - 1) x (size true) h)
contains_at false a n x h =
    let k = 2 ^ (128 - n) in
    same_block a x k (one-le-pow (128 - n) 2 (omega arith))
    ∙ ap (λ b. leb (a / k * k) x && b) (within_family (a / k * k) (k - 1) x (size false) h)

contains_block :
    (f : Bool) (p : Prefix) (x : ℕ)
    → IsNetwork f p
    → x < size f
    → prefix_contains p (addr_of f x) ≡ (leb (start_of f p) x && leb x (end_of f p))
contains_block f p x n h = elim (Option-cases p.len) [
  | inl e0 ↦ absurd (let v = rw e0 at n.1 in cc)
  | inr (len, e1) ↦
      let same : record { addr = addr_of f (value p.addr); len = some len } ≡ p = cc in
      subst (λ q. prefix_contains q (addr_of f x) ≡ (leb (start_of f q) x && leb x (end_of f q)))
        same (contains_at f (value p.addr) len x h)
]

value-addr_of : (f : Bool) (n : ℕ) → value (addr_of f n) ≡ n
value-addr_of true n = refl
value-addr_of false n = refl

full_length : (f : Bool) (n : ℕ) → prefix_valid (host f n) ≡ true
full_length true n = refl
full_length false n = refl

hosts-IsNetwork :
    (f : Bool) (count n : ℕ) → n + count ≤ size f → All (IsNetwork f) (hosts f n count)
hosts-IsNetwork f zero n h = tt
hosts-IsNetwork f (suc count) n h = (
  (addr_of-IsPlain f n (omega (arith, h)), full_length f n),
  hosts-IsNetwork f count (n + 1) (omega (arith, h)),
)

pub cut-IsLawful : IsLawful cut
cut-IsLawful = record {
  range_first = λ f p n. rw (plain_is4 f p.addr n.0) (addr_of-IsPlain f _ (start_small f p n.0.1));
  range_last = λ f p n. rw (plain_is4 f p.addr n.0) (addr_of-IsPlain f _ (end_small f p));
  range_le =
      λ f p n. rw (plain_is4 f p.addr n.0, value-addr_of, value-addr_of) (start_end f p n.0.1);
  range_contains = λ f p x n h.
      rw (plain_is4 f p.addr n.0, value-addr_of, value-addr_of) (contains_block f p x n h);
  hits-prefixes = λ f a b x pa pb le h. rw (plain_is4 f a pa) (hits-hosts f _ _ x ∙ ground arith);
  prefixes-network =
      λ f a b pa pb le. rw (plain_is4 f a pa) (hosts-IsNetwork f _ _ (omega (arith, pb.1, le)));
}

abbrev pub net : Prefix
net = record { addr = v4 0x0a000000; len = some 8 }

pub v4-IsPlain : (a : ℕ) → a < size true → IsPlain true (v4 a)
v4-IsPlain a h = (refl, h)

pub taken : normalize_prefix net ≡ some net
unfolding normalize_prefix is4_in6
taken = refl
