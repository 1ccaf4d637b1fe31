-- ===== src/Reader/Network.antt =====
-- attribution/reader.go: the network that `Lookup` reports with a record.
use mathlib.Core.Path.{subst}
use cloudip.Base.{
  ℕ, ◌-◌, ◌%◌, ◌^◌, ◌≤◌, ◌≡◌, refl, sym, ap, ◌∙◌, inl, inr, true, ◌&&◌, Text, [], Option, some, leb,
  if◌then◌else◌, Bool-cases, Option-cases, arith,
}
use cloudip.Base.Outcome.{Outcome, ok, Outcome-cases}
use cloudip.Net.Addr.{Addr, invalid, v4, v6, is4, is4_in6, unmap, bit_len, zone}
use cloudip.Net.Mapped.{IsNative, prefix_contains-mapped, mapped_inside, unmap-is4_in6}
use cloudip.Net.Prefix.{
  Prefix, prefix_contains, prefix_from, prefix_valid, prefix_valid-len, same_network, no_prefix,
}
use cloudip.Record.{Record}
use cloudip.Reader.{Reader, Result, Db, lookup, unmap_prefix}

-- What package `maxminddb` documents of the network of a result: it is valid, and holds the address
-- that was looked up.
pub record IsDocumented (r : Reader) : Type 0 where
  pub valid :
      (ip : Addr)
      → Result.found (r.lookup ip) ≡ true
      → prefix_valid (Result.prefix (r.lookup ip)) ≡ true
  pub holds :
      (ip : Addr)
      → zone ip ≡ []
      → Result.found (r.lookup ip) ≡ true
      → prefix_contains (Result.prefix (r.lookup ip)) ip ≡ true

-- The address in the family of the network.
abbrev pub as_in : Prefix → Addr → Addr
as_in p ip = if is4 p.addr then unmap ip else ip

-- What is reported for a matched network.
abbrev Reports : Prefix → Addr → Type 0
Reports p ip = (prefix_contains p (as_in p ip) ≡ true) × IsNative p

native_case :
    (b k : ℕ) (ip : Addr)
    → prefix_contains (prefix_from (v4 b) k) (unmap ip) ≡ true
    → Reports (prefix_from (v4 b) k) ip
unfolding prefix_from is4_in6
native_case b k ip h = (h, refl)

mapped_case :
    (a n x : ℕ) (z y : Text)
    → is4_in6 (v6 a z) ≡ true
    → 96 ≤ n
    → n ≤ 128
    → prefix_contains (record { addr = v6 a z; len = some n }) (v6 x y) ≡ true
    → Reports (prefix_from (unmap (v6 a z)) (n - 96)) (v6 x y)
unfolding prefix_from prefix_contains same_network is4_in6 unmap
mapped_case a n x z y m lo hi h =
    let (m', e) = mapped_inside a x n y z m lo hi h in
    let inside =
      prefix_contains-mapped a n (x % 2 ^ 32) z m lo hi
      ∙ ap (λ t. prefix_contains (record { addr = v6 a z; len = some n }) (v6 t [])) (sym e)
      ∙ h in
    let fam = unmap-is4_in6 a z m in
    let plain = unmap-is4_in6 x y m' in
    subst (λ u. Reports (prefix_from u (n - 96)) (v6 x y)) (sym fam)
      (native_case (a % 2 ^ 32) (n - 96) (v6 x y) (
        ap (λ u. prefix_contains (prefix_from (v4 (a % 2 ^ 32)) (n - 96)) u) plain
        ∙ ap (λ u. prefix_contains (prefix_from u (n - 96)) (v4 (x % 2 ^ 32))) (sym fam)
        ∙ inside))

v6_case :
    (a n x : ℕ) (z y : Text)
    → n ≤ 128
    → prefix_contains (record { addr = v6 a z; len = some n }) (v6 x y) ≡ true
    → Reports (unmap_prefix (record { addr = v6 a z; len = some n })) (v6 x y)
unfolding unmap_prefix
v6_case a n x z y hi h = elim (Bool-cases (is4_in6 (v6 a z) && leb 96 n)) [
  | inr other ↦ rw other (h, other)
  | inl both ↦ rw both (mapped_case a n x z y (ground arith) (ground arith) hi h)
]

unmap_prefix-Reports :
    (addr : Addr) (n : ℕ) (ip : Addr)
    → n ≤ bit_len addr
    → zone ip ≡ []
    → prefix_contains (record { addr = addr; len = some n }) ip ≡ true
    → Reports (unmap_prefix (record { addr = addr; len = some n })) ip
unfolding unmap_prefix prefix_contains same_network is4_in6
unmap_prefix-Reports invalid n ip hi zoned h = absurd (cc)
unmap_prefix-Reports (v4 a) n (v4 x) hi zoned h = unfold unmap in (h, refl)
unmap_prefix-Reports (v4 a) n (v6 x z) hi zoned h = absurd (cc)
unmap_prefix-Reports (v4 a) n invalid hi zoned h = absurd (cc)
unmap_prefix-Reports (v6 a z) n (v6 x y) hi zoned h = v6_case a n x z y hi h
unmap_prefix-Reports (v6 a z) n (v4 x) hi zoned h = absurd (cc)
unmap_prefix-Reports (v6 a z) n invalid hi zoned h = absurd (cc)

abbrev network_of : Outcome (Option Record) → Prefix
network_of (ok (some r)) = r.network
network_of _ = no_prefix

valid_prefix-Reports :
    (p : Prefix) (ip : Addr)
    → prefix_valid p ≡ true
    → zone ip ≡ []
    → prefix_contains p ip ≡ true
    → Reports (unmap_prefix p) ip
valid_prefix-Reports p ip valid zoned h =
    let (n, len, hi) = prefix_valid-len p valid in
    let same : record { addr = p.addr; len = some n } ≡ p = cc in
    subst (λ q. Reports (unmap_prefix q) ip) same
      (unmap_prefix-Reports p.addr n ip hi zoned
        (subst (λ q. prefix_contains q ip ≡ true) (sym same) h))

-- A record that `Lookup` finds for an address without a zone carries a network that holds the
-- address, in the family of the network, and that is never one of IPv4-mapped addresses: where the
-- reader matches one, the native IPv4 network is reported.
pub lookup-network :
    (d : Db) (ip : Addr) (r : Record)
    → IsDocumented d.r
    → zone ip ≡ []
    → lookup d ip ≡ ok (some r)
    → (prefix_contains r.network (as_in r.network ip) ≡ true) × IsNative r.network
unfolding lookup
lookup-network d ip r D zoned h = elim (Option-cases (Result.error (d.r.lookup ip))) [
  | inr (e, failed) ↦ absurd (let k = rw (failed, lookup) at h in cc)
  | inl fine ↦ elim (Bool-cases (Result.found (d.r.lookup ip))) [
    | inr absent ↦ absurd (let k = rw (fine, absent, lookup) at h in cc)
    | inl found ↦ elim (Outcome-cases (Result.decode (d.r.lookup ip))) [
      | inr (e, bad) ↦ absurd (let k = rw (fine, found, bad, lookup) at h in cc)
      | inl (sr, good) ↦
          (let k = rw (fine, found, good, lookup) at h in
            subst (λ q. Reports q ip) (ap network_of k)
              (valid_prefix-Reports _ ip (D.valid ip found) zoned (D.holds ip zoned found)))
    ]
  ]
]
