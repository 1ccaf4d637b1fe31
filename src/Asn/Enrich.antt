-- ===== src/Asn/Enrich.antt =====
-- attribution/asn.go: `EnrichASN`, `enrichEntry` and `yieldRange`.
-- Streams are consumed by a `yield` on a state, which may ask to stop.
pub mod Pieces
pub mod Cover
pub mod Exact
pub mod Search
pub mod Entries
pub mod Networks
pub mod Whole
use cloudip.Base.{
  ℕ, zero, suc, ◌+◌, ◌/◌, Bool, true, false, not, Text, text_eq, nat_eq, codes, ◌==◌, ltb, List, [],
  ◌∷◌, map, Option, none, some, length, get_elem?, drop, if◌then◌else◌,
}
use cloudip.Base.Dict.{Dict, put}
use cloudip.Base.Streams.{Yield, and_then, each}
use cloudip.Base.Texts.{decimal}
use cloudip.Net.Addr.{Addr, is4, addr_le, addr_lt, next, prev}
use cloudip.Net.Prefix.{Prefix}
use cloudip.Net.Netipx.{Netipx}
use cloudip.Record.{Record, Entry, Item}
use cloudip.Build.Normalize.{normalize_prefix}
use cloudip.Asn.{AsnRange, AsnTable}

abbrev pub ext_asn : Text
ext_asn = codes "asn"

abbrev pub ext_as_org : Text
ext_as_org = codes "as_org"

abbrev pub min_addr : Addr → Addr → Addr
min_addr a b = if addr_le a b then a else b

abbrev pub max_addr : Addr → Addr → Addr
max_addr a b = if addr_le b a then a else b

-- The ext map that `yieldRange` builds for a row.
unfoldable pub stamp_ext : Dict Text → ℕ → Text → Dict Text
stamp_ext ext asn org =
    let stamped = put ext_asn (decimal asn) ext in
    if org == [] then stamped else put ext_as_org org stamped

unfoldable pub stamp : Record → Option (ℕ × Text) → Record
stamp rec none = rec
stamp rec (some (asn, org)) = record rec { ext = stamp_ext rec.ext asn org }

-- `sort.Search(n, p)`: the binary search of Go's library, with `n` rounds at most.
unfoldable pub search_between : ℕ → (ℕ → Bool) → ℕ → ℕ → ℕ
search_between zero p i j = i
search_between (suc fuel) p i j =
    let h = (i + j) / 2 in
    elim (ltb i j) [
      | true ↦ elim (p h) [
        | true ↦ search_between fuel p i h
        | false ↦ search_between fuel p (h + 1) j
      ]
      | false ↦ i
    ]

unfoldable pub sort_search : ℕ → (ℕ → Bool) → ℕ
sort_search n p = search_between n p 0 n

-- `rows[i].Last.Compare(lo) >= 0`
abbrev pub ends_behind : List AsnRange → Addr → ℕ → Bool
ends_behind rows lo i = elim (get_elem? rows i) [ none ↦ false | some r ↦ addr_le lo r.last ]

module _ (N : Netipx) {S : Type 0} (yield : Yield Item S) where
  unfoldable pub yield_range : Entry → Addr → Addr → Option (ℕ × Text) → S → Bool × S
  yield_range e first last row =
      let rec = stamp e.attribution row in
      each (map (λ p. (record { network = p; attribution = rec }, none)) (N.prefixes first last))
        yield

  -- The loop over the rows from the first candidate on, and the trailing gap behind it.
  unfoldable pub enrich_rows : Entry → Addr → Addr → List AsnRange → S → Bool × S
  enrich_rows e hi cur [] s = yield_range e cur hi none s
  enrich_rows e hi cur (row ∷ rows) s =
      let ov_lo = max_addr row.first cur in
      let ov_hi = min_addr row.last hi in
      elim (addr_le row.first hi) [
        | false ↦ yield_range e cur hi none s
        | true ↦ elim (addr_lt ov_hi ov_lo) [
          | true ↦ enrich_rows e hi cur rows s
          | false ↦
              and_then
                (if addr_lt cur ov_lo then yield_range e cur (prev ov_lo) none s else (true, s))
                (λ s1. and_then (yield_range e ov_lo ov_hi (some (row.asn, row.org)) s1) (λ s2.
                  elim (addr_le hi ov_hi) [
                    | true ↦ (true, s2)
                    | false ↦ enrich_rows e hi (next ov_hi) rows s2
                  ]))
        ]
      ]

  -- `enrichEntry` behind the normalisation.
  unfoldable pub enrich_network : Entry → Prefix → AsnTable → S → Bool × S
  enrich_network e network t s =
      let rows = if is4 network.addr then t.v4 else t.v6 in
      let (lo, hi) = N.range_of_prefix network in
      let i = sort_search (length rows) (ends_behind rows lo) in
      let through = yield (record e { network = network }, none) s in
      elim (get_elem? rows i) [
        | none ↦ through
        | some row ↦ if addr_lt hi row.first then through else enrich_rows e hi lo (drop i rows) s
      ]

  unfoldable pub enrich_entry : Entry → AsnTable → S → Bool × S
  enrich_entry e t s = elim (normalize_prefix e.network) [
    | none ↦ yield (e, none) s
    | some network ↦ enrich_network e network t s
  ]

  -- `EnrichASN`: errors of the stream pass through.
  unfoldable pub enrich_asn : List Item → AsnTable → S → Bool × S
  enrich_asn [] t s = (true, s)
  enrich_asn ((e, some err) ∷ entries) t s = and_then (yield (e, some err) s) (enrich_asn entries t)
  enrich_asn ((e, none) ∷ entries) t s = and_then (enrich_entry e t s) (enrich_asn entries t)
