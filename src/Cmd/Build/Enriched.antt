-- ===== src/Cmd/Build/Enriched.antt =====
-- attribution/asn.go, cmd/cloudattr/build.go: what --with-asn makes of a stream without errors.
use cloudip.Base.{
  ℕ, ◌≡◌, ◌∙◌, inl, inr, Bool, true, false, Text, List, [], ◌∷◌, map, Option, none, some, All,
  if◌then◌else◌, Bool-cases, Option-cases,
}
use mathlib.Core.Path.{subst}
use cloudip.Base.Streams.{keep_all, each-keep_all}
use cloudip.Net.Addr.{Addr, addr_le, addr_lt, next, prev}
use cloudip.Net.Prefix.{Prefix, prefix_valid}
use cloudip.Net.Netipx.{Netipx}
use cloudip.Record.{Record, Entry, Item}
use cloudip.Build.Covered.{Covers, normalize_prefix-Covers}
use cloudip.Build.Lookup.{IsClean}
use cloudip.Build.Normalize.{normalize_prefix}
use cloudip.Asn.{AsnRange, AsnTable}
use cloudip.Asn.Enrich.{stamp, min_addr, max_addr, enrich_asn}
use cloudip.Asn.Enrich.Pieces.{
  range_items, rows_items, network_items, entry_items, stream_items, enrich_asn-each,
}
use cloudip.Plugins.Clean.{IsClean-append}
use cloudip.Plugins.Iptoasn.Fit.{HasValidPrefixes}

pieces-IsClean :
    (rec : Record) (ps : List Prefix)
    → All (λ p. prefix_valid p ≡ true) ps
    → IsClean (map (λ p. (record { network = p; attribution = rec }, none)) ps)
pieces-IsClean rec [] h = tt
pieces-IsClean rec (p ∷ ps) h = (h.0, pieces-IsClean rec ps h.1)

module _ (N : Netipx) (V : HasValidPrefixes N) where
  range_items-IsClean :
      (e : Entry) (a b : Addr) (row : Option (ℕ × Text)) → IsClean (range_items N e a b row)
  unfolding HasValidPrefixes
  range_items-IsClean e a b row = pieces-IsClean (stamp e.attribution row) (N.prefixes a b) (V a b)

  gap-IsClean :
      (c : Bool) (e : Entry) (a b : Addr) → IsClean (if c then range_items N e a b none else [])
  gap-IsClean true e a b = range_items-IsClean e a b none
  gap-IsClean false e a b = tt

  rest-IsClean :
      (c : Bool) (xs : List Item) → IsClean xs → IsClean (elim c [ true ↦ [] | false ↦ xs ])
  rest-IsClean true xs h = tt
  rest-IsClean false xs h = h

  rows_items-IsClean :
      (e : Entry) (hi cur : Addr) (rows : List AsnRange) → IsClean (rows_items N e hi cur rows)
  unfolding rows_items
  rows_items-IsClean e hi cur [] = range_items-IsClean e cur hi none
  rows_items-IsClean e hi cur (row ∷ rows) =
      let ov_lo = max_addr row.first cur in
      let ov_hi = min_addr row.last hi in
      elim (Bool-cases (addr_le row.first hi)) [
        | inr out ↦ rw (out, rows_items) (range_items-IsClean e cur hi none)
        | inl within ↦ elim (Bool-cases (addr_lt ov_hi ov_lo)) [
          | inl apart ↦ rw (within, apart, rows_items) (rows_items-IsClean e hi cur rows)
          | inr meets ↦
              rw (within, meets, rows_items)
                (IsClean-append _ _ (gap-IsClean (addr_lt cur ov_lo) e cur (prev ov_lo)) (
                  IsClean-append _ _ (range_items-IsClean e ov_lo ov_hi (some (row.asn, row.org))) (
                    rest-IsClean (addr_le hi ov_hi) _ (rows_items-IsClean e hi (next ov_hi) rows))))
        ]
      ]

  found-IsClean :
      (e : Entry) (network : Prefix) (hi lo : Addr) (rows : List AsnRange) (found : Option AsnRange)
      → prefix_valid network ≡ true
      → IsClean (elim found [
        | none ↦ (record e { network = network }, none) ∷ []
        | some row ↦
            if addr_lt hi row.first
            then (record e { network = network }, none) ∷ []
            else rows_items N e hi lo rows
      ])
  found-IsClean e network hi lo rows none valid = (valid, tt)
  found-IsClean e network hi lo rows (some row) valid = elim (Bool-cases (addr_lt hi row.first)) [
    | inl early ↦ rw early (valid, tt)
    | inr late ↦ rw late (rows_items-IsClean e hi lo rows)
  ]

  network_items-IsClean :
      (e : Entry) (network : Prefix) (t : AsnTable)
      → prefix_valid network ≡ true
      → IsClean (network_items N e network t)
  unfolding network_items
  network_items-IsClean e network t valid = found-IsClean e network _ _ _ _ valid

  entry_items-IsClean :
      (e : Entry) (t : AsnTable) → prefix_valid e.network ≡ true → IsClean (entry_items N e t)
  unfolding entry_items
  entry_items-IsClean e t valid = elim (Option-cases (normalize_prefix e.network)) [
    | inl e0 ↦ rw (e0, entry_items) (valid, tt)
    | inr (network, e1) ↦
        let covers : Covers e.network 0 (some network) =
          subst (Covers e.network 0) e1 (normalize_prefix-Covers e.network 0 valid) in
        rw (e1, entry_items) (network_items-IsClean e network t covers.0)
  ]

  stream_items-IsClean :
      (entries : List Item) (t : AsnTable) → IsClean entries → IsClean (stream_items N entries t)
  unfolding stream_items
  stream_items-IsClean [] t h = tt
  stream_items-IsClean ((e, some error) ∷ entries) t h = absurd h
  stream_items-IsClean ((e, none) ∷ entries) t h =
      IsClean-append _ _ (entry_items-IsClean e t h.0) (stream_items-IsClean entries t h.1)

  -- Enrichment with any table keeps a stream free of errors and of invalid networks.
  pub enrich_asn-IsClean :
      (entries : List Item) (t : AsnTable)
      → IsClean entries
      → IsClean (enrich_asn N keep_all entries t []).1
  enrich_asn-IsClean entries t h =
      rw (enrich_asn-each N keep_all entries t [] ∙ each-keep_all (stream_items N entries t) [])
        (stream_items-IsClean entries t h)
