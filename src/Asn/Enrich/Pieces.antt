-- ===== src/Asn/Enrich/Pieces.antt =====
-- attribution/asn.go: the pieces that the enrichment of an entry, or of a stream, is made of.
use cloudip.Base.{
  ℕ, ◌≡◌, refl, ◌∙◌, sym, Bool, true, false, Text, List, [], ◌∷◌, ◌++◌, map, Option, none, some,
  length, get_elem?, drop, if◌then◌else◌, inl, inr, Bool-cases, Option-cases,
}
use cloudip.Base.Streams.{Yield, and_then, each, each-append, and_then_congr, and_then_eta}
use cloudip.Net.Addr.{Addr, is4, addr_le, addr_lt, next, prev}
use cloudip.Net.Prefix.{Prefix}
use cloudip.Net.Netipx.{Netipx}
use cloudip.Record.{Entry, Item}
use cloudip.Build.Normalize.{normalize_prefix}
use cloudip.Asn.{AsnRange, AsnTable}
use cloudip.Asn.Enrich.{
  stamp, min_addr, max_addr, ends_behind, sort_search, yield_range, enrich_rows, enrich_network,
  enrich_entry, enrich_asn,
}

module _ (N : Netipx) where
  abbrev pub range_items : Entry → Addr → Addr → Option (ℕ × Text) → List Item
  range_items e first last row =
      let rec = stamp e.attribution row in
      map (λ p. (record { network = p; attribution = rec }, none)) (N.prefixes first last)

  unfoldable pub rows_items : Entry → Addr → Addr → List AsnRange → List Item
  rows_items e hi cur [] = range_items e cur hi none
  rows_items e hi cur (row ∷ rows) =
      let ov_lo = max_addr row.first cur in
      let ov_hi = min_addr row.last hi in
      elim (addr_le row.first hi) [
        | false ↦ range_items e cur hi none
        | true ↦ elim (addr_lt ov_hi ov_lo) [
          | true ↦ rows_items e hi cur rows
          | false ↦
              (if addr_lt cur ov_lo then range_items e cur (prev ov_lo) none else [])
              ++ (range_items e ov_lo ov_hi (some (row.asn, row.org)) ++ (elim (addr_le hi ov_hi) [
                | true ↦ []
                | false ↦ rows_items e hi (next ov_hi) rows
              ]))
        ]
      ]

  unfoldable pub network_items : Entry → Prefix → AsnTable → List Item
  network_items e network t =
      let rows = if is4 network.addr then t.v4 else t.v6 in
      let (lo, hi) = N.range_of_prefix network in
      let i = sort_search (length rows) (ends_behind rows lo) in
      let through : List Item = (record e { network = network }, none) ∷ [] in
      elim (get_elem? rows i) [
        | none ↦ through
        | some row ↦ if addr_lt hi row.first then through else rows_items e hi lo (drop i rows)
      ]

  -- The pieces of one entry.
  unfoldable pub entry_items : Entry → AsnTable → List Item
  entry_items e t = elim (normalize_prefix e.network) [
    | none ↦ (e, none) ∷ []
    | some network ↦ network_items e network t
  ]

  -- The stream behind `EnrichASN`, as a list.
  unfoldable pub stream_items : List Item → AsnTable → List Item
  stream_items [] t = []
  stream_items ((e, some err) ∷ entries) t = (e, some err) ∷ stream_items entries t
  stream_items ((e, none) ∷ entries) t = entry_items e t ++ stream_items entries t

  module _ {S : Type 0} (yield : Yield Item S) where
    one-each : (x : Item) (s : S) → yield x s ≡ each (x ∷ []) yield s
    one-each x s = sym (and_then_eta (yield x s))

    gap-each :
        (c : Bool) (e : Entry) (a b : Addr) (s : S)
        → (if c then yield_range N yield e a b none s else (true, s))
          ≡ each (if c then range_items e a b none else []) yield s
    unfolding yield_range
    gap-each true e a b s = refl
    gap-each false e a b s = refl

    -- One announced range, with the gap before it and what follows it.
    announced-each :
        (c last : Bool) (e : Entry) (a b lo hi : Addr) (row : Option (ℕ × Text)) (rest : List Item)
        (k : S → Bool × S)
        → ((s : S) → k s ≡ each rest yield s)
        → (s : S)
        → and_then (if c then yield_range N yield e a b none s else (true, s)) (λ s1.
          and_then
            (yield_range N yield e lo hi row s1)
            (λ s2. elim last [ true ↦ (true, s2) | false ↦ k s2 ]))
          ≡ each
              ((if c then range_items e a b none else [])
                ++ (range_items e lo hi row ++ (elim last [ true ↦ [] | false ↦ rest ])))
              yield
              s
    unfolding yield_range
    announced-each c true e a b lo hi row rest k h s =
        and_then_congr _ _ _ _ (gap-each c e a b s) (λ s1. sym (each-append _ [] yield s1))
        ∙ sym (each-append _ _ yield s)
    announced-each c false e a b lo hi row rest k h s =
        and_then_congr _ _ _ _ (gap-each c e a b s)
          (λ s1. and_then_congr _ _ _ _ refl h ∙ sym (each-append _ rest yield s1))
        ∙ sym (each-append _ _ yield s)

    enrich_rows-each :
        (e : Entry) (hi cur : Addr) (rows : List AsnRange) (s : S)
        → enrich_rows N yield e hi cur rows s ≡ each (rows_items e hi cur rows) yield s
    unfolding enrich_rows rows_items
    enrich_rows-each e hi cur [] s = unfold yield_range in refl
    enrich_rows-each e hi cur (row ∷ rows) s = elim (Bool-cases (addr_le row.first hi)) [
      | inr out ↦ rw (out, enrich_rows, rows_items) (unfold yield_range in refl)
      | inl within ↦ elim (Bool-cases (addr_lt (min_addr row.last hi) (max_addr row.first cur))) [
        | inl apart ↦ rw (within, apart, enrich_rows, rows_items) (enrich_rows-each e hi cur rows s)
        | inr meets ↦
            rw (within, meets, enrich_rows, rows_items)
              (announced-each (addr_lt cur (max_addr row.first cur))
                (addr_le hi (min_addr row.last hi)) e cur _ _ _ _ _ _
                (enrich_rows-each e hi (next (min_addr row.last hi)) rows) s)
      ]
    ]

    enrich_network-each :
        (e : Entry) (network : Prefix) (t : AsnTable) (s : S)
        → enrich_network N yield e network t s ≡ each (network_items e network t) yield s
    unfolding enrich_network network_items
    enrich_network-each e network t s = go _ (addr_lt (N.range_of_prefix network).1)
      where
        lo : Addr
        lo = (N.range_of_prefix network).0

        rows : List AsnRange
        rows = if is4 network.addr then t.v4 else t.v6

        go :
            (i : ℕ) (test : Addr → Bool)
            → ◌≡◌ {A = Bool × S}
                (elim (get_elem? rows i) [
                  | none ↦ yield (record e { network = network }, none) s
                  | some row ↦
                      if test row.first
                      then yield (record e { network = network }, none) s
                      else enrich_rows N yield e (N.range_of_prefix network).1 lo (drop i rows) s
                ])
                (each
                  (elim (get_elem? rows i) [
                    | none ↦ (record e { network = network }, none) ∷ []
                    | some row ↦
                        if test row.first
                        then (record e { network = network }, none) ∷ []
                        else rows_items e (N.range_of_prefix network).1 lo (drop i rows)
                  ])
                  yield
                  s)
        go i test = elim (Option-cases (get_elem? rows i)) [
          | inl e0 ↦ rw e0 (one-each _ s)
          | inr (row, e1) ↦ elim (Bool-cases (test row.first)) [
            | inl b ↦ rw (e1, b) (one-each _ s)
            | inr b ↦ rw (e1, b) (enrich_rows-each e _ lo (drop i rows) s)
          ]
        ]

    enrich_entry-each :
        (e : Entry) (t : AsnTable) (s : S)
        → enrich_entry N yield e t s ≡ each (entry_items e t) yield s
    unfolding enrich_entry entry_items
    enrich_entry-each e t s = elim (Option-cases (normalize_prefix e.network)) [
      | inl e0 ↦ rw (e0, enrich_entry, entry_items) (one-each (e, none) s)
      | inr (network, e1) ↦ rw (e1, enrich_entry, entry_items) (enrich_network-each e network t s)
    ]

    -- Whatever the consumer is and wherever it stops, `EnrichASN` hands it the pieces in order.
    pub enrich_asn-each :
        (entries : List Item) (t : AsnTable) (s : S)
        → enrich_asn N yield entries t s ≡ each (stream_items entries t) yield s
    unfolding enrich_asn stream_items
    enrich_asn-each [] t s = refl
    enrich_asn-each ((e, some err) ∷ entries) t s =
        and_then_congr _ _ _ _ refl (enrich_asn-each entries t)
    enrich_asn-each ((e, none) ∷ entries) t s =
        and_then_congr _ _ _ _ (enrich_entry-each e t s) (enrich_asn-each entries t)
        ∙ sym (each-append _ _ yield s)
