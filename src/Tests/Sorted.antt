-- ===== src/Tests/Sorted.antt =====
-- A run of the enrichment over a table made of unsorted rows, with a sort by insertion.
use mathlib.Core.List.{Permᴰ}
use mathlib.Core.List.Permᴰ
use cloudip.Base.{
  ℕ, ◌<◌, map, some, ◌≤◌, ◌≡◌, refl, inl, inr, true, Text, List, [], ◌∷◌, Option, none, All,
  All-imp, if◌then◌else◌, leb, Bool-cases, arith,
}
use cloudip.Base.Streams.{keep_all}
use cloudip.Net.Addr.{v4}
use cloudip.Net.Plain.{size, value}
use cloudip.Net.Prefix.{prefix_contains}
use cloudip.Asn.{AsnRange, new_asn_table}
use cloudip.Asn.Announced.{Announced, announcements, enrich_asn-Announced}
use cloudip.Asn.Coalesce.{IsOrdered}
use cloudip.Asn.Table.{IsRowSort, IsAddress}
use cloudip.Asn.Enrich.{enrich_asn, stamp}
use cloudip.Asn.Enrich.Cover.{records_at}
use cloudip.Tests.Announcements.{row}
use cloudip.Tests.Builds.{ten_entry, slots, slots-IsLawful, opts}
use cloudip.Record.{Entry, Item}
use cloudip.Build.{build}
use cloudip.Build.Result.{Sums}
use cloudip.Base.Outcome.{ok}
use cloudip.Asn.Built.{build-enrich_asn, stored_v4}
use cloudip.Asn.Enrich.Networks.{AreNetworks}
use cloudip.Tests.Ranges.{cut, cut-IsLawful, net, taken, v4-IsPlain}

abbrev insert_row : AsnRange → List AsnRange → List AsnRange
insert_row r [] = r ∷ []
insert_row r (s ∷ rows) =
    if leb (value r.first) (value s.first) then r ∷ s ∷ rows else s ∷ insert_row r rows

abbrev pub sort_by_first : List AsnRange → List AsnRange
sort_by_first [] = []
sort_by_first (r ∷ rows) = insert_row r (sort_by_first rows)

insert_row-perm : (r : AsnRange) (rows : List AsnRange) → Permᴰ (r ∷ rows) (insert_row r rows)
insert_row-perm r [] = Permᴰ.refl (r ∷ [])
insert_row-perm r (s ∷ rows) = elim (Bool-cases (leb (value r.first) (value s.first))) [
  | inl e ↦ rw e (Permᴰ.refl (r ∷ s ∷ rows))
  | inr e ↦ rw e (Permᴰ.trans (Permᴰ.swap refl refl) (Permᴰ.cons refl (insert_row-perm r rows)))
]

sort_by_first-perm : (rows : List AsnRange) → Permᴰ rows (sort_by_first rows)
sort_by_first-perm [] = Permᴰ.nil
sort_by_first-perm (r ∷ rows) =
    Permᴰ.trans (Permᴰ.cons refl (sort_by_first-perm rows)) (insert_row-perm r (sort_by_first rows))

All-insert_row :
    (k : ℕ) (r : AsnRange) (rows : List AsnRange)
    → k ≤ value r.first
    → All (λ s. k ≤ value s.first) rows
    → All (λ s. k ≤ value s.first) (insert_row r rows)
All-insert_row k r [] h a = (h, tt)
All-insert_row k r (s ∷ rows) h a = elim (Bool-cases (leb (value r.first) (value s.first))) [
  | inl e ↦ rw e (h, a)
  | inr e ↦ rw e (a.0, All-insert_row k r rows h a.1)
]

insert_row-IsOrdered :
    (r : AsnRange) (rows : List AsnRange) → IsOrdered rows → IsOrdered (insert_row r rows)
insert_row-IsOrdered r [] h = (tt, tt)
insert_row-IsOrdered r (s ∷ rows) h = elim (Bool-cases (leb (value r.first) (value s.first))) [
  | inl e ↦
      let le : value r.first ≤ value s.first = ground arith in
      rw e ((le, All-imp _ _ rows (λ t q. omega (arith, q, le)) h.0), h)
  | inr e ↦
      rw e
        (All-insert_row (value s.first) r rows (ground arith) h.0, insert_row-IsOrdered r rows h.1)
]

sort_by_first-IsOrdered : (rows : List AsnRange) → IsOrdered (sort_by_first rows)
sort_by_first-IsOrdered [] = tt
sort_by_first-IsOrdered (r ∷ rows) =
    insert_row-IsOrdered r (sort_by_first rows) (sort_by_first-IsOrdered rows)

sort_by_first-IsRowSort : IsRowSort sort_by_first
sort_by_first-IsRowSort = record {
  permutes = sort_by_first-perm;
  ordered = sort_by_first-IsOrdered;
}

-- Out of order, with an overlap.
abbrev unsorted : List AsnRange
unsorted = row 0x0a000080 0x0a0001ff 64500 ∷ row 0x0a000000 0x0a0000ff 13335 ∷ []

unsorted-IsAddress : All (λ r. IsAddress r.first × IsAddress r.last) unsorted
unsorted-IsAddress = (
  (inr (inl (refl, omega arith)), inr (inl (refl, omega arith))),
  ((inr (inl (refl, omega arith)), inr (inl (refl, omega arith))), tt),
)

enrich_asn-Announced_example :
    (o : Option (ℕ × Text)) × Announced (announcements true unsorted) 0x0a0000c0 o
    × (records_at
          (enrich_asn cut keep_all
            ((ten_entry, none) ∷ [])
            (new_asn_table sort_by_first unsorted)
            []).1
          (v4 0x0a0000c0)
        ≡ (if prefix_contains net (v4 0x0a0000c0) then stamp ten_entry.attribution o ∷ [] else []))
enrich_asn-Announced_example =
    enrich_asn-Announced sort_by_first sort_by_first-IsRowSort unsorted unsorted-IsAddress cut
      cut-IsLawful true 0x0a0000c0 (omega arith) ten_entry net taken
      (v4-IsPlain 0x0a000000 (omega arith), refl)

-- Two entries, the second within the first.
abbrev inner_entry : Entry
inner_entry = record ten_entry { network = record { addr = v4 0x0a000000; len = some 24 } }

abbrev two_entries : List Item
two_entries = (ten_entry, none) ∷ (inner_entry, none) ∷ []

two_networks : AreNetworks true two_entries
two_networks =
    ((v4-IsPlain 0x0a000000 (omega arith), refl), ((v4-IsPlain 0x0a000000 (omega arith), refl), tt))

build-enrich_asn_example :
    (u : slots.State) × ((build slots
        (enrich_asn cut keep_all two_entries (new_asn_table sort_by_first unsorted) []).1
        opts).1
      ≡ ok u)
    × ((x : ℕ)
        → x < size true
        → (o : Option (ℕ × Text)) × Announced (announcements true unsorted) x o
          × Sums (map (λ r. stored_v4 (stamp r o)) (records_at two_entries (v4 x))) (u (v4 x)))
build-enrich_asn_example =
    build-enrich_asn sort_by_first sort_by_first-IsRowSort unsorted unsorted-IsAddress cut
      cut-IsLawful slots slots-IsLawful (λ p n. refl) two_entries opts (λ x. none) two_networks
      (omega arith) refl (λ u. refl)
