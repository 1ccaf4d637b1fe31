-- ===== src/Asn/Enrich/Entries.antt =====
-- attribution/asn.go: the records that `enrichEntry` gives at an address.
use native.Mathlib.Nat.{le_refl}
use cloudip.Base.{
  ℕ, zero, suc, ◌≤◌, ◌<◌, ◌≡◌, refl, ◌∙◌, sym, ap, Bool, true, false, List, [], ◌∷◌, Option, none,
  some, length, get_elem?, drop, if◌then◌else◌, inl, inr, Bool-cases, Option-cases, arith, All-imp,
}
use cloudip.Net.Addr.{addr_lt}
use cloudip.Net.Prefix.{Prefix, prefix_contains}
use cloudip.Net.Plain.{size, value, addr_of, addr_lt_plain}
use cloudip.Net.Netipx.{Netipx, IsLawful, IsNetwork}
use cloudip.Record.{Entry, Item}
use cloudip.Build.Normalize.{normalize_prefix}
use cloudip.Asn.{AsnRange, AsnTable}
use cloudip.Asn.StepLaw.{origin, is4_plain}
use cloudip.Asn.Coalesce.{IsTable, origin_before}
use cloudip.Asn.Enrich.{stamp, ends_behind, sort_search}
use cloudip.Asn.Enrich.Pieces.{rows_items, network_items, entry_items}
use cloudip.Asn.Enrich.Cover.{records_at, between, stamp-none}
use cloudip.Asn.Enrich.Exact.{records_at-rows}
use cloudip.Asn.Enrich.Search.{found_rows, drop-IsTable}

-- The rows of one family.
abbrev pub table_rows : Bool → AsnTable → List AsnRange
table_rows f t = if f then t.v4 else t.v6

pub record IsAsnTable (t : AsnTable) : Type 0 where
  pub v4_rows : IsTable true t.v4
  pub v6_rows : IsTable false t.v6

pub table_rows-IsTable : (f : Bool) (t : AsnTable) → IsAsnTable t → IsTable f (table_rows f t)
table_rows-IsTable true t w = w.v4_rows
table_rows-IsTable false t w = w.v6_rows

abbrev DropAt : List AsnRange → ℕ → Option AsnRange → Type 0
DropAt rows i none = drop i rows ≡ []
DropAt rows i (some row) = drop i rows ≡ row ∷ drop (suc i) rows

drop_at : (rows : List AsnRange) (i : ℕ) → DropAt rows i (get_elem? rows i)
drop_at [] zero = refl
drop_at [] (suc i) = refl
drop_at (r ∷ rows) zero = refl
drop_at (r ∷ rows) (suc i) = drop_at rows i

module _ (N : Netipx) (L : IsLawful N) (f : Bool) (x : ℕ) (inside : x < size f) where
  -- What `enrichEntry` yields from the row at index `i` on.
  abbrev found_items : Entry → Prefix → List AsnRange → ℕ → List Item
  found_items e network rows i = elim (get_elem? rows i) [
    | none ↦ (record e { network = network }, none) ∷ []
    | some row ↦
        if addr_lt (N.range_of_prefix network).1 row.first
        then (record e { network = network }, none) ∷ []
        else rows_items N e (N.range_of_prefix network).1 (N.range_of_prefix network).0
            (drop i rows)
  ]

  module _ (e : Entry) (network : Prefix) (rows : List AsnRange) (i : ℕ) (n : IsNetwork f network)
      (t : IsTable f (drop i rows))
      (same : value (N.range_of_prefix network).0 ≤ x
        → origin (drop i rows) x ≡ origin rows x) where
    through_at :
        (between (value (N.range_of_prefix network).0) (value (N.range_of_prefix network).1) x
            ≡ true
          → origin rows x ≡ none)
        → records_at ((record e { network = network }, none) ∷ []) (addr_of f x) ≡ (
            if prefix_contains network (addr_of f x)
            then stamp e.attribution (origin rows x) ∷ []
            else [])
    through_at h = elim (Bool-cases (prefix_contains network (addr_of f x))) [
      | inr out ↦ rw out refl
      | inl hit ↦ rw hit (
          rw
            (
              h (sym (L.range_contains f network x n inside) ∙ hit),
              stamp-none N L f x inside e.attribution,
            )
            refl)
    ]

    late_at :
        (if between (value (N.range_of_prefix network).0) (value (N.range_of_prefix network).1) x
          then stamp e.attribution (origin (drop i rows) x) ∷ []
          else [])
        ≡ (if prefix_contains network (addr_of f x)
            then stamp e.attribution (origin rows x) ∷ []
            else [])
    late_at =
        rw (L.range_contains f network x n inside)
          (elim (Bool-cases (
            between (value (N.range_of_prefix network).0) (value (N.range_of_prefix network).1)
              x)) [ inl b ↦ rw b (rw (same (ground arith)) refl) | inr b ↦ rw b refl ])

    found_items_at : records_at (found_items e network rows i) (addr_of f x) ≡ (
        if prefix_contains network (addr_of f x)
        then stamp e.attribution (origin rows x) ∷ []
        else [])
    found_items_at = elim (Option-cases (get_elem? rows i)) [
      | inl e0 ↦
          let d : drop i rows ≡ [] = rw e0 at (drop_at rows i) in
          rw (e0, records_at) (through_at (λ b. sym (same (ground arith)) ∙ rw d refl))
      | inr (row, e1) ↦
          let d : drop i rows ≡ row ∷ drop (suc i) rows = rw e1 at (drop_at rows i) in
          let t' : IsTable f (row ∷ drop (suc i) rows) = rw d at t in
          let test =
            addr_lt_plain f (N.range_of_prefix network).1 row.first (L.range_last f network n)
              t'.0.0 in
          elim (Bool-cases (addr_lt (N.range_of_prefix network).1 row.first)) [
            | inl early ↦
                rw (e1, early, records_at)
                  (through_at (λ b.
                    sym (same (ground arith))
                    ∙ rw d (
                        origin_before x (value row.first) (row ∷ drop (suc i) rows)
                          (ground (arith, test))
                          (
                            le_refl _,
                            All-imp _ _ (drop (suc i) rows) (λ s q. omega (arith, q, t'.0.2)) t'.1,
                          ))))
            | inr late ↦
                rw (e1, late, records_at)
                  (records_at-rows N L f x inside e _ _ (drop i rows) (L.range_first f network n)
                      (L.range_last f network n) (L.range_le f network n) t
                    ∙ late_at)
          ]
    ]

  abbrev start_of : Prefix → List AsnRange → ℕ
  start_of network rows = sort_search (length rows) (ends_behind rows (N.range_of_prefix network).0)

  network_items-found :
      (e : Entry) (network : Prefix) (t : AsnTable)
      → IsNetwork f network
      → network_items N e network t
        ≡ found_items e network (table_rows f t) (start_of network (table_rows f t))
  unfolding network_items
  network_items-found e network t n =
      ap (λ b. found_items e network (table_rows b t) (start_of network (table_rows b t)))
        (is4_plain f network.addr n.0)

  network_items_at :
      (e : Entry) (network : Prefix) (t : AsnTable)
      → IsNetwork f network
      → IsAsnTable t
      → records_at (network_items N e network t) (addr_of f x) ≡ (
          if prefix_contains network (addr_of f x)
          then stamp e.attribution (origin (table_rows f t) x) ∷ []
          else [])
  network_items_at e network t n w =
      let lo = (N.range_of_prefix network).0 in
      let rows = table_rows f t in
      let is_table = table_rows-IsTable f t w in
      let pl = L.range_first f network n in
      ap (λ items. records_at items (addr_of f x)) (network_items-found e network t n)
      ∙ found_items_at e network rows (start_of network rows) n
          (drop-IsTable f lo pl rows _ is_table) (found_rows f lo pl rows x is_table)

  -- Every address of an entry is given exactly one record: the entry's own, stamped with the
  -- announcement of the first row that covers the address; no other address is given any.
  pub entry_items_at :
      (e : Entry) (network : Prefix) (t : AsnTable)
      → normalize_prefix e.network ≡ some network
      → IsNetwork f network
      → IsAsnTable t
      → records_at (entry_items N e t) (addr_of f x) ≡ (
          if prefix_contains network (addr_of f x)
          then stamp e.attribution (origin (table_rows f t) x) ∷ []
          else [])
  unfolding entry_items
  entry_items_at e network t h n w = rw (h, entry_items) (network_items_at e network t n w)
