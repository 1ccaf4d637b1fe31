-- ===== src/Asn/Announced.antt =====
-- attribution/asn.go: the enrichment over a table that `NewASNTable` makes of any rows, whatever
-- their order: what a record is stamped with, read off the rows that the table was made from.
use mathlib.Core.List.{Permᴰ, append-nil, append_assoc}
use mathlib.Core.List.Permᴰ
use mathlib.Core.Path.{subst}
use cloudip.Base.{
  ℕ, ◌<◌, ◌≡◌, refl, sym, ◌∙◌, Bool, true, false, ◌&&◌, Text, List, [], ◌∷◌, ◌++◌, Option, none,
  some, All, All-imp, ◌⊎◌, inl, inr, if◌then◌else◌, ltb, Bool-cases, arith,
}
use cloudip.Net.Addr.{is4}
use cloudip.Net.Plain.{value, size, addr_of}
use cloudip.Net.Prefix.{Prefix, prefix_contains}
use cloudip.Net.Netipx.{Netipx, IsLawful, IsNetwork}
use cloudip.Base.Streams.{keep_all}
use cloudip.Record.{Entry}
use cloudip.Build.Normalize.{normalize_prefix}
use cloudip.Asn.{
  AsnRange, AsnTable, unmap_row, usable, same_bool, add_row, add_rows, new_asn_table,
  coalesce_asn_ranges,
}
use cloudip.Asn.StepLaw.{IsRow, announces, origin}
use cloudip.Asn.Coalesce.{IsOrdered}
use cloudip.Asn.Table.{
  IsRowSort, IsAddress, All-perm, new_asn_table-IsAsnTable, coalesce_asn_ranges_lem,
  add_rows-HasRows,
}
use cloudip.Asn.Enrich.{enrich_asn, stamp}
use cloudip.Asn.Enrich.Cover.{records_at}
use cloudip.Asn.Enrich.Entries.{table_rows}
use cloudip.Asn.Enrich.Whole.{records_at-enrich_asn}

-- The rows of one family that a table takes, in the order given, with their bounds unmapped.
abbrev pub announcements : Bool → List AsnRange → List AsnRange
announcements f [] = []
announcements f (r ∷ rows) =
    if usable (unmap_row r) && same_bool f (is4 (AsnRange.first (unmap_row r)))
    then unmap_row r ∷ announcements f rows
    else announcements f rows

-- The row covers the address, and starts before the address given.
abbrev earlier : ℕ → ℕ → AsnRange → Bool
earlier x start s = announces s x && ltb (value s.first) start

-- Some row of the list has P.
abbrev pub Any : (AsnRange → Type 0) → List AsnRange → Type 0
Any P [] = ⊥
Any P (r ∷ rows) = P r ⊎ Any P rows

-- The row covers the address and has the system and the organisation; no row that covers the
-- address starts earlier.
abbrev pub IsOrigin : List AsnRange → ℕ → ℕ × Text → AsnRange → Type 0
IsOrigin rows x (asn, org) r =
    (announces r x ≡ true)
    × (r.asn ≡ asn)
    × (r.org ≡ org)
    × All (λ s. earlier x (value r.first) s ≡ false) rows

-- What an address should be stamped with: nothing where no row covers it.
abbrev pub Announced : List AsnRange → ℕ → Option (ℕ × Text) → Type 0
Announced rows x none = All (λ r. announces r x ≡ false) rows
Announced rows x (some o) = Any (IsOrigin rows x o) rows

Any-perm : (P : AsnRange → Type 0) {xs ys : List AsnRange} → Permᴰ xs ys → Any P xs → Any P ys
Any-perm P Permᴰ.nil h = h
Any-perm P (Permᴰ.cons e p) (inl h) = inl (subst P e h)
Any-perm P (Permᴰ.cons e p) (inr h) = inr (Any-perm P p h)
Any-perm P (Permᴰ.swap e d) (inl h) = inr (inl (subst P e h))
Any-perm P (Permᴰ.swap e d) (inr (inl h)) = inl (subst P d h)
Any-perm P (Permᴰ.swap e d) (inr (inr h)) = inr (inr h)
Any-perm P (Permᴰ.trans p q) h = Any-perm P q (Any-perm P p h)

Any-imp :
    (P Q : AsnRange → Type 0) (xs : List AsnRange)
    → ((r : AsnRange) → P r → Q r)
    → Any P xs
    → Any Q xs
Any-imp P Q [] h a = a
Any-imp P Q (x ∷ xs) h (inl p) = inl (h x p)
Any-imp P Q (x ∷ xs) h (inr a) = inr (Any-imp P Q xs h a)

-- The announcement of an address does not depend on the order of the rows.
Announced-perm :
    (xs ys : List AsnRange) (x : ℕ) (o : Option (ℕ × Text))
    → Permᴰ xs ys
    → Announced xs x o
    → Announced ys x o
Announced-perm xs ys x none p h = All-perm (λ r. announces r x ≡ false) p h
Announced-perm xs ys x (some o) p h = Any-perm (IsOrigin ys x o) p (
    Any-imp (IsOrigin xs x o) (IsOrigin ys x o) xs
      (λ r i. (i.0, i.1, i.2, All-perm (λ s. earlier x (value r.first) s ≡ false) p i.3)) h)

-- The loop of `NewASNTable` over one row, on the rows of one family.
table_rows-add_row :
    (f : Bool) (t : AsnTable) (r : AsnRange)
    → table_rows f (add_row t r)
      ≡ (if usable r && same_bool f (is4 r.first) then table_rows f t ++ r ∷ [] else table_rows f t)
unfolding add_row
table_rows-add_row true t r = ground arith
table_rows-add_row false t r = ground arith

table_rows-add_rows :
    (f : Bool) (t : AsnTable) (rows : List AsnRange)
    → table_rows f (add_rows t rows) ≡ table_rows f t ++ announcements f rows
unfolding add_rows
table_rows-add_rows f t [] = sym (append-nil (table_rows f t))
table_rows-add_rows f t (r ∷ rows) =
    let ih = table_rows-add_rows f (add_row t (unmap_row r)) rows in
    let one = table_rows-add_row f t (unmap_row r) in
    ih
    ∙ elim (Bool-cases (usable (unmap_row r) && same_bool f (is4 (AsnRange.first (unmap_row r))))) [
      | inl taken ↦ rw (one, taken, append_assoc) refl
      | inr left ↦ rw (one, left) refl
    ]

-- A row that does not cover the address changes nothing.
Announced-skip :
    (r : AsnRange) (rows : List AsnRange) (x : ℕ) (o : Option (ℕ × Text))
    → announces r x ≡ false
    → Announced rows x o
    → Announced (r ∷ rows) x o
Announced-skip r rows x none miss a = (miss, a)
Announced-skip r rows x (some o) miss a = inr (
    Any-imp (IsOrigin rows x o) (IsOrigin (r ∷ rows) x o) rows
      (λ s i. (i.0, i.1, i.2, (rw miss refl, i.3))) a)

-- In sorted rows the first that covers an address starts before the others that cover it.
origin-Announced :
    (rows : List AsnRange) (x : ℕ) → IsOrdered rows → Announced rows x (origin rows x)
origin-Announced [] x h = tt
origin-Announced (r ∷ rows) x h = elim (Bool-cases (announces r x)) [
  | inl hit ↦
      rw hit
        (inl (hit, refl, refl, (ground arith, All-imp _ _ rows (λ s le. ground (arith, le)) h.0)))
  | inr miss ↦ rw miss (Announced-skip r rows x (origin rows x) miss (origin-Announced rows x h.1))
]

module _ (sort_rows : List AsnRange → List AsnRange) (sorts : IsRowSort sort_rows)
    (rows : List AsnRange) (valid : All (λ r. IsAddress r.first × IsAddress r.last) rows) where
  no_rows : AsnTable
  no_rows = record { v4 = []; v6 = [] }

  announcements-IsRow : (f : Bool) → All (IsRow f) (announcements f rows)
  unfolding no_rows
  announcements-IsRow true =
      let h = add_rows-HasRows no_rows rows (record { rows4 = tt; rows6 = tt }) valid in
      subst (All (IsRow true)) (table_rows-add_rows true no_rows rows) h.rows4
  announcements-IsRow false =
      let h = add_rows-HasRows no_rows rows (record { rows4 = tt; rows6 = tt }) valid in
      subst (All (IsRow false)) (table_rows-add_rows false no_rows rows) h.rows6

  coalesced-Announced :
      (f : Bool) (x : ℕ)
      → Announced
          (announcements f rows)
          x
          (origin (coalesce_asn_ranges sort_rows (announcements f rows)) x)
  coalesced-Announced f x =
      let ys = announcements f rows in
      let (_, same) = coalesce_asn_ranges_lem sort_rows sorts f ys (announcements-IsRow f) in
      rw (same x) (
        Announced-perm (sort_rows ys) ys x _ (Permᴰ.symm (sorts.permutes ys))
          (origin-Announced (sort_rows ys) x (sorts.ordered ys)))

  pub origin-new_asn_table :
      (f : Bool) (x : ℕ)
      → Announced (announcements f rows) x (origin (table_rows f (new_asn_table sort_rows rows)) x)
  unfolding new_asn_table no_rows
  origin-new_asn_table true x =
      rw (table_rows-add_rows true no_rows rows) (coalesced-Announced true x)
  origin-new_asn_table false x =
      rw (table_rows-add_rows false no_rows rows) (coalesced-Announced false x)

  module _ (N : Netipx) (L : IsLawful N) (f : Bool) (x : ℕ) (inside : x < size f) where
    -- An entry of a valid network that `normalizePrefix` takes, and any rows, none with a zone:
    -- where `EnrichASN` runs with the table that `NewASNTable` makes of the rows, each address of
    -- the entry has exactly one record, the entry's own. It is stamped with the system and the
    -- organisation of a row of the address's family that covers the address, of those that do one
    -- that starts first; where no row of the family covers the address, it is unstamped. No other
    -- address has any record.
    pub enrich_asn-Announced :
        (e : Entry) (network : Prefix)
        → normalize_prefix e.network ≡ some network
        → IsNetwork f network
        → (o : Option (ℕ × Text)) × Announced (announcements f rows) x o
          × (records_at
                (enrich_asn N keep_all ((e, none) ∷ []) (new_asn_table sort_rows rows) []).1
                (addr_of f x)
              ≡ (if prefix_contains network (addr_of f x) then stamp e.attribution o ∷ [] else []))
    enrich_asn-Announced e network h n = (
      origin (table_rows f (new_asn_table sort_rows rows)) x,
      origin-new_asn_table f x,
      records_at-enrich_asn N L f x inside e network (new_asn_table sort_rows rows) h n
          (new_asn_table-IsAsnTable sort_rows sorts rows valid),
    )
