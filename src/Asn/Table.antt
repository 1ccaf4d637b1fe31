-- ===== src/Asn/Table.antt =====
-- `NewASNTable` and `CoalesceASNRanges` with their sort.
use mathlib.Core.List.{Permᴰ}
use mathlib.Core.Path.{subst}
use cloudip.Base.{
  ℕ, ◌≡◌, refl, Bool, true, false, List, [], ◌∷◌, All, All-append, ◌⊎◌, inl, inr, Bool-cases, arith,
}
use cloudip.Net.Addr.{Addr, invalid, v4, v6, is4, unmap, is4_in6, is_valid}
use cloudip.Net.Plain.{IsPlain, addr_lt_plain}
use cloudip.Asn.{
  AsnRange, AsnTable, unmap_row, usable, add_row, add_rows, same_bool, coalesce_asn_ranges,
  new_asn_table,
}
use cloudip.Asn.StepLaw.{IsRow, origin}
use cloudip.Asn.Coalesce.{IsTable, IsOrdered, coalesce_sorted-IsTable, origin-coalesce_sorted}
use cloudip.Asn.Enrich.Entries.{IsAsnTable}

-- What `sort.Slice` by `First` promises: the same rows, in order.
pub record IsRowSort (sort_rows : List AsnRange → List AsnRange) : Type 0 where
  pub permutes : (rows : List AsnRange) → Permᴰ rows (sort_rows rows)
  pub ordered : (rows : List AsnRange) → IsOrdered (sort_rows rows)

pub All-perm {κ} :
    (P : AsnRange → Type κ) {xs ys : List AsnRange} → Permᴰ xs ys → All P xs → All P ys
All-perm P Permᴰ.nil h = h
All-perm P (Permᴰ.cons e p) h = (subst P e h.0, All-perm P p h.1)
All-perm P (Permᴰ.swap e d) h = (subst P d h.1.0, (subst P e h.0, h.1.1))
All-perm P (Permᴰ.trans p q) h = All-perm P q (All-perm P p h)

-- An address without a zone, in the range of its family; or the zero value.
abbrev pub IsAddress : Addr → Type 0
IsAddress a = (a ≡ invalid) ⊎ (IsPlain true a ⊎ IsPlain false a)

unmap-IsAddress : (a : Addr) → IsAddress a → IsAddress (unmap a)
unfolding unmap
unmap-IsAddress invalid h = inl refl
unmap-IsAddress (v4 n) h = h
unmap-IsAddress (v6 n z) h = elim (Bool-cases (is4_in6 (v6 n z))) [
  | inl e ↦ rw e (inr (inl (refl, omega arith)))
  | inr e ↦ rw e h
]

-- The family of an address that is one.
family_of : (a : Addr) → IsAddress a → is_valid a ≡ true → IsPlain (is4 a) a
family_of invalid h v = absurd (cc)
family_of (v4 n) h v = ground arith
family_of (v6 n z) h v = ground arith

same_bool_eq : (a b : Bool) → same_bool a b ≡ true → b ≡ a
same_bool_eq true b h = h
same_bool_eq false b h = ground arith

usable-IsRow :
    (r : AsnRange) → IsAddress r.first → IsAddress r.last → usable r ≡ true → IsRow (is4 r.first) r
unfolding usable
usable-IsRow r hf hl u =
    let pf : IsPlain (is4 r.first) r.first = family_of r.first hf (ground arith) in
    let same : is4 r.last ≡ is4 r.first = same_bool_eq (is4 r.first) (is4 r.last) (ground arith) in
    let pl : IsPlain (is4 r.first) r.last = rw same at (family_of r.last hl (ground arith)) in
    (pf, pl, ground (arith, addr_lt_plain (is4 r.first) r.last r.first pl pf))

pub record HasRows (t : AsnTable) : Type 0 where
  pub rows4 : All (IsRow true) t.v4
  pub rows6 : All (IsRow false) t.v6

add_row-HasRows :
    (t : AsnTable) (r : AsnRange)
    → HasRows t
    → IsAddress r.first
    → IsAddress r.last
    → HasRows (add_row t r)
unfolding add_row
add_row-HasRows t r h hf hl = elim (Bool-cases (usable r)) [
  | inr bad ↦ rw bad h
  | inl good ↦
      let row = usable-IsRow r hf hl good in
      elim (Bool-cases (is4 r.first)) [
        | inl b ↦
            rw (good, b)
              (record {
                rows4 = All-append (IsRow true) t.v4 (r ∷ []) h.rows4 (rw b at row, tt);
                rows6 = h.rows6;
              })
        | inr b ↦
            rw (good, b)
              (record {
                rows4 = h.rows4;
                rows6 = All-append (IsRow false) t.v6 (r ∷ []) h.rows6 (rw b at row, tt);
              })
      ]
]

pub add_rows-HasRows :
    (t : AsnTable) (rows : List AsnRange)
    → HasRows t
    → All (λ r. IsAddress r.first × IsAddress r.last) rows
    → HasRows (add_rows t rows)
unfolding add_rows
add_rows-HasRows t [] h a = h
add_rows-HasRows t (r ∷ rows) h a =
    add_rows-HasRows (add_row t (unmap_row r)) rows
      (add_row-HasRows t (unmap_row r) h (unmap-IsAddress r.first a.0.0)
        (unmap-IsAddress r.last a.0.1))
      a.1

module _ (sort_rows : List AsnRange → List AsnRange) (sorts : IsRowSort sort_rows) where
  -- Rows of one family, coalesced: in order and disjoint, and every address keeps the announcement
  -- of the first sorted row that covers it.
  pub coalesce_asn_ranges_lem :
      (f : Bool) (rows : List AsnRange)
      → All (IsRow f) rows
      → IsTable f (coalesce_asn_ranges sort_rows rows)
        × ((x : ℕ) → origin (coalesce_asn_ranges sort_rows rows) x ≡ origin (sort_rows rows) x)
  unfolding coalesce_asn_ranges
  coalesce_asn_ranges_lem f rows h =
      let sorted : All (IsRow f) (sort_rows rows) = All-perm (IsRow f) (sorts.permutes rows) h in
      (
        coalesce_sorted-IsTable f (sort_rows rows) sorted,
        λ x. origin-coalesce_sorted f (sort_rows rows) x sorted (sorts.ordered rows),
      )

  -- Whatever rows the table is made from, if no bound carries a zone, it is in order and disjoint.
  pub new_asn_table-IsAsnTable :
      (rows : List AsnRange)
      → All (λ r. IsAddress r.first × IsAddress r.last) rows
      → IsAsnTable (new_asn_table sort_rows rows)
  unfolding new_asn_table
  new_asn_table-IsAsnTable rows a =
      let h =
        add_rows-HasRows (record { v4 = []; v6 = [] }) rows (record { rows4 = tt; rows6 = tt }) a in
      record {
        v4_rows = (coalesce_asn_ranges_lem true _ h.rows4).0;
        v6_rows = (coalesce_asn_ranges_lem false _ h.rows6).0;
      }
