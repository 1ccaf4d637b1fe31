-- ===== src/Plugins/Iptoasn.antt =====
-- plugins/asn/iptoasn/iptoasn.go: the table of announced ranges. Inflating the input and cutting it
-- into lines are not modelled: the lines are an argument, with the error that the scan ends with.
pub mod Parse
pub mod Fit
use cloudip.Base.{
  ℕ, ◌^◌, ◌<◌, ◌≡◌, sym, inl, inr, false, ◌||◌, Text, codes, text_eq, nat_eq, ◌==◌, List, [], ◌∷◌,
  ◌++◌, Option, none, some, if◌then◌else◌, ltb, All, arith, Bool-cases, Option-cases,
}
use cloudip.Base.Outcome.{Outcome, ok, err, Outcome-cases, ok-inj}
use cloudip.Base.Texts.{trim_space, has_prefix, split, parse_uint, digits_value}
use cloudip.Net.Addr.{Addr}
use cloudip.Record.{Error}
use cloudip.Asn.{AsnRange}

-- The fifth field, the organisation, where the line has one.
unfoldable pub org_of : List Text → Text
org_of (a ∷ b ∷ c ∷ d ∷ org ∷ more) = org
org_of _ = []

parse_uint-bound : (bits : ℕ) (s : Text) (n : ℕ) → parse_uint bits s ≡ some n → n < 2 ^ bits
unfolding parse_uint
parse_uint-bound bits [] n h = absurd (cc)
parse_uint-bound bits (c ∷ s) n h = elim (Option-cases (digits_value 0 (c ∷ s))) [
  | inl e0 ↦ absurd (let h' = rw (e0, parse_uint) at h in cc)
  | inr (m, e1) ↦ elim (Bool-cases (ltb m (2 ^ bits))) [
    | inl e2 ↦
        let h' = rw (e1, e2, parse_uint) at h in
        let same : m ≡ n = cc in rw (sym same) (ground arith)
    | inr e2 ↦ absurd (let h' = rw (e1, e2, parse_uint) at h in cc)
  ]
]

module _ (parse_addr : Text → Outcome Addr) where
  -- One line that is not blank, by its fields: a row, none for unrouted space, or an error.
  unfoldable pub parse_fields : List Text → Outcome (Option AsnRange)
  parse_fields (start ∷ end_ ∷ number ∷ more) = elim (parse_uint 32 number) [
    | none ↦ err (codes "as_number")
    | some asn ↦ if asn == 0 then ok none else (elim (parse_addr start) [
      | err e ↦ err (codes "range_start: " ++ e)
      | ok first ↦ elim (parse_addr end_) [
        | err e ↦ err (codes "range_end: " ++ e)
        | ok last ↦ ok (
            some (record {
              first = first;
              last = last;
              asn = asn;
              org = org_of (start ∷ end_ ∷ number ∷ more);
            }))
      ]
    ])
  ]
  parse_fields _ = err (codes "want at least 3 fields")

  unfoldable pub parse_line : Text → Outcome (Option AsnRange)
  parse_line line =
      let text = trim_space line in
      if text == [] || has_prefix text (codes "#") then ok none else parse_fields (split b'\t' text)

  abbrev with_row : Option AsnRange → List AsnRange → List AsnRange
  with_row none rows = rows
  with_row (some r) rows = r ∷ rows

  -- `ParseTable`
  unfoldable pub parse_table : List Text → Option Error → Outcome (List AsnRange)
  parse_table [] none = ok []
  parse_table [] (some e) = err (codes "read ip2asn: " ++ e)
  parse_table (line ∷ lines) scan = elim (parse_line line) [
    | err e ↦ err (codes "ip2asn line: " ++ e)
    | ok row ↦ elim (parse_table lines scan) [ err e ↦ err e | ok rows ↦ ok (with_row row rows) ]
  ]

  -- A routed AS number of 32 bits.
  pub IsRouted : AsnRange → Type 0
  IsRouted r = ((r.asn == 0) ≡ false) × (r.asn < 2 ^ 32)

  -- What a line gives, if it gives a row.
  IsRow : Option AsnRange → Type 0
  IsRow none = Unit
  IsRow (some r) = IsRouted r

  with_row-IsRouted :
      (row : Option AsnRange) (rows : List AsnRange)
      → IsRow row
      → All IsRouted rows
      → All IsRouted (with_row row rows)
  unfolding IsRow
  with_row-IsRouted none rows r rs = rs
  with_row-IsRouted (some r) rows h rs = (h, rs)

  parse_fields-IsRow :
      (fields : List Text) (row : Option AsnRange) → parse_fields fields ≡ ok row → IsRow row
  unfolding parse_fields IsRow IsRouted
  parse_fields-IsRow [] row h = absurd (cc)
  parse_fields-IsRow (a ∷ []) row h = absurd (cc)
  parse_fields-IsRow (a ∷ b ∷ []) row h = absurd (cc)
  parse_fields-IsRow (a ∷ b ∷ number ∷ more) row h = elim (Option-cases (parse_uint 32 number)) [
    | inl e0 ↦ absurd (let h' = rw (e0, parse_fields) at h in cc)
    | inr (asn, e1) ↦ elim (Bool-cases (asn == 0)) [
      | inl e2 ↦ rw (sym (ok-inj (rw (e1, e2, parse_fields) at h))) tt
      | inr e2 ↦ elim (Outcome-cases (parse_addr a)) [
        | inr (e, e3) ↦ absurd (let h' = rw (e1, e2, e3, parse_fields) at h in cc)
        | inl (first, e3) ↦ elim (Outcome-cases (parse_addr b)) [
          | inr (e, e4) ↦ absurd (let h' = rw (e1, e2, e3, e4, parse_fields) at h in cc)
          | inl (last, e4) ↦
              rw (sym (ok-inj (rw (e1, e2, e3, e4, parse_fields) at h)))
                (e2, parse_uint-bound 32 number asn e1)
        ]
      ]
    ]
  ]

  parse_line-IsRow : (line : Text) (row : Option AsnRange) → parse_line line ≡ ok row → IsRow row
  unfolding parse_line
  parse_line-IsRow line row h =
      elim (Bool-cases (trim_space line == [] || has_prefix (trim_space line) (codes "#"))) [
        | inl e ↦ rw (sym (ok-inj (rw (e, parse_line) at h))) (unfold IsRow in tt)
        | inr e ↦ parse_fields-IsRow (split b'\t' (trim_space line)) row (rw (e, parse_line) at h)
      ]

  -- The rows of a table that parses are of routed space: their numbers are not 0 and have 32 bits.
  pub parse_table-IsRouted :
      (lines : List Text) (scan : Option Error) (rows : List AsnRange)
      → parse_table lines scan ≡ ok rows
      → All IsRouted rows
  unfolding parse_table
  parse_table-IsRouted [] none rows h = rw (sym (ok-inj h)) tt
  parse_table-IsRouted [] (some e) rows h = absurd (cc)
  parse_table-IsRouted (line ∷ lines) scan rows h = elim (Outcome-cases (parse_line line)) [
    | inr (e, e1) ↦ absurd (let h' = rw (e1, parse_table) at h in cc)
    | inl (row, e1) ↦ elim (Outcome-cases (parse_table lines scan)) [
      | inr (e, e2) ↦ absurd (let h' = rw (e1, e2, parse_table) at h in cc)
      | inl (rest, e2) ↦
          let ih = parse_table-IsRouted lines scan rest e2 in
          rw (sym (ok-inj (rw (e1, e2, parse_table) at h)))
            (with_row-IsRouted row rest (parse_line-IsRow line row e1) ih)
    ]
  ]
