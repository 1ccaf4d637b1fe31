-- ===== src/Plugins/Iptoasn/Fit.antt =====
-- plugins/asn/iptoasn/iptoasn.go: the entries that `Parse` yields.
use cloudip.Base.{
  ◌≡◌, refl, inl, inr, Bool, true, false, Text, codes, text_eq, ◌==◌, List, [], ◌∷◌, All,
  All-append, Bool-cases, Option-cases,
}
use cloudip.Base.Dict.{Dict}
use cloudip.Base.Outcome.{Outcome, Outcome-cases}
use cloudip.Net.Addr.{Addr, unmap}
use cloudip.Net.Prefix.{Prefix, prefix_valid}
use cloudip.Net.Netipx.{Netipx}
use cloudip.Record.{zero_time}
use cloudip.Feed.{Reader}
use cloudip.Asn.{AsnRange, coalesce_asn_ranges}
use cloudip.Plugins.Parsers.{Parsers, IsFit, entry_item-IsFit}
use cloudip.Plugins.Iptoasn.Parse.{
  Exts, ext_at, asn_ext, read_table, piece_items, row_items, range_items, parse_iptoasn,
}

-- `Prefixes` gives valid prefixes; of a range that is not valid it gives none.
unfoldable pub HasValidPrefixes : Netipx → Type 0
HasValidPrefixes N = (a b : Addr) → All (λ p. prefix_valid p ≡ true) (N.prefixes a b)

module _ (P : Parsers) (gunzip : Reader → Outcome Reader) (N : Netipx)
    (range_valid : Addr → Addr → Bool) (sort_rows : List AsnRange → List AsnRange)
    (V : HasValidPrefixes N) where
  iptoasn_named : (codes "iptoasn" == []) ≡ false
  unfolding text_eq
  iptoasn_named = refl

  piece_items-IsFit :
      (ref : Text) (ext : Dict Text) (ps : List Prefix)
      → All (λ p. prefix_valid p ≡ true) ps
      → All (IsFit ref) (piece_items P gunzip N range_valid sort_rows ref ext ps)
  piece_items-IsFit ref ext [] h = tt
  piece_items-IsFit ref ext (p ∷ ps) h = (
    entry_item-IsFit p (codes "iptoasn") [] [] [] ref zero_time ext h.0 iptoasn_named,
    piece_items-IsFit ref ext ps h.1,
  )

  row_items-IsFit :
      (ref : Text) (ext : Dict Text) (row : AsnRange)
      → All (IsFit ref) (row_items P gunzip N range_valid sort_rows ref ext row)
  unfolding row_items HasValidPrefixes
  row_items-IsFit ref ext row = elim (Bool-cases (range_valid (unmap row.first) (unmap row.last))) [
    | inl e ↦ rw (e, row_items) (piece_items-IsFit ref ext _ (V _ _))
    | inr e ↦ rw (e, row_items) (tt, tt)
  ]

  range_items-IsFit :
      (ref : Text) (rows : List AsnRange) (exts : Exts)
      → All (IsFit ref) (range_items P gunzip N range_valid sort_rows ref exts rows)
  unfolding range_items
  range_items-IsFit ref [] exts = tt
  range_items-IsFit ref (row ∷ rows) exts = elim (Option-cases (ext_at row.asn exts)) [
    | inr (ext, e) ↦
        rw (e, range_items)
          (All-append (IsFit ref) _ _ (row_items-IsFit ref ext row)
            (range_items-IsFit ref rows exts))
    | inl e ↦
        rw (e, range_items)
          (All-append (IsFit ref) _ _ (row_items-IsFit ref (asn_ext row) row)
            (range_items-IsFit ref rows ((row.asn, asn_ext row) ∷ exts)))
  ]

  pub parse_iptoasn-IsFit :
      (ref : Text) (r : Reader)
      → All (IsFit ref) (parse_iptoasn P gunzip N range_valid sort_rows ref r)
  unfolding parse_iptoasn
  parse_iptoasn-IsFit ref r = elim (Outcome-cases (read_table P gunzip N range_valid sort_rows r)) [
    | inr (e, e1) ↦ rw (e1, parse_iptoasn) (tt, tt)
    | inl (rows, e1) ↦
        rw (e1, parse_iptoasn) (range_items-IsFit ref (coalesce_asn_ranges sort_rows rows) [])
  ]
