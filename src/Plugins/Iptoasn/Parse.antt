-- ===== src/Plugins/Iptoasn/Parse.antt =====
-- plugins/asn/iptoasn/iptoasn.go: `Parse`, with its cache of ext maps. Inflating gzip input and
-- `netipx.IPRange.IsValid` are parameters.
use cloudip.Base.{
  ℕ, ◌≡◌, refl, sym, ap, ◌∙◌, inl, inr, Bool, true, false, Text, codes, text_eq, nat_eq, ◌==◌, List,
  [], ◌∷◌, ◌++◌, Option, none, some, if◌then◌else◌, Bool-cases, Option-cases, ==-sound, ==-differs,
}
use mathlib.Core.Path.{fun_ext}
use cloudip.Base.Dict.{Dict}
use cloudip.Base.Texts.{decimal, has_prefix}
use cloudip.Base.Outcome.{Outcome, ok, err}
use cloudip.Net.Addr.{Addr, unmap}
use cloudip.Net.Prefix.{Prefix}
use cloudip.Net.Netipx.{Netipx}
use cloudip.Record.{Item, zero_time}
use cloudip.Feed.{Reader, ParseFunc, Plugin}
use cloudip.Asn.{AsnRange, coalesce_asn_ranges}
use cloudip.Asn.Enrich.{ext_asn, ext_as_org}
use cloudip.Plugins.Parsers.{Parsers, make_record, failed_item, entry_item, with_ext}
use cloudip.Plugins.Iptoasn.{parse_table}

-- The map of ext maps by AS number.
abbrev pub Exts : Type 0
Exts = List (ℕ × Dict Text)

unfoldable pub ext_at : ℕ → Exts → Option (Dict Text)
ext_at n [] = none
ext_at n ((m, ext) ∷ exts) = if n == m then some ext else ext_at n exts

-- The ext map made for a row whose number has none yet.
unfoldable pub asn_ext : AsnRange → Dict Text
asn_ext row = (ext_asn, decimal row.asn) ∷ with_ext ext_as_org row.org []

-- The first row of an AS number.
abbrev pub leader : ℕ → List AsnRange → Option AsnRange
leader n [] = none
leader n (r ∷ rows) = if n == r.asn then some r else leader n rows

module _ (P : Parsers) (gunzip : Reader → Outcome Reader) (N : Netipx)
    (range_valid : Addr → Addr → Bool) (sort_rows : List AsnRange → List AsnRange) where
  -- `ParseTable` on its reader.
  unfoldable pub read_table : Reader → Outcome (List AsnRange)
  read_table r =
      let inflated = if has_prefix r.content (0x1f ∷ 0x8b ∷ []) then gunzip r else ok r in
      elim inflated [
        | err e ↦ err (codes "gunzip ip2asn: " ++ e)
        | ok plain ↦ let (lines, scan) = P.scan plain in parse_table P.parse_addr lines scan
      ]

  abbrev pub piece_items : Text → Dict Text → List Prefix → List Item
  piece_items ref ext [] = []
  piece_items ref ext (p ∷ ps) =
      entry_item p (make_record (codes "iptoasn") [] [] [] ref zero_time ext)
      ∷ piece_items ref ext ps

  -- The entries of one row under an ext map.
  unfoldable pub row_items : Text → Dict Text → AsnRange → List Item
  row_items ref ext row =
      if range_valid (unmap row.first) (unmap row.last)
      then piece_items ref ext (N.prefixes (unmap row.first) (unmap row.last))
      else failed_item (codes "ip2asn: invalid range") ∷ []

  -- The loop over the rows, with the map so far.
  unfoldable pub range_items : Text → Exts → List AsnRange → List Item
  range_items ref exts [] = []
  range_items ref exts (row ∷ rows) = elim (ext_at row.asn exts) [
    | some ext ↦ row_items ref ext row ++ range_items ref exts rows
    | none ↦ row_items ref (asn_ext row) row ++ range_items ref ((row.asn, asn_ext row) ∷ exts) rows
  ]

  -- `Plugin.Parse`
  unfoldable pub parse_iptoasn : ParseFunc
  parse_iptoasn ref r = elim (read_table r) [
    | err e ↦ failed_item e ∷ []
    | ok rows ↦ range_items ref [] (coalesce_asn_ranges sort_rows rows)
  ]

  unfoldable pub iptoasn : Plugin
  iptoasn = record {
    name = codes "iptoasn";
    refs = codes "iptoasn/ip2asn-combined.tsv" ∷ [];
    parse = parse_iptoasn;
    direct_refs = some (codes "https://iptoasn.com/data/ip2asn-combined.tsv.gz" ∷ []);
    rezmoss_refs = none;
  }

  -- The rows one after another, each under the ext map that its number is given.
  abbrev pub items_by : Text → (ℕ → Dict Text) → List AsnRange → List Item
  items_by ref ext [] = []
  items_by ref ext (row ∷ rows) = row_items ref (ext row.asn) row ++ items_by ref ext rows

  -- The ext map of the first row of a number.
  abbrev pub leader_ext : List AsnRange → ℕ → Dict Text
  leader_ext rows n = elim (leader n rows) [ none ↦ [] | some r ↦ asn_ext r ]

  abbrev shared : Exts → List AsnRange → ℕ → Dict Text
  shared exts rows n = elim (ext_at n exts) [ some ext ↦ ext | none ↦ leader_ext rows n ]

  leader_ext-own :
      (n : ℕ) (row : AsnRange) (rows : List AsnRange)
      → (n == row.asn) ≡ true
      → leader_ext (row ∷ rows) n ≡ asn_ext row
  leader_ext-own n row rows e = rw (e, leader_ext, leader) refl

  leader_ext-other :
      (n : ℕ) (row : AsnRange) (rows : List AsnRange)
      → (n == row.asn) ≡ false
      → leader_ext (row ∷ rows) n ≡ leader_ext rows n
  leader_ext-other n row rows e = rw (e, leader_ext, leader) refl

  shared-cached :
      (exts : Exts) (row : AsnRange) (rows : List AsnRange) (ext : Dict Text)
      → ext_at row.asn exts ≡ some ext
      → (n : ℕ) → shared exts rows n ≡ shared exts (row ∷ rows) n
  shared-cached exts row rows ext h n = elim (Option-cases (ext_at n exts)) [
    | inr (x, e) ↦ rw (e, shared) refl
    | inl e ↦ elim (Bool-cases (n == row.asn)) [
      | inl own ↦ absurd (let h' = rw (sym (==-sound n row.asn own)) at h in cc)
      | inr other ↦ rw (e, shared) (sym (leader_ext-other n row rows other))
    ]
  ]

  shared-new :
      (exts : Exts) (row : AsnRange) (rows : List AsnRange)
      → ext_at row.asn exts ≡ none
      → (n : ℕ) → shared ((row.asn, asn_ext row) ∷ exts) rows n ≡ shared exts (row ∷ rows) n
  unfolding ext_at
  shared-new exts row rows h n = elim (Bool-cases (n == row.asn)) [
    | inl own ↦
        let h' = rw (sym (==-sound n row.asn own)) at h in
        rw (own, h', shared, ext_at) (sym (leader_ext-own n row rows own))
    | inr other ↦
        rw (other, shared, ext_at)
          (elim (Option-cases (ext_at n exts)) [
            | inr (x, e) ↦ rw (e, shared) refl
            | inl e ↦ rw (e, shared) (sym (leader_ext-other n row rows other))
          ])
  ]

  own_leader :
      (row : AsnRange) (rows : List AsnRange) → leader_ext (row ∷ rows) row.asn ≡ asn_ext row
  own_leader row rows = elim (Bool-cases (row.asn == row.asn)) [
    | inl e ↦ leader_ext-own row.asn row rows e
    | inr e ↦ absurd (==-differs row.asn row.asn e refl)
  ]

  range_items_lem :
      (ref : Text) (rows : List AsnRange) (exts : Exts)
      → range_items ref exts rows ≡ items_by ref (shared exts rows) rows
  unfolding range_items
  range_items_lem ref [] exts = refl
  range_items_lem ref (row ∷ rows) exts = elim (Option-cases (ext_at row.asn exts)) [
    | inr (ext, e) ↦
        rw (e, range_items, shared)
          (ap (λ xs. row_items ref ext row ++ xs)
            (range_items_lem ref rows exts
              ∙ ap (λ g. items_by ref g rows) (fun_ext (shared-cached exts row rows ext e))))
    | inl e ↦
        rw (e, own_leader row rows, range_items, shared)
          (ap (λ xs. row_items ref (asn_ext row) row ++ xs)
            (range_items_lem ref rows ((row.asn, asn_ext row) ∷ exts)
              ∙ ap (λ g. items_by ref g rows) (fun_ext (shared-new exts row rows e))))
  ]

  -- Where the table parses, `Parse` yields its coalesced rows in order, each under the ext map made
  -- from the first row that has its AS number: the number, and the organisation of that first row.
  pub parse_iptoasn_lem :
      (ref : Text) (r : Reader) (rows : List AsnRange)
      → read_table r ≡ ok rows
      → parse_iptoasn ref r
        ≡ items_by ref
            (leader_ext (coalesce_asn_ranges sort_rows rows))
            (coalesce_asn_ranges sort_rows rows)
  unfolding parse_iptoasn ext_at
  parse_iptoasn_lem ref r rows h =
      rw (h, parse_iptoasn) (range_items_lem ref (coalesce_asn_ranges sort_rows rows) [])
