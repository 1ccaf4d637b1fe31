-- ===== src/Plugins/Reputation/Spamhaus.antt =====
-- plugins/reputation/spamhaus/spamhaus.go
use cloudip.Base.{
  ◌≡◌, refl, inl, inr, false, Text, codes, text_eq, nat_eq, ◌==◌, ◌||◌, List, [], ◌∷◌, Option, none,
  some, if◌then◌else◌, All, Bool-cases,
}
use cloudip.Base.Outcome.{ok, err, Outcome-cases}
use cloudip.Record.{Item, Error, zero_time}
use cloudip.Feed.{Reader, ParseFunc, Plugin}
use cloudip.Plugins.Parsers.{
  Parsers, IsLawful, make_record, failed_item, entry_item, with_ext, IsFit, entry_item-IsFit,
}
use cloudip.Base.Texts.{trim_space, has_prefix, cut}

-- `splitDROP`
unfoldable pub split_drop : Text → Text × Text
split_drop line = elim (cut b';' line) [
  | some (before, after) ↦ (trim_space before, trim_space after)
  | none ↦ (trim_space line, [])
]

module _ (P : Parsers) where
  unfoldable pub drop_item : Text → Text → Item
  drop_item ref line =
      let fields = split_drop line in
      elim (P.parse_prefix fields.0) [
        | err e ↦ failed_item e
        | ok pre ↦ entry_item pre (
            make_record (codes "spamhaus") [] [] (codes "drop" ∷ codes "hijacked" ∷ []) ref
              zero_time (with_ext (codes "sbl") fields.1 []))
      ]

  -- The loop over the lines.
  unfoldable pub drop_items : Text → List Text → Option Error → List Item
  drop_items ref [] none = []
  drop_items ref [] (some e) = failed_item e ∷ []
  drop_items ref (l ∷ lines) scan =
      let line = trim_space l in
      let rest = drop_items ref lines scan in
      if line == [] || has_prefix line (codes ";") then rest else drop_item ref line ∷ rest

  -- `Plugin.Parse`
  unfoldable pub parse_drop : ParseFunc
  parse_drop ref r = let (lines, scan) = P.scan r in drop_items ref lines scan

  unfoldable pub spamhaus : Plugin
  spamhaus = record {
    name = codes "spamhaus";
    refs = codes "spamhaus/drop.txt" ∷ [];
    parse = parse_drop;
    direct_refs = some (codes "https://www.spamhaus.org/drop/drop.txt" ∷ []);
    rezmoss_refs = none;
  }

  module _ (L : IsLawful P) where
    spamhaus_named : (codes "spamhaus" == []) ≡ false
    unfolding text_eq
    spamhaus_named = refl

    drop_item-IsFit : (ref line : Text) → IsFit ref (drop_item ref line)
    unfolding drop_item
    drop_item-IsFit ref line = elim (Outcome-cases (P.parse_prefix (split_drop line).0)) [
      | inr (x, e1) ↦ rw (e1, drop_item) tt
      | inl (pre, e1) ↦
          rw (e1, drop_item)
            (entry_item-IsFit pre _ _ _ _ ref _ _ (L.prefix-valid _ pre e1) spamhaus_named)
    ]

    drop_items-IsFit :
        (ref : Text) (lines : List Text) (scan : Option Error)
        → All (IsFit ref) (drop_items ref lines scan)
    unfolding drop_items
    drop_items-IsFit ref [] none = tt
    drop_items-IsFit ref [] (some e) = (tt, tt)
    drop_items-IsFit ref (l ∷ lines) scan =
        elim (Bool-cases (trim_space l == [] || has_prefix (trim_space l) (codes ";"))) [
          | inl e ↦ rw (e, drop_items) (drop_items-IsFit ref lines scan)
          | inr e ↦
              rw (e, drop_items)
                (drop_item-IsFit ref (trim_space l), drop_items-IsFit ref lines scan)
        ]

    pub parse_drop-IsFit : (ref : Text) (r : Reader) → All (IsFit ref) (parse_drop ref r)
    unfolding parse_drop
    parse_drop-IsFit ref r = drop_items-IsFit ref (P.scan r).0 (P.scan r).1
