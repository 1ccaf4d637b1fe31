-- ===== src/Plugins/Reputation/Tor.antt =====
-- plugins/reputation/tor/tor.go
use cloudip.Base.{
  ◌≡◌, refl, inl, inr, false, Text, codes, text_eq, nat_eq, ◌==◌, ◌||◌, List, [], ◌∷◌, Option, none,
  some, if◌then◌else◌, All, Bool-cases,
}
use cloudip.Base.Outcome.{ok, err, Outcome-cases}
use cloudip.Record.{Item, Error, zero_time}
use cloudip.Feed.{Reader, ParseFunc, Plugin}
use cloudip.Plugins.Parsers.{
  Parsers, IsLawful, make_record, failed_item, entry_item, IsFit, entry_item-IsFit, host_prefix,
  host_prefix-valid,
}
use cloudip.Base.Texts.{trim_space, has_prefix}

module _ (P : Parsers) where
  unfoldable pub tor_item : Text → Text → Item
  tor_item ref line = elim (P.parse_addr line) [
    | err e ↦ failed_item e
    | ok addr ↦ entry_item (host_prefix addr) (
        make_record (codes "tor") [] [] (codes "tor_exit" ∷ codes "anonymizer" ∷ []) ref zero_time
          [])
  ]

  -- The loop over the lines.
  unfoldable pub tor_items : Text → List Text → Option Error → List Item
  tor_items ref [] none = []
  tor_items ref [] (some e) = failed_item e ∷ []
  tor_items ref (l ∷ lines) scan =
      let line = trim_space l in
      let rest = tor_items ref lines scan in
      if line == [] || has_prefix line (codes "#") then rest else tor_item ref line ∷ rest

  -- `Plugin.Parse`
  unfoldable pub parse_tor : ParseFunc
  parse_tor ref r = let (lines, scan) = P.scan r in tor_items ref lines scan

  unfoldable pub tor : Plugin
  tor = record {
    name = codes "tor";
    refs = codes "tor/exit-list.txt" ∷ [];
    parse = parse_tor;
    direct_refs = some (codes "https://check.torproject.org/torbulkexitlist" ∷ []);
    rezmoss_refs = none;
  }

  module _ (L : IsLawful P) where
    tor_named : (codes "tor" == []) ≡ false
    unfolding text_eq
    tor_named = refl

    tor_item-IsFit : (ref line : Text) → IsFit ref (tor_item ref line)
    unfolding tor_item
    tor_item-IsFit ref line = elim (Outcome-cases (P.parse_addr line)) [
      | inr (x, e1) ↦ rw (e1, tor_item) tt
      | inl (addr, e1) ↦
          rw (e1, tor_item)
            (entry_item-IsFit (host_prefix addr) _ _ _ _ ref _ _
              (host_prefix-valid addr (L.addr-valid line addr e1)) tor_named)
    ]

    tor_items-IsFit :
        (ref : Text) (lines : List Text) (scan : Option Error)
        → All (IsFit ref) (tor_items ref lines scan)
    unfolding tor_items
    tor_items-IsFit ref [] none = tt
    tor_items-IsFit ref [] (some e) = (tt, tt)
    tor_items-IsFit ref (l ∷ lines) scan =
        elim (Bool-cases (trim_space l == [] || has_prefix (trim_space l) (codes "#"))) [
          | inl e ↦ rw (e, tor_items) (tor_items-IsFit ref lines scan)
          | inr e ↦
              rw (e, tor_items) (tor_item-IsFit ref (trim_space l), tor_items-IsFit ref lines scan)
        ]

    pub parse_tor-IsFit : (ref : Text) (r : Reader) → All (IsFit ref) (parse_tor ref r)
    unfolding parse_tor
    parse_tor-IsFit ref r = tor_items-IsFit ref (P.scan r).0 (P.scan r).1
