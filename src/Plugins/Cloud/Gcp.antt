-- ===== src/Plugins/Cloud/Gcp.antt =====
-- plugins/gcp/gcp.go
use cloudip.Base.{
  ◌≡◌, refl, inl, inr, false, Text, codes, text_eq, nat_eq, ◌==◌, List, [], ◌∷◌, ◌++◌, none, some,
  if◌then◌else◌, All, All-append, Bool-cases,
}
use cloudip.Base.Outcome.{Outcome, ok, err, Outcome-cases}
use cloudip.Record.{Item, Time, zero_time}
use cloudip.Feed.{Reader, ParseFunc, Plugin}
use cloudip.Plugins.Parsers.{
  Parsers, IsLawful, make_record, failed_item, entry_item, IsFit, entry_item-IsFit,
}
use cloudip.Base.Texts.{equal_fold}

pub record GcpPrefix : Type 0 where
  pub ipv4_prefix : Text
  pub ipv6_prefix : Text
  pub service : Text
  pub scope : Text

-- `cloudJSON`
pub record CloudJson : Type 0 where
  pub creation_time : Text
  pub prefixes : List GcpPrefix

unfoldable pub gcp_cidr : GcpPrefix → Text
gcp_cidr p = if p.ipv4_prefix == [] then p.ipv6_prefix else p.ipv4_prefix

unfoldable pub gcp_service : GcpPrefix → Text
gcp_service p = if p.service == [] then codes "Google Cloud" else p.service

unfoldable pub gcp_region : GcpPrefix → Text
gcp_region p = if equal_fold p.scope (codes "global") then [] else p.scope

module _ (P : Parsers) where
  unfoldable pub parse_gcp_time : Text → Time
  parse_gcp_time [] = zero_time
  parse_gcp_time (c ∷ s) = elim (P.parse_time (codes "2006-01-02T15:04:05Z07:00") (c ∷ s)) [
    | some t ↦ t
    | none ↦ elim (P.parse_time (codes "2006-01-02T15:04:05.000000") (c ∷ s)) [
      | some t ↦ t
      | none ↦ zero_time
    ]
  ]

  -- What one row yields: nothing where it has no prefix.
  unfoldable pub gcp_item : Text → Time → GcpPrefix → List Item
  gcp_item ref synced_at p = if gcp_cidr p == [] then [] else (elim (P.parse_prefix (gcp_cidr p)) [
    | err e ↦ failed_item e ∷ []
    | ok pre ↦
        entry_item pre
          (make_record (codes "gcp") (gcp_region p) (gcp_service p ∷ []) [] ref synced_at [])
        ∷ []
  ])

  unfoldable pub gcp_items : Text → Time → List GcpPrefix → List Item
  gcp_items ref synced_at [] = []
  gcp_items ref synced_at (p ∷ rows) = gcp_item ref synced_at p ++ gcp_items ref synced_at rows

  -- `Plugin.Parse`
  unfoldable pub parse_gcp : (Reader → Outcome CloudJson) → ParseFunc
  parse_gcp decode ref r = elim (decode r) [
    | err e ↦ failed_item e ∷ []
    | ok doc ↦ gcp_items ref (parse_gcp_time doc.creation_time) doc.prefixes
  ]

  unfoldable pub gcp : (Reader → Outcome CloudJson) → Plugin
  gcp decode = record {
    name = codes "gcp";
    refs = codes "gcp/cloud.json" ∷ [];
    parse = parse_gcp decode;
    direct_refs = some (codes "https://www.gstatic.com/ipranges/cloud.json" ∷ []);
    rezmoss_refs = some (codes "googlecloud/googlecloud_ips.json" ∷ []);
  }

  module _ (L : IsLawful P) where
    gcp_named : (codes "gcp" == []) ≡ false
    unfolding text_eq
    gcp_named = refl

    gcp_item-IsFit : (ref : Text) (t : Time) (p : GcpPrefix) → All (IsFit ref) (gcp_item ref t p)
    unfolding gcp_item
    gcp_item-IsFit ref t p = elim (Bool-cases (gcp_cidr p == [])) [
      | inl e ↦ rw (e, gcp_item) tt
      | inr e ↦ elim (Outcome-cases (P.parse_prefix (gcp_cidr p))) [
        | inr (x, e1) ↦ rw (e, e1, gcp_item) (tt, tt)
        | inl (pre, e1) ↦
            rw (e, e1, gcp_item)
              (entry_item-IsFit pre _ _ _ _ ref t _ (L.prefix-valid _ pre e1) gcp_named, tt)
      ]
    ]

    gcp_items-IsFit :
        (ref : Text) (t : Time) (rows : List GcpPrefix) → All (IsFit ref) (gcp_items ref t rows)
    unfolding gcp_items
    gcp_items-IsFit ref t [] = tt
    gcp_items-IsFit ref t (p ∷ rows) =
        All-append (IsFit ref) _ _ (gcp_item-IsFit ref t p) (gcp_items-IsFit ref t rows)

    pub parse_gcp-IsFit :
        (decode : Reader → Outcome CloudJson) (ref : Text) (r : Reader)
        → All (IsFit ref) (parse_gcp decode ref r)
    unfolding parse_gcp
    parse_gcp-IsFit decode ref r = elim (Outcome-cases (decode r)) [
      | inr (e, e1) ↦ rw (e1, parse_gcp) (tt, tt)
      | inl (doc, e1) ↦ rw (e1, parse_gcp) (gcp_items-IsFit ref _ doc.prefixes)
    ]
