-- ===== src/Plugins/Cloud/Aws.antt =====
-- plugins/aws/aws.go
use cloudip.Base.{
  ◌≡◌, refl, inl, inr, false, Text, codes, text_eq, ◌==◌, List, [], ◌∷◌, ◌++◌, none, some, All,
  All-append,
}
use cloudip.Base.Outcome.{Outcome, ok, err, Outcome-cases}
use cloudip.Record.{Item, Time, zero_time}
use cloudip.Feed.{Reader, ParseFunc, Plugin}
use cloudip.Plugins.Parsers.{
  Parsers, IsLawful, make_record, failed_item, entry_item, with_ext, IsFit, entry_item-IsFit,
}

-- A row of `prefixes` or of `ipv6_prefixes`.
pub record AwsPrefix : Type 0 where
  pub cidr : Text
  pub region : Text
  pub service : Text
  pub network_border_group : Text

pub record IpRanges : Type 0 where
  pub create_date : Text
  pub prefixes : List AwsPrefix
  pub ipv6_prefixes : List AwsPrefix

module _ (P : Parsers) where
  unfoldable pub parse_aws_date : Text → Time
  parse_aws_date [] = zero_time
  parse_aws_date (c ∷ s) = elim (P.parse_time (codes "2006-01-02-15-04-05") (c ∷ s)) [
    | none ↦ zero_time
    | some t ↦ t
  ]

  -- `emit`
  unfoldable pub aws_item : Text → Time → AwsPrefix → Item
  aws_item ref synced_at p = elim (P.parse_prefix p.cidr) [
    | err e ↦ failed_item e
    | ok pre ↦ entry_item pre (
        make_record (codes "aws") p.region (p.service ∷ []) [] ref synced_at
          (with_ext (codes "network_border_group") p.network_border_group []))
  ]

  unfoldable pub aws_items : Text → Time → List AwsPrefix → List Item
  aws_items ref synced_at [] = []
  aws_items ref synced_at (p ∷ rows) = aws_item ref synced_at p ∷ aws_items ref synced_at rows

  -- `Plugin.Parse`
  unfoldable pub parse_aws : (Reader → Outcome IpRanges) → ParseFunc
  parse_aws decode ref r = elim (decode r) [
    | err e ↦ failed_item e ∷ []
    | ok doc ↦
        let synced_at = parse_aws_date doc.create_date in
        aws_items ref synced_at doc.prefixes ++ aws_items ref synced_at doc.ipv6_prefixes
  ]

  unfoldable pub aws : (Reader → Outcome IpRanges) → Plugin
  aws decode = record {
    name = codes "aws";
    refs = codes "aws/ip-ranges.json" ∷ [];
    parse = parse_aws decode;
    direct_refs = some (codes "https://ip-ranges.amazonaws.com/ip-ranges.json" ∷ []);
    rezmoss_refs = none;
  }

  module _ (L : IsLawful P) where
    aws_named : (codes "aws" == []) ≡ false
    unfolding text_eq
    aws_named = refl

    aws_item-IsFit : (ref : Text) (t : Time) (p : AwsPrefix) → IsFit ref (aws_item ref t p)
    unfolding aws_item
    aws_item-IsFit ref t p = elim (Outcome-cases (P.parse_prefix p.cidr)) [
      | inr (e, e1) ↦ rw (e1, aws_item) tt
      | inl (pre, e1) ↦
          rw (e1, aws_item)
            (entry_item-IsFit pre _ _ _ _ ref t _ (L.prefix-valid p.cidr pre e1) aws_named)
    ]

    aws_items-IsFit :
        (ref : Text) (t : Time) (rows : List AwsPrefix) → All (IsFit ref) (aws_items ref t rows)
    unfolding aws_items
    aws_items-IsFit ref t [] = tt
    aws_items-IsFit ref t (p ∷ rows) = (aws_item-IsFit ref t p, aws_items-IsFit ref t rows)

    pub parse_aws-IsFit :
        (decode : Reader → Outcome IpRanges) (ref : Text) (r : Reader)
        → All (IsFit ref) (parse_aws decode ref r)
    unfolding parse_aws
    parse_aws-IsFit decode ref r = elim (Outcome-cases (decode r)) [
      | inr (e, e1) ↦ rw (e1, parse_aws) (tt, tt)
      | inl (doc, e1) ↦
          rw (e1, parse_aws)
            (All-append (IsFit ref) _ _ (aws_items-IsFit ref _ doc.prefixes)
              (aws_items-IsFit ref _ doc.ipv6_prefixes))
    ]
