-- ===== src/Plugins/Cloud/Azure.antt =====
-- plugins/azure/azure.go
use cloudip.Base.{
  ℕ, ◌≡◌, refl, inl, inr, false, Text, codes, text_eq, nat_eq, ◌==◌, List, [], ◌∷◌, ◌++◌, none,
  if◌then◌else◌, All, All-append,
}
use cloudip.Base.Dict.{Dict}
use cloudip.Base.Outcome.{Outcome, ok, err, Outcome-cases}
use cloudip.Record.{Item, zero_time}
use cloudip.Feed.{Reader, ParseFunc, Plugin}
use cloudip.Plugins.Parsers.{
  Parsers, IsLawful, make_record, failed_item, entry_item, with_ext, IsFit, entry_item-IsFit,
}

-- One of `values`, with its `properties`.
pub record ServiceTag : Type 0 where
  pub name : Text
  pub region : Text
  pub platform : Text
  pub system_service : Text
  pub address_prefixes : List Text

-- `serviceTags`
pub record ServiceTags : Type 0 where
  pub change_number : ℕ
  pub cloud : Text
  pub values : List ServiceTag

unfoldable pub tag_service : ServiceTag → Text
tag_service tag = if tag.system_service == [] then tag.name else tag.system_service

unfoldable pub tag_ext : ServiceTag → Dict Text
tag_ext tag =
    with_ext (codes "system_service") tag.system_service
      (with_ext (codes "platform") tag.platform [])

module _ (P : Parsers) where
  -- The loop over the prefixes of a tag.
  unfoldable pub tag_items : Text → ServiceTag → List Text → List Item
  tag_items ref tag [] = []
  tag_items ref tag (cidr ∷ cidrs) = elim (P.parse_prefix cidr) [
    | err e ↦ failed_item e ∷ tag_items ref tag cidrs
    | ok pre ↦
        entry_item pre (
          make_record (codes "azure") tag.region (tag_service tag ∷ []) [] ref zero_time
            (tag_ext tag))
        ∷ tag_items ref tag cidrs
  ]

  unfoldable pub azure_items : Text → List ServiceTag → List Item
  azure_items ref [] = []
  azure_items ref (tag ∷ tags) = tag_items ref tag tag.address_prefixes ++ azure_items ref tags

  -- `Plugin.Parse`
  unfoldable pub parse_azure : (Reader → Outcome ServiceTags) → ParseFunc
  parse_azure decode ref r = elim (decode r) [
    | err e ↦ failed_item e ∷ []
    | ok doc ↦ azure_items ref doc.values
  ]

  unfoldable pub azure : (Reader → Outcome ServiceTags) → Plugin
  azure decode = record {
    name = codes "azure";
    refs = codes "azure/ServiceTags_Public.json" ∷ [];
    parse = parse_azure decode;
    direct_refs = none;
    rezmoss_refs = none;
  }

  module _ (L : IsLawful P) where
    azure_named : (codes "azure" == []) ≡ false
    unfolding text_eq
    azure_named = refl

    tag_items-IsFit :
        (ref : Text) (tag : ServiceTag) (cidrs : List Text)
        → All (IsFit ref) (tag_items ref tag cidrs)
    unfolding tag_items
    tag_items-IsFit ref tag [] = tt
    tag_items-IsFit ref tag (cidr ∷ cidrs) = elim (Outcome-cases (P.parse_prefix cidr)) [
      | inr (e, e1) ↦ rw (e1, tag_items) (tt, tag_items-IsFit ref tag cidrs)
      | inl (pre, e1) ↦
          rw (e1, tag_items)
            (
              entry_item-IsFit pre _ _ _ _ ref _ _ (L.prefix-valid cidr pre e1) azure_named,
              tag_items-IsFit ref tag cidrs,
            )
    ]

    azure_items-IsFit :
        (ref : Text) (tags : List ServiceTag) → All (IsFit ref) (azure_items ref tags)
    unfolding azure_items
    azure_items-IsFit ref [] = tt
    azure_items-IsFit ref (tag ∷ tags) =
        All-append (IsFit ref) _ _ (tag_items-IsFit ref tag tag.address_prefixes)
          (azure_items-IsFit ref tags)

    pub parse_azure-IsFit :
        (decode : Reader → Outcome ServiceTags) (ref : Text) (r : Reader)
        → All (IsFit ref) (parse_azure decode ref r)
    unfolding parse_azure
    parse_azure-IsFit decode ref r = elim (Outcome-cases (decode r)) [
      | inr (e, e1) ↦ rw (e1, parse_azure) (tt, tt)
      | inl (doc, e1) ↦ rw (e1, parse_azure) (azure_items-IsFit ref doc.values)
    ]
