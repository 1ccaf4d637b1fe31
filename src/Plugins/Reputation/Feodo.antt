-- ===== src/Plugins/Reputation/Feodo.antt =====
-- plugins/reputation/feodo/feodo.go
use cloudip.Base.{
  ◌+◌, ◌≡◌, refl, inl, inr, false, Text, codes, text_eq, nat_eq, ◌==◌, List, [], ◌∷◌, Option, none,
  some, if◌then◌else◌, All,
}
use cloudip.Base.Dict.{Dict}
use cloudip.Base.Outcome.{Outcome, ok, err, Outcome-cases}
use cloudip.Record.{Item, Time, zero_time}
use cloudip.Feed.{Reader, ParseFunc, Plugin}
use cloudip.Plugins.Parsers.{
  Parsers, IsLawful, make_record, failed_item, entry_item, with_ext, IsFit, entry_item-IsFit,
  host_prefix, host_prefix-valid,
}
use cloudip.Base.Texts.{decimal}
use cloudip.Base.Int.{ℤ, pos, negsuc}

-- `entry`; the port is a Go int.
pub record FeodoEntry : Type 0 where
  pub ip_address : Text
  pub port : ℤ
  pub status : Text
  pub first_seen : Text
  pub last_online : Text
  pub malware : Text

-- `strconv.Itoa`
unfoldable pub itoa : ℤ → Text
itoa (pos n) = decimal n
itoa (negsuc n) = b'-' ∷ decimal (n + 1)

unfoldable pub port_text : ℤ → Text
port_text (pos n) = if n == 0 then [] else itoa (pos n)
port_text (negsuc n) = itoa (negsuc n)

unfoldable pub feodo_ext : FeodoEntry → Dict Text
feodo_ext e =
    with_ext (codes "malware") e.malware
      (with_ext (codes "status") e.status (with_ext (codes "port") (port_text e.port) []))

module _ (P : Parsers) where
  -- One candidate of `feodoTime`, in either layout.
  unfoldable pub candidate_time : Text → Option Time
  candidate_time s = elim (P.parse_time (codes "2006-01-02 15:04:05") s) [
    | some t ↦ some t
    | none ↦ P.parse_time (codes "2006-01-02") s
  ]

  unfoldable pub feodo_time : List Text → Time
  feodo_time [] = zero_time
  feodo_time (s ∷ candidates) = elim (candidate_time s) [
    | some t ↦ t
    | none ↦ feodo_time candidates
  ]

  unfoldable pub feodo_item : Text → FeodoEntry → Item
  feodo_item ref e = elim (P.parse_addr e.ip_address) [
    | err x ↦ failed_item x
    | ok addr ↦ entry_item (host_prefix addr) (
        make_record (codes "abuse.ch") [] [] (codes "botnet_c2" ∷ codes "malware" ∷ []) ref
          (feodo_time (e.last_online ∷ e.first_seen ∷ [])) (feodo_ext e))
  ]

  unfoldable pub feodo_items : Text → List FeodoEntry → List Item
  feodo_items ref [] = []
  feodo_items ref (e ∷ doc) = feodo_item ref e ∷ feodo_items ref doc

  -- `Plugin.Parse`
  unfoldable pub parse_feodo : (Reader → Outcome (List FeodoEntry)) → ParseFunc
  parse_feodo decode ref r = elim (decode r) [
    | err e ↦ failed_item e ∷ []
    | ok doc ↦ feodo_items ref doc
  ]

  unfoldable pub feodo : (Reader → Outcome (List FeodoEntry)) → Plugin
  feodo decode = record {
    name = codes "feodo";
    refs = codes "feodo/ipblocklist.json" ∷ [];
    parse = parse_feodo decode;
    direct_refs = some (codes "https://feodotracker.abuse.ch/downloads/ipblocklist.json" ∷ []);
    rezmoss_refs = none;
  }

  module _ (L : IsLawful P) where
    feodo_named : (codes "abuse.ch" == []) ≡ false
    unfolding text_eq
    feodo_named = refl

    feodo_item-IsFit : (ref : Text) (e : FeodoEntry) → IsFit ref (feodo_item ref e)
    unfolding feodo_item
    feodo_item-IsFit ref e = elim (Outcome-cases (P.parse_addr e.ip_address)) [
      | inr (x, e1) ↦ rw (e1, feodo_item) tt
      | inl (addr, e1) ↦
          rw (e1, feodo_item)
            (entry_item-IsFit (host_prefix addr) _ _ _ _ ref _ _
              (host_prefix-valid addr (L.addr-valid _ addr e1)) feodo_named)
    ]

    feodo_items-IsFit : (ref : Text) (doc : List FeodoEntry) → All (IsFit ref) (feodo_items ref doc)
    unfolding feodo_items
    feodo_items-IsFit ref [] = tt
    feodo_items-IsFit ref (e ∷ doc) = (feodo_item-IsFit ref e, feodo_items-IsFit ref doc)

    pub parse_feodo-IsFit :
        (decode : Reader → Outcome (List FeodoEntry)) (ref : Text) (r : Reader)
        → All (IsFit ref) (parse_feodo decode ref r)
    unfolding parse_feodo
    parse_feodo-IsFit decode ref r = elim (Outcome-cases (decode r)) [
      | inr (e, e1) ↦ rw (e1, parse_feodo) (tt, tt)
      | inl (doc, e1) ↦ rw (e1, parse_feodo) (feodo_items-IsFit ref doc)
    ]
