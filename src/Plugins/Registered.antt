-- ===== src/Plugins/Registered.antt =====
-- plugins/all/all.go, plugins/reputation/all/all.go, plugins/asn/all/all.go: the registries that the
-- imports of the plugins fill.
use cloudip.Base.{
  ℕ, ◌≡◌, refl, sym, inl, inr, false, Bool, Text, text_eq, ◌==◌, List, [], ◌∷◌, some, All,
  Option-cases, text_lt, Bool-cases,
}
use cloudip.Base.Dict.{get, put}
use cloudip.Base.Outcome.{Outcome, ok, Outcome-cases, ok-inj}
use cloudip.Net.Addr.{Addr}
use cloudip.Net.Netipx.{Netipx}
use cloudip.Feed.{Plugin, Reader}
use cloudip.Feed.Registry.{
  Registry, register, select_from, select_named, sorted_plugins, insert_plugin,
}
use cloudip.Asn.{AsnRange}
use cloudip.Plugins.Parsers.{Parsers, IsLawful}
use cloudip.Plugins.Clean.{IsFitPlugin}
use cloudip.Plugins.Cloud.Aws.{IpRanges, aws, parse_aws-IsFit}
use cloudip.Plugins.Cloud.Azure.{ServiceTags, azure, parse_azure-IsFit}
use cloudip.Plugins.Cloud.Gcp.{CloudJson, gcp, parse_gcp-IsFit}
use cloudip.Plugins.Reputation.Feodo.{FeodoEntry, feodo, parse_feodo-IsFit}
use cloudip.Plugins.Reputation.Spamhaus.{spamhaus, parse_drop-IsFit}
use cloudip.Plugins.Reputation.Tor.{tor, parse_tor-IsFit}
use cloudip.Plugins.Iptoasn.Parse.{iptoasn}
use cloudip.Plugins.Iptoasn.Fit.{HasValidPrefixes, parse_iptoasn-IsFit}

-- What `json.Decoder` makes of a feed of each provider, and what else the plugins call.
pub record Decoders : Type 0 where
  pub parsers : Parsers
  pub aws_json : Reader → Outcome IpRanges
  pub azure_json : Reader → Outcome ServiceTags
  pub gcp_json : Reader → Outcome CloudJson
  pub feodo_json : Reader → Outcome (List FeodoEntry)
  pub gunzip : Reader → Outcome Reader
  pub netipx : Netipx
  pub range_valid : Addr → Addr → Bool
  pub sort_rows : List AsnRange → List AsnRange

pub record IsSound (D : Decoders) : Type 0 where
  pub parsers : IsLawful D.parsers
  pub prefixes : HasValidPrefixes D.netipx

pub data Kind : Type 0 where
  cloud : Kind
  reputation : Kind
  asn : Kind

module _ (D : Decoders) where
  unfoldable pub registered : Kind → Registry
  registered cloud =
      register (gcp D.parsers D.gcp_json)
        (register (azure D.parsers D.azure_json) (register (aws D.parsers D.aws_json) []))
  registered reputation =
      register (tor D.parsers)
        (register (spamhaus D.parsers) (register (feodo D.parsers D.feodo_json) []))
  registered asn = register (iptoasn D.parsers D.gunzip D.netipx D.range_valid D.sort_rows) []

-- Every plugin of a registry has Q.
abbrev Each : (Plugin → Type 0) → Registry → Type 0
Each Q reg = All (λ e. Q e.1) reg

module _ (Q : Plugin → Type 0) where
  get-Each : (n : Text) (p : Plugin) (reg : Registry) → Each Q reg → get n reg ≡ some p → Q p
  unfolding get
  get-Each n p [] h e = absurd (cc)
  get-Each n p ((k, q) ∷ reg) h e = elim (Bool-cases (n == k)) [
    | inl own ↦
        let same : some q ≡ some p = rw (own, get) at e in
        let same' : q ≡ p = cc in rw (sym same') h.0
    | inr other ↦ get-Each n p reg h.1 (rw (other, get) at e)
  ]

  put-Each : (n : Text) (p : Plugin) (reg : Registry) → Q p → Each Q reg → Each Q (put n p reg)
  unfolding put
  put-Each n p [] q h = (q, tt)
  put-Each n p ((k, r) ∷ reg) q h = elim (Bool-cases (n == k)) [
    | inl own ↦ rw (own, put) (q, h.1)
    | inr other ↦ rw (other, put) (h.0, put-Each n p reg q h.1)
  ]

  register-Each : (p : Plugin) (reg : Registry) → Q p → Each Q reg → Each Q (register p reg)
  unfolding register
  register-Each p reg q h = put-Each p.name p reg q h

  insert_plugin-All : (p : Plugin) (ps : List Plugin) → Q p → All Q ps → All Q (insert_plugin p ps)
  unfolding insert_plugin
  insert_plugin-All p [] q h = (q, tt)
  insert_plugin-All p (r ∷ ps) q h = elim (Bool-cases (text_lt r.name p.name)) [
    | inl e ↦ rw (e, insert_plugin) (h.0, insert_plugin-All p ps q h.1)
    | inr e ↦ rw (e, insert_plugin) (q, h)
  ]

  sorted_plugins-All : (reg : Registry) → Each Q reg → All Q (sorted_plugins reg)
  unfolding sorted_plugins
  sorted_plugins-All [] h = tt
  sorted_plugins-All ((k, p) ∷ reg) h =
      insert_plugin-All p (sorted_plugins reg) h.0 (sorted_plugins-All reg h.1)

  select_named-All :
      (reg : Registry) (names : List Text) (ps : List Plugin)
      → Each Q reg
      → select_named reg names ≡ ok ps
      → All Q ps
  unfolding select_named
  select_named-All reg [] ps h e = rw (sym (ok-inj e)) tt
  select_named-All reg (n ∷ names) ps h e = elim (Option-cases (get n reg)) [
    | inl e0 ↦ absurd (let e' = rw (e0, select_named) at e in cc)
    | inr (p, e1) ↦ elim (Outcome-cases (select_named reg names)) [
      | inr (x, e2) ↦ absurd (let e' = rw (e1, e2, select_named) at e in cc)
      | inl (qs, e2) ↦
          rw (sym (ok-inj (rw (e1, e2, select_named) at e)))
            (get-Each n p reg h e1, select_named-All reg names qs h e2)
    ]
  ]

  select_from-All :
      (reg : Registry) (names : List Text) (ps : List Plugin)
      → Each Q reg
      → select_from reg names ≡ ok ps
      → All Q ps
  unfolding select_from
  select_from-All reg [] ps h e = rw (sym (ok-inj e)) (sorted_plugins-All reg h)
  select_from-All reg (n ∷ names) ps h e = select_named-All reg (n ∷ names) ps h e

module _ (D : Decoders) (S : IsSound D) where
  plugin_named : (n : Text) (c : ℕ) → ((c ∷ n) == []) ≡ false
  unfolding text_eq
  plugin_named n c = refl

  registered-Each : (k : Kind) → Each IsFitPlugin (registered D k)
  unfolding registered aws azure gcp feodo spamhaus tor iptoasn
  registered-Each cloud =
      register-Each IsFitPlugin (gcp D.parsers D.gcp_json) _
        (parse_gcp-IsFit D.parsers S.parsers D.gcp_json, plugin_named _ _)
        (register-Each IsFitPlugin (azure D.parsers D.azure_json) _
          (parse_azure-IsFit D.parsers S.parsers D.azure_json, plugin_named _ _)
          (register-Each IsFitPlugin (aws D.parsers D.aws_json) _
            (parse_aws-IsFit D.parsers S.parsers D.aws_json, plugin_named _ _) tt))
  registered-Each reputation =
      register-Each IsFitPlugin (tor D.parsers) _
        (parse_tor-IsFit D.parsers S.parsers, plugin_named _ _)
        (register-Each IsFitPlugin (spamhaus D.parsers) _
          (parse_drop-IsFit D.parsers S.parsers, plugin_named _ _)
          (register-Each IsFitPlugin (feodo D.parsers D.feodo_json) _
            (parse_feodo-IsFit D.parsers S.parsers D.feodo_json, plugin_named _ _) tt))
  registered-Each asn =
      register-Each IsFitPlugin (iptoasn D.parsers D.gunzip D.netipx D.range_valid D.sort_rows) _
        (
          parse_iptoasn-IsFit D.parsers D.gunzip D.netipx D.range_valid D.sort_rows S.prefixes,
          plugin_named _ _,
        )
        tt

  -- Every plugin that is selected from a registry, by name or by default, has a name and yields,
  -- whatever its input, errors and entries only: an entry has a valid network and a provider, and its
  -- source is the reference that was read.
  pub selected-IsFitPlugin :
      (k : Kind) (names : List Text) (ps : List Plugin)
      → select_from (registered D k) names ≡ ok ps
      → All IsFitPlugin ps
  selected-IsFitPlugin k names ps h =
      select_from-All IsFitPlugin (registered D k) names ps (registered-Each k) h
