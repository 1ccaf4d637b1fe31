-- ===== src/Cmd/Resolve.antt =====
-- cmd/cloudattr/build.go: `feedResolver` and `loadASNTable`, with the sources that they choose from.
use cloudip.Base.{
  ℕ, not, Text, codes, text_eq, nat_eq, ◌==◌, ◌||◌, [], ◌++◌, Option, none, some, if◌then◌else◌,
}
use cloudip.Base.Outcome.{Outcome, ok, err}
use cloudip.Base.Dict.{Dict}
use cloudip.Record.{Error}
use cloudip.Feed.{
  Reader, Source, ParseFunc, PluginSource, fixture_resolver, mirror_resolver, direct_resolver,
  rezmoss_resolver,
}
use cloudip.Feed.Http.{Answer, http_open, source_url, rezmoss_base, env_base}
use cloudip.Feed.Digest.{digest_open, with_digest}
use cloudip.Feed.Local.{Paths, file_open}
use cloudip.Feed.Rezmoss.{RezmossEntry, RezmossAllEntry, Decoded, parse_rezmoss}
use cloudip.Asn.{AsnTable, new_asn_table, table_len}
use cloudip.Plugins.Registered.{Decoders}
use cloudip.Plugins.Iptoasn.Parse.{read_table}

-- What the program meets outside: the environment, files, the answers of each URL to each attempt,
-- the decoders, and SHA-256.
pub record Outside : Type 0 where
  pub getenv : Text → Text
  pub paths : Paths
  pub done : Text → ℕ → Option Error
  pub answers : Text → ℕ → Answer
  pub decoders : Decoders
  pub mirror_json : Reader → Decoded RezmossEntry
  pub all_json : Reader → Decoded RezmossAllEntry
  pub sha256_hex : Text → Text

-- The pins of a build that checks or prints digests.
abbrev pub Digests : Type 0
Digests = Option (Dict Text)

abbrev pub mirror_time : Text
mirror_time = codes "2006-01-02 15:04:05"

abbrev pub direct_url : Text
direct_url = codes "https://iptoasn.com/data/ip2asn-combined.tsv.gz"

abbrev pub relative_ref : Text
relative_ref = codes "iptoasn/ip2asn-combined.tsv"

module _ (W : Outside) where
  -- `&HTTPSource{BaseURL: base}`
  unfoldable pub http_source : Text → Source
  http_source base ref = let url = source_url base ref in http_open (W.done url) (W.answers url) 0

  -- `NewRezmossSource`
  unfoldable pub new_rezmoss_source : Source
  new_rezmoss_source = http_source (rezmoss_base (W.getenv (codes "CLOUDIP_REZMOSS_BASE")))

  -- `NewDirectSource`
  unfoldable pub new_direct_source : Source
  new_direct_source = http_source []

  -- `ParseRezmoss`
  abbrev pub mirror_parse : Text → ParseFunc
  mirror_parse =
      parse_rezmoss W.decoders.parsers.parse_prefix W.decoders.parsers.parse_addr
        (W.decoders.parsers.parse_time mirror_time) W.mirror_json

  unfoldable pub feed_resolver : Text → Text → Text → Text → Text → Outcome (PluginSource × Text)
  feed_resolver kind source fixtures base_env base =
      if not (fixtures == [])
      then ok (fixture_resolver (file_open W.paths fixtures), codes "fixtures:" ++ fixtures)
      else if source == codes "direct"
      then ok (direct_resolver mirror_parse new_direct_source new_rezmoss_source, codes "direct")
      else if source == codes "mirror"
      then if base == []
        then err (kind ++ (codes " source mirror requires " ++ (base_env ++ codes " to be set")))
        else ok (mirror_resolver (http_source base), codes "mirror:" ++ base)
      else if source == codes "rezmoss" || source == codes "rezmoss-all"
      then err (codes "source " ++ (source ++ codes " is cloud-only"))
      else err (codes "unknown " ++ (kind ++ (codes " source " ++ source)))

  unfoldable pub reputation_resolver : Text → Text → Outcome (PluginSource × Text)
  reputation_resolver source fixtures =
      let env = codes "CLOUDIP_REPUTATION_BASE" in
      feed_resolver (codes "reputation") source fixtures env (env_base (W.getenv env))

  unfoldable pub asn_resolver : Text → Text → Outcome (PluginSource × Text)
  asn_resolver source fixtures =
      let env = codes "CLOUDIP_ASN_BASE" in
      feed_resolver (codes "asn") source fixtures env (env_base (W.getenv env))

  -- The resolver of a cloud build.
  unfoldable pub cloud_resolver : Text → Text → Outcome PluginSource
  cloud_resolver source fixtures =
      if not (fixtures == [])
      then ok (fixture_resolver (file_open W.paths fixtures))
      else if source == codes "rezmoss"
      then ok (rezmoss_resolver mirror_parse new_rezmoss_source)
      else if source == codes "direct"
      then ok (direct_resolver mirror_parse new_direct_source new_rezmoss_source)
      else err (codes "unknown --source " ++ source)

  -- `wrapResolve`, `wrapSource`
  unfoldable pub wrap_resolve : Digests → PluginSource → PluginSource
  wrap_resolve none resolve = resolve
  wrap_resolve (some pins) resolve = with_digest W.sha256_hex resolve pins

  unfoldable pub wrap_source : Digests → Source → Source
  wrap_source none src = src
  wrap_source (some pins) src = digest_open W.sha256_hex src pins

  -- The switch of `loadASNTable`: a source, and the reference to read from it.
  unfoldable pub asn_origin : Text → Text → Outcome (Source × Text)
  asn_origin source fixtures =
      if not (fixtures == [])
      then ok (file_open W.paths fixtures, relative_ref)
      else if source == codes "direct"
      then ok (new_direct_source, direct_url)
      else if source == codes "mirror"
      then (let base = env_base (W.getenv (codes "CLOUDIP_ASN_BASE")) in
          if base == []
          then err (codes "asn source mirror requires CLOUDIP_ASN_BASE to be set")
          else ok (http_source base, relative_ref))
      else err (codes "unknown asn source " ++ source)

  unfoldable pub parse_asn_table : Text → Reader → Outcome AsnTable
  parse_asn_table ref rc =
      let D = W.decoders in
      elim (read_table D.parsers D.gunzip D.netipx D.range_valid D.sort_rows rc) [
        | err e ↦ err (codes "parse ASN table " ++ (ref ++ (codes ": " ++ e)))
        | ok rows ↦
            let table = new_asn_table D.sort_rows rows in
            if table_len table == 0
            then err (codes "ASN table " ++ (ref ++ codes " contains no routed ranges"))
            else ok table
      ]

  unfoldable pub load_asn_table : Digests → Text → Text → Outcome AsnTable
  load_asn_table digests source fixtures = elim (asn_origin source fixtures) [
    | err e ↦ err e
    | ok (src, ref) ↦ elim (wrap_source digests src ref) [
      | err e ↦ err (codes "fetch ASN table " ++ (ref ++ (codes ": " ++ e)))
      | ok rc ↦ parse_asn_table ref rc
    ]
  ]
