-- ===== src/Cmd/Build.antt =====
-- cmd/cloudattr/build.go: `runBuild`, the stream that it collects and the file that it makes of it.
-- What it prints is not modelled.
pub mod Drained
pub mod Resolvers
pub mod Enriched
pub mod Clean
pub mod Fails
pub mod Pinned
pub mod Published
pub mod CloudFirst
pub mod Answered
use cloudip.Base.{
  ℕ, Bool, true, false, Text, codes, text_eq, ◌==◌, List, [], ◌∷◌, ◌++◌, Option, none, some,
  if◌then◌else◌,
}
use cloudip.Base.Outcome.{Outcome, ok, err}
use cloudip.Base.Dict.{Dict}
use cloudip.Base.Streams.{Yield, keep_all}
use cloudip.Record.{Item, Error}
use cloudip.Feed.{Plugin, PluginSource, collect, collect_resilient, concat_entries}
use cloudip.Feed.Collected.{Kept, keep, keep_failure}
use cloudip.Feed.Registry.{select_from}
use cloudip.Feed.Rezmoss.{collect_rezmoss_all}
use cloudip.Feed.Local.{file_open}
use cloudip.Asn.Enrich.{enrich_asn}
use cloudip.Build.{BuildOptions}
use cloudip.Build.Tree.{TreeWriter}
use cloudip.Reader.{Reader}
use cloudip.Reader.Verify.{VerifyReport, verify}
use cloudip.Sync.{Files, Limits, SyncResult, build_file}
use cloudip.Plugins.Registered.{Kind, cloud, reputation, asn, registered}
use cloudip.Cmd.Flags.{BuildFlags, check_flags, out_path, split_csv}
use cloudip.Cmd.Resolve.{
  Outside, Digests, mirror_time, new_rezmoss_source, reputation_resolver, asn_resolver,
  cloud_resolver, wrap_resolve, wrap_source, load_asn_table,
}
use cloudip.Cmd.Export.{Csv, open_path, export_csv_file}

-- A stream of entries, for a consumer that keeps the items and the failures.
abbrev pub Stream : Type 0
Stream = Yield Item Kept → Kept → Bool × Kept

-- What a stream gives to a consumer that wants all.
abbrev pub drained : Stream → Kept
drained s = (s keep ([], [])).1

abbrev pub resolver_of : Outcome (PluginSource × Text) → Outcome PluginSource
resolver_of (err e) = err e
resolver_of (ok (resolve, shown)) = ok resolve

-- `if len(plugins) == 0`
unfoldable pub some_plugins : Kind → List Plugin → Outcome (List Plugin)
some_plugins cloud [] = err (codes "no provider plugins registered")
some_plugins reputation [] = err (codes "no reputation plugins registered")
some_plugins asn [] = err (codes "no ASN plugins registered")
some_plugins k (p ∷ ps) = ok (p ∷ ps)

-- `collect`, by --keep-going.
unfoldable pub collect_of : Bool → List Plugin → PluginSource → Stream
collect_of keep_going plugins resolve yield s =
    if keep_going
    then collect_resilient keep_failure plugins resolve yield s
    else collect plugins resolve yield s

module _ (W : Outside) where
  unfoldable pub select_plugins : Kind → List Text → Outcome (List Plugin)
  select_plugins k names = elim (select_from (registered W.decoders k) names) [
    | err e ↦ err e
    | ok plugins ↦ some_plugins k plugins
  ]

  -- The plugins of a registry, a resolver, and the stream over both.
  unfoldable pub plugin_stream :
      BuildFlags → Digests → Kind → List Text → Outcome PluginSource → Outcome Stream
  plugin_stream f digests k names resolver = elim (select_plugins k names) [
    | err e ↦ err e
    | ok plugins ↦ elim resolver [
      | err e ↦ err e
      | ok resolve ↦ ok (collect_of f.keep_going plugins (wrap_resolve W digests resolve))
    ]
  ]

  unfoldable pub rezmoss_all_stream : BuildFlags → Digests → Stream
  rezmoss_all_stream f digests yield s =
      let src = if f.fixtures == [] then new_rezmoss_source W else file_open W.paths f.fixtures in
      let P = W.decoders.parsers in
      collect_rezmoss_all P.parse_prefix P.parse_addr (P.parse_time mirror_time) W.all_json
        (wrap_source W digests src) (split_csv f.providers) yield s

  -- The stream of the mode of the build.
  unfoldable pub mode_stream : BuildFlags → Digests → Outcome Stream
  mode_stream f digests =
      let names = split_csv f.providers in
      let rep_source = if f.source_set then f.source else codes "direct" in
      if f.asn
      then plugin_stream f digests asn names (resolver_of (asn_resolver W f.asn_source f.fixtures))
      else if f.reputation
      then plugin_stream f digests reputation names
          (resolver_of (reputation_resolver W rep_source f.fixtures))
      else if f.source == codes "rezmoss-all"
      then ok (rezmoss_all_stream f digests)
      else plugin_stream f digests cloud names (cloud_resolver W f.source f.fixtures)

  unfoldable pub reputation_stream : BuildFlags → Digests → Outcome Stream
  reputation_stream f digests =
      plugin_stream f digests reputation []
        (resolver_of (reputation_resolver W f.rep_source f.fixtures))

  -- --with-reputation
  unfoldable pub add_reputation : BuildFlags → Digests → Stream → Outcome Stream
  add_reputation f digests s = elim (f.with_reputation) [
    | false ↦ ok s
    | true ↦ elim (reputation_stream f digests) [
      | err e ↦ err e
      | ok rep ↦ ok (concat_entries (s ∷ rep ∷ []))
    ]
  ]

  -- --with-asn
  unfoldable pub add_asn : BuildFlags → Digests → List Item → Outcome (List Item)
  add_asn f digests entries = elim (f.with_asn) [
    | false ↦ ok entries
    | true ↦ elim (load_asn_table W digests f.asn_source f.fixtures) [
      | err e ↦ err e
      | ok table ↦ ok (enrich_asn W.decoders.netipx keep_all entries table []).1
    ]
  ]

  -- The entries that `BuildFile` is given.
  unfoldable pub build_entries : BuildFlags → Digests → Outcome (List Item)
  build_entries f digests = elim (mode_stream f digests) [
    | err e ↦ err e
    | ok s ↦ elim (add_reputation f digests s) [
      | err e ↦ err e
      | ok both ↦ add_asn f digests (drained both).0
    ]
  ]

  module _ (F : Files) (T : TreeWriter) (encode : Outcome T.State → Text)
      (decode : Text → Outcome Reader) (pins_json : Text → Outcome Digests) (C : Csv)
      (dir_of : Text → Text) where
    -- `digestOptions`; printing alone checks against no pins.
    unfoldable pub printed : Bool → Digests → Digests
    printed print none = if print then some [] else none
    printed print (some pins) = some pins

    unfoldable pub digest_options : BuildFlags → F.Disk → Outcome Digests
    digest_options f d =
        let read : Outcome Digests = elim (F.at d f.pins) [
          | none ↦ err (codes "read pins: no such file")
          | some b ↦ elim (pins_json b) [
            | err e ↦ err (codes "parse pins " ++ (f.pins ++ (codes ": " ++ e)))
            | ok pins ↦ ok (printed f.print_digests pins)
          ]
        ] in
        if f.pins == [] then ok (printed f.print_digests none) else read

    -- `verifyCount`
    unfoldable pub verify_count : Text → F.Disk → Outcome VerifyReport
    verify_count path d = elim (open_path F decode d path) [
      | err e ↦ err e
      | ok db ↦ let (rep, failed) = verify db in elim failed [ some e ↦ err e | none ↦ ok rep ]
    ]

    unfoldable pub previous : Text → F.Disk → Option ℕ
    previous path d = elim (verify_count path d) [ err e ↦ none | ok rep ↦ some rep.networks ]

    -- --csv, behind the publication.
    unfoldable pub then_csv : BuildFlags → F.Disk × Outcome SyncResult → F.Disk × Outcome SyncResult
    then_csv f (d, err e) = (d, err e)
    then_csv f (d, ok res) =
        let (d', rows) = export_csv_file F decode C (out_path f) f.csv_out d in
        let written : F.Disk × Outcome SyncResult = elim rows [
          | err e ↦ (d', err (codes "csv export: " ++ e))
          | ok n ↦ (d', ok res)
        ] in
        if f.csv_out == [] then (d, ok res) else written

    unfoldable pub options : BuildFlags → ℕ → BuildOptions
    options f epoch = record {
      record_size = f.record_size;
      description = none;
      build_epoch = epoch;
    }

    -- The call of `attribution.BuildFile`.
    abbrev pub publication :
        BuildFlags → ℕ → Limits → F.Disk → List Item → F.Disk × Outcome SyncResult
    publication f epoch limits d entries =
        let path = out_path f in
        build_file F T encode decode entries path (dir_of path) (options f epoch) (previous path d)
          limits d

    -- `runBuild`, behind the parsing of the flags.
    unfoldable pub run_build : BuildFlags → ℕ → Limits → F.Disk → F.Disk × Outcome SyncResult
    run_build f epoch limits d = elim (check_flags f) [
      | some e ↦ (d, err e)
      | none ↦ elim (digest_options f d) [
        | err e ↦ (d, err e)
        | ok digests ↦ elim (build_entries f digests) [
          | err e ↦ (d, err e)
          | ok entries ↦ then_csv f (publication f epoch limits d entries)
        ]
      ]
    ]
