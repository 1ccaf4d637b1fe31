-- ===== src/Tests/Exports.antt =====
-- Runs of `export` and of `build` on a disk, and of the plugins.
use cloudip.Base.{
  ◌≡◌, ◌⊎◌, refl, false, Text, codes, text_eq, nat_eq, ◌==◌, List, [], ◌∷◌, ◌++◌, map, none,
}
use cloudip.Base.Outcome.{Outcome, ok, err}
use cloudip.Base.Texts.{
  join, split, trim_space, trim_left, is_space, push_head, decimal, digits_below,
}
use cloudip.Record.{Item}
use cloudip.Reader.Export.{CsvWriter}
use cloudip.Sync.{SyncResult}
use cloudip.Feed.Registry.{register, select_from, select_named}
use cloudip.Plugins.Registered.{registered}
use cloudip.Plugins.Cloud.Aws.{aws}
use cloudip.Plugins.Cloud.Azure.{azure, parse_azure}
use cloudip.Plugins.Cloud.Gcp.{gcp}
use cloudip.Base.Dict.{put, get}
use cloudip.Feed.{collect_resilient, resilient_feeds, buffer_feed, buffer_items, fixture_resolver}
use cloudip.Feed.Local.{file_open, relative}
use cloudip.Build.{build, finish_build, build_loop, effective_size}
use cloudip.Sync.{build_file, build_temp, cleaned}
use cloudip.Sync.Atomic.{IsSameOrLeft}
use cloudip.Cmd.Flags.{BuildFlags, default_flags, check_flags, out_path, split_csv, trimmed}
use cloudip.Cmd.Resolve.{Digests, cloud_resolver, wrap_resolve}
use cloudip.Cmd.Export.{Csv, IsAtomic, export_csv_file, export_csv_file-IsAtomic}
use cloudip.Cmd.Build.{
  run_build, publication, digest_options, printed, then_csv, options, previous, verify_count,
  build_entries, add_reputation, add_asn, mode_stream, plugin_stream, select_plugins, some_plugins,
  collect_of,
}
use cloudip.Cmd.Build.Fails.{run_build-fails}
use cloudip.Tests.Builds.{slots}
use cloudip.Tests.Publishing.{disk, disk-IsLawful, encode, decode, old_disk, limits, nothing_built}
use cloudip.Tests.Commands.{outside}

abbrev rows : CsvWriter
rows = record {
  State = List (List Text);
  write = λ row w. (w ++ (row ∷ []), none);
  flush = λ w. (w, none);
}

abbrev pub csv : Csv
csv = record {
  show_prefix = λ p. codes "net";
  writer = rows;
  start = [];
  content = λ w. join (codes "\n") (map (join (codes ",")) w);
}

to_file : (codes "out.csv" == codes "-") ≡ false
unfolding text_eq nat_eq
to_file = refl

export_csv_file-IsAtomic_example :
    IsAtomic disk decode disk-IsLawful csv
      (codes "cloud.mmdb")
      (codes "out.csv")
      old_disk
      (export_csv_file disk decode csv (codes "cloud.mmdb") (codes "out.csv") old_disk)
export_csv_file-IsAtomic_example =
    export_csv_file-IsAtomic disk decode disk-IsLawful csv (codes "cloud.mmdb") (codes "out.csv")
      old_disk to_file

-- A feed that does not parse, and no other.
abbrev azure_flags : BuildFlags
azure_flags = record default_flags { fixtures = codes "dir"; providers = codes "azure" }

abbrev no_pins : Text → Outcome Digests
no_pins s = ok none

abbrev here : Text → Text
here path = codes "."

abbrev azure_run : disk.Disk × Outcome SyncResult
azure_run =
    run_build outside disk slots encode decode no_pins csv here azure_flags 7 limits old_disk

azure_fails : azure_run.1 ≡ err nothing_built
unfolding run_build check_flags digest_options printed then_csv options previous out_path
    verify_count build_file build_temp cleaned build finish_build build_loop effective_size decimal
    digits_below text_eq nat_eq build_entries add_reputation add_asn mode_stream plugin_stream
    select_plugins some_plugins registered register put select_from select_named get split_csv
    trimmed split trim_space trim_left is_space push_head cloud_resolver wrap_resolve aws azure gcp
    collect_of collect_resilient resilient_feeds buffer_feed buffer_items fixture_resolver file_open
    relative parse_azure
azure_fails = refl

abbrev azure_publication : List Item → disk.Disk × Outcome SyncResult
azure_publication entries =
    publication outside disk slots encode decode no_pins csv here azure_flags 7 limits old_disk
      entries

run_build-fails_example :
    ((q : Text) → IsSameOrLeft disk old_disk azure_run.0 q)
    ⊎ (((azure_flags.csv_out == []) ≡ false)
        × (digests : Digests) × (digest_options outside disk slots encode decode no_pins csv here
              azure_flags old_disk
            ≡ ok digests)
        × (entries : List Item) × (build_entries outside azure_flags digests ≡ ok entries)
        × (res : SyncResult) × ((azure_publication entries).1 ≡ ok res)
        × ((q : Text) → IsSameOrLeft disk (azure_publication entries).0 azure_run.0 q))
run_build-fails_example =
    run_build-fails outside disk slots encode decode no_pins csv here disk-IsLawful azure_flags 7
      limits old_disk nothing_built azure_fails
