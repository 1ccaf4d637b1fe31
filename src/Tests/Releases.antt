-- ===== src/Tests/Releases.antt =====
-- A run of `build` that publishes the network of one plugin.
use cloudip.Base.{true, some, ◌≡◌, refl, false, Text, codes, text_eq, nat_eq, ◌==◌, List, [], none}
use cloudip.Base.Outcome.{Outcome, ok}
use cloudip.Base.Texts.{split, trim_space, trim_left, is_space, push_head}
use cloudip.Record.{Item}
use cloudip.Sync.{SyncResult}
use cloudip.Feed.Registry.{register, select_from, select_named}
use cloudip.Plugins.Registered.{registered}
use cloudip.Plugins.Cloud.Aws.{aws, parse_aws, aws_items, aws_item, parse_aws_date}
use cloudip.Plugins.Cloud.Azure.{azure}
use cloudip.Plugins.Cloud.Gcp.{gcp}
use cloudip.Base.Dict.{put, get}
use cloudip.Feed.{collect_resilient, resilient_feeds, buffer_feed, buffer_items, fixture_resolver}
use cloudip.Feed.Local.{file_open, relative}
use cloudip.Build.{build, finish_build, build_loop, effective_size}
use cloudip.Sync.{build_file, build_temp, cleaned}
use cloudip.Cmd.Flags.{BuildFlags, default_flags, check_flags, out_path, split_csv, trimmed}
use cloudip.Cmd.Resolve.{Digests, cloud_resolver, wrap_resolve}
use cloudip.Cmd.Build.{
  run_build, digest_options, printed, then_csv, options, previous, verify_count, build_entries,
  add_reputation, add_asn, mode_stream, plugin_stream, select_plugins, some_plugins, collect_of,
}
use cloudip.Tests.Builds.{slots}
use cloudip.Tests.Publishing.{disk, disk-IsLawful, encode, decode, old_disk, limits}
use cloudip.Tests.Commands.{outside}
use cloudip.Cmd.Build.Published.{run_build-published}
use cloudip.Sync.{finish_temp, publish, read_at, dropped_too_far, too_many_skipped}
use cloudip.Sync.Published.{IsVerified}
use cloudip.Cmd.Export.{open_path}
use cloudip.Reader.{open_db, networks, networks_from}
use cloudip.Reader.Verify.{verify, verify_loop, verify_end, count_network}
use cloudip.Storage.{to_record}
use cloudip.Build.Normalize.{normalize_prefix}
use cloudip.Net.Addr.{is4_in6}
use cloudip.Net.Prefix.{prefix_from}
use cloudip.Tests.Readers.{file}
use cloudip.Tests.Exports.{csv}

abbrev pub aws_flags : BuildFlags
aws_flags = record default_flags { fixtures = codes "dir"; providers = codes "aws" }

abbrev pub no_pins : Text → Outcome Digests
no_pins s = ok none

abbrev pub here : Text → Text
here path = codes "."

abbrev aws_run : disk.Disk × Outcome SyncResult
aws_run = run_build outside disk slots encode decode no_pins csv here aws_flags 7 limits old_disk

abbrev released : SyncResult
released = record {
  path = codes "cloud.mmdb";
  count = 1;
  skipped = 0;
  report = (verify (record { r = file; idx = none })).0;
}

pub no_csv : (aws_flags.csv_out == []) ≡ true
unfolding text_eq
no_csv = refl

aws_released : aws_run.1 ≡ ok released
unfolding run_build check_flags digest_options printed then_csv options previous out_path
    verify_count build_file build_temp cleaned finish_temp publish read_at open_path open_db verify
    verify_loop verify_end count_network networks networks_from to_record dropped_too_far
    too_many_skipped build finish_build build_loop effective_size normalize_prefix is4_in6 text_eq
    nat_eq build_entries add_reputation add_asn mode_stream plugin_stream select_plugins
    some_plugins registered register put select_from select_named get split_csv trimmed split
    trim_space trim_left is_space push_head cloud_resolver wrap_resolve aws azure gcp collect_of
    collect_resilient resilient_feeds buffer_feed buffer_items fixture_resolver file_open relative
    parse_aws aws_items aws_item parse_aws_date prefix_from
aws_released = refl

run_build-published_example :
    (check_flags aws_flags ≡ none)
    × (digests : Digests) × (digest_options outside disk slots encode decode no_pins csv here
          aws_flags old_disk
        ≡ ok digests)
    × (entries : List Item) × (build_entries outside aws_flags digests ≡ ok entries)
    × (t : slots.State) × ((build slots entries
          (options outside disk slots encode decode no_pins csv here aws_flags 7)).1
        ≡ ok t)
    × (aws_run.0 (out_path aws_flags) ≡ some (encode (ok t)))
    × (too_many_skipped limits
          (build slots entries
            (options outside disk slots encode decode no_pins csv here aws_flags 7)).0
        ≡ false)
    × IsVerified
        (previous outside disk slots encode decode no_pins csv here (out_path aws_flags) old_disk)
        limits
        (decode (encode (ok t)))
        released
run_build-published_example =
    run_build-published outside disk slots encode decode no_pins csv here disk-IsLawful aws_flags 7
      limits old_disk released no_csv aws_released
