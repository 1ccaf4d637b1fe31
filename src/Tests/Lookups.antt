-- ===== src/Tests/Lookups.antt =====
-- A lookup in the file that a run of `build` publishes, over a reader that answers from the tree.
use cloudip.Base.{◌≡◌, refl, Text, codes, text_eq, nat_eq, List, [], none}
use cloudip.Base.Outcome.{Outcome, ok}
use cloudip.Base.Texts.{split, trim_space, trim_left, is_space, push_head}
use cloudip.Record.{Item}
use cloudip.Sync.{SyncResult}
use cloudip.Feed.Registry.{register, select_from, select_named}
use cloudip.Plugins.Registered.{registered}
use cloudip.Plugins.Cloud.Aws.{aws, parse_aws, aws_items, aws_item, parse_aws_date}
use cloudip.Plugins.Cloud.Azure.{azure}
use cloudip.Plugins.Cloud.Gcp.{gcp}
use cloudip.Base.Dict.{put, get}
use cloudip.Feed.{collect_resilient, resilient_feeds, buffer_feed, buffer_items, fixture_resolver}
use cloudip.Feed.Local.{file_open, relative}
use cloudip.Build.{build, finish_build, build_loop, effective_size}
use cloudip.Sync.{build_file, build_temp, cleaned}
use cloudip.Cmd.Flags.{check_flags, out_path, split_csv, trimmed}
use cloudip.Cmd.Resolve.{Digests, cloud_resolver, wrap_resolve}
use cloudip.Cmd.Build.{
  run_build, digest_options, printed, then_csv, options, previous, verify_count, build_entries,
  add_reputation, add_asn, mode_stream, plugin_stream, select_plugins, some_plugins, collect_of,
}
use cloudip.Tests.Builds.{slots}
use cloudip.Tests.Publishing.{disk, disk-IsLawful, encode, old_disk, limits}
use cloudip.Tests.Commands.{outside}
use cloudip.Sync.{finish_temp, publish, read_at, dropped_too_far, too_many_skipped}
use cloudip.Cmd.Export.{open_path}
use cloudip.Reader.{open_db, networks, networks_from}
use cloudip.Reader.Verify.{verify, verify_loop, verify_end, count_network}
use cloudip.Storage.{to_record}
use cloudip.Build.Normalize.{normalize_prefix}
use cloudip.Net.Addr.{is4_in6}
use cloudip.Net.Prefix.{prefix_from}
use cloudip.Tests.Readers.{file}
use cloudip.Tests.Exports.{csv}
use mathlib.Core.Path.{subst}
use cloudip.Base.{sym, ap, ℕ}
use cloudip.Base.Outcome.{err}
use cloudip.Net.Addr.{Addr, v4, unmap}
use cloudip.Build.Attributed.{holders}
use cloudip.Reader.{Reader, Db, lookup}
use cloudip.Reader.Built.{Answers, IsAnswer}
use cloudip.Cmd.Build.Answered.{run_build-lookup}
use cloudip.Tests.Answers.{answer, no_error_in}
use cloudip.Tests.Builds.{Slots, slots-IsLawful}
use cloudip.Tests.Releases.{aws_flags, no_pins, here, no_csv}
use cloudip.Tests.Stored.{reader, reader-IsDecoder}

abbrev value_of : {A : Type 0} → A → Outcome A → A
value_of other (ok a) = a
value_of other (err e) = other

abbrev collected : List Item
collected = value_of [] (build_entries outside aws_flags none)

abbrev empty_tree : Slots
empty_tree x = none

-- The tree that the run builds.
abbrev tree : Slots
tree =
    value_of empty_tree
      (build slots collected
        (record { record_size = aws_flags.record_size; description = none; build_epoch = 7 })).1

abbrev from_tree : Reader
from_tree = record file { lookup = λ ip. answer (tree (unmap ip)) }

abbrev decode_tree : Text → Outcome Reader
decode_tree content = ok from_tree

abbrev tree_run : disk.Disk × Outcome SyncResult
tree_run =
    run_build outside disk slots encode decode_tree no_pins csv here aws_flags 7 limits old_disk

abbrev tree_released : SyncResult
tree_released = record {
  path = codes "cloud.mmdb";
  count = 1;
  skipped = 0;
  report = (verify (record { r = from_tree; idx = none })).0;
}

tree_released_lem : tree_run.1 ≡ ok tree_released
unfolding run_build check_flags digest_options printed then_csv options previous out_path
    verify_count build_file build_temp cleaned finish_temp publish read_at open_path open_db verify
    verify_loop verify_end count_network networks networks_from to_record dropped_too_far
    too_many_skipped build finish_build build_loop effective_size normalize_prefix is4_in6 text_eq
    nat_eq build_entries add_reputation add_asn mode_stream plugin_stream select_plugins
    some_plugins registered register put select_from select_named get split_csv trimmed split
    trim_space trim_left is_space push_head cloud_resolver wrap_resolve aws azure gcp collect_of
    collect_resilient resilient_feeds buffer_feed buffer_items fixture_resolver file_open relative
    parse_aws aws_items aws_item parse_aws_date prefix_from
tree_released_lem = refl

from_tree-Answers : Answers slots reader tree from_tree
from_tree-Answers = record {
  no_error = λ ip n e. no_error_in (tree (unmap ip));
  absent = λ ip n e h. rw (e, h) refl;
  present = λ ip n slot e h. rw (e, h) (refl, refl);
}

reader_inj : (a b : Reader) → ◌≡◌ {A = Outcome Reader} (ok a) (ok b) → a ≡ b
reader_inj a b h = ap (value_of a) h

no_digests :
    (digests : Digests)
    → digest_options outside disk slots encode decode_tree no_pins csv here aws_flags old_disk
      ≡ ok digests
    → none ≡ digests
unfolding digest_options printed text_eq
no_digests digests h = ap (value_of none) h

tree-Answers :
    (digests : Digests) (entries : List Item) (t : Slots) (r : Reader)
    → digest_options outside disk slots encode decode_tree no_pins csv here aws_flags old_disk
      ≡ ok digests
    → build_entries outside aws_flags digests ≡ ok entries
    → (build slots entries
        (options outside disk slots encode decode_tree no_pins csv here aws_flags 7)).1
      ≡ ok t
    → decode_tree (encode (ok t)) ≡ ok r
    → Answers slots reader t r
unfolding options
tree-Answers digests entries t r h1 h2 h3 h4 =
    let e2 : collected ≡ entries = ap (value_of []) (rw (sym (no_digests digests h1)) at h2) in
    let e3 : tree ≡ t = ap (value_of empty_tree) (rw (sym e2) at h3) in
    subst (λ u. Answers slots reader u r) e3
      (subst (λ q. Answers slots reader tree q) (reader_inj from_tree r h4) from_tree-Answers)

run_build-lookup_example :
    (digests : Digests) × (digest_options outside disk slots encode decode_tree no_pins csv here
        aws_flags old_disk
      ≡ ok digests)
    × (entries : List Item) × (build_entries outside aws_flags digests ≡ ok entries)
    × (db : Db) × (open_path disk decode_tree tree_run.0 (out_path aws_flags) ≡ ok db)
    × ((ip : Addr) (n : ℕ)
        → unmap ip ≡ v4 n
        → IsAnswer (holders slots.accepts (v4 n) entries) (lookup db ip))
run_build-lookup_example =
    run_build-lookup outside disk slots encode decode_tree no_pins csv here disk-IsLawful
      slots-IsLawful reader reader-IsDecoder aws_flags 7 limits old_disk tree_released no_csv
      tree_released_lem tree-Answers
