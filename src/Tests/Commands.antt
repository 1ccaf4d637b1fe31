-- ===== src/Tests/Commands.antt =====
-- A run of `build --with-reputation` over fixtures: one network of a cloud provider, one exit of tor.
use cloudip.Base.{
  ◌<◌, ◌≡◌, refl, ◌⊎◌, true, false, Text, codes, text_eq, nat_eq, List, [], ◌∷◌, ◌++◌, Option, none,
  some, All, arith, ℕ, zero, suc, Bool, sym, ◌+◌,
}
use cloudip.Base.Outcome.{ok, err}
use cloudip.Net.Addr.{Addr, v4, is_valid, is4_in6}
use cloudip.Net.Prefix.{Prefix, prefix_valid, prefix_from}
use cloudip.Record.{Item}
use cloudip.Storage.{Stored}
use cloudip.Feed.{
  Reader, PluginSource, fixture_resolver, concat_entries, collect_resilient, resilient_feeds,
  buffer_feed, buffer_items,
}
use cloudip.Feed.Http.{response}
use cloudip.Feed.Local.{file_open, relative}
use cloudip.Build.{build}
use cloudip.Build.Normalize.{normalize_prefix}
use cloudip.Build.Lookup.{IsClean, covering, placed, placed_count}
use cloudip.Build.Merge.Summary.{IsSummary}
use cloudip.Plugins.Parsers.{Parsers, IsLawful}
use cloudip.Plugins.Registered.{Decoders, IsSound, registered}
use cloudip.Plugins.Iptoasn.Fit.{HasValidPrefixes}
use cloudip.Plugins.Cloud.Aws.{aws, parse_aws, aws_items, aws_item, parse_aws_date}
use cloudip.Plugins.Cloud.Azure.{azure}
use cloudip.Plugins.Cloud.Gcp.{gcp}
use cloudip.Plugins.Reputation.Feodo.{feodo, parse_feodo}
use cloudip.Plugins.Reputation.Spamhaus.{spamhaus, parse_drop, drop_items, drop_item, split_drop}
use cloudip.Plugins.Reputation.Tor.{tor, parse_tor, tor_items, tor_item}
use cloudip.Base.Dict.{put, get}
use cloudip.Base.Texts.{split, trim_space, trim_left, is_space, push_head, has_prefix}
use cloudip.Base.{text_lt}
use cloudip.Feed.Registry.{register, select_from, select_named, sorted_plugins, insert_plugin}
use cloudip.Cmd.Flags.{BuildFlags, default_flags, split_csv, trimmed}
use cloudip.Cmd.Resolve.{Outside, cloud_resolver, reputation_resolver, feed_resolver, wrap_resolve}
use cloudip.Cmd.Build.{
  Stream, drained, mode_stream, reputation_stream, build_entries, collect_of, plugin_stream,
  select_plugins, some_plugins, add_reputation, add_asn,
}
use cloudip.Cmd.Build.Clean.{is_unified, build_entries-IsClean}
use cloudip.Cmd.Build.CloudFirst.{build-cloud_first}
use cloudip.Tests.Builds.{slots, slots-IsLawful, opts}
use cloudip.Tests.Ranges.{cut, hosts}

abbrev pub body : Reader
body = record { content = codes "10.1.2.3"; failure = none }

abbrev pub parsers : Parsers
parsers = record {
  parse_prefix = λ s. ok (prefix_from (v4 0x0a000000) 8);
  parse_addr = λ s. ok (v4 0x0a010203);
  parse_time = λ layout s. none;
  scan = λ r. (r.content ∷ [], r.failure);
}

ten_valid : (p : Prefix) → ok (prefix_from (v4 0x0a000000) 8) ≡ ok p → prefix_valid p ≡ true
unfolding prefix_from
ten_valid p h = let e : prefix_from (v4 0x0a000000) 8 ≡ p = cc in rw (sym e) refl

addr_valid : (a : Addr) → ok (v4 0x0a010203) ≡ ok a → is_valid a ≡ true
addr_valid a h = let e : v4 0x0a010203 ≡ a = cc in rw (sym e) refl

pub parsers-IsLawful : IsLawful parsers
parsers-IsLawful = record {
  prefix-valid = λ s p h. ten_valid p h;
  addr-valid = λ s a h. addr_valid a h;
}

abbrev pub decoders : Decoders
decoders = record {
  parsers = parsers;
  aws_json = λ r. ok (record {
    create_date = [];
    prefixes =
        record {
          cidr = codes "10.0.0.0/8";
          region = codes "r";
          service = codes "EC2";
          network_border_group = [];
        }
        ∷ [];
    ipv6_prefixes = [];
  });
  azure_json = λ r. err (codes "bad");
  gcp_json = λ r. err (codes "bad");
  feodo_json = λ r. err (codes "bad");
  gunzip = λ r. ok r;
  netipx = cut;
  range_valid = λ a b. true;
  sort_rows = λ rows. rows;
}

hosts-valid : (f : Bool) (n count : ℕ) → All (λ p. prefix_valid p ≡ true) (hosts f n count)
hosts-valid f n zero = tt
hosts-valid true n (suc count) = (refl, hosts-valid true (n + 1) count)
hosts-valid false n (suc count) = (refl, hosts-valid false (n + 1) count)

pub decoders-IsSound : IsSound decoders
unfolding HasValidPrefixes
decoders-IsSound = record { parsers = parsers-IsLawful; prefixes = λ a b. hosts-valid _ _ _ }

abbrev pub outside : Outside
outside = record {
  getenv = λ s. [];
  paths = record {
    clean = λ p. p;
    from_slash = λ p. p;
    open_path = λ p. ok body;
    open_in_root = λ d p. ok body;
  };
  done = λ url n. none;
  answers = λ url n. response 200 body;
  decoders = decoders;
  mirror_json = λ r. ok [];
  all_json = λ r. ok [];
  sha256_hex = λ s. s;
}

abbrev pub both_flags : BuildFlags
both_flags = record default_flags {
  fixtures = codes "dir";
  providers = codes "aws";
  with_reputation = true;
}

abbrev fixtures : PluginSource
fixtures = fixture_resolver (file_open outside.paths (codes "dir"))

abbrev cloud_only : Stream
cloud_only = collect_of true (aws parsers decoders.aws_json ∷ []) fixtures

abbrev three_feeds : Stream
three_feeds =
    collect_of true (feodo parsers decoders.feodo_json ∷ spamhaus parsers ∷ tor parsers ∷ [])
      fixtures

cloud_runs : mode_stream outside both_flags none ≡ ok cloud_only
unfolding mode_stream plugin_stream select_plugins some_plugins registered register put select_from
    select_named get text_eq split_csv trimmed split trim_space trim_left is_space nat_eq push_head
    cloud_resolver wrap_resolve aws azure gcp
cloud_runs = refl

reputation_runs : reputation_stream outside both_flags none ≡ ok three_feeds
unfolding reputation_stream plugin_stream select_plugins some_plugins registered register put
    select_from sorted_plugins insert_plugin text_lt text_eq nat_eq reputation_resolver
    feed_resolver wrap_resolve feodo spamhaus tor
reputation_runs = refl

abbrev entries : List Item
entries = (drained cloud_only).0 ++ (drained three_feeds).0

entries_run : build_entries outside both_flags none ≡ ok entries
unfolding build_entries add_reputation add_asn concat_entries collect_of collect_resilient
    resilient_feeds buffer_feed buffer_items fixture_resolver file_open relative text_eq nat_eq aws
    parse_aws aws_items aws_item parse_aws_date feodo parse_feodo spamhaus parse_drop drop_items
    drop_item split_drop cloudip.Base.Texts.cut tor parse_tor tor_items tor_item trim_space
    trim_left is_space has_prefix
entries_run = rw (cloud_runs, reputation_runs, build_entries, add_reputation) refl

counted : 0 < placed_count slots.accepts entries
unfolding placed normalize_prefix is4_in6 collect_of collect_resilient resilient_feeds buffer_feed
    buffer_items fixture_resolver file_open relative text_eq nat_eq aws parse_aws aws_items aws_item
    parse_aws_date feodo parse_feodo spamhaus parse_drop drop_items drop_item split_drop
    cloudip.Base.Texts.cut tor parse_tor tor_items tor_item trim_space trim_left is_space has_prefix
    prefix_from
counted = omega arith

plain : is_unified both_flags ≡ false
unfolding is_unified text_eq nat_eq
plain = refl

build_entries-IsClean_example : IsClean entries
build_entries-IsClean_example =
    build_entries-IsClean outside decoders-IsSound both_flags none entries refl plain entries_run

build-cloud_first_example :
    (u : slots.State) × ((build slots entries opts).1 ≡ ok u)
    × ((x : Addr) (m : Stored) (ms : List Stored)
        → covering slots.accepts x (drained cloud_only).0 ≡ m ∷ ms
        → (slot : Stored) × (u x ≡ some slot)
          × IsSummary m (ms ++ covering slots.accepts x (drained three_feeds).0) slot)
build-cloud_first_example =
    build-cloud_first outside decoders-IsSound slots slots-IsLawful both_flags none opts cloud_only
      three_feeds entries (λ x. none) refl plain refl refl cloud_runs reputation_runs entries_run
      refl counted (λ u. refl)
