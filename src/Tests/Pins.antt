-- ===== src/Tests/Pins.antt =====
-- Runs of a build that checks pinned digests.
use cloudip.Base.{◌≡◌, refl, true, Text, codes, text_eq, nat_eq, List, [], ◌∷◌, none, some, All}
use cloudip.Base.Outcome.{ok}
use cloudip.Base.Dict.{Dict, get}
use cloudip.Base.Texts.{
  equal_fold, lower, trim_space, trim_left, is_space, has_prefix, split, push_head, parse_uint,
  digits_value,
}
use cloudip.Net.Addr.{unmap, addr_le, addr_lt, addr_eq, next, compare_addr, compare_text}
use cloudip.Feed.{Reader, Source, Feed, fixture_resolver}
use cloudip.Feed.Digest.{digest_open, digest_checked}
use cloudip.Feed.Local.{file_open, relative}
use cloudip.Asn.{
  AsnTable, new_asn_table, add_rows, add_row, usable, coalesce_asn_ranges, coalesce_sorted,
  coalesce_loop, coalesce_step, table_len,
}
use cloudip.Plugins.Iptoasn.{parse_table, parse_line, parse_fields, org_of}
use cloudip.Plugins.Iptoasn.Parse.{read_table}
use cloudip.Plugins.Reputation.Tor.{tor}
use cloudip.Cmd.Resolve.{
  Outside, wrap_resolve, wrap_source, asn_origin, load_asn_table, parse_asn_table,
}
use cloudip.Cmd.Build.Pinned.{IsPinned, plugin_stream-IsPinned, load_asn_table-pinned}
use cloudip.Tests.Commands.{outside, decoders, parsers, both_flags}
use cloudip.Feed.{Plugin, PluginSource}
use cloudip.Feed.Registry.{register, select_from, select_named}
use cloudip.Base.Dict.{put}
use cloudip.Plugins.Registered.{reputation, registered}
use cloudip.Plugins.Reputation.Feodo.{feodo}
use cloudip.Plugins.Reputation.Spamhaus.{spamhaus}
use cloudip.Cmd.Build.{Stream, collect_of, select_plugins, some_plugins, plugin_stream}
use cloudip.Tests.Tables.{table, two_rows}

abbrev with_table : Outside
with_table = record outside { decoders = record decoders { parsers = table } }

-- The digest of a text is the text.
abbrev pins : Dict Text
pins =
    (codes "tor/exit-list.txt", codes "10.1.2.3")
    ∷ (codes "iptoasn/ip2asn-combined.tsv", codes "10.1.2.3")
    ∷ []

abbrev cached : PluginSource
cached = fixture_resolver (file_open outside.paths (codes "dir"))

abbrev tor_stream : Stream
tor_stream = collect_of true (tor parsers ∷ []) (wrap_resolve outside (some pins) cached)

tor_read :
    plugin_stream outside both_flags (some pins) reputation (codes "tor" ∷ []) (ok cached)
    ≡ ok tor_stream
unfolding plugin_stream select_plugins some_plugins registered register put select_from select_named
    get text_eq nat_eq feodo spamhaus tor
tor_read = refl

plugin_stream-IsPinned_example :
    (plugins : List Plugin) × (select_plugins outside reputation (codes "tor" ∷ []) ≡ ok plugins)
    × (feeds : PluginSource) × (tor_stream ≡ collect_of both_flags.keep_going plugins feeds)
    × ((p : Plugin) → All (λ d. IsPinned outside pins (Feed.source d) (Feed.ref d)) (feeds p))
plugin_stream-IsPinned_example =
    plugin_stream-IsPinned outside pins both_flags reputation (codes "tor" ∷ []) (ok cached)
      tor_stream tor_read

abbrev loaded : AsnTable
loaded = record { v4 = two_rows; v6 = [] }

loads : load_asn_table with_table (some pins) (codes "direct") (codes "dir") ≡ ok loaded
unfolding load_asn_table asn_origin parse_asn_table wrap_source digest_open digest_checked get
    equal_fold lower file_open relative read_table parse_table parse_line parse_fields org_of
    trim_space trim_left is_space has_prefix split push_head parse_uint digits_value text_eq nat_eq
    new_asn_table add_rows add_row usable coalesce_asn_ranges coalesce_sorted coalesce_loop
    coalesce_step table_len unmap addr_le addr_lt addr_eq next compare_addr compare_text
    cloudip.Base.text_lt
loads = refl

load_asn_table-pinned_example :
    (src : Source) × (ref : Text) × (asn_origin with_table (codes "direct") (codes "dir")
      ≡ ok (src, ref))
    × (out : Reader) × (src ref ≡ ok out)
    × ((want : Text) → get ref pins ≡ some want → equal_fold want out.content ≡ true)
load_asn_table-pinned_example =
    load_asn_table-pinned with_table pins (codes "direct") (codes "dir") loaded loads
