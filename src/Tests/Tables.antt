-- ===== src/Tests/Tables.antt =====
-- A run of the iptoasn plugin: two ranges of one AS number, under two organisations.
use cloudip.Base.{◌≡◌, refl, true, ◌==◌, codes, text_eq, nat_eq, List, [], ◌∷◌, none, if◌then◌else◌}
use cloudip.Base.Outcome.{Outcome, ok}
use cloudip.Base.Texts.{
  trim_space, trim_left, is_space, has_prefix, split, push_head, parse_uint, digits_value,
}
use cloudip.Net.Addr.{v4}
use cloudip.Net.Prefix.{prefix_from}
use cloudip.Feed.{Reader}
use cloudip.Asn.{AsnRange, coalesce_asn_ranges}
use cloudip.Plugins.Parsers.{Parsers}
use cloudip.Plugins.Iptoasn.{parse_table, parse_line, parse_fields, org_of}
use cloudip.Plugins.Iptoasn.Parse.{
  read_table, parse_iptoasn, items_by, leader_ext, parse_iptoasn_lem,
}
use cloudip.Tests.Ranges.{cut}

abbrev pub table : Parsers
table = record {
  parse_prefix = λ s. ok (prefix_from (v4 0) 0);
  parse_addr = λ s. ok (if s == codes "a" then v4 1 else v4 9);
  parse_time = λ layout s. none;
  scan = λ r. (codes "a\ta\t7\tUS\tX" ∷ codes "b\tb\t7\tUS\tY" ∷ [], none);
}

abbrev input : Reader
input = record { content = codes "plain"; failure = none }

abbrev whole : Reader → Outcome Reader
whole r = ok r

abbrev in_order : List AsnRange → List AsnRange
in_order rows = rows

abbrev pub two_rows : List AsnRange
two_rows =
    record { first = v4 1; last = v4 1; asn = 7; org = codes "X" }
    ∷ record { first = v4 9; last = v4 9; asn = 7; org = codes "Y" }
    ∷ []

reads : read_table table whole cut (λ a b. true) in_order input ≡ ok two_rows
unfolding read_table parse_table parse_line parse_fields org_of trim_space trim_left is_space
    has_prefix split push_head parse_uint digits_value text_eq nat_eq
reads = refl

parse_iptoasn_lem_example :
    parse_iptoasn table whole cut (λ a b. true) in_order (codes "t") input
    ≡ items_by table whole cut
        (λ a b. true)
        in_order
        (codes "t")
        (leader_ext table whole cut (λ a b. true) in_order (coalesce_asn_ranges in_order two_rows))
        (coalesce_asn_ranges in_order two_rows)
parse_iptoasn_lem_example =
    parse_iptoasn_lem table whole cut (λ a b. true) in_order (codes "t") input two_rows reads
