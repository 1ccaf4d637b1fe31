-- ===== src/Tests/Records.antt =====
-- Runs for the stored records and the rows of announcements.
use cloudip.Base.{
  ◌↔◌, ℕ, ◌≡◌, ◌<◌, refl, Bool, Text, codes, text_eq, nat_eq, List, [], ◌∷◌, none, contains, arith,
  leb,
}
use cloudip.Base.Outcome.{Outcome, ok}
use cloudip.Base.Texts.{
  trim_space, trim_left, is_space, has_prefix, split, push_head, parse_uint, digits_value,
}
use cloudip.Net.Addr.{Addr, v4}
use cloudip.Storage.{dedupe_sorted, Stored, leaf, str, uint64}
use cloudip.Storage.Key
use cloudip.Storage.Canonical.{dedupe_sorted_canonical}
use cloudip.Build.Merge.Summary.{merge_all, IsSummary, merge_all-IsSummary}
use cloudip.Asn.Enrich.{sort_search, search_between}
use cloudip.Asn.{AsnRange}
use cloudip.Plugins.Iptoasn.{parse_table, parse_line, parse_fields, org_of}

abbrev two_texts : List Text
two_texts = codes "b" ∷ codes "a" ∷ codes "b" ∷ []

abbrev one_pair : List Text
one_pair = codes "a" ∷ codes "b" ∷ []

dedupe_sorted_canonical_example :
    (dedupe_sorted two_texts ≡ dedupe_sorted one_pair)
    ↔ ((b : Text) → contains two_texts b ≡ contains one_pair b)
dedupe_sorted_canonical_example = dedupe_sorted_canonical two_texts one_pair

abbrev aws : Stored
aws = (Key.provider, leaf (str (codes "aws"))) ∷ (Key.synced_at, leaf (uint64 5)) ∷ []

abbrev gcp : Stored
gcp = (Key.provider, leaf (str (codes "gcp"))) ∷ (Key.synced_at, leaf (uint64 9)) ∷ []

merge_all-IsSummary_example : IsSummary aws (gcp ∷ aws ∷ []) (merge_all aws (gcp ∷ aws ∷ []))
merge_all-IsSummary_example = merge_all-IsSummary aws (gcp ∷ aws ∷ [])

abbrev from_three : ℕ → Bool
from_three n = leb 3 n

found : sort_search 10 from_three < 10
unfolding sort_search search_between
found = omega arith

abbrev some_addr : Text → Outcome Addr
some_addr s = ok (v4 7)

abbrev table : List Text
table = codes "# ranges" ∷ codes "1.0.0.0\t1.0.0.255\t13335\tUS\tCLOUDFLARENET" ∷ []

abbrev row : AsnRange
row = record { first = v4 7; last = v4 7; asn = 13335; org = codes "CLOUDFLARENET" }

parsed : parse_table some_addr table none ≡ ok (row ∷ [])
unfolding parse_table parse_line parse_fields org_of trim_space trim_left is_space has_prefix split
    push_head parse_uint digits_value text_eq nat_eq
parsed = refl
