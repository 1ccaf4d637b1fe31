-- ===== src/Tests/Stored.antt =====
-- A run of a record through its stored form, with a decoder that reads the map by its keys.
use cloudip.Base.{
  ℕ, ◌≡◌, refl, ap, ◌∙◌, inl, inr, Bool, false, Text, codes, text_eq, ◌==◌, List, [], ◌∷◌, map,
  Option, none, some, nat_eq, arith, Bool-cases,
}
use cloudip.Base.Outcome.{Outcome, ok}
use cloudip.Base.Dict.{Dict, get, get-nil}
use cloudip.Base.Int.{pos}
use cloudip.Record.{Record}
use cloudip.Storage.{
  Leaf, str, uint64, boolean, Value, leaf, slice, dict, Stored, StoredRecord, strs, to_mmdb,
  to_record,
}
use cloudip.Storage.Key
use cloudip.Storage.RoundTrip.{IsDecoder, list_value, kept, IsSorting, to_record-to_mmdb}
use cloudip.Base.Sort.{IsStrict}
use cloudip.Net.Addr.{Addr, v4, is4_in6}
use cloudip.Net.Prefix.{prefix_contains, same_network}
use cloudip.Build.{build, build_loop, finish_build, entry_map}
use cloudip.Build.Normalize.{normalize_prefix}
use cloudip.Build.Tree.{prefix_to_ip_net, tree_contains, tree_network, place}
use cloudip.Build.Merge.{merge_records}
use cloudip.Build.Typed.{build-IsTyped}
use cloudip.Tests.Builds.{record_of, slots, slots-IsLawful, put_slot, ten_entry, two_entries, opts}

abbrev text_of : Leaf → Text
text_of (str t) = t
text_of (uint64 n) = []
text_of (boolean b) = []

abbrev text_at : Option Value → Text
text_at (some (leaf l)) = text_of l
text_at _ = []

abbrev texts_at : Option Value → List Text
texts_at (some (slice ls)) = map text_of ls
texts_at _ = []

abbrev bool_at : Option Value → Bool
bool_at (some (leaf (boolean b))) = b
bool_at _ = false

abbrev uint_at : Option Value → ℕ
uint_at (some (leaf (uint64 n))) = n
uint_at _ = 0

abbrev texts_in : Dict Leaf → Dict Text
texts_in [] = []
texts_in ((k, l) ∷ d) = (k, text_of l) ∷ texts_in d

abbrev dict_at : Option Value → Dict Text
dict_at (some (dict d)) = texts_in d
dict_at _ = []

abbrev by_keys : Stored → StoredRecord
by_keys m = record {
  provider = text_at (get Key.provider m);
  region = text_at (get Key.region m);
  services = texts_at (get Key.services m);
  categories = texts_at (get Key.categories m);
  ipv6 = bool_at (get Key.ipv6 m);
  source = text_at (get Key.source m);
  synced_at = uint_at (get Key.synced_at m);
  ext = dict_at (get Key.ext m);
}

abbrev pub reader : Stored → Outcome StoredRecord
reader m = ok (by_keys m)

text_of-strs : (ss : List Text) → map text_of (strs ss) ≡ ss
text_of-strs [] = refl
text_of-strs (s ∷ ss) = ap (λ xs. s ∷ xs) (text_of-strs ss)

texts_at-list_value : (ss : List Text) → texts_at (list_value ss) ≡ ss
texts_at-list_value [] = refl
texts_at-list_value (s ∷ ss) = text_of-strs (s ∷ ss)

get-texts_in :
    (d : Dict Leaf) (k : Text)
    → get k (texts_in d) ≡ (elim (get k d) [ none ↦ none | some l ↦ some (text_of l) ])
unfolding get
get-texts_in [] k = refl
get-texts_in ((j, l) ∷ d) k = elim (Bool-cases (k == j)) [
  | inl e ↦ rw e refl
  | inr e ↦ rw e (get-texts_in d k)
]

pub reader-IsDecoder : IsDecoder reader
reader-IsDecoder = record {
  decodes = λ m p r o ss cs v t e hp hr hs hc hv ho ht he hx. (
    by_keys m,
    refl,
    ap text_at hp,
    ap text_at hr,
    ap texts_at hs ∙ text_of-strs ss,
    ap texts_at hc ∙ texts_at-list_value cs,
    ap bool_at hv,
    ap text_at ho,
    ap uint_at ht,
    λ k x h. ap (λ w. get k (dict_at w)) he ∙ (get-texts_in e k ∙ rw h refl),
    λ k h. ap (λ w. get k (dict_at w)) he ∙ (get-texts_in e k ∙ rw h refl),
  );
}

abbrev seen : Record
seen = record (record_of (codes "tor")) {
  services = codes "b" ∷ codes "a" ∷ codes "b" ∷ [];
  synced_at = pos 1700000000;
  ext = (codes "k", codes "v") ∷ (codes "e", []) ∷ [];
}

abbrev rest : Dict Text
rest = (codes "e", []) ∷ []

one_key : get (codes "k") rest ≡ none
unfolding get text_eq nat_eq
one_key = refl

to_record-to_mmdb_example :
    (s : StoredRecord) × (reader (to_mmdb seen false) ≡ ok s)
    × ((to_record s).provider ≡ codes "tor")
    × ((to_record s).region ≡ [])
    × ((to_record s).source ≡ [])
    × ((to_record s).ipv6 ≡ false)
    × IsSorting (to_record s).services seen.services
    × IsSorting (to_record s).categories []
    × ((to_record s).synced_at ≡ pos 1700000000)
    × ((k : Text) → get k (to_record s).ext ≡ kept (get k seen.ext))
to_record-to_mmdb_example =
    to_record-to_mmdb reader reader-IsDecoder seen false
      (inr (1700000000, refl, omega arith, omega arith)) (one_key, (get-nil (codes "e"), tt))

abbrev ten_map : Stored
ten_map = entry_map ten_entry ten_entry.network

abbrev after_one : Addr → Option Stored
after_one = put_slot (λ x. none) (prefix_to_ip_net ten_entry.network) (merge_records ten_map)

abbrev pub after_two : Addr → Option Stored
after_two = put_slot after_one (prefix_to_ip_net ten_entry.network) (merge_records ten_map)

pub two_built : (build slots two_entries opts).1 ≡ ok after_two
unfolding build build_loop finish_build normalize_prefix is4_in6 nat_eq
two_built = refl

two_held : after_two (v4 0x0a000001) ≡ some (merge_records ten_map (some ten_map))
unfolding prefix_to_ip_net tree_contains tree_network place prefix_contains same_network
    merge_records nat_eq
two_held = refl

build-IsTyped_example :
    (t : StoredRecord) × (reader (merge_records ten_map (some ten_map)) ≡ ok t)
    × (get Key.provider (merge_records ten_map (some ten_map)) ≡ some (leaf (str t.provider)))
    × IsStrict t.services
    × IsStrict t.categories
build-IsTyped_example =
    build-IsTyped slots slots-IsLawful reader reader-IsDecoder two_entries opts after_two two_built
      (v4 0x0a000001) (merge_records ten_map (some ten_map)) two_held
