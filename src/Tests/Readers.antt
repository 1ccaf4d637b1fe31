-- ===== src/Tests/Readers.antt =====
-- Runs for an open database.
use cloudip.Base.{
  ℕ, ◌<◌, ◌≡◌, refl, true, false, ◌&&◌, Text, codes, text_eq, nat_eq, [], ◌∷◌, none, some, length,
  leb, arith,
}
use cloudip.Base.Outcome.{Outcome, ok}
use cloudip.Base.Dict.{get}
use cloudip.Base.Int.{pos}
use cloudip.Net.Addr.{v4}
use cloudip.Net.Plain.{addr_of}
use cloudip.Net.Prefix.{Prefix, prefix_from, prefix_contains}
use cloudip.Storage.{StoredRecord, to_record}
use cloudip.Reader.{
  Db, Reader, Result, MiniRecord, database_type, networks, networks_from, at_offset, index_loop,
  build_index, lookup_provider,
}
use cloudip.Reader.Index.{is_offset, lookup_provider-build_index}
use cloudip.Reader.Verify.{
  verify, verify_loop, verify_end, count_network, count_of, networks_of, ipv4_networks,
  ipv6_networks, verify_lem,
}
use cloudip.Reader.Verify.Times.{IsWithin, OfRecord, verify-bounds}
use cloudip.Base.{All}
use cloudip.Reader.Export.{bounds_of, range_bounds_lem}

abbrev pub stored : StoredRecord
stored = record {
  provider = codes "aws";
  region = codes "us-east-1";
  services = codes "EC2" ∷ [];
  categories = [];
  ipv6 = false;
  source = codes "aws";
  synced_at = 7;
  ext = [];
}

abbrev mini : MiniRecord
mini = record { provider = codes "aws"; region = codes "us-east-1" }

abbrev pub found : Result
found = record {
  error = none;
  found = true;
  offset = 16;
  prefix = prefix_from (v4 0x0a000000) 8;
  decode = ok stored;
  decode_mini = ok mini;
}

abbrev pub file : Reader
file = record {
  lookup = λ ip. found;
  networks = found ∷ found ∷ [];
  metadata = record {
    database_type = database_type;
    node_count = 1;
    record_size = 28;
    build_time = pos 7;
  };
}

abbrev plain : Db
plain = record { r = file; idx = none }

abbrev indexed : Db
indexed = record { r = file; idx = some ((16, mini) ∷ []) }

abbrev data_at : ℕ → Outcome MiniRecord
data_at off = ok mini

built : build_index plain ≡ ok indexed
unfolding build_index index_loop at_offset nat_eq
built = refl

passed : is_offset file.networks 16 ≡ true
unfolding nat_eq
passed = refl

lookup_provider-build_index_example : lookup_provider indexed (v4 9) ≡ lookup_provider plain (v4 9)
lookup_provider-build_index_example =
    lookup_provider-build_index data_at plain indexed (v4 9) refl (refl, (refl, tt)) refl passed
      built

clean : (verify plain).1 ≡ none
unfolding verify verify_loop verify_end count_network networks networks_from to_record text_eq
    nat_eq
clean = refl

verify_lem_example :
    ((verify plain).0.networks ≡ length (networks plain))
    × (0 < (verify plain).0.networks)
    × ((p : Text) → count_of (get p (verify plain).0.by_provider) ≡ networks_of p (networks plain))
    × ((verify plain).0.ipv4 ≡ ipv4_networks (networks plain))
    × ((verify plain).0.ipv6 ≡ ipv6_networks (networks plain))
verify_lem_example = verify_lem plain clean

verify-bounds_example : All (OfRecord (IsWithin (verify plain).0)) (networks plain)
verify-bounds_example = verify-bounds plain clean

abbrev ten : Prefix
ten = record { addr = v4 0x0a000000; len = some 8 }

abbrev doc : Prefix
doc = record { addr = addr_of false 0x20010db8000000000000000000000000; len = some 32 }

range_bounds_lem_example :
    prefix_contains doc (addr_of false 0x20010db8000000000000000000000007) ≡ (
      leb (bounds_of doc).0 0x20010db8000000000000000000000007
      && leb 0x20010db8000000000000000000000007 (bounds_of doc).1)
range_bounds_lem_example =
    range_bounds_lem false 0x20010db8000000000000000000000000 32 0x20010db8000000000000000000000007
      (omega arith)
