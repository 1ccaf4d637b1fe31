-- ===== src/Tests/Networks.antt =====
-- Runs at IPv4-mapped addresses: a lookup in a database that holds one network of such, and the
-- network that a build makes of one.
use cloudip.Base.{◌≡◌, refl, true, nat_eq, [], none, some, arith}
use cloudip.Base.Outcome.{ok}
use cloudip.Net.Addr.{Addr, invalid, v4, v6, is4_in6, zone}
use cloudip.Net.Mapped.{mapped, IsNative}
use cloudip.Net.Prefix.{Prefix, prefix_contains, same_network}
use cloudip.Build.Covered.{Covers, normalize_prefix-Covers}
use cloudip.Build.Normalize.{normalize_prefix}
use cloudip.Record.{Record}
use cloudip.Reader.{Reader, Db, lookup, unmap_prefix}
use cloudip.Reader.Network.{IsDocumented, as_in, lookup-network}
use cloudip.Storage.{to_record}
use cloudip.Tests.Readers.{found, stored, file}

abbrev all_mapped : Prefix
all_mapped = record { addr = v6 (mapped 0) []; len = some 96 }

abbrev one_network : Reader
one_network = record file {
  lookup = λ ip. record found { found = is4_in6 ip; prefix = all_mapped };
}

holds_mapped : (ip : Addr) → zone ip ≡ [] → is4_in6 ip ≡ true → prefix_contains all_mapped ip ≡ true
unfolding prefix_contains same_network is4_in6 nat_eq
holds_mapped invalid z h = absurd (cc)
holds_mapped (v4 x) z h = absurd (cc)
holds_mapped (v6 x y) z h = ground arith

one_network-IsDocumented : IsDocumented one_network
one_network-IsDocumented = record { valid = λ ip h. refl; holds = λ ip z h. holds_mapped ip z h }

abbrev db : Db
db = record { r = one_network; idx = none }

abbrev ten_mapped : Addr
ten_mapped = v6 (mapped 0x0a010203) []

abbrev reported : Record
reported = record (to_record stored) { network = unmap_prefix all_mapped }

ten_found : lookup db ten_mapped ≡ ok (some reported)
unfolding lookup is4_in6 nat_eq
ten_found = refl

lookup-network_example :
    (prefix_contains reported.network (as_in reported.network ten_mapped) ≡ true)
    × IsNative reported.network
lookup-network_example =
    lookup-network db ten_mapped reported one_network-IsDocumented refl ten_found

abbrev ten_of_mapped : Prefix
ten_of_mapped = record { addr = v6 (mapped 0x0a000000) []; len = some 104 }

normalize_prefix-Covers_example : Covers ten_of_mapped 0x0a010203 (normalize_prefix ten_of_mapped)
normalize_prefix-Covers_example = normalize_prefix-Covers ten_of_mapped 0x0a010203 refl
