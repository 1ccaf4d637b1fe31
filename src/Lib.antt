-- ===== src/Lib.antt =====
-- Verification of cloudip: a builder of databases that attribute IP addresses to cloud providers,
-- reputation feeds and origin AS numbers, a reader of these databases, and servers that answer
-- lookups from them.
--
-- How the parts fit: plugins name feeds (attribution/attribution.go), a resolver turns each plugin
-- into feeds, and `Collect` or `CollectResilient` chains what their parsers yield into one stream of
-- entries (attribution/pipeline.go). `EnrichASN` may split the entries at the bounds of announced
-- ranges (attribution/asn.go). `Build` merges the stream into a tree (attribution/build.go), on
-- records in their stored form (attribution/storage.go). `BuildFile` runs `Build` into a temporary
-- file, verifies it and renames it into place (attribution/sync.go, attribution/verify.go). The
-- service opens the file and answers lookups (server/service.go, attribution/reader.go), over HTTP
-- (server/http.go) and gRPC (server/grpc.go). The command (cmd/cloudattr) chooses the plugins and the
-- resolver by its flags, and runs these parts in that order.
--
-- The modules:
--   Base      tests, lists, text, streams of items, maps, signed numbers
--   Net       `netip.Addr`, `netip.Prefix`, and the ranges of go4.org/netipx
--   Record    attribution/attribution.go: Record, Entry; a time is a number of whole seconds
--   Storage   attribution/storage.go: toMMDB, toRecord, dedupeSorted
--   Build     attribution/build.go: Build, mergeRecords, normalizePrefix
--   Asn       attribution/asn.go: NewASNTable, CoalesceASNRanges, EnrichASN; Asn/Built joins it to
--             `Build`
--   Reader    attribution/reader.go, attribution/verify.go, attribution/export.go; Reader/Built joins
--             `Lookup` to `Build`
--   Feed      attribution/pipeline.go, attribution/source.go, attribution/rezmoss.go, the registries
--   Sync      attribution/sync.go: BuildFile
--   Server    server/service.go, server/http.go, server/grpc.go, server/recover.go; Mux is what
--             server/http.go uses of `http.ServeMux`
--   Plugins   plugins/aws, azure, gcp, asn/iptoasn, reputation/feodo, spamhaus and tor, and the
--             registries that plugins/all, plugins/asn/all and plugins/reputation/all fill
--   Cmd       cmd/cloudattr/build.go, query.go, serve.go and main.go
--   Tests     runs at concrete inputs
--
-- Names are those of the source in another spelling: `enrichEntry` is `enrich_entry`, `BuildFile` is
-- `build_file`. State is passed explicitly: the counters and the handles of the service are fields of
-- `Service`, the disk is an argument of `build_file`, and a Go iterator is a function of its consumer.
-- What stands outside the repository is a parameter: the tree of mmdbwriter (`TreeWriter`), the
-- maxminddb reader (`Reader`), go4.org/netipx (`Netipx`), package os (`Files`), `sort.Slice`, the JSON
-- decoder, the parsers of addresses, prefixes and times, and SHA-256; what a theorem relies on is a
-- named hypothesis, and a run shows that it can hold. In the tree, IPv4 addresses have their places in
-- ::/96, and so have the addresses of its aliases ::ffff:0:0/96, 2001::/32 and 2002::/16
-- (Build/Tree). A removal of a file may fail.
--
-- Fuel: `search_between`, the binary search of sort.Search, runs on a number of rounds; the length of
-- the table is enough, since a round halves the interval, and `found_rows` rests on it. `digits_below`
-- prints a number n with n + 1 rounds. All other loops are recursion on a list, or on the number of
-- attempts left.
--
-- Not modelled: the parsing of flags and what the commands print, inflating and reading of files,
-- time-outs and pauses, the scheduling of the servers, the interleaving of lookups with the steps of
-- one reload, which is a single step, the panic of a lookup without a handle, which is an error and
-- does not occur behind `NewService`, the JSON encoding of responses, and the float64
-- arithmetic of the publication guards, whose comparisons are parameters.
pub mod Base
pub mod Net
pub mod Record
pub mod Storage
pub mod Build
pub mod Asn
pub mod Reader
pub mod Feed
pub mod Sync
pub mod Server
pub mod Plugins
pub mod Cmd
pub mod Tests
