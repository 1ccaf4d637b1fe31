-- ===== src/Reader.antt =====
-- attribution/reader.go: a database opened for lookups. The reader of package `maxminddb` is a
-- parameter: what it answers for an address, and what its walk over the networks yields.
pub mod Index
pub mod Verify
pub mod Export
pub mod Network
pub mod Built
use cloudip.Base.Outcome.{Outcome, ok, err}
use cloudip.Base.{
  ℕ, ◌+◌, ◌-◌, ◌^◌, Bool, true, false, ◌&&◌, Text, codes, text_eq, nat_eq, ◌==◌, List, [], ◌∷◌,
  ◌++◌, Option, none, some, if◌then◌else◌, leb,
}
use cloudip.Net.Addr.{Addr, is4_in6, unmap}
use cloudip.Net.Prefix.{Prefix, prefix_from, no_prefix}
use cloudip.Record.{Record, Error, Time}
use cloudip.Storage.{StoredRecord, to_record}

-- `miniRecord`
pub record MiniRecord : Type 0 where
  pub provider : Text
  pub region : Text

-- `maxminddb.Result`, with what `Decode` gives into either type.
pub record Result : Type 0 where
  pub error : Option Error
  pub found : Bool
  pub offset : ℕ
  pub prefix : Prefix
  pub decode : Outcome StoredRecord
  pub decode_mini : Outcome MiniRecord

pub record Metadata : Type 0 where
  pub database_type : Text
  pub node_count : ℕ
  pub record_size : ℕ
  pub build_time : Time

-- `maxminddb.Reader`
pub record Reader : Type 0 where
  pub lookup : Addr → Result
  pub networks : List Result
  pub metadata : Metadata

-- `map[uint64]miniRecord`, the entry put last first.
abbrev pub Offsets : Type 0
Offsets = List (ℕ × MiniRecord)

unfoldable pub at_offset : ℕ → Offsets → Option MiniRecord
at_offset off [] = none
at_offset off ((o, m) ∷ idx) = if off == o then some m else at_offset off idx

-- `DB`
pub record Db : Type 0 where
  pub r : Reader
  pub idx : Option Offsets

abbrev pub database_type : Text
database_type = codes "Cloud-Attribution"

unfoldable pub validate : Db → Option Error
validate d =
    let md = d.r.metadata in
    if md.database_type == database_type
    then (if md.node_count == 0 then some (codes "database has no nodes") else none)
    else some (codes "unexpected database_type")

-- `Open` and `OpenValidated`, over what `maxminddb.Open` gives for the path.
unfoldable pub open_db : Outcome Reader → Outcome Db
open_db (err e) = err (codes "open mmdb: " ++ e)
open_db (ok r) = ok (record { r = r; idx = none })

unfoldable pub open_validated : Outcome Reader → Outcome Db
open_validated file = elim (open_db file) [
  | err e ↦ err e
  | ok db ↦ elim (validate db) [ none ↦ ok db | some e ↦ err (codes "validate: " ++ e) ]
]

unfoldable pub unmap_prefix : Prefix → Prefix
unmap_prefix p = elim (p.len) [
  | none ↦ p
  | some n ↦ if is4_in6 p.addr && leb 96 n then prefix_from (unmap p.addr) (n - 96) else p
]

abbrev with_network : Record → Prefix → Record
with_network r p = record {
  provider = r.provider;
  region = r.region;
  services = r.services;
  categories = r.categories;
  ipv6 = r.ipv6;
  source = r.source;
  synced_at = r.synced_at;
  ext = r.ext;
  network = p;
}

-- `DB.Lookup`: a record, none where no network holds the address, or an error.
unfoldable pub lookup : Db → Addr → Outcome (Option Record)
lookup d ip =
    let res = d.r.lookup ip in
    elim (res.error) [
      | some e ↦ err (codes "lookup: " ++ e)
      | none ↦
          if res.found
          then (elim (res.decode) [
            | err e ↦ err (codes "decode record: " ++ e)
            | ok sr ↦ ok (some (with_network (to_record sr) (unmap_prefix res.prefix)))
          ])
          else ok none
    ]

-- `DB.Contains`
unfoldable pub contains_ip : Db → Addr → Bool
contains_ip d ip = Result.found (d.r.lookup ip)

abbrev pub no_identity : MiniRecord
no_identity = record { provider = []; region = [] }

-- A read of a Go map: the zero value where the key is missing.
abbrev pub or_no_identity : Option MiniRecord → MiniRecord
or_no_identity none = no_identity
or_no_identity (some m) = m

-- `DB.LookupProvider`
unfoldable pub lookup_provider : Db → Addr → Outcome (Option MiniRecord)
lookup_provider d ip =
    let res = d.r.lookup ip in
    elim (res.error) [
      | some e ↦ err (codes "lookup: " ++ e)
      | none ↦
          if res.found
          then (elim (d.idx) [
            | some idx ↦ ok (some (or_no_identity (at_offset res.offset idx)))
            | none ↦ elim (res.decode_mini) [
              | err e ↦ err (codes "decode provider: " ++ e)
              | ok m ↦ ok (some m)
            ]
          ])
          else ok none
    ]

-- The loop of `BuildIndex`.
unfoldable pub index_loop : List Result → Offsets → Outcome Offsets
index_loop [] idx = ok idx
index_loop (res ∷ rest) idx = elim (res.error) [
  | some e ↦ err (codes "build index: " ++ e)
  | none ↦ elim (at_offset res.offset idx) [
    | some _ ↦ index_loop rest idx
    | none ↦ elim (res.decode_mini) [
      | err e ↦ err (codes "build index decode: " ++ e)
      | ok m ↦ index_loop rest ((res.offset, m) ∷ idx)
    ]
  ]
]

-- `DB.BuildIndex`: the database with its index, or an error, and then it is as it was.
unfoldable pub build_index : Db → Outcome Db
build_index d = elim (index_loop d.r.networks []) [
  | err e ↦ err e
  | ok idx ↦ ok (record { r = d.r; idx = some idx })
]

-- `DB.LookupString`, over what `netip.ParseAddr` gives for the text.
unfoldable pub lookup_string : Db → Outcome Addr → Outcome (Option Record)
lookup_string d (err e) = err (codes "parse ip: " ++ e)
lookup_string d (ok addr) = lookup d addr

pub record NetworkRecord : Type 0 where
  pub network : Prefix
  pub attribution : Record

-- `DB.Networks`: what it yields to a consumer that wants all.
unfoldable pub networks_from : List Result → List (Outcome NetworkRecord)
networks_from [] = []
networks_from (res ∷ rest) = elim (res.error) [
  | some e ↦ err e ∷ []
  | none ↦ elim (res.decode) [
    | err e ↦ err (codes "decode: " ++ e) ∷ []
    | ok sr ↦ ok (record { network = res.prefix; attribution = to_record sr }) ∷ networks_from rest
  ]
]

unfoldable pub networks : Db → List (Outcome NetworkRecord)
networks d = networks_from d.r.networks
