-- ===== src/Server/Grpc.antt =====
-- server/grpc.go, server/recover.go: the gRPC methods. The generated message types are records
-- here, a status is its code, and a stream is what it yields.
use cloudip.Base.{
  ℕ, zero, suc, ◌≡◌, refl, ◌∙◌, map, Bool, true, false, Text, codes, List, [], ◌∷◌, Option, none,
  some, if◌then◌else◌, take, length, ltb, arith,
}
use cloudip.Base.Outcome.{Outcome, ok, err}
use cloudip.Base.Int.{pos}
use cloudip.Net.Addr.{Addr}
use cloudip.Net.Prefix.{Prefix, prefix_valid, no_prefix}
use cloudip.Record.{Record, Error, is_zero, zero_time}
use cloudip.Reader.{Metadata}
use cloudip.Reader as Database
use cloudip.Server.{Handle, Service, answer, lookup}
use cloudip.Server.Http.{JsonRecord, lookup_answer}

-- `pb.Record` has the fields of the JSON form.
abbrev pub PbRecord : Type 0
PbRecord = JsonRecord

-- `pb.LookupResult`
pub record LookupResult : Type 0 where
  pub ip : Text
  pub found : Bool
  pub attribution : Option PbRecord
  pub error : Text

pub data Code : Type 0 where
  invalid_argument : Code
  unavailable : Code
  internal : Code

pub data Reply (A : Type 0) : Type 0 where
  reply : A → Reply A
  failed : Code → Text → Reply A

unfoldable pub empty_record : Record
empty_record = record {
  provider = [];
  region = [];
  services = [];
  categories = [];
  ipv6 = false;
  source = [];
  synced_at = zero_time;
  ext = [];
  network = no_prefix;
}

-- `GRPCServer.Version`
unfoldable pub version : Service → Reply Metadata
version s = elim (s.db) [
  | none ↦ failed unavailable (codes "no database loaded")
  | some h ↦ reply h.db.r.metadata
]

-- The interceptors: a handler that panics, with its value, is answered by an internal error.
unfoldable pub recovered : {A : Type 0} → Outcome (Reply A) → Reply A
recovered (ok r) = r
recovered (err v) = failed internal (codes "internal error")

module _ (parse_addr : Text → Outcome Addr) (show_prefix : Prefix → Text) where
  unfoldable pub record_to_proto : Record → PbRecord
  record_to_proto r = record {
    provider = r.provider;
    region = r.region;
    services = r.services;
    categories = r.categories;
    ipv6 = r.ipv6;
    source = r.source;
    synced_at = if is_zero r.synced_at then pos 0 else r.synced_at;
    ext = r.ext;
    network = if prefix_valid r.network then show_prefix r.network else [];
  }

  abbrev pub found_record : Option Record → Record
  found_record none = empty_record
  found_record (some r) = r

  abbrev pub is_found : Option Record → Bool
  is_found none = false
  is_found (some r) = true

  unfoldable pub lookup_reply : Text → Outcome (Option Record) → Reply LookupResult
  lookup_reply ip (err e) = failed invalid_argument e
  lookup_reply ip (ok r) = reply (record {
    ip = ip;
    found = is_found r;
    attribution = some (record_to_proto (found_record r));
    error = [];
  })

  -- `GRPCServer.Lookup`
  unfoldable pub grpc_lookup : Text → Service → Service × Reply LookupResult
  grpc_lookup ip s = let (s', found) = lookup parse_addr ip s in (s', lookup_reply ip found)

  unfoldable pub stream_result : Text → Outcome (Option Record) → LookupResult
  stream_result ip (err e) = record { ip = ip; found = false; attribution = none; error = e }
  stream_result ip (ok r) = record {
    ip = ip;
    found = is_found r;
    attribution = some (record_to_proto (found_record r));
    error = [];
  }

  -- `GRPCServer.BatchLookup`: the requests up to the end of the stream or to an error of it, and how
  -- many results can be sent before a send fails, if one does.
  unfoldable pub batch_lookup :
      List Text → Option Error → Option ℕ → Service → Service × List LookupResult × Option Error
  batch_lookup [] end_ sends s = (s, [], end_)
  batch_lookup (ip ∷ ips) end_ sends s =
      let (s', found) = lookup parse_addr ip s in
      elim sends [
        | none ↦
            (let (t, out, e) = batch_lookup ips end_ none s' in
              (t, stream_result ip found ∷ out, e))
        | some zero ↦ (s', [], some (codes "send"))
        | some (suc n) ↦
            (let (t, out, e) = batch_lookup ips end_ (some n) s' in
              (t, stream_result ip found ∷ out, e))
      ]

  -- The result for one address, on the database that is installed.
  abbrev pub result_on : Option Handle → Text → LookupResult
  result_on h ip = stream_result ip (answer Database.lookup (parse_addr ip) h)

  -- What is sent of the results, where so many sends succeed.
  abbrev pub sent : Option ℕ → List LookupResult → List LookupResult
  sent none results = results
  sent (some n) results = take n results

  -- How the stream ends: as the requests end, unless a send failed before.
  abbrev pub ended : Option ℕ → List Text → Option Error → Option Error
  ended none ips end_ = end_
  ended (some n) ips end_ = if ltb n (length ips) then some (codes "send") else end_

  -- A stream is answered with a result for each address, in the order of the requests, whatever the
  -- others are. Where every result can be sent it ends as the requests end; where only so many can,
  -- these are the first ones, and the stream ends with the error of the send unless they are all.
  pub batch_lookup_lem :
      (ips : List Text) (end_ : Option Error) (sends : Option ℕ) (s : Service)
      → ((batch_lookup ips end_ sends s).1 ≡ sent sends (map (result_on s.db) ips))
        × ((batch_lookup ips end_ sends s).2 ≡ ended sends ips end_)
  unfolding batch_lookup
  batch_lookup_lem [] end_ none s = (refl, refl)
  batch_lookup_lem [] end_ (some zero) s = (refl, refl)
  batch_lookup_lem [] end_ (some (suc n)) s = (refl, ground arith)
  batch_lookup_lem (ip ∷ ips) end_ (some zero) s = (refl, ground arith)
  batch_lookup_lem (ip ∷ ips) end_ none s =
      let (found, same, more) = lookup_answer parse_addr show_prefix ip s in
      let (rest, ends) = batch_lookup_lem ips end_ none (lookup parse_addr ip s).0 in
      (rw (rest, found, same) refl, ends)
  batch_lookup_lem (ip ∷ ips) end_ (some (suc n)) s =
      let (found, same, more) = lookup_answer parse_addr show_prefix ip s in
      let (rest, ends) = batch_lookup_lem ips end_ (some n) (lookup parse_addr ip s).0 in
      (rw (rest, found, same) refl, ends ∙ ground arith)
