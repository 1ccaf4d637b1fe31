-- ===== src/Server/Http.antt =====
-- server/http.go, server/recover.go: the handlers. A response is its status and its body; the writer
-- and the JSON encoding of the body are not modelled, nor is the printing of a prefix.
use mathlib.Core.List.{append-nil, append_assoc}
use cloudip.Base.{
  ℕ, ◌+◌, ◌≤◌, ◌<◌, ◌≡◌, refl, sym, ap, ◌∙◌, inl, inr, Bool, true, false, Text, codes, List, [],
  ◌∷◌, ◌++◌, Option, none, some, if◌then◌else◌, ltb, length, map, arith, Bool-cases,
}
use cloudip.Base.Outcome.{Outcome, ok, err}
use cloudip.Base.Texts.{decimal}
use cloudip.Base.Dict.{Dict}
use cloudip.Base.Int.{ℤ, pos}
use cloudip.Net.Addr.{Addr}
use cloudip.Net.Prefix.{Prefix, prefix_valid}
use cloudip.Record.{Record, Error, is_zero}
use cloudip.Reader.{MiniRecord, Metadata}
use cloudip.Reader as Database
use cloudip.Server.{Handle, Service, lookup, lookup_provider, counted, count_lookup, answer}

counted_lem :
    {A : Type 0} (s : Service) (a : Outcome (Option A))
    → ((counted s a).1 ≡ a)
      × ((counted s a).0.db ≡ s.db)
      × ((counted s a).0.lookups ≡ s.lookups + 1)
unfolding counted count_lookup
counted_lem s (err e) = (refl, refl, refl)
counted_lem s (ok none) = (refl, refl, refl)
counted_lem s (ok (some a)) = (refl, refl, refl)

-- `jsonRecord`
pub record JsonRecord : Type 0 where
  pub provider : Text
  pub region : Text
  pub services : List Text
  pub categories : List Text
  pub ipv6 : Bool
  pub source : Text
  pub synced_at : ℤ
  pub ext : Dict Text
  pub network : Text

pub record BatchResult : Type 0 where
  pub ip : Text
  pub found : Bool
  pub attribution : Option JsonRecord
  pub error : Text

pub data Body : Type 0 where
  fields : List (Text × Text) → Body
  one : JsonRecord → Body
  batch : List BatchResult → Body
  version : Metadata → Body
  metrics : ℕ → ℕ → ℕ → Option ℤ → Body

pub record Response : Type 0 where
  pub status : ℕ
  pub body : Body

abbrev pub respond : ℕ → Body → Response
respond status body = record { status = status; body = body }

abbrev not_attributed : Text → Body
not_attributed ip = fields ((codes "ip", ip) ∷ (codes "error", codes "not attributed") ∷ [])

abbrev failure : Error → Body
failure e = fields ((codes "error", e) ∷ [])

abbrev pub max_batch : ℕ
max_batch = 1024

-- The `DB() == nil` tests.
unfoldable pub handle_healthz : Service → Response
handle_healthz s = elim (s.db) [
  | none ↦ respond 503 (fields ((codes "status", codes "no database") ∷ []))
  | some _ ↦ respond 200 (fields ((codes "status", codes "ok") ∷ []))
]

unfoldable pub handle_version : Service → Response
handle_version s = elim (s.db) [
  | none ↦ respond 503 (failure (codes "no database loaded"))
  | some h ↦ respond 200 (version h.db.r.metadata)
]

unfoldable pub handle_metrics : Service → Response
handle_metrics s = respond 200 (
    metrics s.lookups s.hits s.errors
      (elim (s.db) [ none ↦ none | some h ↦ some (Metadata.build_time h.db.r.metadata) ]))

unfoldable pub provider_response : Text → Outcome (Option MiniRecord) → Response
provider_response ip (err e) = respond 400 (failure e)
provider_response ip (ok none) = respond 404 (not_attributed ip)
provider_response ip (ok (some m)) =
    respond 200 (fields ((codes "provider", m.provider) ∷ (codes "region", m.region) ∷ []))

-- `recoverHTTP`, where a handler may panic: `abort` stands for `http.ErrAbortHandler`.
pub data Run : Type 0 where
  answered : Response → Run
  panicked : Text → Run
  abort : Run

unfoldable pub recover_http : Run → Run
recover_http (answered r) = answered r
recover_http (panicked v) = answered (respond 500 (failure (codes "internal error")))
recover_http abort = abort

module _ (parse_addr : Text → Outcome Addr) (show_prefix : Prefix → Text) where
  unfoldable pub to_json : Record → JsonRecord
  to_json r = record {
    provider = r.provider;
    region = r.region;
    services = r.services;
    categories = r.categories;
    ipv6 = r.ipv6;
    source = r.source;
    synced_at = if is_zero r.synced_at then pos 0 else r.synced_at;
    ext = r.ext;
    network = if prefix_valid r.network then show_prefix r.network else [];
  }

  unfoldable pub handle_provider : Text → Service → Service × Response
  handle_provider ip s =
      let (s', found) = lookup_provider parse_addr ip s in (s', provider_response ip found)

  unfoldable pub one_response : Text → Outcome (Option Record) → Response
  one_response ip (err e) = respond 400 (failure e)
  one_response ip (ok none) = respond 404 (not_attributed ip)
  one_response ip (ok (some r)) = respond 200 (one (to_json r))

  unfoldable pub handle_lookup_one : Text → Service → Service × Response
  handle_lookup_one ip s = let (s', found) = lookup parse_addr ip s in (s', one_response ip found)

  unfoldable pub batch_result : Text → Outcome (Option Record) → BatchResult
  batch_result ip (err e) = record { ip = ip; found = false; attribution = none; error = e }
  batch_result ip (ok none) = record { ip = ip; found = false; attribution = none; error = [] }
  batch_result ip (ok (some r)) = record {
    ip = ip;
    found = true;
    attribution = some (to_json r);
    error = [];
  }

  -- The loop over the addresses.
  unfoldable pub batch_loop : List BatchResult → List Text → Service → Service × List BatchResult
  batch_loop out [] s = (s, out)
  batch_loop out (ip ∷ ips) s =
      let (s', found) = lookup parse_addr ip s in
      batch_loop (out ++ (batch_result ip found ∷ [])) ips s'

  unfoldable pub handle_lookup_batch : List Text → Service → Service × Response
  handle_lookup_batch [] s = (s, respond 400 (failure (codes "no ip query parameter")))
  handle_lookup_batch (ip ∷ ips) s =
      let n = length (ip ∷ ips) in
      if ltb max_batch n
      then (
        s,
        respond 400 (
            failure (
              codes "too many ips: "
              ++ (decimal n ++ (codes " (max " ++ (decimal max_batch ++ codes ")"))))),
      )
      else (let (s', out) = batch_loop [] (ip ∷ ips) s in (s', respond 200 (batch out)))

  -- The answer to one address, on the database that is installed.
  abbrev pub answer_on : Option Handle → Text → BatchResult
  answer_on h ip = batch_result ip (answer Database.lookup (parse_addr ip) h)

  pub lookup_answer :
      (ip : Text) (s : Service)
      → ((lookup parse_addr ip s).1 ≡ answer Database.lookup (parse_addr ip) s.db)
        × ((lookup parse_addr ip s).0.db ≡ s.db)
        × ((lookup parse_addr ip s).0.lookups ≡ s.lookups + 1)
  unfolding lookup
  lookup_answer ip s = counted_lem s (answer Database.lookup (parse_addr ip) s.db)

  batch_loop_lem :
      (ips : List Text) (out : List BatchResult) (s : Service)
      → ((batch_loop out ips s).1 ≡ out ++ map (answer_on s.db) ips)
        × ((batch_loop out ips s).0.lookups ≡ s.lookups + length ips)
  unfolding batch_loop
  batch_loop_lem [] out s = (sym (append-nil out), omega arith)
  batch_loop_lem (ip ∷ ips) out s =
      let (found, same, more) = lookup_answer ip s in
      let (rest, total) =
        batch_loop_lem ips (out ++ (batch_result ip (lookup parse_addr ip s).1 ∷ []))
          (lookup parse_addr ip s).0 in
      (rest ∙ rw (found, same, append_assoc) refl, omega (arith, total, more))

  -- A batch within the limit is answered whole: a result for each address, in the order asked for,
  -- whatever the others are; each counts as one lookup. A larger one is refused unread.
  pub handle_lookup_batch_lem :
      (ip : Text) (ips : List Text) (s : Service)
      → (length (ip ∷ ips) ≤ max_batch
          → ((handle_lookup_batch (ip ∷ ips) s).1
              ≡ respond 200 (batch (map (answer_on s.db) (ip ∷ ips))))
            × ((handle_lookup_batch (ip ∷ ips) s).0.lookups ≡ s.lookups + length (ip ∷ ips)))
        × (max_batch < length (ip ∷ ips)
            → ((handle_lookup_batch (ip ∷ ips) s).0 ≡ s)
              × ((handle_lookup_batch (ip ∷ ips) s).1.status ≡ 400))
  unfolding handle_lookup_batch
  handle_lookup_batch_lem ip ips s = elim (Bool-cases (ltb max_batch (length (ip ∷ ips)))) [
    | inl big ↦ rw (big, handle_lookup_batch) (λ le. absurd (ground arith), λ lt. (refl, refl))
    | inr fits ↦
        let (all, total) = batch_loop_lem (ip ∷ ips) [] s in
        rw (fits, handle_lookup_batch)
          (λ le. (ap (λ out. respond 200 (batch out)) all, total), λ lt. absurd (ground arith))
  ]
