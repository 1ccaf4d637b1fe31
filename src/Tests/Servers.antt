-- ===== src/Tests/Servers.antt =====
-- Runs of the service.
use cloudip.Base.{
  ◌+◌, ◌≤◌, ◌<◌, ◌≡◌, refl, false, Text, codes, text_eq, nat_eq, List, [], ◌∷◌, none, some, length,
  map,
}
use cloudip.Base.Outcome.{Outcome, ok}
use cloudip.Net.Addr.{Addr, v4}
use cloudip.Net.Prefix.{Prefix}
use cloudip.Reader.{open_db, validate}
use cloudip.Server.{
  Service, new_service, started, load, prepared, empty_service, after_open, swap, lookup, close,
}
use cloudip.Server.Steps.{IsSound}
use cloudip.Server.Counters.{
  IsReachable, start, then_, step_lookup, step_close, reachable-IsSound, reachable-IsCounted,
}
use cloudip.Server.Http.{
  handle_lookup_batch, handle_lookup_batch_lem, batch, respond, answer_on, max_batch,
}
use cloudip.Server.Grpc.{batch_lookup, result_on, sent, ended, batch_lookup_lem}
use cloudip.Tests.Readers.{file}

abbrev pub parse : Text → Outcome Addr
parse ip = ok (v4 9)

abbrev pub show : Prefix → Text
show p = codes "10.0.0.0/8"

abbrev pub service : Service
service = record {
  db = some (record { id = 0; db = record { r = file; idx = none } });
  lookups = 0;
  hits = 0;
  errors = 0;
  closed = false;
  index = false;
  opened = 1;
  shut = [];
  pending = [];
}

fresh : new_service (ok file) false ≡ ok service
unfolding new_service started load prepared open_db validate empty_service after_open swap text_eq
    nat_eq
fresh = refl

abbrev asked : Service
asked = (lookup parse (codes "10.0.0.9") service).0

run : IsReachable parse (close asked)
run = then_ (then_ (start (ok file) false fresh) (step_lookup (codes "10.0.0.9"))) step_close

reachable-IsSound_example : IsSound (close asked)
reachable-IsSound_example = reachable-IsSound parse {s = close asked} run

reachable-IsCounted_example : (close asked).hits + (close asked).errors ≤ (close asked).lookups
reachable-IsCounted_example = reachable-IsCounted parse {s = close asked} run

abbrev asks : List Text
asks = codes "10.0.0.9" ∷ codes "10.0.0.10" ∷ []

handle_lookup_batch_lem_example :
    (length asks ≤ max_batch
      → ((handle_lookup_batch parse show asks service).1
          ≡ respond 200 (batch (map (answer_on parse show service.db) asks)))
        × ((handle_lookup_batch parse show asks service).0.lookups ≡ service.lookups + length asks))
    × (max_batch < length asks
        → ((handle_lookup_batch parse show asks service).0 ≡ service)
          × ((handle_lookup_batch parse show asks service).1.status ≡ 400))
handle_lookup_batch_lem_example =
    handle_lookup_batch_lem parse show (codes "10.0.0.9") (codes "10.0.0.10" ∷ []) service

-- One result can be sent.
batch_lookup_lem_example :
    ((batch_lookup parse show asks none (some 1) service).1
      ≡ sent parse show (some 1) (map (result_on parse show service.db) asks))
    × ((batch_lookup parse show asks none (some 1) service).2 ≡ ended parse show (some 1) asks none)
batch_lookup_lem_example = batch_lookup_lem parse show asks none (some 1) service
