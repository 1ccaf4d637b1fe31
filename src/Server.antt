-- ===== src/Server.antt =====
-- server/service.go: the service that the HTTP and gRPC servers share. A database handle has a
-- number, given in the order of opening; the state keeps which handles are closed.
pub mod Steps
pub mod Reload
pub mod Counters
pub mod Http
pub mod Mux
pub mod Router
pub mod Grpc
use cloudip.Base.{
  ℕ, ◌+◌, Bool, true, false, Text, codes, List, [], ◌∷◌, ◌++◌, Option, none, some, if◌then◌else◌,
}
use cloudip.Base.Outcome.{Outcome, ok, err}
use cloudip.Net.Addr.{Addr}
use cloudip.Record.{Record, Error}
use cloudip.Reader.{Db, MiniRecord, Reader, open_db, validate, build_index}
use cloudip.Reader as Database

pub record Handle : Type 0 where
  pub id : ℕ
  pub db : Db

-- `Service`, with the handles: how many were opened, which are closed, and which are handed to
-- `closeAfter`.
pub record Service : Type 0 where
  pub db : Option Handle
  pub lookups : ℕ
  pub hits : ℕ
  pub errors : ℕ
  pub closed : Bool
  pub index : Bool
  pub opened : ℕ
  pub shut : List ℕ
  pub pending : List ℕ

unfoldable pub after_open : Service → Service
after_open s = record {
  db = s.db;
  lookups = s.lookups;
  hits = s.hits;
  errors = s.errors;
  closed = s.closed;
  index = s.index;
  opened = s.opened + 1;
  shut = s.shut;
  pending = s.pending;
}

-- `db.Close()`
unfoldable pub close_handle : ℕ → Service → Service
close_handle id s = record {
  db = s.db;
  lookups = s.lookups;
  hits = s.hits;
  errors = s.errors;
  closed = s.closed;
  index = s.index;
  opened = s.opened;
  shut = id ∷ s.shut;
  pending = s.pending;
}

-- `s.db.Swap(db)`, and `s.closeAfter(old)` where there was a handle.
unfoldable pub swap : Handle → Service → Service
swap h s = record {
  db = some h;
  lookups = s.lookups;
  hits = s.hits;
  errors = s.errors;
  closed = s.closed;
  index = s.index;
  opened = s.opened;
  shut = s.shut;
  pending = elim (s.db) [ none ↦ s.pending | some old ↦ old.id ∷ s.pending ];
}

unfoldable pub mark_closed : Service → Service
mark_closed s = record {
  db = s.db;
  lookups = s.lookups;
  hits = s.hits;
  errors = s.errors;
  closed = true;
  index = s.index;
  opened = s.opened;
  shut = s.shut;
  pending = s.pending;
}

-- The database of an opened file: valid, and with its index where the service wants one.
unfoldable pub prepared : Bool → Db → Outcome Db
prepared index db = elim (validate db) [
  | some e ↦ err (codes "validate: " ++ e)
  | none ↦
      if index
      then (elim (build_index db) [ err e ↦ err (codes "build index: " ++ e) | ok d ↦ ok d ])
      else ok db
]

-- `load`: the path as it opens at that moment is an argument.
unfoldable pub load : Outcome Reader → Service → Service × Outcome Handle
load file s = elim (open_db file) [
  | err e ↦ (s, err e)
  | ok db ↦ elim (prepared s.index db) [
    | err e ↦ (close_handle s.opened (after_open s), err e)
    | ok d ↦ (after_open s, ok (record { id = s.opened; db = d }))
  ]
]

unfoldable pub empty_service : Bool → Service
empty_service index = record {
  db = none;
  lookups = 0;
  hits = 0;
  errors = 0;
  closed = false;
  index = index;
  opened = 0;
  shut = [];
  pending = [];
}

unfoldable pub started : Service × Outcome Handle → Outcome Service
started (s, err e) = err e
started (s, ok h) = ok (swap h s)

-- `NewServiceIndexed`
unfoldable pub new_service : Outcome Reader → Bool → Outcome Service
new_service file index = started (load file (empty_service index))

unfoldable pub install : Service × Outcome Handle → Service × Option Error
install (s, err e) = (s, some (codes "reload: " ++ e))
install (s, ok h) = if s.closed then (close_handle h.id s, none) else (swap h s, none)

-- `Reload`
unfoldable pub reload : Outcome Reader → Service → Service × Option Error
reload file s = install (load file s)

-- `Close`
unfoldable pub close : Service → Service
close s =
    if s.closed
    then s
    else (elim (s.db) [ none ↦ mark_closed s | some h ↦ close_handle h.id (mark_closed s) ])

unfoldable pub count_lookup : ℕ → ℕ → Service → Service
count_lookup hits errors s = record {
  db = s.db;
  lookups = s.lookups + 1;
  hits = s.hits + hits;
  errors = s.errors + errors;
  closed = s.closed;
  index = s.index;
  opened = s.opened;
  shut = s.shut;
  pending = s.pending;
}

-- How an answer counts: a hit, a miss or an error.
unfoldable pub counted : {A : Type 0} → Service → Outcome (Option A) → Service × Outcome (Option A)
counted s (err e) = (count_lookup 0 1 s, err e)
counted s (ok none) = (count_lookup 0 0 s, ok none)
counted s (ok (some r)) = (count_lookup 1 0 s, ok (some r))

-- An answer on a text that may not parse, from the handle that is installed. Without a handle the
-- call panics.
unfoldable pub answer :
    {A : Type 0}
    → (Db → Addr → Outcome (Option A))
    → Outcome Addr
    → Option Handle
    → Outcome (Option A)
answer ask (err e) h = err (codes "invalid ip: " ++ e)
answer ask (ok addr) none = err (codes "nil pointer dereference")
answer ask (ok addr) (some h) = ask h.db addr

module _ (parse_addr : Text → Outcome Addr) where
  -- `Service.Lookup`
  unfoldable pub lookup : Text → Service → Service × Outcome (Option Record)
  lookup ip s = counted s (answer Database.lookup (parse_addr ip) s.db)

  -- `Service.LookupProvider`
  unfoldable pub lookup_provider : Text → Service → Service × Outcome (Option MiniRecord)
  lookup_provider ip s = counted s (answer Database.lookup_provider (parse_addr ip) s.db)
