-- ===== src/Tests/Queries.antt =====
-- Runs of `lookup` and of `serve`.
use cloudip.Base.{
  ◌≡◌, ◌↔◌, refl, true, false, Text, codes, text_eq, nat_eq, ◌==◌, List, [], ◌∷◌, map, Option, none,
  some, if◌then◌else◌,
}
use cloudip.Base.Outcome.{Outcome, ok, err}
use cloudip.Base.Texts.{trim_space, trim_left, is_space, has_prefix}
use cloudip.Net.Addr.{Addr, v4}
use cloudip.Record.{Error}
use cloudip.Reader.{Db}
use cloudip.Cmd.Lookup.{
  Answer, LookupFlags, answer, all_skipped, given_ips, read_ips_file, ips_of, printed, run_lookup,
  run_lookup_lem,
}
use cloudip.Cmd.Serve.{ServeConfig, IsReleased, run_serve, run_serve-IsReleased}
use cloudip.Tests.Readers.{file}

abbrev one_file : Text → Outcome (List Text × Option Error)
one_file path = ok (codes "# addresses" ∷ codes " 10.0.0.2 " ∷ [], none)

abbrev parse : Text → Outcome Addr
parse s = if s == codes "bad" then err (codes "unable to parse IP") else ok (v4 0x0a000002)

abbrev prints : Answer → Option Error
prints a = none

abbrev flags : LookupFlags
flags = record { format = codes "json"; file = codes "ips"; args = codes "bad" ∷ [] }

abbrev opened : Db
opened = record { r = file; idx = none }

two_given : given_ips one_file flags.args flags.file ≡ ok (codes "bad" ∷ codes "10.0.0.2" ∷ [])
unfolding given_ips read_ips_file ips_of trim_space trim_left is_space has_prefix text_eq nat_eq
two_given = refl

all_print : (a : Answer) → printed parse prints (flags.format == codes "json") a ≡ none
unfolding printed text_eq nat_eq
all_print a = refl

run_lookup_lem_example :
    ((run_lookup parse prints one_file (ok opened) flags).0
      ≡ map (answer parse prints opened) (codes "bad" ∷ codes "10.0.0.2" ∷ []))
    × (((run_lookup parse prints one_file (ok opened) flags).1 ≡ none) ↔ (
        all_skipped parse prints
          (map (answer parse prints opened) (codes "bad" ∷ codes "10.0.0.2" ∷ []))
        ≡ false))
run_lookup_lem_example =
    run_lookup_lem parse prints one_file flags opened (codes "bad") (codes "10.0.0.2" ∷ [])
      two_given all_print

abbrev ports : ServeConfig
ports = record { http_addr = codes ":8080"; grpc_addr = codes ":9090" }

abbrev busy : Text → List Text → Option Error
busy addr sockets = if addr == codes ":9090" then some (codes "in use") else none

run_serve-IsReleased_example :
    ((run_serve busy (ok file) true ports (ok file ∷ err (codes "gone") ∷ []) none []).1 ≡ [])
    × IsReleased busy
        (run_serve busy (ok file) true ports (ok file ∷ err (codes "gone") ∷ []) none []).0
run_serve-IsReleased_example =
    run_serve-IsReleased busy (ok file) true ports (ok file ∷ err (codes "gone") ∷ []) none []
