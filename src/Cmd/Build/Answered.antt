-- ===== src/Cmd/Build/Answered.antt =====
-- cmd/cloudattr/build.go, attribution/reader.go: lookups in the database that `runBuild` publishes.
use mathlib.Core.Path.{subst}
use cloudip.Base.{ℕ, ◌≡◌, refl, ap, true, Text, text_eq, ◌==◌, List, []}
use cloudip.Base.Outcome.{Outcome, ok, err, ok-inj}
use cloudip.Net.Addr.{Addr, v4, unmap}
use cloudip.Record.{Item}
use cloudip.Storage.{Stored, StoredRecord}
use cloudip.Storage.RoundTrip.{IsDecoder}
use cloudip.Build.{build}
use cloudip.Build.Attributed.{holders}
use cloudip.Build.Tree
use cloudip.Build.Tree.{TreeWriter}
use cloudip.Reader.{Reader, Db, lookup, open_db}
use cloudip.Reader.Built.{Answers, IsAnswer, lookup-build}
use cloudip.Sync.{Files, Limits, SyncResult}
use cloudip.Sync.Atomic.{IsLawful}
use cloudip.Cmd.Flags.{BuildFlags, out_path}
use cloudip.Cmd.Resolve.{Outside, Digests}
use cloudip.Cmd.Export.{Csv, open_path}
use cloudip.Cmd.Build.{build_entries, digest_options, run_build, options}
use cloudip.Cmd.Build.Published.{run_build-published}

open_db-reader :
    (file : Outcome Reader) (db : Db)
    → open_db file ≡ ok db
    → (r : Reader) × (file ≡ ok r) × (r ≡ db.r)
unfolding open_db
open_db-reader (err e) db h = absurd (cc)
open_db-reader (ok r) db h = (r, refl, ap (λ x. Db.r x) (ok-inj h))

module _ (W : Outside) (F : Files) (T : TreeWriter) (encode : Outcome T.State → Text)
    (decode : Text → Outcome Reader) (pins_json : Text → Outcome Digests) (C : Csv)
    (dir_of : Text → Text) (L : IsLawful F) (M : Tree.IsLawful T)
    (decode_record : Stored → Outcome StoredRecord) (D : IsDecoder decode_record) where
  -- A run of `build` without --csv that succeeds, where the file written of the tree that it built
  -- answers as package `maxminddb` documents: the published file opens, and a lookup in it of any
  -- IPv4 address, as such or mapped, answers with what the entries that the run collected attribute
  -- to the address: nothing, or the identity of the first of them that covers it, the categories of
  -- all that do, and the services of those of the same provider. An IPv6 network covers an IPv4
  -- address if it holds the address's place in the tree, in ::/96.
  pub run_build-lookup :
      (f : BuildFlags) (epoch : ℕ) (limits : Limits) (d : F.Disk) (res : SyncResult)
      → (f.csv_out == []) ≡ true
      → (run_build W F T encode decode pins_json C dir_of f epoch limits d).1 ≡ ok res
      → ((digests : Digests) (entries : List Item) (t : T.State) (r : Reader)
          → digest_options W F T encode decode pins_json C dir_of f d ≡ ok digests
          → build_entries W f digests ≡ ok entries
          → (build T entries (options W F T encode decode pins_json C dir_of f epoch)).1 ≡ ok t
          → decode (encode (ok t)) ≡ ok r
          → Answers T decode_record t r)
      → (digests : Digests) × (digest_options W F T encode decode pins_json C dir_of f d
          ≡ ok digests)
        × (entries : List Item) × (build_entries W f digests ≡ ok entries)
        × (db : Db) × (open_path F decode
              (run_build W F T encode decode pins_json C dir_of f epoch limits d).0
              (out_path f)
            ≡ ok db)
        × ((ip : Addr) (n : ℕ)
            → unmap ip ≡ v4 n
            → IsAnswer (holders T.accepts (v4 n) entries) (lookup db ip))
  unfolding open_path open_db
  run_build-lookup f epoch limits d res no_csv h answers =
      let (_, digests, e2, entries, e3, t, built, at, _, (db, opened, _, _, _)) =
        run_build-published W F T encode decode pins_json C dir_of L f epoch limits d res no_csv
          h in
      let (r, decoded, same) = open_db-reader (decode (encode (ok t))) db opened in
      (
        digests,
        e2,
        entries,
        e3,
        db,
        rw (at, open_path) opened,
        λ ip n is_v4.
            lookup-build T M decode_record D t db
              (subst (λ q. Answers T decode_record t q) same
                (answers digests entries t r e2 e3 built decoded))
              ip n is_v4 entries _ built,
      )
