-- ===== src/Cmd/Build/Published.antt =====
-- cmd/cloudattr/build.go: `runBuild`, where it succeeds.
use cloudip.Base.{
  ℕ, ◌≡◌, refl, inl, inr, true, false, Text, text_eq, ◌==◌, List, [], none, some, Option-cases,
}
use cloudip.Base.Outcome.{Outcome, ok, err, Outcome-cases}
use cloudip.Record.{Item}
use cloudip.Build.{build}
use cloudip.Build.Tree.{TreeWriter}
use cloudip.Reader.{Reader}
use cloudip.Sync.{Files, Limits, SyncResult, too_many_skipped}
use cloudip.Sync.Atomic.{IsLawful}
use cloudip.Sync.Published.{IsVerified, build_file-published}
use cloudip.Cmd.Flags.{BuildFlags, check_flags, out_path}
use cloudip.Cmd.Resolve.{Outside, Digests}
use cloudip.Cmd.Export.{Csv}
use cloudip.Cmd.Build.{
  build_entries, digest_options, then_csv, publication, run_build, options, previous,
}

module _ (W : Outside) (F : Files) (T : TreeWriter) (encode : Outcome T.State → Text)
    (decode : Text → Outcome Reader) (pins_json : Text → Outcome Digests) (C : Csv)
    (dir_of : Text → Text) (L : IsLawful F) where
  then_csv-none :
      (f : BuildFlags) (p : F.Disk × Outcome SyncResult)
      → (f.csv_out == []) ≡ true
      → then_csv W F T encode decode pins_json C dir_of f p ≡ p
  unfolding then_csv
  then_csv-none f (d, err e) h = refl
  then_csv-none f (d, ok res) h = rw (h, then_csv) refl

  -- A run of `build` without --csv that succeeds had flags that agree, and has under its output path
  -- the whole tree built of the entries that it collected; that file opens and verifies, with not too
  -- many entries skipped and not too few networks beside the database that was there before.
  pub run_build-published :
      (f : BuildFlags) (epoch : ℕ) (limits : Limits) (d : F.Disk) (r : SyncResult)
      → (f.csv_out == []) ≡ true
      → (run_build W F T encode decode pins_json C dir_of f epoch limits d).1 ≡ ok r
      → (check_flags f ≡ none)
        × (digests : Digests) × (digest_options W F T encode decode pins_json C dir_of f d
            ≡ ok digests)
        × (entries : List Item) × (build_entries W f digests ≡ ok entries)
        × (t : T.State) × ((build T entries
              (options W F T encode decode pins_json C dir_of f epoch)).1
            ≡ ok t)
        × (F.at (run_build W F T encode decode pins_json C dir_of f epoch limits d).0 (out_path f)
            ≡ some (encode (ok t)))
        × (too_many_skipped limits
              (build T entries (options W F T encode decode pins_json C dir_of f epoch)).0
            ≡ false)
        × IsVerified
            (previous W F T encode decode pins_json C dir_of (out_path f) d)
            limits
            (decode (encode (ok t)))
            r
  unfolding run_build
  run_build-published f epoch limits d r no_csv h = elim (Option-cases (check_flags f)) [
    | inr (x, e1) ↦ absurd (let h' = rw (e1, run_build) at h in cc)
    | inl e1 ↦ elim (Outcome-cases (digest_options W F T encode decode pins_json C dir_of f d)) [
      | inr (x, e2) ↦ absurd (let h' = rw (e1, e2, run_build) at h in cc)
      | inl (digests, e2) ↦ elim (Outcome-cases (build_entries W f digests)) [
        | inr (x, e3) ↦ absurd (let h' = rw (e1, e2, e3, run_build) at h in cc)
        | inl (entries, e3) ↦
            let p = publication W F T encode decode pins_json C dir_of f epoch limits d entries in
            let path = out_path f in
            let same = then_csv-none f p no_csv in
            let (t, built, at, count, skips, verified) =
              build_file-published F T encode decode L entries path (dir_of path) _ _ limits d r
                (rw (e1, e2, e3, run_build, same) at h) in
            (
              e1,
              digests,
              e2,
              entries,
              e3,
              t,
              built,
              rw (e1, e2, e3, run_build) (rw same at),
              skips,
              verified,
            )
      ]
    ]
  ]
