-- ===== src/Cmd/Build/Fails.antt =====
-- cmd/cloudattr/build.go: `runBuild`, where it returns an error.
use cloudip.Base.{
  ℕ, ◌≡◌, refl, false, inl, inr, ◌⊎◌, Text, codes, text_eq, ◌==◌, List, [], Option-cases,
  Bool-cases,
}
use cloudip.Base.Outcome.{Outcome, ok, err, Outcome-cases}
use cloudip.Record.{Item, Error}
use cloudip.Build.Tree.{TreeWriter}
use cloudip.Reader.{Reader}
use cloudip.Sync.{Files, Limits, SyncResult}
use cloudip.Sync.Atomic.{IsLawful, IsSameOrLeft, build_file-fails}
use cloudip.Cmd.Flags.{BuildFlags, check_flags, out_path}
use cloudip.Cmd.Resolve.{Outside, Digests}
use cloudip.Cmd.Export.{Csv, open_path, export_csv_file, IsAtomic, export_csv_file-IsAtomic}
use cloudip.Cmd.Build.{build_entries, digest_options, then_csv, publication, run_build}

module _ (W : Outside) (F : Files) (T : TreeWriter) (encode : Outcome T.State → Text)
    (decode : Text → Outcome Reader) (pins_json : Text → Outcome Digests) (C : Csv)
    (dir_of : Text → Text) (L : IsLawful F) where
  IsAtomic-same :
      (path out : Text) (d : F.Disk) (r : F.Disk × Outcome ℕ) (e : Error)
      → IsAtomic F decode L C path out d r
      → r.1 ≡ err e
      → (q : Text) → IsSameOrLeft F d r.0 q
  unfolding IsAtomic
  IsAtomic-same path out d (d', ok n) e a h q = absurd (cc)
  IsAtomic-same path out d (d', err x) e a h q = a q

  export_csv_file-fails :
      (path out : Text) (d : F.Disk) (e : Error)
      → (export_csv_file F decode C path out d).1 ≡ err e
      → (q : Text) → IsSameOrLeft F d (export_csv_file F decode C path out d).0 q
  unfolding export_csv_file
  export_csv_file-fails path out d e h q = elim (Bool-cases (out == codes "-")) [
    | inl console ↦ elim (Outcome-cases (open_path F decode d path)) [
      | inr (x, e1) ↦ rw (e1, export_csv_file) (inl refl)
      | inl (db, e1) ↦ rw (e1, console, export_csv_file) (inl refl)
    ]
    | inr file ↦
        IsAtomic-same path out d _ e (export_csv_file-IsAtomic F decode L C path out d file) h q
  ]

  -- What a failed run leaves on the disk `d`, where the publication would end with `p`.
  pub Leaves : BuildFlags → F.Disk → F.Disk × Outcome SyncResult → F.Disk → Type 0
  Leaves f d p d' =
      ((q : Text) → IsSameOrLeft F d d' q)
      ⊎ (((f.csv_out == []) ≡ false)
          × (res : SyncResult) × (p.1 ≡ ok res)
          × ((q : Text) → IsSameOrLeft F p.0 d' q))

  then_csv-Leaves :
      (f : BuildFlags) (d : F.Disk) (p : F.Disk × Outcome SyncResult) (e : Error)
      → ((x : Error) → p.1 ≡ err x → (q : Text) → IsSameOrLeft F d p.0 q)
      → (then_csv W F T encode decode pins_json C dir_of f p).1 ≡ err e
      → Leaves f d p (then_csv W F T encode decode pins_json C dir_of f p).0
  unfolding then_csv Leaves
  then_csv-Leaves f d (d1, err x) e same h = inl (λ q. same x refl q)
  then_csv-Leaves f d (d1, ok res) e same h = elim (Bool-cases (f.csv_out == [])) [
    | inl no_csv ↦ absurd (let h' = rw (no_csv, then_csv) at h in cc)
    | inr csv ↦ elim (Outcome-cases (export_csv_file F decode C (out_path f) f.csv_out d1).1) [
      | inl (n, e1) ↦ absurd (let h' = rw (csv, e1, then_csv) at h in cc)
      | inr (x, e1) ↦
          rw (csv, e1, then_csv)
            (inr (refl, res, refl, λ q. export_csv_file-fails (out_path f) f.csv_out d1 x e1 q))
    ]
  ]

  -- A run of `build` that fails, at whatever step, leaves every path of the disk as it was, unless
  -- the entries that it collected were published and what failed behind that is the export that --csv
  -- asks for: then the disk is at every path as the publication left it. Both are but for a path at
  -- which there was no file and at which the removal of the temporary file has failed.
  pub run_build-fails :
      (f : BuildFlags) (epoch : ℕ) (limits : Limits) (d : F.Disk) (e : Error)
      → (run_build W F T encode decode pins_json C dir_of f epoch limits d).1 ≡ err e
      → ((q : Text)
          → IsSameOrLeft F d
              (run_build W F T encode decode pins_json C dir_of f epoch limits d).0
              q)
        ⊎ (((f.csv_out == []) ≡ false)
            × (digests : Digests) × (digest_options W F T encode decode pins_json C dir_of f d
                ≡ ok digests)
            × (entries : List Item) × (build_entries W f digests ≡ ok entries)
            × (res : SyncResult) × ((publication W F T encode decode pins_json C dir_of f epoch
                  limits d entries).1
                ≡ ok res)
            × ((q : Text)
                → IsSameOrLeft F
                    (publication W F T encode decode pins_json C dir_of f epoch limits d entries).0
                    (run_build W F T encode decode pins_json C dir_of f epoch limits d).0
                    q))
  unfolding run_build Leaves
  run_build-fails f epoch limits d e h = elim (Option-cases (check_flags f)) [
    | inr (x, e1) ↦ rw (e1, run_build) (inl (λ q. inl refl))
    | inl e1 ↦ elim (Outcome-cases (digest_options W F T encode decode pins_json C dir_of f d)) [
      | inr (x, e2) ↦ rw (e1, e2, run_build) (inl (λ q. inl refl))
      | inl (digests, e2) ↦ elim (Outcome-cases (build_entries W f digests)) [
        | inr (x, e3) ↦ rw (e1, e2, e3, run_build) (inl (λ q. inl refl))
        | inl (entries, e3) ↦
            let p = publication W F T encode decode pins_json C dir_of f epoch limits d entries in
            let path = out_path f in
            let same =
              build_file-fails F T encode decode L entries path (dir_of path) _ _ limits d in
            let left = then_csv-Leaves f d p e same (rw (e1, e2, e3, run_build) at h) in
            rw (e1, e2, e3, run_build)
              (elim left [
                | inl still ↦ inl still
                | inr (csv, res, done, still) ↦
                    inr (csv, digests, refl, entries, e3, res, done, still)
              ])
      ]
    ]
  ]
