-- ===== src/Cmd/Export.antt =====
-- cmd/cloudattr/query.go: `exportCSVFile`, and `humanAge` of `verify`. The state of the CSV writer
-- before the header, and the bytes that it has written, are parameters.
use cloudip.Base.{
  ℕ, ◌≡◌, ◌≢◌, refl, ◌∙◌, inl, inr, false, Text, codes, text_eq, ◌==◌, Option, none, some,
  if◌then◌else◌, Option-cases,
}
use cloudip.Base.Outcome.{Outcome, ok, err, Outcome-cases}
use cloudip.Net.Prefix.{Prefix}
use cloudip.Record.{Error}
use cloudip.Reader.{Db, Reader, open_db}
use cloudip.Reader.Export.{CsvWriter, export_csv}
use cloudip.Sync.{Files}
use cloudip.Sync.Atomic.{IsLawful, IsSameOrLeft, remove-IsSameOrLeft}

-- What `export` writes with: the text of a prefix, the writer, its start, and its bytes.
pub record Csv : Type 1 where
  pub show_prefix : Prefix → Text
  pub writer : CsvWriter
  pub start : writer.State
  pub content : writer.State → Text

-- `attribution.ExportCSV` of a database: the bytes, the rows, and its error.
unfoldable pub exported : Csv → Db → Text × ℕ × Option Error
exported C db =
    let (w, n, failed) = export_csv C.show_prefix C.writer db C.start in (C.content w, n, failed)

module _ (F : Files) (decode : Text → Outcome Reader) where
  -- `attribution.Open` of a path.
  unfoldable pub open_path : F.Disk → Text → Outcome Db
  open_path d path = elim (F.at d path) [
    | none ↦ err (codes "no such file")
    | some content ↦ open_db (decode content)
  ]

  -- Behind the making of the temporary file.
  unfoldable pub export_temp : Csv → Db → Text → Text → F.Disk → F.Disk × Outcome ℕ
  export_temp C db out tmp d =
      let (bytes, n, failed) = exported C db in
      let d1 = F.write tmp bytes d in
      elim failed [
        | some e ↦ ((F.close tmp d1).0, err e)
        | none ↦
            let (d2, unsynced) = F.sync tmp d1 in
            elim unsynced [
              | some e ↦ ((F.close tmp d2).0, err e)
              | none ↦
                  let (d3, unclosed) = F.close tmp d2 in
                  elim unclosed [
                    | some e ↦ (d3, err e)
                    | none ↦
                        let (d4, unnamed) = F.rename tmp out d3 in
                        elim unnamed [ some e ↦ (d4, err e) | none ↦ (d4, ok n) ]
                  ]
            ]
      ]

  -- The deferred removal of the temporary file.
  unfoldable pub export_cleaned : Text → F.Disk × Outcome ℕ → F.Disk × Outcome ℕ
  export_cleaned tmp (d, ok n) = (d, ok n)
  export_cleaned tmp (d, err e) = (F.remove tmp d, err e)

  -- To standard output.
  unfoldable pub export_stdout : Csv → Db → Outcome ℕ
  export_stdout C db =
      let (bytes, n, failed) = exported C db in elim failed [ some e ↦ err e | none ↦ ok n ]

  -- `exportCSVFile`
  unfoldable pub export_csv_file : Csv → Text → Text → F.Disk → F.Disk × Outcome ℕ
  export_csv_file C path out d = elim (open_path d path) [
    | err e ↦ (d, err e)
    | ok db ↦ if out == codes "-" then (d, export_stdout C db) else (elim (F.create_temp out d) [
      | none ↦ (d, err (codes "create temp"))
      | some (tmp, d1) ↦ export_cleaned tmp (export_temp C db out tmp d1)
    ])
  ]

  module _ (L : IsLawful F) where
    -- What a run of `export_temp` has done to the disk.
    Written : Text → Text → Csv → Db → F.Disk → F.Disk × Outcome ℕ → Type 0
    Written out tmp C db d (d', err e) = (q : Text) → q ≢ tmp → F.at d' q ≡ F.at d q
    Written out tmp C db d (d', ok n) =
        ((exported C db).1 ≡ n)
        × ((exported C db).2 ≡ none)
        × (F.at d' out ≡ some (exported C db).0)
        × ((q : Text) → q ≢ tmp → q ≢ out → F.at d' q ≡ F.at d q)

    export_temp-Written :
        (C : Csv) (db : Db) (out tmp : Text) (d : F.Disk)
        → Written out tmp C db d (export_temp C db out tmp d)
    unfolding export_temp Written
    export_temp-Written C db out tmp d =
        let d1 = F.write tmp (exported C db).0 d in
        let d2 = (F.sync tmp d1).0 in
        let wrote : (q : Text) → q ≢ tmp → F.at d1 q ≡ F.at d q =
          λ q n. L.write-other tmp (exported C db).0 q d n in
        let closed : (q : Text) → q ≢ tmp → F.at (F.close tmp d2).0 q ≡ F.at d q =
          λ q n. L.close-at tmp q d2 ∙ (L.sync-at tmp q d1 ∙ wrote q n) in
        elim (Option-cases (exported C db).2) [
          | inr (e, e1) ↦ rw (e1, export_temp) (λ q n. L.close-at tmp q d1 ∙ wrote q n)
          | inl e1 ↦ elim (Option-cases (F.sync tmp d1).1) [
            | inr (e, e2) ↦ rw (e1, e2, export_temp) closed
            | inl e2 ↦ elim (Option-cases (F.close tmp d2).1) [
              | inr (e, e3) ↦ rw (e1, e2, e3, export_temp) closed
              | inl e3 ↦
                  let d3 = (F.close tmp d2).0 in
                  elim (Option-cases (F.rename tmp out d3).1) [
                    | inr (e, e4) ↦
                        rw (e1, e2, e3, e4, export_temp)
                          (λ q n. L.rename-fails tmp out q d3 e e4 ∙ closed q n)
                    | inl e4 ↦
                        rw (e1, e2, e3, e4, export_temp)
                          (
                            refl,
                            e1,
                            L.rename-at tmp out d3 e4
                                ∙ (L.close-at tmp tmp d2
                                    ∙ (L.sync-at tmp tmp d1 ∙ L.write-at tmp (exported C db).0 d)),
                            λ q n m. L.rename-other tmp out q d3 e4 n m ∙ closed q n,
                          )
                  ]
            ]
          ]
        ]

    -- What a run of `export` does to the disk, for an output that is not standard output.
    unfoldable pub IsAtomic : Csv → Text → Text → F.Disk → F.Disk × Outcome ℕ → Type 0
    IsAtomic C path out d (d', err e) = (q : Text) → IsSameOrLeft F d d' q
    IsAtomic C path out d (d', ok n) =
        (db : Db) × (open_path d path ≡ ok db)
        × ((exported C db).1 ≡ n)
        × ((exported C db).2 ≡ none)
        × (F.at d' out ≡ some (exported C db).0)

    export_cleaned-IsAtomic :
        (C : Csv) (db : Db) (path out tmp : Text) (d d1 : F.Disk) (r : F.Disk × Outcome ℕ)
        → open_path d path ≡ ok db
        → F.at d tmp ≡ none
        → ((q : Text) → q ≢ tmp → F.at d1 q ≡ F.at d q)
        → Written out tmp C db d1 r
        → IsAtomic C path out d (export_cleaned tmp r)
    unfolding export_cleaned Written IsAtomic
    export_cleaned-IsAtomic C db path out tmp d d1 (d2, ok n) opened fresh frame h =
        (db, opened, h.0, h.1, h.2)
    export_cleaned-IsAtomic C db path out tmp d d1 (d2, err e) opened fresh frame h =
        remove-IsSameOrLeft F L d d2 tmp fresh (λ q other. h q other ∙ frame q other)

    -- An export to a file that fails leaves every path of the disk as it was, but for a path at which
    -- there was no file and at which the removal of the temporary file has failed. One that succeeds
    -- leaves under the output all that the export of the opened database writes, whose walk met no
    -- error, and reports its number of rows.
    pub export_csv_file-IsAtomic :
        (C : Csv) (path out : Text) (d : F.Disk)
        → (out == codes "-") ≡ false
        → IsAtomic C path out d (export_csv_file C path out d)
    unfolding export_csv_file IsAtomic
    export_csv_file-IsAtomic C path out d file = elim (Outcome-cases (open_path d path)) [
      | inr (e, e1) ↦ rw (e1, export_csv_file) (λ q. inl refl)
      | inl (db, e1) ↦ elim (Option-cases (F.create_temp out d)) [
        | inl e2 ↦ rw (e1, file, e2, export_csv_file) (λ q. inl refl)
        | inr ((tmp, d1), e2) ↦
            let (fresh, frame) = L.temp-new out tmp d d1 e2 in
            rw (e1, file, e2, export_csv_file)
              (export_cleaned-IsAtomic C db path out tmp d d1 _ e1 fresh frame
                (export_temp-Written C db out tmp d1))
      ]
    ]
