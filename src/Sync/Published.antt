-- ===== src/Sync/Published.antt =====
-- What `BuildFile` publishes.
use cloudip.Base.{
  ℕ, ◌≡◌, refl, sym, ◌∙◌, inl, inr, false, Text, text_eq, List, Option, none, some, Option-cases,
  Bool-cases,
}
use cloudip.Base.Outcome.{Outcome, ok, err, Outcome-cases, ok-inj}
use cloudip.Record.{Item}
use cloudip.Build.{BuildOptions, BuildStats, build}
use cloudip.Build.Tree.{TreeWriter}
use cloudip.Reader.{Db, Reader, open_db}
use cloudip.Reader.Verify.{verify}
use cloudip.Sync.{
  Files, Limits, SyncResult, too_many_skipped, dropped_too_far, read_at, publish, finish_temp,
  cleaned, build_temp, build_file,
}
use cloudip.Sync.Atomic.{IsLawful}

-- A report of a database that opens, verifies, and is not too far below the one before.
abbrev pub IsVerified : Option ℕ → Limits → Outcome Reader → SyncResult → Type 0
IsVerified prev limits file r =
    (db : Db) × (open_db file ≡ ok db)
    × ((verify db).1 ≡ none)
    × (r.report ≡ (verify db).0)
    × (dropped_too_far limits prev (verify db).0.networks ≡ false)

module _ (F : Files) (T : TreeWriter) (encode : Outcome T.State → Text)
    (decode : Text → Outcome Reader) (L : IsLawful F) where
  read_at-some :
      (d : F.Disk) (path content : Text)
      → F.at d path ≡ some content
      → read_at F T encode decode d path ≡ decode content
  unfolding read_at
  read_at-some d path content h = rw (h, read_at) refl

  read_at-same :
      (d d' : F.Disk) (path : Text)
      → F.at d path ≡ F.at d' path
      → read_at F T encode decode d path ≡ read_at F T encode decode d' path
  unfolding read_at
  read_at-same d d' path h = rw (h, read_at) refl

  publish_lem :
      (path dir tmp : Text) (stats : BuildStats) (prev : Option ℕ) (limits : Limits) (d : F.Disk)
      (r : SyncResult)
      → (publish F T encode decode path dir tmp stats prev limits d).1 ≡ ok r
      → (F.at (publish F T encode decode path dir tmp stats prev limits d).0 path ≡ F.at d tmp)
        × (r.count ≡ stats.inserted)
        × IsVerified prev limits (read_at F T encode decode d tmp) r
  unfolding publish
  publish_lem path dir tmp stats prev limits d r h =
      elim (Outcome-cases (open_db (read_at F T encode decode d tmp))) [
        | inr (x, e1) ↦ absurd (let h' = rw (e1, publish) at h in cc)
        | inl (db, e1) ↦ elim (Option-cases (verify db).1) [
          | inr (x, e2) ↦ absurd (let h' = rw (e1, e2, publish) at h in cc)
          | inl e2 ↦ elim (Bool-cases (dropped_too_far limits prev (verify db).0.networks)) [
            | inl e3 ↦ absurd (let h' = rw (e1, e2, e3, publish) at h in cc)
            | inr e3 ↦ elim (Option-cases (F.rename tmp path d).1) [
              | inr (x, e4) ↦ absurd (let h' = rw (e1, e2, e3, e4, publish) at h in cc)
              | inl e4 ↦
                  let made = ok-inj (rw (e1, e2, e3, e4, publish) at h) in
                  (
                    rw (e1, e2, e3, e4, publish)
                        (L.sync_dir-at dir path _ ∙ L.rename-at tmp path d e4),
                    rw (sym made) refl,
                    (db, e1, e2, rw (sym made) refl, e3),
                  )
            ]
          ]
        ]
      ]

  finish_temp_lem :
      (path dir tmp : Text) (stats : BuildStats) (prev : Option ℕ) (limits : Limits) (d : F.Disk)
      (r : SyncResult)
      → (finish_temp F T encode decode path dir tmp stats prev limits d).1 ≡ ok r
      → (F.at (finish_temp F T encode decode path dir tmp stats prev limits d).0 path ≡ F.at d tmp)
        × (r.count ≡ stats.inserted)
        × (too_many_skipped limits stats ≡ false)
        × IsVerified prev limits (read_at F T encode decode d tmp) r
  unfolding finish_temp
  finish_temp_lem path dir tmp stats prev limits d r h = elim (Option-cases (F.sync tmp d).1) [
    | inr (x, e1) ↦ absurd (let h' = rw (e1, finish_temp) at h in cc)
    | inl e1 ↦ elim (Option-cases (F.close tmp (F.sync tmp d).0).1) [
      | inr (x, e2) ↦ absurd (let h' = rw (e1, e2, finish_temp) at h in cc)
      | inl e2 ↦ elim (Bool-cases (too_many_skipped limits stats)) [
        | inl e3 ↦ absurd (let h' = rw (e1, e2, e3, finish_temp) at h in cc)
        | inr e3 ↦
            let same = L.close-at tmp tmp (F.sync tmp d).0 ∙ L.sync-at tmp tmp d in
            let (at, count, verified) =
              publish_lem path dir tmp stats prev limits _ r (rw (e1, e2, e3, finish_temp) at h) in
            rw (e1, e2, e3, finish_temp)
              (at ∙ same, count, refl, rw (read_at-same _ _ tmp same) at verified)
      ]
    ]
  ]

  build_temp_lem :
      (path dir tmp : Text) (entries : List Item) (opts : BuildOptions) (prev : Option ℕ)
      (limits : Limits) (d : F.Disk) (r : SyncResult)
      → (build_temp F T encode decode path dir tmp entries opts prev limits d).1 ≡ ok r
      → (t : T.State) × ((build T entries opts).1 ≡ ok t)
        × (F.at (build_temp F T encode decode path dir tmp entries opts prev limits d).0 path
            ≡ some (encode (ok t)))
        × (r.count ≡ (build T entries opts).0.inserted)
        × (too_many_skipped limits (build T entries opts).0 ≡ false)
        × IsVerified prev limits (decode (encode (ok t))) r
  unfolding build_temp
  build_temp_lem path dir tmp entries opts prev limits d r h =
      elim (Outcome-cases (build T entries opts).1) [
        | inr (x, e1) ↦ absurd (let h' = rw (e1, build_temp) at h in cc)
        | inl (t, e1) ↦
            let (at, count, skips, verified) =
              finish_temp_lem path dir tmp _ prev limits _ r (rw (e1, build_temp) at h) in
            let held : F.at (F.write tmp (encode (build T entries opts).1) d) tmp
                ≡ some (encode (ok t)) =
              L.write-at tmp _ d ∙ rw e1 refl in
            (
              t,
              e1,
              rw (e1, build_temp) (at ∙ held),
              count,
              skips,
              rw (read_at-some _ tmp _ held) at verified,
            )
      ]

  cleaned_ok :
      (tmp : Text) (step : F.Disk × Outcome SyncResult) (r : SyncResult)
      → (cleaned F T encode decode tmp step).1 ≡ ok r
      → cleaned F T encode decode tmp step ≡ step
  unfolding cleaned
  cleaned_ok tmp (d, ok x) r h = refl
  cleaned_ok tmp (d, err x) r h = absurd (cc)

  -- A build that succeeds has the finished tree under the target, whole; that file opens and
  -- verifies, and both guards let it pass.
  pub build_file-published :
      (entries : List Item) (path dir : Text) (opts : BuildOptions) (prev : Option ℕ)
      (limits : Limits) (d : F.Disk) (r : SyncResult)
      → (build_file F T encode decode entries path dir opts prev limits d).1 ≡ ok r
      → (t : T.State) × ((build T entries opts).1 ≡ ok t)
        × (F.at (build_file F T encode decode entries path dir opts prev limits d).0 path
            ≡ some (encode (ok t)))
        × (r.count ≡ (build T entries opts).0.inserted)
        × (too_many_skipped limits (build T entries opts).0 ≡ false)
        × IsVerified prev limits (decode (encode (ok t))) r
  unfolding build_file
  build_file-published entries path dir opts prev limits d r h =
      elim (Option-cases (F.create_temp path d)) [
        | inl e0 ↦ absurd (let h' = rw (e0, build_file) at h in cc)
        | inr ((tmp, d1), e1) ↦
            let h' = rw (e1, build_file) at h in
            let same = cleaned_ok tmp _ r h' in
            rw (e1, build_file)
              (rw same (build_temp_lem path dir tmp entries opts prev limits d1 r (rw same at h')))
      ]
