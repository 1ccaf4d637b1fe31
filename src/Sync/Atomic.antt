-- ===== src/Sync/Atomic.antt =====
-- What `BuildFile` does to the disk.
use cloudip.Base.{
  ℕ, ◌≡◌, ◌⊎◌, ◌≢◌, refl, sym, ◌∙◌, inl, inr, Text, List, Option, none, some, Option-cases,
  Bool-cases, ==-sound, ==-differs, text_eq, ◌==◌,
}
use cloudip.Base.Outcome.{Outcome, ok, err, Outcome-cases}
use cloudip.Record.{Item, Error}
use cloudip.Build.{BuildOptions, BuildStats, build}
use cloudip.Build.Tree.{TreeWriter}
use cloudip.Reader.{Reader, open_db}
use cloudip.Reader.Verify.{verify}
use cloudip.Sync.{
  Files, Limits, SyncResult, too_many_skipped, dropped_too_far, read_at, publish, finish_temp,
  cleaned, build_temp, build_file,
}

-- What package `os` promises of these calls: a temporary file is new, and only a rename touches
-- another path than the one it is called with; it puts the content of one path at the other, or it
-- fails and does nothing. A removal may fail.
pub record IsLawful (F : Files) : Type 0 where
  pub temp-new :
      (path tmp : Text) (d d' : F.Disk)
      → F.create_temp path d ≡ some (tmp, d')
      → (F.at d tmp ≡ none) × ((q : Text) → q ≢ tmp → F.at d' q ≡ F.at d q)
  pub write-other :
      (tmp content q : Text) (d : F.Disk) → q ≢ tmp → F.at (F.write tmp content d) q ≡ F.at d q
  pub write-at : (tmp content : Text) (d : F.Disk) → F.at (F.write tmp content d) tmp ≡ some content
  pub sync-at : (tmp q : Text) (d : F.Disk) → F.at (F.sync tmp d).0 q ≡ F.at d q
  pub close-at : (tmp q : Text) (d : F.Disk) → F.at (F.close tmp d).0 q ≡ F.at d q
  pub sync_dir-at : (dir q : Text) (d : F.Disk) → F.at (F.sync_dir dir d) q ≡ F.at d q
  pub remove-other : (tmp q : Text) (d : F.Disk) → q ≢ tmp → F.at (F.remove tmp d) q ≡ F.at d q
  pub rename-fails :
      (tmp path q : Text) (d : F.Disk) (e : Error)
      → (F.rename tmp path d).1 ≡ some e
      → F.at (F.rename tmp path d).0 q ≡ F.at d q
  pub rename-other :
      (tmp path q : Text) (d : F.Disk)
      → (F.rename tmp path d).1 ≡ none
      → q ≢ tmp
      → q ≢ path
      → F.at (F.rename tmp path d).0 q ≡ F.at d q
  pub rename-at :
      (tmp path : Text) (d : F.Disk)
      → (F.rename tmp path d).1 ≡ none
      → F.at (F.rename tmp path d).0 path ≡ F.at d tmp

-- A path on the disk `d'`, before which the disk was `d`: as it was, or one that held no file and
-- whose removal, the last step, has failed.
abbrev pub IsSameOrLeft : (F : Files) → F.Disk → F.Disk → Text → Type 0
IsSameOrLeft F d d' q =
    (F.at d' q ≡ F.at d q)
    ⊎ ((F.at d q ≡ none)
        × (content : Text) × (F.at d' q ≡ some content)
        × (before : F.Disk) × (d' ≡ F.remove q before))

-- The removal of the temporary file.
pub remove-IsSameOrLeft :
    (F : Files) (L : IsLawful F) (d d1 : F.Disk) (tmp : Text)
    → F.at d tmp ≡ none
    → ((q : Text) → q ≢ tmp → F.at d1 q ≡ F.at d q)
    → (q : Text) → IsSameOrLeft F d (F.remove tmp d1) q
remove-IsSameOrLeft F L d d1 tmp fresh frame q = elim (Bool-cases (q == tmp)) [
  | inr differs ↦
      let other : q ≢ tmp = ==-differs q tmp differs in
      inl (L.remove-other tmp q d1 other ∙ frame q other)
  | inl same ↦ rw (==-sound q tmp same) (elim (Option-cases (F.at (F.remove tmp d1) tmp)) [
    | inl gone ↦ inl (gone ∙ sym fresh)
    | inr (content, left) ↦ inr (fresh, content, left, d1, refl)
  ])
]

module _ (F : Files) (T : TreeWriter) (encode : Outcome T.State → Text)
    (decode : Text → Outcome Reader) (L : IsLawful F) where
  -- A step that ends with an error has touched the temporary file alone.
  Untouched : Text → F.Disk → F.Disk × Outcome SyncResult → Type 0
  Untouched tmp d r = (e : Error) → r.1 ≡ err e → (q : Text) → q ≢ tmp → F.at r.0 q ≡ F.at d q

  publish-Untouched :
      (path dir tmp : Text) (stats : BuildStats) (prev : Option ℕ) (limits : Limits) (d : F.Disk)
      → Untouched tmp d (publish F T encode decode path dir tmp stats prev limits d)
  unfolding Untouched publish
  publish-Untouched path dir tmp stats prev limits d e h q other =
      elim (Outcome-cases (open_db (read_at F T encode decode d tmp))) [
        | inr (x, e1) ↦ rw (e1, publish) refl
        | inl (db, e1) ↦ elim (Option-cases (verify db).1) [
          | inr (x, e2) ↦ rw (e1, e2, publish) refl
          | inl e2 ↦ elim (Bool-cases (dropped_too_far limits prev (verify db).0.networks)) [
            | inl e3 ↦ rw (e1, e2, e3, publish) refl
            | inr e3 ↦ elim (Option-cases (F.rename tmp path d).1) [
              | inl e4 ↦ absurd (let h' = rw (e1, e2, e3, e4, publish) at h in cc)
              | inr (x, e4) ↦ rw (e1, e2, e3, e4, publish) (L.rename-fails tmp path q d x e4)
            ]
          ]
        ]
      ]

  finish_temp-Untouched :
      (path dir tmp : Text) (stats : BuildStats) (prev : Option ℕ) (limits : Limits) (d : F.Disk)
      → Untouched tmp d (finish_temp F T encode decode path dir tmp stats prev limits d)
  unfolding Untouched finish_temp
  finish_temp-Untouched path dir tmp stats prev limits d e h q other =
      let synced = L.sync-at tmp q d in
      let closed = L.close-at tmp q (F.sync tmp d).0 ∙ synced in
      elim (Option-cases (F.sync tmp d).1) [
        | inr (x, e1) ↦ rw (e1, finish_temp) closed
        | inl e1 ↦ elim (Option-cases (F.close tmp (F.sync tmp d).0).1) [
          | inr (x, e2) ↦ rw (e1, e2, finish_temp) closed
          | inl e2 ↦ elim (Bool-cases (too_many_skipped limits stats)) [
            | inl e3 ↦ rw (e1, e2, e3, finish_temp) closed
            | inr e3 ↦
                rw (e1, e2, e3, finish_temp)
                  (publish-Untouched path dir tmp stats prev limits _ e
                      (rw (e1, e2, e3, finish_temp) at h) q other
                    ∙ closed)
          ]
        ]
      ]

  build_temp-Untouched :
      (path dir tmp : Text) (entries : List Item) (opts : BuildOptions) (prev : Option ℕ)
      (limits : Limits) (d : F.Disk)
      → Untouched tmp d (build_temp F T encode decode path dir tmp entries opts prev limits d)
  unfolding Untouched build_temp
  build_temp-Untouched path dir tmp entries opts prev limits d e h q other =
      elim (Outcome-cases (build T entries opts).1) [
        | inr (x, e1) ↦ rw (e1, build_temp) (L.close-at tmp q _ ∙ L.write-other tmp _ q d other)
        | inl (t, e1) ↦
            rw (e1, build_temp)
              (finish_temp-Untouched path dir tmp _ prev limits _ e (rw (e1, build_temp) at h) q
                  other
                ∙ L.write-other tmp _ q d other)
      ]

  cleaned-Untouched :
      (tmp : Text) (d d1 : F.Disk) (r : F.Disk × Outcome SyncResult)
      → F.at d tmp ≡ none
      → ((q : Text) → q ≢ tmp → F.at d1 q ≡ F.at d q)
      → Untouched tmp d1 r
      → (e : Error) → (cleaned F T encode decode tmp r).1 ≡ err e
      → (q : Text) → IsSameOrLeft F d (cleaned F T encode decode tmp r).0 q
  unfolding cleaned Untouched
  cleaned-Untouched tmp d d1 (d2, ok r) fresh frame still e h q = absurd (cc)
  cleaned-Untouched tmp d d1 (d2, err x) fresh frame still e h q =
      remove-IsSameOrLeft F L d d2 tmp fresh (λ p other. still x refl p other ∙ frame p other) q

  -- A build that fails, wherever it fails, leaves every path of the disk as it was, and so the file
  -- under the target, but for a path at which there was no file and at which the removal of the
  -- temporary file, the last step of the build, has failed.
  pub build_file-fails :
      (entries : List Item) (path dir : Text) (opts : BuildOptions) (prev : Option ℕ)
      (limits : Limits) (d : F.Disk) (e : Error)
      → (build_file F T encode decode entries path dir opts prev limits d).1 ≡ err e
      → (q : Text)
      → IsSameOrLeft F d (build_file F T encode decode entries path dir opts prev limits d).0 q
  unfolding build_file
  build_file-fails entries path dir opts prev limits d e h q =
      elim (Option-cases (F.create_temp path d)) [
        | inl e0 ↦ rw (e0, build_file) (inl refl)
        | inr ((tmp, d1), e1) ↦
            let (fresh, frame) = L.temp-new path tmp d d1 e1 in
            rw (e1, build_file)
              (cleaned-Untouched tmp d d1 _ fresh frame
                (build_temp-Untouched path dir tmp entries opts prev limits d1) e
                (rw (e1, build_file) at h) q)
      ]
