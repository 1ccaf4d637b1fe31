-- ===== src/Sync.antt =====
-- attribution/sync.go: `BuildFile`. The file system is a parameter, with the calls that the function
-- makes; so is the arithmetic on float64 fractions.
pub mod Atomic
pub mod Published
use cloudip.Base.{
  ℕ, ◌+◌, Bool, true, false, ◌&&◌, Text, codes, List, [], ◌∷◌, ◌++◌, Option, none, some,
  if◌then◌else◌, ltb,
}
use cloudip.Base.Outcome.{Outcome, ok, err}
use cloudip.Base.Texts.{decimal}
use cloudip.Record.{Item, Error}
use cloudip.Build.{BuildOptions, BuildStats, build}
use cloudip.Build.Tree.{TreeWriter}
use cloudip.Reader.{Db, Reader, open_db}
use cloudip.Reader.Verify.{VerifyReport, verify}

-- The calls into package `os`, on a state of the disk. `at` is what a path holds.
pub record Files : Type 1 where
  pub Disk : Type 0
  pub at : Disk → Text → Option Text
  pub create_temp : Text → Disk → Option (Text × Disk)
  pub write : Text → Text → Disk → Disk
  pub sync : Text → Disk → Disk × Option Error
  pub close : Text → Disk → Disk × Option Error
  pub rename : Text → Text → Disk → Disk × Option Error
  pub remove : Text → Disk → Disk
  pub sync_dir : Text → Disk → Disk

-- The guards: `maxSkipFrac > 0`, whether a share of skipped entries exceeds it, `maxDropFrac > 0`,
-- and whether a count lies below the floor under the one before.
pub record Limits : Type 0 where
  pub skip_on : Bool
  pub skips_exceed : ℕ → ℕ → Bool
  pub drop_on : Bool
  pub drops_below : ℕ → ℕ → Bool

pub record SyncResult : Type 0 where
  pub path : Text
  pub count : ℕ
  pub skipped : ℕ
  pub report : VerifyReport

unfoldable pub too_many_skipped : Limits → BuildStats → Bool
too_many_skipped limits stats =
    let total = stats.inserted + stats.skipped in
    limits.skip_on && ltb 0 total && limits.skips_exceed stats.skipped total

unfoldable pub dropped_too_far : Limits → Option ℕ → ℕ → Bool
dropped_too_far limits none networks = false
dropped_too_far limits (some prev) networks =
    limits.drop_on && ltb 0 prev && limits.drops_below prev networks

module _ (F : Files) (T : TreeWriter) (encode : Outcome T.State → Text)
    (decode : Text → Outcome Reader) where
  abbrev pub Step : Type 0 → Type 0
  Step A = F.Disk × Outcome A

  unfoldable pub read_at : F.Disk → Text → Outcome Reader
  read_at d path = elim (F.at d path) [
    | none ↦ err (codes "no such file")
    | some content ↦ decode content
  ]

  -- From the reopening on: verify, the guard against a drop, and the rename.
  unfoldable pub publish :
      Text → Text → Text → BuildStats → Option ℕ → Limits → F.Disk → Step SyncResult
  publish path dir tmp stats prev limits d = elim (open_db (read_at d tmp)) [
    | err e ↦ (d, err (codes "reopen for verify: " ++ e))
    | ok db ↦
        let (rep, failed) = verify db in
        elim failed [
          | some e ↦ (d, err (codes "verify: " ++ e))
          | none ↦
              if dropped_too_far limits prev rep.networks
              then (d, err (codes "network count dropped too far"))
              else (let (d', unnamed) = F.rename tmp path d in
                  elim unnamed [
                    | some e ↦ (d', err (codes "atomic rename: " ++ e))
                    | none ↦ (
                      F.sync_dir dir d',
                      ok (record {
                        path = path;
                        count = stats.inserted;
                        skipped = stats.skipped;
                        report = rep;
                      }),
                    )
                  ])
        ]
  ]

  -- From the end of `Build` on: fsync, close, and the guard against skips.
  unfoldable pub finish_temp :
      Text → Text → Text → BuildStats → Option ℕ → Limits → F.Disk → Step SyncResult
  finish_temp path dir tmp stats prev limits d =
      let (d1, unsynced) = F.sync tmp d in
      elim unsynced [
        | some e ↦ ((F.close tmp d1).0, err (codes "fsync temp: " ++ e))
        | none ↦
            let (d2, unclosed) = F.close tmp d1 in
            elim unclosed [
              | some e ↦ (d2, err (codes "close temp: " ++ e))
              | none ↦
                  if too_many_skipped limits stats
                  then (d2, err (codes "skipped too many networks"))
                  else publish path dir tmp stats prev limits d2
            ]
      ]

  -- The deferred cleanup: without a commit the temporary file is removed.
  unfoldable pub cleaned : Text → Step SyncResult → Step SyncResult
  cleaned tmp (d, ok r) = (d, ok r)
  cleaned tmp (d, err e) = (F.remove tmp d, err e)

  unfoldable pub build_temp :
      Text → Text → Text → List Item → BuildOptions → Option ℕ → Limits → F.Disk → Step SyncResult
  build_temp path dir tmp entries opts prev limits d =
      let (stats, built) = build T entries opts in
      let d1 = F.write tmp (encode built) d in
      elim built [
        | err e ↦ ((F.close tmp d1).0, err e)
        | ok t ↦ finish_temp path dir tmp stats prev limits d1
      ]

  -- `BuildFile`, for a path in the directory `dir`.
  unfoldable pub build_file :
      List Item → Text → Text → BuildOptions → Option ℕ → Limits → F.Disk → Step SyncResult
  build_file entries path dir opts prev limits d = elim (F.create_temp path d) [
    | none ↦ (d, err (codes "create temp"))
    | some (tmp, d1) ↦ cleaned tmp (build_temp path dir tmp entries opts prev limits d1)
  ]
