-- ===== src/Feed/Local.antt =====
-- attribution/source.go: `FileSource.Open`. The calls into packages `os`, `path` and `path/filepath`
-- are parameters.
use cloudip.Base.{Text, codes, text_eq, ◌==◌, [], ◌∷◌, ◌++◌, if◌then◌else◌}
use cloudip.Base.Outcome.{Outcome, ok, err}
use cloudip.Feed.{Reader, Source}
use cloudip.Feed.Http.{trim_slash}

pub record Paths : Type 0 where
  pub clean : Text → Text
  pub from_slash : Text → Text
  pub open_path : Text → Outcome Reader
  pub open_in_root : Text → Text → Outcome Reader

module _ (P : Paths) where
  -- The path below the directory that a reference names.
  unfoldable pub relative : Text → Text
  relative ref =
      let rel = P.from_slash (trim_slash (P.clean (b'/' ∷ ref))) in
      if rel == [] then codes "." else rel

  -- `FileSource.Open`
  unfoldable pub file_open : Text → Source
  file_open [] ref = elim (P.open_path (P.from_slash ref)) [
    | ok f ↦ ok f
    | err e ↦ err (codes "open fixture " ++ (ref ++ (codes ": " ++ e)))
  ]
  file_open (c ∷ dir) ref = elim (P.open_in_root (c ∷ dir) (relative ref)) [
    | ok f ↦ ok f
    | err e ↦
        err (codes "open fixture " ++ (ref ++ (codes " in " ++ ((c ∷ dir) ++ (codes ": " ++ e)))))
  ]
