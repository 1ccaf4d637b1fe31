-- ===== src/Feed/Digest.antt =====
-- attribution/source.go: `DigestSource`. The SHA-256 of a feed, in lower-case hex, is a parameter.
use cloudip.Base.{
  ◌≡◌, true, Text, codes, List, [], ◌∷◌, ◌++◌, map, none, some, if◌then◌else◌, arith,
}
use cloudip.Base.Outcome.{Outcome, ok, err}
use cloudip.Base.Texts.{equal_fold}
use cloudip.Base.Dict.{Dict, get}
use cloudip.Feed.{Reader, Source, Feed, PluginSource}

module _ (sha256_hex : Text → Text) where
  unfoldable pub digest_checked : Dict Text → Text → Text → Outcome Reader
  digest_checked pins ref body =
      let read : Reader = record { content = body; failure = none } in
      elim (get ref pins) [
        | none ↦ ok read
        | some want ↦
            if equal_fold want (sha256_hex body)
            then ok read
            else err (
                codes "integrity check failed for "
                ++ (ref ++ (codes ": got " ++ (sha256_hex body ++ (codes ", pinned " ++ want)))))
      ]

  -- `DigestSource.Open`
  unfoldable pub digest_open : Source → Dict Text → Source
  digest_open inner pins ref = elim (inner ref) [
    | err e ↦ err e
    | ok rc ↦ elim (rc.failure) [
      | some e ↦ err (codes "read " ++ (ref ++ (codes " for digest: " ++ e)))
      | none ↦ digest_checked pins ref rc.content
    ]
  ]

  -- What `Record` is called with.
  unfoldable pub recorded : Source → Text → List (Text × Text)
  recorded inner ref = elim (inner ref) [
    | err e ↦ []
    | ok rc ↦ elim (rc.failure) [ some e ↦ [] | none ↦ (ref, sha256_hex rc.content) ∷ [] ]
  ]

  unfoldable pub with_digest : PluginSource → Dict Text → PluginSource
  with_digest resolve pins p =
      map
        (λ f. record {
          ref = Feed.ref f;
          source = digest_open (Feed.source f) pins;
          parse = Feed.parse f;
        })
        (resolve p)

  -- What passes is the inner feed, whole and unchanged, its digest recorded; and where a digest is
  -- pinned for it, it has that digest.
  pub digest_open_lem :
      (inner : Source) (pins : Dict Text) (ref : Text) (out : Reader)
      → digest_open inner pins ref ≡ ok out
      → (inner ref ≡ ok out)
        × (recorded inner ref ≡ (ref, sha256_hex out.content) ∷ [])
        × ((want : Text)
            → get ref pins ≡ some want
            → equal_fold want (sha256_hex out.content) ≡ true)
  unfolding digest_open digest_checked recorded
  digest_open_lem inner pins ref out h = ground arith
