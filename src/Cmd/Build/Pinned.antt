-- ===== src/Cmd/Build/Pinned.antt =====
-- cmd/cloudattr/build.go: what --pins asks of the feeds of a build, and of the table of --with-asn.
use cloudip.Base.{sym, ◌≡◌, inl, inr, true, Text, List, [], ◌∷◌, map, some, All}
use cloudip.Base.Outcome.{Outcome, ok, ok-inj, Outcome-cases}
use cloudip.Base.Texts.{equal_fold}
use cloudip.Base.Dict.{Dict, get}
use cloudip.Feed.{Reader, Source, Feed, Plugin, PluginSource}
use cloudip.Feed.Digest.{digest_open, with_digest, digest_open_lem}
use cloudip.Asn.{AsnTable}
use cloudip.Cmd.Resolve.{Outside, wrap_resolve, wrap_source, asn_origin, load_asn_table}
use cloudip.Cmd.Flags.{BuildFlags}
use cloudip.Cmd.Build.{Stream, collect_of, select_plugins, plugin_stream}
use cloudip.Plugins.Registered.{Kind}

module _ (W : Outside) (pins : Dict Text) where
  -- What a source gives for a reference has the digest that is pinned for it, if one is.
  pub IsPinned : Source → Text → Type 0
  IsPinned src ref =
      (out : Reader) (want : Text)
      → src ref ≡ ok out
      → get ref pins ≡ some want
      → equal_fold want (W.sha256_hex out.content) ≡ true

  digest_open-IsPinned :
      (src : Source) (ref : Text) → IsPinned (digest_open W.sha256_hex src pins) ref
  unfolding IsPinned
  digest_open-IsPinned src ref out want h = (digest_open_lem W.sha256_hex src pins ref out h).2 want

  feeds-IsPinned :
      (fs : List Feed)
      → All
          (λ f. IsPinned (Feed.source f) (Feed.ref f))
          (map
            (λ f. record {
              ref = Feed.ref f;
              source = digest_open W.sha256_hex (Feed.source f) pins;
              parse = Feed.parse f;
            })
            fs)
  feeds-IsPinned [] = tt
  feeds-IsPinned (f ∷ fs) = (digest_open-IsPinned (Feed.source f) (Feed.ref f), feeds-IsPinned fs)

  wrap_resolve-IsPinned :
      (resolve : PluginSource) (p : Plugin)
      → All (λ f. IsPinned (Feed.source f) (Feed.ref f)) (wrap_resolve W (some pins) resolve p)
  unfolding wrap_resolve with_digest
  wrap_resolve-IsPinned resolve p = feeds-IsPinned (resolve p)

  -- With --pins, where a build reads the plugins of a registry: its stream is that of the plugins
  -- selected, over feeds of which each gives, for its reference, only content of the digest that is
  -- pinned for that reference, if one is.
  pub plugin_stream-IsPinned :
      (f : BuildFlags) (k : Kind) (names : List Text) (resolver : Outcome PluginSource) (s : Stream)
      → plugin_stream W f (some pins) k names resolver ≡ ok s
      → (plugins : List Plugin) × (select_plugins W k names ≡ ok plugins)
        × (feeds : PluginSource) × (s ≡ collect_of f.keep_going plugins feeds)
        × ((p : Plugin) → All (λ d. IsPinned (Feed.source d) (Feed.ref d)) (feeds p))
  unfolding plugin_stream
  plugin_stream-IsPinned f k names resolver s h = elim (Outcome-cases (select_plugins W k names)) [
    | inr (e, e1) ↦ absurd (let h' = rw (e1, plugin_stream) at h in cc)
    | inl (plugins, e1) ↦ elim (Outcome-cases resolver) [
      | inr (e, e2) ↦ absurd (let h' = rw (e1, e2, plugin_stream) at h in cc)
      | inl (resolve, e2) ↦ (
        plugins,
        e1,
        wrap_resolve W (some pins) resolve,
        sym (ok-inj (rw (e1, e2, plugin_stream) at h)),
        wrap_resolve-IsPinned resolve,
      )
    ]
  ]

  -- With --pins, where the table of --with-asn loads, the source that is chosen for it gave content
  -- for its reference, of the digest pinned for that reference, if one is.
  pub load_asn_table-pinned :
      (source fixtures : Text) (table : AsnTable)
      → load_asn_table W (some pins) source fixtures ≡ ok table
      → (src : Source) × (ref : Text) × (asn_origin W source fixtures ≡ ok (src, ref))
        × (out : Reader) × (src ref ≡ ok out)
        × ((want : Text)
            → get ref pins ≡ some want
            → equal_fold want (W.sha256_hex out.content) ≡ true)
  unfolding load_asn_table wrap_source
  load_asn_table-pinned source fixtures table h =
      elim (Outcome-cases (asn_origin W source fixtures)) [
        | inr (e, e1) ↦ absurd (let h' = rw (e1, load_asn_table) at h in cc)
        | inl ((src, ref), e1) ↦ elim (Outcome-cases (digest_open W.sha256_hex src pins ref)) [
          | inr (e, e2) ↦ absurd (let h' = rw (e1, e2, load_asn_table) at h in cc)
          | inl (out, e2) ↦
              let (inner, digest, pinned) = digest_open_lem W.sha256_hex src pins ref out e2 in
              (src, ref, e1, out, inner, pinned)
        ]
      ]
