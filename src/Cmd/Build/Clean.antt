-- ===== src/Cmd/Build/Clean.antt =====
-- cmd/cloudattr/build.go: what `runBuild` collects under --keep-going.
use cloudip.Base.{
  ◌≡◌, sym, inl, inr, if◌then◌else◌, Bool, true, false, not, ◌&&◌, Text, codes, text_eq, ◌==◌, List,
  [], ◌∷◌, All, Bool-cases,
}
use mathlib.Core.Path.{subst}
use cloudip.Base.Outcome.{Outcome, ok, Outcome-cases, ok-inj, AllOk, ok-AllOk}
use cloudip.Record.{Item}
use cloudip.Feed.{Plugin, PluginSource}
use cloudip.Feed.Registry.{select_from}
use cloudip.Feed.Collected.{all_healthy, all_failures, collect_resilient_go}
use cloudip.Build.Lookup.{IsClean}
use cloudip.Plugins.Clean.{IsFitPlugin, IsFitResolver, all_healthy-IsClean, IsClean-append}
use cloudip.Plugins.Registered.{
  Kind, cloud, reputation, asn, registered, IsSound, selected-IsFitPlugin,
}
use cloudip.Cmd.Flags.{BuildFlags}
use cloudip.Cmd.Resolve.{
  Outside, Digests, reputation_resolver, asn_resolver, wrap_resolve, load_asn_table,
}
use cloudip.Cmd.Build.{
  Stream, drained, collect_of, some_plugins, select_plugins, plugin_stream, mode_stream,
  reputation_stream, add_reputation, add_asn, build_entries,
}
use cloudip.Cmd.Build.Resolvers.{
  wrap_resolve-IsFitResolver, cloud_resolver-IsFitResolver, feed_resolver-IsFitPair,
  resolver_of-IsFitResolver,
}
use cloudip.Cmd.Build.Drained.{Drains, drained_lem, drained-concat}
use cloudip.Cmd.Build.Enriched.{enrich_asn-IsClean}

-- What a stream gives to the consumer that keeps all has no error and no invalid network.
unfoldable pub IsCleanStream : Stream → Type 0
IsCleanStream s = IsClean (drained s).0

-- The mode that reads the unified file of the mirror.
unfoldable pub is_unified : BuildFlags → Bool
is_unified f = not f.asn && not f.reputation && f.source == codes "rezmoss-all"

some_plugins-same : (k : Kind) (ps qs : List Plugin) → some_plugins k ps ≡ ok qs → ps ≡ qs
unfolding some_plugins
some_plugins-same cloud [] qs h = absurd (cc)
some_plugins-same reputation [] qs h = absurd (cc)
some_plugins-same asn [] qs h = absurd (cc)
some_plugins-same cloud (p ∷ ps) qs h = ok-inj h
some_plugins-same reputation (p ∷ ps) qs h = ok-inj h
some_plugins-same asn (p ∷ ps) qs h = ok-inj h

module _ (W : Outside) (S : IsSound W.decoders) where
  collect_of-IsCleanStream :
      (b : Bool) (plugins : List Plugin) (resolve : PluginSource)
      → b ≡ true
      → IsFitResolver resolve
      → All IsFitPlugin plugins
      → IsCleanStream (collect_of b plugins resolve)
  unfolding IsCleanStream collect_of Drains
  collect_of-IsCleanStream true plugins resolve h r fit =
      let whole =
        drained_lem (collect_of true plugins resolve) (all_healthy plugins resolve)
          (all_failures plugins resolve) (λ k. collect_resilient_go plugins resolve k) in
      rw whole (all_healthy-IsClean plugins resolve r fit)
  collect_of-IsCleanStream false plugins resolve h r fit = absurd (cc)

  select_plugins-fit :
      (k : Kind) (names : List Text) → AllOk (All IsFitPlugin) (select_plugins W k names)
  unfolding select_plugins
  select_plugins-fit k names ps h =
      elim (Outcome-cases (select_from (registered W.decoders k) names)) [
        | inr (e, e1) ↦ absurd (let h' = rw (e1, select_plugins) at h in cc)
        | inl (qs, e1) ↦
            rw (sym (some_plugins-same k qs ps (rw (e1, select_plugins) at h)))
              (selected-IsFitPlugin W.decoders S k names qs e1)
      ]

  plugin_stream-IsCleanStream :
      (f : BuildFlags) (digests : Digests) (k : Kind) (names : List Text)
      (resolver : Outcome PluginSource)
      → f.keep_going ≡ true
      → AllOk IsFitResolver resolver
      → AllOk IsCleanStream (plugin_stream W f digests k names resolver)
  unfolding plugin_stream
  plugin_stream-IsCleanStream f digests k names resolver going fit s h =
      elim (Outcome-cases (select_plugins W k names)) [
        | inr (e, e1) ↦ absurd (let h' = rw (e1, plugin_stream) at h in cc)
        | inl (plugins, e1) ↦ elim (Outcome-cases resolver) [
          | inr (e, e2) ↦ absurd (let h' = rw (e1, e2, plugin_stream) at h in cc)
          | inl (resolve, e2) ↦
              ok-AllOk IsCleanStream _
                (collect_of-IsCleanStream f.keep_going plugins (wrap_resolve W digests resolve)
                  going (wrap_resolve-IsFitResolver W S digests resolve (fit resolve e2))
                  (select_plugins-fit k names plugins e1))
                s (rw (e1, e2, plugin_stream) at h)
        ]
      ]

  reputation_stream-IsCleanStream :
      (f : BuildFlags) (digests : Digests)
      → f.keep_going ≡ true
      → AllOk IsCleanStream (reputation_stream W f digests)
  unfolding reputation_stream reputation_resolver
  reputation_stream-IsCleanStream f digests going =
      plugin_stream-IsCleanStream f digests reputation [] _ going (
        resolver_of-IsFitResolver W S _ (feed_resolver-IsFitPair W S _ f.rep_source f.fixtures _ _))

  -- `if-AllOk` where the third test, that of the unified mode, does not hold.
  not_unified :
      (a b c : Bool) (x y z w : Outcome Stream)
      → (not a && not b && c) ≡ false
      → AllOk IsCleanStream x
      → AllOk IsCleanStream y
      → AllOk IsCleanStream w
      → AllOk IsCleanStream (if a then x else if b then y else if c then z else w)
  not_unified true b c x y z w h hx hy hw = hx
  not_unified false true c x y z w h hx hy hw = hy
  not_unified false false true x y z w h hx hy hw = absurd (cc)
  not_unified false false false x y z w h hx hy hw = hw

  mode_stream-IsCleanStream :
      (f : BuildFlags) (digests : Digests)
      → f.keep_going ≡ true
      → is_unified f ≡ false
      → AllOk IsCleanStream (mode_stream W f digests)
  unfolding mode_stream is_unified asn_resolver reputation_resolver
  mode_stream-IsCleanStream f digests going several =
      not_unified f.asn f.reputation (f.source == codes "rezmoss-all") _ _ _ _ several
        (plugin_stream-IsCleanStream f digests asn _ _ going (
          resolver_of-IsFitResolver W S _
            (feed_resolver-IsFitPair W S _ f.asn_source f.fixtures _ _)))
        (plugin_stream-IsCleanStream f digests reputation _ _ going
          (resolver_of-IsFitResolver W S _ (feed_resolver-IsFitPair W S _ _ f.fixtures _ _)))
        (plugin_stream-IsCleanStream f digests cloud _ _ going
          (cloud_resolver-IsFitResolver W S f.source f.fixtures))

  add_reputation-IsCleanStream :
      (f : BuildFlags) (digests : Digests) (s : Stream)
      → f.keep_going ≡ true
      → mode_stream W f digests ≡ ok s
      → IsCleanStream s
      → AllOk IsCleanStream (add_reputation W f digests s)
  unfolding add_reputation IsCleanStream
  add_reputation-IsCleanStream f digests s going h clean both h' =
      elim (Bool-cases f.with_reputation) [
        | inr alone ↦ subst IsCleanStream (ok-inj (rw (alone, add_reputation) at h')) clean
        | inl too ↦ elim (Outcome-cases (reputation_stream W f digests)) [
          | inr (e, e1) ↦ absurd (let h'' = rw (too, e1, add_reputation) at h' in cc)
          | inl (r, e1) ↦ subst IsCleanStream (ok-inj (rw (too, e1, add_reputation) at h')) (
              rw (drained-concat W f digests s r h e1)
                (IsClean-append _ _ clean (reputation_stream-IsCleanStream f digests going r e1)))
        ]
      ]

  add_asn-IsClean :
      (f : BuildFlags) (digests : Digests) (entries : List Item)
      → IsClean entries
      → AllOk IsClean (add_asn W f digests entries)
  unfolding add_asn
  add_asn-IsClean f digests entries clean out h = elim (Bool-cases f.with_asn) [
    | inr plain ↦ subst IsClean (ok-inj (rw (plain, add_asn) at h)) clean
    | inl enriched ↦ elim (Outcome-cases (load_asn_table W digests f.asn_source f.fixtures)) [
      | inr (e, e1) ↦ absurd (let h' = rw (enriched, e1, add_asn) at h in cc)
      | inl (table, e1) ↦
          subst IsClean (ok-inj (rw (enriched, e1, add_asn) at h))
            (enrich_asn-IsClean W.decoders.netipx S.prefixes entries table clean)
    ]
  ]

  -- Under --keep-going, in a mode that reads the feeds of plugins, the entries that a run collects
  -- have no error and no invalid network among them, with reputation feeds or without and with
  -- enrichment or without, whatever the feeds hold and whichever of them cannot be read.
  pub build_entries-IsClean :
      (f : BuildFlags) (digests : Digests) (entries : List Item)
      → f.keep_going ≡ true
      → is_unified f ≡ false
      → build_entries W f digests ≡ ok entries
      → IsClean entries
  unfolding build_entries IsCleanStream
  build_entries-IsClean f digests entries going several h =
      elim (Outcome-cases (mode_stream W f digests)) [
        | inr (e, e1) ↦ absurd (let h' = rw (e1, build_entries) at h in cc)
        | inl (s, e1) ↦ elim (Outcome-cases (add_reputation W f digests s)) [
          | inr (e, e2) ↦ absurd (let h' = rw (e1, e2, build_entries) at h in cc)
          | inl (both, e2) ↦
              add_asn-IsClean f digests (drained both).0
                (add_reputation-IsCleanStream f digests s going e1
                  (mode_stream-IsCleanStream f digests going several s e1) both e2)
                entries (rw (e1, e2, build_entries) at h)
        ]
      ]
