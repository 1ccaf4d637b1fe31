-- ===== src/Cmd/Build/Resolvers.antt =====
-- cmd/cloudattr/build.go: the feeds of the resolvers that `build` chooses from.
use cloudip.Base.{◌≡◌, refl, false, not, ◌||◌, Text, codes, text_eq, ◌==◌, [], ◌++◌, none, some}
use cloudip.Base.Outcome.{Outcome, ok, err, AllOk, ok-AllOk, err-AllOk, if-AllOk}
use cloudip.Feed.{PluginSource, direct_resolver, fixture_resolver, mirror_resolver}
use cloudip.Feed.Local.{file_open}
use cloudip.Plugins.Clean.{
  IsFitParse, IsFitResolver, fixture_resolver-IsFitResolver, mirror_resolver-IsFitResolver,
  rezmoss_resolver-IsFitResolver, direct_resolver-IsFitResolver, with_digest-IsFitResolver,
}
use cloudip.Plugins.Mirror.{parse_rezmoss-IsFit}
use cloudip.Plugins.Registered.{IsSound}
use cloudip.Cmd.Resolve.{
  Outside, Digests, mirror_parse, feed_resolver, cloud_resolver, wrap_resolve, http_source,
  new_direct_source, new_rezmoss_source,
}
use cloudip.Cmd.Build.{resolver_of}

module _ (W : Outside) (S : IsSound W.decoders) where
  mirror_parse-IsFitParse : (name : Text) → (name == []) ≡ false → IsFitParse (mirror_parse W name)
  mirror_parse-IsFitParse name named ref r =
      parse_rezmoss-IsFit W.decoders.parsers S.parsers _ W.mirror_json name ref r named

  pub wrap_resolve-IsFitResolver :
      (digests : Digests) (resolve : PluginSource)
      → IsFitResolver resolve
      → IsFitResolver (wrap_resolve W digests resolve)
  unfolding wrap_resolve
  wrap_resolve-IsFitResolver none resolve h = h
  wrap_resolve-IsFitResolver (some pins) resolve h =
      with_digest-IsFitResolver W.sha256_hex resolve pins h

  direct_fit :
      IsFitResolver (direct_resolver (mirror_parse W) (new_direct_source W) (new_rezmoss_source W))
  direct_fit =
      direct_resolver-IsFitResolver (mirror_parse W) mirror_parse-IsFitParse (new_direct_source W)
        (new_rezmoss_source W)

  pub cloud_resolver-IsFitResolver :
      (source fixtures : Text) → AllOk IsFitResolver (cloud_resolver W source fixtures)
  unfolding cloud_resolver
  cloud_resolver-IsFitResolver source fixtures =
      if-AllOk IsFitResolver _ _ _ (ok-AllOk IsFitResolver _ (fixture_resolver-IsFitResolver _)) (
        if-AllOk IsFitResolver _ _ _
          (ok-AllOk IsFitResolver _ (
            rezmoss_resolver-IsFitResolver (mirror_parse W) mirror_parse-IsFitParse
              (new_rezmoss_source W)))
          (if-AllOk IsFitResolver _ _ _ (ok-AllOk IsFitResolver _ direct_fit)
            (err-AllOk IsFitResolver _)))

  abbrev pub IsFitPair : PluginSource × Text → Type 0
  IsFitPair r = IsFitResolver r.0

  pub feed_resolver-IsFitPair :
      (kind source fixtures env base : Text)
      → AllOk IsFitPair (feed_resolver W kind source fixtures env base)
  unfolding feed_resolver
  feed_resolver-IsFitPair kind source fixtures env base =
      let fixed : PluginSource × Text =
        (fixture_resolver (file_open W.paths fixtures), codes "fixtures:" ++ fixtures) in
      let direct : PluginSource × Text = (
        direct_resolver (mirror_parse W) (new_direct_source W) (new_rezmoss_source W),
        codes "direct",
      ) in
      let mirror : PluginSource × Text =
        (mirror_resolver (http_source W base), codes "mirror:" ++ base) in
      if-AllOk IsFitPair (not (fixtures == [])) _ _
        (ok-AllOk IsFitPair fixed (fixture_resolver-IsFitResolver _))
        (if-AllOk IsFitPair (source == codes "direct") _ _ (ok-AllOk IsFitPair direct direct_fit) (
          if-AllOk IsFitPair (source == codes "mirror") _ _
            (if-AllOk IsFitPair (base == []) _ _ (err-AllOk IsFitPair _)
              (ok-AllOk IsFitPair mirror (mirror_resolver-IsFitResolver _)))
            (if-AllOk IsFitPair (source == codes "rezmoss" || source == codes "rezmoss-all") _ _
              (err-AllOk IsFitPair _) (err-AllOk IsFitPair _))))

  pub resolver_of-IsFitResolver :
      (o : Outcome (PluginSource × Text)) → AllOk IsFitPair o → AllOk IsFitResolver (resolver_of o)
  resolver_of-IsFitResolver (err e) h = err-AllOk IsFitResolver e
  resolver_of-IsFitResolver (ok r) h = ok-AllOk IsFitResolver r.0 (h r refl)
