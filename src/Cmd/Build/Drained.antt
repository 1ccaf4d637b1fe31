-- ===== src/Cmd/Build/Drained.antt =====
-- cmd/cloudattr/build.go: the streams of `runBuild` as lists.
use cloudip.Base.{
  ◌≡◌, refl, sym, ap, ◌∙◌, inl, inr, Bool, true, false, Text, codes, text_eq, ◌==◌, List, [], ◌∷◌,
  ◌++◌,
}
use mathlib.Core.List.{append-nil, append_assoc}
use cloudip.Base.Outcome.{Outcome, ok, Outcome-cases, ok-inj, ok-AllOk, if-AllOk}
use cloudip.Base.Streams.{each}
use cloudip.Record.{Item}
use cloudip.Feed.{Plugin, PluginSource, FeedFailure, concat_entries, Feed, collect_feed}
use cloudip.Feed.Collected.{
  Kept, keep, each-keep, collect-each, collected, feed_items, collect_feed-each,
  collect_resilient_go, all_healthy, all_failures,
}
use cloudip.Feed.Rezmoss.{collect_rezmoss_all}
use cloudip.Plugins.Registered.{Kind, cloud, reputation, asn}
use cloudip.Cmd.Flags.{BuildFlags}
use cloudip.Cmd.Resolve.{Outside, Digests, wrap_resolve}
use cloudip.Cmd.Build.{
  Stream, drained, collect_of, plugin_stream, select_plugins, rezmoss_all_stream, mode_stream,
  reputation_stream, add_reputation, add_asn, build_entries,
}

-- To the consumer that keeps all, the stream gives some items and some failures, whatever that
-- consumer holds already.
unfoldable pub Drains : Stream → List Item → List FeedFailure → Type 0
Drains s items failures = (k : Kept) → s keep k ≡ (true, (k.0 ++ items, k.1 ++ failures))

unfoldable pub IsDrained : Stream → Type 0
IsDrained s = (items : List Item) × (failures : List FeedFailure) × Drains s items failures

pub drained_lem :
    (s : Stream) (items : List Item) (failures : List FeedFailure)
    → Drains s items failures
    → (drained s).0 ≡ items
unfolding Drains
drained_lem s items failures h = ap (λ r. r.1.0) (h ([], []))

concat-Drains :
    (s r : Stream) (a b : List Item) (x y : List FeedFailure)
    → Drains s a x
    → Drains r b y
    → Drains (concat_entries (s ∷ r ∷ [])) (a ++ b) (x ++ y)
unfolding Drains concat_entries
concat-Drains s r a b x y h1 h2 k = rw (h1 k, h2 _, append_assoc, append_assoc) refl

each-kept : (xs : List Item) (k : Kept) → each xs keep k ≡ (true, (k.0 ++ xs, k.1 ++ []))
each-kept xs k = each-keep xs k ∙ ap (λ f. (true, (k.0 ++ xs, f))) (sym (append-nil k.1))

collect_of-IsDrained :
    (keep_going : Bool) (plugins : List Plugin) (resolve : PluginSource)
    → IsDrained (collect_of keep_going plugins resolve)
unfolding IsDrained Drains collect_of
collect_of-IsDrained true plugins resolve = (
  all_healthy plugins resolve,
  all_failures plugins resolve,
  λ k. collect_resilient_go plugins resolve k,
)
collect_of-IsDrained false plugins resolve =
    (collected plugins resolve, [], λ k. collect-each keep plugins resolve k ∙ each-kept _ k)

collect_feed-IsDrained : (provider : Text) (f : Feed) → IsDrained (collect_feed provider f)
unfolding IsDrained Drains
collect_feed-IsDrained provider f =
    (feed_items provider f, [], λ k. collect_feed-each keep provider f k ∙ each-kept _ k)

module _ (W : Outside) where
  rezmoss_all_stream-IsDrained :
      (f : BuildFlags) (digests : Digests) → IsDrained (rezmoss_all_stream W f digests)
  unfolding rezmoss_all_stream collect_rezmoss_all
  rezmoss_all_stream-IsDrained f digests = collect_feed-IsDrained _ _

  plugin_stream-IsDrained :
      (f : BuildFlags) (digests : Digests) (k : Kind) (names : List Text)
      (resolver : Outcome PluginSource) (s : Stream)
      → plugin_stream W f digests k names resolver ≡ ok s
      → IsDrained s
  unfolding plugin_stream
  plugin_stream-IsDrained f digests k names resolver s h =
      elim (Outcome-cases (select_plugins W k names)) [
        | inr (e, e1) ↦ absurd (let h' = rw (e1, plugin_stream) at h in cc)
        | inl (plugins, e1) ↦ elim (Outcome-cases resolver) [
          | inr (e, e2) ↦ absurd (let h' = rw (e1, e2, plugin_stream) at h in cc)
          | inl (resolve, e2) ↦
              rw (sym (ok-inj (rw (e1, e2, plugin_stream) at h)))
                (collect_of-IsDrained f.keep_going plugins (wrap_resolve W digests resolve))
        ]
      ]

  pub mode_stream-IsDrained :
      (f : BuildFlags) (digests : Digests) (s : Stream)
      → mode_stream W f digests ≡ ok s
      → IsDrained s
  unfolding mode_stream
  mode_stream-IsDrained f digests =
      if-AllOk IsDrained f.asn _ _ (plugin_stream-IsDrained f digests asn _ _) (
        if-AllOk IsDrained f.reputation _ _ (plugin_stream-IsDrained f digests reputation _ _) (
          if-AllOk IsDrained (f.source == codes "rezmoss-all") _ _
            (ok-AllOk IsDrained _ (rezmoss_all_stream-IsDrained f digests))
            (plugin_stream-IsDrained f digests cloud _ _)))

  pub reputation_stream-IsDrained :
      (f : BuildFlags) (digests : Digests) (s : Stream)
      → reputation_stream W f digests ≡ ok s
      → IsDrained s
  unfolding reputation_stream
  reputation_stream-IsDrained f digests s h = plugin_stream-IsDrained f digests reputation _ _ s h

  -- Behind the entries of the mode come those of the reputation feeds.
  pub drained-concat :
      (f : BuildFlags) (digests : Digests) (s r : Stream)
      → mode_stream W f digests ≡ ok s
      → reputation_stream W f digests ≡ ok r
      → (drained (concat_entries (s ∷ r ∷ []))).0 ≡ (drained s).0 ++ (drained r).0
  unfolding IsDrained
  drained-concat f digests s r h1 h2 =
      let (a, x, da) = mode_stream-IsDrained f digests s h1 in
      let (b, y, db) = reputation_stream-IsDrained f digests r h2 in
      rw (drained_lem s a x da, drained_lem r b y db)
        (drained_lem _ (a ++ b) (x ++ y) (concat-Drains s r a b x y da db))

  -- With reputation feeds, and no enrichment, the entries are those of the mode, then the others.
  pub build_entries-reputation :
      (f : BuildFlags) (digests : Digests) (s r : Stream) (entries : List Item)
      → f.with_reputation ≡ true
      → f.with_asn ≡ false
      → mode_stream W f digests ≡ ok s
      → reputation_stream W f digests ≡ ok r
      → build_entries W f digests ≡ ok entries
      → entries ≡ (drained s).0 ++ (drained r).0
  unfolding build_entries add_reputation add_asn
  build_entries-reputation f digests s r entries h1 h2 h3 h4 h =
      sym (ok-inj (rw (h3, h1, h4, h2, build_entries, add_reputation, add_asn) at h))
      ∙ drained-concat f digests s r h3 h4
