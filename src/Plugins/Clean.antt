-- ===== src/Plugins/Clean.antt =====
-- attribution/pipeline.go: what the collected feeds of plugins hold, by what their parsers yield.
use cloudip.Base.{
  ◌≡◌, sym, inl, inr, false, true, Text, text_eq, ◌==◌, List, [], ◌∷◌, ◌++◌, map, none, some, All,
  All-append, Option-cases,
}
use cloudip.Base.Outcome.{ok, Outcome-cases, ok-inj}
use cloudip.Net.Prefix.{prefix_valid}
use cloudip.Record.{Entry, Item}
use cloudip.Feed.{
  Reader, Feed, Plugin, PluginSource, Source, ParseFunc, feeds_of, buffer_items, buffer_feed,
  rezmoss_feeds, rezmoss_resolver, rezmoss_refs_of, direct_resolver, fixture_resolver,
  mirror_resolver,
}
use cloudip.Feed.Digest.{with_digest}
use cloudip.Feed.Collected.{healthy_items, all_healthy}
use cloudip.Build.Lookup.{IsClean}
use cloudip.Plugins.Parsers.{IsFit}

abbrev pub IsFitParse : ParseFunc → Type 0
IsFitParse parse = (ref : Text) (r : Reader) → All (IsFit ref) (parse ref r)

abbrev pub IsFitFeed : Feed → Type 0
IsFitFeed f = IsFitParse f.parse

abbrev pub IsFitPlugin : Plugin → Type 0
IsFitPlugin p = IsFitParse p.parse × ((p.name == []) ≡ false)

abbrev pub IsFitResolver : PluginSource → Type 0
IsFitResolver resolve = (p : Plugin) → IsFitPlugin p → All IsFitFeed (resolve p)

abbrev IsSound : Entry → Type 0
IsSound e = prefix_valid e.network ≡ true

sound-IsClean :
    (es : List Entry) (rest : List Item)
    → All IsSound es
    → IsClean rest
    → IsClean (map (λ e. (e, none)) es ++ rest)
sound-IsClean [] rest h c = c
sound-IsClean (e ∷ es) rest h c = (h.0, sound-IsClean es rest h.1 c)

buffer_items-IsSound :
    (ref : Text) (items : List Item) (out es : List Entry)
    → All (IsFit ref) items
    → All IsSound out
    → buffer_items out items ≡ ok es
    → All IsSound es
unfolding buffer_items
buffer_items-IsSound ref [] out es fit h e = rw (sym (ok-inj e)) h
buffer_items-IsSound ref ((x, some error) ∷ items) out es fit h e = absurd (cc)
buffer_items-IsSound ref ((x, none) ∷ items) out es fit h e =
    buffer_items-IsSound ref items (out ++ (x ∷ [])) es fit.1
      (All-append IsSound out (x ∷ []) h (fit.0.0, tt)) e

buffer_feed-IsSound :
    (f : Feed) (es : List Entry) → IsFitFeed f → buffer_feed f ≡ ok es → All IsSound es
unfolding buffer_feed
buffer_feed-IsSound f es fit h = elim (Outcome-cases (f.source f.ref)) [
  | inr (e, e1) ↦ absurd (let h' = rw (e1, buffer_feed) at h in cc)
  | inl (rc, e1) ↦ buffer_items-IsSound f.ref _ [] es (fit f.ref rc) tt (rw (e1, buffer_feed) at h)
]

pub IsClean-append : (xs ys : List Item) → IsClean xs → IsClean ys → IsClean (xs ++ ys)
IsClean-append [] ys c d = d
IsClean-append ((e, some error) ∷ xs) ys c d = absurd c
IsClean-append ((e, none) ∷ xs) ys c d = (c.0, IsClean-append xs ys c.1 d)

healthy_items-IsClean : (feeds : List Feed) → All IsFitFeed feeds → IsClean (healthy_items feeds)
healthy_items-IsClean [] fit = tt
healthy_items-IsClean (f ∷ feeds) fit = elim (Outcome-cases (buffer_feed f)) [
  | inr (e, e1) ↦ rw (e1, healthy_items) (healthy_items-IsClean feeds fit.1)
  | inl (es, e1) ↦
      rw (e1, healthy_items)
        (sound-IsClean es _ (buffer_feed-IsSound f es fit.0 e1) (healthy_items-IsClean feeds fit.1))
]

pub all_healthy-IsClean :
    (plugins : List Plugin) (resolve : PluginSource)
    → IsFitResolver resolve
    → All IsFitPlugin plugins
    → IsClean (all_healthy plugins resolve)
all_healthy-IsClean [] resolve r fit = tt
all_healthy-IsClean (p ∷ plugins) resolve r fit =
    IsClean-append (healthy_items (resolve p)) _ (healthy_items-IsClean (resolve p) (r p fit.0))
      (all_healthy-IsClean plugins resolve r fit.1)

feeds_of-fit :
    (refs : List Text) (src : Source) (parse : ParseFunc)
    → IsFitParse parse
    → All IsFitFeed (feeds_of refs src parse)
feeds_of-fit [] src parse fit = tt
feeds_of-fit (ref ∷ refs) src parse fit = (fit, feeds_of-fit refs src parse fit)

pub fixture_resolver-IsFitResolver : (src : Source) → IsFitResolver (fixture_resolver src)
unfolding fixture_resolver
fixture_resolver-IsFitResolver src p fit = feeds_of-fit p.refs src p.parse fit.0

pub mirror_resolver-IsFitResolver : (src : Source) → IsFitResolver (mirror_resolver src)
unfolding mirror_resolver
mirror_resolver-IsFitResolver src p fit = feeds_of-fit p.refs src p.parse fit.0

module _ (parse_rezmoss : Text → ParseFunc)
    (named : (name : Text) → (name == []) ≡ false → IsFitParse (parse_rezmoss name)) where
  pub rezmoss_resolver-IsFitResolver :
      (src : Source) → IsFitResolver (rezmoss_resolver parse_rezmoss src)
  unfolding rezmoss_resolver rezmoss_feeds
  rezmoss_resolver-IsFitResolver src p fit =
      feeds_of-fit (rezmoss_refs_of p) src _ (named p.name fit.1)

  pub direct_resolver-IsFitResolver :
      (direct src : Source) → IsFitResolver (direct_resolver parse_rezmoss direct src)
  unfolding direct_resolver rezmoss_feeds
  direct_resolver-IsFitResolver direct src p fit = elim (Option-cases (p.direct_refs)) [
    | inl e ↦ rw (e, direct_resolver) (feeds_of-fit (rezmoss_refs_of p) src _ (named p.name fit.1))
    | inr (refs, e) ↦ rw (e, direct_resolver) (feeds_of-fit refs direct p.parse fit.0)
  ]

with_digest_feeds :
    (g : Feed → Feed)
    → ((f : Feed) → IsFitFeed f → IsFitFeed (g f))
    → (fs : List Feed) → All IsFitFeed fs
    → All IsFitFeed (map g fs)
with_digest_feeds g k [] h = tt
with_digest_feeds g k (f ∷ fs) h = (k f h.0, with_digest_feeds g k fs h.1)

pub with_digest-IsFitResolver :
    (sha256_hex : Text → Text) (resolve : PluginSource) (pins : List (Text × Text))
    → IsFitResolver resolve
    → IsFitResolver (with_digest sha256_hex resolve pins)
unfolding with_digest
with_digest-IsFitResolver sha256_hex resolve pins r p fit =
    with_digest_feeds _ (λ f h. h) (resolve p) (r p fit)
