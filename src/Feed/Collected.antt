-- ===== src/Feed/Collected.antt =====
-- What `Collect` and `CollectResilient` yield, as lists.
use mathlib.Core.List.{append-nil, append_assoc}
use cloudip.Base.{
  ap, Option, Option-cases, ◌≡◌, refl, sym, ◌∙◌, inl, inr, true, Text, List, [], ◌∷◌, ◌++◌, map,
  none, some,
}
use cloudip.Base.Outcome.{Outcome, ok, err, Outcome-cases}
use cloudip.Base.Streams.{Yield, and_then_congr, and_then_eta, each, each-append}
use mathlib.Core.Path.{ap₂, subst}
use cloudip.Record.{Entry, Error, Item}
use cloudip.Feed.{
  buffer_items, Feed, Plugin, PluginSource, FeedFailure, no_entry, open_error, parse_error,
  buffer_feed, collect_items, collect_feed, collect_feeds, collect, resilient_feeds,
  collect_resilient,
}

-- What one feed contributes to `Collect`.
abbrev pub parsed_items : Text → Text → List Item → List Item
parsed_items provider ref [] = []
parsed_items provider ref ((e, some perr) ∷ items) =
    (no_entry, some (parse_error provider ref perr)) ∷ parsed_items provider ref items
parsed_items provider ref ((e, none) ∷ items) = (e, none) ∷ parsed_items provider ref items

abbrev pub feed_items : Text → Feed → List Item
feed_items provider f = elim (f.source f.ref) [
  | err e ↦ (no_entry, some (open_error provider f.ref e)) ∷ []
  | ok rc ↦ parsed_items provider f.ref (f.parse f.ref rc)
]

abbrev pub feeds_items : Text → List Feed → List Item
feeds_items provider [] = []
feeds_items provider (f ∷ feeds) = feed_items provider f ++ feeds_items provider feeds

abbrev pub collected : List Plugin → PluginSource → List Item
collected [] resolve = []
collected (p ∷ plugins) resolve = feeds_items p.name (resolve p) ++ collected plugins resolve

module _ {S : Type 0} (yield : Yield Item S) where
  collect_items-each :
      (provider ref : Text) (items : List Item) (s : S)
      → collect_items provider ref items yield s ≡ each (parsed_items provider ref items) yield s
  unfolding collect_items
  collect_items-each provider ref [] s = refl
  collect_items-each provider ref ((e, some perr) ∷ items) s =
      and_then_congr _ _ _ _ refl (λ s'. collect_items-each provider ref items s')
  collect_items-each provider ref ((e, none) ∷ items) s =
      and_then_congr _ _ _ _ refl (λ s'. collect_items-each provider ref items s')

  pub collect_feed-each :
      (provider : Text) (f : Feed) (s : S)
      → collect_feed provider f yield s ≡ each (feed_items provider f) yield s
  unfolding collect_feed
  collect_feed-each provider f s = elim (Outcome-cases (f.source f.ref)) [
    | inr (e, e1) ↦ rw (e1, collect_feed, feed_items) (sym (and_then_eta _))
    | inl (rc, e1) ↦
        rw (e1, collect_feed, feed_items) (collect_items-each provider f.ref (f.parse f.ref rc) s)
  ]

  collect_feeds-each :
      (provider : Text) (feeds : List Feed) (s : S)
      → collect_feeds provider feeds yield s ≡ each (feeds_items provider feeds) yield s
  unfolding collect_feeds
  collect_feeds-each provider [] s = refl
  collect_feeds-each provider (f ∷ feeds) s =
      and_then_congr _ _ _ _ (collect_feed-each provider f s)
        (λ s'. collect_feeds-each provider feeds s')
      ∙ sym (each-append (feed_items provider f) (feeds_items provider feeds) yield s)

  -- `Collect` feeds its consumer, for as long as it wants more, the feeds of the plugins in order:
  -- the entries of each, and its errors under the name of the plugin.
  pub collect-each :
      (plugins : List Plugin) (resolve : PluginSource) (s : S)
      → collect plugins resolve yield s ≡ each (collected plugins resolve) yield s
  unfolding collect
  collect-each [] resolve s = refl
  collect-each (p ∷ plugins) resolve s =
      and_then_congr _ _ _ _ (collect_feeds-each p.name (resolve p) s)
        (λ s'. collect-each plugins resolve s')
      ∙ sym (each-append (feeds_items p.name (resolve p)) (collected plugins resolve) yield s)

-- A consumer of `CollectResilient` that keeps all: the entries, and the failures reported.
abbrev pub Kept : Type 0
Kept = List Item × List FeedFailure

abbrev pub keep : Yield Item Kept
keep i (items, failures) = (true, (items ++ (i ∷ []), failures))

abbrev pub keep_failure : FeedFailure → Kept → Kept
keep_failure f (items, failures) = (items, failures ++ (f ∷ []))

-- A feed that reads without an error, in full.
abbrev pub healthy_items : List Feed → List Item
healthy_items [] = []
healthy_items (f ∷ feeds) = elim (buffer_feed f) [
  | err e ↦ healthy_items feeds
  | ok buf ↦ map (λ e. (e, none)) buf ++ healthy_items feeds
]

abbrev pub failures_of : Text → List Feed → List FeedFailure
failures_of provider [] = []
failures_of provider (f ∷ feeds) = elim (buffer_feed f) [
  | err e ↦ record { provider = provider; ref = f.ref; cause = e } ∷ failures_of provider feeds
  | ok buf ↦ failures_of provider feeds
]

abbrev pub all_healthy : List Plugin → PluginSource → List Item
all_healthy [] resolve = []
all_healthy (p ∷ plugins) resolve = healthy_items (resolve p) ++ all_healthy plugins resolve

abbrev pub all_failures : List Plugin → PluginSource → List FeedFailure
all_failures [] resolve = []
all_failures (p ∷ plugins) resolve = failures_of p.name (resolve p) ++ all_failures plugins resolve

pub each-keep : (xs : List Item) (s : Kept) → each xs keep s ≡ (true, (s.0 ++ xs, s.1))
each-keep [] s = rw append-nil refl
each-keep (x ∷ xs) s = each-keep xs (s.0 ++ (x ∷ []), s.1) ∙ rw append_assoc refl

resilient_feeds_lem :
    (provider : Text) (feeds : List Feed) (s : Kept)
    → resilient_feeds keep_failure provider feeds keep s
      ≡ (true, (s.0 ++ healthy_items feeds, s.1 ++ failures_of provider feeds))
unfolding resilient_feeds
resilient_feeds_lem provider [] s = rw (append-nil, append-nil) refl
resilient_feeds_lem provider (f ∷ feeds) s = elim (Outcome-cases (buffer_feed f)) [
  | inr (e, e1) ↦
      rw (e1, resilient_feeds, healthy_items, failures_of)
        (resilient_feeds_lem provider feeds _ ∙ rw append_assoc refl)
  | inl (buf, e1) ↦
      rw (e1, resilient_feeds, healthy_items, failures_of)
        (rw (each-keep (map (λ e. (e, none)) buf) s)
          (resilient_feeds_lem provider feeds _ ∙ rw append_assoc refl))
]

pub collect_resilient_go :
    (plugins : List Plugin) (resolve : PluginSource) (s : Kept)
    → collect_resilient keep_failure plugins resolve keep s
      ≡ (true, (s.0 ++ all_healthy plugins resolve, s.1 ++ all_failures plugins resolve))
unfolding collect_resilient
collect_resilient_go [] resolve s = rw (append-nil, append-nil) refl
collect_resilient_go (p ∷ plugins) resolve s =
    rw (resilient_feeds_lem p.name (resolve p) s)
      (collect_resilient_go plugins resolve _ ∙ rw (append_assoc, append_assoc) refl)

-- The first error of what a parser yields.
abbrev first_error : List Item → Option Error
first_error [] = none
first_error ((e, some perr) ∷ items) = some perr
first_error ((e, none) ∷ items) = first_error items

-- Why a feed cannot be read to its end: it does not open, or its parser yields an error.
abbrev pub trouble : Feed → Option Error
trouble f = elim (f.source f.ref) [ err e ↦ some e | ok rc ↦ first_error (f.parse f.ref rc) ]

-- All that the parser of a feed yields.
abbrev pub content : Feed → List Item
content f = elim (f.source f.ref) [ err e ↦ [] | ok rc ↦ f.parse f.ref rc ]

-- The whole of each feed without trouble, and a failure for each of the others.
abbrev pub whole_feeds : List Feed → List Item
whole_feeds [] = []
whole_feeds (f ∷ feeds) = elim (trouble f) [
  | some e ↦ whole_feeds feeds
  | none ↦ content f ++ whole_feeds feeds
]

abbrev pub troubled : Text → List Feed → List FeedFailure
troubled provider [] = []
troubled provider (f ∷ feeds) = elim (trouble f) [
  | some e ↦ record { provider = provider; ref = f.ref; cause = e } ∷ troubled provider feeds
  | none ↦ troubled provider feeds
]

abbrev pub whole_plugins : List Plugin → PluginSource → List Item
whole_plugins [] resolve = []
whole_plugins (p ∷ plugins) resolve = whole_feeds (resolve p) ++ whole_plugins plugins resolve

abbrev pub troubled_plugins : List Plugin → PluginSource → List FeedFailure
troubled_plugins [] resolve = []
troubled_plugins (p ∷ plugins) resolve =
    troubled p.name (resolve p) ++ troubled_plugins plugins resolve

abbrev as_items : List Entry → List Item
as_items = map (λ e. (e, none))

as_items-append : (es fs : List Entry) → as_items (es ++ fs) ≡ as_items es ++ as_items fs
as_items-append [] fs = refl
as_items-append (e ∷ es) fs = ap (λ items. (e, none) ∷ items) (as_items-append es fs)

-- What `bufferFeed` gives, by the first error.
abbrev IsBuffered : List Item → Option Error → Outcome (List Entry) → Type 0
IsBuffered items (some e) r = r ≡ err e
IsBuffered items none r = (es : List Entry) × (r ≡ ok es) × (as_items es ≡ items)

buffer_items_lem :
    (items : List Item) (out : List Entry)
    → IsBuffered (as_items out ++ items) (first_error items) (buffer_items out items)
unfolding buffer_items
buffer_items_lem [] out = (out, refl, sym (append-nil (as_items out)))
buffer_items_lem ((e, some perr) ∷ items) out = refl
buffer_items_lem ((e, none) ∷ items) out =
    subst (λ xs. IsBuffered xs (first_error items) (buffer_items (out ++ (e ∷ [])) items))
      (ap (λ xs. xs ++ items) (as_items-append out (e ∷ []))
        ∙ append_assoc (as_items out) ((e, none) ∷ []) items)
      (buffer_items_lem items (out ++ (e ∷ [])))

buffer_feed_lem : (f : Feed) → IsBuffered (content f) (trouble f) (buffer_feed f)
unfolding buffer_feed
buffer_feed_lem f = elim (Outcome-cases (f.source f.ref)) [
  | inr (e, e1) ↦ rw (e1, buffer_feed, content, trouble) refl
  | inl (rc, e1) ↦ rw (e1, buffer_feed, content, trouble) (buffer_items_lem (f.parse f.ref rc) [])
]

feeds_lem :
    (provider : Text) (feeds : List Feed)
    → (healthy_items feeds ≡ whole_feeds feeds)
      × (failures_of provider feeds ≡ troubled provider feeds)
feeds_lem provider [] = (refl, refl)
feeds_lem provider (f ∷ feeds) =
    let (items, failures) = feeds_lem provider feeds in
    elim (Option-cases (trouble f)) [
      | inr (e, e1) ↦
          let broken : buffer_feed f ≡ err e = rw e1 at (buffer_feed_lem f) in
          rw (broken, e1, healthy_items, failures_of, whole_feeds, troubled)
            (items, ap (λ fs. record { provider = provider; ref = f.ref; cause = e } ∷ fs) failures)
      | inl e0 ↦
          let (es, read, whole) = rw e0 at (buffer_feed_lem f) in
          rw (read, e0, healthy_items, failures_of, whole_feeds, troubled)
            (
              ap (λ xs. xs ++ healthy_items feeds) whole ∙ ap (λ xs. content f ++ xs) items,
              failures,
            )
    ]

plugins_lem :
    (plugins : List Plugin) (resolve : PluginSource)
    → (all_healthy plugins resolve ≡ whole_plugins plugins resolve)
      × (all_failures plugins resolve ≡ troubled_plugins plugins resolve)
plugins_lem [] resolve = (refl, refl)
plugins_lem (p ∷ plugins) resolve =
    let (items, failures) = feeds_lem p.name (resolve p) in
    let (rest, others) = plugins_lem plugins resolve in
    (ap₂ (λ xs ys. xs ++ ys) items rest, ap₂ (λ xs ys. xs ++ ys) failures others)

-- To a consumer that keeps all, `CollectResilient` yields, in order, all that the parsers of the
-- feeds yield which open and whose parsers yield no error. It reports each of the others once, with
-- the error of its opening or the first error of its parser, and yields nothing of it and no error.
pub collect_resilient_lem :
    (plugins : List Plugin) (resolve : PluginSource)
    → collect_resilient keep_failure plugins resolve keep ([], [])
      ≡ (true, (whole_plugins plugins resolve, troubled_plugins plugins resolve))
collect_resilient_lem plugins resolve =
    let (items, failures) = plugins_lem plugins resolve in
    collect_resilient_go plugins resolve ([], []) ∙ ap₂ (λ xs ys. (true, (xs, ys))) items failures
