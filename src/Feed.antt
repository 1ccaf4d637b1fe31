-- ===== src/Feed.antt =====
-- attribution/attribution.go, attribution/pipeline.go: plugins, feeds, and the streams that collect
-- them. A stream that a parser yields is the list of what it yields to a consumer that wants all.
pub mod Http
pub mod Digest
pub mod Registry
pub mod Collected
pub mod Rezmoss
pub mod Local
use cloudip.Base.{
  ℕ, Bool, true, false, Text, codes, List, [], ◌∷◌, ◌++◌, map, Option, none, some, if◌then◌else◌,
}
use cloudip.Base.Outcome.{Outcome, ok, err}
use cloudip.Base.Streams.{Yield, and_then, each}
use cloudip.Net.Prefix.{no_prefix}
use cloudip.Record.{Record, Entry, Item, Error, zero_time}

-- An `io.ReadCloser`: what it holds, and the error that `io.ReadAll` ends with, if any.
pub record Reader : Type 0 where
  pub content : Text
  pub failure : Option Error

-- `Source.Open` in one run of the program.
abbrev pub Source : Type 0
Source = Text → Outcome Reader

abbrev pub ParseFunc : Type 0
ParseFunc = Text → Reader → List Item

pub record Feed : Type 0 where
  pub ref : Text
  pub source : Source
  pub parse : ParseFunc

-- `Plugin`, with the methods of `DirectPlugin` and `RezmossPlugin` where it has them.
pub record Plugin : Type 0 where
  pub name : Text
  pub refs : List Text
  pub parse : ParseFunc
  pub direct_refs : Option (List Text)
  pub rezmoss_refs : Option (List Text)

abbrev pub PluginSource : Type 0
PluginSource = Plugin → List Feed

unfoldable pub refs_for : Plugin → Bool → List Text
refs_for p direct =
    if direct then (elim (p.direct_refs) [ some refs ↦ refs | none ↦ p.refs ]) else p.refs

-- `RezmossRefs`
unfoldable pub rezmoss_refs_of : Plugin → List Text
rezmoss_refs_of p = elim (p.rezmoss_refs) [
  | some refs ↦ refs
  | none ↦ (p.name ++ (codes "/" ++ (p.name ++ codes "_ips.json"))) ∷ []
]

-- `for i, ref := range refs { feeds[i] = Feed{Ref: ref, Source: src, Parse: parse} }`
abbrev pub feeds_of : List Text → Source → ParseFunc → List Feed
feeds_of refs src parse = map (λ ref. record { ref = ref; source = src; parse = parse }) refs

unfoldable pub rezmoss_feeds : (Text → ParseFunc) → Plugin → Source → List Feed
rezmoss_feeds parse_rezmoss p src = feeds_of (rezmoss_refs_of p) src (parse_rezmoss p.name)

unfoldable pub rezmoss_resolver : (Text → ParseFunc) → Source → PluginSource
rezmoss_resolver parse_rezmoss rezmoss p = rezmoss_feeds parse_rezmoss p rezmoss

unfoldable pub direct_resolver : (Text → ParseFunc) → Source → Source → PluginSource
direct_resolver parse_rezmoss direct rezmoss p = elim (p.direct_refs) [
  | none ↦ rezmoss_feeds parse_rezmoss p rezmoss
  | some refs ↦ feeds_of refs direct p.parse
]

-- `FixtureResolver`, over the source of its directory.
unfoldable pub fixture_resolver : Source → PluginSource
fixture_resolver src p = feeds_of p.refs src p.parse

-- `MirrorResolver`, over the source of its base.
unfoldable pub mirror_resolver : Source → PluginSource
mirror_resolver src p = feeds_of p.refs src p.parse

unfoldable pub no_entry : Entry
no_entry = record {
  network = no_prefix;
  attribution = record {
    provider = [];
    region = [];
    services = [];
    categories = [];
    ipv6 = false;
    source = [];
    synced_at = zero_time;
    ext = [];
    network = no_prefix;
  };
}

unfoldable pub open_error : Text → Text → Error → Error
open_error provider ref e = provider ++ (codes ": open " ++ (ref ++ (codes ": " ++ e)))

unfoldable pub parse_error : Text → Text → Error → Error
parse_error provider ref e = provider ++ (codes ": parse " ++ (ref ++ (codes ": " ++ e)))

pub record FeedFailure : Type 0 where
  pub provider : Text
  pub ref : Text
  pub cause : Error

-- The loop of `bufferFeed`, with the entries so far.
unfoldable pub buffer_items : List Entry → List Item → Outcome (List Entry)
buffer_items out [] = ok out
buffer_items out ((e, some perr) ∷ items) = err perr
buffer_items out ((e, none) ∷ items) = buffer_items (out ++ (e ∷ [])) items

unfoldable pub buffer_feed : Feed → Outcome (List Entry)
buffer_feed f = elim (f.source f.ref) [ err e ↦ err e | ok rc ↦ buffer_items [] (f.parse f.ref rc) ]

module _ {S : Type 0} where
  -- The loop of `collectFeed` over what the parser yields.
  unfoldable pub collect_items : Text → Text → List Item → Yield Item S → S → Bool × S
  collect_items provider ref [] yield s = (true, s)
  collect_items provider ref ((e, some perr) ∷ items) yield s =
      and_then (yield (no_entry, some (parse_error provider ref perr)) s)
        (collect_items provider ref items yield)
  collect_items provider ref ((e, none) ∷ items) yield s =
      and_then (yield (e, none) s) (collect_items provider ref items yield)

  unfoldable pub collect_feed : Text → Feed → Yield Item S → S → Bool × S
  collect_feed provider f yield s = elim (f.source f.ref) [
    | err e ↦ yield (no_entry, some (open_error provider f.ref e)) s
    | ok rc ↦ collect_items provider f.ref (f.parse f.ref rc) yield s
  ]

  unfoldable pub collect_feeds : Text → List Feed → Yield Item S → S → Bool × S
  collect_feeds provider [] yield s = (true, s)
  collect_feeds provider (f ∷ feeds) yield s =
      and_then (collect_feed provider f yield s) (collect_feeds provider feeds yield)

  -- `Collect`
  unfoldable pub collect : List Plugin → PluginSource → Yield Item S → S → Bool × S
  collect [] resolve yield s = (true, s)
  collect (p ∷ plugins) resolve yield s =
      and_then (collect_feeds p.name (resolve p) yield s) (collect plugins resolve yield)

  -- `ConcatEntries`
  unfoldable pub concat_entries : List (Yield Item S → S → Bool × S) → Yield Item S → S → Bool × S
  concat_entries [] yield s = (true, s)
  concat_entries (seq ∷ seqs) yield s = and_then (seq yield s) (concat_entries seqs yield)

  -- `CollectResilient`; `on_fail` tells the consumer of the feed that is left out.
  unfoldable pub resilient_feeds :
      (FeedFailure → S → S) → Text → List Feed → Yield Item S → S → Bool × S
  resilient_feeds on_fail provider [] yield s = (true, s)
  resilient_feeds on_fail provider (f ∷ feeds) yield s = elim (buffer_feed f) [
    | err e ↦
        resilient_feeds on_fail provider feeds yield
          (on_fail (record { provider = provider; ref = f.ref; cause = e }) s)
    | ok buf ↦
        and_then (each (map (λ e. (e, none)) buf) yield s)
          (resilient_feeds on_fail provider feeds yield)
  ]

  unfoldable pub collect_resilient :
      (FeedFailure → S → S) → List Plugin → PluginSource → Yield Item S → S → Bool × S
  collect_resilient on_fail [] resolve yield s = (true, s)
  collect_resilient on_fail (p ∷ plugins) resolve yield s =
      and_then (resilient_feeds on_fail p.name (resolve p) yield s)
        (collect_resilient on_fail plugins resolve yield)
