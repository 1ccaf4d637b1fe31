-- ===== src/Plugins/Parsers.antt =====
-- What the plugins call of the standard library, as one interface: `netip.ParsePrefix`,
-- `netip.ParseAddr`, `time.Parse` with its layout, and `bufio.Scanner` on a reader, which gives the
-- lines and the error that ends the scan.
use cloudip.Base.{
  ◌≡◌, refl, true, false, Text, text_eq, ◌==◌, List, [], ◌∷◌, Option, none, some, if◌then◌else◌,
}
use cloudip.Base.Dict.{Dict}
use cloudip.Base.Outcome.{Outcome, ok}
use cloudip.Net.Addr.{Addr, invalid, v4, v6, is_valid, bit_len}
use cloudip.Net.Prefix.{Prefix, prefix_from, prefix_valid, no_prefix}
use cloudip.Record.{Record, Item, Error, Time}
use cloudip.Feed.{Reader, no_entry}

pub record Parsers : Type 0 where
  pub parse_prefix : Text → Outcome Prefix
  pub parse_addr : Text → Outcome Addr
  pub parse_time : Text → Text → Option Time
  pub scan : Reader → List Text × Option Error

-- What parses is valid.
pub record IsLawful (P : Parsers) : Type 0 where
  pub prefix-valid : (s : Text) (p : Prefix) → P.parse_prefix s ≡ ok p → prefix_valid p ≡ true
  pub addr-valid : (s : Text) (a : Addr) → P.parse_addr s ≡ ok a → is_valid a ≡ true

-- `attribution.Record{…}` with the fields that plugins set.
unfoldable pub make_record : Text → Text → List Text → List Text → Text → Time → Dict Text → Record
make_record provider region services categories source synced_at ext = record {
  provider = provider;
  region = region;
  services = services;
  categories = categories;
  ipv6 = false;
  source = source;
  synced_at = synced_at;
  ext = ext;
  network = no_prefix;
}

-- `yield(attribution.Entry{}, err)`
abbrev pub failed_item : Error → Item
failed_item e = (no_entry, some e)

abbrev pub entry_item : Prefix → Record → Item
entry_item network r = (record { network = network; attribution = r }, none)

-- `if v != "" { ext[k] = v }`, on a map without the key.
unfoldable pub with_ext : Text → Text → Dict Text → Dict Text
with_ext k v ext = if v == [] then ext else (k, v) ∷ ext

-- What `Build` and `Verify` ask of an entry: a valid network and a provider; and its source is the
-- reference it was read from. An error is no entry.
abbrev pub IsFit : Text → Item → Type 0
IsFit ref (e, some error) = Unit
IsFit ref (e, none) =
    (prefix_valid e.network ≡ true)
    × ((e.attribution.provider == []) ≡ false)
    × (e.attribution.source ≡ ref)

pub entry_item-IsFit :
    (pre : Prefix) (provider region : Text) (services categories : List Text) (ref : Text)
    (t : Time) (ext : Dict Text)
    → prefix_valid pre ≡ true
    → (provider == []) ≡ false
    → IsFit ref (entry_item pre (make_record provider region services categories ref t ext))
unfolding make_record
entry_item-IsFit pre provider region services categories ref t ext valid named =
    (valid, named, refl)

-- A single address as a network: `netip.PrefixFrom(a, a.BitLen())`.
unfoldable pub host_prefix : Addr → Prefix
host_prefix a = prefix_from a (bit_len a)

pub host_prefix-valid : (a : Addr) → is_valid a ≡ true → prefix_valid (host_prefix a) ≡ true
unfolding host_prefix prefix_from
host_prefix-valid invalid h = absurd (cc)
host_prefix-valid (v4 n) h = refl
host_prefix-valid (v6 n z) h = refl
