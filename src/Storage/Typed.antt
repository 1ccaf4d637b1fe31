-- ===== src/Storage/Typed.antt =====
-- attribution/storage.go, attribution/build.go: the types of what is stored, which are those of the
-- fields of `storedRecord`, and its lists in the form that `dedupeSorted` gives.
use cloudip.Base.{ℕ, ◌≡◌, refl, ◌∙◌, Bool, Text, text_eq, nat_eq, List, some}
use cloudip.Base.Outcome.{Outcome, ok}
use cloudip.Base.Dict.{Dict, get}
use cloudip.Base.Sort.{IsStrict}
use cloudip.Record.{Record}
use cloudip.Storage.{
  Leaf, str, uint64, boolean, leaf, slice, dict, Stored, StoredRecord, strs, stored_ext,
  dedupe_sorted, stored_time, to_mmdb,
}
use cloudip.Storage.Key
use cloudip.Storage.Canonical.{dedupe_sorted-IsStrict}
use cloudip.Storage.RoundTrip.{
  IsDecoder, IsTexts, stored_ext-IsTexts, list_value, plain_map, get-with_categories,
  get-categories, to_mmdb-with_categories,
}

-- Each field is there, with a value of its type; the lists are strictly sorted, and only that of
-- the categories may be left out, where it is empty.
pub record IsTyped (m : Stored) : Type 0 where
  pub provider : (s : Text) × (get Key.provider m ≡ some (leaf (str s)))
  pub region : (s : Text) × (get Key.region m ≡ some (leaf (str s)))
  pub services : (ss : List Text) × (get Key.services m ≡ some (slice (strs ss))) × IsStrict ss
  pub categories : (ss : List Text) × (get Key.categories m ≡ list_value ss) × IsStrict ss
  pub ipv6 : (b : Bool) × (get Key.ipv6 m ≡ some (leaf (boolean b)))
  pub source : (s : Text) × (get Key.source m ≡ some (leaf (str s)))
  pub synced_at : (n : ℕ) × (get Key.synced_at m ≡ some (leaf (uint64 n)))
  pub ext : (d : Dict Leaf) × (get Key.ext m ≡ some (dict d)) × IsTexts d

-- What `toMMDB` makes of any record.
pub to_mmdb-IsTyped : (r : Record) (ipv6 : Bool) → IsTyped (to_mmdb r ipv6)
unfolding get text_eq nat_eq
to_mmdb-IsTyped r ipv6 =
    let m = plain_map r ipv6 in
    let cats = dedupe_sorted r.categories in
    rw (to_mmdb-with_categories r ipv6) (record {
      provider = (r.provider, get-with_categories cats Key.provider m refl ∙ refl);
      region = (r.region, get-with_categories cats Key.region m refl ∙ refl);
      services = (
        dedupe_sorted r.services,
        get-with_categories cats Key.services m refl ∙ refl,
        dedupe_sorted-IsStrict r.services,
      );
      categories = (cats, get-categories cats m refl, dedupe_sorted-IsStrict r.categories);
      ipv6 = (ipv6, get-with_categories cats Key.ipv6 m refl ∙ refl);
      source = (r.source, get-with_categories cats Key.source m refl ∙ refl);
      synced_at = (stored_time r.synced_at, get-with_categories cats Key.synced_at m refl ∙ refl);
      ext = (
        stored_ext r.ext,
        get-with_categories cats Key.ext m refl ∙ refl,
        stored_ext-IsTexts r.ext,
      );
    })

-- What has these types is decoded.
pub IsTyped-decodes :
    (decode : Stored → Outcome StoredRecord) (D : IsDecoder decode) (m : Stored)
    → IsTyped m
    → (s : StoredRecord) × (decode m ≡ ok s)
      × (get Key.provider m ≡ some (leaf (str s.provider)))
      × IsStrict s.services
      × IsStrict s.categories
IsTyped-decodes decode D m t =
    let (s, done, provider, _, services, categories, _, _, _, _, _) =
      D.decodes m t.provider.0 t.region.0 t.source.0 t.services.0 t.categories.0 t.ipv6.0
        t.synced_at.0 t.ext.0 t.provider.1 t.region.1 t.services.1 t.categories.1 t.ipv6.1
        t.source.1 t.synced_at.1 t.ext.1 t.ext.2 in
    (s, done, rw provider t.provider.1, rw services t.services.2, rw categories t.categories.2)
