-- ===== src/Storage/RoundTrip.antt =====
-- attribution/storage.go: a record through `toMMDB`, the decoder of package `maxminddb`, and
-- `toRecord`. The decoder is a parameter with the behaviour that the program relies on.
use cloudip.Base.{
  ℕ, contains, ◌≡◌, ◌<◌, ◌^◌, refl, sym, ap, ◌∙◌, inl, inr, ◌⊎◌, Bool, false, Text, text_eq, nat_eq,
  ◌==◌, List, [], ◌∷◌, Option, none, some, if◌then◌else◌, ltb, Bool-cases, Option-cases, ==-sound,
  arith,
}
use cloudip.Base.Outcome.{Outcome, ok}
use cloudip.Base.Dict.{Dict, get, put, get-put}
use cloudip.Base.Int.{pos}
use cloudip.Record.{Record, Time, zero_time, is_zero}
use cloudip.Storage.{
  Leaf, str, uint64, boolean, Value, leaf, slice, dict, Stored, StoredRecord, strs, dedupe_sorted,
  stored_ext, stored_time, to_mmdb, unix, to_record,
}
use cloudip.Storage.Key
use cloudip.Storage.Canonical.{dedupe_sorted-IsStrict, contains-dedupe_sorted}
use cloudip.Base.Sort.{IsStrict}

-- What a field of a record may be decoded from.
abbrev pub list_value : List Text → Option Value
list_value [] = none
list_value (s ∷ ss) = some (slice (strs (s ∷ ss)))

-- A map of strings.
abbrev pub IsTexts : Dict Leaf → Type 0
IsTexts d = (k : Text) (l : Leaf) → get k d ≡ some l → (v : Text) × (l ≡ str v)

-- A map whose values have the types of the fields decodes field by field; a list without a key in
-- the map is empty.
pub record IsDecoder (decode : Stored → Outcome StoredRecord) : Type 0 where
  pub decodes :
      (m : Stored) (provider region source : Text) (services categories : List Text) (ipv6 : Bool)
      (synced_at : ℕ) (ext : Dict Leaf)
      → get Key.provider m ≡ some (leaf (str provider))
      → get Key.region m ≡ some (leaf (str region))
      → get Key.services m ≡ some (slice (strs services))
      → get Key.categories m ≡ list_value categories
      → get Key.ipv6 m ≡ some (leaf (boolean ipv6))
      → get Key.source m ≡ some (leaf (str source))
      → get Key.synced_at m ≡ some (leaf (uint64 synced_at))
      → get Key.ext m ≡ some (dict ext)
      → IsTexts ext
      → (s : StoredRecord) × (decode m ≡ ok s)
        × (s.provider ≡ provider)
        × (s.region ≡ region)
        × (s.services ≡ services)
        × (s.categories ≡ categories)
        × (s.ipv6 ≡ ipv6)
        × (s.source ≡ source)
        × (s.synced_at ≡ synced_at)
        × ((k v : Text) → get k ext ≡ some (str v) → get k s.ext ≡ some v)
        × ((k : Text) → get k ext ≡ none → get k s.ext ≡ none)

-- A time that the stored form can hold: none, or a second behind the first of 1970.
abbrev pub IsStorable : Time → Type 0
IsStorable t = (t ≡ zero_time) ⊎ ((n : ℕ) × (t ≡ pos n) × (0 < n) × (n < 2 ^ 63))

-- A Go map: each key once.
abbrev pub IsMap : Dict Text → Type 0
IsMap [] = Unit
IsMap ((k, v) ∷ ext) = (get k ext ≡ none) × IsMap ext

-- A value that is not empty.
abbrev pub kept : Option Text → Option Text
kept none = none
kept (some v) = if v == [] then none else some v

abbrev leaf_of : Option Text → Option Leaf
leaf_of none = none
leaf_of (some v) = some (str v)

get-stored_ext :
    (ext : Dict Text) (k : Text) → IsMap ext → get k (stored_ext ext) ≡ leaf_of (kept (get k ext))
unfolding get stored_ext
get-stored_ext [] k h = refl
get-stored_ext ((j, v) ∷ ext) k h =
    let ih = get-stored_ext ext k h.1 in
    elim (Bool-cases (k == j)) [
      | inl same ↦
          let absent : get k ext ≡ none = rw (==-sound k j same) h.0 in
          elim (Bool-cases (v == [])) [
            | inl empty ↦ rw (same, empty, kept) (ih ∙ ap (λ o. leaf_of (kept o)) absent)
            | inr full ↦ rw (same, full, kept) (rw same refl)
          ]
      | inr other ↦ elim (Bool-cases (v == [])) [
        | inl empty ↦ rw (empty, other) ih
        | inr full ↦ rw (full, other) ih
      ]
    ]

pub stored_ext-IsTexts : (ext : Dict Text) → IsTexts (stored_ext ext)
unfolding stored_ext get
stored_ext-IsTexts [] k l h = absurd (cc)
stored_ext-IsTexts ((j, v) ∷ ext) k l h = elim (Bool-cases (v == [])) [
  | inl empty ↦ stored_ext-IsTexts ext k l (rw empty at h)
  | inr full ↦
      let h' = rw full at h in
      elim (Bool-cases (k == j)) [
        | inl same ↦ (v, (let e = rw same at h' in cc))
        | inr other ↦ stored_ext-IsTexts ext k l (rw other at h')
      ]
]

stored_time_lem :
    (t : Time)
    → IsStorable t
    → (if ltb 0 (stored_time t) then unix (stored_time t) else zero_time) ≡ t
unfolding stored_time unix is_zero nat_eq
stored_time_lem t (inl e) = rw e refl
stored_time_lem t (inr (n, e, low, high)) = rw e (ground (arith, low, high))

-- The map with its categories.
abbrev pub with_categories : List Text → Stored → Stored
with_categories [] m = m
with_categories (c ∷ cs) m = put Key.categories (slice (strs (c ∷ cs))) m

pub get-with_categories :
    (cs : List Text) (k : Text) (m : Stored)
    → (k == Key.categories) ≡ false
    → get k (with_categories cs m) ≡ get k m
get-with_categories [] k m h = refl
get-with_categories (c ∷ cs) k m h = get-put k Key.categories _ m ∙ rw h refl

pub get-categories :
    (cs : List Text) (m : Stored)
    → get Key.categories m ≡ none
    → get Key.categories (with_categories cs m) ≡ list_value cs
unfolding text_eq nat_eq
get-categories [] m h = h
get-categories (c ∷ cs) m h = get-put Key.categories Key.categories _ m

abbrev pub plain_map : Record → Bool → Stored
plain_map r ipv6 =
    (Key.provider, leaf (str r.provider))
    ∷ (Key.region, leaf (str r.region))
    ∷ (Key.services, slice (strs (dedupe_sorted r.services)))
    ∷ (Key.ipv6, leaf (boolean ipv6))
    ∷ (Key.source, leaf (str r.source))
    ∷ (Key.synced_at, leaf (uint64 (stored_time r.synced_at)))
    ∷ (Key.ext, dict (stored_ext r.ext))
    ∷ []

List-cases : (xs : List Text) → (xs ≡ []) ⊎ ((c : Text) × (cs : List Text) × (xs ≡ c ∷ cs))
List-cases [] = inl refl
List-cases (c ∷ cs) = inr (c, cs, refl)

pub to_mmdb-with_categories :
    (r : Record) (ipv6 : Bool)
    → to_mmdb r ipv6 ≡ with_categories (dedupe_sorted r.categories) (plain_map r ipv6)
unfolding to_mmdb
to_mmdb-with_categories r ipv6 = elim (List-cases (dedupe_sorted r.categories)) [
  | inl e ↦ rw (e, to_mmdb, with_categories) refl
  | inr (c, cs, e) ↦ rw (e, to_mmdb, with_categories) refl
]

-- The first list has the elements of the second, in strict order.
abbrev pub IsSorting : List Text → List Text → Type 0
IsSorting ss ts = IsStrict ss × ((b : Text) → contains ss b ≡ contains ts b)

dedupe_sorted-IsSorting : (ss : List Text) → IsSorting (dedupe_sorted ss) ss
dedupe_sorted-IsSorting ss = (dedupe_sorted-IsStrict ss, contains-dedupe_sorted ss)

-- Where the decoder behaves as documented, the record that is read back for a stored record has its
-- provider, region, source and time, exactly its services and its categories, both in strict order,
-- the given IPv6 flag, and the values of ext that are not empty; its time is none or behind 1970-01-01.
pub to_record-to_mmdb :
    (decode : Stored → Outcome StoredRecord) (D : IsDecoder decode) (r : Record) (ipv6 : Bool)
    → IsStorable r.synced_at
    → IsMap r.ext
    → (s : StoredRecord) × (decode (to_mmdb r ipv6) ≡ ok s)
      × ((to_record s).provider ≡ r.provider)
      × ((to_record s).region ≡ r.region)
      × ((to_record s).source ≡ r.source)
      × ((to_record s).ipv6 ≡ ipv6)
      × IsSorting (to_record s).services r.services
      × IsSorting (to_record s).categories r.categories
      × ((to_record s).synced_at ≡ r.synced_at)
      × ((k : Text) → get k (to_record s).ext ≡ kept (get k r.ext))
unfolding to_record get text_eq nat_eq
to_record-to_mmdb decode D r ipv6 t h =
    let m = plain_map r ipv6 in
    let cats = dedupe_sorted r.categories in
    let (s, done, provider, region, services, categories, v6, source, synced_at, here, gone) =
      D.decodes (with_categories cats m) r.provider r.region r.source (dedupe_sorted r.services)
        cats ipv6 (stored_time r.synced_at) (stored_ext r.ext)
        (get-with_categories cats Key.provider m refl ∙ refl)
        (get-with_categories cats Key.region m refl ∙ refl)
        (get-with_categories cats Key.services m refl ∙ refl) (get-categories cats m refl)
        (get-with_categories cats Key.ipv6 m refl ∙ refl)
        (get-with_categories cats Key.source m refl ∙ refl)
        (get-with_categories cats Key.synced_at m refl ∙ refl)
        (get-with_categories cats Key.ext m refl ∙ refl) (stored_ext-IsTexts r.ext) in
    (
      s,
      rw (to_mmdb-with_categories r ipv6) done,
      provider,
      region,
      source,
      v6,
      rw services (dedupe_sorted-IsSorting r.services),
      rw categories (dedupe_sorted-IsSorting r.categories),
      rw synced_at (stored_time_lem r.synced_at t),
      λ k. elim (Option-cases (kept (get k r.ext))) [
        | inl e ↦ gone k (get-stored_ext r.ext k h ∙ ap leaf_of e) ∙ sym e
        | inr (v, e) ↦ here k v (get-stored_ext r.ext k h ∙ ap leaf_of e) ∙ sym e
      ],
    )
