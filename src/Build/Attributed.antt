-- ===== src/Build/Attributed.antt =====
-- attribution/build.go, attribution/storage.go: what is read back of a merged record, in the terms
-- of the records of the entries that were merged.
use cloudip.Base.{
  ◌≡◌, refl, sym, ◌∙◌, ap, inl, inr, Bool, false, ◌||◌, ◌&&◌, Text, text_eq, nat_eq, ◌==◌, List, [],
  ◌∷◌, map, Option, none, some, if◌then◌else◌, contains, Bool-cases, Option-cases,
}
use cloudip.Base.Outcome.{Outcome, ok}
use cloudip.Base.Dict.{get}
use cloudip.Base.Sort.{IsStrict}
use cloudip.Net.Addr.{Addr}
use cloudip.Record.{Record, Item}
use cloudip.Storage.{
  str, boolean, Value, leaf, slice, Stored, StoredRecord, strs, dedupe_sorted, to_mmdb, to_record,
}
use cloudip.Storage.Key
use cloudip.Storage.Canonical.{contains-dedupe_sorted}
use cloudip.Storage.RoundTrip.{
  IsDecoder, plain_map, get-with_categories, get-categories, to_mmdb-with_categories,
}
use cloudip.Storage.Typed.{IsTyped}
use cloudip.Build.{entry_map}
use cloudip.Build.Lookup.{covering, placed}
use cloudip.Build.Merge.{same_string, texts_of}
use cloudip.Build.Merge.Fields.{provider-IsKept, region-IsKept, source-IsKept, ipv6-IsKept}
use cloudip.Build.Merge.Summary.{IsSummary, any_category, any_service}
use cloudip.Build.Merge.Union.{texts_of_leaves-strs}
use cloudip.Build.Normalize.{is_v6_network}
use cloudip.Build.Tree.{tree_contains, IpNet}
use cloudip.Build.Typed.{texts_of-list_value}

-- The records of the entries that cover an address, in the order of the stream, each flagged with
-- the family of its network.
abbrev pub holders : (IpNet → Bool) → Addr → List Item → List Record
holders accepts x [] = []
holders accepts x ((e, some error) ∷ entries) = holders accepts x entries
holders accepts x ((e, none) ∷ entries) = elim (placed accepts e) [
  | none ↦ holders accepts x entries
  | some network ↦
      if tree_contains network x
      then record (e.attribution) { ipv6 = is_v6_network network } ∷ holders accepts x entries
      else holders accepts x entries
]

abbrev pub stored_form : Record → Stored
stored_form r = to_mmdb r r.ipv6

pub covering-holders :
    (accepts : IpNet → Bool) (x : Addr) (entries : List Item)
    → covering accepts x entries ≡ map stored_form (holders accepts x entries)
unfolding entry_map
covering-holders accepts x [] = refl
covering-holders accepts x ((e, some error) ∷ entries) = covering-holders accepts x entries
covering-holders accepts x ((e, none) ∷ entries) =
    let rest = covering-holders accepts x entries in
    elim (Option-cases (placed accepts e)) [
      | inl e0 ↦ rw (e0, covering, holders) rest
      | inr (network, e1) ↦ elim (Bool-cases (tree_contains network x)) [
        | inl hit ↦ rw (e1, hit, covering, holders) (ap (λ ms. entry_map e network ∷ ms) rest)
        | inr miss ↦ rw (e1, miss, covering, holders) rest
      ]
    ]

-- Some of the records has the category.
abbrev pub in_categories : Text → List Record → Bool
in_categories c [] = false
in_categories c (r ∷ rs) = contains r.categories c || in_categories c rs

-- Some of the records is of the provider and has the service.
abbrev pub in_services : Text → Text → List Record → Bool
in_services p s [] = false
in_services p s (r ∷ rs) = (p == r.provider && contains r.services s) || in_services p s rs

-- The first record's own fields, the categories of all, and the services of those of its provider.
pub record IsAttribution (r : Record) (rs : List Record) (q : Record) : Type 0 where
  pub provider : q.provider ≡ r.provider
  pub region : q.region ≡ r.region
  pub source : q.source ≡ r.source
  pub ipv6 : q.ipv6 ≡ r.ipv6
  pub categories : (c : Text) → contains q.categories c ≡ in_categories c (r ∷ rs)
  pub services :
      (s : Text) → contains q.services s ≡ (contains r.services s || in_services r.provider s rs)
  pub sorted : IsStrict q.categories × IsStrict q.services

module _ (r : Record) where
  get-plain :
      (k : Text) (v : Option Value)
      → (k == Key.categories) ≡ false
      → get k (plain_map r r.ipv6) ≡ v
      → get k (stored_form r) ≡ v
  get-plain k v h e =
      rw (to_mmdb-with_categories r r.ipv6)
        (get-with_categories (dedupe_sorted r.categories) k (plain_map r r.ipv6) h ∙ e)

  provider_of : get Key.provider (stored_form r) ≡ some (leaf (str r.provider))
  unfolding get text_eq nat_eq
  provider_of = get-plain Key.provider _ refl refl

  region_of : get Key.region (stored_form r) ≡ some (leaf (str r.region))
  unfolding get text_eq nat_eq
  region_of = get-plain Key.region _ refl refl

  source_of : get Key.source (stored_form r) ≡ some (leaf (str r.source))
  unfolding get text_eq nat_eq
  source_of = get-plain Key.source _ refl refl

  ipv6_of : get Key.ipv6 (stored_form r) ≡ some (leaf (boolean r.ipv6))
  unfolding get text_eq nat_eq
  ipv6_of = get-plain Key.ipv6 _ refl refl

  contains-services :
      (s : Text) → contains (texts_of (get Key.services (stored_form r))) s ≡ contains r.services s
  unfolding get text_eq nat_eq
  contains-services s =
      rw
        (
          get-plain Key.services (some (slice (strs (dedupe_sorted r.services)))) refl refl,
          texts_of_leaves-strs,
        )
        (contains-dedupe_sorted r.services s)

  contains-categories :
      (c : Text)
      → contains (texts_of (get Key.categories (stored_form r))) c ≡ contains r.categories c
  unfolding get text_eq nat_eq
  contains-categories c =
      let cats = dedupe_sorted r.categories in
      rw (to_mmdb-with_categories r r.ipv6) (
        rw (get-categories cats (plain_map r r.ipv6) refl, texts_of-list_value)
          (contains-dedupe_sorted r.categories c))

any_category-stored :
    (c : Text) (rs : List Record) → any_category c (map stored_form rs) ≡ in_categories c rs
any_category-stored c [] = refl
any_category-stored c (r ∷ rs) = rw (contains-categories r c, any_category-stored c rs) refl

any_service-stored :
    (p s : Text) (rs : List Record)
    → any_service (some (leaf (str p))) s (map stored_form rs) ≡ in_services p s rs
unfolding same_string
any_service-stored p s [] = refl
any_service-stored p s (r ∷ rs) =
    rw (provider_of r, contains-services r s, any_service-stored p s rs) refl

str_inj : {a b : Text} → some (leaf (str a)) ≡ some (leaf (str b)) → a ≡ b
str_inj h = cc

boolean_inj : {a b : Bool} → some (leaf (boolean a)) ≡ some (leaf (boolean b)) → a ≡ b
boolean_inj h = cc

-- What the decoder gives for a merged record.
pub decoded_lem :
    (decode : Stored → Outcome StoredRecord) (D : IsDecoder decode) (r : Record) (rs : List Record)
    (slot : Stored)
    → IsTyped slot
    → IsSummary (stored_form r) (map stored_form rs) slot
    → (s : StoredRecord) × (decode slot ≡ ok s) × IsAttribution r rs (to_record s)
unfolding to_record
decoded_lem decode D r rs slot t m =
    let (s, done, provider, region, services, categories, ipv6, source, _, _, _) =
      D.decodes slot t.provider.0 t.region.0 t.source.0 t.services.0 t.categories.0 t.ipv6.0
        t.synced_at.0 t.ext.0 t.provider.1 t.region.1 t.services.1 t.categories.1 t.ipv6.1
        t.source.1 t.synced_at.1 t.ext.1 t.ext.2 in
    let cats : texts_of (get Key.categories slot) ≡ s.categories =
      ap texts_of t.categories.1 ∙ texts_of-list_value t.categories.0 ∙ sym categories in
    let servs : texts_of (get Key.services slot) ≡ s.services =
      ap texts_of t.services.1 ∙ texts_of_leaves-strs t.services.0 ∙ sym services in
    (
      s,
      done,
      record {
        provider =
            provider
            ∙ str_inj (sym t.provider.1 ∙ m.kept Key.provider provider-IsKept ∙ provider_of r);
        region = region ∙ str_inj (sym t.region.1 ∙ m.kept Key.region region-IsKept ∙ region_of r);
        source = source ∙ str_inj (sym t.source.1 ∙ m.kept Key.source source-IsKept ∙ source_of r);
        ipv6 = ipv6 ∙ boolean_inj (sym t.ipv6.1 ∙ m.kept Key.ipv6 ipv6-IsKept ∙ ipv6_of r);
        categories = λ c.
            ap (λ ss. contains ss c) (sym cats) ∙ m.categories c ∙ any_category-stored c (r ∷ rs);
        services = λ k.
            ap (λ ss. contains ss k) (sym servs)
            ∙ m.services k
            ∙ rw (provider_of r, contains-services r k, any_service-stored r.provider k rs) refl;
        sorted = (rw categories t.categories.2, rw services t.services.2);
      },
    )
