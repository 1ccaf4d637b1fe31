-- ===== src/Build/Merge/Fields.antt =====
-- What a merge leaves under each key of a record.
use cloudip.Base.{
  ◌≡◌, refl, ◌∙◌, Bool, true, false, ◌||◌, Text, text_eq, ◌==◌, List, [], ◌∷◌, some, if◌then◌else◌,
  contains, arith, Bool-cases, inl, inr,
}
use cloudip.Base.Dict.{get, put, get-put}
use cloudip.Storage.{uint64, leaf, slice, dict, Stored, strs}
use cloudip.Storage.Key
use cloudip.Build.Merge.{
  same_string, max_uint64, texts_of, union_slices, union_ext, merge_taken, merge_categories,
  merge_scoped,
}
use cloudip.Build.Merge.Union.{contains-union_slices, texts_of_leaves-strs}

-- A key of which a merge keeps the value that is in place.
abbrev pub IsKept : Text → Type 0
IsKept k =
    ((k == Key.synced_at) ≡ false)
    × ((k == Key.ext) ≡ false)
    × ((k == Key.services) ≡ false)
    × ((k == Key.categories) ≡ false)

categories_not_synced : (Key.categories == Key.synced_at) ≡ false
unfolding text_eq
categories_not_synced = refl

categories_not_ext : (Key.categories == Key.ext) ≡ false
unfolding text_eq
categories_not_ext = refl

categories_not_services : (Key.categories == Key.services) ≡ false
unfolding text_eq
categories_not_services = refl

services_not_categories : (Key.services == Key.categories) ≡ false
unfolding text_eq
services_not_categories = refl

services_not_synced : (Key.services == Key.synced_at) ≡ false
unfolding text_eq
services_not_synced = refl

services_not_ext : (Key.services == Key.ext) ≡ false
unfolding text_eq
services_not_ext = refl

synced_not_categories : (Key.synced_at == Key.categories) ≡ false
unfolding text_eq
synced_not_categories = refl

ext_not_categories : (Key.ext == Key.categories) ≡ false
unfolding text_eq
ext_not_categories = refl

ext_not_synced : (Key.ext == Key.synced_at) ≡ false
unfolding text_eq
ext_not_synced = refl

text_eq_self : (s : Text) → (s == s) ≡ true
text_eq_self s = ground arith

-- The keys that no merge changes.
pub provider-IsKept : IsKept Key.provider
unfolding text_eq
provider-IsKept = (refl, refl, refl, refl)

pub region-IsKept : IsKept Key.region
unfolding text_eq
region-IsKept = (refl, refl, refl, refl)

pub source-IsKept : IsKept Key.source
unfolding text_eq
source-IsKept = (refl, refl, refl, refl)

pub ipv6-IsKept : IsKept Key.ipv6
unfolding text_eq
ipv6-IsKept = (refl, refl, refl, refl)

module _ (incoming cur : Stored) where
  abbrev pub same_provider : Bool
  same_provider = same_string (get Key.provider cur) (get Key.provider incoming)

  get-merge_categories :
      (k : Text) → (k == Key.categories) ≡ false → get k (merge_categories incoming cur) ≡ get k cur
  unfolding merge_categories
  get-merge_categories k ne =
      go (union_slices (get Key.categories cur) (get Key.categories incoming))
    where
      go :
          (cats : List Text)
          → get k (elim cats [ [] ↦ cur | c ∷ cs ↦ put Key.categories (slice (strs (c ∷ cs))) cur ])
            ≡ get k cur
      go [] = refl
      go (c ∷ cs) = rw get-put (rw ne refl)

  texts_of-merge_categories :
      (s : Text)
      → contains (texts_of (get Key.categories (merge_categories incoming cur))) s ≡ (
          contains (texts_of (get Key.categories cur)) s
          || contains (texts_of (get Key.categories incoming)) s)
  unfolding merge_categories
  texts_of-merge_categories s =
      go (union_slices (get Key.categories cur) (get Key.categories incoming))
        (contains-union_slices (get Key.categories cur) (get Key.categories incoming) s)
    where
      go :
          (cats : List Text)
          → contains cats s ≡ (
              contains (texts_of (get Key.categories cur)) s
              || contains (texts_of (get Key.categories incoming)) s)
          → contains
              (texts_of (
                get Key.categories (elim cats [
                  | [] ↦ cur
                  | c ∷ cs ↦ put Key.categories (slice (strs (c ∷ cs))) cur
                ])))
              s
            ≡ (contains (texts_of (get Key.categories cur)) s
                || contains (texts_of (get Key.categories incoming)) s)
      go [] h = ground arith
      go (c ∷ cs) h = rw get-put (rw text_eq_self (rw texts_of_leaves-strs h))

  get-merge_scoped :
      (merged : Stored) (k : Text)
      → get k (merge_scoped incoming cur merged) ≡ (
          if k == Key.synced_at
          then some
              (leaf (uint64 (max_uint64 (get Key.synced_at cur) (get Key.synced_at incoming))))
          else if k == Key.ext
          then some (dict (union_ext (get Key.ext cur) (get Key.ext incoming)))
          else if k == Key.services
          then some (slice (strs (union_slices (get Key.services cur) (get Key.services incoming))))
          else get k merged)
  unfolding merge_scoped
  get-merge_scoped merged k = simp get-put

  pub get_kept : (k : Text) → IsKept k → get k (merge_taken incoming cur) ≡ get k cur
  unfolding merge_taken
  get_kept k h = elim (Bool-cases same_provider) [
    | inr e ↦ rw e (get-merge_categories k h.3)
    | inl e ↦ rw e (get-merge_scoped _ k ∙ ground (arith, get-merge_categories k h.3))
  ]

  -- Categories are united whatever the provider is.
  pub categories-merge_taken :
      (s : Text)
      → contains (texts_of (get Key.categories (merge_taken incoming cur))) s ≡ (
          contains (texts_of (get Key.categories cur)) s
          || contains (texts_of (get Key.categories incoming)) s)
  unfolding merge_taken
  categories-merge_taken s = elim (Bool-cases same_provider) [
    | inr e ↦ rw e (texts_of-merge_categories s)
    | inl e ↦ rw e (
        rw (get-merge_scoped, categories_not_synced, categories_not_ext, categories_not_services)
          (texts_of-merge_categories s))
  ]

  -- Services are united for one provider only.
  pub services-merge_taken : get Key.services (merge_taken incoming cur) ≡ (
      if same_provider
      then some (slice (strs (union_slices (get Key.services cur) (get Key.services incoming))))
      else get Key.services cur)
  unfolding merge_taken
  services-merge_taken = elim (Bool-cases same_provider) [
    | inr e ↦ rw e (get-merge_categories Key.services services_not_categories)
    | inl e ↦ rw e (
        get-merge_scoped _ Key.services
        ∙ rw (services_not_synced, services_not_ext, text_eq_self) refl)
  ]

  pub synced_at-merge_taken : get Key.synced_at (merge_taken incoming cur) ≡ (
      if same_provider
      then some (leaf (uint64 (max_uint64 (get Key.synced_at cur) (get Key.synced_at incoming))))
      else get Key.synced_at cur)
  unfolding merge_taken
  synced_at-merge_taken = elim (Bool-cases same_provider) [
    | inr e ↦ rw e (get-merge_categories Key.synced_at synced_not_categories)
    | inl e ↦ rw e (get-merge_scoped _ Key.synced_at ∙ rw text_eq_self refl)
  ]

  pub ext-merge_taken : get Key.ext (merge_taken incoming cur) ≡ (
      if same_provider
      then some (dict (union_ext (get Key.ext cur) (get Key.ext incoming)))
      else get Key.ext cur)
  unfolding merge_taken
  ext-merge_taken = elim (Bool-cases same_provider) [
    | inr e ↦ rw e (get-merge_categories Key.ext ext_not_categories)
    | inl e ↦ rw e (get-merge_scoped _ Key.ext ∙ rw (ext_not_synced, text_eq_self) refl)
  ]

  -- The categories that are left are the united ones, if there are any.
  pub get-categories-merge_taken :
      get Key.categories (merge_taken incoming cur)
      ≡ (elim (union_slices (get Key.categories cur) (get Key.categories incoming)) [
        | [] ↦ get Key.categories cur
        | c ∷ cs ↦ some (slice (strs (c ∷ cs)))
      ])
  unfolding merge_taken merge_categories
  get-categories-merge_taken = elim (Bool-cases same_provider) [
    | inr e ↦ rw e (go (union_slices (get Key.categories cur) (get Key.categories incoming)))
    | inl e ↦ rw e (
        rw (get-merge_scoped, categories_not_synced, categories_not_ext, categories_not_services)
          (go (union_slices (get Key.categories cur) (get Key.categories incoming))))
  ]
    where
      go :
          (cats : List Text)
          → get Key.categories
              (elim cats [ [] ↦ cur | c ∷ cs ↦ put Key.categories (slice (strs (c ∷ cs))) cur ])
            ≡ (elim cats [ [] ↦ get Key.categories cur | c ∷ cs ↦ some (slice (strs (c ∷ cs))) ])
      go [] = refl
      go (c ∷ cs) = rw get-put (rw text_eq_self refl)
