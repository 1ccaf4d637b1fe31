-- ===== src/Build/Merge/Summary.antt =====
-- A whole sequence of merges: what the record holds once all networks of the feeds are inserted.
use cloudip.Base.{
  ℕ, ◌≡◌, refl, ◌∙◌, ap, Bool, false, ◌||◌, ◌&&◌, ltb, Text, text_eq, List, [], ◌∷◌, Option, none,
  some, if◌then◌else◌, contains, arith, Bool-cases, inl, inr,
}
use cloudip.Base.Dict.{get, get-put_all, get-nil, first_of_two}
use cloudip.Storage.{Leaf, Value, Stored}
use cloudip.Storage.Key
use cloudip.Build.Merge.{
  same_string, uint_of, max_uint64, texts_of, leaves_of, union_ext, merge_taken, merge_records,
}
use cloudip.Build.Merge.Union.{contains-union_slices, texts_of_leaves-strs}
use cloudip.Build.Merge.Fields.{
  IsKept, provider-IsKept, get_kept, same_provider, categories-merge_taken, services-merge_taken,
  synced_at-merge_taken, ext-merge_taken,
}

-- The record in place, with the others merged into it in order.
unfoldable pub merge_all : Stored → List Stored → Stored
merge_all m [] = m
merge_all m (k ∷ ks) = merge_all (merge_records k (some m)) ks

-- What the merged record should hold, read off the records.
abbrev pub any_category : Text → List Stored → Bool
any_category c [] = false
any_category c (k ∷ ks) = contains (texts_of (get Key.categories k)) c || any_category c ks

abbrev pub any_service : Option Value → Text → List Stored → Bool
any_service p s [] = false
any_service p s (k ∷ ks) =
    (same_string p (get Key.provider k) && contains (texts_of (get Key.services k)) s)
    || any_service p s ks

abbrev pub latest : Option Value → ℕ → List Stored → ℕ
latest p t [] = t
latest p t (k ∷ ks) =
    let u = uint_of (get Key.synced_at k) in
    latest p (if same_string p (get Key.provider k) && ltb t u then u else t) ks

abbrev pub newest_ext : Option Value → Text → Option Leaf → List Stored → Option Leaf
newest_ext p j v [] = v
newest_ext p j v (k ∷ ks) =
    newest_ext p j
      (if same_string p (get Key.provider k)
        then first_of_two (get j (leaves_of (get Key.ext k))) v
        else v)
      ks

pub record IsSummary (m : Stored) (ks : List Stored) (r : Stored) : Type 0 where
  pub kept : (k : Text) → IsKept k → get k r ≡ get k m
  pub categories :
      (c : Text) → contains (texts_of (get Key.categories r)) c ≡ any_category c (m ∷ ks)
  pub services :
      (s : Text)
      → contains (texts_of (get Key.services r)) s
        ≡ (contains (texts_of (get Key.services m)) s || any_service (get Key.provider m) s ks)
  pub synced_at :
      uint_of (get Key.synced_at r) ≡ latest (get Key.provider m) (uint_of (get Key.synced_at m)) ks
  pub ext :
      (j : Text)
      → get j (leaves_of (get Key.ext r))
        ≡ newest_ext (get Key.provider m) j (get j (leaves_of (get Key.ext m))) ks

first_of_two-none : (v : Option Leaf) → first_of_two v none ≡ v
first_of_two-none none = refl
first_of_two-none (some v) = refl

module _ (k m : Stored) where
  one_service :
      (s : Text)
      → contains (texts_of (get Key.services (merge_taken k m))) s ≡ (
          contains (texts_of (get Key.services m)) s
          || (same_provider k m && contains (texts_of (get Key.services k)) s))
  one_service s = elim (Bool-cases (same_provider k m)) [
    | inl e ↦ rw (services-merge_taken, e, texts_of_leaves-strs) (contains-union_slices _ _ s)
    | inr e ↦ rw (services-merge_taken, e) (ground arith)
  ]

  one_synced_at : uint_of (get Key.synced_at (merge_taken k m)) ≡ (
      if same_provider k m && ltb (uint_of (get Key.synced_at m)) (uint_of (get Key.synced_at k))
      then uint_of (get Key.synced_at k)
      else uint_of (get Key.synced_at m))
  unfolding max_uint64
  one_synced_at = elim (Bool-cases (same_provider k m)) [
    | inl e ↦ rw (synced_at-merge_taken, e) refl
    | inr e ↦ rw (synced_at-merge_taken, e) refl
  ]

  one_ext :
      (j : Text)
      → get j (leaves_of (get Key.ext (merge_taken k m))) ≡ (
          if same_provider k m
          then first_of_two (get j (leaves_of (get Key.ext k))) (get j (leaves_of (get Key.ext m)))
          else get j (leaves_of (get Key.ext m)))
  unfolding union_ext
  one_ext j = elim (Bool-cases (same_provider k m)) [
    | inl e ↦
        rw (ext-merge_taken, e)
          (get-put_all j (leaves_of (get Key.ext k)) _
            ∙ ap (first_of_two _)
                (get-put_all j (leaves_of (get Key.ext m)) [] ∙ rw get-nil (first_of_two-none _)))
    | inr e ↦ rw (ext-merge_taken, e) refl
  ]

-- First writer wins on identity; categories are the union over all records; services, time and
-- extensions are those of the records of the first one's provider.
pub merge_all-IsSummary : (m : Stored) (ks : List Stored) → IsSummary m ks (merge_all m ks)
unfolding merge_all merge_records
merge_all-IsSummary m [] = record {
  kept = λ k h. refl;
  categories = λ c. ground arith;
  services = λ s. ground arith;
  synced_at = refl;
  ext = λ j. refl;
}
merge_all-IsSummary m (k ∷ ks) =
    let ih = merge_all-IsSummary (merge_taken k m) ks in
    let same = get_kept k m Key.provider provider-IsKept in
    record {
      kept = λ j h. ih.kept j h ∙ get_kept k m j h;
      categories = λ c. ih.categories c ∙ ground (arith, categories-merge_taken k m c);
      services = λ s. ih.services s ∙ rw (one_service, same) (ground arith);
      synced_at = ih.synced_at ∙ rw (one_synced_at, same) refl;
      ext = λ j. ih.ext j ∙ rw (one_ext, same) refl;
    }
