-- ===== src/Build/Typed.antt =====
-- attribution/build.go: the types of what a built tree holds.
use mathlib.Core.Path.{subst}
use cloudip.Base.{
  ℕ, ◌≡◌, refl, sym, ◌∙◌, ap, inl, inr, ◌⊎◌, false, ◌||◌, Text, text_eq, nat_eq, List, [], ◌∷◌,
  Option, none, some, contains, Bool-cases, Option-cases, arith,
}
use cloudip.Base.Outcome.{Outcome, ok, err}
use cloudip.Base.Dict.{Dict, get, get-nil, get-put_all, first_of_two, put_all}
use cloudip.Base.Sort.{IsStrict}
use cloudip.Net.Addr.{Addr}
use cloudip.Net.Prefix.{Prefix, prefix_valid}
use cloudip.Record.{Item}
use cloudip.Storage.{Leaf, str, uint64, leaf, slice, dict, Stored, StoredRecord, strs, Value}
use cloudip.Storage.Key
use cloudip.Storage.RoundTrip.{IsDecoder, IsTexts, list_value}
use cloudip.Storage.Typed.{IsTyped, to_mmdb-IsTyped, IsTyped-decodes}
use cloudip.Build.{
  BuildStats, BuildOptions, insert_one, skip_one, entry_map, build_loop, build, finish_build,
  effective_size,
}
use cloudip.Build.Normalize.{normalize_prefix}
use cloudip.Build.Tree.{tree_contains, TreeWriter, IsLawful, prefix_to_ip_net}
use cloudip.Build.Merge.{texts_of, union_slices, union_ext, max_uint64, merge_taken, merge_records}
use cloudip.Build.Merge.Union.{contains-union_slices, union_slices-IsStrict, texts_of_leaves-strs}
use cloudip.Build.Merge.Fields.{
  provider-IsKept, region-IsKept, source-IsKept, ipv6-IsKept, get_kept, same_provider,
  services-merge_taken, synced_at-merge_taken, ext-merge_taken, get-categories-merge_taken,
}

nil_of : (ss : List Text) → ((s : Text) → contains ss s ≡ false) → ss ≡ []
nil_of [] h = refl
nil_of (s ∷ ss) h = ground (arith, h s)

pub texts_of-list_value : (ss : List Text) → texts_of (list_value ss) ≡ ss
texts_of-list_value [] = refl
texts_of-list_value (s ∷ ss) = texts_of_leaves-strs (s ∷ ss)

List-cases : (xs : List Text) → (xs ≡ []) ⊎ ((c : Text) × (cs : List Text) × (xs ≡ c ∷ cs))
List-cases [] = inl refl
List-cases (c ∷ cs) = inr (c, cs, refl)

from_either :
    (u v : Option Leaf) (l : Leaf)
    → first_of_two u (first_of_two v none) ≡ some l
    → (u ≡ some l) ⊎ (v ≡ some l)
from_either (some x) v l h = inl h
from_either none (some x) l h = inr h
from_either none none l h = absurd (cc)

union_ext-IsTexts :
    (a b : Dict Leaf) → IsTexts a → IsTexts b → IsTexts (union_ext (some (dict a)) (some (dict b)))
unfolding union_ext
union_ext-IsTexts a b ha hb k l h =
    let read =
      get-put_all k b (put_all a [])
      ∙ ap (first_of_two (get k b))
          (get-put_all k a [] ∙ ap (first_of_two (get k a)) (get-nil {V = Leaf} k)) in
    elim (from_either (get k b) (get k a) l (sym read ∙ h)) [
      | inl eb ↦ hb k l eb
      | inr ea ↦ ha k l ea
    ]

-- The categories of a merge, as `list_value` has them.
united_categories :
    (cats cs ks : List Text) (v : Option Value)
    → v ≡ list_value cs
    → ((s : Text) → contains cats s ≡ (contains (texts_of v) s || contains ks s))
    → (elim cats [ [] ↦ v | c ∷ rest ↦ some (slice (strs (c ∷ rest))) ]) ≡ list_value cats
united_categories [] cs ks v e h =
    let same : texts_of v ≡ cs = ap texts_of e ∙ texts_of-list_value cs in
    e ∙ ap list_value (nil_of cs (λ s. ground (arith, h s, same)))
united_categories (c ∷ rest) cs ks v e h = refl

module _ (k m : Stored) (tk : IsTyped k) (tm : IsTyped m) where
  merged_services :
      (ss : List Text) × (get Key.services (merge_taken k m) ≡ some (slice (strs ss))) × IsStrict ss
  merged_services = elim (Bool-cases (same_provider k m)) [
    | inr e ↦ rw (services-merge_taken, e) tm.services
    | inl e ↦
        rw (services-merge_taken, e)
          (
            union_slices (get Key.services m) (get Key.services k),
            refl,
            union_slices-IsStrict (get Key.services m) (get Key.services k),
          )
  ]

  merged_categories :
      (ss : List Text) × (get Key.categories (merge_taken k m) ≡ list_value ss) × IsStrict ss
  merged_categories =
      let cats = union_slices (get Key.categories m) (get Key.categories k) in
      (
        cats,
        get-categories-merge_taken k m
            ∙ united_categories cats tm.categories.0 (texts_of (get Key.categories k))
                (get Key.categories m) tm.categories.1
                (contains-union_slices (get Key.categories m) (get Key.categories k)),
        union_slices-IsStrict (get Key.categories m) (get Key.categories k),
      )

  merged_synced_at : (n : ℕ) × (get Key.synced_at (merge_taken k m) ≡ some (leaf (uint64 n)))
  merged_synced_at = elim (Bool-cases (same_provider k m)) [
    | inr e ↦ rw (synced_at-merge_taken, e) tm.synced_at
    | inl e ↦
        rw (synced_at-merge_taken, e) (max_uint64 (get Key.synced_at m) (get Key.synced_at k), refl)
  ]

  merged_ext : (d : Dict Leaf) × (get Key.ext (merge_taken k m) ≡ some (dict d)) × IsTexts d
  merged_ext = elim (Bool-cases (same_provider k m)) [
    | inr e ↦ rw (ext-merge_taken, e) tm.ext
    | inl e ↦
        rw (ext-merge_taken, e, tm.ext.1, tk.ext.1)
          (
            union_ext (some (dict tm.ext.0)) (some (dict tk.ext.0)),
            refl,
            union_ext-IsTexts tm.ext.0 tk.ext.0 tm.ext.2 tk.ext.2,
          )
  ]

  -- A merge of two records of these types.
  merge_taken-IsTyped : IsTyped (merge_taken k m)
  merge_taken-IsTyped = record {
    provider = (tm.provider.0, get_kept k m Key.provider provider-IsKept ∙ tm.provider.1);
    region = (tm.region.0, get_kept k m Key.region region-IsKept ∙ tm.region.1);
    services = merged_services;
    categories = merged_categories;
    ipv6 = (tm.ipv6.0, get_kept k m Key.ipv6 ipv6-IsKept ∙ tm.ipv6.1);
    source = (tm.source.0, get_kept k m Key.source source-IsKept ∙ tm.source.1);
    synced_at = merged_synced_at;
    ext = merged_ext;
  }

module _ (T : TreeWriter) (L : IsLawful T) where
  -- What the tree holds anywhere has these types.
  abbrev pub HoldsTyped : T.State → Type 0
  HoldsTyped s = (x : Addr) (r : Stored) → T.holds s x ≡ some r → IsTyped r

  inserted-IsTyped :
      (k : Stored) (slot : Option Stored)
      → IsTyped k
      → ((r : Stored) → slot ≡ some r → IsTyped r)
      → IsTyped (merge_records k slot)
  unfolding merge_records
  inserted-IsTyped k none tk h = tk
  inserted-IsTyped k (some m) tk h = merge_taken-IsTyped k m tk (h m refl)

  insert-HoldsTyped :
      (s s' : T.State) (network : Prefix) (k : Stored)
      → IsTyped k
      → HoldsTyped s
      → T.insert_func s (prefix_to_ip_net network) (merge_records k) ≡ some s'
      → HoldsTyped s'
  insert-HoldsTyped s s' network k tk h done x r held =
      elim (Bool-cases (T.accepts (prefix_to_ip_net network))) [
        | inr no_place ↦ absurd (let e = L.refused s network (merge_records k) no_place in cc)
        | inl place ↦
            let (s1, e, after) = L.accepted s network (merge_records k) place in
            let same : s1 ≡ s' = cc in
            let now : T.holds s1 x ≡ some r = ap (λ t. T.holds t x) same ∙ held in
            elim (Bool-cases (tree_contains network x)) [
              | inr miss ↦ h x r (sym (after x ∙ rw miss refl) ∙ now)
              | inl hit ↦
                  (let whole : some (merge_records k (T.holds s x)) ≡ some r =
                      sym (after x ∙ rw hit refl) ∙ now in
                    let e : merge_records k (T.holds s x) ≡ r = cc in
                    subst IsTyped e (inserted-IsTyped k (T.holds s x) tk (h x)))
            ]
      ]

  pub ok_inj : (s s' : T.State) → ◌≡◌ {A = Outcome T.State} (ok s) (ok s') → s ≡ s'
  ok_inj s s' h = cc

  build_loop-HoldsTyped :
      (entries : List Item) (s s' : T.State) (st : BuildStats)
      → HoldsTyped s
      → (build_loop T s st entries).1 ≡ ok s'
      → HoldsTyped s'
  unfolding build_loop
  build_loop-HoldsTyped [] s s' st h done =
      let e : s ≡ s' = ok_inj s s' done in subst HoldsTyped e h
  build_loop-HoldsTyped ((e, some error) ∷ entries) s s' st h done = absurd (cc)
  build_loop-HoldsTyped ((e, none) ∷ entries) s s' st h done =
      elim (Bool-cases (prefix_valid e.network)) [
        | inr bad ↦ absurd (let d = rw (bad, build_loop) at done in cc)
        | inl good ↦ elim (Option-cases (normalize_prefix e.network)) [
          | inl e0 ↦
              build_loop-HoldsTyped entries s s' (skip_one st) h (rw (good, e0, build_loop) at done)
          | inr (network, e1) ↦
              elim (Option-cases (
                T.insert_func s (prefix_to_ip_net network) (merge_records (entry_map e network)))) [
                  | inl i0 ↦
                      build_loop-HoldsTyped entries s s' (skip_one st) h
                        (rw (good, e1, i0, build_loop) at done)
                  | inr (s1, i1) ↦
                      build_loop-HoldsTyped entries s1 s' (insert_one st)
                        (insert-HoldsTyped s s1 network (entry_map e network)
                          (unfold entry_map in to_mmdb-IsTyped _ _) h i1)
                        (rw (good, e1, i1, build_loop) at done)
                ]
        ]
      ]

  pub finish_ok :
      (r : BuildStats × Outcome T.State) {s : T.State} → (finish_build T r).1 ≡ ok s → r.1 ≡ ok s
  unfolding finish_build
  finish_ok (st, err e) h = absurd (cc)
  finish_ok (st, ok t) h = ground (arith, Option-cases (T.write_to t))

  pub build-HoldsTyped :
      (entries : List Item) (opts : BuildOptions) (s : T.State)
      → (build T entries opts).1 ≡ ok s
      → HoldsTyped s
  unfolding build
  build-HoldsTyped entries opts s done =
      elim (Option-cases (T.new (effective_size opts) opts.build_epoch)) [
        | inl e0 ↦ absurd (let d = rw (e0, build) at done in cc)
        | inr (s0, e1) ↦
            build_loop-HoldsTyped entries s0 s (record { inserted = 0; skipped = 0 })
              (λ y q h. absurd (let e = L.holds-new _ _ s0 y e1 in cc))
              (finish_ok _ (rw (e1, build) at done))
      ]

  -- Over a tree that behaves as documented, whatever the stream: where a build succeeds, each record
  -- that the finished tree holds, at whatever address, is decoded by a decoder that behaves as
  -- documented; it has the stored provider, and services and categories strictly sorted.
  pub build-IsTyped :
      (decode : Stored → Outcome StoredRecord) (D : IsDecoder decode) (entries : List Item)
      (opts : BuildOptions) (s : T.State)
      → (build T entries opts).1 ≡ ok s
      → (x : Addr) (r : Stored) → T.holds s x ≡ some r
      → (t : StoredRecord) × (decode r ≡ ok t)
        × (get Key.provider r ≡ some (leaf (str t.provider)))
        × IsStrict t.services
        × IsStrict t.categories
  build-IsTyped decode D entries opts s done x r held =
      IsTyped-decodes decode D r (build-HoldsTyped entries opts s done x r held)
