-- ===== src/Feed/Rezmoss.antt =====
-- attribution/rezmoss.go: the decoders of the rezmoss mirror. The JSON decoder is a parameter: what
-- its first token, and then each element of the array, decodes to.
use cloudip.Base.{
  ◌≡◌, ◌⊎◌, ap, arith, refl, inl, inr, Bool, true, false, not, Text, codes, text_eq, ◌==◌, List, [],
  ◌∷◌, Option, none, some, if◌then◌else◌, contains, All, Bool-cases,
}
use cloudip.Base.Outcome.{Outcome, ok, err, Outcome-cases}
use cloudip.Base.Streams.{Yield}
use cloudip.Net.Addr.{Addr, bit_len}
use cloudip.Net.Prefix.{Prefix, prefix_from, no_prefix}
use cloudip.Record.{Record, Item, Time, zero_time}
use cloudip.Feed.{Source, ParseFunc, Reader, no_entry, collect_feed}

-- `rezmossEntry`
pub record RezmossEntry : Type 0 where
  pub ip_address : Text
  pub ip_type : Text
  pub service : Text
  pub region : Text

-- `rezmossAllEntry`
pub record RezmossAllEntry : Type 0 where
  pub cidr : Text
  pub ip_version : Text
  pub provider : Text
  pub service : Text
  pub region : Text
  pub last_updated : Text

-- `json.Decoder` on an array: an error in the first token, or the elements up to the first that
-- does not decode.
abbrev pub Decoded : Type 0 → Type 0
Decoded A = Outcome (List (Outcome A))

-- "GLOBAL" stands where the provider gives no region.
unfoldable pub region_of : Text → Text
region_of region = if region == codes "GLOBAL" then [] else region

empty_differs : ([] == codes "GLOBAL") ≡ false
unfolding text_eq
empty_differs = refl

region_of_lem : (region : Text) → (region_of region == codes "GLOBAL") ≡ false
unfolding region_of
region_of_lem region = elim (Bool-cases (region == codes "GLOBAL")) [
  | inl e ↦ rw (e, region_of) empty_differs
  | inr e ↦ rw (e, region_of) e
]

abbrev pub rezmoss_all_ref : Text
rezmoss_all_ref = codes "all_providers/all_providers.json"

unfoldable pub plain_record : Text → Text → List Text → Text → Time → Record
plain_record provider region services source synced_at = record {
  provider = provider;
  region = region;
  services = services;
  categories = [];
  ipv6 = false;
  source = source;
  synced_at = synced_at;
  ext = [];
  network = no_prefix;
}

-- `netip.ParsePrefix`, `netip.ParseAddr` and `time.Parse` with the mirror's layout.
module _ (parse_prefix : Text → Outcome Prefix) (parse_addr : Text → Outcome Addr)
    (parse_time : Text → Option Time) where
  unfoldable pub parse_rezmoss_prefix : Text → Outcome Prefix
  parse_rezmoss_prefix s = elim (parse_prefix s) [
    | ok pre ↦ ok pre
    | err e ↦ elim (parse_addr s) [ err _ ↦ err e | ok addr ↦ ok (prefix_from addr (bit_len addr)) ]
  ]

  unfoldable pub parse_rezmoss_time : Text → Time
  parse_rezmoss_time [] = zero_time
  parse_rezmoss_time (c ∷ s) = elim (parse_time (c ∷ s)) [ some t ↦ t | none ↦ zero_time ]

  unfoldable pub service_of : RezmossEntry → Text
  service_of re = if re.service == [] then re.ip_type else re.service

  -- The loop of `ParseRezmoss`, on what it yields to a consumer that wants all.
  unfoldable pub rezmoss_items : Text → Text → List (Outcome RezmossEntry) → List Item
  rezmoss_items provider ref [] = []
  rezmoss_items provider ref (err e ∷ rest) = (no_entry, some e) ∷ []
  rezmoss_items provider ref (ok re ∷ rest) = elim (parse_rezmoss_prefix re.ip_address) [
    | err e ↦ (no_entry, some e) ∷ rezmoss_items provider ref rest
    | ok pre ↦
        (
          record {
            network = pre;
            attribution =
                plain_record provider (region_of re.region) (service_of re ∷ []) ref zero_time;
          },
          none,
        )
        ∷ rezmoss_items provider ref rest
  ]

  unfoldable pub parse_rezmoss : (Reader → Decoded RezmossEntry) → Text → ParseFunc
  parse_rezmoss decode provider ref r = elim (decode r) [
    | err e ↦ (no_entry, some e) ∷ []
    | ok elements ↦ rezmoss_items provider ref elements
  ]

  -- `len(filter) > 0 && !filter[re.Provider]`
  unfoldable pub is_filtered : List Text → Text → Bool
  is_filtered [] provider = false
  is_filtered (p ∷ filter) provider = not (contains (p ∷ filter) provider)

  unfoldable pub services_of : Text → List Text
  services_of [] = []
  services_of (c ∷ s) = (c ∷ s) ∷ []

  -- The loop of `ParseRezmossAll`
  unfoldable pub rezmoss_all_items : List Text → Text → List (Outcome RezmossAllEntry) → List Item
  rezmoss_all_items filter ref [] = []
  rezmoss_all_items filter ref (err e ∷ rest) = (no_entry, some e) ∷ []
  rezmoss_all_items filter ref (ok re ∷ rest) =
      let others = rezmoss_all_items filter ref rest in
      if is_filtered filter re.provider then others else (elim (parse_rezmoss_prefix re.cidr) [
        | err e ↦ (no_entry, some e) ∷ others
        | ok pre ↦
            (
              record {
                network = pre;
                attribution =
                    plain_record re.provider (region_of re.region) (services_of re.service) ref
                      (parse_rezmoss_time re.last_updated);
              },
              none,
            )
            ∷ others
      ])

  unfoldable pub parse_rezmoss_all : (Reader → Decoded RezmossAllEntry) → List Text → ParseFunc
  parse_rezmoss_all decode filter ref r = elim (decode r) [
    | err e ↦ (no_entry, some e) ∷ []
    | ok elements ↦ rezmoss_all_items filter ref elements
  ]

  -- `CollectRezmossAll`; `false` from the consumer ends the only feed there is.
  unfoldable pub collect_rezmoss_all :
      (Reader → Decoded RezmossAllEntry)
      → Source
      → List Text
      → {S : Type 0} → Yield Item S
      → S
      → Bool × S
  collect_rezmoss_all decode src providers yield s =
      collect_feed (codes "rezmoss-all")
        (record { ref = rezmoss_all_ref; source = src; parse = parse_rezmoss_all decode providers })
        yield s

  -- An error, or an entry of a provider asked for.
  pub IsAskedFor : List Text → Text → Item → Type 0
  IsAskedFor filter ref (e, some perr) = Unit
  IsAskedFor filter ref (e, none) =
      ((filter ≡ []) ⊎ (contains filter e.attribution.provider ≡ true))
      × (e.attribution.source ≡ ref)
      × ((e.attribution.region == codes "GLOBAL") ≡ false)

  -- The elements of the providers named, or all where none is; and the errors.
  abbrev pub asked : List Text → List (Outcome RezmossAllEntry) → List (Outcome RezmossAllEntry)
  asked filter [] = []
  asked filter (err e ∷ rest) = err e ∷ asked filter rest
  asked [] (ok re ∷ rest) = ok re ∷ asked [] rest
  asked (p ∷ filter) (ok re ∷ rest) =
      if contains (p ∷ filter) re.provider
      then ok re ∷ asked (p ∷ filter) rest
      else asked (p ∷ filter) rest

  abbrev entry_of : Text → RezmossAllEntry → Prefix → Item
  entry_of ref re pre = (
    record {
      network = pre;
      attribution =
          plain_record re.provider (region_of re.region) (services_of re.service) ref
            (parse_rezmoss_time re.last_updated);
    },
    none,
  )

  not_filtered :
      (filter : List Text) (provider : Text)
      → is_filtered filter provider ≡ false
      → (filter ≡ []) ⊎ (contains filter provider ≡ true)
  unfolding is_filtered
  not_filtered [] provider h = inl refl
  not_filtered (p ∷ filter) provider h = inr (ground arith)

  asked-step :
      (filter : List Text) (re : RezmossAllEntry) (rest : List (Outcome RezmossAllEntry))
      → asked filter (ok re ∷ rest)
        ≡ (if is_filtered filter re.provider then asked filter rest else ok re ∷ asked filter rest)
  unfolding is_filtered
  asked-step [] re rest = refl
  asked-step (p ∷ filter) re rest = elim (Bool-cases (contains (p ∷ filter) re.provider)) [
    | inl e ↦ rw e refl
    | inr e ↦ rw e refl
  ]

  -- What `ParseRezmossAll` yields is what it would yield without a filter of the elements that are of
  -- the providers named, all of them where none is named. Each entry is of such a provider, and
  -- carries the reference as its source and no region "GLOBAL".
  pub rezmoss_all_items-IsAskedFor :
      (filter : List Text) (ref : Text) (elements : List (Outcome RezmossAllEntry))
      → (rezmoss_all_items filter ref elements ≡ rezmoss_all_items [] ref (asked filter elements))
        × All (IsAskedFor filter ref) (rezmoss_all_items filter ref elements)
  unfolding rezmoss_all_items IsAskedFor plain_record is_filtered
  rezmoss_all_items-IsAskedFor filter ref [] = (refl, tt)
  rezmoss_all_items-IsAskedFor filter ref (err e ∷ rest) = (refl, (tt, tt))
  rezmoss_all_items-IsAskedFor filter ref (ok re ∷ rest) =
      let (same, each) = rezmoss_all_items-IsAskedFor filter ref rest in
      let step = asked-step filter re rest in
      elim (Bool-cases (is_filtered filter re.provider)) [
        | inl out ↦ rw (step, out, rezmoss_all_items) (same, each)
        | inr wanted ↦ elim (Outcome-cases (parse_rezmoss_prefix re.cidr)) [
          | inr (e, e1) ↦
              rw (step, wanted, e1, rezmoss_all_items)
                (ap (λ items. (no_entry, some e) ∷ items) same, (tt, each))
          | inl (pre, e1) ↦
              rw (step, wanted, e1, rezmoss_all_items)
                (
                  ap (λ items. entry_of ref re pre ∷ items) same,
                  ((not_filtered filter re.provider wanted, refl, region_of_lem re.region), each),
                )
        ]
      ]
