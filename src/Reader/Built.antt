-- ===== src/Reader/Built.antt =====
-- attribution/reader.go, attribution/build.go: what `Lookup` answers in the file of a finished build.
use mathlib.Core.Path.{subst}
use cloudip.Base.{
  ◌≡◌, refl, sym, ◌∙◌, ap, inl, inr, true, false, List, [], ◌∷◌, map, Option, none, some,
  Bool-cases, Option-cases, ℕ,
}
use cloudip.Base.Outcome.{Outcome, ok}
use cloudip.Net.Addr.{Addr, v4, unmap}
use cloudip.Net.Prefix.{Prefix, prefix_valid}
use cloudip.Record.{Record, Item}
use cloudip.Storage.{Stored, StoredRecord, to_record}
use cloudip.Storage.RoundTrip.{IsDecoder}
use cloudip.Build.{BuildOptions, build, effective_size}
use cloudip.Build.Attributed.{IsAttribution, holders, stored_form, covering-holders, decoded_lem}
use cloudip.Build.Lookup.{IsClean, covering, build_loop_lem}
use cloudip.Build.Result.{Sums, first_problem, build_problem, merged-Sums}
use cloudip.Build.Tree.{TreeWriter, IsLawful}
use cloudip.Build.Typed.{HoldsTyped, build-HoldsTyped, finish_ok, ok_inj}
use cloudip.Reader.{Reader, Result, Db, lookup, unmap_prefix, with_network}

-- What package `maxminddb` answers at IPv4 addresses, as such or as IPv4-mapped ones, in a file that
-- a tree was written to: without an error, what the tree holds there, decoded.
pub record Answers (T : TreeWriter) (decode : Stored → Outcome StoredRecord) (u : T.State)
    (r : Reader) : Type 0 where
  pub no_error : (ip : Addr) (n : ℕ) → unmap ip ≡ v4 n → Result.error (r.lookup ip) ≡ none
  pub absent :
      (ip : Addr) (n : ℕ)
      → unmap ip ≡ v4 n
      → T.holds u (v4 n) ≡ none
      → Result.found (r.lookup ip) ≡ false
  pub present :
      (ip : Addr) (n : ℕ) (slot : Stored)
      → unmap ip ≡ v4 n
      → T.holds u (v4 n) ≡ some slot
      → (Result.found (r.lookup ip) ≡ true) × (Result.decode (r.lookup ip) ≡ decode slot)

no_problem : (entries : List Item) → first_problem entries ≡ none → IsClean entries
unfolding first_problem
no_problem [] h = tt
no_problem ((e, some error) ∷ entries) h = absurd (cc)
no_problem ((e, none) ∷ entries) h = elim (Bool-cases (prefix_valid e.network)) [
  | inr bad ↦ absurd (let h' = rw (bad, first_problem) at h in cc)
  | inl good ↦ (good, no_problem entries (rw (good, first_problem) at h))
]

-- What should be answered, by the records that cover the address.
abbrev pub IsAnswer : List Record → Outcome (Option Record) → Type 0
IsAnswer [] a = a ≡ ok none
IsAnswer (r ∷ rs) a = (q : Record) × (a ≡ ok (some q)) × IsAttribution r rs q

module _ (T : TreeWriter) (L : IsLawful T) where
  -- A build that succeeds had a stream without errors.
  built-IsClean :
      (entries : List Item) (opts : BuildOptions) (s0 u : T.State)
      → T.new (effective_size opts) opts.build_epoch ≡ some s0
      → (build T entries opts).1 ≡ ok u
      → IsClean entries
  built-IsClean entries opts s0 u started done = elim (Option-cases (first_problem entries)) [
    | inl e0 ↦ no_problem entries e0
    | inr (error, e1) ↦ absurd (let bad = build_problem T entries opts started e1 in cc)
  ]

  built-Sums :
      (entries : List Item) (opts : BuildOptions) (u : T.State) (x : Addr)
      → (build T entries opts).1 ≡ ok u
      → Sums (covering T.accepts x entries) (T.holds u x)
  unfolding build
  built-Sums entries opts u x done =
      elim (Option-cases (T.new (effective_size opts) opts.build_epoch)) [
        | inl e0 ↦ absurd (let d = rw (e0, build) at done in cc)
        | inr (s0, e1) ↦
            let (u', looped, holds, _, _) =
              build_loop_lem T L entries s0 (record { inserted = 0; skipped = 0 })
                (built-IsClean entries opts s0 u e1 done) in
            let same : u' ≡ u =
              ok_inj T L u' u (sym looped ∙ finish_ok T L _ (rw (e1, build) at done)) in
            subst (Sums (covering T.accepts x entries))
              (sym (holds x ∙ rw (L.holds-new _ _ s0 x e1) refl) ∙ ap (λ s. T.holds s x) same)
              (merged-Sums (covering T.accepts x entries))
      ]

  IsAttribution-network :
      (r q : Record) (rs : List Record) (p : Prefix)
      → IsAttribution r rs q
      → IsAttribution r rs (with_network q p)
  IsAttribution-network r q rs p h = record {
    provider = h.provider;
    region = h.region;
    source = h.source;
    ipv6 = h.ipv6;
    categories = h.categories;
    services = h.services;
    sorted = h.sorted;
  }

  module _ (decode : Stored → Outcome StoredRecord) (D : IsDecoder decode) (u : T.State) (d : Db)
      (A : Answers T decode u d.r) (ip : Addr) (n : ℕ) (is_v4 : unmap ip ≡ v4 n) where
    lookup-present :
        (r : Record) (rs : List Record)
        → HoldsTyped T L u
        → Sums (map stored_form (r ∷ rs)) (T.holds u (v4 n))
        → IsAnswer (r ∷ rs) (lookup d ip)
    unfolding lookup
    lookup-present r rs typed (slot, held, summary) =
        let (s, decoded, whole) = decoded_lem decode D r rs slot (typed (v4 n) slot held) summary in
        let (found, same) = A.present ip n slot is_v4 held in
        (
          with_network (to_record s) (unmap_prefix (Result.prefix (d.r.lookup ip))),
          rw (A.no_error ip n is_v4, found, same, decoded, lookup) refl,
          IsAttribution-network r (to_record s) rs _ whole,
        )

    lookup-holders :
        (rs : List Record)
        → HoldsTyped T L u
        → Sums (map stored_form rs) (T.holds u (v4 n))
        → IsAnswer rs (lookup d ip)
    unfolding lookup
    lookup-holders [] typed nothing =
        rw (A.no_error ip n is_v4, A.absent ip n is_v4 nothing, lookup) refl
    lookup-holders (r ∷ rs) typed sums = lookup-present r rs typed sums

    -- Whatever the stream: where a build succeeds, and package `maxminddb` answers in the file as
    -- documented, a lookup of an IPv4 address, as such or mapped, finds no record where none of the
    -- networks that the tree took covers the address. Else it finds one that has the provider, the
    -- region, the source and the family of the first entry of the stream whose network does, the
    -- categories of all such entries, and the services of those of them that are of the same
    -- provider, the lists strictly sorted. An IPv6 network covers an IPv4 address too if it holds the
    -- address's place in the tree, in ::/96.
    pub lookup-build :
        (entries : List Item) (opts : BuildOptions)
        → (build T entries opts).1 ≡ ok u
        → IsAnswer (holders T.accepts (v4 n) entries) (lookup d ip)
    lookup-build entries opts done =
        lookup-holders (holders T.accepts (v4 n) entries) (build-HoldsTyped T L entries opts u done)
          (subst (λ ms. Sums ms (T.holds u (v4 n))) (covering-holders T.accepts (v4 n) entries)
            (built-Sums entries opts u (v4 n) done))
