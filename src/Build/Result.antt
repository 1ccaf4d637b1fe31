-- ===== src/Build/Result.antt =====
-- The result of `Build` as a whole.
use cloudip.Base.Outcome.{Outcome, ok, err}
use cloudip.Base.{
  ◌+◌, ◌<◌, ◌≡◌, refl, ◌∙◌, ap, false, List, [], ◌∷◌, Option, none, some, length, arith, nat_eq,
  ◌==◌, Bool-cases, Option-cases, inl, inr, if◌then◌else◌,
}
use cloudip.Net.Addr.{Addr}
use cloudip.Net.Prefix.{prefix_valid}
use cloudip.Record.{Item, Error}
use cloudip.Storage.{Stored}
use cloudip.Build.{
  BuildStats, BuildOptions, insert_one, skip_one, entry_map, build_loop, build, finish_build,
  effective_size, stream_error, invalid_network,
}
use cloudip.Build.Normalize.{normalize_prefix}
use cloudip.Build.Merge.{merge_records}
use cloudip.Build.Merge.Summary.{merge_all, IsSummary, merge_all-IsSummary}
use cloudip.Build.Tree.{TreeWriter, IsLawful, prefix_to_ip_net}
use cloudip.Build.Lookup.{covering, placed_count, merged, IsClean, build_loop_lem}

-- The first thing in a stream that ends the loop: an error, or an invalid network.
unfoldable pub first_problem : List Item → Option Error
first_problem [] = none
first_problem ((e, some error) ∷ entries) = some (stream_error error)
first_problem ((e, none) ∷ entries) =
    let rest = first_problem entries in
    if prefix_valid e.network then rest else some (invalid_network e)

merged-merge_all : (m : Stored) (ms : List Stored) → merged (some m) ms ≡ some (merge_all m ms)
unfolding merged merge_all
merged-merge_all m [] = refl
merged-merge_all m (k ∷ ks) = merged-merge_all (merge_records k (some m)) ks

-- What the slot of an address holds: nothing, or the summary of the covering records.
abbrev pub Sums : List Stored → Option Stored → Type 0
Sums [] slot = slot ≡ none
Sums (m ∷ ms) slot = (r : Stored) × (slot ≡ some r) × IsSummary m ms r

pub merged-Sums : (ms : List Stored) → Sums ms (merged none ms)
unfolding merged merge_records
merged-Sums [] = refl
merged-Sums (m ∷ ms) = (merge_all m ms, merged-merge_all m ms, merge_all-IsSummary m ms)

module _ (T : TreeWriter) where
  build_loop_problem :
      (entries : List Item) (s : T.State) (st : BuildStats) {error : Error}
      → first_problem entries ≡ some error
      → (build_loop T s st entries).1 ≡ err error
  unfolding build_loop first_problem
  build_loop_problem [] s st h = absurd (cc)
  build_loop_problem ((e, some error) ∷ entries) s st h = ground arith
  build_loop_problem ((e, none) ∷ entries) s st h = elim (Bool-cases (prefix_valid e.network)) [
    | inr bad ↦ rw (bad, build_loop) (let h' = rw (bad, first_problem) at h in ground arith)
    | inl good ↦
        let h' = rw (good, first_problem) at h in
        elim (Option-cases (normalize_prefix e.network)) [
          | inl e0 ↦ rw (good, e0, build_loop) (build_loop_problem entries s (skip_one st) h')
          | inr (network, e1) ↦
              elim (Option-cases (
                T.insert_func s (prefix_to_ip_net network) (merge_records (entry_map e network)))) [
                  | inl i0 ↦
                      rw (good, e1, i0, build_loop) (build_loop_problem entries s (skip_one st) h')
                  | inr (s1, i1) ↦
                      rw (good, e1, i1, build_loop)
                        (build_loop_problem entries s1 (insert_one st) h')
                ]
        ]
  ]

  finish_problem :
      (r : BuildStats × Outcome T.State) {error : Error}
      → r.1 ≡ err error
      → (finish_build T r).1 ≡ err error
  unfolding finish_build
  finish_problem (st, ok s) h = absurd (cc)
  finish_problem (st, err e) h = h

  finish_done :
      (r : BuildStats × Outcome T.State) (s : T.State)
      → r.1 ≡ ok s
      → (r.0.inserted == 0) ≡ false
      → T.write_to s ≡ none
      → finish_build T r ≡ r
  unfolding finish_build
  finish_done (st, ok s) t h some_in w = ground arith
  finish_done (st, err e) t h some_in w = absurd (cc)

  -- Once the tree is made, a stream with an error, or with an invalid network, ends the build with
  -- the first such error.
  pub build_problem :
      (entries : List Item) (opts : BuildOptions) {s : T.State} {error : Error}
      → T.new (effective_size opts) opts.build_epoch ≡ some s
      → first_problem entries ≡ some error
      → (build T entries opts).1 ≡ err error
  unfolding build
  build_problem entries opts {s} started h =
      rw (started, build)
        (finish_problem _ (build_loop_problem entries s (record { inserted = 0; skipped = 0 }) h))

  -- Over a tree that behaves as documented and can be written, a stream without an error or an
  -- invalid network, of which at least one network is taken, is built whole: at every address the
  -- tree holds the summary of the records that cover it, in stream order, and each entry is counted
  -- once, as inserted or as skipped. A record covers an address whose place in the tree its network
  -- holds: that of an IPv4 address, and of an address in an alias, is in ::/96.
  pub build_lem :
      (L : IsLawful T) (entries : List Item) (opts : BuildOptions) (s : T.State)
      → T.new (effective_size opts) opts.build_epoch ≡ some s
      → IsClean entries
      → 0 < placed_count T.accepts entries
      → ((t : T.State) → T.write_to t ≡ none)
      → (s' : T.State) × ((build T entries opts).1 ≡ ok s')
        × ((x : Addr) → Sums (covering T.accepts x entries) (T.holds s' x))
        × ((build T entries opts).0.inserted ≡ placed_count T.accepts entries)
        × ((build T entries opts).0.inserted + (build T entries opts).0.skipped ≡ length entries)
  unfolding build
  build_lem L entries opts s started clean pos writes =
      let start : BuildStats = record { inserted = 0; skipped = 0 } in
      let (s', done, holds, inserted, counted) = build_loop_lem T L entries s start clean in
      let whole =
        finish_done (build_loop T s start entries) s' done
          (unfold nat_eq in ground (arith, inserted)) (writes s') in
      rw (started, build)
        (
          s',
          ap (λ r. r.1) whole ∙ done,
          λ x.
              rw (holds x, L.holds-new _ _ s x started)
                (merged-Sums (covering T.accepts x entries)),
          ap (λ r. r.0.inserted) whole ∙ omega (arith, inserted),
          rw whole (omega (arith, counted)),
        )
