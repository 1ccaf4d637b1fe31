-- ===== src/Cmd/Build/CloudFirst.antt =====
-- cmd/cloudattr/build.go: a build --with-reputation, whose reputation feeds stand behind the cloud feeds.
use cloudip.Base.{
  ◌<◌, ◌≡◌, refl, ap, ◌∙◌, inl, inr, Bool, true, false, List, [], ◌∷◌, ◌++◌, none, some, Bool-cases,
  Option-cases,
}
use mathlib.Core.Path.{subst}
use cloudip.Base.Outcome.{ok}
use cloudip.Net.Addr.{Addr}
use cloudip.Record.{Item}
use cloudip.Storage.{Stored}
use cloudip.Build.{BuildOptions, build, effective_size, entry_map}
use cloudip.Build.Lookup.{covering, placed, placed_count}
use cloudip.Build.Merge.Summary.{IsSummary}
use cloudip.Build.Result.{Sums, build_lem}
use cloudip.Build.Tree.{tree_contains, TreeWriter, IsLawful, IpNet}
use cloudip.Plugins.Registered.{IsSound}
use cloudip.Cmd.Flags.{BuildFlags}
use cloudip.Cmd.Resolve.{Outside, Digests}
use cloudip.Cmd.Build.{Stream, drained, mode_stream, reputation_stream, build_entries}
use cloudip.Cmd.Build.Drained.{build_entries-reputation}
use cloudip.Cmd.Build.Clean.{is_unified, build_entries-IsClean}

covering-append :
    (accepts : IpNet → Bool) (x : Addr) (xs ys : List Item)
    → covering accepts x (xs ++ ys) ≡ covering accepts x xs ++ covering accepts x ys
covering-append accepts x [] ys = refl
covering-append accepts x ((e, some error) ∷ xs) ys = covering-append accepts x xs ys
covering-append accepts x ((e, none) ∷ xs) ys = elim (Option-cases (placed accepts e)) [
  | inl e0 ↦ rw (e0, covering) (covering-append accepts x xs ys)
  | inr (network, e1) ↦ elim (Bool-cases (tree_contains network x)) [
    | inl hit ↦
        rw (e1, hit, covering)
          (ap (λ ms. entry_map e network ∷ ms) (covering-append accepts x xs ys))
    | inr miss ↦ rw (e1, miss, covering) (covering-append accepts x xs ys)
  ]
]

module _ (W : Outside) (S : IsSound W.decoders) (T : TreeWriter) (L : IsLawful T) where
  -- A build --with-reputation under --keep-going, in a mode of plugins and without --with-asn, of
  -- which a network is taken: wherever a record of the cloud feeds covers an address, the finished
  -- tree holds there the summary that starts from the first of them, with the other cloud records
  -- and then the reputation records behind it; so the provider is that of a cloud record. A record
  -- covers an address whose place in the tree its network holds.
  pub build-cloud_first :
      (f : BuildFlags) (digests : Digests) (opts : BuildOptions) (s r : Stream)
      (entries : List Item) (t : T.State)
      → f.keep_going ≡ true
      → is_unified f ≡ false
      → f.with_asn ≡ false
      → f.with_reputation ≡ true
      → mode_stream W f digests ≡ ok s
      → reputation_stream W f digests ≡ ok r
      → build_entries W f digests ≡ ok entries
      → T.new (effective_size opts) opts.build_epoch ≡ some t
      → 0 < placed_count T.accepts entries
      → ((u : T.State) → T.write_to u ≡ none)
      → (u : T.State) × ((build T entries opts).1 ≡ ok u)
        × ((x : Addr) (m : Stored) (ms : List Stored)
            → covering T.accepts x (drained s).0 ≡ m ∷ ms
            → (slot : Stored) × (T.holds u x ≡ some slot)
              × IsSummary m (ms ++ covering T.accepts x (drained r).0) slot)
  build-cloud_first f digests opts s r entries t going several plain both hs hr h started pos
        writes =
      let clean = build_entries-IsClean W S f digests entries going several h in
      let (u, done, sums, inserted, counted) =
        build_lem T L entries opts t started clean pos writes in
      let split = build_entries-reputation W f digests s r entries both plain hs hr h in
      (
        u,
        done,
        λ x m ms first.
            let lists : covering T.accepts x entries
                ≡ m ∷ (ms ++ covering T.accepts x (drained r).0) =
              ap (covering T.accepts x) split
              ∙ (covering-append T.accepts x (drained s).0 (drained r).0
                  ∙ ap (λ cs. cs ++ covering T.accepts x (drained r).0) first) in
            subst (λ cs. Sums cs (T.holds u x)) lists (sums x),
      )
