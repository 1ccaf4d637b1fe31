-- ===== src/Asn/Built.antt =====
-- attribution/asn.go, attribution/build.go: what `Build` makes of a stream that `EnrichASN` gives.
use mathlib.Core.Path.{subst}
use cloudip.Base.{
  ◌+◌, ◌≤◌, ℕ, ◌-◌, ◌/◌, ◌^◌, ◌<◌, nat_eq, ◌==◌, length, arith, ◌≡◌, refl, ◌∙◌, ap, Bool, true,
  false, Text, List, [], ◌∷◌, map, Option, none, some, All, inl, inr, Bool-cases,
}
use cloudip.Base.Outcome.{ok}
use cloudip.Base.Streams.{keep_all, each-keep_all}
use cloudip.Net.Addr.{Addr, v4, is4_in6, bit_len}
use cloudip.Net.Plain.{size, value, IsPlain}
use cloudip.Net.Prefix.{Prefix, prefix_contains, prefix_valid-len, same_network}
use cloudip.Net.Netipx.{Netipx, IsLawful, IsNetwork}
use cloudip.Record.{Record, Entry, Item}
use cloudip.Storage.{Stored, to_mmdb}
use cloudip.Build.{BuildOptions, build, effective_size, entry_map}
use cloudip.Build.Lookup.{IsClean, covering, placed, placed_count}
use cloudip.Build.Normalize.{normalize_prefix, is_v6_network}
use cloudip.Build.Result.{Sums, build_lem}
use cloudip.Build.Tree
use cloudip.Build.Tree.{tree_contains, tree_network, place, TreeWriter, IpNet, prefix_to_ip_net}
use cloudip.Asn.{AsnRange, AsnTable, new_asn_table}
use cloudip.Asn.StepLaw.{origin}
use cloudip.Asn.Table.{IsRowSort, IsAddress, new_asn_table-IsAsnTable}
use cloudip.Asn.Announced.{Announced, announcements, origin-new_asn_table}
use cloudip.Asn.Enrich.{enrich_asn, stamp}
use cloudip.Asn.Enrich.Pieces.{stream_items, enrich_asn-each}
use cloudip.Asn.Enrich.Cover.{records_at, records_at-append}
use cloudip.Asn.Enrich.Entries.{IsAsnTable, entry_items_at}
use cloudip.Asn.Enrich.Networks.{AreNetworks, AreNetworks-append, entry_items-AreNetworks}

-- The stored form of a record of an IPv4 network.
abbrev pub stored_v4 : Record → Stored
stored_v4 r = to_mmdb r false

v4_native : (a : ℕ) → (is4_in6 (v4 a) ≡ false)
unfolding is4_in6
v4_native a = refl

-- An IPv4 network is left as it is.
normalize-v4 : (p : Prefix) → IsNetwork true p → normalize_prefix p ≡ some p
unfolding normalize_prefix
normalize-v4 p n = rw (n.0.0, v4_native (value p.addr), normalize_prefix) refl

entry_map-v4 :
    (e : Entry) → IsNetwork true e.network → entry_map e e.network ≡ stored_v4 e.attribution
unfolding entry_map is_v6_network to_mmdb
entry_map-v4 e n = rw (n.0.0, entry_map, is_v6_network) refl

AreNetworks-IsClean : (items : List Item) → AreNetworks true items → IsClean items
AreNetworks-IsClean [] h = tt
AreNetworks-IsClean ((e, some error) ∷ items) h = absurd h
AreNetworks-IsClean ((e, none) ∷ items) h = (h.0.1, AreNetworks-IsClean items h.1)

same_place :
    (a n x : ℕ)
    → n ≤ 32
    → tree_contains (record { addr = v4 a; len = some n }) (v4 x)
      ≡ prefix_contains (record { addr = v4 a; len = some n }) (v4 x)
unfolding tree_contains tree_network place prefix_contains same_network
same_place a n x h = let e : 128 - (n + 96) ≡ 32 - n = omega (arith, h) in rw e refl

-- At IPv4 addresses, an IPv4 network of the tree holds what the network holds.
tree_contains-v4 :
    (p : Prefix) (x : ℕ) → IsNetwork true p → tree_contains p (v4 x) ≡ prefix_contains p (v4 x)
tree_contains-v4 p x n =
    let (len, e, le) = prefix_valid-len p n.1 in
    let same : record { addr = v4 (value p.addr); len = some len } ≡ p = cc in
    let small : len ≤ 32 = subst (λ a. len ≤ bit_len a) n.0.0 le in
    subst (λ q. tree_contains q (v4 x) ≡ prefix_contains q (v4 x)) same
      (same_place (value p.addr) len x small)

-- The tree takes every IPv4 network, as one with `IncludeReservedNetworks` does.
abbrev pub AcceptsV4 : (IpNet → Bool) → Type 0
AcceptsV4 accepts = (p : Prefix) → IsNetwork true p → accepts (prefix_to_ip_net p) ≡ true

module _ (accepts : IpNet → Bool) (A : AcceptsV4 accepts) where
  placed-v4 : (e : Entry) → IsNetwork true e.network → placed accepts e ≡ some e.network
  unfolding placed
  placed-v4 e n = rw (normalize-v4 e.network n, A e.network n, placed) refl

  -- What covers an address, of a stream of IPv4 networks.
  covering-v4 :
      (items : List Item) (x : ℕ)
      → AreNetworks true items
      → covering accepts (v4 x) items ≡ map stored_v4 (records_at items (v4 x))
  covering-v4 [] x h = refl
  covering-v4 ((e, some error) ∷ items) x h = absurd h
  covering-v4 ((e, none) ∷ items) x h = elim (Bool-cases (prefix_contains e.network (v4 x))) [
    | inl hit ↦
        rw (placed-v4 e h.0, tree_contains-v4 e.network x h.0, hit, entry_map-v4 e h.0, covering)
          (ap (λ ms. stored_v4 e.attribution ∷ ms) (covering-v4 items x h.1))
    | inr miss ↦
        rw (placed-v4 e h.0, tree_contains-v4 e.network x h.0, miss, covering)
          (covering-v4 items x h.1)
  ]

  -- A stream that gives a record at some address is not empty, and each of its networks is taken.
  placed_count-v4 :
      (items : List Item) (x : ℕ) (r : Record) (rs : List Record)
      → AreNetworks true items
      → records_at items (v4 x) ≡ r ∷ rs
      → 0 < placed_count accepts items
  placed_count-v4 [] x r rs h e = absurd (cc)
  placed_count-v4 ((i, some error) ∷ items) x r rs h e = absurd h
  placed_count-v4 ((i, none) ∷ items) x r rs h e = rw (placed-v4 i h.0, placed_count) (omega arith)

same_block : (k : ℕ) → (k == k) ≡ true
unfolding nat_eq
same_block k = ground arith

same_own : (a : Addr) (len : ℕ) → IsPlain true a → same_network a len (v4 (value a)) ≡ true
unfolding same_network
same_own a len h = rw h.0 (same_block (value a / 2 ^ (32 - len)))

-- A valid IPv4 network holds its own address.
own_address : (p : Prefix) → IsNetwork true p → prefix_contains p (v4 (value p.addr)) ≡ true
unfolding prefix_contains
own_address p n =
    let (len, e, le) = prefix_valid-len p n.1 in rw (e, prefix_contains) (same_own p.addr len n.0)

-- A stream of networks that is not empty gives a record at some address.
some_record :
    (entries : List Item)
    → AreNetworks true entries
    → 0 < length entries
    → (x : ℕ) × (x < size true)
      × (r : Record) × (rs : List Record) × (records_at entries (v4 x) ≡ r ∷ rs)
some_record [] h pos = absurd (omega (arith, pos))
some_record ((e, some error) ∷ entries) h pos = absurd h
some_record ((e, none) ∷ entries) h pos = (
  value e.network.addr,
  h.0.0.1,
  e.attribution,
  records_at entries (v4 (value e.network.addr)),
  rw (own_address e.network h.0) refl,
)

module _ (N : Netipx) (L : IsLawful N) (t : AsnTable) (w : IsAsnTable t) where
  stream-AreNetworks :
      (entries : List Item) → AreNetworks true entries → AreNetworks true (stream_items N entries t)
  unfolding stream_items
  stream-AreNetworks [] h = tt
  stream-AreNetworks ((e, some error) ∷ entries) h = absurd h
  stream-AreNetworks ((e, none) ∷ entries) h =
      AreNetworks-append true _ _
        (entry_items-AreNetworks N L true 0 (omega arith) e e.network t (normalize-v4 e.network h.0)
          h.0 w)
        (stream-AreNetworks entries h.1)

  -- The records of each address are stamped, and keep their order.
  records_at-stream :
      (entries : List Item) (x : ℕ)
      → x < size true
      → AreNetworks true entries
      → records_at (stream_items N entries t) (v4 x)
        ≡ map (λ r. stamp r (origin t.v4 x)) (records_at entries (v4 x))
  unfolding stream_items
  records_at-stream [] x inside h = refl
  records_at-stream ((e, some error) ∷ entries) x inside h = absurd h
  records_at-stream ((e, none) ∷ entries) x inside h =
      let one = entry_items_at N L true x inside e e.network t (normalize-v4 e.network h.0) h.0 w in
      let rest = records_at-stream entries x inside h.1 in
      elim (Bool-cases (prefix_contains e.network (v4 x))) [
        | inl hit ↦ rw (records_at-append, one, rest, hit) refl
        | inr miss ↦ rw (records_at-append, one, rest, miss) refl
      ]

map-map :
    {A B C : Type 0} (g : B → C) (f : A → B) (xs : List A)
    → map g (map f xs) ≡ map (λ x. g (f x)) xs
map-map g f [] = refl
map-map g f (x ∷ xs) = ap (λ ys. g (f x) ∷ ys) (map-map g f xs)

module _ (sort_rows : List AsnRange → List AsnRange) (sorts : IsRowSort sort_rows)
    (rows : List AsnRange) (valid : All (λ r. IsAddress r.first × IsAddress r.last) rows)
    (N : Netipx) (L : IsLawful N) (T : TreeWriter) (M : Tree.IsLawful T)
    (A : AcceptsV4 T.accepts) where
  -- A stream of at least one entry, of IPv4 networks, and any rows, none with a zone: where
  -- `EnrichASN` runs over the stream with the table that `NewASNTable` makes of the rows, and
  -- `Build` over what it yields, with a tree that takes every IPv4 network and can be written, the
  -- build succeeds. At each IPv4 address the tree then holds the summary of the records whose
  -- networks cover the address, in the order of the stream, each stamped with the system and the
  -- organisation of an IPv4 row that covers the address, of those that do one that starts first;
  -- where no such row covers it, they are unstamped; where no network covers it, the tree holds
  -- nothing.
  pub build-enrich_asn :
      (entries : List Item) (opts : BuildOptions) (s : T.State)
      → AreNetworks true entries
      → 0 < length entries
      → T.new (effective_size opts) opts.build_epoch ≡ some s
      → ((u : T.State) → T.write_to u ≡ none)
      → (u : T.State) × ((build T
            (enrich_asn N keep_all entries (new_asn_table sort_rows rows) []).1
            opts).1
          ≡ ok u)
        × ((x : ℕ)
            → x < size true
            → (o : Option (ℕ × Text)) × Announced (announcements true rows) x o
              × Sums
                  (map (λ r. stored_v4 (stamp r o)) (records_at entries (v4 x)))
                  (T.holds u (v4 x)))
  build-enrich_asn entries opts s h pos started writes =
      let t = new_asn_table sort_rows rows in
      let w = new_asn_table-IsAsnTable sort_rows sorts rows valid in
      let items = stream_items N entries t in
      let whole : (enrich_asn N keep_all entries t []).1 ≡ items =
        ap (λ r. r.1)
          (enrich_asn-each N keep_all entries t [] ∙ each-keep_all (stream_items N entries t) []) in
      let v4_items = stream-AreNetworks N L t w entries h in
      let (y, inside, r, rs, some_at) = some_record entries h pos in
      let counted = placed_count-v4 T.accepts A items y _ _ v4_items (
        records_at-stream N L t w entries y inside h
        ∙ ap (map (λ k. stamp k (origin t.v4 y))) some_at) in
      let (u, done, sums, inserted, total) =
        build_lem T M items opts s started (AreNetworks-IsClean items v4_items) counted writes in
      (
        u,
        rw whole done,
        λ x below. (
          origin t.v4 x,
          origin-new_asn_table sort_rows sorts rows valid true x,
          subst (λ ms. Sums ms (T.holds u (v4 x)))
              (covering-v4 T.accepts A items x v4_items
                ∙ (ap (map stored_v4) (records_at-stream N L t w entries x below h)
                    ∙ map-map stored_v4 (λ r. stamp r (origin t.v4 x)) _))
              (sums (v4 x)),
        ),
      )
