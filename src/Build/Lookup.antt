-- ===== src/Build/Lookup.antt =====
-- What a finished build holds at an address: the records of the networks that cover it, merged in
-- the order of the stream. `covering` is that list, read off the stream: a network covers an address
-- whose place in the tree it holds.
use cloudip.Base.Outcome.{ok}
use cloudip.Base.{
  ℕ, ◌+◌, ◌≡◌, refl, ◌∙◌, Bool, true, List, [], ◌∷◌, Option, none, some, if◌then◌else◌, length,
  arith, Bool-cases, Option-cases, inl, inr,
}
use cloudip.Net.Addr.{Addr}
use cloudip.Net.Prefix.{Prefix, prefix_valid}
use cloudip.Record.{Entry, Item}
use cloudip.Storage.{Stored}
use cloudip.Build.{BuildStats, insert_one, skip_one, entry_map, build_loop}
use cloudip.Build.Normalize.{normalize_prefix}
use cloudip.Build.Merge.{merge_records}
use cloudip.Build.Tree.{tree_contains, TreeWriter, IsLawful, IpNet, prefix_to_ip_net}

module _ (accepts : IpNet → Bool) where
  -- The network under which an entry is inserted, if it is.
  unfoldable pub placed : Entry → Option Prefix
  placed e = elim (normalize_prefix e.network) [
    | none ↦ none
    | some network ↦ if accepts (prefix_to_ip_net network) then some network else none
  ]

  abbrev pub covering : Addr → List Item → List Stored
  covering x [] = []
  covering x ((e, some error) ∷ entries) = covering x entries
  covering x ((e, none) ∷ entries) = elim (placed e) [
    | none ↦ covering x entries
    | some network ↦
        if tree_contains network x
        then entry_map e network ∷ covering x entries
        else covering x entries
  ]

  abbrev pub placed_count : List Item → ℕ
  placed_count [] = 0
  placed_count ((e, some error) ∷ entries) = placed_count entries
  placed_count ((e, none) ∷ entries) = elim (placed e) [
    | none ↦ placed_count entries
    | some network ↦ placed_count entries + 1
  ]

placed-eq-some :
    (accepts : IpNet → Bool) (e : Entry) (network : Prefix)
    → placed accepts e ≡ some network
    → (normalize_prefix e.network ≡ some network) × (accepts (prefix_to_ip_net network) ≡ true)
unfolding placed
placed-eq-some accepts e network h = ground arith

-- The records merged one after another into what a slot holds.
unfoldable pub merged : Option Stored → List Stored → Option Stored
merged slot [] = slot
merged slot (m ∷ ms) = merged (some (merge_records m slot)) ms

-- A stream with no error and no invalid network.
abbrev pub IsClean : List Item → Type 0
IsClean [] = Unit
IsClean ((e, some error) ∷ entries) = ⊥
IsClean ((e, none) ∷ entries) = (prefix_valid e.network ≡ true) × IsClean entries

module _ (T : TreeWriter) (L : IsLawful T) where
  -- One round: an entry that is not placed is skipped, one that is placed is merged.
  round_unplaced :
      (e : Entry) (entries : List Item) (s : T.State) (st : BuildStats)
      → prefix_valid e.network ≡ true
      → placed T.accepts e ≡ none
      → build_loop T s st ((e, none) ∷ entries) ≡ build_loop T s (skip_one st) entries
  unfolding build_loop placed
  round_unplaced e entries s st valid h = elim (Option-cases (normalize_prefix e.network)) [
    | inl e0 ↦ rw (valid, e0, build_loop) refl
    | inr (network, e1) ↦
        let h' = rw (e1, placed) at h in
        elim (Bool-cases (T.accepts (prefix_to_ip_net network))) [
          | inl a ↦ absurd (cc)
          | inr a ↦ rw (valid, e1, L.refused s network _ a, build_loop) refl
        ]
  ]

  -- The state behind a round that inserts.
  Placed : Entry → Prefix → T.State → T.State → Type 0
  Placed e network s s' =
      (x : Addr)
      → T.holds s' x ≡ (
          if tree_contains network x
          then some (merge_records (entry_map e network) (T.holds s x))
          else T.holds s x)

  Placed-at :
      (e : Entry) (network : Prefix) (s s1 : T.State)
      → Placed e network s s1
      → (x : Addr) (rest : List Stored)
      → merged (T.holds s1 x) rest
        ≡ merged
            (T.holds s x)
            (if tree_contains network x then entry_map e network ∷ rest else rest)
  unfolding Placed merged
  Placed-at e network s s1 after x rest = elim (Bool-cases (tree_contains network x)) [
    | inl hit ↦ rw hit (rw (after x, hit) refl)
    | inr miss ↦ rw miss (rw (after x, miss) refl)
  ]

  round_placed :
      (e : Entry) (network : Prefix) (entries : List Item) (s : T.State) (st : BuildStats)
      → prefix_valid e.network ≡ true
      → placed T.accepts e ≡ some network
      → (s' : T.State) × (build_loop T s st ((e, none) ∷ entries)
          ≡ build_loop T s' (insert_one st) entries)
        × Placed e network s s'
  unfolding build_loop Placed
  round_placed e network entries s st valid h =
      let (e1, a) = placed-eq-some T.accepts e network h in
      let (s', inserted, after) = L.accepted s network (merge_records (entry_map e network)) a in
      (s', rw (valid, e1, inserted, build_loop) refl, after)

  -- The loop reads a clean stream to its end; the tree then holds the merge of the covering records
  -- at every address, and each entry is counted once, as inserted or as skipped.
  pub build_loop_lem :
      (entries : List Item) (s : T.State) (st : BuildStats)
      → IsClean entries
      → (s' : T.State) × ((build_loop T s st entries).1 ≡ ok s')
        × ((x : Addr) → T.holds s' x ≡ merged (T.holds s x) (covering T.accepts x entries))
        × ((build_loop T s st entries).0.inserted ≡ st.inserted + placed_count T.accepts entries)
        × ((build_loop T s st entries).0.inserted + (build_loop T s st entries).0.skipped
            ≡ st.inserted + st.skipped + length entries)
  unfolding merged
  build_loop_lem [] s st c = (
    s,
    unfold build_loop in refl,
    λ x. refl,
    unfold build_loop in omega arith,
    unfold build_loop in omega arith,
  )
  build_loop_lem ((e, some error) ∷ entries) s st c = absurd c
  build_loop_lem ((e, none) ∷ entries) s st c = elim (Option-cases (placed T.accepts e)) [
    | inl e0 ↦
        let (s', done, holds, inserted, counted) = build_loop_lem entries s (skip_one st) c.1 in
        rw (round_unplaced e entries s st c.0 e0) (
          s',
          done,
          λ x. holds x ∙ rw (e0, covering) refl,
          inserted ∙ rw (e0, placed_count) refl,
          omega (arith, counted),
        )
    | inr (network, e1) ↦
        let (s1, step, after) = round_placed e network entries s st c.0 e1 in
        let (s', done, holds, inserted, counted) = build_loop_lem entries s1 (insert_one st) c.1 in
        rw step (
          s',
          done,
          λ x.
              holds x
              ∙ rw (e1, covering) (Placed-at e network s s1 after x (covering T.accepts x entries)),
          inserted ∙ rw (e1, placed_count) (omega arith),
          omega (arith, counted),
        )
  ]
