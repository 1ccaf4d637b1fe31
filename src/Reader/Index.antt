-- ===== src/Reader/Index.antt =====
-- The index of `BuildIndex`.
use cloudip.Base.Outcome.{Outcome, ok, Outcome-cases, ok-inj}
use cloudip.Base.{
  ℕ, ◌≡◌, refl, sym, ◌∙◌, inl, inr, Bool, true, List, [], ◌∷◌, map, none, some, arith, ◌==◌, nat_eq,
  Bool-cases, ==-sound, Option-cases, All, contains,
}
use cloudip.Net.Addr.{Addr}
use cloudip.Reader.{
  Db, Result, MiniRecord, Offsets, at_offset, index_loop, build_index, lookup_provider,
}

-- What a result decodes to is what stands at its offset.
abbrev pub IsData : (ℕ → Outcome MiniRecord) → Result → Type 0
IsData D res = res.decode_mini ≡ D res.offset

-- The offset is that of one of the results.
abbrev pub is_offset : List Result → ℕ → Bool
is_offset rs off = contains (map (λ r. Result.offset r) rs) off

at_offset-cons :
    (off o : ℕ) (k m : MiniRecord) (idx : Offsets)
    → at_offset o idx ≡ none
    → at_offset off idx ≡ some k
    → at_offset off ((o, m) ∷ idx) ≡ some k
unfolding at_offset
at_offset-cons off o k m idx e0 e = elim (Bool-cases (off == o)) [
  | inl same ↦ absurd (let h = rw (==-sound off o same) at e in cc)
  | inr other ↦ rw other e
]

module _ (D : ℕ → Outcome MiniRecord) where
  IsIndex : Offsets → Type 0
  IsIndex idx = (off : ℕ) (m : MiniRecord) → at_offset off idx ≡ some m → D off ≡ ok m

  IsIndex-cons :
      (off : ℕ) (m : MiniRecord) (idx : Offsets)
      → IsIndex idx
      → D off ≡ ok m
      → IsIndex ((off, m) ∷ idx)
  unfolding IsIndex at_offset nat_eq
  IsIndex-cons off m idx i e o k h = ground (arith, i o k)

  index_loop_lem :
      (rest : List Result) (idx idx' : Offsets)
      → All (IsData D) rest
      → IsIndex idx
      → index_loop rest idx ≡ ok idx'
      → IsIndex idx'
        × ((off : ℕ) (m : MiniRecord)
            → at_offset off idx ≡ some m
            → (k : MiniRecord) × (at_offset off idx' ≡ some k))
        × ((off : ℕ) → is_offset rest off ≡ true → (k : MiniRecord) × (at_offset off idx' ≡ some k))
  unfolding index_loop IsIndex
  index_loop_lem [] idx idx' same i h =
      (λ off m e. i off m (cc), λ off m e. (m, cc), λ off e. absurd (cc))
  index_loop_lem (res ∷ rest) idx idx' same i h = elim (Option-cases res.error) [
    | inr (e, e1) ↦ absurd (let h' = rw (e1, index_loop) at h in cc)
    | inl e0 ↦ elim (Option-cases (at_offset res.offset idx)) [
      | inr (m, e1) ↦
          let (i', old, new) =
            index_loop_lem rest idx idx' same.1 i (rw (e0, e1, index_loop) at h) in
          (
            i',
            old,
            λ off e. elim (Bool-cases (off == res.offset)) [
              | inl same_off ↦ old off m (rw (==-sound off res.offset same_off) e1)
              | inr other ↦ new off (rw other at e)
            ],
          )
      | inl e1 ↦ elim (Outcome-cases res.decode_mini) [
        | inr (e, e2) ↦ absurd (let h' = rw (e0, e1, e2, index_loop) at h in cc)
        | inl (m, e2) ↦
            let (i', old, new) =
              index_loop_lem rest ((res.offset, m) ∷ idx) idx' same.1
                (IsIndex-cons res.offset m idx i (sym same.0 ∙ e2))
                (rw (e0, e1, e2, index_loop) at h) in
            (
              i',
              λ off k e. old off k (at_offset-cons off res.offset k m idx e1 e),
              λ off e. elim (Bool-cases (off == res.offset)) [
                | inl same_off ↦ old off m (unfold at_offset in rw same_off refl)
                | inr other ↦ new off (rw other at e)
              ],
            )
      ]
    ]
  ]

  -- With the index built, a lookup of the provider of an address gives what it gives without one,
  -- when what decodes is determined by the offset, and the walk over the networks has passed the
  -- offset that the lookup reaches.
  pub lookup_provider-build_index :
      (d d' : Db) (ip : Addr)
      → d.idx ≡ none
      → All (IsData D) d.r.networks
      → IsData D (d.r.lookup ip)
      → is_offset d.r.networks (Result.offset (d.r.lookup ip)) ≡ true
      → build_index d ≡ ok d'
      → lookup_provider d' ip ≡ lookup_provider d ip
  unfolding build_index lookup_provider IsIndex at_offset
  lookup_provider-build_index d d' ip plain same reached passed h =
      elim (Outcome-cases (index_loop d.r.networks [])) [
        | inr (e, e1) ↦ absurd (let h' = rw (e1, build_index) at h in cc)
        | inl (idx, e1) ↦
            let (i, old, new) =
              index_loop_lem d.r.networks [] idx same (λ off m e. absurd (cc)) e1 in
            let (m, at) = new _ passed in
            let decoded = reached ∙ i _ m at in
            let made : d' ≡ record { r = d.r; idx = some idx } =
              ok-inj (sym h ∙ rw (e1, build_index) refl) in
            rw made (
              rw plain (elim (Option-cases (Result.error (d.r.lookup ip))) [
                | inr (e, e2) ↦ rw (e2, lookup_provider) refl
                | inl e2 ↦ rw (e2, lookup_provider) (rw (at, decoded) refl)
              ]))
      ]
