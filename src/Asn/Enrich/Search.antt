-- ===== src/Asn/Enrich/Search.antt =====
-- attribution/asn.go: the binary search of `enrichEntry`.
use cloudip.Base.{
  ℕ, zero, suc, ◌+◌, ◌/◌, ◌≤◌, ◌<◌, ◌≡◌, refl, Bool, true, false, List, [], ◌∷◌, length, drop, ltb,
  inl, inr, Bool-cases, arith, All,
}
use cloudip.Net.Addr.{Addr, addr_le}
use cloudip.Net.Plain.{value, IsPlain, addr_le_plain}
use cloudip.Asn.{AsnRange}
use cloudip.Asn.StepLaw.{IsRow, origin}
use cloudip.Asn.Coalesce.{IsTable}
use cloudip.Asn.Enrich.{ends_behind, search_between, sort_search}

-- A test that stays true once it is true, below `n`.
abbrev Rises : ℕ → (ℕ → Bool) → Type 0
Rises n p = (a b : ℕ) → a ≤ b → b < n → p b ≡ false → p a ≡ false

search_between_below :
    (n : ℕ) (p : ℕ → Bool)
    → Rises n p
    → (fuel i j : ℕ) → j ≤ n
    → ((k : ℕ) → k < i → p k ≡ false)
    → (k : ℕ) → k < search_between fuel p i j
    → p k ≡ false
unfolding search_between
search_between_below n p rises zero i j le below k h = below k h
search_between_below n p rises (suc fuel) i j le below k h = elim (Bool-cases (ltb i j)) [
  | inr e ↦ below k (rw (e, search_between) at h)
  | inl e ↦ elim (Bool-cases (p ((i + j) / 2))) [
    | inl t ↦
        search_between_below n p rises fuel i ((i + j) / 2) (ground arith) below k
          (rw (e, t, search_between) at h)
    | inr t ↦
        search_between_below n p rises fuel ((i + j) / 2 + 1) j le
          (λ m hm. rises m ((i + j) / 2) (omega arith) (ground arith) t) k
          (rw (e, t, search_between) at h)
  ]
]

pub sort_search_below :
    (n : ℕ) (p : ℕ → Bool) → Rises n p → (k : ℕ) → k < sort_search n p → p k ≡ false
unfolding sort_search
sort_search_below n p rises =
    search_between_below n p rises n 0 n (omega arith) (λ k h. absurd (omega arith))

-- The rounds suffice: the answer is the end of the slice, or an index where the test holds.
search_between_holds :
    (n : ℕ) (p : ℕ → Bool) (fuel i j : ℕ)
    → i ≤ j
    → j ≤ i + fuel
    → j ≤ n
    → (j < n → p j ≡ true)
    → search_between fuel p i j < n
    → p (search_between fuel p i j) ≡ true
unfolding search_between
search_between_holds n p zero i j a b c h r = ground (arith, h)
search_between_holds n p (suc fuel) i j a b c h r = elim (Bool-cases (ltb i j)) [
  | inr e ↦
      rw (e, search_between)
        (let same : i ≡ j = ground arith in rw same (h (rw (e, search_between, same) at r)))
  | inl e ↦ elim (Bool-cases (p ((i + j) / 2))) [
    | inl t ↦
        rw (e, t, search_between)
          (search_between_holds n p fuel i ((i + j) / 2) (ground arith) (ground arith)
            (ground arith) (λ _. t) (rw (e, t, search_between) at r))
    | inr t ↦
        rw (e, t, search_between)
          (search_between_holds n p fuel ((i + j) / 2 + 1) j (ground arith) (ground arith) c h
            (rw (e, t, search_between) at r))
  ]
]

-- An index that the search gives below n satisfies the test.
pub sort_search_holds : (n : ℕ) (p : ℕ → Bool) → sort_search n p < n → p (sort_search n p) ≡ true
unfolding sort_search
sort_search_holds n p r =
    search_between_holds n p n 0 n (omega arith) (omega arith) (omega arith)
      (λ h. absurd (omega arith)) r

module _ (f : Bool) (lo : Addr) (pl : IsPlain f lo) where
  -- A row behind a row that ends at `lo` or later does so too.
  ends_behind_later :
      (rows : List AsnRange) (r : AsnRange) (b : ℕ)
      → IsRow f r
      → All (λ s. value r.last < value s.first) rows
      → IsTable f rows
      → b < length rows
      → ends_behind rows lo b ≡ false
      → addr_le lo r.last ≡ false
  ends_behind_later (s ∷ rows) r zero ir lt t h e =
      ground
        (arith, addr_le_plain f lo s.last pl t.0.1, addr_le_plain f lo r.last pl ir.1, t.0, lt.0)
  ends_behind_later (s ∷ rows) r (suc b) ir lt t h e =
      ends_behind_later rows r b ir lt.1 t.2 (omega arith) e
  ends_behind_later [] r b ir lt t h e = absurd (omega arith)

  ends_behind-Rises :
      (rows : List AsnRange) → IsTable f rows → Rises (length rows) (ends_behind rows lo)
  ends_behind-Rises [] t a b le h e = absurd (omega arith)
  ends_behind-Rises (r ∷ rows) t zero zero le h e = e
  ends_behind-Rises (r ∷ rows) t zero (suc b) le h e =
      ends_behind_later rows r b t.0 t.1 t.2 (omega arith) e
  ends_behind-Rises (r ∷ rows) t (suc a) zero le h e = absurd (omega arith)
  ends_behind-Rises (r ∷ rows) t (suc a) (suc b) le h e =
      ends_behind-Rises rows t.2 a b (omega arith) (omega arith) e

  -- No passed row covers an address from `lo` on.
  origin-drop :
      (rows : List AsnRange) (i x : ℕ)
      → IsTable f rows
      → ((k : ℕ) → k < i → ends_behind rows lo k ≡ false)
      → value lo ≤ x
      → origin (drop i rows) x ≡ origin rows x
  origin-drop rows zero x t below h = refl
  origin-drop [] (suc i) x t below h = refl
  origin-drop (r ∷ rows) (suc i) x t below h =
      let late : addr_le lo r.last ≡ false = below 0 (omega arith) in
      ground (
        arith,
        addr_le_plain f lo r.last pl t.0.1,
        late,
        origin-drop rows i x t.2 (λ k lt. below (suc k) (omega arith)) h,
      )

  pub drop-IsTable : (rows : List AsnRange) (i : ℕ) → IsTable f rows → IsTable f (drop i rows)
  drop-IsTable rows zero t = t
  drop-IsTable [] (suc i) t = t
  drop-IsTable (r ∷ rows) (suc i) t = drop-IsTable rows i t.2

  -- From the index that the search finds on, the rows announce the same.
  pub found_rows :
      (rows : List AsnRange) (x : ℕ)
      → IsTable f rows
      → value lo ≤ x
      → origin (drop (sort_search (length rows) (ends_behind rows lo)) rows) x ≡ origin rows x
  found_rows rows x t h =
      origin-drop rows _ x t (sort_search_below (length rows) _ (ends_behind-Rises rows t)) h
