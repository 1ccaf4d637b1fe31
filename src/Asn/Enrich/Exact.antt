-- ===== src/Asn/Enrich/Exact.antt =====
-- attribution/asn.go: the records that the loop of `enrichEntry` gives at an address.
use cloudip.Base.{
  ℕ, ◌+◌, ◌≤◌, ◌<◌, ◌≡◌, ◌∙◌, sym, ap, Bool, true, false, ◌&&◌, List, [], ◌∷◌, none, if◌then◌else◌,
  leb, ltb, inl, inr, Bool-cases, arith,
}
use cloudip.Net.Addr.{Addr, addr_le, addr_lt, next}
use cloudip.Net.Plain.{
  size, value, addr_of, addr_of-IsPlain, IsPlain, addr_le_plain, addr_lt_plain, next-addr_of,
}
use cloudip.Net.Netipx.{Netipx, IsLawful}
use cloudip.Record.{Entry, Item}
use cloudip.Asn.{AsnRange}
use cloudip.Asn.StepLaw.{origin, value-addr_of}
use cloudip.Asn.Coalesce.{IsTable}
use cloudip.Asn.Enrich.{stamp, min_addr, max_addr}
use cloudip.Asn.Enrich.Pieces.{rows_items}
use cloudip.Asn.Enrich.Cover.{
  Covers, records_at, between, records_at-range, beyond_rows, meets_row, max_addr-IsPlain,
  min_addr-IsPlain,
}

-- Numbers behind the two tests of the loop.
overlap_numbers :
    (c h rf rl : ℕ) (b : Bool)
    → c ≤ h
    → rf ≤ rl
    → rf ≤ h
    → ltb (if leb rl h then rl else h) (if leb c rf then rf else c) ≡ b
    → (if b then rl < c else c ≤ rl)
overlap_numbers c h rf rl true a d e p = ground arith
overlap_numbers c h rf rl false a d e p = ground arith

leb-false : (a b : ℕ) → leb a b ≡ false → b < a
leb-false a b h = ground arith

module _ (N : Netipx) (L : IsLawful N) (f : Bool) (x : ℕ) (inside : x < size f) where
  passed_row :
      (e : Entry) (cur hi : Addr) (row : AsnRange) (rows : List AsnRange) (items : List Item)
      → value row.last < value cur
      → Covers N L f x inside e cur hi rows items
      → Covers N L f x inside e cur hi (row ∷ rows) items
  passed_row e cur hi row rows items lt h = h ∙ ground (arith, passed_origin)
    where
      passed_origin :
          between (value cur) (value hi) x ≡ true → origin rows x ≡ origin (row ∷ rows) x
      passed_origin b = ground arith

  -- Where a row ends before the entry does, the next address is within the entry.
  pub next-row :
      (hi : Addr) (row : AsnRange)
      → IsPlain f hi
      → IsPlain f row.last
      → leb (value hi) (value row.last) ≡ false
      → IsPlain f (next (min_addr row.last hi))
        × (value (next (min_addr row.last hi)) ≡ value row.last + 1)
        × (value row.last < value hi)
  next-row hi row ph pl more =
      let (phi, ehi) = min_addr-IsPlain N L f x inside row.last hi pl ph in
      let lt = leb-false (value hi) (value row.last) more in
      let v : value (min_addr row.last hi) ≡ value row.last = ehi ∙ ground arith in
      let small : value row.last + 1 < size f = omega (arith, ph.1, lt) in
      let n : next (min_addr row.last hi) ≡ addr_of f (value row.last + 1) =
        ap next phi.0 ∙ rw v (next-addr_of f (value row.last) small) in
      (rw n (addr_of-IsPlain f _ small), ap value n ∙ value-addr_of f _, lt)

  -- Whether a row ends before the entry does.
  pub ends_last :
      (hi : Addr) (row : AsnRange)
      → IsPlain f hi
      → IsPlain f row.last
      → addr_le hi (min_addr row.last hi) ≡ leb (value hi) (value row.last)
  ends_last hi row ph pl =
      let (phi, ehi) = min_addr-IsPlain N L f x inside row.last hi pl ph in
      addr_le_plain f hi (min_addr row.last hi) ph phi ∙ rw ehi (ground arith)

  -- What follows an announced piece starts behind the row, or there is nothing left.
  tail-Covers :
      (e : Entry) (hi cur : Addr) (row : AsnRange) (rows : List AsnRange)
      → IsPlain f cur
      → IsPlain f hi
      → IsTable f (row ∷ rows)
      → (IsPlain f (next (min_addr row.last hi))
          → IsPlain f hi
          → value (next (min_addr row.last hi)) ≤ value hi
          → IsTable f rows
          → Covers N L f x inside e
              (next (min_addr row.last hi))
              hi
              rows
              (rows_items N e hi (next (min_addr row.last hi)) rows))
      → records_at
          (elim (addr_le hi (min_addr row.last hi)) [
            | true ↦ []
            | false ↦ rows_items N e hi (next (min_addr row.last hi)) rows
          ])
          (addr_of f x)
        ≡ (if ltb (value row.last) x && leb x (value hi)
            then stamp e.attribution (origin rows x) ∷ []
            else [])
  tail-Covers e hi cur row rows pc ph t ih =
      let test = ends_last hi row ph t.0.1 in
      elim (Bool-cases (leb (value hi) (value row.last))) [
        | inl done ↦
            let b : addr_le hi (min_addr row.last hi) ≡ true = test ∙ done in rw b (ground arith)
        | inr more ↦
            let b : addr_le hi (min_addr row.last hi) ≡ false = test ∙ more in
            let (pn, vn, lt) = next-row hi row ph t.0.1 more in
            rw b (ih pn ph (omega (arith, vn, lt)) t.2 ∙ rw vn (ground arith))
      ]

  pub records_at-rows :
      (e : Entry) (hi cur : Addr) (rows : List AsnRange)
      → IsPlain f cur
      → IsPlain f hi
      → value cur ≤ value hi
      → IsTable f rows
      → Covers N L f x inside e cur hi rows (rows_items N e hi cur rows)
  unfolding rows_items
  records_at-rows e hi cur [] pc ph le t = records_at-range N L f x inside e cur hi none pc ph le
  records_at-rows e hi cur (row ∷ rows) pc ph le t = elim (Bool-cases (addr_le row.first hi)) [
    | inr out ↦
        rw (out, rows_items)
          (beyond_rows N L f x inside e hi cur row rows pc ph le t
            (ground (arith, addr_le_plain f row.first hi t.0.0 ph)))
    | inl within ↦
        let (plo, elo) = max_addr-IsPlain N L f x inside row.first cur t.0.0 pc in
        let (phi, ehi) = min_addr-IsPlain N L f x inside row.last hi t.0.1 ph in
        let rf : value row.first ≤ value hi =
          ground (arith, addr_le_plain f row.first hi t.0.0 ph) in
        let test = addr_lt_plain f (min_addr row.last hi) (max_addr row.first cur) phi plo in
        elim (Bool-cases (addr_lt (min_addr row.last hi) (max_addr row.first cur))) [
          | inl apart ↦
              rw (within, apart, rows_items)
                (passed_row e cur hi row rows (rows_items N e hi cur rows)
                  (overlap_numbers (value cur) (value hi) (value row.first) (value row.last) true le
                    t.0.2 rf (rw (← ehi, ← elo) (sym test ∙ apart)))
                  (records_at-rows e hi cur rows pc ph le t.2))
          | inr meets ↦
              rw (within, meets, rows_items)
                (meets_row N L f x inside e hi cur row rows _ pc ph le t rf
                  (overlap_numbers (value cur) (value hi) (value row.first) (value row.last) false
                    le t.0.2 rf (rw (← ehi, ← elo) (sym test ∙ meets)))
                  (tail-Covers e hi cur row rows pc ph t
                    (records_at-rows e hi (next (min_addr row.last hi)) rows)))
        ]
  ]
