-- ===== src/Asn/Enrich/Networks.antt =====
-- attribution/asn.go: the networks that the enrichment of an entry is cut into.
use cloudip.Base.{
  ℕ, ◌-◌, ◌≤◌, ◌<◌, ◌≡◌, sym, ◌∙◌, ap, Bool, true, false, Text, List, [], ◌∷◌, ◌++◌, map, Option,
  none, some, All, if◌then◌else◌, leb, ltb, inl, inr, Bool-cases, arith,
}
use mathlib.Core.Path.{subst}
use cloudip.Net.Addr.{Addr, is4, addr_le, addr_lt, next, prev}
use cloudip.Net.Plain.{size, value, addr_of, addr_of-IsPlain, IsPlain, addr_lt_plain, prev-addr_of}
use cloudip.Net.Prefix.{Prefix}
use cloudip.Net.Netipx.{Netipx, IsLawful, IsNetwork}
use cloudip.Record.{Record, Entry, Item}
use cloudip.Build.Normalize.{normalize_prefix}
use cloudip.Asn.{AsnRange, AsnTable}
use cloudip.Asn.StepLaw.{value-addr_of, is4_plain}
use cloudip.Asn.Coalesce.{IsTable}
use cloudip.Asn.Enrich.{stamp, min_addr, max_addr}
use cloudip.Asn.Enrich.Pieces.{range_items, rows_items, network_items, entry_items}
use cloudip.Asn.Enrich.Cover.{max_addr-IsPlain, min_addr-IsPlain}
use cloudip.Asn.Enrich.Exact.{next-row, ends_last}
use cloudip.Asn.Enrich.Search.{drop-IsTable}
use cloudip.Asn.Enrich.Entries.{IsAsnTable, table_rows, table_rows-IsTable}

-- A stream without errors, of networks of one family.
abbrev pub AreNetworks : Bool → List Item → Type 0
AreNetworks f [] = Unit
AreNetworks f ((e, some error) ∷ items) = ⊥
AreNetworks f ((e, none) ∷ items) = IsNetwork f e.network × AreNetworks f items

pub AreNetworks-append :
    (f : Bool) (xs ys : List Item) → AreNetworks f xs → AreNetworks f ys → AreNetworks f (xs ++ ys)
AreNetworks-append f [] ys c d = d
AreNetworks-append f ((e, some error) ∷ xs) ys c d = absurd c
AreNetworks-append f ((e, none) ∷ xs) ys c d = (c.0, AreNetworks-append f xs ys c.1 d)

pieces-AreNetworks :
    (f : Bool) (rec : Record) (ps : List Prefix)
    → All (IsNetwork f) ps
    → AreNetworks f (map (λ p. (record { network = p; attribution = rec }, none)) ps)
pieces-AreNetworks f rec [] h = tt
pieces-AreNetworks f rec (p ∷ ps) h = (h.0, pieces-AreNetworks f rec ps h.1)

module _ (N : Netipx) (L : IsLawful N) (f : Bool) (x : ℕ) (inside : x < size f) where
  range-AreNetworks :
      (e : Entry) (a b : Addr) (row : Option (ℕ × Text))
      → IsPlain f a
      → IsPlain f b
      → value a ≤ value b
      → AreNetworks f (range_items N e a b row)
  range-AreNetworks e a b row pa pb le =
      pieces-AreNetworks f (stamp e.attribution row) _ (L.prefixes-network f a b pa pb le)

  gap-AreNetworks :
      (e : Entry) (cur lo : Addr)
      → IsPlain f cur
      → IsPlain f lo
      → AreNetworks f (if addr_lt cur lo then range_items N e cur (prev lo) none else [])
  gap-AreNetworks e cur lo pc pl =
      rw (addr_lt_plain f cur lo pc pl) (elim (Bool-cases (ltb (value cur) (value lo))) [
        | inr h ↦ rw h tt
        | inl h ↦
            let back : prev lo ≡ addr_of f (value lo - 1) =
              ap prev pl.0 ∙ prev-addr_of f (value lo) (ground arith) in
            let pb = addr_of-IsPlain f (value lo - 1) (ground (arith, pl.1)) in
            rw (h, back) (range-AreNetworks e cur _ none pc pb (rw value-addr_of (ground arith)))
      ])

  tail-AreNetworks :
      (e : Entry) (hi : Addr) (row : AsnRange) (rows : List AsnRange)
      → IsPlain f hi
      → IsPlain f row.last
      → (IsPlain f (next (min_addr row.last hi))
          → value (next (min_addr row.last hi)) ≤ value hi
          → AreNetworks f (rows_items N e hi (next (min_addr row.last hi)) rows))
      → AreNetworks f (elim (addr_le hi (min_addr row.last hi)) [
        | true ↦ []
        | false ↦ rows_items N e hi (next (min_addr row.last hi)) rows
      ])
  tail-AreNetworks e hi row rows ph pl ih =
      rw (ends_last N L f x inside hi row ph pl)
        (elim (Bool-cases (leb (value hi) (value row.last))) [
          | inl done ↦ rw done tt
          | inr more ↦
              let (pn, vn, lt) = next-row N L f x inside hi row ph pl more in
              rw more (ih pn (omega (arith, vn, lt)))
        ])

  rows-AreNetworks :
      (e : Entry) (hi cur : Addr) (rows : List AsnRange)
      → IsPlain f cur
      → IsPlain f hi
      → value cur ≤ value hi
      → IsTable f rows
      → AreNetworks f (rows_items N e hi cur rows)
  unfolding rows_items
  rows-AreNetworks e hi cur [] pc ph le t = range-AreNetworks e cur hi none pc ph le
  rows-AreNetworks e hi cur (row ∷ rows) pc ph le t = elim (Bool-cases (addr_le row.first hi)) [
    | inr out ↦ rw (out, rows_items) (range-AreNetworks e cur hi none pc ph le)
    | inl within ↦
        let (plo, elo) = max_addr-IsPlain N L f x inside row.first cur t.0.0 pc in
        let (phi, ehi) = min_addr-IsPlain N L f x inside row.last hi t.0.1 ph in
        let test = addr_lt_plain f (min_addr row.last hi) (max_addr row.first cur) phi plo in
        elim (Bool-cases (addr_lt (min_addr row.last hi) (max_addr row.first cur))) [
          | inl apart ↦ rw (within, apart, rows_items) (rows-AreNetworks e hi cur rows pc ph le t.2)
          | inr meets ↦
              rw (within, meets, rows_items)
                (AreNetworks-append f _ _ (gap-AreNetworks e cur (max_addr row.first cur) pc plo) (
                  AreNetworks-append f _ _
                    (range-AreNetworks e _ _ (some (row.asn, row.org)) plo phi
                      (ground (arith, test, meets)))
                    (tail-AreNetworks e hi row rows ph t.0.1 (λ pn ln.
                      rows-AreNetworks e hi (next (min_addr row.last hi)) rows pn ph ln t.2))))
        ]
  ]

  found-AreNetworks :
      (e : Entry) (network : Prefix) (hi lo : Addr) (rows : List AsnRange) (found : Option AsnRange)
      → IsNetwork f network
      → AreNetworks f (rows_items N e hi lo rows)
      → AreNetworks f (elim found [
        | none ↦ (record e { network = network }, none) ∷ []
        | some row ↦
            if addr_lt hi row.first
            then (record e { network = network }, none) ∷ []
            else rows_items N e hi lo rows
      ])
  found-AreNetworks e network hi lo rows none n h = (n, tt)
  found-AreNetworks e network hi lo rows (some row) n h = elim (Bool-cases (addr_lt hi row.first)) [
    | inl early ↦ rw early (n, tt)
    | inr late ↦ rw late h
  ]

  network-AreNetworks :
      (e : Entry) (network : Prefix) (t : AsnTable)
      → IsNetwork f network
      → IsAsnTable t
      → AreNetworks f (network_items N e network t)
  unfolding network_items
  network-AreNetworks e network t n w =
      let lo = (N.range_of_prefix network).0 in
      let pl = L.range_first f network n in
      let own : IsTable f (table_rows (is4 network.addr) t) =
        subst (λ b. IsTable f (table_rows b t)) (sym (is4_plain f network.addr n.0))
          (table_rows-IsTable f t w) in
      found-AreNetworks e network _ lo _ _ n (
        rows-AreNetworks e _ lo _ pl (L.range_last f network n) (L.range_le f network n)
          (drop-IsTable f lo pl (table_rows (is4 network.addr) t) _ own))

  -- An entry of a network of one family is cut into networks of that family.
  pub entry_items-AreNetworks :
      (e : Entry) (network : Prefix) (t : AsnTable)
      → normalize_prefix e.network ≡ some network
      → IsNetwork f network
      → IsAsnTable t
      → AreNetworks f (entry_items N e t)
  unfolding entry_items
  entry_items-AreNetworks e network t h n w =
      rw (h, entry_items) (network-AreNetworks e network t n w)
