-- ===== src/Asn/Enrich/Cover.antt =====
-- Which records the enriched stream gives at an address.
use cloudip.Base.{
  ℕ, zero, suc, ◌-◌, ◌≤◌, ◌<◌, ◌≡◌, refl, ◌∙◌, ap, Bool, ◌&&◌, Text, List, [], ◌∷◌, ◌++◌, map,
  Option, none, some, if◌then◌else◌, leb, ltb, inl, inr, Bool-cases, arith,
}
use cloudip.Net.Addr.{Addr, addr_lt, prev}
use cloudip.Net.Prefix.{Prefix, prefix_contains}
use cloudip.Net.Plain.{
  size, value, addr_of, addr_of-IsPlain, IsPlain, addr_le_plain, addr_lt_plain, prev-addr_of,
}
use cloudip.Net.Netipx.{Netipx, IsLawful, hits}
use cloudip.Record.{Record, Entry, Item}
use cloudip.Asn.{AsnRange}
use cloudip.Asn.StepLaw.{announces, origin, value-addr_of}
use cloudip.Asn.Coalesce.{IsTable, origin_before}
use cloudip.Asn.Enrich.{stamp, min_addr, max_addr}
use cloudip.Asn.Enrich.Pieces.{range_items}

-- The records that a stream gives for an address, in order.
abbrev pub records_at : List Item → Addr → List Record
records_at [] x = []
records_at ((e, none) ∷ items) x =
    if prefix_contains e.network x then e.attribution ∷ records_at items x else records_at items x
records_at ((e, some err) ∷ items) x = records_at items x

pub records_at-append :
    (xs ys : List Item) (x : Addr) → records_at (xs ++ ys) x ≡ records_at xs x ++ records_at ys x
records_at-append [] ys x = refl
records_at-append ((e, none) ∷ xs) ys x = ground (arith, records_at-append xs ys x)
records_at-append ((e, some err) ∷ xs) ys x = records_at-append xs ys x

copies : ℕ → Record → List Record
copies zero rec = []
copies (suc n) rec = rec ∷ copies n rec

records_at-copies :
    (ps : List Prefix) (rec : Record) (x : Addr)
    → records_at (map (λ p. (record { network = p; attribution = rec }, none)) ps) x
      ≡ copies (hits ps x) rec
unfolding copies
records_at-copies [] rec x = refl
records_at-copies (p ∷ ps) rec x = elim (Bool-cases (prefix_contains p x)) [
  | inl h ↦ rw h (rw (records_at-copies ps rec x) (ground arith))
  | inr h ↦ rw h (rw (records_at-copies ps rec x) (ground arith))
]

abbrev pub between : ℕ → ℕ → ℕ → Bool
between a b x = leb a x && leb x b

-- The gap, the announced piece and the rest meet at no address, and leave none out.
pieces_join :
    {A : Type 0} (c h rf rl x : ℕ) (unannounced announced rest : A)
    → c ≤ h
    → rf ≤ h
    → c ≤ rl
    → rf ≤ rl
    → (x ≤ rl → rest ≡ unannounced)
    → (if leb c x && ltb x (if leb c rf then rf else c) then unannounced ∷ [] else [])
        ++ ((if between (if leb c rf then rf else c) (if leb rl h then rl else h) x
              then announced ∷ []
              else [])
            ++ (if ltb rl x && leb x h then rest ∷ [] else []))
      ≡ (if between c h x then (if between rf rl x then announced else rest) ∷ [] else [])
pieces_join c h rf rl x unannounced announced rest a b d e before = elim (Bool-cases (leb c rf)) [
  | inl p ↦
      rw p
        (elim (Bool-cases (leb rl h)) [ inl q ↦ rw q (ground arith) | inr q ↦ rw q (ground arith) ])
  | inr p ↦
      rw p
        (elim (Bool-cases (leb rl h)) [ inl q ↦ rw q (ground arith) | inr q ↦ rw q (ground arith) ])
]

module _ (N : Netipx) (L : IsLawful N) (f : Bool) (x : ℕ) (inside : x < size f) where
  pub records_at-range :
      (e : Entry) (a b : Addr) (row : Option (ℕ × Text))
      → IsPlain f a
      → IsPlain f b
      → value a ≤ value b
      → records_at (range_items N e a b row) (addr_of f x)
        ≡ (if between (value a) (value b) x then stamp e.attribution row ∷ [] else [])
  unfolding copies
  records_at-range e a b row pa pb le =
      records_at-copies (N.prefixes a b) (stamp e.attribution row) (addr_of f x)
      ∙ rw (L.hits-prefixes f a b x pa pb le inside) (ground arith)

  -- What the pieces from `cur` to `hi` give, where `rows` are the rows not yet passed.
  abbrev pub Covers : Entry → Addr → Addr → List AsnRange → List Item → Type 0
  Covers e cur hi rows items =
      records_at items (addr_of f x)
      ≡ (if between (value cur) (value hi) x then stamp e.attribution (origin rows x) ∷ [] else [])

  pub beyond_rows :
      (e : Entry) (hi cur : Addr) (row : AsnRange) (rows : List AsnRange)
      → IsPlain f cur
      → IsPlain f hi
      → value cur ≤ value hi
      → IsTable f (row ∷ rows)
      → value hi < value row.first
      → Covers e cur hi (row ∷ rows) (range_items N e cur hi none)
  unfolding stamp
  beyond_rows e hi cur row rows pc ph le t lt =
      records_at-range e cur hi none pc ph le
      ∙ ground (arith, t.0, origin_before x (suc (value row.last)) rows)

  pub max_addr-IsPlain :
      (a b : Addr)
      → IsPlain f a
      → IsPlain f b
      → IsPlain f (max_addr a b)
        × (value (max_addr a b) ≡ (if leb (value b) (value a) then value a else value b))
  max_addr-IsPlain a b pa pb = rw (addr_le_plain f b a pb pa) (ground (arith, pa, pb))

  pub min_addr-IsPlain :
      (a b : Addr)
      → IsPlain f a
      → IsPlain f b
      → IsPlain f (min_addr a b)
        × (value (min_addr a b) ≡ (if leb (value a) (value b) then value a else value b))
  min_addr-IsPlain a b pa pb = rw (addr_le_plain f a b pa pb) (ground (arith, pa, pb))

  -- The unannounced gap before a row.
  records_at-gap :
      (e : Entry) (cur lo : Addr)
      → IsPlain f cur
      → IsPlain f lo
      → records_at (if addr_lt cur lo then range_items N e cur (prev lo) none else []) (addr_of f x)
        ≡ (if leb (value cur) x && ltb x (value lo) then e.attribution ∷ [] else [])
  unfolding stamp
  records_at-gap e cur lo pc pl =
      rw (addr_lt_plain f cur lo pc pl) (elim (Bool-cases (ltb (value cur) (value lo))) [
        | inr h ↦ rw h (ground arith)
        | inl h ↦
            let back : prev lo ≡ addr_of f (value lo - 1) =
              ap prev pl.0 ∙ prev-addr_of f (value lo) (ground arith) in
            rw (h, back)
              (records_at-range e cur _ none pc (addr_of-IsPlain f _ (ground arith))
                  (rw value-addr_of (ground arith))
                ∙ rw value-addr_of (ground arith))
      ])

  pub stamp-none : (rec : Record) → stamp rec none ≡ rec
  unfolding stamp
  stamp-none rec = refl

  stamp_if :
      (e : Entry) (row : AsnRange) (rows : List AsnRange) (b : Bool)
      → (if b
          then (if announces row x
              then stamp e.attribution (some (row.asn, row.org))
              else stamp e.attribution (origin rows x))
            ∷ []
          else [])
        ≡ (if b then stamp e.attribution (origin (row ∷ rows) x) ∷ [] else [])
  stamp_if e row rows b = elim (Bool-cases (announces row x)) [
    | inl h ↦ rw h refl
    | inr h ↦ rw h refl
  ]

  pub meets_row :
      (e : Entry) (hi cur : Addr) (row : AsnRange) (rows : List AsnRange) (tail : List Item)
      → IsPlain f cur
      → IsPlain f hi
      → value cur ≤ value hi
      → IsTable f (row ∷ rows)
      → value row.first ≤ value hi
      → value cur ≤ value row.last
      → records_at tail (addr_of f x) ≡ (
          if ltb (value row.last) x && leb x (value hi)
          then stamp e.attribution (origin rows x) ∷ []
          else [])
      → Covers e cur hi (row ∷ rows) (
          (if addr_lt cur (max_addr row.first cur)
            then range_items N e cur (prev (max_addr row.first cur)) none
            else [])
          ++ (range_items N e
                (max_addr row.first cur)
                (min_addr row.last hi)
                (some (row.asn, row.org))
              ++ tail))
  meets_row e hi cur row rows tail pc ph le t within reach h =
      let (plo, elo) = max_addr-IsPlain row.first cur t.0.0 pc in
      let (phi, ehi) = min_addr-IsPlain row.last hi t.0.1 ph in
      rw
        (
          records_at-append,
          records_at-gap e cur (max_addr row.first cur) pc plo,
          records_at-append,
          records_at-range e (max_addr row.first cur) (min_addr row.last hi)
              (some (row.asn, row.org)) plo phi (ground arith),
          h,
          elo,
          ehi,
        )
        (pieces_join (value cur) (value hi) (value row.first) (value row.last) x _ _ _ le within
            reach t.0.2
            (λ early.
              rw (origin_before x (suc (value row.last)) rows (omega arith) t.1)
                (stamp-none e.attribution))
          ∙ stamp_if e row rows _)
