-- ===== src/Asn/StepLaw.antt =====
-- One round of the loop of `CoalesceASNRanges`, over the numbers of the addresses.
use cloudip.Base.{
  ℕ, ◌+◌, ◌≤◌, ◌<◌, ◌≡◌, refl, Bool, true, false, ◌&&◌, Text, text_eq, nat_eq, ◌==◌, List, [], ◌∷◌,
  Option, none, some, if◌then◌else◌, leb, ltb, arith, ◌⊎◌, inl, inr, Bool-cases,
}
use cloudip.Net.Addr.{Addr, is4, next, addr_eq, is_valid}
use cloudip.Net.Plain.{
  size, value, addr_of, addr_of-IsPlain, IsPlain, addr_le_plain, addr_lt_plain, next-addr_of,
  next_last,
}
use cloudip.Asn.{AsnRange, Step, skip, extend, append, coalesce_step, same_bool}

-- A row of one family whose bounds carry no zone and are in order.
abbrev pub IsRow : Bool → AsnRange → Type 0
IsRow f r = IsPlain f r.first × IsPlain f r.last × (value r.first ≤ value r.last)

abbrev pub announces : AsnRange → ℕ → Bool
announces r x = leb (value r.first) x && leb x (value r.last)

-- The system and organisation of the first row that covers an address.
abbrev pub origin : List AsnRange → ℕ → Option (ℕ × Text)
origin [] x = none
origin (r ∷ rows) x = if announces r x then some (r.asn, r.org) else origin rows x

-- The cases of one step, over the numbers of the addresses.
abbrev pub StepLaw : Bool → AsnRange → AsnRange → Step → Type 0
StepLaw f p r skip = (value r.first ≤ value p.last) × (value r.last ≤ value p.last)
StepLaw f p r (extend m) =
    (m ≡ record p { last = r.last })
    × (p.asn ≡ r.asn)
    × (p.org ≡ r.org)
    × (value p.last < value r.last)
    × (value r.first ≤ value p.last + 1)
StepLaw f p r (append q) =
    (q.last ≡ r.last)
    × (q.asn ≡ r.asn)
    × (q.org ≡ r.org)
    × IsPlain f q.first
    × (value p.last < value q.first)
    × (value q.first ≤ value q.last)
    × (value r.first ≤ value q.first)
    × ((q.first ≡ r.first) ⊎ (value q.first ≡ value p.last + 1))

addr_of-valid : (f : Bool) (n : ℕ) → is_valid (addr_of f n) ≡ true
addr_of-valid true n = refl
addr_of-valid false n = refl

pub next_plain :
    (f : Bool) (a : Addr)
    → IsPlain f a
    → ((value a + 1 < size f) × (next a ≡ addr_of f (value a + 1)) × (is_valid (next a) ≡ true))
      ⊎ ((size f ≡ value a + 1) × (is_valid (next a) ≡ false))
next_plain f a p = ground (
  arith,
  next-addr_of f (value a),
  next_last f (value a),
  addr_of-valid f (value a + 1),
  Bool-cases (ltb (value a + 1) (size f)),
)

pub is4_plain : (f : Bool) (a : Addr) → IsPlain f a → is4 a ≡ f
is4_plain true a p = ground arith
is4_plain false a p = ground arith

addr_eq_plain :
    (f : Bool) (a b : Addr) → IsPlain f a → IsPlain f b → addr_eq a b ≡ (value a == value b)
unfolding addr_eq
addr_eq_plain true a b p q = ground arith
addr_eq_plain false a b p q = ground arith

same_family : (f : Bool) (a b : Addr) → IsPlain f a → IsPlain f b → same_bool (is4 a) (is4 b) ≡ true
same_family true a b p q = rw (is4_plain true a p, is4_plain true b q)
same_family false a b p q = rw (is4_plain false a p, is4_plain false b q)

-- Behind the last address of the family every row is dropped.
coalesce_step_end :
    (f : Bool) (p r : AsnRange)
    → IsRow f p
    → IsRow f r
    → size f ≡ value p.last + 1
    → is_valid (next p.last) ≡ false
    → coalesce_step p r ≡ skip
unfolding coalesce_step
coalesce_step_end f p r ip ir e invalid =
    rw (same_family f p.last r.first ip.1 ir.0, addr_le_plain f r.first p.last ir.0 ip.1, invalid)
      (ground (arith, ir))

pub value-addr_of : (f : Bool) (n : ℕ) → value (addr_of f n) ≡ n
value-addr_of true n = refl
value-addr_of false n = refl

module _ (f : Bool) (p r : AsnRange) (ip : IsRow f p) (ir : IsRow f r) where
  coalesce_step_apart :
      leb (value r.first) (value p.last) ≡ false
      → value p.last + 1 < size f
      → next p.last ≡ addr_of f (value p.last + 1)
      → StepLaw f p r (coalesce_step p r)
  unfolding coalesce_step
  coalesce_step_apart apart lt e =
      rw
        (
          same_family f p.last r.first ip.1 ir.0,
          addr_le_plain f r.first p.last ir.0 ip.1,
          e,
          apart,
          addr_eq_plain f (addr_of f (value p.last + 1)) r.first (addr_of-IsPlain f _ lt) ir.0,
          value-addr_of f (value p.last + 1),
        )
        (ground (arith, ir, ip))

  coalesce_step_overlap :
      leb (value r.first) (value p.last) ≡ true
      → (lt : value p.last + 1 < size f) → next p.last ≡ addr_of f (value p.last + 1)
      → StepLaw f p r (coalesce_step p r)
  unfolding coalesce_step
  coalesce_step_overlap over lt e =
      let here = addr_of-IsPlain f (value p.last + 1) lt in
      rw
        (
          same_family f p.last r.first ip.1 ir.0,
          addr_le_plain f r.first p.last ir.0 ip.1,
          e,
          over,
          addr_of-valid f (value p.last + 1),
          addr_lt_plain f r.last (addr_of f (value p.last + 1)) ir.1 here,
          addr_eq_plain f (addr_of f (value p.last + 1)) _ here here,
          value-addr_of f (value p.last + 1),
        )
        (ground (arith, ir, ip, here, value-addr_of f (value p.last + 1)))

pub coalesce_step-StepLaw :
    (f : Bool) (p r : AsnRange) → IsRow f p → IsRow f r → StepLaw f p r (coalesce_step p r)
coalesce_step-StepLaw f p r ip ir = elim (next_plain f p.last ip.1) [
  | inl (lt, e, _) ↦ elim (Bool-cases (leb (value r.first) (value p.last))) [
    | inl over ↦ coalesce_step_overlap f p r ip ir over lt e
    | inr apart ↦ coalesce_step_apart f p r ip ir apart lt e
  ]
  | inr (e, invalid) ↦ rw (coalesce_step_end f p r ip ir e invalid) (ground (arith, ir))
]
