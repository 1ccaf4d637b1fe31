-- ===== src/Asn/Coalesce.antt =====
-- attribution/asn.go: `CoalesceASNRanges` behind its sort, on the rows of one family.
use native.Mathlib.Decide.{dec_le}
use native.Mathlib.Nat.{le_refl}
use cloudip.Base.{
  ℕ, ◌≤◌, ◌<◌, ◌≡◌, refl, sym, ap, ◌∙◌, Bool, List, [], ◌∷◌, none, All, All-imp, arith, ◌⊎◌, inl,
  inr,
}
use cloudip.Net.Plain.{value}
use cloudip.Asn.{
  AsnRange, Step, skip, extend, append, coalesce_step, coalesce_loop, coalesce_sorted,
}
use cloudip.Asn.StepLaw.{IsRow, origin, StepLaw, coalesce_step-StepLaw}

-- The rows of a table of one family: in order, and disjoint.
abbrev pub IsTable : Bool → List AsnRange → Type 0
IsTable f [] = Unit
IsTable f (r ∷ rows) = IsRow f r × All (λ s. value r.last < value s.first) rows × IsTable f rows

-- Ordered by `First`, as `sort.Slice` leaves the rows.
abbrev pub IsOrdered : List AsnRange → Type 0
IsOrdered [] = Unit
IsOrdered (r ∷ rows) = All (λ s. value r.first ≤ value s.first) rows × IsOrdered rows

pub Step-cases :
    (s : Step) → (s ≡ skip) ⊎ ((m : AsnRange) × (s ≡ extend m)) ⊎ ((q : AsnRange) × (s ≡ append q))
Step-cases skip = inl refl
Step-cases (extend m) = inr (inl (m, refl))
Step-cases (append q) = inr (inr (q, refl))

module _ (f : Bool) where
  extend-IsRow : (p r m : AsnRange) → IsRow f p → IsRow f r → StepLaw f p r (extend m) → IsRow f m
  extend-IsRow p r m ip ir l = rw l.0 (ground (arith, ip, ir, l))

  append-IsRow : (p r q : AsnRange) → IsRow f p → IsRow f r → StepLaw f p r (append q) → IsRow f q
  append-IsRow p r q ip ir l = ground (arith, ip, ir, l)

  loop-lower :
      (k : ℕ) (p : AsnRange) (rows : List AsnRange)
      → IsRow f p
      → All (IsRow f) rows
      → k ≤ value p.first
      → All (λ s. k ≤ value s.first) (coalesce_loop p rows)
  unfolding coalesce_loop
  loop-lower k p [] ip irs h = (h, tt)
  loop-lower k p (r ∷ rows) ip irs h = elim (Step-cases (coalesce_step p r)) [
    | inl e ↦ rw (e, coalesce_loop) (loop-lower k p rows ip irs.1 h)
    | inr (inl (m, e)) ↦
        let l : StepLaw f p r (extend m) = rw e at (coalesce_step-StepLaw f p r ip irs.0) in
        rw (e, coalesce_loop) (loop-lower k m rows (extend-IsRow p r m ip irs.0 l) irs.1 (rw l.0 h))
    | inr (inr (q, e)) ↦
        let l : StepLaw f p r (append q) = rw e at (coalesce_step-StepLaw f p r ip irs.0) in
        rw (e, coalesce_loop)
          (h, loop-lower k q rows (append-IsRow p r q ip irs.0 l) irs.1 (omega (arith, ip, l)))
  ]

  loop-IsTable :
      (p : AsnRange) (rows : List AsnRange)
      → IsRow f p
      → All (IsRow f) rows
      → IsTable f (coalesce_loop p rows)
  unfolding coalesce_loop
  loop-IsTable p [] ip irs = (ip, tt, tt)
  loop-IsTable p (r ∷ rows) ip irs = elim (Step-cases (coalesce_step p r)) [
    | inl e ↦ rw (e, coalesce_loop) (loop-IsTable p rows ip irs.1)
    | inr (inl (m, e)) ↦
        let l : StepLaw f p r (extend m) = rw e at (coalesce_step-StepLaw f p r ip irs.0) in
        rw (e, coalesce_loop) (loop-IsTable m rows (extend-IsRow p r m ip irs.0 l) irs.1)
    | inr (inr (q, e)) ↦
        let l : StepLaw f p r (append q) = rw e at (coalesce_step-StepLaw f p r ip irs.0) in
        let iq = append-IsRow p r q ip irs.0 l in
        rw (e, coalesce_loop)
          (
            ip,
            All-imp _ _ (coalesce_loop q rows) (λ s h. omega (arith, h, l))
                (loop-lower (value q.first) q rows iq irs.1 (omega arith)),
            loop-IsTable q rows iq irs.1,
          )
  ]

-- No row covers an address that lies before all of them.
pub origin_before :
    (x k : ℕ) (rows : List AsnRange)
    → x < k
    → All (λ s. k ≤ value s.first) rows
    → origin rows x ≡ none
origin_before x k [] h p = refl
origin_before x k (r ∷ rows) h p = ground (arith, origin_before x k rows h p.1)

module _ (f : Bool) (x : ℕ) where
  append_origin :
      (p r q : AsnRange) (rows : List AsnRange)
      → IsRow f p
      → All (IsRow f) (r ∷ rows)
      → IsOrdered (r ∷ rows)
      → value p.first ≤ x
      → StepLaw f p r (append q)
      → (value q.first ≤ x → origin (coalesce_loop q rows) x ≡ origin (q ∷ rows) x)
      → origin (p ∷ coalesce_loop q rows) x ≡ origin (p ∷ r ∷ rows) x
  append_origin p r q rows ip irs o h l ih = elim (dec_le (value q.first) x) [
    | yes le ↦ rw (ih le) (ground (arith, l, h, ip, irs.0, ap value l.0))
    | no before ↦
        let lt : x < value q.first = omega arith in
        let lower =
          loop-lower f (value q.first) q rows (append-IsRow f p r q ip irs.0 l) irs.1 (le_refl _) in
        rw (origin_before x (value q.first) (coalesce_loop q rows) lt lower)
          (ground (arith, l, h, ip, irs.0, origin_before x (value r.first) rows))
  ]

  -- From the start of `prev` on, the output announces what `prev` and then the rows announce.
  loop-origin :
      (p : AsnRange) (rows : List AsnRange)
      → IsRow f p
      → All (IsRow f) rows
      → IsOrdered rows
      → value p.first ≤ x
      → origin (coalesce_loop p rows) x ≡ origin (p ∷ rows) x
  unfolding coalesce_loop
  loop-origin p [] ip irs o h = refl
  loop-origin p (r ∷ rows) ip irs o h = elim (Step-cases (coalesce_step p r)) [
    | inl e ↦
        let l : StepLaw f p r skip = rw e at (coalesce_step-StepLaw f p r ip irs.0) in
        rw (e, coalesce_loop) (loop-origin p rows ip irs.1 o.1 h ∙ ground (arith, l, h))
    | inr (inl (m, e)) ↦
        let l : StepLaw f p r (extend m) = rw e at (coalesce_step-StepLaw f p r ip irs.0) in
        rw (e, coalesce_loop)
          (loop-origin m rows (extend-IsRow f p r m ip irs.0 l) irs.1 o.1 (rw l.0 h)
            ∙ ground (arith, l, h, ip))
    | inr (inr (q, e)) ↦
        let l : StepLaw f p r (append q) = rw e at (coalesce_step-StepLaw f p r ip irs.0) in
        rw (e, coalesce_loop)
          (append_origin p r q rows ip irs o h l
            (loop-origin q rows (append-IsRow f p r q ip irs.0 l) irs.1 o.1))
  ]

-- The result of the loop on rows that are sorted by their start.
pub coalesce_sorted-IsTable :
    (f : Bool) (rows : List AsnRange) → All (IsRow f) rows → IsTable f (coalesce_sorted rows)
unfolding coalesce_sorted
coalesce_sorted-IsTable f [] irs = tt
coalesce_sorted-IsTable f (r ∷ rows) irs = loop-IsTable f r rows irs.0 irs.1

-- Rows of one family in order of their first address: coalescing them changes no announcement, at
-- any address the first row that covers it wins.
pub origin-coalesce_sorted :
    (f : Bool) (rows : List AsnRange) (x : ℕ)
    → All (IsRow f) rows
    → IsOrdered rows
    → origin (coalesce_sorted rows) x ≡ origin rows x
unfolding coalesce_sorted
origin-coalesce_sorted f [] x irs o = refl
origin-coalesce_sorted f (r ∷ rows) x irs o = elim (dec_le (value r.first) x) [
  | yes le ↦ loop-origin f x r rows irs.0 irs.1 o.1 le
  | no before ↦
      let lt : x < value r.first = omega arith in
      origin_before x (value r.first) (coalesce_loop r rows) lt
        (loop-lower f (value r.first) r rows irs.0 irs.1 (le_refl _))
      ∙ sym (origin_before x (value r.first) (r ∷ rows) lt (le_refl _, o.0))
]
