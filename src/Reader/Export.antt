-- ===== src/Reader/Export.antt =====
-- attribution/export.go: one CSV row per network. The CSV writer is a parameter: it takes a row, or
-- it fails.
use native.Mathlib.Nat.{div-mul-le_self, lt-div-mul-add, one-le-pow, mul-le-mul_right}
use cloudip.Base.{
  ◌⊎◌, ==-sound, Bool, true, false, ℕ, ◌+◌, ◌-◌, ◌*◌, ◌/◌, ◌^◌, ◌≤◌, ◌<◌, ◌≡◌, inl, inr, ◌&&◌, Text,
  codes, List, [], ◌∷◌, ◌++◌, Option, none, some, if◌then◌else◌, leb, arith, ◌==◌, nat_eq,
  Bool-cases,
}
use cloudip.Base.Outcome.{Outcome, ok, err}
use cloudip.Base.Texts.{decimal, join}
use cloudip.Base.Int.{ℤ, pos, negsuc}
use cloudip.Net.Addr.{invalid, v4, v6, is4, bit_len}
use cloudip.Net.Plain.{addr_of}
use cloudip.Net.Prefix.{Prefix, prefix_contains, same_network}
use cloudip.Record.{Error, is_zero}
use cloudip.Reader.{Db, NetworkRecord, networks}

-- `Prefix.Masked`, the value of its address.
unfoldable pub masked_value : Prefix → ℕ → ℕ → ℕ
masked_value p width n = elim (p.addr) [
  | invalid ↦ 0
  | v4 a ↦ a / 2 ^ (width - n) * 2 ^ (width - n)
  | v6 a z ↦ a / 2 ^ (width - n) * 2 ^ (width - n)
]

-- `rangeBounds`, of a valid prefix.
unfoldable pub range_bounds : Prefix → ℕ → ℕ × ℕ
range_bounds p n =
    let bit_len = if is4 p.addr then 32 else 128 in
    let start = masked_value p bit_len n in
    let host_bits = bit_len - n in (start, start + (2 ^ host_bits - 1))

-- `rangeBounds`: an invalid prefix has the length -1 and no address.
unfoldable pub bounds_of : Prefix → ℕ × ℕ
bounds_of p = elim (p.len) [ none ↦ (0, 2 ^ 129 - 1) | some n ↦ range_bounds p n ]

abbrev signed : ℤ → Text
signed (pos n) = decimal n
signed (negsuc n) = b'-' ∷ decimal (n + 1)

-- `csvHeader`
abbrev pub csv_header : List Text
csv_header =
    codes "network_cidr"
    ∷ codes "start_ip_int"
    ∷ codes "end_ip_int"
    ∷ codes "provider"
    ∷ codes "region"
    ∷ codes "services"
    ∷ codes "categories"
    ∷ codes "ipv6"
    ∷ codes "source"
    ∷ codes "synced_at"
    ∷ []

-- `csv.Writer`: its state, and what a write or a flush does to it.
pub record CsvWriter : Type 1 where
  pub State : Type 0
  pub write : List Text → State → State × Option Error
  pub flush : State → State × Option Error

module _ (show_prefix : Prefix → Text) where
  -- The row of one network.
  unfoldable pub csv_row : NetworkRecord → List Text
  csv_row nr =
      let r = nr.attribution in
      let bounds = bounds_of nr.network in
      show_prefix nr.network
      ∷ decimal bounds.0
      ∷ decimal bounds.1
      ∷ r.provider
      ∷ r.region
      ∷ join (codes ",") r.services
      ∷ join (codes ",") r.categories
      ∷ (if r.ipv6 then codes "true" else codes "false")
      ∷ r.source
      ∷ (if is_zero r.synced_at then codes "0" else signed r.synced_at)
      ∷ []

  module _ (W : CsvWriter) where
    -- The loop, with the number of rows so far.
    unfoldable pub export_loop :
        ℕ → List (Outcome NetworkRecord) → W.State → W.State × ℕ × Option Error
    export_loop count [] w =
        let (w', failed) = W.flush w in
        elim failed [
          | none ↦ (w', count, none)
          | some e ↦ (w', count, some (codes "flush csv: " ++ e))
        ]
    export_loop count (err e ∷ rest) w = (w, count, some e)
    export_loop count (ok nr ∷ rest) w =
        let (w', failed) = W.write (csv_row nr) w in
        elim failed [
          | some e ↦ (w', count, some (codes "write csv row: " ++ e))
          | none ↦ export_loop (count + 1) rest w'
        ]

    -- `ExportCSV`
    unfoldable pub export_csv : Db → W.State → W.State × ℕ × Option Error
    export_csv db w =
        let (w', failed) = W.write csv_header w in
        elim failed [
          | some e ↦ (w', 0, some (codes "write csv header: " ++ e))
          | none ↦ export_loop 0 (networks db) w'
        ]

le_cases : (a b : ℕ) → (a ≤ b) ⊎ (b < a)
le_cases a b = ground arith

-- A number lies in the block of size k of another one if it is between the block's ends.
pub same_block :
    (a x k : ℕ) → 0 < k → (a / k == x / k) ≡ (leb (a / k * k) x && leb x (a / k * k + (k - 1)))
unfolding nat_eq
same_block a x k h =
    let low = div-mul-le_self x k in
    let high = lt-div-mul-add {a = x} h in
    elim (Bool-cases (a / k == x / k)) [
      | inl e ↦ rw e (let eq = ==-sound (a / k) (x / k) e in rw eq (ground arith))
      | inr e ↦ rw e (elim (le_cases (a / k + 1) (x / k)) [
        | inl below ↦ (let m = mul-le-mul_right k below in ground arith)
        | inr above ↦
            (let lt : x / k + 1 ≤ a / k = ground (arith, above, e) in
              let m = mul-le-mul_right k lt in ground arith)
      ])
    ]

-- A network of either family, no longer than an address of it, contains an address exactly when the
-- address lies between the two bounds that are exported for it.
pub range_bounds_lem :
    (f : Bool) (a n x : ℕ)
    → n ≤ bit_len (addr_of f a)
    → prefix_contains (record { addr = addr_of f a; len = some n }) (addr_of f x) ≡ (
        leb (bounds_of (record { addr = addr_of f a; len = some n })).0 x
        && leb x (bounds_of (record { addr = addr_of f a; len = some n })).1)
unfolding prefix_contains same_network bounds_of range_bounds masked_value
range_bounds_lem true a n x h = same_block a x (2 ^ (32 - n)) (one-le-pow (32 - n) 2 (omega arith))
range_bounds_lem false a n x h =
    same_block a x (2 ^ (128 - n)) (one-le-pow (128 - n) 2 (omega arith))
