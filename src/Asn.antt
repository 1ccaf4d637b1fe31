-- ===== src/Asn.antt =====
-- attribution/asn.go: the table of announced ranges (`NewASNTable`, `CoalesceASNRanges`).
pub mod StepLaw
pub mod Coalesce
pub mod Enrich
pub mod Table
pub mod Announced
pub mod Built
use cloudip.Base.{
  ℕ, Bool, true, false, not, ◌&&◌, ◌||◌, Text, text_eq, nat_eq, ◌==◌, List, [], ◌∷◌, ◌++◌, length,
  ◌+◌, if◌then◌else◌,
}
use cloudip.Net.Addr.{Addr, is_valid, is4, unmap, addr_le, addr_lt, addr_eq, next}

-- One row of the table: an inclusive range and the system that announces it.
pub record AsnRange : Type 0 where
  pub first : Addr
  pub last : Addr
  pub asn : ℕ
  pub org : Text

pub record AsnTable : Type 0 where
  pub v4 : List AsnRange
  pub v6 : List AsnRange

abbrev pub same_bool : Bool → Bool → Bool
same_bool true b = b
same_bool false b = not b

abbrev pub unmap_row : AsnRange → AsnRange
unmap_row r = record r { first = unmap r.first; last = unmap r.last }

-- The guard of the loop of `NewASNTable`, on unmapped bounds.
unfoldable pub usable : AsnRange → Bool
usable r =
    is_valid r.first
    && is_valid r.last
    && same_bool (is4 r.first) (is4 r.last)
    && not (addr_lt r.last r.first)

unfoldable pub add_row : AsnTable → AsnRange → AsnTable
add_row t r =
    if not (usable r)
    then t
    else if is4 r.first
    then record t { v4 = t.v4 ++ (r ∷ []) }
    else record t { v6 = t.v6 ++ (r ∷ []) }

unfoldable pub add_rows : AsnTable → List AsnRange → AsnTable
add_rows t [] = t
add_rows t (r ∷ rows) = add_rows (add_row t (unmap_row r)) rows

-- What the body of the loop does with one row: drop it, extend `prev`, or append a row.
pub data Step : Type 0 where
  skip : Step
  extend : AsnRange → Step
  append : AsnRange → Step

unfoldable pub coalesce_step : AsnRange → AsnRange → Step
coalesce_step prev r =
    let same_family = same_bool (is4 prev.last) (is4 r.first) in
    let overlap = same_family && addr_le r.first prev.last in
    let after = next prev.last in
    let clamped = if overlap then record r { first = after } else r in
    if overlap && (not (is_valid after) || addr_lt r.last after)
    then skip
    else if same_family && prev.asn == r.asn && prev.org == r.org && addr_eq after clamped.first
    then extend (record prev { last = r.last })
    else append clamped

-- The loop behind the first row, where `prev` is the last row of the output.
unfoldable pub coalesce_loop : AsnRange → List AsnRange → List AsnRange
coalesce_loop prev [] = prev ∷ []
coalesce_loop prev (r ∷ rows) = elim (coalesce_step prev r) [
  | skip ↦ coalesce_loop prev rows
  | extend merged ↦ coalesce_loop merged rows
  | append r' ↦ prev ∷ coalesce_loop r' rows
]

unfoldable pub coalesce_sorted : List AsnRange → List AsnRange
coalesce_sorted [] = []
coalesce_sorted (r ∷ rows) = coalesce_loop r rows

-- `sort.Slice` by `First` is a parameter: it is not stable, so rows that start at one address may
-- come out in any order.
module _ (sort_rows : List AsnRange → List AsnRange) where
  unfoldable pub coalesce_asn_ranges : List AsnRange → List AsnRange
  coalesce_asn_ranges rows = coalesce_sorted (sort_rows rows)

  unfoldable pub new_asn_table : List AsnRange → AsnTable
  new_asn_table rows =
      let t = add_rows (record { v4 = []; v6 = [] }) rows in
      record { v4 = coalesce_asn_ranges t.v4; v6 = coalesce_asn_ranges t.v6 }

unfoldable pub table_len : AsnTable → ℕ
table_len t = length t.v4 + length t.v6
