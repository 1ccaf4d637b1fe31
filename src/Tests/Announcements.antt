-- ===== src/Tests/Announcements.antt =====
-- Runs for the table of announcements.
use cloudip.Base.{ℕ, ◌≡◌, refl, true, List, [], ◌∷◌, All, arith}
use cloudip.Net.Addr.{v4}
use cloudip.Asn.{AsnRange, coalesce_sorted}
use cloudip.Asn.StepLaw.{IsRow, origin}
use cloudip.Asn.Coalesce.{IsOrdered, origin-coalesce_sorted}

abbrev pub row : ℕ → ℕ → ℕ → AsnRange
row a b asn = record { first = v4 a; last = v4 b; asn = asn; org = [] }

abbrev rows : List AsnRange
rows = row 0x0a000000 0x0a0000ff 13335 ∷ row 0x0a000080 0x0a0001ff 64500 ∷ []

rows-IsRow : All (IsRow true) rows
rows-IsRow = (
  ((refl, omega arith), (refl, omega arith), omega arith),
  (((refl, omega arith), (refl, omega arith), omega arith), tt),
)

rows-IsOrdered : IsOrdered rows
rows-IsOrdered = ((omega arith, tt), (tt, tt))

origin-coalesce_sorted_example : origin (coalesce_sorted rows) 0x0a0000c0 ≡ origin rows 0x0a0000c0
origin-coalesce_sorted_example =
    origin-coalesce_sorted true rows 0x0a0000c0 rows-IsRow rows-IsOrdered
