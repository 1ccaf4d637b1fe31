-- ===== src/Net/Plain.antt =====
-- Addresses of one family, without a zone: the operations are those of the numbers.
use mathlib.Core.Path.{ap₂}
use cloudip.Base.{
  ◌∙◌, ℕ, ◌+◌, ◌-◌, ◌^◌, ◌<◌, ◌≤◌, ◌≡◌, refl, Bool, true, false, [], ltb, leb, text_lt_irrefl,
  arith,
}
use cloudip.Net.Addr.{
  Addr, invalid, v4, v6, addr_le, addr_lt, compare_addr, compare_text, next, prev,
}

-- The number of addresses of a family; the flag is `Is4`.
abbrev pub size : Bool → ℕ
size true = 2 ^ 32
size false = 2 ^ 128

abbrev pub addr_of : Bool → ℕ → Addr
addr_of true n = v4 n
addr_of false n = v6 n []

abbrev pub value : Addr → ℕ
value invalid = 0
value (v4 n) = n
value (v6 n _) = n

abbrev pub IsPlain : Bool → Addr → Type 0
IsPlain f a = (a ≡ addr_of f (value a)) × (value a < size f)

pub addr_of-IsPlain : (f : Bool) (n : ℕ) → n < size f → IsPlain f (addr_of f n)
addr_of-IsPlain true n h = (refl, h)
addr_of-IsPlain false n h = (refl, h)

pub addr_le-addr_of : (f : Bool) (m n : ℕ) → addr_le (addr_of f m) (addr_of f n) ≡ leb m n
unfolding addr_le compare_addr compare_text
addr_le-addr_of true m n = ground arith
addr_le-addr_of false m n = ground (arith, text_lt_irrefl [])

pub addr_lt-addr_of : (f : Bool) (m n : ℕ) → addr_lt (addr_of f m) (addr_of f n) ≡ ltb m n
unfolding addr_lt compare_addr compare_text
addr_lt-addr_of true m n = ground (arith, text_lt_irrefl [])
addr_lt-addr_of false m n = ground (arith, text_lt_irrefl [])

pub next-addr_of : (f : Bool) (n : ℕ) → n + 1 < size f → next (addr_of f n) ≡ addr_of f (n + 1)
unfolding next
next-addr_of true n h = ground arith
next-addr_of false n h = ground arith

pub next_last : (f : Bool) (n : ℕ) → size f ≤ n + 1 → next (addr_of f n) ≡ invalid
unfolding next
next_last true n h = ground arith
next_last false n h = ground arith

pub prev-addr_of : (f : Bool) (n : ℕ) → 0 < n → prev (addr_of f n) ≡ addr_of f (n - 1)
unfolding prev
prev-addr_of true n h = ground arith
prev-addr_of false n h = ground arith

module _ (f : Bool) (a b : Addr) (p : IsPlain f a) (q : IsPlain f b) where
  pub addr_le_plain : addr_le a b ≡ leb (value a) (value b)
  addr_le_plain = ap₂ addr_le p.0 q.0 ∙ addr_le-addr_of f (value a) (value b)

  pub addr_lt_plain : addr_lt a b ≡ ltb (value a) (value b)
  addr_lt_plain = ap₂ addr_lt p.0 q.0 ∙ addr_lt-addr_of f (value a) (value b)
