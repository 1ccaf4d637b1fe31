-- ===== src/Server/Steps.antt =====
-- The runs of a service: calls of its methods, and timers that close a replaced handle, in any
-- order. Calls on one mutex or one atomic are steps.
use cloudip.Base.{
  ℕ, ◌<◌, ◌≡◌, refl, sym, ◌⊎◌, inl, inr, Bool, true, false, ◌||◌, codes, ◌∷◌, ◌++◌, Option, none,
  some, ◌==◌, nat_eq, contains, arith, Bool-cases, ==-sound,
}
use cloudip.Base.Outcome.{Outcome, ok, err, Outcome-cases}
use cloudip.Record.{Error}
use cloudip.Reader.{Reader, Db, open_db}
use cloudip.Server.{Handle, Service, after_open, close_handle, swap, prepared, load}

-- Where a handle that was opened may be: closed, handed to a timer that will close it, or installed.
abbrev pub is_current : ℕ → Option Handle → Bool
is_current id none = false
is_current id (some h) = id == h.id

-- Every opened handle is accounted for, and the installed one is open as long as the service is.
pub record IsSound (s : Service) : Type 0 where
  pub installed : (h : Handle) × (s.db ≡ some h) × (h.id < s.opened)
  pub accounted :
      (id : ℕ)
      → id < s.opened
      → (contains s.shut id || contains s.pending id || is_current id s.db) ≡ true
  pub shut-opened : (id : ℕ) → contains s.shut id ≡ true → id < s.opened
  pub pending-opened : (id : ℕ) → contains s.pending id ≡ true → id < s.opened
  pub usable :
      s.closed ≡ false
      → (h : Handle) → s.db ≡ some h
      → (contains s.shut h.id || contains s.pending h.id) ≡ false
  pub ended : s.closed ≡ true → (h : Handle) → s.db ≡ some h → contains s.shut h.id ≡ true

pub load_cases :
    (file : Outcome Reader) (s : Service)
    → ((e : Error) × (load file s ≡ (s, err e)))
      ⊎ ((e : Error) × (load file s ≡ (close_handle s.opened (after_open s), err e)))
      ⊎ ((d : Db) × (load file s ≡ (after_open s, ok (record { id = s.opened; db = d }))))
unfolding load
load_cases file s = elim (Outcome-cases (open_db file)) [
  | inr (e, e1) ↦ inl (e, rw (e1, load) refl)
  | inl (db, e1) ↦ elim (Outcome-cases (prepared s.index db)) [
    | inr (e, e2) ↦ inr (inl (codes "" ++ e, rw (e1, e2, load) refl))
    | inl (d, e2) ↦ inr (inr (d, rw (e1, e2, load) refl))
  ]
]

usable_after_open :
    (s : Service)
    → IsSound s
    → s.closed ≡ false
    → (k : Handle) → s.db ≡ some k
    → ((k.id == s.opened) || contains s.shut k.id || contains s.pending k.id) ≡ false
unfolding nat_eq
usable_after_open s i live k at =
    let (h, at', below) = i.installed in
    let same : h ≡ k = cc in
    let lt : k.id < s.opened = rw (sym same) below in ground (arith, i.usable live k at)

-- A handle that is opened and closed again leaves the rest as it is.
pub open_close-IsSound : (s : Service) → IsSound s → IsSound (close_handle s.opened (after_open s))
unfolding close_handle after_open nat_eq
open_close-IsSound s i =
    let (h, at, below) = i.installed in
    record {
      installed = (h, at, omega (arith, below));
      accounted = λ id lt. elim (Bool-cases (id == s.opened)) [
        | inl e ↦ rw e refl
        | inr e ↦ let a = i.accounted id (ground arith) in ground arith
      ];
      shut-opened = λ id c. ground (arith, i.shut-opened id);
      pending-opened = λ id c. ground (arith, i.pending-opened id c);
      usable = λ live k kat. usable_after_open s i live k kat;
      ended = λ shut k kat. let u = i.ended shut k kat in ground arith;
    }

new_id :
    (s : Service)
    → IsSound s
    → (h : Handle) → h.id < s.opened
    → (k : Handle) → k.id ≡ s.opened
    → (contains s.shut k.id || contains (h.id ∷ s.pending) k.id) ≡ false
unfolding nat_eq
new_id s i h below k e = elim (Bool-cases (contains s.shut k.id)) [
  | inl c ↦ absurd (let lt = i.shut-opened k.id c in omega (arith, lt, e))
  | inr c ↦ elim (Bool-cases (contains s.pending k.id)) [
    | inl p ↦ absurd (let lt = i.pending-opened k.id p in omega (arith, lt, e))
    | inr p ↦ ground arith
  ]
]

abbrev pub handle : ℕ → Db → Handle
handle n d = record { id = n; db = d }

ap_id : {n : ℕ} {d : Db} {k : Handle} → some (handle n d) ≡ some k → k.id ≡ n
ap_id h = cc

-- A new handle takes the place of the installed one, which a timer will close.
pub swap-IsSound :
    (s : Service) (d : Db)
    → s.closed ≡ false
    → IsSound s
    → IsSound (swap (record { id = s.opened; db = d }) (after_open s))
unfolding swap after_open nat_eq
swap-IsSound s d live i =
    let (h, at, below) = i.installed in
    rw at (record {
      installed = (_, refl, omega arith);
      accounted = λ id lt. elim (Bool-cases (id == s.opened)) [
        | inl e ↦ rw e (ground arith)
        | inr e ↦ let a = rw at at (i.accounted id (ground arith)) in ground arith
      ];
      shut-opened = λ id c. ground (arith, i.shut-opened id c);
      pending-opened = λ id c. elim (Bool-cases (id == h.id)) [
        | inl e ↦ ground (arith, ==-sound id h.id e)
        | inr e ↦ ground (arith, i.pending-opened id (rw e at c))
      ];
      usable = λ _ k kat. new_id s i h below k (ap_id kat);
      ended = λ shut k kat. absurd (cc);
    })
