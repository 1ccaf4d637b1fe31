-- ===== src/Reader/Verify/Times.antt =====
-- attribution/verify.go: the oldest and the newest time of a report.
use cloudip.Base.{
  ◌≡◌, refl, Bool, true, false, not, ◌&&◌, ◌||◌, text_eq, nat_eq, ◌==◌, List, [], ◌∷◌, Option, none,
  some, All, Bool-cases, inl, inr, arith,
}
use mathlib.Core.Path.{subst, sym}
use cloudip.Base.Outcome.{Outcome, ok, err}
use cloudip.Base.Int.{ℤ, pos, negsuc, int_lt}
use cloudip.Record.{Record, Time, Error, is_zero}
use cloudip.Reader.{Db, NetworkRecord, networks}
use cloudip.Reader.Verify.{
  VerifyReport, empty_report, older, newer, count_network, verify_loop, verify_end, verify,
}

-- A time that is not set, or one that does not lie before `oldest`, which then is set.
abbrev pub is_not_older : Time → Time → Bool
is_not_older oldest t = is_zero t || (not (is_zero oldest) && not (int_lt t oldest))

-- A time that is not set, or one that does not lie behind `newest`.
abbrev pub is_not_newer : Time → Time → Bool
is_not_newer newest t = is_zero t || not (int_lt newest t)

int_lt_trans : (a b c : ℤ) → int_lt a b ≡ true → int_lt c b ≡ false → int_lt a c ≡ true
int_lt_trans (pos a) (pos b) (pos c) h k = ground arith
int_lt_trans (pos a) (pos b) (negsuc c) h k = ground arith
int_lt_trans (pos a) (negsuc b) c h k = absurd (cc)
int_lt_trans (negsuc a) (pos b) (pos c) h k = ground arith
int_lt_trans (negsuc a) (pos b) (negsuc c) h k = absurd (cc)
int_lt_trans (negsuc a) (negsuc b) (pos c) h k = ground arith
int_lt_trans (negsuc a) (negsuc b) (negsuc c) h k = ground arith

int_lt_irrefl : (a : ℤ) → int_lt a a ≡ false
int_lt_irrefl (pos a) = ground arith
int_lt_irrefl (negsuc a) = ground arith

older_takes : (o t : Time) → is_not_older (older o t) t ≡ true
unfolding older
older_takes o t = ground (arith, int_lt_irrefl t)

older_keeps : (o t x : Time) → is_not_older o x ≡ true → is_not_older (older o t) x ≡ true
unfolding older
older_keeps o t x h = ground (arith, int_lt_trans x t o)

newer_takes : (n t : Time) → is_not_newer (newer n t) t ≡ true
unfolding newer
newer_takes n t = ground (arith, int_lt_irrefl t)

newer_keeps : (n t x : Time) → is_not_newer n x ≡ true → is_not_newer (newer n t) x ≡ true
unfolding newer
newer_keeps n t x h = ground (arith, int_lt_trans n t x, int_lt_trans t x n)

-- The times of a record lie within those of a report.
abbrev pub IsWithin : VerifyReport → Record → Type 0
IsWithin rep r =
    (is_not_older rep.oldest r.synced_at ≡ true) × (is_not_newer rep.newest r.synced_at ≡ true)

count_network-IsWithin : (rep : VerifyReport) (r : Record) → IsWithin (count_network rep r) r
unfolding count_network
count_network-IsWithin rep r =
    (older_takes rep.oldest r.synced_at, newer_takes rep.newest r.synced_at)

count_network-keeps :
    (rep : VerifyReport) (r x : Record) → IsWithin rep x → IsWithin (count_network rep r) x
unfolding count_network
count_network-keeps rep r x h = (
  older_keeps rep.oldest r.synced_at x.synced_at h.0,
  newer_keeps rep.newest r.synced_at x.synced_at h.1,
)

-- What holds of the record of a network, if the walk gives one.
abbrev pub OfRecord : (Record → Type 0) → Outcome NetworkRecord → Type 0
OfRecord P (err e) = ⊥
OfRecord P (ok nr) = P nr.attribution

verify_loop-keeps :
    (rep : VerifyReport) (entries : List (Outcome NetworkRecord)) (x : Record)
    → IsWithin rep x
    → IsWithin (verify_loop rep entries).0 x
unfolding verify_loop
verify_loop-keeps rep [] x h = h
verify_loop-keeps rep (err e ∷ rest) x h = h
verify_loop-keeps rep (ok nr ∷ rest) x h = elim (Bool-cases (nr.attribution.provider == [])) [
  | inl e ↦ rw (e, verify_loop) h
  | inr e ↦
      rw (e, verify_loop)
        (verify_loop-keeps (count_network rep nr.attribution) rest x
          (count_network-keeps rep nr.attribution x h))
]

verify_loop-step :
    (rep : VerifyReport) (nr : NetworkRecord) (rest : List (Outcome NetworkRecord))
    → (nr.attribution.provider == []) ≡ false
    → verify_loop rep (ok nr ∷ rest) ≡ verify_loop (count_network rep nr.attribution) rest
unfolding verify_loop
verify_loop-step rep nr rest e = rw (e, verify_loop) refl

verify_loop-IsWithin :
    (rep : VerifyReport) (entries : List (Outcome NetworkRecord))
    → (verify_loop rep entries).1 ≡ none
    → All (OfRecord (IsWithin (verify_loop rep entries).0)) entries
unfolding verify_loop
verify_loop-IsWithin rep [] h = tt
verify_loop-IsWithin rep (err e ∷ rest) h = absurd (cc)
verify_loop-IsWithin rep (ok nr ∷ rest) h = elim (Bool-cases (nr.attribution.provider == [])) [
  | inl e ↦ absurd (let h' = rw (e, verify_loop) at h in cc)
  | inr e ↦
      let next = count_network rep nr.attribution in
      let step = verify_loop-step rep nr rest e in
      subst (λ r. All (OfRecord (IsWithin r.0)) (ok nr ∷ rest)) (sym step)
        (
          verify_loop-keeps next rest nr.attribution (count_network-IsWithin rep nr.attribution),
          verify_loop-IsWithin next rest (rw (e, verify_loop) at h),
        )
]

verify_end_same :
    (r : VerifyReport × Option Error)
    → (verify_end r).1 ≡ none
    → (r.1 ≡ none) × ((verify_end r).0 ≡ r.0)
unfolding verify_end
verify_end_same (rep, some e) h = absurd (cc)
verify_end_same (rep, none) h = (refl, ground arith)

-- A walk that ends without an error reports bounds: every network of the database decoded, and the
-- time of each record, where it is set, lies neither before the oldest time of the report, which then
-- is set, nor behind the newest.
pub verify-bounds :
    (db : Db) → (verify db).1 ≡ none → All (OfRecord (IsWithin (verify db).0)) (networks db)
unfolding verify
verify-bounds db h =
    let (ended, same) = verify_end_same (verify_loop empty_report (networks db)) h in
    rw same (verify_loop-IsWithin empty_report (networks db) ended)
