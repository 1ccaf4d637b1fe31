-- ===== src/Reader/Verify.antt =====
-- attribution/verify.go: the walk over a finished database.
pub mod Times
use cloudip.Base.{
  ℕ, ◌+◌, ◌≡◌, ◌<◌, refl, ◌∙◌, inl, inr, Text, codes, text_eq, nat_eq, ◌==◌, List, [], ◌∷◌, ◌++◌,
  Option, none, some, if◌then◌else◌, length, arith, Bool-cases, ==-sound,
}
use cloudip.Base.Outcome.{Outcome, ok, err}
use cloudip.Base.Dict.{Dict, get, put, get-put}
use cloudip.Base.Int.{int_lt}
use cloudip.Record.{Record, Error, Time, zero_time, is_zero}
use cloudip.Reader.{Db, NetworkRecord, networks}

-- `VerifyReport`
pub record VerifyReport : Type 0 where
  pub networks : ℕ
  pub by_provider : Dict ℕ
  pub ipv4 : ℕ
  pub ipv6 : ℕ
  pub oldest : Time
  pub newest : Time

abbrev pub empty_report : VerifyReport
empty_report = record {
  networks = 0;
  by_provider = [];
  ipv4 = 0;
  ipv6 = 0;
  oldest = zero_time;
  newest = zero_time;
}

-- A count in a Go map: 0 where the key is missing.
abbrev pub count_of : Option ℕ → ℕ
count_of none = 0
count_of (some n) = n

-- `rep.Oldest`, `rep.Newest` behind a record of time t.
unfoldable pub older : Time → Time → Time
older oldest t =
    if is_zero t
    then oldest
    else if is_zero oldest
    then t
    else if int_lt t oldest
    then t
    else oldest

unfoldable pub newer : Time → Time → Time
newer newest t = if is_zero t then newest else if int_lt newest t then t else newest

-- The body of the loop, for a record with a provider.
unfoldable pub count_network : VerifyReport → Record → VerifyReport
count_network rep r = record {
  networks = rep.networks + 1;
  by_provider = put r.provider (count_of (get r.provider rep.by_provider) + 1) rep.by_provider;
  ipv4 = if r.ipv6 then rep.ipv4 else rep.ipv4 + 1;
  ipv6 = if r.ipv6 then rep.ipv6 + 1 else rep.ipv6;
  oldest = older rep.oldest r.synced_at;
  newest = newer rep.newest r.synced_at;
}

unfoldable pub verify_loop :
    VerifyReport → List (Outcome NetworkRecord) → VerifyReport × Option Error
verify_loop rep [] = (rep, none)
verify_loop rep (err e ∷ rest) = (rep, some (codes "verify: " ++ e))
verify_loop rep (ok nr ∷ rest) =
    if nr.attribution.provider == []
    then (rep, some (codes "verify: network has empty provider"))
    else verify_loop (count_network rep nr.attribution) rest

unfoldable pub verify_end : VerifyReport × Option Error → VerifyReport × Option Error
verify_end (rep, some e) = (rep, some e)
verify_end (rep, none) =
    if rep.networks == 0 then (rep, some (codes "verify: database is empty")) else (rep, none)

-- `Verify`: the report so far, and the error that ended the walk.
unfoldable pub verify : Db → VerifyReport × Option Error
verify db = verify_end (verify_loop empty_report (networks db))

-- How many of the networks have a provider.
abbrev pub networks_of : Text → List (Outcome NetworkRecord) → ℕ
networks_of p [] = 0
networks_of p (err e ∷ rest) = networks_of p rest
networks_of p (ok nr ∷ rest) =
    if p == nr.attribution.provider then networks_of p rest + 1 else networks_of p rest

-- How many of the networks are flagged as IPv6, and how many are not.
abbrev pub ipv6_networks : List (Outcome NetworkRecord) → ℕ
ipv6_networks [] = 0
ipv6_networks (err e ∷ rest) = ipv6_networks rest
ipv6_networks (ok nr ∷ rest) =
    if nr.attribution.ipv6 then ipv6_networks rest + 1 else ipv6_networks rest

abbrev pub ipv4_networks : List (Outcome NetworkRecord) → ℕ
ipv4_networks [] = 0
ipv4_networks (err e ∷ rest) = ipv4_networks rest
ipv4_networks (ok nr ∷ rest) =
    if nr.attribution.ipv6 then ipv4_networks rest else ipv4_networks rest + 1

counted :
    (rep : VerifyReport) (r : Record) (p : Text)
    → count_of (get p (count_network rep r).by_provider) ≡ (
        if p == r.provider
        then count_of (get p rep.by_provider) + 1
        else count_of (get p rep.by_provider))
unfolding count_network
counted rep r p = elim (Bool-cases (p == r.provider)) [
  | inl e ↦ ground (
    arith,
    get-put p r.provider (count_of (get r.provider rep.by_provider) + 1) rep.by_provider,
    ==-sound p r.provider e,
  )
  | inr e ↦
      ground (
        arith,
        get-put p r.provider (count_of (get r.provider rep.by_provider) + 1) rep.by_provider,
      )
]

families :
    (rep : VerifyReport) (r : Record)
    → ((count_network rep r).ipv4 ≡ (if r.ipv6 then rep.ipv4 else rep.ipv4 + 1))
      × ((count_network rep r).ipv6 ≡ (if r.ipv6 then rep.ipv6 + 1 else rep.ipv6))
      × ((count_network rep r).networks ≡ rep.networks + 1)
unfolding count_network
families rep r = (refl, refl, refl)

verify_loop_lem :
    (rest : List (Outcome NetworkRecord)) (rep : VerifyReport)
    → (verify_loop rep rest).1 ≡ none
    → ((verify_loop rep rest).0.networks ≡ rep.networks + length rest)
      × ((p : Text)
          → count_of (get p (verify_loop rep rest).0.by_provider)
            ≡ count_of (get p rep.by_provider) + networks_of p rest)
      × ((verify_loop rep rest).0.ipv4 ≡ rep.ipv4 + ipv4_networks rest)
      × ((verify_loop rep rest).0.ipv6 ≡ rep.ipv6 + ipv6_networks rest)
unfolding verify_loop
verify_loop_lem [] rep h = (omega arith, λ p. omega arith, omega arith, omega arith)
verify_loop_lem (err e ∷ rest) rep h = absurd (ground arith)
verify_loop_lem (ok nr ∷ rest) rep h = elim (Bool-cases (nr.attribution.provider == [])) [
  | inl e ↦ absurd (let h' = rw (e, verify_loop) at h in ground arith)
  | inr e ↦
      let h' = rw (e, verify_loop) at h in
      let (total, counts, four, six) = verify_loop_lem rest (count_network rep nr.attribution) h' in
      let (f4, f6, n) = families rep nr.attribution in
      rw (e, verify_loop)
        (
          omega (arith, total, n),
          λ p. counts p ∙ ground (arith, counted rep nr.attribution p),
          ground (arith, four, f4),
          ground (arith, six, f6),
        )
]

verify_end_lem :
    (entries : List (Outcome NetworkRecord)) (r : VerifyReport × Option Error)
    → (verify_end r).1 ≡ none
    → (r.1 ≡ none
        → (r.0.networks ≡ 0 + length entries)
          × ((p : Text)
              → count_of (get p r.0.by_provider) ≡ count_of (get p []) + networks_of p entries)
          × (r.0.ipv4 ≡ 0 + ipv4_networks entries)
          × (r.0.ipv6 ≡ 0 + ipv6_networks entries))
    → ((verify_end r).0.networks ≡ length entries)
      × (0 < (verify_end r).0.networks)
      × ((p : Text) → count_of (get p (verify_end r).0.by_provider) ≡ networks_of p entries)
      × ((verify_end r).0.ipv4 ≡ ipv4_networks entries)
      × ((verify_end r).0.ipv6 ≡ ipv6_networks entries)
unfolding verify_end get nat_eq
verify_end_lem entries (rep, some e) h f = absurd (cc)
verify_end_lem entries (rep, none) h f = elim (Bool-cases (rep.networks == 0)) [
  | inl e ↦ absurd (let h' = rw (e, verify_end) at h in cc)
  | inr e ↦
      let (total, counts, four, six) = f refl in
      rw (e, verify_end)
        (
          omega (arith, total),
          ground arith,
          λ p. omega (arith, counts p),
          omega (arith, four),
          omega (arith, six),
        )
]

-- A walk that ends without an error has counted each network once, under its provider, and as IPv6
-- exactly if its record is flagged so, else as IPv4; and it has found at least one.
pub verify_lem :
    (db : Db)
    → (verify db).1 ≡ none
    → ((verify db).0.networks ≡ length (networks db))
      × (0 < (verify db).0.networks)
      × ((p : Text) → count_of (get p (verify db).0.by_provider) ≡ networks_of p (networks db))
      × ((verify db).0.ipv4 ≡ ipv4_networks (networks db))
      × ((verify db).0.ipv6 ≡ ipv6_networks (networks db))
unfolding verify
verify_lem db h = verify_end_lem (networks db) _ h (verify_loop_lem (networks db) empty_report)
