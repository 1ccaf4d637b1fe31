-- ===== src/Cmd/Lookup.antt =====
-- cmd/cloudattr/query.go: `lookup` and `verify`, behind the parsing of their flags. What is printed
-- is a list of answers; the JSON encoder may refuse one.
use cloudip.Base.{
  ℕ, ◌+◌, ◌↔◌, ◌≤◌, ◌≡◌, refl, sym, ap, suc, length-map, ◌∙◌, inl, inr, Bool, true, false, ◌&&◌,
  ◌||◌, Text, codes, text_eq, nat_eq, ◌==◌, List, [], ◌∷◌, ◌++◌, map, length, Option, none, some,
  if◌then◌else◌, ltb, Bool-cases, arith,
}
use cloudip.Base.Outcome.{Outcome, ok, err}
use cloudip.Base.Texts.{trim_space, has_prefix, decimal, join}
use cloudip.Net.Addr.{Addr}
use cloudip.Base.Int.{pos}
use cloudip.Net.Prefix.{Prefix, prefix_valid}
use cloudip.Record.{Record, Error, is_zero}
use cloudip.Server.Http.{JsonRecord}
use cloudip.Reader.{Db, Metadata, lookup_string}
use cloudip.Reader.Verify.{VerifyReport, verify}

-- The loop of `readIPsFile`, over the lines.
unfoldable pub ips_of : List Text → List Text
ips_of [] = []
ips_of (l ∷ lines) =
    let rest = ips_of lines in
    let line = trim_space l in
    if line == [] || has_prefix line (codes "#") then rest else line ∷ rest

-- `readIPsFile`, over what opening and scanning a path gives: its lines, and the error of the scan.
unfoldable pub read_ips_file :
    (Text → Outcome (List Text × Option Error)) → Text → Outcome (List Text)
read_ips_file scan_path path = elim (scan_path path) [
  | err e ↦ err e
  | ok (lines, failed) ↦ elim failed [ some e ↦ err e | none ↦ ok (ips_of lines) ]
]

-- `fs.Args()`, and behind them the addresses of -f.
unfoldable pub given_ips :
    (Text → Outcome (List Text × Option Error)) → List Text → Text → Outcome (List Text)
given_ips scan_path args [] = ok args
given_ips scan_path args (c ∷ file) = elim (read_ips_file scan_path (c ∷ file)) [
  | err e ↦ err e
  | ok ips ↦ ok (args ++ ips)
]

-- What is printed of one address.
pub data Answer : Type 0 where
  skipped : Text → Error → Answer
  unattributed : Text → Answer
  attributed : Text → Record → Answer

pub record LookupFlags : Type 0 where
  pub format : Text
  pub file : Text
  pub args : List Text

-- `recordMap`
unfoldable pub record_map : (Prefix → Text) → Record → JsonRecord
record_map show_prefix r = record {
  provider = r.provider;
  region = r.region;
  services = r.services;
  categories = r.categories;
  ipv6 = r.ipv6;
  source = r.source;
  synced_at = if is_zero r.synced_at then pos 0 else r.synced_at;
  ext = r.ext;
  network = if prefix_valid r.network then show_prefix r.network else [];
}

-- A line of the text format: the categories, or the services where there is none.
unfoldable pub text_fields : (Prefix → Text) → Text → Record → List Text
text_fields show_prefix ip rec =
    let tags : List Text = elim (rec.categories) [ [] ↦ rec.services | c ∷ cs ↦ c ∷ cs ] in
    ip ∷ rec.provider ∷ rec.region ∷ join (codes ",") tags ∷ show_prefix rec.network ∷ []

-- `runVerify`: what it prints from.
unfoldable pub run_verify : Outcome Db → Outcome (Metadata × VerifyReport)
run_verify (err e) = err e
run_verify (ok db) =
    let (rep, failed) = verify db in elim failed [ some e ↦ err e | none ↦ ok (db.r.metadata, rep) ]

module _ (parse_addr : Text → Outcome Addr) (encode : Answer → Option Error) where
  unfoldable pub answer : Db → Text → Answer
  answer db ip = elim (lookup_string db (parse_addr ip)) [
    | err e ↦ skipped ip e
    | ok found ↦ elim found [ none ↦ unattributed ip | some rec ↦ attributed ip rec ]
  ]

  abbrev pub is_skipped : Answer → Bool
  is_skipped (skipped ip e) = true
  is_skipped _ = false

  -- The error of printing an answer that is not skipped.
  unfoldable pub printed : Bool → Answer → Option Error
  printed json a = if json then encode a else none

  -- One round, behind which the loop gives `rest`.
  unfoldable pub lookup_step :
      Bool → Answer → List Answer × ℕ × Option Error → List Answer × ℕ × Option Error
  lookup_step json a (shown, failures, stopped) =
      if is_skipped a then (a ∷ shown, failures + 1, stopped) else (elim (printed json a) [
        | none ↦ (a ∷ shown, failures, stopped)
        | some e ↦ ([], 0, some e)
      ])

  -- The loop over the addresses: what it prints, the failures, and an error of the encoder.
  unfoldable pub lookup_loop : Bool → Db → List Text → List Answer × ℕ × Option Error
  lookup_loop json db [] = ([], 0, none)
  lookup_loop json db (ip ∷ ips) = lookup_step json (answer db ip) (lookup_loop json db ips)

  -- The end of `runLookup`.
  unfoldable pub lookup_end : ℕ → List Answer × ℕ × Option Error → List Answer × Option Error
  lookup_end count (shown, failures, some e) = (shown, some e)
  lookup_end count (shown, failures, none) =
      if ltb 0 failures && failures == count
      then (shown, some (codes "all " ++ (decimal failures ++ codes " lookups failed")))
      else (shown, none)

  -- `runLookup`, over what opening the database gives.
  unfoldable pub run_lookup :
      (Text → Outcome (List Text × Option Error))
      → Outcome Db
      → LookupFlags
      → List Answer × Option Error
  run_lookup scan_path opened f = elim (given_ips scan_path f.args f.file) [
    | err e ↦ ([], some e)
    | ok [] ↦ ([], some (codes "no IPs given (pass IPs as args or use -f FILE)"))
    | ok (ip ∷ ips) ↦ elim opened [
      | err e ↦ ([], some e)
      | ok db ↦
          lookup_end (length (ip ∷ ips)) (lookup_loop (f.format == codes "json") db (ip ∷ ips))
    ]
  ]

  abbrev pub all_skipped : List Answer → Bool
  all_skipped [] = true
  all_skipped (a ∷ answers) = is_skipped a && all_skipped answers

  abbrev skipped_count : List Answer → ℕ
  skipped_count [] = 0
  skipped_count (a ∷ answers) = skipped_count answers + (if is_skipped a then 1 else 0)

  skipped_count_le : (xs : List Answer) → skipped_count xs ≤ length xs
  skipped_count_le [] = omega arith
  skipped_count_le (a ∷ xs) = ground (arith, skipped_count_le xs)

  skipped_count-all : (xs : List Answer) → (skipped_count xs == length xs) ≡ all_skipped xs
  unfolding nat_eq
  skipped_count-all [] = refl
  skipped_count-all (a ∷ xs) = ground (arith, skipped_count_le xs, skipped_count-all xs)

  lookup_step_lem :
      (json : Bool) (a : Answer) (shown : List Answer) (n : ℕ)
      → printed json a ≡ none
      → lookup_step json a (shown, n, none) ≡ (a ∷ shown, n + (if is_skipped a then 1 else 0), none)
  unfolding lookup_step
  lookup_step_lem json a shown n h = elim (Bool-cases (is_skipped a)) [
    | inl e ↦ rw (e, lookup_step) refl
    | inr e ↦ rw (e, h, lookup_step) (ap (λ k. (a ∷ shown, k, none)) (omega arith))
  ]

  lookup_loop_lem :
      (json : Bool) (db : Db) (ips : List Text)
      → ((a : Answer) → printed json a ≡ none)
      → lookup_loop json db ips ≡ (map (answer db) ips, skipped_count (map (answer db) ips), none)
  unfolding lookup_loop
  lookup_loop_lem json db [] h = refl
  lookup_loop_lem json db (ip ∷ ips) h =
      ap (lookup_step json (answer db ip)) (lookup_loop_lem json db ips h)
      ∙ lookup_step_lem json (answer db ip) _ _ (h (answer db ip))

  lookup_end_lem :
      (m n : ℕ) (shown : List Answer) (b : Bool)
      → (n == suc m) ≡ b
      → ((lookup_end (suc m) (shown, n, none)).0 ≡ shown)
        × (((lookup_end (suc m) (shown, n, none)).1 ≡ none) ↔ (b ≡ false))
  unfolding lookup_end nat_eq
  lookup_end_lem m n shown true h = ground arith
  lookup_end_lem m n shown false h = ground arith

  -- Where the addresses given are some and the database opens, and each answer can be printed, a run
  -- of `lookup` prints the answer to each address in order, and ends with an error exactly if none of
  -- the addresses could be looked up; one without attribution counts as looked up.
  pub run_lookup_lem :
      (scan_path : Text → Outcome (List Text × Option Error)) (f : LookupFlags) (db : Db)
      (ip : Text) (ips : List Text)
      → given_ips scan_path f.args f.file ≡ ok (ip ∷ ips)
      → ((a : Answer) → printed (f.format == codes "json") a ≡ none)
      → ((run_lookup scan_path (ok db) f).0 ≡ map (answer db) (ip ∷ ips))
        × (((run_lookup scan_path (ok db) f).1 ≡ none)
            ↔ (all_skipped (map (answer db) (ip ∷ ips)) ≡ false))
  unfolding run_lookup
  run_lookup_lem scan_path f db ip ips given prints =
      let whole = lookup_loop_lem (f.format == codes "json") db (ip ∷ ips) prints in
      let all = skipped_count-all (map (answer db) (ip ∷ ips)) in
      rw (given, whole, run_lookup)
        (lookup_end_lem (length ips) _ _ _ (
          ap (λ n. skipped_count (map (answer db) (ip ∷ ips)) == n)
            (sym (length-map (answer db) (ip ∷ ips)))
          ∙ all))
