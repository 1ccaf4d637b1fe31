-- ===== src/Plugins/Mirror.antt =====
-- attribution/rezmoss.go: the entries of the mirror's feeds, over the parsers of the plugins.
use cloudip.Base.{
  ◌≡◌, refl, sym, inl, inr, false, true, Text, text_eq, ◌==◌, List, [], ◌∷◌, All, Option,
}
use cloudip.Base.Outcome.{Outcome, ok, err, Outcome-cases, ok-inj}
use cloudip.Net.Prefix.{Prefix, prefix_valid}
use cloudip.Record.{Time}
use cloudip.Feed.{Reader}
use cloudip.Feed.Rezmoss.{
  RezmossEntry, Decoded, parse_rezmoss_prefix, rezmoss_items, parse_rezmoss, plain_record,
}
use cloudip.Plugins.Parsers.{Parsers, IsLawful, IsFit, host_prefix, host_prefix-valid}

module _ (P : Parsers) (L : IsLawful P) (t : Text → Option Time) where
  parse_rezmoss_prefix-valid :
      (s : Text) (p : Prefix)
      → parse_rezmoss_prefix P.parse_prefix P.parse_addr t s ≡ ok p
      → prefix_valid p ≡ true
  unfolding parse_rezmoss_prefix host_prefix
  parse_rezmoss_prefix-valid s p h = elim (Outcome-cases (P.parse_prefix s)) [
    | inl (q, e) ↦ rw (sym (ok-inj (rw (e, parse_rezmoss_prefix) at h))) (L.prefix-valid s q e)
    | inr (x, e) ↦ elim (Outcome-cases (P.parse_addr s)) [
      | inr (y, e1) ↦ absurd (let h' = rw (e, e1, parse_rezmoss_prefix) at h in cc)
      | inl (a, e1) ↦
          rw (sym (ok-inj (rw (e, e1, parse_rezmoss_prefix) at h)))
            (host_prefix-valid a (L.addr-valid s a e1))
    ]
  ]

  rezmoss_items-IsFit :
      (provider ref : Text) (elements : List (Outcome RezmossEntry))
      → (provider == []) ≡ false
      → All (IsFit ref) (rezmoss_items P.parse_prefix P.parse_addr t provider ref elements)
  unfolding rezmoss_items plain_record
  rezmoss_items-IsFit provider ref [] named = tt
  rezmoss_items-IsFit provider ref (err e ∷ rest) named = (tt, tt)
  rezmoss_items-IsFit provider ref (ok re ∷ rest) named =
      let others = rezmoss_items-IsFit provider ref rest named in
      elim (Outcome-cases (parse_rezmoss_prefix P.parse_prefix P.parse_addr t re.ip_address)) [
        | inr (e, e1) ↦ rw (e1, rezmoss_items) (tt, others)
        | inl (pre, e1) ↦
            rw (e1, rezmoss_items)
              ((parse_rezmoss_prefix-valid re.ip_address pre e1, named, refl), others)
      ]

  pub parse_rezmoss-IsFit :
      (decode : Reader → Decoded RezmossEntry) (provider ref : Text) (r : Reader)
      → (provider == []) ≡ false
      → All (IsFit ref) (parse_rezmoss P.parse_prefix P.parse_addr t decode provider ref r)
  unfolding parse_rezmoss
  parse_rezmoss-IsFit decode provider ref r named = elim (Outcome-cases (decode r)) [
    | inr (e, e1) ↦ rw (e1, parse_rezmoss) (tt, tt)
    | inl (elements, e1) ↦ rw (e1, parse_rezmoss) (rezmoss_items-IsFit provider ref elements named)
  ]
