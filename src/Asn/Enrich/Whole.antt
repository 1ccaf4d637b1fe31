-- ===== src/Asn/Enrich/Whole.antt =====
-- `EnrichASN` on one entry, for a consumer that keeps what it is given.
use mathlib.Core.List.{append-nil}
use cloudip.Base.{ℕ, ◌<◌, ◌≡◌, refl, ap, ◌∙◌, Bool, [], ◌∷◌, none, some, if◌then◌else◌}
use cloudip.Base.Streams.{keep_all, each-keep_all}
use cloudip.Net.Prefix.{Prefix, prefix_contains}
use cloudip.Net.Netipx.{Netipx, IsNetwork, IsLawful}
use cloudip.Net.Plain.{size, addr_of}
use cloudip.Record.{Entry}
use cloudip.Build.Normalize.{normalize_prefix}
use cloudip.Asn.{AsnTable}
use cloudip.Asn.StepLaw.{origin}
use cloudip.Asn.Enrich.{enrich_asn, stamp}
use cloudip.Asn.Enrich.Pieces.{stream_items, entry_items, enrich_asn-each}
use cloudip.Asn.Enrich.Cover.{records_at}
use cloudip.Asn.Enrich.Entries.{IsAsnTable, table_rows, entry_items_at}

module _ (N : Netipx) (L : IsLawful N) (f : Bool) (x : ℕ) (inside : x < size f) where
  one_entry :
      (e : Entry) (t : AsnTable)
      → records_at (stream_items N ((e, none) ∷ []) t) (addr_of f x)
        ≡ records_at (entry_items N e t) (addr_of f x)
  unfolding stream_items
  one_entry e t = rw append-nil refl

  -- An entry of a valid network, and a table in order with no overlap: in what `EnrichASN` yields,
  -- each address of the entry has exactly one record, the entry's own, stamped with the
  -- announcement of the first row that covers the address; no other address has any.
  pub records_at-enrich_asn :
      (e : Entry) (network : Prefix) (t : AsnTable)
      → normalize_prefix e.network ≡ some network
      → IsNetwork f network
      → IsAsnTable t
      → records_at (enrich_asn N keep_all ((e, none) ∷ []) t []).1 (addr_of f x) ≡ (
          if prefix_contains network (addr_of f x)
          then stamp e.attribution (origin (table_rows f t) x) ∷ []
          else [])
  records_at-enrich_asn e network t h n w =
      ap (λ r. records_at r.1 (addr_of f x))
        (enrich_asn-each N keep_all ((e, none) ∷ []) t []
          ∙ each-keep_all (stream_items N ((e, none) ∷ []) t) [])
      ∙ (one_entry e t ∙ entry_items_at N L f x inside e network t h n w)
