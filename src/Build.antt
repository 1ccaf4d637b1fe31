-- ===== src/Build.antt =====
-- attribution/build.go: `Build`, over the tree of `mmdbwriter`, which is a parameter.
pub mod Normalize
pub mod Merge
pub mod Tree
pub mod Lookup
pub mod Result
pub mod Typed
pub mod Attributed
pub mod Covered
use cloudip.Base.Outcome.{Outcome, ok, err}
use cloudip.Base.{
  ℕ, ◌+◌, Bool, true, false, not, Text, codes, text_eq, nat_eq, ◌==◌, List, [], ◌∷◌, ◌++◌, Option,
  none, some, if◌then◌else◌,
}
use cloudip.Base.Texts.{decimal}
use cloudip.Net.Prefix.{Prefix, prefix_valid}
use cloudip.Record.{Record, Entry, Item, Error}
use cloudip.Storage.{Stored, to_mmdb}
use cloudip.Build.Normalize.{normalize_prefix, is_v6_network}
use cloudip.Build.Merge.{merge_records}
use cloudip.Build.Tree.{TreeWriter, IpNet, prefix_to_ip_net}

pub record BuildStats : Type 0 where
  pub inserted : ℕ
  pub skipped : ℕ

pub record BuildOptions : Type 0 where
  pub record_size : ℕ
  pub description : Option Text
  pub build_epoch : ℕ

-- The defaults at the top of `Build`.
unfoldable pub effective_size : BuildOptions → ℕ
effective_size o = if o.record_size == 0 then 28 else o.record_size

-- What the loop ends with, or an error.
abbrev pub insert_one : BuildStats → BuildStats
insert_one st = record st { inserted = st.inserted + 1 }

abbrev pub skip_one : BuildStats → BuildStats
skip_one st = record st { skipped = st.skipped + 1 }

-- The map that is inserted for an entry on its normalised network.
unfoldable pub entry_map : Entry → Prefix → Stored
entry_map e network =
    let v6 = is_v6_network network in to_mmdb (record (e.attribution) { ipv6 = v6 }) v6

abbrev pub invalid_network : Entry → Error
invalid_network e = codes "invalid network in entry for provider " ++ e.attribution.provider

abbrev pub stream_error : Error → Error
stream_error e = codes "entry stream: " ++ e

module _ (T : TreeWriter) where
  unfoldable pub build_loop : T.State → BuildStats → List Item → BuildStats × Outcome T.State
  build_loop s st [] = (st, ok s)
  build_loop s st ((e, some error) ∷ entries) = (st, err (stream_error error))
  build_loop s st ((e, none) ∷ entries) = elim (prefix_valid e.network) [
    | false ↦ (st, err (invalid_network e))
    | true ↦ elim (normalize_prefix e.network) [
      | none ↦ build_loop s (skip_one st) entries
      | some network ↦
          elim (T.insert_func s (prefix_to_ip_net network) (merge_records (entry_map e network))) [
            | none ↦ build_loop s (skip_one st) entries
            | some s' ↦ build_loop s' (insert_one st) entries
          ]
    ]
  ]

  -- The tests behind the loop, and the write. The file is the tree written out.
  unfoldable pub finish_build : BuildStats × Outcome T.State → BuildStats × Outcome T.State
  finish_build (st, err e) = (st, err e)
  finish_build (st, ok s) =
      if st.inserted == 0
      then (st, err (codes "no networks inserted (" ++ (decimal st.skipped ++ codes " skipped)")))
      else elim (T.write_to s) [
        | none ↦ (st, ok s)
        | some e ↦ (st, err (codes "write mmdb: " ++ e))
      ]

  unfoldable pub build : List Item → BuildOptions → BuildStats × Outcome T.State
  build entries opts =
      let none_yet : BuildStats = record { inserted = 0; skipped = 0 } in
      elim (T.new (effective_size opts) opts.build_epoch) [
        | none ↦ (none_yet, err (codes "new mmdb tree"))
        | some s ↦ finish_build (build_loop s none_yet entries)
      ]
