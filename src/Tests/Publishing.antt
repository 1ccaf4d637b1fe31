-- ===== src/Tests/Publishing.antt =====
-- Runs of `BuildFile`, on a disk that is a function from paths.
use cloudip.Base.{
  ◌≡◌, ◌≢◌, refl, sym, ◌∙◌, inl, inr, true, false, Text, codes, text_eq, nat_eq, ◌==◌, [], Option,
  none, some, if◌then◌else◌, Bool-cases, ==-sound, ==-differs,
}
use cloudip.Base.Outcome.{Outcome, ok, err}
use cloudip.Base.Texts.{decimal, digits_below}
use cloudip.Record.{Error}
use cloudip.Build.{build, finish_build, build_loop, effective_size}
use cloudip.Build.Normalize.{normalize_prefix}
use cloudip.Net.Addr.{is4_in6}
use cloudip.Storage.{to_record}
use cloudip.Reader.{Reader, open_db, networks, networks_from}
use cloudip.Reader.Verify.{verify, verify_loop, verify_end, count_network}
use cloudip.Sync.{
  Files, Limits, SyncResult, build_file, build_temp, cleaned, finish_temp, publish, read_at,
  dropped_too_far, too_many_skipped,
}
use cloudip.Sync.Atomic.{IsSameOrLeft, IsLawful, build_file-fails}
use cloudip.Sync.Published.{IsVerified, build_file-published}
use cloudip.Tests.Builds.{slots, two_entries, opts}
use cloudip.Tests.Readers.{file}

abbrev Disk : Type 0
Disk = Text → Option Text

abbrev tmp_path : Text
tmp_path = codes ".tmp"

abbrev holding : Text → Option Text → Disk → Disk
holding q content d p = if p == q then content else d p

abbrev made : Option Text → Disk → Option (Text × Disk)
made none d = some (tmp_path, holding tmp_path (some []) d)
made (some t) d = none

abbrev pub disk : Files
disk = record {
  Disk = Disk;
  at = λ d p. d p;
  create_temp = λ path d. made (d tmp_path) d;
  write = λ tmp content d. holding tmp (some content) d;
  sync = λ tmp d. (d, none);
  close = λ tmp d. (d, none);
  rename = λ tmp path d. (holding path (d tmp) (holding tmp none d), none);
  remove = λ tmp d. holding tmp none d;
  sync_dir = λ dir d. d;
}

holding-same : (q : Text) (content : Option Text) (d : Disk) → holding q content d q ≡ content
holding-same q content d = elim (Bool-cases (q == q)) [
  | inl e ↦ rw e refl
  | inr e ↦ absurd (==-differs q q e refl)
]

holding-other :
    (q : Text) (content : Option Text) (d : Disk) (p : Text) → p ≢ q → holding q content d p ≡ d p
holding-other q content d p n = elim (Bool-cases (p == q)) [
  | inl e ↦ absurd (n (==-sound p q e))
  | inr e ↦ rw e refl
]

made_new :
    (o : Option Text) (tmp : Text) (d d' : Disk)
    → d tmp_path ≡ o
    → made o d ≡ some (tmp, d')
    → (d tmp ≡ none) × ((q : Text) → q ≢ tmp → d' q ≡ d q)
made_new none tmp d d' h e =
    let t : tmp_path ≡ tmp = cc in
    let u : holding tmp_path (some []) d ≡ d' = cc in
    rw (sym t, sym u) (h, λ q n. holding-other tmp_path (some []) d q n)
made_new (some t) tmp d d' h e = absurd (cc)

pub disk-IsLawful : IsLawful disk
disk-IsLawful = record {
  temp-new = λ path tmp d d' e. made_new (d tmp_path) tmp d d' refl e;
  write-other = λ tmp content q d n. holding-other tmp (some content) d q n;
  write-at = λ tmp content d. holding-same tmp (some content) d;
  sync-at = λ tmp q d. refl;
  close-at = λ tmp q d. refl;
  sync_dir-at = λ dir q d. refl;
  remove-other = λ tmp q d n. holding-other tmp none d q n;
  rename-fails = λ tmp path q d e h. absurd (cc);
  rename-other = λ tmp path q d h n m.
      holding-other path (d tmp) (holding tmp none d) q m ∙ holding-other tmp none d q n;
  rename-at = λ tmp path d h. holding-same path (d tmp) (holding tmp none d);
}

abbrev pub encode : Outcome slots.State → Text
encode t = codes "mmdb"

abbrev pub decode : Text → Outcome Reader
decode content = ok file

abbrev pub old_disk : Disk
old_disk p = if p == codes "cloud.mmdb" then some (codes "old") else none

abbrev pub limits : Limits
limits = record {
  skip_on = true;
  skips_exceed = λ s t. false;
  drop_on = true;
  drops_below = λ a b. false;
}

abbrev pub nothing_built : Error
nothing_built = codes "no networks inserted (0 skipped)"

empty_fails :
    (build_file disk slots encode decode []
      (codes "cloud.mmdb")
      (codes ".")
      opts
      none
      limits
      old_disk).1
    ≡ err nothing_built
unfolding build_file build_temp cleaned build finish_build build_loop effective_size decimal
    digits_below text_eq nat_eq
empty_fails = refl

build_file-fails_example :
    IsSameOrLeft disk old_disk
      (build_file disk slots encode decode []
        (codes "cloud.mmdb")
        (codes ".")
        opts
        none
        limits
        old_disk).0
      (codes "cloud.mmdb")
build_file-fails_example =
    build_file-fails disk slots encode decode disk-IsLawful [] (codes "cloud.mmdb") (codes ".") opts
      none limits old_disk nothing_built empty_fails (codes "cloud.mmdb")

abbrev published : SyncResult
published = record {
  path = codes "cloud.mmdb";
  count = 2;
  skipped = 0;
  report = (verify (record { r = file; idx = none })).0;
}

two_published :
    (build_file disk slots encode decode two_entries
      (codes "cloud.mmdb")
      (codes ".")
      opts
      none
      limits
      old_disk).1
    ≡ ok published
unfolding build_file build_temp cleaned finish_temp publish read_at open_db verify verify_loop
    verify_end count_network networks networks_from to_record dropped_too_far too_many_skipped build
    finish_build build_loop effective_size normalize_prefix is4_in6 text_eq nat_eq
two_published = refl

build_file-published_example :
    (t : slots.State) × ((build slots two_entries opts).1 ≡ ok t)
    × (disk.at
          (build_file disk slots encode decode two_entries
            (codes "cloud.mmdb")
            (codes ".")
            opts
            none
            limits
            old_disk).0
          (codes "cloud.mmdb")
        ≡ some (encode (ok t)))
    × (published.count ≡ (build slots two_entries opts).0.inserted)
    × (too_many_skipped limits (build slots two_entries opts).0 ≡ false)
    × IsVerified none limits (decode (encode (ok t))) published
build_file-published_example =
    build_file-published disk slots encode decode disk-IsLawful two_entries (codes "cloud.mmdb")
      (codes ".") opts none limits old_disk published two_published
