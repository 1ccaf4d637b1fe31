-- ===== src/Tests/Answers.antt =====
-- A lookup in the file of a finished build, over a reader that answers from what the tree holds.
use cloudip.Base.{◌≡◌, refl, nat_eq, false, [], Option, none, some}
use cloudip.Net.Addr.{Addr, v4, v6, unmap, is4_in6}
use cloudip.Net.Mapped.{mapped}
use cloudip.Storage.{Stored}
use cloudip.Build.Attributed.{holders}
use cloudip.Reader.{Reader, Result, Db, lookup}
use cloudip.Reader.Built.{Answers, IsAnswer, lookup-build}
use cloudip.Tests.Builds.{slots, slots-IsLawful, two_entries, opts}
use cloudip.Tests.Readers.{found, file}
use cloudip.Tests.Stored.{reader, reader-IsDecoder, after_two, two_built}

abbrev pub answer : Option Stored → Result
answer none = record found { found = false }
answer (some m) = record found { decode = reader m }

abbrev from_slots : Reader
from_slots = record file { lookup = λ ip. answer (after_two (unmap ip)) }

pub no_error_in : (slot : Option Stored) → Result.error (answer slot) ≡ none
no_error_in none = refl
no_error_in (some m) = refl

from_slots-Answers : Answers slots reader after_two from_slots
from_slots-Answers = record {
  no_error = λ ip n e. no_error_in (after_two (unmap ip));
  absent = λ ip n e h. rw (e, h) refl;
  present = λ ip n slot e h. rw (e, h) (refl, refl);
}

abbrev ten_mapped : Addr
ten_mapped = v6 (mapped 0x0a000001) []

ten_unmapped : unmap ten_mapped ≡ v4 0x0a000001
unfolding unmap is4_in6 nat_eq
ten_unmapped = refl

abbrev db : Db
db = record { r = from_slots; idx = none }

lookup-build_example :
    IsAnswer (holders slots.accepts (v4 0x0a000001) two_entries) (lookup db ten_mapped)
lookup-build_example =
    lookup-build slots slots-IsLawful reader reader-IsDecoder after_two db from_slots-Answers
      ten_mapped 0x0a000001 ten_unmapped two_entries opts two_built
