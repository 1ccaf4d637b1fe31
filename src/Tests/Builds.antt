-- ===== src/Tests/Builds.antt =====
-- Runs for `Build`, over a tree that is a function from addresses.
use cloudip.Base.{
  ◌+◌, ◌<◌, ◌≡◌, refl, sym, ap, true, false, Text, codes, text_eq, nat_eq, List, [], ◌∷◌, Option,
  none, some, if◌then◌else◌, length, arith,
}
use cloudip.Base.Outcome.{ok, err}
use cloudip.Net.Addr.{Addr, v4, is4_in6}
use cloudip.Net.Prefix.{Prefix, no_prefix}
use cloudip.Record.{Record, Entry, Item, Error, zero_time}
use cloudip.Storage.{Stored}
use cloudip.Build.{BuildOptions, build}
use cloudip.Build.Normalize.{normalize_prefix}
use cloudip.Build.Tree.{tree_contains, TreeWriter, IsLawful, IpNet, prefix_to_ip_net}
use cloudip.Build.Lookup.{covering, placed_count, placed}
use cloudip.Build.Result.{first_problem, Sums, build_problem, build_lem}

abbrev pub network_of : IpNet → Prefix
network_of n = record { addr = n.ip; len = n.ones }

abbrev pub Slots : Type 0
Slots = Addr → Option Stored

abbrev empty_slots : Slots
empty_slots x = none

abbrev pub put_slot : Slots → IpNet → (Option Stored → Stored) → Slots
put_slot s n f x = if tree_contains (network_of n) x then some (f (s x)) else s x

abbrev pub slots : TreeWriter
slots = record {
  State = Slots;
  new = λ size epoch. some (λ x. none);
  insert_func = λ s n f. some (put_slot s n f);
  write_to = λ s. none;
  holds = λ s x. s x;
  accepts = λ n. true;
}

some_inj : {A : Type 0} {a b : A} → some a ≡ some b → a ≡ b
some_inj h = cc

first_slots : (x : Addr) (s : Slots) → some empty_slots ≡ some s → s x ≡ none
first_slots x s h = let e : empty_slots ≡ s = some_inj h in ap (λ g. g x) (sym e)

put_slot_at :
    (s : Slots) (p : Prefix) (f : Option Stored → Stored) (x : Addr)
    → put_slot s (prefix_to_ip_net p) f x ≡ (if tree_contains p x then some (f (s x)) else s x)
unfolding prefix_to_ip_net
put_slot_at s p f x = refl

pub slots-IsLawful : IsLawful slots
slots-IsLawful = record {
  holds-new = λ size epoch s x h. first_slots x s h;
  accepted = λ s p f a. (put_slot s (prefix_to_ip_net p) f, refl, λ x. put_slot_at s p f x);
  refused = λ s p f a. absurd (cc);
}

abbrev pub record_of : Text → Record
record_of provider = record {
  provider = provider;
  region = [];
  services = [];
  categories = [];
  ipv6 = false;
  source = [];
  synced_at = zero_time;
  ext = [];
  network = no_prefix;
}

abbrev pub ten_entry : Entry
ten_entry = record {
  network = record { addr = v4 0x0a000000; len = some 8 };
  attribution = record_of (codes "aws");
}

abbrev pub bad_entry : Entry
bad_entry = record { network = no_prefix; attribution = record_of (codes "gcp") }

abbrev pub two_entries : List Item
two_entries = (ten_entry, none) ∷ (ten_entry, none) ∷ []

abbrev bad_entries : List Item
bad_entries = (ten_entry, none) ∷ (bad_entry, none) ∷ []

abbrev pub opts : BuildOptions
opts = record { record_size = 0; description = none; build_epoch = 7 }

abbrev bad_error : Error
bad_error = codes "invalid network in entry for provider gcp"

bad : first_problem bad_entries ≡ some bad_error
unfolding first_problem
bad = refl

build_problem_example : (build slots bad_entries opts).1 ≡ err bad_error
build_problem_example =
    build_problem slots bad_entries opts {s = empty_slots} {error = bad_error} refl bad

counted : 0 < placed_count slots.accepts two_entries
unfolding placed normalize_prefix is4_in6
counted = omega arith

build_lem_example :
    (s' : Slots) × ((build slots two_entries opts).1 ≡ ok s')
    × ((x : Addr) → Sums (covering slots.accepts x two_entries) (s' x))
    × ((build slots two_entries opts).0.inserted ≡ placed_count slots.accepts two_entries)
    × ((build slots two_entries opts).0.inserted + (build slots two_entries opts).0.skipped
        ≡ length two_entries)
build_lem_example =
    build_lem slots slots-IsLawful two_entries opts empty_slots refl (refl, (refl, tt)) counted
      (λ t. refl)
