-- ===== src/Build/Tree.antt =====
-- The tree of `mmdbwriter`: what `Build` calls, and the documented behaviour of `InsertFunc` in a tree
-- of IPv6 addresses: the inserter is applied to what the tree holds at each place of the network. The
-- IPv4 addresses have their places in ::/96, to which the networks of the tree's aliases lead as well.
-- A network that the tree does not take (one in an alias) is refused whatever the tree holds.
use cloudip.Base.{
  ℕ, ◌+◌, ◌/◌, ◌%◌, ◌^◌, ◌≡◌, Bool, true, false, [], Option, none, some, if◌then◌else◌, ◌==◌,
  nat_eq,
}
use cloudip.Net.Addr.{Addr, invalid, v4, v6, is4}
use cloudip.Net.Prefix.{Prefix, prefix_contains}
use cloudip.Record.{Error}
use cloudip.Storage.{Stored}

-- The place of an address: ::ffff:0:0/96, 2001::/32 and 2002::/16 are aliases of ::/96.
unfoldable pub place : Addr → Addr
place invalid = invalid
place (v4 n) = v6 n []
place (v6 n zone) =
    if n / 2 ^ 32 == 0xffff
    then v6 (n % 2 ^ 32) []
    else if n / 2 ^ 96 == 0x20010000
    then v6 (n / 2 ^ 64 % 2 ^ 32) []
    else if n / 2 ^ 112 == 0x2002
    then v6 (n / 2 ^ 80 % 2 ^ 32) []
    else v6 n zone

-- The network of the tree that a network becomes.
unfoldable pub tree_network : Addr → Option ℕ → Prefix
tree_network (v4 a) (some n) = record { addr = v6 a []; len = some (n + 96) }
tree_network a len = record { addr = a; len = len }

-- The network holds the place of the address.
unfoldable pub tree_contains : Prefix → Addr → Bool
tree_contains p x = prefix_contains (tree_network p.addr p.len) (place x)

-- `net.IPNet`: the address, and the ones and the width of its mask.
pub record IpNet : Type 0 where
  pub ip : Addr
  pub ones : Option ℕ
  pub width : ℕ

unfoldable pub prefix_to_ip_net : Prefix → IpNet
prefix_to_ip_net p = record { ip = p.addr; ones = p.len; width = if is4 p.addr then 32 else 128 }

pub record TreeWriter : Type 1 where
  pub State : Type 0
  pub new : ℕ → ℕ → Option State
  pub insert_func : State → IpNet → (Option Stored → Stored) → Option State
  pub write_to : State → Option Error
  pub holds : State → Addr → Option Stored
  pub accepts : IpNet → Bool

pub record IsLawful (T : TreeWriter) : Type 0 where
  pub holds-new :
      (size epoch : ℕ) (s : T.State) (x : Addr) → T.new size epoch ≡ some s → T.holds s x ≡ none
  pub accepted :
      (s : T.State) (p : Prefix) (f : Option Stored → Stored)
      → T.accepts (prefix_to_ip_net p) ≡ true
      → (s' : T.State) × (T.insert_func s (prefix_to_ip_net p) f ≡ some s')
        × ((x : Addr)
            → T.holds s' x ≡ (if tree_contains p x then some (f (T.holds s x)) else T.holds s x))
  pub refused :
      (s : T.State) (p : Prefix) (f : Option Stored → Stored)
      → T.accepts (prefix_to_ip_net p) ≡ false
      → T.insert_func s (prefix_to_ip_net p) f ≡ none
