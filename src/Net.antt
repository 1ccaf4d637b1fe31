-- ===== src/Net.antt =====
-- What the program uses of Go's `net/netip`, and the interface of `go4.org/netipx`.
pub mod Addr
pub mod Prefix
pub mod Plain
pub mod Mapped
pub mod Netipx
