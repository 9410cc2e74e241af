-- ===== src/Mdns.antt =====
-- src/llamaste/net_mdns.h and net_mdns.cpp: the multicast DNS responder's names and packets.
-- A packet is the list of its bytes. The sockets and the thread around them are not modelled.
pub mod Names
pub mod Packets
pub mod Parse
pub mod Safety
pub mod Encoding
pub mod RoundTrip
pub mod Records
pub mod Kinds
pub mod Discovery
mod Tests
use llamaste.Prelude.{
  and_then, ℕ, ◌+◌, ◌*◌, ◌/◌, ◌%◌, Option, none, some, List, [], ◌∷◌, Bytes, get_elem?, leb, length,
  take, drop, if◌then◌else◌,
}

-- A read of memory is `none` where a byte does not belong to the packet.

-- The `n` bytes from `offset`, as a string is made of them.
unfoldable pub slice : Bytes → ℕ → ℕ → Option Bytes
slice pkt offset n = if leb (offset + n) (length pkt) then some (take n (drop offset pkt)) else none

unfoldable pub put_u16 : ℕ → Bytes
put_u16 v = (v / 256 % 256) ∷ (v % 256) ∷ []

unfoldable pub put_u32 : ℕ → Bytes
put_u32 v = (v / 16777216 % 256) ∷ (v / 65536 % 256) ∷ (v / 256 % 256) ∷ (v % 256) ∷ []

unfoldable pub get_u16 : Bytes → ℕ → Option ℕ
get_u16 pkt offset =
    and_then (get_elem? pkt offset)
      λ hi. and_then (get_elem? pkt (offset + 1)) λ lo. some (hi * 256 + lo)
