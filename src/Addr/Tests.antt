-- ===== src/Addr/Tests.antt =====
-- The packages' examples, and the theorems at concrete inputs.
use go_libp2p_peerstore.Prelude.{
  ℕ, Bool, true, false, ◌&&◌, List, [], ◌∷◌, map, some, Bytes, bytes_eq, bytes_beq, int_eq, ◌≡◌,
  refl,
}
use go_libp2p_peerstore.Prelude.Maps.{lookup, insert, contains, IsDistinct}
use go_libp2p_peerstore.Prelude.{nat_eq}
use go_libp2p_peerstore.Prelude.Fresh.{fresh}
use go_libp2p_peerstore.Addr.Sorting.{less, clash, swap, less_both_ways}
use go_libp2p_peerstore.Addr.Sources.{combined_addrs, unique_addrs, unique_addrs-combined_addrs}

-- An address of the sorting test: loopback, needs a file descriptor, and its bytes.
pub record Sample : Type 0 where
  pub loopback : Bool
  pub costly : Bool
  pub raw : Bytes

abbrev raw_of : Sample → Bytes
raw_of s = s.raw

abbrev loopback_of : Sample → Bool
loopback_of s = s.loopback

abbrev costly_of : Sample → Bool
costly_of s = s.costly

-- `/ip4/152.12.23.53/udp/1234/utp` and `/ip4/127.0.0.1/tcp/1234` of the test.
abbrev u1 : Sample
u1 = record { loopback = false; costly = false; raw = 152 ∷ [] }

abbrev local : Sample
local = record { loopback = true; costly = true; raw = 127 ∷ [] }

abbrev norm : Sample
norm = record { loopback = false; costly = true; raw = 6 ∷ [] }

-- Two addresses of the package's own test stand each before the other.
both :
    (less raw_of loopback_of costly_of u1 local ≡ true)
    × (less raw_of loopback_of costly_of local u1 ≡ true)
unfolding less
both = (refl, refl)

less_both_ways_example :
    (less raw_of loopback_of costly_of u1 local && less raw_of loopback_of costly_of local u1)
    ≡ clash raw_of loopback_of costly_of u1 local
less_both_ways_example = less_both_ways raw_of loopback_of costly_of u1 local

abbrev other : Sample
other = record norm { raw = 5 ∷ [] }

abbrev own : Bytes → Bytes
own a = a

abbrev sources : List (List Bytes)
sources = ((1 ∷ []) ∷ (2 ∷ []) ∷ []) ∷ ((2 ∷ []) ∷ (3 ∷ []) ∷ []) ∷ []

unique_sources : unique_addrs own sources ≡ (1 ∷ []) ∷ (2 ∷ []) ∷ (3 ∷ []) ∷ []
unfolding unique_addrs lookup insert bytes_beq
unique_sources = refl

swapped : swap {A = ℕ} (1 ∷ 2 ∷ 3 ∷ []) 0 2 ≡ some (3 ∷ 2 ∷ 1 ∷ [])
unfolding swap
swapped = refl

unique_addrs-combined_addrs_example :
    (unique_addrs own sources ≡ fresh own [] (combined_addrs sources))
    × IsDistinct (map own (unique_addrs own sources))
    × ((k : Bytes)
        → contains k (map own (unique_addrs own sources))
          ≡ contains k (map own (combined_addrs sources)))
unique_addrs-combined_addrs_example = unique_addrs-combined_addrs own sources
