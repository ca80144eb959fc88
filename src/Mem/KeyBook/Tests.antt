-- ===== src/Mem/KeyBook/Tests.antt =====
-- The theorems about the key book and the metadata at concrete inputs.
use go_libp2p_peerstore.Prelude.{
  ℕ, Bool, true, false, [], ◌∷◌, ◌++◌, Option, none, some, Bytes, bytes_eq, ◌≡◌, nat_beq,
}
use go_libp2p_peerstore.Mem.Metadata.{value, put, get, slash, get-put_collides}
use go_libp2p_peerstore.Mem.KeyBook.{
  MemoryKeyBook, KeyError, new_key_book, pub_key, add_pub_key, add_priv_key,
}
use go_libp2p_peerstore.Mem.KeyBook.Sound.{IsSound, methods-IsSound}

-- A key is a number; a peer of one byte has the key of that number, and only it.
abbrev extract : Bytes → Option ℕ × Bool
extract [] = (none, false)
extract (n ∷ []) = (some n, true)
extract (n ∷ m ∷ p) = (none, false)

abbrev fits : Bytes → ℕ → Bool
fits [] k = false
fits (n ∷ p) k = nat_beq n k

methods-IsSound_example :
    IsSound extract fits fits new_key_book
    × ((p : Bytes) (b : MemoryKeyBook ℕ ℕ)
        → IsSound extract fits fits b
        → IsSound extract fits fits (pub_key extract p b).1
          × ((pk : ℕ)
              → (r : Option KeyError × MemoryKeyBook ℕ ℕ) × (add_pub_key fits p (some pk) b
                  ≡ some r)
                × IsSound extract fits fits r.1)
          × (add_pub_key fits p none b ≡ none)
          × ((sk : Option ℕ) → IsSound extract fits fits (add_priv_key fits p sk b).1))
methods-IsSound_example = methods-IsSound extract fits fits

get-put_collides_example :
    get (1 ∷ []) (2 ∷ [] ++ slash ++ 9 ∷ []) (put (1 ∷ [] ++ slash ++ 2 ∷ []) (9 ∷ []) true [])
    ≡ value true
get-put_collides_example = get-put_collides (1 ∷ []) (2 ∷ []) (9 ∷ []) true []
