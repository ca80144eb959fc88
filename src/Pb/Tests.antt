-- ===== src/Pb/Tests.antt =====
-- The theorems on peers and addresses in records, at concrete inputs.
use go_libp2p_peerstore.Prelude.{[], ◌++◌, ◌∷◌, some, Bytes, bytes_eq, int_eq, ◌≡◌, refl}
use go_libp2p_peerstore.Prelude.{drop}
use go_libp2p_peerstore.Prelude.{arith}
use go_libp2p_peerstore.Pb.{
  ProtoPeerId, copy_bytes, marshal_id, marshal_id_to, id_size, marshal_addr, marshal_addr_to,
  addr_size, marshal_to_lem,
}

abbrev own : Bytes → Bytes
own b = b

abbrev alice : ProtoPeerId
alice = record { id = 1 ∷ 2 ∷ [] }

-- A buffer that is too short gets the front only.
too_short : marshal_id_to alice (9 ∷ []) ≡ (1, 1 ∷ [])
unfolding marshal_id_to copy_bytes
too_short = refl

marshal_to_lem_example :
    (marshal_id_to alice (9 ∷ 9 ∷ 9 ∷ [])
      ≡ (id_size alice, marshal_id alice ++ drop (id_size alice) (9 ∷ 9 ∷ 9 ∷ [])))
    × (marshal_addr_to own (λ b. some b) (4 ∷ []) (9 ∷ 9 ∷ 9 ∷ []) ≡ (
      addr_size own (λ b. some b) (4 ∷ []),
      marshal_addr own (λ b. some b) (4 ∷ [])
          ++ drop (addr_size own (λ b. some b) (4 ∷ [])) (9 ∷ 9 ∷ 9 ∷ []),
    ))
unfolding id_size addr_size
marshal_to_lem_example =
    marshal_to_lem own (λ b. some b) alice (4 ∷ []) (9 ∷ 9 ∷ 9 ∷ []) (omega arith) (omega arith)
