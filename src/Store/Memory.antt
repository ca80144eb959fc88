-- ===== src/Store/Memory.antt =====
-- The in-memory metadata store under a peer store.
use go_libp2p_peerstore.Prelude.{ℕ, true, ◌≡◌, ◌∙◌, sym, length}
use go_libp2p_peerstore.Mem.Metadata
use go_libp2p_peerstore.Mem.Metadata.{MemoryPeerMetadata}
use go_libp2p_peerstore.Store.{PeerMetadata}
use go_libp2p_peerstore.Store.Protocols.{KeepsMetadata}

module _ {V : Type 0} where
  -- The methods of `memoryPeerMetadata`, whose errors of `Put` are nil.
  abbrev pub memory_peer_metadata : PeerMetadata (MemoryPeerMetadata V) V
  memory_peer_metadata = record {
    put = λ p key v ds. (true, Metadata.put p key v ds);
    get = Metadata.get;
  }

  -- It keeps what is put, for peers whose identifiers have the same length.
  pub memory_peer_metadata-KeepsMetadata :
      (n : ℕ) → KeepsMetadata memory_peer_metadata (λ p. length p ≡ n) (λ k. Unit)
  memory_peer_metadata-KeepsMetadata n = record {
    get-put = λ p q k j v s hp hq hk hj good. Metadata.get-put p q k j v s (hp ∙ sym hq);
  }
