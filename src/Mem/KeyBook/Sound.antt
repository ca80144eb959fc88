-- ===== src/Mem/KeyBook/Sound.antt =====
-- What the keys of a book have to do with its peers.
use go_libp2p_peerstore.Prelude.{
  Bool, true, Option, none, some, Bytes, bytes_eq, ◌≡◌, ◌==◌, ==_iff, arith, inl, inr, Bool-cases,
  Option-cases, ◌⊎◌, refl, ap,
}
use mathlib.Core.Path.{subst}
use go_libp2p_peerstore.Prelude.Maps.{lookup, insert, lookup-insert}
use go_libp2p_peerstore.Mem.KeyBook.{
  MemoryKeyBook, KeyError, id_does_not_match, new_key_book, held_pub_key, pub_key, add_pub_key,
  add_priv_key,
}

module _ {PubKey PrivKey : Type 0} (extract_public_key : Bytes → Option PubKey × Bool)
    (matches_public_key : Bytes → PubKey → Bool)
    (matches_private_key : Bytes → PrivKey → Bool) where
  -- A public key of the peer: it matches, or it is the extracted one, which `PubKey` does not check.
  abbrev pub IsKeyOf : Bytes → Option PubKey → Type 0
  IsKeyOf p pk =
      ((k : PubKey) × (pk ≡ some k) × (matches_public_key p k ≡ true))
      ⊎ (extract_public_key p ≡ (pk, true))

  -- Every key of the book is its peer's.
  pub record IsSound (b : MemoryKeyBook PubKey PrivKey) : Type 0 where
    pub public : (p : Bytes) (pk : Option PubKey) → lookup p b.pks ≡ some pk → IsKeyOf p pk
    pub private :
        (p : Bytes) (sk : PrivKey) → lookup p b.sks ≡ some sk → matches_private_key p sk ≡ true

  insert_public-IsSound :
      (p : Bytes) (pk : Option PubKey) (b : MemoryKeyBook PubKey PrivKey)
      → IsKeyOf p pk
      → IsSound b
      → IsSound (record b { pks = insert p pk b.pks })
  insert_public-IsSound p pk b fits s = record {
    public = λ q other found. elim (Bool-cases (p == q)) [
      | inl same ↦
          let held : pk ≡ other = ground (arith, lookup-insert p q pk b.pks) in
          subst (λ k. IsKeyOf q k) held (subst (λ x. IsKeyOf x pk) ((==_iff p q).0 same) fits)
      | inr differs ↦ s.public q other (ground (arith, lookup-insert p q pk b.pks))
    ];
    private = s.private;
  }

  insert_private-IsSound :
      (p : Bytes) (sk : PrivKey) (b : MemoryKeyBook PubKey PrivKey)
      → matches_private_key p sk ≡ true
      → IsSound b
      → IsSound (record b { sks = insert p sk b.sks })
  insert_private-IsSound p sk b fits s = record {
    public = s.public;
    private = λ q other found. elim (Bool-cases (p == q)) [
      | inl same ↦
          let held : sk ≡ other = ground (arith, lookup-insert p q sk b.sks) in
          let peer = (==_iff p q).0 same in cc
      | inr differs ↦ s.private q other (ground (arith, lookup-insert p q sk b.sks))
    ];
  }

  pub_key-IsSound :
      (p : Bytes) (b : MemoryKeyBook PubKey PrivKey)
      → IsSound b
      → IsSound (pub_key extract_public_key p b).1
  unfolding pub_key
  pub_key-IsSound p b s = elim (Option-cases (held_pub_key p b)) [
    | inl missing ↦ elim (Bool-cases (extract_public_key p).1) [
      | inl ok ↦
          rw (pub_key, missing, ok)
            (insert_public-IsSound p (extract_public_key p).0 b
              (inr (ap (λ x. ((extract_public_key p).0, x)) ok)) s)
      | inr bad ↦ rw (pub_key, missing, bad) s
    ]
    | inr (pk, held) ↦ rw (pub_key, held) s
  ]

  add_pub_key-IsSound :
      (p : Bytes) (pk : PubKey) (b : MemoryKeyBook PubKey PrivKey)
      → IsSound b
      → (r : Option KeyError × MemoryKeyBook PubKey PrivKey) × (add_pub_key matches_public_key p
            (some pk)
            b
          ≡ some r)
        × IsSound r.1
  unfolding add_pub_key
  add_pub_key-IsSound p pk b s = elim (Bool-cases (matches_public_key p pk)) [
    | inl fits ↦ (
      (none, record b { pks = insert p (some pk) b.pks }),
      ground arith,
      insert_public-IsSound p (some pk) b (inl (pk, refl, fits)) s,
    )
    | inr other ↦ ((some id_does_not_match, b), ground arith, s)
  ]

  add_priv_key-IsSound :
      (p : Bytes) (sk : Option PrivKey) (b : MemoryKeyBook PubKey PrivKey)
      → IsSound b
      → IsSound (add_priv_key matches_private_key p sk b).1
  unfolding add_priv_key
  add_priv_key-IsSound p none b s = s
  add_priv_key-IsSound p (some sk) b s = elim (Bool-cases (matches_private_key p sk)) [
    | inl fits ↦ rw fits (insert_private-IsSound p sk b fits s)
    | inr other ↦ rw other s
  ]

  -- In a new book, and after every `PubKey`, `AddPubKey` and `AddPrivKey`, whatever the key they are
  -- given: a public key that is kept for a peer matches the peer or is the one that was extracted from
  -- it without an error, and a private key matches the peer. `AddPubKey` panics on a nil key only.
  pub methods-IsSound :
      IsSound new_key_book
      × ((p : Bytes) (b : MemoryKeyBook PubKey PrivKey)
          → IsSound b
          → IsSound (pub_key extract_public_key p b).1
            × ((pk : PubKey)
                → (r : Option KeyError × MemoryKeyBook PubKey PrivKey) × (add_pub_key
                      matches_public_key p
                      (some pk)
                      b
                    ≡ some r)
                  × IsSound r.1)
            × (add_pub_key matches_public_key p none b ≡ none)
            × ((sk : Option PrivKey) → IsSound (add_priv_key matches_private_key p sk b).1))
  unfolding new_key_book lookup add_pub_key
  methods-IsSound = (
    record { public = λ p pk found. absurd cc; private = λ p sk found. absurd cc },
    λ p b s. (
      pub_key-IsSound p b s,
      λ pk. add_pub_key-IsSound p pk b s,
      refl,
      λ sk. add_priv_key-IsSound p sk b s,
    ),
  )
