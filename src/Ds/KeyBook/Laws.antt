-- ===== src/Ds/KeyBook/Laws.antt =====
-- What `dsKeyBook` returns for the keys that were added.
use go_libp2p_peerstore.Prelude.{
  true, false, Option, none, some, Bytes, bytes_eq, int_eq, ◌≡◌, ◌≢◌, ◌⊎◌, refl, sym, ap, ◌∙◌, ◌==◌,
  ==_iff, if◌then◌else◌, arith, inl, inr, Bool-cases, Option-cases,
}
use mathlib.Core.Path.{subst}
use go_libp2p_peerstore.Mem.Metadata.{GetResult, value, not_found, failed}
use go_libp2p_peerstore.Ds.KeyBook.{
  KeyStore, KeyCoding, KeyBookError, public_key_at, private_key_at, extracted_key, ds_pub_key,
  put_key, ds_add_pub_key, ds_priv_key, ds_add_priv_key,
}

-- A datastore that stores, and keys of it that are different for different peers.
pub record KeyStoreLaws {D K : Type 0} (ks : KeyStore D K) : Type 0 where
  pub get_put : (k : K) (v : Bytes) (d : D) → ks.get k (ks.put k v d).1 ≡ value v
  pub get_put_other : (j k : K) (v : Bytes) (d : D) → j ≢ k → ks.get j (ks.put k v d).1 ≡ ks.get j d
  pub put_works : (k : K) (v : Bytes) (d : D) → (ks.put k v d).0 ≡ true
  pub same_public : (p q : Bytes) → public_key_at ks p ≡ public_key_at ks q → p ≡ q
  pub same_private : (p q : Bytes) → private_key_at ks p ≡ private_key_at ks q → p ≡ q
  pub public_private : (p q : Bytes) → public_key_at ks p ≢ private_key_at ks q

-- A key reads back as it was turned into bytes.
pub record KeyCodingLaws {PubKey PrivKey : Type 0} (kc : KeyCoding PubKey PrivKey) : Type 0 where
  pub public_round :
      (pk : PubKey)
      → (v : Bytes) × (kc.public_bytes pk ≡ some v) × (kc.unmarshal_public_key v ≡ some pk)
  pub private_round :
      (sk : PrivKey)
      → (v : Bytes) × (kc.private_bytes sk ≡ some v) × (kc.unmarshal_private_key v ≡ some sk)

module _ {D K PubKey PrivKey : Type 0} (ks : KeyStore D K) (kc : KeyCoding PubKey PrivKey)
    (laws : KeyStoreLaws ks) (coding : KeyCodingLaws kc) where
  -- What `PubKey` returns depends on what is stored for the peer only.
  pub_key-same :
      (p : Bytes) (d e : D)
      → ks.get (public_key_at ks p) d ≡ ks.get (public_key_at ks p) e
      → (ds_pub_key ks kc p d).0 ≡ (ds_pub_key ks kc p e).0
  unfolding ds_pub_key extracted_key
  pub_key-same p d e same = (by_answer (ks.get (public_key_at ks p) e) refl)
    where
      extracted : (extracted_key ks kc p d).0 ≡ (extracted_key ks kc p e).0
      extracted = elim (Option-cases (kc.extract_public_key p)) [
        | inl missing ↦ rw (extracted_key, missing) refl
        | inr (pk, found) ↦
            let (v, bytes, back) = coding.public_round pk in
            rw
              (
                extracted_key,
                found,
                bytes,
                laws.put_works (public_key_at ks p) v d,
                laws.put_works (public_key_at ks p) v e,
              )
              refl
      ]

      by_answer :
          (r : GetResult Bytes)
          → ks.get (public_key_at ks p) e ≡ r
          → (ds_pub_key ks kc p d).0 ≡ (ds_pub_key ks kc p e).0
      by_answer (value v) h = rw (ds_pub_key, same, h) refl
      by_answer not_found h = rw (ds_pub_key, same, h) extracted
      by_answer failed h = rw (ds_pub_key, same, h) refl

  pub_key-value :
      (p v : Bytes) (pk : PubKey) (d : D)
      → ks.get (public_key_at ks p) d ≡ value v
      → kc.unmarshal_public_key v ≡ some pk
      → (ds_pub_key ks kc p d).0 ≡ some pk
  unfolding ds_pub_key
  pub_key-value p v pk d h back = rw (ds_pub_key, h) back

  -- The datastore after keys of `p` were put.
  put_both : Bytes → Bytes → Bytes → D → D
  put_both p v w d = (ks.put (private_key_at ks p) w (ks.put (public_key_at ks p) v d).1).1

  public-put_both :
      (p q v w : Bytes) (d : D)
      → (p == q) ≡ false
      → ks.get (public_key_at ks q) (put_both p v w d) ≡ ks.get (public_key_at ks q) d
  unfolding put_both
  public-put_both p q v w d other =
      laws.get_put_other (public_key_at ks q) (private_key_at ks p) w _ (laws.public_private q p)
      ∙ laws.get_put_other (public_key_at ks q) (public_key_at ks p) v d
          (λ e. apart (laws.same_public q p e))
    where
      apart : q ≢ p
      apart e = ground (arith, ==_iff p q)

  public-put_own :
      (p v w : Bytes) (d : D) → ks.get (public_key_at ks p) (put_both p v w d) ≡ value v
  unfolding put_both
  public-put_own p v w d =
      laws.get_put_other (public_key_at ks p) (private_key_at ks p) w _ (laws.public_private p p)
      ∙ laws.get_put (public_key_at ks p) v d

  pub_key-put_both :
      (p q v w : Bytes) (pk : PubKey) (d : D)
      → kc.unmarshal_public_key v ≡ some pk
      → (ds_pub_key ks kc q (put_both p v w d)).0
        ≡ (if p == q then some pk else (ds_pub_key ks kc q d).0)
  pub_key-put_both p q v w pk d back = elim (Bool-cases (p == q)) [
    | inl own ↦ rw own (
        subst (λ x. (ds_pub_key ks kc x (put_both p v w d)).0 ≡ some pk) ((==_iff p q).0 own)
          (pub_key-value p v pk (put_both p v w d) (public-put_own p v w d) back))
    | inr other ↦ rw other (pub_key-same q (put_both p v w d) d (public-put_both p q v w d other))
  ]

  priv_key-put_both :
      (p q v w : Bytes) (sk : PrivKey) (d : D)
      → kc.unmarshal_private_key w ≡ some sk
      → ds_priv_key ks kc q (put_both p v w d) ≡ (if p == q then some sk else ds_priv_key ks kc q d)
  unfolding ds_priv_key put_both
  priv_key-put_both p q v w sk d back = elim (Bool-cases (p == q)) [
    | inl own ↦ rw own (
        subst (λ x. ds_priv_key ks kc x (put_both p v w d) ≡ some sk) ((==_iff p q).0 own)
          (rw (ds_priv_key, put_both, laws.get_put (private_key_at ks p) w _) back))
    | inr other ↦
        let apart : q ≢ p = λ e. ground (arith, ==_iff p q) in
        let same =
          laws.get_put_other (private_key_at ks q) (private_key_at ks p) w
            (ks.put (public_key_at ks p) v d).1 (λ e. apart (laws.same_private q p e))
          ∙ laws.get_put_other (private_key_at ks q) (public_key_at ks p) v d
              (λ e. laws.public_private p q (sym e)) in
        rw other (rw (ds_priv_key, put_both, same) refl)
  ]

  -- After `AddPubKey` and `AddPrivKey` of keys that match the peer, neither of which returns an error,
  -- `PubKey` and `PrivKey` return these keys for the peer, and what they returned before for any other.
  pub added_keys_lem :
      (p q : Bytes) (pk : PubKey) (sk : PrivKey) (d : D)
      → kc.matches_public_key p pk ≡ true
      → kc.matches_private_key p sk ≡ true
      → let d1 : Option KeyBookError × D = ds_add_pub_key ks kc p pk d in
        let d2 : Option KeyBookError × D = ds_add_priv_key ks kc p (some sk) d1.1 in
        (d1.0 ≡ none)
        × (d2.0 ≡ none)
        × ((ds_pub_key ks kc q d2.1).0 ≡ (if p == q then some pk else (ds_pub_key ks kc q d).0))
        × (ds_priv_key ks kc q d2.1 ≡ (if p == q then some sk else ds_priv_key ks kc q d))
  unfolding ds_add_pub_key ds_add_priv_key put_key put_both
  added_keys_lem p q pk sk d right_public right_private =
      let (v, bytes, back) = coding.public_round pk in
      let (w, bytes', back') = coding.private_round sk in
      rw (right_public, right_private, bytes, bytes', put_key)
        (
          rw (laws.put_works (public_key_at ks p) v d) refl,
          rw (laws.put_works (private_key_at ks p) w (ks.put (public_key_at ks p) v d).1) refl,
          pub_key-put_both p q v w pk d back,
          priv_key-put_both p q v w sk d back',
        )

  priv_key-same :
      (p : Bytes) (d e : D)
      → ks.get (private_key_at ks p) d ≡ ks.get (private_key_at ks p) e
      → ds_priv_key ks kc p d ≡ ds_priv_key ks kc p e
  unfolding ds_priv_key
  priv_key-same p d e same = rw (same, ds_priv_key) refl

  -- What `PubKey` stores: nothing, or a key that it then returns.
  IsKept : Bytes → D → Type 0
  IsKept p d =
      ((ds_pub_key ks kc p d).1 ≡ d)
      ⊎ ((v : Bytes) × (pk : PubKey) × (kc.unmarshal_public_key v ≡ some pk)
          × ((ds_pub_key ks kc p d).0 ≡ some pk)
          × ((ds_pub_key ks kc p d).1 ≡ (ks.put (public_key_at ks p) v d).1))

  pub_key-IsKept : (p : Bytes) (d : D) → IsKept p d
  unfolding IsKept ds_pub_key extracted_key
  pub_key-IsKept p d = by_answer (ks.get (public_key_at ks p) d) refl
    where
      by_answer : (r : GetResult Bytes) → ks.get (public_key_at ks p) d ≡ r → IsKept p d
      by_answer (value v) h = inl (rw (ds_pub_key, h) refl)
      by_answer failed h = inl (rw (ds_pub_key, h) refl)
      by_answer not_found h = elim (Option-cases (kc.extract_public_key p)) [
        | inl missing ↦ inl (rw (ds_pub_key, h, extracted_key, missing) refl)
        | inr (pk, found) ↦
            let (v, bytes, back) = coding.public_round pk in
            let works = laws.put_works (public_key_at ks p) v d in
            inr (
              v,
              pk,
              back,
              rw (ds_pub_key, h, extracted_key, found, bytes, works) refl,
              rw (ds_pub_key, h, extracted_key, found, bytes) refl,
            )
      ]

  -- `PubKey`, which may store a key that the peer contains, changes nothing that `PubKey` or `PrivKey`
  -- returns, for no peer.
  pub pub_key-pub_key :
      (p q : Bytes) (d : D)
      → ((ds_pub_key ks kc q (ds_pub_key ks kc p d).1).0 ≡ (ds_pub_key ks kc q d).0)
        × (ds_priv_key ks kc q (ds_pub_key ks kc p d).1 ≡ ds_priv_key ks kc q d)
  unfolding IsKept
  pub_key-pub_key p q d = elim (pub_key-IsKept p d) [
    | inl same ↦ rw same (refl, refl)
    | inr (v, pk, back, here, put) ↦ (
      elim (Bool-cases (p == q)) [
        | inl own ↦
            subst (λ x. (ds_pub_key ks kc x (ds_pub_key ks kc p d).1).0 ≡ (ds_pub_key ks kc x d).0)
              ((==_iff p q).0 own)
              (pub_key-value p v pk _
                  (ap (ks.get (public_key_at ks p)) put ∙ laws.get_put (public_key_at ks p) v d)
                  back
                ∙ sym here)
        | inr other ↦ pub_key-same q _ d (
            ap (ks.get (public_key_at ks q)) put
            ∙ laws.get_put_other (public_key_at ks q) (public_key_at ks p) v d
                (λ e. apart other (laws.same_public q p e)))
      ],
      priv_key-same q _ d (
          ap (ks.get (private_key_at ks q)) put
          ∙ laws.get_put_other (private_key_at ks q) (public_key_at ks p) v d
              (λ e. laws.public_private p q (sym e))),
    )
  ]
    where
      apart : (p == q) ≡ false → q ≢ p
      apart other e = ground (arith, ==_iff p q)
