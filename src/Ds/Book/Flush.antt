-- ===== src/Ds/Book/Flush.antt =====
-- What the datastore holds for a peer, and what `clean` and `flush` do to a record that was read.
use go_libp2p_peerstore.Prelude.{
  Bool, true, false, List, [], ◌∷◌, none, some, Bytes, bytes_eq, int_eq, ℤ, ◌≤ℤ◌, ◌≡◌, ◌≢◌, refl,
  sym, ◌∙◌, arith, inl, inr, Bool-cases, length,
}
use mathlib.Core.Path.{subst}
use go_libp2p_peerstore.Prelude.{nat_beq}
use go_libp2p_peerstore.Mem.Metadata.{value, not_found, failed}
use go_libp2p_peerstore.Ds.Record.{AddrEntry, AddrsRecord, flush_op, flushed, clean}
use go_libp2p_peerstore.Ds.Store.{AddrStore, addr_key, flush, flush_write, write_store}
use go_libp2p_peerstore.Ds.Book.Laws.{StoreLaws}
use go_libp2p_peerstore.Ds.Record.Clean.{
  IsSorted, live_entries, drop-expired_prefix, drop-IsSorted, starts_after-live,
}
use go_libp2p_peerstore.Ds.Record.{expired_prefix, starts_after}

module _ {A : Type 0} where
  -- From `t` on, the lists have the same live entries.
  abbrev pub SameLive : ℤ → List (AddrEntry A) → List (AddrEntry A) → Type 0
  SameLive t es fs = (u : ℤ) → t ≤ℤ u → live_entries u es ≡ live_entries u fs

  pub live_entries-live_entries :
      (now u : ℤ) (es : List (AddrEntry A))
      → now ≤ℤ u
      → live_entries u (live_entries now es) ≡ live_entries u es
  unfolding live_entries
  live_entries-live_entries now u [] h = refl
  live_entries-live_entries now u (e ∷ es) h = ground (arith, live_entries-live_entries now u es h)

  pub live_entries-nil : (now : ℤ) → live_entries {A = A} now [] ≡ []
  unfolding live_entries
  live_entries-nil now = refl

  pub live_entries-IsSorted :
      (now : ℤ) (es : List (AddrEntry A)) → IsSorted es → IsSorted (live_entries now es)
  live_entries-IsSorted now es h =
      subst IsSorted (drop-expired_prefix now es h) (drop-IsSorted (expired_prefix now es) es h)

  -- A record that is written: it belongs to the peer, is sorted and not marked.
  pub record IsWritten (p : Bytes) (r : AddrsRecord A) : Type 0 where
    pub peer : r.id ≡ p
    pub not_dirty : r.dirty ≡ false
    pub sorted : IsSorted r.addrs

  -- On a record that is written, `clean` leaves the live entries.
  pub clean-IsWritten :
      (sort : List (AddrEntry A) → List (AddrEntry A)) (now : ℤ) (p : Bytes) (r : AddrsRecord A)
      → IsWritten p r
      → (clean sort now r).0 ≡ record { id = p; addrs = live_entries now r.addrs; dirty = false }
  unfolding clean
  clean-IsWritten sort now p r w = elim (Bool-cases (starts_after now r.addrs)) [
    | inl quick ↦
        let (all_live, filled) = starts_after-live now r.addrs w.sorted quick in
        ground (arith, w.peer, w.not_dirty, quick, all_live)
    | inr slow ↦ elim (Bool-cases (nat_beq (length r.addrs) 0)) [
      | inl empty ↦
          let none_left : r.addrs ≡ [] = grind arith in
          let none_live : live_entries now r.addrs ≡ [] = rw none_left (live_entries-nil now) in
          ground (arith, w.peer, w.not_dirty, slow, empty, none_left, none_live)
      | inr filled ↦
          ground
            (arith, w.peer, w.not_dirty, slow, filled, drop-expired_prefix now r.addrs w.sorted)
    ]
  ]

module _ {D K A : Type 0} (st : AddrStore D K A) where
  -- What the datastore holds for a peer.
  unfoldable pub disk : Bytes → D → List (AddrEntry A)
  disk p d = elim (st.get (addr_key st p) d) [
    | value v ↦ elim (st.unmarshal v) [ none ↦ [] | some (id, es) ↦ es ]
    | not_found ↦ []
    | failed ↦ []
  ]

  pub disk_not_found : (p : Bytes) (d : D) → st.get (addr_key st p) d ≡ not_found → disk p d ≡ []
  unfolding disk
  disk_not_found p d h = rw (disk, h)

  -- The same bytes are the same entries.
  pub disk-same :
      (p : Bytes) (d e : D)
      → st.get (addr_key st p) d ≡ st.get (addr_key st p) e
      → disk p d ≡ disk p e
  unfolding disk
  disk-same p d e h = rw (disk, h)

  pub disk_value :
      (p v id : Bytes) (es : List (AddrEntry A)) (d : D)
      → st.get (addr_key st p) d ≡ value v
      → st.unmarshal v ≡ some (id, es)
      → disk p d ≡ es
  unfolding disk
  disk_value p v id es d h u = rw (disk, h, u)

  -- What is stored for a peer is its record, sorted.
  abbrev pub IsStored : Bytes → D → Type 0
  IsStored p d =
      (v : Bytes)
      → st.get (addr_key st p) d ≡ value v
      → (es : List (AddrEntry A)) × (st.unmarshal v ≡ some (p, es)) × IsSorted es

  pub not_found-IsStored : (p : Bytes) (d : D) → st.get (addr_key st p) d ≡ not_found → IsStored p d
  not_found-IsStored p d h v e = absurd (found (sym h ∙ e))
    where
      found : not_found ≢ value v
      found q = cc

  pub value-IsStored :
      (p v : Bytes) (es : List (AddrEntry A)) (d : D)
      → st.get (addr_key st p) d ≡ value v
      → st.unmarshal v ≡ some (p, es)
      → IsSorted es
      → IsStored p d
  value-IsStored p v es d h u sorted w e = (
    es,
    subst (λ x. st.unmarshal x ≡ some (p, es)) (let q : value v ≡ value w = sym h ∙ e in cc) u,
    sorted,
  )

  module _ (laws : StoreLaws st) where
    pub other_key : (p q : Bytes) → p ≢ q → addr_key st q ≢ addr_key st p
    other_key p q h e = h (sym (laws.same_key q p e))

    -- `Written p r d`: what a flush leaves, for the peer and for the others.
    pub record Flushed (p : Bytes) (r : AddrsRecord A) (d : D) (out : Bool × (AddrsRecord A × D))
        : Type 0 where
      pub good : out.0 ≡ true
      pub record_out : out.1.0 ≡ flushed r
      pub own : disk p out.1.1 ≡ r.addrs
      pub own_stored : IsStored p out.1.1
      pub others : (q : Bytes) → p ≢ q → st.get (addr_key st q) out.1.1 ≡ st.get (addr_key st q) d

    flush_empty :
        (p : Bytes) (r : AddrsRecord A) (d : D)
        → r.id ≡ p
        → nat_beq (length r.addrs) 0 ≡ true
        → flush st r d ≡ (true, (flushed r, (st.delete (addr_key st p) d).1))
    unfolding flush flush_write write_store flush_op
    flush_empty p r d own h = rw (h, flush, own, laws.delete_works (addr_key st p) d)

    flush_filled :
        (p v : Bytes) (r : AddrsRecord A) (d : D)
        → r.id ≡ p
        → nat_beq (length r.addrs) 0 ≡ false
        → st.marshal p r.addrs ≡ some v
        → flush st r d ≡ (true, (flushed r, (st.put (addr_key st p) v d).1))
    unfolding flush flush_write write_store flush_op
    flush_filled p v r d own h enc =
        rw (h, flush, own, enc, write_store, own, laws.put_works (addr_key st p) v d)

    -- The record of a peer, flushed, is what the datastore holds for it; nothing else changes there.
    pub flush-Flushed :
        (p : Bytes) (r : AddrsRecord A) (d : D)
        → r.id ≡ p
        → IsSorted r.addrs
        → Flushed p r d (flush st r d)
    flush-Flushed p r d own sorted = elim (Bool-cases (nat_beq (length r.addrs) 0)) [
      | inl h ↦
          let none_left : r.addrs ≡ [] = grind arith in
          let gone = laws.get_delete (addr_key st p) d in
          rw (flush_empty p r d own h) (record {
            good = refl;
            record_out = refl;
            own = disk_not_found p _ gone ∙ sym none_left;
            own_stored = not_found-IsStored p _ gone;
            others =
                λ q n. laws.get_delete_other (addr_key st q) (addr_key st p) d (other_key p q n);
          })
      | inr h ↦
          let (v, enc, dec) = laws.unmarshal_marshal p r.addrs in
          let back = laws.get_put (addr_key st p) v d in
          rw (flush_filled p v r d own h enc) (record {
            good = refl;
            record_out = refl;
            own = disk_value p v p r.addrs _ back dec;
            own_stored = value-IsStored p v r.addrs _ back dec sorted;
            others =
                λ q n. laws.get_put_other (addr_key st q) (addr_key st p) v d (other_key p q n);
          })
    ]
