-- ===== src/Ds/Book/Represents.antt =====
-- The relation between a `dsAddrBook` and the map that it stands for, and how writing a record keeps it.
use go_libp2p_peerstore.Prelude.{
  ℕ, Bool, true, false, List, [], Option, none, some, Bytes, bytes_eq, int_eq, ℤ, ◌≤ℤ◌, ◌≡◌, ◌≢◌,
  sym, ap, ◌∙◌, ◌==◌, ==_iff, arith, inl, inr, Bool-cases,
}
use mathlib.Core.Path.{subst}
use go_libp2p_peerstore.Prelude.{set, get_elem?, ==_refl}
use go_libp2p_peerstore.Ds.Cache.{Cache}
use go_libp2p_peerstore.Ds.Record.{AddrEntry, AddrsRecord, flushed}
use go_libp2p_peerstore.Ds.Store.{AddrStore, flush}
use go_libp2p_peerstore.Ds.Book.{Cell, DsAddrBook}
use go_libp2p_peerstore.Ds.Book.Laws.{StoreLaws}
use go_libp2p_peerstore.Prelude.Slices.{get_elem?-set, get_elem?-set_other}
use mathlib.Core.Option.{some-injective}
use go_libp2p_peerstore.Ds.Book.Spec.{updated-own, updated-other, SpecBook, updated}
use go_libp2p_peerstore.Ds.Record.Clean.{IsSorted, live_entries}
use go_libp2p_peerstore.Ds.Book.Flush.{
  SameLive, IsWritten, disk, disk-same, IsStored, Flushed, flush-Flushed,
}

module _ {C D K A : Type 0} (cache : Cache C Bytes ℕ) (st : AddrStore D K A) where
  -- The pointer leads to the record of the peer, which has the live entries of `es`.
  pub record IsRecordAt (q : Bytes) (ptr : ℕ) (t : ℤ) (es : List (AddrEntry A))
      (heap : List (Cell A)) : Type 0 where
    pub cell : Cell A
    pub at : get_elem? heap ptr ≡ some cell
    pub written : IsWritten q cell.value
    pub same : SameLive t cell.value.addrs es
    pub nil : cell.is_nil ≡ true → cell.value.addrs ≡ []

  -- What the cache has for each peer is a record of it, for the map `f`.
  abbrev pub AreCached : ℤ → (Bytes → List (AddrEntry A)) → C → List (Cell A) → Type 0
  AreCached t f c heap =
      (q : Bytes) (ptr : ℕ) → cache.peek q c ≡ some ptr → IsRecordAt q ptr t (f q) heap

  -- From `t` on, the book stands for the map `s`: each cached record, and what the datastore holds for
  -- each peer, has the live entries of `s`.
  pub record Represents (t : ℤ) (s : SpecBook A) (b : DsAddrBook C D A) : Type 0 where
    pub cached : AreCached t s.entries b.cache b.heap
    pub on_disk : (q : Bytes) → SameLive t (disk st q b.ds) (s.entries q)
    pub stored : (q : Bytes) → IsStored st q b.ds
    pub subs : b.subs_manager ≡ s.subs_manager

  -- A result that is none stands for a panic in both; otherwise the books agree, and there is no error.
  abbrev pub IsSameOutcome : ℤ → Option (SpecBook A) → Option (Bool × DsAddrBook C D A) → Type 0
  IsSameOutcome t none none = Unit
  IsSameOutcome t (some s) (some (good, b)) = (good ≡ true) × Represents t s b
  IsSameOutcome t none (some r) = ⊥
  IsSameOutcome t (some s) none = ⊥

  -- The map may be exchanged for one with the same live entries, and time may pass.
  pub Represents-later :
      (t u : ℤ) (s s' : SpecBook A) (b : DsAddrBook C D A)
      → t ≤ℤ u
      → ((q : Bytes) → SameLive u (s.entries q) (s'.entries q))
      → s.subs_manager ≡ s'.subs_manager
      → Represents t s b
      → Represents u s' b
  Represents-later t u s s' b h live subs rep = record {
    cached = λ q ptr hit.
        let found = rep.cached q ptr hit in
        record {
          cell = found.cell;
          at = found.at;
          written = found.written;
          same = λ v g. found.same v (omega arith) ∙ live q v g;
          nil = found.nil;
        };
    on_disk = λ q v g. rep.on_disk q v (omega arith) ∙ live q v g;
    stored = rep.stored;
    subs = rep.subs ∙ subs;
  }

  -- Where the cache may have the record of `p`, it has it at `ptr`.
  abbrev pub IsOwner : Bytes → ℕ → C → Type 0
  IsOwner p ptr c = (other : ℕ) → cache.peek p c ≡ some other → other ≡ ptr

  -- To write a record in memory changes that peer's record only.
  pub set-AreCached :
      (t : ℤ) (p : Bytes) (ptr : ℕ) (old new : Cell A) (f g : Bytes → List (AddrEntry A)) (c : C)
      (heap : List (Cell A))
      → AreCached t f c heap
      → IsOwner p ptr c
      → get_elem? heap ptr ≡ some old
      → old.value.id ≡ p
      → IsWritten p new.value
      → SameLive t new.value.addrs (g p)
      → (new.is_nil ≡ true → new.value.addrs ≡ [])
      → ((q : Bytes) → p ≢ q → f q ≡ g q)
      → AreCached t g c (set heap ptr new)
  set-AreCached t p ptr old new f g c heap all owner at own written same nil rest q other hit =
      elim (Bool-cases (p == q)) [
        | inl own_peer ↦
            let e : p ≡ q = (==_iff p q).0 own_peer in
            let here : other ≡ ptr =
              owner other (subst (λ x. cache.peek x c ≡ some other) (sym e) hit) in
            record {
              cell = new;
              at = rw here (get_elem?-set heap ptr new at);
              written = subst (λ x. IsWritten x new.value) e written;
              same = subst (λ x. SameLive t new.value.addrs (g x)) e same;
              nil = nil;
            }
        | inr other_peer ↦
            let found = all q other hit in
            let apart : p ≢ q = λ e. ground (arith, ==_iff p q) in
            let distinct : ptr ≢ other = λ e. apart (
              sym own
              ∙ ap (λ x. x.value.id)
                  (some-injective old found.cell (sym at ∙ ap (get_elem? heap) e ∙ found.at))
              ∙ found.written.peer) in
            record {
              cell = found.cell;
              at = get_elem?-set_other heap ptr other new distinct ∙ found.at;
              written = found.written;
              same = subst (SameLive t found.cell.value.addrs) (rest q apart) found.same;
              nil = found.nil;
            }
      ]

  module _ (laws : StoreLaws st) where
    -- To write a record, where it is in memory and to the datastore, changes the peer's entries.
    pub Represents-written :
        (t : ℤ) (p : Bytes) (ptr : ℕ) (old new : Cell A) (r : AddrsRecord A) (s : SpecBook A)
        (b : DsAddrBook C D A)
        → Represents t s b
        → IsOwner p ptr b.cache
        → get_elem? b.heap ptr ≡ some old
        → old.value.id ≡ p
        → r.id ≡ p
        → IsSorted r.addrs
        → new.value ≡ (flush st r b.ds).1.0
        → (new.is_nil ≡ true → r.addrs ≡ [])
        → Represents t
            (record s { entries = updated p r.addrs s.entries })
            (record b { heap = set b.heap ptr new; ds = (flush st r b.ds).1.1 })
    unfolding flushed
    Represents-written t p ptr old new r s b rep owner at own own' sorted new_is nil = record {
      cached =
          set-AreCached t p ptr old new s.entries (updated p r.addrs s.entries) b.cache b.heap
            rep.cached owner at own
            (record {
              peer = ap (λ x. x.id) new_record ∙ own';
              not_dirty = ap (λ x. x.dirty) new_record;
              sorted = subst IsSorted (sym (ap (λ x. x.addrs) new_record)) sorted;
            })
            (λ v g.
              ap (live_entries v) (
                ap (λ x. x.addrs) new_record ∙ sym (updated-own p p r.addrs s.entries (==_refl p))))
            (λ h. ap (λ x. x.addrs) new_record ∙ nil h)
            (λ q n. sym (updated-other p q r.addrs s.entries (ground (arith, ==_iff p q))));
      on_disk = λ q v g. elim (Bool-cases (p == q)) [
        | inl own_peer ↦ ap (live_entries v) (
            subst (λ x. disk st x (flush st r b.ds).1.1 ≡ r.addrs) ((==_iff p q).0 own_peer) out.own
            ∙ sym (updated-own p q r.addrs s.entries own_peer))
        | inr other_peer ↦
            ap (live_entries v) (disk-same st q _ b.ds (out.others q (apart q other_peer)))
            ∙ rep.on_disk q v g
            ∙ ap (live_entries v) (sym (updated-other p q r.addrs s.entries other_peer))
      ];
      stored = λ q. elim (Bool-cases (p == q)) [
        | inl own_peer ↦
            subst (λ x. IsStored st x (flush st r b.ds).1.1) ((==_iff p q).0 own_peer)
              out.own_stored
        | inr other_peer ↦ λ v e. rep.stored q v (sym (out.others q (apart q other_peer)) ∙ e)
      ];
      subs = rep.subs;
    }
      where
        out : Flushed st laws p r b.ds (flush st r b.ds)
        out = flush-Flushed st laws p r b.ds own' sorted

        apart : (q : Bytes) → (p == q) ≡ false → p ≢ q
        apart q h e = ground (arith, ==_iff p q)

        new_record : new.value ≡ flushed r
        new_record = new_is ∙ out.record_out
