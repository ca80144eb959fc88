-- ===== src/Ds/Book/Load.antt =====
-- `loadRecord`: what it returns, and a record in memory, cleaned and written.
use go_libp2p_peerstore.Prelude.{
  ℕ, Bool, true, false, ◌&&◌, List, [], some, Bytes, bytes_eq, int_eq, ℤ, ◌≤ℤ◌, ◌≡◌, refl, sym, ap,
  ◌∙◌, ◌==◌, ==_iff, arith, inl, inr, Bool-cases,
}
use mathlib.Core.Path.{subst}
use go_libp2p_peerstore.Prelude.{set, get_elem?}
use go_libp2p_peerstore.Ds.Cache.{Cache}
use go_libp2p_peerstore.Ds.Record.{AddrEntry, AddrsRecord, flushed, clean}
use go_libp2p_peerstore.Ds.Store.{AddrStore, flush}
use go_libp2p_peerstore.Ds.Book.{Cell, DsAddrBook, Loaded, clean_flush, load_cached}
use go_libp2p_peerstore.Ds.Book.Laws.{StoreLaws}
use go_libp2p_peerstore.Ds.Book.Spec.{SpecBook, updated, updated-own, updated-other, live_record}
use go_libp2p_peerstore.Ds.Book.Flush.{
  SameLive, IsWritten, flush-Flushed, clean-IsWritten, live_entries-IsSorted, live_entries-nil,
  live_entries-live_entries,
}
use go_libp2p_peerstore.Ds.Book.Represents.{
  IsRecordAt, Represents, IsOwner, Represents-later, Represents-written, set-AreCached,
}
use go_libp2p_peerstore.Ds.Record.Clean.{IsSorted, live_entries}
use go_libp2p_peerstore.Prelude.Slices.{get_elem?-set}

module _ {C D K A : Type 0} (cache : Cache C Bytes ℕ) (st : AddrStore D K A)
    (sort : List (AddrEntry A) → List (AddrEntry A)) where
  -- What `loadRecord` returns for a peer of a book that stands for `s`: a pointer to the record with
  -- the entries that are live now, without an error, and a book that stands for `s` still.
  pub record IsLoaded (now : ℤ) (p : Bytes) (s : SpecBook A) (l : Loaded C D A) : Type 0 where
    pub ptr : ℕ
    pub cell : Cell A
    pub pointer : l.pointer ≡ some ptr
    pub good : l.good ≡ true
    pub at : get_elem? l.book.heap ptr ≡ some cell
    pub live : cell.value ≡ live_record now p s
    pub nil : cell.is_nil ≡ true → cell.value.addrs ≡ []
    pub sorted : IsSorted cell.value.addrs
    pub owner : IsOwner cache st p ptr l.book.cache
    pub represents : Represents cache st now s l.book

  -- A peer's live entries, put in the place of its entries, are the same map from now on.
  pub updated-SameLive :
      (now : ℤ) (p : Bytes) (es : List (AddrEntry A)) (s : SpecBook A) (q : Bytes)
      → es ≡ live_entries now (s.entries p)
      → SameLive now (updated p es s.entries q) (s.entries q)
  updated-SameLive now p es s q h v g = elim (Bool-cases (p == q)) [
    | inl own_peer ↦
        ap (live_entries v) (updated-own p q es s.entries own_peer ∙ h)
        ∙ live_entries-live_entries now v (s.entries p) g
        ∙ ap (λ x. live_entries v (s.entries x)) ((==_iff p q).0 own_peer)
    | inr other_peer ↦ ap (live_entries v) (updated-other p q es s.entries other_peer)
  ]

  clean_found :
      (t now : ℤ) (p : Bytes) (ptr : ℕ) (s : SpecBook A) (heap : List (Cell A))
      → t ≤ℤ now
      → (found : IsRecordAt cache st p ptr t (s.entries p) heap)
      → (clean sort now found.cell.value).0 ≡ live_record now p s
  unfolding live_record
  clean_found t now p ptr s heap le found =
      clean-IsWritten sort now p found.cell.value found.written
      ∙ ap (λ es. record { id = p; addrs = es; dirty = false }) (found.same now le)

  live_record-IsWritten :
      (now : ℤ) (p : Bytes) (s : SpecBook A) (r : AddrsRecord A)
      → r ≡ live_record now p s
      → IsSorted r.addrs
      → IsWritten p r
  unfolding live_record
  live_record-IsWritten now p s r h sorted = record {
    peer = ap (λ x. x.id) h;
    not_dirty = ap (λ x. x.dirty) h;
    sorted = sorted;
  }

  -- A cached record that `clean` changes in memory only.
  kept-IsLoaded :
      (t now : ℤ) (p : Bytes) (ptr : ℕ) (s : SpecBook A) (b : DsAddrBook C D A) (r : AddrsRecord A)
      → t ≤ℤ now
      → Represents cache st t s b
      → IsOwner cache st p ptr b.cache
      → (found : IsRecordAt cache st p ptr t (s.entries p) b.heap) → r ≡ live_record now p s
      → IsSorted r.addrs
      → (found.cell.is_nil ≡ true → r.addrs ≡ [])
      → IsLoaded now p s (record {
        pointer = some ptr;
        good = true;
        book = record b { heap = set b.heap ptr (record found.cell { value = r }) };
      })
  unfolding live_record
  kept-IsLoaded t now p ptr s b r le rep owner found is_live sorted nil =
      let rep' = Represents-later cache st t now s s b le (λ q v g. refl) refl rep in
      record {
        ptr = ptr;
        cell = record found.cell { value = r };
        pointer = refl;
        good = refl;
        at = get_elem?-set b.heap ptr _ found.at;
        live = is_live;
        nil = nil;
        sorted = sorted;
        owner = owner;
        represents = record {
          on_disk = rep'.on_disk;
          stored = rep'.stored;
          subs = rep'.subs;
          cached =
              set-AreCached cache st now p ptr found.cell _ s.entries s.entries b.cache b.heap
                rep'.cached owner found.at found.written.peer
                (live_record-IsWritten now p s r is_live sorted)
                (λ v g.
                  ap (λ x. live_entries v x.addrs) is_live
                  ∙ live_entries-live_entries now v (s.entries p) g)
                nil (λ q n. refl);
        };
      }

  module _ (laws : StoreLaws st) where
    -- A cached record that `clean` changes, and `flush` writes.
    flushed-IsLoaded :
        (t now : ℤ) (p : Bytes) (ptr : ℕ) (s : SpecBook A) (b : DsAddrBook C D A)
        (r : AddrsRecord A)
        → t ≤ℤ now
        → Represents cache st t s b
        → IsOwner cache st p ptr b.cache
        → (found : IsRecordAt cache st p ptr t (s.entries p) b.heap) → r ≡ live_record now p s
        → IsSorted r.addrs
        → (found.cell.is_nil ≡ true → r.addrs ≡ [])
        → IsLoaded now p s (record {
          pointer = some ptr;
          good = (flush st r b.ds).0;
          book = record b {
            heap = set b.heap ptr (record found.cell { value = (flush st r b.ds).1.0 });
            ds = (flush st r b.ds).1.1;
          };
        })
    unfolding live_record flushed
    flushed-IsLoaded t now p ptr s b r le rep owner found is_live sorted nil =
        let own : r.id ≡ p = ap (λ x. x.id) is_live in
        let out = flush-Flushed st laws p r b.ds own sorted in
        let rep' = Represents-later cache st t now s s b le (λ q v g. refl) refl rep in
        record {
          ptr = ptr;
          cell = record found.cell { value = (flush st r b.ds).1.0 };
          pointer = refl;
          good = out.good;
          at = get_elem?-set b.heap ptr _ found.at;
          live = out.record_out ∙ ap flushed is_live;
          nil = λ h. ap (λ x. x.addrs) out.record_out ∙ nil h;
          sorted = subst (λ x. IsSorted x.addrs) (sym out.record_out) sorted;
          owner = owner;
          represents =
              Represents-later cache st now now _ s _ (ground arith)
                (λ q. updated-SameLive now p r.addrs s q (ap (λ x. x.addrs) is_live)) refl
                (Represents-written cache st laws now p ptr found.cell _ r s b rep' owner found.at
                  found.written.peer own sorted refl nil);
        }

    pub load_cached-IsLoaded :
        (t now : ℤ) (p : Bytes) (update : Bool) (ptr : ℕ) (s : SpecBook A) (b : DsAddrBook C D A)
        → t ≤ℤ now
        → Represents cache st t s b
        → IsOwner cache st p ptr b.cache
        → (found : IsRecordAt cache st p ptr t (s.entries p) b.heap)
        → IsLoaded now p s (load_cached cache st sort update now ptr found.cell b)
    unfolding load_cached clean_flush
    load_cached-IsLoaded t now p update ptr s b le rep owner found =
        let r = (clean sort now found.cell.value).0 in
        let is_live = clean_found t now p ptr s b.heap le found in
        let trimmed = clean-IsWritten sort now p found.cell.value found.written in
        let sorted : IsSorted r.addrs =
          subst (λ x. IsSorted x.addrs) (sym trimmed)
            (live_entries-IsSorted now found.cell.value.addrs found.written.sorted) in
        let nil : found.cell.is_nil ≡ true → r.addrs ≡ [] = λ h.
          ap (λ x. x.addrs) trimmed ∙ ap (live_entries now) (found.nil h) ∙ live_entries-nil now in
        elim (Bool-cases ((clean sort now found.cell.value).1 && update)) [
          | inl write ↦
              rw write (flushed-IsLoaded t now p ptr s b r le rep owner found is_live sorted nil)
          | inr keep ↦
              rw keep (kept-IsLoaded t now p ptr s b r le rep owner found is_live sorted nil)
        ]
