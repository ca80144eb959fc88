-- ===== src/Ds/Book/Change.antt =====
-- `setAddrs`, and the map that the book stands for after it.
use go_libp2p_peerstore.Prelude.{
  ℕ, Bool, true, false, ◌&&◌, List, [], some, Bytes, bytes_eq, int_eq, ℤ, ◌≤ℤ◌, ◌+ℤ◌, ◌≡◌, refl, ap,
  ◌∙◌, arith, length,
}
use mathlib.Core.Path.{subst}
use go_libp2p_peerstore.Prelude.{get_elem?, nat_beq}
use go_libp2p_peerstore.Ds.Cache.{Cache}
use go_libp2p_peerstore.Ds.Record.{AddrEntry, AddrsRecord, TtlWriteMode, unix, clean, set_record}
use go_libp2p_peerstore.Ds.Store.{AddrStore}
use go_libp2p_peerstore.Ds.Book.{
  Cell, DsAddrBook, Loaded, Times, load_record, loaded_cell, clean_and_flush, broadcast_each,
  set_loaded, set_addrs_in,
}
use go_libp2p_peerstore.Ds.Book.Laws.{CacheLaws, StoreLaws}
use go_libp2p_peerstore.Ds.Book.Spec.{SpecBook, updated, live_record, spec_set}
use go_libp2p_peerstore.Ds.Book.Flush.{flush-Flushed}
use go_libp2p_peerstore.Ds.Book.Represents.{Represents, IsOwner, Represents-written}
use go_libp2p_peerstore.Ds.Book.Load.{IsLoaded}
use go_libp2p_peerstore.Ds.Book.Fetch.{load_record-IsLoaded}
use go_libp2p_peerstore.Ds.Record.Clean.{SortLaws, IsOrdered, clean-Cleaned}

module _ {A : Type 0} (sort : List (AddrEntry A) → List (AddrEntry A)) where
  pub clean-empty : (now : ℤ) (r : AddrsRecord A) → r.addrs ≡ [] → (clean sort now r).0.addrs ≡ []
  unfolding clean
  clean-empty now r h = rw (h, clean) (ground (arith, h))

module _ {C D K A : Type 0} (cache : Cache C Bytes ℕ) (st : AddrStore D K A)
    (sort : List (AddrEntry A) → List (AddrEntry A)) where
  pub IsLoaded-loaded_cell :
      (now : ℤ) (p : Bytes) (s : SpecBook A) (l : Loaded C D A)
      → (got : IsLoaded cache st sort now p s l)
      → loaded_cell cache st sort l ≡ some (got.ptr, got.cell)
  unfolding loaded_cell
  IsLoaded-loaded_cell now p s l got = rw (loaded_cell, got.pointer, got.good, got.at) refl

  module _ (laws : StoreLaws st) (sort_laws : SortLaws sort) where
    -- `clean` and `flush` of a changed record write its live entries in the place of the peer's.
    pub clean_and_flush-Represents :
        (t now : ℤ) (p : Bytes) (ptr : ℕ) (old cell : Cell A) (s : SpecBook A)
        (b : DsAddrBook C D A)
        → Represents cache st t s b
        → IsOwner cache st p ptr b.cache
        → get_elem? b.heap ptr ≡ some old
        → old.value.id ≡ p
        → cell.value.id ≡ p
        → IsOrdered cell.value
        → (cell.is_nil ≡ true → cell.value.addrs ≡ [])
        → ((clean_and_flush cache st sort now ptr cell b).0 ≡ true)
          × Represents cache st t
              (record s { entries = updated p (clean sort now cell.value).0.addrs s.entries })
              (clean_and_flush cache st sort now ptr cell b).1
    unfolding clean_and_flush
    clean_and_flush-Represents t now p ptr old cell s b rep owner at own own' ordered nil =
        let r = (clean sort now cell.value).0 in
        let done = clean-Cleaned sort sort_laws now cell.value ordered in
        let id = done.same_id ∙ own' in
        (
          (flush-Flushed st laws p r b.ds id done.sorted).good,
          Represents-written cache st laws t p ptr old _ r s b rep owner at own id done.sorted refl
              (λ h. clean-empty sort now cell.value (nil h)),
        )

    module _ (same : A → A → Bool) where
      set_loaded-Represents :
          (mode : TtlWriteMode) (ts : Times) (p : Bytes) (as' : List A) (ttl : ℤ) (s : SpecBook A)
          (l : Loaded C D A)
          → (got : IsLoaded cache st sort (unix ts.load) p s l)
          → ((set_loaded cache st sort same mode ts p as' ttl got.ptr got.cell l.book).0 ≡ true)
            × Represents cache st
                (unix ts.load)
                (spec_set sort same mode ts p as' ttl s)
                (set_loaded cache st sort same mode ts p as' ttl got.ptr got.cell l.book).1
      unfolding set_loaded spec_set live_record set_record
      set_loaded-Represents mode ts p as' ttl s l got =
          let exp = unix (ts.now +ℤ ttl) in
          let out : AddrsRecord A × List A = set_record same mode exp ttl as' got.cell.value in
          let cell : Cell A = record {
            value = out.0;
            is_nil = got.cell.is_nil && nat_beq (length out.0.addrs) 0;
          } in
          let mgr = broadcast_each p out.1 in
          let rep = got.represents in
          let own : got.cell.value.id ≡ p = ap (λ x. x.id) got.live in
          let done =
            clean_and_flush-Represents (unix ts.load) (unix ts.clean) p got.ptr got.cell cell
              (record s { subs_manager = mgr s.subs_manager })
              (record l.book { subs_manager = mgr l.book.subs_manager })
              (record {
                cached = rep.cached;
                on_disk = rep.on_disk;
                stored = rep.stored;
                subs = ap mgr rep.subs;
              })
              got.owner got.at own own (λ h. cc) (λ h. (grind arith)) in
          (
            done.0,
            subst
                (λ r.
                  Represents cache st (unix ts.load)
                    (record {
                      entries =
                          updated p
                            (clean sort (unix ts.clean)
                              (set_record same mode exp ttl as' r).0).0.addrs
                            s.entries;
                      subs_manager =
                          broadcast_each p (set_record same mode exp ttl as' r).1 s.subs_manager;
                    })
                    (set_loaded cache st sort same mode ts p as' ttl got.ptr got.cell l.book).1)
                got.live done.1,
          )

    module _ (cache_laws : CacheLaws cache) (same : A → A → Bool) where
      -- `setAddrs` does to the book what `set_record` and `clean` do to the peer's live entries in the
      -- map, with the same broadcasts, and returns no error.
      pub set_addrs_in-Represents :
          (t : ℤ) (mode : TtlWriteMode) (ts : Times) (p : Bytes) (as' : List A) (ttl : ℤ)
          (s : SpecBook A) (b : DsAddrBook C D A)
          → t ≤ℤ unix ts.load
          → Represents cache st t s b
          → ((set_addrs_in cache st sort same mode ts p as' ttl b).0 ≡ true)
            × Represents cache st
                (unix ts.load)
                (spec_set sort same mode ts p as' ttl s)
                (set_addrs_in cache st sort same mode ts p as' ttl b).1
      unfolding set_addrs_in
      set_addrs_in-Represents t mode ts p as' ttl s b le rep =
          let l = load_record cache st sort p true false (unix ts.load) b in
          let got =
            load_record-IsLoaded cache st sort cache_laws laws t (unix ts.load) p true false s b le
              rep in
          rw (set_addrs_in, IsLoaded-loaded_cell (unix ts.load) p s l got)
            (set_loaded-Represents same mode ts p as' ttl s l got)
