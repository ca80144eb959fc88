-- ===== src/Ds/Book/Faults.antt =====
-- The methods of `dsAddrBook` where `loadRecord` fails.
use go_libp2p_peerstore.Prelude.{
  ℕ, Bool, true, false, List, [], none, some, Bytes, bytes_eq, int_eq, ℤ, ◌≡◌, refl, ap,
}
use go_libp2p_peerstore.Mem.Metadata.{GetResult, value, not_found, failed}
use go_libp2p_peerstore.Ds.Cache.{Cache}
use go_libp2p_peerstore.Ds.Record.{AddrEntry, TtlWriteMode, unix}
use go_libp2p_peerstore.Ds.Store.{AddrStore, addr_key}
use go_libp2p_peerstore.Ds.Book.{
  DsAddrBook, Times, load_stored, load_record, loaded_cell, set_addrs_in, delete_addrs_in,
  update_addrs, addrs,
}

module _ {C D K A : Type 0} (cache : Cache C Bytes ℕ) (st : AddrStore D K A)
    (sort : List (AddrEntry A) → List (AddrEntry A)) where
  -- The record of a peer cannot be read: the datastore fails, or has bytes that are no record.
  abbrev pub IsUnreadable : GetResult Bytes → Type 0
  IsUnreadable failed = Unit
  IsUnreadable (value v) = st.unmarshal v ≡ none
  IsUnreadable not_found = ⊥

  load_record-unreadable :
      (p : Bytes) (want update : Bool) (now : ℤ) (b : DsAddrBook C D A)
      → (cache.get p b.cache).0 ≡ none
      → IsUnreadable (st.get (addr_key st p) b.ds)
      → load_record cache st sort p want update now b ≡ record {
        pointer = none;
        good = false;
        book = record b { cache = (cache.get p b.cache).1 };
      }
  unfolding load_record load_stored
  load_record-unreadable p want update now b miss bad =
      rw (load_record, miss) (by_answer (st.get (addr_key st p) b.ds) refl bad)
    where
      b' : DsAddrBook C D A
      b' = record b { cache = (cache.get p b.cache).1 }

      by_answer :
          (r : GetResult Bytes)
          → st.get (addr_key st p) b.ds ≡ r
          → IsUnreadable r
          → load_stored cache st sort p want update now b'
            ≡ record { pointer = none; good = false; book = b' }
      by_answer failed h g = rw (load_stored, h) refl
      by_answer (value v) h g = rw (load_stored, h, g) refl
      by_answer not_found h g = absurd g

  module _ (same : A → A → Bool) where
    -- Where a peer's record is not in the cache and cannot be read, `Addrs` returns no addresses,
    -- `setAddrs` and `deleteAddrs` return an error, and nothing is stored, deleted or broadcast; but
    -- `UpdateAddrs` panics.
    pub unreadable_lem :
        (t : Times) (mode : TtlWriteMode) (now ttl old_ttl new_ttl : ℤ) (p : Bytes) (as' : List A)
        (b : DsAddrBook C D A)
        → (cache.get p b.cache).0 ≡ none
        → IsUnreadable (st.get (addr_key st p) b.ds)
        → (addrs cache st sort same now p b ≡ ([], record b { cache = (cache.get p b.cache).1 }))
          × (set_addrs_in cache st sort same mode t p as' ttl b
              ≡ (false, record b { cache = (cache.get p b.cache).1 }))
          × (delete_addrs_in cache st sort same t p as' b
              ≡ some (false, record b { cache = (cache.get p b.cache).1 }))
          × (update_addrs cache st sort same t p old_ttl new_ttl b ≡ none)
    unfolding addrs set_addrs_in delete_addrs_in update_addrs loaded_cell
    unreadable_lem t mode now ttl old_ttl new_ttl p as' b miss bad =
        let reading = load_record-unreadable p true true (unix now) b miss bad in
        let setting = load_record-unreadable p true false (unix t.load) b miss bad in
        let deleting = load_record-unreadable p false false (unix t.load) b miss bad in
        (
          rw (addrs, reading) (ap (λ l. ([], l.book)) reading),
          rw (set_addrs_in, setting) (ap (λ l. (false, l.book)) setting),
          rw (delete_addrs_in, deleting) (ap (λ l. some (false, l.book)) deleting),
          rw (update_addrs, setting) refl,
        )
