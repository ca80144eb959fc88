-- ===== src/Ds/Book/Fetch.antt =====
-- `loadRecord`: a record from the cache, from the datastore, or a new one.
use go_libp2p_peerstore.Prelude.{
  ℕ, Bool, true, false, List, [], ◌∷◌, ◌++◌, none, some, Bytes, bytes_eq, int_eq, ℤ, ◌≤ℤ◌, ◌≡◌, ◌≢◌,
  ◌⊎◌, refl, sym, ap, ◌∙◌, if◌then◌else◌, arith, inl, inr, Option-cases, length,
}
use mathlib.Core.Option.{some-injective}
use mathlib.Core.Path.{subst}
use go_libp2p_peerstore.Prelude.{nat_beq}
use go_libp2p_peerstore.Mem.Metadata.{GetResult, value, not_found, failed}
use go_libp2p_peerstore.Ds.Cache.{Cache}
use go_libp2p_peerstore.Ds.Record.{AddrEntry}
use go_libp2p_peerstore.Ds.Store.{AddrStore, addr_key}
use go_libp2p_peerstore.Ds.Book.{
  Cell, DsAddrBook, clean_flush, load_cached, load_new, load_stored, load_record,
}
use go_libp2p_peerstore.Ds.Book.Laws.{CacheLaws, StoreLaws}
use go_libp2p_peerstore.Ds.Book.Spec.{SpecBook, live_record}
use go_libp2p_peerstore.Ds.Book.Flush.{SameLive, live_entries-nil, disk_value, disk_not_found}
use go_libp2p_peerstore.Ds.Book.Represents.{IsRecordAt, Represents, IsOwner, Represents-later}
use go_libp2p_peerstore.Ds.Record.Clean.{live_entries}
use go_libp2p_peerstore.Prelude.Slices.{get_elem?-snoc, get_elem?-append, set-snoc}
use go_libp2p_peerstore.Ds.Book.Load.{IsLoaded, load_cached-IsLoaded}

module _ {C D K A : Type 0} (cache : Cache C Bytes ℕ) (st : AddrStore D K A)
    (sort : List (AddrEntry A) → List (AddrEntry A)) where
  -- The book with a record that is read into memory, and cached if it is asked for.
  unfoldable with_cell : Bytes → Bool → Cell A → DsAddrBook C D A → DsAddrBook C D A
  with_cell p want cell b = record b {
    heap = b.heap ++ cell ∷ [];
    cache = if want then cache.add p (length b.heap) b.cache else b.cache;
  }

  module _ (cache_laws : CacheLaws cache) where
    peek-with_cell :
        (p : Bytes) (want : Bool) (cell : Cell A) (b : DsAddrBook C D A) (q : Bytes) (ptr : ℕ)
        → cache.peek q (with_cell p want cell b).cache ≡ some ptr
        → ((q ≡ p) × (ptr ≡ length b.heap)) ⊎ (cache.peek q b.cache ≡ some ptr)
    unfolding with_cell
    peek-with_cell p false cell b q ptr h = inr h
    peek-with_cell p true cell b q ptr h =
        elim (cache_laws.peek_add q p (length b.heap) ptr b.cache h) [
          | inl new ↦ inl new
          | inr old ↦ inr old.1
        ]

    with_cell-IsOwner :
        (p : Bytes) (want : Bool) (cell : Cell A) (b : DsAddrBook C D A)
        → cache.peek p b.cache ≡ none
        → IsOwner cache st p (length b.heap) (with_cell p want cell b).cache
    with_cell-IsOwner p want cell b miss other hit =
        elim (peek-with_cell p want cell b p other hit) [
          | inl new ↦ new.1
          | inr old ↦ absurd (none_some (sym miss ∙ old))
        ]
      where
        none_some : none ≢ some other
        none_some e = cc

    with_cell-Represents :
        (t : ℤ) (p : Bytes) (want : Bool) (cell : Cell A) (s : SpecBook A) (b : DsAddrBook C D A)
        → Represents cache st t s b
        → IsRecordAt cache st p (length b.heap) t (s.entries p) (b.heap ++ cell ∷ [])
        → Represents cache st t s (with_cell p want cell b)
    unfolding with_cell
    with_cell-Represents t p want cell s b rep here = record {
      on_disk = rep.on_disk;
      stored = rep.stored;
      subs = rep.subs;
      cached = λ q ptr hit. elim (peek-with_cell p want cell b q ptr hit) [
        | inl (e, f) ↦
            subst (λ x. IsRecordAt cache st x ptr t (s.entries x) (b.heap ++ cell ∷ [])) (sym e)
              (subst (λ n. IsRecordAt cache st p n t (s.entries p) (b.heap ++ cell ∷ [])) (sym f)
                here)
        | inr old ↦
            let found = rep.cached q ptr old in
            record {
              cell = found.cell;
              at = get_elem?-append b.heap (cell ∷ []) ptr found.at;
              written = found.written;
              same = found.same;
              nil = found.nil;
            }
      ];
    }

    -- The cache is as it was after a `get`.
    get-Represents :
        (t : ℤ) (p : Bytes) (s : SpecBook A) (b : DsAddrBook C D A)
        → Represents cache st t s b
        → Represents cache st t s (record b { cache = (cache.get p b.cache).1 })
    get-Represents t p s b rep = record {
      cached = λ q ptr hit. rep.cached q ptr (sym (cache_laws.peek_get q p b.cache) ∙ hit);
      on_disk = rep.on_disk;
      stored = rep.stored;
      subs = rep.subs;
    }

    new_record-IsLoaded :
        (t now : ℤ) (p : Bytes) (want : Bool) (s : SpecBook A) (b : DsAddrBook C D A)
        → t ≤ℤ now
        → Represents cache st t s b
        → cache.peek p b.cache ≡ none
        → st.get (addr_key st p) b.ds ≡ not_found
        → IsLoaded cache st sort now p s (
            load_new cache st sort p want true
              (record { value = record { id = p; addrs = []; dirty = false }; is_nil = true })
              b.ds
              b)
    unfolding load_new live_record with_cell
    new_record-IsLoaded t now p want s b le rep miss gone =
        let no_entry : SameLive t [] (s.entries p) =
          λ v g. ap (live_entries v) (sym (disk_not_found st p b.ds gone)) ∙ rep.on_disk p v g in
        let cell : Cell A = record {
          value = record { id = p; addrs = []; dirty = false };
          is_nil = true;
        } in
        let here : IsRecordAt cache st p (length b.heap) t (s.entries p) (b.heap ++ cell ∷ []) =
          record {
            cell = cell;
            at = get_elem?-snoc b.heap cell;
            written = record { peer = refl; not_dirty = refl; sorted = tt };
            same = no_entry;
            nil = λ _. refl;
          } in
        record {
          ptr = length b.heap;
          cell = cell;
          pointer = refl;
          good = refl;
          at = get_elem?-snoc b.heap cell;
          live =
              ap (λ es. record { id = p; addrs = es; dirty = false })
                (sym (live_entries-nil now) ∙ no_entry now le);
          nil = λ _. refl;
          sorted = tt;
          owner = with_cell-IsOwner p want cell b miss;
          represents =
              Represents-later cache st t now s s (with_cell p want cell b) le (λ q v g. refl) refl
                (with_cell-Represents t p want cell s b rep here);
        }

    -- To clean and write a record before it is put in memory, or after, is the same.
    load_cached-with_cell :
        (now : ℤ) (p : Bytes) (want update : Bool) (cell : Cell A) (b : DsAddrBook C D A)
        → load_cached cache st sort update now (length b.heap) cell (with_cell p want cell b) ≡ (
            let (good, (r, d)) = clean_flush cache st sort update now cell.value b.ds in
            load_new cache st sort p want good (record cell { value = r }) d b)
    unfolding load_cached load_new with_cell
    load_cached-with_cell now p want update cell b =
        rw
          (set-snoc b.heap cell
            (record cell { value = (clean_flush cache st sort update now cell.value b.ds).1.0 }))
          refl

    module _ (laws : StoreLaws st) where
      stored_record-IsLoaded :
          (t now : ℤ) (p : Bytes) (want update : Bool) (s : SpecBook A) (b : DsAddrBook C D A)
          (v : Bytes)
          → t ≤ℤ now
          → Represents cache st t s b
          → cache.peek p b.cache ≡ none
          → st.get (addr_key st p) b.ds ≡ value v
          → IsLoaded cache st sort now p s (load_stored cache st sort p want update now b)
      unfolding load_stored with_cell
      stored_record-IsLoaded t now p want update s b v le rep miss bytes =
          let (es, dec, sorted) = rep.stored p v bytes in
          let cell : Cell A = record {
            value = record { id = p; addrs = es; dirty = false };
            is_nil = nat_beq (length es) 0;
          } in
          let here : IsRecordAt cache st p (length b.heap) t (s.entries p) (b.heap ++ cell ∷ []) =
            record {
              cell = cell;
              at = get_elem?-snoc b.heap cell;
              written = record { peer = refl; not_dirty = refl; sorted = sorted };
              same = λ u g.
                  ap (live_entries u) (sym (disk_value st p v p es b.ds bytes dec))
                  ∙ rep.on_disk p u g;
              nil = λ h. (grind arith);
            } in
          rw (bytes, load_stored, dec)
            (subst (IsLoaded cache st sort now p s) (load_cached-with_cell now p want update cell b)
              (load_cached-IsLoaded cache st sort laws t now p update (length b.heap) s
                (with_cell p want cell b) le (with_cell-Represents t p want cell s b rep here)
                (with_cell-IsOwner p want cell b miss) here))

      load_stored-IsLoaded :
          (t now : ℤ) (p : Bytes) (want update : Bool) (s : SpecBook A) (b : DsAddrBook C D A)
          → t ≤ℤ now
          → Represents cache st t s b
          → cache.peek p b.cache ≡ none
          → IsLoaded cache st sort now p s (load_stored cache st sort p want update now b)
      unfolding load_stored
      load_stored-IsLoaded t now p want update s b le rep miss =
          by_answer (st.get (addr_key st p) b.ds) refl
        where
          by_answer :
              (r : GetResult Bytes)
              → st.get (addr_key st p) b.ds ≡ r
              → IsLoaded cache st sort now p s (load_stored cache st sort p want update now b)
          by_answer (value v) h = stored_record-IsLoaded t now p want update s b v le rep miss h
          by_answer not_found h =
              rw (load_stored, h) (new_record-IsLoaded t now p want s b le rep miss h)
          by_answer failed h = absurd (laws.get_works (addr_key st p) b.ds h)

      -- Whether the record is in the cache, in the datastore or new, and whatever the cache has dropped,
      -- `loadRecord` returns without an error a pointer to the peer's record with its live entries,
      -- sorted, the only one that the cache may have for the peer; the book stands for the same map as
      -- before.
      pub load_record-IsLoaded :
          (t now : ℤ) (p : Bytes) (want update : Bool) (s : SpecBook A) (b : DsAddrBook C D A)
          → t ≤ℤ now
          → Represents cache st t s b
          → IsLoaded cache st sort now p s (load_record cache st sort p want update now b)
      unfolding load_record
      load_record-IsLoaded t now p want update s b le rep =
          elim (Option-cases (cache.peek p b.cache)) [
            | inl miss ↦
                rw (load_record, cache_laws.get_peek p b.cache, miss)
                  (load_stored-IsLoaded t now p want update s
                    (record b { cache = (cache.get p b.cache).1 }) le rep'
                    (cache_laws.peek_get p p b.cache ∙ miss))
            | inr (ptr, hit) ↦
                let found = rep'.cached p ptr (cache_laws.peek_get p p b.cache ∙ hit) in
                rw (load_record, cache_laws.get_peek p b.cache, hit, found.at)
                  (load_cached-IsLoaded cache st sort laws t now p update ptr s
                    (record b { cache = (cache.get p b.cache).1 }) le rep'
                    (λ other g.
                      some-injective other ptr (sym g ∙ cache_laws.peek_get p p b.cache ∙ hit))
                    found)
          ]
        where
          rep' : Represents cache st t s (record b { cache = (cache.get p b.cache).1 })
          rep' = get-Represents t p s b rep
