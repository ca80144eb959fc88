-- ===== src/Ds/Book/Read.antt =====
-- `Addrs`, `AddrStream` and `ClearAddrs`, and the map that the book stands for after them.
use go_libp2p_peerstore.Prelude.{
  ℕ, Bool, true, false, List, [], map, none, some, Bytes, bytes_eq, int_eq, ℤ, ◌≤ℤ◌, ◌≡◌, ◌≢◌, refl,
  sym, ap, ◌∙◌, ◌==◌, ==_iff, arith, inl, inr, Bool-cases,
}
use mathlib.Core.Path.{subst}
use go_libp2p_peerstore.Mem.Metadata.{not_found}
use go_libp2p_peerstore.Mem.SubManager.{AddrSub, add_sub}
use go_libp2p_peerstore.Ds.Cache.{Cache}
use go_libp2p_peerstore.Ds.Record.{AddrEntry, unix}
use go_libp2p_peerstore.Ds.Store.{AddrStore, addr_key}
use go_libp2p_peerstore.Ds.Book.{DsAddrBook, load_record, addrs, clear_addrs, addr_stream}
use go_libp2p_peerstore.Ds.Book.Laws.{CacheLaws, StoreLaws}
use go_libp2p_peerstore.Ds.Book.Spec.{
  SpecBook, live_record, spec_addrs, spec_clear, updated-own, updated-other,
}
use go_libp2p_peerstore.Ds.Book.Represents.{Represents}
use go_libp2p_peerstore.Ds.Book.Fetch.{load_record-IsLoaded}
use go_libp2p_peerstore.Ds.Record.Clean.{live_entries}
use go_libp2p_peerstore.Ds.Book.Change.{IsLoaded-loaded_cell}
use go_libp2p_peerstore.Ds.Book.Flush.{
  disk, disk-same, IsStored, SameLive, disk_not_found, not_found-IsStored, other_key,
}

module _ {C D K A : Type 0} (cache : Cache C Bytes ℕ) (st : AddrStore D K A) (laws : StoreLaws st)
    (cache_laws : CacheLaws cache) where
  -- `Addrs` returns the addresses of the map that are live now, and changes nothing in it.
  pub addrs-Represents :
      (sort : List (AddrEntry A) → List (AddrEntry A)) (same : A → A → Bool) (t now : ℤ) (p : Bytes)
      (s : SpecBook A) (b : DsAddrBook C D A)
      → t ≤ℤ unix now
      → Represents cache st t s b
      → ((addrs cache st sort same now p b).0 ≡ spec_addrs (unix now) p s)
        × Represents cache st (unix now) s (addrs cache st sort same now p b).1
  unfolding addrs spec_addrs live_record
  addrs-Represents sort same t now p s b le rep =
      let l = load_record cache st sort p true true (unix now) b in
      let got =
        load_record-IsLoaded cache st sort cache_laws laws t (unix now) p true true s b le rep in
      rw (addrs, IsLoaded-loaded_cell cache st sort (unix now) p s l got)
        (ap (λ r. map (λ e. e.addr) r.addrs) got.live, got.represents)

  pub addr_stream-Represents :
      (sort : List (AddrEntry A) → List (AddrEntry A)) (same : A → A → Bool) (t now : ℤ) (p : Bytes)
      (sub : AddrSub A) (s : SpecBook A) (b : DsAddrBook C D A)
      → t ≤ℤ unix now
      → Represents cache st t s b
      → ((addr_stream cache st sort same now p sub b).0 ≡ spec_addrs (unix now) p s)
        × Represents cache st
            (unix now)
            (record s { subs_manager = add_sub s.subs_manager p sub })
            (addr_stream cache st sort same now p sub b).1
  unfolding addr_stream
  addr_stream-Represents sort same t now p sub s b le rep =
      let (out, rep') = addrs-Represents sort same t now p s b le rep in
      (
        out,
        record {
          cached = rep'.cached;
          on_disk = rep'.on_disk;
          stored = rep'.stored;
          subs = ap (λ m. add_sub m p sub) rep'.subs;
        },
      )

  -- `ClearAddrs` leaves the peer without entries, in the cache and in the datastore.
  pub clear_addrs-Represents :
      (sort : List (AddrEntry A) → List (AddrEntry A)) (same : A → A → Bool) (t : ℤ) (p : Bytes)
      (s : SpecBook A) (b : DsAddrBook C D A)
      → Represents cache st t s b
      → Represents cache st t (spec_clear p s) (clear_addrs cache st sort same p b)
  unfolding clear_addrs spec_clear
  clear_addrs-Represents sort same t p s b rep = record {
    cached = λ q ptr hit.
        let (other, held) = cache_laws.peek_remove q p ptr b.cache hit in
        let found = rep.cached q ptr held in
        record {
          cell = found.cell;
          at = found.at;
          written = found.written;
          same =
              subst (SameLive t found.cell.value.addrs)
                (sym (updated-other p q [] s.entries (ground (arith, ==_iff p q)))) found.same;
          nil = found.nil;
        };
    on_disk = λ q v g. elim (Bool-cases (p == q)) [
      | inl own_peer ↦ ap (live_entries v) (
          subst (λ x. disk st x d ≡ []) ((==_iff p q).0 own_peer) (disk_not_found st p d gone)
          ∙ sym (updated-own p q [] s.entries own_peer))
      | inr other_peer ↦
          ap (live_entries v) (disk-same st q d b.ds (others q other_peer))
          ∙ rep.on_disk q v g
          ∙ ap (live_entries v) (sym (updated-other p q [] s.entries other_peer))
    ];
    stored = λ q. elim (Bool-cases (p == q)) [
      | inl own_peer ↦
          subst (λ x. IsStored st x d) ((==_iff p q).0 own_peer) (not_found-IsStored st p d gone)
      | inr other_peer ↦ λ v e. rep.stored q v (sym (others q other_peer) ∙ e)
    ];
    subs = rep.subs;
  }
    where
      d : D
      d = (st.delete (addr_key st p) b.ds).1

      gone : st.get (addr_key st p) d ≡ not_found
      gone = laws.get_delete (addr_key st p) b.ds

      others :
          (q : Bytes) → (p == q) ≡ false → st.get (addr_key st q) d ≡ st.get (addr_key st q) b.ds
      others q h =
          laws.get_delete_other (addr_key st q) (addr_key st p) b.ds
            (other_key st laws p q (λ e. ground (arith, ==_iff p q)))

  -- A book that is opened over a datastore with the records of its peers, with an empty cache, stands
  -- for what the datastore holds.
  pub open-Represents :
      (t : ℤ) (b : DsAddrBook C D A)
      → ((q : Bytes) → cache.peek q b.cache ≡ none)
      → ((q : Bytes) → IsStored st q b.ds)
      → Represents cache st t
          (record { entries = λ q. disk st q b.ds; subs_manager = b.subs_manager })
          b
  open-Represents t b empty stored = record {
    cached = λ q ptr hit. absurd (none_some ptr (sym (empty q) ∙ hit));
    on_disk = λ q v g. refl;
    stored = stored;
    subs = refl;
  }
    where
      none_some : (ptr : ℕ) → none ≢ some ptr
      none_some ptr e = cc
