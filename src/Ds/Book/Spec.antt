-- ===== src/Ds/Book/Spec.antt =====
-- What `dsAddrBook` promises: a map from peers to lists of entries, without cache, shared records or
-- datastore. Entries expire where they are, and each call starts from the live ones.
use go_libp2p_peerstore.Prelude.{
  Bool, true, false, List, [], map, Option, none, some, Bytes, bytes_eq, int_eq, ℤ, ◌+ℤ◌, ◌≡◌, ◌==◌,
  if◌then◌else◌,
}
use go_libp2p_peerstore.Mem.SubManager.{AddrSubManager}
use go_libp2p_peerstore.Ds.Record.{
  AddrEntry, AddrsRecord, TtlWriteMode, unix, clean, update_record, set_record, delete_record,
}
use go_libp2p_peerstore.Ds.Book.{Times, broadcast_each}
use go_libp2p_peerstore.Ds.Record.Clean.{live_entries}

pub record SpecBook (A : Type 0) : Type 0 where
  pub entries : Bytes → List (AddrEntry A)
  pub subs_manager : AddrSubManager A

module _ {A : Type 0} where
  unfoldable pub updated :
      Bytes → List (AddrEntry A) → (Bytes → List (AddrEntry A)) → Bytes → List (AddrEntry A)
  updated p es f q = if p == q then es else f q

  pub updated-own :
      (p q : Bytes) (es : List (AddrEntry A)) (f : Bytes → List (AddrEntry A))
      → (p == q) ≡ true
      → updated p es f q ≡ es
  unfolding updated
  updated-own p q es f h = rw (updated, h)

  pub updated-other :
      (p q : Bytes) (es : List (AddrEntry A)) (f : Bytes → List (AddrEntry A))
      → (p == q) ≡ false
      → updated p es f q ≡ f q
  unfolding updated
  updated-other p q es f h = rw (updated, h)

  -- The record of a peer with its live entries.
  unfoldable pub live_record : ℤ → Bytes → SpecBook A → AddrsRecord A
  live_record now p s = record { id = p; addrs = live_entries now (s.entries p); dirty = false }

  unfoldable pub spec_addrs : ℤ → Bytes → SpecBook A → List A
  spec_addrs now p s = map (λ e. e.addr) (live_entries now (s.entries p))

  unfoldable pub spec_clear : Bytes → SpecBook A → SpecBook A
  spec_clear p s = record s { entries = updated p [] s.entries }

module _ {A : Type 0} (sort : List (AddrEntry A) → List (AddrEntry A)) (same : A → A → Bool) where
  unfoldable pub spec_set : TtlWriteMode → Times → Bytes → List A → ℤ → SpecBook A → SpecBook A
  spec_set mode t p as' ttl s =
      let (r, added) =
        set_record same mode (unix (t.now +ℤ ttl)) ttl as' (live_record (unix t.load) p s) in
      record {
        entries = updated p (clean sort (unix t.clean) r).0.addrs s.entries;
        subs_manager = broadcast_each p added s.subs_manager;
      }

  unfoldable pub spec_update : Times → Bytes → ℤ → ℤ → SpecBook A → SpecBook A
  spec_update t p old_ttl new_ttl s =
      let (r, changed) =
        update_record sort (unix t.clean) old_ttl new_ttl (unix (t.now +ℤ new_ttl))
          (live_record (unix t.load) p s) in
      record s { entries = updated p r.addrs s.entries }

  unfoldable pub spec_delete : Times → Bytes → List A → SpecBook A → Option (SpecBook A)
  spec_delete t p dels s = elim (delete_record same dels (live_record (unix t.load) p s)) [
    | none ↦ none
    | some r ↦
        some (record s { entries = updated p (clean sort (unix t.clean) r).0.addrs s.entries })
  ]
