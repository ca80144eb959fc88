-- ===== src/Ds/Book/Refine.antt =====
-- Runs of `dsAddrBook` in which no entry is shared. An entry of a record is a pointer in the Go code, and a
-- value here. That is the same as long as a record holds no pointer twice: entries are made by `setAddrs`
-- and by reading a record, one for each place, and only `deleteAddrs` copies pointers. With at most one
-- address to delete it keeps each entry at most once (Ds/Record/Unshared); with several it may keep one twice.
use go_libp2p_peerstore.Prelude.{
  Bool, ℕ, ◌≤◌, List, [], ◌∷◌, some, ℤ, leb_ℤ, pos, ◌≡◌, refl, ◌∙◌, Bytes, length, arith, inl, inr,
  Bool-cases, true, Option-cases,
}
use go_libp2p_peerstore.Ds.Cache.{Cache}
use go_libp2p_peerstore.Ds.Record.{AddrEntry, ttl_override, clean_addrs, unix}
use go_libp2p_peerstore.Ds.Record.Delete.{delete_record-one, delete_record-nil}
use go_libp2p_peerstore.Ds.Record.Clean.{SortLaws}
use go_libp2p_peerstore.Ds.Store.{AddrStore}
use go_libp2p_peerstore.Ds.Book.{DsAddrBook, Times}
use go_libp2p_peerstore.Ds.Book.Laws.{CacheLaws, StoreLaws}
use go_libp2p_peerstore.Ds.Book.Spec.{SpecBook, spec_set, spec_delete, live_record}
use go_libp2p_peerstore.Ds.Book.Represents.{Represents}
use go_libp2p_peerstore.Ds.Book.Runs.{
  Call, add_call, set_call, update_call, addrs_call, stream_call, clear_call, IsTimed, spec_call,
  spec_calls, run_calls, run_calls-spec_calls,
}

module _ {A : Type 0} where
  -- A call of `SetAddrs` that deletes has at most one address that is not nil.
  abbrev IsSingle : Call A → Type 0
  IsSingle (add_call ts p as' ttl) = Unit
  IsSingle (set_call ts p as' ttl) = leb_ℤ ttl (pos 0) ≡ true → length (clean_addrs as') ≤ 1
  IsSingle (update_call ts p o n) = Unit
  IsSingle (addrs_call now p) = Unit
  IsSingle (stream_call now p sub) = Unit
  IsSingle (clear_call p) = Unit

  abbrev pub IsUnshared : List (Call A) → Type 0
  IsUnshared [] = Unit
  IsUnshared (c ∷ cs) = IsSingle c × IsUnshared cs

module _ {A : Type 0} (sort : List (AddrEntry A) → List (AddrEntry A)) (same : A → A → Bool) where
  spec_delete-returns :
      (t : Times) (p : Bytes) (dels : List A) (s : SpecBook A)
      → length dels ≤ 1
      → (s' : SpecBook A) × (spec_delete sort same t p dels s ≡ some s')
  unfolding spec_delete
  spec_delete-returns t p [] s h = elim (Option-cases (spec_delete sort same t p [] s)) [
    | inl missing ↦ absurd (ground (arith, delete_record-nil same (live_record (unix t.load) p s)))
    | inr returned ↦ returned
  ]
  spec_delete-returns t p (del ∷ []) s h =
      elim (Option-cases (spec_delete sort same t p (del ∷ []) s)) [
        | inl missing ↦
            absurd (ground (arith, delete_record-one same del (live_record (unix t.load) p s)))
        | inr returned ↦ returned
      ]
  spec_delete-returns t p (del ∷ d ∷ dels) s h = absurd (omega arith)

  spec_call-returns :
      (c : Call A) (s : SpecBook A)
      → IsSingle c
      → (r : List A × SpecBook A) × (spec_call sort same c s ≡ some r)
  unfolding spec_call
  spec_call-returns (add_call ts p as' ttl) s h =
      elim (Option-cases (spec_call sort same (add_call ts p as' ttl) s)) [
        | inl missing ↦ absurd (ground (arith))
        | inr returned ↦ returned
      ]
  spec_call-returns (set_call ts p as' ttl) s h = elim (Bool-cases (leb_ℤ ttl (pos 0))) [
    | inl past ↦
        let (s', done) = spec_delete-returns ts p (clean_addrs as') s (h past) in
        (([], s'), rw (past, done) refl)
    | inr ahead ↦
        (([], spec_set sort same ttl_override ts p (clean_addrs as') ttl s), rw ahead refl)
  ]
  spec_call-returns (update_call ts p o n) s h = (_, refl)
  spec_call-returns (addrs_call now p) s h = (_, refl)
  spec_call-returns (stream_call now p sub) s h = (_, refl)
  spec_call-returns (clear_call p) s h = (_, refl)

  spec_calls-returns :
      (cs : List (Call A)) (s : SpecBook A)
      → IsUnshared cs
      → (outs : List (List A)) × (spec_calls sort same cs s ≡ some outs)
  unfolding spec_calls
  spec_calls-returns [] s h = ([], refl)
  spec_calls-returns (c ∷ cs) s h =
      let ((out, s'), done) = spec_call-returns c s h.0 in
      let (outs, rest) = spec_calls-returns cs s' h.1 in
      (out ∷ outs, rw (spec_calls, done, rest) refl)

module _ {C D K A : Type 0} (cache : Cache C Bytes ℕ) (st : AddrStore D K A)
    (sort : List (AddrEntry A) → List (AddrEntry A)) (same : A → A → Bool) (laws : StoreLaws st)
    (sort_laws : SortLaws sort) (cache_laws : CacheLaws cache) where
  -- Over a datastore whose operations succeed, and from a book whose records hold no entry twice, as a new
  -- one: the address book is a map from peers to their entries. Whatever is called, as long as the clock
  -- does not go back and no call of `SetAddrs` deletes more than one address, no call panics, and the
  -- calls return the addresses that the map returns, and start streams with them, in the same order,
  -- whichever records the cache holds and drops on the way.
  pub run_calls-refines :
      (t : ℤ) (cs : List (Call A)) (s : SpecBook A) (b : DsAddrBook C D A)
      → Represents cache st t s b
      → IsTimed t cs
      → IsUnshared cs
      → (outs : List (List A)) × (spec_calls sort same cs s ≡ some outs)
        × (run_calls cache st sort same cs b ≡ some outs)
  run_calls-refines t cs s b rep timed unshared =
      let (outs, returned) = spec_calls-returns sort same cs s unshared in
      (
        outs,
        returned,
        run_calls-spec_calls cache st sort same laws sort_laws cache_laws t cs s b rep timed
            ∙ returned,
      )
