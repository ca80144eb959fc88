-- ===== src/Ds/Book/Update.antt =====
-- `UpdateAddrs` and `deleteAddrs`, and the map that the book stands for after them.
use go_libp2p_peerstore.Prelude.{
  ℕ, Bool, true, false, ◌||◌, List, [], ◌∷◌, Option, none, some, Bytes, bytes_eq, int_eq, ℤ, ◌≤ℤ◌,
  ◌+ℤ◌, ◌≡◌, ◌≢◌, refl, sym, ap, ◌∙◌, arith, inl, inr, Bool-cases, Option-cases, length,
}
use mathlib.Core.Option
use mathlib.Core.Path.{subst}
use go_libp2p_peerstore.Prelude.{set}
use go_libp2p_peerstore.Ds.Cache.{Cache}
use go_libp2p_peerstore.Ds.Record.{
  AddrEntry, AddrsRecord, unix, clean, update_record, delete_record,
}
use go_libp2p_peerstore.Ds.Store.{AddrStore}
use go_libp2p_peerstore.Ds.Book.{
  DsAddrBook, Loaded, Times, load_record, delete_loaded, delete_addrs_in, update_loaded,
  update_addrs,
}
use go_libp2p_peerstore.Ds.Book.Laws.{CacheLaws, StoreLaws}
use go_libp2p_peerstore.Ds.Book.Spec.{SpecBook, updated, live_record, spec_update, spec_delete}
use go_libp2p_peerstore.Ds.Book.Represents.{
  Represents, IsSameOutcome, Represents-later, Represents-written,
}
use go_libp2p_peerstore.Ds.Book.Load.{IsLoaded, updated-SameLive}
use go_libp2p_peerstore.Ds.Book.Fetch.{load_record-IsLoaded}
use go_libp2p_peerstore.Ds.Record.Clean.{IsSorted, SortLaws, IsOrdered, clean-Cleaned}
use go_libp2p_peerstore.Ds.Record.{update_entries, same_addr, delete_outer}
use go_libp2p_peerstore.Prelude.Slices.{set-same}
use go_libp2p_peerstore.Ds.Book.Change.{
  clean-empty, IsLoaded-loaded_cell, clean_and_flush-Represents,
}

module _ {A : Type 0} (sort : List (AddrEntry A) → List (AddrEntry A)) where
  update_entries-same :
      (old_ttl new_ttl exp : ℤ) (es : List (AddrEntry A))
      → (update_entries old_ttl new_ttl exp es).1 ≡ false
      → (update_entries old_ttl new_ttl exp es).0 ≡ es
  unfolding update_entries
  update_entries-same old_ttl new_ttl exp [] h = refl
  update_entries-same old_ttl new_ttl exp (e ∷ es) h =
      ground (arith, update_entries-same old_ttl new_ttl exp es)

  update_record-same_id :
      (laws : SortLaws sort) (now old_ttl new_ttl exp : ℤ) (r : AddrsRecord A)
      → r.dirty ≡ false
      → IsSorted r.addrs
      → ((update_record sort now old_ttl new_ttl exp r).0.id ≡ r.id)
        × IsSorted (update_record sort now old_ttl new_ttl exp r).0.addrs
        × ((update_record sort now old_ttl new_ttl exp r).1 ≡ false
            → (update_record sort now old_ttl new_ttl exp r).0 ≡ r)
        × (r.addrs ≡ [] → (update_record sort now old_ttl new_ttl exp r).0.addrs ≡ [])
  unfolding update_record update_entries
  update_record-same_id laws now old_ttl new_ttl exp r fresh sorted =
      let (es, changed) = update_entries old_ttl new_ttl exp r.addrs in
      let marked : AddrsRecord A = record r { addrs = es; dirty = r.dirty || changed } in
      let ordered : IsOrdered marked = λ h.
        subst IsSorted (sym (update_entries-same old_ttl new_ttl exp r.addrs (ground arith)))
          sorted in
      let done = clean-Cleaned sort laws now marked ordered in
      (
        done.same_id,
        done.sorted,
        λ h.
            (let (kept, unmarked, filled) = done.no_change h in
              let same_entries = update_entries-same old_ttl new_ttl exp r.addrs (ground arith) in
              kept ∙ ground (arith, same_entries, fresh, unmarked)),
        λ h. clean-empty sort now marked (rw (h, update_entries) refl),
      )

module _ {C D K A : Type 0} (cache : Cache C Bytes ℕ) (st : AddrStore D K A)
    (sort : List (AddrEntry A) → List (AddrEntry A)) (same : A → A → Bool) (laws : StoreLaws st)
    (sort_laws : SortLaws sort) where
  -- A record that is not changed is not written.
  kept-Represents :
      (now : ℤ) (p : Bytes) (s : SpecBook A) (l : Loaded C D A)
      → (got : IsLoaded cache st sort now p s l) → (r : AddrsRecord A) → r ≡ got.cell.value
      → Represents cache st now
          (record s { entries = updated p r.addrs s.entries })
          (record l.book { heap = set l.book.heap got.ptr (record got.cell { value = r }) })
  unfolding live_record
  kept-Represents now p s l got r h =
      subst
        (λ x.
          Represents cache st now (record s { entries = updated p x.addrs s.entries })
            (record l.book { heap = set l.book.heap got.ptr (record got.cell { value = x }) }))
        (sym h)
        (rw (set-same l.book.heap got.ptr got.cell got.at) (
          Represents-later cache st now now s _ l.book (ground arith)
            (λ q v g. sym (
              updated-SameLive cache st sort now p got.cell.value.addrs s q
                (ap (λ x. x.addrs) got.live) v g))
            refl got.represents))

  update_loaded-Represents :
      (ts : Times) (p : Bytes) (old_ttl new_ttl : ℤ) (s : SpecBook A) (l : Loaded C D A)
      → (got : IsLoaded cache st sort (unix ts.load) p s l)
      → Represents cache st
          (unix ts.load)
          (spec_update sort same ts p old_ttl new_ttl s)
          (update_loaded cache st sort same ts old_ttl new_ttl got.ptr got.cell l.book)
  unfolding update_loaded spec_update live_record
  update_loaded-Represents ts p old_ttl new_ttl s l got =
      let exp = unix (ts.now +ℤ new_ttl) in
      let now = unix ts.clean in
      let rep = got.represents in
      let out : AddrsRecord A × Bool = update_record sort now old_ttl new_ttl exp got.cell.value in
      let own : got.cell.value.id ≡ p = ap (λ x. x.id) got.live in
      let (same_id, sorted, kept, nil) =
        update_record-same_id sort sort_laws now old_ttl new_ttl exp got.cell.value
          (ap (λ x. x.dirty) got.live) got.sorted in
      subst
        (λ r.
          Represents cache st (unix ts.load)
            (record s {
              entries = updated p (update_record sort now old_ttl new_ttl exp r).0.addrs s.entries;
            })
            (update_loaded cache st sort same ts old_ttl new_ttl got.ptr got.cell l.book))
        got.live
        (elim (Bool-cases out.1) [
          | inl write ↦ rw write (
              Represents-written cache st laws (unix ts.load) p got.ptr got.cell _ out.0 s l.book
                rep got.owner got.at own (same_id ∙ own) sorted refl (λ h. nil (got.nil h)))
          | inr keep ↦ rw keep (kept-Represents (unix ts.load) p s l got out.0 (kept keep))
        ])

  -- `UpdateAddrs` does to the book what `update_record` does to the peer's live entries in the map.
  pub update_addrs-Represents :
      (cache_laws : CacheLaws cache) (t : ℤ) (ts : Times) (p : Bytes) (old_ttl new_ttl : ℤ)
      (s : SpecBook A) (b : DsAddrBook C D A)
      → t ≤ℤ unix ts.load
      → Represents cache st t s b
      → IsSameOutcome cache st
          (unix ts.load)
          (some (spec_update sort same ts p old_ttl new_ttl s))
          (Option.map (λ b'. (true, b')) (update_addrs cache st sort same ts p old_ttl new_ttl b))
  unfolding update_addrs
  update_addrs-Represents cache_laws t ts p old_ttl new_ttl s b le rep =
      let l = load_record cache st sort p true false (unix ts.load) b in
      let got =
        load_record-IsLoaded cache st sort cache_laws laws t (unix ts.load) p true false s b le
          rep in
      rw (update_addrs, IsLoaded-loaded_cell cache st sort (unix ts.load) p s l got)
        (refl, update_loaded-Represents ts p old_ttl new_ttl s l got)

  delete_record-empty :
      (dels : List A) (r : AddrsRecord A)
      → r.addrs ≡ []
      → delete_record same dels r ≡ some (record r { addrs = []; dirty = true })
  unfolding delete_record delete_outer
  delete_record-empty dels r h = rw (h, delete_record, delete_outer) refl

  delete_record-marked :
      (dels : List A) (r r' : AddrsRecord A)
      → delete_record same dels r ≡ some r'
      → (r'.id ≡ r.id) × (r'.dirty ≡ true)
  unfolding delete_record
  delete_record-marked dels r r' h =
      elim (Option-cases (delete_outer (same_addr same) (length r.addrs) 0 dels (r.addrs, 0))) [
        | inl panic ↦ ground (arith, panic)
        | inr ((es, survived), done) ↦ ground (arith, done)
      ]

  spec_delete-none :
      (ts : Times) (p : Bytes) (dels : List A) (s : SpecBook A)
      → delete_record same dels (live_record (unix ts.load) p s) ≡ none
      → spec_delete sort same ts p dels s ≡ none
  unfolding spec_delete
  spec_delete-none ts p dels s h = rw (h, spec_delete) refl

  spec_delete-some :
      (ts : Times) (p : Bytes) (dels : List A) (s : SpecBook A) (r : AddrsRecord A)
      → delete_record same dels (live_record (unix ts.load) p s) ≡ some r
      → spec_delete sort same ts p dels s
        ≡ some (record s { entries = updated p (clean sort (unix ts.clean) r).0.addrs s.entries })
  unfolding spec_delete
  spec_delete-some ts p dels s r h = rw (h, spec_delete) refl

  delete_loaded-Represents :
      (ts : Times) (p : Bytes) (dels : List A) (s : SpecBook A) (l : Loaded C D A)
      → (got : IsLoaded cache st sort (unix ts.load) p s l)
      → IsSameOutcome cache st
          (unix ts.load)
          (spec_delete sort same ts p dels s)
          (delete_loaded cache st sort same ts dels got.ptr got.cell l.book)
  unfolding delete_loaded live_record
  delete_loaded-Represents ts p dels s l got = elim (Bool-cases got.cell.is_nil) [
    | inl is_nil ↦
        let none_left = got.nil is_nil in
        let r : AddrsRecord A = record got.cell.value { addrs = []; dirty = true } in
        rw
          (
            spec_delete-some ts p dels s r
                (outcome (some r) (delete_record-empty dels got.cell.value none_left)),
            is_nil,
          )
          (
            refl,
            Represents-later cache st (unix ts.load) (unix ts.load) s _ l.book (ground arith)
                (λ q v g. sym (
                  updated-SameLive cache st sort (unix ts.load) p _ s q
                    (clean-empty sort (unix ts.clean) r refl
                      ∙ sym none_left
                      ∙ ap (λ x. x.addrs) got.live)
                    v g))
                refl got.represents,
          )
    | inr filled ↦ elim (Option-cases (delete_record same dels got.cell.value)) [
      | inl panic ↦ rw (spec_delete-none ts p dels s (outcome none panic), filled, panic) tt
      | inr (r, done) ↦
          rw (spec_delete-some ts p dels s r (outcome (some r) done), filled, done)
            (clean_and_flush-Represents cache st sort laws sort_laws (unix ts.load) (unix ts.clean)
              p got.ptr got.cell (record got.cell { value = r }) s l.book got.represents got.owner
              got.at own ((delete_record-marked dels got.cell.value r done).0 ∙ own)
              (λ h.
                absurd (true_false (sym (delete_record-marked dels got.cell.value r done).1 ∙ h)))
              (λ h. absurd (true_false (sym h ∙ filled))))
    ]
  ]
    where
      true_false : true ≢ false
      true_false e = cc

      own : got.cell.value.id ≡ p
      own = ap (λ x. x.id) got.live

      outcome :
          (o : Option (AddrsRecord A))
          → delete_record same dels got.cell.value ≡ o
          → delete_record same dels (live_record (unix ts.load) p s) ≡ o
      outcome o h = ap (delete_record same dels) (sym got.live) ∙ h

  -- `deleteAddrs` does to the book what `delete_record` and `clean` do to the peer's live entries in the
  -- map; it panics where `delete_record` does.
  pub delete_addrs_in-Represents :
      (cache_laws : CacheLaws cache) (t : ℤ) (ts : Times) (p : Bytes) (dels : List A)
      (s : SpecBook A) (b : DsAddrBook C D A)
      → t ≤ℤ unix ts.load
      → Represents cache st t s b
      → IsSameOutcome cache st
          (unix ts.load)
          (spec_delete sort same ts p dels s)
          (delete_addrs_in cache st sort same ts p dels b)
  unfolding delete_addrs_in
  delete_addrs_in-Represents cache_laws t ts p dels s b le rep =
      let l = load_record cache st sort p false false (unix ts.load) b in
      let got =
        load_record-IsLoaded cache st sort cache_laws laws t (unix ts.load) p false false s b le
          rep in
      rw (delete_addrs_in, IsLoaded-loaded_cell cache st sort (unix ts.load) p s l got)
        (delete_loaded-Represents ts p dels s l got)
