-- ===== src/Ds/Record/Unshared.antt =====
-- The pointers of a record's slice and its entries as values: `setAddrs` and `deleteAddrs`.
use go_libp2p_peerstore.Prelude.{
  ℕ, ◌≤◌, Bool, true, false, List, [], ◌∷◌, some, ℤ, int_eq, ◌≡◌, refl, ap, ◌∙◌, arith, inl, inr,
  Option-cases, length, nat_eq,
}
use mathlib.Core.Option
use go_libp2p_peerstore.Prelude.Maps.{contains, IsDistinct}
use go_libp2p_peerstore.Ds.Record.{
  AddrsRecord, delete_record, TtlWriteMode, set_entries, same_addr, delete_outer,
}
use go_libp2p_peerstore.Ds.Record.Slots.{length-map, take-map, delete_outer-map}
use go_libp2p_peerstore.Ds.Record.Delete.{without, delete_outer-one, delete_outer-nil}
use go_libp2p_peerstore.Ds.Record.Pointers.{
  Cells, entries_at, set_entries_at, delete_at, set_entries_at-entries,
}

module _ {A : Type 0} (same : A → A → Bool) where
  -- The loops of `deleteAddrs` leave pointers to the entries that they leave of the entries as values.
  delete_at-record :
      (dels : List A) (h : Cells A) (ps : List ℕ) (r : AddrsRecord A)
      → r.addrs ≡ entries_at h ps
      → delete_record same dels r
        ≡ Option.map
            (λ qs. record r { addrs = entries_at h qs; dirty = true })
            (delete_at same h dels ps)
  unfolding delete_record delete_at
  delete_at-record dels h ps r held =
      elim (Option-cases (delete_outer (λ p. same_addr same (h p)) (length ps) 0 dels (ps, 0))) [
        | inl out ↦
            rw
              (
                delete_record,
                held,
                length-map h (same_addr same) ps,
                delete_outer-map h (same_addr same) (length ps) 0 dels ps 0,
                delete_at,
                out,
              )
              refl
        | inr ((qs, survived), done) ↦
            rw
              (
                delete_record,
                held,
                length-map h (same_addr same) ps,
                delete_outer-map h (same_addr same) (length ps) 0 dels ps 0,
                delete_at,
                done,
              )
              (ap (λ es. some (record r { addrs = es; dirty = true }))
                (take-map h (same_addr same) survived qs))
      ]

  contains-without :
      (m : ℕ → A → Bool) (del : A) (ps : List ℕ) (q : ℕ)
      → contains q ps ≡ false
      → contains q (without m del ps) ≡ false
  unfolding without contains
  contains-without m del [] q h = refl
  contains-without m del (p ∷ ps) q h = ground (arith, contains-without m del ps q)

  without-IsDistinct :
      (m : ℕ → A → Bool) (del : A) (ps : List ℕ) → IsDistinct ps → IsDistinct (without m del ps)
  unfolding without
  without-IsDistinct m del [] d = tt
  without-IsDistinct m del (p ∷ ps) d =
      ground (arith, contains-without m del ps p, without-IsDistinct m del ps)

  delete_at-IsDistinct :
      (dels : List A) (h : Cells A) (ps : List ℕ)
      → IsDistinct ps
      → length dels ≤ 1
      → (qs : List ℕ) × (delete_at same h dels ps ≡ some qs) × IsDistinct qs
  unfolding delete_at
  delete_at-IsDistinct [] h ps d le = (
    [],
    rw (delete_at, delete_outer-nil (λ p. same_addr same (h p)) (length ps) 0 (ps, 0)) refl,
    tt,
  )
  delete_at-IsDistinct (del ∷ []) h ps d le =
      let (s', ps', done, left) =
        delete_outer-one (λ p. same_addr same (h p)) del ps ps 0 0 refl (omega arith) in
      (
        without (λ p. same_addr same (h p)) del ps,
        rw (delete_at, done) (ap some left),
        without-IsDistinct (λ p. same_addr same (h p)) del ps d,
      )
  delete_at-IsDistinct (del ∷ d' ∷ dels) h ps d le = absurd (omega arith)

  -- Let the slice of a record hold no pointer twice. The loops of `setAddrs` through its pointers do to the
  -- entries what `set_entries` does to them as values, and find the same addresses missing. The loops of
  -- `deleteAddrs` panic where `delete_record` does, and otherwise leave pointers to its entries; with at most
  -- one address to delete they do not panic, and again no pointer is there twice.
  pub pointers_lem :
      (h : Cells A) (ps : List ℕ) (r : AddrsRecord A)
      → IsDistinct ps
      → r.addrs ≡ entries_at h ps
      → ((mode : TtlWriteMode) (exp : ℤ) (as' : List A)
          → set_entries same mode exp as' r.addrs ≡ (
            entries_at (set_entries_at same mode exp as' h ps).0 ps,
            (set_entries_at same mode exp as' h ps).1,
          ))
        × ((dels : List A)
            → delete_record same dels r
              ≡ Option.map
                  (λ qs. record r { addrs = entries_at h qs; dirty = true })
                  (delete_at same h dels ps))
        × ((dels : List A)
            → length dels ≤ 1
            → (qs : List ℕ) × (delete_at same h dels ps ≡ some qs) × IsDistinct qs)
  pointers_lem h ps r d held = (
    λ mode exp as'.
        ap (set_entries same mode exp as') held ∙ set_entries_at-entries same mode exp as' h ps d,
    λ dels. delete_at-record dels h ps r held,
    λ dels le. delete_at-IsDistinct dels h ps d le,
  )
