-- ===== src/Ds/Record/Delete.antt =====
-- `deleteAddrs` on a record. The loop compacts the slice in place, once for every address to delete
-- that an entry differs from, so it deletes as it should when there is one address to delete.
use go_libp2p_peerstore.Prelude.{
  ◌*◌, ℕ, zero, suc, ◌+◌, ◌≤◌, ◌<◌, Bool, true, false, List, [], ◌∷◌, ◌++◌, none, some, bytes_eq,
  int_eq, ◌≡◌, ◌≢◌, refl, sym, ◌∙◌, if◌then◌else◌, arith, inl, inr, Bool-cases, Option-cases, All,
  length,
}
use native.Mathlib.Numerals.{add-one}
use mathlib.Core.Path.{subst}
use mathlib.Core.List.{append_assoc, append-nil}
use go_libp2p_peerstore.Prelude.{get_elem?, set, take, drop, ltb, nat_beq}
use go_libp2p_peerstore.Prelude.Slices.{
  get_elem?-drop, take-suc, take-set, drop-set, get_elem?-lt, length-set, All-set, All-get_elem?,
}
use go_libp2p_peerstore.Ds.Record.{
  AddrEntry, AddrsRecord, same_addr, delete_inner, delete_outer, delete_record,
}

module _ {E A : Type 0} (matches : E → A → Bool) where
  -- The entries for other addresses.
  unfoldable pub without : A → List E → List E
  without del [] = []
  without del (e ∷ es) = let rest = without del es in if matches e del then rest else e ∷ rest

  -- A round of the outer loop with one address to delete.
  delete_inner-one :
      (del : A) (e : E) (es : List E) (i s : ℕ)
      → get_elem? es i ≡ some e
      → i < length es
      → s ≤ i
      → delete_inner matches i (del ∷ []) (es, s)
        ≡ some (
            if matches e del
            then (es, s)
            else if nat_beq i s
            then (es, s + 1)
            else (set es s e, s + 1))
  unfolding delete_inner
  delete_inner-one del e es i s g l le = ground arith

  -- The loop over the rest of the slice leaves, behind what survived, the entries of the rest for
  -- other addresses.
  pub delete_outer-one :
      (del : A) (rest es : List E) (i s : ℕ)
      → drop i es ≡ rest
      → s ≤ i
      → (s' : ℕ) × (es' : List E) × (delete_outer matches (length rest) i (del ∷ []) (es, s)
          ≡ some (es', s'))
        × (take s' es' ≡ take s es ++ without del rest)
  unfolding delete_outer without
  delete_outer-one del [] es i s d le = (s, es, refl, sym (append-nil (take s es)))
  delete_outer-one del (e ∷ rest) es i s d le =
      let (at, after, inside) = get_elem?-drop i es d in
      let round = delete_inner-one del e es i s at inside le in
      let next : drop (i + 1) es ≡ rest = rw add-one after in
      elim (Bool-cases (matches e del)) [
        | inl gone ↦
            let (s', es', done, left) = delete_outer-one del rest es (i + 1) s next (omega arith) in
            (s', es', rw (round, gone, delete_outer) done, rw gone left)
        | inr stays ↦ elim (Bool-cases (nat_beq i s)) [
          | inl first ↦
              let here : get_elem? es s ≡ some e = ground arith in
              let (s', es', done, left) =
                delete_outer-one del rest es (i + 1) (s + 1) next (omega arith) in
              (
                s',
                es',
                rw (round, stays, first, delete_outer) done,
                rw stays
                    (left ∙ rw (add-one, take-suc s es here) (append_assoc (take s es) (e ∷ []) _)),
              )
          | inr behind ↦
              let moved : drop (i + 1) (set es s e) ≡ rest =
                drop-set s (i + 1) es e (omega arith) ∙ next in
              let (s', es', done, left) =
                delete_outer-one del rest (set es s e) (i + 1) (s + 1) moved (omega arith) in
              (
                s',
                es',
                rw (round, stays, behind, delete_outer) done,
                rw stays (
                    left
                    ∙ rw (add-one, take-set s es e (omega arith))
                        (append_assoc (take s es) (e ∷ []) _)),
              )
        ]
      ]

  pub delete_outer-nil : (n i : ℕ) (s : List E × ℕ) → delete_outer matches n i [] s ≡ some s
  unfolding delete_outer delete_inner
  delete_outer-nil zero i s = refl
  delete_outer-nil (suc n) i s = delete_outer-nil n (i + 1) s

module _ {A : Type 0} (same : A → A → Bool) where
  -- With one address to delete, `deleteAddrs` keeps exactly the entries for other addresses, in
  -- their order, and marks the record for writing. It does not panic.
  pub delete_record-one :
      (del : A) (r : AddrsRecord A)
      → delete_record same (del ∷ []) r
        ≡ some (record r { addrs = without (same_addr same) del r.addrs; dirty = true })
  unfolding delete_record
  delete_record-one del r =
      let (s', es', done, left) =
        delete_outer-one (same_addr same) del r.addrs r.addrs 0 0 refl (omega arith) in
      rw (done, delete_record) (ground arith)

  -- With no address to delete, `deleteAddrs` drops every entry of the record.
  pub delete_record-nil :
      (r : AddrsRecord A) → delete_record same [] r ≡ some (record r { addrs = []; dirty = true })
  unfolding delete_record
  delete_record-nil r =
      rw (delete_outer-nil (same_addr same) (length r.addrs) 0 (r.addrs, 0), delete_record)

  -- The entry is for none of the addresses.
  abbrev pub Differs : List A → AddrEntry A → Type 0
  Differs dels e = All (λ del. same e.addr del ≡ false) dels

  -- A round of the outer loop whose entry differs from every address to delete counts one survivor
  -- for each of them, and writes behind the entry once the count has passed it.
  delete_inner-Differs :
      (i : ℕ) (all dels : List A) (es es' : List (AddrEntry A)) (s s' : ℕ)
      → All (Differs all) es
      → ((e : AddrEntry A) → Differs all e → Differs dels e)
      → delete_inner (same_addr same) i dels (es, s) ≡ some (es', s')
      → (s' ≡ s + length dels)
        × (length es' ≡ length es)
        × All (Differs all) es'
        × (i ≤ s → s ≤ length es → s' ≤ length es)
  unfolding delete_inner
  delete_inner-Differs i all [] es es' s s' h sub q =
      let same_es : es ≡ es' = ground arith in
      (ground arith, ground arith, subst (All (Differs all)) same_es h, λ p l. ground arith)
  delete_inner-Differs i all (del ∷ dels) es es' s s' h sub q =
      elim (Option-cases (get_elem? es i)) [
        | inl out ↦ absurd (ground arith)
        | inr (e, at) ↦
            let d = sub e (All-get_elem? (Differs all) es i h at) in
            let inside : i < length es = get_elem?-lt es i at in
            let later : (x : AddrEntry A) → Differs all x → Differs dels x = λ x p. (sub x p).1 in
            elim (Bool-cases (nat_beq i s)) [
              | inl first ↦
                  let (count, size, every, room) =
                    delete_inner-Differs i all dels es es' (s + 1) s' h later (ground arith) in
                  (omega arith, size, every, λ p l. room (omega arith) (ground arith))
              | inr ahead ↦ elim (Bool-cases (ltb s (length es))) [
                | inl fits ↦
                    let all_differ =
                      All-set (Differs all) es s e (All-get_elem? (Differs all) es i h at) h in
                    let (count, size, every, room) =
                      delete_inner-Differs i all dels (set es s e) es' (s + 1) s' all_differ later
                        (ground arith) in
                    (
                      omega arith,
                      omega (arith, length-set es s e),
                      every,
                      λ p l. room_for (length-set es s e) room p (ground arith),
                    )
                | inr full ↦ absurd (ground arith)
              ]
            ]
      ]
    where
      room_for : {n m t u v : ℕ} → n ≡ m → (u ≤ t + 1 → t + 1 ≤ n → v ≤ n) → u ≤ t → t < m → v ≤ m
      room_for e f p l = omega (arith, f (omega arith) (omega arith))

  delete_outer-Differs :
      (n i : ℕ) (dels : List A) (es es' : List (AddrEntry A)) (s s' : ℕ)
      → All (Differs dels) es
      → 2 ≤ length dels
      → i ≤ s
      → s ≤ length es
      → delete_outer (same_addr same) n i dels (es, s) ≡ some (es', s')
      → (s + 2 * n ≤ s') × (s' ≤ length es)
  unfolding delete_outer
  delete_outer-Differs zero i dels es es' s s' h two le l q = ground arith
  delete_outer-Differs (suc n) i dels es es' s s' h two le l q =
      elim (Option-cases (delete_inner (same_addr same) i dels (es, s))) [
        | inl out ↦ absurd (ground arith)
        | inr ((es1, s1), round) ↦
            let (count, size, every, room) =
              delete_inner-Differs i dels dels es es1 s s1 h (λ e p. p) round in
            let (grown, fits) =
              delete_outer-Differs n (i + 1) dels es1 es' s1 s' every two (omega arith)
                (omega (arith, room le l)) (ground arith) in
            (omega arith, omega arith)
      ]

  -- With two or more addresses to delete, all of them different from every address of a record that
  -- is not empty, `deleteAddrs` panics: it writes past the end of the slice.
  pub delete_record-panics :
      (dels : List A) (r : AddrsRecord A)
      → 2 ≤ length dels
      → r.addrs ≢ []
      → All (Differs dels) r.addrs
      → delete_record same dels r ≡ none
  unfolding delete_record
  delete_record-panics dels r two filled h =
      elim (Option-cases (delete_outer (same_addr same) (length r.addrs) 0 dels (r.addrs, 0))) [
        | inl out ↦ rw (out, delete_record)
        | inr ((es, s), done) ↦
            let (grown, fits) =
              delete_outer-Differs (length r.addrs) 0 dels r.addrs es 0 s h two (omega arith)
                (omega arith) done in
            let size : length r.addrs ≡ 0 = omega arith in absurd (filled (grind arith))
      ]
