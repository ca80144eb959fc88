-- ===== src/Ds/Record/Clean.antt =====
-- `clean`: which addresses it keeps, in which order, and when it reports a change.
use go_libp2p_peerstore.Prelude.{
  ℕ, zero, suc, ◌+◌, ◌≤◌, Bool, true, false, not, ◌&&◌, ◌||◌, List, [], ◌∷◌, bytes_eq, int_eq, ℤ,
  ◌≤ℤ◌, ◌<ℤ◌, ◌≡◌, ◌≢◌, ◌⊎◌, refl, sym, ap, ◌∙◌, if◌then◌else◌, arith, inl, inr, Bool-cases, All,
  length,
}
use mathlib.Core.List.{filter, Perm}
use mathlib.Core.List.Perm
use native.Mathlib.Decide.{dec_lt}
use go_libp2p_peerstore.Prelude.{pos_part, neg_part, drop, ltb, nat_beq}
use go_libp2p_peerstore.Ds.Record.{AddrEntry, AddrsRecord, expired_prefix, starts_after, clean}

module _ {A : Type 0} where
  -- Soonest expiring first.
  abbrev pub IsSorted : List (AddrEntry A) → Type 0
  IsSorted [] = Unit
  IsSorted (e ∷ es) = All (λ f. e.expiry ≤ℤ f.expiry) es × IsSorted es

  -- What `sort.Slice` documents, for the order by expiry: the result is sorted, and has the same
  -- entries.
  pub record SortLaws (sort : List (AddrEntry A) → List (AddrEntry A)) : Type 0 where
    pub sorted : (es : List (AddrEntry A)) → IsSorted (sort es)
    pub same_entries : (es : List (AddrEntry A)) → Perm (sort es) es

  -- The entries that have not expired at `now`, in their order.
  unfoldable pub live_entries : ℤ → List (AddrEntry A) → List (AddrEntry A)
  live_entries now =
      filter (λ e. dec_lt (pos_part now + neg_part e.expiry) (pos_part e.expiry + neg_part now))

  -- A record that is not dirty is sorted.
  abbrev pub IsOrdered : AddrsRecord A → Type 0
  IsOrdered r = r.dirty ≡ false → IsSorted r.addrs

  live_entries-later :
      (now x : ℤ) (es : List (AddrEntry A))
      → now <ℤ x
      → All (λ f. x ≤ℤ f.expiry) es
      → live_entries now es ≡ es
  unfolding live_entries
  live_entries-later now x [] h g = refl
  live_entries-later now x (e ∷ es) h g = ground (arith, live_entries-later now x es)

  pub drop-expired_prefix :
      (now : ℤ) (es : List (AddrEntry A))
      → IsSorted es
      → drop (expired_prefix now es) es ≡ live_entries now es
  unfolding expired_prefix live_entries
  drop-expired_prefix now [] h = refl
  drop-expired_prefix now (e ∷ es) h =
      ground (arith, drop-expired_prefix now es, live_entries-later now e.expiry es)

  All-drop :
      (P : AddrEntry A → Type 0) (n : ℕ) (es : List (AddrEntry A)) → All P es → All P (drop n es)
  All-drop P zero es h = h
  All-drop P (suc n) [] h = tt
  All-drop P (suc n) (e ∷ es) h = All-drop P n es h.1

  pub drop-IsSorted : (n : ℕ) (es : List (AddrEntry A)) → IsSorted es → IsSorted (drop n es)
  drop-IsSorted zero es h = h
  drop-IsSorted (suc n) [] h = tt
  drop-IsSorted (suc n) (e ∷ es) h = drop-IsSorted n es h.1

  length-drop : (n : ℕ) (es : List (AddrEntry A)) → length (drop n es) ≤ length es
  length-drop zero es = omega arith
  length-drop (suc n) [] = omega arith
  length-drop (suc n) (e ∷ es) = let shorter = length-drop n es in omega arith

  drop-whole : (n : ℕ) (es : List (AddrEntry A)) → ltb 0 n ≡ true → drop n es ≡ es → length es ≡ 0
  drop-whole zero es h e = absurd (ground arith)
  drop-whole (suc n) [] h e = refl
  drop-whole (suc n) (f ∷ es) h e =
      let shorter = length-drop n es in
      let same : length (drop n es) ≡ length (f ∷ es) = ap length e in absurd (omega arith)

  -- The short cut is taken where nothing has expired.
  pub starts_after-live :
      (now : ℤ) (es : List (AddrEntry A))
      → IsSorted es
      → starts_after now es ≡ true
      → (live_entries now es ≡ es) × (es ≢ [])
  unfolding starts_after live_entries
  starts_after-live now [] h g = absurd (ground arith)
  starts_after-live now (e ∷ es) h g = (ground (arith, live_entries-later now e.expiry es), λ q. cc)

  -- What `clean` does to a record: `Cleaned now r c`.
  pub record Cleaned (now : ℤ) (r : AddrsRecord A) (c : AddrsRecord A × Bool) : Type 0 where
    pub entries : Perm c.0.addrs (live_entries now r.addrs)
    pub sorted : IsSorted c.0.addrs
    pub same_id : c.0.id ≡ r.id
    pub same_dirty : c.0.dirty ≡ r.dirty
    pub no_change : c.1 ≡ false → (c.0 ≡ r) × (r.dirty ≡ false) × (r.addrs ≢ [])
    pub change :
        c.1 ≡ true → (r.dirty ≡ true) ⊎ (r.addrs ≡ []) ⊎ (live_entries now r.addrs ≢ r.addrs)

module _ {A : Type 0} (sort : List (AddrEntry A) → List (AddrEntry A)) (laws : SortLaws sort) where
  -- The list that `clean` splits.
  abbrev resorted : AddrsRecord A → List (AddrEntry A)
  resorted r = if r.dirty && ltb 1 (length r.addrs) then sort r.addrs else r.addrs

  resorted-IsSorted : (r : AddrsRecord A) → IsOrdered r → IsSorted (resorted r)
  resorted-IsSorted r o = elim (Bool-cases (r.dirty && ltb 1 (length r.addrs))) [
    | inl must ↦ rw must (laws.sorted r.addrs)
    | inr may ↦ rw may (short (r.addrs) (ground arith))
  ]
    where
      short : (es : List (AddrEntry A)) → (IsSorted es ⊎ (length es ≤ 1)) → IsSorted es
      short es (inl h) = h
      short [] (inr h) = tt
      short (e ∷ []) (inr h) = (tt, tt)
      short (e ∷ f ∷ es) (inr h) = absurd (omega arith)

  resorted-perm : (r : AddrsRecord A) → Perm (resorted r) r.addrs
  resorted-perm r = elim (Bool-cases (r.dirty && ltb 1 (length r.addrs))) [
    | inl must ↦ rw must (laws.same_entries r.addrs)
    | inr may ↦ rw may (Perm.refl r.addrs)
  ]

  live-resorted-perm :
      (now : ℤ) (r : AddrsRecord A)
      → Perm (live_entries now (resorted r)) (live_entries now r.addrs)
  unfolding live_entries
  live-resorted-perm now r = Perm.filter _ (resorted-perm r)

  ghost-Cleaned : (now : ℤ) (r : AddrsRecord A) → length r.addrs ≡ 0 → Cleaned now r (r, true)
  unfolding live_entries
  ghost-Cleaned now r h =
      let none_left : r.addrs ≡ [] = grind arith in
      record {
        entries = rw none_left (Perm.refl []);
        sorted = rw none_left tt;
        same_id = refl;
        same_dirty = refl;
        no_change = λ q. cc;
        change = λ q. inr (inl none_left);
      }

  split-Cleaned :
      (now : ℤ) (r : AddrsRecord A)
      → IsOrdered r
      → length r.addrs ≢ 0
      → Cleaned now r (
        record r { addrs = drop (expired_prefix now (resorted r)) (resorted r) },
        r.dirty || ltb 0 (expired_prefix now (resorted r)),
      )
  split-Cleaned now r o h = record {
    entries =
        rw (drop-expired_prefix now (resorted r) (resorted-IsSorted r o))
          (live-resorted-perm now r);
    sorted = drop-IsSorted (expired_prefix now (resorted r)) (resorted r) (resorted-IsSorted r o);
    same_id = refl;
    same_dirty = refl;
    no_change = λ q. (
      unsplit (expired_prefix now (resorted r)) (ground arith) (ground arith),
      ground arith,
      λ e. h (ap length e),
    );
    change = λ q. elim (Bool-cases r.dirty) [
      | inl marked ↦ inl marked
      | inr clear ↦ inr (
          inr (λ same.
            let unsorted : resorted r ≡ r.addrs = ground arith in
            let cut = drop-expired_prefix now (resorted r) (resorted-IsSorted r o) in
            let whole : drop (expired_prefix now (resorted r)) r.addrs ≡ r.addrs =
              ap (drop (expired_prefix now (resorted r))) (sym unsorted)
              ∙ cut
              ∙ ap (live_entries now) unsorted
              ∙ same in
            h (drop-whole (expired_prefix now (resorted r)) r.addrs (ground arith) whole)))
    ];
  }
    where
      unsplit :
          (n : ℕ) → ltb 0 n ≡ false → r.dirty ≡ false → record r { addrs = drop n (resorted r) } ≡ r
      unsplit zero p d = ground arith
      unsplit (suc n) p d = absurd (ground arith)

  -- On a record that is sorted unless it is dirty, `clean` keeps exactly the entries that have not
  -- expired, sorted by expiry, and neither the peer nor the mark. It reports a
  -- change exactly where there is something to flush: where the record was marked, or empty, or had
  -- an expired entry. Where it reports none, the record is what it was.
  pub clean-Cleaned : (now : ℤ) (r : AddrsRecord A) → IsOrdered r → Cleaned now r (clean sort now r)
  unfolding clean
  clean-Cleaned now r o = elim (Bool-cases (not r.dirty && starts_after now r.addrs)) [
    | inl quick ↦
        let (all_live, filled) = starts_after-live now r.addrs (o (ground arith)) (ground arith) in
        rw quick (record {
          entries = rw all_live (Perm.refl r.addrs);
          sorted = o (ground arith);
          same_id = refl;
          same_dirty = refl;
          no_change = λ _. (refl, ground arith, filled);
          change = λ q. absurd cc;
        })
    | inr slow ↦ rw slow (elim (Bool-cases (nat_beq (length r.addrs) 0)) [
      | inl ghost ↦ rw ghost (ghost-Cleaned now r (ground arith))
      | inr filled ↦ rw filled (split-Cleaned now r o (ground arith))
    ])
  ]
