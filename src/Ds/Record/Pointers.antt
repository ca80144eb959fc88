-- ===== src/Ds/Record/Pointers.antt =====
-- The slice of a record as the Go code has it, of pointers to entries: the loops of `setAddrs` and
-- `deleteAddrs` on the pointers and the cells behind them, against the loops on entries as values.
use go_libp2p_peerstore.Prelude.{
  ℕ, Bool, false, List, [], ◌∷◌, map, Option, none, some, ℤ, int_eq, ltb_ℤ, ◌≡◌, refl, sym, ap, ◌∙◌,
  ◌==◌, ==_iff, if◌then◌else◌, arith, inl, inr, Bool-cases, Option-cases, length, is_some, nat_eq,
}
use mathlib.Core.Option
use go_libp2p_peerstore.Prelude.{take, set}
use go_libp2p_peerstore.Prelude.Maps.{contains, IsDistinct}
use go_libp2p_peerstore.Ds.Record.{
  AddrEntry, TtlWriteMode, ttl_override, ttl_extend, set_existing, set_entries, same_addr,
  delete_outer,
}

-- What the pointers point to.
abbrev pub Cells : Type 0 → Type 0
Cells A = ℕ → AddrEntry A

module _ {A : Type 0} where
  unfoldable pub put_cell : ℕ → AddrEntry A → Cells A → Cells A
  put_cell p e h q = if p == q then e else h q

  -- The entries of a slice.
  abbrev pub entries_at : Cells A → List ℕ → List (AddrEntry A)
  entries_at h = map h

  map-put_cell :
      (p : ℕ) (e : AddrEntry A) (h : Cells A) (ps : List ℕ)
      → contains p ps ≡ false
      → entries_at (put_cell p e h) ps ≡ entries_at h ps
  unfolding put_cell contains
  map-put_cell p e h [] fresh = refl
  map-put_cell p e h (q ∷ ps) fresh = ground (arith, map-put_cell p e h ps, ==_iff p q, ==_iff q p)

  cons-put_cell :
      (p : ℕ) (e : AddrEntry A) (h : Cells A) (ps : List ℕ)
      → contains p ps ≡ false
      → entries_at (put_cell p e h) (p ∷ ps) ≡ e ∷ entries_at h ps
  unfolding put_cell
  cons-put_cell p e h ps fresh = ground (arith, map-put_cell p e h ps fresh, ==_iff p p)

  put_cell-other :
      (p q : ℕ) (e : AddrEntry A) (h : Cells A) → (p == q) ≡ false → put_cell p e h q ≡ h q
  unfolding put_cell
  put_cell-other p q e h other = rw (put_cell, other)

module _ {A : Type 0} (same : A → A → Bool) where
  -- The inner loop of `setAddrs`, through the pointers.
  unfoldable pub set_existing_at : TtlWriteMode → ℤ → A → Cells A → List ℕ → Option (Cells A)
  set_existing_at mode exp a h [] = none
  set_existing_at mode exp a h (p ∷ ps) =
      let rest = set_existing_at mode exp a h ps in
      let e = h p in
      if same a e.addr
      then elim mode [
        | ttl_extend ↦
            some (if ltb_ℤ exp e.expiry then h else put_cell p (record e { expiry = exp }) h)
        | ttl_override ↦ some (put_cell p (record e { expiry = exp }) h)
      ]
      else rest

  -- The outer loop.
  unfoldable pub set_entries_at : TtlWriteMode → ℤ → List A → Cells A → List ℕ → Cells A × List A
  set_entries_at mode exp [] h ps = (h, [])
  set_entries_at mode exp (a ∷ as') h ps =
      let (h', missing) =
        set_entries_at mode exp as' (Option.get_or (set_existing_at mode exp a h ps) h) ps in
      (h', (if is_some (set_existing_at mode exp a h ps) then missing else a ∷ missing))

  -- The loops of `deleteAddrs`: the pointers that are left.
  unfoldable pub delete_at : Cells A → List A → List ℕ → Option (List ℕ)
  delete_at h dels ps =
      Option.map (λ (qs, survived). take survived qs)
        (delete_outer (λ p del. same_addr same (h p) del) (length ps) 0 dels (ps, 0))

  set_existing_at-untouched :
      (mode : TtlWriteMode) (exp : ℤ) (a : A) (h h' : Cells A) (ps : List ℕ) (q : ℕ)
      → set_existing_at mode exp a h ps ≡ some h'
      → contains q ps ≡ false
      → h' q ≡ h q
  unfolding set_existing_at put_cell contains
  set_existing_at-untouched mode exp a h h' [] q done fresh = absurd (ground arith)
  set_existing_at-untouched ttl_override exp a h h' (p ∷ ps) q done fresh =
      ground (arith, set_existing_at-untouched ttl_override exp a h h' ps q)
  set_existing_at-untouched ttl_extend exp a h h' (p ∷ ps) q done fresh =
      ground (arith, set_existing_at-untouched ttl_extend exp a h h' ps q)

  set_existing_at-entries :
      (mode : TtlWriteMode) (exp : ℤ) (a : A) (h : Cells A) (ps : List ℕ)
      → IsDistinct ps
      → Option.map (λ h'. entries_at h' ps) (set_existing_at mode exp a h ps)
        ≡ set_existing same mode exp a (entries_at h ps)
  unfolding set_existing_at set_existing
  set_existing_at-entries mode exp a h [] d = refl
  set_existing_at-entries mode exp a h (p ∷ ps) d = elim (Bool-cases (same a (h p).addr)) [
    | inl here ↦ rw here (found mode)
    | inr further ↦ rw further (later (set_existing_at-entries mode exp a h ps d.1))
  ]
    where
      later :
          Option.map (λ h'. entries_at h' ps) (set_existing_at mode exp a h ps)
            ≡ set_existing same mode exp a (entries_at h ps)
          → Option.map (λ h'. entries_at h' (p ∷ ps)) (set_existing_at mode exp a h ps)
            ≡ Option.map (λ es. h p ∷ es) (set_existing same mode exp a (entries_at h ps))
      later ih = elim (Option-cases (set_existing_at mode exp a h ps)) [
        | inl missing ↦
            let none_there : set_existing same mode exp a (entries_at h ps) ≡ none =
              sym ih ∙ ap (Option.map (λ h'. entries_at h' ps)) missing in
            rw (missing, none_there) refl
        | inr (h', set) ↦
            let set_there : set_existing same mode exp a (entries_at h ps)
                ≡ some (entries_at h' ps) =
              sym ih ∙ ap (Option.map (λ g. entries_at g ps)) set in
            rw (set, set_there)
              (ap (λ e. some (e ∷ entries_at h' ps))
                (set_existing_at-untouched mode exp a h h' ps p set d.0))
      ]

      found :
          (mode : TtlWriteMode)
          → Option.map
              (λ h'. entries_at h' (p ∷ ps))
              (elim mode as (λ x. Option (Cells A)) [
                | ttl_extend ↦ some (
                    if ltb_ℤ exp (h p).expiry
                    then h
                    else put_cell p (record (h p) { expiry = exp }) h)
                | ttl_override ↦ some (put_cell p (record (h p) { expiry = exp }) h)
              ])
            ≡ elim mode as (λ x. Option (List (AddrEntry A))) [
              | ttl_extend ↦ some (
                  (if ltb_ℤ exp (h p).expiry then h p else record (h p) { expiry = exp })
                  ∷ entries_at h ps)
              | ttl_override ↦ some (record (h p) { expiry = exp } ∷ entries_at h ps)
            ]
      found ttl_override = ap some (cons-put_cell p (record (h p) { expiry = exp }) h ps d.0)
      found ttl_extend = ground (arith, cons-put_cell p (record (h p) { expiry = exp }) h ps d.0)

  -- On a slice that holds no pointer twice, the loops of `setAddrs` do to the cells what they do to the
  -- entries, and find the same addresses missing.
  pub set_entries_at-entries :
      (mode : TtlWriteMode) (exp : ℤ) (as' : List A) (h : Cells A) (ps : List ℕ)
      → IsDistinct ps
      → set_entries same mode exp as' (entries_at h ps)
        ≡ (entries_at (set_entries_at mode exp as' h ps).0 ps, (set_entries_at mode exp as' h ps).1)
  unfolding set_entries_at set_entries
  set_entries_at-entries mode exp [] h ps d = refl
  set_entries_at-entries mode exp (a ∷ as') h ps d =
      let one = set_existing_at-entries mode exp a h ps d in
      elim (Option-cases (set_existing_at mode exp a h ps)) [
        | inl missing ↦
            let none_there : set_existing same mode exp a (entries_at h ps) ≡ none =
              sym one ∙ ap (Option.map (λ h'. entries_at h' ps)) missing in
            rw (missing, none_there, set_entries_at-entries mode exp as' h ps d) refl
        | inr (h', set) ↦
            let set_there : set_existing same mode exp a (entries_at h ps)
                ≡ some (entries_at h' ps) =
              sym one ∙ ap (Option.map (λ g. entries_at g ps)) set in
            rw (set, set_there, set_entries_at-entries mode exp as' h' ps d) refl
      ]
