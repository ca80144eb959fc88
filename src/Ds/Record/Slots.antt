-- ===== src/Ds/Record/Slots.antt =====
-- The loops of `deleteAddrs` on the slots of a slice, whatever is in them.
use go_libp2p_peerstore.Prelude.{
  ℕ, zero, suc, ◌+◌, Bool, List, [], ◌∷◌, map, int_eq, ◌≡◌, refl, ap, inl, inr, Bool-cases,
  Option-cases, length, nat_eq,
}
use mathlib.Core.Option
use go_libp2p_peerstore.Prelude.{take, set, get_elem?, ltb, nat_beq}
use go_libp2p_peerstore.Ds.Record.{delete_inner, delete_outer}

module _ {E F A : Type 0} (f : E → F) (matches : F → A → Bool) where
  get_elem?-map : (es : List E) (i : ℕ) → get_elem? (map f es) i ≡ Option.map f (get_elem? es i)
  get_elem?-map [] i = refl
  get_elem?-map (e ∷ es) zero = refl
  get_elem?-map (e ∷ es) (suc i) = get_elem?-map es i

  set-map : (es : List E) (i : ℕ) (e : E) → set (map f es) i (f e) ≡ map f (set es i e)
  set-map [] i e = refl
  set-map (x ∷ es) zero e = refl
  set-map (x ∷ es) (suc i) e = ap (λ r. f x ∷ r) (set-map es i e)

  pub length-map : (es : List E) → length (map f es) ≡ length es
  length-map [] = refl
  length-map (e ∷ es) = ap suc (length-map es)

  pub take-map : (n : ℕ) (es : List E) → take n (map f es) ≡ map f (take n es)
  take-map zero es = refl
  take-map (suc n) [] = refl
  take-map (suc n) (e ∷ es) = ap (λ r. f e ∷ r) (take-map n es)

  abbrev pub mapped : List E × ℕ → List F × ℕ
  mapped (es, s) = (map f es, s)

  -- The loops of `deleteAddrs` copy slots without looking into them.
  delete_inner-map :
      (i : ℕ) (dels : List A) (es : List E) (s : ℕ)
      → delete_inner matches i dels (map f es, s)
        ≡ Option.map mapped (delete_inner (λ e. matches (f e)) i dels (es, s))
  unfolding delete_inner
  delete_inner-map i [] es s = refl
  delete_inner-map i (del ∷ dels) es s = elim (Option-cases (get_elem? es i)) [
    | inl out ↦ rw (delete_inner, get_elem?-map es i, out) refl
    | inr (e, at) ↦
        rw (delete_inner, get_elem?-map es i, at)
          (elim (Bool-cases (matches (f e) del)) [
            | inl gone ↦ rw gone (delete_inner-map i dels es s)
            | inr stays ↦ elim (Bool-cases (nat_beq i s)) [
              | inl here ↦ rw (stays, here) (delete_inner-map i dels es (s + 1))
              | inr behind ↦ elim (Bool-cases (ltb s (length es))) [
                | inl fits ↦
                    rw (stays, behind, length-map es, fits, set-map es s e)
                      (delete_inner-map i dels (set es s e) (s + 1))
                | inr full ↦ rw (stays, behind, length-map es, full) refl
              ]
            ]
          ])
  ]

  pub delete_outer-map :
      (n i : ℕ) (dels : List A) (es : List E) (s : ℕ)
      → delete_outer matches n i dels (map f es, s)
        ≡ Option.map mapped (delete_outer (λ e. matches (f e)) n i dels (es, s))
  unfolding delete_outer
  delete_outer-map zero i dels es s = refl
  delete_outer-map (suc n) i dels es s =
      elim (Option-cases (delete_inner (λ e. matches (f e)) i dels (es, s))) [
        | inl out ↦ rw (delete_outer, delete_inner-map i dels es s, out) refl
        | inr ((es', s'), round) ↦
            rw (delete_outer, delete_inner-map i dels es s, round)
              (delete_outer-map n (i + 1) dels es' s')
      ]
