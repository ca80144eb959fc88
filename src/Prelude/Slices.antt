-- ===== src/Prelude/Slices.antt =====
-- Reads and writes of a slice at an index, and its parts.
use Prim.Native.Nat.{ℕ, zero, suc, ◌<◌}
use mathlib.Core.Path.{◌≡◌, refl, sym, ap, subst, ◌∙◌}
use mathlib.Core.Logic.{◌≢◌, ∥∥₁_elim}
use mathlib.Core.List.Perm
use native.Mathlib.Nat.{ℕ_set}
use mathlib.Core.List.{List, [], ◌∷◌, ◌++◌, Perm, Permᴰ}
use mathlib.Core.Option.{some, some-injective}
use native.Mathlib.Omega.{arith}
use go_libp2p_peerstore.Prelude.Tests.{nat_beq, if◌then◌else◌}
use go_libp2p_peerstore.Prelude.Lists.{length, get_or, get_elem?, set, take, drop, All}

module _ {ℓ} {B : Type ℓ} where
  pub get_elem?-drop :
      (n : ℕ) (xs : List B) {y : B} {ys : List B}
      → drop n xs ≡ y ∷ ys
      → (get_elem? xs n ≡ some y) × (drop (suc n) xs ≡ ys) × (n < length xs)
  get_elem?-drop zero [] h = absurd (ground arith)
  get_elem?-drop zero (x ∷ xs) h = ground arith
  get_elem?-drop (suc n) [] h = absurd (ground arith)
  get_elem?-drop (suc n) (x ∷ xs) h = ground (arith, get_elem?-drop n xs h)

  pub take-suc :
      (n : ℕ) (xs : List B) {y : B}
      → get_elem? xs n ≡ some y
      → take (suc n) xs ≡ take n xs ++ y ∷ []
  take-suc zero [] h = absurd (ground arith)
  take-suc zero (x ∷ xs) h = ground arith
  take-suc (suc n) [] h = absurd (ground arith)
  take-suc (suc n) (x ∷ xs) h = ap (◌∷◌ x) (take-suc n xs h)

  pub take-set :
      (n : ℕ) (xs : List B) (y : B)
      → n < length xs
      → take (suc n) (set xs n y) ≡ take n xs ++ y ∷ []
  take-set zero [] y h = absurd (omega arith)
  take-set zero (x ∷ xs) y h = refl
  take-set (suc n) [] y h = absurd (omega arith)
  take-set (suc n) (x ∷ xs) y h = ap (◌∷◌ x) (take-set n xs y (omega arith))

  pub drop-set : (n i : ℕ) (xs : List B) (y : B) → n < i → drop i (set xs n y) ≡ drop i xs
  drop-set n zero xs y h = absurd (omega arith)
  drop-set n (suc i) [] y h = refl
  drop-set zero (suc i) (x ∷ xs) y h = refl
  drop-set (suc n) (suc i) (x ∷ xs) y h = drop-set n i xs y (omega arith)

  pub get_elem?-lt : (xs : List B) (i : ℕ) {y : B} → get_elem? xs i ≡ some y → i < length xs
  get_elem?-lt [] i h = absurd (ground arith)
  get_elem?-lt (x ∷ xs) zero h = omega arith
  get_elem?-lt (x ∷ xs) (suc i) h = omega (arith, get_elem?-lt xs i h)

  pub get_elem?-set :
      (xs : List B) (i : ℕ) (y : B) {x : B}
      → get_elem? xs i ≡ some x
      → get_elem? (set xs i y) i ≡ some y
  get_elem?-set [] i y h = cc
  get_elem?-set (x ∷ xs) zero y h = refl
  get_elem?-set (x ∷ xs) (suc i) y h = get_elem?-set xs i y h

  pub get_elem?-set_other :
      (xs : List B) (i j : ℕ) (y : B) → i ≢ j → get_elem? (set xs i y) j ≡ get_elem? xs j
  get_elem?-set_other [] i j y h = refl
  get_elem?-set_other (x ∷ xs) zero zero y h = absurd (h refl)
  get_elem?-set_other (x ∷ xs) zero (suc j) y h = refl
  get_elem?-set_other (x ∷ xs) (suc i) zero y h = refl
  get_elem?-set_other (x ∷ xs) (suc i) (suc j) y h =
      get_elem?-set_other xs i j y (λ e. h (ap suc e))

  pub get_elem?-snoc : (xs : List B) (y : B) → get_elem? (xs ++ y ∷ []) (length xs) ≡ some y
  get_elem?-snoc [] y = refl
  get_elem?-snoc (x ∷ xs) y = get_elem?-snoc xs y

  pub set-snoc : (xs : List B) (y z : B) → set (xs ++ y ∷ []) (length xs) z ≡ xs ++ z ∷ []
  set-snoc [] y z = refl
  set-snoc (x ∷ xs) y z = ap (λ ys. x ∷ ys) (set-snoc xs y z)

  pub set-same : (xs : List B) (i : ℕ) (y : B) → get_elem? xs i ≡ some y → set xs i y ≡ xs
  set-same [] i y h = refl
  set-same (x ∷ xs) zero y h = ap (λ z. z ∷ xs) (sym (some-injective x y h))
  set-same (x ∷ xs) (suc i) y h = ap (λ ys. x ∷ ys) (set-same xs i y h)

  pub get_elem?-append :
      (xs ys : List B) (i : ℕ) {y : B} → get_elem? xs i ≡ some y → get_elem? (xs ++ ys) i ≡ some y
  get_elem?-append [] ys i h = cc
  get_elem?-append (x ∷ xs) ys zero h = h
  get_elem?-append (x ∷ xs) ys (suc i) h = get_elem?-append xs ys i h

  pub length-set : (xs : List B) (i : ℕ) (y : B) → length (set xs i y) ≡ length xs
  length-set [] i y = refl
  length-set (x ∷ xs) zero y = refl
  length-set (x ∷ xs) (suc i) y = ap suc (length-set xs i y)

  pub All-set : (P : B → Type 0) (xs : List B) (i : ℕ) (y : B) → P y → All P xs → All P (set xs i y)
  All-set P [] i y p h = h
  All-set P (x ∷ xs) zero y p h = (p, h.1)
  All-set P (x ∷ xs) (suc i) y p h = (h.0, All-set P xs i y p h.1)

  pub All-get_elem? :
      (P : B → Type 0) (xs : List B) (i : ℕ) {y : B} → All P xs → get_elem? xs i ≡ some y → P y
  All-get_elem? P [] i h g = cc
  All-get_elem? P (x ∷ xs) zero {y} h g = subst P (some-injective x y g) h.0
  All-get_elem? P (x ∷ xs) (suc i) h g = All-get_elem? P xs i h.1 g

module _ {ℓ} {B : Type ℓ} where
  pub get_elem?-get_or :
      (xs : List B) (i : ℕ) (d : B) → i < length xs → get_elem? xs i ≡ some (get_or xs i d)
  get_elem?-get_or [] i d h = absurd (omega arith)
  get_elem?-get_or (x ∷ xs) zero d h = refl
  get_elem?-get_or (x ∷ xs) (suc i) d h = get_elem?-get_or xs i d (omega arith)

  pub get_or-set :
      (xs : List B) (i j : ℕ) (v d : B)
      → i < length xs
      → get_or (set xs i v) j d ≡ (if nat_beq i j then v else get_or xs j d)
  get_or-set [] i j v d h = absurd (omega arith)
  get_or-set (x ∷ xs) zero zero v d h = refl
  get_or-set (x ∷ xs) zero (suc j) v d h = ground arith
  get_or-set (x ∷ xs) (suc i) zero v d h = ground arith
  get_or-set (x ∷ xs) (suc i) (suc j) v d h = ground (arith, get_or-set xs i j v d)

  -- A write exchanges one entry for another.
  pub set-exchange :
      (v d : B) (xs : List B) (i : ℕ) → i < length xs → Perm (get_or xs i d ∷ set xs i v) (v ∷ xs)
  set-exchange v d [] i h = absurd (omega arith)
  set-exchange v d (x ∷ xs) zero h = Perm.swap v x xs
  set-exchange v d (x ∷ xs) (suc i) h =
      Perm.trans (Perm.swap x (get_or xs i d) (set xs i v))
        (Perm.trans (Perm.cons x (set-exchange v d xs i (omega arith))) (Perm.swap v x xs))

  Permᴰ-length : {xs ys : List B} → Permᴰ xs ys → length xs ≡ length ys
  Permᴰ-length Permᴰ.nil = refl
  Permᴰ-length (Permᴰ.cons e p) = ap suc (Permᴰ-length p)
  Permᴰ-length (Permᴰ.swap e f) = refl
  Permᴰ-length (Permᴰ.trans p q) = Permᴰ-length p ∙ Permᴰ-length q

  pub length-perm : {xs ys : List B} → Perm xs ys → length xs ≡ length ys
  length-perm p = ∥∥₁_elim p (ℕ_set _ _) Permᴰ-length

  pub get_or-take : (n i : ℕ) (xs : List B) (d : B) → i < n → get_or (take n xs) i d ≡ get_or xs i d
  get_or-take zero i xs d h = absurd (omega arith)
  get_or-take (suc n) i [] d h = refl
  get_or-take (suc n) zero (x ∷ xs) d h = refl
  get_or-take (suc n) (suc i) (x ∷ xs) d h = get_or-take n i xs d (omega arith)

  -- A slice is what stands before its last entry, and that entry.
  pub take-last :
      (n : ℕ) (xs : List B) (d : B) → length xs ≡ suc n → take n xs ++ get_or xs n d ∷ [] ≡ xs
  take-last n [] d h = absurd (omega arith)
  take-last zero (x ∷ []) d h = refl
  take-last zero (x ∷ y ∷ xs) d h = absurd (omega arith)
  take-last (suc n) (x ∷ xs) d h = ap (◌∷◌ x) (take-last n xs d (omega arith))

  pub get_or-append :
      (xs ys : List B) (i : ℕ) (d : B) → i < length xs → get_or (xs ++ ys) i d ≡ get_or xs i d
  get_or-append [] ys i d h = absurd (omega arith)
  get_or-append (x ∷ xs) ys zero d h = refl
  get_or-append (x ∷ xs) ys (suc i) d h = get_or-append xs ys i d (omega arith)

  All-prop {κ} : (P : B → Type κ) → ((x : B) → IsProp (P x)) → (xs : List B) → IsProp (All P xs)
  All-prop P h [] = λ a b. refl
  All-prop P h (x ∷ xs) = λ a b i. (h x a.0 b.0 i, All-prop P h xs a.1 b.1 i)

  Permᴰ-All {κ} : (P : B → Type κ) {xs ys : List B} → Permᴰ xs ys → All P xs → All P ys
  Permᴰ-All P Permᴰ.nil h = h
  Permᴰ-All P (Permᴰ.cons e p) h = (subst P e h.0, Permᴰ-All P p h.1)
  Permᴰ-All P (Permᴰ.swap e f) h = (subst P f h.1.0, (subst P e h.0, h.1.1))
  Permᴰ-All P (Permᴰ.trans p q) h = Permᴰ-All P q (Permᴰ-All P p h)

  pub All-perm {κ} :
      (P : B → Type κ)
      → ((x : B) → IsProp (P x))
      → {xs ys : List B} → Perm xs ys
      → All P xs
      → All P ys
  All-perm P h {ys = ys} p a = ∥∥₁_elim p (All-prop P h ys) (λ q. Permᴰ-All P q a)

  pub All-at {κ} :
      (P : B → Type κ) (xs : List B) (d : B)
      → ((i : ℕ) → i < length xs → P (get_or xs i d))
      → All P xs
  All-at P [] d h = tt
  All-at P (x ∷ xs) d h = (h 0 (omega arith), All-at P xs d (λ i l. h (suc i) (omega arith)))
