-- ===== src/Prelude/Maps.antt =====
-- Go's `map[K]V` as an association list. A map that the code builds holds each key once
-- (`IsMap`). Its order stands for the order in which `range` visits the entries.
use mathlib.Core.Path.{◌≡◌, refl, subst}
use mathlib.Core.Logic.{inl, inr}
use mathlib.Core.Bool.{Bool, false, ◌||◌}
use mathlib.Core.List.{List, [], ◌∷◌, map}
use mathlib.Core.Option.{Option, none, some, some-injective}
use native.Mathlib.Omega.{arith}
use go_libp2p_peerstore.Prelude.Tests.{if◌then◌else◌, is_some, Bool-cases}
use go_libp2p_peerstore.Prelude.Keys.{Comparable, ◌==◌, ==_iff}

abbrev pub Map {ℓ κ} : Type ℓ → Type κ → Type (ℓ ⊔ κ)
Map K V = List (K × V)

abbrev pub keys {ℓ κ} : {K : Type ℓ} {V : Type κ} → Map K V → List K
keys m = map (λ e. e.0) m

module _ {ℓ} {K : Type ℓ} ⦃c : Comparable K⦄ where
  unfoldable pub contains : K → List K → Bool
  contains k [] = false
  contains k (x ∷ xs) = x == k || contains k xs

  -- No entry occurs twice.
  abbrev pub IsDistinct : List K → Type 0
  IsDistinct [] = Unit
  IsDistinct (x ∷ xs) = (contains x xs ≡ false) × IsDistinct xs

module _ {ℓ κ} {K : Type ℓ} {V : Type κ} ⦃c : Comparable K⦄ where
  -- `m[k]` with its `ok`
  unfoldable pub lookup : K → Map K V → Option V
  lookup k [] = none
  lookup k ((held, value) ∷ rest) = if held == k then some value else lookup k rest

  -- `m[k] = v`
  unfoldable pub insert : K → V → Map K V → Map K V
  insert k v [] = (k, v) ∷ []
  insert k v ((held, old) ∷ rest) =
      let behind = insert k v rest in if held == k then (held, v) ∷ rest else (held, old) ∷ behind

  -- `delete(m, k)`
  unfoldable pub delete : K → Map K V → Map K V
  delete k [] = []
  delete k ((j, w) ∷ m) = let rest = delete k m in if j == k then rest else (j, w) ∷ rest

  abbrev pub IsMap : Map K V → Type κ
  IsMap [] = Unit
  IsMap ((k, v) ∷ m) = (lookup k m ≡ none) × IsMap m

  pub lookup-insert :
      (written read : K) (v : V) (m : Map K V)
      → lookup read (insert written v m) ≡ (if written == read then some v else lookup read m)
  unfolding insert lookup
  lookup-insert written read v [] = refl
  lookup-insert written read v ((held, old) ∷ rest) = ground (
    arith,
    lookup-insert written read v rest,
    ==_iff held written,
    ==_iff held read,
    ==_iff written read,
  )

  pub lookup-delete :
      (k j : K) (m : Map K V) → lookup j (delete k m) ≡ (if k == j then none else lookup j m)
  unfolding lookup delete
  lookup-delete k j [] = ground arith
  lookup-delete k j ((i, w) ∷ m) =
      ground (arith, ==_iff i k, ==_iff i j, ==_iff k j, lookup-delete k j m)

  pub insert-IsMap : (k : K) (v : V) (m : Map K V) → IsMap m → IsMap (insert k v m)
  unfolding insert lookup
  insert-IsMap k v [] h = ground arith
  insert-IsMap k v ((i, w) ∷ m) h =
      ground (arith, ==_iff i k, ==_iff k i, lookup-insert k i v m, insert-IsMap k v m)

  pub delete-IsMap : (k : K) (m : Map K V) → IsMap m → IsMap (delete k m)
  unfolding delete
  delete-IsMap k [] h = ground arith
  delete-IsMap k ((i, w) ∷ m) h = ground (arith, lookup-delete k i m, delete-IsMap k m)

  -- A key is listed by `range` exactly when it is found.
  pub contains-keys : (k : K) (m : Map K V) → contains k (keys m) ≡ is_some (lookup k m)
  unfolding contains lookup
  contains-keys k [] = refl
  contains-keys k ((j, v) ∷ m) = ground (arith, contains-keys k m)

-- A predicate on every value.
abbrev pub AllValues {ℓ κ ι} : {K : Type ℓ} {V : Type κ} → (V → Type ι) → Map K V → Type ι
AllValues P [] = Unit
AllValues P ((k, v) ∷ m) = P v × AllValues P m

module _ {ℓ κ ι} {K : Type ℓ} {V : Type κ} ⦃c : Comparable K⦄ (P : V → Type ι) where
  pub AllValues-lookup : (k : K) {v : V} (m : Map K V) → AllValues P m → lookup k m ≡ some v → P v
  unfolding lookup
  AllValues-lookup k [] h q = cc
  AllValues-lookup k ((j, w) ∷ m) h q = elim (Bool-cases (j == k)) [
    | inl same ↦ subst P (some-injective _ _ (rw same at q)) h.0
    | inr other ↦ AllValues-lookup k m h.1 (rw other at q)
  ]

  pub AllValues-insert :
      (k : K) (v : V) (m : Map K V) → P v → AllValues P m → AllValues P (insert k v m)
  unfolding insert
  AllValues-insert k v [] p h = (p, h)
  AllValues-insert k v ((j, w) ∷ m) p h = elim (Bool-cases (j == k)) [
    | inl same ↦ rw same (p, h.1)
    | inr other ↦ rw other (h.0, AllValues-insert k v m p h.1)
  ]

  pub AllValues-delete : (k : K) (m : Map K V) → AllValues P m → AllValues P (delete k m)
  unfolding delete
  AllValues-delete k [] h = h
  AllValues-delete k ((j, w) ∷ m) h = elim (Bool-cases (j == k)) [
    | inl same ↦ rw same (AllValues-delete k m h.1)
    | inr other ↦ rw other (h.0, AllValues-delete k m h.1)
  ]
