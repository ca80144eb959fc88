-- ===== src/Prelude/Keys.antt =====
-- Go's comparable keys: a Boolean equality with its law, and byte strings ordered as
-- `bytes.Compare` orders them. A Go string is the list of its bytes.
use Prim.Native.Nat.{ℕ}
use mathlib.Core.Path.{◌≡◌, refl}
use mathlib.Core.Logic.{◌↔◌}
use mathlib.Core.Bool.{Bool, true, false, ◌&&◌}
use mathlib.Core.List.{List, [], ◌∷◌}
use native.Mathlib.Omega.{arith}
use go_libp2p_peerstore.Prelude.Tests.{ltb, nat_beq, nat_beq_iff, if◌then◌else◌}

-- A type whose values Go compares by `==`.
pub record Comparable {κ} (K : Type κ) : Type κ where
  pub same : K → K → Bool
  pub same_iff : (x y : K) → (same x y ≡ true) ↔ (x ≡ y)

module _ {κ} {K : Type κ} ⦃c : Comparable K⦄ where
  infix 50 ◌==◌
  abbrev pub ◌==◌ : K → K → Bool
  ◌==◌ x y = c.same x y

  pub ==_iff : (x y : K) → ((x == y) ≡ true) ↔ (x ≡ y)
  ==_iff = c.same_iff

  pub ==_refl : (x : K) → (x == x) ≡ true
  ==_refl x = (==_iff x x).1 refl

instance abbrev pub nat_eq : Comparable ℕ
nat_eq = record { same_iff = nat_beq_iff; same = nat_beq }

abbrev pub Bytes : Type 0
Bytes = List ℕ

unfoldable pub bytes_beq : Bytes → Bytes → Bool
bytes_beq [] [] = true
bytes_beq (x ∷ xs) (y ∷ ys) = nat_beq x y && bytes_beq xs ys
bytes_beq _ _ = false

pub bytes_beq_iff : (a b : Bytes) → (bytes_beq a b ≡ true) ↔ (a ≡ b)
unfolding bytes_beq
bytes_beq_iff [] [] = ground arith
bytes_beq_iff [] (y ∷ ys) = ground arith
bytes_beq_iff (x ∷ xs) [] = ground arith
bytes_beq_iff (x ∷ xs) (y ∷ ys) = ground (arith, bytes_beq_iff xs ys)

instance abbrev pub bytes_eq : Comparable Bytes
bytes_eq = record { same_iff = bytes_beq_iff; same = bytes_beq }

-- `bytes.Compare(a, b) > 0`
unfoldable pub bytes_gtb : Bytes → Bytes → Bool
bytes_gtb [] _ = false
bytes_gtb (x ∷ xs) [] = true
bytes_gtb (x ∷ xs) (y ∷ ys) =
    let rest = bytes_gtb xs ys in if ltb y x then true else if ltb x y then false else rest

pub bytes_gtb-asym : (x y : Bytes) → (bytes_gtb x y && bytes_gtb y x) ≡ false
unfolding bytes_gtb
bytes_gtb-asym [] y = refl
bytes_gtb-asym (x ∷ xs) [] = refl
bytes_gtb-asym (x ∷ xs) (y ∷ ys) = ground (arith, bytes_gtb-asym xs ys)

pub bytes_gtb_trans :
    (x y z : Bytes) → bytes_gtb x y ≡ true → bytes_gtb y z ≡ true → bytes_gtb x z ≡ true
unfolding bytes_gtb
bytes_gtb_trans [] y z p q = absurd (ground arith)
bytes_gtb_trans (x ∷ xs) [] z p q = absurd (ground arith)
bytes_gtb_trans (x ∷ xs) (y ∷ ys) [] p q = refl
bytes_gtb_trans (x ∷ xs) (y ∷ ys) (z ∷ zs) p q = ground (arith, bytes_gtb_trans xs ys zs)
