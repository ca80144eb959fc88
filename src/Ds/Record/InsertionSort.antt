-- ===== src/Ds/Record/InsertionSort.antt =====
-- A sort of entries by expiry, to run `clean` with.
use go_libp2p_peerstore.Prelude.{
  List, [], ◌∷◌, Bytes, bytes_eq, int_eq, ℤ, ◌≤ℤ◌, leb_ℤ, if◌then◌else◌, arith, inl, inr,
  Bool-cases, All,
}
use mathlib.Core.List.Perm
use mathlib.Core.List.{Perm}
use go_libp2p_peerstore.Ds.Record.{AddrEntry}
use go_libp2p_peerstore.Ds.Record.Clean.{IsSorted, SortLaws}

-- An insertion sort by expiry: a sort that meets the laws.
unfoldable pub insert_entry : AddrEntry Bytes → List (AddrEntry Bytes) → List (AddrEntry Bytes)
insert_entry e [] = e ∷ []
insert_entry e (f ∷ es) =
    let rest = insert_entry e es in if leb_ℤ e.expiry f.expiry then e ∷ f ∷ es else f ∷ rest

unfoldable pub insertion_sort : List (AddrEntry Bytes) → List (AddrEntry Bytes)
insertion_sort [] = []
insertion_sort (e ∷ es) = insert_entry e (insertion_sort es)

All-insert_entry :
    (x : ℤ) (e : AddrEntry Bytes) (es : List (AddrEntry Bytes))
    → x ≤ℤ e.expiry
    → All (λ f. x ≤ℤ f.expiry) es
    → All (λ f. x ≤ℤ f.expiry) (insert_entry e es)
unfolding insert_entry
All-insert_entry x e [] h g = (h, tt)
All-insert_entry x e (f ∷ es) h g = ground (arith, All-insert_entry x e es)

All-later :
    (x y : ℤ) (es : List (AddrEntry Bytes))
    → x ≤ℤ y
    → All (λ f. y ≤ℤ f.expiry) es
    → All (λ f. x ≤ℤ f.expiry) es
All-later x y [] h g = tt
All-later x y (e ∷ es) h g = (omega arith, All-later x y es h g.1)

insert_entry-IsSorted :
    (e : AddrEntry Bytes) (es : List (AddrEntry Bytes)) → IsSorted es → IsSorted (insert_entry e es)
unfolding insert_entry
insert_entry-IsSorted e [] h = (tt, tt)
insert_entry-IsSorted e (f ∷ es) h = ground (
  arith,
  insert_entry-IsSorted e es,
  All-insert_entry f.expiry e es,
  All-later e.expiry f.expiry es,
)

insert_entry-perm :
    (e : AddrEntry Bytes) (es : List (AddrEntry Bytes)) → Perm (insert_entry e es) (e ∷ es)
unfolding insert_entry
insert_entry-perm e [] = Perm.refl (e ∷ [])
insert_entry-perm e (f ∷ es) = elim (Bool-cases (leb_ℤ e.expiry f.expiry)) [
  | inl before ↦ rw before (Perm.refl (e ∷ f ∷ es))
  | inr after ↦ rw after (Perm.trans (Perm.cons f (insert_entry-perm e es)) (Perm.swap e f es))
]

insertion_sort-IsSorted : (es : List (AddrEntry Bytes)) → IsSorted (insertion_sort es)
unfolding insertion_sort
insertion_sort-IsSorted [] = tt
insertion_sort-IsSorted (e ∷ es) =
    insert_entry-IsSorted e (insertion_sort es) (insertion_sort-IsSorted es)

insertion_sort-perm : (es : List (AddrEntry Bytes)) → Perm (insertion_sort es) es
unfolding insertion_sort
insertion_sort-perm [] = Perm.refl []
insertion_sort-perm (e ∷ es) =
    Perm.trans (insert_entry-perm e (insertion_sort es)) (Perm.cons e (insertion_sort-perm es))

pub insertion_sort-SortLaws : SortLaws insertion_sort
insertion_sort-SortLaws = record {
  sorted = insertion_sort-IsSorted;
  same_entries = insertion_sort-perm;
}
