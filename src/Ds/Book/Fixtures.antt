-- ===== src/Ds/Book/Fixtures.antt =====
-- A datastore and a cache of one record that meet the laws, to run the address book on.
use go_libp2p_peerstore.Prelude.{
  ℕ, zero, suc, true, List, [], ◌∷◌, ◌++◌, Option, none, some, Bytes, bytes_eq, int_eq, ℤ, pos,
  negsuc, ◌≡◌, ◌≢◌, ◌⊎◌, refl, ap, ◌∙◌, ◌==◌, ==_iff, if◌then◌else◌, arith, inl, is_some, length,
}
use go_libp2p_peerstore.Prelude.Maps.{Map, lookup, insert, delete, lookup-insert, lookup-delete}
use mathlib.Core.Option
use go_libp2p_peerstore.Prelude.{take, drop, ==_refl}
use go_libp2p_peerstore.Mem.Metadata.{GetResult, value, not_found, failed}
use go_libp2p_peerstore.Ds.Cache.{Cache}
use go_libp2p_peerstore.Ds.Record.{AddrEntry}
use go_libp2p_peerstore.Ds.Store.{AddrStore, addr_key}
use go_libp2p_peerstore.Ds.Book.Laws.{CacheLaws, StoreLaws}

unfoldable pub held : Bytes → Option (Bytes × ℕ) → Option ℕ
held k none = none
held k (some (j, v)) = if k == j then some v else none

unfoldable pub released : Bytes → Option (Bytes × ℕ) → Option (Bytes × ℕ)
released k none = none
released k (some (j, v)) = if k == j then none else some (j, v)

-- A cache that holds the record that was added last.
abbrev pub one_cache : Cache (Option (Bytes × ℕ)) Bytes ℕ
one_cache = record {
  get = λ k c. (held k c, c);
  add = λ k v c. some (k, v);
  remove = released;
  contains = λ k c. is_some (held k c);
  peek = held;
  cached_keys = λ c. [];
}

held-released :
    (j k : Bytes) (w : ℕ) (c : Option (Bytes × ℕ))
    → held j (released k c) ≡ some w
    → (j ≢ k) × (held j c ≡ some w)
unfolding held released
held-released j k w none h = absurd (ground arith)
held-released j k w (some (i, v)) h = ground (arith, ==_iff j k, ==_iff k i, ==_iff j i)

held-some :
    (j k : Bytes) (v w : ℕ) (c : Option (Bytes × ℕ))
    → held j (some (k, v)) ≡ some w
    → ((j ≡ k) × (w ≡ v)) ⊎ ((j ≢ k) × (held j c ≡ some w))
unfolding held
held-some j k v w c h = inl (ground (arith, ==_iff j k))

pub one_cache-CacheLaws : CacheLaws one_cache
one_cache-CacheLaws = record {
  get_peek = λ k c. refl;
  peek_get = λ j k c. refl;
  peek_add = held-some;
  peek_remove = held-released;
}

-- A record as a list of numbers: each part behind its length.
unfoldable pub int_code : ℤ → Bytes → Bytes
int_code (pos n) rest = 0 ∷ n ∷ rest
int_code (negsuc n) rest = 1 ∷ n ∷ rest

unfoldable pub entry_codes : List (AddrEntry Bytes) → Bytes
entry_codes [] = []
entry_codes (e ∷ es) = length e.addr ∷ e.addr ++ int_code e.expiry (int_code e.ttl (entry_codes es))

unfoldable pub int_of : ℕ → ℕ → ℤ
int_of zero n = pos n
int_of (suc s) n = negsuc n

unfoldable pub with_entry :
    Bytes → Bytes → (Bytes → Option (List (AddrEntry Bytes))) → Option (List (AddrEntry Bytes))
with_entry a (s ∷ m ∷ s' ∷ m' ∷ rest) decode =
    Option.map (λ es. (record { addr = a; expiry = int_of s m; ttl = int_of s' m' }) ∷ es)
      (decode rest)
with_entry a rest decode = none

unfoldable pub entries_of : ℕ → Bytes → Option (List (AddrEntry Bytes))
entries_of zero bs = some []
entries_of (suc c) [] = none
entries_of (suc c) (n ∷ bs) = with_entry (take n bs) (drop n bs) (entries_of c)

unfoldable pub record_code : Bytes → List (AddrEntry Bytes) → Bytes
record_code id es = length id ∷ id ++ length es ∷ entry_codes es

unfoldable pub with_count : Bytes → Bytes → Option (Bytes × List (AddrEntry Bytes))
with_count id [] = none
with_count id (c ∷ bs) = Option.map (λ es. (id, es)) (entries_of c bs)

unfoldable pub record_of : Bytes → Option (Bytes × List (AddrEntry Bytes))
record_of [] = none
record_of (n ∷ bs) = with_count (take n bs) (drop n bs)

take-append : (xs ys : Bytes) → take (length xs) (xs ++ ys) ≡ xs
take-append [] ys = refl
take-append (x ∷ xs) ys = ap (λ zs. x ∷ zs) (take-append xs ys)

drop-append : (xs ys : Bytes) → drop (length xs) (xs ++ ys) ≡ ys
drop-append [] ys = refl
drop-append (x ∷ xs) ys = drop-append xs ys

with_entry-int_code :
    (a : Bytes) (x y : ℤ) (rest : Bytes) (decode : Bytes → Option (List (AddrEntry Bytes)))
    → with_entry a (int_code x (int_code y rest)) decode
      ≡ Option.map (λ es. (record { addr = a; expiry = x; ttl = y }) ∷ es) (decode rest)
unfolding with_entry int_code int_of
with_entry-int_code a (pos m) (pos n) rest decode = refl
with_entry-int_code a (pos m) (negsuc n) rest decode = refl
with_entry-int_code a (negsuc m) (pos n) rest decode = refl
with_entry-int_code a (negsuc m) (negsuc n) rest decode = refl

entries_of-entry_codes :
    (es : List (AddrEntry Bytes)) → entries_of (length es) (entry_codes es) ≡ some es
unfolding entries_of entry_codes
entries_of-entry_codes [] = refl
entries_of-entry_codes (e ∷ es) =
    let rest = int_code e.expiry (int_code e.ttl (entry_codes es)) in
    rw
      (
        take-append e.addr rest,
        drop-append e.addr rest,
        with_entry-int_code e.addr e.expiry e.ttl (entry_codes es) (entries_of (length es)),
        entries_of-entry_codes es,
      )
      refl

record_of-record_code :
    (id : Bytes) (es : List (AddrEntry Bytes)) → record_of (record_code id es) ≡ some (id, es)
unfolding record_of record_code with_count
record_of-record_code id es =
    let rest = length es ∷ entry_codes es in
    ap (λ x. with_count x (drop (length id) (id ++ rest))) (take-append id rest)
    ∙ ap (with_count id) (drop-append id rest)
    ∙ ap (Option.map (λ fs. (id, fs))) (entries_of-entry_codes es)

-- The datastore is a map from bytes to bytes.
unfoldable pub answer : Option Bytes → GetResult Bytes
answer none = not_found
answer (some v) = value v

abbrev pub map_store : AddrStore (Map Bytes Bytes) Bytes Bytes
map_store = record {
  get = λ k d. answer (lookup k d);
  put = λ k v d. (true, insert k v d);
  delete = λ k d. (true, delete k d);
  addr_book_base = 1 ∷ [];
  child_string = λ k b. k ++ b;
  base32 = λ b. b;
  marshal = λ id es. some (record_code id es);
  unmarshal = record_of;
}

answer_lem : (o : Option Bytes) → answer o ≢ failed
unfolding answer
answer_lem none e = cc
answer_lem (some v) e = cc

pub map_store-StoreLaws : StoreLaws map_store
unfolding addr_key answer
map_store-StoreLaws = record {
  get_put = λ k v d. rw (lookup-insert k k v d, ==_refl k) refl;
  get_put_other = λ j k v d h. ap answer (lookup-insert k j v d ∙ ground (arith, ==_iff k j));
  get_delete = λ k d. rw (lookup-delete k k d, ==_refl k) refl;
  get_delete_other = λ j k d h. ap answer (lookup-delete k j d ∙ ground (arith, ==_iff k j));
  get_works = λ k d. answer_lem (lookup k d);
  put_works = λ k v d. refl;
  delete_works = λ k d. refl;
  same_key = λ p q h. ground arith;
  unmarshal_marshal = λ id es. (record_code id es, refl, record_of-record_code id es);
}
