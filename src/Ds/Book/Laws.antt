-- ===== src/Ds/Book/Laws.antt =====
-- What the methods of `dsAddrBook` rely on: a cache that returns what was put in it, and may forget it
-- at any time, and a datastore whose calls succeed.
use go_libp2p_peerstore.Prelude.{true, List, some, Bytes, bytes_eq, int_eq, ◌≡◌, ◌≢◌, ◌⊎◌}
use go_libp2p_peerstore.Mem.Metadata.{value, not_found, failed}
use go_libp2p_peerstore.Ds.Cache.{Cache}
use go_libp2p_peerstore.Ds.Record.{AddrEntry}
use go_libp2p_peerstore.Ds.Store.{AddrStore, addr_key}

-- What the cache documents. `peek k` is what `get k` would return; a cache may drop any other record
-- where one is added.
pub record CacheLaws {C V : Type 0} (cache : Cache C Bytes V) : Type 0 where
  pub get_peek : (k : Bytes) (c : C) → (cache.get k c).0 ≡ cache.peek k c
  pub peek_get : (j k : Bytes) (c : C) → cache.peek j (cache.get k c).1 ≡ cache.peek j c
  pub peek_add :
      (j k : Bytes) (v w : V) (c : C)
      → cache.peek j (cache.add k v c) ≡ some w
      → ((j ≡ k) × (w ≡ v)) ⊎ ((j ≢ k) × (cache.peek j c ≡ some w))
  pub peek_remove :
      (j k : Bytes) (w : V) (c : C)
      → cache.peek j (cache.remove k c) ≡ some w
      → (j ≢ k) × (cache.peek j c ≡ some w)

-- A datastore that stores: `get` returns the bytes of the last `put` of a key, unless a `delete` came
-- after it, the calls succeed, and a record reads back as it was marshalled.
pub record StoreLaws {D K A : Type 0} (st : AddrStore D K A) : Type 0 where
  pub get_put : (k : K) (v : Bytes) (d : D) → st.get k (st.put k v d).1 ≡ value v
  pub get_put_other : (j k : K) (v : Bytes) (d : D) → j ≢ k → st.get j (st.put k v d).1 ≡ st.get j d
  pub get_delete : (k : K) (d : D) → st.get k (st.delete k d).1 ≡ not_found
  pub get_delete_other : (j k : K) (d : D) → j ≢ k → st.get j (st.delete k d).1 ≡ st.get j d
  pub get_works : (k : K) (d : D) → st.get k d ≢ failed
  pub put_works : (k : K) (v : Bytes) (d : D) → (st.put k v d).0 ≡ true
  pub delete_works : (k : K) (d : D) → (st.delete k d).0 ≡ true
  pub same_key : (p q : Bytes) → addr_key st p ≡ addr_key st q → p ≡ q
  pub unmarshal_marshal :
      (id : Bytes) (es : List (AddrEntry A))
      → (v : Bytes) × (st.marshal id es ≡ some v) × (st.unmarshal v ≡ some (id, es))
