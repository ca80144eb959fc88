-- ===== src/Ds/Store.antt =====
-- pstoreds/addr_book.go: how a record reaches the datastore. The datastore `D`, its keys `K`, base32
-- and the coding of records (the generated part of pb) are parameters.
use go_libp2p_peerstore.Prelude.{
  Bool, false, List, Option, none, some, Bytes, bytes_eq, int_eq, if◌then◌else◌,
}
use mathlib.Core.Option
use go_libp2p_peerstore.Mem.Metadata.{GetResult}
use go_libp2p_peerstore.Ds.Record.{AddrEntry, AddrsRecord, put, remove, flush_op, flushed}

-- What the code uses of the datastore, of its keys and of `AddrBookRecord`. `put` and `delete` also tell
-- whether their error is nil; `marshal` has no bytes where its error is not.
pub record AddrStore (D K A : Type 0) : Type 0 where
  pub get : K → D → GetResult Bytes
  pub put : K → Bytes → D → Bool × D
  pub delete : K → D → Bool × D
  pub addr_book_base : K
  pub child_string : K → Bytes → K
  pub base32 : Bytes → Bytes
  pub marshal : Bytes → List (AddrEntry A) → Option Bytes
  pub unmarshal : Bytes → Option (Bytes × List (AddrEntry A))

-- A call of `ds.Write`.
pub data StoreOp (K : Type 0) : Type 0 where
  put_op : K → Bytes → StoreOp K
  delete_op : K → StoreOp K

module _ {D K A : Type 0} (st : AddrStore D K A) where
  -- `addrBookBase.ChildString(b32.RawStdEncoding.EncodeToString([]byte(id)))`
  unfoldable pub addr_key : Bytes → K
  addr_key p = st.child_string st.addr_book_base (st.base32 p)

  -- What `flush` writes; `none` where the record cannot be marshalled.
  unfoldable pub flush_write : AddrsRecord A → Option (StoreOp K)
  unfolding flush_op
  flush_write r = elim (flush_op r) [
    | remove id ↦ some (delete_op (addr_key id))
    | put r' ↦ Option.map (put_op (addr_key r'.id)) (st.marshal r'.id r'.addrs)
  ]

  unfoldable pub write_store : StoreOp K → D → Bool × D
  write_store (put_op k b) d = st.put k b d
  write_store (delete_op k) d = st.delete k d

  -- `flush` to the datastore itself. A record that is written is not dirty any more.
  unfoldable pub flush : AddrsRecord A → D → Bool × (AddrsRecord A × D)
  flush r d = elim (flush_write r) [
    | none ↦ (false, (r, d))
    | some op ↦ let (good, d') = write_store op d in (good, (if good then flushed r else r, d'))
  ]
