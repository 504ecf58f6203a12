-- ===== src/Etcd.antt =====
-- The etcd client that the store calls (go.etcd.io/etcd/client/v3), as an interface: its
-- operations, and what its documentation promises of them.
pub mod Memory
pub mod Laws
use mrmfactorytest.Prelude.{String, List, [], ◌∷◌, Option, some, ◌≡◌, ◌⊎◌, ◌==◌, if◌then◌else◌}
use mrmfactorytest.Errors.{Error, Result, ok, err, external, Exec}
use mrmfactorytest.Store.Models.{Document}

-- `Server` is the state of the cluster and of the connection to it.
pub record Client : Type 1 where
  pub Server : Type 0
  pub get : String → Exec Server (Option Document)
  pub put : String → Document → Exec Server (Unit {0})
  -- client.Txn(ctx).Then(OpPut, …).Commit()
  pub put_all : List (String × Document) → Exec Server (Unit {0})
  -- what the cluster holds at a key
  pub content : Server → String → Option Document

-- The contents after a list of writes.
abbrev pub write_all :
    List (String × Document) → (String → Option Document) → String → Option Document
write_all [] f j = f j
write_all ((k, v) ∷ rest) f j = write_all rest (λ i. if k == i then some v else f i) j

-- A read returns what is there, or fails with an error of the client's own, and changes nothing. A
-- write that succeeds is in force; one that fails may have been made or not, and a transaction is
-- made whole or not at all.
pub record IsEtcd (c : Client) : Type 0 where
  pub get_value :
      (k : String) (s : c.Server) (o : Option Document) → (c.get k s).0 ≡ ok o → o ≡ c.content s k
  pub get_error :
      (k : String) (s : c.Server) (e : Error)
      → (c.get k s).0 ≡ err e
      → (why : String) × (e ≡ external why)
  pub get_content :
      (k : String) (s : c.Server) (j : String) → c.content (c.get k s).1 j ≡ c.content s j
  pub put_content :
      (k : String) (v : Document) (s : c.Server)
      → (c.put k v s).0 ≡ ok tt
      → (j : String) → c.content (c.put k v s).1 j ≡ (if k == j then some v else c.content s j)
  pub put_failed :
      (k : String) (v : Document) (s : c.Server) (e : Error)
      → (c.put k v s).0 ≡ err e
      → ((j : String) → c.content (c.put k v s).1 j ≡ c.content s j)
        ⊎ ((j : String) → c.content (c.put k v s).1 j ≡ (if k == j then some v else c.content s j))
  pub put_all_content :
      (kvs : List (String × Document)) (s : c.Server)
      → (c.put_all kvs s).0 ≡ ok tt
      → (j : String) → c.content (c.put_all kvs s).1 j ≡ write_all kvs (c.content s) j
  pub put_all_failed :
      (kvs : List (String × Document)) (s : c.Server) (e : Error)
      → (c.put_all kvs s).0 ≡ err e
      → ((j : String) → c.content (c.put_all kvs s).1 j ≡ c.content s j)
        ⊎ ((j : String) → c.content (c.put_all kvs s).1 j ≡ write_all kvs (c.content s) j)
