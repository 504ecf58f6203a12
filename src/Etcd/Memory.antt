-- ===== src/Etcd/Memory.antt =====
-- A client over a map in memory, with a schedule of outages: it meets the interface's laws.
use mrmfactorytest.Prelude.{
  String, List, [], ◌∷◌, Option, Bool, true, ◌≡◌, refl, inl, arith, Map, lookup, insert,
  lookup-insert,
}
use mrmfactorytest.Errors.{Error, Result, ok, err, external, Exec}
use mrmfactorytest.Store.Models.{Document}
use mrmfactorytest.Etcd.{Client, IsEtcd, write_all}

-- `outages` says of each call to come whether it fails; when it is used up, none does.
pub record Memory : Type 0 where
  pub table : Map Document
  pub outages : List Bool

answer {ℓ} : {A : Type ℓ} → List Bool → A → Result A
answer (true ∷ rest) a = err (external "unavailable")
answer _ a = ok a

abbrev next_outages : List Bool → List Bool
next_outages [] = []
next_outages (b ∷ rest) = rest

when_up : List Bool → Map Document → Map Document → Map Document
when_up (true ∷ rest) m m' = m
when_up _ m m' = m'

insert_all : List (String × Document) → Map Document → Map Document
insert_all [] m = m
insert_all ((k, v) ∷ rest) m = insert_all rest (insert k v m)

unfoldable pub read : String → Exec Memory (Option Document)
unfolding answer
read k s = (answer s.outages (lookup k s.table), record s { outages = next_outages s.outages })

unfoldable pub write : String → Document → Exec Memory (Unit {0})
unfolding answer when_up
write k v s = (
  answer s.outages tt,
  record {
    table = when_up s.outages s.table (insert k v s.table);
    outages = next_outages s.outages;
  },
)

unfoldable pub write_many : List (String × Document) → Exec Memory (Unit {0})
unfolding answer when_up insert_all
write_many kvs s = (
  answer s.outages tt,
  record {
    table = when_up s.outages s.table (insert_all kvs s.table);
    outages = next_outages s.outages;
  },
)

abbrev pub memory : Client
memory = record {
  Server = Memory;
  get = read;
  put = write;
  put_all = write_many;
  content = λ s k. lookup k s.table;
}

lookup-insert_all :
    (kvs : List (String × Document)) (m : Map Document) (f : String → Option Document) (j : String)
    → ((i : String) → lookup i m ≡ f i)
    → lookup j (insert_all kvs m) ≡ write_all kvs f j
unfolding insert_all
lookup-insert_all [] m f j h = h j
lookup-insert_all ((k, v) ∷ rest) m f j h =
    lookup-insert_all rest (insert k v m) _ j (λ i. ground (arith, lookup-insert k i v m, h i))

when_up-down {ℓ} :
    {A : Type ℓ} (a : A) {e : Error} (os : List Bool) (m m' : Map Document)
    → answer os a ≡ err e
    → when_up os m m' ≡ m
unfolding answer when_up
when_up-down a (true ∷ rest) m m' h = refl
when_up-down a _ m m' h = cc

unavailable {ℓ} :
    {A : Type ℓ} (a : A) {e : Error} (os : List Bool)
    → answer os a ≡ err e
    → (why : String) × (e ≡ external why)
unfolding answer
unavailable a (true ∷ rest) h = ("unavailable", cc)
unavailable a _ h = cc

pub memory-IsEtcd : IsEtcd memory
unfolding read write write_many
memory-IsEtcd = record {
  get_value = λ k s o e. ground arith;
  get_error = λ k s e h. unavailable (lookup k s.table) s.outages h;
  get_content = λ k s j. refl;
  put_content = λ k v s e j. ground (arith, lookup-insert k j v s.table);
  put_failed = λ k v s e h. inl (λ j. rw (when_up-down tt s.outages _ _ h));
  put_all_content = λ kvs s e j.
      ground (arith, lookup-insert_all kvs s.table (λ i. lookup i s.table) j (λ i. refl));
  put_all_failed = λ kvs s e h. inl (λ j. rw (when_up-down tt s.outages _ _ h));
}
