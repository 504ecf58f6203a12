-- ===== src/Etcd/Laws.antt =====
-- What the laws of an etcd client say of one call, on every branch.
use mrmfactorytest.Prelude.{String, some, ◌≡◌, ◌⊎◌, inl, inr, false, ◌∙◌, ap, ◌==◌, eq_refl}
use mrmfactorytest.Errors.{Error, ok, err, Result-cases}
use mrmfactorytest.Etcd.{Client, IsEtcd}
use mrmfactorytest.Store.Models.{Document}

-- Nothing outside the key changes.
abbrev pub OthersKept : (c : Client) → String → c.Server → c.Server → Type 0
OthersKept c k s s' = (j : String) → (k == j) ≡ false → c.content s' j ≡ c.content s j

abbrev pub PutOk : (c : Client) → String → Document → c.Server → Type 0
PutOk c k v s = ((c.put k v s).0 ≡ ok tt) × (c.content (c.put k v s).1 k ≡ some v)

abbrev pub PutErr : (c : Client) → String → Document → c.Server → Type 0
PutErr c k v s =
    (e : Error) × ((c.put k v s).0 ≡ err e)
    × ((c.content (c.put k v s).1 k ≡ c.content s k) ⊎ (c.content (c.put k v s).1 k ≡ some v))

module _ {c : Client} (law : IsEtcd c) where
  pub get_outcome :
      (k : String) (s : c.Server)
      → ((c.get k s).0 ≡ ok (c.content s k)) ⊎ ((e : Error) × ((c.get k s).0 ≡ err e))
  get_outcome k s = elim (Result-cases (c.get k s).0) [
    | inl (o, e) ↦ inl (e ∙ ap ok (law.get_value k s o e))
    | inr failure ↦ inr failure
  ]

  pub put_outcome : (k : String) (v : Document) (s : c.Server) → PutOk c k v s ⊎ PutErr c k v s
  put_outcome k v s = elim (Result-cases (c.put k v s).0) [
    | inl (u, e) ↦ inl (e, rw (law.put_content k v s e k, eq_refl))
    | inr (x, e) ↦ inr (
      x,
      e,
      elim (law.put_failed k v s x e) [
        | inl same ↦ inl (same k)
        | inr made ↦ inr (rw (made k, eq_refl))
      ],
    )
  ]

  pub put_others : (k : String) (v : Document) (s : c.Server) → OthersKept c k s (c.put k v s).1
  put_others k v s j ne = elim (Result-cases (c.put k v s).0) [
    | inl (u, e) ↦ rw (law.put_content k v s e j, ne)
    | inr (x, e) ↦ elim (law.put_failed k v s x e) [
      | inl same ↦ same j
      | inr made ↦ rw (made j, ne)
    ]
  ]
