-- ===== src/Adaptors/Hana/Plans.antt =====
-- adaptors/hana-adaptor/main.go: the statements that the actions put together are those of a plan
-- that is written without loops.
use Prim.Native.String
use mrmfactorytest.Prelude.{
  String, none, some, List, [], ◌∷◌, ◌++◌, map, length, Map, mem, keys, insert, mem-keys-insert,
  filter_by, Bool, not, ◌&&◌, ◌||◌, ◌==◌, ◌≡◌, refl, ap, ◌∙◌, arith, Bool-cases, Option-cases, inl,
  inr,
}
use mrmfactorytest.Value.{Entries}
use mrmfactorytest.Adaptors.Hana.Actions.{
  column, suspend_capture, resume_capture, drop_subscription, drop_queries, delete_queries,
  virtual_table_map, truncate_table, create_subscription, distribute, create_queries, excluded,
}

-- the texts under a key, of the rows that have one
abbrev pub names : String → List Entries → List String
names key [] = []
names key (r ∷ rows) =
    let rest = names key rows in elim (column key r) [ none ↦ rest | some name ↦ name ∷ rest ]

abbrev pub concat_map : {A B : Type 0} → (A → List B) → List A → List B
concat_map f [] = []
concat_map f (x ∷ xs) = f x ++ concat_map f xs

-- Nothing for no subscription; or else the capture is suspended first and resumed last, and every
-- subscription with a name is dropped in between.
abbrev pub deletion_plan : String → List Entries → List String
deletion_plan source [] = []
deletion_plan source (sub ∷ subs) =
    suspend_capture source
    ∷ (map drop_subscription (names "SUBSCRIPTION_NAME" (sub ∷ subs)) ++ resume_capture source ∷ [])

-- A table is eligible that is not the excluded one and has a virtual table of its name.
abbrev pub is_eligible : List String → String → Bool
is_eligible views table = not (table == excluded) && mem (Prim.Native.String.◌++◌ "VT_" table) views

abbrev pub eligible : List Entries → List Entries → List String
eligible tables views =
    filter_by (is_eligible (names "TABLE_NAME" views)) (names "TABLE_NAME" tables)

abbrev pub creation_steps : String → String → List String
creation_steps schema table =
    truncate_table schema table ∷ create_subscription schema table ∷ distribute table ∷ []

-- Each eligible table is emptied, then gets a subscription, which is then distributed.
abbrev pub creation_plan : String → List Entries → List Entries → List String
creation_plan schema tables views = concat_map (creation_steps schema) (eligible tables views)

drop_queries-map :
    (subs : List Entries) (after : List String)
    → drop_queries subs after ≡ map drop_subscription (names "SUBSCRIPTION_NAME" subs) ++ after
unfolding drop_queries
drop_queries-map [] after = refl
drop_queries-map (sub ∷ subs) after = elim (Option-cases (column "SUBSCRIPTION_NAME" sub)) [
  | inl e ↦ rw (e, drop_queries, names) (drop_queries-map subs after)
  | inr (name, e) ↦
      rw (e, drop_queries, names)
        (ap (λ (l : List String). drop_subscription name ∷ l) (drop_queries-map subs after))
]

pub delete_queries-plan :
    (source : String) (sub : Entries) (subs : List Entries)
    → delete_queries source (sub ∷ subs) ≡ deletion_plan source (sub ∷ subs)
unfolding delete_queries
delete_queries-plan source sub subs =
    ap (λ (l : List String). suspend_capture source ∷ l)
      (drop_queries-map (sub ∷ subs) (resume_capture source ∷ []))

-- The lookup map has the names of the virtual tables.
mem-virtual_table_map :
    (wanted : String) (views : List Entries) (m : Map (Unit {0}))
    → mem wanted (keys (virtual_table_map views m))
      ≡ (mem wanted (names "TABLE_NAME" views) || mem wanted (keys m))
unfolding virtual_table_map
mem-virtual_table_map wanted [] m = refl
mem-virtual_table_map wanted (vt ∷ views) m = elim (Option-cases (column "TABLE_NAME" vt)) [
  | inl e ↦ rw (e, names) (mem-virtual_table_map wanted views m)
  | inr (name, e) ↦
      rw (e, names)
        (mem-virtual_table_map wanted views (insert name tt m)
          ∙ rw (mem-keys-insert wanted name tt m) (ground arith))
]

pub mem-keys-virtual_table_map :
    (wanted : String) (views : List Entries)
    → mem wanted (keys (virtual_table_map views [])) ≡ mem wanted (names "TABLE_NAME" views)
unfolding keys
mem-keys-virtual_table_map wanted views = mem-virtual_table_map wanted views [] ∙ ground arith

pub create_queries-plan :
    (schema : String) (tables views : List Entries) (vts : Map (Unit {0}))
    → ((table : String) → mem table (keys vts) ≡ mem table (names "TABLE_NAME" views))
    → create_queries schema tables vts
      ≡ (creation_plan schema tables views, length (eligible tables views))
unfolding create_queries
create_queries-plan schema [] views vts h = refl
create_queries-plan schema (t ∷ tables) views vts h = elim (Option-cases (column "TABLE_NAME" t)) [
  | inl e ↦ rw (e, names) (create_queries-plan schema tables views vts h)
  | inr (name, e) ↦
      rw (e, names)
        (rw (create_queries-plan schema tables views vts h, h (Prim.Native.String.◌++◌ "VT_" name))
          (elim (Bool-cases (name == excluded)) [
            | inl out ↦ rw out refl
            | inr other ↦
                rw other
                  (elim (Bool-cases
                    (mem (Prim.Native.String.◌++◌ "VT_" name) (names "TABLE_NAME" views))) [
                      | inl has ↦ rw has refl
                      | inr lacks ↦ rw lacks refl
                    ])
          ]))
]
