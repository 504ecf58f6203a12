-- ===== src/Store/Records.antt =====
-- The map of the task records: ids, and whether its text can be made.
use mrmfactorytest.Prelude.{
  String, Option, none, some, List, [], ◌∷◌, Map, lookup, insert, true, false, ◌≡◌, inl, inr, refl,
  ◌∙◌, ap, arith, String-cases, sym,
}
use mrmfactorytest.Config.{Task}
use mrmfactorytest.Store.Models.{TaskDetail, is_encodable, details_encodable}
use mrmfactorytest.Store.Operations.{initial_detail, initial_details}

-- Each detail is stored under its own id.
abbrev pub Keyed : Map TaskDetail → Type 0
Keyed [] = Unit
Keyed ((k, d) ∷ m) = (d.task_id ≡ k) × Keyed m

pub Keyed-insert : (d : TaskDetail) (m : Map TaskDetail) → Keyed m → Keyed (insert d.task_id d m)
unfolding insert
Keyed-insert d [] h = (refl, tt)
Keyed-insert d ((k, w) ∷ m) h = elim (String-cases k d.task_id) [
  | inl same ↦ rw same.1 (refl, h.1)
  | inr differ ↦ rw differ.1 (h.0, Keyed-insert d m h.1)
]

pub Keyed-initial_details :
    (ts : List Task) (m : Map TaskDetail) → Keyed m → Keyed (initial_details ts m)
unfolding initial_details
Keyed-initial_details [] m h = h
Keyed-initial_details (t ∷ ts) m h =
    Keyed-initial_details ts (insert t.id (initial_detail t) m)
      (Keyed-insert (initial_detail t) m h)

-- One detail whose result cannot be encoded spoils the text of all.
pub details_encodable-insert-false :
    (k : String) (d : TaskDetail) (m : Map TaskDetail)
    → is_encodable d.result ≡ false
    → details_encodable (insert k d m) ≡ false
unfolding insert details_encodable
details_encodable-insert-false k d [] h = rw h
details_encodable-insert-false k d ((j, w) ∷ m) h =
    ground (arith, details_encodable-insert-false k d m h)

pub details_encodable-insert :
    (k : String) (d : TaskDetail) (m : Map TaskDetail)
    → is_encodable d.result ≡ true
    → details_encodable m ≡ true
    → details_encodable (insert k d m) ≡ true
unfolding insert details_encodable
details_encodable-insert k d [] h e = rw h
details_encodable-insert k d ((j, w) ∷ m) h e = ground (arith, details_encodable-insert k d m h)

some_injective : {w d : TaskDetail} → ◌≡◌ {A = Option TaskDetail} (some w) (some d) → w ≡ d
some_injective e = cc

pub Keyed-task_id :
    (k : String) (d : TaskDetail) (m : Map TaskDetail)
    → Keyed m
    → lookup k m ≡ some d
    → d.task_id ≡ k
unfolding lookup
Keyed-task_id k d [] h e = absurd (nothing e)
  where
    nothing : ◌≡◌ {A = Option TaskDetail} none (some d) → ⊥
    nothing f = cc
Keyed-task_id k d ((j, w) ∷ m) h e = elim (String-cases j k) [
  | inl same ↦ let f : some w ≡ some d = rw same.1 at e in held (some_injective f) same.0
  | inr differ ↦ Keyed-task_id k d m h.1 (rw differ.1 at e)
]
  where
    held : w ≡ d → j ≡ k → d.task_id ≡ k
    held f same = ap (λ (x : TaskDetail). x.task_id) (sym f) ∙ h.0 ∙ same

pub lookup-encodable :
    (k : String) (d : TaskDetail) (m : Map TaskDetail)
    → details_encodable m ≡ true
    → lookup k m ≡ some d
    → is_encodable d.result ≡ true
unfolding lookup details_encodable
lookup-encodable k d [] h e = absurd (nothing e)
  where
    nothing : ◌≡◌ {A = Option TaskDetail} none (some d) → ⊥
    nothing f = cc
lookup-encodable k d ((j, w) ∷ m) h e = elim (String-cases j k) [
  | inl same ↦ let f : some w ≡ some d = rw same.1 at e in rw (← some_injective f) (both.0)
  | inr differ ↦ lookup-encodable k d m both.1 (rw differ.1 at e)
]
  where
    both : (is_encodable w.result ≡ true) × (details_encodable m ≡ true)
    both = ground (arith, h)
