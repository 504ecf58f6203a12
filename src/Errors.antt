-- ===== src/Errors.antt =====
-- Go's `error`, one constructor for each place that makes one, and the actions that change a
-- server's state and may fail: what was written before an error stays written.
use mrmfactorytest.Prelude.{String, ◌≡◌, ◌⊎◌, refl, inl, inr}
use mrmfactorytest.Runner.Cycle.{CycleError}

pub data Error : Type 0 where
  -- an error that a library returned, with its text
  external : String → Error
  -- store.ErrStateNotFound, store.ErrConfigNotFound
  state_not_found config_not_found : Error
  bad_json bad_yaml : Error
  header_not_found task_not_found : String → Error
  -- "could not get details to update task", without and with an error of the client
  details_missing : Error
  details_unreadable : Error → Error
  dependency : CycleError → Error
  -- the errors of bootstrapFSMConfig
  config_check_failed config_read_failed config_write_failed : Error → Error

pub data Result {ℓ} (A : Type ℓ) : Type ℓ where
  ok : A → Result A
  err : Error → Result A

pub Result-cases {ℓ} :
    {A : Type ℓ} (r : Result A) → ((a : A) × (r ≡ ok a)) ⊎ ((e : Error) × (r ≡ err e))
Result-cases (ok a) = inl (a, refl)
Result-cases (err e) = inr (e, refl)

abbrev pub Exec {ℓ} : Type ℓ → Type ℓ → Type ℓ
Exec S A = S → Result A × S

module _ {ℓ} {S A : Type ℓ} where
  abbrev pub pure : A → Exec S A
  pure a s = (ok a, s)

  abbrev pub raise : Error → Exec S A
  raise e s = (err e, s)

module _ {ℓ} {S A B : Type ℓ} where
  abbrev pub continue : Result A → (A → Exec S B) → Exec S B
  continue (ok a) f s = f a s
  continue (err e) f s = (err e, s)

  infixl 5 ◌>>=◌ ◌>>◌
  abbrev pub ◌>>=◌ : Exec S A → (A → Exec S B) → Exec S B
  ◌>>=◌ m f s = continue (m s).0 f (m s).1

  abbrev pub ◌>>◌ : Exec S A → Exec S B → Exec S B
  m >> n = m >>= λ _. n
