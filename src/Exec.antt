-- ===== src/Exec.antt =====
-- Calls that change the world and may raise: state passing with an exception, for every module of
-- agent_resilience/. What was written before a raise stays written.
pub mod Keeps
pub mod Returns
use agent_resilience_runtime.Prelude.{Bool, true, false, String, ℕ, ◌≡◌, refl, ◌⊎◌, inl, inr}

-- The exceptions of errors.py (`ConcurrentUpdateError` is a `RetryableWorkflowError`), and the ones
-- that the code raises or lets pass besides: `ValueError`, sqlite3's `IntegrityError`, FastAPI's
-- `HTTPException`, and any other.
pub data Failure : Type 0 where
  retryable concurrent_update permanent approval_required value_error other : String → Failure
  integrity_error : Failure
  http_exception : ℕ → String → Failure

pub data Result (A : Type 0) : Type 0 where
  ok : A → Result A
  err : Failure → Result A

-- `except RetryableWorkflowError`
abbrev pub is_retryable : Failure → Bool
is_retryable (retryable m) = true
is_retryable (concurrent_update m) = true
is_retryable _ = false

-- `str(error)`
abbrev pub message : Failure → String
message (retryable m) = m
message (concurrent_update m) = m
message (permanent m) = m
message (approval_required m) = m
message (value_error m) = m
message (other m) = m
message integrity_error = "integrity error"
message (http_exception n m) = m

abbrev pub Exec : Type 0 → Type 0 → Type 0
Exec S A = S → Result A × S

module _ {S A : Type 0} where
  abbrev pub pure : A → Exec S A
  pure a s = (ok a, s)

  abbrev pub raise : Failure → Exec S A
  raise e s = (err e, s)

  abbrev pub gets : (S → A) → Exec S A
  gets f s = (ok (f s), s)

  abbrev pub lift : Result A → Exec S A
  lift r s = (r, s)

  -- The outcome as a value, for `try`.
  abbrev pub attempt : Exec S A → Exec S (Result A)
  attempt m s = (ok (m s).0, (m s).1)

  -- `with self.transaction()`: a raise rolls the tables back.
  abbrev pub commit_or_rollback : Result A → S → S → Result A × S
  commit_or_rollback (ok a) before after = (ok a, after)
  commit_or_rollback (err e) before after = (err e, before)

  abbrev pub transaction : Exec S A → Exec S A
  transaction m s = commit_or_rollback (m s).0 s (m s).1

abbrev pub modify : {S : Type 0} → (S → S) → Exec S (Unit {0})
modify f s = (ok tt, f s)

module _ {S A B : Type 0} where
  abbrev pub continue : Result A → (A → Exec S B) → Exec S B
  continue (ok a) f s = f a s
  continue (err e) f s = (err e, s)

  infixl 5 ◌>>=◌ ◌>>◌
  abbrev pub ◌>>=◌ : Exec S A → (A → Exec S B) → Exec S B
  ◌>>=◌ m f s = continue (m s).0 f (m s).1

  abbrev pub ◌>>◌ : Exec S A → Exec S B → Exec S B
  m >> k = m >>= λ _. k

pub ok_inj : {A : Type 0} {a b : A} → ok a ≡ ok b → a ≡ b
ok_inj h = cc

pub Result-cases :
    {A : Type 0} (r : Result A) → ((a : A) × (r ≡ ok a)) ⊎ ((e : Failure) × (r ≡ err e))
Result-cases (ok a) = inl (a, refl)
Result-cases (err e) = inr (e, refl)
