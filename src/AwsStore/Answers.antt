-- ===== src/AwsStore/Answers.antt =====
-- What the `except` clauses of agent_resilience/aws_store.py make of an answer.
use agent_resilience_runtime.Prelude.{
  String, none, some, ◌≡◌, ◌==◌, string_eq, Bool-cases, inl, inr, ap, refl, ◌⊎◌,
}
use agent_resilience_runtime.Exec.{Result, ok, err, ok_inj, continue}
use agent_resilience_runtime.AwsTools.{Answer, answer, failure, client_error, boto_core_error}
use agent_resilience_runtime.AwsStore.Cloud.{caught, caught_unless, conditional_check_failed}

module _ {A : Type 0} where
  pub caught-answer : (op : String) (r : Answer A) (a : A) → caught op r ≡ ok a → r ≡ answer a
  caught-answer op (answer b) a h = ap answer (ok_inj h)
  caught-answer op (failure (client_error code)) a h = absurd (cc h)
  caught-answer op (failure (boto_core_error name)) a h = absurd (cc h)

  -- The answer, or the result that stands for a condition that failed.
  pub caught_unless-answer :
      (op : String) (refused : Result A) (r : Answer A) (a : A)
      → caught_unless op refused r ≡ ok a
      → (r ≡ answer a)
        ⊎ ((r ≡ failure (client_error (some conditional_check_failed))) × (refused ≡ ok a))
  caught_unless-answer op refused (answer b) a h = inl (ap answer (ok_inj h))
  caught_unless-answer op refused (failure (client_error none)) a h = absurd (cc h)
  caught_unless-answer op refused (failure (client_error (some code))) a h =
      elim (Bool-cases (code == conditional_check_failed)) [
        | inl e ↦ inr (
          ap (λ c. failure (client_error (some c)))
              ((string_eq.beq_iff code conditional_check_failed).0 e),
          rw e at h,
        )
        | inr e ↦ let h' = rw e at h in absurd (cc h')
      ]
  caught_unless-answer op refused (failure (boto_core_error name)) a h = absurd (cc h)

module _ {S A B : Type 0} where
  -- A call that goes on with a pure function of its result leaves the state where it was.
  pub continue-lift :
      (r : Result A) (f : A → Result B) (t : S) → (continue r (λ a s. (f a, s)) t).1 ≡ t
  continue-lift (ok a) f t = refl
  continue-lift (err e) f t = refl
