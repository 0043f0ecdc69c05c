-- ===== src/Exec/Keeps.antt =====
-- What a call does to the state whatever it returns or raises: a relation between the state before
-- and after, one rule for each way to build a call. An invariant is the relation `P s → P t`.
use agent_resilience_runtime.Prelude.{Bool, true, false, ◌≡◌, refl, if◌then◌else◌}
use agent_resilience_runtime.Exec.{
  Failure, Result, ok, err, Exec, pure, raise, gets, lift, attempt, transaction, modify, ◌>>=◌,
  continue, commit_or_rollback,
}

pub record IsPreorder {S : Type 0} (R : S → S → Type 0) : Type 0 where
  pub same : (s : S) → R s s
  pub then_ : (s t u : S) → R s t → R t u → R s u

pub record Moves {S A : Type 0} (R : S → S → Type 0) (m : Exec S A) : Type 0 where
  pub at : (s : S) → R s (m s).1

module _ {S : Type 0} {R : S → S → Type 0} (o : IsPreorder R) where
  pub Moves-pure : {A : Type 0} (a : A) → Moves R (pure {S = S} a)
  Moves-pure a = record { at = o.same }

  pub Moves-raise : {A : Type 0} (e : Failure) → Moves R (raise {S = S} {A = A} e)
  Moves-raise e = record { at = o.same }

  pub Moves-gets : {A : Type 0} (f : S → A) → Moves R (gets f)
  Moves-gets f = record { at = o.same }

  pub Moves-lift : {A : Type 0} (r : Result A) → Moves R (lift {S = S} r)
  Moves-lift r = record { at = o.same }

  pub Moves-attempt : {A : Type 0} (m : Exec S A) → Moves R m → Moves R (attempt m)
  Moves-attempt m k = record { at = k.at }

  after-continue :
      {A B : Type 0} (f : A → Exec S B) (r : Result A) (s t : S)
      → R s t
      → ((a : A) → Moves R (f a))
      → R s (continue r f t).1
  after-continue f (ok a) s t h k = o.then_ s t _ h ((k a).at t)
  after-continue f (err e) s t h k = h

  pub Moves-bind :
      {A B : Type 0} (m : Exec S A) (f : A → Exec S B)
      → Moves R m
      → ((a : A) → Moves R (f a))
      → Moves R (m >>= f)
  Moves-bind m f km kf = record { at = λ s. after-continue f (m s).0 s (m s).1 (km.at s) kf }

  pub Moves-if :
      {A : Type 0} (b : Bool) (m n : Exec S A)
      → (b ≡ true → Moves R m)
      → (b ≡ false → Moves R n)
      → Moves R (if b then m else n)
  Moves-if true m n km kn = km refl
  Moves-if false m n km kn = kn refl

  after-commit : {A : Type 0} (r : Result A) (s t : S) → R s t → R s (commit_or_rollback r s t).1
  after-commit (ok a) s t h = h
  after-commit (err e) s t h = o.same s

  pub Moves-transaction : {A : Type 0} (m : Exec S A) → Moves R m → Moves R (transaction m)
  Moves-transaction m k = record { at = λ s. after-commit (m s).0 s (m s).1 (k.at s) }

pub Moves-modify :
    {S : Type 0} {R : S → S → Type 0} (f : S → S) → ((s : S) → R s (f s)) → Moves R (modify f)
Moves-modify f h = record { at = h }

pub ruleset move_rules = (
  Moves-pure, Moves-raise, Moves-gets, Moves-lift, Moves-attempt, Moves-bind, Moves-if,
  Moves-transaction, Moves-modify,
)
