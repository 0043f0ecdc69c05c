-- ===== src/Exec/Returns.antt =====
-- What a call that returns says of its result: one rule for each way to build a call. A call that
-- raises says nothing.
use agent_resilience_runtime.Prelude.{Bool, true, false, ◌≡◌, refl, ap, if◌then◌else◌}
use agent_resilience_runtime.Exec.{
  Failure, Result, ok, err, Exec, pure, raise, ok_inj, ◌>>=◌, ◌>>◌, continue,
}

module _ {S A B : Type 0} where
  pub continue-ok :
      (r : Result A) (f : A → Exec S B) (t u : S) (b : B)
      → continue r f t ≡ (ok b, u)
      → (a : A) × (r ≡ ok a) × (f a t ≡ (ok b, u))
  continue-ok (ok a) f t u b h = (a, refl, h)
  continue-ok (err e) f t u b h = absurd (cc (ap (λ p. p.0) h))

pub record Returns {S A : Type 0} (P : A → Type 0) (m : Exec S A) : Type 0 where
  pub at : (s t : S) (a : A) → m s ≡ (ok a, t) → P a

module _ {S : Type 0} where
  pub Returns-pure : {A : Type 0} (P : A → Type 0) (a : A) → P a → Returns P (pure {S = S} a)
  Returns-pure P a p = record { at = λ s t b h. rw (ok_inj (ap (λ q. q.0) h)) at p }

  pub Returns-raise : {A : Type 0} (P : A → Type 0) (e : Failure) → Returns P (raise {S = S} e)
  Returns-raise P e = record { at = λ s t b h. absurd (cc (ap (λ q. q.0) h)) }

  pub Returns-any : {A : Type 0} (m : Exec S A) → Returns (λ a. Unit {0}) m
  Returns-any m = record { at = λ s t a h. tt }

  pub Returns-bind :
      {A B : Type 0} (P : A → Type 0) (Q : B → Type 0) (m : Exec S A) (f : A → Exec S B)
      → Returns P m
      → ((a : A) → P a → Returns Q (f a))
      → Returns Q (m >>= f)
  Returns-bind P Q m f km kf = record {
    at = λ s t b h.
        let (a, got, rest) = continue-ok (m s).0 f (m s).1 t b h in
        (kf a (km.at s (m s).1 a (ap (λ r. (r, (m s).1)) got))).at (m s).1 t b rest;
  }

  pub Returns-if :
      {A : Type 0} (P : A → Type 0) (b : Bool) (m n : Exec S A)
      → (b ≡ true → Returns P m)
      → (b ≡ false → Returns P n)
      → Returns P (if b then m else n)
  Returns-if P true m n km kn = km refl
  Returns-if P false m n km kn = kn refl

  -- A call whose result is not used.
  pub Returns-then :
      {A B : Type 0} (Q : B → Type 0) (m : Exec S A) (k : Exec S B)
      → Returns Q k
      → Returns Q (m >> k)
  Returns-then Q m k h = Returns-bind (λ a. Unit) Q m (λ a. k) (Returns-any m) (λ a u. h)

  pub Returns-of :
      {A : Type 0} (P : A → Type 0) (m : Exec S A) (s : S) (a : A)
      → Returns P m
      → (m s).0 ≡ ok a
      → P a
  Returns-of P m s a k h = k.at s (m s).1 a (ap (λ r. (r, (m s).1)) h)
