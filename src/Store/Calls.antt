-- ===== src/Store/Calls.antt =====
-- The calls that reached the tool backend, as a part of the world: steps that make none, and steps
-- that make at most one.
use agent_resilience_runtime.Prelude.{◌≡◌, ◌⊎◌, inl, inr, refl, ap, ◌∙◌, List, [], ◌∷◌, ◌++◌}
use agent_resilience_runtime.Exec.{Result, ok, err, ◌>>=◌, continue, attempt}
use agent_resilience_runtime.Exec.Keeps.{Moves}
use agent_resilience_runtime.Store.Tables.{World, BackendCall, Run}
use agent_resilience_runtime.Store.Frame.{Same, SkipsWorkflows, SkipsEvents, SkipsApprovals}

abbrev pub calls : World → List BackendCall
calls w = w.calls

-- No call reached the backend, or one that has the property did.
abbrev pub AtMostOne : (BackendCall → Type 0) → World → World → Type 0
AtMostOne P w w' = (calls w' ≡ calls w) ⊎ ((c : BackendCall) × (calls w' ≡ calls w ++ c ∷ []) × P c)

module _ (P : BackendCall → Type 0) where
  before :
      {A B : Type 0} (f : A → Run B) (r : Result A) (w w' : World)
      → calls w' ≡ calls w
      → ((a : A) → Moves (AtMostOne P) (f a))
      → AtMostOne P w (continue r f w').1
  before f (ok a) w w' e k = elim ((k a).at w') [
    | inl same ↦ inl (same ∙ e)
    | inr (c, one, p) ↦ inr (c, one ∙ ap (λ l. l ++ c ∷ []) e, p)
  ]
  before f (err x) w w' e k = inl e

  -- A part that makes no call, and then one that makes at most one.
  pub AtMostOne-after :
      {A B : Type 0} (m : Run A) (f : A → Run B)
      → Moves (Same calls) m
      → ((a : A) → Moves (AtMostOne P) (f a))
      → Moves (AtMostOne P) (m >>= f)
  AtMostOne-after m f km kf = record { at = λ w. before f (m w).0 w (m w).1 (km.at w) kf }

  after :
      {A B : Type 0} (f : A → Run B) (r : Result A) (w w' : World)
      → AtMostOne P w w'
      → ((a : A) → Moves (Same calls) (f a))
      → AtMostOne P w (continue r f w').1
  after f (ok a) w w' e k = elim e [
    | inl same ↦ inl ((k a).at w' ∙ same)
    | inr (c, one, p) ↦ inr (c, (k a).at w' ∙ one, p)
  ]
  after f (err x) w w' e k = e

  pub AtMostOne-before :
      {A B : Type 0} (m : Run A) (f : A → Run B)
      → Moves (AtMostOne P) m
      → ((a : A) → Moves (Same calls) (f a))
      → Moves (AtMostOne P) (m >>= f)
  AtMostOne-before m f km kf = record { at = λ w. after f (m w).0 w (m w).1 (km.at w) kf }

  pub AtMostOne-attempt :
      {A : Type 0} (m : Run A) → Moves (AtMostOne P) m → Moves (AtMostOne P) (attempt m)
  AtMostOne-attempt m k = record { at = k.at }

  pub AtMostOne-Same : {A : Type 0} (m : Run A) → Moves (Same calls) m → Moves (AtMostOne P) m
  AtMostOne-Same m k = record { at = λ w. inl (k.at w) }

pub calls-skip_workflows : SkipsWorkflows calls
calls-skip_workflows = record { skip = λ w x. refl }

pub calls-skip_events : SkipsEvents calls
calls-skip_events = record { skip = λ w x. refl }

pub calls-skip_approvals : SkipsApprovals calls
calls-skip_approvals = record { skip = λ w x. refl }
