-- ===== src/Milestone/Poll.antt =====
-- The waiting loops of scripts/verify_milestone4.py end: the clock reaches the deadline.
use Prim.Native.String.{◌++◌ as concat}
use agent_resilience_runtime.Prelude.{
  ℕ, zero, suc, ◌+◌, ◌*◌, ◌≤◌, String, Bool, false, Option, none, some, ◌≡◌, refl, ap, ltb, arith,
  Bool-cases, inl, inr,
}
use agent_resilience_runtime.Exec.{Exec, Result-cases, continue, ◌>>=◌}
use agent_resilience_runtime.Exec.Keeps.{IsPreorder, Moves, Moves-bind, move_rules}
use agent_resilience_runtime.Models.{WorkflowState}
use agent_resilience_runtime.Milestone.Site.{Deployment, Arguments}
use agent_resilience_runtime.Milestone.Stages.{poll, or_timeout, checked, wait_for_state}

-- Time goes on: a sleep takes at least as long as it is asked for.
pub record IsClock {S : Type 0} (site : Deployment S) : Type 0 where
  pub sleeps : (n : ℕ) (s : S) → site.monotonic s + n ≤ site.monotonic (site.sleep n s)
  pub goes_on : (id : String) (s : S) → site.monotonic s ≤ site.monotonic (site.get_incident id s).1

module _ {S : Type 0} (site : Deployment S) (clock : IsClock site) where
  module _ {A : Type 0} (check : Exec S (Option A)) (pause deadline : ℕ)
      (checks : (s : S) → site.monotonic s ≤ site.monotonic (check s).1) where
    late : (now : ℕ) → deadline ≤ now → ltb now deadline ≡ false
    late now h = ground arith

    -- Once the fuel covers the time to the deadline, more fuel changes nothing.
    poll-enough :
        (fuel more : ℕ) (s : S)
        → fuel ≤ more
        → deadline ≤ site.monotonic s + fuel * pause
        → poll site check pause deadline more s ≡ poll site check pause deadline fuel s
    unfolding poll
    poll-enough zero zero s le h = refl
    poll-enough zero (suc more) s le h = rw (late (site.monotonic s) (omega (arith, h))) refl
    poll-enough (suc fuel) zero s le h = absurd (omega (arith, le))
    poll-enough (suc fuel) (suc more) s le h = elim (Bool-cases (ltb (site.monotonic s) deadline)) [
      | inr e ↦ rw e refl
      | inl e ↦ elim (Result-cases (check s).0) [
        | inr (f, got) ↦ rw (e, got) refl
        | inl (some a, got) ↦ rw (e, got) refl
        | inl (none, got) ↦
            let t = (check s).1 in
            rw (e, got)
              (poll-enough fuel more (site.sleep pause t) (omega (arith, le))
                (omega (arith, h, checks s, clock.sleeps pause t)))
      ]
    ]

  abbrev Passes : S → S → Type 0
  Passes s t = site.monotonic s ≤ site.monotonic t

  Passes-IsPreorder : IsPreorder Passes
  Passes-IsPreorder = record { same = λ s. omega arith; then_ = λ s t u h k. omega (arith, h, k) }

  checked-Moves :
      (predicate : WorkflowState → Bool) (why : String) (x : WorkflowState)
      → Moves Passes (checked site predicate why x)
  checked-Moves predicate why x = search (move_rules, Passes-IsPreorder)

  checks :
      (id : String) (predicate : WorkflowState → Bool) (why : String) (t : S)
      → Passes t ((site.get_incident id >>= checked site predicate why) t).1
  checks id predicate why t =
      (Moves-bind Passes-IsPreorder (site.get_incident id) (checked site predicate why)
          (record { at = clock.goes_on id }) (checked-Moves predicate why)).at
        t

  -- A wait for a state ends by its timeout: with as many looks as half seconds in the timeout, more
  -- looks change neither what is returned or raised nor the state that is left, where a sleep lasts
  -- as long as it is asked for and a request does not turn the clock back.
  pub wait_for_state-ends :
      (args : Arguments) (fuel more : ℕ) (id : String) (predicate : WorkflowState → Bool)
      (why : String) (s : S)
      → fuel ≤ more
      → args.timeout ≤ fuel * 500_000
      → wait_for_state site more args id predicate why s
        ≡ wait_for_state site fuel args id predicate why s
  unfolding wait_for_state
  wait_for_state-ends args fuel more id predicate why s le enough =
      let deadline = site.monotonic s + args.timeout in
      ap (λ p. continue p.0 (or_timeout site (concat "timed out waiting for " why)) p.1)
        (poll-enough (site.get_incident id >>= checked site predicate why) 500_000 deadline
          (checks id predicate why) fuel more s le (omega (arith, enough)))
