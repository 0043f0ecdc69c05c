-- ===== src/Milestone/Waits.antt =====
-- What the waiting loops of scripts/verify_milestone4.py have found where they return.
use agent_resilience_runtime.Prelude.{
  inl, inr, [], ◌∷◌, ◌≢◌, sym, ap, some_inj, Bool-cases, ℕ, zero, suc, ◌+◌, String, Bool, true,
  false, Option, none, some, List, ◌≡◌, refl, nat_eq, string_eq, ltb, find, arith,
}
use mathlib.Core.List.{Memᴰ}
use agent_resilience_runtime.Prelude.Rows.{find_sound}
use agent_resilience_runtime.Exec.{Exec, ok, pure, gets, modify, ◌>>=◌}
use agent_resilience_runtime.Exec.Returns.{
  Returns, Returns-pure, Returns-raise, Returns-any, Returns-bind, Returns-if, Returns-then,
}
use agent_resilience_runtime.Models.{WorkflowState, status_eq, tool_eq}
use agent_resilience_runtime.Milestone.Site.{Deployment, Arguments, is_other}
use agent_resilience_runtime.Milestone.Stages.{
  found_or, poll_unless, poll, or_timeout, checked, until_found, wait_for_state,
  wait_for_replacement, only_task,
}

-- What is known of a value that may be missing.
abbrev OnSome : {A : Type 0} → (A → Type 0) → Option A → Type 0
OnSome P none = Unit
OnSome P (some a) = P a

-- ECS has answered, in some state, that these are the tasks of the service that run.
abbrev pub IsListed : {S : Type 0} → Deployment S → List String → Type 0
IsListed {S} site tasks = (s : S) × ((site.list_tasks s).0 ≡ ok tasks)

-- A task that ECS has listed, and another than the stopped one.
pub record IsOther {S : Type 0} (site : Deployment S) (stopped task : String) : Type 0 where
  pub tasks : List String
  pub listed : IsListed site tasks
  pub present : Memᴰ task tasks
  pub apart : task ≢ stopped

not_other : (task stopped : String) → task ≡ stopped → is_other stopped task ≡ true → ⊥
not_other task stopped same e = ground (arith, string_eq.beq_iff task stopped)

find-Memᴰ : (p : String → Bool) (xs : List String) (x : String) → find p xs ≡ some x → Memᴰ x xs
find-Memᴰ p [] x h = absurd (cc h)
find-Memᴰ p (y ∷ ys) x h = elim (Bool-cases (p y)) [
  | inl e ↦ Memᴰ.head (sym (some_inj (rw e at h)))
  | inr e ↦ Memᴰ.tail (find-Memᴰ p ys x (rw e at h))
]

module _ {S : Type 0} (site : Deployment S) where
  pub list_tasks-IsListed : Returns (IsListed site) site.list_tasks
  list_tasks-IsListed = record { at = λ s t tasks h. (s, ap (λ p. p.0) h) }

  pub only_task-IsListed :
      (fuel : ℕ) (args : Arguments) (tasks : List String)
      → IsListed site tasks
      → Returns (λ task. IsListed site (task ∷ [])) (only_task site fuel args tasks)
  only_task-IsListed fuel args [] known = Returns-raise _ _
  only_task-IsListed fuel args (task ∷ []) known = Returns-pure _ task known
  only_task-IsListed fuel args (a ∷ b ∷ tasks) known = Returns-raise _ _

  poll-OnSome :
      {A : Type 0} (P : A → Type 0) (check : Exec S (Option A)) (pause deadline fuel : ℕ)
      → Returns (OnSome P) check
      → Returns (OnSome P) (poll site check pause deadline fuel)
  unfolding poll
  poll-OnSome P check pause deadline zero h = Returns-pure (OnSome P) none tt
  poll-OnSome {A} P check pause deadline (suc fuel) h =
      Returns-bind _ (OnSome P) (gets site.monotonic)
        (λ now. poll_unless site check pause deadline (ltb now deadline) rest) (Returns-any _)
        (λ now u. at_time (poll-OnSome P check pause deadline fuel h) (ltb now deadline))
    where
      rest : Exec S (Option A)
      rest = poll site check pause deadline fuel

      found :
          Returns (OnSome P) rest
          → (o : Option A) → OnSome P o
          → Returns (OnSome P) (found_or site check pause deadline rest o)
      found k none p = Returns-then (OnSome P) (modify (site.sleep pause)) rest k
      found k (some a) p = Returns-pure (OnSome P) (some a) p

      at_time :
          Returns (OnSome P) rest
          → (b : Bool) → Returns (OnSome P) (poll_unless site check pause deadline b rest)
      at_time k true = Returns-bind _ (OnSome P) check _ h (found k)
      at_time k false = Returns-pure (OnSome P) none tt

  or_timeout-found :
      {A : Type 0} (P : A → Type 0) (why : String) (o : Option A)
      → OnSome P o
      → Returns P (or_timeout site why o)
  or_timeout-found P why none p = Returns-raise P _
  or_timeout-found P why (some a) p = Returns-pure P a p

  checked-OnSome :
      (predicate : WorkflowState → Bool) (why : String) (s : WorkflowState)
      → Returns (OnSome (λ r. predicate r ≡ true)) (checked site predicate why s)
  checked-OnSome predicate why s =
      Returns-if _ (predicate s) _ _ (λ e. Returns-pure _ (some s) e)
        (λ no_. Returns-if _ _ _ _ (λ bad. Returns-raise _ _) (λ good. Returns-pure _ none tt))

  module _ (fuel : ℕ) (args : Arguments) where
    until_found-meets :
        {A : Type 0} (Q : A → Type 0) (check : Exec S (Option A)) (pause : ℕ) (why : String)
        → Returns (OnSome Q) check
        → Returns Q (gets site.monotonic >>= until_found site fuel args check pause why)
    until_found-meets Q check pause why h =
        Returns-bind _ Q (gets site.monotonic) (until_found site fuel args check pause why)
          (Returns-any _)
          (λ start u.
            Returns-bind (OnSome Q) Q (poll site check pause (start + args.timeout) fuel)
              (or_timeout site why) (poll-OnSome Q check pause (start + args.timeout) fuel h)
              (or_timeout-found Q why))

    pub wait_for_state-meets :
        (id : String) (predicate : WorkflowState → Bool) (why : String)
        → Returns (λ s. predicate s ≡ true) (wait_for_state site fuel args id predicate why)
    unfolding wait_for_state
    wait_for_state-meets id predicate why =
        let Q : WorkflowState → Type 0 = λ s. predicate s ≡ true in
        until_found-meets Q (site.get_incident id >>= checked site predicate why) 500_000 _ (
          Returns-bind _ (OnSome Q) (site.get_incident id) (checked site predicate why)
            (Returns-any _) (λ s v. checked-OnSome predicate why s))

    pub wait_for_replacement-IsOther :
        (stopped : String)
        → Returns (IsOther site stopped) (wait_for_replacement site fuel args stopped)
    unfolding wait_for_replacement
    wait_for_replacement-IsOther stopped =
        let Q : String → Type 0 = IsOther site stopped in
        let pick : List String → Exec S (Option String) =
          λ tasks. pure (find (is_other stopped) tasks) in
        until_found-meets Q (site.list_tasks >>= pick) 1_000_000 _ (
          Returns-bind (IsListed site) (OnSome Q) site.list_tasks pick list_tasks-IsListed
            (λ tasks known.
              Returns-pure (OnSome Q) (find (is_other stopped) tasks) (found tasks _ known refl)))
      where
        found :
            (tasks : List String) (o : Option String)
            → IsListed site tasks
            → find (is_other stopped) tasks ≡ o
            → OnSome (IsOther site stopped) o
        found tasks none known e = tt
        found tasks (some task) known e = record {
          tasks = tasks;
          listed = known;
          present = find-Memᴰ (is_other stopped) tasks task e;
          apart = λ same. not_other task stopped same (find_sound (is_other stopped) tasks task e);
        }
