-- ===== src/Worker/Settle.antt =====
-- What `DurableWorker.run_once` of agent_resilience/worker.py does with the delivery that it has
-- claimed.
use agent_resilience_runtime.Prelude.{
  ℕ, String, Bool, true, not, Option, none, some, [], ◌∷◌, ◌≡◌, ◌≢◌, refl, sym, ap, ◌∙◌, inl, inr,
  arith, Bool-cases, Option-cases, is_some, if◌then◌else◌, some_inj, find, List,
}
use mathlib.Core.Path.{subst}
use agent_resilience_runtime.Prelude.Rows.{find-append, find_sound}
use agent_resilience_runtime.Exec.{Result, ok, err, Failure, continue, ◌>>=◌, ◌>>◌, pure}
use agent_resilience_runtime.Exec.Keeps.{IsPreorder, Moves, move_rules}
use agent_resilience_runtime.Models.{WorkflowState, QueueDelivery, status_eq}
use agent_resilience_runtime.Store.{
  World, QueueRow, QueueStatus, Run, put_back, retry_delay, claim, acknowledge, enqueue,
  retry_or_dead_letter, has_id, finish, update_queue, is_exhausted, active_delivery, workflow_row,
  insert_delivery, new_delivery, get_workflow,
}
use agent_resilience_runtime.Store.Frame.{Same, SkipsWorkflows, SkipsEvents, frame_rules}
use agent_resilience_runtime.Store.Queue.Claim.{row_of, row_of-update}
use agent_resilience_runtime.Runtime.{WorkflowRuntime, process}
use agent_resilience_runtime.Worker.{
  Settings, dead_letter_state, fail_state, on_retryable, on_permanent, enqueue_next, deliver,
  handle, run_once,
}

-- No worker holds the delivery.
pub record IsSettled (i : ℕ) (w : World) : Type 0 where
  pub free : (r : QueueRow) → row_of i w ≡ some r → r.status ≢ QueueStatus.processing

-- A settled delivery stays settled.
abbrev Stays : ℕ → World → World → Type 0
Stays i w w' = (k : IsSettled i w) → IsSettled i w'

Stays-IsPreorder : (i : ℕ) → IsPreorder (Stays i)
Stays-IsPreorder i = record { same = λ w k. k; then_ = λ w v u p q k. q (p k) }

abbrev queue_of : World → List QueueRow
queue_of w = w.queue

Same-queue-Stays : {A : Type 0} (i : ℕ) (m : Run A) → Moves (Same queue_of) m → Moves (Stays i) m
Same-queue-Stays i m h = record {
  at = λ w k. record { free = λ r e. k.free r (sym (ap (find (has_id i)) (h.at w)) ∙ e) };
}

enqueue-Stays : (i : ℕ) (id : String) (max : ℕ) → Moves (Stays i) (enqueue id max)
unfolding enqueue
enqueue-Stays i id max = record {
  at = λ w k. elim (Option-cases (active_delivery id w)) [
    | inl fresh ↦ elim (Bool-cases (is_some (workflow_row id w))) [
      | inl known ↦ rw (fresh, known) (appended w k)
      | inr unknown ↦ rw (fresh, unknown) k
    ]
    | inr (r, old) ↦ rw old k
  ];
}
  where
    appended : (w : World) → IsSettled i w → IsSettled i (insert_delivery id max w)
    appended w k = record {
      free = λ r e. elim (Option-cases (row_of i w)) [
        | inl none_yet ↦
            let e' =
              rw none_yet at
                (sym (find-append (has_id i) w.queue (new_delivery id max w ∷ [])) ∙ e) in
            new_free w r e'
        | inr (q, old) ↦
            let e' =
              rw old at (sym (find-append (has_id i) w.queue (new_delivery id max w ∷ [])) ∙ e) in
            k.free r (old ∙ e')
      ];
    }
      where
        new_free :
            (w : World) (r : QueueRow)
            → find (has_id i) (new_delivery id max w ∷ []) ≡ some r
            → r.status ≢ QueueStatus.processing
        new_free w r e = ground arith

-- Every row of an id is free once an update has freed it.
update-settles :
    (i : ℕ) (f : QueueRow → QueueRow) (w : World)
    → ((r : QueueRow) → (f r).id ≡ r.id)
    → ((r : QueueRow) → (f r).status ≢ QueueStatus.processing)
    → IsSettled i (update_queue (has_id i) f w)
update-settles i f w keeps frees = record {
  free = λ r e. elim (Option-cases (row_of i w)) [
    | inl nothing ↦
        let e' = rw nothing at (sym (row_of-update i (has_id i) f w keeps) ∙ e) in absurd (cc e')
    | inr (q, old) ↦
        let here = find_sound (has_id i) w.queue q old in
        let e' = rw (old, here) at (sym (row_of-update i (has_id i) f w keeps) ∙ e) in
        subst (λ x. x.status ≢ QueueStatus.processing) (some_inj e') (frees q)
  ];
}

acknowledge-settles : (i : ℕ) (w : World) → IsSettled i (acknowledge i w).1
unfolding acknowledge
acknowledge-settles i w = update-settles i (finish w.now) w (λ r. refl) (λ r e. cc e)

put_back-settles :
    (d : QueueDelivery) (why : String) (delay : ℕ) (w : World)
    → IsSettled d.id (put_back d why (ok delay) w).1
put_back-settles d why delay w = update-settles d.id _ w (λ r. refl) (λ r e. ground arith)

queue-skip_workflows : SkipsWorkflows queue_of
queue-skip_workflows = record { skip = λ w x. refl }

queue-skip_events : SkipsEvents queue_of
queue-skip_events = record { skip = λ w x. refl }

ruleset same_queue = (frame_rules, queue-skip_workflows, queue-skip_events)

dead_letter_state-Stays :
    (i : ℕ) (o : Option WorkflowState) (why : String) → Moves (Stays i) (dead_letter_state o why)
dead_letter_state-Stays i none why = Same-queue-Stays i _ (search same_queue)
dead_letter_state-Stays i (some s) why = Same-queue-Stays i _ (search same_queue)

fail_state-Stays :
    (i : ℕ) (o : Option WorkflowState) (why : String) → Moves (Stays i) (fail_state o why)
fail_state-Stays i none why = Same-queue-Stays i _ (search same_queue)
fail_state-Stays i (some s) why = Same-queue-Stays i _ (search same_queue)

module _ (config : Settings) where
  give_up : QueueDelivery → String → Bool → Run (Unit {0})
  give_up d why dead =
      if not dead then pure tt else do found ← get_workflow d.task_id; dead_letter_state found why

  get_workflow-Stays : (i : ℕ) (id : String) → Moves (Stays i) (get_workflow id)
  get_workflow-Stays i id = Same-queue-Stays i _ (search same_queue)

  give_up-Stays :
      (d : QueueDelivery) (why : String) (dead : Bool) → Moves (Stays d.id) (give_up d why dead)
  unfolding give_up
  give_up-Stays d why dead =
      search (move_rules, Stays-IsPreorder, dead_letter_state-Stays, get_workflow-Stays)

  put_back_or_raise-settles :
      (d : QueueDelivery) (why : String) (r : Result ℕ) (w w' : World) (x : Unit {0})
      → (put_back d why r >>= give_up d why) w ≡ (ok x, w')
      → IsSettled d.id w'
  put_back_or_raise-settles d why (err e) w w' x h = absurd (cc (ap (λ p. p.0) h))
  put_back_or_raise-settles d why (ok delay) w w' x h =
      subst (IsSettled d.id) (ap (λ p. p.1) h)
        ((give_up-Stays d why (is_exhausted d)).at _ (put_back-settles d why delay w))

  -- A retryable failure that is handled without raising.
  on_retryable-settles :
      (d : QueueDelivery) (why : String) (w w' : World) (x : Unit {0})
      → on_retryable config d why w ≡ (ok x, w')
      → IsSettled d.id w'
  unfolding on_retryable give_up retry_or_dead_letter
  on_retryable-settles d why =
      put_back_or_raise-settles d why (retry_delay config.queue_retry_base_seconds d.attempts)

  on_permanent-settles :
      (d : QueueDelivery) (why : String) (w : World) → IsSettled d.id (on_permanent d why w).1
  unfolding on_permanent acknowledge
  on_permanent-settles d why w = (after d why).at _ (acknowledge-settles d.id w)
    where
      after :
          (d : QueueDelivery) (why : String)
          → Moves (Stays d.id) (get_workflow d.task_id >>= λ found. fail_state found why)
      after d why = search (move_rules, Stays-IsPreorder, fail_state-Stays, get_workflow-Stays)

  enqueue_next-Stays : (i : ℕ) (s : WorkflowState) → Moves (Stays i) (enqueue_next config s)
  enqueue_next-Stays i s = search (move_rules, Stays-IsPreorder, enqueue-Stays)

  module _ (runtime : WorkflowRuntime) where
    delivered :
        (d : QueueDelivery) (r : Result WorkflowState) (w w' : World) (x : Unit {0})
        → continue r (λ s. acknowledge d.id >> enqueue_next config s) w ≡ (ok x, w')
        → IsSettled d.id w'
    unfolding acknowledge
    delivered d (err e) w w' x h = absurd (cc (ap (λ p. p.0) h))
    delivered d (ok s) w w' x h =
        subst (IsSettled d.id) (ap (λ p. p.1) h)
          ((enqueue_next-Stays d.id s).at _ (acknowledge-settles d.id w))

    deliver-settles :
        (d : QueueDelivery) (w w' : World) (x : Unit {0})
        → deliver runtime config d w ≡ (ok x, w')
        → IsSettled d.id w'
    unfolding deliver
    deliver-settles d w w' x h =
        delivered d (process runtime d.task_id w).0 (process runtime d.task_id w).1 w' x h

    answered :
        (d : QueueDelivery) (p : Result (Unit {0}) × World) (w' : World) (b : Bool)
        → ((x : Unit {0}) → p ≡ (ok x, p.1) → IsSettled d.id p.1)
        → ◌≡◌ {A = Result Bool × World} (continue p.0 (λ _. pure true) p.1) (ok b, w')
        → IsSettled d.id w'
    answered d (ok x, v) w' b k h = subst (IsSettled d.id) (ap (λ q. q.1) h) (k x refl)
    answered d (err e, v) w' b k h = absurd (cc (ap (λ q. q.0) h))

    -- An outcome that the worker handles without raising leaves the delivery settled.
    handle-settles :
        (d : QueueDelivery) (r : Result (Unit {0})) (w w' : World) (b : Bool)
        → ((x : Unit {0}) → r ≡ ok x → IsSettled d.id w)
        → (handle runtime config d r >> pure true) w ≡ (ok b, w')
        → IsSettled d.id w'
    handle-settles d (ok x) w w' b done h = subst (IsSettled d.id) (ap (λ p. p.1) h) (done x refl)
    handle-settles d (err (Failure.permanent m)) w w' b done h =
        answered d (on_permanent d m w) w' b (λ x e. on_permanent-settles d m w) h
    handle-settles d (err (Failure.retryable m)) w w' b done h =
        answered d (on_retryable config d m w) w' b (on_retryable-settles d m w _) h
    handle-settles d (err (Failure.concurrent_update m)) w w' b done h =
        answered d (on_retryable config d m w) w' b (on_retryable-settles d m w _) h
    handle-settles d (err e) w w' b done h = absurd (cc (ap (λ p. p.0) h))

    -- A round of a worker that claims a delivery and does not raise leaves that delivery settled: no
    -- worker holds it, whether the step succeeded, failed for good, or is to be tried again.
    pub run_once-settles :
        (worker : String) (w w₁ w' : World) (d : QueueDelivery) (b : Bool)
        → claim worker config.queue_lease_seconds w ≡ (ok (some d), w₁)
        → run_once runtime config worker w ≡ (ok b, w')
        → IsSettled d.id w'
    unfolding run_once
    run_once-settles worker w w₁ w' d b claimed h =
        let h' = rw claimed at h in
        let outcome = deliver runtime config d w₁ in
        handle-settles d outcome.0 outcome.1 w' b
          (λ x e. deliver-settles d w₁ outcome.1 x (ap (λ r. (r, outcome.1)) e)) h'
