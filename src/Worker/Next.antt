-- ===== src/Worker/Next.antt =====
-- `DurableWorker.run_once` of agent_resilience/worker.py where the step of the workflow returns: the
-- delivery is acknowledged, and a workflow that is still queued gets another one.
use agent_resilience_runtime.Prelude.{
  ℕ, ◌≤◌, String, Bool, true, false, none, some, [], ◌∷◌, ◌≡◌, refl, sym, ap, ◌∙◌, ◌==◌, nat_eq,
  inl, inr, Bool-cases, Option-cases, is_some, update_where,
}
use agent_resilience_runtime.Prelude.Rows.{find-append, find_sound}
use agent_resilience_runtime.Exec.{Result, ok, pure, ◌>>◌, Result-cases}
use agent_resilience_runtime.Models.{WorkflowState, QueueDelivery, queued, status_eq}
use agent_resilience_runtime.Store.{
  World, QueueRow, QueueStatus, claim, acknowledge, enqueue, has_id, finish, active_delivery,
  workflow_row, new_delivery,
}
use agent_resilience_runtime.Store.Queue.Claim.{row_of, row_of-update}
use agent_resilience_runtime.Store.Queue.Single.{active_count, enqueue-delivers, enqueue-raises}
use agent_resilience_runtime.Runtime.{WorkflowRuntime, process}
use agent_resilience_runtime.Worker.{Settings, enqueue_next, deliver, handle, run_once}

-- The row of a delivery when it is acknowledged.
abbrev acknowledged : ℕ → QueueRow → QueueRow
acknowledged now q = record q {
  status = QueueStatus.completed;
  lease_until = none;
  updated_at = now;
}

enqueue-keeps_row :
    (id : String) (max i : ℕ) (q : QueueRow) (w : World)
    → row_of i w ≡ some q
    → row_of i (enqueue id max w).1 ≡ some q
unfolding enqueue
enqueue-keeps_row id max i q w found = elim (Option-cases (active_delivery id w)) [
  | inr (r, old) ↦ rw old found
  | inl fresh ↦ elim (Bool-cases (is_some (workflow_row id w))) [
    | inr unknown ↦ rw (fresh, unknown) found
    | inl known ↦
        rw (fresh, known)
          (find-append (has_id i) w.queue (new_delivery id max w ∷ []) ∙ rw found refl)
  ]
]

acknowledge-row :
    (i : ℕ) (q : QueueRow) (w : World)
    → row_of i w ≡ some q
    → row_of i (acknowledge i w).1 ≡ some (acknowledged w.now q)
unfolding acknowledge
acknowledge-row i q w found =
    row_of-update i (has_id i) (finish w.now) w (λ r. refl)
    ∙ rw (found, find_sound (has_id i) w.queue q found) refl

module _ (config : Settings) (runtime : WorkflowRuntime) where
  -- The end of a round whose step has returned, from the acknowledgement on.
  abbrev last_part : WorkflowState → QueueDelivery → World → Result Bool × World
  last_part s d v =
      let outcome = enqueue_next config s v in
      (handle runtime config d outcome.0 >> pure true) outcome.1

  unqueued :
      (s : WorkflowState) (d : QueueDelivery) (v w' : World) (b : Bool)
      → (s.status == queued) ≡ false
      → last_part s d v ≡ (ok b, w')
      → w' ≡ v
  unqueued s d v w' b other_ h = sym (ap (λ p. p.1) (rw other_ at h))

  requeued :
      (s : WorkflowState) (d : QueueDelivery) (v w' : World) (b : Bool)
      → (s.status == queued) ≡ true
      → last_part s d v ≡ (ok b, w')
      → (w' ≡ (enqueue s.task_id config.max_queue_attempts v).1) × (1 ≤ active_count s.task_id w')
  requeued s d v w' b again h =
      let m = enqueue s.task_id config.max_queue_attempts in
      elim (Result-cases (m v).0) [
        | inl (n, e) ↦
            let h' = rw (again, e) at h in
            let same : (m v).1 ≡ w' = ap (λ p. p.1) h' in
            (
              sym same,
              enqueue-delivers s.task_id config.max_queue_attempts v w' n
                  (ap (λ r. (r, (m v).1)) e ∙ ap (λ x. (ok n, x)) same),
            )
        | inr (e, raised) ↦
            let kind = enqueue-raises s.task_id config.max_queue_attempts v e raised in
            let h' = rw (again, raised, kind) at h in absurd (cc (ap (λ p. p.0) h'))
      ]

  -- A round of a worker that returns, and whose step of the workflow has returned: the row of the
  -- delivery becomes `COMPLETED` without a lease. A workflow that the step leaves `QUEUED` has a
  -- delivery that is pending or in work after the round; for another one nothing else changes after the
  -- step.
  pub run_once-goes_on :
      (worker : String) (w w₁ w₂ w' : World) (d : QueueDelivery) (s : WorkflowState) (q : QueueRow)
      (b : Bool)
      → claim worker config.queue_lease_seconds w ≡ (ok (some d), w₁)
      → process runtime d.task_id w₁ ≡ (ok s, w₂)
      → row_of d.id w₂ ≡ some q
      → run_once runtime config worker w ≡ (ok b, w')
      → (row_of d.id w'
          ≡ some (record q {
            status = QueueStatus.completed;
            lease_until = none;
            updated_at = w₂.now;
          }))
        × ((s.status == queued) ≡ true → 1 ≤ active_count s.task_id w')
        × ((s.status == queued) ≡ false
            → w' ≡ record w₂ {
              queue =
                  update_where
                    (λ r. r.id == d.id)
                    (λ r. record r {
                      status = QueueStatus.completed;
                      lease_until = none;
                      updated_at = w₂.now;
                    })
                    w₂.queue;
            })
  unfolding run_once deliver acknowledge
  run_once-goes_on worker w w₁ w₂ w' d s q b claimed stepped found h =
      let v = (acknowledge d.id w₂).1 in
      let h' : last_part s d v ≡ (ok b, w') = rw (claimed, stepped) at h in
      let row = acknowledge-row d.id q w₂ found in
      elim (Bool-cases (s.status == queued)) [
        | inl again ↦
            let r = requeued s d v w' b again h' in
            (
              ap (row_of d.id) r.0
                  ∙ enqueue-keeps_row s.task_id config.max_queue_attempts d.id _ v row,
              λ _. r.1,
              λ other_. absurd (cc (sym again ∙ other_)),
            )
        | inr other_ ↦
            let same = unqueued s d v w' b other_ h' in
            (ap (row_of d.id) same ∙ row, λ again. absurd (cc (sym other_ ∙ again)), λ _. same)
      ]
