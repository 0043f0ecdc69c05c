-- ===== src/Api/Granted.antt =====
-- What `approve` of agent_resilience/api.py has met and done where it returns.
use mathlib.Core.Path.{subst}
use agent_resilience_runtime.Prelude.{
  ℕ, ◌+◌, ◌≤◌, String, true, Option, none, some, ◌≡◌, refl, sym, ap, ◌∙◌, ◌==◌, string_eq, nat_eq,
  ◌&&◌, inl, inr, Bool-cases, Option-cases, update_where, count_where,
}
use agent_resilience_runtime.Exec.{ok, ok_inj}
use agent_resilience_runtime.Exec.Returns.{continue-ok}
use agent_resilience_runtime.Models.{
  WorkflowState, PendingAction, queued, waiting_for_approval, status_eq,
}
use agent_resilience_runtime.Store.{
  World, ApprovalStatus, EventBody, resolve_approval, is_pending, is_pending_approval,
  save_workflow, record_event, enqueue, get_workflow,
}
use agent_resilience_runtime.Store.Frame.{
  SkipsEvents, SkipsQueue, save_workflow-Same, record_event-Same, enqueue-Same,
}
use agent_resilience_runtime.Store.Checkpoints.Lock.{save_workflow-Saved}
use agent_resilience_runtime.Store.Queue.Single.{active_count, enqueue-delivers}
use agent_resilience_runtime.Store.Trace.{Operation}
use agent_resilience_runtime.Store.Trace.Sound.{IsSound, perform-IsSound}
use agent_resilience_runtime.Runtime.Gate.{stored_state}
use agent_resilience_runtime.Contracts.Sqlite.{saved-Written}
use agent_resilience_runtime.Worker.DeadLetter.{checkpoint_of}
use agent_resilience_runtime.Api.{approve, required, grant, is_waiting}

-- The workflow waited for the approval of its pending action, one approval of it was pending, and no
-- other is left pending: the verdict is written. The workflow is queued, with the next version and
-- nothing else changed, and has a delivery.
pub record IsGranted (id actor : String) (why : Option String) (w w' : World) (r : WorkflowState)
    : Type 0 where
  pub state : WorkflowState
  pub stored : stored_state id w ≡ some state
  pub waiting : state.status ≡ waiting_for_approval
  pub pending : PendingAction
  pub has_pending : state.pending_action ≡ some pending
  pub undecided :
      count_where
        (λ a. (a.task_id == id && a.action_id == pending.action_id) && is_pending a.status)
        w.approvals
      ≡ 1
  pub decided :
      w'.approvals
      ≡ update_where
          (λ a. (a.task_id == id && a.action_id == pending.action_id) && is_pending a.status)
          (λ a. record a {
            status = ApprovalStatus.approved;
            actor = some actor;
            reason = why;
            resolved_at = some w.now;
          })
          w.approvals
  pub returned :
      r ≡ record state { status = queued; version = state.version + 1; updated_at = w.now }
  pub now_stored : stored_state id w' ≡ some r
  pub delivered : 1 ≤ active_count id w'

resolved :
    (id action actor : String) (why : Option String) (w w' : World) (x : Unit {0})
    → resolve_approval id action true actor why w ≡ (ok x, w')
    → (count_where (is_pending_approval id action) w.approvals ≡ 1)
      × (w' ≡ record w {
        approvals =
            update_where
              (is_pending_approval id action)
              (λ a. record a {
                status = ApprovalStatus.approved;
                actor = some actor;
                reason = why;
                resolved_at = some w.now;
              })
              w.approvals;
      })
unfolding resolve_approval
resolved id action actor why w w' x h =
    elim (Bool-cases (count_where (is_pending_approval id action) w.approvals == 1)) [
      | inl one ↦ let h' = rw one at h in ((nat_eq.beq_iff _ 1).0 one, sym (ap (λ p. p.1) h'))
      | inr other_ ↦ let h' = rw other_ at h in absurd (cc (ap (λ p. p.0) h'))
    ]

grant-IsGranted :
    (id actor : String) (why : Option String) (max : ℕ) (s : WorkflowState)
    (o : Option PendingAction) (w w' : World) (r : WorkflowState)
    → IsSound w
    → stored_state id w ≡ some s
    → s.status ≡ waiting_for_approval
    → s.pending_action ≡ o
    → grant id o s actor why max w ≡ (ok r, w')
    → IsGranted id actor why w w' r
grant-IsGranted id actor why max s none w w' r k found waits has h = absurd (cc (ap (λ p. p.0) h))
grant-IsGranted id actor why max s (some p) w w' r k found waits has h =
    let resolve = resolve_approval id p.action_id true actor why in
    let q : WorkflowState = record s { status = queued } in
    let note = record_event id (EventBody.approval_granted actor why) in
    let w₁ = (resolve w).1 in
    let w₂ = (save_workflow q s.version w₁).1 in
    let w₃ = (note w₂).1 in
    let w₄ = (enqueue id max w₃).1 in
    let (x, e₁, h₁) = continue-ok (resolve w).0 _ w₁ w' r h in
    let (saved, e₂, h₂) = continue-ok (save_workflow q s.version w₁).0 _ w₂ w' r h₁ in
    let (y, e₃, h₃) = continue-ok (note w₂).0 _ w₃ w' r h₂ in
    let (n, e₄, h₄) = continue-ok (enqueue id max w₃).0 _ w₄ w' r h₃ in
    let verdict = resolved id p.action_id actor why w w₁ x (ap (λ a. (a, w₁)) e₁) in
    let k₁ : IsSound w₁ = perform-IsSound (Operation.decide id p.action_id true actor why) w k in
    let done = save_workflow-Saved q s.version w₁ k₁.keyed (ap (λ a. (a, w₂)) e₂) in
    let written = saved-Written q s.version w₁ w₂ saved k₁ (ap (λ a. (a, w₂)) e₂) in
    let same : saved ≡ r = ok_inj (ap (λ a. a.0) h₄) in
    let last : w₄ ≡ w' = ap (λ a. a.1) h₄ in
    record {
      state = s;
      stored = found;
      waiting = waits;
      pending = p;
      has_pending = has;
      undecided = verdict.0;
      decided =
          ap (λ v. v.approvals) (sym last)
          ∙ after (λ v. v.approvals) w₂ (record { skip = λ v l. refl })
              (record { skip = λ v l m. refl })
          ∙ (save_workflow-Same (λ v. v.approvals) (record { skip = λ v l. refl }) q s.version).at
              w₁
          ∙ ap (λ v. v.approvals) verdict.1;
      returned =
          sym same
          ∙ done.returned
          ∙ ap (λ v. record s { status = queued; version = s.version + 1; updated_at = v.now })
              verdict.1;
      now_stored =
          ap (stored_state id) (sym last)
          ∙ after (stored_state id) w₂ (record { skip = λ v l. refl })
              (record { skip = λ v l m. refl })
          ∙ subst (λ i. stored_state i w₂ ≡ some saved) (checkpoint_of id s w k found).of_task
              written.now_stored
          ∙ ap some same;
      delivered = rw (sym last) (enqueue-delivers id max w₃ w₄ n (ap (λ a. (a, w₄)) e₄));
    }
  where
    -- What neither the audit entry nor the delivery changes.
    after :
        {A : Type 0} (part : World → A) (v : World)
        → SkipsEvents part
        → SkipsQueue part
        → let v' = (record_event id (EventBody.approval_granted actor why) v).1 in
          part (enqueue id max v').1 ≡ part v
    after part v ks kq =
        (enqueue-Same part kq id max).at _
        ∙ (record_event-Same part ks id (EventBody.approval_granted actor why)).at v

-- Where checkpoints are unique and their columns `task_id` and `version` are those of the state: an
-- approval that returns was given to a workflow that waited with a pending action, of which exactly one
-- approval was pending; it has written the verdict, actor, reason and time into that approval and
-- into no other, and has queued the workflow, otherwise unchanged, under the next version, with at
-- least one delivery that is pending or in work.
pub approve-IsGranted :
    (id actor : String) (why : Option String) (max : ℕ) (w w' : World) (r : WorkflowState)
    → IsSound w
    → approve id actor why max w ≡ (ok r, w')
    → IsGranted id actor why w w' r
unfolding approve required get_workflow
approve-IsGranted id actor why max w w' r k h = elim (Option-cases (stored_state id w)) [
  | inl lost ↦ let e = rw lost at h in absurd (cc (ap (λ p. p.0) e))
  | inr (s, found) ↦ elim (Bool-cases (is_waiting s)) [
    | inr not_waiting ↦ let e = rw (found, not_waiting) at h in absurd (cc (ap (λ p. p.0) e))
    | inl waits ↦
        grant-IsGranted id actor why max s s.pending_action w w' r k found
          ((status_eq.beq_iff s.status waiting_for_approval).0 waits) refl (rw (found, waits) at h)
  ]
]
