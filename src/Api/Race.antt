-- ===== src/Api/Race.antt =====
-- `approve` of agent_resilience/api.py while a worker still holds the workflow's delivery, and the
-- worker's `acknowledge` after it.
use agent_resilience_runtime.Prelude.{
  ℕ, ◌≤◌, String, Bool, false, Option, none, some, List, [], ◌∷◌, ◌≡◌, refl, ap, ◌∙◌, arith, nat_eq,
  Bool-cases, inl, inr, find, count_where, update_where, if◌then◌else◌, beq_refl, some_inj,
}
use agent_resilience_runtime.Exec.Keeps.{IsPreorder, Moves, move_rules}
use agent_resilience_runtime.Models.{WorkflowState, PendingAction}
use agent_resilience_runtime.Store.{
  World, QueueRow, Run, active_delivery, is_active_of, has_id, finish, enqueue, acknowledge,
  resolve_approval, save_workflow, record_event, get_workflow, EventBody,
}
use agent_resilience_runtime.Store.Frame.{
  Same, SkipsWorkflows, SkipsEvents, SkipsApprovals, frame_rules, resolve_approval-Same,
}
use agent_resilience_runtime.Store.Queue.Single.{IsSingle, active_count}
use agent_resilience_runtime.Api.{approve, required, or_not_found, grant}

-- While the delivery is active, the queue stays as it is.
abbrev Holds : String → QueueRow → World → World → Type 0
Holds id r w w' = (active : active_delivery id w ≡ some r) → w'.queue ≡ w.queue

Holds-IsPreorder : (id : String) (r : QueueRow) → IsPreorder (Holds id r)
Holds-IsPreorder id r = record {
  same = λ w active. refl;
  then_ = λ w v u p q active.
      let first = p active in q (ap (find (is_active_of id)) first ∙ active) ∙ first;
}

abbrev queue_of : World → List QueueRow
queue_of w = w.queue

queue-skip_workflows : SkipsWorkflows queue_of
queue-skip_workflows = record { skip = λ w x. refl }

queue-skip_events : SkipsEvents queue_of
queue-skip_events = record { skip = λ w x. refl }

queue-skip_approvals : SkipsApprovals queue_of
queue-skip_approvals = record { skip = λ w x. refl }

Same-Holds :
    {A : Type 0} (id : String) (r : QueueRow) (m : Run A)
    → Moves (Same queue_of) m
    → Moves (Holds id r) m
Same-Holds id r m k = record { at = λ w active. k.at w }

enqueue-Holds : (id : String) (r : QueueRow) (max : ℕ) → Moves (Holds id r) (enqueue id max)
unfolding enqueue
enqueue-Holds id r max = record { at = λ w active. rw active refl }

ruleset same_queue = (
  frame_rules, resolve_approval-Same, queue-skip_workflows, queue-skip_events, queue-skip_approvals,
)

resolve-Holds :
    (id : String) (r : QueueRow) (i a : String) (approved : Bool) (actor : String)
    (why : Option String)
    → Moves (Holds id r) (resolve_approval i a approved actor why)
resolve-Holds id r i a approved actor why = Same-Holds id r _ (search same_queue)

save-Holds :
    (id : String) (r : QueueRow) (s : WorkflowState) (v : ℕ)
    → Moves (Holds id r) (save_workflow s v)
save-Holds id r s v = Same-Holds id r _ (search same_queue)

event-Holds :
    (id : String) (r : QueueRow) (i : String) (e : EventBody)
    → Moves (Holds id r) (record_event i e)
event-Holds id r i e = Same-Holds id r _ (search same_queue)

or_not_found-Holds :
    (id : String) (r : QueueRow) (o : Option WorkflowState) → Moves (Holds id r) (or_not_found o)
or_not_found-Holds id r none = Same-Holds id r _ (search same_queue)
or_not_found-Holds id r (some s) = Same-Holds id r _ (search same_queue)

required-Holds : (id : String) (r : QueueRow) (i : String) → Moves (Holds id r) (required i)
unfolding required
required-Holds id r i = search (move_rules, Holds-IsPreorder, get-Holds, or_not_found-Holds)
  where
    get-Holds : Moves (Holds id r) (get_workflow i)
    get-Holds = Same-Holds id r _ (search same_queue)

grant-Holds :
    (id : String) (r : QueueRow) (o : Option PendingAction) (s : WorkflowState) (actor : String)
    (why : Option String) (max : ℕ)
    → Moves (Holds id r) (grant id o s actor why max)
grant-Holds id r none s actor why max = Same-Holds id r _ (search same_queue)
grant-Holds id r (some p) s actor why max =
    search (move_rules, Holds-IsPreorder, resolve-Holds, save-Holds, event-Holds, enqueue-Holds)
      depth 9

approve-Holds :
    (id : String) (r : QueueRow) (actor : String) (why : Option String) (max : ℕ)
    → Moves (Holds id r) (approve id actor why max)
unfolding approve
approve-Holds id r actor why max =
    search (move_rules, Holds-IsPreorder, required-Holds, grant-Holds)

finish-inactive : (id : String) (now : ℕ) (x : QueueRow) → is_active_of id (finish now x) ≡ false
finish-inactive id now x = ground arith

-- The finished row, or the row as it was, is not active.
not_active :
    (id : String) (i now : ℕ) (x : QueueRow)
    → is_active_of id x ≡ false
    → is_active_of id (if has_id i x then finish now x else x) ≡ false
not_active id i now x h = elim (Bool-cases (has_id i x)) [
  | inl hit ↦ rw hit (finish-inactive id now x)
  | inr miss ↦ rw miss h
]

none_still :
    (id : String) (i now : ℕ) (rows : List QueueRow)
    → count_where (is_active_of id) rows ≡ 0
    → count_where (is_active_of id) (update_where (has_id i) (finish now) rows) ≡ 0
none_still id i now [] h = refl
none_still id i now (x ∷ rows) h = elim (Bool-cases (is_active_of id x)) [
  | inl here ↦ absurd (omega (arith, (rw here at h)))
  | inr not_here ↦
      rw (not_active id i now x not_here)
        (omega (arith, none_still id i now rows (omega (arith, (rw not_here at h)))))
]

-- Once the only active row is finished, none is left.
none_left :
    (id : String) (now : ℕ) (r : QueueRow) (rows : List QueueRow)
    → count_where (is_active_of id) rows ≤ 1
    → find (is_active_of id) rows ≡ some r
    → count_where (is_active_of id) (update_where (has_id r.id) (finish now) rows) ≡ 0
none_left id now r [] one h = absurd (cc h)
none_left id now r (x ∷ rows) one h = elim (Bool-cases (is_active_of id x)) [
  | inl here ↦
      let e : x ≡ r = some_inj (rw here at h) in
      let rest : count_where (is_active_of id) rows ≡ 0 = omega (arith, (rw here at one)) in
      rw (head_finished x e) (omega (arith, none_still id r.id now rows rest))
  | inr not_here ↦ rw (not_active id r.id now x not_here) (
      omega
        (arith, none_left id now r rows (omega (arith, (rw not_here at one))) (rw not_here at h)))
]
  where
    head_finished :
        (x : QueueRow) → x ≡ r → is_active_of id (if has_id r.id x then finish now x else x) ≡ false
    head_finished x e = rw (ap (λ q. q.id) e, beq_refl r.id) (finish-inactive id now x)

-- An approval that arrives while a worker still holds the workflow's delivery is lost to the queue:
-- where no workflow has two active deliveries, after the approval and the worker's acknowledgement
-- the workflow has no active delivery, whether the approval succeeded or not.
pub approve-lost :
    (id actor : String) (why : Option String) (max : ℕ) (r : QueueRow) (w : World)
    → IsSingle w
    → active_delivery id w ≡ some r
    → active_count id (acknowledge r.id (approve id actor why max w).1).1 ≡ 0
unfolding acknowledge
approve-lost id actor why max r w k active =
    let same = (approve-Holds id r actor why max).at w active in
    rw same (none_left id _ r w.queue (k.at_most_one id) active)
