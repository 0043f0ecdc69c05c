-- ===== src/Tests/Cloud.antt =====
-- A table and two queues in memory, that answer every request: the hypotheses on DynamoDB and SQS hold
-- of them.
use agent_resilience_runtime.Prelude.{
  ℕ, ◌+◌, ◌-◌, ◌≤◌, String, Bool, true, false, Option, none, some, [], ◌≡◌, refl, sym, ◌==◌,
  string_eq, if◌then◌else◌, arith, Bool-cases, inl, inr, is_some, beq_refl,
}
use agent_resilience_runtime.AwsTools.{Answer, answer, failure, client_error}
use agent_resilience_runtime.AwsStore.Cloud.{
  Services, Key, Item, conditional_check_failed, workflow_item,
}
use agent_resilience_runtime.AwsStore.Checkpoints.{state_key}
use agent_resilience_runtime.AwsStore.Table.{
  Items, write, can_put, meets, update_at, IsTable, IsQueueApart,
}
use agent_resilience_runtime.AwsStore.Delivery.{IsQueue}
use agent_resilience_runtime.AwsStore.Lock.{HasStates}
use agent_resilience_runtime.AwsStore.Steps.{checkpoint}
use agent_resilience_runtime.AwsStore.Sound.{Put-HasStates}
use agent_resilience_runtime.Tests.Stores.{job}

pub record Local : Type 0 where
  pub table : Items
  pub depth : String → ℕ

abbrev refused : {A : Type 0} → Answer A
refused = failure (client_error (some conditional_check_failed))

abbrev pub guarded : Bool → Items → Local → Answer (Unit {0}) × Local
guarded true after s = (answer tt, record s { table = after })
guarded false after s = (refused, s)

abbrev pub set_depth : String → ℕ → Local → Local
set_depth url n s = record s { depth = λ u. if url == u then n else s.depth u }

abbrev pub local : Services Local
local = record {
  now = λ s. 2000;
  new_event_id = λ s. "e";
  put_item = λ new k i s. guarded (can_put new (s.table k)) (write k i s.table) s;
  get_item = λ k s. (answer (s.table k), s);
  update_item = λ k u s. guarded (meets u (s.table k)) (update_at k u s.table) s;
  query_events = λ id s. (answer [], s);
  query_workflows = λ n s. (answer [], s);
  send_message = λ url b s. (answer "m", set_depth url (s.depth url + 1) s);
  receive_message = λ url n m s. (answer [], s);
  delete_message = λ url r s. (answer tt, set_depth url (s.depth url - 1) s);
  change_message_visibility = λ url r n s. (answer tt, s);
  get_queue_attributes =
      λ url s. (answer (record { visible = some (s.depth url); not_visible = none }), s);
}

abbrev pub table_of : Local → Items
table_of s = s.table

abbrev pub depth_of : String → Local → ℕ
depth_of url s = s.depth url

answer_inj : {A : Type 0} {a b : A} → answer a ≡ answer b → a ≡ b
answer_inj h = cc

guarded_done :
    (guard : Bool) (after : Items) (s : Local)
    → (guarded guard after s).0 ≡ answer tt
    → (guard ≡ true) × ((guarded guard after s).1.table ≡ after)
guarded_done true after s h = (refl, refl)
guarded_done false after s h = absurd (cc h)

refused-IsPresent :
    (o : Option Item) (after : Items) (k : Key) (s : Local)
    → s.table k ≡ o
    → (guarded (can_put true o) after s).0 ≡ failure (client_error (some conditional_check_failed))
    → is_some ((guarded (can_put true o) after s).1.table k) ≡ true
refused-IsPresent none after k s e h = absurd (cc h)
refused-IsPresent (some i) after k s e h = rw e refl

pub local-IsTable : IsTable local table_of
local-IsTable = record {
  get_reads = λ k s e. sym (answer_inj e);
  get_keeps = λ k s. refl;
  put_moves = λ new k i s. elim (Bool-cases (can_put new (s.table k))) [
    | inl e ↦ rw e (inr (refl, refl))
    | inr e ↦ rw e (inl refl)
  ];
  put_done = λ new k i s h. guarded_done (can_put new (s.table k)) _ s h;
  put_refused = λ k i s h. refused-IsPresent (s.table k) _ k s refl h;
  update_moves = λ k u s. elim (Bool-cases (meets u (s.table k))) [
    | inl e ↦ rw e (inr (refl, refl))
    | inr e ↦ rw e (inl refl)
  ];
  update_done = λ k u s h. guarded_done (meets u (s.table k)) _ s h;
  query_keeps = λ id s. refl;
  query_workflows_keeps = λ n s. refl;
}

pub local-IsQueueApart : IsQueueApart local table_of
local-IsQueueApart = record {
  send_keeps = λ url b s. refl;
  receive_keeps = λ url n m s. refl;
  delete_keeps = λ url r s. refl;
  visibility_keeps = λ url r n s. refl;
  depth_keeps = λ url s. refl;
}

same_depth :
    (guard : Bool) (after : Items) (u : String) (s : Local)
    → s.depth u ≤ (guarded guard after s).1.depth u
same_depth true after u s = omega arith
same_depth false after u s = omega arith

pub local-IsQueue : IsQueue local "main" "dlq" depth_of
local-IsQueue = record {
  send_keeps = λ url u b s. elim (Bool-cases (url == u)) [
    | inl e ↦
        let same : url ≡ u = (string_eq.beq_iff url u).0 e in
        rw (sym same, beq_refl url) (omega arith)
    | inr e ↦ rw e (omega arith)
  ];
  send_done = λ url id b s h. rw (beq_refl url) (omega arith);
  delete_takes = λ url r s. rw (beq_refl url) (omega arith);
  delete_other = λ url u r s e. rw e (omega arith);
  receive_moves = λ url n m s. omega arith;
  visibility_keeps = λ url r u n s. omega arith;
  attributes_keep = λ url u s. omega arith;
  get_keeps = λ u k s. omega arith;
  put_keeps = λ u new k i s. same_depth (can_put new (s.table k)) _ u s;
  update_keeps = λ u k c s. same_depth (meets c (s.table k)) _ u s;
  events_keep = λ u id s. omega arith;
  workflows_keep = λ u n s. omega arith;
}

-- One workflow with its checkpoint, two messages in the queue and none buried.
abbrev pub start : Local
start = record {
  table = write (state_key "i1") (workflow_item 0 job 1000) (λ k. none);
  depth = λ u. if u == "main" then 2 else 0;
}

pub start-HasStates : HasStates (table_of start)
start-HasStates =
    Put-HasStates true (state_key "i1") (workflow_item 0 job 1000) (λ k. none) (checkpoint job 1000)
      (record { agree = λ id i h. absurd (cc h) })
