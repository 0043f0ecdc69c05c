-- ===== src/Store/Queue/Claim.antt =====
-- `claim` of agent_resilience/store.py: which delivery it returns, and to how many workers.
use agent_resilience_runtime.Prelude.{
  ℕ, ◌+◌, ◌≤◌, ◌<◌, update_where, String, Bool, true, false, Option, none, some, List, [], ◌∷◌, ◌≡◌,
  ◌≢◌, ◌⊎◌, inl, inr, refl, sym, ap, ◌∙◌, ◌==◌, nat_eq, find, count_where, All, All-map, arith,
  Bool-cases, Option-cases, some_inj, beq_refl,
}
use mathlib.Core.Path.{subst}
use mathlib.Core.Option
use agent_resilience_runtime.Prelude.Rows.{find-update_where, count-update_where, updated}
use agent_resilience_runtime.Exec.{ok, ok_inj}
use agent_resilience_runtime.Models.{QueueDelivery}
use agent_resilience_runtime.Store.Tables.{World, QueueRow, QueueStatus, queue_status_eq}
use agent_resilience_runtime.Store.Queue.Chosen.{chosen, first_by_id-none}
use agent_resilience_runtime.Store.Queue.{
  claim, release_expired, release, is_expired, is_available, next_delivery, lease_before,
  is_pending_id, take_lease, update_queue, delivery_of, has_id,
}

-- No two rows have one id: the table's primary key.
pub record HasUniqueIds (w : World) : Type 0 where
  pub unique : (i : ℕ) → count_where (has_id i) w.queue ≤ 1

abbrev pub row_of : ℕ → World → Option QueueRow
row_of i w = find (has_id i) w.queue

pub update_queue-HasUniqueIds :
    (p : QueueRow → Bool) (f : QueueRow → QueueRow) (w : World)
    → ((r : QueueRow) → (f r).id ≡ r.id)
    → HasUniqueIds w
    → HasUniqueIds (update_queue p f w)
update_queue-HasUniqueIds p f w keeps k = record {
  unique = λ i.
      rw (count-update_where (has_id i) p f (λ r. ap (λ n. n == i) (keeps r)) w.queue) (k.unique i);
}

pub row_of-update :
    (i : ℕ) (p : QueueRow → Bool) (f : QueueRow → QueueRow) (w : World)
    → ((r : QueueRow) → (f r).id ≡ r.id)
    → row_of i (update_queue p f w) ≡ Option.map (updated p f) (row_of i w)
row_of-update i p f w keeps =
    find-update_where (has_id i) p f (λ r. ap (λ n. n == i) (keeps r)) w.queue

-- A lease that has ended.
abbrev pub IsOver : ℕ → Option ℕ → Type 0
IsOver now none = ⊥
IsOver now (some l) = l < now

-- A row that may be claimed: it is pending, or in work with a lease that has ended, and its time has
-- come.
abbrev pub IsReady : ℕ → QueueRow → Type 0
IsReady now q =
    ((q.status ≡ QueueStatus.pending)
      ⊎ ((q.status ≡ QueueStatus.processing) × IsOver now q.lease_until))
    × (q.available_at ≤ now)

abbrev freed : ℕ → QueueRow → QueueRow
freed now q = updated (is_expired now) (release now) q

lease_before-IsOver : (now : ℕ) (o : Option ℕ) → IsOver now o → lease_before o now ≡ true
lease_before-IsOver now none h = absurd h
lease_before-IsOver now (some l) h = ground arith

IsOver-lease_before : (now : ℕ) (o : Option ℕ) → lease_before o now ≡ true → IsOver now o
IsOver-lease_before now none h = cc
IsOver-lease_before now (some l) h = ground arith

freed-available : (now : ℕ) (q : QueueRow) → IsReady now q → is_available now (freed now q) ≡ true
freed-available now q (inl pending, soon) = rw pending (ground arith)
freed-available now q (inr (held, over), soon) =
    rw (held, lease_before-IsOver now q.lease_until over) (ground arith)

freed-IsReady : (now : ℕ) (q : QueueRow) → is_available now (freed now q) ≡ true → IsReady now q
freed-IsReady now q h = elim (Bool-cases (is_expired now q)) [
  | inl e ↦ (
    inr (ground arith, IsOver-lease_before now q.lease_until (ground arith)),
    ground (arith, rw e at h),
  )
  | inr e ↦ let h' = rw e at h in (inl (ground arith), ground arith)
]

freed-id : (now : ℕ) (q : QueueRow) → (freed now q).id ≡ q.id
freed-id now q = ground arith

abbrev leased_row : String → ℕ → ℕ → QueueRow → QueueRow
leased_row worker until now q = take_lease (q.attempts + 1) worker until now q

freed-leased_row :
    (worker : String) (until now : ℕ) (q : QueueRow)
    → leased_row worker until now (freed now q) ≡ leased_row worker until now q
freed-leased_row worker until now q = ground arith

freed-delivery : (now : ℕ) (q : QueueRow) → delivery_of (freed now q) ≡ delivery_of q
freed-delivery now q = ground arith

-- What holds of every released row, said of the rows before.
All-freed :
    (P : QueueRow → Type 0) (now : ℕ) (rows : List QueueRow)
    → All P (update_where (is_expired now) (release now) rows)
    → All (λ q. P (freed now q)) rows
All-freed P now [] h = tt
All-freed P now (q ∷ rows) h = (h.0, All-freed P now rows h.1)

-- A delivery that a worker has claimed: its row could be claimed, with the least id of all rows that
-- could; it is now in work, leased to the worker, with one more attempt.
pub record IsClaimed (worker : String) (lease : ℕ) (w : World) (d : QueueDelivery) (w' : World)
    : Type 0 where
  pub row : QueueRow
  pub found : row_of d.id w ≡ some row
  pub ready : IsReady w.now row
  pub oldest : All (λ q. IsReady w.now q → d.id ≤ q.id) w.queue
  pub answer : d ≡ record {
    id = row.id;
    task_id = row.task_id;
    attempts = row.attempts + 1;
    max_attempts = row.max_attempts;
  }
  pub held :
      row_of d.id w'
      ≡ some (record row {
        status = QueueStatus.processing;
        attempts = row.attempts + 1;
        worker_id = some worker;
        lease_until = some (w.now + lease);
        updated_at = w.now;
      })

-- The row that the update of a claim leaves under the id of the selected one.
held_row :
    (worker : String) (lease : ℕ) (w : World) (r : QueueRow)
    → row_of r.id (release_expired w) ≡ some r
    → is_available w.now r ≡ true
    → row_of r.id (
        update_queue
          (is_pending_id r.id)
          (take_lease (r.attempts + 1) worker (w.now + lease) w.now)
          (release_expired w))
      ≡ some (take_lease (r.attempts + 1) worker (w.now + lease) w.now r)
held_row worker lease w r found available =
    row_of-update r.id (is_pending_id r.id)
      (take_lease (r.attempts + 1) worker (w.now + lease) w.now) (release_expired w) (λ q. refl)
    ∙ rw (found, pending_of w.now r available) refl
  where
    pending_of : (now : ℕ) (r : QueueRow) → is_available now r ≡ true → is_pending_id r.id r ≡ true
    pending_of now r h = rw (beq_refl r.id) (ground arith)

-- The selected row, as it was before the expired leases were released.
before_release :
    (i : ℕ) (r : QueueRow) (w : World)
    → row_of i (release_expired w) ≡ some r
    → (q : QueueRow) × (row_of i w ≡ some q) × (freed w.now q ≡ r)
before_release i r w h =
    let e = sym (row_of-update i (is_expired w.now) (release w.now) w (λ q. refl)) ∙ h in
    elim (Option-cases (row_of i w)) [
      | inl nothing ↦ let e' = rw nothing at e in absurd (cc e')
      | inr (q, old) ↦ let e' = rw old at e in (q, old, some_inj e')
    ]

leased :
    (worker : String) (lease : ℕ) (w : World) (r : QueueRow)
    → HasUniqueIds w
    → next_delivery (release_expired w) ≡ some r
    → IsClaimed worker lease w (delivery_of r) (
        update_queue
          (is_pending_id r.id)
          (take_lease (r.attempts + 1) worker (w.now + lease) w.now)
          (release_expired w))
leased worker lease w r k next =
    let k' = update_queue-HasUniqueIds (is_expired w.now) (release w.now) w (λ q. refl) k in
    let c = chosen (is_available w.now) (release_expired w).queue r next in
    let found = c.row (k'.unique r.id) in
    let (q, old, same) = before_release r.id r w found in
    record {
      row = q;
      found = old;
      ready = freed-IsReady w.now q (rw same c.passes);
      oldest =
          All-map
            (λ x least ready. rw (sym (freed-id w.now x)) (least (freed-available w.now x ready)))
            w.queue
            (All-freed (λ x. is_available w.now x ≡ true → r.id ≤ x.id) w.now w.queue c.least);
      answer = ap delivery_of (sym same) ∙ freed-delivery w.now q;
      held =
          held_row worker lease w r found c.passes
          ∙ ap some (
              ap (leased_row worker (w.now + lease) w.now) (sym same)
              ∙ freed-leased_row worker (w.now + lease) w.now q);
    }

-- Where no two rows have one id, a claim that returns a delivery has leased the oldest row that could
-- be claimed, and one that returns none has met no such row. A row can be claimed if it is pending, or
-- in work with a lease that has ended, and the time from which it is available has come.
pub claim-oldest :
    (worker : String) (lease : ℕ) (w w' : World) (o : Option QueueDelivery)
    → HasUniqueIds w
    → claim worker lease w ≡ (ok o, w')
    → ((o ≡ none) × All (λ q. IsReady w.now q → ⊥) w.queue)
      ⊎ ((d : QueueDelivery) × (o ≡ some d) × IsClaimed worker lease w d w')
unfolding claim
claim-oldest worker lease w w' o k h = elim (Option-cases (next_delivery (release_expired w))) [
  | inl nothing ↦
      let h' = rw nothing at h in
      let idle = first_by_id-none (is_available w.now) (release_expired w).queue nothing in
      inl (
        sym (ok_inj (ap (λ x. x.0) h')),
        All-map (λ q no_ ready. absurd (cc (sym no_ ∙ freed-available w.now q ready))) w.queue
            (All-freed (λ q. is_available w.now q ≡ false) w.now w.queue idle),
      )
  | inr (r, next) ↦
      let h' = rw next at h in
      inr (
        delivery_of r,
        sym (ok_inj (ap (λ x. x.0) h')),
        subst (IsClaimed worker lease w (delivery_of r)) (ap (λ x. x.1) h')
            (leased worker lease w r k next),
      )
]

-- The delivery that a claim has returned.
claimed :
    (worker : String) (lease : ℕ) (w w' : World) (d : QueueDelivery)
    → HasUniqueIds w
    → claim worker lease w ≡ (ok (some d), w')
    → IsClaimed worker lease w d w'
claimed worker lease w w' d k h = elim (claim-oldest worker lease w w' (some d) k h) [
  | inl (nothing, _) ↦ absurd (cc nothing)
  | inr (e, same, c) ↦ rw (some_inj same) c
]

-- A row whose lease lasts cannot be claimed.
not_ready :
    (r : QueueRow) (attempts : ℕ) (worker : String) (until start now : ℕ)
    → now ≤ until
    → IsReady now (take_lease attempts worker until start r)
    → ⊥
not_ready r attempts worker until start now h (inl pending, soon) = cc pending
not_ready r attempts worker until start now h (inr (held, over), soon) = omega (arith, h, over)

-- While a lease lasts no other claim returns its delivery: after a claim, a claim at a time up to the
-- end of the lease, in any world where the delivery's row is as the first claim left it, returns
-- another delivery. No two rows have one id, in the world of either claim.
pub claim-excludes :
    (a b : String) (lease lease' : ℕ) (w w' u u' : World) (d e : QueueDelivery)
    → HasUniqueIds w
    → HasUniqueIds u
    → claim a lease w ≡ (ok (some d), w')
    → row_of d.id u ≡ row_of d.id w'
    → u.now ≤ w.now + lease
    → claim b lease' u ≡ (ok (some e), u')
    → e.id ≢ d.id
claim-excludes a b lease lease' w w' u u' d e k k' h same soon h' clash =
    let c = claimed a lease w w' d k h in
    let c' = claimed b lease' u u' e k' h' in
    let held = take_lease (c.row.attempts + 1) a (w.now + lease) w.now c.row in
    let same_row : c'.row ≡ held = some_inj (sym c'.found ∙ rw clash (same ∙ c.held)) in
    not_ready c.row (c.row.attempts + 1) a (w.now + lease) w.now u.now soon
      (rw same_row at c'.ready)
