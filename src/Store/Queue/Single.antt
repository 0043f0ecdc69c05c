-- ===== src/Store/Queue/Single.antt =====
-- `enqueue` of agent_resilience/store.py: the active deliveries of a workflow.
use agent_resilience_runtime.Prelude.{
  ap, ℕ, ◌≤◌, String, true, false, [], ◌∷◌, ◌≡◌, inl, inr, refl, sym, ◌∙◌, ◌==◌, string_eq,
  count_where, count_where-append, arith, Bool-cases, Option-cases, is_some, beq_refl,
}
use mathlib.Core.Path.{subst}
use agent_resilience_runtime.Exec.{ok, err, Failure, integrity_error}
use agent_resilience_runtime.Prelude.Rows.{count-of-find-none, count-of-find-some}
use agent_resilience_runtime.Store.Tables.{World, queue_status_eq}
use agent_resilience_runtime.Store.Checkpoints.{workflow_row, new_delivery}
use agent_resilience_runtime.Store.Queue.{enqueue, is_active_of, active_delivery}

abbrev pub active_count : String → World → ℕ
active_count id w = count_where (is_active_of id) w.queue

-- No workflow has two deliveries that are pending or in work.
pub record IsSingle (w : World) : Type 0 where
  pub at_most_one : (id : String) → active_count id w ≤ 1

enqueue-known :
    (id : String) (max : ℕ) (w : World)
    → IsSingle w
    → is_some (workflow_row id w) ≡ true
    → active_count id (enqueue id max w).1 ≡ 1
unfolding enqueue
enqueue-known id max w k known = elim (Option-cases (active_delivery id w)) [
  | inl fresh ↦
      rw (fresh, known)
        (count_where-append (is_active_of id) w.queue (new_delivery id max w ∷ [])
          ∙ rw (count-of-find-none (is_active_of id) w.queue fresh, beq_refl id) (omega arith))
  | inr (r, old) ↦
      rw old (omega (arith, k.at_most_one id, count-of-find-some (is_active_of id) w.queue r old))
]

enqueue-others :
    (id j : String) (max : ℕ) (w : World)
    → (id == j) ≡ false
    → active_count j (enqueue id max w).1 ≡ active_count j w
unfolding enqueue
enqueue-others id j max w apart = elim (Option-cases (active_delivery id w)) [
  | inl fresh ↦ elim (Bool-cases (is_some (workflow_row id w))) [
    | inl known ↦
        rw (fresh, known)
          (count_where-append (is_active_of j) w.queue (new_delivery id max w ∷ [])
            ∙ rw apart (omega arith))
    | inr unknown ↦ rw (fresh, unknown) refl
  ]
  | inr (r, old) ↦ rw old refl
]

enqueue-own :
    (id : String) (max : ℕ) (w : World) → IsSingle w → active_count id (enqueue id max w).1 ≤ 1
unfolding enqueue
enqueue-own id max w k = elim (Option-cases (active_delivery id w)) [
  | inl fresh ↦ elim (Bool-cases (is_some (workflow_row id w))) [
    | inl known ↦
        rw (fresh, known)
          (subst (λ n. n ≤ 1)
            (sym (count_where-append (is_active_of id) w.queue (new_delivery id max w ∷ [])))
            (rw (count-of-find-none (is_active_of id) w.queue fresh, beq_refl id) (omega arith)))
    | inr unknown ↦ rw (fresh, unknown) (k.at_most_one id)
  ]
  | inr (r, old) ↦ rw old (k.at_most_one id)
]

-- An `enqueue` that returns leaves the workflow with an active delivery.
pub enqueue-delivers :
    (id : String) (max : ℕ) (w w' : World) (n : ℕ)
    → enqueue id max w ≡ (ok n, w')
    → 1 ≤ active_count id w'
unfolding enqueue
enqueue-delivers id max w w' n h = elim (Option-cases (active_delivery id w)) [
  | inr (r, old) ↦
      let e = ap (λ p. p.1) (rw old at h) in
      rw (sym e) (count-of-find-some (is_active_of id) w.queue r old)
  | inl fresh ↦ elim (Bool-cases (is_some (workflow_row id w))) [
    | inr unknown ↦ let e = ap (λ p. p.0) (rw (fresh, unknown) at h) in absurd (cc e)
    | inl known ↦
        let e = ap (λ p. p.1) (rw (fresh, known) at h) in
        rw (sym e, count_where-append (is_active_of id) w.queue (new_delivery id max w ∷ []))
          (rw (beq_refl id) (omega arith))
  ]
]

-- What `enqueue` raises, if anything.
pub enqueue-raises :
    (id : String) (max : ℕ) (w : World) (e : Failure)
    → (enqueue id max w).0 ≡ err e
    → e ≡ integrity_error
unfolding enqueue
enqueue-raises id max w e h = elim (Option-cases (active_delivery id w)) [
  | inr (r, old) ↦ let h' = rw old at h in absurd (cc h')
  | inl fresh ↦ elim (Bool-cases (is_some (workflow_row id w))) [
    | inl known ↦ let h' = rw (fresh, known) at h in absurd (cc h')
    | inr unknown ↦ let h' = rw (fresh, unknown) at h in cc h'
  ]
]

-- Where every workflow has at most one active delivery, enqueueing leaves it so, and leaves the
-- workflow that is enqueued, if it is known, with exactly one: the one that it had, or a new one.
pub enqueue-IsSingle :
    (id : String) (max : ℕ) (w : World)
    → IsSingle w
    → IsSingle (enqueue id max w).1
      × (is_some (workflow_row id w) ≡ true → active_count id (enqueue id max w).1 ≡ 1)
enqueue-IsSingle id max w k = (
  record {
    at_most_one = λ j. elim (Bool-cases (id == j)) [
      | inl same ↦
          subst (λ x. active_count x (enqueue id max w).1 ≤ 1) ((string_eq.beq_iff id j).0 same)
            (enqueue-own id max w k)
      | inr apart ↦ rw (enqueue-others id j max w apart) (k.at_most_one j)
    ];
  },
  enqueue-known id max w k,
)
