-- ===== src/Contracts/Race.antt =====
-- Several workers on one store of agent_resilience/contracts.py: their reads and saves in any order.
use agent_resilience_runtime.Prelude.{
  ℕ, ◌+◌, ◌≤◌, String, false, Option, none, some, List, [], ◌∷◌, ◌≡◌, inl, inr, ◌==◌, string_eq,
  if◌then◌else◌, arith, Bool-cases, sym, refl,
}
use agent_resilience_runtime.Exec.{Exec, Result, ok, err, Result-cases}
use agent_resilience_runtime.Models.{WorkflowState}
use agent_resilience_runtime.Contracts.{version_of, Written, IsCheckpointStore}

pub data Call : Type 0 where
  read : String → Call
  save : WorkflowState → ℕ → Call

-- The version that a save of the workflow `id` replaced, where it succeeded.
abbrev pub committed : String → WorkflowState → ℕ → Result WorkflowState → List ℕ → List ℕ
committed id x v (ok r) rest = if x.task_id == id then v ∷ rest else rest
committed id x v (err e) rest = rest

-- Strictly ascending numbers, none below the bound.
abbrev pub IsAscending : ℕ → List ℕ → Type 0
IsAscending low [] = Unit
IsAscending low (v ∷ vs) = (low ≤ v) × IsAscending (v + 1) vs

abbrev pub low_of : Option ℕ → ℕ
low_of none = 0
low_of (some v) = v

IsAscending-weaken : (a b : ℕ) (vs : List ℕ) → a ≤ b → IsAscending b vs → IsAscending a vs
IsAscending-weaken a b [] h k = tt
IsAscending-weaken a b (v ∷ vs) h (here, rest) = (omega (arith, h, here), rest)

-- The call is not a save of the workflow.
abbrev pub IsApart : String → Call → Type 0
IsApart id (read other) = Unit
IsApart id (save x v) = (x.task_id == id) ≡ false

module _ {S : Type 0} (get : String → Exec S (Option WorkflowState))
    (save_at : WorkflowState → ℕ → Exec S WorkflowState) where
  unfoldable pub after : List Call → S → S
  after [] s = s
  after (read id ∷ calls) s = after calls (get id s).1
  after (save x v ∷ calls) s = after calls (save_at x v s).1

  -- The versions of one workflow that the calls replaced, in order.
  unfoldable pub commits : String → List Call → S → List ℕ
  commits id [] s = []
  commits id (read other ∷ calls) s = commits id calls (get other s).1
  commits id (save x v ∷ calls) s =
      committed id x v (save_at x v s).0 (commits id calls (save_at x v s).1)

  module _ (IsOk : S → Type 0) (stored : String → S → Option WorkflowState)
      (store : IsCheckpointStore IsOk stored get save_at) where
    pair-of-eq : {A : Type 0} {p : Result A × S} {r : Result A} → p.0 ≡ r → p ≡ (r, p.1)
    pair-of-eq e = rw (sym e) refl

    abbrev low : String → S → ℕ
    low id s = low_of (version_of (stored id s))

    -- What a save makes of the lowest version, where it wrote.
    low-Written :
        (id : String) (x : WorkflowState) (v : ℕ) (r : WorkflowState) (s t : S)
        → Written IsOk stored x v r s t
        → if x.task_id == id then (low id s ≡ v) × (low id t ≡ v + 1) else (low id t ≡ low id s)
    low-Written id x v r s t w = elim (Bool-cases (x.task_id == id)) [
      | inl e ↦
          let same : x.task_id ≡ id = (string_eq.beq_iff x.task_id id).0 e in
          rw (e, sym same, w.fresh, w.now_stored, w.next) (refl, refl)
      | inr e ↦ rw (e, w.others id e) refl
    ]

    save-IsOk : (x : WorkflowState) (v : ℕ) (s : S) → IsOk s → IsOk (save_at x v s).1
    save-IsOk x v s k = elim (Result-cases (save_at x v s).0) [
      | inl (r, e) ↦ (store.saves x v s _ r k (pair-of-eq e)).still_ok
      | inr (f, e) ↦ elim (store.fails x v s _ f k (pair-of-eq e)) [
        | inl same ↦ same.still_ok
        | inr (r, w) ↦ w.still_ok
      ]
    ]

    low_le-Written :
        (id : String) (x : WorkflowState) (v : ℕ) (r : WorkflowState) (s t : S)
        → Written IsOk stored x v r s t
        → low id s ≤ low id t
    low_le-Written id x v r s t w = elim (Bool-cases (x.task_id == id)) [
      | inl e ↦ let step = rw e at (low-Written id x v r s t w) in omega (arith, step.0, step.1)
      | inr e ↦ let step = rw e at (low-Written id x v r s t w) in omega (arith, step)
    ]

    IsAscending-Written :
        (id : String) (x : WorkflowState) (v : ℕ) (r : WorkflowState) (s t : S) (rest : List ℕ)
        → Written IsOk stored x v r s t
        → IsAscending (low id t) rest
        → IsAscending (low id s) (if x.task_id == id then v ∷ rest else rest)
    IsAscending-Written id x v r s t rest w asc = elim (Bool-cases (x.task_id == id)) [
      | inl e ↦
          let step = rw e at (low-Written id x v r s t w) in
          rw (e, step.0) (omega arith, rw step.1 at asc)
      | inr e ↦ rw (e, sym (rw e at (low-Written id x v r s t w))) asc
    ]

    IsAscending-save :
        (id : String) (x : WorkflowState) (v : ℕ) (s : S) (rest : List ℕ)
        → IsOk s
        → IsAscending (low id (save_at x v s).1) rest
        → IsAscending (low id s) (committed id x v (save_at x v s).0 rest)
    IsAscending-save id x v s rest k asc = elim (Result-cases (save_at x v s).0) [
      | inl (r, e) ↦
          rw e (IsAscending-Written id x v r s _ rest (store.saves x v s _ r k (pair-of-eq e)) asc)
      | inr (f, e) ↦ rw e (elim (store.fails x v s _ f k (pair-of-eq e)) [
        | inl same ↦ rw (same.kept id) at asc
        | inr (r, w) ↦ IsAscending-weaken _ _ rest (low_le-Written id x v r s _ w) asc
      ])
    ]

    -- On a store that fills the interface, and in a state that its invariant holds of, the saves of
    -- one workflow that succeed replace strictly ascending versions, from the stored one on,
    -- whatever reads and saves of several workers come between: no version is replaced twice.
    pub commits-IsAscending :
        (id : String) (calls : List Call) (s : S)
        → IsOk s
        → IsAscending (low_of (version_of (stored id s))) (commits id calls s)
    unfolding commits
    commits-IsAscending id [] s k = tt
    commits-IsAscending id (read other ∷ calls) s k =
        let same = store.read_keeps other s k in
        rw (sym (same.kept id)) (commits-IsAscending id calls _ same.still_ok)
    commits-IsAscending id (save x v ∷ calls) s k =
        IsAscending-save id x v s _ k
          (commits-IsAscending id calls (save_at x v s).1 (save-IsOk x v s k))
