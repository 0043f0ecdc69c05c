-- ===== src/Store/Queue/Chosen.antt =====
-- The row that `claim` of agent_resilience/store.py selects: `ORDER BY id LIMIT 1`.
use agent_resilience_runtime.Prelude.{
  ℕ, ◌≤◌, Bool, true, false, Option, none, some, List, [], ◌∷◌, ◌≡◌, inl, inr, refl, sym, ◌∙◌,
  nat_eq, find, select, count_where, All, All-map, arith, Bool-cases, some_inj, ltb, beq_refl,
}
use mathlib.Core.Path.{subst}
use agent_resilience_runtime.Store.Tables.{QueueRow, queue_status_eq}
use agent_resilience_runtime.Store.Queue.{first_by_id, earlier, has_id}

-- A row that the selection has chosen is the row of its id, passes the test, and has the least id
-- of the rows that pass it.
pub record IsChosen (p : QueueRow → Bool) (rows : List QueueRow) (r : QueueRow) : Type 0 where
  pub row : count_where (has_id r.id) rows ≤ 1 → find (has_id r.id) rows ≡ some r
  pub present : 1 ≤ count_where (has_id r.id) rows
  pub passes : p r ≡ true
  pub least : All (λ q. p q ≡ true → r.id ≤ q.id) rows

-- A row in front of the chosen one, which the test passes over or which has a greater id.
behind :
    (p : QueueRow → Bool) (x r : QueueRow) (rows : List QueueRow)
    → (p x ≡ true → r.id ≤ x.id)
    → IsChosen p rows r
    → IsChosen p (x ∷ rows) r
behind p x r rows later c = record {
  row = λ h. ground (arith, c.row, c.present);
  present = ground (arith, c.present);
  passes = c.passes;
  least = (later, c.least);
}

first :
    (p : QueueRow → Bool) (x : QueueRow) (rows : List QueueRow)
    → p x ≡ true
    → All (λ q. p q ≡ true → x.id ≤ q.id) rows
    → IsChosen p (x ∷ rows) x
first p x rows here least = record {
  row = λ h. rw (beq_refl x.id);
  present = rw (beq_refl x.id) (omega arith);
  passes = here;
  least = (λ h. omega arith, least);
}

pub first_by_id-none :
    (p : QueueRow → Bool) (rows : List QueueRow)
    → first_by_id (select p rows) ≡ none
    → All (λ q. p q ≡ false) rows
first_by_id-none p [] h = tt
first_by_id-none p (x ∷ rows) h = elim (Bool-cases (p x)) [
  | inl here ↦ let h' = rw here at h in absurd (cc h')
  | inr no_ ↦ (no_, first_by_id-none p rows (rw no_ at h))
]

nobody : (p : QueueRow → Bool) (n : ℕ) (q : QueueRow) → p q ≡ false → p q ≡ true → n ≤ q.id
nobody p n q no_ yes_ = absurd (cc (sym no_ ∙ yes_))

earlier-IsChosen :
    (p : QueueRow → Bool) (x r : QueueRow) (rows : List QueueRow) (o : Option QueueRow)
    → p x ≡ true
    → first_by_id (select p rows) ≡ o
    → ((s : QueueRow) → o ≡ some s → IsChosen p rows s)
    → earlier x o ≡ r
    → IsChosen p (x ∷ rows) r
earlier-IsChosen p x r rows none here e ih h =
    subst (IsChosen p (x ∷ rows)) h
      (first p x rows here (All-map (nobody p x.id) rows (first_by_id-none p rows e)))
earlier-IsChosen p x r rows (some s) here e ih h = elim (Bool-cases (ltb s.id x.id)) [
  | inl less ↦
      subst (IsChosen p (x ∷ rows)) (rw less at h)
        (behind p x s rows (λ _. ground arith) (ih s refl))
  | inr not_less ↦ subst (IsChosen p (x ∷ rows)) (rw not_less at h) (
      first p x rows here
        (All-map (λ q k passes_. bound x s q not_less (k passes_)) rows (ih s refl).least))
]
  where
    bound : (x s q : QueueRow) → ltb s.id x.id ≡ false → s.id ≤ q.id → x.id ≤ q.id
    bound x s q h k = ground arith

pub chosen :
    (p : QueueRow → Bool) (rows : List QueueRow) (r : QueueRow)
    → first_by_id (select p rows) ≡ some r
    → IsChosen p rows r
chosen p [] r h = cc
chosen p (x ∷ rows) r h = elim (Bool-cases (p x)) [
  | inl here ↦
      earlier-IsChosen p x r rows (first_by_id (select p rows)) here refl (chosen p rows)
        (some_inj (rw here at h))
  | inr no_ ↦ behind p x r rows (λ yes_. nobody p r.id x no_ yes_) (chosen p rows r (rw no_ at h))
]
