-- ===== src/Loop/Reason.antt =====
-- `LoopDetector.reason` of agent_resilience/loop_detector.py: when it lets an agent go on.
use agent_resilience_runtime.Prelude.{
  ℕ, suc, ◌-◌, ◌≤◌, ◌<◌, Bool, true, false, Eq, ◌==◌, ◌≡◌, ◌↔◌, refl, sym, ◌∙◌, inl, inr, none,
  List, [], ◌∷◌, length, last_n, length-drop, All, arith, Bool-cases, nat_eq,
}
use agent_resilience_runtime.Exec.{ok}
use agent_resilience_runtime.Loop.{
  LoopDetector, new_detector, reason, repeated_suffix, stalled, member, set_of,
}
use agent_resilience_runtime.Loop.Suffix.{EndsInRepeats, repeated_suffix_iff}

-- The last `threshold` entries are there and are all the same.
pub record IsStalled {ℓ} {A : Type ℓ} (threshold : ℕ) (progress : List A) : Type ℓ where
  pub enough : threshold ≤ length progress
  pub entry : A
  pub same : All (λ x. x ≡ entry) (last_n threshold progress)

module _ {ℓ} {A : Type ℓ} ⦃e : Eq A⦄ where
  member-All : (x a : A) (xs : List A) → member x xs ≡ true → All (λ y. y ≡ a) xs → x ≡ a
  member-All x a [] h all = cc
  member-All x a (y ∷ ys) h all = ground (arith, e.beq_iff y x, member-All x a ys)

  set_of-pos : (x : A) (xs : List A) → 1 ≤ length (set_of (x ∷ xs))
  set_of-pos x [] = omega arith
  set_of-pos x (y ∷ ys) = ground (arith, set_of-pos y ys)

  set_of-one :
      (x : A) (xs : List A) → length (set_of (x ∷ xs)) ≡ 1 → (a : A) × All (λ z. z ≡ a) (x ∷ xs)
  set_of-one x [] h = (x, (refl, tt))
  set_of-one x (y ∷ ys) h = elim (Bool-cases (member x (y ∷ ys))) [
    | inl old ↦
        let (a, all) = set_of-one y ys (rw old at h) in (a, (member-All x a (y ∷ ys) old all, all))
    | inr new ↦
        let h' : suc (length (set_of (y ∷ ys))) ≡ 1 = (rw new at h) in
        absurd (omega (arith, set_of-pos y ys))
  ]

  one-set_of : (a x : A) (xs : List A) → All (λ y. y ≡ a) (x ∷ xs) → length (set_of (x ∷ xs)) ≡ 1
  one-set_of a x [] all = refl
  one-set_of a x (y ∷ ys) all =
      let e' : (y == x) ≡ true = (e.beq_iff y x).1 (all.1.0 ∙ sym all.0) in
      rw e' (one-set_of a y ys all.1)

  All-same :
      (xs : List A) → 1 ≤ length xs → (length (set_of xs) ≡ 1) ↔ ((a : A) × All (λ z. z ≡ a) xs)
  All-same [] h = absurd (omega arith)
  All-same (x ∷ xs) h = (set_of-one x xs, λ w. one-set_of w.0 x xs w.1)

  last_n-pos : (t : ℕ) (xs : List A) → 1 ≤ t → t ≤ length xs → 1 ≤ length (last_n t xs)
  last_n-pos t xs h k = omega (arith, length-drop (length xs - t) xs)

  pub stalled_iff :
      (t : ℕ) (progress : List A) → 1 ≤ t → (stalled t progress ≡ true) ↔ IsStalled t progress
  unfolding stalled
  stalled_iff t progress ht = (
    λ h.
        let fits : t ≤ length progress = ground arith in
        let one : length (set_of (last_n t progress)) ≡ 1 = ground arith in
        let (a, same) = (All-same (last_n t progress) (last_n-pos t progress ht fits)).0 one in
        record { enough = fits; entry = a; same = same },
    λ s.
        let one : length (set_of (last_n t progress)) ≡ 1 =
          (All-same (last_n t progress) (last_n-pos t progress ht s.enough)).1 (s.entry, s.same) in
        ground arith,
  )

new_detector-ok :
    (threshold max : ℕ) {d : LoopDetector}
    → new_detector threshold max ≡ ok d
    → (2 ≤ threshold) × (d ≡ record { repeat_threshold = threshold; max_tool_calls = max })
unfolding new_detector
new_detector-ok threshold max h = ground arith

refuted {ℓ} : {P : Type ℓ} {b : Bool} → (b ≡ true) ↔ P → b ≡ false → P → ⊥
refuted iff e p = cc (iff.1 p)

unmet {ℓ} : {P : Type ℓ} {b : Bool} → (b ≡ true) ↔ P → (P → ⊥) → b ≡ false
unmet {b} iff n = elim (Bool-cases b) [ inl t ↦ absurd (n (iff.0 t)) | inr e ↦ e ]

module _ {ℓ κ} {A : Type ℓ} {B : Type κ} ⦃e : Eq A⦄ ⦃f : Eq B⦄ where
  -- A detector that its constructor accepts lets the agent go on exactly while the tool calls are
  -- within the budget, the tools do not end in a repeated pattern, and the progress is not stalled.
  pub reason-none :
      (threshold max : ℕ) (d : LoopDetector) (tools : List A) (progress : List B)
      → new_detector threshold max ≡ ok d
      → (reason d tools progress ≡ none) ↔ (
          (length tools < max)
          × (EndsInRepeats threshold tools → ⊥)
          × (IsStalled threshold progress → ⊥))
  unfolding reason new_detector
  reason-none threshold max d tools progress made =
      let (low, shape) = new_detector-ok threshold max made in
      let repeats = repeated_suffix_iff threshold tools (omega arith) in
      let stalls = stalled_iff threshold progress (omega arith) in
      rw shape (
        λ h.
            let calm : (length tools < max)
                × (repeated_suffix threshold tools ≡ false)
                × (stalled threshold progress ≡ false) =
              ground arith in
            (calm.0, refuted repeats calm.1, refuted stalls calm.2),
        λ (low_calls, no_repeat, no_stall).
            let r : repeated_suffix threshold tools ≡ false = unmet repeats no_repeat in
            let s : stalled threshold progress ≡ false = unmet stalls no_stall in ground arith,
      )
