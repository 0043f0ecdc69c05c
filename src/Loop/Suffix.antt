-- ===== src/Loop/Suffix.antt =====
-- `_repeated_suffix` of agent_resilience/loop_detector.py against its meaning.
use agent_resilience_runtime.Prelude.{
  ℕ, zero, suc, ◌+◌, ◌-◌, ◌*◌, ◌/◌, ◌≤◌, ◌<◌, Bool, true, false, Eq, ◌≡◌, ◌≢◌, ◌↔◌, refl, sym, ap,
  ◌∙◌, inl, inr, List, [], ◌∷◌, ◌++◌, length, take, last_n, list_beq_iff, length-append,
  length-drop, length-take, take-append-drop, take-append, drop-append, arith, Bool-cases,
}
use native.Mathlib.Nat.{le-div_iff_mul-le, mul_comm}
use agent_resilience_runtime.Loop.{repeat, repeats_at, try_lengths, repeated_suffix}

-- The list ends in `threshold` copies of one pattern that is not empty.
pub record EndsInRepeats {ℓ} {A : Type ℓ} (threshold : ℕ) (values : List A) : Type ℓ where
  pub before : List A
  pub pattern_ : List A
  pub not_empty : pattern_ ≢ []
  pub shape : values ≡ before ++ repeat threshold pattern_

length-repeat {ℓ} : {A : Type ℓ} (n : ℕ) (p : List A) → length (repeat n p) ≡ n * length p
length-repeat zero p = omega arith
length-repeat (suc n) p = length-append p (repeat n p) ∙ omega (arith, length-repeat n p)

ne_of_values {ℓ} : {A : Type ℓ} (f : A → Bool) (a b : A) → f a ≡ false → f b ≡ true → a ≢ b
ne_of_values f a b p q h = cc (ap f h)

le-mul : (k t : ℕ) → 1 ≤ t → k ≤ k * t
le-mul k t h = grind arith

last_n-append {ℓ} : {A : Type ℓ} (n : ℕ) (xs ys : List A) → n ≡ length ys → last_n n (xs ++ ys) ≡ ys
last_n-append n xs ys h =
    let e : length (xs ++ ys) - n ≡ length xs = omega (arith, length-append xs ys) in
    rw e (drop-append xs ys)

length-pos {ℓ} : {A : Type ℓ} (xs : List A) → xs ≢ [] → 1 ≤ length xs
length-pos [] h = absurd (h refl)
length-pos (x ∷ xs) h = omega arith

take_last-ne-nil {ℓ} :
    {A : Type ℓ} (values : List A) (k t : ℕ)
    → 1 ≤ t
    → 1 ≤ k
    → k * t ≤ length values
    → take k (last_n (k * t) values) ≢ []
take_last-ne-nil values k t ht hk fits p = omega (
  arith,
  ap length p,
  le-mul k t ht,
  length-take k (last_n (k * t) values),
  length-drop (length values - k * t) values,
)

module _ {ℓ} {A : Type ℓ} ⦃e : Eq A⦄ where
  try_lengths-found :
      (t : ℕ) (values : List A) (n len : ℕ)
      → try_lengths t values n len ≡ true
      → (k : ℕ) × (len ≤ k) × (k < len + n) × (repeats_at t values k ≡ true)
  unfolding try_lengths
  try_lengths-found t values zero len h = cc
  try_lengths-found t values (suc n) len h = elim (Bool-cases (repeats_at t values len)) [
    | inl hit ↦ (len, omega arith, omega arith, hit)
    | inr miss ↦
        let (k, low, high, hit) = try_lengths-found t values n (len + 1) (rw miss at h) in
        (k, omega arith, omega arith, hit)
  ]

  try_lengths-finds :
      (t : ℕ) (values : List A) (n len k : ℕ)
      → len ≤ k
      → k < len + n
      → repeats_at t values k ≡ true
      → try_lengths t values n len ≡ true
  unfolding try_lengths
  try_lengths-finds t values zero len k low high hit = absurd (omega arith)
  try_lengths-finds t values (suc n) len k low high hit =
      elim (Bool-cases (repeats_at t values len)) [
        | inl now ↦ rw now
        | inr miss ↦
            let apart : len ≢ k = ne_of_values (repeats_at t values) len k miss hit in
            rw miss (try_lengths-finds t values n (len + 1) k (omega arith) (omega arith) hit)
      ]

  -- A pass of the loop finds a repeated pattern of its length.
  repeats_at_sound :
      (t : ℕ) (values : List A) (k : ℕ)
      → 1 ≤ t
      → 1 ≤ k
      → k * t ≤ length values
      → repeats_at t values k ≡ true
      → EndsInRepeats t values
  unfolding repeats_at
  repeats_at_sound t values k ht hk fits hit = record {
    before = take (length values - k * t) values;
    pattern_ = take k (last_n (k * t) values);
    not_empty = take_last-ne-nil values k t ht hk fits;
    shape =
        sym (take-append-drop (length values - k * t) values)
        ∙ ap (λ l. take (length values - k * t) values ++ l) ((list_beq_iff _ _).0 hit);
  }

  repeats_at_complete :
      (t : ℕ) (before p : List A) → 1 ≤ t → repeats_at t (before ++ repeat t p) (length p) ≡ true
  unfolding repeats_at
  repeats_at_complete zero before p h = absurd (omega arith)
  repeats_at_complete (suc t) before p h =
      rw
        (last_n-append (length p * suc t) before (p ++ repeat t p)
          (mul_comm (length p) (suc t) ∙ sym (length-repeat (suc t) p)))
        ((list_beq_iff _ _).1 (ap (repeat (suc t)) (sym (take-append p (repeat t p)))))

  pattern_fits :
      (t : ℕ) (before p : List A) → 1 ≤ t → length p < 1 + length (before ++ repeat t p) / t
  pattern_fits t before p ht =
      let fits : length p * t ≤ length (before ++ repeat t p) =
        omega
          (arith, length-append before (repeat t p), length-repeat t p, mul_comm (length p) t) in
      omega (arith, (le-div_iff_mul-le ht).1 fits)

  -- For a threshold that is not zero, the test answers `true` exactly if the list ends in
  -- `threshold` copies of a non-empty pattern.
  pub repeated_suffix_iff :
      (t : ℕ) (values : List A) → 1 ≤ t → (repeated_suffix t values ≡ true) ↔ EndsInRepeats t values
  unfolding repeated_suffix
  repeated_suffix_iff t values ht = (
    λ h.
        let (k, low, high, hit) = try_lengths-found t values (length values / t) 1 h in
        repeats_at_sound t values k ht low ((le-div_iff_mul-le ht).0 (omega arith)) hit,
    λ r. rw r.shape (
        try_lengths-finds t _ _ 1 (length r.pattern_) (length-pos r.pattern_ r.not_empty)
          (pattern_fits t r.before r.pattern_ ht) (repeats_at_complete t r.before r.pattern_ ht)),
  )
