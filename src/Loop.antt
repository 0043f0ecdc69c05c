-- ===== src/Loop.antt =====
-- agent_resilience/loop_detector.py: the tool-call budget, repeated tool sequences, no progress.
pub mod Suffix
pub mod Reason
pub mod Retries
use agent_resilience_runtime.Prelude.{
  ℕ, zero, suc, ◌+◌, ◌*◌, ◌/◌, Bool, true, false, Eq, ◌==◌, nat_eq, Option, none, some, List, [],
  ◌∷◌, ◌++◌, ◌&&◌, if◌then◌else◌, ltb, leb, length, take, last_n, list_beq,
}
use agent_resilience_runtime.Exec.{Result, ok, err, value_error}

pub record LoopDetector : Type 0 where
  pub repeat_threshold : ℕ
  pub max_tool_calls : ℕ

-- `LoopDetector.__init__`
unfoldable pub new_detector : ℕ → ℕ → Result LoopDetector
new_detector threshold max =
    if ltb threshold 2
    then err (value_error "repeat_threshold must be at least 2")
    else ok (record { repeat_threshold = threshold; max_tool_calls = max })

-- `LoopDetector()`
abbrev pub default_detector : LoopDetector
default_detector = record { repeat_threshold = 4; max_tool_calls = 20 }

-- The messages that `reason` returns.
pub data LoopReason : Type 0 where
  budget_exceeded : ℕ → LoopReason
  repeated_sequence no_progress : LoopReason

module _ {ℓ} {A : Type ℓ} where
  -- `pattern * n`
  abbrev pub repeat : ℕ → List A → List A
  repeat zero p = []
  repeat (suc n) p = p ++ repeat n p

module _ {ℓ} {A : Type ℓ} ⦃e : Eq A⦄ where
  -- The test of one pass of the loop of `_repeated_suffix`.
  unfoldable pub repeats_at : ℕ → List A → ℕ → Bool
  repeats_at threshold values len =
      let tail = last_n (len * threshold) values in list_beq tail (repeat threshold (take len tail))

  -- The passes left, and the length that is tried next.
  unfoldable pub try_lengths : ℕ → List A → ℕ → ℕ → Bool
  try_lengths threshold values zero len = false
  try_lengths threshold values (suc n) len =
      let rest = try_lengths threshold values n (len + 1) in
      if repeats_at threshold values len then true else rest

  unfoldable pub repeated_suffix : ℕ → List A → Bool
  repeated_suffix threshold values = try_lengths threshold values (length values / threshold) 1

  abbrev pub member : A → List A → Bool
  member a [] = false
  member a (x ∷ xs) = if x == a then true else member a xs

  -- `set(values)`
  abbrev pub set_of : List A → List A
  set_of [] = []
  set_of (x ∷ xs) = if member x xs then set_of xs else x ∷ set_of xs

  unfoldable pub stalled : ℕ → List A → Bool
  stalled threshold progress =
      leb threshold (length progress) && length (set_of (last_n threshold progress)) == 1

unfoldable pub reason {ℓ κ} :
    {A : Type ℓ} {B : Type κ} ⦃e : Eq A⦄ ⦃f : Eq B⦄
    → LoopDetector
    → List A
    → List B
    → Option LoopReason
reason d tools progress =
    if leb d.max_tool_calls (length tools)
    then some (budget_exceeded d.max_tool_calls)
    else if repeated_suffix d.repeat_threshold tools
    then some repeated_sequence
    else if stalled d.repeat_threshold progress
    then some no_progress
    else none
