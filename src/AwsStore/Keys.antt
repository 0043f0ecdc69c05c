-- ===== src/AwsStore/Keys.antt =====
-- The keys of agent_resilience/aws_store.py: items of different kinds never share one.
use Prim.Native.String.{◌++◌ as concat}
use text.Mathlib.TextLemmas.{cons-append, head-eq_of_cons-eq}
use Prim.Native.Char.{Char, code}
use agent_resilience_runtime.Prelude.{
  ℕ, String, false, ◌≡◌, ◌==◌, string_eq, arith, refl, ap, beq_ne,
}
use agent_resilience_runtime.AwsStore.Cloud.{Key}
use agent_resilience_runtime.AwsStore.Checkpoints.{state_key}
use agent_resilience_runtime.AwsStore.Records.{event_key, result_key, approval_key}
use agent_resilience_runtime.AwsStore.Table.{key_beq}

pub data StoreKey : Type 0 where
  state_of : String → StoreKey
  event_of : String → String → StoreKey
  result_of : String → StoreKey
  approval_of : String → String → StoreKey

abbrev pub key_of : StoreKey → Key
key_of (state_of id) = state_key id
key_of (event_of id event) = event_key id event
key_of (result_of key) = result_key key
key_of (approval_of id action) = approval_key id action

abbrev pub kind : StoreKey → ℕ
kind (state_of id) = 0
kind (event_of id event) = 1
kind (result_of key) = 2
kind (approval_of id action) = 3

heads-apart :
    (c d : Char) (p q a b : String)
    → (code c ≡ code d → ⊥)
    → (concat (String.◌∷◌ c p) a == concat (String.◌∷◌ d q) b) ≡ false
heads-apart c d p q a b h =
    beq_ne (concat (String.◌∷◌ c p) a) (concat (String.◌∷◌ d q) b)
      (λ e. h (ap code (head-eq_of_cons-eq (rw (cons-append c p a, cons-append d q b) at e))))

-- The initials of two kinds of key, at the partition or at the sort key.
pk-apart : (e a : String) → (concat "WORKFLOW#" e == concat "IDEMPOTENCY#" a) ≡ false
pk-apart e a = heads-apart "W" "I" "ORKFLOW#" "DEMPOTENCY#" e a (omega arith)

pk-apart_sym : (e a : String) → (concat "IDEMPOTENCY#" e == concat "WORKFLOW#" a) ≡ false
pk-apart_sym e a = heads-apart "I" "W" "DEMPOTENCY#" "ORKFLOW#" e a (omega arith)

pub key_beq-of-kinds :
    (a b : StoreKey) → (kind a ≡ kind b → ⊥) → key_beq (key_of a) (key_of b) ≡ false
key_beq-of-kinds (state_of i) (state_of j) h = absurd (h refl)
key_beq-of-kinds (state_of i) (event_of j e) h =
    ground (arith, heads-apart "S" "E" "TATE" "VENT#" "" e (omega arith))
key_beq-of-kinds (state_of i) (result_of k) h = ground (arith, pk-apart i k)
key_beq-of-kinds (state_of i) (approval_of j a) h =
    ground (arith, heads-apart "S" "A" "TATE" "PPROVAL#" "" a (omega arith))
key_beq-of-kinds (event_of i e) (state_of j) h =
    ground (arith, heads-apart "E" "S" "VENT#" "TATE" e "" (omega arith))
key_beq-of-kinds (event_of i e) (event_of j f) h = absurd (h refl)
key_beq-of-kinds (event_of i e) (result_of k) h = ground (arith, pk-apart i k)
key_beq-of-kinds (event_of i e) (approval_of j a) h =
    ground (arith, heads-apart "E" "A" "VENT#" "PPROVAL#" e a (omega arith))
key_beq-of-kinds (result_of k) (state_of j) h = ground (arith, pk-apart_sym k j)
key_beq-of-kinds (result_of k) (event_of j e) h = ground (arith, pk-apart_sym k j)
key_beq-of-kinds (result_of k) (result_of l) h = absurd (h refl)
key_beq-of-kinds (result_of k) (approval_of j a) h = ground (arith, pk-apart_sym k j)
key_beq-of-kinds (approval_of i a) (state_of j) h =
    ground (arith, heads-apart "A" "S" "PPROVAL#" "TATE" a "" (omega arith))
key_beq-of-kinds (approval_of i a) (event_of j e) h =
    ground (arith, heads-apart "A" "E" "PPROVAL#" "VENT#" a e (omega arith))
key_beq-of-kinds (approval_of i a) (result_of k) h = ground (arith, pk-apart i k)
key_beq-of-kinds (approval_of i a) (approval_of j b) h = absurd (h refl)
