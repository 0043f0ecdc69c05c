-- ===== src/Prelude/Rows.antt =====
-- Laws of the row operations: what a lookup and a count see after an update or an insertion.
use agent_resilience_runtime.Prelude.Tests.{if◌then◌else◌, Bool-cases, some_inj}
use agent_resilience_runtime.Prelude.Lists.{find, update_where, count_where, All}
use Prim.Native.Nat.{◌≤◌}
use mathlib.Core.Path.{◌≡◌, refl, subst}
use mathlib.Core.Logic.{inl, inr}
use mathlib.Core.Bool.{Bool, true, false}
use mathlib.Core.Option
use mathlib.Core.Option.{Option, none, some}
use mathlib.Core.List.{List, [], ◌∷◌, ◌++◌}
use native.Mathlib.Omega.{arith}

module _ {ℓ} {A : Type ℓ} where
  -- A row as `UPDATE ... WHERE q` leaves it.
  abbrev pub updated : (A → Bool) → (A → A) → A → A
  updated q f x = if q x then f x else x

  -- The first of two lookups that finds a row.
  abbrev pub or_find : Option A → Option A → Option A
  or_find none o = o
  or_find (some x) o = some x

  pub find-append :
      (p : A → Bool) (xs ys : List A) → find p (xs ++ ys) ≡ or_find (find p xs) (find p ys)
  find-append p [] ys = refl
  find-append p (x ∷ xs) ys = ground (arith, find-append p xs ys)

  pub find-update_where :
      (p q : A → Bool) (f : A → A)
      → ((x : A) → p (f x) ≡ p x)
      → (xs : List A) → find p (update_where q f xs) ≡ Option.map (updated q f) (find p xs)
  find-update_where p q f keeps [] = refl
  find-update_where p q f keeps (x ∷ xs) = ground (arith, keeps x, find-update_where p q f keeps xs)

  pub count-update_where :
      (p q : A → Bool) (f : A → A)
      → ((x : A) → p (f x) ≡ p x)
      → (xs : List A) → count_where p (update_where q f xs) ≡ count_where p xs
  count-update_where p q f keeps [] = refl
  count-update_where p q f keeps (x ∷ xs) =
      ground (arith, keeps x, count-update_where p q f keeps xs)

  pub count-of-find-none : (p : A → Bool) (xs : List A) → find p xs ≡ none → count_where p xs ≡ 0
  count-of-find-none p [] h = refl
  count-of-find-none p (x ∷ xs) h = ground (arith, count-of-find-none p xs)

  pub find-of-count-zero : (p : A → Bool) (xs : List A) → count_where p xs ≡ 0 → find p xs ≡ none
  find-of-count-zero p [] h = refl
  find-of-count-zero p (x ∷ xs) h = ground (arith, find-of-count-zero p xs)

  pub find_sound : (p : A → Bool) (xs : List A) (r : A) → find p xs ≡ some r → p r ≡ true
  find_sound p [] r h = cc
  find_sound p (x ∷ xs) r h = ground (arith, find_sound p xs r)

  pub count-le-of_imp :
      (p q : A → Bool)
      → ((x : A) → p x ≡ true → q x ≡ true)
      → (xs : List A) → count_where p xs ≤ count_where q xs
  count-le-of_imp p q h [] = omega arith
  count-le-of_imp p q h (x ∷ xs) = ground (arith, h x, count-le-of_imp p q h xs)

  pub count-of-find-some :
      (p : A → Bool) (xs : List A) (r : A) → find p xs ≡ some r → 1 ≤ count_where p xs
  count-of-find-some p [] r h = cc
  count-of-find-some p (x ∷ xs) r h = ground (arith, count-of-find-some p xs r)

  pub update_where-of-count-zero :
      (p : A → Bool) (f : A → A) (xs : List A) → count_where p xs ≡ 0 → update_where p f xs ≡ xs
  update_where-of-count-zero p f [] h = refl
  update_where-of-count-zero p f (x ∷ xs) h = ground (arith, update_where-of-count-zero p f xs)

  -- After an update whose rows no longer pass the test, none does.
  pub count-update_where_self :
      (p : A → Bool) (f : A → A)
      → ((x : A) → p x ≡ true → p (f x) ≡ false)
      → (xs : List A) → count_where p (update_where p f xs) ≡ 0
  count-update_where_self p f out [] = refl
  count-update_where_self p f out (x ∷ xs) =
      ground (arith, out x, count-update_where_self p f out xs)

module _ {ℓ κ} {A : Type ℓ} (P : A → Type κ) where
  pub All-update_where :
      (q : A → Bool) (f : A → A)
      → ((x : A) → q x ≡ true → P (f x))
      → (xs : List A) → All P xs
      → All P (update_where q f xs)
  All-update_where q f new [] all = tt
  All-update_where q f new (x ∷ xs) (here, rest) = (
    elim (Bool-cases (q x)) [ inl yes_ ↦ rw yes_ (new x yes_) | inr no_ ↦ rw no_ here ],
    All-update_where q f new xs rest,
  )

  pub find-All : (q : A → Bool) (xs : List A) (r : A) → find q xs ≡ some r → All P xs → P r
  find-All q [] r h all = absurd (cc h)
  find-All q (x ∷ xs) r h (here, rest) = elim (Bool-cases (q x)) [
    | inl yes_ ↦ subst P (some_inj (rw yes_ at h)) here
    | inr no_ ↦ find-All q xs r (rw no_ at h) rest
  ]

  pub All-keeps :
      (q : A → Bool) (f : A → A)
      → ((x : A) → P x → P (f x))
      → (xs : List A) → All P xs
      → All P (update_where q f xs)
  All-keeps q f keeps [] all = tt
  All-keeps q f keeps (x ∷ xs) (here, rest) = (
    elim (Bool-cases (q x)) [ inl yes_ ↦ rw yes_ (keeps x here) | inr no_ ↦ rw no_ here ],
    All-keeps q f keeps xs rest,
  )
