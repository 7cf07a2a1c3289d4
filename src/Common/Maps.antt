-- ===== src/Common/Maps.antt =====
-- JavaScript's `Map` and plain objects as association lists in insertion order.
use Prim.Native.Nat.{◌+◌, ◌≤◌}
use Prim.Native.String.{String}
use mathlib.Core.Path.{◌≡◌, refl}
use mathlib.Core.Logic.{◌↔◌}
use mathlib.Core.Bool.{Bool, true, false, ◌||◌, ◌&&◌, not}
use mathlib.Core.Option.{Option, none, some}
use mathlib.Core.List.{List, [], ◌∷◌, ◌++◌}
use native.Mathlib.Omega.{arith}
use text.Mathlib.Text.{◌==◌ as string_eq}
use text.Mathlib.TextEquality.{eq_iff}
use vigor3912s_mcp.Common.Tests.{if◌then◌else◌, is_some, length, keep}
use vigor3912s_mcp.Common.Texts.{Text, text_eq, text_eq_iff}

-- Equality of keys as the program tests it.
pub record Key {ℓ} (K : Type ℓ) : Type ℓ where
  pub same : K → K → Bool
  pub same_iff : (a b : K) → (same a b ≡ true) ↔ (a ≡ b)

instance abbrev pub text_key : Key Text
text_key = record { same = text_eq; same_iff = text_eq_iff }

instance abbrev pub string_key : Key String
string_key = record { same = string_eq; same_iff = eq_iff }

infix 50 ◌==◌
abbrev pub ◌==◌ {ℓ} : {K : Type ℓ} ⦃k : Key K⦄ → K → K → Bool
◌==◌ ⦃k⦄ = k.same

module _ {ℓ} {K : Type ℓ} ⦃k : Key K⦄ where
  pub same_refl : (a : K) → (a == a) ≡ true
  same_refl a = (k.same_iff a a).1 refl

  unfoldable pub contains : List K → K → Bool
  contains [] a = false
  contains (x ∷ xs) a = x == a || contains xs a

  pub contains-append :
      (xs ys : List K) (a : K) → contains (xs ++ ys) a ≡ contains xs a || contains ys a
  unfolding contains
  contains-append [] ys a = refl
  contains-append (x ∷ xs) ys a = ground (arith, contains-append xs ys a)

  -- `[...new Set(list)]`, from the elements seen so far
  unfoldable pub distinct_from : List K → List K → List K
  unfolding contains
  distinct_from seen [] = []
  distinct_from seen (x ∷ xs) =
      let old = distinct_from seen xs in
      let new = x ∷ distinct_from (x ∷ seen) xs in if contains seen x then old else new

  -- Collecting without repetition loses and adds no member.
  pub contains-distinct_from :
      (seen xs : List K) (a : K)
      → contains seen a || contains (distinct_from seen xs) a ≡ contains seen a || contains xs a
  unfolding contains distinct_from
  contains-distinct_from seen [] a = refl
  contains-distinct_from seen (x ∷ xs) a = ground (
    arith,
    contains-distinct_from seen xs a,
    contains-distinct_from (x ∷ seen) xs a,
    k.same_iff x a,
  )

  -- No element occurs twice.
  unfoldable pub are_distinct : List K → Bool
  unfolding contains
  are_distinct [] = true
  are_distinct (x ∷ xs) = not (contains xs x) && are_distinct xs

module _ {ℓ κ} {K : Type ℓ} {V : Type κ} ⦃k : Key K⦄ where
  -- `map.get(key)`
  unfoldable pub lookup : K → List (K × V) → Option V
  lookup a [] = none
  lookup a ((b, v) ∷ m) = if b == a then some v else lookup a m

  -- `map.has(key)`
  abbrev pub has : K → List (K × V) → Bool
  has a m = is_some (lookup a m)

  -- `map.set(key, value)`: in place for a key that is there, else at the end
  unfoldable pub insert : K → V → List (K × V) → List (K × V)
  insert a v [] = (a, v) ∷ []
  insert a v ((b, w) ∷ m) = if b == a then (b, v) ∷ m else (b, w) ∷ insert a v m

  -- `map.delete(key)`
  unfoldable pub delete : K → List (K × V) → List (K × V)
  delete a [] = []
  delete a ((b, v) ∷ m) = if b == a then delete a m else (b, v) ∷ delete a m

  pub lookup-insert :
      (a b : K) (v : V) (m : List (K × V))
      → lookup b (insert a v m) ≡ (if a == b then some v else lookup b m)
  unfolding lookup insert
  lookup-insert a b v [] = refl
  lookup-insert a b v ((c, w) ∷ m) =
      ground (arith, k.same_iff a b, k.same_iff c a, k.same_iff c b, lookup-insert a b v m)

  pub lookup-delete :
      (a b : K) (m : List (K × V)) → lookup b (delete a m) ≡ (if a == b then none else lookup b m)
  unfolding lookup delete
  lookup-delete a b [] = ground arith
  lookup-delete a b ((c, w) ∷ m) =
      ground (arith, k.same_iff a b, k.same_iff c a, k.same_iff c b, lookup-delete a b m)

  pub length-insert-le : (a : K) (v : V) (m : List (K × V)) → length (insert a v m) ≤ length m + 1
  unfolding insert
  length-insert-le a v [] = omega arith
  length-insert-le a v ((c, w) ∷ m) = ground (arith, length-insert-le a v m)

  pub length-delete-le : (a : K) (m : List (K × V)) → length (delete a m) ≤ length m
  unfolding delete
  length-delete-le a [] = omega arith
  length-delete-le a ((c, w) ∷ m) = ground (arith, length-delete-le a m)

  -- Filtering a map loses entries and shows no new ones.
  pub lookup-keep-none :
      (p : K × V → Bool) (a : K) (m : List (K × V)) → lookup a m ≡ none → lookup a (keep p m) ≡ none
  unfolding lookup
  lookup-keep-none p a [] h = refl
  lookup-keep-none p a ((b, v) ∷ m) h = ground (arith, lookup-keep-none p a m)

  pub lookup-keep-some :
      (p : K × V → Bool) (a : K) (v : V) (m : List (K × V))
      → lookup a m ≡ some v
      → p (a, v) ≡ true
      → lookup a (keep p m) ≡ some v
  unfolding lookup
  lookup-keep-some p a v [] h q = cc
  lookup-keep-some p a v ((b, w) ∷ m) h q = ground (arith, k.same_iff b a, lookup-keep-some p a v m)

  pub length-delete-lt :
      (a : K) (m : List (K × V)) → has a m ≡ true → length (delete a m) + 1 ≤ length m
  unfolding lookup delete
  length-delete-lt a [] h = cc
  length-delete-lt a ((b, v) ∷ m) h = ground (arith, length-delete-le a m, length-delete-lt a m)
