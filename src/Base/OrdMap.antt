-- ===== src/Base/OrdMap.antt =====
-- Maps with `u64` keys, as lists sorted by key: `BTreeMap<u64, V>`, and `HashMap<u64, V>` where the
-- order is never read.
use Prim.Native.Nat.{ℕ, suc, ◌≤◌, ◌<◌}
use mathlib.Core.Path.{◌≡◌, refl}
use mathlib.Core.List.{List, [], ◌∷◌}
use mathlib.Core.Option.{Option, none, some}
use native.Mathlib.Omega.{arith}
use tracing_console.Base.Tests.{◌==◌, ltb, if◌then◌else◌}
use tracing_console.Base.Lists.{length}

module _ {ℓ} {V : Type ℓ} where
  unfoldable pub lookup : ℕ → List (ℕ × V) → Option V
  lookup k [] = none
  lookup k ((j, v) ∷ m) = if j == k then some v else lookup k m

  unfoldable pub insert : ℕ → V → List (ℕ × V) → List (ℕ × V)
  insert k v [] = (k, v) ∷ []
  insert k v ((j, w) ∷ m) =
      if j == k then (k, v) ∷ m else if ltb k j then (k, v) ∷ (j, w) ∷ m else (j, w) ∷ insert k v m

  unfoldable pub remove : ℕ → List (ℕ × V) → List (ℕ × V)
  remove k [] = []
  remove k ((j, v) ∷ m) = if j == k then remove k m else (j, v) ∷ remove k m

  -- Keys rise along the list and lie above the bound.
  abbrev pub Above : ℕ → List (ℕ × V) → Type 0
  Above n [] = Unit {0}
  Above n ((j, v) ∷ m) = (n ≤ j) × Above (suc j) m

  abbrev pub IsSorted : List (ℕ × V) → Type 0
  IsSorted m = Above 0 m

  pub lookup-insert :
      (put at : ℕ) (value : V) (entries : List (ℕ × V))
      → lookup at (insert put value entries) ≡ (if put == at then some value else lookup at entries)
  unfolding insert lookup
  lookup-insert put at value [] = refl
  lookup-insert put at value ((i, w) ∷ entries) = ground (arith, lookup-insert put at value entries)

  pub lookup-remove :
      (k j : ℕ) (m : List (ℕ × V)) → lookup j (remove k m) ≡ (if k == j then none else lookup j m)
  unfolding lookup remove
  lookup-remove k j [] = ground arith
  lookup-remove k j ((i, w) ∷ m) = ground (arith, lookup-remove k j m)

  pub Above-mono : (a b : ℕ) (m : List (ℕ × V)) → a ≤ b → Above b m → Above a m
  Above-mono a b [] h s = tt
  Above-mono a b ((j, v) ∷ m) h s = (omega arith, s.1)

  pub insert-Above :
      (n k : ℕ) (v : V) (m : List (ℕ × V)) → n ≤ k → Above n m → Above n (insert k v m)
  unfolding insert
  insert-Above n k v [] h s = ground arith
  insert-Above n k v ((j, w) ∷ m) h s =
      ground (arith, insert-Above (suc j) k v m, Above-mono (suc k) (suc j) m)

  pub remove-Above : (n k : ℕ) (m : List (ℕ × V)) → Above n m → Above n (remove k m)
  unfolding remove
  remove-Above n k [] s = tt
  remove-Above n k ((j, w) ∷ m) s =
      ground (arith, remove-Above (suc j) k m s.1, Above-mono n (suc j) (remove k m))

  pub lookup-below : (n k : ℕ) (m : List (ℕ × V)) → Above n m → k < n → lookup k m ≡ none
  unfolding lookup
  lookup-below n k [] s h = refl
  lookup-below n k ((j, w) ∷ m) s h = ground (arith, lookup-below (suc j) k m s.1)

  pub length-insert_absent :
      (k : ℕ) (v : V) (m : List (ℕ × V))
      → lookup k m ≡ none
      → length (insert k v m) ≡ suc (length m)
  unfolding lookup insert
  length-insert_absent k v [] h = refl
  length-insert_absent k v ((j, w) ∷ m) h = ground (arith, length-insert_absent k v m)

  pub length-insert_present :
      (k : ℕ) (v w : V) (n : ℕ) (m : List (ℕ × V))
      → Above n m
      → lookup k m ≡ some w
      → length (insert k v m) ≡ length m
  unfolding lookup insert
  length-insert_present k v w n [] s h = cc
  length-insert_present k v w n ((j, u) ∷ m) s h =
      ground (arith, length-insert_present k v w (suc j) m s.1, lookup-below (suc j) k m s.1)

  pub length-remove-le : (k : ℕ) (m : List (ℕ × V)) → length (remove k m) ≤ length m
  unfolding remove
  length-remove-le k [] = omega arith
  length-remove-le k ((j, w) ∷ m) = ground (arith, length-remove-le k m)

  pub remove_absent : (k : ℕ) (m : List (ℕ × V)) → lookup k m ≡ none → remove k m ≡ m
  unfolding lookup remove
  remove_absent k [] h = refl
  remove_absent k ((j, w) ∷ m) h = ground (arith, remove_absent k m)

  pub remove-insert_absent :
      (k : ℕ) (v : V) (m : List (ℕ × V)) → lookup k m ≡ none → remove k (insert k v m) ≡ m
  unfolding lookup insert remove
  remove-insert_absent k v [] h = ground arith
  remove-insert_absent k v ((j, w) ∷ m) h =
      ground (arith, remove-insert_absent k v m, remove_absent k m)

  pub insert-insert :
      (k : ℕ) (v w : V) (m : List (ℕ × V)) → insert k v (insert k w m) ≡ insert k v m
  unfolding insert
  insert-insert k v w [] = ground arith
  insert-insert k v w ((j, u) ∷ m) = ground (arith, insert-insert k v w m)

  pub insert_same :
      (n k : ℕ) (v : V) (m : List (ℕ × V)) → Above n m → lookup k m ≡ some v → insert k v m ≡ m
  unfolding lookup insert
  insert_same n k v [] s h = cc
  insert_same n k v ((j, u) ∷ m) s h =
      ground (arith, insert_same (suc j) k v m s.1, lookup-below (suc j) k m s.1)
