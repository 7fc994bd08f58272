-- ===== src/Tests/Slabs.antt =====
-- A slab that keeps its slots in a list and fills the first vacant one.
use tracing_console.Base.{
  ℕ, zero, suc, ◌≤◌, ◌<◌, ◌≡◌, refl, max, List, [], ◌∷◌, Option, none, some, if◌then◌else◌, ◌==◌,
  arith, length, ap,
}
use tracing_console.Cache.Slab.{Slab}

module _ {V : Type 0} where
  unfoldable pub filled : List (Option V) → ℕ
  filled [] = 0
  filled (none ∷ s) = filled s
  filled (some v ∷ s) = suc (filled s)

  unfoldable pub slot : List (Option V) → ℕ → Option V
  slot [] k = none
  slot (o ∷ s) zero = o
  slot (o ∷ s) (suc k) = slot s k

  unfoldable pub put : List (Option V) → V → ℕ × List (Option V)
  put [] v = (0, some v ∷ [])
  put (none ∷ s) v = (0, some v ∷ s)
  put (some w ∷ s) v = let (k, s') = put s v in (suc k, some w ∷ s')

  unfoldable pub write : List (Option V) → ℕ → Option V → List (Option V)
  write [] k o = []
  write (p ∷ s) zero o = o ∷ s
  write (p ∷ s) (suc k) o = p ∷ write s k o

  unfoldable pub take_out : List (Option V) → ℕ → Option (V × List (Option V))
  take_out s k = elim (slot s k) [ none ↦ none | some v ↦ some (v, write s k none) ]

  pub put_vacant : (s : List (Option V)) (v : V) → slot s (put s v).0 ≡ none
  unfolding slot put
  put_vacant [] v = refl
  put_vacant (none ∷ s) v = refl
  put_vacant (some w ∷ s) v = put_vacant s v

  pub slot-put :
      (s : List (Option V)) (v : V) (k : ℕ)
      → slot (put s v).1 k ≡ (if (put s v).0 == k then some v else slot s k)
  unfolding slot put
  slot-put [] v zero = refl
  slot-put [] v (suc k) = ground arith
  slot-put (none ∷ s) v zero = refl
  slot-put (none ∷ s) v (suc k) = ground arith
  slot-put (some w ∷ s) v zero = ground arith
  slot-put (some w ∷ s) v (suc k) = ground (arith, slot-put s v k)

  pub put_key :
      (s : List (Option V)) (v : V)
      → ((put s v).0 < max (length s) (suc (filled s)))
        × (length (put s v).1 ≤ max (length s) (suc (filled s)))
        × (filled (put s v).1 ≡ suc (filled s))
  unfolding put filled
  put_key [] v = ground arith
  put_key (none ∷ s) v = ground arith
  put_key (some w ∷ s) v = ground (arith, put_key s v)

  slot-write :
      (s : List (Option V)) (i k : ℕ) (o : Option V) (w : V)
      → slot s i ≡ some w
      → slot (write s i o) k ≡ (if i == k then o else slot s k)
  unfolding slot write
  slot-write [] i k o w e = cc
  slot-write (p ∷ s) zero zero o w e = refl
  slot-write (p ∷ s) zero (suc k) o w e = ground arith
  slot-write (p ∷ s) (suc i) zero o w e = ground arith
  slot-write (p ∷ s) (suc i) (suc k) o w e = ground (arith, slot-write s i k o w)

  length-write : (s : List (Option V)) (i : ℕ) (o : Option V) → length (write s i o) ≡ length s
  unfolding write
  length-write [] i o = refl
  length-write (p ∷ s) zero o = refl
  length-write (p ∷ s) (suc i) o = ap suc (length-write s i o)

  filled-vacate :
      (s : List (Option V)) (i : ℕ) (w : V)
      → slot s i ≡ some w
      → suc (filled (write s i none)) ≡ filled s
  unfolding slot write filled
  filled-vacate [] i w e = cc
  filled-vacate (none ∷ s) zero w e = cc
  filled-vacate (some v ∷ s) zero w e = refl
  filled-vacate (none ∷ s) (suc i) w e = filled-vacate s i w e
  filled-vacate (some v ∷ s) (suc i) w e = ap suc (filled-vacate s i w e)

  -- `update` of a vacant slot changes nothing.
  unfoldable pub rewrite : List (Option V) → ℕ → V → List (Option V)
  rewrite [] k v = []
  rewrite (none ∷ s) zero v = none ∷ s
  rewrite (some w ∷ s) zero v = some v ∷ s
  rewrite (o ∷ s) (suc k) v = o ∷ rewrite s k v

  pub slot-rewrite :
      (s : List (Option V)) (i : ℕ) (v w : V) (k : ℕ)
      → slot s i ≡ some w
      → slot (rewrite s i v) k ≡ (if i == k then some v else slot s k)
  unfolding slot rewrite
  slot-rewrite [] i v w k e = cc
  slot-rewrite (none ∷ s) zero v w k e = cc
  slot-rewrite (some u ∷ s) zero v w zero e = refl
  slot-rewrite (some u ∷ s) zero v w (suc k) e = ground arith
  slot-rewrite (none ∷ s) (suc i) v w zero e = ground arith
  slot-rewrite (some u ∷ s) (suc i) v w zero e = ground arith
  slot-rewrite (none ∷ s) (suc i) v w (suc k) e = ground (arith, slot-rewrite s i v w k)
  slot-rewrite (some u ∷ s) (suc i) v w (suc k) e = ground (arith, slot-rewrite s i v w k)

  pub rewrite_sizes :
      (s : List (Option V)) (i : ℕ) (v : V)
      → (filled (rewrite s i v) ≡ filled s) × (length (rewrite s i v) ≡ length s)
  unfolding rewrite filled
  rewrite_sizes [] i v = (refl, refl)
  rewrite_sizes (none ∷ s) zero v = (refl, refl)
  rewrite_sizes (some w ∷ s) zero v = (refl, refl)
  rewrite_sizes (none ∷ s) (suc i) v = ground (arith, rewrite_sizes s i v)
  rewrite_sizes (some w ∷ s) (suc i) v = ground (arith, rewrite_sizes s i v)

  take_out-some :
      (s : List (Option V)) (i : ℕ) (v : V) (s' : List (Option V))
      → take_out s i ≡ some (v, s')
      → (slot s i ≡ some v) × (s' ≡ write s i none)
  unfolding take_out
  take_out-some s i v s' e = ground arith

  pub slot-take_out :
      (s : List (Option V)) (i : ℕ) (v : V) (s' : List (Option V)) (k : ℕ)
      → take_out s i ≡ some (v, s')
      → slot s' k ≡ (if i == k then none else slot s k)
  slot-take_out s i v s' k e =
      let (here, shape) = take_out-some s i v s' e in rw shape (slot-write s i k none v here)

  pub take_out_sizes :
      (s : List (Option V)) (i : ℕ) (v : V) (s' : List (Option V))
      → take_out s i ≡ some (v, s')
      → (suc (filled s') ≡ filled s) × (length s' ≤ length s)
  take_out_sizes s i v s' e =
      let (here, shape) = take_out-some s i v s' e in
      rw shape (filled-vacate s i v here, omega (arith, length-write s i none))

  pub take_out_vacant : (s : List (Option V)) (i : ℕ) → slot s i ≡ none → take_out s i ≡ none
  unfolding take_out
  take_out_vacant s i e = ground arith

  pub take_out_filled :
      (s : List (Option V)) (i : ℕ) (v : V)
      → slot s i ≡ some v
      → take_out s i ≡ some (v, write s i none)
  unfolding take_out
  take_out_filled s i v e = ground arith

  pub slot-nil : (k : ℕ) → slot [] k ≡ none
  unfolding slot
  slot-nil k = refl

  pub filled_none : (s : List (Option V)) → length s ≡ 0 → filled s ≡ 0
  unfolding filled
  filled_none [] e = refl
  filled_none (o ∷ s) e = absurd (omega arith)

  abbrev pub list_slab : Slab V
  list_slab = record {
    Store = List (Option V);
    empty = [];
    len = filled;
    slots = length;
    get = slot;
    insert = put;
    update = rewrite;
    try_remove = take_out;
    len-empty = (filled_none [] refl, refl);
    get-empty = slot-nil;
    insert_vacant = put_vacant;
    get-insert = slot-put;
    insert_key = λ s v. (put_key s v).0;
    insert_slots = λ s v. (put_key s v).1;
    len-insert = λ s v. (put_key s v).2;
    get-update = slot-rewrite;
    len-update = rewrite_sizes;
    remove_vacant = take_out_vacant;
    remove_filled = λ s i v e. (write s i none, take_out_filled s i v e);
    get-remove = slot-take_out;
    len-remove = take_out_sizes;
  }
