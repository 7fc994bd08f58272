-- ===== src/Cache/Pool/Laws.antt =====
-- What tracing-cache/src/object_pool.rs promises: bounded shards that hold reset boxes only, and an
-- acquire that never fails.
use Prim.Native.Nat.{bit_and}
use native.Mathlib.Nat.{mod-lt}
use tracing_console.Base.{
  ℕ, ◌-◌, ◌≤◌, ◌<◌, ◌≡◌, refl, max, Bool, true, ◌∷◌, some, length, get_elem?, set, All, All-set,
  All-get_elem?, All-replicate, length-set, length-replicate, get_elem?_of_lt, get_elem?-set_self,
  arith, set-set, set_same, lt_of_get_elem?, ◌∙◌, Option-cases, inl, inr,
}
use tracing_console.Base.Words.{pow2, pow2-pos, bit_and_mask}
use tracing_console.Cache.Ids.{ceil_log2}
use tracing_console.Cache.Pool.{
  Pool, new_pool, try_take, try_return, ObjectPool, shard_count_of, new, shard_of, acquire,
  drop_ref,
}

module _ {T : Type 0} (IsReset : T → Type 0) (cap : ℕ) where
  -- A shard keeps to its capacity, and its boxes are reset.
  pub record IsShard (p : Pool T) : Type 0 where
    pub bounded : length p.items ≤ p.capacity
    pub capped : p.capacity ≡ cap
    pub ready : All IsReset p.items

  pub record IsPool (pool : ObjectPool T) : Type 0 where
    pub shards_ok : All IsShard pool.shards
    pub bits : ℕ
    pub masked : pool.shard_mask ≡ pow2 bits - 1
    pub sized : length pool.shards ≡ pow2 bits

  try_take-IsShard :
      (default : T) (locked : Bool) (p : Pool T)
      → IsReset default
      → IsShard p
      → IsReset (try_take default locked p).0 × IsShard (try_take default locked p).1
  unfolding try_take
  try_take-IsShard default locked p d h = ground arith

  try_return-IsShard :
      (locked : Bool) (value : T) (p : Pool T)
      → IsReset value
      → IsShard p
      → IsShard (try_return locked value p)
  unfolding try_return
  try_return-IsShard locked value p d h = ground arith

  -- A fresh pool holds nothing, and has a power of two of shards.
  pub new-IsPool : (shard_count : ℕ) → IsPool (new shard_count cap)
  unfolding new new_pool shard_count_of
  new-IsPool shard_count = record {
    shards_ok =
        All-replicate IsShard _ _ (record { bounded = omega arith; capped = refl; ready = tt });
    bits = ceil_log2 64 0 (max shard_count 1);
    masked = refl;
    sized = length-replicate _ _;
  }

  -- The mask keeps each key inside the shards.
  shard_of-lt :
      (pool : ObjectPool T) (key : ℕ) → IsPool pool → shard_of pool key < length pool.shards
  unfolding shard_of
  shard_of-lt pool key v =
      rw (v.masked, v.sized, bit_and_mask v.bits key) (mod-lt key (pow2-pos v.bits))

  put-IsPool :
      (pool : ObjectPool T) (i : ℕ) (p : Pool T)
      → IsPool pool
      → IsShard p
      → IsPool (record pool { shards = set pool.shards i p })
  put-IsPool pool i p v h = record {
    shards_ok = All-set IsShard pool.shards i p v.shards_ok h;
    bits = v.bits;
    masked = v.masked;
    sized = length-set pool.shards i p ∙ v.sized;
  }

  -- Acquiring never fails: whatever the key and whether or not the shard's lock is free, it gives a
  -- reset box of the key's shard, and the pool stays well formed.
  pub acquire-IsPool :
      (default : T) (key : ℕ) (locked : Bool) (pool : ObjectPool T)
      → IsReset default
      → IsPool pool
      → (b : T) × (pool' : ObjectPool T) × (acquire default key locked pool
          ≡ some ((b, shard_of pool key), pool'))
        × IsReset b
        × IsPool pool'
        × (shard_of pool key < length pool'.shards)
  unfolding acquire
  acquire-IsPool default key locked pool d v =
      let (p, found) = get_elem?_of_lt pool.shards (shard_of pool key) (shard_of-lt pool key v) in
      let (b_ok, rest_ok) =
        try_take-IsShard default locked p d
          (All-get_elem? IsShard pool.shards _ p v.shards_ok found) in
      (
        (try_take default locked p).0,
        record pool { shards = set pool.shards (shard_of pool key) (try_take default locked p).1 },
        rw (found, acquire),
        b_ok,
        put-IsPool pool (shard_of pool key) _ v rest_ok,
        rw (length-set pool.shards (shard_of pool key) (try_take default locked p).1)
            (shard_of-lt pool key v),
      )

  -- Dropping a reference keeps the pool well formed: the box is reset before it is offered, and a
  -- full or contended shard refuses it.
  pub drop_ref-IsPool :
      (reset : T → T) (locked : Bool) (value : T) (shard : ℕ) (pool : ObjectPool T)
      → ((t : T) → IsReset (reset t))
      → IsPool pool
      → IsPool (drop_ref reset locked (value, shard) pool)
  unfolding drop_ref
  drop_ref-IsPool reset locked value shard pool r v =
      elim (Option-cases (get_elem? pool.shards shard)) [
        | inl e ↦ rw (e, drop_ref) v
        | inr (p, e) ↦
            rw (e, drop_ref)
              (put-IsPool pool shard _ v (
                try_return-IsShard locked (reset value) p (r value)
                  (All-get_elem? IsShard pool.shards shard p v.shards_ok e)))
      ]

-- With its lock free and room left, a shard takes the box of a dropped reference, and the next
-- acquire on that shard hands the same box out again, reset, and restores the shard.
pub acquire-drop_ref :
    {T : Type 0} (default : T) (reset : T → T) (value : T) (key : ℕ) (pool : ObjectPool T)
    (p : Pool T)
    → get_elem? pool.shards (shard_of pool key) ≡ some p
    → length p.items < p.capacity
    → acquire default key true (drop_ref reset true (value, shard_of pool key) pool)
      ≡ some ((reset value, shard_of pool key), pool)
unfolding acquire drop_ref try_take try_return shard_of
acquire-drop_ref default reset value key pool p found room =
    let i = bit_and key pool.shard_mask in
    ground (
      arith,
      lt_of_get_elem? pool.shards i p found,
      get_elem?-set_self pool.shards i (record p { items = reset value ∷ p.items }),
      set-set pool.shards i (record p { items = reset value ∷ p.items }) p,
      set_same pool.shards i p found,
    )
