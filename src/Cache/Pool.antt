-- ===== src/Cache/Pool.antt =====
-- tracing-cache/src/object_pool.rs. A shard is the stack of its boxes, the top first; `T::default`
-- and `reset` are arguments, and whether a `try_lock` succeeds is an input of each call.
pub mod Laws
use Prim.Native.Nat.{bit_and}
use tracing_console.Base.{
  ℕ, zero, suc, ◌-◌, max, Bool, true, false, List, [], ◌∷◌, Option, none, some, if◌then◌else◌, ltb,
  length, get_elem?, set, replicate,
}
use tracing_console.Base.Words.{pow2}
use tracing_console.Cache.Ids.{ceil_log2}

pub record Pool (T : Type 0) : Type 0 where
  pub items : List T
  pub capacity : ℕ

unfoldable pub new_pool : {T : Type 0} → ℕ → Pool T
new_pool capacity = record { items = []; capacity = capacity }

-- `Pool::try_take`: the box, and the shard after.
unfoldable pub try_take : {T : Type 0} → T → Bool → Pool T → T × Pool T
try_take default locked p =
    if locked
    then (elim p.items [ [] ↦ (default, p) | b ∷ rest ↦ (b, record p { items = rest }) ])
    else (default, p)

-- `Pool::try_return`.
unfoldable pub try_return : {T : Type 0} → Bool → T → Pool T → Pool T
try_return locked value p =
    if locked
    then (if ltb (length p.items) p.capacity then record p { items = value ∷ p.items } else p)
    else p

pub record ObjectPool (T : Type 0) : Type 0 where
  pub shards : List (Pool T)
  pub shard_mask : ℕ

-- `shard_count.max(1).next_power_of_two()`; the exponent of a `usize` is at most 64.
unfoldable pub shard_count_of : ℕ → ℕ
shard_count_of count = pow2 (ceil_log2 64 0 (max count 1))

unfoldable pub new : {T : Type 0} → ℕ → ℕ → ObjectPool T
new shard_count per_shard_capacity = record {
  shards = replicate (shard_count_of shard_count) (new_pool per_shard_capacity);
  shard_mask = shard_count_of shard_count - 1;
}

-- The shard of a thread's key.
unfoldable pub shard_of : {T : Type 0} → ObjectPool T → ℕ → ℕ
shard_of pool key = bit_and key pool.shard_mask

-- `acquire`: the box, its shard, and the pool after; `none` is an index out of bounds, a panic.
unfoldable pub acquire :
    {T : Type 0} → T → ℕ → Bool → ObjectPool T → Option ((T × ℕ) × ObjectPool T)
unfolding shard_of try_take
acquire default key locked pool = elim (get_elem? pool.shards (shard_of pool key)) [
  | none ↦ none
  | some shard ↦
      let (b, rest) = try_take default locked shard in
      some
        ((b, shard_of pool key), record pool { shards = set pool.shards (shard_of pool key) rest })
]

-- `ReuseRef::drop`: reset the value, and offer its box to the shard that it came from.
unfoldable pub drop_ref : {T : Type 0} → (T → T) → Bool → T × ℕ → ObjectPool T → ObjectPool T
unfolding try_return
drop_ref reset locked (value, shard) pool = elim (get_elem? pool.shards shard) [
  | none ↦ pool
  | some p ↦ record pool { shards = set pool.shards shard (try_return locked (reset value) p) }
]

-- `ReuseRef::clone`: a fresh box for the same shard.
unfoldable pub clone_ref : {T : Type 0} → T × ℕ → T × ℕ
clone_ref (value, shard) = (value, shard)
