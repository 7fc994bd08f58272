-- ===== src/Cache/Subscriber/ActualIds.antt =====
-- The ids that spans are known by, reserved a batch at a time by each thread: `allocate_actual_id` of
-- tracing-cache/src/cache.rs over any interleaving of any threads.
use Prim.Native.Nat.{bit_and}
use tracing_console.Base.{
  ℕ, ◌+◌, ◌-◌, ◌*◌, ◌/◌, ◌%◌, ◌≤◌, ◌<◌, ◌≡◌, ◌≢◌, refl, List, [], ◌∷◌, if◌then◌else◌, ◌==◌, arith,
  length, ◌⊎◌, Bool-cases, inl, inr,
}
use std.Path.{fun_ext}
use tracing_console.Base.Words.{u64_mod, pow2, bit_and_mask}
use tracing_console.Cache.Ids.{CacheConfig}
use tracing_console.Cache.Record.{SpanRecord}
use tracing_console.Cache.Driver.{Channel, EventMessage}
use tracing_console.Cache.Slab.{Slab}
use tracing_console.Cache.Subscriber.{
  SpanCache, State, Thread, new_thread, new_cache, allocate_actual_id, id_batch,
}

abbrev pub Occurs : ℕ → List ℕ → Type 0
Occurs i [] = ⊥
Occurs i (j ∷ ids) = (i ≡ j) ⊎ Occurs i ids

-- No id occurs twice.
abbrev pub Distinct : List ℕ → Type 0
Distinct [] = Unit {0}
Distinct (i ∷ ids) = ¬ Occurs i ids × Distinct ids

-- The high water mark, each thread's cursor and the ids that have been issued. A cursor at a multiple
-- of the batch holds no reservation; two reservations lie in different batches, below the mark.
record Reserved (high : ℕ) (cursor : ℕ → ℕ) (issued : List ℕ) : Type 0 where
  aligned : high % id_batch ≡ 0
  started : id_batch ≤ high
  below : (t : ℕ) → cursor t % id_batch ≢ 0 → (cursor t < high) × (id_batch ≤ cursor t)
  apart :
      (t u : ℕ)
      → t ≢ u
      → cursor t % id_batch ≢ 0
      → cursor u % id_batch ≢ 0
      → cursor t / id_batch ≢ cursor u / id_batch
  past : (i : ℕ) → Occurs i issued → (i < high) × (id_batch ≤ i)
  behind :
      (t i : ℕ)
      → cursor t % id_batch ≢ 0
      → Occurs i issued
      → i / id_batch ≡ cursor t / id_batch
      → i < cursor t

-- One thread's cursor replaced.
abbrev put : ℕ → ℕ → (ℕ → ℕ) → ℕ → ℕ
put t c cursor u = if u == t then c else cursor u

-- The next id of a reservation: the reservation moves past it.
within_reservation :
    (high t : ℕ) (cursor : ℕ → ℕ) (issued : List ℕ)
    → Reserved high cursor issued
    → cursor t % id_batch ≢ 0
    → Reserved high (put t (cursor t + 1) cursor) (cursor t ∷ issued)
within_reservation high t cursor issued v live = record {
  aligned = v.aligned;
  started = v.started;
  below = λ u h. ground (arith, v.below t live, v.below u, v.aligned, v.started);
  apart = λ u w ne h h'. ground (arith, v.apart u w ne, v.apart t w, v.apart u t);
  past = λ i h. ground (arith, v.below t live, v.past i);
  behind = λ u i h o e. ground (arith, v.behind u i, v.behind t i, v.apart t u, v.apart u t);
}

-- The first id of a new batch: it is the old mark.
new_reservation :
    (high t : ℕ) (cursor : ℕ → ℕ) (issued : List ℕ)
    → Reserved high cursor issued
    → Reserved (high + id_batch) (put t (high + 1) cursor) (high ∷ issued)
new_reservation high t cursor issued v = record {
  aligned = omega (arith, v.aligned);
  started = omega (arith, v.started);
  below = λ u h. ground (arith, v.below u, v.aligned, v.started);
  apart = λ u w ne h h'. ground (arith, v.apart u w ne, v.below u, v.below w, v.aligned);
  past = λ i h. ground (arith, v.past i, v.started);
  behind = λ u i h o e. ground (arith, v.behind u i, v.past i, v.below u, v.aligned);
}

-- The id that is issued next has not been issued before.
cursor_fresh :
    (high t : ℕ) (cursor : ℕ → ℕ) (issued : List ℕ)
    → Reserved high cursor issued
    → cursor t % id_batch ≢ 0
    → ¬ Occurs (cursor t) issued
cursor_fresh high t cursor issued v live o = omega (arith, v.behind t (cursor t) live o refl)

high_fresh :
    (high : ℕ) (cursor : ℕ → ℕ) (issued : List ℕ)
    → Reserved high cursor issued
    → ¬ Occurs high issued
high_fresh high cursor issued v o = omega (arith, v.past high o)

cursor_mask : (c : ℕ) → bit_and c (id_batch - 1) ≡ c % id_batch
unfolding pow2
cursor_mask c = bit_and_mask 10 c

module _ {Meta : Type 0} (sl : Slab (SpanRecord Meta)) (cs : Channel (SpanRecord Meta))
    (ce : Channel (EventMessage Meta)) where
  -- The ids that a schedule of threads allocates, the newest first. A thread may come up at any time.
  abbrev pub issue : SpanCache sl cs ce → (ℕ → Thread Meta) → List ℕ → List ℕ → List ℕ
  issue c threads [] ids = ids
  issue c threads (t ∷ schedule) ids =
      let (id, s) = allocate_actual_id sl cs ce (record { cache = c; thread = threads t }) in
      issue s.cache (λ u. if u == t then s.thread else threads u) schedule (id ∷ ids)

  abbrev cursors : (ℕ → Thread Meta) → ℕ → ℕ
  cursors threads t = (threads t).id_cursor

  allocate_fresh :
      (s : State sl cs ce)
      → (s.thread.id_cursor % id_batch) ≡ 0
      → s.cache.id_high_water + id_batch < u64_mod
      → allocate_actual_id sl cs ce s ≡ (
        s.cache.id_high_water,
        record {
          cache = record s.cache { id_high_water = s.cache.id_high_water + id_batch };
          thread = record s.thread { id_cursor = s.cache.id_high_water + 1 };
        },
      )
  unfolding allocate_actual_id
  allocate_fresh s e room = ground (arith, cursor_mask s.thread.id_cursor)

  allocate_reserved :
      (s : State sl cs ce)
      → (s.thread.id_cursor % id_batch) ≢ 0
      → allocate_actual_id sl cs ce s ≡ (
        s.thread.id_cursor,
        record s { thread = record s.thread { id_cursor = s.thread.id_cursor + 1 } },
      )
  unfolding allocate_actual_id
  allocate_reserved s ne = ground (arith, cursor_mask s.thread.id_cursor)

  -- One allocation issues a fresh id and keeps the reservations apart.
  allocated-Reserved :
      (t : ℕ) (c : SpanCache sl cs ce) (threads : ℕ → Thread Meta) (ids : List ℕ)
      → Reserved c.id_high_water (cursors threads) ids
      → c.id_high_water + id_batch < u64_mod
      → (let (id, s) = allocate_actual_id sl cs ce (record { cache = c; thread = threads t }) in
          Reserved s.cache.id_high_water (put t s.thread.id_cursor (cursors threads)) (id ∷ ids)
          × ¬ Occurs id ids
          × (s.cache.id_high_water ≤ c.id_high_water + id_batch))
  allocated-Reserved t c threads ids v room =
      elim (Bool-cases (((threads t).id_cursor % id_batch) == 0)) [
        | inl fresh ↦
            rw (allocate_fresh (record { cache = c; thread = threads t }) (ground arith) room) (
              new_reservation c.id_high_water t (cursors threads) ids v,
              high_fresh c.id_high_water (cursors threads) ids v,
              omega arith,
            )
        | inr live ↦
            let held : (threads t).id_cursor % id_batch ≢ 0 = ground arith in
            rw (allocate_reserved (record { cache = c; thread = threads t }) held) (
              within_reservation c.id_high_water t (cursors threads) ids v held,
              cursor_fresh c.id_high_water t (cursors threads) ids v held,
              omega arith,
            )
      ]

  cursors-put :
      (t : ℕ) (th : Thread Meta) (threads : ℕ → Thread Meta)
      → cursors (λ u. if u == t then th else threads u) ≡ put t th.id_cursor (cursors threads)
  cursors-put t th threads = fun_ext (λ u. ground arith)

  issue-Distinct :
      (schedule : List ℕ) (c : SpanCache sl cs ce) (threads : ℕ → Thread Meta) (ids : List ℕ)
      → Reserved c.id_high_water (cursors threads) ids
      → c.id_high_water + id_batch * length schedule < u64_mod
      → Distinct ids
      → Distinct (issue c threads schedule ids)
  issue-Distinct [] c threads ids v room d = d
  issue-Distinct (t ∷ schedule) c threads ids v room d =
      let r = allocate_actual_id sl cs ce (record { cache = c; thread = threads t }) in
      let (v', fresh, grown) = allocated-Reserved t c threads ids v (omega arith) in
      issue-Distinct schedule r.1.cache (λ u. if u == t then r.1.thread else threads u) (r.0 ∷ ids)
        (rw (cursors-put t r.1.thread threads) v') (omega arith) (fresh, d)

  fresh-Reserved : Reserved id_batch (cursors (λ t. new_thread)) []
  unfolding new_thread
  fresh-Reserved = record {
    aligned = omega arith;
    started = omega arith;
    below = λ t h. absurd (h (omega arith));
    apart = λ t u ne h h'. absurd (h (omega arith));
    past = λ i o. absurd o;
    behind = λ t i h o e. absurd o;
  }

  -- Whichever threads open spans, and in whichever order, no two of the ids that a new cache issues are
  -- equal, as long as the batches do not run past a `u64`.
  pub issued_ids-Distinct :
      (capacity : ℕ) (config : CacheConfig) (span_sender : cs.Sender) (event_sender : ce.Sender)
      (schedule : List ℕ)
      → id_batch * length schedule + id_batch < u64_mod
      → Distinct (
          issue
            (new_cache sl cs ce capacity config span_sender event_sender)
            (λ t. new_thread)
            schedule
            [])
  unfolding new_cache
  issued_ids-Distinct capacity config span_sender event_sender schedule room =
      issue-Distinct schedule (new_cache sl cs ce capacity config span_sender event_sender)
        (λ t. new_thread) [] fresh-Reserved (omega arith) tt
