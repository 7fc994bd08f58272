-- ===== src/Tests/Instances.antt =====
-- Concrete channels, levels and floats for the interfaces of the cache.
use tracing_console.Base.{
  ℕ, zero, suc, ◌+◌, ◌%◌, ◌≤◌, ◌≡◌, ◌↔◌, refl, sym, ap, ◌∙◌, min, max, Bool, true, false, List,
  ◌++◌, Option, none, some, if◌then◌else◌, ltb, leb, ◌==◌, ==_iff, arith, length,
}
use tracing_console.Cache.Driver.{Channel, SendResult}
use tracing_console.Cache.Predicate.{Tracing, Floats}

-- A mailbox with a limit; `alive` is false when the receiver is gone.
pub record Mailbox (A : Type 0) : Type 0 where
  pub log : List A
  pub limit : ℕ
  pub alive : Bool

module _ {A : Type 0} where
  abbrev pub deliver : Mailbox A → List A → SendResult × Mailbox A
  deliver m batch =
      if m.alive
      then (if leb (length m.log + length batch) m.limit
          then (SendResult.sent, record m { log = m.log ++ batch })
          else (SendResult.full, m))
      else (SendResult.closed, m)

  pub deliver-sent :
      (m : Mailbox A) (batch : List A)
      → (deliver m batch).0 ≡ SendResult.sent
      → (deliver m batch).1.log ≡ m.log ++ batch
  deliver-sent m batch e = ground arith

  pub deliver-full :
      (m : Mailbox A) (batch : List A)
      → (deliver m batch).0 ≡ SendResult.full
      → (deliver m batch).1.log ≡ m.log
  deliver-full m batch e = ground arith

  abbrev pub mailboxes : Channel A
  mailboxes = record {
    Sender = Mailbox A;
    delivered = λ m. m.log;
    send_many = deliver;
    sent_delivers = deliver-sent;
    full_keeps = deliver-full;
  }

pub data Filter : Type 0 where
  off error warn info debug trace : Filter

abbrev pub rank : Filter → ℕ
rank Filter.off = 0
rank Filter.error = 1
rank Filter.warn = 2
rank Filter.info = 3
rank Filter.debug = 4
rank Filter.trace = 5

abbrev pub of_rank : ℕ → Filter
of_rank zero = Filter.off
of_rank (suc zero) = Filter.error
of_rank (suc (suc zero)) = Filter.warn
of_rank (suc (suc (suc zero))) = Filter.info
of_rank (suc (suc (suc (suc zero)))) = Filter.debug
of_rank _ = Filter.trace

of_rank-rank : (f : Filter) → of_rank (rank f) ≡ f
of_rank-rank Filter.off = refl
of_rank-rank Filter.error = refl
of_rank-rank Filter.warn = refl
of_rank-rank Filter.info = refl
of_rank-rank Filter.debug = refl
of_rank-rank Filter.trace = refl

pub rank_injective : (a b : Filter) → rank a ≡ rank b → a ≡ b
rank_injective a b e = sym (of_rank-rank a) ∙ ap of_rank e ∙ of_rank-rank b

pub rank_bound : (f : Filter) → rank f ≤ 5
rank_bound Filter.off = omega arith
rank_bound Filter.error = omega arith
rank_bound Filter.warn = omega arith
rank_bound Filter.info = omega arith
rank_bound Filter.debug = omega arith
rank_bound Filter.trace = omega arith

abbrev pub same_filter : Filter → Filter → Bool
same_filter a b = rank a == rank b

pub same_filter_iff : (a b : Filter) → (same_filter a b ≡ true) ↔ (a ≡ b)
same_filter_iff a b = (
  λ e. rank_injective a b ((==_iff (rank a) (rank b)).0 e),
  λ e. (==_iff (rank a) (rank b)).1 (ap rank e),
)

abbrev pub filter_of : ℕ → Filter
filter_of zero = Filter.error
filter_of (suc zero) = Filter.warn
filter_of (suc (suc zero)) = Filter.info
filter_of (suc (suc (suc zero))) = Filter.debug
filter_of _ = Filter.trace

pub filter_of_above : (l : ℕ) → 1 ≤ rank (filter_of l)
filter_of_above zero = omega arith
filter_of_above (suc zero) = omega arith
filter_of_above (suc (suc zero)) = omega arith
filter_of_above (suc (suc (suc zero))) = omega arith
filter_of_above (suc (suc (suc (suc l)))) = omega arith

-- The five levels, by their place among the filters less one.
abbrev pub levels : Tracing
levels = record {
  Level = ℕ;
  LevelFilter = Filter;
  off = Filter.off;
  error = Filter.error;
  warn = Filter.warn;
  info = Filter.info;
  debug = Filter.debug;
  trace = Filter.trace;
  eq = record { beq = same_filter; beq_iff = same_filter_iff };
  le = λ a b. leb (rank a) (rank b);
  from_level = filter_of;
  rank = rank;
  rank_injective = rank_injective;
  rank_bound = rank_bound;
  ranks = (refl, refl, refl, refl, refl, refl);
  le_rank = λ a b. refl;
  level_above_off = filter_of_above;
}

-- Whole percentages; `none` is NaN.
abbrev pub at_most : Option ℕ → Option ℕ → Bool
at_most (some a) (some b) = leb a b
at_most _ _ = false

abbrev pub less : Option ℕ → Option ℕ → Bool
less (some a) (some b) = ltb a b
less _ _ = false

abbrev pub clamped : Option ℕ → Option ℕ → Option ℕ → Option ℕ
clamped (some x) (some a) (some b) = some (max a (min x b))
clamped x a b = x

abbrev pub code : Option ℕ → ℕ
code none = 0
code (some x) = suc x

abbrev pub decode : ℕ → Option ℕ
decode zero = none
decode (suc x) = some x

abbrev pub nan : Option ℕ → Bool
nan none = true
nan (some x) = false

pub decode-code : (x : Option ℕ) → decode (code x) ≡ x
decode-code none = refl
decode-code (some x) = refl

pub clamped_bounds :
    (x : Option ℕ)
    → nan x ≡ false
    → (at_most (some 0) (clamped x (some 0) (some 100)) ≡ true)
      × (at_most (clamped x (some 0) (some 100)) (some 100) ≡ true)
clamped_bounds none e = cc
clamped_bounds (some x) e = (ground arith, ground arith)

pub clamped_inside :
    (x : Option ℕ)
    → at_most (some 0) x ≡ true
    → at_most x (some 100) ≡ true
    → clamped x (some 0) (some 100) ≡ x
clamped_inside none e h = cc
clamped_inside (some x) e h = ap some (ground arith)

abbrev pub percents : Floats
percents = record {
  F64 = Option ℕ;
  lowest = some 0;
  hundred = some 100;
  is_nan = nan;
  clamp = clamped;
  le = at_most;
  lt = less;
  to_bits = code;
  from_bits = decode;
  roll_of = λ n. some (n % 100);
  from_bits-to_bits = decode-code;
  clamp_ge = λ x e. (clamped_bounds x e).0;
  clamp_le = λ x e. (clamped_bounds x e).1;
  clamp_inside = clamped_inside;
  lowest_le = (refl, refl);
  hundred_top = (refl, refl, refl, refl);
}
