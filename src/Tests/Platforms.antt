-- ===== src/Tests/Platforms.antt =====
-- A concrete platform for the server: levels, watch channels of a value and a number of receivers,
-- floats in quarters, and control codes.
use tracing_console.Base.{
  ℕ, zero, suc, ◌+◌, ◌-◌, ◌%◌, ◌≤◌, ◌≡◌, ◌≢◌, ◌↔◌, refl, sym, ap, ◌∙◌, Bool, true, none, some, [],
  ◌∷◌, leb, arith,
}
use tracing_console.Base.Text.{show_nat}
use tracing_console.Cache.Predicate.{Tracing}
use tracing_console.Host.Protocol.{WireLevel}
use tracing_console.Host.Level.{Levels}
use tracing_console.Host.Server.{Watch, Rates, Platform}
use tracing_console.Tests.Instances.{
  Filter, rank, same_filter, same_filter_iff, rank_injective, rank_bound, percents,
}

abbrev pub filter_at : WireLevel → Filter
filter_at WireLevel.error = Filter.error
filter_at WireLevel.warn = Filter.warn
filter_at WireLevel.info = Filter.info
filter_at WireLevel.debug = Filter.debug
filter_at WireLevel.trace = Filter.trace

abbrev pub level_at : Filter → WireLevel
level_at Filter.off = WireLevel.error
level_at Filter.error = WireLevel.error
level_at Filter.warn = WireLevel.warn
level_at Filter.info = WireLevel.info
level_at Filter.debug = WireLevel.debug
level_at Filter.trace = WireLevel.trace

level_at-filter_at : (l : WireLevel) → level_at (filter_at l) ≡ l
level_at-filter_at WireLevel.error = refl
level_at-filter_at WireLevel.warn = refl
level_at-filter_at WireLevel.info = refl
level_at-filter_at WireLevel.debug = refl
level_at-filter_at WireLevel.trace = refl

pub filter_at_injective : (a b : WireLevel) → filter_at a ≡ filter_at b → a ≡ b
filter_at_injective a b e = sym (level_at-filter_at a) ∙ ap level_at e ∙ level_at-filter_at b

pub filter_at_above : (l : WireLevel) → 1 ≤ rank (filter_at l)
filter_at_above WireLevel.error = omega arith
filter_at_above WireLevel.warn = omega arith
filter_at_above WireLevel.info = omega arith
filter_at_above WireLevel.debug = omega arith
filter_at_above WireLevel.trace = omega arith

abbrev pub severities : Tracing
severities = record {
  Level = WireLevel;
  LevelFilter = Filter;
  off = Filter.off;
  error = Filter.error;
  warn = Filter.warn;
  info = Filter.info;
  debug = Filter.debug;
  trace = Filter.trace;
  eq = record { beq = same_filter; beq_iff = same_filter_iff };
  le = λ a b. leb (rank a) (rank b);
  from_level = filter_at;
  rank = rank;
  rank_injective = rank_injective;
  rank_bound = rank_bound;
  ranks = (refl, refl, refl, refl, refl, refl);
  le_rank = λ a b. refl;
  level_above_off = filter_at_above;
}

abbrev pub same_level : WireLevel → WireLevel → Bool
same_level a b = same_filter (filter_at a) (filter_at b)

pub same_level_iff : (a b : WireLevel) → (same_level a b ≡ true) ↔ (a ≡ b)
same_level_iff a b = (
  λ e. filter_at_injective a b ((same_filter_iff (filter_at a) (filter_at b)).0 e),
  λ e. (same_filter_iff (filter_at a) (filter_at b)).1 (ap filter_at e),
)

abbrev pub five_levels : Levels severities
five_levels = record {
  error = WireLevel.error;
  warn = WireLevel.warn;
  info = WireLevel.info;
  debug = WireLevel.debug;
  trace = WireLevel.trace;
  eq = record { beq = same_level; beq_iff = same_level_iff };
  le = λ a b. leb (rank (filter_at a)) (rank (filter_at b));
  from_level_injective = filter_at_injective;
  ranks = (refl, refl, refl, refl, refl);
  le_rank = λ a b. refl;
}

-- A channel is its value and the number of its receivers.
module _ {A : Type 0} where
  abbrev pub sent : A → A × ℕ → A × ℕ
  sent a (b, zero) = (b, zero)
  sent a (b, suc n) = (a, suc n)

  pub sent_receivers : (a : A) (s : A × ℕ) → (sent a s).1 ≡ s.1
  sent_receivers a (b, zero) = refl
  sent_receivers a (b, suc n) = refl

  pub sent_stores : (a : A) (s : A × ℕ) → s.1 ≢ 0 → (sent a s).0 ≡ a
  sent_stores a (b, zero) h = absurd (h refl)
  sent_stores a (b, suc n) h = refl

  pub sent_fails : (a : A) (s : A × ℕ) → s.1 ≡ 0 → (sent a s).0 ≡ s.0
  sent_fails a (b, zero) h = refl
  sent_fails a (b, suc n) h = absurd (omega arith)

abbrev pub counted_watch : (A : Type 0) → Watch A
counted_watch A = record {
  Sender = A × ℕ;
  value = λ s. s.0;
  receivers = λ s. s.1;
  channel = λ a. (a, 1);
  send = sent;
  subscribe = λ s. (s.0, s.1 + 1);
  drop_receiver = λ s. (s.0, s.1 - 1);
  channel_lem = λ a. (refl, refl);
  receivers-send = sent_receivers;
  send_stores = sent_stores;
  send_fails = sent_fails;
  subscribe_lem = λ s. (refl, refl);
  drop_receiver_lem = λ s. (refl, refl);
}

-- Whole numbers stand for the floats, so that 1.0 is the least positive rate.
abbrev pub whole_rates : Rates percents
whole_rates = record {
  one = some 1;
  frac_of = λ n. some (n % 2);
  show = λ x. elim x [ none ↦ [] | some n ↦ show_nat n ];
  one_top = (refl, refl);
  one_inside = (refl, refl);
}

abbrev pub platform : Platform
platform = record {
  tracing = severities;
  levels = five_levels;
  floats = percents;
  rates = whole_rates;
  level_watch = counted_watch _;
  chance_watch = counted_watch _;
  codes = record { normal = 0; cancel = 1; end_code = 2 };
  version = 49 ∷ [];
  unfilled = record {
    empty_metadata = record { name = []; target = []; level = WireLevel.trace };
    unfilled_instant = 7;
  };
}
