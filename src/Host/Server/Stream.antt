-- ===== src/Host/Server/Stream.antt =====
-- `span_stream` of tracing-console-host/src/server.rs: the responses of one stream, for what its
-- `select!` is given in turn. A batch comes with the connection's state at that moment.
use tracing_console.Base.{
  ℕ, ◌≡◌, refl, ap, Bool, true, false, if◌then◌else◌, Bool-cases, inl, inr, List, [], ◌∷◌, ◌++◌,
  map, Option, none, some,
}
use tracing_console.Base.Lists.{keep}
use tracing_console.Cache.Record.{SpanRecord}
use tracing_console.Host.Level.{WireLevelFilter}
use tracing_console.Host.Message.{ResponseBody, Response}
use tracing_console.Host.Message.Responses.{span, cache_level, cache_chance, server_info, with_id}
use tracing_console.Host.Wire.{Metadata, TimeBase, span_to_wire}
use tracing_console.Host.Server.{Platform, StreamState}
use tracing_console.Host.Server.Sampling.{passes}

map-append {ℓ κ} :
    {A : Type ℓ} {B : Type κ} (f : A → B) (xs ys : List A) → map f (xs ++ ys) ≡ map f xs ++ map f ys
map-append f [] ys = refl
map-append f (x ∷ xs) ys = ap (◌∷◌ (f x)) (map-append f xs ys)

module _ (p : Platform) where
  -- What a branch of the `select!` completes with. `watch_closed` is `changed.is_err()`; a batch of
  -- `none` is the end of the span channel.
  pub data Wakeup : Type 0 where
    level_changed : WireLevelFilter → Wakeup
    chance_changed : p.floats.F64 → Wakeup
    watch_closed : Wakeup
    next_batch : Option (List (SpanRecord (Metadata p.tracing))) → StreamState p.floats.F64 → Wakeup

  -- The loop over one batch.
  unfoldable pub send_batch :
      TimeBase
      → ℕ
      → StreamState p.floats.F64
      → List (SpanRecord (Metadata p.tracing))
      → List (Response p.floats.F64)
  unfolding span with_id span_to_wire
  send_batch base request_id s [] = []
  send_batch base request_id s (r ∷ batch) =
      let rest = send_batch base request_id s batch in
      if passes p s r
      then with_id request_id (span p.codes (span_to_wire p.levels p.unfilled base r)) ∷ rest
      else rest

  -- The `loop`, until a channel closes.
  unfoldable pub stream_loop : TimeBase → ℕ → List Wakeup → List (Response p.floats.F64)
  unfolding cache_level cache_chance with_id
  stream_loop base request_id [] = []
  stream_loop base request_id (level_changed lvl ∷ wakeups) =
      with_id request_id (cache_level p.codes lvl) ∷ stream_loop base request_id wakeups
  stream_loop base request_id (chance_changed pct ∷ wakeups) =
      with_id request_id (cache_chance p.codes pct) ∷ stream_loop base request_id wakeups
  stream_loop base request_id (watch_closed ∷ wakeups) = []
  stream_loop base request_id (next_batch none s ∷ wakeups) = []
  stream_loop base request_id (next_batch (some batch) s ∷ wakeups) =
      let rest = stream_loop base request_id wakeups in
      if s.streaming then send_batch base request_id s batch ++ rest else rest

  unfoldable pub span_stream :
      TimeBase → WireLevelFilter → p.floats.F64 → ℕ → List Wakeup → List (Response p.floats.F64)
  unfolding server_info cache_level cache_chance with_id
  span_stream base initial_level initial_chance request_id wakeups =
      with_id request_id (server_info p.codes p.version)
      ∷ with_id request_id (cache_level p.codes initial_level)
      ∷ with_id request_id (cache_chance p.codes initial_chance)
      ∷ stream_loop base request_id wakeups

  -- What one wakeup is worth to the client.
  abbrev pub news_of : TimeBase → Wakeup → List (ResponseBody p.floats.F64)
  news_of base (level_changed lvl) = ResponseBody.cache_level lvl ∷ []
  news_of base (chance_changed pct) = ResponseBody.cache_chance pct ∷ []
  news_of base watch_closed = []
  news_of base (next_batch none s) = []
  news_of base (next_batch (some batch) s) =
      if s.streaming
      then map (λ r. ResponseBody.span (span_to_wire p.levels p.unfilled base r))
          (keep (passes p s) batch)
      else []

  abbrev pub closes : Wakeup → Bool
  closes watch_closed = true
  closes (next_batch none s) = true
  closes _ = false

  -- The wakeups before the first that closes the stream, each with its news.
  abbrev pub news : TimeBase → List Wakeup → List (ResponseBody p.floats.F64)
  news base [] = []
  news base (w ∷ wakeups) = if closes w then [] else news_of base w ++ news base wakeups

  -- A response is of one body under the request's id, as a normal frame.
  abbrev pub frame : ℕ → ResponseBody p.floats.F64 → Response p.floats.F64
  frame request_id body = record { id = request_id; control = p.codes.normal; body = body }

  send_batch-keep :
      (base : TimeBase) (id : ℕ) (s : StreamState p.floats.F64)
      (batch : List (SpanRecord (Metadata p.tracing)))
      → send_batch base id s batch
        ≡ map (frame id) (
            map
              (λ r. ResponseBody.span (span_to_wire p.levels p.unfilled base r))
              (keep (passes p s) batch))
  unfolding send_batch
  send_batch-keep base id s [] = refl
  send_batch-keep base id s (r ∷ batch) = elim (Bool-cases (passes p s r)) [
    | inl e ↦ rw (e, send_batch-keep base id s batch) refl
    | inr e ↦ rw (e, send_batch-keep base id s batch) refl
  ]

  -- A batch that is sent only if a test holds.
  gated :
      (id : ℕ) (b : Bool) (sent : List (Response p.floats.F64))
      (bodies : List (ResponseBody p.floats.F64)) (rest : List (Response p.floats.F64))
      (later : List (ResponseBody p.floats.F64))
      → sent ≡ map (frame id) bodies
      → rest ≡ map (frame id) later
      → (if b then sent ++ rest else rest) ≡ map (frame id) ((if b then bodies else []) ++ later)
  gated id true sent bodies rest later e f = rw (e, f, map-append (frame id) bodies later) refl
  gated id false sent bodies rest later e f = f

  stream_loop-news :
      (base : TimeBase) (id : ℕ) (wakeups : List Wakeup)
      → stream_loop base id wakeups ≡ map (frame id) (news base wakeups)
  unfolding stream_loop
  stream_loop-news base id [] = refl
  stream_loop-news base id (level_changed lvl ∷ ws) =
      ap (◌∷◌ (frame id (ResponseBody.cache_level lvl))) (stream_loop-news base id ws)
  stream_loop-news base id (chance_changed pct ∷ ws) =
      ap (◌∷◌ (frame id (ResponseBody.cache_chance pct))) (stream_loop-news base id ws)
  stream_loop-news base id (watch_closed ∷ ws) = refl
  stream_loop-news base id (next_batch none s ∷ ws) = refl
  stream_loop-news base id (next_batch (some batch) s ∷ ws) =
      gated id s.streaming (send_batch base id s batch)
        (map (λ r. ResponseBody.span (span_to_wire p.levels p.unfilled base r))
          (keep (passes p s) batch))
        (stream_loop base id ws) (news base ws) (send_batch-keep base id s batch)
        (stream_loop-news base id ws)

  -- The responses of a stream, all normal frames under the request's id: the version, the level and
  -- the chance at its start, and then, up to the first wakeup that closes it, in order, each change of
  -- level and chance and the wire form of each span of a batch that passes the connection's filter at
  -- that moment, the spans of a batch that finds streaming stopped being discarded.
  pub span_stream-news :
      (base : TimeBase) (lvl : WireLevelFilter) (pct : p.floats.F64) (id : ℕ)
      (wakeups : List Wakeup)
      → span_stream base lvl pct id wakeups
        ≡ map (frame id) (
            ResponseBody.server_info (record { version = p.version })
            ∷ ResponseBody.cache_level lvl
            ∷ ResponseBody.cache_chance pct
            ∷ news base wakeups)
  unfolding span_stream
  span_stream-news base lvl pct id wakeups =
      ap
        (λ rest.
          frame id (ResponseBody.server_info (record { version = p.version }))
          ∷ frame id (ResponseBody.cache_level lvl)
          ∷ frame id (ResponseBody.cache_chance pct)
          ∷ rest)
        (stream_loop-news base id wakeups)
