-- ===== src/Realtime/Poller.antt =====
-- internal/realtime/types.go and poller.go: fetch, decode, deliver, once and on a ticker.
pub mod Trace
pub mod Stages
use public_transport_tracker.Base.{
  is_empty, ℕ, Bool, true, false, Option, none, some, List, [], ◌∷◌, ◌++◌, String, if◌then◌else◌,
  ◌⊎◌, inl, inr,
}
use public_transport_tracker.Base.Int.{ℤ, pos, ltb_ℤ}
use public_transport_tracker.Vehicle.{RawUpdate, Time}
use public_transport_tracker.Realtime.{FeedDecoder}
use public_transport_tracker.Realtime.Fetcher.{Response, fetch, answer_of}

-- The error of a poll names the stage that failed.
pub data PollError : Type 0 where
  fetch_failed decode_failed : PollError

-- `S` is the state that the handler changes. The fetcher appears by its answers.
pub record Poller (F Bytes S : Type 0) : Type 0 where
  pub decoder : FeedDecoder F Bytes
  pub handler : List (RawUpdate F) → S → S

-- What the `select` of `Run` sees: a tick, with the time and the answer to the poll that follows, or
-- the end of the context.
pub data Signal (Bytes : Type 0) : Type 0 where
  tick : Time → Option Bytes → Signal Bytes
  done : Signal Bytes

-- Whether `time.NewTicker` returns.
abbrev pub starts_ticker : ℤ → Bool
starts_ticker interval = ltb_ℤ (pos 0) interval

module _ {F Bytes S : Type 0} (p : Poller F Bytes S) where
  open p use {decoder, handler}

  -- `answer` is what the fetcher returns, `none` on an error, and `now` the time of the poll.
  unfoldable pub poll_once : Time → Option Bytes → S → S × Option PollError
  poll_once now answer s = elim answer [
    | none ↦ (s, some fetch_failed)
    | some message ↦ elim (decoder.decode_vehicle_positions now message) [
      | none ↦ (s, some decode_failed)
      | some updates ↦ (if is_empty updates then s else handler updates s, none)
    ]
  ]

  -- A poll with the HTTP request of the fetcher.
  unfoldable pub poll_url : Bool → Option (Response Bytes) → Time → S → S × Option PollError
  unfolding poll_once fetch
  poll_url request response now s = poll_once now (answer_of (fetch request response)) s

  -- The loop of `Run` over the signals of its `select`. An error is logged, and the loop goes on.
  unfoldable pub run_loop : List (Signal Bytes) → S → S
  run_loop [] s = s
  run_loop (done ∷ signals) s = s
  run_loop (tick now answer ∷ signals) s = run_loop signals (poll_once now answer s).0

  -- The first poll is made at once.
  unfoldable pub run : Time → Option Bytes → List (Signal Bytes) → S → S
  run now answer signals s = run_loop signals (poll_once now answer s).0

  -- `Run` with its ticker: `time.NewTicker` panics on an interval that is not positive, which ends the
  -- process. `inr` is the state at the panic.
  unfoldable pub run_every : ℤ → Time → Option Bytes → List (Signal Bytes) → S → S ⊎ S
  unfolding run run_loop
  run_every interval now answer signals s =
      if starts_ticker interval
      then inl (run now answer signals s)
      else inr (poll_once now answer s).0
