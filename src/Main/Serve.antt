-- ===== src/Main/Serve.antt =====
-- The command `serve` of cmd/tracker/main.go: the interval between two polls, and how it ends.
use public_transport_tracker.Base.{
  string_eq, ℕ, ◌-◌, ◌≡◌, ◌⊎◌, ◌↔◌, ap, ◌∙◌, true, false, none, List, ◌∷◌, String, ◌==◌, arith,
}
use public_transport_tracker.Base.Int.{
  ℤ, pos, negsuc, ◌*ℤ◌, ◌≤ℤ◌, ltb_ℤ, max_int64, wrap_int64_fits,
}
use public_transport_tracker.Gtfs.{Tables}
use public_transport_tracker.Gtfs.Rows.{Conversions}
use public_transport_tracker.Gtfs.Shapes.{ShapePoint}
use public_transport_tracker.Store.Migrate.{migrate}
use public_transport_tracker.Store.Open.{World, new_store, close_store}
use public_transport_tracker.Realtime.Poller.{starts_ticker}
use public_transport_tracker.Flags.{parsed}
use public_transport_tracker.Main.{
  parse_serve, Host, ServeFlags, crashed, panics, interval_of, env_or, default_dsn, poller_panics,
  run_serve, main,
}

-- The greatest number of seconds whose nanoseconds fit into 64 bits, some 292 years.
abbrev pub max_seconds : ℕ
max_seconds = 9_223_372_036

seconds_fit :
    (s : ℤ)
    → negsuc (max_seconds - 1) ≤ℤ s
    → s ≤ℤ pos max_seconds
    → (negsuc max_int64 ≤ℤ s *ℤ pos 1_000_000_000)
      × (s *ℤ pos 1_000_000_000 ≤ℤ pos max_int64)
      × (ltb_ℤ (pos 0) (s *ℤ pos 1_000_000_000) ≡ ltb_ℤ (pos 0) s)
unfolding ◌*ℤ◌
seconds_fit (pos n) low high = ground arith
seconds_fit (negsuc n) low high = ground arith

-- An interval of up to 292 years, in either direction, is that many seconds without an overflow, and
-- the ticker of the poller starts exactly if it is positive.
pub interval_of_fits :
    (s : ℤ)
    → negsuc (max_seconds - 1) ≤ℤ s
    → s ≤ℤ pos max_seconds
    → (interval_of s ≡ s *ℤ pos 1_000_000_000) × (starts_ticker (interval_of s) ≡ ltb_ℤ (pos 0) s)
unfolding interval_of
interval_of_fits s low high =
    let (fits_low, fits_high, sign) = seconds_fit s low high in
    let exact = wrap_int64_fits (s *ℤ pos 1_000_000_000) fits_low fits_high in
    (exact, ap starts_ticker exact ∙ sign)

module _ {F : Type 0} (host : Host F) where
  -- The poller is started, its first poll is over in time, and its interval is not positive.
  abbrev pub Panics : ServeFlags → Type 0
  Panics flags =
      ((flags.feed_url == "") ≡ false)
      × (host.polled ≡ true)
      × (ltb_ℤ (pos 0) flags.poll_interval ≡ false)

  poller_panics-Panics :
      (flags : ServeFlags)
      → negsuc (max_seconds - 1) ≤ℤ flags.poll_interval
      → flags.poll_interval ≤ℤ pos max_seconds
      → (poller_panics host flags ≡ true) ↔ Panics flags
  unfolding poller_panics
  poller_panics-Panics flags low high =
      let sign = (interval_of_fits flags.poll_interval low high).1 in
      (λ e. ground (arith, sign), λ p. ground (arith, sign))

  -- The database answers, and the migration returns no error.
  abbrev pub IsReady : String → Tables F → Type 0
  IsReady dsn db =
      (host.opens dsn ≡ true)
      × (host.pings dsn ≡ true)
      × ((migrate host.exec host.migrations db).1 ≡ none)

  -- The three ends of `runServe`.
  run_serve-cases :
      (dsn : String) (flags : ServeFlags) (w : World (Tables F))
      → let (w', outcome) = run_serve host dsn flags w in
        ((outcome ≡ panics) ↔ (IsReady dsn w.db × (poller_panics host flags ≡ true)))
        × ((w'.db ≡ w.db) ⊎ (w'.db ≡ (migrate host.exec host.migrations w.db).0))
        × ((outcome ≡ panics) ⊎ (w'.pools ≡ w.pools))
  unfolding run_serve new_store close_store
  run_serve-cases dsn flags w = ((λ e. ground arith, λ e. ground arith), ground arith, ground arith)

  -- The command `serve`, with an interval of up to 292 years in either direction: the process
  -- crashes exactly if the database is ready, there is a feed, the first poll is over before serving
  -- ends, and the interval is not positive; in every other case it closes all pools of connections
  -- that it opens. The tables are as before, or as the scripts of the migration left them.
  pub main-serve :
      (conv : Conversions F) (sort : List (ShapePoint F) → List (ShapePoint F)) (args : List String)
      (flags : ServeFlags) (w : World (Tables F))
      → parse_serve host args ≡ parsed flags
      → negsuc (max_seconds - 1) ≤ℤ flags.poll_interval
      → flags.poll_interval ≤ℤ pos max_seconds
      → let (w', status) = main host conv sort ("serve" ∷ args) w in
        ((status ≡ crashed)
          ↔ (IsReady (env_or host "DATABASE_URL" default_dsn) w.db × Panics flags))
        × ((w'.db ≡ w.db) ⊎ (w'.db ≡ (migrate host.exec host.migrations w.db).0))
        × ((status ≡ crashed) ⊎ (w'.pools ≡ w.pools))
  unfolding main
  main-serve conv sort args flags w parses low high =
      let dsn = env_or host "DATABASE_URL" default_dsn in
      let (crash, tables, pools) = run_serve-cases dsn flags w in
      let why = poller_panics-Panics flags low high in
      rw parses (
        (λ e. ground (arith, crash.0, why.0), λ e. ground (arith, crash.1, why.1)),
        ground arith,
        ground arith,
      )
