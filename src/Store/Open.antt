-- ===== src/Store/Open.antt =====
-- `New` and `Close` of internal/store/postgres.go: the pool of connections to the database.
use public_transport_tracker.Base.{ℕ, ◌+◌, ◌-◌, Bool, Option, none, some, if◌then◌else◌}

-- The database, and how many pools this process has opened and not closed.
pub record World (D : Type 0) : Type 0 where
  pub db : D
  pub pools : ℕ

pub data OpenError : Type 0 where
  open_failed ping_failed : OpenError

module _ {D : Type 0} where
  unfoldable pub close_store : World D → World D
  close_store w = record w { pools = w.pools - 1 }

  -- `opens` is whether `sql.Open` succeeds, which connects to nothing yet, and `pings` whether
  -- `PingContext` does.
  unfoldable pub new_store : (opens pings : Bool) → World D → World D × Option OpenError
  unfolding close_store
  new_store opens pings w =
      let opened : World D = record w { pools = w.pools + 1 } in
      if opens
      then (if pings then (opened, none) else (close_store opened, some ping_failed))
      else (w, some open_failed)
