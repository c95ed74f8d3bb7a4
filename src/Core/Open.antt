-- ===== src/Core/Open.antt =====
-- core/db.go: `Open`, with what it does to the pool. What `sql.Open` and the pings answer are
-- arguments.
use jorm.Base.{
  ℕ, ◌<◌, ◌≤◌, ◌≡◌, ◌≢◌, refl, Bool, true, false, String, Option, none, some, List, [], ◌∷◌, ◌++◌,
  ℤ, pos, negsuc, ltb, if◌then◌else◌,
}
use jorm.Dialect.{Dialect}
use jorm.Dialect.Registry.{Dialects, get}
use jorm.Core.Health.{Error, Db, opened}
use jorm.Core.Retry.{second, delays, connect, connect-delays}

pub record Options : Type 0 where
  pub max_open_conns : ℤ
  pub max_idle_conns : ℤ
  pub conn_max_lifetime : ℤ
  pub max_retries : ℤ
  pub retry_delay : ℤ

-- A call of a setter of the pool.
pub data Setting : Type 0 where
  set_max_open_conns : ℕ → Setting
  set_max_idle_conns : ℕ → Setting
  set_conn_max_lifetime : ℕ → Setting

-- `if n > 0`
unfoldable pub set_positive : (ℕ → Setting) → ℤ → List Setting
set_positive set (pos n) = if ltb 0 n then set n ∷ [] else []
set_positive set (negsuc n) = []

-- The calls of the setters, in their order.
unfoldable pub settings : Option Options → List Setting
unfolding set_positive
settings none = []
settings (some opts) =
    set_positive set_max_open_conns opts.max_open_conns
    ++ (set_positive set_max_idle_conns opts.max_idle_conns
        ++ set_positive set_conn_max_lifetime opts.conn_max_lifetime)

unfoldable pub retries_of : Option Options → ℤ
retries_of none = pos 0
retries_of (some opts) = opts.max_retries

unfoldable pub positive_or : ℕ → ℤ → ℕ
positive_or default (pos n) = if ltb 0 n then n else default
positive_or default (negsuc n) = default

unfoldable pub delay_of : Option Options → ℕ
unfolding positive_or
delay_of none = second
delay_of (some opts) = positive_or second opts.retry_delay

-- What `Open` returns.
pub data Result : Type 0 where
  unknown_dialect : String → Result
  not_opened : Error → Result
  ping_failed : ℤ → Error → Result
  connected : Dialect → Db → Result

-- A pool after `Open`: the calls of its setters, the sleeps between the pings, and whether it was
-- closed.
pub record Used : Type 0 where
  pub settings : List Setting
  pub sleeps : List ℕ
  pub closed : Bool

-- From `if pingErr != nil` on.
unfoldable pub finish : Dialect → Option Options → List ℕ × Option Error → Result × Option Used
unfolding settings retries_of
finish d opts (sleeps, none) = (
  connected d opened,
  some (record { settings = settings opts; sleeps = sleeps; closed = false }),
)
finish d opts (sleeps, some e) = (
  ping_failed (retries_of opts) e,
  some (record { settings = settings opts; sleeps = sleeps; closed = true }),
)

module _ (dialects : Dialects) (driver : String) (opts : Option Options) where
  -- `sql.Open` and what follows; its error is given, if there is one.
  unfoldable pub open_with :
      Option Error → (ℕ → Option Error) → Option Dialect → Result × Option Used
  unfolding finish retries_of delay_of connect
  open_with sql_open ping none = (unknown_dialect driver, none)
  open_with (some e) ping (some d) = (not_opened e, none)
  open_with none ping (some d) = finish d opts (connect ping (delay_of opts) (retries_of opts))

  unfoldable pub open_db : Option Error → (ℕ → Option Error) → Result × Option Used
  unfolding open_with get
  open_db sql_open ping = open_with sql_open ping (get driver dialects)

  -- `Open` for a driver with a dialect, if `sql.Open` returns no error and the number of retries is
  -- not negative: if one of the first `max_retries + 1` pings succeeds, it returns a healthy DB of the
  -- dialect after a sleep for each failure before, and the pool stays open; if they all fail, it
  -- returns the error of the last, and the pool is closed. The setters of the positive options were
  -- called in either case.
  pub open_db-connects :
      (d : Dialect) (ping : ℕ → Option Error) (max_retries : ℕ)
      → get driver dialects ≡ some d
      → retries_of opts ≡ pos max_retries
      → ((k : ℕ)
          → k ≤ max_retries
          → ((j : ℕ) → j < k → ping j ≢ none)
          → ping k ≡ none
          → open_db none ping ≡ (
            connected d opened,
            some (record {
              settings = settings opts;
              sleeps = delays (delay_of opts) 0 k;
              closed = false;
            }),
          ))
        × ((e : Error)
            → ((j : ℕ) → j ≤ max_retries → ping j ≢ none)
            → ping max_retries ≡ some e
            → open_db none ping ≡ (
              ping_failed (pos max_retries) e,
              some (record {
                settings = settings opts;
                sleeps = delays (delay_of opts) 0 max_retries;
                closed = true;
              }),
            ))
  unfolding open_db open_with finish
  open_db-connects d ping max_retries found retries =
      let (first, never) = connect-delays ping (delay_of opts) max_retries in
      (
        λ k h fails ok. rw (found, retries, first k h fails ok) refl,
        λ e fails last. rw (found, retries, never fails, last, retries) refl,
      )
