-- ===== src/Core/Transaction.antt =====
-- core/db.go: `Transaction`, which checks the health, begins, runs the caller's function, and
-- commits or rolls back in a deferred function.
use jorm.Base.{
  ℕ, suc, ◌-◌, ◌≡◌, refl, sym, ◌∙◌, ◌≢◌, false, Option, none, some, arith, if◌then◌else◌, String,
  ◌⧺◌, ap, Bool-cases, inl, inr,
}
use jorm.Core.Health.{Db, Error, check_health, report_error}

-- How the caller's function, or `Transaction` itself, ends.
pub data Ended : Type 0 where
  returns : Option Error → Ended
  panics : String → Ended

-- `database/sql` at one connection, on a world of the database: each call may fail.
pub record Driver (W : Type 0) : Type 0 where
  pub begin : W → Option Error × W
  pub commit : W → Option Error × W
  pub rollback : W → Option Error × W

-- `fmt.Errorf("…: %w", err)` keeps what `errors.Is` finds.
abbrev pub wrapped : String → Error → Error
wrapped prefix err = record err { message = prefix ⧺ err.message }

module _ {W : Type 0} (driver : Driver W) where
  -- The end of a commit.
  unfoldable pub committed : Db → Option Error × W → Ended × Db × W
  committed db (none, w) = (returns none, db, w)
  committed db (some e, w) = (returns (some (wrapped "failed to commit transaction: " e)), db, w)

  -- The deferred function; an error of the rollback is dropped.
  unfoldable pub deferred : Ended × Db × W → Ended × Db × W
  unfolding committed
  deferred (panics p, db, w) = (panics p, db, (driver.rollback w).1)
  deferred (returns (some err), db, w) = (returns (some err), db, (driver.rollback w).1)
  deferred (returns none, db, w) = committed db (driver.commit w)

  -- What follows `Begin`, which ends at the time given. The caller's function may use the `DB` too,
  -- and change its health.
  unfoldable pub begun : (Db → W → Ended × Db × W) → ℕ → Db → Option Error × W → Ended × Db × W
  unfolding report_error deferred
  begun fn later db (some e, w) = (
    returns (some (wrapped "failed to begin transaction: " e)),
    report_error later (some e) db,
    w,
  )
  begun fn later db (none, w) = deferred (fn (report_error later none db) w)

  -- `refused` is the error of `checkHealth`, at the time `now`.
  unfoldable pub transaction : Error → (Db → W → Ended × Db × W) → ℕ → ℕ → Db → W → Ended × Db × W
  unfolding check_health begun
  transaction refused fn now later db w =
      let rest = begun fn later db (driver.begin w) in
      if check_health now db then (returns (some refused), db, w) else rest

  -- What database/sql and the caller's function promise about a connection. `view w` is what is
  -- committed in `w`, and `open w` the number of transactions that were begun and not ended: a `Begin`
  -- opens one or fails, the function leaves it as it is and works inside of it, and a rollback as well
  -- as a commit ends it, even where they return an error. A rollback changes nothing that is committed;
  -- what a commit that fails has changed is left open.
  pub record Isolates {V : Type 0} (view : W → V) (open_txs : W → ℕ) (fn : Db → W → Ended × Db × W)
      : Type 0 where
    pub begin-view : (w : W) → view (driver.begin w).1 ≡ view w
    pub begin-opens :
        (w : W) → (driver.begin w).0 ≡ none → open_txs (driver.begin w).1 ≡ suc (open_txs w)
    pub begin-fails :
        (w : W) (e : Error) → (driver.begin w).0 ≡ some e → open_txs (driver.begin w).1 ≡ open_txs w
    pub fn-view : (db : Db) (w : W) → view (fn db w).2 ≡ view w
    pub fn-opens : (db : Db) (w : W) → open_txs (fn db w).2 ≡ open_txs w
    pub rollback-view : (w : W) → view (driver.rollback w).1 ≡ view w
    pub rollback-ends : (w : W) → open_txs (driver.rollback w).1 ≡ open_txs w - 1
    pub commit-ends : (w : W) → open_txs (driver.commit w).1 ≡ open_txs w - 1

  module _ {V : Type 0} (view : W → V) (open_txs : W → ℕ) (fn : Db → W → Ended × Db × W)
      (iso : Isolates view open_txs fn) where
    committed-ends : (db : Db) (c : Option Error × W) → (committed db c).2 ≡ c.1
    unfolding committed
    committed-ends db (none, w) = refl
    committed-ends db (some e, w) = refl

    committed-none :
        (db : Db) (c : Option Error × W) → c.0 ≡ none → (committed db c).0 ≡ returns none
    unfolding committed
    committed-none db (none, w) h = refl
    committed-none db (some e, w) h = ground arith

    deferred-ends : (end : Ended × Db × W) → open_txs (deferred end).2 ≡ open_txs end.2 - 1
    unfolding deferred
    deferred-ends (panics p, db, w) = iso.rollback-ends w
    deferred-ends (returns (some e), db, w) = iso.rollback-ends w
    deferred-ends (returns none, db, w) =
        ap open_txs (committed-ends db (driver.commit w)) ∙ iso.commit-ends w

    begun-ends :
        (later : ℕ) (db : Db) (w : W) (b : Option Error × W)
        → driver.begin w ≡ b
        → open_txs (begun fn later db b).2 ≡ open_txs w
    unfolding begun
    begun-ends later db w (some e, w') h =
        ap (λ x. open_txs x.1) (sym h) ∙ iso.begin-fails w e (ap (λ x. x.0) h)
    begun-ends later db w (none, w') h =
        let ended = deferred-ends (fn (report_error later none db) w') in
        let kept = iso.fn-opens (report_error later none db) w' in
        let opened = ap (λ x. open_txs x.1) (sym h) ∙ iso.begin-opens w (ap (λ x. x.0) h) in
        omega (arith, ended, kept, opened)

    pub transaction-ends :
        (refused : Error) (now later : ℕ) (db : Db) (w : W)
        → open_txs (transaction refused fn now later db w).2 ≡ open_txs w
    unfolding transaction
    transaction-ends refused now later db w = elim (Bool-cases (check_health now db)) [
      | inl refuses ↦ rw (refuses, transaction) refl
      | inr healthy ↦ rw (healthy, transaction) (begun-ends later db w (driver.begin w) refl)
    ]

    deferred-view :
        (end : Ended × Db × W)
        → (deferred end).0 ≢ returns none
        → (end.0 ≡ returns none → (driver.commit end.2).0 ≡ none)
        → view (deferred end).2 ≡ view end.2
    unfolding deferred
    deferred-view (panics p, db, w) h commits = iso.rollback-view w
    deferred-view (returns (some e), db, w) h commits = iso.rollback-view w
    deferred-view (returns none, db, w) h commits =
        absurd (h (committed-none db (driver.commit w) (commits refl)))

    begun-view :
        (later : ℕ) (db : Db) (b : Option Error × W)
        → let done = fn (report_error later none db) b.1 in
          (begun fn later db b).0 ≢ returns none
          → (done.0 ≡ returns none → (driver.commit done.2).0 ≡ none)
          → view (begun fn later db b).2 ≡ view b.1
    unfolding begun
    begun-view later db (some e, w) h commits = refl
    begun-view later db (none, w) h commits =
        deferred-view (fn (report_error later none db) w) h commits
        ∙ iso.fn-view (report_error later none db) w

    -- A transaction that does not return nil, because the database is cooling down, because it cannot
    -- begin, or because the function returns an error or panics, and not because its commit fails, leaves
    -- what is committed as it was and no transaction open, if the function works in the transaction
    -- alone.
    pub transaction-atomic :
        (refused : Error) (now later : ℕ) (db : Db) (w : W)
        → let done = fn (report_error later none db) (driver.begin w).1 in
          (transaction refused fn now later db w).0 ≢ returns none
          → (done.0 ≡ returns none → (driver.commit done.2).0 ≡ none)
          → (view (transaction refused fn now later db w).2 ≡ view w)
            × (open_txs (transaction refused fn now later db w).2 ≡ open_txs w)
    unfolding transaction
    transaction-atomic refused now later db w h commits = (
      elim (Bool-cases (check_health now db)) [
        | inl refuses ↦ rw (refuses, transaction) refl
        | inr healthy ↦
            rw (healthy, transaction)
              (begun-view later db (driver.begin w) (λ e. h (rw (healthy, transaction) e)) commits
                ∙ iso.begin-view w)
      ],
      transaction-ends refused now later db w,
    )

  committed-nil :
      (db : Db) (c : Option Error × W)
      → (committed db c).0 ≡ returns none
      → (c.0 ≡ none) × ((committed db c).2 ≡ c.1)
  unfolding committed
  committed-nil db (none, w) h = (refl, refl)
  committed-nil db (some e, w) h = ground arith

  deferred-nil :
      (end : Ended × Db × W)
      → (deferred end).0 ≡ returns none
      → (end.0 ≡ returns none)
        × ((driver.commit end.2).0 ≡ none)
        × ((deferred end).2 ≡ (driver.commit end.2).1)
  unfolding deferred
  deferred-nil (panics p, db, w) h = ground arith
  deferred-nil (returns (some e), db, w) h = ground arith
  deferred-nil (returns none, db, w) h =
      let (c, v) = committed-nil db (driver.commit w) h in (refl, c, v)

  -- What a transaction that returns nil has done, from the world `w` to the world `w'`; `db` is the
  -- `DB` as `fn` finds it.
  abbrev pub Commits : (Db → W → Ended × Db × W) → Db → W → W → Type 0
  Commits fn db w w' =
      let done = fn db (driver.begin w).1 in
      ((driver.begin w).0 ≡ none)
      × (done.0 ≡ returns none)
      × ((driver.commit done.2).0 ≡ none)
      × (w' ≡ (driver.commit done.2).1)

  begun-nil :
      (fn : Db → W → Ended × Db × W) (later : ℕ) (db : Db) (b : Option Error × W)
      → (begun fn later db b).0 ≡ returns none
      → let done = fn (report_error later none db) b.1 in
        (b.0 ≡ none)
        × (done.0 ≡ returns none)
        × ((driver.commit done.2).0 ≡ none)
        × ((begun fn later db b).2 ≡ (driver.commit done.2).1)
  unfolding begun
  begun-nil fn later db (some e, w) h = ground arith
  begun-nil fn later db (none, w) h =
      let (r, c, v) = deferred-nil (fn (report_error later none db) w) h in (refl, r, c, v)

  transaction-healthy :
      (refused : Error) (fn : Db → W → Ended × Db × W) (now later : ℕ) (db : Db) (w : W)
      → check_health now db ≡ false
      → transaction refused fn now later db w ≡ begun fn later db (driver.begin w)
  unfolding transaction
  transaction-healthy refused fn now later db w healthy = rw (healthy, transaction) refl

  -- A transaction that returns nil was not refused by the health check, has begun, has run the
  -- function, which returned nil, and then committed, each once and without an error.
  pub transaction-Commits :
      (refused : Error) (fn : Db → W → Ended × Db × W) (now later : ℕ) (db : Db) (w : W)
      → (transaction refused fn now later db w).0 ≡ returns none
      → (check_health now db ≡ false)
        × Commits fn (report_error later none db) w (transaction refused fn now later db w).2
  unfolding transaction
  transaction-Commits refused fn now later db w h = elim (Bool-cases (check_health now db)) [
    | inl refuses ↦ ground arith
    | inr healthy ↦
        let th = transaction-healthy refused fn now later db w healthy in
        (healthy, rw th (begun-nil fn later db (driver.begin w) (ap (λ x. x.0) (sym th) ∙ h)))
  ]
