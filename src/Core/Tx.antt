-- ===== src/Core/Tx.antt =====
-- The methods of `Tx` of core/tx.go on the transaction of database/sql.
use jorm.Base.{String, Option, none, some, ◌⊎◌, inl, inr}
use jorm.Core.Health.{Error}
use jorm.Core.Transaction.{wrapped}

abbrev pub wrap_error : String → Option Error → Option Error
wrap_error prefix none = none
wrap_error prefix (some e) = some (wrapped prefix e)

abbrev pub wrap_result : {A : Type 0} → String → Error ⊎ A → Error ⊎ A
wrap_result prefix (inl e) = inl (wrapped prefix e)
wrap_result prefix (inr a) = inr a

-- The transaction of database/sql on a world of the database, for statements `Q`.
pub record SqlTx (Q W Rows Result : Type 0) : Type 0 where
  pub commit : W → Option Error × W
  pub rollback : W → Option Error × W
  pub query : Q → W → (Error ⊎ Rows) × W
  pub exec : Q → W → (Error ⊎ Result) × W

module _ {Q W Rows Result : Type 0} (tx : SqlTx Q W Rows Result) where
  unfoldable pub commit : W → Option Error × W
  commit w = let (err, w') = tx.commit w in (wrap_error "transaction commit failed: " err, w')

  unfoldable pub rollback : W → Option Error × W
  rollback w = let (err, w') = tx.rollback w in (wrap_error "transaction rollback failed: " err, w')

  unfoldable pub query_context : Q → W → (Error ⊎ Rows) × W
  query_context q w =
      let (out, w') = tx.query q w in (wrap_result "transaction query failed: " out, w')

  unfoldable pub exec_context : Q → W → (Error ⊎ Result) × W
  exec_context q w =
      let (out, w') = tx.exec q w in (wrap_result "transaction exec failed: " out, w')
