-- ===== src/Preload/Keys.antt =====
-- The values by which objects are related, as `any` holds them: with a type and a value. Two of them
-- are the same key of a map only if both agree.
use jorm.Base.{◌≡◌, ◌↔◌, Bool, true, Value}

pub record Keys (K : Type 0) : Type 0 where
  pub same : K → K → Bool
  pub same_iff : (a b : K) → (same a b ≡ true) ↔ (a ≡ b)
  -- nil, or `reflect.Value.IsZero`
  pub is_zero : K → Bool
  -- The argument of a statement.
  pub argument : K → Value
