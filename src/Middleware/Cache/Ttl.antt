-- ===== src/Middleware/Cache/Ttl.antt =====
-- How the caches read the lifetime under the context key "jorm_cache_ttl". Durations are nanoseconds.
use jorm.Base.{ℕ, zero, suc, ◌*◌, ◌<◌, ◌≡◌, arith, ℤ, pos, negsuc}

-- The value in the context: none, one that is no `time.Duration`, or a duration.
pub data TtlValue : Type 0 where
  absent other : TtlValue
  duration : ℤ → TtlValue

-- To call `next` alone, or to cache for a time.
pub data Plan : Type 0 where
  bypass : Plan
  keep_for : ℕ → Plan

abbrev pub hour : ℕ
hour = 3600 * 1000000000

-- `if m.DefaultTTL > 0 { ttl = m.DefaultTTL } else { ttl = 24 * time.Hour }`
unfoldable pub default_or_day : ℤ → ℕ
default_or_day (pos (suc n)) = suc n
default_or_day _ = 24 * hour

-- MemoryCache and FileCache.
unfoldable pub plan : ℤ → TtlValue → Plan
unfolding default_or_day
plan default absent = bypass
plan default other = bypass
plan default (duration (pos zero)) = bypass
plan default (duration (pos (suc n))) = keep_for (suc n)
plan default (duration (negsuc zero)) = keep_for (24 * 365 * 100 * hour)
plan default (duration (negsuc (suc zero))) = keep_for (default_or_day default)
plan default (duration (negsuc (suc (suc n)))) = bypass

-- The two caches keep nothing for no time.
pub plan-pos : (default : ℤ) (v : TtlValue) (ttl : ℕ) → plan default v ≡ keep_for ttl → 0 < ttl
unfolding plan
plan-pos default (duration (pos (suc n))) ttl h = ground arith
plan-pos default (duration (negsuc zero)) ttl h = ground arith
plan-pos (pos (suc n)) (duration (negsuc (suc zero))) ttl h = ground arith
plan-pos (pos zero) (duration (negsuc (suc zero))) ttl h = ground arith
plan-pos (negsuc n) (duration (negsuc (suc zero))) ttl h = ground arith
plan-pos default _ ttl h = ground arith
