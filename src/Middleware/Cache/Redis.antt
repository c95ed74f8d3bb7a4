-- ===== src/Middleware/Cache/Redis.antt =====
-- middleware/redis_cache.go. The client of Redis is a parameter.
use jorm.Base.{
  zero, suc, ℤ, arith, pos, negsuc, ◌≡◌, refl, Bool, true, false, String, Option, none, some,
}
use jorm.Middleware.Cache.Ttl.{TtlValue, absent, other, duration, default_or_day}
use jorm.Middleware.Cache.Memory.{Result, ok, err, Request}

-- The lifetime that is given to Redis, or none where the cache is not used. 0 is for ever, and so is
-- what a caller asks for by -1; other negative lifetimes are passed on.
unfoldable pub redis_ttl : ℤ → TtlValue → Option ℤ
unfolding default_or_day
redis_ttl default absent = none
redis_ttl default other = none
redis_ttl default (duration (pos zero)) = none
redis_ttl default (duration (negsuc zero)) = some (pos 0)
redis_ttl default (duration (negsuc (suc zero))) = some (pos (default_or_day default))
redis_ttl default (duration t) = some t

-- `Client`: an error of `Get`, which is also a missing key, is none; one of `Set` is dropped.
pub record Client (S : Type 0) : Type 0 where
  pub get : String → S → Option String × S
  pub set : String → String → ℤ → S → S

module _ {D E S : Type 0} (client : Client S) where
  unfoldable pub encoded : Request D E → ℤ → S → Option String → S
  encoded r ttl s none = s
  encoded r ttl s (some bytes) = client.set r.key bytes ttl s

  unfoldable pub remember : Request D E → ℤ → S → Result D E → S
  unfolding encoded
  remember r ttl s (err e) = s
  remember r ttl s (ok none) = s
  remember r ttl s (ok (some d)) = encoded r ttl s (r.encode d)

  -- The Boolean is whether `next` was called.
  unfoldable pub miss : Request D E → ℤ → S → Result D E × S × Bool
  unfolding remember
  miss r ttl s = (r.next, remember r ttl s r.next, true)

  unfoldable pub decoded : Request D E → ℤ → S → Option D → Result D E × S × Bool
  unfolding miss
  decoded r ttl s (some d) = (ok (some d), s, false)
  decoded r ttl s none = miss r ttl s

  unfoldable pub found : Request D E → ℤ → Option String × S → Result D E × S × Bool
  unfolding decoded miss
  found r ttl (none, s) = miss r ttl s
  found r ttl (some val, s) = decoded r ttl s (r.decode val)

  unfoldable pub planned : Request D E → S → Option ℤ → Result D E × S × Bool
  unfolding found
  planned r s none = (r.next, s, true)
  planned r s (some ttl) = found r ttl (client.get r.key s)

  unfoldable pub process : ℤ → Request D E → S → Result D E × S × Bool
  unfolding redis_ttl planned
  process default_ttl r s = planned r s (redis_ttl default_ttl r.ttl)

  decoded-next :
      (r : Request D E) (ttl : ℤ) (s : S) (o : Option D)
      → (decoded r ttl s o).2 ≡ true
      → (decoded r ttl s o).0 ≡ r.next
  unfolding decoded miss
  decoded-next r ttl s none h = refl
  decoded-next r ttl s (some d) h = ground arith

  -- A request that calls `next` returns what `next` does, also where the client fails or the stored
  -- text cannot be decoded.
  pub process-next :
      (default_ttl : ℤ) (r : Request D E) (s : S)
      → (process default_ttl r s).2 ≡ true
      → (process default_ttl r s).0 ≡ r.next
  unfolding process
  process-next default_ttl r s h = by_plan (redis_ttl default_ttl r.ttl) h
    where
      by_found :
          (ttl : ℤ) (got : Option String × S)
          → (found r ttl got).2 ≡ true
          → (found r ttl got).0 ≡ r.next
      by_found ttl (none, s') h = unfold found miss in refl
      by_found ttl (some val, s') h =
          unfold found in decoded-next r ttl s' (r.decode val) (unfold found in h)

      by_plan : (plan : Option ℤ) → (planned r s plan).2 ≡ true → (planned r s plan).0 ≡ r.next
      by_plan none h = unfold planned in refl
      by_plan (some ttl) h = unfold planned in by_found ttl (client.get r.key s) h
