-- ===== src/Middleware/Cache/Memory.antt =====
-- middleware/memory_cache.go. `Process` takes the lock for each access of the items; here it runs
-- alone from its first access to its last. Times are nanoseconds after a start.
use jorm.Base.{
  ℕ, ◌+◌, Bool, true, false, ◌&&◌, ◌||◌, not, String, Option, none, some, List, [], ◌∷◌, ℤ, ltb,
  ◌==◌, str_eq, if◌then◌else◌,
}
use jorm.Middleware.Cache.Ttl.{TtlValue, Plan, bypass, keep_for, plan}

-- `memoryCacheEntry`; `expires_at` is 0 for the zero time.
pub record Entry : Type 0 where
  pub bytes : String
  pub expires_at : ℕ

-- `map[string]memoryCacheEntry`
abbrev pub Items : Type 0
Items = List (String × Entry)

unfoldable pub lookup : String → Items → Option Entry
lookup key [] = none
lookup key ((k, e) ∷ items) = if str_eq k key then some e else lookup key items

-- `delete(m.items, key)`
unfoldable pub delete : String → Items → Items
delete key [] = []
delete key ((k, e) ∷ items) =
    let rest = delete key items in if str_eq k key then rest else (k, e) ∷ rest

-- `m.items[key] = entry`
unfoldable pub store : String → Entry → Items → Items
unfolding delete
store key e items = (key, e) ∷ delete key items

pub record MemoryCache : Type 0 where
  pub items : Items
  pub default_ttl : ℤ

-- What `next` returns: an error, or a result whose data may be nil.
pub data Result (D E : Type 0) : Type 0 where
  ok : Option D → Result D E
  err : E → Result D E

-- What `Process` is called with. `decode` is `json.Unmarshal` into a new value of the type of
-- `query.Dest`, and fails where that is nil or no pointer; `encode` is `json.Marshal`.
pub record Request (D E : Type 0) : Type 0 where
  pub ttl : TtlValue
  pub key : String
  pub decode : String → Option D
  pub encode : D → Option String
  pub next : Result D E

-- `entry.ExpiresAt.IsZero() || time.Now().Before(entry.ExpiresAt)`
unfoldable pub is_fresh : ℕ → Entry → Bool
is_fresh now e = e.expires_at == 0 || ltb now e.expires_at

-- The end of `Process` on a miss; `later` is the time after `next`, whose error is passed on.
module _ {D E : Type 0} where
  unfoldable pub encoded : Request D E → ℕ → ℕ → MemoryCache → Option String → MemoryCache
  unfolding store
  encoded r ttl later m none = m
  encoded r ttl later m (some bytes) = record m {
    items = store r.key (record { bytes = bytes; expires_at = later + ttl }) m.items;
  }

  unfoldable pub remember : Request D E → ℕ → ℕ → MemoryCache → Result D E → MemoryCache
  unfolding encoded
  remember r ttl later m (err e) = m
  remember r ttl later m (ok none) = m
  remember r ttl later m (ok (some d)) = encoded r ttl later m (r.encode d)

  -- The Boolean is whether `next` was called.
  unfoldable pub miss : Request D E → ℕ → ℕ → MemoryCache → Result D E × MemoryCache × Bool
  unfolding remember
  miss r ttl later m = (r.next, remember r ttl later m r.next, true)

  -- A fresh entry, after it was decoded.
  unfoldable pub decoded :
      Request D E → ℕ → ℕ → MemoryCache → Option D → Result D E × MemoryCache × Bool
  unfolding miss
  decoded r ttl later m (some d) = (ok (some d), m, false)
  decoded r ttl later m none = miss r ttl later m

  -- What was found under the key.
  unfoldable pub found :
      Request D E → ℕ → ℕ → ℕ → MemoryCache → Option Entry → Result D E × MemoryCache × Bool
  unfolding delete is_fresh miss decoded
  found r ttl now later m none = miss r ttl later m
  found r ttl now later m (some e) =
      if is_fresh now e
      then decoded r ttl later m (r.decode e.bytes)
      else miss r ttl later (record m { items = delete r.key m.items })

  unfoldable pub cached : Request D E → ℕ → ℕ → ℕ → MemoryCache → Result D E × MemoryCache × Bool
  unfolding lookup found
  cached r ttl now later m = found r ttl now later m (lookup r.key m.items)

  unfoldable pub planned :
      Request D E → ℕ → ℕ → MemoryCache → Plan → Result D E × MemoryCache × Bool
  unfolding cached
  planned r now later m bypass = (r.next, m, true)
  planned r now later m (keep_for ttl) = cached r ttl now later m

  unfoldable pub process : Request D E → ℕ → ℕ → MemoryCache → Result D E × MemoryCache × Bool
  unfolding plan planned
  process r now later m = planned r now later m (plan m.default_ttl r.ttl)

-- `cleanup`: `!v.ExpiresAt.IsZero() && now.After(v.ExpiresAt)` is deleted.
unfoldable pub clean_items : ℕ → Items → Items
clean_items now [] = []
clean_items now ((k, e) ∷ items) =
    let rest = clean_items now items in
    if not (e.expires_at == 0) && ltb e.expires_at now then rest else (k, e) ∷ rest

unfoldable pub cleanup : ℕ → MemoryCache → MemoryCache
unfolding clean_items
cleanup now m = record m { items = clean_items now m.items }
