-- ===== src/Middleware/Cache/Tests.antt =====
-- The memory cache on concrete requests, and the theorems about it at inputs.
use jorm.Base.{◌≡◌, ◌≢◌, refl, false, String, some, List, [], ◌∷◌, arith, pos, str, eq_iff, ◌⧺◌}
use jorm.Middleware.Cache.Ttl.{duration}
use jorm.Middleware.Cache.Key.{cache_key, cache_key_collision}
use jorm.Middleware.Cache.Memory.{MemoryCache, Request, ok, process}
use jorm.Middleware.Cache.Serving.{
  Step, asks, cleans, step, steps, Spares, process-serves_stored, process-Served, Served,
}

-- Data are strings, and their own encoding; errors are strings as well.
abbrev asking : String → String → Request String String
asking key answer = record {
  ttl = duration (pos 100);
  key = key;
  decode = some;
  encode = some;
  next = ok (some answer);
}

abbrev nothing_cached : MemoryCache
nothing_cached = record { items = []; default_ttl = pos 50 }

abbrev after_first : MemoryCache
after_first = record nothing_cached {
  items = ("users", record { bytes = "ann"; expires_at = 110 }) ∷ [];
}

abbrev between : List (Step String String)
between = asks (asking "teams" "red") 20 25 ∷ cleans 60 ∷ []

abbrev after_all : MemoryCache
after_all = record nothing_cached {
  items =
      ("teams", record { bytes = "red"; expires_at = 125 })
      ∷ ("users", record { bytes = "ann"; expires_at = 110 })
      ∷ [];
}

other_key : ◌≢◌ {A = String} "teams" "users"
other_key e = ground (arith, e, eq_iff "teams" "users")

process-serves_stored_example :
    process (asking "users" "bob") 109 112 after_all ≡ (ok (some "ann"), after_all, false)
unfolding step steps process Spares
process-serves_stored_example =
    process-serves_stored (asking "users" "ann") (asking "users" "bob") 100 100 5 10 109 112 between
      nothing_cached "ann" "ann" "ann" refl refl refl refl (other_key, (omega arith, tt)) refl refl
      refl (omega arith)

process-Served_example : Served (asking "users" "bob") 109 112 after_all
unfolding process
process-Served_example = process-Served (asking "users" "bob") 109 112 after_all refl

cache_key_collision_example :
    cache_key ("SELECT", str ("a" ⧺ " " ⧺ "b") ∷ str "c" ∷ [])
    ≡ cache_key ("SELECT", str "a" ∷ str ("b" ⧺ " " ⧺ "c") ∷ [])
cache_key_collision_example = cache_key_collision "SELECT" "a" "b" "c"
