-- ===== src/Middleware/Cache/MemoryLaws.antt =====
-- What the memory cache serves, and what it keeps.
use jorm.Base.{
  ℕ, ◌+◌, ◌≤◌, ◌≡◌, ◌≢◌, refl, true, String, Option, none, some, [], ◌∷◌, arith, str_eq, eq_iff,
  if◌then◌else◌,
}
use jorm.Middleware.Cache.Ttl.{Plan, bypass, keep_for, plan}
use jorm.Middleware.Cache.Memory.{
  Entry, Items, lookup, delete, store, MemoryCache, Result, ok, err, Request, remember, miss,
  decoded, found, encoded, planned, cached, process, clean_items,
}

lookup-delete :
    (k j : String) (items : Items)
    → lookup j (delete k items) ≡ (if str_eq k j then none else lookup j items)
unfolding lookup delete
lookup-delete k j [] = ground arith
lookup-delete k j ((i, e) ∷ items) =
    ground (arith, lookup-delete k j items, eq_iff i k, eq_iff i j, eq_iff k j)

lookup-store :
    (k j : String) (e : Entry) (items : Items)
    → lookup j (store k e items) ≡ (if str_eq k j then some e else lookup j items)
unfolding lookup store
lookup-store k j e items = ground (arith, lookup-delete k j items)

module _ {D E : Type 0} where
  lookup-remember :
      (r : Request D E) (ttl later : ℕ) (m : MemoryCache) (d : D) (bytes : String)
      → r.encode d ≡ some bytes
      → lookup r.key (remember r ttl later m (ok (some d))).items
        ≡ some (record { bytes = bytes; expires_at = later + ttl })
  unfolding remember
  lookup-remember r ttl later m d bytes e =
      rw (e, remember)
        (ground (
          arith,
          eq_iff r.key r.key,
          lookup-store r.key r.key (record { bytes = bytes; expires_at = later + ttl }) m.items,
        ))

  lookup-miss :
      (r : Request D E) (ttl later : ℕ) (m : MemoryCache) (d : D) (bytes : String)
      → r.next ≡ ok (some d)
      → r.encode d ≡ some bytes
      → lookup r.key (miss r ttl later m).1.items
        ≡ some (record { bytes = bytes; expires_at = later + ttl })
  unfolding miss
  lookup-miss r ttl later m d bytes n e = rw n (lookup-remember r ttl later m d bytes e)

  lookup-decoded :
      (r : Request D E) (ttl later : ℕ) (m : MemoryCache) (o : Option D) (d : D) (bytes : String)
      → r.next ≡ ok (some d)
      → r.encode d ≡ some bytes
      → (decoded r ttl later m o).2 ≡ true
      → lookup r.key (decoded r ttl later m o).1.items
        ≡ some (record { bytes = bytes; expires_at = later + ttl })
  unfolding decoded miss
  lookup-decoded r ttl later m none d bytes n e called = lookup-miss r ttl later m d bytes n e
  lookup-decoded r ttl later m (some x) d bytes n e called = ground arith

  lookup-found :
      (r : Request D E) (ttl now later : ℕ) (m : MemoryCache) (o : Option Entry) (d : D)
      (bytes : String)
      → r.next ≡ ok (some d)
      → r.encode d ≡ some bytes
      → (found r ttl now later m o).2 ≡ true
      → lookup r.key (found r ttl now later m o).1.items
        ≡ some (record { bytes = bytes; expires_at = later + ttl })
  unfolding found
  lookup-found r ttl now later m none d bytes n e called = lookup-miss r ttl later m d bytes n e
  lookup-found r ttl now later m (some entry) d bytes n e called = ground (
    arith,
    called,
    lookup-decoded r ttl later m (r.decode entry.bytes) d bytes n e,
    lookup-miss r ttl later (record m { items = delete r.key m.items }) d bytes n e,
  )

  pub lookup-process :
      (r : Request D E) (ttl now later : ℕ) (m : MemoryCache) (d : D) (bytes : String)
      → plan m.default_ttl r.ttl ≡ keep_for ttl
      → r.next ≡ ok (some d)
      → r.encode d ≡ some bytes
      → (process r now later m).2 ≡ true
      → lookup r.key (process r now later m).1.items
        ≡ some (record { bytes = bytes; expires_at = later + ttl })
  unfolding process cached
  lookup-process r ttl now later m d bytes p n e called =
      ground (arith, p, called, lookup-found r ttl now later m (lookup r.key m.items) d bytes n e)

  default_ttl-found :
      (r : Request D E) (ttl now later : ℕ) (m : MemoryCache) (o : Option Entry)
      → (found r ttl now later m o).1.default_ttl ≡ m.default_ttl
  unfolding found decoded miss remember
  default_ttl-found r ttl now later m o = ground arith

  pub default_ttl-planned :
      (r : Request D E) (now later : ℕ) (m : MemoryCache) (p : Plan)
      → (planned r now later m p).1.default_ttl ≡ m.default_ttl
  unfolding planned cached
  default_ttl-planned r now later m bypass = refl
  default_ttl-planned r now later m (keep_for ttl) =
      default_ttl-found r ttl now later m (lookup r.key m.items)

  encoded-other :
      (r : Request D E) (key : String) (ttl later : ℕ) (m : MemoryCache) (o : Option String)
      → r.key ≢ key
      → lookup key (encoded r ttl later m o).items ≡ lookup key m.items
  unfolding encoded
  encoded-other r key ttl later m none other = refl
  encoded-other r key ttl later m (some bytes) other = ground (
    arith,
    eq_iff r.key key,
    lookup-store r.key key (record { bytes = bytes; expires_at = later + ttl }) m.items,
  )

  remember-other :
      (r : Request D E) (key : String) (ttl later : ℕ) (m : MemoryCache) (res : Result D E)
      → r.key ≢ key
      → lookup key (remember r ttl later m res).items ≡ lookup key m.items
  unfolding remember
  remember-other r key ttl later m (err e) other = refl
  remember-other r key ttl later m (ok none) other = refl
  remember-other r key ttl later m (ok (some d)) other =
      encoded-other r key ttl later m (r.encode d) other

  decoded-other :
      (r : Request D E) (key : String) (ttl later : ℕ) (m : MemoryCache) (o : Option D)
      → r.key ≢ key
      → lookup key (decoded r ttl later m o).1.items ≡ lookup key m.items
  unfolding decoded miss
  decoded-other r key ttl later m none other = remember-other r key ttl later m r.next other
  decoded-other r key ttl later m (some x) other = refl

  found-other :
      (r : Request D E) (key : String) (ttl now later : ℕ) (m : MemoryCache) (o : Option Entry)
      → r.key ≢ key
      → lookup key (found r ttl now later m o).1.items ≡ lookup key m.items
  unfolding found miss
  found-other r key ttl now later m none other = remember-other r key ttl later m r.next other
  found-other r key ttl now later m (some e) other = ground (
    arith,
    eq_iff r.key key,
    lookup-delete r.key key m.items,
    decoded-other r key ttl later m (r.decode e.bytes) other,
    remember-other r key ttl later (record m { items = delete r.key m.items }) r.next other,
  )

  pub planned-other :
      (r : Request D E) (key : String) (now later : ℕ) (m : MemoryCache) (p : Plan)
      → r.key ≢ key
      → lookup key (planned r now later m p).1.items ≡ lookup key m.items
  unfolding planned cached
  planned-other r key now later m bypass other = refl
  planned-other r key now later m (keep_for ttl) other =
      found-other r key ttl now later m (lookup r.key m.items) other

pub lookup-clean_items :
    (key : String) (now : ℕ) (e : Entry) (items : Items)
    → lookup key items ≡ some e
    → now ≤ e.expires_at
    → lookup key (clean_items now items) ≡ some e
unfolding lookup clean_items
lookup-clean_items key now e ((k, e') ∷ items) h fresh =
    ground (arith, eq_iff k key, lookup-clean_items key now e items)
lookup-clean_items key now e [] h fresh = ground arith
