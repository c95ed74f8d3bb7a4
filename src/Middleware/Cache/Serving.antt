-- ===== src/Middleware/Cache/Serving.antt =====
-- What the memory cache serves: an entry it stored, until it expires or is replaced, and nothing else.
use jorm.Base.{
  ◌∙◌, ℕ, ◌+◌, ◌<◌, ◌≤◌, ◌≡◌, ◌≢◌, refl, true, false, String, Option, none, some, List, [], ◌∷◌,
  All, arith, Bool-cases, inl, inr,
}
use jorm.Middleware.Cache.Ttl.{Plan, bypass, keep_for, plan}
use jorm.Middleware.Cache.Memory.{
  Entry, lookup, MemoryCache, ok, Request, is_fresh, miss, decoded, found, planned, cached, process,
  cleanup,
}
use jorm.Middleware.Cache.MemoryLaws.{
  lookup-process, default_ttl-planned, planned-other, lookup-clean_items,
}

-- What happens to a cache: a request, with the times before and after `next`, or a run of the
-- cleaner.
pub data Step (D E : Type 0) : Type 0 where
  asks : Request D E → ℕ → ℕ → Step D E
  cleans : ℕ → Step D E

module _ {D E : Type 0} where
  unfoldable pub step : Step D E → MemoryCache → MemoryCache
  unfolding process cleanup
  step (asks r now later) m = (process r now later m).1
  step (cleans now) m = cleanup now m

  unfoldable pub steps : List (Step D E) → MemoryCache → MemoryCache
  unfolding step
  steps [] m = m
  steps (s ∷ ss) m = steps ss (step s m)

  -- A request for another key, or a run of the cleaner before the expiry.
  unfoldable pub Spares : String → ℕ → Step D E → Type 0
  Spares key expires_at (asks r now later) = r.key ≢ key
  Spares key expires_at (cleans now) = now ≤ expires_at

  default_ttl-step : (s : Step D E) (m : MemoryCache) → (step s m).default_ttl ≡ m.default_ttl
  unfolding step process
  default_ttl-step (asks r now later) m =
      default_ttl-planned r now later m (plan m.default_ttl r.ttl)
  default_ttl-step (cleans now) m = refl

  step-Spares :
      (s : Step D E) (key : String) (e : Entry) (m : MemoryCache)
      → Spares key e.expires_at s
      → lookup key m.items ≡ some e
      → lookup key (step s m).items ≡ some e
  unfolding step process Spares
  step-Spares (asks r now later) key e m other h =
      planned-other r key now later m (plan m.default_ttl r.ttl) other ∙ h
  step-Spares (cleans now) key e m fresh h = lookup-clean_items key now e m.items h fresh

  steps-Spares :
      (ss : List (Step D E)) (key : String) (e : Entry) (m : MemoryCache)
      → All (Spares key e.expires_at) ss
      → lookup key m.items ≡ some e
      → (lookup key (steps ss m).items ≡ some e) × ((steps ss m).default_ttl ≡ m.default_ttl)
  unfolding steps
  steps-Spares [] key e m a h = (h, refl)
  steps-Spares (s ∷ ss) key e m (a, rest) h =
      let (l, d) = steps-Spares ss key e (step s m) rest (step-Spares s key e m a h) in
      (l, d ∙ default_ttl-step s m)

  decoded-hit :
      (r : Request D E) (ttl later : ℕ) (m : MemoryCache) (o : Option D) (d : D)
      → o ≡ some d
      → decoded r ttl later m o ≡ (ok (some d), m, false)
  unfolding decoded
  decoded-hit r ttl later m o d x = rw x refl

  found-hit :
      (r : Request D E) (ttl now later : ℕ) (m : MemoryCache) (o : Option Entry) (e : Entry) (d : D)
      → o ≡ some e
      → r.decode e.bytes ≡ some d
      → now < e.expires_at
      → found r ttl now later m o ≡ (ok (some d), m, false)
  unfolding found is_fresh
  found-hit r ttl now later m none e d l x fresh = ground arith
  found-hit r ttl now later m (some e') e d l x fresh =
      ground (arith, decoded-hit r ttl later m (r.decode e'.bytes) d)

  planned-hit :
      (r : Request D E) (ttl now later : ℕ) (m : MemoryCache) (p : Plan) (e : Entry) (d : D)
      → p ≡ keep_for ttl
      → lookup r.key m.items ≡ some e
      → r.decode e.bytes ≡ some d
      → now < e.expires_at
      → planned r now later m p ≡ (ok (some d), m, false)
  unfolding planned cached
  planned-hit r ttl now later m bypass e d p l x fresh = ground arith
  planned-hit r ttl now later m (keep_for t) e d p l x fresh =
      found-hit r t now later m (lookup r.key m.items) e d l x fresh

  -- A result stored by a request is what a later request with the same key gets without a call of
  -- `next`, whatever the default lifetime, after any other requests for other keys and any runs of
  -- the cleaner, as long as it asks before the lifetime of the first request has passed, decodes
  -- what was encoded, and asks for caching.
  pub process-serves_stored :
      (r r' : Request D E) (ttl ttl' now later now' later' : ℕ) (ss : List (Step D E))
      (m : MemoryCache)
      → (d d' : D) (bytes : String) → plan m.default_ttl r.ttl ≡ keep_for ttl
      → r.next ≡ ok (some d)
      → r.encode d ≡ some bytes
      → (process r now later m).2 ≡ true
      → All (Spares r.key (later + ttl)) ss
      → r'.key ≡ r.key
      → plan m.default_ttl r'.ttl ≡ keep_for ttl'
      → r'.decode bytes ≡ some d'
      → now' < later + ttl
      → let m' = steps ss (process r now later m).1 in
        process r' now' later' m' ≡ (ok (some d'), m', false)
  unfolding process step
  process-serves_stored r r' ttl ttl' now later now' later' ss m d d' bytes p n e called spared k p'
        x fresh =
      let entry : Entry = record { bytes = bytes; expires_at = later + ttl } in
      let stored = lookup-process r ttl now later m d bytes p n e called in
      let (l, t) = steps-Spares ss r.key entry (process r now later m).1 spared stored in
      let t' = t ∙ default_ttl-step (asks r now later) m in
      planned-hit r' ttl' now' later' (steps ss (process r now later m).1)
        (plan (steps ss (process r now later m).1).default_ttl r'.ttl) entry d' (rw t' p') (rw k l)
        x fresh

  decoded-served :
      (r : Request D E) (ttl later : ℕ) (m : MemoryCache) (o : Option D)
      → (decoded r ttl later m o).2 ≡ false
      → (d : D) × (o ≡ some d) × (decoded r ttl later m o ≡ (ok (some d), m, false))
  unfolding decoded miss
  decoded-served r ttl later m none h = ground arith
  decoded-served r ttl later m (some d) h = (d, refl, refl)

  -- What was in the cache under the key of a request that was served from it.
  abbrev pub Served : Request D E → ℕ → ℕ → MemoryCache → Type 0
  Served r now later m =
      (entry : Entry) × (d : D) × (lookup r.key m.items ≡ some entry)
      × (is_fresh now entry ≡ true)
      × (r.decode entry.bytes ≡ some d)
      × (process r now later m ≡ (ok (some d), m, false))

  found-served :
      (r : Request D E) (ttl now later : ℕ) (m : MemoryCache) (o : Option Entry)
      → (found r ttl now later m o).2 ≡ false
      → (entry : Entry) × (d : D) × (o ≡ some entry)
        × (is_fresh now entry ≡ true)
        × (r.decode entry.bytes ≡ some d)
        × (found r ttl now later m o ≡ (ok (some d), m, false))
  unfolding found miss
  found-served r ttl now later m none h = ground arith
  found-served r ttl now later m (some e) h = elim (Bool-cases (is_fresh now e)) [
    | inl f ↦
        let s = decoded-served r ttl later m (r.decode e.bytes) (ground arith) in
        (e, s.0, refl, f, s.1, rw (f, found) s.2)
    | inr stale ↦ ground arith
  ]

  planned-served :
      (r : Request D E) (now later : ℕ) (m : MemoryCache) (p : Plan)
      → (planned r now later m p).2 ≡ false
      → (entry : Entry) × (d : D) × (lookup r.key m.items ≡ some entry)
        × (is_fresh now entry ≡ true)
        × (r.decode entry.bytes ≡ some d)
        × (planned r now later m p ≡ (ok (some d), m, false))
  unfolding planned cached
  planned-served r now later m bypass h = ground arith
  planned-served r now later m (keep_for ttl) h =
      found-served r ttl now later m (lookup r.key m.items) h

  -- A request that does not call `next` was served the decoding of an entry stored under its key,
  -- which had not expired, and the cache is as it was.
  pub process-Served :
      (r : Request D E) (now later : ℕ) (m : MemoryCache)
      → (process r now later m).2 ≡ false
      → Served r now later m
  unfolding process
  process-Served r now later m h = planned-served r now later m (plan m.default_ttl r.ttl) h
