-- ===== src/Middleware/Cache/File.antt =====
-- middleware/file_cache.go. `Process` runs alone from its first access to the files to its last.
use jorm.Base.{ℕ, ◌+◌, Bool, true, false, String, Option, none, some, ltb, if◌then◌else◌, ℤ}
use jorm.Middleware.Cache.Ttl.{Plan, bypass, keep_for, plan}
use jorm.Middleware.Cache.Memory.{Entry, Result, ok, err, Request}

-- The files as the operating system keeps them, with the name of a key's file, which is made of its
-- MD5 sum, and the JSON of an entry. `read` is none on an error, and the Boolean of `write` is whether
-- there was none; the error of `remove` is dropped.
pub record Os (F : Type 0) : Type 0 where
  pub filename : String → String
  pub read : String → F → Option String
  pub write : String → String → F → Bool × F
  pub remove : String → F → F
  pub marshal : Entry → Option String
  pub unmarshal : String → Option Entry

module _ {D E F : Type 0} (os : Os F) where
  unfoldable pub marshalled : Request D E → F → Option String → F
  marshalled r files none = files
  -- The error of `WriteFile` is not read.
  marshalled r files (some text) = (os.write (os.filename r.key) text files).1

  unfoldable pub encoded : Request D E → ℕ → ℕ → F → Option String → F
  unfolding marshalled
  encoded r ttl later files none = files
  encoded r ttl later files (some bytes) =
      marshalled r files (os.marshal (record { bytes = bytes; expires_at = later + ttl }))

  unfoldable pub remember : Request D E → ℕ → ℕ → F → Result D E → F
  unfolding encoded
  remember r ttl later files (err e) = files
  remember r ttl later files (ok none) = files
  remember r ttl later files (ok (some d)) = encoded r ttl later files (r.encode d)

  -- The Boolean is whether `next` was called.
  unfoldable pub miss : Request D E → ℕ → ℕ → F → Result D E × F × Bool
  unfolding remember
  miss r ttl later files = (r.next, remember r ttl later files r.next, true)

  unfoldable pub decoded : Request D E → ℕ → ℕ → F → Option D → Result D E × F × Bool
  unfolding miss
  decoded r ttl later files (some d) = (ok (some d), files, false)
  decoded r ttl later files none = miss r ttl later files

  -- The entry in the file. Unlike in the memory cache, a zero time of expiry is in the past.
  unfoldable pub found : Request D E → ℕ → ℕ → ℕ → F → Option Entry → Result D E × F × Bool
  unfolding decoded miss
  found r ttl now later files none = miss r ttl later files
  found r ttl now later files (some e) =
      if ltb now e.expires_at
      then decoded r ttl later files (r.decode e.bytes)
      else miss r ttl later (os.remove (os.filename r.key) files)

  unfoldable pub opened : Request D E → ℕ → ℕ → ℕ → F → Option String → Result D E × F × Bool
  unfolding found
  opened r ttl now later files none = miss r ttl later files
  opened r ttl now later files (some text) = found r ttl now later files (os.unmarshal text)

  unfoldable pub planned : Request D E → ℕ → ℕ → F → Plan → Result D E × F × Bool
  unfolding opened
  planned r now later files bypass = (r.next, files, true)
  planned r now later files (keep_for ttl) =
      opened r ttl now later files (os.read (os.filename r.key) files)

  unfoldable pub process : ℤ → Request D E → ℕ → ℕ → F → Result D E × F × Bool
  unfolding plan planned
  process default_ttl r now later files = planned r now later files (plan default_ttl r.ttl)
