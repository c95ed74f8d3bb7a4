-- ===== src/Middleware/Cache/FileLaws.antt =====
-- What the file cache serves.
use jorm.Base.{
  ◌⊎◌, ℕ, ◌+◌, ◌≡◌, refl, sym, ap, subst, ◌∙◌, true, false, String, Option, none, some, ltb, ℤ,
  arith, Bool-cases, inl, inr, ◌<◌, lt→ltb,
}
use jorm.Middleware.Cache.Ttl.{Plan, bypass, keep_for, plan}
use jorm.Middleware.Cache.Memory.{Entry, ok, Request}
use jorm.Middleware.Cache.File.{
  Os, marshalled, encoded, remember, miss, decoded, found, opened, planned, process,
}

-- A file whose write returned no error is read back.
abbrev pub ReadsBack : {F : Type 0} → Os F → Type 0
ReadsBack {F} os =
    (name text : String) (files : F)
    → (os.write name text files).0 ≡ true
    → os.read name (os.write name text files).1 ≡ some text

module _ {D E F : Type 0} (os : Os F) where
  found-fresh :
      (r : Request D E) (ttl now later : ℕ) (files : F) (entry : Entry)
      → ltb now entry.expires_at ≡ true
      → found os r ttl now later files (some entry)
        ≡ decoded os r ttl later files (r.decode entry.bytes)
  unfolding found
  found-fresh r ttl now later files entry fresh = rw (fresh, found) refl

  -- A request that calls `next`, and gets data that can be encoded, ends with a write of its entry, to
  -- the files as they were or without the file that has expired.
  Writes : Request D E → String → F → F → Type 0
  Writes r text start files =
      (before : F) × ((before ≡ start) ⊎ (before ≡ os.remove (os.filename r.key) start))
      × (files ≡ (os.write (os.filename r.key) text before).1)

  module _ (r : Request D E) (ttl later : ℕ) (d : D) (bytes text : String)
      (n : r.next ≡ ok (some d)) (e : r.encode d ≡ some bytes)
      (t : os.marshal (record { bytes = bytes; expires_at = later + ttl }) ≡ some text) where
    miss-Writes : (files : F) → Writes r text files (miss os r ttl later files).1
    unfolding Writes miss remember encoded marshalled
    miss-Writes files = (files, inl refl, rw n (rw (e, encoded) (rw (t, marshalled) refl)))

    removed-Writes :
        (files : F)
        → Writes r text files (miss os r ttl later (os.remove (os.filename r.key) files)).1
    unfolding Writes miss remember encoded marshalled
    removed-Writes files = (
      os.remove (os.filename r.key) files,
      inr refl,
      rw n (rw (e, encoded) (rw (t, marshalled) refl)),
    )

    decoded-Writes :
        (files : F) (o : Option D)
        → (decoded os r ttl later files o).2 ≡ true
        → Writes r text files (decoded os r ttl later files o).1
    unfolding decoded
    decoded-Writes files none called = miss-Writes files
    decoded-Writes files (some x) called = ground (arith, called)

    found-Writes :
        (now : ℕ) (files : F) (o : Option Entry)
        → (found os r ttl now later files o).2 ≡ true
        → Writes r text files (found os r ttl now later files o).1
    unfolding found
    found-Writes now files none called = miss-Writes files
    found-Writes now files (some entry) called = elim (Bool-cases (ltb now entry.expires_at)) [
      | inl fresh ↦
          rw (fresh, found)
            (decoded-Writes files (r.decode entry.bytes)
              (ap (λ x. x.2) (sym (found-fresh r ttl now later files entry fresh)) ∙ called))
      | inr stale ↦ rw (stale, found) (removed-Writes files)
    ]

    opened-Writes :
        (now : ℕ) (files : F) (o : Option String)
        → (opened os r ttl now later files o).2 ≡ true
        → Writes r text files (opened os r ttl now later files o).1
    unfolding opened
    opened-Writes now files none called = miss-Writes files
    opened-Writes now files (some content) called =
        found-Writes now files (os.unmarshal content) called

    planned-Writes :
        (now : ℕ) (files : F) (p : Plan)
        → p ≡ keep_for ttl
        → (planned os r now later files p).2 ≡ true
        → Writes r text files (planned os r now later files p).1
    unfolding planned
    planned-Writes now files p e' called =
        let same = ap (planned os r now later files) e' in
        subst (λ x. Writes r text files x.1) (sym same)
          (opened-Writes now files (os.read (os.filename r.key) files)
            (ap (λ x. x.2) (sym same) ∙ called))

  -- The second request.
  planned-hit :
      (r : Request D E) (ttl now later : ℕ) (files : F) (p : Plan) (text : String) (e : Entry)
      (d : D)
      → p ≡ keep_for ttl
      → os.read (os.filename r.key) files ≡ some text
      → os.unmarshal text ≡ some e
      → r.decode e.bytes ≡ some d
      → now < e.expires_at
      → planned os r now later files p ≡ (ok (some d), files, false)
  unfolding planned opened
  planned-hit r ttl now later files bypass text e d p read entry decodes fresh = ground (arith, p)
  planned-hit r ttl now later files (keep_for t) text e d p read entry decodes fresh =
      ap (opened os r t now later files) read
      ∙ ap (found os r t now later files) entry
      ∙ found-fresh r t now later files e (lt→ltb now e.expires_at fresh)
      ∙ ap (decoded os r t later files) decodes
      ∙ unfold decoded in refl

  -- With files that keep what is written without an error: the data that a request got from `next` and
  -- stored is what a later request with the same key gets, without a call of `next`, if nothing touches the
  -- files between them, it asks for caching and before the lifetime of the first request has passed. The
  -- data can be encoded, and decoded from that by the second request; the entry of it survives JSON, and
  -- its file can be written, also where an expired one was removed before.
  pub process-serves_written :
      (r r' : Request D E) (default_ttl : ℤ) (ttl ttl' now later now' later' : ℕ) (files : F)
      → (d d' : D) (bytes text : String) → ReadsBack os
      → plan default_ttl r.ttl ≡ keep_for ttl
      → r.next ≡ ok (some d)
      → r.encode d ≡ some bytes
      → let entry : Entry = record { bytes = bytes; expires_at = later + ttl } in
        os.marshal entry ≡ some text
        → os.unmarshal text ≡ some entry
        → (os.write (os.filename r.key) text files).0 ≡ true
        → (os.write (os.filename r.key) text (os.remove (os.filename r.key) files)).0 ≡ true
        → (process os default_ttl r now later files).2 ≡ true
        → r'.key ≡ r.key
        → plan default_ttl r'.ttl ≡ keep_for ttl'
        → r'.decode bytes ≡ some d'
        → now' < later + ttl
        → let files' = (process os default_ttl r now later files).1 in
          process os default_ttl r' now' later' files' ≡ (ok (some d'), files', false)
  unfolding process Writes
  process-serves_written r r' default_ttl ttl ttl' now later now' later' files d d' bytes text reads
        p n e m u w w' called k p' x fresh =
      let entry : Entry = record { bytes = bytes; expires_at = later + ttl } in
      let (before, at, written) =
        planned-Writes r ttl later d bytes text n e m now files (plan default_ttl r.ttl) p called in
      planned-hit r' ttl' now' later' (planned os r now later files (plan default_ttl r.ttl)).1
        (plan default_ttl r'.ttl) text entry d' p'
        (ap
            (λ key.
              os.read (os.filename key) (planned os r now later files (plan default_ttl r.ttl)).1)
            k
          ∙ ap (os.read (os.filename r.key)) written
          ∙ reads (os.filename r.key) text before (elim at [
            | inl same ↦ ap (λ f. (os.write (os.filename r.key) text f).0) same ∙ w
            | inr gone ↦ ap (λ f. (os.write (os.filename r.key) text f).0) gone ∙ w'
          ]))
        u x fresh
