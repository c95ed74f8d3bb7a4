-- ===== src/Middleware/Cache/FileTests.antt =====
-- The file cache on a concrete system of files, and the theorem about it at an input.
use jorm.Base.{
  ◌≡◌, refl, true, false, ◌&&◌, String, Option, none, some, if◌then◌else◌, Char, code, ◌==◌, ◌⧺◌,
  pos, arith, str_eq, eq_iff, ltb, decimal, read_decimal, ◌>>=◌,
}
use jorm.Middleware.Cache.Ttl.{duration}
use jorm.Middleware.Cache.Memory.{Entry, ok, Request}
use jorm.Middleware.Cache.File.{Os, process}
use jorm.Middleware.Cache.FileLaws.{ReadsBack, process-serves_written}

abbrev Files : Type 0
Files = String → Option String

-- What follows a prefix.
strip : String → String → Option String
strip String.[] s = some s
strip (String.◌∷◌ c prefix) String.[] = none
strip (String.◌∷◌ c prefix) (String.◌∷◌ d s) =
    let rest = strip prefix s in if code c == code d then rest else none

abbrev onto_first : Char → Option (String × String) → Option (String × String)
onto_first c none = none
onto_first c (some (before, after)) = some (String.◌∷◌ c before, after)

-- What stands before a text and after it.
cut_at : String → String → Option (String × String)
unfolding strip
cut_at mark String.[] = none
cut_at mark (String.◌∷◌ c s) =
    let rest = onto_first c (cut_at mark s) in
    elim (strip mark (String.◌∷◌ c s)) [ some after ↦ some ("", after) | none ↦ rest ]

-- The JSON of an entry that expires in the first nine nanoseconds of 1970, as encoding/json writes it.
marshal : Entry → Option String
unfolding decimal
marshal e =
    if ltb 0 e.expires_at && ltb e.expires_at 10
    then some (
        "{\"data\":"
        ⧺ e.bytes
        ⧺ ",\"expires_at\":\"1970-01-01T00:00:00.00000000"
        ⧺ decimal e.expires_at
        ⧺ "Z\"}")
    else none

unmarshal : String → Option Entry
unfolding strip cut_at read_decimal
unmarshal s = do
  rest ← strip "{\"data\":" s
  parts ← cut_at ",\"expires_at\":\"1970-01-01T00:00:00.00000000" rest
  time ← cut_at "Z\"}" parts.1
  some (record { bytes = parts.0; expires_at = read_decimal time.0 })

-- The files of a directory, where a file without a name cannot be written.
abbrev os : Os Files
os = record {
  filename = λ key. "/cache/" ⧺ key ⧺ ".json";
  read = λ name files. files name;
  write = λ name content files.
      if str_eq name ""
      then (false, files)
      else (true, λ other. if str_eq name other then some content else files other);
  remove = λ name files. λ other. if str_eq name other then none else files other;
  marshal = marshal;
  unmarshal = unmarshal;
}

os-ReadsBack : ReadsBack os
os-ReadsBack name content files h = ground (arith, h, eq_iff name name)

-- A string out of its JSON, without escapes.
unquote : String → Option String
unfolding strip cut_at
unquote s = do inner ← strip "\"" s; parts ← cut_at "\"" inner; some parts.0

abbrev asking_files : String → Request String String
asking_files answer = record {
  ttl = duration (pos 3);
  key = "users";
  decode = unquote;
  encode = λ s. some ("\"" ⧺ s ⧺ "\"");
  next = ok (some answer);
}

process-serves_written_example :
    let files = (process os (pos 50) (asking_files "ann") 1 2 (λ name. none)).1 in
    process os (pos 50) (asking_files "bob") 4 4 files ≡ (ok (some "ann"), files, false)
unfolding process marshal unmarshal unquote strip cut_at
process-serves_written_example =
    process-serves_written os (asking_files "ann") (asking_files "bob") (pos 50) 3 3 1 2 4 4
      (λ name. none) "ann" "ann" "\"ann\""
      "{\"data\":\"ann\",\"expires_at\":\"1970-01-01T00:00:00.000000005Z\"}" os-ReadsBack refl refl
      refl refl refl refl refl refl refl refl refl (omega arith)
