-- ===== src/Query/ReadSteps.antt =====
-- How the steps of Find and First of core/query.go end with a value.
use jorm.Base.{◌≡◌, refl, String, Option, none, some, List, [], ◌∷◌, ◌⊎◌, inl, inr, arith}
use jorm.Base.Fallible.{ok, fails, panics}
use jorm.Core.Health.{Error}
use jorm.Model.{Model}
use jorm.Query.Step.{State, Step, Ending, continue_with, reported, unless_nil, Hook, call_hook}
use jorm.Query.Scan.{get_scan_plan}
use jorm.Query.Read.{Rows, Reader, or_reported, hooked_row, hooked_in_loop, ended_by, wrapped_by}

pub continue_with-ok :
    {S A B : Type 0} (e : Ending S A) (f : A → Step S B) {b : B} {s' : S}
    → continue_with f e ≡ (ok b, s')
    → (a : A) × (mid : S) × (e ≡ (ok a, mid)) × (f a mid ≡ (ok b, s'))
continue_with-ok (ok a, mid) f h = (a, mid, refl, h)
continue_with-ok (fails e, mid) f h = cc
continue_with-ok (panics, mid) f h = cc

pub wrapped_by-ok :
    {S A : Type 0} (prefix : String) (e : Ending S A) {a : A} {s' : S}
    → wrapped_by prefix e ≡ (ok a, s')
    → e ≡ (ok a, s')
wrapped_by-ok prefix (ok b, s) h = h
wrapped_by-ok prefix (fails e, s) h = cc
wrapped_by-ok prefix (panics, s) h = cc

pub unless_nil-ok :
    {S A : Type 0} (o : Option A) (s : S) {a : A} {s' : S}
    → unless_nil o s ≡ (ok a, s')
    → (o ≡ some a) × (s' ≡ s)
unless_nil-ok none s h = cc
unless_nil-ok (some a) s h = (ground arith, ground arith)

-- An object whose hook gives no error.
abbrev pub fine : {T : Type 0} → Option Error × T → Option T
fine (none, t) = some t
fine (some e, t) = none

abbrev scanned : {T : Type 0} → Hook T → Error ⊎ T → Option T
scanned hook (inl e) = none
scanned hook (inr t) = fine (call_hook hook t)

module _ {W R T : Type 0} (reader : Reader W R T) where
  -- The object that a row becomes, where it can be scanned and the hook accepts it.
  unfoldable pub read_row : Model → List String → R → T → Option T
  unfolding get_scan_plan call_hook
  read_row m columns r t = scanned reader.after_find (reader.scan_row (get_scan_plan m columns) r t)

  -- The rows become these objects, one each.
  abbrev pub ReadRows : List String → List R → List T → Type 0
  ReadRows columns [] [] = Unit
  ReadRows columns [] (t ∷ ts) = ⊥
  ReadRows columns (r ∷ rs) [] = ⊥
  ReadRows columns (r ∷ rs) (t ∷ ts) =
      ((m : Model) × (reader.model ≡ inr m) × (read_row m columns r reader.new_object ≡ some t))
      × ReadRows columns rs ts

  pub read_row-some :
      (m : Model) (columns : List String) (r : R) (dest t t' : T)
      → reader.scan_row (get_scan_plan m columns) r dest ≡ inr t
      → fine (call_hook reader.after_find t) ≡ some t'
      → read_row m columns r dest ≡ some t'
  unfolding read_row
  read_row-some m columns r dest t t' h k = rw h k

  -- The first row, and the object that it becomes.
  abbrev pub FirstRow : Rows R → T → T → Type 0
  FirstRow found dest t =
      (r : R) × (rs : List R) × (columns : List String) × (m : Model) × (found.rows ≡ r ∷ rs)
      × (found.columns ≡ inr columns)
      × (reader.model ≡ inr m)
      × (read_row m columns r dest ≡ some t)

module _ {W R T X : Type 0} (reader : Reader W R T) where
  pub or_reported-ok :
      {A : Type 0} (prefix : String) (x : Error ⊎ A) (s s' : State W X) {a : A}
      → or_reported reader prefix x s ≡ (ok a, s')
      → (x ≡ inr a) × (s' ≡ s)
  unfolding or_reported reported
  or_reported-ok prefix (inl e) s s' h = cc
  or_reported-ok prefix (inr a) s s' h = (ground arith, ground arith)

  pub hooked_in_loop-ok :
      (h : Option Error × T) (s s' : State W X) {t : T}
      → hooked_in_loop reader h s ≡ (ok t, s')
      → (fine h ≡ some t) × (s' ≡ s)
  unfolding hooked_in_loop
  hooked_in_loop-ok (none, t) s s' h = (ground arith, ground arith)
  hooked_in_loop-ok (some e, t) s s' h = cc

  pub hooked_row-ok :
      (h : Option Error × T) (s s' : State W X) {t : T}
      → hooked_row reader h s ≡ (ok t, s')
      → (fine h ≡ some t) × (s' ≡ s)
  unfolding hooked_row reported
  hooked_row-ok (none, t) s s' h = (ground arith, ground arith)
  hooked_row-ok (some e, t) s s' h = cc

  pub ended_by-ok :
      (e : Option Error) (ts : List T) (s s' : State W X) {us : List T}
      → ended_by reader e ts s ≡ (ok us, s')
      → (e ≡ none) × (us ≡ ts) × (s' ≡ s)
  unfolding ended_by
  ended_by-ok none ts s s' h = (refl, ground arith, ground arith)
  ended_by-ok (some e) ts s s' h = cc
