-- ===== src/Query/Once.antt =====
-- The writing operations run one statement.
use jorm.Base.{◌≡◌, refl, ap, ◌∙◌, some, ◌⊎◌, inl, inr}
use jorm.Base.Fallible.{ok, fails, panics}
use jorm.Core.Health.{Error, report_error}
use jorm.Dialect.{Statement}
use jorm.Query.Step.{
  State, Ending, Step, continue_with, Executed, Executor, reported, succeed, run, handle_error,
}

module _ {W : Type 0} (executor : Executor W) where
  module _ {X : Type 0} where
    -- Nothing was sent to the database or reported.
    unfoldable pub Untouched : State W X → State W X → Type 0
    Untouched s s' = (s'.world ≡ s.world) × (s'.db ≡ s.db) × (s'.last ≡ s.last)

    -- The one statement that was sent.
    unfoldable pub Sent : State W X → State W X → Type 0
    Sent s s' =
        (statement : Statement) × (s'.last ≡ some statement)
        × (s'.world ≡ (executor.exec statement s.world).1)

    -- How an operation ends: with an answer after one statement, and the health as it was, or with an
    -- error or a panic after at most one.
    unfoldable pub Ran : {A : Type 0} → State W X → Ending (State W X) A → Type 0
    unfolding Untouched Sent
    Ran s (ok a, s') = Sent s s' × (s'.db ≡ s.db)
    Ran s (fails e, s') = Untouched s s' ⊎ Sent s s'
    Ran s (panics, s') = Untouched s s' ⊎ Sent s s'

  module _ {X : Type 0} where
    Untouched-Ran :
        {A : Type 0} (s : State W X) (s1 : State W X) (end : Ending (State W X) A)
        → Untouched s s1
        → Ran s1 end
        → Ran s end
    unfolding Ran Untouched Sent
    Untouched-Ran s s1 (ok a, s') (w, d, l) ((q, h, v), c) =
        ((q, h, v ∙ ap (λ x. (executor.exec q x).1) w), c ∙ d)
    Untouched-Ran s s1 (fails e, s') (w, d, l) (inl (w', d', l')) = inl (w' ∙ w, d' ∙ d, l' ∙ l)
    Untouched-Ran s s1 (fails e, s') (w, d, l) (inr (q, h, v)) =
        inr (q, h, v ∙ ap (λ x. (executor.exec q x).1) w)
    Untouched-Ran s s1 (panics, s') (w, d, l) (inl (w', d', l')) = inl (w' ∙ w, d' ∙ d, l' ∙ l)
    Untouched-Ran s s1 (panics, s') (w, d, l) (inr (q, h, v)) =
        inr (q, h, v ∙ ap (λ x. (executor.exec q x).1) w)

    continue_with-Ran :
        {A B : Type 0} (f : A → Step (State W X) B) (s : State W X) (end : Ending (State W X) A)
        → Untouched s end.1
        → ((a : A) (s' : State W X) → Ran s' (f a s'))
        → Ran s (continue_with f end)
    continue_with-Ran f s (ok a, s') quiet rest = Untouched-Ran s s' (f a s') quiet (rest a s')
    continue_with-Ran f s (fails e, s') quiet rest = unfold Ran in inl quiet
    continue_with-Ran f s (panics, s') quiet rest = unfold Ran in inl quiet

    pub then-Ran :
        {A B : Type 0} (m : Step (State W X) A) (f : A → Step (State W X) B) (s : State W X)
        → ((s : State W X) → Untouched s (m s).1)
        → ((a : A) (s' : State W X) → Ran s' (f a s'))
        → Ran s (continue_with f (m s))
    then-Ran m f s quiet rest = continue_with-Ran f s (m s) (quiet s) rest

  module _ {X : Type 0} where
    -- What follows the statement.
    unfoldable pub Finished : {A : Type 0} → State W X → Ending (State W X) A → Type 0
    Finished s (ok a, s') = (s'.world ≡ s.world) × (s'.last ≡ s.last) × (s'.db ≡ s.db)
    Finished s (fails e, s') = (s'.world ≡ s.world) × (s'.last ≡ s.last)
    Finished s (panics, s') = (s'.world ≡ s.world) × (s'.last ≡ s.last)

    Finished-Ran :
        {A : Type 0} (statement : Statement) (s s1 : State W X) (end : Ending (State W X) A)
        → Sent s s1
        → s1.db ≡ s.db
        → Finished s1 end
        → Ran s end
    unfolding Finished Ran Sent
    Finished-Ran statement s s1 (ok a, s') (q, h, v) d (w, l, c) = ((q, l ∙ h, w ∙ v), c ∙ d)
    Finished-Ran statement s s1 (fails e, s') (q, h, v) d (w, l) = inr (q, l ∙ h, w ∙ v)
    Finished-Ran statement s s1 (panics, s') (q, h, v) d (w, l) = inr (q, l ∙ h, w ∙ v)

    pub run-Ran :
        {A : Type 0} (f : Executed → Step (State W X) A) (statement : Statement) (s : State W X)
        → ((out : Executed) (s' : State W X) → Finished s' (f out s'))
        → Ran s (continue_with f (run executor statement s))
    unfolding run Sent
    run-Ran f statement s rest =
        let (out, w) = executor.exec statement s.world in
        let s1 = record s { world = w; last = some statement } in
        Finished-Ran statement s s1 (f out s1) (statement, refl, refl) refl (rest out s1)

    pub reported-Finished :
        (A : Type 0) (e : Error) (s : State W X) → Finished {A = A} s (reported executor e s)
    unfolding reported handle_error Finished
    reported-Finished A e s = (refl, refl)

    pub succeed-Finished : {A : Type 0} (a : A) (s : State W X) → Finished s (succeed executor a s)
    unfolding succeed handle_error Finished report_error
    succeed-Finished a s = (refl, refl, refl)

    kept-Finished :
        {A : Type 0} (s s1 : State W X) (end : Ending (State W X) A)
        → (s1.world ≡ s.world) × (s1.last ≡ s.last) × (s1.db ≡ s.db)
        → Finished s1 end
        → Finished s end
    unfolding Finished
    kept-Finished s s1 (ok a, s') (w, l, d) (w', l', d') = (w' ∙ w, l' ∙ l, d' ∙ d)
    kept-Finished s s1 (fails e, s') (w, l, d) (w', l') = (w' ∙ w, l' ∙ l)
    kept-Finished s s1 (panics, s') (w, l, d) (w', l') = (w' ∙ w, l' ∙ l)

    -- One step after another.
    pub continue_with-Finished :
        {A B : Type 0} (f : A → Step (State W X) B) (s : State W X) (end : Ending (State W X) A)
        → Finished s end
        → ((a : A) (s' : State W X) → Finished s' (f a s'))
        → Finished s (continue_with f end)
    unfolding Finished
    continue_with-Finished f s (ok a, s') kept rest = kept-Finished s s' (f a s') kept (rest a s')
    continue_with-Finished f s (fails e, s') kept rest = kept
    continue_with-Finished f s (panics, s') kept rest = kept
