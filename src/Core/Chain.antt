-- ===== src/Core/Chain.antt =====
-- core/query.go: `executeWithMiddleware`, which wraps the middlewares of the `DB` around the last
-- step of a query, and core/db.go: `Use`, which appends middlewares.
use jorm.Base.{◌≡◌, refl, sym, ap, ◌∙◌, List, [], ◌∷◌, ◌++◌, reverse}
use mathlib.Core.List.{reverse-cons}

-- `Process` of a middleware: it takes the next handler; `Q` is a query with all it can reach.
abbrev pub Handler : Type 0 → Type 0
Handler Q = Q → Q

abbrev pub Middleware : Type 0 → Type 0
Middleware Q = (Q → Q) → Q → Q

module _ {Q : Type 0} where
  -- `for i := len(middlewares) - 1; i >= 0; i--`: the list is the middlewares from the last to the
  -- first.
  unfoldable pub wrap : List (Middleware Q) → (Q → Q) → Q → Q
  wrap [] handler = handler
  wrap (m ∷ ms) handler = wrap ms (m handler)

  unfoldable pub execute_with_middleware : List (Middleware Q) → (Q → Q) → Q → Q
  unfolding wrap
  execute_with_middleware middlewares final = wrap (reverse middlewares) final

  unfoldable pub add : List (Middleware Q) → List (Middleware Q) → List (Middleware Q)
  add middlewares more = middlewares ++ more

  wrap-append :
      (ms ms' : List (Middleware Q)) (handler : Q → Q)
      → wrap (ms ++ ms') handler ≡ wrap ms' (wrap ms handler)
  unfolding wrap
  wrap-append [] ms' handler = refl
  wrap-append (m ∷ ms) ms' handler = wrap-append ms ms' (m handler)

  execute_with_middleware-cons :
      (m : Middleware Q) (ms : List (Middleware Q)) (final : Q → Q)
      → execute_with_middleware (m ∷ ms) final ≡ m (execute_with_middleware ms final)
  unfolding execute_with_middleware wrap
  execute_with_middleware-cons m ms final =
      rw (reverse-cons m ms) (wrap-append (reverse ms) (m ∷ []) final)

  -- The chain as it is meant: every middleware gets the rest of the chain as `next`.
  unfoldable pub nested : List (Middleware Q) → (Q → Q) → Q → Q
  nested [] final = final
  nested (m ∷ ms) final = m (nested ms final)

  -- The loop of `executeWithMiddleware` puts the middlewares around the last step in the order in
  -- which they were registered, the first outermost; and middlewares added by a later `Use` run
  -- inside those that were there.
  pub execute_with_middleware-nested :
      (ms more : List (Middleware Q)) (final : Q → Q)
      → (execute_with_middleware ms final ≡ nested ms final)
        × (execute_with_middleware (add ms more) final
            ≡ execute_with_middleware ms (execute_with_middleware more final))
  unfolding add nested
  execute_with_middleware-nested ms more final = (all ms final, after ms)
    where
      all :
          (ms : List (Middleware Q)) (final : Q → Q)
          → execute_with_middleware ms final ≡ nested ms final
      all [] final = unfold execute_with_middleware wrap in refl
      all (m ∷ ms) final = execute_with_middleware-cons m ms final ∙ ap m (all ms final)

      after :
          (ms : List (Middleware Q))
          → execute_with_middleware (ms ++ more) final
            ≡ execute_with_middleware ms (execute_with_middleware more final)
      after [] = unfold execute_with_middleware wrap in refl
      after (m ∷ ms) =
          execute_with_middleware-cons m (ms ++ more) final
          ∙ ap m (after ms)
          ∙ sym (execute_with_middleware-cons m ms (execute_with_middleware more final))
