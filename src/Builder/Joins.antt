-- ===== src/Builder/Joins.antt =====
-- `isValidJoinClause` of core/builder.go.
use jorm.Base.{String, Bool, true, false, ◌&&◌, not, List, [], ◌∷◌, contains, to_upper, ◌≡◌, refl}

-- The loop over a list of texts that the clause must not hold.
unfoldable pub holds_none : String → List String → Bool
unfolding contains
holds_none upper [] = true
holds_none upper (s ∷ ss) = not (contains upper s) && holds_none upper ss

abbrev pub forbidden : List String
forbidden = ";" ∷ "--" ∷ "/*" ∷ "*/" ∷ []

abbrev pub keywords : List String
keywords = "DROP " ∷ "DELETE " ∷ "UPDATE " ∷ "INSERT " ∷ "TRUNCATE " ∷ "ALTER " ∷ []

unfoldable pub is_valid_join_clause : String → Bool
unfolding holds_none to_upper contains
is_valid_join_clause query =
    let upper = to_upper query in
    holds_none upper forbidden && holds_none upper keywords && contains upper "JOIN"

plain_join : is_valid_join_clause "join orders on orders.user_id = users.id" ≡ true
unfolding is_valid_join_clause
plain_join = refl

-- A column whose name ends in a keyword is taken for the keyword.
column_named_like_a_keyword :
    is_valid_join_clause "JOIN jobs ON jobs.last_update = users.seen" ≡ false
unfolding is_valid_join_clause
column_named_like_a_keyword = refl
