-- ===== src/Core/Paginate.antt =====
-- core/query.go: `Paginate` between its two queries: what it makes of the page, of the size and of the
-- total that `Count` gave, and the limit and the offset of the query for `Find`. The numbers are
-- integers of 64 bits.
use native.Mathlib.Nat.{le-div_iff_mul-le, add-div_right}
use jorm.Base.{
  ℕ, zero, suc, ◌+◌, ◌-◌, ◌*◌, ◌/◌, ◌%◌, ◌^◌, ◌<◌, ◌≤◌, ◌≡◌, ◌↔◌, ap, ◌∙◌, ℤ, pos, negsuc, arith,
  ltb, if◌then◌else◌,
}
use jorm.Builder.State.{Builder, set_limit, set_offset}

-- `if page < 1 { page = 1 }`
unfoldable pub page_of : ℤ → ℕ
page_of (pos (suc n)) = suc n
page_of _ = 1

-- `if perPage < 1 { perPage = 10 }`
unfoldable pub per_page_of : ℤ → ℕ
per_page_of (pos (suc n)) = suc n
per_page_of _ = 10

-- A sum or a product that is not negative, in 64 bits: from 2^63 on it turns negative.
unfoldable pub wrap_around : ℕ → ℤ
wrap_around n = let r = n % 2 ^ 64 in if ltb r (2 ^ 63) then pos r else negsuc (2 ^ 64 - 1 - r)

-- The negation of a number.
unfoldable pub negated : ℕ → ℤ
negated zero = pos zero
negated (suc n) = negsuc n

-- Division rounds to zero.
unfoldable pub divided : ℤ → ℕ → ℤ
unfolding negated
divided (pos a) b = pos (a / b)
divided (negsuc a) b = negated (suc a / b)

-- `if total > 0 { totalPage = (total + perPage - 1) / perPage }`
unfoldable pub total_page : ℤ → ℕ → ℤ
unfolding wrap_around divided
total_page (pos (suc t)) per_page = divided (wrap_around (suc t + per_page - 1)) per_page
total_page _ per_page = pos zero

-- `(page - 1) * perPage`
unfoldable pub offset_of : ℕ → ℕ → ℤ
unfolding wrap_around
offset_of page per_page = wrap_around ((page - 1) * per_page)

pub record Pagination : Type 0 where
  pub item_total : ℤ
  pub total_page : ℤ
  pub page : ℕ
  pub per_page : ℕ

-- The answer, and the builder that `Find` runs.
unfoldable pub paginate : ℤ → ℤ → ℤ → Builder → Pagination × Builder
unfolding page_of per_page_of total_page offset_of set_limit set_offset
paginate page per_page total b =
    let p = page_of page in
    let size = per_page_of per_page in
    (
      record { item_total = total; total_page = total_page total size; page = p; per_page = size },
      set_offset (offset_of p size) (set_limit (pos size) b),
    )

wrap_around-small : (n : ℕ) → n < 2 ^ 63 → wrap_around n ≡ pos n
unfolding wrap_around
wrap_around-small n h = ground arith

total_page-small :
    (t q : ℕ) → suc t + suc q - 1 < 2 ^ 63 → total_page (pos (suc t)) (suc q) ≡ pos (t / suc q + 1)
unfolding total_page divided
total_page-small t q h =
    rw (wrap_around-small (suc t + suc q - 1) h)
      (ap (λ n. pos (n / suc q)) e ∙ ap pos (add-div_right t (omega arith)))
  where
    e : suc t + suc q - 1 ≡ t + suc q
    e = omega arith

-- Whether a page that starts at `offset` has an item.
abbrev pub HasItems : ℤ → ℕ → Type 0
HasItems (pos offset) total = offset < total
HasItems (negsuc n) total = ⊥

offset_of-items :
    (k q t : ℕ)
    → k * suc q < 2 ^ 63
    → HasItems (offset_of (suc k) (suc q)) (suc t) ↔ (suc k ≤ t / suc q + 1)
unfolding offset_of
offset_of-items k q t h =
    rw (start, wrap_around-small (k * suc q) h)
      (
        (λ l. let f = fits.1 (omega (arith, l)) in omega (arith, f)),
        (λ l. let g = fits.0 (omega (arith, l)) in omega (arith, g)),
      )
  where
    start : (suc k - 1) * suc q ≡ k * suc q
    start = ap (λ n. n * suc q) e
      where
        e : suc k - 1 ≡ k
        e = omega arith

    fits : (k ≤ t / suc q) ↔ (k * suc q ≤ t)
    fits = le-div_iff_mul-le (omega arith)

-- What `Paginate` says of the pages, with `size` items on each.
abbrev pub Counts : ℕ → ℕ → ℕ → Type 0
Counts size total k =
    (pages : ℕ) × (total_page (pos total) size ≡ pos pages)
    × (HasItems (offset_of (suc k) size) total ↔ (suc k ≤ pages))

total_page-Counts :
    (q t k : ℕ) → suc t + suc q ≤ 2 ^ 63 → k * suc q < 2 ^ 63 → Counts (suc q) (suc t) k
total_page-Counts q t k h h' =
    (t / suc q + 1, total_page-small t q (omega (arith, h)), offset_of-items k q t h')

-- Where no number reaches 2^63 and the total is positive, the number of pages is that of the pages
-- that have items: the page `k + 1`, whose first is page 1, starts before the end of the items exactly
-- when it is at most that number, whatever the size asked for.
pub paginate-Counts :
    (per_page : ℤ) (t k : ℕ)
    → suc t + per_page_of per_page ≤ 2 ^ 63
    → k * per_page_of per_page < 2 ^ 63
    → Counts (per_page_of per_page) (suc t) k
unfolding per_page_of
paginate-Counts (pos (suc n)) t k h h' = total_page-Counts n t k h h'
paginate-Counts (pos zero) t k h h' = total_page-Counts 9 t k h h'
paginate-Counts (negsuc n) t k h h' = total_page-Counts 9 t k h h'
