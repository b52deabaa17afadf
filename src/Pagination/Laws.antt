-- ===== src/Pagination/Laws.antt =====
-- What the pages of a result are: `has_next` and `total_pages` against the number of rows, and the
-- pages in sequence against the rows.
use Prim.Native.Nat.{max}
use rooti_server.Base.{
  ℕ, zero, suc, ◌+◌, ◌-◌, ◌*◌, ◌/◌, ◌≤◌, ◌<◌, ◌≡◌, refl, ap, ◌∙◌, ◌↔◌, true, List, [], ◌∷◌, ◌++◌,
  length, take, drop, length-take, arith,
}
use native.Mathlib.Nat.{
  le-div_iff_mul-le, div-lt_iff_lt-mul, zero-add, add-zero, suc-add, zero-mul, mul-le-mul_right,
}
use rooti_server.Pagination.{PageParams, IsChecked, paged, total_pages, max_page_size}

total_pages_lem :
    (size total : ℕ) → 1 ≤ size → total_pages total size ≡ max 1 ((total + size - 1) / size)
unfolding total_pages
total_pages_lem size total c = ground arith

-- A page lies before the last one exactly when the rows reach beyond it.
lt-total_pages :
    (page size total : ℕ)
    → 1 ≤ size
    → (page + 1 < total_pages total size) ↔ ((page + 1) * size < total)
lt-total_pages page size total c =
    let quotient = le-div_iff_mul-le {k = size} {x = page + 2} {y = total + size - 1} c in
    rw (total_pages_lem size total c) (
      λ h.
          let small : (page + 2) * size ≤ total + size - 1 = quotient.0 (omega arith) in
          omega arith,
      λ h.
          let large : page + 2 ≤ (total + size - 1) / size = quotient.1 (omega arith) in
          omega arith,
    )

-- With parameters in their bounds, another page follows exactly when rows are left after this one.
pub has_next_iff :
    {T : Type 0} (params : PageParams) (rows : List T)
    → IsChecked params
    → ((paged params rows).has_next ≡ true) ↔ ((params.page + 1) * params.size < length rows)
unfolding paged
has_next_iff params rows c =
    let pages_left = lt-total_pages params.page params.size (length rows) c.at_least in
    (λ h. pages_left.0 (ground arith), λ h. let more = pages_left.1 h in ground arith)

-- A page holds at most `max_page_size` rows.
pub length-paged-le :
    {T : Type 0} (params : PageParams) (rows : List T)
    → IsChecked params
    → length (paged params rows).content ≤ max_page_size
unfolding paged
length-paged-le params rows c =
    omega (arith, length-take {0} params.size (drop (params.page * params.size) rows), c.at_most)

-- The rows of the first `n` pages, in sequence.
abbrev pub pages : {T : Type 0} → ℕ → ℕ → List T → List T
pages size zero rows = []
pages size (suc n) rows =
    pages size n rows ++ (paged (record { page = n; size = size }) rows).content

take-add :
    {T : Type 0} (m n : ℕ) (rows : List T) → take (m + n) rows ≡ take m rows ++ take n (drop m rows)
take-add zero n rows = rw zero-add
take-add (suc m) zero [] = rw add-zero
take-add (suc m) (suc n) [] = rw suc-add
take-add (suc m) n (x ∷ rows) = rw suc-add (ap (λ l. x ∷ l) (take-add m n rows))

take_all : {T : Type 0} (n : ℕ) (rows : List T) → length rows ≤ n → take n rows ≡ rows
take_all zero [] h = refl
take_all zero (x ∷ rows) h = absurd (omega arith)
take_all (suc n) [] h = refl
take_all (suc n) (x ∷ rows) h = ap (λ l. x ∷ l) (take_all n rows (omega arith))

pages-eq-take : {T : Type 0} (size n : ℕ) (rows : List T) → pages size n rows ≡ take (n * size) rows
unfolding paged
pages-eq-take size zero rows = rw zero-mul
pages-eq-take size (suc n) rows =
    rw (pages-eq-take size n rows, ← take-add (n * size) size rows)
      (ap (λ k. take k rows) (omega arith))

total_pages_reach : (size total : ℕ) → 1 ≤ size → total ≤ total_pages total size * size
total_pages_reach size total c =
    let q = (total + size - 1) / size in
    let past =
      (div-lt_iff_lt-mul {k = size} {x = total + size - 1} {y = q + 1} c).0 (omega arith) in
    let up : q * size ≤ max 1 q * size = mul-le-mul_right size (omega arith) in
    rw (total_pages_lem size total c) (omega arith)

-- Read in sequence up to `total_pages`, the pages of a size from 1 on are all the rows, in their
-- order, each once.
pub pages_cover :
    {T : Type 0} (size : ℕ) (rows : List T)
    → 1 ≤ size
    → pages size (total_pages (length rows) size) rows ≡ rows
pages_cover size rows c =
    pages-eq-take size (total_pages (length rows) size) rows
    ∙ take_all (total_pages (length rows) size * size) rows (total_pages_reach size (length rows) c)
