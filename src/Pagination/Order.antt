-- ===== src/Pagination/Order.antt =====
-- Pages that are queried one by one: each query may arrange the matching rows anew, and an order
-- without ties leaves only one arrangement.
use rooti_server.Base.{
  ℕ, zero, suc, ◌≤◌, ◌≡◌, ◌≢◌, refl, sym, ap, ◌∙◌, ◌↔◌, inl, inr, List, [], ◌∷◌, ◌++◌, length, In,
  arith,
}
use rooti_server.Sql.{Direction, asc, desc, InOrder, Ordered}
use rooti_server.Pagination.{paged, total_pages}
use rooti_server.Pagination.Laws.{pages, pages_cover}

InOrder-trans : (d : Direction) (a b c : ℕ) → InOrder d a b → InOrder d b c → InOrder d a c
InOrder-trans asc a b c h k = omega arith
InOrder-trans desc a b c h k = omega arith

InOrder-antisym : (d : Direction) (a b : ℕ) → InOrder d a b → InOrder d b a → a ≡ b
InOrder-antisym asc a b h k = omega arith
InOrder-antisym desc a b h k = omega arith

module _ {T : Type 0} (d : Direction) (key : T → ℕ) where
  -- No two of the rows have the same key.
  abbrev pub WithoutTies : List T → Type 0
  WithoutTies [] = Unit {0}
  WithoutTies (x ∷ rows) = ((b : T) → In b rows → key x ≢ key b) × WithoutTies rows

  -- What one query of a search gives before its window: the matching rows, in the order of the key.
  abbrev pub Arranges : List T → List T → Type 0
  Arranges matching rows =
      Ordered d key rows × WithoutTies rows × ((a : T) → In a rows ↔ In a matching)

  first-InOrder :
      (x : T) (rows : List T) (b : T)
      → Ordered d key (x ∷ rows)
      → In b rows
      → InOrder d (key x) (key b)
  first-InOrder x [] b h m = absurd m
  first-InOrder x (y ∷ rows) b (h, rest) (inl e) = rw e h
  first-InOrder x (y ∷ rows) b (h, rest) (inr m) =
      InOrder-trans d (key x) (key y) (key b) h (first-InOrder y rows b rest m)

  tail-Ordered : (x : T) (rows : List T) → Ordered d key (x ∷ rows) → Ordered d key rows
  tail-Ordered x [] h = tt
  tail-Ordered x (y ∷ rows) h = h.1

  same_first :
      (x y : T) (xs ys : List T)
      → Ordered d key (x ∷ xs)
      → Ordered d key (y ∷ ys)
      → WithoutTies (y ∷ ys)
      → In x (y ∷ ys)
      → In y (x ∷ xs)
      → x ≡ y
  same_first x y xs ys ox oy ties (inl e) n = e
  same_first x y xs ys ox oy ties (inr m) (inl e) = sym e
  same_first x y xs ys ox oy ties (inr m) (inr n) = absurd (
      ties.0 x m
        (InOrder-antisym d (key y) (key x) (first-InOrder y ys x oy m) (first-InOrder x xs y ox n)))

  tail_member :
      (x y a : T) (xs ys : List T)
      → x ≡ y
      → WithoutTies (x ∷ xs)
      → In a xs
      → In a (y ∷ ys)
      → In a ys
  tail_member x y a xs ys same ties m (inl e) = absurd (ties.0 a m (ap key (same ∙ sym e)))
  tail_member x y a xs ys same ties m (inr n) = n

  -- Only one arrangement of given rows has the order of a key without ties.
  one_arrangement :
      (xs ys : List T)
      → Ordered d key xs
      → Ordered d key ys
      → WithoutTies xs
      → WithoutTies ys
      → ((a : T) → In a xs → In a ys)
      → ((a : T) → In a ys → In a xs)
      → xs ≡ ys
  one_arrangement [] [] ox oy tx ty to from = refl
  one_arrangement [] (y ∷ ys) ox oy tx ty to from = absurd (from y (inl refl))
  one_arrangement (x ∷ xs) [] ox oy tx ty to from = absurd (to x (inl refl))
  one_arrangement (x ∷ xs) (y ∷ ys) ox oy tx ty to from =
      let same = same_first x y xs ys ox oy ty (to x (inl refl)) (from y (inl refl)) in
      let tails =
        one_arrangement xs ys (tail-Ordered x xs ox) (tail-Ordered y ys oy) tx.1 ty.1
          (λ a m. tail_member x y a xs ys same tx m (to a (inr m)))
          (λ a m. tail_member y x a ys xs (sym same) ty m (from a (inr m))) in
      ap (λ z. z ∷ xs) same ∙ ap (λ zs. y ∷ zs) tails

  -- The first `n` pages, in sequence; the query of page `k` sees the arrangement `answers k`.
  abbrev pub separate_pages : ℕ → ℕ → (ℕ → List T) → List T
  separate_pages size zero answers = []
  separate_pages size (suc n) answers =
      separate_pages size n answers
      ++ (paged (record { page = n; size = size }) (answers n)).content

  separate-pages :
      (size n : ℕ) (answers : ℕ → List T) (rows : List T)
      → ((k : ℕ) → answers k ≡ rows)
      → separate_pages size n answers ≡ pages size n rows
  separate-pages size zero answers rows same = refl
  separate-pages size (suc n) answers rows same =
      rw (separate-pages size n answers rows same, same n) refl

  -- Every page is queried on its own, and each query may arrange the rows that match the search as it
  -- likes within the order of the key. If no two of them have the same key, then the pages of a size
  -- from 1 on, up to the `total_pages` of any of the answers, are put together all the rows, in the
  -- order of the key, each once.
  pub separate_pages_cover :
      (size k : ℕ) (matching : List T) (answers : ℕ → List T)
      → 1 ≤ size
      → ((n : ℕ) → Arranges matching (answers n))
      → (separate_pages size (total_pages (length (answers k)) size) answers ≡ answers k)
        × Arranges matching (separate_pages size (total_pages (length (answers k)) size) answers)
  separate_pages_cover size k matching answers positive arranged =
      let same : (n : ℕ) → answers n ≡ answers k = λ n.
        one_arrangement (answers n) (answers k) (arranged n).0 (arranged k).0 (arranged n).1
          (arranged k).1 (λ a m. ((arranged k).2 a).1 (((arranged n).2 a).0 m))
          (λ a m. ((arranged n).2 a).1 (((arranged k).2 a).0 m)) in
      let all =
        separate-pages size (total_pages (length (answers k)) size) answers (answers k) same
        ∙ pages_cover size (answers k) positive in
      (all, rw all (arranged k))
