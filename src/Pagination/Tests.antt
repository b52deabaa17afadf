-- ===== src/Pagination/Tests.antt =====
-- The theorem on pages at five rows, and two queries that arrange tied rows differently.
use rooti_server.Base.{ℕ, ◌≡◌, ◌≢◌, refl, List, [], ◌∷◌, inl, inr, length, In, arith}
use rooti_server.Sql.{desc}
use rooti_server.Pagination.{PageParams, paged, total_pages}
use rooti_server.Pagination.Order.{Arranges, separate_pages, separate_pages_cover}

abbrev own : ℕ → ℕ
own n = n

abbrev rows : List ℕ
rows = 30 ∷ 20 ∷ 10 ∷ []

-- The rows as the table holds them.
abbrev held : List ℕ
held = 10 ∷ 30 ∷ 20 ∷ []

arranged : Arranges desc own held rows
arranged = (
  (omega arith, (omega arith, tt)),
  (differs, (lower, (λ b m. absurd m, tt))),
  λ a. (to a, from a),
)
  where
    differs : (b : ℕ) → In b (20 ∷ 10 ∷ []) → 30 ≢ b
    differs b (inl e) = rw e (λ c. absurd (omega arith))
    differs b (inr (inl e)) = rw e (λ c. absurd (omega arith))
    differs b (inr (inr m)) = absurd m

    lower : (b : ℕ) → In b (10 ∷ []) → 20 ≢ b
    lower b (inl e) = rw e (λ c. absurd (omega arith))
    lower b (inr m) = absurd m

    to : (a : ℕ) → In a rows → In a held
    to a (inl e) = inr (inl e)
    to a (inr (inl e)) = inr (inr (inl e))
    to a (inr (inr (inl e))) = inl e
    to a (inr (inr (inr m))) = absurd m

    from : (a : ℕ) → In a held → In a rows
    from a (inl e) = inr (inr (inl e))
    from a (inr (inl e)) = inl e
    from a (inr (inr (inl e))) = inr (inl e)
    from a (inr (inr (inr m))) = absurd m

separate_pages_cover_example :
    (separate_pages desc own 2 (total_pages (length rows) 2) (λ n. rows) ≡ rows)
    × Arranges desc own held (separate_pages desc own 2 (total_pages (length rows) 2) (λ n. rows))
separate_pages_cover_example =
    separate_pages_cover desc own 2 0 held (λ n. rows) (omega arith) (λ n. arranged)

abbrev page : ℕ → PageParams
page n = record { page = n; size = 1 }

abbrev one_order : List ℕ
one_order = 1 ∷ 2 ∷ []

abbrev other_order : List ℕ
other_order = 2 ∷ 1 ∷ []

-- Two rows with one key: the two queries show the same row on both pages.
ties_repeat :
    ((paged (page 0) one_order).content ≡ 1 ∷ []) × ((paged (page 1) other_order).content ≡ 1 ∷ [])
unfolding paged
ties_repeat = (refl, refl)
