-- ===== src/Sql/Query.antt =====
-- How the services read a result set: `.first()`, `.scalar_one_or_none()`, OFFSET and LIMIT, and an
-- inner join on a primary key.
use rooti_server.Base.{
  arith, ℕ, ◌≡◌, refl, ◌∙◌, ◌≢◌, inl, inr, Bool, true, false, Option, none, some, List, [], ◌∷◌, In,
  drop, take, Bool-cases, ◌⊎◌, ap, sym,
}
use rooti_server.Sql.{Sql, DistinctKeys}

-- `.first()`
abbrev pub first : {A : Type 0} → List A → Option A
first [] = none
first (x ∷ xs) = some x

-- `.scalar_one_or_none()` raises `MultipleResultsFound` on two rows or more.
pub data OneOrNone (A : Type 0) : Type 0 where
  no_row : OneOrNone A
  one : A → OneOrNone A
  multiple : OneOrNone A

abbrev pub scalar_one_or_none : {A : Type 0} → List A → OneOrNone A
scalar_one_or_none [] = no_row
scalar_one_or_none (x ∷ []) = one x
scalar_one_or_none (x ∷ y ∷ rest) = multiple

abbrev pub cons_some : {A : Type 0} → Option A → List A → List A
cons_some none rest = rest
cons_some (some y) rest = y ∷ rest

pub OneOrNone-cases :
    {A : Type 0} (o : OneOrNone A) → (o ≡ no_row) ⊎ ((a : A) × (o ≡ one a)) ⊎ (o ≡ multiple)
OneOrNone-cases no_row = inl refl
OneOrNone-cases (one a) = inr (inl (a, refl))
OneOrNone-cases multiple = inr (inr refl)

-- `SELECT a, b FROM a JOIN b ON …` where at most one row `f a` is joined to a row `a`.
abbrev pub inner_join : {A B : Type 0} → (A → Option B) → List A → List B
inner_join f [] = []
inner_join f (x ∷ xs) = cons_some (f x) (inner_join f xs)

In-cons_some :
    {A : Type 0} (o : Option A) (rest : List A) (b : A)
    → In b (cons_some o rest)
    → (o ≡ some b) ⊎ In b rest
In-cons_some none rest b m = inr m
In-cons_some (some y) rest b (inl e) = inl (cc)
In-cons_some (some y) rest b (inr m) = inr m

In-cons_some-In :
    {A : Type 0} (o : Option A) (rest : List A) (b : A)
    → (o ≡ some b) ⊎ In b rest
    → In b (cons_some o rest)
In-cons_some-In none rest b (inl e) = cc
In-cons_some-In none rest b (inr m) = m
In-cons_some-In (some y) rest b (inl e) = inl (cc)
In-cons_some-In (some y) rest b (inr m) = inr m

-- The joined rows are those of the rows that have a partner.
pub In-inner_join :
    {A B : Type 0} (f : A → Option B) (xs : List A) (b : B)
    → In b (inner_join f xs)
    → (a : A) × In a xs × (f a ≡ some b)
In-inner_join f [] b m = absurd m
In-inner_join f (x ∷ xs) b m = elim (In-cons_some (f x) (inner_join f xs) b m) [
  | inl e ↦ (x, inl refl, e)
  | inr h ↦ let (a, k, g) = In-inner_join f xs b h in (a, inr k, g)
]

pub In-inner_join-In :
    {A B : Type 0} (f : A → Option B) (xs : List A) (a : A) (b : B)
    → In a xs
    → f a ≡ some b
    → In b (inner_join f xs)
In-inner_join-In f [] a b m e = absurd m
In-inner_join-In f (x ∷ xs) a b (inl same) e =
    In-cons_some-In (f x) (inner_join f xs) b (inl (ap f (sym same) ∙ e))
In-inner_join-In f (x ∷ xs) a b (inr m) e =
    In-cons_some-In (f x) (inner_join f xs) b (inr (In-inner_join-In f xs a b m e))

-- `.offset(o).limit(n)`
abbrev pub window : {A : Type 0} → ℕ → ℕ → List A → List A
window o n rows = take n (drop o rows)

module _ ⦃sql : Sql⦄ where
  -- No row passes the test.
  abbrev pub NoRow : {R : Type 0} → (ℕ → R → Bool) → sql.Table R → Type 0
  NoRow {R} p t = (k : ℕ) (r : R) → sql.get k t ≡ some r → p k r ≡ false

  -- At most one row passes the test.
  abbrev pub AtMostOne : {R : Type 0} → (ℕ → R → Bool) → sql.Table R → Type 0
  AtMostOne {R} p t =
      (j k : ℕ) (r s : R)
      → sql.get j t ≡ some r
      → p j r ≡ true
      → sql.get k t ≡ some s
      → p k s ≡ true
      → j ≡ k

  module _ {R : Type 0} (p : ℕ → R → Bool) (t : sql.Table R) where
    none_selected : (l : List (ℕ × R)) → sql.select p t ≡ l → l ≡ [] → NoRow p t
    none_selected l e h k r g = elim (Bool-cases (p k r)) [
      | inl passes ↦ absurd (rw (e ∙ h) at (sql.select_complete p t k r g passes))
      | inr fails ↦ fails
    ]

    pub first-none : first (sql.select p t) ≡ none → NoRow p t
    first-none h = none_selected (sql.select p t) refl (go (sql.select p t) h)
      where
        go : (l : List (ℕ × R)) → first l ≡ none → l ≡ []
        go [] h = refl
        go (x ∷ l) h = cc

    pub first-some :
        (k : ℕ) (r : R)
        → first (sql.select p t) ≡ some (k, r)
        → (sql.get k t ≡ some r) × (p k r ≡ true)
    first-some k r h = sql.select_sound p t k r (go (sql.select p t) h)
      where
        go : (l : List (ℕ × R)) → first l ≡ some (k, r) → In (k, r) l
        go [] h = cc
        go (x ∷ l) h = inl (cc)

    pub one-no_row : scalar_one_or_none (sql.select p t) ≡ no_row → NoRow p t
    one-no_row h = none_selected (sql.select p t) refl (go (sql.select p t) h)
      where
        go : (l : List (ℕ × R)) → scalar_one_or_none l ≡ no_row → l ≡ []
        go [] h = refl
        go (x ∷ []) h = cc
        go (x ∷ y ∷ l) h = cc

    pub one-one :
        (k : ℕ) (r : R)
        → scalar_one_or_none (sql.select p t) ≡ one (k, r)
        → (sql.get k t ≡ some r) × (p k r ≡ true)
    one-one k r h = sql.select_sound p t k r (go (sql.select p t) h)
      where
        go : (l : List (ℕ × R)) → scalar_one_or_none l ≡ one (k, r) → In (k, r) l
        go [] h = cc
        go (x ∷ []) h = inl (cc)
        go (x ∷ y ∷ l) h = cc

    -- With at most one matching row the query does not raise `MultipleResultsFound`.
    pub one-ne-multiple : AtMostOne p t → scalar_one_or_none (sql.select p t) ≢ multiple
    one-ne-multiple uniq h =
        go (sql.select p t) (sql.select_distinct p t) (λ k r m. sql.select_sound p t k r m) h
      where
        go :
            (l : List (ℕ × R))
            → DistinctKeys l
            → ((k : ℕ) (r : R) → In (k, r) l → (sql.get k t ≡ some r) × (p k r ≡ true))
            → scalar_one_or_none l ≡ multiple
            → ⊥
        go [] d s h = cc
        go (x ∷ []) d s h = cc
        go ((j, r) ∷ (k, q) ∷ l) d s h =
            let a = s j r (inl refl) in
            let b = s k q (inr (inl refl)) in d.0 k q (inl refl) (uniq j k r q a.0 a.1 b.0 b.1)

    -- Two matching rows make the query raise.
    pub one-multiple :
        (j k : ℕ) (r s : R)
        → sql.get j t ≡ some r
        → p j r ≡ true
        → sql.get k t ≡ some s
        → p k s ≡ true
        → j ≢ k
        → scalar_one_or_none (sql.select p t) ≡ multiple
    one-multiple j k r s gr pr gs ps ne =
        go (sql.select p t) (sql.select_complete p t j r gr pr) (sql.select_complete p t k s gs ps)
      where
        go : (l : List (ℕ × R)) → In (j, r) l → In (k, s) l → scalar_one_or_none l ≡ multiple
        go [] m n = absurd m
        go (x ∷ []) (inl m) (inl n) = absurd (ne (ap (λ x. x.0) (m ∙ sym n)))
        go (x ∷ []) (inl m) (inr n) = absurd n
        go (x ∷ []) (inr m) n = absurd m
        go (x ∷ y ∷ l) m n = refl

    -- With no matching row the query gives `None`.
    pub one_of_NoRow : NoRow p t → scalar_one_or_none (sql.select p t) ≡ no_row
    one_of_NoRow none_match = go (sql.select p t) (λ k r m.
        let found = sql.select_sound p t k r m in absurd (cc (none_match k r found.0, found.1)))
      where
        go :
            (l : List (ℕ × R)) → ((k : ℕ) (r : R) → In (k, r) l → ⊥) → scalar_one_or_none l ≡ no_row
        go [] h = refl
        go ((k, r) ∷ l) h = absurd (h k r (inl refl))

    pub first_of_NoRow : NoRow p t → first (sql.select p t) ≡ none
    first_of_NoRow none_match = go (sql.select p t) (λ k r m.
        let found = sql.select_sound p t k r m in absurd (cc (none_match k r found.0, found.1)))
      where
        go : (l : List (ℕ × R)) → ((k : ℕ) (r : R) → In (k, r) l → ⊥) → first l ≡ none
        go [] h = refl
        go ((k, r) ∷ l) h = absurd (h k r (inl refl))

    -- A matching row is the answer if at most one row matches.
    pub one_of_AtMostOne :
        (k : ℕ) (r : R)
        → AtMostOne p t
        → sql.get k t ≡ some r
        → p k r ≡ true
        → scalar_one_or_none (sql.select p t) ≡ one (k, r)
    one_of_AtMostOne k r uniq found passes =
        elim (OneOrNone-cases (scalar_one_or_none (sql.select p t))) [
          | inl e ↦ absurd (cc (one-no_row e k r found, passes))
          | inr rest ↦ elim rest [
            | inl (row, e) ↦
                let sound = one-one row.0 row.1 e in
                let same = uniq row.0 k row.1 r sound.0 sound.1 found passes in
                ground (arith, sound, same)
            | inr e ↦ absurd (one-ne-multiple uniq e)
          ]
        ]
