-- ===== src/Sql.antt =====
-- The database session behind app/core/database.py: SQLAlchemy over PostgreSQL, which the
-- repository only calls. It is an interface with the documented behaviour that the services rely on.
pub mod Memory
pub mod Query
use rooti_server.Base.{
  ℕ, ◌≤◌, ◌≡◌, Bool, true, Option, none, some, List, [], ◌∷◌, length, In, ◌==◌, String,
  if◌then◌else◌,
}

-- No two of the selected rows have the same primary key.
abbrev pub DistinctKeys : {R : Type 0} → List (ℕ × R) → Type 0
DistinctKeys [] = Unit
DistinctKeys ((k, r) ∷ rows) = ((j : ℕ) (s : _) → In (j, s) rows → k ≡ j → ⊥) × DistinctKeys rows

pub data Direction : Type 0 where
  asc desc : Direction

-- Consecutive rows stand in the order of the direction.
abbrev pub InOrder : Direction → ℕ → ℕ → Type 0
InOrder asc a b = a ≤ b
InOrder desc a b = b ≤ a

abbrev pub Ordered : {A : Type 0} → Direction → (A → ℕ) → List A → Type 0
Ordered d key [] = Unit
Ordered d key (x ∷ []) = Unit
Ordered d key (x ∷ y ∷ rest) = InOrder d (key x) (key y) × Ordered d key (y ∷ rest)

-- Rows are `(primary key, columns)`. `insert` is `session.add` and `flush`: the database chooses
-- the key, or refuses the row by a constraint (`none`). `update` writes a loaded row back.
pub record Sql : Type 1 where
  pub Table : Type 0 → Type 0
  pub get : {R : Type 0} → ℕ → Table R → Option R
  pub insert : {R : Type 0} → R → Table R → Option (ℕ × Table R)
  pub update : {R : Type 0} → ℕ → R → Table R → Table R
  pub delete : {R : Type 0} → ℕ → Table R → Table R
  -- Whether the constraints, in the state before, accept a table with rows updated and deleted.
  pub accepts : {W R : Type 0} → W → Table R → Bool
  pub select : {R : Type 0} → (ℕ → R → Bool) → Table R → List (ℕ × R)
  -- `column ILIKE pattern`
  pub ilike : String → String → Bool
  pub order_by : {A : Type 0} → Direction → (A → ℕ) → List A → List A
  -- the key of an accepted row is new
  pub insert_fresh :
      {R : Type 0} (r : R) (t : Table R) (k : ℕ) (t' : Table R)
      → insert r t ≡ some (k, t')
      → get k t ≡ none
  pub get-insert :
      {R : Type 0} (r : R) (t : Table R) (k : ℕ) (t' : Table R) (j : ℕ)
      → insert r t ≡ some (k, t')
      → get j t' ≡ (if k == j then some r else get j t)
  -- writing back a row that is not there writes nothing
  pub get-update :
      {R : Type 0} (k : ℕ) (r : R) (t : Table R) (j : ℕ)
      → get j (update k r t)
        ≡ (if k == j then elim (get j t) [ none ↦ none | some _ ↦ some r ] else get j t)
  pub get-delete :
      {R : Type 0} (k : ℕ) (t : Table R) (j : ℕ)
      → get j (delete k t) ≡ (if k == j then none else get j t)
  -- WHERE selects the rows of the table that pass the test, each once
  pub select_sound :
      {R : Type 0} (p : ℕ → R → Bool) (t : Table R) (k : ℕ) (r : R)
      → In (k, r) (select p t)
      → (get k t ≡ some r) × (p k r ≡ true)
  pub select_complete :
      {R : Type 0} (p : ℕ → R → Bool) (t : Table R) (k : ℕ) (r : R)
      → get k t ≡ some r
      → p k r ≡ true
      → In (k, r) (select p t)
  pub select_distinct : {R : Type 0} (p : ℕ → R → Bool) (t : Table R) → DistinctKeys (select p t)
  -- ORDER BY keeps the rows and sorts them by the key
  pub length-order_by :
      {A : Type 0} (d : Direction) (key : A → ℕ) (rows : List A)
      → length (order_by d key rows) ≡ length rows
  pub In-order_by :
      {A : Type 0} (d : Direction) (key : A → ℕ) (rows : List A) (a : A)
      → In a (order_by d key rows)
      → In a rows
  pub In_order_by_In :
      {A : Type 0} (d : Direction) (key : A → ℕ) (rows : List A) (a : A)
      → In a rows
      → In a (order_by d key rows)
  pub order_by_Ordered :
      {A : Type 0} (d : Direction) (key : A → ℕ) (rows : List A)
      → Ordered d key (order_by d key rows)
