-- ===== src/Sql/Memory.antt =====
-- A database in memory that meets the interface: a table is a list of slots, the key of a row is
-- its position, and a deleted row leaves an empty slot.
use rooti_server.Base.{
  ℕ, zero, suc, ◌+◌, ◌≡◌, refl, ap, ◌∙◌, ◌⊎◌, inl, inr, Bool, true, false, Option, none, some, List,
  [], ◌∷◌, ◌++◌, arith, leb, leb→le, ◌==◌, str_eq, if◌then◌else◌, length, In, Bool-cases,
}
use native.Mathlib.Nat.{add-zero}
use rooti_server.Sql.{Sql, Direction, asc, desc, InOrder, Ordered, DistinctKeys}

abbrev pub Slots : Type 0 → Type 0
Slots R = List (Option R)

module _ {A : Type 0} where
  In-if :
      (b : Bool) (a x : A) (rest : List A)
      → In a (if b then x ∷ rest else rest)
      → ((b ≡ true) × (a ≡ x)) ⊎ In a rest
  In-if true a x rest (inl e) = inl (refl, e)
  In-if true a x rest (inr m) = inr m
  In-if false a x rest m = inr m

  If-In_head :
      (b : Bool) (a x : A) (rest : List A) → b ≡ true → a ≡ x → In a (if b then x ∷ rest else rest)
  If-In_head true a x rest h e = inl e
  If-In_head false a x rest h e = cc

  If-In_tail :
      (b : Bool) (a x : A) (rest : List A) → In a rest → In a (if b then x ∷ rest else rest)
  If-In_tail true a x rest m = inr m
  If-In_tail false a x rest m = m

shift : (i j : ℕ) → i + suc j ≡ suc i + j
shift i j = omega arith

module _ {R : Type 0} where
  abbrev pub get : ℕ → Slots R → Option R
  get k [] = none
  get zero (s ∷ t) = s
  get (suc k) (s ∷ t) = get k t

  abbrev pub update : ℕ → R → Slots R → Slots R
  update k r [] = []
  update zero r (none ∷ t) = none ∷ t
  update zero r (some q ∷ t) = some r ∷ t
  update (suc k) r (s ∷ t) = s ∷ update k r t

  abbrev pub delete : ℕ → Slots R → Slots R
  delete k [] = []
  delete zero (s ∷ t) = none ∷ t
  delete (suc k) (s ∷ t) = s ∷ delete k t

  abbrev pub insert : R → Slots R → Option (ℕ × Slots R)
  insert r t = some (length t, t ++ some r ∷ [])

  -- Rows from position `i` on.
  abbrev pub select_from : ℕ → (ℕ → R → Bool) → Slots R → List (ℕ × R)
  select_from i p [] = []
  select_from i p (none ∷ t) = select_from (suc i) p t
  select_from i p (some r ∷ t) =
      let rest = select_from (suc i) p t in if p i r then (i, r) ∷ rest else rest

  get-length : (t : Slots R) → get (length t) t ≡ none
  get-length [] = refl
  get-length (s ∷ t) = get-length t

  get-append :
      (t : Slots R) (r : R) (j : ℕ)
      → get j (t ++ some r ∷ []) ≡ (if length t == j then some r else get j t)
  get-append [] r zero = refl
  get-append [] r (suc j) = ground arith
  get-append (s ∷ t) r zero = ground arith
  get-append (s ∷ t) r (suc j) = ground (arith, get-append t r j)

  pub get-update_lem :
      (k : ℕ) (r : R) (t : Slots R) (j : ℕ)
      → get j (update k r t)
        ≡ (if k == j then elim (get j t) [ none ↦ none | some _ ↦ some r ] else get j t)
  get-update_lem k r [] j = ground arith
  get-update_lem zero r (none ∷ t) zero = refl
  get-update_lem zero r (some q ∷ t) zero = refl
  get-update_lem zero r (none ∷ t) (suc j) = ground arith
  get-update_lem zero r (some q ∷ t) (suc j) = ground arith
  get-update_lem (suc k) r (s ∷ t) zero = ground arith
  get-update_lem (suc k) r (s ∷ t) (suc j) = ground (arith, get-update_lem k r t j)

  pub get-delete_lem :
      (k : ℕ) (t : Slots R) (j : ℕ) → get j (delete k t) ≡ (if k == j then none else get j t)
  get-delete_lem k [] j = ground arith
  get-delete_lem zero (s ∷ t) zero = refl
  get-delete_lem zero (s ∷ t) (suc j) = ground arith
  get-delete_lem (suc k) (s ∷ t) zero = ground arith
  get-delete_lem (suc k) (s ∷ t) (suc j) = ground (arith, get-delete_lem k t j)

  select_sound_lem :
      (i : ℕ) (p : ℕ → R → Bool) (t : Slots R) (k : ℕ) (r : R)
      → In (k, r) (select_from i p t)
      → (j : ℕ) × (k ≡ i + j) × (get j t ≡ some r) × (p k r ≡ true)
  select_sound_lem i p [] k r h = absurd h
  select_sound_lem i p (none ∷ t) k r h =
      let a = select_sound_lem (suc i) p t k r h in (suc a.0, omega (arith, a.1), a.2, a.3)
  select_sound_lem i p (some q ∷ t) k r h = elim (In-if (p i q) (k, r) (i, q) _ h) [
    | inl e ↦ (0, ground arith, ground arith, ground arith)
    | inr m ↦ let a = select_sound_lem (suc i) p t k r m in (suc a.0, omega (arith, a.1), a.2, a.3)
  ]

  select_complete_lem :
      (i : ℕ) (p : ℕ → R → Bool) (t : Slots R) (j : ℕ) (r : R)
      → get j t ≡ some r
      → p (i + j) r ≡ true
      → In (i + j, r) (select_from i p t)
  select_complete_lem i p [] j r g h = cc
  select_complete_lem i p (none ∷ t) zero r g h = cc
  select_complete_lem i p (none ∷ t) (suc j) r g h =
      rw (shift i j) (select_complete_lem (suc i) p t j r g (rw (shift i j) at h))
  select_complete_lem i p (some q ∷ t) zero r g h =
      If-In_head (p i q) _ _ _ (cc (add-zero i)) (cc (add-zero i))
  select_complete_lem i p (some q ∷ t) (suc j) r g h =
      If-In_tail (p i q) _ _ _
        (rw (shift i j) (select_complete_lem (suc i) p t j r g (rw (shift i j) at h)))

  pub select_distinct_lem :
      (i : ℕ) (p : ℕ → R → Bool) (t : Slots R) → DistinctKeys (select_from i p t)
  select_distinct_lem i p [] = tt
  select_distinct_lem i p (none ∷ t) = select_distinct_lem (suc i) p t
  select_distinct_lem i p (some q ∷ t) = elim (Bool-cases (p i q)) [
    | inl e ↦ rw e (fresh, select_distinct_lem (suc i) p t)
    | inr e ↦ rw e (select_distinct_lem (suc i) p t)
  ]
    where
      fresh : (j : ℕ) (s : R) → In (j, s) (select_from (suc i) p t) → i ≡ j → ⊥
      fresh j s m e = let a = select_sound_lem (suc i) p t j s m in omega (arith, a.1)

abbrev pub before : Direction → ℕ → ℕ → Bool
before asc a b = leb a b
before desc a b = leb b a

before-true : (d : Direction) (a b : ℕ) → before d a b ≡ true → InOrder d a b
before-true asc a b h = leb→le a b h
before-true desc a b h = leb→le b a h

before-false : (d : Direction) (a b : ℕ) → before d a b ≡ false → InOrder d b a
before-false asc a b h = ground arith
before-false desc a b h = ground arith

module _ {A : Type 0} (d : Direction) (key : A → ℕ) where
  abbrev pub insert_sorted : A → List A → List A
  insert_sorted a [] = a ∷ []
  insert_sorted a (x ∷ xs) =
      let rest = insert_sorted a xs in if before d (key a) (key x) then a ∷ x ∷ xs else x ∷ rest

  abbrev pub order_by : List A → List A
  order_by [] = []
  order_by (x ∷ xs) = insert_sorted x (order_by xs)

  length-insert_sorted : (a : A) (xs : List A) → length (insert_sorted a xs) ≡ suc (length xs)
  length-insert_sorted a [] = refl
  length-insert_sorted a (x ∷ xs) = elim (Bool-cases (before d (key a) (key x))) [
    | inl e ↦ rw e
    | inr e ↦ rw e (ap suc (length-insert_sorted a xs))
  ]

  pub length-order_by_lem : (xs : List A) → length (order_by xs) ≡ length xs
  length-order_by_lem [] = refl
  length-order_by_lem (x ∷ xs) =
      length-insert_sorted x (order_by xs) ∙ ap suc (length-order_by_lem xs)

  In-insert_sorted : (a : A) (xs : List A) (b : A) → In b (insert_sorted a xs) → In b (a ∷ xs)
  In-insert_sorted a [] b m = m
  In-insert_sorted a (x ∷ xs) b m = elim (Bool-cases (before d (key a) (key x))) [
    | inl e ↦ rw e at m
    | inr e ↦ elim (rw e at m) [
      | inl h ↦ inr (inl h)
      | inr h ↦ elim (In-insert_sorted a xs b h) [ inl g ↦ inl g | inr g ↦ inr (inr g) ]
    ]
  ]

  In-insert_sorted-In : (a : A) (xs : List A) (b : A) → In b (a ∷ xs) → In b (insert_sorted a xs)
  In-insert_sorted-In a [] b m = m
  In-insert_sorted-In a (x ∷ xs) b m = elim (Bool-cases (before d (key a) (key x))) [
    | inl e ↦ rw e m
    | inr e ↦ rw e (elim m [
      | inl h ↦ inr (In-insert_sorted-In a xs b (inl h))
      | inr h ↦ elim h [ inl g ↦ inl g | inr g ↦ inr (In-insert_sorted-In a xs b (inr g)) ]
    ])
  ]

  pub In-order_by_lem : (xs : List A) (b : A) → In b (order_by xs) → In b xs
  In-order_by_lem [] b m = m
  In-order_by_lem (x ∷ xs) b m = elim (In-insert_sorted x (order_by xs) b m) [
    | inl h ↦ inl h
    | inr h ↦ inr (In-order_by_lem xs b h)
  ]

  pub In_order_by_In_lem : (xs : List A) (b : A) → In b xs → In b (order_by xs)
  In_order_by_In_lem [] b m = m
  In_order_by_In_lem (x ∷ xs) b (inl h) = In-insert_sorted-In x (order_by xs) b (inl h)
  In_order_by_In_lem (x ∷ xs) b (inr h) =
      In-insert_sorted-In x (order_by xs) b (inr (In_order_by_In_lem xs b h))

  -- Under a head that stands before `a`, insertion keeps the order.
  insert_sorted_under :
      (a z : A) (xs : List A)
      → InOrder d (key z) (key a)
      → Ordered d key (z ∷ xs)
      → Ordered d key (z ∷ insert_sorted a xs)
  insert_sorted_under a z [] za h = (za, tt)
  insert_sorted_under a z (x ∷ xs) za h = elim (Bool-cases (before d (key a) (key x))) [
    | inl e ↦ rw e (za, (before-true d _ _ e, h.1))
    | inr e ↦ rw e (h.0, insert_sorted_under a x xs (before-false d _ _ e) h.1)
  ]

  insert_sorted-Ordered :
      (a : A) (xs : List A) → Ordered d key xs → Ordered d key (insert_sorted a xs)
  insert_sorted-Ordered a [] h = tt
  insert_sorted-Ordered a (x ∷ xs) h = elim (Bool-cases (before d (key a) (key x))) [
    | inl e ↦ rw e (before-true d _ _ e, h)
    | inr e ↦ rw e (insert_sorted_under a x xs (before-false d _ _ e) h)
  ]

  pub order_by_Ordered_lem : (xs : List A) → Ordered d key (order_by xs)
  order_by_Ordered_lem [] = tt
  order_by_Ordered_lem (x ∷ xs) = insert_sorted-Ordered x (order_by xs) (order_by_Ordered_lem xs)

pub select_sound_at :
    {R : Type 0} (p : ℕ → R → Bool) (t : Slots R) (k : ℕ) (r : R)
    → In (k, r) (select_from 0 p t)
    → (get k t ≡ some r) × (p k r ≡ true)
select_sound_at p t k r m =
    let a = select_sound_lem 0 p t k r m in let e : k ≡ a.0 = omega (arith, a.1) in (rw e a.2, a.3)

pub select_complete_at :
    {R : Type 0} (p : ℕ → R → Bool) (t : Slots R) (k : ℕ) (r : R)
    → get k t ≡ some r
    → p k r ≡ true
    → In (k, r) (select_from 0 p t)
select_complete_at p t k r g h =
    let e : 0 + k ≡ k = omega arith in rw e at (select_complete_lem 0 p t k r g (rw e h))

pub insert_fresh_lem :
    {R : Type 0} (r : R) (t : Slots R) (k : ℕ) (t' : Slots R)
    → insert r t ≡ some (k, t')
    → get k t ≡ none
insert_fresh_lem r t k t' h = let e : length t ≡ k = cc in rw (← e) (get-length t)

pub get-insert_lem :
    {R : Type 0} (r : R) (t : Slots R) (k : ℕ) (t' : Slots R) (j : ℕ)
    → insert r t ≡ some (k, t')
    → get j t' ≡ (if k == j then some r else get j t)
get-insert_lem r t k t' j h =
    let e : length t ≡ k = cc in
    let f : t ++ some r ∷ [] ≡ t' = cc in rw (← e, ← f) (get-append t r j)

instance abbrev pub memory : Sql
memory = record {
  Table = Slots;
  get = get;
  insert = insert;
  update = update;
  delete = delete;
  accepts = λ before t. true;
  select = select_from 0;
  ilike = str_eq;
  order_by = order_by;
  insert_fresh = insert_fresh_lem;
  get-insert = get-insert_lem;
  get-update = get-update_lem;
  get-delete = get-delete_lem;
  select_sound = select_sound_at;
  select_complete = select_complete_at;
  select_distinct = select_distinct_lem 0;
  length-order_by = length-order_by_lem;
  In-order_by = In-order_by_lem;
  In_order_by_In = In_order_by_In_lem;
  order_by_Ordered = order_by_Ordered_lem;
}
