-- ===== src/Exec.antt =====
-- Service methods: a coroutine that changes the world and may raise. What was written before a
-- raise is still there when the caller sees the exception, so the world comes back beside it.
use rooti_server.Base.{◌≡◌, refl, Bool, Option, none, some, if◌then◌else◌, ◌⊎◌, inl, inr}
use rooti_server.Errors.{Exn}

pub data Result (A : Type 0) : Type 0 where
  ok : A → Result A
  err : Exn → Result A

pub Result-cases : {A : Type 0} (r : Result A) → ((a : A) × (r ≡ ok a)) ⊎ ((e : Exn) × (r ≡ err e))
Result-cases (ok a) = inl (a, refl)
Result-cases (err e) = inr (e, refl)

abbrev pub Exec : Type 0 → Type 0 → Type 0
Exec S A = S → Result A × S

module _ {S A : Type 0} where
  abbrev pub pure : A → Exec S A
  pure a s = (ok a, s)

  abbrev pub raise : Exn → Exec S A
  raise e s = (err e, s)

  abbrev pub gets : (S → A) → Exec S A
  gets f s = (ok (f s), s)

  -- `if x is None: raise e`
  abbrev pub or_raise : Option A → Exn → Exec S A
  or_raise none e = raise e
  or_raise (some a) e = pure a

module _ {S : Type 0} where
  -- `if b: raise e`
  abbrev pub raise_if : Bool → Exn → Exec S (Unit {0})
  raise_if b e s = (if b then err e else ok tt, s)

  abbrev pub modify : (S → S) → Exec S (Unit {0})
  modify f s = (ok tt, f s)

-- `try: … except Exception`: the outcome as a value.
abbrev pub attempt : {S A : Type 0} → Exec S A → Exec S (Result A)
attempt m s = let (r, s') = m s in (ok r, s')

infixl 5 ◌>>=◌ ◌>>◌
abbrev pub ◌>>=◌ : {S A B : Type 0} → Exec S A → (A → Exec S B) → Exec S B
◌>>=◌ m f s = let (r, s') = m s in elim r [ ok a ↦ f a s' | err e ↦ (err e, s') ]

abbrev pub ◌>>◌ : {S A B : Type 0} → Exec S A → Exec S B → Exec S B
m >> n = m >>= λ _. n

-- A call that succeeds has succeeded in both of its parts.
pub >>-eq-ok :
    {S A B : Type 0} (m : Exec S A) (n : Exec S B) (s s' : S) (b : B)
    → (m >> n) s ≡ (ok b, s')
    → (a : A) × (t : S) × (m s ≡ (ok a, t)) × (n t ≡ (ok b, s'))
>>-eq-ok {S = S} {A = A} {B = B} m n s s' b h = go (m s) refl h
  where
    go :
        (r : Result A × S)
        → m s ≡ r
        → elim r.0 [ ok a ↦ n r.1 | err e ↦ (err e, r.1) ] ≡ (ok b, s')
        → (a : A) × (t : S) × (m s ≡ (ok a, t)) × (n t ≡ (ok b, s'))
    go (ok a, t) e h = (a, t, e, h)
    go (err x, t) e h = absurd (cc)

pub >>=-eq-ok :
    {S A B : Type 0} (m : Exec S A) (k : A → Exec S B) (s s' : S) (b : B)
    → (m >>= k) s ≡ (ok b, s')
    → (a : A) × (t : S) × (m s ≡ (ok a, t)) × (k a t ≡ (ok b, s'))
>>=-eq-ok {S = S} {A = A} {B = B} m k s s' b h = go (m s) refl h
  where
    go :
        (r : Result A × S)
        → m s ≡ r
        → elim r.0 [ ok a ↦ k a r.1 | err e ↦ (err e, r.1) ] ≡ (ok b, s')
        → (a : A) × (t : S) × (m s ≡ (ok a, t)) × (k a t ≡ (ok b, s'))
    go (ok a, t) e h = (a, t, e, h)
    go (err x, t) e h = absurd (cc)
