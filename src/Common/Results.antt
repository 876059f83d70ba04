-- ===== src/Common/Results.antt =====
-- Rust's `Result`, and computations that return one beside a state that stays changed on an error.
use mathlib.Core.Path.{◌≡◌, refl, ap, sym, ◌∙◌}
use mathlib.Core.Logic.{◌⊎◌, inl, inr}

pub data Result (E A : Type 0) : Type 0 where
  ok : A → Result E A
  err : E → Result E A

-- A computation over the state `S`. What happened before an error has happened.
abbrev pub Action : Type 0 → Type 0 → Type 0 → Type 0
Action S E A = S → Result E A × S

module _ {S E : Type 0} where
  infixl 5 ◌>>=◌ ◌>>◌
  abbrev pub ◌>>=◌ : {A B : Type 0} → Action S E A → (A → Action S E B) → Action S E B
  ◌>>=◌ m f s = let (r, s') = m s in elim r [ ok a ↦ f a s' | err e ↦ (err e, s') ]

  abbrev pub ◌>>◌ : {A B : Type 0} → Action S E A → Action S E B → Action S E B
  m >> k = m >>= λ _. k

  abbrev pub pure : {A : Type 0} → A → Action S E A
  pure a s = (ok a, s)

  abbrev pub throw : {A : Type 0} → E → Action S E A
  throw e s = (err e, s)

  -- The `?` on a value that needs no state.
  abbrev pub lift : {A : Type 0} → Result E A → Action S E A
  lift r s = (r, s)

pub Result-cases :
    {E A : Type 0} (r : Result E A) → ((a : A) × (r ≡ ok a)) ⊎ ((e : E) × (r ≡ err e))
Result-cases (ok a) = inl (a, refl)
Result-cases (err e) = inr (e, refl)

-- A bind whose first part is known to end in a value, or in an error.
module _ {S E A B : Type 0} (m : Action S E A) (f : A → Action S E B) (s : S) where
  abbrev after : Result E A × S → Result E B × S
  after p = elim p.0 [ ok a ↦ f a p.1 | err e ↦ (err e, p.1) ]

  pub >>=_ok : {a : A} {s' : S} → m s ≡ (ok a, s') → (m >>= f) s ≡ f a s'
  >>=_ok e = ap after e

  pub >>=_err : {e : E} {s' : S} → m s ≡ (err e, s') → (m >>= f) s ≡ (err e, s')
  >>=_err e = ap after e

pub ok_inj : {E A : Type 0} {a b : A} → ◌≡◌ {A = Result E A} (ok a) (ok b) → a ≡ b
ok_inj h = cc

-- A bind that ended in a value had one from its first part.
pub >>=_inv :
    {S E A B : Type 0} (m : Action S E A) (f : A → Action S E B) (s : S) {b : B}
    → ((m >>= f) s).0 ≡ ok b
    → (a : A) × ((m s).0 ≡ ok a) × ((f a (m s).1).0 ≡ ok b)
>>=_inv m f s h = elim (Result-cases (m s).0) [
  | inl (a, e) ↦ (a, e, ap (λ p. p.0) (sym (>>=_ok m f s (λ i. (e i, (m s).1)))) ∙ h)
  | inr (x, e) ↦ cc (ap (λ p. p.0) (sym (>>=_err m f s (λ i. (e i, (m s).1)))) ∙ h)
]

-- The same, with the whole run.
pub >>=_run :
    {S E A B : Type 0} (m : Action S E A) (f : A → Action S E B) (s : S) {b : B}
    → ((m >>= f) s).0 ≡ ok b
    → (a : A) × ((m s).0 ≡ ok a) × ((m >>= f) s ≡ f a (m s).1)
>>=_run m f s h = let (a, e, e') = >>=_inv m f s h in (a, e, >>=_ok m f s (λ i. (e i, (m s).1)))
