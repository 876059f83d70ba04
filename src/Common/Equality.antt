-- ===== src/Common/Equality.antt =====
-- Types with a Boolean equality, and membership in a list of such a type.
use mathlib.Core.Path.{◌≡◌, refl}
use mathlib.Core.Logic.{◌↔◌}
use mathlib.Core.Bool.{Bool, true, false, ◌||◌}
use Prim.Native.Nat.{ℕ}
use irosh.Common.Tests.{◌==◌, ==_iff}
use mathlib.Core.List.{List, [], ◌∷◌, ◌++◌}
use native.Mathlib.Omega.{arith}

pub record Eq (A : Type 0) : Type 0 where
  pub beq : A → A → Bool
  pub beq_iff : (a b : A) → (beq a b ≡ true) ↔ (a ≡ b)

instance abbrev pub nat_Eq : Eq ℕ
nat_Eq = record { beq = λ a b. a == b; beq_iff = ==_iff }

module _ {A : Type 0} ⦃e : Eq A⦄ where
  -- `Vec::contains`
  unfoldable pub contains : List A → A → Bool
  contains [] a = false
  contains (x ∷ xs) a = e.beq x a || contains xs a

  pub contains-append_one : (xs : List A) (a : A) → contains (xs ++ (a ∷ [])) a ≡ true
  unfolding contains
  contains-append_one [] a = ground (arith, (e.beq_iff a a).1 refl)
  contains-append_one (x ∷ xs) a = ground (arith, contains-append_one xs a)

  pub contains-append_ne :
      (xs : List A) (a b : A) → contains (xs ++ (a ∷ [])) b ≡ (contains xs b || e.beq a b)
  unfolding contains
  contains-append_ne [] a b = ground arith
  contains-append_ne (x ∷ xs) a b = ground (arith, contains-append_ne xs a b)
