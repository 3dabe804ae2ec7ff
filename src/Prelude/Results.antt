-- ===== src/Prelude/Results.antt =====
-- Exceptions as values.
use mathlib.Core.Path.{◌≡◌, refl}
use mathlib.Core.Bool.{Bool, true, false}

-- An exception, or what a call returns.
pub data Result {ℓ κ} (E : Type ℓ) (A : Type κ) : Type (ℓ ⊔ κ) where
  err : E → Result E A
  ok : A → Result E A

-- `if (test) { throw e; }`
abbrev pub throw_if {ℓ} : {E : Type ℓ} → Bool → E → Result E (Unit {0})
throw_if thrown e = elim thrown [ true ↦ err e | false ↦ ok tt ]

module _ {ℓ κ} {E : Type ℓ} {B : Type κ} where
  infixl 5 ◌>>=◌ ◌>>◌
  abbrev pub ◌>>=◌ {μ} : {A : Type μ} → Result E A → (A → Result E B) → Result E B
  ◌>>=◌ call next = elim call [ err e ↦ err e | ok a ↦ next a ]

  abbrev pub ◌>>◌ : Result E (Unit {0}) → Result E B → Result E B
  ◌>>◌ call next = elim call [ err e ↦ err e | ok done ↦ next ]

  -- A statement after which another one returns has not thrown.
  pub >>-ok :
      (call : Result E (Unit {0})) (next : Result E B) {b : B}
      → (call >> next) ≡ ok b
      → (call ≡ ok tt) × (next ≡ ok b)
  >>-ok (err e) next h = cc
  >>-ok (ok tt) next h = (refl, h)

  -- Nor has one whose value the rest goes on with.
  pub >>=-ok {μ} :
      {A : Type μ} (call : Result E A) (next : A → Result E B) {b : B}
      → (call >>= next) ≡ ok b
      → (a : A) × (call ≡ ok a) × (next a ≡ ok b)
  >>=-ok (err e) next h = cc
  >>=-ok (ok a) next h = (a, refl, h)

pub err-ne-ok {ℓ κ μ} : {E : Type ℓ} {A : Type κ} {e : E} {a : A} {G : Type μ} → err e ≡ ok a → G
err-ne-ok h = cc
