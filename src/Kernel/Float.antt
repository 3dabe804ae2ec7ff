-- ===== src/Kernel/Float.antt =====
-- All that the kernel does with a `float`. The type and its operations are parameters.
use pdxearch.Prelude.{ℕ, ◌*◌, ◌^◌, ◌≡◌, ◌⊎◌, Bool, true, false, ltb, leb, ◌==◌, arith}

pub record Float {ℓ} (F : Type ℓ) : Type ℓ where
  pub lt : F → F → Bool
  pub ge : F → F → Bool
  pub eq : F → F → Bool
  pub one : F
  -- `std::numeric_limits<float>::max()`
  pub greatest : F
  pub mul : F → F → F
  -- `static_cast<float>` of a `uint32_t`
  pub of_u32 : ℕ → F
  -- `static_cast<uint32_t>`, which truncates
  pub to_u32 : F → ℕ

infix 4 ◌≺◌
abbrev pub ◌≺◌ {ℓ} : {F : Type ℓ} ⦃f : Float F⦄ → F → F → Type 0
◌≺◌ ⦃f⦄ x y = f.lt x y ≡ true

-- What IEEE 754 says of the comparisons of values that are not NaN.
pub record IsOrdered {ℓ} (F : Type ℓ) ⦃f : Float F⦄ : Type ℓ where
  pub irreflexive : (x : F) → f.lt x x ≡ false
  pub transitive : (x y z : F) → x ≺ y → y ≺ z → x ≺ z
  pub separates : (x y z : F) → x ≺ z → (x ≺ y) ⊎ (y ≺ z)
  pub eq_refl : (x : F) → f.eq x x ≡ true
  pub eq-of_lt : (x y : F) → x ≺ y → f.eq x y ≡ false

-- The laws can be met: whole numbers up to a greatest one.
instance abbrev pub whole : Float ℕ
whole = record {
  lt = ltb;
  ge = λ a b. leb b a;
  eq = ◌==◌;
  one = 1;
  greatest = 10 ^ 12;
  mul = ◌*◌;
  of_u32 = λ n. n;
  to_u32 = λ n. n;
}

pub whole-IsOrdered : IsOrdered ℕ
whole-IsOrdered = ground arith
