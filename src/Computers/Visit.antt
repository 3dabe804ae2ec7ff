-- ===== src/Computers/Visit.antt =====
-- A vertical kernel updates each listed embedding as often as it is listed, and no other.
use pdxearch.Prelude.{
  ℕ, zero, suc, ◌+◌, ◌≡◌, refl, ap, inl, inr, Bool, false, List, [], ◌∷◌, ◌++◌, arith, ltb, ◌==◌,
  bit, if◌then◌else◌, select, for_up, Buffer, prefix, Bool-cases,
}
use pdxearch.Computers.{touch}

abbrev pub count : ℕ → List ℕ → ℕ
count v [] = 0
count v (x ∷ xs) = bit (x == v) + count v xs

pub count-append : (v : ℕ) (xs ys : List ℕ) → count v (xs ++ ys) ≡ count v xs + count v ys
count-append v [] ys = omega arith
count-append v (x ∷ xs) ys = omega (arith, count-append v xs ys)

pub count-select :
    (p : ℕ → Bool) (v : ℕ) (xs : List ℕ) → count v (select p xs) ≡ (if p v then count v xs else 0)
count-select p v [] = ground arith
count-select p v (x ∷ xs) = elim (Bool-cases (x == v)) [
  | inl here ↦ let e : x ≡ v = ground arith in rw e (ground (arith, count-select p v xs))
  | inr away ↦ ground (arith, count-select p v xs)
]

-- 0, 1, ..., n - 1 lists each number below n once.
pub count-range : (v n : ℕ) → count v (prefix n (λ i. i)) ≡ bit (ltb v n)
unfolding prefix
count-range v zero = ground arith
count-range v (suc n) = ground (arith, count-append v (prefix n (λ i. i)) (n ∷ []), count-range v n)

module _ {ℓ} {D : Type ℓ} (f : ℕ → D → D) (positions : Buffer ℕ) (v : ℕ) (d : Buffer D) where
  pub touch_unlisted : (n : ℕ) → count v (prefix n positions) ≡ 0 → touch n positions f d v ≡ d v
  unfolding for_up prefix
  touch_unlisted zero h = refl
  touch_unlisted (suc n) h =
      let parts = count-append v (prefix n positions) (positions n ∷ []) in
      let away : (positions n == v) ≡ false = ground (arith, parts) in
      rw away (touch_unlisted n (ground (arith, parts)))

  pub touch_listed :
      (n : ℕ) → count v (prefix n positions) ≡ 1 → touch n positions f d v ≡ f v (d v)
  unfolding for_up prefix
  touch_listed zero h = absurd (omega arith)
  touch_listed (suc n) h =
      let parts = count-append v (prefix n positions) (positions n ∷ []) in
      elim (Bool-cases (positions n == v)) [
        | inl here ↦
            let e : positions n ≡ v = ground arith in
            rw here (rw e (ap (f v) (touch_unlisted n (ground (arith, parts)))))
        | inr away ↦ rw away (touch_listed n (ground (arith, parts)))
      ]
