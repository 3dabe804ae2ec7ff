-- ===== src/Wrapper/Counting.antt =====
-- The predicate evaluator counts what it marks.
use pdxearch.Prelude.{
  ℕ, zero, suc, ◌+◌, ◌<◌, ◌≡◌, refl, ap, ◌∙◌, inl, inr, Bool, false, ◌||◌, ◌&&◌, List, [], ◌∷◌,
  arith, ◌==◌, length, select, select-append, prefix, Bool-cases,
}
use pdxearch.Computers.Visit.{count, count-range}
use pdxearch.Kernel.Positions.Compaction.{range}
use pdxearch.Wrapper.Evaluator.{any}

pub select-range :
    (p q : ℕ → Bool) (n : ℕ)
    → ((v : ℕ) → v < n → p v ≡ q v)
    → select p (range n) ≡ select q (range n)
unfolding prefix
select-range p q zero h = refl
select-range p q (suc n) h =
    rw
      (
        select-append p (range n) (n ∷ []),
        select-append q (range n) (n ∷ []),
        select-range p q n (λ v lt. h v (omega arith)),
        h n (omega arith),
      )
      refl

select-none : (xs : List ℕ) → length (select (λ v. false) xs) ≡ 0
select-none [] = refl
select-none (x ∷ xs) = select-none xs

select-one_more :
    (q : ℕ → Bool) (v : ℕ) (xs : List ℕ)
    → q v ≡ false
    → length (select (λ w. v == w || q w) xs) ≡ length (select q xs) + count v xs
select-one_more q v [] e = refl
select-one_more q v (x ∷ xs) e = elim (Bool-cases (v == x)) [
  | inl here ↦ let same : v ≡ x = ground arith in ground (arith, select-one_more q v xs e)
  | inr away ↦ ground (arith, select-one_more q v xs e)
]

-- Different rows.
abbrev pub IsRepeatFree : List ℕ → Type 0
IsRepeatFree [] = Unit
IsRepeatFree (r ∷ rows) = (any (λ q. q == r) rows ≡ false) × IsRepeatFree rows

module _ (cluster position : ℕ → ℕ) (id n : ℕ) where
  abbrev pub is_at : ℕ → List ℕ → Bool
  is_at v rows = any (λ r. cluster r == id && position r == v) rows

  -- The rows of the cluster are at different positions of it.
  abbrev pub AreApart : List ℕ → Type 0
  AreApart [] = Unit
  AreApart (r ∷ rows) =
      (cluster r ≡ id → (position r < n) × (is_at (position r) rows ≡ false)) × AreApart rows

  -- As many positions are taken as there are rows.
  pub positions_taken :
      (rows : List ℕ)
      → AreApart rows
      → length (select (λ v. is_at v rows) (range n)) ≡ length (select (λ r. cluster r == id) rows)
  positions_taken [] h = select-none (range n)
  positions_taken (r ∷ rows) (here, rest) = elim (Bool-cases (cluster r == id)) [
    | inr elsewhere ↦
        rw elsewhere (ap length (select-range _ _ n (λ v lt. refl)) ∙ positions_taken rows rest)
    | inl same ↦
        let e : cluster r ≡ id = ground arith in
        let (inside, free) = here e in
        let once : count (position r) (range n) ≡ 1 = count-range (position r) n ∙ ground arith in
        rw same (
          select-one_more (λ v. is_at v rows) (position r) (range n) free
          ∙ omega (arith, positions_taken rows rest))
  ]
