-- ===== src/Data/Pages.antt =====
-- `paginate` of core/data/normalize.py.
use Prim.Native.Nat.{◌*◌}
use native.Mathlib.Nat.{suc-mul, zero-mul}
use core_host.Base.{
  ℕ, zero, suc, ◌+◌, ◌≤◌, ◌≡◌, refl, sym, ap, ◌∙◌, List, [], ◌∷◌, ◌++◌, length, arith,
}

-- `xs[:n]` and `xs[n:]`
abbrev pub take {ℓ} : {A : Type ℓ} → ℕ → List A → List A
take n [] = []
take zero (x ∷ xs) = []
take (suc n) (x ∷ xs) = x ∷ take n xs

abbrev pub drop {ℓ} : {A : Type ℓ} → ℕ → List A → List A
drop n [] = []
drop zero (x ∷ xs) = x ∷ xs
drop (suc n) (x ∷ xs) = drop n xs

pub record Page {ℓ} (A : Type ℓ) : Type ℓ where
  pub items : List A
  pub total : ℕ
  pub limit : ℕ
  pub offset : ℕ

-- `records[offset:offset + limit]` is what is left of `records[:offset + limit]` after `offset` entries.
unfoldable pub paginate {ℓ} : {A : Type ℓ} → List A → ℕ → ℕ → Page A
paginate records limit offset = record {
  items = drop offset (take (offset + limit) records);
  total = length records;
  limit = limit;
  offset = offset;
}

module _ {ℓ} {A : Type ℓ} where
  -- The items of `k` pages in turn, each with the offset that follows the one before.
  unfoldable pub pages : List A → ℕ → ℕ → List A
  unfolding paginate
  pages xs limit zero = []
  pages xs limit (suc k) = pages xs limit k ++ (paginate xs limit (k * limit)).items

  drop_zero : (xs : List A) → drop 0 xs ≡ xs
  drop_zero [] = refl
  drop_zero (x ∷ xs) = refl

  take_zero : (xs : List A) → take 0 xs ≡ []
  take_zero [] = refl
  take_zero (x ∷ xs) = refl

  take_split : (m n : ℕ) (xs : List A) → take m xs ++ drop m (take (m + n) xs) ≡ take (m + n) xs
  take_split m n [] = refl
  take_split zero n (x ∷ xs) = drop_zero (take (0 + n) (x ∷ xs))
  take_split (suc m) n (x ∷ xs) =
      let e : suc m + n ≡ suc (m + n) = omega arith in rw e (ap (λ ys. x ∷ ys) (take_split m n xs))

  take_all : (n : ℕ) (xs : List A) → length xs ≤ n → take n xs ≡ xs
  take_all n [] h = refl
  take_all zero (x ∷ xs) h = absurd (omega (arith, h))
  take_all (suc n) (x ∷ xs) h = ap (λ ys. x ∷ ys) (take_all n xs (omega (arith, h)))

  pages-take : (xs : List A) (limit k : ℕ) → pages xs limit k ≡ take (k * limit) xs
  unfolding pages paginate
  pages-take xs limit zero = let e : 0 * limit ≡ 0 = zero-mul limit in rw e (sym (take_zero xs))
  pages-take xs limit (suc k) =
      let e : suc k * limit ≡ k * limit + limit = suc-mul k limit in
      rw e (
        ap (λ ys. ys ++ drop (k * limit) (take (k * limit + limit) xs)) (pages-take xs limit k)
        ∙ take_split (k * limit) limit xs)

  -- Enough pages, asked for in turn, give every record once and in order.
  pub pages_all : (xs : List A) (limit k : ℕ) → length xs ≤ k * limit → pages xs limit k ≡ xs
  pages_all xs limit k enough = pages-take xs limit k ∙ take_all (k * limit) xs enough
