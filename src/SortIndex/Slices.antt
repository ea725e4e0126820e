-- ===== src/SortIndex/Slices.antt =====
-- Slices of an array after a part of it was written over, for `do_merge` and `qsort` in place.
use osi_s.Prelude.{
  ℕ, zero, suc, ◌+◌, ◌-◌, ◌*◌, ◌≤◌, ◌≡◌, refl, sym, ap, ◌∙◌, List, [], ◌∷◌, ◌++◌, take, drop,
  length, length-append, length-take, length-drop, take-append, take-append-drop, Perm, subst,
  arith,
}
use mathlib.Core.List.Perm
use osi_s.SortIndex.{store, slice}

module _ {ℓ} {A : Type ℓ} where
  pub length-store :
      (at : ℕ) (m base : List A)
      → at + length m ≤ length base
      → length (store at m base) ≡ length base
  unfolding store
  length-store at m base h = omega (
    arith,
    length-append (take at base) (m ++ drop (at + length m) base),
    length-append m (drop (at + length m) base),
    length-take at base,
    length-drop (at + length m) base,
  )

  drop-nil : (n : ℕ) → drop {A = A} n [] ≡ []
  drop-nil zero = refl
  drop-nil (suc n) = refl

  take-nil : (n : ℕ) → take {A = A} n [] ≡ []
  take-nil zero = refl
  take-nil (suc n) = refl

  drop-drop : (n k : ℕ) (xs : List A) → drop n (drop k xs) ≡ drop (k + n) xs
  drop-drop n zero xs = ap (λ i. drop i xs) {x = n} {y = 0 + n} (omega arith)
  drop-drop n (suc k) [] = drop-nil n ∙ sym (drop-nil (suc k + n))
  drop-drop n (suc k) (x ∷ xs) =
      drop-drop n k xs ∙ ap (λ i. drop i (x ∷ xs)) {x = suc (k + n)} {y = suc k + n} (omega arith)

  take-append_left : (n : ℕ) (xs ys : List A) → n ≤ length xs → take n (xs ++ ys) ≡ take n xs
  take-append_left zero xs ys h = refl
  take-append_left (suc n) [] ys h = absurd (omega arith)
  take-append_left (suc n) (x ∷ xs) ys h = ap (◌∷◌ x) (take-append_left n xs ys (omega arith))

  slice-append_left :
      (k n : ℕ) (xs ys : List A) → k + n ≤ length xs → slice k n (xs ++ ys) ≡ slice k n xs
  slice-append_left zero n xs ys h = take-append_left n xs ys (omega arith)
  slice-append_left (suc k) n [] ys h = absurd (omega arith)
  slice-append_left (suc k) n (x ∷ xs) ys h = slice-append_left k n xs ys (omega arith)

  slice-append_right :
      (k n j : ℕ) (xs ys : List A) → length xs + j ≡ k → slice k n (xs ++ ys) ≡ slice j n ys
  slice-append_right k n j [] ys h = ap (λ i. slice i n ys) {x = k} {y = j} (omega arith)
  slice-append_right zero n j (x ∷ xs) ys h = absurd (omega arith)
  slice-append_right (suc k) n j (x ∷ xs) ys h = slice-append_right k n j xs ys (omega arith)

  pub slice-store_before :
      (at k n : ℕ) (m base : List A)
      → at + length m ≤ length base
      → k + n ≤ at
      → slice k n (store at m base) ≡ slice k n base
  unfolding store
  slice-store_before at k n m base h p =
      slice-append_left k n (take at base) (m ++ drop (at + length m) base) (fit)
      ∙ sym (slice-append_left k n (take at base) (drop at base) fit)
      ∙ ap (slice k n) (take-append-drop at base)
    where
      fit : k + n ≤ length (take at base)
      fit = omega (arith, length-take at base)

  pub slice-store_at :
      (at : ℕ) (m base : List A)
      → at + length m ≤ length base
      → slice at (length m) (store at m base) ≡ m
  unfolding store
  slice-store_at at m base h =
      slice-append_right at (length m) 0 (take at base) (m ++ drop (at + length m) base)
        (omega (arith, length-take at base))
      ∙ take-append (length m) m (drop (at + length m) base) refl

  pub slice-store_after :
      (at k n : ℕ) (m base : List A)
      → at + length m ≤ length base
      → at + length m ≤ k
      → slice k n (store at m base) ≡ slice k n base
  unfolding store
  slice-store_after at k n m base h p =
      slice-append_right k n (k - at) (take at base) (m ++ tail)
        (omega (arith, length-take at base))
      ∙ slice-append_right (k - at) n (k - at - length m) m tail (omega arith)
      ∙ sym (
          slice-append_right k n (k - at - length m) (take (at + length m) base) tail
            (omega (arith, length-take (at + length m) base)))
      ∙ ap (slice k n) (take-append-drop (at + length m) base)
    where
      tail : List A
      tail = drop (at + length m) base

  -- Writing a rearrangement of what was there is a rearrangement of the whole.
  pub store-perm :
      (at : ℕ) (m base : List A) → Perm m (slice at (length m) base) → Perm (store at m base) base
  unfolding store
  store-perm at m base p =
      subst (Perm (take at base ++ (m ++ drop (at + length m) base))) whole
        (Perm.append Perm.rfl (Perm.append p Perm.rfl))
    where
      rest : slice at (length m) base ++ drop (at + length m) base ≡ drop at base
      rest =
          ap (λ t. slice at (length m) base ++ t) (sym (drop-drop (length m) at base))
          ∙ take-append-drop (length m) (drop at base)

      whole : take at base ++ (slice at (length m) base ++ drop (at + length m) base) ≡ base
      whole = ap (λ t. take at base ++ t) rest ∙ take-append-drop at base

  pub length-slice :
      (at n : ℕ) (base : List A) → at + n ≤ length base → length (slice at n base) ≡ n
  length-slice at n base h = omega (arith, length-take n (drop at base), length-drop at base)

  take-drop : (n m : ℕ) (xs : List A) → drop n (take (n + m) xs) ≡ take m (drop n xs)
  take-drop zero m xs = ap (λ i. take i xs) {x = 0 + m} {y = m} (omega arith)
  take-drop (suc n) m [] =
      ap (λ i. drop (suc n) (take i [])) {x = suc n + m} {y = suc (n + m)} (omega arith)
      ∙ sym (take-nil m)
  take-drop (suc n) m (x ∷ xs) =
      ap (λ i. drop (suc n) (take i (x ∷ xs))) {x = suc n + m} {y = suc (n + m)} (omega arith)
      ∙ take-drop n m xs

  take-take : (n m : ℕ) (xs : List A) → take n (take (n + m) xs) ≡ take n xs
  take-take zero m xs = refl
  take-take (suc n) m [] =
      ap (λ i. take (suc n) (take i [])) {x = suc n + m} {y = suc (n + m)} (omega arith)
  take-take (suc n) m (x ∷ xs) =
      ap (λ i. take (suc n) (take i (x ∷ xs))) {x = suc n + m} {y = suc (n + m)} (omega arith)
      ∙ ap (◌∷◌ x) (take-take n m xs)

  -- The two halves of a slice are the two slices that `do_merge` reads.
  pub slice_halves :
      (at n : ℕ) (base : List A)
      → (take n (slice at (2 * n) base) ≡ slice at n base)
        × (drop n (slice at (2 * n) base) ≡ slice (at + n) n base)
  slice_halves at n base = (
    ap (λ k. take n (take k (drop at base))) {x = 2 * n} {y = n + n} (omega arith)
        ∙ take-take n n (drop at base),
    ap (λ k. drop n (take k (drop at base))) {x = 2 * n} {y = n + n} (omega arith)
        ∙ take-drop n n (drop at base)
        ∙ ap (take n) (drop-drop n at base),
  )
