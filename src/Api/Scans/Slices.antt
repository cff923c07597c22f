-- ===== src/Api/Scans/Slices.antt =====
-- Pieces of a list that grows at its end.
use shared_integration.Prelude.{
  ℕ, zero, suc, ◌+◌, ◌≡◌, refl, sym, ap, ◌∙◌, List, [], ◌∷◌, ◌++◌, append_assoc, length, take, drop,
  arith,
}

module _ {ℓ} {A : Type ℓ} where
  -- From the `n`th place on, `whole` goes on with `piece`.
  pub record IsSlice (n : ℕ) (piece whole : List A) : Type ℓ where
    pub rest : List A
    pub at : drop n whole ≡ piece ++ rest

  take-drop : (k : ℕ) (xs : List A) → xs ≡ take k xs ++ drop k xs
  take-drop zero xs = refl
  take-drop (suc k) [] = refl
  take-drop (suc k) (x ∷ xs) = ap (λ ys. x ∷ ys) (take-drop k xs)

  take-nil : (k : ℕ) → ◌≡◌ {A = List A} (take k []) []
  take-nil zero = refl
  take-nil (suc k) = refl

  take-length : (xs ys : List A) → take (length xs) (xs ++ ys) ≡ xs
  take-length [] ys = refl
  take-length (x ∷ xs) ys = ap (λ zs. x ∷ zs) (take-length xs ys)

  drop-length : (xs ys : List A) → drop (length xs) (xs ++ ys) ≡ ys
  drop-length [] ys = refl
  drop-length (x ∷ xs) ys = drop-length xs ys

  drop-nil : (k : ℕ) → ◌≡◌ {A = List A} (drop k []) []
  drop-nil zero = refl
  drop-nil (suc k) = refl

  drop-drop : (n k : ℕ) (xs : List A) → drop (n + k) xs ≡ drop k (drop n xs)
  drop-drop zero k xs = let e : 0 + k ≡ k = omega arith in ap (λ i. drop i xs) e
  drop-drop (suc n) k [] = drop-nil (suc n + k) ∙ sym (drop-nil k)
  drop-drop (suc n) k (x ∷ xs) =
      let e : suc n + k ≡ suc (n + k) = omega arith in
      ap (λ i. drop i (x ∷ xs)) e ∙ drop-drop n k xs

  -- What was taken is a piece still when the list has grown.
  pub take-IsSlice : (n k : ℕ) (xs more : List A) → IsSlice n (take k (drop n xs)) (xs ++ more)
  take-IsSlice zero k xs more = record {
    rest = drop k xs ++ more;
    at = ap (λ ys. ys ++ more) (take-drop k xs) ∙ append_assoc (take k xs) (drop k xs) more;
  }
  take-IsSlice (suc n) k [] more = record {
    rest = drop (suc n) more;
    at = ap (λ ys. ys ++ drop (suc n) more) (sym (take-nil k));
  }
  take-IsSlice (suc n) k (x ∷ xs) more =
      let s = take-IsSlice n k xs more in record { rest = s.rest; at = s.at }

  -- Two pieces in a row are one.
  pub append-IsSlice :
      (n : ℕ) (xs ys whole : List A)
      → IsSlice n xs whole
      → IsSlice (n + length xs) ys whole
      → IsSlice n (xs ++ ys) whole
  append-IsSlice n xs ys whole s t = record {
    rest = t.rest;
    at =
        s.at
        ∙ ap (λ zs. xs ++ zs)
            (sym (drop-length xs s.rest)
              ∙ ap (drop (length xs)) (sym s.at)
              ∙ sym (drop-drop n (length xs) whole)
              ∙ t.at)
        ∙ sym (append_assoc xs ys t.rest);
  }

  pub slice-take :
      (n : ℕ) (piece whole : List A)
      → IsSlice n piece whole
      → piece ≡ take (length piece) (drop n whole)
  slice-take n piece whole s = sym (take-length piece s.rest) ∙ ap (take (length piece)) (sym s.at)
