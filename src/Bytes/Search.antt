-- ===== src/Bytes/Search.antt =====
-- What `find` and `rfind` return, and cutting a string there.
use toy_dfs.Prelude.{
  ℕ, suc, ◌≡◌, refl, ap, Bool, false, ◌||◌, List, [], ◌∷◌, ◌++◌, arith, nat_beq, none, some, take,
  drop, length,
}
use toy_dfs.Bytes.{Bytes, find_byte, rfind_byte}

unfoldable pub has_byte : ℕ → Bytes → Bool
has_byte c [] = false
has_byte c (x ∷ s) = nat_beq x c || has_byte c s

module _ (c : ℕ) where
  pub find_byte-append :
      (xs ys : Bytes) → has_byte c xs ≡ false → find_byte c (xs ++ c ∷ ys) ≡ some (length xs)
  unfolding find_byte has_byte
  find_byte-append [] ys h = ground arith
  find_byte-append (x ∷ xs) ys h = ground (arith, find_byte-append xs ys)

  pub rfind_byte-none : (ys : Bytes) → has_byte c ys ≡ false → rfind_byte c ys ≡ none
  unfolding rfind_byte has_byte
  rfind_byte-none [] h = refl
  rfind_byte-none (y ∷ ys) h = ground (arith, rfind_byte-none ys)

  pub rfind_byte-append :
      (xs ys : Bytes) → has_byte c ys ≡ false → rfind_byte c (xs ++ c ∷ ys) ≡ some (length xs)
  unfolding rfind_byte
  rfind_byte-append [] ys h = ground (arith, rfind_byte-none ys h)
  rfind_byte-append (x ∷ xs) ys h = ground (arith, rfind_byte-append xs ys h)

module _ {ℓ} {A : Type ℓ} where
  pub take-length : (xs ys : List A) → take (length xs) (xs ++ ys) ≡ xs
  take-length [] ys = refl
  take-length (x ∷ xs) ys = ap (λ r. x ∷ r) (take-length xs ys)

  pub drop-length : (xs ys : List A) → drop (length xs) (xs ++ ys) ≡ ys
  drop-length [] ys = refl
  drop-length (x ∷ xs) ys = drop-length xs ys

  pub drop_past : (xs ys : List A) (y : A) → drop (suc (length xs)) (xs ++ y ∷ ys) ≡ ys
  drop_past [] ys y = refl
  drop_past (x ∷ xs) ys y = drop_past xs ys y
