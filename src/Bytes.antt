-- ===== src/Bytes.antt =====
-- `std::string` and `std::vector<char>`: lists of byte values, and the members and functions of the
-- standard library that the program calls on them.
pub mod Decimal
pub mod Search
use Prim.Native.Char.{code}
use toy_dfs.Prelude.{
  ℕ, zero, suc, ◌+◌, ◌≡◌, refl, ◌↔◌, Bool, true, false, ◌&&◌, List, [], ◌∷◌, ◌++◌, String, arith,
  Eq, nat_beq, nat_beq_iff, if◌then◌else◌, Option, none, some, take, drop,
}

abbrev pub Bytes : Type 0
Bytes = List ℕ

-- A string literal.
unfoldable pub codes : String → Bytes
codes String.[] = []
codes (String.◌∷◌ c s) = code c ∷ codes s

unfoldable pub bytes_beq : Bytes → Bytes → Bool
bytes_beq [] [] = true
bytes_beq [] (y ∷ ys) = false
bytes_beq (x ∷ xs) [] = false
bytes_beq (x ∷ xs) (y ∷ ys) = nat_beq x y && bytes_beq xs ys

pub bytes_beq_iff : (a b : Bytes) → (bytes_beq a b ≡ true) ↔ (a ≡ b)
unfolding bytes_beq
bytes_beq_iff [] [] = ground arith
bytes_beq_iff [] (y ∷ ys) = ground arith
bytes_beq_iff (x ∷ xs) [] = ground arith
bytes_beq_iff (x ∷ xs) (y ∷ ys) = ground (arith, bytes_beq_iff xs ys)

instance abbrev pub bytes_eq : Eq Bytes
bytes_eq = record { equal = bytes_beq; equal_iff = bytes_beq_iff }

-- s.empty()
abbrev pub is_empty {ℓ} : {A : Type ℓ} → List A → Bool
is_empty [] = true
is_empty (x ∷ xs) = false

-- s.find(c); `none` is `npos`.
unfoldable pub find_byte : ℕ → Bytes → Option ℕ
find_byte c [] = none
find_byte c (x ∷ s) =
    let rest : Option ℕ = elim (find_byte c s) [ none ↦ none | some i ↦ some (suc i) ] in
    if nat_beq x c then some 0 else rest

-- s.rfind(c)
unfoldable pub rfind_byte : ℕ → Bytes → Option ℕ
rfind_byte c [] = none
rfind_byte c (x ∷ s) = elim (rfind_byte c s) [
  | some i ↦ some (suc i)
  | none ↦ if nat_beq x c then some 0 else none
]
