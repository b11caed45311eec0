-- ===== src/Bytes/Decimal.antt =====
-- `std::to_string` and `std::stoi`, and that the second reads back what the first writes.
use toy_dfs.Prelude.{
  ℕ, zero, suc, ◌+◌, ◌-◌, ◌*◌, ◌/◌, ◌%◌, ◌≤◌, ◌<◌, ◌≡◌, refl, Bool, true, false, ◌&&◌, ◌||◌, [],
  ◌∷◌, ◌++◌, arith, nat_beq, leb, ltb, if◌then◌else◌, Option, none, some, ℤ, pos, negsuc, neg,
  int_max, append-nil,
}
use toy_dfs.Bytes.{Bytes}
use toy_dfs.Bytes.Search.{has_byte}

-- The decimal digits of `n` in front of `out`. The fuel counts digits; `suc n` is always enough.
write_digits : ℕ → ℕ → Bytes → Bytes
write_digits zero n out = out
write_digits (suc fuel) n out =
    let last = (b'0' + n % 10) ∷ out in
    let more = write_digits fuel (n / 10) last in if ltb n 10 then last else more

unfoldable pub to_string_nat : ℕ → Bytes
unfolding write_digits
to_string_nat n = write_digits (suc n) n []

unfoldable pub to_string : ℤ → Bytes
unfolding to_string_nat
to_string (pos n) = to_string_nat n
to_string (negsuc n) = b'-' ∷ to_string_nat (suc n)

abbrev pub is_digit : ℕ → Bool
is_digit c = leb b'0' c && leb c b'9'

-- The value of the digits at the front, after `n`.
unfoldable pub scan : ℕ → Bytes → ℕ
scan n [] = n
scan n (c ∷ s) = let rest = scan (n * 10 + (c - b'0')) s in if is_digit c then rest else n

abbrev is_space : ℕ → Bool
is_space c = nat_beq c 32 || leb 9 c && leb c 13

unfoldable pub skip_spaces : Bytes → Bytes
skip_spaces [] = []
skip_spaces (c ∷ s) = let rest = skip_spaces s in if is_space c then rest else c ∷ s

abbrev pub starts_with_digit : Bytes → Bool
starts_with_digit [] = false
starts_with_digit (c ∷ s) = is_digit c

-- With no digit there, or a value outside `int`, `stoi` throws: `none`.
unfoldable pub magnitude : Bytes → Option ℕ
magnitude s = if starts_with_digit s then some (scan 0 s) else none

unfoldable pub in_range : Bool → ℕ → Option ℤ
in_range true n = if leb n (int_max + 1) then some (neg n) else none
in_range false n = if leb n int_max then some (pos n) else none

unfoldable pub signed : Bool → Option ℕ → Option ℤ
unfolding in_range
signed negative none = none
signed negative (some n) = in_range negative n

unfoldable pub with_sign : Bytes → Option ℤ
unfolding signed magnitude scan
with_sign [] = none
with_sign (c ∷ s) =
    if nat_beq c b'-'
    then signed true (magnitude s)
    else if nat_beq c b'+'
    then signed false (magnitude s)
    else signed false (magnitude (c ∷ s))

unfoldable pub stoi : Bytes → Option ℤ
unfolding with_sign skip_spaces
stoi s = with_sign (skip_spaces s)

scan-write_digits :
    (fuel n : ℕ) (out : Bytes) → n < fuel → scan 0 (write_digits fuel n out) ≡ scan n out
unfolding scan write_digits
scan-write_digits zero n out h = absurd (omega arith)
scan-write_digits (suc fuel) n out h =
    ground (arith, scan-write_digits fuel (n / 10) ((b'0' + n % 10) ∷ out))

write_digits-append :
    (fuel n : ℕ) (out rest : Bytes)
    → write_digits fuel n out ++ rest ≡ write_digits fuel n (out ++ rest)
unfolding write_digits
write_digits-append zero n out rest = refl
write_digits-append (suc fuel) n out rest =
    ground (arith, write_digits-append fuel (n / 10) ((b'0' + n % 10) ∷ out) rest)

-- What is written starts with a digit, if there is fuel for one.
write_digits_starts :
    (fuel n : ℕ) (out : Bytes)
    → starts_with_digit ((b'0' + n % 10) ∷ out) ≡ true
    → starts_with_digit (write_digits (suc fuel) n out) ≡ true
unfolding write_digits
write_digits_starts zero n out h = ground arith
write_digits_starts (suc fuel) n out h =
    ground (arith, write_digits_starts fuel (n / 10) ((b'0' + n % 10) ∷ out))

module _ (n : ℕ) where
  pub to_string_nat_starts : (rest : Bytes) → starts_with_digit (to_string_nat n ++ rest) ≡ true
  unfolding to_string_nat
  to_string_nat_starts rest =
      rw (write_digits-append (suc n) n [] rest) (write_digits_starts n n rest (ground arith))

  -- The scan stops where the printed number ends.
  pub scan-to_string_nat :
      (rest : Bytes) → starts_with_digit rest ≡ false → scan 0 (to_string_nat n ++ rest) ≡ n
  unfolding to_string_nat
  scan-to_string_nat rest h =
      rw (write_digits-append (suc n) n [] rest, scan-write_digits (suc n) n rest (omega arith))
        (scan_stops rest h)
    where
      scan_stops : (s : Bytes) → starts_with_digit s ≡ false → scan n s ≡ n
      scan_stops [] e = unfold scan in refl
      scan_stops (c ∷ s) e = unfold scan in ground arith

stoi_of_digits : (s : Bytes) → starts_with_digit s ≡ true → stoi s ≡ in_range false (scan 0 s)
unfolding stoi
stoi_of_digits [] h = cc
stoi_of_digits (c ∷ s) h = ground arith

pub stoi-to_string : (n : ℕ) → n ≤ int_max → stoi (to_string_nat n) ≡ some (pos n)
stoi-to_string n h =
    rw
      (
        ← append-nil (to_string_nat n),
        stoi_of_digits _ (to_string_nat_starts n []),
        scan-to_string_nat n [] refl,
      )
      (unfold in_range in ground arith)

-- Past the range of `int` it throws.
pub stoi-to_string_overflow : (n : ℕ) → int_max < n → stoi (to_string_nat n) ≡ none
stoi-to_string_overflow n h =
    rw
      (
        ← append-nil (to_string_nat n),
        stoi_of_digits _ (to_string_nat_starts n []),
        scan-to_string_nat n [] refl,
      )
      (unfold in_range in ground arith)

write_digits-plain :
    (c fuel n : ℕ) (out : Bytes)
    → c < b'0'
    → has_byte c out ≡ false
    → has_byte c (write_digits fuel n out) ≡ false
unfolding write_digits has_byte
write_digits-plain c zero n out h p = p
write_digits-plain c (suc fuel) n out h p =
    ground (arith, write_digits-plain c fuel (n / 10) ((b'0' + n % 10) ∷ out))

-- No printed number holds a byte below '0', such as '/'.
pub to_string_nat-plain :
    (c n : ℕ) (rest : Bytes)
    → c < b'0'
    → has_byte c rest ≡ false
    → has_byte c (to_string_nat n ++ rest) ≡ false
unfolding to_string_nat
to_string_nat-plain c n rest h p =
    rw (write_digits-append (suc n) n [] rest) (write_digits-plain c (suc n) n rest h p)
