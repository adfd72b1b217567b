-- ===== src/Number/RoundTrip.antt =====
-- std::stoll reads back what std::to_string prints.
use redi_craft.Prelude.{
  ℕ, zero, suc, ◌+◌, ◌/◌, ◌%◌, ◌^◌, ◌≤◌, ◌<◌, ◌≡◌, refl, true, false, some, [], ◌∷◌, arith, ◌==◌,
  if_both, All, Bytes, is_space, is_digit,
}
use redi_craft.Prelude.Int.{ℤ, pos_part, neg_part, IsInt32, IsInt64, pos, negsuc}
use redi_craft.Number.{
  digits, decimal, to_string, skip_space, starts_digit, read, magnitude, signed, stoll, stoi,
}

-- the last digit, read behind the digits before it, completes the number
read_last : (n : ℕ) (out : Bytes) → read (n / 10) ((b'0' + n % 10) ∷ out) ≡ read n out
unfolding read is_digit
read_last n out = ground arith

read-digits : (fuel n : ℕ) (out : Bytes) → n ≤ fuel → read 0 (digits fuel n out) ≡ read n out
unfolding digits
read-digits zero n out h = ground arith
read-digits (suc fuel) n out h =
    ground (arith, read_last n out, read-digits fuel (n / 10) ((b'0' + n % 10) ∷ out))

starts_digit_cons : (n : ℕ) (out : Bytes) → starts_digit ((b'0' + n % 10) ∷ out) ≡ true
unfolding starts_digit is_digit
starts_digit_cons n out = ground arith

starts_digit-digits :
    (fuel n : ℕ) (out : Bytes) → starts_digit out ≡ true → starts_digit (digits fuel n out) ≡ true
unfolding digits
starts_digit-digits zero n out h = h
starts_digit-digits (suc fuel) n out h =
    ground
      (arith, starts_digit_cons n out, starts_digit-digits fuel (n / 10) ((b'0' + n % 10) ∷ out))

starts_digit-decimal : (n : ℕ) → starts_digit (decimal n) ≡ true
unfolding decimal digits
starts_digit-decimal zero = unfold starts_digit is_digit in refl
starts_digit-decimal (suc n) = ground (
  arith,
  starts_digit_cons (suc n) [],
  starts_digit-digits n (suc n / 10) ((b'0' + suc n % 10) ∷ []),
)

pub read-decimal : (n : ℕ) → read 0 (decimal n) ≡ n
unfolding decimal read
read-decimal zero = unfold is_digit in refl
read-decimal (suc n) = ground (arith, read-digits (suc n) (suc n) [])

-- A text that starts with a digit has no blank or sign to skip.
signed_digits :
    (limit : ℕ) (s : Bytes)
    → starts_digit s ≡ true
    → signed limit (skip_space s) ≡ magnitude limit false s
unfolding starts_digit is_digit skip_space is_space signed
signed_digits limit [] h = ground arith
signed_digits limit (c ∷ s) h = ground arith

signed-to_string :
    (limit : ℕ) (a : ℤ)
    → pos_part a < limit
    → neg_part a ≤ limit
    → signed limit (skip_space (to_string a)) ≡ some a
unfolding to_string
signed-to_string limit (pos n) h k =
    rw (signed_digits limit (decimal n) (starts_digit-decimal n))
      (unfold magnitude in ground (arith, starts_digit-decimal n, read-decimal n))
signed-to_string limit (negsuc n) h k =
    unfold magnitude signed skip_space is_space in
    ground (arith, starts_digit-decimal (suc n), read-decimal (suc n))

-- Every value of `long long` is read back from its decimal print.
pub stoll-to_string : (a : ℤ) → IsInt64 a → stoll (to_string a) ≡ some a
unfolding stoll
stoll-to_string a (h, k) = signed-to_string (2 ^ 63) a h k

-- Every value of `int` is read back from its decimal print.
pub stoi-to_string : (a : ℤ) → IsInt32 a → stoi (to_string a) ≡ some a
unfolding stoi
stoi-to_string a (h, k) = signed-to_string (2 ^ 31) a h k

-- What holds of the digits and the sign holds of every byte of a decimal print.
module _ (P : ℕ → Type 0) (minus : P b'-') (digit : (d : ℕ) → d < 10 → P (b'0' + d)) where
  digits-All : (fuel n : ℕ) (out : Bytes) → All P out → All P (digits fuel n out)
  unfolding digits
  digits-All zero n out h = h
  digits-All (suc fuel) n out h =
      if_both (All P) (n == 0) out _ (λ _. h)
        (digits-All fuel (n / 10) _ (digit (n % 10) (omega arith), h))

  decimal-All : (n : ℕ) → All P (decimal n)
  unfolding decimal
  decimal-All n =
      if_both (All P) (n == 0) (b'0' ∷ []) _ (λ _. (digit 0 (omega arith), tt))
        (digits-All n n [] tt)

  pub to_string-All : (a : ℤ) → All P (to_string a)
  unfolding to_string
  to_string-All (pos n) = decimal-All n
  to_string-All (negsuc n) = (minus, decimal-All (suc n))
