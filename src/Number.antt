-- ===== src/Number.antt =====
-- What the program uses of the C++ number conversions: std::to_string of a `long long`, and
-- std::stoll and std::stoi in base ten. `none` stands for the exceptions std::invalid_argument and
-- std::out_of_range, which every caller catches alike.
pub mod RoundTrip
use redi_craft.Prelude.{
  ℕ, zero, suc, ◌+◌, ◌-◌, ◌*◌, ◌/◌, ◌%◌, ◌^◌, ◌≡◌, refl, Bool, true, false, ◌||◌, Option, none,
  some, [], ◌∷◌, ltb, leb, ◌==◌, if◌then◌else◌, Bytes, codes, is_space, is_digit,
}
use redi_craft.Prelude.Int.{ℤ, pos, negsuc}

-- the decimal digits of `n` in front of `out`; a number above 0 has at most as many as its value
pub digits : ℕ → ℕ → Bytes → Bytes
digits zero n out = out
digits (suc fuel) n out =
    let rest = digits fuel (n / 10) ((b'0' + n % 10) ∷ out) in if n == 0 then out else rest

pub decimal : ℕ → Bytes
decimal n = if n == 0 then b'0' ∷ [] else digits n n []

unfoldable pub to_string : ℤ → Bytes
unfolding decimal digits
to_string (pos n) = decimal n
to_string (negsuc n) = b'-' ∷ decimal (suc n)

pub skip_space : Bytes → Bytes
skip_space [] = []
skip_space (c ∷ s) = let rest = skip_space s in if is_space c then rest else c ∷ s

pub starts_digit : Bytes → Bool
starts_digit [] = false
starts_digit (c ∷ s) = is_digit c

-- the value of the longest prefix of digits, behind the digits read so far
pub read : ℕ → Bytes → ℕ
read n [] = n
read n (c ∷ s) = let rest = read (n * 10 + (c - b'0')) s in if is_digit c then rest else n

-- the result of a sign and digits, if it lies in [-limit, limit)
pub magnitude : ℕ → Bool → Bytes → Option ℤ
magnitude limit negative s =
    if starts_digit s
    then (let n = read 0 s in
        if negative
        then (if leb n limit then some (if n == 0 then pos 0 else negsuc (n - 1)) else none)
        else if ltb n limit
        then some (pos n)
        else none)
    else none

pub signed : ℕ → Bytes → Option ℤ
signed limit [] = none
signed limit (c ∷ s) =
    if c == b'-'
    then magnitude limit true s
    else if c == b'+'
    then magnitude limit false s
    else magnitude limit false (c ∷ s)

unfoldable pub stoll : Bytes → Option ℤ
unfolding skip_space signed magnitude starts_digit read is_digit is_space
stoll s = signed (2 ^ 63) (skip_space s)

unfoldable pub stoi : Bytes → Option ℤ
unfolding skip_space signed magnitude starts_digit read is_digit is_space
stoi s = signed (2 ^ 31) (skip_space s)

prints :
    (to_string (pos 1204) ≡ codes "1204")
    × (to_string (negsuc 0) ≡ codes "-1")
    × (to_string (pos 0) ≡ codes "0")
unfolding to_string
prints = (refl, refl, refl)

reads :
    (stoll (codes " -12x") ≡ some (negsuc 11))
    × (stoll (codes "abc") ≡ none)
    × (stoll (codes "9223372036854775808") ≡ none)
    × (stoll (codes "-9223372036854775808") ≡ some (negsuc 9223372036854775807))
unfolding stoll
reads = (refl, refl, refl, refl)
