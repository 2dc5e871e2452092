-- ===== src/Text/Print.antt =====
-- What the program uses of `str.format`: numbers in decimal, and in eight hexadecimal digits.
use mininet_zone_segmentatio.Base.{
  ℕ, zero, suc, ◌+◌, ◌-◌, ◌*◌, ◌/◌, ◌%◌, ◌^◌, ◌<◌, ◌≡◌, refl, ◌∙◌, Bool, true, ◌&&◌, inl, inr,
  Bool-cases, List, [], ◌∷◌, ◌++◌, ltb, nat_eq, arith, if◌then◌else◌,
}
use mininet_zone_segmentatio.Text.{decimal}

digits_from : ℕ → ℕ → List ℕ
digits_from zero n = []
digits_from (suc fuel) n =
    let rest = digits_from fuel (n / 10) in
    if ltb n 10 then (b'0' + n) ∷ [] else rest ++ ((b'0' + n % 10) ∷ [])

-- `'{}'.format(n)`: `n + 1` rounds are enough, since each divides the number by ten.
unfoldable pub decimal_text : ℕ → List ℕ
unfolding digits_from
decimal_text n = digits_from (suc n) n

-- A digit of `'{:X}'`.
unfoldable pub hex_digit : ℕ → ℕ
hex_digit d = if ltb d 10 then b'0' + d else b'A' + (d - 10)

-- `'{:08X}'.format(n)`, for a number of 32 bits.
unfoldable pub hex8 : ℕ → List ℕ
unfolding hex_digit
hex8 n =
    hex_digit (n / 16 ^ 7)
    ∷ hex_digit (n / 16 ^ 6 % 16)
    ∷ hex_digit (n / 16 ^ 5 % 16)
    ∷ hex_digit (n / 16 ^ 4 % 16)
    ∷ hex_digit (n / 16 ^ 3 % 16)
    ∷ hex_digit (n / 16 ^ 2 % 16)
    ∷ hex_digit (n / 16 % 16)
    ∷ hex_digit (n % 16)
    ∷ []

decimal-append_one :
    (m : ℕ) (cs : List ℕ) (c : ℕ) → decimal m (cs ++ (c ∷ [])) ≡ decimal m cs * 10 + (c - b'0')
unfolding decimal
decimal-append_one m [] c = refl
decimal-append_one m (d ∷ cs) c = decimal-append_one (m * 10 + (d - b'0')) cs c

decimal-digits_from : (fuel n : ℕ) → n < fuel → decimal 0 (digits_from fuel n) ≡ n
unfolding digits_from decimal
decimal-digits_from zero n h = elim h [ ]
decimal-digits_from (suc fuel) n h = elim (Bool-cases (ltb n 10)) [
  | inl one ↦ rw one (omega arith)
  | inr more ↦ rw more (
      decimal-append_one 0 (digits_from fuel (n / 10)) (b'0' + n % 10)
      ∙ ground (arith, decimal-digits_from fuel (n / 10)))
]

-- A number is read back from its text.
pub decimal-decimal_text : (n : ℕ) → decimal 0 (decimal_text n) ≡ n
unfolding decimal_text
decimal-decimal_text n = decimal-digits_from (suc n) n (omega arith)

unfoldable pub all_below : ℕ → (ℕ → Bool) → Bool
all_below zero p = true
all_below (suc n) p = p n && all_below n p

pub all_below-test : (n : ℕ) (p : ℕ → Bool) (x : ℕ) → all_below n p ≡ true → x < n → p x ≡ true
unfolding all_below
all_below-test zero p x h lt = elim lt [ ]
all_below-test (suc n) p x h lt = ground (arith, all_below-test n p x)
