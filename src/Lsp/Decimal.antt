-- ===== src/Lsp/Decimal.antt =====
-- `std::to_string` of a size and `std::atoi`.
use code_scope.Prelude.{
  ℕ, zero, suc, ◌+◌, ◌-◌, ◌*◌, ◌/◌, ◌%◌, ◌<◌, Bool, true, false, ◌&&◌, ◌||◌, [], ◌∷◌, ◌++◌, Bytes,
  All, ltb, leb, ◌==◌, if◌then◌else◌, ◌≡◌, refl, ap, ◌∙◌, arith, inl, inr, Bool-cases, ltb→lt,
}

abbrev pub is_decimal : ℕ → Bool
is_decimal c = leb b'0' c && leb c b'9'

unfoldable digits : ℕ → ℕ → Bytes
digits zero n = []
digits (suc fuel) n =
    let front = digits fuel (n / 10) in
    if ltb n 10 then (b'0' + n) ∷ [] else front ++ (b'0' + n % 10) ∷ []

unfoldable pub to_string : ℕ → Bytes
unfolding digits
to_string n = digits (suc n) n

unfoldable pub digit_run : ℕ → Bytes → ℕ
digit_run acc [] = acc
digit_run acc (c ∷ s) =
    let on = digit_run (acc * 10 + (c - b'0')) s in if is_decimal c then on else acc

abbrev is_space : ℕ → Bool
is_space c = c == b' ' || (leb 9 c && leb c 13)

-- Behind the white space; a negative number counts as 0.
abbrev signed_run : Bytes → ℕ
signed_run [] = 0
signed_run (c ∷ s) =
    if c == b'-' then 0 else if c == b'+' then digit_run 0 s else digit_run 0 (c ∷ s)

abbrev skip_space : Bytes → Bytes
skip_space [] = []
skip_space (c ∷ s) = let rest = skip_space s in if is_space c then rest else c ∷ s

-- `std::atoi`, up to the sign of a negative number; its behaviour on a number that does not fit an
-- `int` is undefined.
unfoldable pub atoi : Bytes → ℕ
unfolding digit_run
atoi s = signed_run (skip_space s)

-- A text of digits only.
abbrev pub AreDigits : Bytes → Type 0
AreDigits = All (λ c. is_decimal c ≡ true)

digit_run-last :
    (acc d : ℕ) (s : Bytes)
    → d < 10
    → AreDigits s
    → digit_run acc (s ++ (b'0' + d) ∷ []) ≡ digit_run acc s * 10 + d
unfolding digit_run
digit_run-last acc d [] h a = ground arith
digit_run-last acc d (c ∷ s) h a = rw a.0 (digit_run-last (acc * 10 + (c - b'0')) d s h a.1)

AreDigits-last : (d : ℕ) (s : Bytes) → d < 10 → AreDigits s → AreDigits (s ++ (b'0' + d) ∷ [])
AreDigits-last d [] h a = (ground arith, tt)
AreDigits-last d (c ∷ s) h a = (a.0, AreDigits-last d s h a.1)

digits-AreDigits : (fuel n : ℕ) → AreDigits (digits fuel n)
unfolding digits
digits-AreDigits zero n = tt
digits-AreDigits (suc fuel) n = elim (Bool-cases (ltb n 10)) [
  | inl y ↦ rw (y, digits) (AreDigits-last n [] (ltb→lt n 10 y) tt)
  | inr m ↦
      rw (m, digits)
        (AreDigits-last (n % 10) (digits fuel (n / 10)) (ground arith)
          (digits-AreDigits fuel (n / 10)))
]

digit_run-one : (d : ℕ) → d < 10 → digit_run 0 ((b'0' + d) ∷ []) ≡ d
unfolding digit_run
digit_run-one d h = ground arith

less : (fuel n : ℕ) → n < suc fuel → ltb n 10 ≡ false → n / 10 < fuel
less fuel n h m = ground arith

divides : (n : ℕ) → n / 10 * 10 + n % 10 ≡ n
divides n = omega arith

digit_run-digits : (fuel n : ℕ) → n < fuel → digit_run 0 (digits fuel n) ≡ n
unfolding digits
digit_run-digits zero n h = absurd (omega arith)
digit_run-digits (suc fuel) n h = elim (Bool-cases (ltb n 10)) [
  | inl y ↦ rw (y, digits) (digit_run-one n (ltb→lt n 10 y))
  | inr m ↦
      rw (m, digits)
        (digit_run-last 0 (n % 10) (digits fuel (n / 10)) (ground arith)
            (digits-AreDigits fuel (n / 10))
          ∙ ap (λ q. q * 10 + n % 10) (digit_run-digits fuel (n / 10) (less fuel n h m))
          ∙ divides n)
]

pub to_string-AreDigits : (n : ℕ) → AreDigits (to_string n)
unfolding to_string
to_string-AreDigits n = digits-AreDigits (suc n) n

-- Digits are no white space and no sign.
signed-digits : (s : Bytes) → AreDigits s → atoi s ≡ digit_run 0 s
unfolding atoi digit_run
signed-digits [] h = refl
signed-digits (c ∷ s) h = rw (no_space c h.0) (rw (no_minus c h.0) (rw (no_plus c h.0)))
  where
    no_space : (c : ℕ) → is_decimal c ≡ true → is_space c ≡ false
    no_space c h = ground arith

    no_minus : (c : ℕ) → is_decimal c ≡ true → (c == b'-') ≡ false
    no_minus c h = ground arith

    no_plus : (c : ℕ) → is_decimal c ≡ true → (c == b'+') ≡ false
    no_plus c h = ground arith

-- `atoi` reads a number back.
pub atoi-to_string : (n : ℕ) → atoi (to_string n) ≡ n
unfolding to_string
atoi-to_string n =
    signed-digits (digits (suc n) n) (digits-AreDigits (suc n) n)
    ∙ digit_run-digits (suc n) n (omega arith)
