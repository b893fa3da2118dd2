-- ===== src/AppSpec/Cron/Numbers.antt =====
-- Decimal numbers as `strconv` prints and reads them.
use tenara.Prelude.{
  ℕ, zero, suc, ◌+◌, ◌-◌, ◌*◌, ◌/◌, ◌%◌, ◌^◌, ◌<◌, ◌≡◌, refl, ap, ◌∙◌, inl, inr, true, false, some,
  [], ◌∷◌, ◌++◌, arith, ltb, if◌then◌else◌, ltb→ge, ◌==◌, nat_Eq, string_Eq, Bool-cases, all,
  all-append, is_nonempty, is_nonempty-append, tests, pos, int_Eq,
}
use tenara.Bytes.{Bytes, is_digit, digits_value, signed, atoi}

-- strconv.Itoa of a number that is not negative; the fuel is more than the number
digits_of : ℕ → ℕ → Bytes
digits_of zero n = []
digits_of (suc fuel) n =
    let more = digits_of fuel (n / 10) ++ (b'0' + n % 10) ∷ [] in
    if ltb n 10 then (b'0' + n) ∷ [] else more

unfoldable pub itoa : ℕ → Bytes
unfolding digits_of
itoa n = digits_of (suc n) n

digits_value-append :
    (acc v : ℕ) (s : Bytes) (c : ℕ)
    → digits_value acc s ≡ some v
    → is_digit c ≡ true
    → digits_value acc (s ++ c ∷ []) ≡ some (v * 10 + (c - b'0'))
unfolding digits_value
digits_value-append acc v [] c h d = ground arith
digits_value-append acc v (x ∷ s) c h d =
    ground (arith, digits_value-append (acc * 10 + (x - b'0')) v s c)

digits_of-value : (fuel n : ℕ) → n < fuel → digits_value 0 (digits_of fuel n) ≡ some n
unfolding digits_of digits_value
digits_of-value zero n h = elim h [ ]
digits_of-value (suc fuel) n h = elim (Bool-cases (ltb n 10)) [
  | inl e ↦ rw e (ground arith)
  | inr e ↦ rw e (
      digits_value-append 0 (n / 10) (digits_of fuel (n / 10)) (b'0' + n % 10)
        (digits_of-value fuel (n / 10) (omega (tests, ltb→ge n 10 e))) (ground arith)
      ∙ ap some (omega arith))
]

digits-of_all : (fuel n : ℕ) → all is_digit (digits_of fuel n) ≡ true
unfolding digits_of
digits-of_all zero n = refl
digits-of_all (suc fuel) n = elim (Bool-cases (ltb n 10)) [
  | inl e ↦ rw e (ground arith)
  | inr e ↦ rw e (
      all-append is_digit (digits_of fuel (n / 10)) ((b'0' + n % 10) ∷ [])
      ∙ ground (arith, digits-of_all fuel (n / 10)))
]

digits_of_nonempty : (fuel n : ℕ) → is_nonempty (digits_of (suc fuel) n) ≡ true
unfolding digits_of
digits_of_nonempty fuel n = elim (Bool-cases (ltb n 10)) [
  | inl e ↦ rw e refl
  | inr e ↦ rw e (is_nonempty-append (digits_of fuel (n / 10)) (b'0' + n % 10) [])
]

-- A printed number is at least one digit, and digits only.
pub itoa_digits : (n : ℕ) → (all is_digit (itoa n) ≡ true) × (is_nonempty (itoa n) ≡ true)
unfolding itoa
itoa_digits n = (digits-of_all (suc n) n, digits_of_nonempty n n)

below : (v : ℕ) → v < 2 ^ 63 → ltb v (2 ^ 63) ≡ true
below v b = ground arith

signed_of_value :
    (c v : ℕ) (s : Bytes)
    → digits_value 0 (c ∷ s) ≡ some v
    → v < 2 ^ 63
    → signed false (c ∷ s) ≡ some (pos v)
signed_of_value c v s h b = rw (h, signed) (rw (below v b) refl)

atoi_of_digits :
    (s : Bytes) (v : ℕ)
    → all is_digit s ≡ true
    → is_nonempty s ≡ true
    → digits_value 0 s ≡ some v
    → v < 2 ^ 63
    → atoi s ≡ some (pos v)
unfolding atoi
atoi_of_digits [] v d e h b = cc
atoi_of_digits (c ∷ s) v d e h b =
    let minus : (c == b'-') ≡ false = ground arith in
    let plus : (c == b'+') ≡ false = ground arith in rw (minus, plus) (signed_of_value c v s h b)

-- Every number that fits an int64 is read back as it was printed.
pub atoi-itoa : (n : ℕ) → n < 2 ^ 63 → atoi (itoa n) ≡ some (pos n)
unfolding itoa
atoi-itoa n h =
    let (d, e) = itoa_digits n in
    atoi_of_digits (itoa n) n d e (digits_of-value (suc n) n (omega arith)) h
