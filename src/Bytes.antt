-- ===== src/Bytes.antt =====
-- The parts of Go's `strings` and `strconv` that control-plane/internal/appspec calls, over the bytes
-- of a text. Texts are ASCII here, as the schedules and names of the program are: Go's functions also
-- take other Unicode spaces and case forms into account.
use tenara.Prelude.{
  ℕ, zero, suc, ◌+◌, ◌-◌, ◌*◌, ◌^◌, String, Bool, true, false, ◌&&◌, ◌||◌, Option, none, some, List,
  [], ◌∷◌, ◌++◌, ltb, leb, if◌then◌else◌, ◌==◌, nat_Eq, string_Eq, ℤ, pos, negsuc, int_Eq,
}
use Prim.Native.Char.{Char, char, code, nul, IsScalar}
use Prim.Native.Nat.{compare, Ordering}
use tenara.Prelude.{ap, ◌∙◌, all, arith, ◌≡◌, refl, ◌⊎◌, ◌↔◌, inl, inr, Bool-cases, nat_eq_iff}

abbrev pub Bytes : Type 0
Bytes = List ℕ

-- the code points of a text: its bytes, if it is ASCII
abbrev pub codes : String → Bytes
codes String.[] = []
codes (String.◌∷◌ c s) = code c ∷ codes s

-- asciiSpace: '\t', '\n', '\v', '\f', '\r', ' '
abbrev pub is_space : ℕ → Bool
is_space c = c == 32 || (leb 9 c && leb c 13)

abbrev pub is_digit : ℕ → Bool
is_digit c = leb b'0' c && leb c b'9'

-- the bytes are equal
unfoldable pub same : Bytes → Bytes → Bool
same [] [] = true
same [] (b ∷ bs) = false
same (a ∷ s) [] = false
same (a ∷ s) (b ∷ bs) = a == b && same s bs

-- strings.TrimSpace(s) == ""
unfoldable pub is_blank : Bytes → Bool
is_blank [] = true
is_blank (c ∷ s) = is_space c && is_blank s

-- strings.TrimSpace, and bytes.TrimSpace
unfoldable pub trim_left : Bytes → Bytes
trim_left [] = []
trim_left (c ∷ s) = let rest = trim_left s in if is_space c then rest else c ∷ s

abbrev glue_right : ℕ → Bytes → Bytes
glue_right c [] = if is_space c then [] else c ∷ []
glue_right c (d ∷ s) = c ∷ d ∷ s

unfoldable pub trim_right : Bytes → Bytes
trim_right [] = []
trim_right (c ∷ s) = glue_right c (trim_right s)

unfoldable pub trim_space : Bytes → Bytes
unfolding trim_left trim_right
trim_space s = trim_right (trim_left s)

abbrev pub flush : Bytes → List Bytes → List Bytes
flush [] rest = rest
flush (c ∷ field) rest = (c ∷ field) ∷ rest

-- strings.Fields, with the field that is being read
unfoldable pub fields_from : Bytes → Bytes → List Bytes
fields_from field [] = flush field []
fields_from field (c ∷ s) =
    let cut = flush field (fields_from [] s) in
    let more = fields_from (field ++ c ∷ []) s in if is_space c then cut else more

unfoldable pub fields : Bytes → List Bytes
unfolding fields_from
fields s = fields_from [] s

-- strings.Split at one byte, with the part that is being read
unfoldable pub split_from : ℕ → Bytes → Bytes → List Bytes
split_from sep part [] = part ∷ []
split_from sep part (c ∷ s) =
    let cut = part ∷ split_from sep [] s in
    let more = split_from sep (part ++ c ∷ []) s in if c == sep then cut else more

unfoldable pub split : ℕ → Bytes → List Bytes
unfolding split_from
split sep s = split_from sep [] s

-- strings.CutPrefix
unfoldable pub cut_prefix : Bytes → Bytes → Option Bytes
cut_prefix [] s = some s
cut_prefix (p ∷ ps) [] = none
cut_prefix (p ∷ ps) (c ∷ s) = if p == c then cut_prefix ps s else none

-- strings.Cut at one byte
unfoldable pub cut_from : ℕ → Bytes → Bytes → Option (Bytes × Bytes)
cut_from sep part [] = none
cut_from sep part (c ∷ s) =
    let more = cut_from sep (part ++ c ∷ []) s in if c == sep then some (part, s) else more

unfoldable pub cut : ℕ → Bytes → Option (Bytes × Bytes)
unfolding cut_from
cut sep s = cut_from sep [] s

-- the digits of a number, most significant first
unfoldable pub digits_value : ℕ → Bytes → Option ℕ
digits_value acc [] = some acc
digits_value acc (c ∷ s) = if is_digit c then digits_value (acc * 10 + (c - b'0')) s else none

abbrev to_neg : ℕ → ℤ
to_neg zero = pos 0
to_neg (suc n) = negsuc n

-- at least one digit, and the value in the range of int64
abbrev pub signed : Bool → Bytes → Option ℤ
signed negative [] = none
signed negative (c ∷ s) = elim (digits_value 0 (c ∷ s)) [
  | none ↦ none
  | some n ↦
      if negative
      then (if leb n (2 ^ 63) then some (to_neg n) else none)
      else (if ltb n (2 ^ 63) then some (pos n) else none)
]

-- strconv.Atoi: an optional sign, then digits; none for the error
unfoldable pub atoi : Bytes → Option ℤ
unfolding digits_value
atoi [] = none
atoi (c ∷ s) =
    if c == b'-' then signed true s else if c == b'+' then signed false s else signed false (c ∷ s)

-- strings.HasPrefix
unfoldable pub has_prefix : Bytes → Bytes → Bool
has_prefix [] s = true
has_prefix (p ∷ ps) [] = false
has_prefix (p ∷ ps) (c ∷ s) = p == c && has_prefix ps s

-- strings.Contains, for the text first
unfoldable pub contains : Bytes → Bytes → Bool
contains [] kw = has_prefix kw []
contains (c ∷ s) kw = has_prefix kw (c ∷ s) || contains s kw

ascii_scalar : (n : ℕ) → ltb n 128 ≡ true → IsScalar n
ascii_scalar n h = rw (below n h) tt
  where
    below : (n : ℕ) → ltb n 128 ≡ true → compare n 55296 ≡ Ordering.lt
    below n h = ground arith

abbrev ascii_char : (n : ℕ) → (ltb n 128 ≡ true) ⊎ (ltb n 128 ≡ false) → Char
ascii_char n (inl h) = char n (ascii_scalar n h)
ascii_char n (inr h) = nul

-- the text of ASCII code points
unfoldable pub text_of : Bytes → String
unfolding Bool-cases ascii_scalar
text_of [] = String.[]
text_of (c ∷ s) = String.◌∷◌ (ascii_char c (Bool-cases (ltb c 128))) (text_of s)

abbrev pub is_ascii : ℕ → Bool
is_ascii c = ltb c 128

code_ascii :
    (n : ℕ) (d : (ltb n 128 ≡ true) ⊎ (ltb n 128 ≡ false))
    → ltb n 128 ≡ true
    → code (ascii_char n d) ≡ n
code_ascii n (inl h) k = refl
code_ascii n (inr h) k = cc

pub codes-text_of : (s : Bytes) → all is_ascii s ≡ true → codes (text_of s) ≡ s
unfolding text_of
codes-text_of [] h = refl
codes-text_of (c ∷ s) h =
    let a = code_ascii c (Bool-cases (ltb c 128)) (ground arith) in
    let b = codes-text_of s (ground arith) in cc

-- the texts are the same
pub same_iff : (s t : Bytes) → (same s t ≡ true) ↔ (s ≡ t)
unfolding same
same_iff [] [] = (λ h. refl, λ h. refl)
same_iff [] (b ∷ t) = (λ h. cc, λ h. cc)
same_iff (a ∷ s) [] = (λ h. cc, λ h. cc)
same_iff (a ∷ s) (b ∷ t) = (
  λ h. let e = (same_iff s t).0 (ground arith) in let q : a ≡ b = ground arith in cc,
  λ h.
      let e : s ≡ t = cc in
      let q : a ≡ b = cc in let k = (same_iff s t).1 e in ground (arith, k, q, nat_eq_iff a b),
)

abbrev lower_char : ℕ → ℕ
lower_char c = if leb b'A' c && leb c b'Z' then c + 32 else c

-- strings.ToLower of an ASCII text
unfoldable pub to_lower : Bytes → Bytes
to_lower [] = []
to_lower (c ∷ s) = lower_char c ∷ to_lower s

pub to_lower-to_lower : (s : Bytes) → to_lower (to_lower s) ≡ to_lower s
unfolding to_lower
to_lower-to_lower [] = refl
to_lower-to_lower (c ∷ s) =
    ap (λ x. x ∷ to_lower (to_lower s)) (char_twice c)
    ∙ ap (λ r. lower_char c ∷ r) (to_lower-to_lower s)
  where
    char_twice : (c : ℕ) → lower_char (lower_char c) ≡ lower_char c
    char_twice c = ground arith
