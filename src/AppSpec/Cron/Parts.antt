-- ===== src/AppSpec/Cron/Parts.antt =====
-- A printed part of a cron field takes the branch of `checkPart` that is meant for it.
use tenara.Prelude.{
  ℕ, ◌^◌, ◌≡◌, refl, true, false, none, some, List, [], ◌∷◌, ◌++◌, map, arith, ltb, ltb→lt, nat_Eq,
  string_Eq, all, is_ok, is_ok-then, is_nonempty, int_Eq,
}
use tenara.Bytes.{Bytes, is_digit, same, cut_prefix, cut, atoi}
use tenara.AppSpec.Cron.{
  star, star_slash, check_step, check_range, check_value, check_part, check_parts,
}
use tenara.AppSpec.Cron.Numbers.{itoa, itoa_digits, atoi-itoa}
use tenara.AppSpec.Cron.Pieces.{lacks, cut_first}
use tenara.AppSpec.Cron.Print.{
  Part, every, every_nth, between, value, print_part, part_fits, part_small,
}

-- a text of digits is no star, has no star as prefix and no dash
digits_alone :
    (s : Bytes)
    → all is_digit s ≡ true
    → is_nonempty s ≡ true
    → (same s star ≡ false) × (cut_prefix star_slash s ≡ none)
unfolding same cut_prefix
digits_alone [] d e = cc
digits_alone (c ∷ s) d e = (ground arith, ground arith)

digits_before_dash :
    (s rest : Bytes)
    → all is_digit s ≡ true
    → is_nonempty s ≡ true
    → (same (s ++ b'-' ∷ rest) star ≡ false) × (cut_prefix star_slash (s ++ b'-' ∷ rest) ≡ none)
unfolding same cut_prefix
digits_before_dash [] rest d e = cc
digits_before_dash (c ∷ s) rest d e = (ground arith, ground arith)

digits_lack :
    (sep : ℕ) (s : Bytes) → ltb sep b'0' ≡ true → all is_digit s ≡ true → lacks sep s ≡ true
digits_lack sep [] h d = refl
digits_lack sep (c ∷ s) h d = ground (arith, digits_lack sep s)

-- which branch of `checkPart` a text takes
check_alone :
    (part : Bytes) (lo hi : ℕ)
    → same part star ≡ false
    → cut_prefix star_slash part ≡ none
    → cut b'-' part ≡ none
    → check_part part lo hi ≡ check_value lo hi (atoi part)
unfolding check_part
check_alone part lo hi s p c = rw (s, p, c) refl

check_dash :
    (part a b : Bytes) (lo hi : ℕ)
    → same part star ≡ false
    → cut_prefix star_slash part ≡ none
    → cut b'-' part ≡ some (a, b)
    → check_part part lo hi ≡ check_range part lo hi (atoi a) (atoi b)
unfolding check_part
check_dash part a b lo hi s p c = rw (s, p, c) refl

check_nth :
    (step : Bytes) (lo hi : ℕ) → check_part (star_slash ++ step) lo hi ≡ check_step step (atoi step)
unfolding check_part
check_nth step lo hi = refl

value_ok :
    (n lo hi : ℕ)
    → ltb n (2 ^ 63) ≡ true
    → is_ok (check_part (itoa n) lo hi) ≡ part_fits lo hi (value n)
unfolding part_fits
value_ok n lo hi h =
    let (d, e) = itoa_digits n in
    let (s, p) = digits_alone (itoa n) d e in
    let (c, _) = cut_first b'-' (itoa n) [] (digits_lack b'-' (itoa n) refl d) in
    rw (check_alone (itoa n) lo hi s p c, atoi-itoa n (ltb→lt n (2 ^ 63) h)) (ground arith)

nth_ok :
    (n lo hi : ℕ)
    → ltb n (2 ^ 63) ≡ true
    → is_ok (check_part (star_slash ++ itoa n) lo hi) ≡ part_fits lo hi (every_nth n)
unfolding part_fits
nth_ok n lo hi h = rw (check_nth (itoa n) lo hi, atoi-itoa n (ltb→lt n (2 ^ 63) h)) (ground arith)

range_ok :
    (a b lo hi : ℕ)
    → ltb a (2 ^ 63) ≡ true
    → ltb b (2 ^ 63) ≡ true
    → is_ok (check_part (itoa a ++ b'-' ∷ itoa b) lo hi) ≡ part_fits lo hi (between a b)
unfolding part_fits
range_ok a b lo hi h k =
    let (d, e) = itoa_digits a in
    let (s, p) = digits_before_dash (itoa a) (itoa b) d e in
    let (_, c) = cut_first b'-' (itoa a) (itoa b) (digits_lack b'-' (itoa a) refl d) in
    rw
      (
        check_dash (itoa a ++ b'-' ∷ itoa b) (itoa a) (itoa b) lo hi s p c,
        atoi-itoa a (ltb→lt a (2 ^ 63) h),
        atoi-itoa b (ltb→lt b (2 ^ 63) k),
      )
      (ground arith)

part_ok :
    (p : Part) (lo hi : ℕ)
    → part_small p ≡ true
    → is_ok (check_part (print_part p) lo hi) ≡ part_fits lo hi p
unfolding print_part
part_ok every lo hi h = unfold check_part part_fits in refl
part_ok (every_nth n) lo hi h = nth_ok n lo hi h
part_ok (between a b) lo hi h = range_ok a b lo hi (ground arith) (ground arith)
part_ok (value n) lo hi h = value_ok n lo hi h

pub parts_ok :
    (ps : List Part) (lo hi : ℕ)
    → all part_small ps ≡ true
    → is_ok (check_parts (map print_part ps) lo hi) ≡ all (part_fits lo hi) ps
unfolding check_parts
parts_ok [] lo hi h = refl
parts_ok (p ∷ ps) lo hi h =
    rw
      (
        is_ok-then (check_part (print_part p) lo hi) (check_parts (map print_part ps) lo hi),
        part_ok p lo hi (ground arith),
        parts_ok ps lo hi (ground arith),
      )
      refl
