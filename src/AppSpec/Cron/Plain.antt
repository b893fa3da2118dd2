-- ===== src/AppSpec/Cron/Plain.antt =====
-- Printed parts hold neither spaces nor commas, so that the text splits where it was joined.
use tenara.Prelude.{
  ℕ, ◌≡◌, refl, ◌∙◌, Bool, true, not, ◌&&◌, List, [], ◌∷◌, map, arith, ◌==◌, nat_Eq, string_Eq, all,
  all-append, is_nonempty, is_nonempty-append, int_Eq,
}
use tenara.Bytes.{Bytes, is_space, is_digit}
use tenara.AppSpec.Cron.Numbers.{itoa, itoa_digits}
use tenara.AppSpec.Cron.Pieces.{join, lacks, is_field}
use tenara.AppSpec.Cron.Print.{
  Part, every, every_nth, between, value, print_part, Field, print_field,
}

-- a byte that is neither a space nor a comma
abbrev is_plain : ℕ → Bool
is_plain c = not (is_space c) && not (c == b',')

plain_digits : (s : Bytes) → all is_digit s ≡ true → all is_plain s ≡ true
plain_digits [] h = refl
plain_digits (c ∷ s) h = ground (arith, plain_digits s)

pub part_plain :
    (p : Part) → (all is_plain (print_part p) ≡ true) × (is_nonempty (print_part p) ≡ true)
unfolding print_part
part_plain every = (refl, refl)
part_plain (every_nth n) = (plain_digits (itoa n) (itoa_digits n).0, refl)
part_plain (between a b) = (
  all-append is_plain (itoa a) (b'-' ∷ itoa b)
      ∙ ground
          (arith, plain_digits (itoa a) (itoa_digits a).0, plain_digits (itoa b) (itoa_digits b).0),
  is_nonempty-append (itoa a) b'-' (itoa b),
)
part_plain (value n) = (plain_digits (itoa n) (itoa_digits n).0, (itoa_digits n).1)

pub plain-lacks : (s : Bytes) → all is_plain s ≡ true → lacks b',' s ≡ true
plain-lacks [] h = refl
plain-lacks (c ∷ s) h = ground (arith, plain-lacks s)

plain-solid : (s : Bytes) → all is_plain s ≡ true → all (λ c. not (is_space c)) s ≡ true
plain-solid [] h = refl
plain-solid (c ∷ s) h = ground (arith, plain-solid s)

pub parts_lack : (ps : List Part) → all (lacks b',') (map print_part ps) ≡ true
parts_lack [] = refl
parts_lack (p ∷ ps) = rw (plain-lacks (print_part p) (part_plain p).0, parts_lack ps) refl

joined_solid :
    (p : Part) (ps : List Part)
    → all (λ c. not (is_space c)) (join b',' (print_part p ∷ map print_part ps)) ≡ true
unfolding join
joined_solid p [] = plain-solid (print_part p) (part_plain p).0
joined_solid p (q ∷ ps) =
    all-append (λ c. not (is_space c)) (print_part p)
      (b',' ∷ join b',' (print_part q ∷ map print_part ps))
    ∙ rw (plain-solid (print_part p) (part_plain p).0, joined_solid q ps) refl

joined_nonempty :
    (p : Part) (ps : List Part) → is_nonempty (join b',' (print_part p ∷ map print_part ps)) ≡ true
unfolding join
joined_nonempty p [] = (part_plain p).1
joined_nonempty p (q ∷ ps) =
    is_nonempty-append (print_part p) b',' (join b',' (print_part q ∷ map print_part ps))

pub field_is_field : (f : Field) → is_field (print_field f) ≡ true
unfolding print_field
field_is_field f = rw (joined_nonempty f.first f.others, joined_solid f.first f.others) refl
