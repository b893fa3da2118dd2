-- ===== src/AppSpec/Cron/Print.antt =====
-- The schedules of the five-field grammar as data, their text, and which of them fit their
-- domains.
use tenara.Prelude.{
  ℕ, ◌^◌, Bool, true, ◌&&◌, List, [], ◌∷◌, ◌++◌, map, ltb, leb, nat_Eq, string_Eq, all, int_Eq,
}
use tenara.Bytes.{Bytes}
use tenara.AppSpec.Cron.{star, star_slash}
use tenara.AppSpec.Cron.Numbers.{itoa}
use tenara.AppSpec.Cron.Pieces.{join}

pub data Part : Type 0 where
  every : Part
  every_nth : ℕ → Part
  between : ℕ → ℕ → Part
  value : ℕ → Part

unfoldable pub print_part : Part → Bytes
print_part every = star
print_part (every_nth n) = star_slash ++ itoa n
print_part (between a b) = itoa a ++ b'-' ∷ itoa b
print_part (value n) = itoa n

-- a field: one part or more
pub record Field : Type 0 where
  pub first : Part
  pub others : List Part

unfoldable pub print_field : Field → Bytes
print_field f = join b',' (print_part f.first ∷ map print_part f.others)

pub record Schedule : Type 0 where
  pub minutes : Field
  pub hours : Field
  pub days : Field
  pub months : Field
  pub weekdays : Field

unfoldable pub print : Schedule → Bytes
print s = join 32 (
    print_field s.minutes
    ∷ print_field s.hours
    ∷ print_field s.days
    ∷ print_field s.months
    ∷ print_field s.weekdays
    ∷ [])

-- a step is positive, a range is not empty and lies in the domain, a value lies in the domain
unfoldable pub part_fits : ℕ → ℕ → Part → Bool
part_fits lo hi every = true
part_fits lo hi (every_nth n) = leb 1 n
part_fits lo hi (between a b) = leb a b && leb lo a && leb b hi
part_fits lo hi (value n) = leb lo n && leb n hi

unfoldable pub field_fits : ℕ → ℕ → Field → Bool
field_fits lo hi f = part_fits lo hi f.first && all (part_fits lo hi) f.others

unfoldable pub fits : Schedule → Bool
fits s =
    field_fits 0 59 s.minutes
    && field_fits 0 23 s.hours
    && field_fits 1 31 s.days
    && field_fits 1 12 s.months
    && field_fits 0 7 s.weekdays

-- the numbers of the schedule fit an int64
abbrev pub part_small : Part → Bool
part_small every = true
part_small (every_nth n) = ltb n (2 ^ 63)
part_small (between a b) = ltb a (2 ^ 63) && ltb b (2 ^ 63)
part_small (value n) = ltb n (2 ^ 63)

abbrev pub field_small : Field → Bool
field_small f = part_small f.first && all part_small f.others

abbrev pub small : Schedule → Bool
small s =
    field_small s.minutes
    && field_small s.hours
    && field_small s.days
    && field_small s.months
    && field_small s.weekdays
