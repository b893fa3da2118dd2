-- ===== src/AppSpec/Cron/Accepts.antt =====
-- The validation of a printed schedule accepts it exactly if its numbers lie in their domains.
use tenara.Prelude.{
  ℕ, ◌≡◌, refl, Bool, true, ◌&&◌, List, [], ◌∷◌, map, arith, nat_Eq, string_Eq, length, is_ok,
  is_ok-then, int_Eq,
}
use tenara.Bytes.{Bytes, fields}
use tenara.AppSpec.Cron.{domains, check_field, check_fields, validate_schedule}
use tenara.AppSpec.Cron.Pieces.{split-join, fields-join}
use tenara.AppSpec.Cron.Print.{
  print_part, Field, print_field, Schedule, print, field_fits, fits, field_small, small,
}
use tenara.AppSpec.Cron.Parts.{parts_ok}
use tenara.AppSpec.Cron.Plain.{field_is_field, plain-lacks, part_plain, parts_lack}

field_ok :
    (f : Field) (lo hi : ℕ)
    → field_small f ≡ true
    → is_ok (check_field (print_field f) lo hi) ≡ field_fits lo hi f
unfolding check_field print_field field_fits
field_ok f lo hi h =
    rw
      (split-join b',' (print_part f.first) (map print_part f.others)
        (plain-lacks (print_part f.first) (part_plain f.first).0) (parts_lack f.others))
      (parts_ok (f.first ∷ f.others) lo hi h)

printed_fields : Schedule → List Bytes
printed_fields s =
    print_field s.minutes
    ∷ print_field s.hours
    ∷ print_field s.days
    ∷ print_field s.months
    ∷ print_field s.weekdays
    ∷ []

fields-print : (s : Schedule) → fields (print s) ≡ printed_fields s
unfolding print printed_fields
fields-print s =
    fields-join (print_field s.minutes)
      (print_field s.hours
        ∷ print_field s.days
        ∷ print_field s.months
        ∷ print_field s.weekdays
        ∷ [])
      (field_is_field s.minutes)
      (rw
        (
          field_is_field s.hours,
          field_is_field s.days,
          field_is_field s.months,
          field_is_field s.weekdays,
        )
        refl)

five_fields :
    (expr : Bytes) (fs : List Bytes)
    → fields expr ≡ fs
    → length fs ≡ 5
    → validate_schedule expr ≡ check_fields fs domains
unfolding validate_schedule
five_fields expr fs e n = rw e (rw n refl)

then_checks :
    (field : Bytes) (rest : List Bytes) (lo hi : ℕ) (ds : List (ℕ × ℕ))
    → is_ok (check_fields (field ∷ rest) ((lo, hi) ∷ ds))
      ≡ (is_ok (check_field field lo hi) && is_ok (check_fields rest ds))
unfolding check_fields
then_checks field rest lo hi ds = is_ok-then (check_field field lo hi) (check_fields rest ds)

no_fields : (ds : List (ℕ × ℕ)) → is_ok (check_fields [] ds) ≡ true
unfolding check_fields
no_fields [] = refl
no_fields (d ∷ ds) = refl

conj_five : (a b c d e : Bool) → (a && (b && (c && (d && (e && true))))) ≡ (a && b && c && d && e)
conj_five a b c d e = ground arith

checked_fields :
    (s : Schedule) → small s ≡ true → is_ok (check_fields (printed_fields s) domains) ≡ fits s
unfolding printed_fields fits
checked_fields s h =
    rw
      (
        then_checks (print_field s.minutes),
        then_checks (print_field s.hours),
        then_checks (print_field s.days),
        then_checks (print_field s.months),
        then_checks (print_field s.weekdays),
        no_fields,
        field_ok s.minutes 0 59 (ground arith),
        field_ok s.hours 0 23 (ground arith),
        field_ok s.days 1 31 (ground arith),
        field_ok s.months 1 12 (ground arith),
        field_ok s.weekdays 0 7 (ground arith),
      )
      (conj_five (field_fits 0 59 s.minutes) (field_fits 0 23 s.hours) (field_fits 1 31 s.days)
        (field_fits 1 12 s.months) (field_fits 0 7 s.weekdays))

-- Of the texts that the grammar's schedules print, with numbers that fit an int64, the validation
-- accepts exactly those whose steps are positive, whose ranges are not empty and whose values lie in
-- the domains of their fields.
pub validate_printed :
    (s : Schedule) → small s ≡ true → is_ok (validate_schedule (print s)) ≡ fits s
validate_printed s h =
    rw (five_fields (print s) (printed_fields s) (fields-print s) (unfold printed_fields in refl))
      (checked_fields s h)
