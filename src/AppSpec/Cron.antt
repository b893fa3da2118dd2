-- ===== src/AppSpec/Cron.antt =====
-- control-plane/internal/appspec/cron.go: the five-field cron expressions.
pub mod Numbers
pub mod Pieces
pub mod Print
pub mod Parts
pub mod Plain
pub mod Accepts
use tenara.Prelude.{
  ℕ, zero, suc, ◌+◌, ◌-◌, ◌*◌, ◌/◌, ◌%◌, ◌^◌, ◌≤◌, ◌<◌, String, ◌≡◌, refl, sym, ap, ◌∙◌, subst, ◌≢◌,
  ◌↔◌, ◌⊎◌, inl, inr, Bool, true, false, not, ◌&&◌, ◌||◌, Option, none, some, List, [], ◌∷◌, ◌++◌,
  map, arith, ltb, leb, nat_eq, if◌then◌else◌, ltb→lt, ltb→ge, leb→le, leb→gt, nat_eq_iff, Eq, ◌==◌,
  nat_Eq, string_Eq, text_iff, text_refl, text_ne, Bool-cases, Option-cases, text-cases, is_some,
  length, any, all, length-append, Member, here, there, All, All-Member, Map, get, remove, put,
  keys, get-remove, get-put, map_laws, all-get, get_or, get-put_self, get-put_ne, Outcome, ok, err,
  ◌>>=◌, ◌>>◌, require, refuse, >>=-eq-ok, is_ok, ok-injective, all-Member, tests, ℤ, pos, negsuc,
  lt_ℤ, int_Eq, int_iff, All-of_all, all-of_All, any_Member, any-false,
}
use tenara.Bytes.{Bytes, same, fields, split, cut_prefix, cut, atoi}

pub data Error : Type 0 where
  field_count : ℕ → Error
  bad_step : Bytes → Error
  bad_range : Bytes → Error
  out_of_domain : ℕ → ℕ → Error

abbrev pub Checked : Type 0
Checked = Outcome Error (Unit {0})

-- `nErr != nil || n < 1`
abbrev pub check_step : Bytes → Option ℤ → Checked
check_step step none = err (bad_step step)
check_step step (some n) = if lt_ℤ n (pos 1) then err (bad_step step) else ok tt

abbrev pub check_range : Bytes → ℕ → ℕ → Option ℤ → Option ℤ → Checked
check_range part lo hi none b = err (bad_range part)
check_range part lo hi (some a) none = err (bad_range part)
check_range part lo hi (some a) (some b) =
    if lt_ℤ b a || lt_ℤ a (pos lo) || lt_ℤ (pos hi) b then err (bad_range part) else ok tt

abbrev pub check_value : ℕ → ℕ → Option ℤ → Checked
check_value lo hi none = err (out_of_domain lo hi)
check_value lo hi (some n) =
    if lt_ℤ n (pos lo) || lt_ℤ (pos hi) n then err (out_of_domain lo hi) else ok tt

abbrev pub star : Bytes
star = b'*' ∷ []

abbrev pub star_slash : Bytes
star_slash = b'*' ∷ b'/' ∷ []

unfoldable pub check_part : Bytes → ℕ → ℕ → Checked
unfolding same cut_prefix cut atoi
check_part part lo hi = if same part star then ok tt else elim (cut_prefix star_slash part) [
  | some step ↦ check_step step (atoi step)
  | none ↦ elim (cut b'-' part) [
    | some (a, b) ↦ check_range part lo hi (atoi a) (atoi b)
    | none ↦ check_value lo hi (atoi part)
  ]
]

unfoldable pub check_parts : List Bytes → ℕ → ℕ → Checked
check_parts [] lo hi = ok tt
check_parts (part ∷ parts) lo hi = do check_part part lo hi; check_parts parts lo hi

unfoldable pub check_field : Bytes → ℕ → ℕ → Checked
unfolding split check_parts check_part
check_field field lo hi = check_parts (split b',' field) lo hi

abbrev pub domains : List (ℕ × ℕ)
domains = (0, 59) ∷ (0, 23) ∷ (1, 31) ∷ (1, 12) ∷ (0, 7) ∷ []

-- the loop over the fields and their domains, which are as many
unfoldable pub check_fields : List Bytes → List (ℕ × ℕ) → Checked
unfolding check_field
check_fields [] ds = ok tt
check_fields (field ∷ rest) [] = ok tt
check_fields (field ∷ rest) ((lo, hi) ∷ ds) = do check_field field lo hi; check_fields rest ds

unfoldable pub validate_schedule : Bytes → Checked
unfolding fields check_fields
validate_schedule expr =
    let fs = fields expr in
    if not (length fs == 5) then err (field_count (length fs)) else check_fields fs domains
