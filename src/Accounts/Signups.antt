-- ===== src/Accounts/Signups.antt =====
-- How many signups of one address the limit lets through.
use tenara.Prelude.{
  ℕ, suc, ◌+◌, ◌-◌, String, ◌≡◌, refl, sym, ap, ◌∙◌, inl, inr, Bool, true, false, Option, none,
  some, List, [], ◌∷◌, arith, ltb, leb, if◌then◌else◌, nat_Eq, string_Eq, text_refl, Bool-cases,
  length, all, Outcome, ok, err, is_ok, int_Eq,
}
use tenara.Prelude.{find, update_where, find-update_where, find-holds}
use tenara.Orchestrator.Deploy.{Time}
use tenara.Accounts.{
  Store, SignupRow, Error, rate_limited, signups_per_window, signup_window_length, has_ip,
  count_one, limit_row, limit_addr, check_signup_limit,
}

-- the signups of one address that are let through, in order
unfoldable pub accepted : (String → Option String) → Store → String → List Time → ℕ
unfolding check_signup_limit
accepted addr st ip [] = 0
accepted addr st ip (now ∷ times) =
    let (st', answer) = check_signup_limit addr st ip now in
    let rest = accepted addr st' ip times in if is_ok answer then suc rest else rest

abbrev pub in_window : Time → Time → Bool
in_window start now = leb now (start + signup_window_length)

abbrev pub at_most : ℕ → ℕ → ℕ
at_most n m = if leb n m then n else m

-- a check finds the row of the address
checked :
    (addr : String → Option String) (st : Store) (ip key : String) (now : Time) (r : SignupRow)
    → addr ip ≡ some key
    → find (has_ip key) st.signup_rate_limits ≡ some r
    → check_signup_limit addr st ip now ≡ limit_row st key now (some r)
unfolding check_signup_limit
checked addr st ip key now r a f = ap (limit_addr st now) a ∙ ap (limit_row st key now) f

still_open : (s now : ℕ) → in_window s now ≡ true → ltb (s + signup_window_length) now ≡ false
still_open s now w = ground arith

abbrev counted : Store → String → Store
counted st key = record st {
  signup_rate_limits = update_where (has_ip key) count_one st.signup_rate_limits;
}

-- what a check within the window of the row answers
let_through :
    (st : Store) (key : String) (now : Time) (r : SignupRow)
    → in_window r.window_start now ≡ true
    → leb signups_per_window r.count ≡ false
    → limit_row st key now (some r) ≡ (counted st key, ok tt)
let_through st key now r w c = rw (still_open r.window_start now w, c) refl

held_back :
    (st : Store) (key : String) (now : Time) (r : SignupRow)
    → in_window r.window_start now ≡ true
    → leb signups_per_window r.count ≡ true
    → limit_row st key now (some r) ≡ (st, err rate_limited)
held_back st key now r w c = rw (still_open r.window_start now w, c) refl

counted_row :
    (st : Store) (key : String) (r : SignupRow)
    → find (has_ip key) st.signup_rate_limits ≡ some r
    → has_ip key r ≡ true
    → find (has_ip key) (counted st key).signup_rate_limits ≡ some (count_one r)
counted_row st key r f e =
    find-update_where (has_ip key) (has_ip key) count_one st.signup_rate_limits (λ x. refl)
    ∙ rw (f, e) refl

one_more : (n c : ℕ) → leb 5 c ≡ false → suc (at_most n (5 - (c + 1))) ≡ at_most (suc n) (5 - c)
one_more n c h = ground arith

no_more : (n c : ℕ) → leb 5 c ≡ true → at_most n (5 - c) ≡ 0
no_more n c h = ground arith

accepted_in :
    (addr : String → Option String) (st : Store) (ip key : String) (r : SignupRow)
    (times : List Time)
    → addr ip ≡ some key
    → find (has_ip key) st.signup_rate_limits ≡ some r
    → all (in_window r.window_start) times ≡ true
    → accepted addr st ip times ≡ at_most (length times) (5 - r.count)
unfolding accepted
accepted_in addr st ip key r [] a f w = ground arith
accepted_in addr st ip key r (now ∷ times) a f w =
    elim (Bool-cases (leb signups_per_window r.count)) [
      | inl c ↦
          answer (checked addr st ip key now r a f ∙ held_back st key now r (ground arith) c)
          ∙ accepted_in addr st ip key r times a f (ground arith)
          ∙ no_more (length times) r.count c
          ∙ sym (no_more (suc (length times)) r.count c)
      | inr c ↦
          answer (checked addr st ip key now r a f ∙ let_through st key now r (ground arith) c)
          ∙ ap suc (
              accepted_in addr (counted st key) ip key (count_one r) times a
                (counted_row st key r f (find-holds (has_ip key) st.signup_rate_limits f))
                (ground arith))
          ∙ one_more (length times) r.count c
    ]
  where
    answer :
        {st' : Store} {m : Outcome Error (Unit {0})}
        → check_signup_limit addr st ip now ≡ (st', m)
        → accepted addr st ip (now ∷ times)
          ≡ (if is_ok m then suc (accepted addr st' ip times) else accepted addr st' ip times)
    answer e =
        ap (λ x. if is_ok x.1 then suc (accepted addr x.0 ip times) else accepted addr x.0 ip times)
          e

-- The signup limit lets five signups of an address through in an hour: if no row counts the address, then of
-- the signups at a first time and at others within the hour after it, the first five are let
-- through, and no other, whatever the order of their times. The address is one that can be parsed.
pub five_signups :
    (addr : String → Option String) (st : Store) (ip key : String) (first : Time)
    (times : List Time)
    → addr ip ≡ some key
    → find (has_ip key) st.signup_rate_limits ≡ none
    → all (in_window first) times ≡ true
    → accepted addr st ip (first ∷ times) ≡ at_most (suc (length times)) signups_per_window
unfolding accepted check_signup_limit
five_signups addr st ip key first times a f w =
    rw (a, f)
      (ap suc (
          accepted_in addr (limit_row st key first none).0 ip key
            (record { ip = key; window_start = first; count = 1 }) times a (rw (text_refl key) refl)
            w)
        ∙ one_more (length times) 0 refl)
