-- ===== src/AppSpec/Cron/Pieces.antt =====
-- What splitting does to a text that was joined from pieces.
use tenara.Prelude.{
  ℕ, ◌≡◌, refl, ap, ◌∙◌, Bool, true, false, not, ◌&&◌, none, some, List, [], ◌∷◌, ◌++◌, arith, ◌==◌,
  nat_Eq, string_Eq, all, is_nonempty, int_Eq,
}
use mathlib.Core.List.{append-nil, append_assoc}
use tenara.Bytes.{Bytes, is_space, fields_from, fields, flush, split_from, split, cut_from, cut}

-- strings.Join with a one-byte separator
unfoldable pub join : ℕ → List Bytes → Bytes
join sep [] = []
join sep (p ∷ []) = p
join sep (p ∷ q ∷ ps) = p ++ sep ∷ join sep (q ∷ ps)

abbrev pub lacks : ℕ → Bytes → Bool
lacks sep s = all (λ c. not (c == sep)) s

split_last :
    (sep : ℕ) (part xs : Bytes) → lacks sep xs ≡ true → split_from sep part xs ≡ (part ++ xs) ∷ []
unfolding split_from
split_last sep part [] h = rw append-nil refl
split_last sep part (c ∷ xs) h =
    let n : (c == sep) ≡ false = ground arith in
    rw n (
      split_last sep (part ++ c ∷ []) xs (ground arith)
      ∙ ap (λ l. l ∷ []) (append_assoc part (c ∷ []) xs))

split_first :
    (sep : ℕ) (part xs rest : Bytes)
    → lacks sep xs ≡ true
    → split_from sep part (xs ++ sep ∷ rest) ≡ (part ++ xs) ∷ split_from sep [] rest
unfolding split_from
split_first sep part [] rest h =
    let y : (sep == sep) ≡ true = ground arith in rw (y, append-nil) refl
split_first sep part (c ∷ xs) rest h =
    let n : (c == sep) ≡ false = ground arith in
    rw n (
      split_first sep (part ++ c ∷ []) xs rest (ground arith)
      ∙ ap (λ l. l ∷ split_from sep [] rest) (append_assoc part (c ∷ []) xs))

-- Splitting undoes joining, for one piece or more without the separator.
pub split-join :
    (sep : ℕ) (p : Bytes) (ps : List Bytes)
    → lacks sep p ≡ true
    → all (lacks sep) ps ≡ true
    → split sep (join sep (p ∷ ps)) ≡ p ∷ ps
unfolding split join
split-join sep p [] h k = split_last sep [] p h
split-join sep p (q ∷ ps) h k =
    split_first sep [] p (join sep (q ∷ ps)) h
    ∙ ap (◌∷◌ p) (split-join sep q ps (ground arith) (ground arith))

fields_last :
    (part xs : Bytes)
    → all (λ c. not (is_space c)) xs ≡ true
    → fields_from part xs ≡ flush (part ++ xs) []
unfolding fields_from
fields_last part [] h = rw append-nil refl
fields_last part (c ∷ xs) h =
    let n : is_space c ≡ false = ground arith in
    rw n (
      fields_last (part ++ c ∷ []) xs (ground arith)
      ∙ ap (λ l. flush l []) (append_assoc part (c ∷ []) xs))

fields_first :
    (part xs rest : Bytes)
    → all (λ c. not (is_space c)) xs ≡ true
    → fields_from part (xs ++ 32 ∷ rest) ≡ flush (part ++ xs) (fields_from [] rest)
unfolding fields_from
fields_first part [] rest h = rw append-nil refl
fields_first part (c ∷ xs) rest h =
    let n : is_space c ≡ false = ground arith in
    rw n (
      fields_first (part ++ c ∷ []) xs rest (ground arith)
      ∙ ap (λ l. flush l (fields_from [] rest)) (append_assoc part (c ∷ []) xs))

-- a field: one byte or more, none a space
abbrev pub is_field : Bytes → Bool
is_field s = is_nonempty s && all (λ c. not (is_space c)) s

flush-field : (s : Bytes) (rest : List Bytes) → is_nonempty s ≡ true → flush s rest ≡ s ∷ rest
flush-field [] rest h = cc
flush-field (c ∷ s) rest h = refl

-- So does reading the fields of a text that was joined by single spaces.
pub fields-join :
    (p : Bytes) (ps : List Bytes)
    → is_field p ≡ true
    → all is_field ps ≡ true
    → fields (join 32 (p ∷ ps)) ≡ p ∷ ps
unfolding fields join
fields-join p [] h k = fields_last [] p (ground arith) ∙ flush-field p [] (ground arith)
fields-join p (q ∷ ps) h k =
    fields_first [] p (join 32 (q ∷ ps)) (ground arith)
    ∙ flush-field p _ (ground arith)
    ∙ ap (◌∷◌ p) (fields-join q ps (ground arith) (ground arith))

cut_none : (sep : ℕ) (part xs : Bytes) → lacks sep xs ≡ true → cut_from sep part xs ≡ none
unfolding cut_from
cut_none sep part [] h = refl
cut_none sep part (c ∷ xs) h = ground (arith, cut_none sep (part ++ c ∷ []) xs)

cut_some :
    (sep : ℕ) (part xs rest : Bytes)
    → lacks sep xs ≡ true
    → cut_from sep part (xs ++ sep ∷ rest) ≡ some (part ++ xs, rest)
unfolding cut_from
cut_some sep part [] rest h = let y : (sep == sep) ≡ true = ground arith in rw (y, append-nil) refl
cut_some sep part (c ∷ xs) rest h =
    let n : (c == sep) ≡ false = ground arith in
    rw n (
      cut_some sep (part ++ c ∷ []) xs rest (ground arith)
      ∙ ap (λ l. some (l, rest)) (append_assoc part (c ∷ []) xs))

-- A cut finds the first separator.
pub cut_first :
    (sep : ℕ) (xs rest : Bytes)
    → lacks sep xs ≡ true
    → (cut sep xs ≡ none) × (cut sep (xs ++ sep ∷ rest) ≡ some (xs, rest))
unfolding cut
cut_first sep xs rest h = (cut_none sep [] xs h, cut_some sep [] xs rest h)
