-- ===== src/Apps/Slug.antt =====
-- control-plane/internal/apps/store.go: the slug of an app's name.
use tenara.Prelude.{
  ℕ, ◌+◌, ◌≡◌, refl, ap, ◌∙◌, inl, inr, Bool, true, false, ◌&&◌, ◌||◌, [], ◌∷◌, map, arith, leb,
  if◌then◌else◌, ◌==◌, nat_Eq, string_Eq, Bool-cases, all, int_Eq,
}
use tenara.Bytes.{Bytes}

-- the lower-case form of a code point, as far as it is ASCII: the Kelvin sign and the I with a dot
-- are the code points beyond ASCII that unicode.ToLower maps into it
abbrev to_lower : ℕ → ℕ
to_lower c =
    if leb b'A' c && leb c b'Z'
    then c + 32
    else if c == 0x212a
    then b'k'
    else if c == 0x130
    then b'i'
    else c

abbrev pub is_alphanumeric : ℕ → Bool
is_alphanumeric c = (leb b'a' c && leb c b'z') || (leb b'0' c && leb c b'9')

-- one turn of the loop
abbrev pub slug_char : ℕ → ℕ
slug_char c = if is_alphanumeric (to_lower c) then to_lower c else b'-'

-- the two sides of strings.Trim(s, "-")
unfoldable pub trim_left_dashes : Bytes → Bytes
trim_left_dashes [] = []
trim_left_dashes (c ∷ s) = let rest = trim_left_dashes s in if c == b'-' then rest else c ∷ s

abbrev pub glue_dash : ℕ → Bytes → Bytes
glue_dash c [] = if c == b'-' then [] else c ∷ []
glue_dash c (d ∷ s) = c ∷ d ∷ s

unfoldable pub trim_right_dashes : Bytes → Bytes
trim_right_dashes [] = []
trim_right_dashes (c ∷ s) = glue_dash c (trim_right_dashes s)

unfoldable pub slugify : Bytes → Bytes
unfolding trim_left_dashes trim_right_dashes
slugify name = trim_right_dashes (trim_left_dashes (map slug_char name))

abbrev pub is_slug_char : ℕ → Bool
is_slug_char c = is_alphanumeric c || c == b'-'

-- no hyphen at the start
abbrev pub starts_well : Bytes → Bool
starts_well [] = true
starts_well (c ∷ s) = is_alphanumeric c

-- nor at the end
unfoldable pub ends_well : Bytes → Bool
ends_well [] = true
ends_well (c ∷ []) = is_alphanumeric c
ends_well (c ∷ d ∷ s) = ends_well (d ∷ s)

slug_char_ok : (c : ℕ) → is_slug_char (slug_char c) ≡ true
slug_char_ok c = ground arith

slug_char_alphanumeric :
    (c : ℕ) → (slug_char c == b'-') ≡ false → is_alphanumeric (slug_char c) ≡ true
slug_char_alphanumeric c h = ground arith

map_ok : (name : Bytes) → all is_slug_char (map slug_char name) ≡ true
map_ok [] = refl
map_ok (c ∷ name) = ground (arith, slug_char_ok c, map_ok name)

left_ok :
    (s : Bytes)
    → all is_slug_char s ≡ true
    → (all is_slug_char (trim_left_dashes s) ≡ true) × (starts_well (trim_left_dashes s) ≡ true)
unfolding trim_left_dashes
left_ok [] h = (refl, refl)
left_ok (c ∷ s) h = elim (Bool-cases (c == b'-')) [
  | inl e ↦ rw e (left_ok s (ground arith))
  | inr e ↦ rw e (h, ground arith)
]

glue_ok :
    (c : ℕ) (s : Bytes)
    → is_slug_char c ≡ true
    → all is_slug_char s ≡ true
    → ends_well s ≡ true
    → (all is_slug_char (glue_dash c s) ≡ true) × (ends_well (glue_dash c s) ≡ true)
unfolding ends_well
glue_ok c [] h k e = ground arith
glue_ok c (d ∷ s) h k e = (ground arith, e)

right_ok :
    (s : Bytes)
    → all is_slug_char s ≡ true
    → (all is_slug_char (trim_right_dashes s) ≡ true) × (ends_well (trim_right_dashes s) ≡ true)
unfolding trim_right_dashes ends_well
right_ok [] h = (refl, refl)
right_ok (c ∷ s) h =
    let (k, e) = right_ok s (ground arith) in glue_ok c (trim_right_dashes s) (ground arith) k e

glue_starts : (c : ℕ) (s : Bytes) → is_alphanumeric c ≡ true → starts_well (glue_dash c s) ≡ true
glue_starts c [] h = ground arith
glue_starts c (d ∷ s) h = h

right_starts : (s : Bytes) → starts_well s ≡ true → starts_well (trim_right_dashes s) ≡ true
unfolding trim_right_dashes
right_starts [] h = refl
right_starts (c ∷ s) h = glue_starts c (trim_right_dashes s) h

-- The slug of every name holds lower-case letters, digits and hyphens only, and neither starts nor
-- ends with a hyphen, so that it stands as a label of a host name as far as its characters go.
pub slugify_label :
    (name : Bytes)
    → (all is_slug_char (slugify name) ≡ true)
      × (starts_well (slugify name) ≡ true)
      × (ends_well (slugify name) ≡ true)
unfolding slugify
slugify_label name =
    let (k, h) = left_ok (map slug_char name) (map_ok name) in
    let (l, e) = right_ok (trim_left_dashes (map slug_char name)) k in
    (l, right_starts (trim_left_dashes (map slug_char name)) h, e)

-- a slug's characters are kept
char_kept : (c : ℕ) → is_slug_char c ≡ true → slug_char c ≡ c
char_kept c h = ground arith

map_kept : (s : Bytes) → all is_slug_char s ≡ true → map slug_char s ≡ s
map_kept [] h = refl
map_kept (c ∷ s) h = ground (arith, char_kept c, map_kept s)

left_kept : (s : Bytes) → starts_well s ≡ true → trim_left_dashes s ≡ s
unfolding trim_left_dashes
left_kept [] h = refl
left_kept (c ∷ s) h = ground arith

right_kept : (s : Bytes) → ends_well s ≡ true → trim_right_dashes s ≡ s
unfolding trim_right_dashes ends_well
right_kept [] h = refl
right_kept (c ∷ []) h = ground arith
right_kept (c ∷ d ∷ s) h = ap (glue_dash c) (right_kept (d ∷ s) h)

-- The slug of a slug is the slug itself: an app that is renamed to its slug keeps it.
pub slugify-slugify : (name : Bytes) → slugify (slugify name) ≡ slugify name
unfolding slugify
slugify-slugify name =
    let (a, b, c) = slugify_label name in
    ap (λ s. trim_right_dashes (trim_left_dashes s)) (map_kept (slugify name) a)
    ∙ ap trim_right_dashes (left_kept (slugify name) b)
    ∙ right_kept (slugify name) c
