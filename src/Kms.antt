-- ===== src/Kms.antt =====
-- control-plane/internal/kms/kms.go: texts are sealed with a nonce in front. The cipher is Go's AES-GCM,
-- which is an argument here.
use tenara.Prelude.{
  ℕ, zero, suc, ◌≡◌, refl, ap, subst, false, Option, none, some, [], ◌∷◌, ◌++◌, arith, ltb,
  if◌then◌else◌, ◌==◌, nat_Eq, string_Eq, length, length-append, int_Eq,
}
use tenara.Bytes.{Bytes}

abbrev pub take : ℕ → Bytes → Bytes
take zero s = []
take (suc n) [] = []
take (suc n) (c ∷ s) = c ∷ take n s

abbrev pub drop : ℕ → Bytes → Bytes
drop zero s = s
drop (suc n) [] = []
drop (suc n) (c ∷ s) = drop n s

-- cipher.AEAD, with no additional data
pub record Aead : Type 0 where
  pub nonce_size : ℕ
  pub seal : Bytes → Bytes → Bytes
  pub open_sealed : Bytes → Bytes → Option Bytes

-- `NewStub`, over hex.DecodeString and the cipher for a key
abbrev master_key_bytes : ℕ
master_key_bytes = 32

abbrev keyed : (Bytes → Aead) → Option Bytes → Option Aead
keyed cipher none = none
keyed cipher (some raw) = if length raw == master_key_bytes then some (cipher raw) else none

unfoldable new_stub : (Bytes → Option Bytes) → (Bytes → Aead) → Bytes → Option Aead
new_stub decode_hex cipher master_key_hex = keyed cipher (decode_hex master_key_hex)

-- over the nonce that is read; nothing if the randomness cannot be read
unfoldable pub encrypt : Aead → Option Bytes → Bytes → Option Bytes
encrypt k none plaintext = none
encrypt k (some nonce) plaintext = some (nonce ++ k.seal nonce plaintext)

unfoldable pub decrypt : Aead → Bytes → Option Bytes
decrypt k sealed =
    if ltb (length sealed) k.nonce_size
    then none
    else k.open_sealed (take k.nonce_size sealed) (drop k.nonce_size sealed)

take_front : (n s : Bytes) (k : ℕ) → length n ≡ k → take k (n ++ s) ≡ n
take_front [] s zero h = refl
take_front [] s (suc k) h = absurd (omega arith)
take_front (c ∷ n) s zero h = absurd (omega arith)
take_front (c ∷ n) s (suc k) h = ap (λ r. c ∷ r) (take_front n s k (omega arith))

drop_front : (n s : Bytes) (k : ℕ) → length n ≡ k → drop k (n ++ s) ≡ s
drop_front [] s zero h = refl
drop_front [] s (suc k) h = absurd (omega arith)
drop_front (c ∷ n) s zero h = absurd (omega arith)
drop_front (c ∷ n) s (suc k) h = drop_front n s k (omega arith)

long_enough : (n s : Bytes) (k : ℕ) → length n ≡ k → ltb (length (n ++ s)) k ≡ false
long_enough n s k h = ground (arith, length-append n s)

-- What is sealed is opened again: if the cipher opens what it sealed under the nonce, and the nonce has
-- the cipher's size, then decrypting the sealed text gives the plaintext.
pub decrypt-encrypt :
    (k : Aead) (nonce plaintext : Bytes)
    → length nonce ≡ k.nonce_size
    → k.open_sealed nonce (k.seal nonce plaintext) ≡ some plaintext
    → {sealed : Bytes} → encrypt k (some nonce) plaintext ≡ some sealed
    → decrypt k sealed ≡ some plaintext
unfolding encrypt decrypt
decrypt-encrypt k nonce plaintext size opens {sealed} h =
    let e : nonce ++ k.seal nonce plaintext ≡ sealed = cc in
    subst (λ s. decrypt k s ≡ some plaintext) e
      (rw
        (
          long_enough nonce (k.seal nonce plaintext) k.nonce_size size,
          take_front nonce (k.seal nonce plaintext) k.nonce_size size,
          drop_front nonce (k.seal nonce plaintext) k.nonce_size size,
        )
        opens)
