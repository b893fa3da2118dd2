-- ===== src/Secrets/Versions.antt =====
-- What is set is revealed, and nothing else changes; the versions of a secret count its revisions.
use tenara.Prelude.{
  String, ◌≡◌, refl, ap, ◌∙◌, inl, inr, Bool, true, false, ◌&&◌, Option, none, some, List, [], ◌∷◌,
  ◌++◌, arith, ◌==◌, nat_Eq, string_Eq, text_iff, text_refl, Bool-cases, length, ok, int_Eq,
}
use tenara.Prelude.{find, update_where, count_where, find-holds, find-update_where}
use tenara.Bytes.{Bytes}
use tenara.Kms.{Aead, encrypt, decrypt, decrypt-encrypt}
use tenara.Secrets.{
  Secret, SecretRevision, Store, is_secret, max_version, with_ciphertext, revise, upsert,
  set_sealed, set_secret, reveal_found, reveal,
}

upsert_found :
    (st : Store) (app_id name id : String) (sealed : Bytes) (o : Option Secret)
    → find (is_secret app_id name) st.secrets ≡ o
    → (s : Secret) × (find (is_secret app_id name) (upsert st app_id name sealed id o).secrets
        ≡ some s)
      × (s.ciphertext ≡ sealed)
unfolding find
upsert_found st app_id name id sealed none h = (
  record { id = id; app_id = app_id; name = name; ciphertext = sealed },
  rw (text_refl app_id, text_refl name) refl,
  refl,
)
upsert_found st app_id name id sealed (some s) h = (
  with_ciphertext sealed s,
  find-update_where (is_secret app_id name) (is_secret app_id name) (with_ciphertext sealed)
        st.secrets (λ x. refl)
      ∙ rw (h, find-holds (is_secret app_id name) st.secrets h) refl,
  refl,
)

revealed :
    (k : Aead) (o : Option Secret) (s : Secret) (plain : Bytes)
    → o ≡ some s
    → decrypt k s.ciphertext ≡ some plain
    → reveal_found k o ≡ ok plain
revealed k none s plain h d = cc
revealed k (some t) s plain h d = let e : decrypt k t.ciphertext ≡ some plain = cc in rw e refl

-- A secret that is set is revealed as it was set: where the nonce can be read and the cipher opens what
-- it sealed, SetSecret succeeds, and Reveal of the same app and name gives the plaintext, for a
-- new name as for one that was there.
pub reveal-set_secret :
    (k : Aead) (nonce : Bytes) (st : Store) (app_id name : String) (plaintext : Bytes) (id : String)
    → length nonce ≡ k.nonce_size
    → k.open_sealed nonce (k.seal nonce plaintext) ≡ some plaintext
    → ((set_secret k (some nonce) st app_id name plaintext id).1 ≡ ok tt)
      × (reveal k (set_secret k (some nonce) st app_id name plaintext id).0 app_id name
          ≡ ok plaintext)
unfolding set_secret reveal encrypt
reveal-set_secret k nonce st app_id name plaintext id size opens =
    let sealed = nonce ++ k.seal nonce plaintext in
    let (s, f, c) =
      upsert_found st app_id name id sealed (find (is_secret app_id name) st.secrets) refl in
    let d : decrypt k s.ciphertext ≡ some plaintext =
      ap (decrypt k) c ∙ decrypt-encrypt k nonce plaintext size opens refl in
    (refl, revealed k _ s plaintext f d)

other_kept :
    (app_id name app' name' : String) (sealed : Bytes) (s : Secret)
    → (app_id == app' && name == name') ≡ false
    → is_secret app_id name s ≡ true
    → is_secret app' name' s ≡ false
other_kept app_id name app' name' sealed s d h = ground (
  arith,
  text_iff s.app_id app_id,
  text_iff s.name name,
  text_iff s.app_id app',
  text_iff s.name name',
  text_iff app_id app',
  text_iff name name',
)

find_other :
    (app_id name app' name' : String) (sealed : Bytes) (ss : List Secret)
    → (app_id == app' && name == name') ≡ false
    → find (is_secret app' name') (update_where (is_secret app_id name) (with_ciphertext sealed) ss)
      ≡ find (is_secret app' name') ss
unfolding find update_where
find_other app_id name app' name' sealed [] d = refl
find_other app_id name app' name' sealed (s ∷ ss) d = elim (Bool-cases (is_secret app_id name s)) [
  | inl h ↦
      rw (h, other_kept app_id name app' name' sealed s d h)
        (find_other app_id name app' name' sealed ss d)
  | inr h ↦ rw (h, find_other app_id name app' name' sealed ss d) refl
]

upsert_other :
    (st : Store) (app_id name app' name' id : String) (sealed : Bytes) (o : Option Secret)
    → (app_id == app' && name == name') ≡ false
    → find (is_secret app' name') (upsert st app_id name sealed id o).secrets
      ≡ find (is_secret app' name') st.secrets
unfolding find
upsert_other st app_id name app' name' id sealed none d = rw d refl
upsert_other st app_id name app' name' id sealed (some s) d =
    find_other app_id name app' name' sealed st.secrets d

set_sealed_other :
    (st : Store) (app_id name app' name' id : String) (sealed : Option Bytes)
    → (app_id == app' && name == name') ≡ false
    → find (is_secret app' name') (set_sealed st app_id name id sealed).0.secrets
      ≡ find (is_secret app' name') st.secrets
set_sealed_other st app_id name app' name' id none d = refl
set_sealed_other st app_id name app' name' id (some sealed) d =
    upsert_other st app_id name app' name' id sealed (find (is_secret app_id name) st.secrets) d

-- Setting one secret reveals no other differently: another name, or the same name of another app, is
-- revealed as before, whether the secret is sealed or the sealing fails.
pub set_secret_other :
    (k j : Aead) (nonce : Option Bytes) (st : Store) (app_id name app' name' : String)
    (plaintext : Bytes) (id : String)
    → (app_id == app' && name == name') ≡ false
    → reveal j (set_secret k nonce st app_id name plaintext id).0 app' name'
      ≡ reveal j st app' name'
unfolding set_secret reveal
set_secret_other k j nonce st app_id name app' name' plaintext id d =
    ap (reveal_found j)
      (set_sealed_other st app_id name app' name' id (encrypt k nonce plaintext) d)

-- One set of a secret, as a history tells it.
pub record Call : Type 0 where
  pub nonce : Option Bytes
  pub app_id : String
  pub name : String
  pub plaintext : Bytes
  pub id : String

unfoldable pub run : Aead → Store → List Call → Store
run k st [] = st
run k st (c ∷ cs) = run k (set_secret k c.nonce st c.app_id c.name c.plaintext c.id).0 cs

abbrev of_secret : String → SecretRevision → Bool
of_secret id r = r.secret_id == id

-- the greatest version of a secret is the number of its revisions
abbrev pub IsNumbered : Store → Type 0
IsNumbered st =
    (id : String)
    → max_version id st.secret_revisions ≡ count_where (of_secret id) st.secret_revisions

revise-IsNumbered :
    (st : Store) (ss : List Secret) (id : String) (sealed : Bytes)
    → IsNumbered st
    → IsNumbered (revise st ss id sealed)
unfolding max_version count_where
revise-IsNumbered st ss id sealed h j = ground (arith, h id, h j, text_iff id j)

set_sealed-IsNumbered :
    (st : Store) (app_id name id : String) (sealed : Option Bytes)
    → IsNumbered st
    → IsNumbered (set_sealed st app_id name id sealed).0
set_sealed-IsNumbered st app_id name id none h = h
set_sealed-IsNumbered st app_id name id (some sealed) h =
    by_row (find (is_secret app_id name) st.secrets)
  where
    by_row : (o : Option Secret) → IsNumbered (upsert st app_id name sealed id o)
    by_row none =
        revise-IsNumbered st
          (record { id = id; app_id = app_id; name = name; ciphertext = sealed } ∷ st.secrets) id
          sealed h
    by_row (some s) =
        revise-IsNumbered st
          (update_where (is_secret app_id name) (with_ciphertext sealed) st.secrets) s.id sealed h

-- The versions of every secret count its revisions without a gap: in every history of sets, from a
-- store where that holds, the greatest version of a secret is the number of its revisions.
pub run-IsNumbered :
    (k : Aead) (st : Store) (cs : List Call) → IsNumbered st → IsNumbered (run k st cs)
unfolding run set_secret
run-IsNumbered k st [] h = h
run-IsNumbered k st (c ∷ cs) h =
    run-IsNumbered k (set_secret k c.nonce st c.app_id c.name c.plaintext c.id).0 cs
      (set_sealed-IsNumbered st c.app_id c.name c.id (encrypt k c.nonce c.plaintext) h)
