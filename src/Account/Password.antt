-- ===== src/Account/Password.antt =====
-- internal/account/password.go: the stored form of a password. PBKDF2, base64, strconv.Atoi and the source of
-- randomness are parameters; a slice of bytes is a list of numbers.
use Prim.Native.Char.{Char, code}
use Prim.Native.String.{◌++◌ as str_append}
use text.Mathlib.TextLemmas.{nil-append, cons-append}
use fluentwork_backend.Base.{
  ℕ, String, ◌≡◌, refl, sym, inl, inr, Bool, true, false, not, ◌&&◌, Option, none, some, List, [],
  ◌∷◌, arith, str_eq, ltb, ◌==◌, if◌then◌else◌, Bool-cases, Option-cases, length, utf8_length,
}

-- The calls of crypto/pbkdf2, encoding/base64 and strconv; `none` is an error.
pub record Crypto : Type 0 where
  pub derive : String → List ℕ → ℕ → ℕ → Option (List ℕ)
  pub encode : List ℕ → String
  pub decode : String → Option (List ℕ)
  pub atoi : String → Option ℕ

pub data PasswordCheck : Type 0 where
  matches mismatch invalid_hash derive_failed : PasswordCheck

abbrev pub min_password_length : ℕ
min_password_length = 8

abbrev pub max_password_length : ℕ
max_password_length = 72

abbrev password_iterations : ℕ
password_iterations = 210_000

abbrev password_key_bytes : ℕ
password_key_bytes = 32

abbrev pub password_salt_bytes : ℕ
password_salt_bytes = 16

-- `validatePassword`, with its message
unfoldable pub validate_password : String → Option String
validate_password password =
    if ltb (utf8_length password) min_password_length
    then some "密码至少 8 位"
    else if ltb max_password_length (utf8_length password)
    then some "密码最多 72 位"
    else none

-- Four texts with "$" between them: strings.Join.
abbrev joined : String → String → String → String → String
joined a b c d =
    str_append a (String.◌∷◌ "$" (str_append b (String.◌∷◌ "$" (str_append c (String.◌∷◌ "$" d)))))

-- `hashPassword`, from the salt that was drawn
unfoldable pub hash_password : Crypto → List ℕ → String → Option String
hash_password crypto salt password =
    elim (crypto.derive password salt password_iterations password_key_bytes) [
      | none ↦ none
      | some key ↦ some (joined "pbkdf2_sha256" "210000" (crypto.encode salt) (crypto.encode key))
    ]

abbrev is_dollar : Char → Bool
is_dollar c = code c == 0x24

-- A character before the first part.
abbrev before_first : Char → List String → List String
before_first c [] = String.◌∷◌ c "" ∷ []
before_first c (part ∷ parts) = String.◌∷◌ c part ∷ parts

-- strings.Split(s, "$")
unfoldable pub split_dollar : String → List String
split_dollar String.[] = "" ∷ []
split_dollar (String.◌∷◌ c s) =
    let parts = split_dollar s in if is_dollar c then "" ∷ parts else before_first c parts

abbrev same_bytes : List ℕ → List ℕ → Bool
same_bytes [] [] = true
same_bytes (x ∷ xs) (y ∷ ys) = x == y && same_bytes xs ys
same_bytes _ _ = false

-- The checks of `verifyPassword` on the three parts after the algorithm. A number of iterations that is
-- not positive is 0 here.
unfoldable pub verify_parts : Crypto → String → String → String → String → PasswordCheck
verify_parts crypto iterations_text salt_text want_text password =
    elim (crypto.atoi iterations_text) [
      | none ↦ PasswordCheck.invalid_hash
      | some iterations ↦
          if iterations == 0 then PasswordCheck.invalid_hash else elim (crypto.decode salt_text) [
            | none ↦ PasswordCheck.invalid_hash
            | some salt ↦ elim (crypto.decode want_text) [
              | none ↦ PasswordCheck.invalid_hash
              | some want ↦
                  if length want == 0
                  then PasswordCheck.invalid_hash
                  else elim (crypto.derive password salt iterations (length want)) [
                    | none ↦ PasswordCheck.derive_failed
                    | some got ↦
                        if same_bytes got want
                        then PasswordCheck.matches
                        else PasswordCheck.mismatch
                  ]
            ]
          ]
    ]

-- `verifyPassword`
unfoldable pub verify_password : Crypto → String → String → PasswordCheck
unfolding split_dollar verify_parts
verify_password crypto encoded password = elim (split_dollar encoded) [
  | a ∷ b ∷ c ∷ d ∷ [] ↦
      if str_eq a "pbkdf2_sha256"
      then verify_parts crypto b c d password
      else PasswordCheck.invalid_hash
  | _ ↦ PasswordCheck.invalid_hash
]

abbrev is_free : String → Bool
is_free String.[] = true
is_free (String.◌∷◌ c s) = not (is_dollar c) && is_free s

free_head :
    (c : Char) (s : String)
    → is_free (String.◌∷◌ c s) ≡ true
    → (is_dollar c ≡ false) × (is_free s ≡ true)
free_head c s h = elim (Bool-cases (is_dollar c)) [
  | inl e ↦ absurd (cc (rw e at h))
  | inr e ↦ (e, rw e at h)
]

-- No character of the text is "$".
abbrev pub HasNoDollar : String → Type 0
HasNoDollar s = is_free s ≡ true

split_dollar-alone : (a : String) → HasNoDollar a → split_dollar a ≡ a ∷ []
unfolding split_dollar
split_dollar-alone String.[] h = refl
split_dollar-alone (String.◌∷◌ c a) h =
    let (here, later) = free_head c a h in rw (here, split_dollar-alone a later)

split_dollar-before :
    (a s : String)
    → HasNoDollar a
    → split_dollar (str_append a (String.◌∷◌ "$" s)) ≡ a ∷ split_dollar s
unfolding split_dollar
split_dollar-before String.[] s h = rw (nil-append (String.◌∷◌ "$" s))
split_dollar-before (String.◌∷◌ c a) s h =
    let (here, later) = free_head c a h in
    rw (cons-append c a (String.◌∷◌ "$" s), here, split_dollar-before a s later)

same_bytes_refl : (xs : List ℕ) → same_bytes xs xs ≡ true
same_bytes_refl [] = refl
same_bytes_refl (x ∷ xs) = ground (arith, same_bytes_refl xs)

split_dollar-joined :
    (a b c d : String)
    → HasNoDollar a
    → HasNoDollar b
    → HasNoDollar c
    → HasNoDollar d
    → split_dollar (joined a b c d) ≡ a ∷ b ∷ c ∷ d ∷ []
split_dollar-joined a b c d ha hb hc hd = rw (
  split_dollar-before a (str_append b (String.◌∷◌ "$" (str_append c (String.◌∷◌ "$" d)))) ha,
  split_dollar-before b (str_append c (String.◌∷◌ "$" d)) hb,
  split_dollar-before c d hc,
  split_dollar-alone d hd,
)

-- What the stored form relies on: base64 decodes what it encoded and writes no "$", Atoi reads the number of
-- iterations.
pub record IsCrypto (crypto : Crypto) : Type 0 where
  pub decode-encode : (bytes : List ℕ) → crypto.decode (crypto.encode bytes) ≡ some bytes
  pub encode-HasNoDollar : (bytes : List ℕ) → HasNoDollar (crypto.encode bytes)
  pub atoi_iterations : crypto.atoi "210000" ≡ some 210_000

verify_parts-derived :
    (crypto : Crypto)
    → IsCrypto crypto
    → (salt key : List ℕ) (password : String) → length key ≡ 32
    → crypto.derive password salt 210_000 32 ≡ some key
    → verify_parts crypto "210000" (crypto.encode salt) (crypto.encode key) password
      ≡ PasswordCheck.matches
unfolding verify_parts
verify_parts-derived crypto law salt key password size derived =
    rw
      (
        verify_parts,
        law.atoi_iterations,
        law.decode-encode salt,
        law.decode-encode key,
        size,
        derived,
        same_bytes_refl key,
      )
      refl

-- A password that was stored is accepted: where PBKDF2 gives 32 bytes, the check of the stored form with the
-- same password succeeds.
pub verify_password-hash_password :
    (crypto : Crypto)
    → IsCrypto crypto
    → (salt : List ℕ) (password encoded : String)
    → ((key : List ℕ) → crypto.derive password salt 210_000 32 ≡ some key → length key ≡ 32)
    → hash_password crypto salt password ≡ some encoded
    → verify_password crypto encoded password ≡ PasswordCheck.matches
unfolding hash_password verify_password
verify_password-hash_password crypto law salt password encoded sized h =
    elim (Option-cases (crypto.derive password salt 210_000 32)) [
      | inl e ↦ absurd (cc (rw (hash_password, e) at h))
      | inr (key, e) ↦
          let stored : some
                (joined "pbkdf2_sha256" "210000" (crypto.encode salt) (crypto.encode key))
              ≡ some encoded =
            rw (hash_password, e) at h in
          let same : joined "pbkdf2_sha256" "210000" (crypto.encode salt) (crypto.encode key)
              ≡ encoded =
            cc stored in
          rw
            (
              sym same,
              verify_password,
              split_dollar-joined "pbkdf2_sha256" "210000" (crypto.encode salt) (crypto.encode key)
                  refl refl (law.encode-HasNoDollar salt) (law.encode-HasNoDollar key),
            )
            (verify_parts-derived crypto law salt key password (sized key e) e)
    ]
