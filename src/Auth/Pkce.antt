-- ===== src/Auth/Pkce.antt =====
-- src/auth/Pkce.cpp: the state, the verifier and the challenge of a sign-in through the browser. The
-- system's random words and SHA-256 over the bytes of a text are parameters.
use shelf_remote.Prelude.{
  [], ◌∷◌, true, refl, arith, ap, Chars, List, ℕ, if◌then◌else◌, length, Bool, ◌+◌, ◌≤◌, ◌/◌, ◌≡◌,
  ◌%◌, take, ◌==◌, ◌&&◌, ltb, ◌*◌, ◌-◌, leb, ◌||◌, if_elim, ◌∙◌, length-take,
}

-- The alphabet of base64url.
unfoldable pub url_digit : ℕ → ℕ
url_digit n =
    if ltb n 26
    then b'A' + n
    else if ltb n 52
    then b'a' + (n - 26)
    else if ltb n 62
    then b'0' + (n - 52)
    else if n == 62
    then b'-'
    else b'_'

-- Three bytes are four digits; the equals signs at the end are left out.
unfoldable pub base64_url : List ℕ → Chars
base64_url [] = []
base64_url (a ∷ []) = url_digit (a / 4) ∷ url_digit (a % 4 * 16) ∷ []
base64_url (a ∷ b ∷ []) =
    url_digit (a / 4) ∷ url_digit (a % 4 * 16 + b / 16) ∷ url_digit (b % 16 * 4) ∷ []
base64_url (a ∷ b ∷ c ∷ rest) =
    url_digit (a / 4)
    ∷ url_digit (a % 4 * 16 + b / 16)
    ∷ url_digit (b % 16 * 4 + c / 64)
    ∷ url_digit (c % 64)
    ∷ base64_url rest

-- A word of 32 bits as it lies in memory, the low byte first.
unfoldable pub bytes_of_words : List ℕ → List ℕ
bytes_of_words [] = []
bytes_of_words (w ∷ ws) =
    w % 256 ∷ w / 256 % 256 ∷ w / 65536 % 256 ∷ w / 16777216 % 256 ∷ bytes_of_words ws

unfoldable pub words_for : ℕ → ℕ
words_for bytes = (bytes + 4 - 1) / 4

-- `random` gives as many words as it is asked for.
unfoldable pub random_token : (ℕ → List ℕ) → ℕ → Chars
random_token random bytes =
    if bytes == 0 then [] else base64_url (take bytes (bytes_of_words (random (words_for bytes))))

pub record Pkce : Type 0 where
  pub state : Chars
  pub code_verifier : Chars
  pub code_challenge : Chars

unfoldable pub challenge_for : (Chars → List ℕ) → Chars → Chars
challenge_for sha256 verifier = base64_url (sha256 verifier)

-- The two calls read the random source one after the other.
unfoldable pub generate : (Chars → List ℕ) → (ℕ → List ℕ) → (ℕ → List ℕ) → Pkce
generate sha256 first second =
    let verifier = random_token second 48 in
    record {
      state = random_token first 16;
      code_verifier = verifier;
      code_challenge = challenge_for sha256 verifier;
    }

-- The characters that a URL and a verifier of RFC 7636 may hold as they are.
abbrev pub is_unreserved : ℕ → Bool
is_unreserved c =
    (leb b'A' c && leb c b'Z')
    || (leb b'a' c && leb c b'z')
    || (leb b'0' c && leb c b'9')
    || c == b'-'
    || c == b'_'

unfoldable pub all_unreserved : Chars → Bool
all_unreserved [] = true
all_unreserved (c ∷ cs) = is_unreserved c && all_unreserved cs

url_digit-unreserved : (n : ℕ) → is_unreserved (url_digit n) ≡ true
unfolding url_digit
url_digit-unreserved n = ground arith

base64_url-unreserved : (bytes : List ℕ) → all_unreserved (base64_url bytes) ≡ true
unfolding base64_url all_unreserved
base64_url-unreserved [] = refl
base64_url-unreserved (a ∷ []) =
    rw (url_digit-unreserved (a / 4), url_digit-unreserved (a % 4 * 16)) refl
base64_url-unreserved (a ∷ b ∷ []) =
    rw
      (
        url_digit-unreserved (a / 4),
        url_digit-unreserved (a % 4 * 16 + b / 16),
        url_digit-unreserved (b % 16 * 4),
      )
      refl
base64_url-unreserved (a ∷ b ∷ c ∷ rest) =
    rw
      (
        url_digit-unreserved (a / 4),
        url_digit-unreserved (a % 4 * 16 + b / 16),
        url_digit-unreserved (b % 16 * 4 + c / 64),
        url_digit-unreserved (c % 64),
      )
      (base64_url-unreserved rest)

base64_url-length : (bytes : List ℕ) → length (base64_url bytes) ≡ (length bytes * 4 + 2) / 3
unfolding base64_url
base64_url-length [] = refl
base64_url-length (a ∷ []) = refl
base64_url-length (a ∷ b ∷ []) = refl
base64_url-length (a ∷ b ∷ c ∷ rest) = omega (arith, base64_url-length rest)

bytes_of_words-length : (words : List ℕ) → length (bytes_of_words words) ≡ length words * 4
unfolding bytes_of_words
bytes_of_words-length [] = refl
bytes_of_words-length (w ∷ ws) = omega (arith, bytes_of_words-length ws)

take-enough : (n : ℕ) (xs : List ℕ) → n ≤ length xs → length (take n xs) ≡ n
take-enough n xs h = length-take n xs ∙ omega arith

enough_words : (bytes words : ℕ) → words ≡ (bytes + 4 - 1) / 4 → bytes ≤ words * 4
enough_words bytes words h = omega arith

-- A token of any number of bytes is made of random bytes alone: it has the length of that many bytes in
-- base64url, so that none is missing, and its characters can stand in a URL as they are. The random
-- source gives as many words as it is asked for.
pub random_token-length :
    (random : ℕ → List ℕ) (bytes : ℕ)
    → length (random (words_for bytes)) ≡ words_for bytes
    → (length (random_token random bytes) ≡ (bytes * 4 + 2) / 3)
      × (all_unreserved (random_token random bytes) ≡ true)
unfolding random_token
random_token-length random bytes h =
    let buffer = bytes_of_words (random (words_for bytes)) in
    let enough : bytes ≤ length buffer =
      unfold words_for in
      omega (
        arith,
        bytes_of_words-length (random (words_for bytes)),
        h,
        enough_words bytes (words_for bytes) refl,
      ) in
    if_elim (λ cs. (length cs ≡ (bytes * 4 + 2) / 3) × (all_unreserved cs ≡ true)) (bytes == 0)
      (λ e. (ground (arith, e), unfold all_unreserved in refl))
      λ e. (
        base64_url-length (take bytes buffer)
            ∙ ap (λ n. (n * 4 + 2) / 3) (take-enough bytes buffer enough),
        base64_url-unreserved (take bytes buffer),
      )

-- A sign-in that is begun has a verifier of 64 characters, which is within the 43 to 128 of RFC 7636, and
-- a state of 22, all of which can stand in a URL as they are. The random source gives as many words as
-- it is asked for.
pub generate-lengths :
    (sha256 : Chars → List ℕ) (first second : ℕ → List ℕ)
    → length (first (words_for 16)) ≡ words_for 16
    → length (second (words_for 48)) ≡ words_for 48
    → let p = generate sha256 first second in
      (length p.code_verifier ≡ 64)
      × (length p.state ≡ 22)
      × (all_unreserved p.code_verifier ≡ true)
      × (all_unreserved p.state ≡ true)
      × (all_unreserved p.code_challenge ≡ true)
unfolding generate challenge_for
generate-lengths sha256 first second h k =
    let (n, state) = random_token-length first 16 h in
    let (m, verifier) = random_token-length second 48 k in
    (m, n, verifier, state, base64_url-unreserved (sha256 (random_token second 48)))
