-- ===== src/Security/Plain.antt =====
-- Tokens that are their claims, with no key, and passwords that are their own hash.
use fastapi_realtime_chat.Prelude.{
  ℕ, zero, suc, ◌≡◌, refl, ap, Option, none, some, [], ◌∷◌, ◌++◌, leb, if◌then◌else◌, ◌==◌, Text,
  nat_eq, text_eq, beq_refl, length, take, drop,
}
use fastapi_realtime_chat.Security.{Crypto, Claims}

unfoldable pub put : Text → Text → Text
put t rest = length t ∷ (t ++ rest)

unfoldable pub put_option : Option Text → Text → Text
put_option none rest = 0 ∷ rest
put_option (some t) rest = 1 ∷ put t rest

abbrev pub Read : Type 0
Read = Option Text × Text

unfoldable pub first : Text → Text × Text
first [] = ([], [])
first (n ∷ rest) = (take n rest, drop n rest)

unfoldable pub first_option : Text → Read
first_option [] = (none, [])
first_option (zero ∷ rest) = (none, rest)
first_option (suc k ∷ rest) = let (t, rest') = first rest in (some t, rest')

unfoldable pub encode : Claims → Text
encode c = c.exp ∷ c.iat ∷ put c.jti (put_option c.sub (put_option c.type []))

unfoldable pub claims_of : Text → Option Claims
claims_of [] = none
claims_of (exp ∷ []) = none
claims_of (exp ∷ iat ∷ rest) =
    let (jti, rest1) = first rest in
    let (sub, rest2) = first_option rest1 in
    let (type, rest3) = first_option rest2 in
    some (record { sub = sub; type = type; exp = exp; iat = iat; jti = jti })

unfoldable pub decode : (now : ℕ) → Text → Option Claims
decode now token = elim (claims_of token) [
  | none ↦ none
  | some c ↦ if leb now c.exp then some c else none
]

take-put : (t rest : Text) → take (length t) (t ++ rest) ≡ t
take-put [] rest = refl
take-put (c ∷ t) rest = ap (◌∷◌ c) (take-put t rest)

drop-put : (t rest : Text) → drop (length t) (t ++ rest) ≡ rest
drop-put [] rest = refl
drop-put (c ∷ t) rest = drop-put t rest

first-put : (t rest : Text) → first (put t rest) ≡ (t, rest)
unfolding first put
first-put t rest = rw (take-put t rest, drop-put t rest)

first-put_option : (o : Option Text) (rest : Text) → first_option (put_option o rest) ≡ (o, rest)
unfolding first_option put_option
first-put_option none rest = refl
first-put_option (some t) rest = rw (first-put t rest)

claims-encode : (c : Claims) → claims_of (encode c) ≡ some c
unfolding claims_of encode
claims-encode c = rw (
  first-put c.jti (put_option c.sub (put_option c.type [])),
  first-put_option c.sub (put_option c.type []),
  first-put_option c.type [],
)

pub decode-encode :
    (now : ℕ) (c : Claims) → decode now (encode c) ≡ (if leb now c.exp then some c else none)
unfolding decode claims_of encode
decode-encode now c = rw (claims-encode c)

abbrev pub plain : Crypto
plain = record {
  encode = encode;
  decode = decode;
  hash = λ salt password. password;
  verify = λ password hashed. password == hashed;
  sha256 = λ token. token;
  decode-encode = decode-encode;
  verify-hash = λ salt password. beq_refl {A = Text} password;
}
