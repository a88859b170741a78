-- ===== src/Uuid.antt =====
-- Python's `uuid.UUID(text)` and `str(uuid)`, which the routes and the WebSocket layer use for
-- every identifier. A UUID is its number below 2 ^ 128. Texts are read as ASCII: the other digits
-- that `int` knows are refused here.
pub mod Digits
pub mod RoundTrip
use fastapi_realtime_chat.Prelude.{
  ℕ, zero, suc, ◌+◌, ◌-◌, ◌*◌, ◌/◌, ◌%◌, Bool, true, false, ◌&&◌, ◌||◌, Option, none, some, [], ◌∷◌,
  ◌++◌, ltb, leb, nat_beq, if◌then◌else◌, is_some, Text, codes, nat_eq, text_eq, strip_prefix,
  length, take, drop,
}

-- `text.replace(sub, "")`, from left to right; `skip` counts the characters of a match that are
-- still to be passed over.
unfoldable pub remove_from : ℕ → Text → Text → Text
remove_from skip sub [] = []
remove_from zero sub (c ∷ s) = elim (is_some (strip_prefix sub (c ∷ s))) [
  | true ↦ remove_from (length sub - 1) sub s
  | false ↦ c ∷ remove_from zero sub s
]
remove_from (suc skip) sub (c ∷ s) = remove_from skip sub s

unfoldable pub remove : Text → Text → Text
unfolding remove_from strip_prefix
remove sub s = remove_from 0 sub s

-- `text.strip(chars)`, at one end and at both.
unfoldable pub strip_left : (ℕ → Bool) → Text → Text
strip_left p [] = []
strip_left p (c ∷ s) = let rest = strip_left p s in if p c then rest else c ∷ s

unfoldable pub strip_right : (ℕ → Bool) → Text → Text
strip_right p [] = []
strip_right p (c ∷ s) = elim (strip_right p s) [
  | [] ↦ if p c then [] else c ∷ []
  | d ∷ t ↦ c ∷ d ∷ t
]

unfoldable pub strip : (ℕ → Bool) → Text → Text
unfolding strip_left strip_right
strip p s = strip_right p (strip_left p s)

abbrev pub is_brace : ℕ → Bool
is_brace c = nat_beq c b'{' || nat_beq c b'}'

abbrev pub is_space : ℕ → Bool
is_space c = nat_beq c 32 || (leb 9 c && leb c 13)

unfoldable pub hex_value : ℕ → Option ℕ
hex_value c =
    if leb b'0' c && leb c b'9'
    then some (c - b'0')
    else if leb b'a' c && leb c b'f'
    then some (c - 87)
    else if leb b'A' c && leb c b'F'
    then some (c - 55)
    else none

-- The digits of `int(text, 16)`: one underscore may stand between two of them.
unfoldable pub digits : ℕ → Bool → Text → Option ℕ
unfolding hex_value
digits n after_digit [] = if after_digit then some n else none
digits n after_digit (c ∷ s) = elim (nat_beq c b'_') [
  | true ↦ elim after_digit [ true ↦ digits n false s | false ↦ none ]
  | false ↦ elim (hex_value c) [ none ↦ none | some d ↦ digits (n * 16 + d) true s ]
]

-- `0x` may stand before the digits, and one underscore behind it.
unfoldable pub prefixed : Text → Option ℕ
unfolding digits
prefixed (z ∷ x ∷ u ∷ s) =
    if nat_beq z b'0' && (nat_beq x b'x' || nat_beq x b'X')
    then (if nat_beq u b'_' then digits 0 false s else digits 0 false (u ∷ s))
    else digits 0 false (z ∷ x ∷ u ∷ s)
prefixed s = digits 0 false s

abbrev pub zero_only : Option ℕ → Option ℕ
zero_only none = none
zero_only (some zero) = some 0
zero_only (some (suc n)) = none

-- `int(text, 16)`; of the negative numbers only -0 passes the range check of `UUID`.
unfoldable pub signed : Text → Option ℕ
unfolding prefixed
signed [] = none
signed (c ∷ s) =
    if nat_beq c b'-'
    then zero_only (prefixed s)
    else if nat_beq c b'+'
    then prefixed s
    else prefixed (c ∷ s)

-- `UUID(text)`; `none` is the `ValueError`.
unfoldable pub parse : Text → Option ℕ
unfolding remove strip signed
parse text =
    let hex =
      remove (codes "-") (strip is_brace (remove (codes "uuid:") (remove (codes "urn:") text))) in
    if nat_beq (length hex) 32 then signed (strip is_space hex) else none

abbrev pub hex_char : ℕ → ℕ
hex_char d = if ltb d 10 then d + b'0' else d + 87

-- The last `k` hexadecimal digits of `n` before `rest`.
unfoldable pub hex : ℕ → ℕ → Text → Text
hex zero n rest = rest
hex (suc k) n rest = hex k (n / 16) (hex_char (n % 16) ∷ rest)

-- `s[:8]-s[8:12]-s[12:16]-s[16:20]-s[20:]`
abbrev pub dashed : Text → Text
dashed s =
    take 8 s
    ++ (b'-' ∷ take 4 (drop 8 s)
        ++ (b'-' ∷ take 4 (drop 12 s) ++ (b'-' ∷ take 4 (drop 16 s) ++ (b'-' ∷ drop 20 s))))

-- `str(uuid)`: the 32 digits, with four dashes.
unfoldable pub str : ℕ → Text
unfolding hex
str n = dashed (hex 32 n [])
