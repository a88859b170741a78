-- ===== src/Uuid/Digits.antt =====
-- The characters that the text of a UUID is made of.
use fastapi_realtime_chat.Prelude.{
  ℕ, zero, suc, ◌+◌, ◌/◌, ◌%◌, ◌<◌, ◌≡◌, refl, Bool, true, ◌&&◌, ◌||◌, [], ◌∷◌, ◌++◌, arith, leb,
  nat_beq, Text, nat_eq, text_eq, length, take, drop,
}
use fastapi_realtime_chat.Uuid.{hex_char, hex, dashed, str}

abbrev pub All : (ℕ → Bool) → Text → Type 0
All p [] = Unit
All p (c ∷ s) = (p c ≡ true) × All p s

-- What `str` writes as a digit.
unfoldable pub is_digit : ℕ → Bool
is_digit c = (leb b'0' c && leb c b'9') || (leb b'a' c && leb c b'f')

unfoldable pub is_uuid_char : ℕ → Bool
unfolding is_digit
is_uuid_char c = is_digit c || nat_beq c b'-'

module _ (p : ℕ → Bool) where
  pub All-append : (s t : Text) → All p s → All p t → All p (s ++ t)
  All-append [] t hs ht = ht
  All-append (c ∷ s) t hs ht = (hs.0, All-append s t hs.1 ht)

  pub All-take : (n : ℕ) (s : Text) → All p s → All p (take n s)
  All-take zero s h = tt
  All-take (suc n) [] h = tt
  All-take (suc n) (c ∷ s) h = (h.0, All-take n s h.1)

  pub All-drop : (n : ℕ) (s : Text) → All p s → All p (drop n s)
  All-drop zero s h = h
  All-drop (suc n) [] h = tt
  All-drop (suc n) (c ∷ s) h = All-drop n s h.1

pub All-mono :
    (p q : ℕ → Bool) → ((c : ℕ) → p c ≡ true → q c ≡ true) → (s : Text) → All p s → All q s
All-mono p q f [] h = tt
All-mono p q f (c ∷ s) h = (f c h.0, All-mono p q f s h.1)

pub is_uuid_char-digit : (c : ℕ) → is_digit c ≡ true → is_uuid_char c ≡ true
unfolding is_uuid_char
is_uuid_char-digit c h = ground arith

pub is_digit-hex_char : (d : ℕ) → d < 16 → is_digit (hex_char d) ≡ true
unfolding is_digit
is_digit-hex_char d h = ground arith

pub All-hex : (k n : ℕ) (rest : Text) → All is_digit rest → All is_digit (hex k n rest)
unfolding hex
All-hex zero n rest h = h
All-hex (suc k) n rest h = All-hex k (n / 16) _ (is_digit-hex_char (n % 16) (omega arith), h)

pub length-hex : (k n : ℕ) (rest : Text) → length (hex k n rest) ≡ k + length rest
unfolding hex
length-hex zero n rest = omega arith
length-hex (suc k) n rest = omega (arith, length-hex k (n / 16) (hex_char (n % 16) ∷ rest))

pub dashed-All : (s : Text) → All is_digit s → All is_uuid_char (dashed s)
unfolding is_uuid_char
dashed-All s h =
    let weaken = λ (c : ℕ) (e : is_digit c ≡ true). is_uuid_char-digit c e in
    let part = λ (n m : ℕ).
      All-mono is_digit is_uuid_char weaken (take n (drop m s))
        (All-take is_digit n (drop m s) (All-drop is_digit m s h)) in
    All-append is_uuid_char (take 8 s) _ (part 8 0) (
      refl,
      All-append is_uuid_char (take 4 (drop 8 s)) _ (part 4 8) (
        refl,
        All-append is_uuid_char (take 4 (drop 12 s)) _ (part 4 12) (
          refl,
          All-append is_uuid_char (take 4 (drop 16 s)) _ (part 4 16)
              (refl, All-mono is_digit is_uuid_char weaken (drop 20 s) (All-drop is_digit 20 s h)),
        ),
      ),
    )

pub str-All : (n : ℕ) → All is_uuid_char (str n)
unfolding str
str-All n = dashed-All (hex 32 n []) (All-hex 32 n [] tt)
