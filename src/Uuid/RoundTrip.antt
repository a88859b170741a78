-- ===== src/Uuid/RoundTrip.antt =====
-- Reading back the text of a UUID.
use fastapi_realtime_chat.Prelude.{
  ℕ, zero, suc, ◌+◌, ◌*◌, ◌/◌, ◌%◌, ◌^◌, ◌<◌, ◌≡◌, refl, sym, ap, ◌∙◌, Bool, true, false, not, some,
  [], ◌∷◌, ◌++◌, arith, nat_beq, Text, codes, nat_eq, text_eq, length, take, drop,
}
use native.Mathlib.Nat.{pow-suc}
use fastapi_realtime_chat.Uuid.{
  remove, strip_left, strip_right, strip, is_brace, is_space, hex_value, digits, signed, parse,
  hex_char, hex, dashed, str,
}
use fastapi_realtime_chat.Uuid.Digits.{
  All, is_digit, is_uuid_char, All-mono, is_digit-hex_char, All-hex, length-hex, dashed-All,
  All-take, All-drop,
}

not_dash : (c : ℕ) → is_digit c ≡ true → not (nat_beq b'-' c) ≡ true
unfolding is_digit
not_dash c h = ground arith

not_space : (c : ℕ) → is_digit c ≡ true → not (is_space c) ≡ true
unfolding is_digit
not_space c h = ground arith

not_u : (c : ℕ) → is_uuid_char c ≡ true → not (nat_beq b'u' c) ≡ true
unfolding is_uuid_char
not_u c h = ground arith

not_brace : (c : ℕ) → is_uuid_char c ≡ true → not (is_brace c) ≡ true
unfolding is_uuid_char
not_brace c h = ground arith

take-append-drop : (n : ℕ) (s : Text) → take n s ++ drop n s ≡ s
take-append-drop zero s = refl
take-append-drop (suc n) [] = refl
take-append-drop (suc n) (c ∷ s) = ap (◌∷◌ c) (take-append-drop n s)

drop-nil : (n : ℕ) → drop {A = ℕ} n [] ≡ []
drop-nil zero = refl
drop-nil (suc n) = refl

drop-drop : (n m : ℕ) (s : Text) → drop n (drop m s) ≡ drop (m + n) s
drop-drop n zero s = let e : zero + n ≡ n = omega arith in rw e
drop-drop n (suc m) [] = drop-nil n ∙ sym (drop-nil (suc m + n))
drop-drop n (suc m) (c ∷ s) =
    let e : suc m + n ≡ suc (m + n) = omega arith in rw e (drop-drop n m s)

hex_value-hex_char : (d : ℕ) → d < 16 → hex_value (hex_char d) ≡ some d
unfolding hex_value
hex_value-hex_char d h = ground arith

digits-hex_char :
    (d acc : ℕ) (b : Bool) (rest : Text)
    → d < 16
    → digits acc b (hex_char d ∷ rest) ≡ digits (acc * 16 + d) true rest
unfolding digits
digits-hex_char d acc b rest h = ground (arith, hex_value-hex_char d h, is_digit-hex_char d h)

power_step : (p n acc : ℕ) → (acc * p + n / 16) * 16 + n % 16 ≡ acc * (p * 16) + n
power_step p n acc = omega arith

-- The digits of a number that fits are read as that number, behind those that came before.
digits-hex :
    (k n acc : ℕ) (rest : Text)
    → n < 16 ^ suc k
    → digits acc false (hex (suc k) n rest) ≡ digits (acc * 16 ^ suc k + n) true rest
unfolding hex
digits-hex zero n acc rest h =
    digits-hex_char (n % 16) acc false rest (omega arith)
    ∙ ap (λ m. digits m true rest) (omega arith)
digits-hex (suc k) n acc rest h =
    let e : 16 ^ suc (suc k) ≡ 16 ^ suc k * 16 = pow-suc 16 (suc k) in
    digits-hex k (n / 16) acc (hex_char (n % 16) ∷ rest) (omega (arith, e))
    ∙ digits-hex_char (n % 16) (acc * 16 ^ suc k + n / 16) true rest (omega arith)
    ∙ ap (λ m. digits m true rest) (power_step (16 ^ suc k) n acc ∙ ap (λ p. acc * p + n) (sym e))

-- A text without the first character of `sub` does not hold `sub`.
remove_absent : (u : ℕ) (sub s : Text) → All (λ c. not (nat_beq u c)) s → remove (u ∷ sub) s ≡ s
unfolding remove
remove_absent u sub [] h = refl
remove_absent u sub (c ∷ s) h = ground (arith, remove_absent u sub s h.1)

remove-dash :
    (s rest : Text)
    → All is_digit s
    → remove (codes "-") (s ++ b'-' ∷ rest) ≡ s ++ remove (codes "-") rest
unfolding remove is_digit
remove-dash [] rest h = refl
remove-dash (c ∷ s) rest h = ground (arith, remove-dash s rest h.1)

strip_left_absent : (p : ℕ → Bool) (s : Text) → All (λ c. not (p c)) s → strip_left p s ≡ s
unfolding strip_left
strip_left_absent p [] h = refl
strip_left_absent p (c ∷ s) h = ground (arith, strip_left_absent p s h.1)

strip_right_absent : (p : ℕ → Bool) (s : Text) → All (λ c. not (p c)) s → strip_right p s ≡ s
unfolding strip_right
strip_right_absent p [] h = refl
strip_right_absent p (c ∷ s) h = ground (arith, strip_right_absent p s h.1)

strip_absent : (p : ℕ → Bool) (s : Text) → All (λ c. not (p c)) s → strip p s ≡ s
unfolding strip
strip_absent p s h = rw (strip_left_absent p s h) (strip_right_absent p s h)

-- A text of digits is read as its digits.
signed-digits : (s : Text) → All is_digit s → 0 < length s → signed s ≡ digits 0 false s
unfolding signed is_digit
signed-digits [] h l = absurd (omega arith)
signed-digits (c ∷ []) h l = ground arith
signed-digits (c ∷ x ∷ []) h l = ground arith
signed-digits (c ∷ x ∷ u ∷ s) h l = ground arith

module _ (s : Text) (h : All is_digit s) where
  remove_dashes : remove (codes "-") (dashed s) ≡ s
  remove_dashes =
      let part = λ (n m : ℕ). All-take is_digit n (drop m s) (All-drop is_digit m s h) in
      rw (
        remove-dash (take 8 s) _ (part 8 0),
        remove-dash (take 4 (drop 8 s)) _ (part 4 8),
        remove-dash (take 4 (drop 12 s)) _ (part 4 12),
        remove-dash (take 4 (drop 16 s)) _ (part 4 16),
        remove_absent b'-' [] (drop 20 s)
            (All-mono is_digit _ not_dash (drop 20 s) (All-drop is_digit 20 s h)),
        ← drop-drop 4 16 s,
        take-append-drop 4 (drop 16 s),
        ← drop-drop 4 12 s,
        take-append-drop 4 (drop 12 s),
        ← drop-drop 4 8 s,
        take-append-drop 4 (drop 8 s),
        take-append-drop 8 s,
      )

digits_end : (n : ℕ) → digits (0 * 16 ^ 32 + n) true [] ≡ some n
unfolding digits
digits_end n = ap some (omega arith)

-- Every UUID is read back from its text.
pub parse-str : (n : ℕ) → n < 2 ^ 128 → parse (str n) ≡ some n
unfolding parse str
parse-str n h =
    let s = hex 32 n [] in
    let ds : All is_digit s = All-hex 32 n [] tt in
    let cs : All is_uuid_char (dashed s) = dashed-All s ds in
    rw
      (
        remove_absent b'u' (codes "rn:") (dashed s) (All-mono is_uuid_char _ not_u (dashed s) cs),
        remove_absent b'u' (codes "uid:") (dashed s) (All-mono is_uuid_char _ not_u (dashed s) cs),
        strip_absent is_brace (dashed s) (All-mono is_uuid_char _ not_brace (dashed s) cs),
        remove_dashes s ds,
        length-hex 32 n [],
        strip_absent is_space s (All-mono is_digit _ not_space s ds),
        signed-digits s ds (omega (arith, length-hex 32 n [])),
        digits-hex 31 n 0 [] h,
      )
      (digits_end n)
