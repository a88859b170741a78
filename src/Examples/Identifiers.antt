-- ===== src/Examples/Identifiers.antt =====
-- The text of a UUID, written and read.
use fastapi_realtime_chat.Prelude.{ℕ, ◌≡◌, refl, none, some, codes, nat_eq, text_eq}
use fastapi_realtime_chat.Uuid

abbrev sample : ℕ
sample = 0x123e4567e89b12d3a456426614174000

str-sample : Uuid.str sample ≡ codes "123e4567-e89b-12d3-a456-426614174000"
unfolding Uuid.str
str-sample = refl

-- Braces, a prefix, missing dashes and capitals are accepted.
parse-sample : Uuid.parse (codes "{urn:uuid:123E4567E89B-12D3-A456426614174000}") ≡ some sample
unfolding Uuid.parse
parse-sample = refl

parse_refused : Uuid.parse (codes "123e4567-e89b-12d3-a456-42661417400g") ≡ none
unfolding Uuid.parse
parse_refused = refl
