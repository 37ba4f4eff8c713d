-- ===== src/Common/Patterns.antt =====
-- The regular expressions and string predicates by which the services check identifiers:
-- packages/modules/*/src. A pattern is a list of character classes, one for each code unit.
use Prim.Native.Nat.{ℕ, zero, suc}
use mathlib.Core.Bool.{Bool, true, false, ◌&&◌, ◌||◌}
use mathlib.Core.List.{List, [], ◌∷◌, ◌++◌, map, reverse}
use settle_flow.Common.Tests.{leb, ◌==◌, if◌then◌else◌}
use settle_flow.Common.Lists.{any, all, length}
use settle_flow.Common.Text.{Text, text}

abbrev pub between : ℕ → ℕ → ℕ → Bool
between lo hi c = leb lo c && leb c hi

unfoldable pub is_digit : ℕ → Bool
is_digit = between b'0' b'9'

-- `[0-9a-f]` under the flag `i`
unfoldable pub is_hex : ℕ → Bool
unfolding is_digit
is_hex c = is_digit c || between b'a' b'f' c || between b'A' b'F' c

-- `[0-9A-HJKMNP-TV-Z]`
unfoldable pub is_crockford : ℕ → Bool
unfolding is_digit
is_crockford c =
    is_digit c
    || between b'A' b'H' c
    || c == b'J'
    || c == b'K'
    || c == b'M'
    || c == b'N'
    || between b'P' b'T' c
    || between b'V' b'Z' c

unfoldable pub is_alphanumeric : ℕ → Bool
unfolding is_digit
is_alphanumeric c = is_digit c || between b'a' b'z' c || between b'A' b'Z' c

unfoldable pub replicate {ℓ} : {A : Type ℓ} → ℕ → A → List A
replicate zero a = []
replicate (suc n) a = a ∷ replicate n a

-- `^…$` for a pattern of fixed length
unfoldable pub match_classes : List (ℕ → Bool) → Text → Bool
match_classes [] [] = true
match_classes [] (c ∷ cs) = false
match_classes (p ∷ ps) [] = false
match_classes (p ∷ ps) (c ∷ cs) = p c && match_classes ps cs

-- `^prefix[0-7][0-9A-HJKMNP-TV-Z]{25}$`
unfoldable pub is_public_id : Text → Text → Bool
unfolding match_classes is_crockford replicate
is_public_id prefix s =
    match_classes (map ◌==◌ prefix ++ (between b'0' b'7' ∷ replicate 25 is_crockford)) s

-- `/^[0-9a-f]{8}-[0-9a-f]{4}-[1-5][0-9a-f]{3}-[89ab][0-9a-f]{3}-[0-9a-f]{12}$/iu`
unfoldable pub is_uuid : Text → Bool
unfolding match_classes is_hex replicate
is_uuid = match_classes (
    replicate 8 is_hex
    ++ (◌==◌ b'-' ∷ replicate 4 is_hex)
    ++ (◌==◌ b'-' ∷ between b'1' b'5' ∷ replicate 3 is_hex)
    ++ (◌==◌ b'-' ∷ (λ c. any (◌==◌ c) (text "89abAB")) ∷ replicate 3 is_hex)
    ++ (◌==◌ b'-' ∷ replicate 12 is_hex))

-- `/^[A-Za-z0-9._:-]{1,128}$/u`
unfoldable pub is_request_id : Text → Bool
unfolding is_alphanumeric
is_request_id s =
    leb 1 (length s)
    && leb (length s) 128
    && all (λ c. is_alphanumeric c || any (◌==◌ c) (text "._:-")) s

-- The characters that `trim` and `\s` take for white space.
unfoldable pub is_space : ℕ → Bool
is_space c =
    between 9 13 c
    || c == 32
    || c == 0xa0
    || c == 0x1680
    || between 0x2000 0x200a c
    || c == 0x2028
    || c == 0x2029
    || c == 0x202f
    || c == 0x205f
    || c == 0x3000
    || c == 0xfeff

trim_start : Text → Text
trim_start [] = []
trim_start (c ∷ cs) = if is_space c then trim_start cs else c ∷ cs

-- `String.prototype.trim`
unfoldable pub trim : Text → Text
unfolding trim_start is_space
trim s = reverse (trim_start (reverse (trim_start s)))

-- `containsControlCharacter`: a surrogate is no control character, so code units serve.
unfoldable pub contains_control_character : Text → Bool
contains_control_character = any (λ c. leb c 31 || c == 127)
