-- ===== src/Uri.antt =====
-- module_plugin/uri_codec.h: UriEncode and UriDecode over bytes.
pub mod RoundTrip
pub mod Params
use nginx_modules.Base.{
  ℕ, zero, suc, ◌+◌, ◌-◌, ◌*◌, ◌/◌, ◌%◌, leb, ◌==◌, if◌then◌else◌, not, ◌&&◌, ◌||◌, Bool, Option,
  none, some, List, [], ◌∷◌, length,
}

-- HEX2DEC: `none` is -1.
unfoldable pub hex2dec : ℕ → Option ℕ
hex2dec c =
    if leb b'0' c && leb c b'9'
    then some (c - b'0')
    else (if leb b'A' c && leb c b'F'
        then some (c - b'A' + 10)
        else (if leb b'a' c && leb c b'f' then some (c - b'a' + 10) else none))

-- SAFE: the unreserved characters of RFC 3986.
unfoldable pub is_safe : ℕ → Bool
is_safe c =
    c == b'-'
    || c == b'.'
    || c == b'_'
    || c == b'~'
    || leb b'0' c && leb c b'9'
    || leb b'A' c && leb c b'Z'
    || leb b'a' c && leb c b'z'

-- DEC2HEX
unfoldable pub dec2hex : ℕ → ℕ
dec2hex d = if leb d 9 then d + b'0' else d - 10 + b'A'

unfoldable pub uri_encode : List ℕ → List ℕ
unfolding is_safe dec2hex
uri_encode [] = []
uri_encode (c ∷ rest) =
    let tail = uri_encode rest in
    if is_safe c then c ∷ tail else b'%' ∷ dec2hex (c / 16) ∷ dec2hex (c % 16) ∷ tail

-- The byte of two hexadecimal digits, where both are.
unfoldable pub escaped : ℕ → ℕ → Option ℕ
unfolding hex2dec
escaped x y = elim (hex2dec x) [
  | none ↦ none
  | some h ↦ elim (hex2dec y) [ none ↦ none | some l ↦ some ((h * 16 + l) % 256) ]
]

-- The loop stops two bytes before the end, and the last two are copied.
unfoldable pub uri_decode : List ℕ → List ℕ
unfolding escaped
uri_decode [] = []
uri_decode (c ∷ []) = c ∷ []
uri_decode (c ∷ x ∷ []) = c ∷ x ∷ []
uri_decode (c ∷ x ∷ y ∷ rest) =
    let here = (if c == b'+' then b' ' else c) ∷ uri_decode (x ∷ y ∷ rest) in
    let code = if c == b'%' then escaped x y else none in
    elim code [ some b ↦ b ∷ uri_decode rest | none ↦ here ]
