-- ===== src/Uri/RoundTrip.antt =====
-- UriDecode on what UriEncode wrote.
use nginx_modules.Base.{
  ℕ, ◌/◌, ◌%◌, ◌<◌, ◌≡◌, ◌≢◌, refl, sym, ◌∙◌, ap, Bool-cases, inl, inr, true, false, some, List, [],
  ◌∷◌, ◌++◌, All, arith,
}
use nginx_modules.Uri.{hex2dec, is_safe, dec2hex, uri_encode, escaped, uri_decode}

-- A string of bytes.
abbrev pub IsBytes : List ℕ → Type 0
IsBytes = All (λ c. c < 256)

hex2dec-dec2hex : (d : ℕ) → d < 16 → hex2dec (dec2hex d) ≡ some d
unfolding hex2dec dec2hex
hex2dec-dec2hex d h = ground arith

dec2hex-safe : (d : ℕ) → d < 16 → is_safe (dec2hex d) ≡ true
unfolding is_safe dec2hex
dec2hex-safe d h = ground arith

escaped-byte : (c : ℕ) → c < 256 → escaped (dec2hex (c / 16)) (dec2hex (c % 16)) ≡ some c
unfolding escaped
escaped-byte c h =
    ground (arith, hex2dec-dec2hex (c / 16) (omega arith), hex2dec-dec2hex (c % 16) (omega arith))

-- A safe byte is copied, with what is behind it decoded, however near the end it stands.
uri_decode-safe : (c : ℕ) (s : List ℕ) → is_safe c ≡ true → uri_decode (c ∷ s) ≡ c ∷ uri_decode s
unfolding uri_decode is_safe
uri_decode-safe c [] h = refl
uri_decode-safe c (x ∷ []) h = refl
uri_decode-safe c (x ∷ y ∷ s) h = ground arith

-- An escaped byte is decoded.
uri_decode-escape :
    (c : ℕ) (s : List ℕ)
    → c < 256
    → uri_decode (b'%' ∷ dec2hex (c / 16) ∷ dec2hex (c % 16) ∷ s) ≡ c ∷ uri_decode s
unfolding uri_decode
uri_decode-escape c s h = rw (escaped-byte c h, uri_decode) refl

-- Decoding undoes encoding, for every string of bytes.
pub uri_decode-uri_encode : (s : List ℕ) → IsBytes s → uri_decode (uri_encode s) ≡ s
unfolding uri_encode
uri_decode-uri_encode [] h = unfold uri_decode in refl
uri_decode-uri_encode (c ∷ s) h = elim (Bool-cases (is_safe c)) [
  | inl e ↦
      rw e (rw (uri_decode-safe c (uri_encode s) e) (ap (◌∷◌ c) (uri_decode-uri_encode s h.1)))
  | inr e ↦
      rw e (rw (uri_decode-escape c (uri_encode s) h.0) (ap (◌∷◌ c) (uri_decode-uri_encode s h.1)))
]

-- A byte that is safe or a percent sign is not a given other one.
not_delimiter : (c d : ℕ) → is_safe d ≡ false → d ≢ b'%' → is_safe c ≡ true → c ≢ d
not_delimiter c d a b h = ground arith

-- What is encoded has no delimiter, if that is neither safe nor a percent sign.
pub uri_encode-ne :
    (d : ℕ) (s : List ℕ)
    → is_safe d ≡ false
    → d ≢ b'%'
    → IsBytes s
    → All (λ c. c ≢ d) (uri_encode s)
unfolding uri_encode
uri_encode-ne d [] a b h = tt
uri_encode-ne d (c ∷ s) a b h =
    let rest = uri_encode-ne d s a b h.1 in
    elim (Bool-cases (is_safe c)) [
      | inl e ↦ rw e (not_delimiter c d a b e, rest)
      | inr e ↦ rw e (
        λ w. b (sym w),
        (
          not_delimiter (dec2hex (c / 16)) d a b (dec2hex-safe (c / 16) (omega arith)),
          (not_delimiter (dec2hex (c % 16)) d a b (dec2hex-safe (c % 16) (omega arith)), rest),
        ),
      )
    ]

-- The last two bytes of a text whose other bytes are safe ones are copied, a `+` among them: it
-- is not read as a space.
pub uri_decode_tail :
    (s : List ℕ) (x y : ℕ)
    → All (λ c. (is_safe c) ≡ true) s
    → uri_decode (s ++ x ∷ y ∷ []) ≡ s ++ x ∷ y ∷ []
uri_decode_tail [] x y h = unfold uri_decode in refl
uri_decode_tail (c ∷ s) x y h =
    uri_decode-safe c (s ++ x ∷ y ∷ []) h.0 ∙ ap (◌∷◌ c) (uri_decode_tail s x y h.1)
