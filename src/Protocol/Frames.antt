-- ===== src/Protocol/Frames.antt =====
-- Frames that were encoded, decoded in whole and in part.
use nginx_modules.Base.{
  ℕ, suc, ◌+◌, ◌-◌, ◌*◌, ◌/◌, ◌%◌, ◌^◌, ◌≤◌, ◌<◌, ◌≡◌, inl, inr, refl, sym, subst, Bool, some, List,
  ◌++◌, Bool-cases, ltb, length, length-take, length-drop, length-append, take, drop, arith,
}
use nginx_modules.Protocol.{
  flag, header_length, int_bytes, htonl_bytes, encode, more_data, body, head_flag, ntohl_length,
  decode,
}

-- What encode returns when it has the memory.
abbrev pub framed : List ℕ → List ℕ
framed bytes = int_bytes flag ++ (htonl_bytes (length bytes) ++ bytes)

encode-framed :
    (alloc : ℕ → Bool) (bytes frame : List ℕ)
    → encode alloc bytes ≡ some frame
    → frame ≡ framed bytes
unfolding encode int_bytes htonl_bytes
encode-framed alloc bytes frame e = ground arith

framed-length : (bytes : List ℕ) → length (framed bytes) ≡ 8 + length bytes
unfolding int_bytes htonl_bytes
framed-length bytes = ground arith

framed-flag : (bytes rest : List ℕ) → head_flag (framed bytes ++ rest) ≡ flag
unfolding int_bytes htonl_bytes head_flag
framed-flag bytes rest = refl

digits :
    (n : ℕ)
    → n < 2 ^ 32
    → n % 256 + 256 * (n / 256 % 256) + 65536 * (n / 65536 % 256) + 16777216 * (n / 16777216 % 256)
      ≡ n
digits n h = omega arith

framed-ntohl :
    (bytes rest : List ℕ)
    → length bytes < 2 ^ 32
    → ntohl_length (framed bytes ++ rest) ≡ length bytes
unfolding int_bytes htonl_bytes ntohl_length
framed-ntohl bytes rest h = digits (length bytes) h

framed-drop : (bytes rest : List ℕ) → drop header_length (framed bytes ++ rest) ≡ bytes ++ rest
unfolding int_bytes htonl_bytes
framed-drop bytes rest = refl

decode-framed :
    (bytes rest : List ℕ)
    → length bytes < 2 ^ 32
    → decode (framed bytes ++ rest) ≡ body (length bytes) (bytes ++ rest)
unfolding decode
decode-framed bytes rest h =
    rw
      (
        framed-flag bytes rest,
        framed-ntohl bytes rest h,
        framed-drop bytes rest,
        length-append (framed bytes) rest,
        framed-length bytes,
      )
      (ground arith)

-- What is encoded, with fewer than 2^32 bytes, decodes to its length, and the read position then
-- stands at its first byte, also where more bytes have arrived behind the frame.
pub decode-encode :
    (alloc : ℕ → Bool) (bytes rest frame : List ℕ)
    → length bytes < 2 ^ 32
    → encode alloc bytes ≡ some frame
    → decode (frame ++ rest) ≡ body (length bytes) (bytes ++ rest)
decode-encode alloc bytes rest frame h e =
    subst (λ (f : List ℕ). decode (f ++ rest) ≡ body (length bytes) (bytes ++ rest))
      (sym (encode-framed alloc bytes frame e)) (decode-framed bytes rest h)

-- The decoder on fewer bytes than the header, and on fewer than the length in the header asks for.
decode_few : (buf : List ℕ) → length buf < header_length → decode buf ≡ more_data
unfolding decode
decode_few buf h = ground arith

decode_short :
    (buf : List ℕ)
    → head_flag buf ≡ flag
    → length buf - header_length < ntohl_length buf
    → decode buf ≡ more_data
unfolding decode
decode_short buf e h = ground arith

-- The first words stand in every prefix of eight bytes or more.
prefix_words :
    (bytes : List ℕ) (n : ℕ)
    → 8 ≤ n
    → length bytes < 2 ^ 32
    → (head_flag (take n (framed bytes)) ≡ flag)
      × (ntohl_length (take n (framed bytes)) ≡ length bytes)
unfolding int_bytes htonl_bytes head_flag ntohl_length
prefix_words bytes (suc (suc (suc (suc (suc (suc (suc (suc n)))))))) k h =
    (refl, digits (length bytes) h)
prefix_words bytes _ k h = absurd (omega arith)

take_partial :
    (bytes : List ℕ) (n : ℕ)
    → length bytes < 2 ^ 32
    → n < length (framed bytes)
    → decode (take n (framed bytes)) ≡ more_data
take_partial bytes n h k = elim (Bool-cases (ltb n 8)) [
  | inl few ↦ decode_few (take n (framed bytes)) (ground (arith, length-take n (framed bytes)))
  | inr many ↦
      let words = prefix_words bytes n (ground arith) h in
      decode_short (take n (framed bytes)) words.0
        (ground (arith, words.1, length-take n (framed bytes), framed-length bytes))
]

-- Of a frame with fewer than 2^32 bytes that has not arrived as a whole the decoder waits for
-- more.
pub decode_partial :
    (alloc : ℕ → Bool) (bytes frame : List ℕ) (n : ℕ)
    → length bytes < 2 ^ 32
    → encode alloc bytes ≡ some frame
    → n < length frame
    → decode (take n frame) ≡ more_data
decode_partial alloc bytes frame n h e k =
    let e' = encode-framed alloc bytes frame e in
    subst (λ (f : List ℕ). decode (take n f) ≡ more_data) (sym e')
      (take_partial bytes n h (subst (λ (f : List ℕ). n < length f) e' k))

-- Where the decoder returns a length, that many bytes have arrived behind a header of eight bytes
-- with the protocol's flag.
pub decode_bounds :
    (buf : List ℕ) (n : ℕ) (rest : List ℕ)
    → decode buf ≡ body n rest
    → (n ≤ length rest) × (length rest + 8 ≡ length buf) × (head_flag buf ≡ flag)
unfolding decode
decode_bounds buf n rest e = ground (arith, length-drop 8 buf)
