-- ===== src/Protocol.antt =====
-- module_upstream/ngx_protocol.c: the frame of the upstream protocol, a header of eight bytes
-- (a flag in the machine's byte order, and the length in network order) and the body.
pub mod Frames
use nginx_modules.Base.{
  ℕ, zero, suc, ◌+◌, ◌-◌, ◌*◌, ◌/◌, ◌%◌, ◌^◌, ltb, ◌==◌, if◌then◌else◌, not, Bool, Option, none,
  some, List, [], ◌∷◌, ◌++◌, length, take, drop,
}

-- NGX_ADPROTOCOL_FLAG
abbrev pub flag : ℕ
flag = 0xe8

-- NGX_ADPROTOCOL_HEADER_LENGTH: two `int`s
abbrev pub header_length : ℕ
header_length = 8

-- An `int` in memory on a little-endian machine.
unfoldable pub int_bytes : ℕ → List ℕ
int_bytes x = (x % 256) ∷ (x / 256 % 256) ∷ (x / 65536 % 256) ∷ (x / 16777216 % 256) ∷ []

-- `htonl(x)`, as it lies in memory: the most significant byte first.
unfoldable pub htonl_bytes : ℕ → List ℕ
htonl_bytes x = (x / 16777216 % 256) ∷ (x / 65536 % 256) ∷ (x / 256 % 256) ∷ (x % 256) ∷ []

-- ngx_http_protocol_encode: `alloc` tells whether ngx_create_temp_buf has room for the length.
unfoldable pub encode : (ℕ → Bool) → List ℕ → Option (List ℕ)
unfolding int_bytes htonl_bytes
encode alloc data' =
    if alloc (header_length + length data')
    then some (int_bytes flag ++ (htonl_bytes (length data') ++ data'))
    else none

-- NGX_ADPROTOCOL_eMOREDATA, NGX_ADPROTOCOL_eERROR, or the length of the body with what `buf->pos`
-- then points at.
pub data Decoded : Type 0 where
  more_data : Decoded
  flag_error : Decoded
  body : ℕ → List ℕ → Decoded

-- The header's two words, read from the bytes between `pos` and `last`.
unfoldable pub head_flag : List ℕ → ℕ
head_flag (a ∷ b ∷ c ∷ d ∷ rest) = a + 256 * b + 65536 * c + 16777216 * d
head_flag _ = 0

unfoldable pub ntohl_length : List ℕ → ℕ
ntohl_length (a ∷ b ∷ c ∷ d ∷ e ∷ f ∷ g ∷ h ∷ rest) = h + 256 * g + 65536 * f + 16777216 * e
ntohl_length _ = 0

-- ngx_http_protocol_decode
unfoldable pub decode : List ℕ → Decoded
unfolding head_flag ntohl_length
decode buf =
    if ltb (length buf) header_length
    then more_data
    else (if not (flag == head_flag buf)
        then flag_error
        else (if ltb (length buf - header_length) (ntohl_length buf)
            then more_data
            else body (ntohl_length buf) (drop header_length buf)))
