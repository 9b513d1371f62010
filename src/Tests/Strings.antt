-- ===== src/Tests/Strings.antt =====
-- Texts, queries and frames.
use nginx_modules.Base.{ℕ, ◌≡◌, refl, true, none, some, List, [], ◌∷◌, ◌++◌, arith}
use nginx_modules.Uri.{hex2dec, is_safe, dec2hex, uri_encode, escaped, uri_decode}
use nginx_modules.Uri.RoundTrip.{IsBytes, uri_decode-uri_encode}
use nginx_modules.Uri.Params.{
  Params, insert, skip_spaces, cut, add_segment, split_loop, split_string,
}
use nginx_modules.Uri.Params.Query.{
  write_query, insert_all, ArePairs, IsDelimiter, split_string_total, split_string-write_query,
}
use nginx_modules.Protocol.{int_bytes, htonl_bytes, encode, body, head_flag, ntohl_length, decode}
use nginx_modules.Protocol.Frames.{decode-encode}

program : Unit {0}
unfolding hex2dec is_safe dec2hex uri_encode escaped uri_decode insert skip_spaces cut add_segment
    split_loop split_string int_bytes htonl_bytes encode head_flag ntohl_length decode
program = tt

abbrev spaced : List ℕ
spaced = b'a' ∷ b' ' ∷ 200 ∷ []

encode_spaced : uri_encode spaced ≡ b'a' ∷ b'%' ∷ b'2' ∷ b'0' ∷ b'%' ∷ b'C' ∷ b'8' ∷ []
unfolding program
encode_spaced = refl

spaced-IsBytes : IsBytes spaced
spaced-IsBytes = (omega arith, (omega arith, (omega arith, tt)))

uri_decode-uri_encode_example : uri_decode (uri_encode spaced) ≡ spaced
uri_decode-uri_encode_example = uri_decode-uri_encode spaced spaced-IsBytes

abbrev no_params : Params
no_params = λ q. none

abbrev query : List ℕ
query = b'k' ∷ b'=' ∷ b'v' ∷ b'&' ∷ b' ' ∷ b'k' ∷ b'=' ∷ b'w' ∷ []

split_string_total_example : (kv' : Params) × (split_string no_params query b'&' ≡ some kv')
split_string_total_example = split_string_total no_params query b'&'

ampersand : IsDelimiter b'&'
unfolding is_safe
ampersand = record { not_safe = refl; not_percent = omega arith; not_equal = omega arith }

abbrev pairs : List (List ℕ × List ℕ)
pairs = (b'k' ∷ [], spaced) ∷ (b'q' ∷ [], []) ∷ []

pairs-ArePairs : ArePairs b'&' pairs
pairs-ArePairs = (
  (((omega arith), ((omega arith, omega arith), tt)), spaced-IsBytes),
  ((((omega arith), ((omega arith, omega arith), tt)), tt), tt),
)

split_string-write_query_example :
    split_string no_params (write_query b'&' pairs) b'&' ≡ some (insert_all no_params pairs)
split_string-write_query_example =
    split_string-write_query b'&' ampersand no_params pairs pairs-ArePairs

abbrev hello : List ℕ
hello = 0xe8 ∷ 0 ∷ 0 ∷ 0 ∷ 0 ∷ 0 ∷ 0 ∷ 2 ∷ 104 ∷ 105 ∷ []

encode-hello : encode (λ n. true) (104 ∷ 105 ∷ []) ≡ some hello
unfolding program
encode-hello = refl

decode-encode_example : decode (hello ++ 7 ∷ []) ≡ body 2 (104 ∷ 105 ∷ 7 ∷ [])
decode-encode_example =
    decode-encode (λ n. true) (104 ∷ 105 ∷ []) (7 ∷ []) hello (omega arith) encode-hello

decode-hello : decode hello ≡ body 2 (104 ∷ 105 ∷ [])
unfolding program
decode-hello = refl
