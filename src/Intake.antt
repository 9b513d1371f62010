-- ===== src/Intake.antt =====
-- ngxr_to_crequest of module_plugin/utils.cc: what a plugin gets of a client's request.
pub mod Body
pub mod Conversion
use nginx_modules.Base.{
  ℕ, zero, suc, ◌+◌, ◌-◌, ◌%◌, ◌^◌, ltb, ◌==◌, if◌then◌else◌, not, Bool, true, false, Option, none,
  some, List, [], ◌∷◌, ◌++◌, length, map, take, drop,
}
use nginx_modules.Request.{HeadersIn, CRequest}
use nginx_modules.Uri.Params.{Params, split_string}

-- A buffer of the request's body: in memory, or a part of the temporary file.
pub data Buf : Type 0 where
  in_memory : List ℕ → Buf
  in_file : (file_pos file_last : ℕ) → Buf

-- What ngx_read_file answers, call by call, for a size and an offset: NGX_ERROR, or the bytes that it
-- has read.
abbrev pub Reads : Type 0
Reads = ℕ → ℕ → ℕ → Option (List ℕ)

-- The bytes of a buffer from `pos` on are written over.
abbrev pub write_at : ℕ → List ℕ → List ℕ → List ℕ
write_at pos bytes buf = take pos buf ++ bytes ++ drop (pos + length bytes) buf

-- How a function that reads the body ends: never, with an error, or well.
pub data Outcome (A : Type 0) : Type 0 where
  endless : Outcome A
  failed completed : A → Outcome A

-- The loop that reads until `nbytes` is used up; each call asks for the whole part again. It gives
-- the buffer, where bytes behind the end are written too, and the number of calls made. The end of
-- the fuel stands for a loop that goes on: a call that reads nothing changes nothing.
unfoldable pub read_loop :
    Reads → (file_pos size : ℕ) → ℕ → (calls nbytes buf_pos : ℕ) → List ℕ → Outcome (List ℕ × ℕ)
read_loop reads file_pos size fuel calls zero buf_pos buf = completed (buf, calls)
read_loop reads file_pos size zero calls (suc n) buf_pos buf = endless
read_loop reads file_pos size (suc fuel) calls (suc n) buf_pos buf =
    elim (reads calls size file_pos) [
      | none ↦ failed (buf, suc calls)
      | some bytes ↦
          read_loop reads file_pos size fuel (suc calls) (suc n - length bytes)
            (buf_pos + length bytes) (write_at buf_pos bytes buf)
    ]

-- The state of the loop over the buffers: the body so far, `buf_temp`, whose length is `buf_size`,
-- and the number of calls of ngx_read_file.
pub record Reading : Type 0 where
  pub appended : List ℕ
  pub buf_temp : List ℕ
  pub calls : ℕ

-- The buffer, which is made larger where it is too small; `garbage` is the contents of new memory.
unfoldable pub larger : (ℕ → List ℕ) → ℕ → List ℕ → List ℕ
larger garbage nbytes buf = if ltb (length buf) nbytes then garbage nbytes else buf

-- What is appended where a part of the file has been read: the whole of `buf_temp`.
unfoldable pub after_read : Reading → ℕ → Outcome (List ℕ × ℕ) → Outcome Reading
after_read s buf_size endless = endless
after_read s buf_size (failed o) = failed s
after_read s buf_size (completed (buf, calls)) = completed (record {
  appended = s.appended ++ take buf_size buf;
  buf_temp = take buf_size buf;
  calls = calls;
})

-- `int nbytes` by the part's length: a number that is not positive is nothing to read.
unfoldable pub part_size : ℕ → ℕ → ℕ
part_size file_pos file_last =
    let nbytes = (file_last - file_pos) % 2 ^ 32 in if ltb nbytes (2 ^ 31) then nbytes else 0

-- One buffer of the body.
unfoldable pub add_buf : Reads → (ℕ → List ℕ) → ℕ → Reading → Buf → Outcome Reading
unfolding read_loop larger after_read part_size
add_buf reads garbage fuel s (in_memory bytes) =
    completed (record s { appended = s.appended ++ bytes })
add_buf reads garbage fuel s (in_file file_pos file_last) =
    let nbytes = part_size file_pos file_last in
    let buf = larger garbage nbytes s.buf_temp in
    if nbytes == 0
    then completed s
    else after_read s (length buf)
        (read_loop reads file_pos (file_last - file_pos) fuel s.calls nbytes 0 buf)

-- The loop over the buffers.
unfoldable pub body_loop : Reads → (ℕ → List ℕ) → ℕ → Reading → List Buf → Outcome Reading
unfolding add_buf
body_loop reads garbage fuel s [] = completed s
body_loop reads garbage fuel s (b ∷ bs) = elim (add_buf reads garbage fuel s b) [
  | endless ↦ endless
  | failed s' ↦ failed s'
  | completed s' ↦ body_loop reads garbage fuel s' bs
]

-- get_post_body, which appends to the string that it is given.
unfoldable pub get_post_body :
    Reads → (ℕ → List ℕ) → ℕ → Bool → Option (List Buf) → List ℕ → Outcome (List ℕ)
unfolding body_loop
get_post_body reads garbage fuel is_post none text = completed text
get_post_body reads garbage fuel is_post (some bufs) text =
    if not is_post
    then completed text
    else elim (body_loop reads garbage fuel (record { appended = text; buf_temp = []; calls = 0 })
        bufs) [
          | endless ↦ endless
          | failed s ↦ failed s.appended
          | completed s ↦ completed s.appended
        ]
