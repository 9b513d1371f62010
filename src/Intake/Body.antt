-- ===== src/Intake/Body.antt =====
-- get_post_body on a file that gives every part at once.
use nginx_modules.Base.{
  ℕ, zero, suc, ◌+◌, ◌-◌, ◌^◌, ◌≤◌, ◌<◌, ◌≡◌, refl, sym, ap, ◌∙◌, subst, ◌==◌, true, false, some,
  List, [], ◌∷◌, ◌++◌, append_assoc, append-nil, length, take, drop, length-take, length-drop,
  take-append, arith,
}
use nginx_modules.Intake.{
  Buf, in_memory, in_file, Reads, write_at, Outcome, completed, read_loop, Reading, larger,
  after_read, part_size, add_buf, body_loop, get_post_body,
}

-- The bytes of a part of the file, and of the buffers together.
abbrev pub contents : List ℕ → Buf → List ℕ
contents file (in_memory bytes) = bytes
contents file (in_file file_pos file_last) = take (file_last - file_pos) (drop file_pos file)

abbrev pub all_contents : List ℕ → List Buf → List ℕ
all_contents file [] = []
all_contents file (b ∷ bs) = contents file b ++ all_contents file bs

-- A file that answers each call with the whole part that is asked for.
abbrev pub GivesAll : List ℕ → Reads → Type 0
GivesAll file reads = (k size pos : ℕ) → reads k size pos ≡ some (take size (drop pos file))

-- The parts lie in the file, each shorter than 2^31 bytes and none shorter than `size` nor than one
-- before it.
abbrev pub Grow : List ℕ → ℕ → List Buf → Type 0
Grow file size [] = Unit {0}
Grow file size (in_memory bytes ∷ bs) = Grow file size bs
Grow file size (in_file file_pos file_last ∷ bs) =
    (file_pos < file_last)
    × (file_last ≤ length file)
    × (file_last - file_pos < 2 ^ 31)
    × (size ≤ file_last - file_pos)
    × Grow file (file_last - file_pos) bs

module _ (file : List ℕ) (reads : Reads) (garbage : ℕ → List ℕ) (fuel : ℕ) where
  part-length :
      (file_pos file_last : ℕ)
      → file_pos < file_last
      → file_last ≤ length file
      → length (contents file (in_file file_pos file_last)) ≡ file_last - file_pos
  part-length a b h k =
      length-take (b - a) (drop a file) (omega (arith, length-drop a file (omega (arith, h, k))))

  read_loop_once :
      (pos n calls : ℕ) (text buf : List ℕ)
      → 0 < n
      → reads calls n pos ≡ some text
      → length text ≡ n
      → read_loop reads pos n (suc fuel) calls n 0 buf
        ≡ completed (text ++ drop (length text) buf, suc calls)
  unfolding read_loop
  read_loop_once pos zero calls text buf h e l = absurd (omega (arith, h))
  read_loop_once pos (suc n) calls text buf h e l =
      let rest : ℕ → Outcome (List ℕ × ℕ) = λ k.
        read_loop reads pos (suc n) fuel (suc calls) k (0 + length text) (write_at 0 text buf) in
      let z : suc n - length text ≡ 0 = omega (arith, l) in
      let w : 0 + length text ≡ length text = omega arith in
      rw (e, read_loop) (ap rest z ∙ ap (λ (i : ℕ). completed (text ++ drop i buf, suc calls)) w)

  larger-length :
      (n : ℕ) (buf : List ℕ)
      → ((k : ℕ) → length (garbage k) ≡ k)
      → length buf ≤ n
      → length (larger garbage n buf) ≡ n
  unfolding larger
  larger-length n buf g h = ground (arith, g n)

  -- A part of the file that is not shorter than the buffer is appended as it is.
  add_buf-file :
      (s : Reading) (a b : ℕ)
      → ((k : ℕ) → length (garbage k) ≡ k)
      → GivesAll file reads
      → a < b
      → b ≤ length file
      → b - a < 2 ^ 31
      → length s.buf_temp ≤ b - a
      → let text = contents file (in_file a b) in
        add_buf reads garbage (suc fuel) s (in_file a b)
        ≡ completed (record { appended = s.appended ++ text; buf_temp = text; calls = suc s.calls })
  unfolding add_buf after_read part_size
  add_buf-file s a b g r h k m l =
      let text = contents file (in_file a b) in
      let n = b - a in
      let buf = larger garbage n s.buf_temp in
      let size : part_size a b ≡ n = ground (arith, m) in
      let len : length text ≡ n = part-length a b h k in
      let room : length buf ≡ n = larger-length n s.buf_temp g l in
      let step = read_loop_once a n s.calls text buf (omega (arith, h)) (r s.calls n a) len in
      let kept : take (length buf) (text ++ drop (length text) buf) ≡ text =
        ap (λ (i : ℕ). take i (text ++ drop (length text) buf)) (room ∙ sym len)
        ∙ take-append text (drop (length text) buf) in
      let some_bytes : (n == 0) ≡ false = ground (arith, h) in
      let done : List ℕ → Outcome Reading =
        λ t. completed (record { appended = s.appended ++ t; buf_temp = t; calls = suc s.calls }) in
      rw (size, step, some_bytes) (ap done kept)

  body_loop_lem :
      (s : Reading) (bufs : List Buf)
      → ((k : ℕ) → length (garbage k) ≡ k)
      → GivesAll file reads
      → Grow file (length s.buf_temp) bufs
      → (s' : Reading) × (body_loop reads garbage (suc fuel) s bufs ≡ completed s')
        × (s'.appended ≡ s.appended ++ all_contents file bufs)
  unfolding body_loop
  body_loop_lem s [] g r h = (s, refl, sym (append-nil (s.appended)))
  body_loop_lem s (in_memory bytes ∷ bufs) g r h =
      let (s', e, c) = body_loop_lem (record s { appended = s.appended ++ bytes }) bufs g r h in
      (s', (unfold add_buf in e), c ∙ append_assoc (s.appended) bytes (all_contents file bufs))
  body_loop_lem s (in_file a b ∷ bufs) g r (x, y, z, w, h) =
      let text = contents file (in_file a b) in
      let t : Reading = record {
        appended = s.appended ++ text;
        buf_temp = text;
        calls = suc s.calls;
      } in
      let len : length text ≡ b - a = part-length a b x y in
      let (s', e, c) = body_loop_lem t bufs g r (subst (λ (n : ℕ). Grow file n bufs) (sym len) h) in
      (
        s',
        rw (add_buf-file s a b g r x y z w, body_loop) e,
        c ∙ append_assoc (s.appended) text (all_contents file bufs),
      )

  -- The body of a POST request is read whole where every call of ngx_read_file gives all that it is
  -- asked for and no part of the file is shorter than one before it: what get_post_body appends are
  -- the bytes of the buffers in their order. Parts lie in the file and are shorter than 2^31 bytes,
  -- and `new char[n]` has n bytes.
  pub get_post_body_whole :
      (bufs : List Buf) (text : List ℕ)
      → ((k : ℕ) → length (garbage k) ≡ k)
      → GivesAll file reads
      → Grow file 0 bufs
      → get_post_body reads garbage (suc fuel) true (some bufs) text
        ≡ completed (text ++ all_contents file bufs)
  unfolding get_post_body
  get_post_body_whole bufs text g r h =
      let (s, e, c) =
        body_loop_lem (record { appended = text; buf_temp = []; calls = 0 }) bufs g r h in
      rw e (ap completed c)
