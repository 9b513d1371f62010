-- ===== src/Uri/Params/Query.antt =====
-- split_string on queries that were written from pairs, and the rounds it makes.
use nginx_modules.Base.{
  ℕ, zero, suc, ◌≤◌, ◌<◌, ◌≡◌, ◌≢◌, refl, sym, ◌∙◌, ap, Option-cases, List-cases, inl, inr, false,
  Option, none, some, List, [], ◌∷◌, ◌++◌, append_assoc, length, length-append, All, All-append,
  arith,
}
use nginx_modules.Uri.{is_safe, uri_encode}
use nginx_modules.Uri.RoundTrip.{IsBytes, uri_encode-ne, uri_decode-uri_encode}
use nginx_modules.Uri.Params.{
  Params, insert, skip_spaces, cut, add_segment, split_loop, split_string,
}

length-skip_spaces-le : (s : List ℕ) → length (skip_spaces s) ≤ length s
unfolding skip_spaces
length-skip_spaces-le [] = omega arith
length-skip_spaces-le (c ∷ s) = ground (arith, length-skip_spaces-le s)

length-cut-lt : (d : ℕ) (s rest : List ℕ) → (cut d s).1 ≡ some rest → length rest < length s
unfolding cut
length-cut-lt d [] rest h = cc
length-cut-lt d (c ∷ s) rest h = ground (arith, length-cut-lt d s rest)

-- The three ways of one round.
split_loop_empty :
    (fuel d : ℕ) (kv : Params) (s : List ℕ)
    → skip_spaces s ≡ []
    → split_loop (suc fuel) d kv s ≡ some kv
unfolding split_loop
split_loop_empty fuel d kv s e = rw (e, split_loop)

split_loop_last :
    (fuel d : ℕ) (kv : Params) (s : List ℕ) (c : ℕ) (t : List ℕ)
    → skip_spaces s ≡ c ∷ t
    → (cut d (c ∷ t)).1 ≡ none
    → split_loop (suc fuel) d kv s ≡ some (add_segment kv (cut b'=' (cut d (c ∷ t)).0))
unfolding split_loop
split_loop_last fuel d kv s c t e f = rw (e, split_loop, f)

split_loop_more :
    (fuel d : ℕ) (kv : Params) (s : List ℕ) (c : ℕ) (t rest : List ℕ)
    → skip_spaces s ≡ c ∷ t
    → (cut d (c ∷ t)).1 ≡ some rest
    → split_loop (suc fuel) d kv s
      ≡ split_loop fuel d (add_segment kv (cut b'=' (cut d (c ∷ t)).0)) rest
unfolding split_loop
split_loop_more fuel d kv s c t rest e f = rw (e, split_loop, f)

split_loop_total :
    (fuel d : ℕ) (kv : Params) (s : List ℕ)
    → length s < fuel
    → (kv' : Params) × (split_loop fuel d kv s ≡ some kv')
split_loop_total zero d kv s h = absurd (omega arith)
split_loop_total (suc fuel) d kv s h = elim (List-cases (skip_spaces s)) [
  | inl e ↦ (kv, split_loop_empty fuel d kv s e)
  | inr (c, t, e) ↦ elim (Option-cases (cut d (c ∷ t)).1) [
    | inl f ↦ (_, split_loop_last fuel d kv s c t e f)
    | inr (rest, f) ↦
        let kv' = add_segment kv (cut b'=' (cut d (c ∷ t)).0) in
        let (out, g) =
          split_loop_total fuel d kv' rest
            (omega (arith, length-cut-lt d (c ∷ t) rest f, ap length e, length-skip_spaces-le s)) in
        (out, split_loop_more fuel d kv s c t rest e f ∙ g)
  ]
]

-- With the length of the text and one more as fuel split_string always returns a map.
pub split_string_total :
    (kv : Params) (s : List ℕ) (d : ℕ) → (kv' : Params) × (split_string kv s d ≡ some kv')
unfolding split_string
split_string_total kv s d = split_loop_total (suc (length s)) d kv s (omega arith)

-- More fuel changes nothing.
split_loop_fuel :
    (fuel more d : ℕ) (kv : Params) (s : List ℕ)
    → length s < fuel
    → length s < more
    → split_loop fuel d kv s ≡ split_loop more d kv s
split_loop_fuel zero more d kv s h k = absurd (omega arith)
split_loop_fuel (suc fuel) zero d kv s h k = absurd (omega arith)
split_loop_fuel (suc fuel) (suc more) d kv s h k = elim (List-cases (skip_spaces s)) [
  | inl e ↦ split_loop_empty fuel d kv s e ∙ sym (split_loop_empty more d kv s e)
  | inr (c, t, e) ↦ elim (Option-cases (cut d (c ∷ t)).1) [
    | inl f ↦ split_loop_last fuel d kv s c t e f ∙ sym (split_loop_last more d kv s c t e f)
    | inr (rest, f) ↦
        let kv' = add_segment kv (cut b'=' (cut d (c ∷ t)).0) in
        let short : suc (length rest) ≤ length s =
          omega (arith, length-cut-lt d (c ∷ t) rest f, ap length e, length-skip_spaces-le s) in
        split_loop_more fuel d kv s c t rest e f
        ∙ split_loop_fuel fuel more d kv' rest (omega arith) (omega arith)
        ∙ sym (split_loop_more more d kv s c t rest e f)
  ]
]

cut_absent : (d : ℕ) (s : List ℕ) → All (λ c. c ≢ d) s → cut d s ≡ (s, none)
unfolding cut
cut_absent d [] h = refl
cut_absent d (c ∷ s) h = ground (arith, cut_absent d s h.1, h.0)

cut-append : (d : ℕ) (s rest : List ℕ) → All (λ c. c ≢ d) s → cut d (s ++ d ∷ rest) ≡ (s, some rest)
unfolding cut
cut-append d [] rest h = ground arith
cut-append d (c ∷ s) rest h = ground (arith, cut-append d s rest h.1, h.0)

All-map : (P Q : ℕ → Type 0) → ((x : ℕ) → P x → Q x) → (xs : List ℕ) → All P xs → All Q xs
All-map P Q f [] h = tt
All-map P Q f (x ∷ xs) h = (f x h.0, All-map P Q f xs h.1)

-- A key that can stand in a query: not empty, with no space in front, no `=` and no delimiter.
abbrev pub IsKey : ℕ → List ℕ → Type 0
IsKey d [] = ⊥
IsKey d (c ∷ key) = (c ≢ b' ') × All (λ x. (x ≢ b'=') × (x ≢ d)) (c ∷ key)

abbrev pub ArePairs : ℕ → List (List ℕ × List ℕ) → Type 0
ArePairs d = All (λ kv. IsKey d kv.0 × IsBytes kv.1)

-- A query of pairs: each value is encoded, and the delimiter stands between the pairs.
abbrev pub write_pair : List ℕ × List ℕ → List ℕ
write_pair (key, val) = key ++ b'=' ∷ uri_encode val

abbrev pub write_query : ℕ → List (List ℕ × List ℕ) → List ℕ
write_query d [] = []
write_query d (kv ∷ []) = write_pair kv
write_query d (kv ∷ kv' ∷ rest) = write_pair kv ++ d ∷ write_query d (kv' ∷ rest)

abbrev pub insert_all : Params → List (List ℕ × List ℕ) → Params
insert_all kv [] = kv
insert_all kv ((key, val) ∷ rest) = insert_all (insert kv key val) rest

-- A delimiter as `&` and `;`, which no encoded value holds.
pub record IsDelimiter (d : ℕ) : Type 0 where
  pub not_safe : is_safe d ≡ false
  pub not_percent : d ≢ b'%'
  pub not_equal : d ≢ b'='

module _ (d : ℕ) (del : IsDelimiter d) where
  write_pair-ne :
      (key val : List ℕ) → IsKey d key → IsBytes val → All (λ c. c ≢ d) (write_pair (key, val))
  write_pair-ne [] val k b = absurd k
  write_pair-ne (c ∷ key) val k b =
      All-append (λ x. x ≢ d) (c ∷ key) (b'=' ∷ uri_encode val)
        (All-map (λ x. (x ≢ b'=') × (x ≢ d)) (λ x. x ≢ d) (λ x h. h.1) (c ∷ key) k.1)
        (λ e. del.not_equal (sym e), uri_encode-ne d val del.not_safe del.not_percent b)

  -- What one pair stores.
  add_segment-write_pair :
      (kv : Params) (key val : List ℕ)
      → IsKey d key
      → IsBytes val
      → add_segment kv (cut b'=' (write_pair (key, val))) ≡ insert kv key val
  add_segment-write_pair kv [] val k b = absurd k
  add_segment-write_pair kv (c ∷ key) val k b =
      ap (add_segment kv) (
        cut-append b'=' (c ∷ key) (uri_encode val)
          (All-map (λ x. (x ≢ b'=') × (x ≢ d)) (λ x. x ≢ b'=') (λ x h. h.0) (c ∷ key) k.1))
      ∙ unfold add_segment in (ap (insert kv (c ∷ key)) (uri_decode-uri_encode val b))

  skip_spaces-key :
      (key s : List ℕ)
      → IsKey d key
      → (c : ℕ) × (t : List ℕ) × (skip_spaces (key ++ s) ≡ c ∷ t) × (c ∷ t ≡ key ++ s)
  unfolding skip_spaces
  skip_spaces-key [] s k = absurd k
  skip_spaces-key (c ∷ key) s k = (c, key ++ s, ground arith, refl)

  split_loop-write_query :
      (fuel : ℕ) (kv : Params) (pairs : List (List ℕ × List ℕ))
      → ArePairs d pairs
      → length (write_query d pairs) < fuel
      → split_loop fuel d kv (write_query d pairs) ≡ some (insert_all kv pairs)
  split_loop-write_query zero kv pairs a h = absurd (omega arith)
  split_loop-write_query (suc fuel) kv [] a h =
      split_loop_empty fuel d kv [] (unfold skip_spaces in refl)
  split_loop-write_query (suc fuel) kv ((key, val) ∷ []) a h =
      let (c, t, e, w) = skip_spaces-key key (b'=' ∷ uri_encode val) a.0.0 in
      let whole : cut d (c ∷ t) ≡ (write_pair (key, val), none) =
        ap (cut d) w ∙ cut_absent d (write_pair (key, val)) (write_pair-ne key val a.0.0 a.0.1) in
      split_loop_last fuel d kv _ c t e (ap (λ (x : List ℕ × Option (List ℕ)). x.1) whole)
      ∙ ap (λ (x : List ℕ × Option (List ℕ)). some (add_segment kv (cut b'=' x.0))) whole
      ∙ ap some (add_segment-write_pair kv key val a.0.0 a.0.1)
  split_loop-write_query (suc fuel) kv ((key, val) ∷ kv' ∷ rest) a h =
      let tail = write_query d (kv' ∷ rest) in
      let pair = write_pair (key, val) in
      let (c, t, e, w) = skip_spaces-key key (b'=' ∷ uri_encode val ++ d ∷ tail) a.0.0 in
      let assoc = append_assoc key (b'=' ∷ uri_encode val) (d ∷ tail) in
      let whole : cut d (c ∷ t) ≡ (pair, some tail) =
        ap (cut d) (w ∙ sym assoc) ∙ cut-append d pair tail (write_pair-ne key val a.0.0 a.0.1) in
      split_loop_more fuel d kv _ c t tail (ap skip_spaces assoc ∙ e)
        (ap (λ (x : List ℕ × Option (List ℕ)). x.1) whole)
      ∙ ap
          (λ (x : List ℕ × Option (List ℕ)). split_loop fuel d (add_segment kv (cut b'=' x.0)) tail)
          whole
      ∙ ap (λ (k : Params). split_loop fuel d k tail)
          (add_segment-write_pair kv key val a.0.0 a.0.1)
      ∙ split_loop-write_query fuel (insert kv key val) (kv' ∷ rest) a.1
          (omega (arith, length-append pair (d ∷ tail), h))

  -- A query that was written from pairs is read back as those pairs, inserted in their order,
  -- where the keys hold no `=`, no delimiter and no space in front, the values are encoded, and
  -- the delimiter stands in no encoded value.
  pub split_string-write_query :
      (kv : Params) (pairs : List (List ℕ × List ℕ))
      → ArePairs d pairs
      → split_string kv (write_query d pairs) d ≡ some (insert_all kv pairs)
  unfolding split_string
  split_string-write_query kv pairs a =
      split_loop-write_query (suc (length (write_query d pairs))) kv pairs a (omega arith)
