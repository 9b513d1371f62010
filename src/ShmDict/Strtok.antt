-- ===== src/ShmDict/Strtok.antt =====
-- ngx_strtok_r: the words of a text between delimiters.
use nginx_modules.Base.{
  ℕ, ◌≡◌, ◌≢◌, subst, inl, inr, refl, ap, ◌==◌, ◌||◌, if◌then◌else◌, Bool, Bool-cases, true, false,
  Option, none, some, List, [], ◌∷◌, ◌++◌, All, arith,
}

-- The loop over the delimiters.
unfoldable pub is_delim : List ℕ → ℕ → Bool
is_delim [] c = false
is_delim (d ∷ delim) c = let rest = is_delim delim c in c == d || rest

-- What follows the leading delimiters.
unfoldable pub skip_delims : List ℕ → List ℕ → List ℕ
unfolding is_delim
skip_delims delim [] = []
skip_delims delim (c ∷ s) =
    let rest = skip_delims delim s in if is_delim delim c then rest else c ∷ s

-- A word, and what stands behind the delimiter that ends it: `none` at the end of the text.
unfoldable pub scan_token : List ℕ → List ℕ → List ℕ × Option (List ℕ)
unfolding is_delim
scan_token delim [] = ([], none)
scan_token delim (c ∷ s) =
    let (tok, last) = scan_token delim s in
    if is_delim delim c then ([], some s) else (c ∷ tok, last)

unfoldable pub first_token : List ℕ → List ℕ → Option (List ℕ) × Option (List ℕ)
unfolding scan_token
first_token delim [] = (none, none)
first_token delim (c ∷ s) = let (tok, last) = scan_token delim (c ∷ s) in (some tok, last)

-- ngx_strtok_r on the text, or where it is null on `*last`: the word, and the new `*last`.
unfoldable pub strtok_r :
    Option (List ℕ) → List ℕ → Option (List ℕ) → Option (List ℕ) × Option (List ℕ)
unfolding skip_delims first_token
strtok_r (some s) delim last = first_token delim (skip_delims delim s)
strtok_r none delim (some s) = first_token delim (skip_delims delim s)
strtok_r none delim none = (none, none)

-- The part of a text that a word and what is behind it make up.
abbrev pub Follows : List ℕ → List ℕ → List ℕ → Option (List ℕ) → Type 0
Follows delim s tok none = s ≡ tok
Follows delim s tok (some rest) = (c : ℕ) × (is_delim delim c ≡ true) × (s ≡ tok ++ c ∷ rest)

module _ (delim : List ℕ) where
  skip_delims_lem :
      (s : List ℕ)
      → (skipped : List ℕ) × All (λ c. is_delim delim c ≡ true) skipped
        × (s ≡ skipped ++ skip_delims delim s)
  unfolding skip_delims
  skip_delims_lem [] = ([], tt, refl)
  skip_delims_lem (c ∷ s) = elim (Bool-cases (is_delim delim c)) [
    | inl e ↦
        let (skipped, a, f) = skip_delims_lem s in
        (c ∷ skipped, (e, a), rw (e, skip_delims) (ap (◌∷◌ c) f))
    | inr e ↦ ([], tt, rw (e, skip_delims) refl)
  ]

  skip_delims_head :
      (s : List ℕ) (c : ℕ) (t : List ℕ) → skip_delims delim s ≡ c ∷ t → is_delim delim c ≡ false
  unfolding skip_delims
  skip_delims_head [] c t e = cc
  skip_delims_head (x ∷ s) c t e = ground (arith, e, skip_delims_head s c t)

  Follows-cons :
      (c : ℕ) (s tok : List ℕ) (last : Option (List ℕ))
      → Follows delim s tok last
      → Follows delim (c ∷ s) (c ∷ tok) last
  Follows-cons c s tok none h = ap (◌∷◌ c) h
  Follows-cons c s tok (some rest) (d, x, h) = (d, x, ap (◌∷◌ c) h)

  scan_token_lem :
      (s : List ℕ)
      → let o = scan_token delim s in
        All (λ c. is_delim delim c ≡ false) o.0 × Follows delim s o.0 o.1
  unfolding scan_token
  scan_token_lem [] = (tt, refl)
  scan_token_lem (c ∷ s) = elim (Bool-cases (is_delim delim c)) [
    | inl e ↦ rw (e, scan_token) (tt, (c, e, refl))
    | inr e ↦
        let (a, f) = scan_token_lem s in
        rw (e, scan_token)
          ((e, a), Follows-cons c s (scan_token delim s).0 (scan_token delim s).1 f)
  ]

first_token_lem :
    (delim s tok : List ℕ) (last : Option (List ℕ))
    → ((c : ℕ) (t : List ℕ) → s ≡ c ∷ t → is_delim delim c ≡ false)
    → first_token delim s ≡ (some tok, last)
    → All (λ c. is_delim delim c ≡ false) tok × (tok ≢ []) × Follows delim s tok last
unfolding first_token
first_token_lem delim [] tok last h e = absurd (ground (arith, e))
first_token_lem delim (c ∷ s) tok last h e =
    let (a, f) = scan_token_lem delim (c ∷ s) in
    let x : (scan_token delim (c ∷ s)).0 ≡ tok = ground (arith, e) in
    let y : (scan_token delim (c ∷ s)).1 ≡ last = ground (arith, e) in
    let z : (scan_token delim (c ∷ s)).0 ≢ [] =
      rw (h c s refl, scan_token) (λ n. ground (arith, n)) in
    (
      subst (λ (t : List ℕ). All (λ c. is_delim delim c ≡ false) t) x a,
      subst (λ (t : List ℕ). t ≢ []) x z,
      subst (λ (t : List ℕ). Follows delim (c ∷ s) t last) x
          (subst (λ (l : Option (List ℕ)). Follows delim (c ∷ s) (scan_token delim (c ∷ s)).0 l) y
            f),
    )

-- A word that ngx_strtok_r finds in a text: only delimiters stand before it, it has a byte and none of
-- its bytes is a delimiter, and behind it the text ends, or there is one delimiter and then what the
-- next call reads.
pub strtok_r-some :
    (s delim tok : List ℕ) (last last' : Option (List ℕ))
    → strtok_r (some s) delim last ≡ (some tok, last')
    → (skipped t : List ℕ) × (s ≡ skipped ++ t)
      × All (λ c. is_delim delim c ≡ true) skipped
      × All (λ c. is_delim delim c ≡ false) tok
      × (tok ≢ [])
      × Follows delim t tok last'
unfolding strtok_r
strtok_r-some s delim tok last last' e =
    let (skipped, a, f) = skip_delims_lem delim s in
    let (b, g, h) =
      first_token_lem delim (skip_delims delim s) tok last' (skip_delims_head delim s) e in
    (skipped, skip_delims delim s, f, a, b, g, h)
