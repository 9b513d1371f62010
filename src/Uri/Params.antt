-- ===== src/Uri/Params.antt =====
-- split_string of module_plugin/utils.cc: the pairs of a query or a cookie go into a map, where
-- the first value of a key stays.
pub mod Query
use nginx_modules.Base.{
  ℕ, zero, suc, ◌==◌, if◌then◌else◌, ◌&&◌, Bool, true, false, Option, none, some, List, [], ◌∷◌,
  length,
}
use nginx_modules.Uri.{uri_decode}

-- `std::map<string, string>`, as what it holds for each key.
abbrev pub Params : Type 0
Params = List ℕ → Option (List ℕ)

abbrev pub bytes_eq : List ℕ → List ℕ → Bool
bytes_eq [] [] = true
bytes_eq [] (y ∷ ys) = false
bytes_eq (x ∷ xs) [] = false
bytes_eq (x ∷ xs) (y ∷ ys) = x == y && bytes_eq xs ys

-- `kv.insert(make_pair(key, val))`
unfoldable pub insert : Params → List ℕ → List ℕ → Params
insert kv key val q = elim (kv q) [
  | some w ↦ some w
  | none ↦ if bytes_eq key q then some val else none
]

-- The inner loop over spaces.
unfoldable pub skip_spaces : List ℕ → List ℕ
skip_spaces [] = []
skip_spaces (c ∷ s) = let rest = skip_spaces s in if c == b' ' then rest else c ∷ s

-- The loops that look for the delimiter and for `=`: what stands before it, and what stands
-- behind it, if it is there.
unfoldable pub cut : ℕ → List ℕ → List ℕ × Option (List ℕ)
cut d [] = ([], none)
cut d (c ∷ s) =
    let (before, behind) = cut d s in if c == d then ([], some s) else (c ∷ before, behind)

-- One segment: nothing is stored where the key is empty.
unfoldable pub add_segment : Params → List ℕ × Option (List ℕ) → Params
unfolding insert
add_segment kv ([], val) = kv
add_segment kv (k ∷ key, none) = insert kv (k ∷ key) (uri_decode [])
add_segment kv (k ∷ key, some val) = insert kv (k ∷ key) (uri_decode val)

-- The outer loop on fuel; `none` means that the fuel ran out. Behind the last segment `beg` is
-- past the end.
unfoldable pub split_loop : ℕ → ℕ → Params → List ℕ → Option Params
split_loop zero d kv s = none
split_loop (suc fuel) d kv s = elim (skip_spaces s) [
  | [] ↦ some kv
  | c ∷ t ↦
      let (segment, behind) = cut d (c ∷ t) in
      let kv' = add_segment kv (cut b'=' segment) in
      elim behind [ none ↦ some kv' | some rest ↦ split_loop fuel d kv' rest ]
]

unfoldable pub split_string : Params → List ℕ → ℕ → Option Params
unfolding split_loop skip_spaces cut add_segment
split_string kv s d = split_loop (suc (length s)) d kv s
