-- ===== src/Base/Bytes.antt =====
-- Texts: their order, byte by byte and the shorter one first, and keys that they begin with.
use Prim.Native.Nat.{ℕ, compare, Ordering}
use mathlib.Core.Path.{◌≡◌, refl}
use mathlib.Core.Logic.{◌≢◌}
use mathlib.Core.Option.{Option, none, some}
use mathlib.Core.List.{List, [], ◌∷◌, ◌++◌}
use nginx_modules.Base.Tests.{◌==◌, if◌then◌else◌}
use native.Mathlib.Omega.{arith}

abbrev pub swap : Ordering → Ordering
swap Ordering.lt = Ordering.gt
swap Ordering.eq = Ordering.eq
swap Ordering.gt = Ordering.lt

abbrev pub memcmp : List ℕ → List ℕ → Ordering
memcmp [] [] = Ordering.eq
memcmp [] (y ∷ ys) = Ordering.lt
memcmp (x ∷ xs) [] = Ordering.gt
memcmp (x ∷ xs) (y ∷ ys) =
    let rest = memcmp xs ys in
    elim (compare x y) [
      | Ordering.lt ↦ Ordering.lt
      | Ordering.gt ↦ Ordering.gt
      | Ordering.eq ↦ rest
    ]

pub memcmp-eq : (xs ys : List ℕ) → memcmp xs ys ≡ Ordering.eq → xs ≡ ys
memcmp-eq [] [] h = refl
memcmp-eq [] (y ∷ ys) h = cc
memcmp-eq (x ∷ xs) [] h = cc
memcmp-eq (x ∷ xs) (y ∷ ys) h = ground (arith, memcmp-eq xs ys)

pub memcmp_refl : (xs : List ℕ) → memcmp xs xs ≡ Ordering.eq
memcmp_refl [] = refl
memcmp_refl (x ∷ xs) = ground (arith, memcmp_refl xs)

pub memcmp-swap : (xs ys : List ℕ) → memcmp ys xs ≡ swap (memcmp xs ys)
memcmp-swap [] [] = refl
memcmp-swap [] (y ∷ ys) = refl
memcmp-swap (x ∷ xs) [] = refl
memcmp-swap (x ∷ xs) (y ∷ ys) = ground (arith, memcmp-swap xs ys)

pub memcmp_trans :
    (xs ys zs : List ℕ)
    → memcmp xs ys ≢ Ordering.gt
    → memcmp ys zs ≢ Ordering.gt
    → memcmp xs zs ≢ Ordering.gt
memcmp_trans [] ys [] a b = ground arith
memcmp_trans [] ys (z ∷ zs) a b = ground arith
memcmp_trans (x ∷ xs) [] zs a b = absurd (a refl)
memcmp_trans (x ∷ xs) (y ∷ ys) [] a b = absurd (b refl)
memcmp_trans (x ∷ xs) (y ∷ ys) (z ∷ zs) a b = ground (arith, memcmp_trans xs ys zs)

pub memcmp_lt_trans :
    (xs ys zs : List ℕ)
    → memcmp xs ys ≡ Ordering.lt
    → memcmp ys zs ≡ Ordering.lt
    → memcmp xs zs ≡ Ordering.lt
memcmp_lt_trans [] [] zs a b = cc
memcmp_lt_trans [] (y ∷ ys) [] a b = cc
memcmp_lt_trans [] (y ∷ ys) (z ∷ zs) a b = refl
memcmp_lt_trans (x ∷ xs) [] zs a b = cc
memcmp_lt_trans (x ∷ xs) (y ∷ ys) [] a b = cc
memcmp_lt_trans (x ∷ xs) (y ∷ ys) (z ∷ zs) a b = ground (arith, memcmp_lt_trans xs ys zs)

-- The test of ngx_strncmp with the rest of the word: what stands behind the key.
unfoldable pub behind : List ℕ → List ℕ → Option (List ℕ)
behind [] s = some s
behind (k ∷ key) [] = none
behind (k ∷ key) (c ∷ s) = let rest = behind key s in if c == k then rest else none

pub behind-append : (key s : List ℕ) → behind key (key ++ s) ≡ some s
unfolding behind
behind-append [] s = refl
behind-append (k ∷ key) s = ground (arith, behind-append key s)

pub append-behind : (key s t : List ℕ) → behind key s ≡ some t → s ≡ key ++ t
unfolding behind
append-behind [] s t e = ground (arith, e)
append-behind (k ∷ key) [] t e = ground (arith, e)
append-behind (k ∷ key) (c ∷ s) t e = ground (arith, e, append-behind key s t)
