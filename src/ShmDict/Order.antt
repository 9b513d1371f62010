-- ===== src/ShmDict/Order.antt =====
-- The order of the tree, by the hash and then the bytes of the key, and sorted lists of addresses.
use nginx_modules.Base.{
  ℕ, ◌<◌, ◌≡◌, ◌≢◌, subst, swap, compare, Ordering, List, [], ◌∷◌, ◌++◌, All, All-append, All-left,
  All-right, All-erase, All-of_count, All-at, erase, count, arith,
}
use nginx_modules.ShmDict.Platform.{Platform, IsPlatform}

abbrev pub Key : Type 0
Key = ℕ × List ℕ

module _ {P : Type 0} (p : Platform P) where
  unfoldable pub key_cmp : Key → Key → Ordering
  key_cmp (h, k) (h', k') = elim (compare h h') [
    | Ordering.lt ↦ Ordering.lt
    | Ordering.gt ↦ Ordering.gt
    | Ordering.eq ↦ p.memn2cmp k k'
  ]

  abbrev pub Le : Key → Key → Type 0
  Le x y = key_cmp x y ≢ Ordering.gt

  -- The addresses of a list stand in the order of their keys.
  abbrev pub IsSorted : (ℕ → Key) → List ℕ → Type 0
  IsSorted key [] = Unit
  IsSorted key (a ∷ rest) = All (λ b. Le (key a) (key b)) rest × IsSorted key rest

module _ {P : Type 0} (p : Platform P) (laws : IsPlatform p) where
  pub key_cmp_refl : (x : Key) → key_cmp p x x ≡ Ordering.eq
  unfolding key_cmp
  key_cmp_refl (h, k) = ground (arith, laws.memn2cmp_refl k)

  pub eq_of_key_cmp : (x y : Key) → key_cmp p x y ≡ Ordering.eq → x ≡ y
  unfolding key_cmp
  eq_of_key_cmp (h, k) (h', k') e = ground (arith, laws.memn2cmp_eq k k')

  pub key_cmp-swap : (x y : Key) → key_cmp p y x ≡ swap (key_cmp p x y)
  unfolding key_cmp
  key_cmp-swap (h, k) (h', k') = ground (arith, laws.memn2cmp_swap k k')

  pub Le-trans : (x y z : Key) → Le p x y → Le p y z → Le p x z
  unfolding key_cmp
  Le-trans (h, k) (h', k') (h'', k'') a b = ground (arith, laws.memn2cmp_trans k k' k'')

  -- A key below another is below all that are above that one, and so differs from them.
  pub ne_of_lt : (x y z : Key) → key_cmp p x y ≡ Ordering.lt → Le p y z → z ≢ x
  ne_of_lt x y z a b e = ground (arith, key_cmp-swap x y, ap_cmp)
    where
      ap_cmp : Le p y x
      ap_cmp = subst (λ w. Le p y w) e b

  pub ne_of_gt : (x y z : Key) → key_cmp p x y ≡ Ordering.gt → Le p z y → z ≢ x
  ne_of_gt x y z a b e = subst (λ w. Le p w y) e b a

module _ {P : Type 0} (p : Platform P) (laws : IsPlatform p) (key : ℕ → Key) where
  abbrev pub AllLe : List ℕ → ℕ → Type 0
  AllLe xs a = All (λ b. Le p (key b) (key a)) xs

  abbrev pub AllGe : ℕ → List ℕ → Type 0
  AllGe a xs = All (λ b. Le p (key a) (key b)) xs

  pub All-imp : (P Q : ℕ → Type 0) → ((b : ℕ) → P b → Q b) → (xs : List ℕ) → All P xs → All Q xs
  All-imp P Q f [] h = tt
  All-imp P Q f (x ∷ xs) h = (f x h.0, All-imp P Q f xs h.1)

  pub IsSorted-split :
      (xs : List ℕ) (a : ℕ) (ys : List ℕ)
      → IsSorted p key (xs ++ a ∷ ys)
      → AllLe xs a × AllGe a ys × IsSorted p key xs × IsSorted p key ys
  IsSorted-split [] a ys s = (tt, s.0, tt, s.1)
  IsSorted-split (x ∷ xs) a ys s =
      let (below, above, left, right) = IsSorted-split xs a ys s.1 in
      (
        ((All-right (λ b. Le p (key x) (key b)) xs (a ∷ ys) s.0).0, below),
        above,
        (All-left (λ b. Le p (key x) (key b)) xs (a ∷ ys) s.0, left),
        right,
      )

  pub IsSorted-join :
      (xs : List ℕ) (a : ℕ) (ys : List ℕ)
      → AllLe xs a
      → AllGe a ys
      → IsSorted p key xs
      → IsSorted p key ys
      → IsSorted p key (xs ++ a ∷ ys)
  IsSorted-join [] a ys below above left right = (above, right)
  IsSorted-join (x ∷ xs) a ys below above left right = (
    All-append (λ b. Le p (key x) (key b)) xs (a ∷ ys) left.0
        (
          below.0,
          All-imp (λ b. Le p (key a) (key b)) (λ b. Le p (key x) (key b))
              (λ b. Le-trans p laws (key x) (key a) (key b) below.0) ys above,
        ),
    IsSorted-join xs a ys below.1 above left.1 right,
  )

  pub IsSorted-erase : (a : ℕ) (xs : List ℕ) → IsSorted p key xs → IsSorted p key (erase a xs)
  IsSorted-erase a [] s = tt
  IsSorted-erase a (x ∷ xs) s =
      ground (arith, IsSorted-erase a xs, All-erase (λ b. Le p (key x) (key b)) a xs)

-- Being sorted depends on the keys of the members alone.
pub IsSorted-agree :
    {P : Type 0} (p : Platform P) (key key' : ℕ → Key) (xs : List ℕ)
    → ((a : ℕ) → 0 < count a xs → key' a ≡ key a)
    → IsSorted p key xs
    → IsSorted p key' xs
IsSorted-agree p key key' [] agree s = tt
IsSorted-agree p key key' (x ∷ xs) agree s = (
  All-of_count (λ b. Le p (key' x) (key' b)) xs
      (λ b c.
        rw (agree x (ground arith), agree b (ground arith))
          (All-at (λ y. Le p (key x) (key y)) b xs s.0 c)),
  IsSorted-agree p key key' xs (λ a c. agree a (ground arith)) s.1,
)
