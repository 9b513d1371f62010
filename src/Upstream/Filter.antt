-- ===== src/Upstream/Filter.antt =====
-- ngx_http_proto_upstream_filter over the pieces of a body as they arrive.
use nginx_modules.Base.{
  ℕ, ◌+◌, ◌≤◌, ◌≡◌, refl, ◌∙◌, ap, Bool, true, Option, none, some, List, [], ◌∷◌, ◌++◌,
  append_assoc, length, map, arith,
}
use nginx_modules.Upstream.{Req}
use nginx_modules.Upstream.Callbacks.{filter}

-- The number of bytes of some pieces.
abbrev pub total : List (List ℕ) → ℕ
total [] = 0
total (c ∷ cs) = length c + total cs

-- The pieces go through the filter one after another, each with whether there is a free buffer.
pub feed : {X : Type 0} → Req X → List (Bool × List ℕ) → Req X
feed r [] = r
feed r ((room, c) ∷ cs) = feed (filter room r c).0 cs

total-append : (cs ds : List (List ℕ)) → total (cs ++ ds) ≡ total cs + total ds
total-append [] ds = omega arith
total-append (c ∷ cs) ds = omega (arith, total-append cs ds)

-- What is left of the declared length; -1 lets nothing through.
abbrev pub left_of : Option ℕ → ℕ
left_of none = 0
left_of (some n) = n

module _ {X : Type 0} where
  filter_bounds :
      (room : Bool) (r : Req X) (c : List ℕ)
      → total (filter room r c).0.out_bufs + left_of (filter room r c).0.length_left
        ≤ total r.out_bufs + left_of r.length_left
  unfolding filter
  filter_bounds room r c = ground (arith, total-append r.out_bufs (c ∷ []))

  feed_sum :
      (r : Req X) (cs : List (Bool × List ℕ))
      → total (feed r cs).out_bufs + left_of (feed r cs).length_left
        ≤ total r.out_bufs + left_of r.length_left
  unfolding feed
  feed_sum r [] = omega arith
  feed_sum r ((room, c) ∷ cs) =
      omega (arith, filter_bounds room r c, feed_sum (filter room r c).0 cs)

  -- Whatever arrives, what has been passed on to the client is at most what had been before
  -- together with the length that was left.
  pub feed_bounds :
      (r : Req X) (cs : List (Bool × List ℕ))
      → total (feed r cs).out_bufs ≤ total r.out_bufs + left_of r.length_left
  feed_bounds r cs = omega (arith, feed_sum r cs)

  filter_lem :
      (r : Req X) (c : List ℕ) (n : ℕ)
      → r.length_left ≡ some (length c + n)
      → ((filter true r c).0.length_left ≡ some n)
        × ((filter true r c).0.out_bufs ≡ r.out_bufs ++ c ∷ [])
        × ((filter true r c).0.buffer ≡ r.buffer ++ c)
        × (n ≡ 0 → (filter true r c).0.keepalive ≡ true)
  unfolding filter
  filter_lem r c n e = ground arith

  -- While there are free buffers, pieces that add up to the length that is left reach the client
  -- in order; after the last one nothing is left, and the connection is kept.
  pub feed_all :
      (r : Req X) (c : List ℕ) (cs : List (List ℕ))
      → r.length_left ≡ some (total (c ∷ cs))
      → let r' = feed r (map (λ x. (true, x)) (c ∷ cs)) in
        (r'.out_bufs ≡ r.out_bufs ++ c ∷ cs) × (r'.length_left ≡ some 0) × (r'.keepalive ≡ true)
  unfolding feed
  feed_all r c [] e = let (l, o, b, k) = filter_lem r c 0 (ground (arith, e)) in (o, l, k refl)
  feed_all r c (d ∷ cs) e =
      let (l, o, b, k) = filter_lem r c (total (d ∷ cs)) e in
      let (o', l', k') = feed_all (filter true r c).0 d cs l in
      (
        o'
            ∙ ap (λ (xs : List (List ℕ)). xs ++ d ∷ cs) o
            ∙ append_assoc r.out_bufs (c ∷ []) (d ∷ cs),
        l',
        k',
      )
