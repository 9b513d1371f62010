-- ===== src/ShmDict/Abstract/Changes.antt =====
-- A write to a node, an unlinking and a new node, as changes of the map.
use nginx_modules.Base.{
  ℕ, ◌≡◌, ◌≢◌, ◌⊎◌, refl, sym, subst, ◌∙◌, ap, Option-cases, inl, inr, none, some, List, count,
  ℕ_discrete, arith,
}
use nginx_modules.ShmDict.Platform.{Platform, IsPlatform}
use nginx_modules.ShmDict.Node.{Node, sort_key, update}
use nginx_modules.ShmDict.Zone.{Dict, crc32, unlink, store}
use nginx_modules.ShmDict.Access.{link}
use nginx_modules.ShmDict.Valid.{IsValid}
use nginx_modules.ShmDict.Valid.Steps.{
  update_self, update-ne, update-elim, link-queue, count-unlink,
}
use nginx_modules.ShmDict.Valid.Operations.{Holds, Lacks}
use nginx_modules.ShmDict.Contents.Inserting.{Shrinks}
use nginx_modules.ShmDict.Abstract.{Entry, entry_of, stored, Replaces}
use nginx_modules.ShmDict.Abstract.Views.{
  IsSingle, Shows, stored-Shows, stored-Shrinks, stored-Lacks, stored-Holds, Shrinks-IsSingle,
  Shrinks-Holds,
}

module _ {P : Type 0} (p : Platform P) (laws : IsPlatform p) where
  -- The same nodes hold the key in both zones, with the same entries.
  stored-same :
      (d d' : Dict P) (key : List ℕ)
      → IsValid p d
      → IsValid p d'
      → IsSingle p d'
      → ((a : ℕ) → Holds p d' key a → Holds p d key a)
      → ((a : ℕ) → Holds p d key a → Holds p d' key a × (d'.heap a ≡ d.heap a))
      → stored p d' key ≡ stored p d key
  stored-same d d' key v v' one back on = elim (Option-cases (stored p d key)) [
    | inl e ↦
        let l : Lacks p d key = subst (Shows p d key) e (stored-Shows p laws d key v) in
        stored-Lacks p laws d' key v' one (λ a c w. let h = back a (c, w) in l a h.0 h.1) ∙ sym e
    | inr (x, e) ↦
        let (a, h, w) : Shows p d key (some x) =
          subst (Shows p d key) e (stored-Shows p laws d key v) in
        let (h', same) = on a h in
        stored-Holds p laws d' key a v' one h'
        ∙ ap (λ (sd : Node). some (entry_of sd)) same
        ∙ ap (λ (y : Entry). some y) w
        ∙ sym e
  ]

  -- Two keys of one node are the same.
  same_key :
      (d : Dict P) (k key : List ℕ) (a : ℕ)
      → sort_key (d.heap a) ≡ (crc32 p k, k)
      → sort_key (d.heap a) ≡ (crc32 p key, key)
      → k ≡ key
  same_key d k key a e f = ap (λ (x : ℕ × List ℕ). x.1) (sym e ∙ f)

  pub unlink-Replaces :
      (d : Dict P) (key : List ℕ) (a : ℕ)
      → IsValid p d
      → IsValid p (unlink p d a)
      → IsSingle p d
      → Holds p d key a
      → Replaces key none (stored p d) (stored p (unlink p d a)) × IsSingle p (unlink p d a)
  unlink-Replaces d key a v v' one h =
      let s : Shrinks p d (unlink p d a) =
        (unfold unlink in refl, λ b. ground (arith, count-unlink p laws d a b)) in
      let one' = Shrinks-IsSingle p laws d (unlink p d a) s one in
      (
        (
          stored-Lacks p laws (unlink p d a) key v' one' λ b c w.
              let hb = Shrinks-Holds p laws d (unlink p d a) key b s (c, w) in
              let e : b ≡ a = one key b a hb h in
              absurd (ground (arith, count-unlink p laws d a b, v.once b, c, e)),
          λ k n. elim (stored-Shrinks p laws d (unlink p d a) k v v' one s) [
            | inl e ↦ e
            | inr (e, (b, hb, w, c)) ↦ elim (ℕ_discrete a b) [
              | yes q ↦ absurd (
                  n (
                    same_key d k key a
                      (subst (λ (x : ℕ). sort_key (d.heap x) ≡ (crc32 p k, k)) (sym q) hb.1) h.1))
              | no q ↦ absurd (ground (arith, count-unlink p laws d a b, c, hb.0))
            ]
          ],
        ),
        one',
      )

  store-keys :
      (d : Dict P) (a : ℕ) (sd : Node) (b : ℕ)
      → sort_key sd ≡ sort_key (d.heap a)
      → sort_key ((store p d a sd).heap b) ≡ sort_key (d.heap b)
  unfolding store
  store-keys d a sd b e =
      update-elim (λ x. sort_key x ≡ sort_key (d.heap b)) d.heap a sd b
        (λ q. e ∙ ap (λ (x : ℕ). sort_key (d.heap x)) q) (λ n. refl)

  -- A write that leaves the node's key.
  pub store-Replaces :
      (d : Dict P) (key : List ℕ) (a : ℕ) (sd : Node)
      → IsValid p d
      → IsValid p (store p d a sd)
      → IsSingle p d
      → Holds p d key a
      → sort_key sd ≡ sort_key (d.heap a)
      → Replaces key (some (entry_of sd)) (stored p d) (stored p (store p d a sd))
        × IsSingle p (store p d a sd)
  unfolding store
  store-Replaces d key a sd v v' one h e =
      let d' = store p d a sd in
      let back : (k : List ℕ) (b : ℕ) → Holds p d' k b → Holds p d k b =
        λ k b hb. (hb.0, sym (store-keys d a sd b e) ∙ hb.1) in
      let one' : IsSingle p d' = λ k b c hb hc. one k b c (back k b hb) (back k c hc) in
      (
        (
          stored-Holds p laws d' key a v' one' (h.0, store-keys d a sd a e ∙ h.1)
              ∙ ap (λ (x : Node). some (entry_of x)) (update_self d.heap a sd),
          λ k n. stored-same d d' k v v' one' (back k) (λ b hb. (
            (hb.0, store-keys d a sd b e ∙ hb.1),
            update-ne d.heap a sd b (λ q. n (
                same_key d k key a
                  (subst (λ (x : ℕ). sort_key (d.heap x) ≡ (crc32 p k, k)) (sym q) hb.1) h.1)),
          )),
        ),
        one',
      )

  -- The nodes behind a link: the new one, and those that were there.
  link-Holds :
      (d : Dict P) (key : List ℕ) (a : ℕ) (sd : Node) (k : List ℕ) (b : ℕ)
      → sort_key sd ≡ (crc32 p key, key)
      → Holds p (link p d a sd) k b
      → ((b ≡ a) × (k ≡ key)) ⊎ ((a ≢ b) × Holds p d k b)
  unfolding link store
  link-Holds d key a sd k b e hb = elim (ℕ_discrete a b) [
    | yes q ↦ inl (
      sym q,
      ap (λ (x : ℕ × List ℕ). x.1)
          (sym hb.1
            ∙ ap (λ (x : ℕ). sort_key (update d.heap a sd x)) (sym q)
            ∙ ap (λ (x : Node). sort_key x) (update_self d.heap a sd)
            ∙ e),
    )
    | no q ↦ inr (
      q,
      (
        ground (arith, link-queue p laws d a sd, hb.0),
        sym (ap (λ (x : Node). sort_key x) (update-ne d.heap a sd b q)) ∙ hb.1,
      ),
    )
  ]

  no_other : (d : Dict P) (k key : List ℕ) (b : ℕ) → Lacks p d key → k ≡ key → Lacks p d k
  no_other d k key b l e = subst (Lacks p d) (sym e) (λ a c w. l a c w)

  link-IsSingle :
      (d : Dict P) (key : List ℕ) (a : ℕ) (sd : Node)
      → IsSingle p d
      → Lacks p d key
      → sort_key sd ≡ (crc32 p key, key)
      → IsSingle p (link p d a sd)
  link-IsSingle d key a sd one l e k b c hb hc = elim (link-Holds d key a sd k b e hb) [
    | inl x ↦ elim (link-Holds d key a sd k c e hc) [
      | inl y ↦ x.0 ∙ sym y.0
      | inr y ↦ absurd (no_other d k key c l x.1 c y.1.0 y.1.1)
    ]
    | inr x ↦ elim (link-Holds d key a sd k c e hc) [
      | inl y ↦ absurd (no_other d k key b l y.1 b x.1.0 x.1.1)
      | inr y ↦ one k b c x.1 y.1
    ]
  ]

  -- A new node for a key that no node holds.
  pub link-Replaces :
      (d : Dict P) (key : List ℕ) (a : ℕ) (sd : Node)
      → IsValid p d
      → IsValid p (link p d a sd)
      → IsSingle p d
      → Lacks p d key
      → count a d.queue ≡ 0
      → sort_key sd ≡ (crc32 p key, key)
      → Replaces key (some (entry_of sd)) (stored p d) (stored p (link p d a sd))
        × IsSingle p (link p d a sd)
  link-Replaces d key a sd v v' one l new e =
      let one' = link-IsSingle d key a sd one l e in
      (
        (
          stored-Holds p laws (link p d a sd) key a v' one' (
            ground (arith, link-queue p laws d a sd),
            unfold link store in (ap (λ (x : Node). sort_key x) (update_self d.heap a sd) ∙ e),
          )
              ∙ unfold link store in
                (ap (λ (x : Node). some (entry_of x)) (update_self d.heap a sd)),
          λ k n.
              stored-same d (link p d a sd) k v v' one'
                (λ b hb. elim (link-Holds d key a sd k b e hb) [
                  | inl x ↦ absurd (n x.1)
                  | inr x ↦ x.1
                ])
                (λ b hb.
                  let q : a ≢ b = λ w. absurd (ground (arith, new, hb.0, w)) in
                  let same = update-ne d.heap a sd b q in
                  (
                    (
                      ground (arith, link-queue p laws d a sd, hb.0),
                      unfold link store in (ap (λ (x : Node). sort_key x) same ∙ hb.1),
                    ),
                    unfold link store in same,
                  )),
        ),
        one',
      )
