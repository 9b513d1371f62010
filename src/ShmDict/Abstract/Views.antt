-- ===== src/ShmDict/Abstract/Views.antt =====
-- What the walk through the tree finds, by the nodes that are linked, and how the shared steps change
-- the map.
use nginx_modules.Base.{
  ℕ, ◌≡◌, ◌≢◌, ◌⊎◌, refl, sym, subst, ◌∙◌, ap, ltb, Bool-cases, Option-cases, inl, inr, Option,
  none, some, List, All-at, count, arith,
}
use nginx_modules.ShmDict.Platform.{Platform, IsPlatform, inorder}
use nginx_modules.ShmDict.Node.{Node, sort_key, is_kept, is_expired}
use nginx_modules.ShmDict.Rbtree.{find_node}
use nginx_modules.ShmDict.Rbtree.Search.{find_node-some, find_node-none}
use nginx_modules.ShmDict.Zone.{Dict, crc32}
use nginx_modules.ShmDict.Access.{enter}
use nginx_modules.ShmDict.Valid.{IsValid}
use nginx_modules.ShmDict.Valid.Operations.{Holds, Lacks}
use nginx_modules.ShmDict.Contents.Reading.{AtMostOne, enter-heap, enter-count-le, enter-kept}
use nginx_modules.ShmDict.Contents.Inserting.{Shrinks}
use nginx_modules.ShmDict.Abstract.{Entry, entry_of, stored, is_over, is_ahead, Fading}

pub is_over_lem : (now : ℕ) (sd : Node) → is_expired now sd ≡ is_over now (entry_of sd)
unfolding is_expired
is_over_lem now sd = ground arith

pub is_ahead_lem : (now : ℕ) (sd : Node) → is_kept now sd ≡ is_ahead now (entry_of sd)
unfolding is_kept
is_ahead_lem now sd = ground arith

module _ {P : Type 0} (p : Platform P) where
  -- No key has two nodes.
  abbrev pub IsSingle : Dict P → Type 0
  IsSingle d = (key : List ℕ) → AtMostOne p d key

  -- An entry, or none, by the nodes that hold the key.
  abbrev pub Shows : Dict P → List ℕ → Option Entry → Type 0
  Shows d key none = Lacks p d key
  Shows d key (some e) = (a : ℕ) × Holds p d key a × (entry_of (d.heap a) ≡ e)

module _ {P : Type 0} (p : Platform P) (laws : IsPlatform p) where
  pub stored-none :
      (d : Dict P) (key : List ℕ)
      → find_node p d.heap (crc32 p key) key d.root ≡ none
      → stored p d key ≡ none
  stored-none d key e = rw (e, stored) refl

  pub stored-some :
      (d : Dict P) (key : List ℕ) (a : ℕ)
      → find_node p d.heap (crc32 p key) key d.root ≡ some a
      → stored p d key ≡ some (entry_of (d.heap a))
  stored-some d key a e = rw (e, stored) refl

  pub stored-Shows : (d : Dict P) (key : List ℕ) → IsValid p d → Shows p d key (stored p d key)
  stored-Shows d key v = elim (Option-cases (find_node p d.heap (crc32 p key) key d.root)) [
    | inl e ↦ subst (Shows p d key) (sym (stored-none d key e)) λ a c.
        All-at (λ b. sort_key (d.heap b) ≢ (crc32 p key, key)) a (inorder d.root)
          (find_node-none p laws d.heap (crc32 p key) key d.root v.sorted e)
          (ground (arith, v.same a))
    | inr (a, e) ↦
        let found = find_node-some p laws d.heap (crc32 p key) key d.root a e in
        subst (Shows p d key) (sym (stored-some d key a e))
          (a, (ground (arith, found.0, v.same a), found.1), refl)
  ]

  Shows-unique :
      (d : Dict P) (key : List ℕ) (o o' : Option Entry)
      → AtMostOne p d key
      → Shows p d key o
      → Shows p d key o'
      → o ≡ o'
  Shows-unique d key none none one s t = refl
  Shows-unique d key none (some e) one s (a, h, w) = absurd (s a h.0 h.1)
  Shows-unique d key (some e) none one (a, h, w) t = absurd (t a h.0 h.1)
  Shows-unique d key (some e) (some e') one (a, h, w) (b, h', w') =
      ap (λ (x : Entry). some x) (sym w ∙ ap (λ (x : ℕ). entry_of (d.heap x)) (one a b h h') ∙ w')

  -- In a valid zone with one node for the key, the map is what the nodes show.
  pub stored_lem :
      (d : Dict P) (key : List ℕ) (o : Option Entry)
      → IsValid p d
      → AtMostOne p d key
      → Shows p d key o
      → stored p d key ≡ o
  stored_lem d key o v one s = Shows-unique d key (stored p d key) o one (stored-Shows d key v) s

  pub Shrinks-Holds :
      (d d' : Dict P) (key : List ℕ) (a : ℕ) → Shrinks p d d' → Holds p d' key a → Holds p d key a
  Shrinks-Holds d d' key a s h =
      (omega (arith, s.1 a, h.0), ap (λ (f : ℕ → Node). sort_key (f a)) (sym s.0) ∙ h.1)

  pub Shrinks-IsSingle : (d d' : Dict P) → Shrinks p d d' → IsSingle p d → IsSingle p d'
  Shrinks-IsSingle d d' s one key a b ha hb =
      one key a b (Shrinks-Holds d d' key a s ha) (Shrinks-Holds d d' key b s hb)

  -- A key's entry where nodes are taken away: the same, or none for a node that is gone.
  pub stored-Shrinks :
      (d d' : Dict P) (key : List ℕ)
      → IsValid p d
      → IsValid p d'
      → IsSingle p d
      → Shrinks p d d'
      → (stored p d' key ≡ stored p d key)
        ⊎ ((stored p d' key ≡ none)
            × ((a : ℕ) × Holds p d key a
                × (stored p d key ≡ some (entry_of (d.heap a)))
                × (count a d'.queue ≡ 0)))
  stored-Shrinks d d' key v v' one s =
      let one' = Shrinks-IsSingle d d' s one in
      elim (Option-cases (stored p d key)) [
        | inl e ↦
            let l : Lacks p d key = subst (Shows p d key) e (stored-Shows d key v) in
            inl (
              stored_lem d' key none v' (one' key)
                (λ a c w. let h = Shrinks-Holds d d' key a s (c, w) in l a h.0 h.1)
              ∙ sym e)
        | inr (x, e) ↦
            let (a, h, w) : Shows p d key (some x) =
              subst (Shows p d key) e (stored-Shows d key v) in
            let same : stored p d key ≡ some (entry_of (d.heap a)) =
              e ∙ ap (λ (y : Entry). some y) (sym w) in
            elim (Bool-cases (ltb 0 (count a d'.queue))) [
              | inl c ↦ inl (
                  stored_lem d' key (some (entry_of (d.heap a))) v' (one' key) (
                    a,
                    (ground arith, ap (λ (f : ℕ → Node). sort_key (f a)) s.0 ∙ h.1),
                    ap (λ (f : ℕ → Node). entry_of (f a)) s.0,
                  )
                  ∙ sym same)
              | inr c ↦ inr (
                stored_lem d' key none v' (one' key) (λ b cb w'.
                    let hb = Shrinks-Holds d d' key b s (cb, w') in
                    let eq : b ≡ a = one key b a hb h in absurd (ground arith)),
                (a, h, same, ground arith),
              )
            ]
      ]

  -- A key that no node holds.
  pub stored-Lacks :
      (d : Dict P) (key : List ℕ)
      → IsValid p d
      → IsSingle p d
      → Lacks p d key
      → stored p d key ≡ none
  stored-Lacks d key v one l = stored_lem d key none v (one key) (λ a c w. l a c w)

  pub stored-Holds :
      (d : Dict P) (key : List ℕ) (a : ℕ)
      → IsValid p d
      → IsSingle p d
      → Holds p d key a
      → stored p d key ≡ some (entry_of (d.heap a))
  stored-Holds d key a v one h =
      stored_lem d key (some (entry_of (d.heap a))) v (one key) (a, h, refl)

  enter-Shrinks :
      (d : Dict P) (key : List ℕ) (now : ℕ) → IsValid p d → Shrinks p d (enter p d key now).0
  enter-Shrinks d key now v =
      (enter-heap p laws d key now v, λ a. enter-count-le p laws d key now a v)

  -- The lookup with its round of expiry: entries fade, no key gets a second node.
  pub enter-Fading :
      (d : Dict P) (key : List ℕ) (now : ℕ)
      → IsValid p d
      → IsValid p (enter p d key now).0
      → IsSingle p d
      → Fading now (stored p d) (stored p (enter p d key now).0) × IsSingle p (enter p d key now).0
  enter-Fading d key now v v' one =
      let s = enter-Shrinks d key now v in
      (
        λ k. elim (stored-Shrinks d (enter p d key now).0 k v v' one s) [
          | inl e ↦ inl e
          | inr (e, (a, h, w, c)) ↦ inr (
            e,
            (
              entry_of (d.heap a),
              w,
              elim (Bool-cases (is_kept now (d.heap a))) [
                | inl t ↦ absurd (ground (arith, enter-kept p laws d key now a v h.0 t, c))
                | inr t ↦ sym (is_ahead_lem now (d.heap a)) ∙ t
              ],
            ),
          )
        ],
        Shrinks-IsSingle d (enter p d key now).0 s one,
      )
