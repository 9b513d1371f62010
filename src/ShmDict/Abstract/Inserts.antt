-- ===== src/ShmDict/Abstract/Inserts.antt =====
-- ngx_shm_dict_insert as a change of the map: the key is bound, or there was no room, and other keys may be gone.
use nginx_modules.Base.{
  ℕ, ◌+◌, ◌≡◌, ◌≢◌, ◌⊎◌, refl, subst, ◌∙◌, ap, inl, inr, false, Option, none, some, List, length,
}
use nginx_modules.ShmDict.Platform.{Platform, IsPlatform}
use nginx_modules.ShmDict.Node.{Node, Str, Time, now_ms, deadline, sort_key}
use nginx_modules.ShmDict.Zone.{Dict, Rc, shm_ok, shm_error, crc32}
use nginx_modules.ShmDict.Access.{
  int_size, new_node, alloc_node, link, insert_at, insert, insert_unlock,
}
use nginx_modules.ShmDict.Valid.{IsValid}
use nginx_modules.ShmDict.Valid.Parts.{
  FitsKey, FitsValue, Allocates, alloc_node-Allocates, insert_at-IsValid, new_node-IsFilled,
  written_key, written_value,
}
use nginx_modules.ShmDict.Valid.Operations.{Lacks}
use nginx_modules.ShmDict.Contents.Inserting.{Shrinks, alloc_node-Shrinks}
use nginx_modules.ShmDict.Abstract.{Entry, Map, entry_of, stored, Replaces, Evicting}
use nginx_modules.ShmDict.Abstract.Views.{
  IsSingle, Shrinks-IsSingle, Shrinks-Holds, stored-Shrinks, stored-Lacks,
}
use nginx_modules.ShmDict.Abstract.Changes.{link-Replaces}

-- The entry that a call of ngx_shm_dict_set stores.
abbrev pub new_entry : Str → ℕ → ℕ → ℕ → Time → Entry
new_entry value value_type exptime user_flags tp = record {
  value = value.bytes;
  value_type = value_type;
  user_flags = user_flags;
  expires = deadline tp exptime;
}

-- The key is bound, or has no entry.
abbrev pub BindsOrNot : List ℕ → Entry → Map → Map → Rc → Type 0
BindsOrNot key e m m' rc =
    ((rc ≡ shm_ok) × Evicting key (some e) m m') ⊎ ((rc ≡ shm_error) × Evicting key none m m')

pub Evicting-Replaces :
    (key : List ℕ) (o : Option Entry) (m m' : Map) → Replaces key o m m' → Evicting key o m m'
Evicting-Replaces key o m m' r = (r.0, λ k n. inl (r.1 k n))

-- A replacement behind an eviction, and one in front of it.
pub evict_then :
    (key : List ℕ) (o : Option Entry) (m m1 m' : Map)
    → ((k : List ℕ) → k ≢ key → (m1 k ≡ m k) ⊎ (m1 k ≡ none))
    → Replaces key o m1 m'
    → Evicting key o m m'
evict_then key o m m1 m' e r =
    (r.0, λ k n. elim (e k n) [ inl x ↦ inl (r.1 k n ∙ x) | inr x ↦ inr (r.1 k n ∙ x) ])

pub then_evict :
    (key : List ℕ) (o o' : Option Entry) (m m1 m' : Map)
    → Replaces key o m m1
    → Evicting key o' m1 m'
    → Evicting key o' m m'
then_evict key o o' m m1 m' r e =
    (e.0, λ k n. elim (e.1 k n) [ inl x ↦ inl (x ∙ r.1 k n) | inr x ↦ inr x ])

pub then_bind :
    (key : List ℕ) (o : Option Entry) (e : Entry) (m m1 m' : Map) (rc : Rc)
    → Replaces key o m m1
    → BindsOrNot key e m1 m' rc
    → BindsOrNot key e m m' rc
then_bind key o e m m1 m' rc r (inl (x, b)) = inl (x, then_evict key o (some e) m m1 m' r b)
then_bind key o e m m1 m' rc r (inr (x, b)) = inr (x, then_evict key o none m m1 m' r b)

module _ {P : Type 0} (p : Platform P) (laws : IsPlatform p) where
  fewer-Evicts :
      (d d' : Dict P) (k : List ℕ)
      → IsValid p d
      → IsValid p d'
      → IsSingle p d
      → Shrinks p d d'
      → (stored p d' k ≡ stored p d k) ⊎ (stored p d' k ≡ none)
  fewer-Evicts d d' k v v' one s = elim (stored-Shrinks p laws d d' k v v' one s) [
    | inl e ↦ inl e
    | inr (e, x) ↦ inr e
  ]

  -- An insertion where the allocation has evicted what it has to.
  insert_at-Evicting :
      (d : Dict P) (key : List ℕ) (sd : Node) (r : Dict P × Option ℕ)
      → IsValid p d
      → IsSingle p d
      → Lacks p d key
      → sort_key sd ≡ (crc32 p key, key)
      → Shrinks p d r.0
      → Allocates p laws r
      → IsValid p (insert_at p r sd).0
      → BindsOrNot key
          (entry_of sd)
          (stored p d)
          (stored p (insert_at p r sd).0)
          (insert_at p r sd).1
        × IsSingle p (insert_at p r sd).0
  unfolding insert_at
  insert_at-Evicting d key sd (d1, none) v one l e s al v' =
      let one' = Shrinks-IsSingle p laws d d1 s one in
      (
        inr (
          refl,
          (
            stored-Lacks p laws d1 key al one'
                (λ a c w. let h = Shrinks-Holds p laws d d1 key a s (c, w) in l a h.0 h.1),
            λ k n. fewer-Evicts d d1 k v al one s,
          ),
        ),
        one',
      )
  insert_at-Evicting d key sd (d1, some a) v one l e s (v1, new, live) v' =
      let one1 = Shrinks-IsSingle p laws d d1 s one in
      let lacks : Lacks p d1 key =
        λ b c w. let h = Shrinks-Holds p laws d d1 key b s (c, w) in l b h.0 h.1 in
      let (r, one') = link-Replaces p laws d1 key a sd v1 v' one1 lacks new e in
      (
        inl (
          refl,
          evict_then key (some (entry_of sd)) (stored p d) (stored p d1) (stored p (link p d1 a sd))
              (λ k n. fewer-Evicts d d1 k v v1 one s) r,
        ),
        one',
      )

  pub new_entry_lem :
      (key : List ℕ) (value : Str) (value_type exptime user_flags hash : ℕ) (tp : Time)
      → FitsKey key
      → FitsValue value
      → entry_of (new_node key value value_type exptime user_flags hash tp)
        ≡ new_entry value value_type exptime user_flags tp
  unfolding new_node
  new_entry_lem key value value_type exptime user_flags hash tp fk fv =
      ap
        (λ (bs : List ℕ).
          new_entry (record { is_null = false; bytes = bs }) value_type exptime user_flags tp)
        (written_value p laws key value fk fv)

  pub insert_unlock-Evicting :
      (d : Dict P) (key : List ℕ) (value : Str) (value_type exptime user_flags : ℕ) (tp : Time)
      → FitsKey key
      → FitsValue value
      → IsValid p d
      → IsSingle p d
      → Lacks p d key
      → let (d', rc) = insert_unlock p d key value value_type exptime user_flags tp in
        BindsOrNot key
          (new_entry value value_type exptime user_flags tp)
          (stored p d)
          (stored p d')
          rc
        × IsSingle p d'
  unfolding insert_unlock insert
  insert_unlock-Evicting d key value value_type exptime user_flags tp fk fv v one l =
      let sd = new_node key value value_type exptime user_flags (crc32 p key) tp in
      let size = int_size (p.header_size + length key + length value.bytes) in
      let r = alloc_node p d size (now_ms tp) in
      let al = alloc_node-Allocates p laws d size (now_ms tp) v in
      subst
        (λ (e : Entry).
          BindsOrNot key e (stored p d) (stored p (insert_at p r sd).0) (insert_at p r sd).1
          × IsSingle p (insert_at p r sd).0)
        (new_entry_lem key value value_type exptime user_flags (crc32 p key) tp fk fv)
        (insert_at-Evicting d key sd r v one l
          (unfold new_node in
            ap (λ (bs : List ℕ). (crc32 p key, bs)) (written_key p laws key value.bytes fk))
          (alloc_node-Shrinks p laws d size (now_ms tp) v) al
          (insert_at-IsValid p laws r sd
            (new_node-IsFilled p laws key value value_type exptime user_flags tp fk fv) al))
