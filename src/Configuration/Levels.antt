-- ===== src/Configuration/Levels.antt =====
-- The settings of a location behind the levels around it.
use nginx_modules.Base.{
  inr, inl, ◌⊎◌, ℕ, ◌≡◌, ◌≢◌, ◌==◌, refl, sym, ap, ◌∙◌, if◌then◌else◌, Option, none, some, List, [],
  ◌∷◌, map, ℕ_discrete, arith,
}
use nginx_modules.Configuration.{Macros, Merges, IsMacros, LocConf, alone_if_off, merge_loc_conf}

-- The value of the innermost level that sets one, or the default; the outermost level comes first.
unfoldable pub latest : ℕ → ℕ → List ℕ → ℕ
latest unset v [] = v
latest unset v (x ∷ xs) = latest unset (if x == unset then v else x) xs

abbrev pub or_default : ℕ → ℕ → ℕ → ℕ
or_default unset d v = if v == unset then d else v

unfoldable pub latest_upstream : Option ℕ → List (Option ℕ) → Option ℕ
latest_upstream u [] = u
latest_upstream u (none ∷ us) = latest_upstream u us
latest_upstream u (some v ∷ us) = latest_upstream (some v) us

latest-ne : (unset v : ℕ) (xs : List ℕ) → v ≢ unset → latest unset v xs ≢ unset
unfolding latest
latest-ne unset v [] n = n
latest-ne unset v (x ∷ xs) n = elim (ℕ_discrete x unset) [
  | yes e ↦ λ w. latest-ne unset v xs n (ground (arith, e, w))
  | no e ↦ λ w. latest-ne unset x xs e (ground (arith, e, w))
]

latest-or_default :
    (unset d v : ℕ) (xs : List ℕ)
    → d ≢ unset
    → or_default unset d (latest unset (or_default unset d v) xs)
      ≡ or_default unset d (latest unset v xs)
unfolding latest
latest-or_default unset d v [] n = ground (arith, n)
latest-or_default unset d v (x ∷ xs) n = elim (ℕ_discrete x unset) [
  | yes e ↦ ground (arith, e, latest-or_default unset d v xs n)
  | no e ↦ ground (arith, e)
]

Merges_lem :
    (unset : ℕ) (merge : ℕ → ℕ → ℕ → ℕ) (c prev d : ℕ)
    → Merges unset merge
    → merge c prev d ≡ (if c == unset then or_default unset d prev else c)
Merges_lem unset merge c prev d l = elim (ℕ_discrete c unset) [
  | yes e ↦ elim (ℕ_discrete prev unset) [
    | yes f ↦ ground (arith, e, f, l.default d)
    | no f ↦ ground (arith, e, f, l.outer prev d f)
  ]
  | no e ↦ ground (arith, e, l.own c prev d e)
]

-- How a field of the settings goes through the levels, if `norm` is applied to what was merged.
module _ (unset d : ℕ) (norm : ℕ → ℕ) where
  -- `norm` changes nothing that it has made, and leaves a value that is set a value that is set.
  record IsNorm : Type 0 where
    pub twice : (v : ℕ) → norm (norm v) ≡ norm v
    pub keeps_set : (v : ℕ) → v ≢ unset → norm v ≢ unset
    pub default_set : d ≢ unset

  latest-norm :
      (v : ℕ) (xs : List ℕ)
      → IsNorm
      → v ≢ unset
      → norm (or_default unset d (latest unset (norm v) xs))
        ≡ norm (or_default unset d (latest unset v xs))
  unfolding latest
  latest-norm v [] h n = ground (arith, n, h.keeps_set v n, h.twice v)
  latest-norm v (x ∷ xs) h n = elim (ℕ_discrete x unset) [
    | yes e ↦ ground (arith, e, latest-norm v xs h n)
    | no e ↦ ground (arith, e)
  ]

  or_default-ne : (v : ℕ) → IsNorm → or_default unset d v ≢ unset
  or_default-ne v h = elim (ℕ_discrete v unset) [
    | yes e ↦ λ w. h.default_set (ground (arith, e, w))
    | no e ↦ λ w. e (ground (arith, e, w))
  ]

  -- One level more, behind a level that was merged.
  latest_step :
      (p c : ℕ) (xs : List ℕ)
      → IsNorm
      → norm (
          or_default unset d
            (latest unset (norm (if c == unset then or_default unset d p else c)) xs))
        ≡ norm (or_default unset d (latest unset p (c ∷ xs)))
  unfolding latest
  latest_step p c xs h = elim (ℕ_discrete c unset) [
    | yes e ↦ ground (
      arith,
      e,
      latest-norm (or_default unset d p) xs h (or_default-ne p h),
      latest-or_default unset d p xs h.default_set,
    )
    | no e ↦ ground (arith, e, latest-norm c xs h e)
  ]

latest_upstream-cons :
    (u v : Option ℕ) (us : List (Option ℕ))
    → latest_upstream (elim u [ none ↦ v | some x ↦ some x ]) us ≡ latest_upstream v (u ∷ us)
unfolding latest_upstream
latest_upstream-cons none v us = refl
latest_upstream-cons (some x) v us = refl

module _ (m : Macros) where
  -- nginx merges every level into the one in it, from the outside in.
  unfoldable pub merged : LocConf → List LocConf → LocConf
  unfolding merge_loc_conf
  merged prev [] = prev
  merged prev (conf ∷ confs) = merged (merge_loc_conf m prev conf) confs

  -- A field that every merge sets in this way.
  merged_field :
      (unset d : ℕ) (norm : ℕ → ℕ) (f : LocConf → ℕ) (prev conf : LocConf) (confs : List LocConf)
      → IsNorm unset d norm
      → ((p c : LocConf)
          → f (merge_loc_conf m p c)
            ≡ norm (if f c == unset then or_default unset d (f p) else f c))
      → f (merged prev (conf ∷ confs))
        ≡ norm (or_default unset d (latest unset (f prev) (map f (conf ∷ confs))))
  unfolding merged latest
  merged_field unset d norm f prev conf [] h s = s prev conf ∙ ground arith
  merged_field unset d norm f prev conf (c ∷ confs) h s =
      merged_field unset d norm f (merge_loc_conf m prev conf) c confs h s
      ∙ ap (λ (v : ℕ). norm (or_default unset d (latest unset v (map f (c ∷ confs))))) (s prev conf)
      ∙ latest_step unset d norm (f prev) (f conf) (map f (c ∷ confs)) h

  -- The upstream is that of the innermost level with one.
  merged_upstream :
      (prev : LocConf) (confs : List LocConf)
      → (merged prev confs).upstream
        ≡ latest_upstream prev.upstream (map (λ (c : LocConf). c.upstream) confs)
  unfolding merged merge_loc_conf latest_upstream
  merged_upstream prev [] = refl
  merged_upstream prev (conf ∷ confs) =
      merged_upstream (merge_loc_conf m prev conf) confs
      ∙ latest_upstream-cons conf.upstream prev.upstream (map (λ (c : LocConf). c.upstream) confs)

  merge-IsNorm :
      (laws : IsMacros m)
      → IsNorm 0 (m.bit_or (m.bit_or m.bitmask_set m.ft_error) m.ft_timeout) (alone_if_off m)
  unfolding alone_if_off
  merge-IsNorm laws = record {
    twice = λ v. ground (arith, laws.off_lem);
    keeps_set = λ v n. ground (arith, laws.off_set, n);
    default_set = laws.default_set;
  }

  off_lem :
      (v n : ℕ)
      → n ≡ alone_if_off m v
      → ((m.bit_and v m.ft_off ≡ 0) × (n ≡ v))
        ⊎ ((m.bit_and v m.ft_off ≢ 0) × (n ≡ m.bit_or m.bitmask_set m.ft_off))
  unfolding alone_if_off
  off_lem v n e = elim (ℕ_discrete (m.bit_and v m.ft_off) 0) [
    | yes z ↦ inl (z, ground (arith, e, z))
    | no z ↦ inr (z, ground (arith, e, z))
  ]

  -- The settings of a location that is reached through levels.
  pub record Effective (prev : LocConf) (confs : List LocConf) (r : LocConf) : Type 0 where
    pub timeout :
        r.connect_timeout
        ≡ or_default m.unset_msec 60000 (
            latest m.unset_msec prev.connect_timeout
              (map (λ (c : LocConf). c.connect_timeout) confs))
    pub send : r.send_timeout ≡ r.connect_timeout
    pub read : r.read_timeout ≡ r.connect_timeout
    pub size :
        r.buffer_size
        ≡ or_default m.unset_size 8096
            (latest m.unset_size prev.buffer_size (map (λ (c : LocConf). c.buffer_size) confs))
    pub next :
        let v =
          or_default 0
            (m.bit_or (m.bit_or m.bitmask_set m.ft_error) m.ft_timeout)
            (latest 0 prev.next_upstream (map (λ (c : LocConf). c.next_upstream) confs)) in
        ((m.bit_and v m.ft_off ≡ 0) × (r.next_upstream ≡ v))
        ⊎ ((m.bit_and v m.ft_off ≢ 0) × (r.next_upstream ≡ m.bit_or m.bitmask_set m.ft_off))
    pub passes :
        r.upstream ≡ latest_upstream prev.upstream (map (λ (c : LocConf). c.upstream) confs)

  merged-times :
      (prev conf : LocConf) (confs : List LocConf)
      → let r = merged prev (conf ∷ confs) in
        (r.send_timeout ≡ r.connect_timeout) × (r.read_timeout ≡ r.connect_timeout)
  unfolding merged merge_loc_conf
  merged-times prev conf [] = (refl, refl)
  merged-times prev conf (c ∷ confs) = merged-times (merge_loc_conf m prev conf) c confs

  timeout_step :
      (laws : IsMacros m) (p c : LocConf)
      → (merge_loc_conf m p c).connect_timeout ≡ (
          if c.connect_timeout == m.unset_msec
          then or_default m.unset_msec 60000 p.connect_timeout
          else c.connect_timeout)
  unfolding merge_loc_conf
  timeout_step laws p c =
      Merges_lem m.unset_msec m.merge_msec c.connect_timeout p.connect_timeout 60000 laws.msec_lem

  size_step :
      (laws : IsMacros m) (p c : LocConf)
      → (merge_loc_conf m p c).buffer_size ≡ (
          if c.buffer_size == m.unset_size
          then or_default m.unset_size 8096 p.buffer_size
          else c.buffer_size)
  unfolding merge_loc_conf
  size_step laws p c =
      Merges_lem m.unset_size m.merge_size c.buffer_size p.buffer_size 8096 laws.size_lem

  next_step :
      (laws : IsMacros m) (p c : LocConf)
      → let d = m.bit_or (m.bit_or m.bitmask_set m.ft_error) m.ft_timeout in
        (merge_loc_conf m p c).next_upstream
        ≡ alone_if_off m
            (if c.next_upstream == 0 then or_default 0 d p.next_upstream else c.next_upstream)
  unfolding merge_loc_conf
  next_step laws p c =
      let d = m.bit_or (m.bit_or m.bitmask_set m.ft_error) m.ft_timeout in
      ap (alone_if_off m)
        (Merges_lem 0 m.merge_bitmask c.next_upstream p.next_upstream d laws.bitmask_lem)

  -- A location that is reached through one level or more has, with macros that merge, the connect
  -- timeout of the innermost level that sets one, or 60000, also as its send and read timeouts; the
  -- buffer size of the innermost level that sets one, or 8096; the conditions for the next server of
  -- the innermost level that sets some, or error and timeout, and nothing but `off` where `off` is
  -- one of them; and the upstream of the innermost level that has one.
  pub merged-Effective :
      (prev conf : LocConf) (confs : List LocConf)
      → IsMacros m
      → Effective prev (conf ∷ confs) (merged prev (conf ∷ confs))
  merged-Effective prev conf confs laws = record {
    timeout =
        merged_field m.unset_msec 60000 (λ v. v) (λ (c : LocConf). c.connect_timeout) prev conf
          confs
          (record {
            twice = λ v. refl;
            keeps_set = λ v n. n;
            default_set = λ e. laws.msec_mark (sym e);
          })
          (timeout_step laws);
    send = (merged-times prev conf confs).0;
    read = (merged-times prev conf confs).1;
    size =
        merged_field m.unset_size 8096 (λ v. v) (λ (c : LocConf). c.buffer_size) prev conf confs
          (record {
            twice = λ v. refl;
            keeps_set = λ v n. n;
            default_set = λ e. laws.size_mark (sym e);
          })
          (size_step laws);
    next = off_lem _ _ (
        merged_field 0 (m.bit_or (m.bit_or m.bitmask_set m.ft_error) m.ft_timeout) (alone_if_off m)
          (λ (c : LocConf). c.next_upstream) prev conf confs (merge-IsNorm laws) (next_step laws));
    passes = merged_upstream prev (conf ∷ confs);
  }
