-- ===== src/ShmDict/Abstract/Permanent.antt =====
-- Runs in which no expiry time is set: with no entry that expires, the condition on the calls holds.
use nginx_modules.Base.{
  ℕ, zero, suc, ◌≡◌, refl, sym, subst, ◌∙◌, ap, Bool-cases, inl, inr, true, false, Bool, Option,
  none, some, List, [], ◌∷◌, bytes-cases, arith,
}
use nginx_modules.ShmDict.Platform.{Platform, IsPlatform}
use nginx_modules.ShmDict.Node.{Str, Time, now_ms, deadline}
use nginx_modules.ShmDict.Zone.{Dict, Rc, shm_ok, shm_error}
use nginx_modules.ShmDict.Access.{bad_key}
use nginx_modules.ShmDict.Valid.{IsValid, IsCounted}
use nginx_modules.ShmDict.Traces.{
  Call, getting, deleting, setting, setting_exptime, incrementing, flushing, flushing_all, FitCalls,
  Result, result, results, called, called-IsValid, all_called,
}
use nginx_modules.ShmDict.Abstract.{
  Entry, Map, stored, IsTimely, current, deleted, extended, flushed, Fades, Fading, Replaces,
  Evicting, Sets, refused, bound, no_room, Incs, added, other_type, first, first_failed, looked_up,
  summed, Flushes,
}
use nginx_modules.ShmDict.Abstract.Views.{IsSingle}
use nginx_modules.ShmDict.Abstract.Inserts.{new_entry}
use nginx_modules.ShmDict.Abstract.Runs.{
  Allows, Runs, idle, step, first_entry, TimelyCall, called-Allows,
}

-- No entry, or one that never expires.
abbrev pub Lasts : Option Entry → Type 0
Lasts none = Unit {0}
Lasts (some e) = e.expires ≡ 0

abbrev pub IsPermanent : Map → Type 0
IsPermanent m = (key : List ℕ) → Lasts (m key)

-- The call sets no expiry time.
abbrev pub PermanentCall : Call → Type 0
PermanentCall (setting key value value_type exptime user_flags) = exptime ≡ 0
PermanentCall (setting_exptime key exptime) = exptime ≡ 0
PermanentCall (incrementing key i exptime) = exptime ≡ 0
PermanentCall flushing_all = false ≡ true
PermanentCall _ = Unit {0}

abbrev pub PermanentCalls : List (Call × Time) → Type 0
PermanentCalls [] = Unit {0}
PermanentCalls ((c, tp) ∷ cs) = PermanentCall c × PermanentCalls cs

deadline_zero : (tp : Time) → deadline tp 0 ≡ 0
unfolding deadline
deadline_zero tp = refl

Lasts-IsTimely : (now : ℕ) (o : Option Entry) → Lasts o → IsTimely now o
Lasts-IsTimely now none l = tt
Lasts-IsTimely now (some e) l = ground (arith, l)

-- What never expires does not fade.
Fades_lem : (now : ℕ) (o o' : Option Entry) → Lasts o → Fades now o o' → o' ≡ o
Fades_lem now o o' l (inl e) = e
Fades_lem now none o' l (inr (e, (x, w, f))) = e
Fades_lem now (some y) o' l (inr (e, (x, w, f))) = absurd (ground (arith, l, w, f))

Fading-IsPermanent : (now : ℕ) (m m' : Map) → IsPermanent m → Fading now m m' → IsPermanent m'
Fading-IsPermanent now m m' l f k = subst Lasts (sym (Fades_lem now (m k) (m' k) (l k) (f k))) (l k)

Evicting-IsPermanent :
    (key : List ℕ) (o : Option Entry) (m m' : Map)
    → IsPermanent m
    → Lasts o
    → Evicting key o m m'
    → IsPermanent m'
Evicting-IsPermanent key o m m' l lo e k = elim (bytes-cases k key) [
  | inl q ↦ subst (λ (x : List ℕ). Lasts (m' x)) (sym q) (subst Lasts (sym e.0) lo)
  | inr n ↦ elim (e.1 k n) [ inl w ↦ subst Lasts (sym w) (l k) | inr w ↦ subst Lasts (sym w) tt ]
]

Replaces-IsPermanent :
    (key : List ℕ) (o : Option Entry) (m m' : Map)
    → IsPermanent m
    → Lasts o
    → Replaces key o m m'
    → IsPermanent m'
Replaces-IsPermanent key o m m' l lo r =
    Evicting-IsPermanent key o m m' l lo (r.0, λ k n. inl (r.1 k n))

Lasts-deleted : (now : ℕ) (o : Option Entry) → Lasts o → Lasts (deleted now o)
Lasts-deleted now none l = tt
Lasts-deleted now (some e) l = ground (arith, l)

Lasts-flushed : (now : ℕ) (o : Option Entry) → Lasts o → Lasts (flushed now o)
Lasts-flushed now none l = tt
Lasts-flushed now (some e) l = ground (arith, l)

Lasts-extended : (b : Bool) (now : ℕ) (o : Option Entry) → Lasts o → Lasts (extended b now 0 o).0
Lasts-extended true now o l = l
Lasts-extended false now none l = tt
Lasts-extended false now (some e) l = ground (arith, l)

Sets-IsPermanent :
    (now : ℕ) (key : List ℕ) (e : Entry) (m m' : Map) (rc : Rc)
    → IsPermanent m
    → e.expires ≡ 0
    → Sets now key e m m' rc
    → IsPermanent m'
Sets-IsPermanent now key e m m' rc l z (refused b same) = λ k. subst Lasts (sym (same k)) (l k)
Sets-IsPermanent now key e m m' rc l z (bound m1 f x) =
    Evicting-IsPermanent key (some e) m1 m' (Fading-IsPermanent now m m1 l f) z x
Sets-IsPermanent now key e m m' rc l z (no_room m1 f x) =
    Evicting-IsPermanent key none m1 m' (Fading-IsPermanent now m m1 l f) tt x

current-Lasts :
    (now : ℕ) (o : Option Entry) (x : Entry) → Lasts o → current now o ≡ some x → x.expires ≡ 0
current-Lasts now none x l e = cc
current-Lasts now (some y) x l e = ground (arith, l, e)

looked_up-Lasts :
    (now : ℕ) (key : List ℕ) (m : Map) (x : Entry)
    → Lasts (m key)
    → looked_up now key m ≡ some x
    → x.expires ≡ 0
looked_up-Lasts now key m x l e = elim (Bool-cases (bad_key key)) [
  | inl b ↦ absurd (ground (arith, e, b))
  | inr b ↦ current-Lasts now (m key) x l (ground (arith, e, b))
]

Incs-IsPermanent :
    (now i : ℕ) (key : List ℕ) (e : Entry) (m m' : Map) (o : Option ℕ)
    → IsPermanent m
    → e.expires ≡ 0
    → Incs now i key e m m' o
    → IsPermanent m'
Incs-IsPermanent now i key e m m' o l z (added m1 x f u t r) =
    let l1 = Fading-IsPermanent now m m1 l f in
    Replaces-IsPermanent key (some (summed i x)) m1 m' l1 (looked_up-Lasts now key m1 x (l1 key) u)
      r
Incs-IsPermanent now i key e m m' o l z (other_type x f u t) = Fading-IsPermanent now m m' l f
Incs-IsPermanent now i key e m m' o l z (first m1 f u s) =
    Sets-IsPermanent now key e m1 m' shm_ok (Fading-IsPermanent now m m1 l f) z s
Incs-IsPermanent now i key e m m' o l z (first_failed m1 f u s) =
    Sets-IsPermanent now key e m1 m' shm_error (Fading-IsPermanent now m m1 l f) z s

Flushes-IsPermanent :
    (attempts now : ℕ) (m m' : Map) → IsPermanent m → Flushes attempts now m m' → IsPermanent m'
Flushes-IsPermanent zero now m m' l f k = subst Lasts (sym (f k)) (Lasts-flushed now (m k) (l k))
Flushes-IsPermanent (suc n) now m m' l f k = elim (f k) [
  | inl e ↦ subst Lasts (sym e) (l k)
  | inr e ↦ subst Lasts (sym e) (Lasts-flushed now (m k) (l k))
]

new_entry_zero :
    (value : Str) (value_type exptime user_flags : ℕ) (tp : Time)
    → exptime ≡ 0
    → (new_entry value value_type exptime user_flags tp).expires ≡ 0
new_entry_zero value value_type exptime user_flags tp e = ap (deadline tp) e ∙ deadline_zero tp

Allows-IsPermanent :
    (m m' : Map) (c : Call) (tp : Time) (r : Result)
    → PermanentCall c
    → IsPermanent m
    → Allows m c tp r m'
    → IsPermanent m'
Allows-IsPermanent m m' (getting key) tp r z l (o, e, s) =
    Fading-IsPermanent (now_ms tp) m m' l s.fades
Allows-IsPermanent m m' (deleting key) tp r z l (rc, e, s) =
    let l1 = Fading-IsPermanent (now_ms tp) m s.faded l s.fades in
    Replaces-IsPermanent key _ s.faded m' l1 (Lasts-deleted (now_ms tp) (s.faded key) (l1 key))
      s.replaces
Allows-IsPermanent m m' (setting key value value_type exptime user_flags) tp r z l (rc, e, s) =
    Sets-IsPermanent (now_ms tp) key _ m m' rc l
      (new_entry_zero value value_type exptime user_flags tp z) s
Allows-IsPermanent m m' (setting_exptime key exptime) tp r z l (rc, e, s) =
    let l1 = Fading-IsPermanent (now_ms tp) m s.faded l s.fades in
    Replaces-IsPermanent key _ s.faded m' l1
      (subst (λ (t : ℕ). Lasts (extended (bad_key key) (now_ms tp) t (s.faded key)).0)
        (sym (ap (deadline tp) z ∙ deadline_zero tp))
        (Lasts-extended (bad_key key) (now_ms tp) (s.faded key) (l1 key)))
      s.replaces
Allows-IsPermanent m m' (incrementing key i exptime) tp r z l (o, e, s) =
    Incs-IsPermanent (now_ms tp) i key (first_entry i exptime tp) m m' o l
      (ap (deadline tp) z ∙ deadline_zero tp) s
Allows-IsPermanent m m' (flushing attempts) tp r z l (n, e, s) =
    Flushes-IsPermanent attempts (now_ms tp) m m' l s
Allows-IsPermanent m m' flushing_all tp r z l (e, s) = absurd (cc z)

module _ {P : Type 0} (p : Platform P) where
  IsPermanent-TimelyCall :
      (d : Dict P) (c : Call) (tp : Time) → IsPermanent (stored p d) → TimelyCall p d c tp
  IsPermanent-TimelyCall d (getting key) tp l = tt
  IsPermanent-TimelyCall d (deleting key) tp l = tt
  IsPermanent-TimelyCall d (setting key value value_type exptime user_flags) tp l =
      Lasts-IsTimely (now_ms tp) (stored p d key) (l key)
  IsPermanent-TimelyCall d (setting_exptime key exptime) tp l = tt
  IsPermanent-TimelyCall d (incrementing key i exptime) tp l =
      Lasts-IsTimely (now_ms tp) (stored p d key) (l key)
  IsPermanent-TimelyCall d (flushing attempts) tp l = tt
  IsPermanent-TimelyCall d flushing_all tp l = tt

  -- From a valid zone where no key has two nodes, no entry expires and each entry of the integer type
  -- has eight bytes or more, any sequence of get, delete, set, set_exptime and inc_int with an expiry
  -- time of 0, and flush_expired, is a run of the map by the contracts of the operations, with the
  -- result that each call returns; values are shorter than 2^32 bytes, and those of the integer type
  -- have eight bytes or more. In the end no key has two nodes, and no entry expires.
  pub all_called-IsPermanent :
      (laws : IsPlatform p) (d : Dict P) (cs : List (Call × Time))
      → FitCalls cs
      → PermanentCalls cs
      → IsValid p d
      → IsCounted d
      → IsSingle p d
      → IsPermanent (stored p d)
      → let d' = all_called p d cs in
        Runs (stored p d) cs (results p d cs) (stored p d')
        × IsSingle p d'
        × IsPermanent (stored p d')
  all_called-IsPermanent laws d [] f z v w one l = (idle, one, l)
  all_called-IsPermanent laws d ((c, tp) ∷ cs) f z v w one l =
      let (a, one1) = called-Allows p laws d c tp f.0 v w one (IsPermanent-TimelyCall d c tp l) in
      let (v1, w1) = called-IsValid p laws d c tp f.0 v w in
      let (r, one', l') = all_called-IsPermanent laws (called p d c tp) cs f.1 z.1 v1 w1 one1 (
        Allows-IsPermanent (stored p d) (stored p (called p d c tp)) c tp (result p d c tp) z.0 l
          a) in
      (step a r, one', l')
