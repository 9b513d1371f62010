-- ===== src/Plugins/Lines.antt =====
-- The directive plugin_conf of ngx_plugin_module.c.
use nginx_modules.Base.{
  behind, behind-append, append-behind, ℕ, ◌≡◌, ◌≢◌, ◌↔◌, refl, ap, Bool, true, false, Option,
  subst, Option-cases, inl, inr, none, some, List, [], ◌∷◌, ◌++◌, arith,
}
use nginx_modules.Plugins.{PluginConf, Rc, success, error}

abbrev pub name_key : List ℕ
name_key = b'n' ∷ b'a' ∷ b'm' ∷ b'e' ∷ b'=' ∷ []

abbrev pub so_path_key : List ℕ
so_path_key = b's' ∷ b'o' ∷ b'_' ∷ b'p' ∷ b'a' ∷ b't' ∷ b'h' ∷ b'=' ∷ []

abbrev pub so_conf_key : List ℕ
so_conf_key = b's' ∷ b'o' ∷ b'_' ∷ b'c' ∷ b'o' ∷ b'n' ∷ b'f' ∷ b'=' ∷ []

-- ngx_http_plugin_set_conf from the words of the line on: `pcf` is the element that ngx_array_push
-- gives, whose fields are filled in one by one.
unfoldable pub fill_conf :
    PluginConf → List PluginConf → List ℕ → List ℕ → List ℕ → List PluginConf × Rc
unfolding behind
fill_conf pcf confs a b c = elim (behind name_key a) [
  | none ↦ (confs ++ pcf ∷ [], error)
  | some name ↦ elim (behind so_path_key b) [
    | none ↦ (confs ++ record pcf { name = name } ∷ [], error)
    | some so_path ↦ elim (behind so_conf_key c) [
      | none ↦ (confs ++ record pcf { name = name; so_path = so_path } ∷ [], error)
      | some so_conf ↦
          (confs ++ record { name = name; so_path = so_path; so_conf = so_conf } ∷ [], success)
    ]
  ]
]

-- ngx_http_plugin_set_conf once the array is there, by what ngx_array_push gives. `none` stands for a
-- write through its null pointer, which the first word may still prevent.
unfoldable pub push_conf :
    Option PluginConf
    → List PluginConf
    → List ℕ
    → List ℕ
    → List ℕ
    → Option (List PluginConf) × Option Rc
unfolding fill_conf behind
push_conf (some pcf) confs a b c =
    let (confs', rc) = fill_conf pcf confs a b c in (some confs', some rc)
push_conf none confs a b c =
    (some confs, elim (behind name_key a) [ none ↦ some error | some name ↦ none ])

-- ngx_http_plugin_set_conf: an array that is not there yet is made, where ngx_array_init finds room.
unfoldable pub set_conf :
    Bool
    → Option PluginConf
    → Option (List PluginConf)
    → List ℕ
    → List ℕ
    → List ℕ
    → Option (List PluginConf) × Option Rc
unfolding push_conf
set_conf room pushed (some confs) a b c = push_conf pushed confs a b c
set_conf true pushed none a b c = push_conf pushed [] a b c
set_conf false pushed none a b c = (none, some error)

last-eq : {A : Type 0} (xs : List A) (x y : A) → xs ++ x ∷ [] ≡ xs ++ y ∷ [] → x ≡ y
last-eq [] x y e = cc
last-eq (a ∷ xs) x y e = last-eq xs x y cc

-- The three words of a line.
pub record Spells (conf : PluginConf) (a b c : List ℕ) : Type 0 where
  pub name_lem : a ≡ name_key ++ conf.name
  pub so_path_lem : b ≡ so_path_key ++ conf.so_path
  pub so_conf_lem : c ≡ so_conf_key ++ conf.so_conf

fill_conf-Spells :
    (pcf conf : PluginConf) (confs : List PluginConf) (a b c : List ℕ)
    → fill_conf pcf confs a b c ≡ (confs ++ conf ∷ [], success)
    → Spells conf a b c
unfolding fill_conf
fill_conf-Spells pcf conf confs a b c e = elim (Option-cases (behind name_key a)) [
  | inl x ↦ absurd (ground (arith, e, x))
  | inr (n, x) ↦ elim (Option-cases (behind so_path_key b)) [
    | inl y ↦ absurd (ground (arith, e, x, y))
    | inr (p, y) ↦ elim (Option-cases (behind so_conf_key c)) [
      | inl z ↦ absurd (ground (arith, e, x, y, z))
      | inr (k, z) ↦
          let conf' : PluginConf = record { name = n; so_path = p; so_conf = k } in
          let same : conf' ≡ conf = last-eq confs conf' conf (ground (arith, e, x, y, z)) in
          subst (λ (q : PluginConf). Spells q a b c) same
            (record {
              name_lem = append-behind name_key a n x;
              so_path_lem = append-behind so_path_key b p y;
              so_conf_lem = append-behind so_conf_key c k z;
            })
    ]
  ]
]

-- The words of the line with an element to fill.
fill_conf_iff :
    (pcf conf : PluginConf) (confs : List PluginConf) (a b c : List ℕ)
    → Spells conf a b c ↔ (fill_conf pcf confs a b c ≡ (confs ++ conf ∷ [], success))
unfolding fill_conf
fill_conf_iff pcf conf confs a b c = (
  λ s. ground (
    arith,
    s.name_lem,
    s.so_path_lem,
    s.so_conf_lem,
    behind-append name_key conf.name,
    behind-append so_path_key conf.so_path,
    behind-append so_conf_key conf.so_conf,
  ),
  fill_conf-Spells pcf conf confs a b c,
)

-- The entries of an array, which may not be there yet.
abbrev pub entries : Option (List PluginConf) → List PluginConf
entries none = []
entries (some confs) = confs

-- ngx_array_init finds room where it is called, and ngx_array_push gives an element.
abbrev pub HasRoom : Bool → Option PluginConf → Option (List PluginConf) → Type 0
HasRoom room none elts = ⊥
HasRoom room (some pcf) (some confs) = Unit {0}
HasRoom room (some pcf) none = room ≡ true

no_success : (o : Option (List ℕ)) → elim o [ none ↦ some error | some name ↦ none ] ≢ some success
no_success none e = ground (arith, e)
no_success (some name) e = cc e

push_conf_iff :
    (pushed : Option PluginConf) (confs : List PluginConf) (conf : PluginConf) (a b c : List ℕ)
    → (Spells conf a b c × HasRoom true pushed (some confs))
      ↔ (push_conf pushed confs a b c ≡ (some (confs ++ conf ∷ []), some success))
unfolding push_conf
push_conf_iff none confs conf a b c = (
  λ s. absurd s.1,
  λ e.
      absurd
        (no_success (behind name_key a) (ap (λ (r : Option (List PluginConf) × Option Rc). r.1) e)),
)
push_conf_iff (some pcf) confs conf a b c =
    let (there, back) = fill_conf_iff pcf conf confs a b c in
    (
      λ s. ap (λ (r : List PluginConf × Rc). (some r.0, some r.1)) (there s.0),
      λ e. (back (ground (arith, e)), tt),
    )

-- A line adds a plugin's entry with success exactly when its three words are `name=`, `so_path=` and
-- `so_conf=`, in this order, each followed by that field of the entry, and there is memory: for the
-- array where it is not there yet, and for its new element.
pub set_conf_iff :
    (room : Bool) (pushed : Option PluginConf) (elts : Option (List PluginConf)) (conf : PluginConf)
    (a b c : List ℕ)
    → (Spells conf a b c × HasRoom room pushed elts)
      ↔ (set_conf room pushed elts a b c ≡ (some (entries elts ++ conf ∷ []), some success))
unfolding set_conf
set_conf_iff room none (some confs) conf a b c = push_conf_iff none confs conf a b c
set_conf_iff room (some pcf) (some confs) conf a b c = push_conf_iff (some pcf) confs conf a b c
set_conf_iff true none none conf a b c = push_conf_iff none [] conf a b c
set_conf_iff true (some pcf) none conf a b c =
    let (there, back) = push_conf_iff (some pcf) [] conf a b c in
    (λ s. there (s.0, tt), λ e. ((back e).0, refl))
set_conf_iff false none none conf a b c = (λ s. absurd s.1, λ e. absurd (cc e))
set_conf_iff false (some pcf) none conf a b c = (λ s. absurd (cc s.1), λ e. absurd (cc e))
