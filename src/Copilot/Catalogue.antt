-- ===== src/Copilot/Catalogue.antt =====
-- src/adapters/copilot.mjs: the catalogue of models that the SDK advertises, and the test of a requested
-- model and reasoning effort against it.
use floe_runtime.Prelude.{
  ◌≡◌, refl, ◌↔◌, String, Bool, true, false, not, Option, none, some, if◌then◌else◌, List, [], ◌∷◌,
  ◌++◌, ◌==◌, ◌||◌, includes, find, arith, eq_iff, ◌⊎◌, inl, inr, ap, subst, Bool-cases, if_true,
  if_false,
}
use floe_runtime.Errors.{RuntimeFault, Result, ok, err, fault, ◌⧺◌, ◌>>=◌}

-- A model of the catalogue: its id (`modelId` or else `id`, if it is a text), the efforts it lists, and
-- whether it says that it supports none.
pub record Model : Type 0 where
  pub model_id : Option String
  pub levels : Option (List String)
  pub denies_effort : Bool

pub data Listing : Type 0 where
  list_fails : String → Listing
  no_list : Listing
  lists : List Model → Listing

pub record Catalogue : Type 0 where
  pub models : List Model
  pub ids : List String

abbrev add_name : List String → Option String → List String
add_name is none = is
add_name is (some i) = if i == "" || includes is i then is else is ++ i ∷ []

abbrev ids_of : List String → List Model → List String
ids_of is [] = is
ids_of is (m ∷ ms) = ids_of (add_name is m.model_id) ms

abbrev models_unavailable : String → Result Catalogue
models_unavailable m = err (fault "copilot_models_unavailable" m 503)

abbrev catalogue_of : List Model → List String → Result Catalogue
catalogue_of ms [] = models_unavailable "Copilot returned no models with usable identifiers."
catalogue_of ms (i ∷ is) = ok (record { models = ms; ids = i ∷ is })

abbrev read_listing : Listing → Result Catalogue
read_listing (list_fails m) =
    models_unavailable ("Copilot could not list its available models: " ⧺ m)
read_listing no_list = models_unavailable "Copilot returned no available models."
read_listing (lists []) = models_unavailable "Copilot returned no available models."
read_listing (lists (m ∷ ms)) = catalogue_of (m ∷ ms) (ids_of [] (m ∷ ms))

abbrev keep_read : Result Catalogue → Result Catalogue × Option Catalogue
keep_read (ok c) = (ok c, some c)
keep_read (err e) = (err e, none)

-- `#models`: a catalogue that was read is kept, an error is not.
unfoldable pub models : Option Catalogue → Listing → Result Catalogue × Option Catalogue
models (some c) l = (ok c, some c)
models none l = keep_read (read_listing l)

abbrev join : List String → String
join [] = ""
join (i ∷ []) = i
join (i ∷ j ∷ is) = i ⧺ ", " ⧺ join (j ∷ is)

abbrev not_available : List String → String → RuntimeFault
not_available ids m =
    fault "copilot_model_unavailable"
      ("Copilot model '" ⧺ m ⧺ "' is unavailable. Available models: " ⧺ join ids ⧺ ".") 400

abbrev pub Checked : Type 0
Checked = Result (Unit {0})

-- `#assertKnownModel`; no model, or an empty text, is left to the SDK.
abbrev pub assert_known_model : Catalogue → Option String → Checked
assert_known_model c none = ok tt
assert_known_model c (some m) =
    if m == "" then ok tt else if includes c.ids m then ok tt else err (not_available c.ids m)

abbrev has_name : String → Model → Bool
has_name m e = elim e.model_id [ none ↦ false | some i ↦ i == m ]

abbrev lacks : Option (List String) → String → Bool
lacks none effort = false
lacks (some ls) effort = not (includes ls effort)

abbrev pub refuses : Option Model → String → Bool
refuses none effort = false
refuses (some e) effort = e.denies_effort || lacks e.levels effort

abbrev allowed : Option (List String) → String
allowed none = "This model does not support reasoning effort."
allowed (some []) = "This model does not support reasoning effort."
allowed (some (l ∷ ls)) = "Supported levels: " ⧺ join (l ∷ ls) ⧺ "."

abbrev levels_of : Option Model → Option (List String)
levels_of none = none
levels_of (some e) = e.levels

-- Whether the effort is asked for now, or the session's current one.
pub data Origin : Type 0 where
  requested current : Origin

abbrev hint : Origin → String
hint requested = ""
hint current = " Pass an effort the new model supports."

abbrev origin_text : Origin → String
origin_text requested = "requested"
origin_text current = "current"

abbrev effort_fault : Option Model → String → String → Origin → RuntimeFault
effort_fault e m effort o =
    fault "copilot_effort_unavailable"
      ("Copilot model '"
        ⧺ m
        ⧺ "' cannot use the "
        ⧺ origin_text o
        ⧺ " reasoning effort '"
        ⧺ effort
        ⧺ "'. "
        ⧺ allowed (levels_of e)
        ⧺ hint o)
      400

abbrev pub entry_of : Catalogue → String → Option Model
entry_of c m = find (has_name m) c.models

abbrev pub assert_effort : Catalogue → Option String → Option String → Origin → Checked
assert_effort c m none o = ok tt
assert_effort c none (some effort) o = ok tt
assert_effort c (some m) (some effort) o =
    if effort == "" || m == ""
    then ok tt
    else if refuses (entry_of c m) effort
    then err (effort_fault (entry_of c m) m effort o)
    else ok tt

-- `#assertModelChoice`, with a catalogue that can be read.
unfoldable pub assert_model_choice : Catalogue → Option String → Option String → Origin → Checked
assert_model_choice c m effort o = assert_known_model c m >>= λ known. assert_effort c m effort o

-- A model that is named is listed; an empty name counts as none.
abbrev pub Listed : Catalogue → Option String → Type 0
Listed c none = Unit {0}
Listed c (some m) = (m ≡ "") ⊎ (includes c.ids m ≡ true)

-- The model does not deny efforts, and if it lists levels, the effort is one of them.
pub record Allows (k : Model) (effort : String) : Type 0 where
  pub has_efforts : k.denies_effort ≡ false
  pub among : (ls : List String) → k.levels ≡ some ls → includes ls effort ≡ true

-- The first of the models with the name allows the effort, if there is one.
abbrev pub FirstAllows : String → String → List Model → Type 0
FirstAllows m effort [] = Unit {0}
FirstAllows m effort (k ∷ ks) =
    ((k.model_id ≡ some m) × Allows k effort)
    ⊎ ((¬ (k.model_id ≡ some m)) × FirstAllows m effort ks)

abbrev pub Suited : Catalogue → Option String → Option String → Type 0
Suited c (some m) (some e) = (e ≡ "") ⊎ ((m ≡ "") ⊎ FirstAllows m e c.models)
Suited c m e = Unit {0}

known_iff : (c : Catalogue) (m : Option String) → (assert_known_model c m ≡ ok tt) ↔ Listed c m
known_iff c none = (λ h. tt, λ h. refl)
known_iff c (some m) = ground (arith, eq_iff m "")

has_name_iff : (m : String) (k : Model) → (has_name m k ≡ true) ↔ (k.model_id ≡ some m)
has_name_iff m k = by_id k.model_id
  where
    by_id :
        (o : Option String)
        → ((elim o as (λ x. Bool) [ none ↦ false | some i ↦ i == m ]) ≡ true) ↔ (o ≡ some m)
    by_id none = (λ h. absurd (cc), λ h. absurd (cc))
    by_id (some i) = (λ h. ap some ((eq_iff i m).0 h), λ h. (eq_iff i m).1 (cc))

lacks_iff :
    (o : Option (List String)) (e : String)
    → (lacks o e ≡ false) ↔ ((ls : List String) → o ≡ some ls → includes ls e ≡ true)
lacks_iff none e = (λ h ls q. absurd (cc), λ h. refl)
lacks_iff (some ls) e = (
  λ h ks q. subst (λ z. includes z e ≡ true) (same ks q) (ground (arith, h)),
  λ h. ap not (h ls refl),
)
  where
    same : (ks : List String) → some ls ≡ some ks → ls ≡ ks
    same ks q = cc

or_false : (a b : Bool) → ((a || b) ≡ false) ↔ ((a ≡ false) × (b ≡ false))
or_false true b = (λ h. absurd (cc), λ h. absurd (cc))
or_false false b = (λ h. (refl, h), λ h. h.1)

refuses_iff : (k : Model) (e : String) → (refuses (some k) e ≡ false) ↔ Allows k e
refuses_iff k e = (
  λ h.
      let both = (or_false k.denies_effort (lacks k.levels e)).0 h in
      record { has_efforts = both.0; among = (lacks_iff k.levels e).0 both.1 },
  λ q.
      (or_false k.denies_effort (lacks k.levels e)).1
        (q.has_efforts, (lacks_iff k.levels e).1 q.among),
)

first_iff :
    (m e : String) (ks : List Model)
    → (refuses (find (has_name m) ks) e ≡ false) ↔ FirstAllows m e ks
first_iff m e [] = (λ h. tt, λ h. refl)
first_iff m e (k ∷ ks) = elim (Bool-cases (has_name m k)) [
  | inl named ↦ rw (if_true (has_name m k) (some k) (find (has_name m) ks) named) (
    λ h. inl ((has_name_iff m k).0 named, (refuses_iff k e).0 h),
    λ q. elim q [
      | inl (_, allows) ↦ (refuses_iff k e).1 allows
      | inr (differs, _) ↦ absurd (differs ((has_name_iff m k).0 named))
    ],
  )
  | inr other ↦ rw (if_false (has_name m k) (some k) (find (has_name m) ks) other) (
    λ h. inr (λ same. true_false ((has_name_iff m k).1 same) other, (first_iff m e ks).0 h),
    λ q. elim q [
      | inl (same, _) ↦ absurd (true_false ((has_name_iff m k).1 same) other)
      | inr (_, rest) ↦ (first_iff m e ks).1 rest
    ],
  )
]
  where
    true_false : {b : Bool} → b ≡ true → b ≡ false → ⊥
    true_false p q = cc

effort_iff :
    (c : Catalogue) (m e : Option String) (o : Origin)
    → (assert_effort c m e o ≡ ok tt) ↔ Suited c m e
effort_iff c none none o = (λ h. tt, λ h. refl)
effort_iff c none (some e) o = (λ h. tt, λ h. refl)
effort_iff c (some m) none o = (λ h. tt, λ h. refl)
effort_iff c (some m) (some e) o = (
  λ h. elim (Bool-cases (e == "")) [
    | inl none' ↦ inl ((eq_iff e "").0 none')
    | inr some' ↦ elim (Bool-cases (m == "")) [
      | inl none' ↦ inr (inl ((eq_iff m "").0 none'))
      | inr named ↦ inr (inr ((first_iff m e c.models).0 (ground (arith, h, some', named))))
    ]
  ],
  λ q. elim q [
    | inl same ↦ ground (arith, eq_iff e "", same)
    | inr (inl same) ↦ ground (arith, eq_iff m "", same)
    | inr (inr first) ↦
        (let allowed' = (first_iff m e c.models).1 first in ground (arith, allowed'))
  ],
)

no_success {ℓ} : {B : Type ℓ} {e : RuntimeFault} → ◌≡◌ {A = Checked} (err e) (ok tt) → B
no_success h = cc

both_iff : (r s : Checked) → ((r >>= λ known. s) ≡ ok tt) ↔ ((r ≡ ok tt) × (s ≡ ok tt))
both_iff (err e) s = (λ h. no_success h, λ q. no_success q.0)
both_iff (ok known) s = (λ h. (refl, h), λ q. q.1)

-- A model and an effort pass exactly when the model, if one is named, is in the catalogue, and, if both are
-- named, the first entry of that model, if there is one, supports efforts and does not list levels that
-- leave this one out.
pub assert_model_choice-passes :
    (c : Catalogue) (m e : Option String) (o : Origin)
    → (assert_model_choice c m e o ≡ ok tt) ↔ (Listed c m × Suited c m e)
unfolding assert_model_choice
assert_model_choice-passes c m e o =
    let both = both_iff (assert_known_model c m) (assert_effort c m e o) in
    let known = known_iff c m in
    let suited = effort_iff c m e o in
    (λ h. (known.0 (both.0 h).0, suited.0 (both.0 h).1), λ q. both.1 (known.1 q.0, suited.1 q.1))
