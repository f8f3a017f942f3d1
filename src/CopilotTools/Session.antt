-- ===== src/CopilotTools/Session.antt =====
-- `prepareCopilotToolSession`: the catalog that a session reports against the one that was selected. The
-- controls are the SDK's: what they answer is a parameter, and what they are told is left out.
use floe_runtime.Prelude.{
  ◌≡◌, refl, sym, ◌∙◌, ◌⊎◌, inl, inr, String, Bool, true, false, not, Option, none, some, List, [],
  ◌∷◌, ◌++◌, if◌then◌else◌, if_both, ◌==◌, eq_iff, ◌&&◌, ◌||◌, includes, Bool-cases, ap, ◌↔◌, arith,
}
use floe_runtime.Texts.{is_empty, insert, sort}
use floe_runtime.CopilotTools.Patch.{Attempt, returned, raise}
use floe_runtime.CopilotTools.Selection.{Selection}

-- What `setMode` answers, and the names of the initialized tools, if they are an array.
pub record Controls : Type 0 where
  pub present : Bool
  pub success : Option Bool
  pub mode : Option String
  pub tools : Option (List (Option String))

pub record Prepared : Type 0 where
  pub catalog : Option String
  pub tools : List String

abbrev pub refused : Option Bool → Bool
refused (some false) = true
refused _ = false

abbrev another_mode : Option String → Bool
another_mode none = false
another_mode (some m) = not (is_empty m) && not (m == "manual")

-- `new Set(names.filter(…))`
abbrev distinct : List String → List (Option String) → List String
distinct seen [] = seen
distinct seen (none ∷ ns) = distinct seen ns
distinct seen (some n ∷ ns) = distinct (if includes seen n then seen else seen ++ n ∷ []) ns

-- `sameNames`
abbrev pub same_names : List String → List String → Bool
same_names [] [] = true
same_names (x ∷ xs) (y ∷ ys) = x == y && same_names xs ys
same_names _ _ = false

abbrev pub matched : List (String × List String) → List String → List String
matched [] actual = []
matched ((catalog, names) ∷ es) actual =
    if same_names names actual then catalog ∷ matched es actual else matched es actual

abbrev drift_fault {ℓ} : {V : Type ℓ} → Attempt V
drift_fault =
    raise "copilot_tool_catalog_drift" "Copilot tool catalog drifted from the pinned manifest."

-- An allowlist of shared tools matches both catalogs, so that neither is named.
abbrev pub prepared_as : List String → List String → Attempt Prepared
prepared_as actual [] = drift_fault
prepared_as actual (c ∷ []) = returned (record { catalog = some c; tools = actual })
prepared_as actual (c ∷ d ∷ cs) = returned (record { catalog = none; tools = actual })

abbrev checked_tools : Selection → Option (List (Option String)) → Attempt Prepared
checked_tools s none =
    raise "copilot_tool_catalog_unavailable" "Copilot did not return its initialized tool catalog."
checked_tools s (some names) =
    let actual = sort (distinct [] names) in prepared_as actual (matched s.expected actual)

unfoldable pub prepare_session : Selection → Controls → Attempt Prepared
unfolding sort
prepare_session s c =
    if c.present
    then if refused c.success || another_mode c.mode
      then raise "copilot_permission_mode_unsafe" "Copilot refused manual permission mode."
      else checked_tools s c.tools
    else raise "copilot_tool_catalog_unavailable"
        "Copilot did not expose its session tool and permission controls."

same_names-equal : (xs ys : List String) → same_names xs ys ≡ true → xs ≡ ys
same_names-equal [] [] h = refl
same_names-equal (x ∷ xs) (y ∷ ys) h = elim (Bool-cases (x == y)) [
  | inl same ↦
      ap (λ z. z ∷ xs) ((eq_iff x y).0 same) ∙ ap (◌∷◌ y) (same_names-equal xs ys (rw same at h))
  | inr differs ↦ absurd (cc (rw differs at h))
]
same_names-equal [] (y ∷ ys) h = absurd (cc)
same_names-equal (x ∷ xs) [] h = absurd (cc)

-- The list of names stands among the catalogs.
abbrev pub IsExpected : List (String × List String) → List String → Type 0
IsExpected [] names = ⊥
IsExpected ((catalog, expected) ∷ es) names = (expected ≡ names) ⊎ IsExpected es names

matched-IsExpected :
    (es : List (String × List String)) (actual : List String) (c : String) (cs : List String)
    → matched es actual ≡ c ∷ cs
    → IsExpected es actual
matched-IsExpected [] actual c cs = λ h. absurd (cc)
matched-IsExpected ((catalog, names) ∷ es) actual c cs =
    if_both (λ r. r ≡ c ∷ cs → (names ≡ actual) ⊎ IsExpected es actual) (same_names names actual) _
      _ (λ same _. inl (same_names-equal names actual same))
      (λ _ q. inr (matched-IsExpected es actual c cs q))

prepared_as-matched :
    (actual ms : List String) (p : Prepared)
    → prepared_as actual ms ≡ returned p
    → (p.tools ≡ actual) × ((c : String) × (cs : List String) × (ms ≡ c ∷ cs))
prepared_as-matched actual [] p h = absurd (cc)
prepared_as-matched actual (c ∷ []) p h = (sym (ap tools_of (injective _ p h)), (c, [], refl))
  where
    tools_of : Prepared → List String
    tools_of q = q.tools

    injective : (a b : Prepared) → returned a ≡ returned b → a ≡ b
    injective a b q = cc
prepared_as-matched actual (c ∷ d ∷ cs) p h =
    (sym (ap tools_of (injective _ p h)), (c, d ∷ cs, refl))
  where
    tools_of : Prepared → List String
    tools_of q = q.tools

    injective : (a b : Prepared) → returned a ≡ returned b → a ≡ b
    injective a b q = cc

-- The session reports a tool of that name; an entry without a name is none.
abbrev pub Reports : List (Option String) → String → Type 0
Reports [] n = ⊥
Reports (o ∷ os) n = (o ≡ some n) ⊎ Reports os n

includes-append :
    (xs : List String) (y n : String) → includes (xs ++ y ∷ []) n ≡ (includes xs n || y == n)
includes-append [] y n = ground arith
includes-append (x ∷ xs) y n = ground (arith, includes-append xs y n)

includes-insert :
    (s : String) (ts : List String) (n : String)
    → includes (insert s ts) n ≡ (s == n || includes ts n)
includes-insert s [] n = refl
includes-insert s (t ∷ ts) n = ground (arith, includes-insert s ts n)

includes-sort : (ns : List String) (n : String) → includes (sort ns) n ≡ includes ns n
unfolding sort
includes-sort [] n = refl
includes-sort (s ∷ ns) n =
    includes-insert s (sort ns) n ∙ ap (λ b. s == n || b) (includes-sort ns n)

kept-name :
    (seen : List String) (m n : String)
    → includes (if includes seen m then seen else seen ++ m ∷ []) n ≡ (includes seen n || m == n)
kept-name seen m n = elim (Bool-cases (includes seen m)) [
  | inl there ↦ ground (arith, there, eq_iff m n, same_name)
  | inr new ↦ ground (arith, new, includes-append seen m n)
]
  where
    same_name : m ≡ n → includes seen n ≡ includes seen m
    same_name e = ap (includes seen) (sym e)

distinct-Reports :
    (seen : List String) (os : List (Option String)) (n : String)
    → (includes (distinct seen os) n ≡ true) ↔ ((includes seen n ≡ true) ⊎ Reports os n)
distinct-Reports seen [] n = (λ h. inl h, λ q. elim q [ inl h ↦ h | inr no' ↦ absurd no' ])
distinct-Reports seen (none ∷ os) n =
    let ih = distinct-Reports seen os n in
    (
      λ h. elim (ih.0 h) [ inl s ↦ inl s | inr r ↦ inr (inr r) ],
      λ q. elim q [ inl s ↦ ih.1 (inl s) | inr (inl e) ↦ absurd (cc) | inr (inr r) ↦ ih.1 (inr r) ],
    )
distinct-Reports seen (some m ∷ os) n =
    let ih = distinct-Reports (if includes seen m then seen else seen ++ m ∷ []) os n in
    let kept = kept-name seen m n in
    (
      λ h. elim (ih.0 h) [ inl s ↦ either (includes seen n) (sym kept ∙ s) | inr r ↦ inr (inr r) ],
      λ q. elim q [
        | inl s ↦ ih.1 (inl (ground (arith, kept, s)))
        | inr (inl e) ↦ ih.1 (inl (ground (arith, kept, (eq_iff m n).1 (named e))))
        | inr (inr r) ↦ ih.1 (inr r)
      ],
    )
  where
    named : some m ≡ some n → m ≡ n
    named e = cc

    either : (a : Bool) → (a || m == n) ≡ true → (a ≡ true) ⊎ ((some m ≡ some n) ⊎ Reports os n)
    either true h = inl refl
    either false h = inr (inl (ap some ((eq_iff m n).0 h)))

-- A mode that Copilot may report: none, an empty text, or the manual one.
abbrev pub IsManual : Option String → Type 0
IsManual none = Unit {0}
IsManual (some m) = (m ≡ "") ⊎ (m ≡ "manual")

another_mode-IsManual : (o : Option String) → another_mode o ≡ false → IsManual o
unfolding is_empty
another_mode-IsManual none h = tt
another_mode-IsManual (some m) h = ground (arith, eq_iff m "manual", h)

-- What a session is when it is prepared.
pub record Ready (s : Selection) (c : Controls) (p : Prepared) : Type 0 where
  pub there : c.present ≡ true
  pub not_refused : ¬ (c.success ≡ some false)
  pub manual : IsManual c.mode
  pub reported : List (Option String)
  pub listed : c.tools ≡ some reported
  pub all_reported : (n : String) → (includes p.tools n ≡ true) ↔ Reports reported n
  pub is_expected : IsExpected s.expected p.tools

checked_tools-Ready :
    (s : Selection) (c : Controls) (p : Prepared) (o : Option (List (Option String)))
    → c.tools ≡ o
    → c.present ≡ true
    → refused c.success ≡ false
    → another_mode c.mode ≡ false
    → checked_tools s o ≡ returned p
    → Ready s c p
checked_tools-Ready s c p none e there safe manual h = absurd (cc)
checked_tools-Ready s c p (some names) e there safe manual h =
    let actual = sort (distinct [] names) in
    let (q, (d, ds, m)) = prepared_as-matched actual (matched s.expected actual) p h in
    let same = λ (n : String). ap (λ l. includes l n) q ∙ includes-sort (distinct [] names) n in
    record {
      there = there;
      not_refused = not_false c.success safe;
      manual = another_mode-IsManual c.mode manual;
      reported = names;
      listed = e;
      all_reported = λ n.
          let iff = distinct-Reports [] names n in
          (
            λ k. elim (iff.0 (sym (same n) ∙ k)) [ inl no' ↦ absurd (cc) | inr r ↦ r ],
            λ r. same n ∙ iff.1 (inr r),
          );
      is_expected = rw q (matched-IsExpected s.expected actual d ds m);
    }
  where
    not_false : (b : Option Bool) → refused b ≡ false → ¬ (b ≡ some false)
    not_false none k x = cc
    not_false (some true) k x = cc
    not_false (some false) k x = cc

-- A session is prepared only if its controls are there, Copilot did not refuse the manual mode and reports no
-- other, and it reports its tools; and then the prepared tools have exactly the names that it reports, and
-- are the list that the selection expects in one of the catalogs.
pub prepare_session-IsExpected :
    (s : Selection) (c : Controls) (p : Prepared) → prepare_session s c ≡ returned p → Ready s c p
unfolding prepare_session
prepare_session-IsExpected s c p =
    if_both P c.present _ _
      (λ there.
        if_both P (refused c.success || another_mode c.mode) _ _ (λ _ h. absurd (cc))
          (λ safe h.
            (let both = neither (refused c.success) (another_mode c.mode) safe in
              checked_tools-Ready s c p c.tools refl there both.0 both.1 h)))
      (λ _ h. absurd (cc))
  where
    P : Attempt Prepared → Type 0
    P r = r ≡ returned p → Ready s c p

    neither : (a b : Bool) → (a || b) ≡ false → (a ≡ false) × (b ≡ false)
    neither true b h = cc
    neither false b h = (refl, h)
