-- ===== src/Schema/Extract.antt =====
-- `extractStructuredOutput`: the candidates for a report in an agent's reply, and the choice among them.
-- A text is the list of its UTF-16 code units. `JSON.parse`, and the contents of the fenced blocks, which
-- a regular expression finds, are parameters.
use floe_runtime.Prelude.{
  ℕ, zero, suc, ◌-◌, ◌≤◌, ◌≡◌, refl, Bool, true, false, Option, none, some, List, [], ◌∷◌, ◌++◌,
  arith, nat_eq, if◌then◌else◌, if_both, length, All, ap, sym, subst, ◌∙◌,
}
use floe_runtime.Json.{Value}
use floe_runtime.Errors.{RuntimeFault, Result, ok, err, fault}
use floe_runtime.Schema.Validate.{Schema, Check, valid, invalid, validate}

-- Where the scan of one candidate stands: in a quoted text, and after a backslash in it.
pub record Scanner : Type 0 where
  pub depth : ℕ
  pub in_string : Bool
  pub escaped : Bool

abbrev pub fresh : Scanner
fresh = record { depth = 0; in_string = false; escaped = false }

abbrev in_text : Scanner → ℕ → Scanner
in_text s c =
    if s.escaped
    then record s { escaped = false }
    else if nat_eq c b'\\'
    then record s { escaped = true }
    else if nat_eq c b'"'
    then record s { in_string = false }
    else s

abbrev outside : Scanner → ℕ → Scanner
outside s c =
    if nat_eq c b'"'
    then record s { in_string = true }
    else if nat_eq c b'{'
    then record s { depth = suc s.depth }
    else if nat_eq c b'}'
    then record s { depth = s.depth - 1 }
    else s

-- One unit of the inner loop.
unfoldable pub scan_unit : Scanner → ℕ → Scanner
scan_unit s c = if s.in_string then in_text s c else outside s c

-- Does the unit close the candidate?
abbrev pub closes : Scanner → ℕ → Bool
closes s c = if s.in_string then false else (if nat_eq c b'}' then nat_eq s.depth 1 else false)

-- The scan from an opening brace: the candidate and what follows it, unless the braces do not balance.
unfoldable pub scan_from : Scanner → List ℕ → List ℕ → Option (List ℕ × List ℕ)
unfolding scan_unit
scan_from s taken [] = none
scan_from s taken (c ∷ cs) =
    let rest = scan_from (scan_unit s c) (taken ++ c ∷ []) cs in
    if closes s c then some (taken ++ c ∷ [], cs) else rest

-- `text.indexOf('{', fromIndex)`
unfoldable pub from_brace : List ℕ → List ℕ
from_brace [] = []
from_brace (c ∷ cs) = if nat_eq c b'{' then c ∷ cs else from_brace cs

-- `balancedCandidates`, on fuel: each candidate takes units off the text.
abbrev pub next_candidate : List ℕ → Option (List ℕ × List ℕ)
next_candidate [] = none
next_candidate (c ∷ cs) = scan_from fresh [] (c ∷ cs)

unfoldable pub balanced : ℕ → List ℕ → List (List ℕ)
unfolding scan_from from_brace
balanced zero text = []
balanced (suc n) text = elim (next_candidate (from_brace text)) [
  | none ↦ []
  | some p ↦ p.0 ∷ balanced n p.1
]

unfoldable pub balanced_candidates : List ℕ → List (List ℕ)
unfolding balanced
balanced_candidates text = balanced (length text) text

from_brace-shorter : (text : List ℕ) → length (from_brace text) ≤ length text
unfolding from_brace
from_brace-shorter [] = omega arith
from_brace-shorter (c ∷ cs) =
    if_both (λ t. length t ≤ suc (length cs)) (nat_eq c b'{') (c ∷ cs) (from_brace cs)
      (λ _. omega arith) (λ _. omega (arith, from_brace-shorter cs))

abbrev Shorter : List ℕ → Option (List ℕ × List ℕ) → Type 0
Shorter cs none = Unit {0}
Shorter cs (some p) = suc (length p.1) ≤ length cs

Shorter-cons :
    (c : ℕ) (cs : List ℕ) (r : Option (List ℕ × List ℕ)) → Shorter cs r → Shorter (c ∷ cs) r
Shorter-cons c cs none h = tt
Shorter-cons c cs (some p) h = omega arith

scan_from-Shorter : (s : Scanner) (taken cs : List ℕ) → Shorter cs (scan_from s taken cs)
unfolding scan_from
scan_from-Shorter s taken [] = tt
scan_from-Shorter s taken (c ∷ cs) =
    if_both (Shorter (c ∷ cs)) (closes s c) _ _ (λ _. omega arith)
      (λ _. Shorter-cons c cs _ (scan_from-Shorter (scan_unit s c) (taken ++ c ∷ []) cs))

next_candidate-Shorter : (text : List ℕ) → Shorter text (next_candidate text)
next_candidate-Shorter [] = tt
next_candidate-Shorter (c ∷ cs) = scan_from-Shorter fresh [] (c ∷ cs)

balanced_empty : (n : ℕ) (text : List ℕ) → length text ≤ 0 → balanced n text ≡ []
unfolding balanced
balanced_empty zero text h = refl
balanced_empty (suc n) [] h = refl
balanced_empty (suc n) (c ∷ cs) h = absurd (omega arith)

-- Any two amounts of fuel that are at least the length of the text find the same candidates.
balanced_same :
    (n m : ℕ) (text : List ℕ)
    → length text ≤ n
    → length text ≤ m
    → balanced n text ≡ balanced m text
unfolding balanced
balanced_same zero zero text h k = refl
balanced_same zero (suc m) text h k = sym (balanced_empty (suc m) text h)
balanced_same (suc n) zero text h k = balanced_empty (suc n) text k
balanced_same (suc n) (suc m) text h k =
    by_next (balanced_same n m) (next_candidate (from_brace text))
      (next_candidate-Shorter (from_brace text))
  where
    by_next :
        ((t : List ℕ) → length t ≤ n → length t ≤ m → balanced n t ≡ balanced m t)
        → (r : Option (List ℕ × List ℕ)) → Shorter (from_brace text) r
        → elim r [ none ↦ [] | some p ↦ p.0 ∷ balanced n p.1 ]
          ≡ elim r [ none ↦ [] | some p ↦ p.0 ∷ balanced m p.1 ]
    by_next ih none b = refl
    by_next ih (some p) b =
        ap (◌∷◌ p.0)
          (ih p.1 (omega (arith, from_brace-shorter text)) (omega (arith, from_brace-shorter text)))

-- More fuel than the length of the text finds no further candidate, so that the scan of the source,
-- which has no bound, returns exactly these.
pub balanced_candidates-enough :
    (n : ℕ) (text : List ℕ) → length text ≤ n → balanced n text ≡ balanced_candidates text
unfolding balanced_candidates
balanced_candidates-enough n text h = balanced_same n (length text) text h (omega arith)

module _ (parse : List ℕ → Option Value) (fenced : List ℕ → List (List ℕ)) (s : Schema) where
  abbrev accepted : Value → Check → Option Value
  accepted v valid = some v
  accepted v (invalid l r) = none

  abbrev parsed : Option Value → Option Value
  parsed none = none
  parsed (some v) = accepted v (validate s [] v)

  -- `tryParse`
  unfoldable pub try_parse : List ℕ → Option Value
  try_parse candidate = parsed (parse candidate)

  abbrev or_next : Option Value → Option Value → Option Value
  or_next (some v) rest = some v
  or_next none rest = rest

  -- The first candidate that parses and validates.
  unfoldable pub first_accepted : List (List ℕ) → Option Value
  unfolding try_parse
  first_accepted [] = none
  first_accepted (c ∷ cs) = or_next (try_parse c) (first_accepted cs)

  abbrev pub no_report : RuntimeFault
  no_report = fault "invalid_report" "The agent did not return a valid report." 502

  abbrev reported : Option Value → Result Value
  reported none = err no_report
  reported (some v) = ok v

  -- `extractStructuredOutput`, of the trimmed reply. The text of the fault is shortened.
  unfoldable pub extract : List ℕ → Result Value
  unfolding try_parse first_accepted balanced_candidates
  extract raw = reported (
      or_next (try_parse raw)
        (or_next (first_accepted (fenced raw)) (first_accepted (balanced_candidates raw))))

  -- The order in which candidates are tried.
  abbrev pub candidates : List ℕ → List (List ℕ)
  candidates raw = raw ∷ (fenced raw ++ balanced_candidates raw)

  -- A list of candidates is cut at the first that is accepted: those before it are refused.
  pub record Accepts (cs : List (List ℕ)) (v : Value) : Type 0 where
    pub refused : List (List ℕ)
    pub candidate : List ℕ
    pub others : List (List ℕ)
    pub cut : cs ≡ refused ++ candidate ∷ others
    pub none_before : All (λ c. try_parse c ≡ none) refused
    pub reads : parse candidate ≡ some v
    pub conforms : validate s [] v ≡ valid

  accepted-reads :
      (c : List ℕ) (v : Value) (o : Option Value)
      → parse c ≡ o
      → parsed o ≡ some v
      → (parse c ≡ some v) × (validate s [] v ≡ valid)
  accepted-reads c v none e h = absurd (cc)
  accepted-reads c v (some w) e h = by_check (validate s [] w) refl h
    where
      by_check :
          (k : Check)
          → validate s [] w ≡ k
          → accepted w k ≡ some v
          → (parse c ≡ some v) × (validate s [] v ≡ valid)
      by_check valid q r =
          let same : w ≡ v = cc in (e ∙ ap some same, subst (λ u. validate s [] u ≡ valid) same q)
      by_check (invalid l t) q r = absurd (cc)

  first_accepted-Accepts :
      (cs : List (List ℕ)) (v : Value) → first_accepted cs ≡ some v → Accepts cs v
  unfolding first_accepted try_parse
  first_accepted-Accepts [] v h = absurd (cc)
  first_accepted-Accepts (c ∷ cs) v h = by_try (first_accepted-Accepts cs v) (try_parse c) refl h
    where
      by_try :
          (first_accepted cs ≡ some v → Accepts cs v)
          → (o : Option Value) → try_parse c ≡ o
          → or_next o (first_accepted cs) ≡ some v
          → Accepts (c ∷ cs) v
      by_try later (some w) e q =
          let (r, k) = accepted-reads c v (parse c) refl (e ∙ q) in
          record {
            refused = [];
            candidate = c;
            others = cs;
            cut = refl;
            none_before = tt;
            reads = r;
            conforms = k;
          }
      by_try later none e q =
          let a = later q in
          record {
            refused = c ∷ a.refused;
            candidate = a.candidate;
            others = a.others;
            cut = ap (◌∷◌ c) a.cut;
            none_before = (e, a.none_before);
            reads = a.reads;
            conforms = a.conforms;
          }

  first_accepted-append :
      (cs ds : List (List ℕ))
      → first_accepted (cs ++ ds) ≡ or_next (first_accepted cs) (first_accepted ds)
  unfolding first_accepted
  first_accepted-append [] ds = refl
  first_accepted-append (c ∷ cs) ds = by_try (first_accepted-append cs ds) (try_parse c)
    where
      by_try :
          first_accepted (cs ++ ds) ≡ or_next (first_accepted cs) (first_accepted ds)
          → (o : Option Value)
          → or_next o (first_accepted (cs ++ ds))
            ≡ or_next (or_next o (first_accepted cs)) (first_accepted ds)
      by_try later (some w) = refl
      by_try later none = later

  -- A report that is extracted is what `JSON.parse` makes of a candidate, it validates against the
  -- schema, and of the candidates, which are the whole reply, then the fenced blocks, then the balanced
  -- objects, each in order, no earlier one both parses and validates.
  pub extract-first : (raw : List ℕ) (v : Value) → extract raw ≡ ok v → Accepts (candidates raw) v
  unfolding extract first_accepted
  extract-first raw v h = first_accepted-Accepts (candidates raw) v (
      ap (or_next (try_parse raw)) (first_accepted-append (fenced raw) (balanced_candidates raw))
      ∙ reported-some _ h)
    where
      reported-some : (o : Option Value) → reported o ≡ ok v → o ≡ some v
      reported-some none q = absurd (cc)
      reported-some (some w) q = ap some (cc)
