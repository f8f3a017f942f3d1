-- ===== src/SystemMessage/Replacing.antt =====
-- A layer in the mode `replace` over what earlier layers built up.
use floe_runtime.Prelude.{
  ◌≡◌, refl, ◌∙◌, inl, inr, String, true, false, none, some, List, [], ◌∷◌, if_both, or_else, ◌==◌,
  includes, Bool-cases,
}
use floe_runtime.Prelude.Map
use floe_runtime.Prelude.Map.{Map}
use floe_runtime.Texts.{is_empty}
use floe_runtime.SystemMessage.{
  known_sections, Section, vendor, removed, Override, replace_mode, Layer, Merged, apply_override,
  apply_all, remove_all, merge_layer,
}

get-remove_all_kept :
    (ss : Map Section) (id : String) (ids : List String)
    → Map.get ss id ≡ some removed
    → Map.get (remove_all ss ids) id ≡ some removed
get-remove_all_kept ss id [] h = h
get-remove_all_kept ss id (j ∷ ids) h = get-remove_all_kept (Map.set ss j removed) id ids (
    Map.get-set j id removed ss
    ∙ if_both (λ o. o ≡ some removed) (j == id) _ _ (λ _. refl) (λ _. h))

get-remove_all :
    (ss : Map Section) (id : String) (ids : List String)
    → includes ids id ≡ true
    → Map.get (remove_all ss ids) id ≡ some removed
get-remove_all ss id [] h = absurd (cc)
get-remove_all ss id (j ∷ ids) h = elim (Bool-cases (j == id)) [
  | inl same ↦
      get-remove_all_kept (Map.set ss j removed) id ids (Map.get-set j id removed ss ∙ rw same refl)
  | inr differs ↦ get-remove_all (Map.set ss j removed) id ids (rw differs at h)
]

get-apply_all :
    (ss : Map Section) (os : Map Override) (id : String)
    → Map.get os id ≡ none
    → Map.get (apply_all ss os) id ≡ Map.get ss id
unfolding Map.get
get-apply_all ss [] id h = refl
get-apply_all ss ((j, o) ∷ os) id h = elim (Bool-cases (j == id)) [
  | inl same ↦ absurd (cc (rw same at h))
  | inr differs ↦
      get-apply_all (Map.set ss j (apply_override (or_else (Map.get ss j) vendor) o)) os id
        (rw differs at h)
      ∙ Map.get-set j id _ ss
      ∙ rw differs refl
]

-- After a layer in the mode `replace` that has the content `text`, which is not empty, that content is
-- all that is left of the layers' contents, and every known section is removed unless the layer itself
-- overrides it, whatever earlier layers had put there.
pub merge_layer-replaces :
    (m : Merged) (overrides : Map Override) (text id : String)
    → includes known_sections id ≡ true
    → Map.get overrides id ≡ none
    → let layer : Layer = record {
      mode = some replace_mode;
      content = some text;
      sections = overrides;
    } in
      (Map.get (merge_layer m (some layer)).sections id ≡ some removed)
      × (is_empty text ≡ false → (merge_layer m (some layer)).content ≡ text ∷ [])
merge_layer-replaces m overrides text id known fresh = (
  get-apply_all (remove_all m.sections known_sections) overrides id fresh
      ∙ get-remove_all m.sections id known_sections known,
  λ full. rw full refl,
)
