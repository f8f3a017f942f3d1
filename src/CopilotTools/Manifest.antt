-- ===== src/CopilotTools/Manifest.antt =====
-- A call that is governed is of a tool of the pinned manifest, and carries the operation that it has there.
use floe_runtime.Prelude.{
  ◌≡◌, refl, subst, ap, sym, ◌∙◌, if_both, String, Bool, true, false, Option, none, some, List, [],
  ◌∷◌, ◌==◌, eq_iff, includes,
}
use floe_runtime.Prelude.Map
use floe_runtime.CopilotTools.Patch.{Attempt, thrown, returned, ◌>>=◌}
use floe_runtime.Texts.{is_blank}
use floe_runtime.CopilotTools.Facts.{
  Input, Call, Descriptor, normalize_call, require_text, require_string, as_value, governed_call,
  tool_facts,
}
use floe_runtime.CopilotTools.Selection.{
  Selection, manifest_of, Available, Filter, Collected, register_tools, requested,
  governed_builtins, source_of, add_builtin, add_entry, collect, selected, resolve_selection,
}

bound {ℓ κ} :
    {V : Type ℓ} {W : Type κ} (a : Attempt V) (next : V → Attempt W) (w : W)
    → (a >>= next) ≡ returned w
    → (v : V) × (a ≡ returned v) × (next v ≡ returned w)
bound (thrown problem) next w h = absurd (cc)
bound (returned v) next w h = (v, refl, h)

require_text-same : (s field tool t : String) → require_text s field tool ≡ returned t → s ≡ t
require_text-same s field tool t =
    if_both (λ r. r ≡ returned t → s ≡ t) (is_blank s) _ _ (λ _ q. absurd (cc)) (λ _ q. cc)

tool_name-required :
    (o : Option String) (field tool t : String)
    → require_string (as_value o) field tool ≡ returned t
    → o ≡ some t
tool_name-required none field tool t h = absurd (cc)
tool_name-required (some s) field tool t h = ap some (require_text-same s field tool t h)

returned-injective : (a b : Call) → returned a ≡ returned b → a ≡ b
returned-injective a b h = cc

governed_call-governed :
    (input : Input) (session : Option String) (id tool : String) (o : Option Descriptor) (c : Call)
    → governed_call input session id tool o ≡ returned c
    → (d : Descriptor) × (o ≡ some d) × (c.operation_id ≡ d.operation_id) × (c.title ≡ tool)
governed_call-governed input session id tool none c h = absurd (cc)
governed_call-governed input session id tool (some d) c h =
    let (facts, _, q) = bound (tool_facts tool input.tool_args) _ c h in
    (
      d,
      refl,
      sym (ap operation (returned-injective _ c q)),
      sym (ap title (returned-injective _ c q)),
    )
  where
    operation : Call → String
    operation k = k.operation_id

    title : Call → String
    title k = k.title

-- A call that can be normalized is of a tool that the selection governs, and carries its operation.
normalize_call-found :
    (builtins : Map.Map Descriptor) (input : Input) (session : Option String) (id : String)
    (c : Call)
    → normalize_call builtins input session id ≡ returned c
    → (d : Descriptor) × (Map.get builtins c.title ≡ some d)
      × (c.operation_id ≡ d.operation_id)
      × (input.tool_name ≡ some c.title)
unfolding normalize_call
normalize_call-found builtins input session id c h =
    let (tool, named, q) =
      bound (require_string (as_value input.tool_name) "toolName" "unknown") _ c h in
    let (d, known, operation, title) =
      governed_call-governed input session id tool (Map.get builtins tool) c q in
    (
      d,
      ap (Map.get builtins) title ∙ known,
      operation,
      tool_name-required input.tool_name "toolName" "unknown" tool named ∙ ap some (sym title),
    )

-- Every built-in of a selection is the manifest's.
abbrev FromManifest : Map.Map Descriptor → Map.Map Descriptor → Type 0
FromManifest manifest bs =
    (n : String) (d : Descriptor) → Map.get bs n ≡ some d → Map.get manifest n ≡ some d

set-FromManifest :
    (manifest bs : Map.Map Descriptor) (name : String) (b : Descriptor)
    → Map.get manifest name ≡ some b
    → FromManifest manifest bs
    → FromManifest manifest (Map.set bs name b)
set-FromManifest manifest bs name b e h n d k =
    if_both (λ o. o ≡ some d → Map.get manifest n ≡ some d) (name == n) (some b) (Map.get bs n)
      (λ same q. ap (Map.get manifest) (sym ((eq_iff name n).0 same)) ∙ e ∙ q) (λ other. h n d)
      (sym (Map.get-set name n b bs) ∙ k)

-- What is collected, if nothing is refused.
abbrev Collects : Map.Map Descriptor → Attempt Collected → Type 0
Collects manifest (thrown problem) = Unit {0}
Collects manifest (returned (fs, bs)) = FromManifest manifest bs

add_builtin-Collects :
    (manifest bs : Map.Map Descriptor) (fs : List String) (name : String) (o : Option Descriptor)
    → Map.get manifest name ≡ o
    → FromManifest manifest bs
    → Collects manifest (add_builtin name (fs, bs) o)
add_builtin-Collects manifest bs fs name none e h = tt
add_builtin-Collects manifest bs fs name (some b) e h = set-FromManifest manifest bs name b e h

add_entry-Collects :
    (manifest bs : Map.Map Descriptor) (names fs : List String) (s : Bool × String)
    → FromManifest manifest bs
    → Collects manifest (add_entry manifest names (fs, bs) s)
unfolding add_entry
add_entry-Collects manifest bs names fs (true, name) h =
    if_both (Collects manifest) (includes names name) _ _ (λ there. h) (λ gone. tt)
add_entry-Collects manifest bs names fs (false, name) h =
    add_builtin-Collects manifest bs fs name (Map.get manifest name) refl h

added-Collects :
    (manifest : Map.Map Descriptor) (next : Collected → Attempt Collected)
    → ((gs : List String) (cs : Map.Map Descriptor)
        → FromManifest manifest cs
        → Collects manifest (next (gs, cs)))
    → (r : Attempt Collected) → Collects manifest r
    → Collects manifest (r >>= next)
added-Collects manifest next go (thrown problem) k = tt
added-Collects manifest next go (returned (gs, cs)) k = go gs cs k

source-Collects :
    (manifest bs : Map.Map Descriptor) (names fs : List String)
    (next : Collected → Attempt Collected)
    → FromManifest manifest bs
    → ((gs : List String) (cs : Map.Map Descriptor)
        → FromManifest manifest cs
        → Collects manifest (next (gs, cs)))
    → (r : Attempt (Bool × String))
    → Collects manifest (r >>= λ s. add_entry manifest names (fs, bs) s >>= next)
source-Collects manifest bs names fs next h go (thrown problem) = tt
source-Collects manifest bs names fs next h go (returned s) =
    added-Collects manifest next go (add_entry manifest names (fs, bs) s)
      (add_entry-Collects manifest bs names fs s h)

collect-Collects :
    (manifest bs : Map.Map Descriptor) (names fs : List String) (filters : List Filter)
    → FromManifest manifest bs
    → Collects manifest (collect manifest names (fs, bs) filters)
unfolding collect
collect-Collects manifest bs names fs [] h = h
collect-Collects manifest bs names fs (f ∷ rest) h =
    source-Collects manifest bs names fs (λ c. collect manifest names c rest) h
      (λ gs cs k. collect-Collects manifest cs names gs rest k) (source_of names f)

empty-FromManifest : (manifest : Map.Map Descriptor) → FromManifest manifest []
unfolding Map.get
empty-FromManifest manifest n d k = absurd (cc)

resolve_selection-FromManifest :
    (platform : String) (tools : List String) (available : Available) (excluded : Bool)
    (s : Selection)
    → resolve_selection platform tools available excluded ≡ returned s
    → FromManifest (manifest_of platform) s.builtins
unfolding resolve_selection
resolve_selection-FromManifest platform tools available true s h = absurd (cc)
resolve_selection-FromManifest platform tools available false s h =
    let (names, _, a) = bound (register_tools (manifest_of platform) [] tools) _ s h in
    let (fs, _, b) = bound (requested (governed_builtins platform) names available) _ s a in
    let (c, e, q) = bound (collect (manifest_of platform) names ([], []) fs) _ s b in
    subst (FromManifest (manifest_of platform)) (builtins_of names c q) (
      collected c (
        subst (Collects (manifest_of platform)) e (
          collect-Collects (manifest_of platform) [] names [] fs
            (empty-FromManifest (manifest_of platform)))))
  where
    collected :
        (c : Collected)
        → Collects (manifest_of platform) (returned c)
        → FromManifest (manifest_of platform) c.1
    collected (fs, bs) k = k

    builtins_of :
        (names : List String) (c : Collected)
        → returned (selected names c) ≡ returned s
        → c.1 ≡ s.builtins
    builtins_of names (fs, bs) q = ap (λ (r : Selection). r.builtins) (same_selection q)
      where
        same_selection :
            returned (selected names (fs, bs)) ≡ returned s → selected names (fs, bs) ≡ s
        same_selection p = cc

-- Under a selection that was resolved for a platform, a call that can be normalized is of a tool of that
-- platform's manifest, the one that its input names, and carries the operation that the manifest gives it.
pub normalize_call-governed :
    (platform : String) (tools : List String) (available : Available) (excluded : Bool)
    (s : Selection) (input : Input) (session : Option String) (id : String) (c : Call)
    → resolve_selection platform tools available excluded ≡ returned s
    → normalize_call s.builtins input session id ≡ returned c
    → (d : Descriptor) × (Map.get (manifest_of platform) c.title ≡ some d)
      × (c.operation_id ≡ d.operation_id)
      × (input.tool_name ≡ some c.title)
normalize_call-governed platform tools available excluded s input session id c h k =
    let (d, found, operation, named) = normalize_call-found s.builtins input session id c k in
    (
      d,
      resolve_selection-FromManifest platform tools available excluded s h c.title d found,
      operation,
      named,
    )
