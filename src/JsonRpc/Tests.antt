-- ===== src/JsonRpc/Tests.antt =====
-- A concrete peer and a reader of lines of one unit.
use floe_runtime.Prelude.{
  ℕ, ◌≡◌, refl, String, true, none, some, List, [], ◌∷◌, nat_eq, if◌then◌else◌, arith,
}
use floe_runtime.Prelude.Map
use floe_runtime.JsonRpc.Peer.{
  Peer, not_json, json_null, json, Line, Reader, reject, dispatch, request, abandon, on_data,
  throws, timeout_fault,
}
use floe_runtime.JsonRpc.Frames.{on_data-append, Halted, null_line_stops}
use floe_runtime.JsonRpc.Pending.{response, answer_of, dispatch_settles_once, request-answered}

abbrev idle_peer : Peer ℕ
idle_peer = record {
  command = "codex";
  unavailable_code = "codex_unavailable";
  spawned = true;
  writable = true;
  pending = [];
  awaiting_response = [];
  serial = 0;
  buffer = 65 ∷ [];
  actions = [];
}

abbrev read_line : List ℕ → Line ℕ
read_line [] = not_json
read_line (c ∷ []) =
    if nat_eq c b'0'
    then json_null
    else json (record { id = none; method = some "tick"; error = none; value = c })
read_line (c ∷ d ∷ cs) = not_json

-- A line of one unit is the value null if it is 0, else a notification; any other is no JSON.
abbrev unit_reader : Reader ℕ
unit_reader = record { parse = read_line; is_blank = λ c. nat_eq c b' ' }

on_data-append_example :
    on_data unit_reader (on_data unit_reader idle_peer (b'\n' ∷ 66 ∷ [])) (b'\n' ∷ 68 ∷ [])
    ≡ on_data unit_reader idle_peer (b'\n' ∷ 66 ∷ b'\n' ∷ 68 ∷ [])
unfolding throws
on_data-append_example =
    on_data-append unit_reader idle_peer (b'\n' ∷ 66 ∷ []) (b'\n' ∷ 68 ∷ []) refl (omega arith)

abbrev waiting_peer : Peer ℕ
waiting_peer = record idle_peer { buffer = b'0' ∷ [] }

null_line_stops_example :
    Halted unit_reader waiting_peer
      (66 ∷ b'\n' ∷ [])
      (on_data unit_reader waiting_peer (b'\n' ∷ 66 ∷ b'\n' ∷ []))
null_line_stops_example =
    null_line_stops unit_reader waiting_peer (b'\n' ∷ 66 ∷ b'\n' ∷ []) (b'0' ∷ []) (66 ∷ b'\n' ∷ [])
      refl (omega arith) (refl, tt) refl refl

abbrev number_text : ℕ → String
number_text n = "1"

abbrev asked : Peer ℕ
asked = request number_text idle_peer "thread/start" 5 9

dispatch_settles_once_example :
    let p' = dispatch asked (response "1" none 3) in
    (dispatch p' (response "1" (some none) 4) ≡ p')
    × (abandon p' "1" (timeout_fault "thread/start") ≡ p')
dispatch_settles_once_example =
    dispatch_settles_once asked "1" none (some none) 3 4 (timeout_fault "thread/start")

no_pending : Map.get idle_peer.pending "1" ≡ none
unfolding Map.get
no_pending = refl

request-answered_example :
    let p' = request number_text idle_peer "thread/start" 5 9 in
    ((dispatch p' (response "1" none 3)).actions ≡ answer_of 9 none 3 ∷ p'.actions)
    × ((j : String)
        → Map.get (dispatch p' (response "1" none 3)).pending j ≡ Map.get idle_peer.pending j)
    × ((abandon p' "1" (timeout_fault "thread/start")).actions
        ≡ reject 9 (timeout_fault "thread/start") ∷ p'.actions)
    × ((j : String)
        → Map.get (abandon p' "1" (timeout_fault "thread/start")).pending j
          ≡ Map.get idle_peer.pending j)
request-answered_example =
    request-answered number_text idle_peer "thread/start" 5 9 none 3 (timeout_fault "thread/start")
      refl no_pending
