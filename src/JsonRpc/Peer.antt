-- ===== src/JsonRpc/Peer.antt =====
-- `JsonRpcPeer`. A text is the list of its UTF-16 code units; `chunk` is what the stream decoder has
-- made of a chunk of bytes. How JSON is read is a parameter: `parse` gives the message of a line, or
-- nothing if the line is not JSON. A result or a parameter object is of any type. Request ids are
-- the numbers of the counter, under the text that `String` makes of them.
use floe_runtime.Prelude.{
  ℕ, suc, String, Bool, true, false, not, Option, none, some, List, [], ◌∷◌, ◌++◌, nat_eq, ltb,
  if◌then◌else◌, length, ◌==◌, includes, ◌&&◌,
}
use floe_runtime.Prelude.Map
use floe_runtime.Prelude.Map.{Map}
use floe_runtime.Errors.{RuntimeFault, fault, ◌⧺◌}

abbrev pub max_buffer : ℕ
max_buffer = 16777216

-- A message as `#dispatch` reads it: `id` is `String(message.id)`, and a method that is empty counts
-- as none. `error_message` is the text of an error that the message carries.
pub record Message (V : Type 0) : Type 0 where
  pub id : Option String
  pub method : Option String
  pub error : Option (Option String)
  pub value : V

-- What a peer does to its owner and its process.
pub data Action (V : Type 0) : Type 0 where
  resolve : (ticket : ℕ) → V → Action V
  reject : (ticket : ℕ) → RuntimeFault → Action V
  emit_request : Message V → Action V
  emit_notification : Message V → Action V
  emit_diagnostic : Action V
  emit_error : Action V
  kill : Action V
  uncaught : Action V
  write_request : (id : String) → (method : String) → V → Action V
  write_notification : (method : String) → V → Action V
  write_result : (id : String) → V → Action V
  write_error : (id message : String) → Action V

-- `pending` maps an id to the ticket that names the promise, whose timer runs as long as the entry
-- is there. `actions` is what has been done, the latest first.
pub record Peer (V : Type 0) : Type 0 where
  pub command : String
  pub unavailable_code : String
  pub spawned : Bool
  pub writable : Bool
  pub pending : Map ℕ
  pub awaiting_response : List String
  pub serial : ℕ
  pub buffer : List ℕ
  pub actions : List (Action V)

abbrev pub add_awaiting : List String → String → List String
add_awaiting ids i = if includes ids i then ids else ids ++ i ∷ []

unfoldable pub remove_awaiting : List String → String → List String
remove_awaiting [] i = []
remove_awaiting (j ∷ js) i = if j == i then remove_awaiting js i else j ∷ remove_awaiting js i

abbrev pub rpc_error : Option String → RuntimeFault
rpc_error none = fault "rpc_error" "The subprocess rejected the request." 502
rpc_error (some m) = fault "rpc_error" m 502

abbrev pub timeout_fault : String → RuntimeFault
timeout_fault method =
    fault "rpc_timeout" (method ⧺ " did not acknowledge in time. Its outcome may be unknown.") 504

module _ {V : Type 0} where
  abbrev pub act : Peer V → Action V → Peer V
  act p a = record p { actions = a ∷ p.actions }

  -- `this.process?.stdin.write`
  abbrev pub write : Peer V → Action V → Peer V
  write p a = if p.spawned then act p a else p

  -- A promise is settled by the message that answers it.
  abbrev pub settle : Peer V → ℕ → Message V → Option (Option String) → Peer V
  settle p ticket m none = act p (resolve ticket m.value)
  settle p ticket m (some text) = act p (reject ticket (rpc_error text))

  abbrev pub answer : Peer V → String → Message V → Option ℕ → Peer V
  answer p key m none = p
  answer p key m (some ticket) =
      settle (record p { pending = Map.delete p.pending key }) ticket m m.error

  abbrev pub dispatch_at : Peer V → Message V → Option String → Option String → Peer V
  dispatch_at p m (some key) none = answer p key m (Map.get p.pending key)
  dispatch_at p m (some key) (some method) =
      act (record p { awaiting_response = add_awaiting p.awaiting_response key }) (emit_request m)
  dispatch_at p m none method = act p (emit_notification m)

  -- `#dispatch`
  unfoldable pub dispatch : Peer V → Message V → Peer V
  dispatch p m = dispatch_at p m m.id m.method

  -- `request`: `ticket` names the promise, and `text` is `String(serial)`.
  unfoldable pub request : (ℕ → String) → Peer V → String → V → (ticket : ℕ) → Peer V
  request text p method params ticket =
      if p.writable
      then act
          (record p {
            serial = suc p.serial;
            pending = Map.set p.pending (text (suc p.serial)) ticket;
          })
          (write_request (text (suc p.serial)) method params)
      else act p (reject ticket (fault p.unavailable_code (p.command ⧺ " is unavailable.") 503))

  -- The timer of a request fires, or its line cannot be written. Settling a promise that is no longer
  -- pending clears its timer, so neither happens then.
  abbrev abandon_at : Peer V → String → RuntimeFault → Option ℕ → Peer V
  abandon_at p key f none = p
  abandon_at p key f (some ticket) =
      act (record p { pending = Map.delete p.pending key }) (reject ticket f)

  unfoldable pub abandon : Peer V → String → RuntimeFault → Peer V
  abandon p key f = abandon_at p key f (Map.get p.pending key)

  unfoldable pub notify : Peer V → String → V → Peer V
  notify p method params = write p (write_notification method params)

  unfoldable pub respond : Peer V → String → V → Peer V
  unfolding remove_awaiting
  respond p i result =
      write (record p { awaiting_response = remove_awaiting p.awaiting_response i })
        (write_result i result)

  unfoldable pub respond_error : Peer V → String → String → Peer V
  unfolding remove_awaiting
  respond_error p i message =
      write (record p { awaiting_response = remove_awaiting p.awaiting_response i })
        (write_error i message)

  unfoldable pub is_awaiting_response : Peer V → String → Bool
  is_awaiting_response p i = includes p.awaiting_response i

  abbrev pub reject_each : RuntimeFault → List ℕ → List (Action V) → List (Action V)
  reject_each f [] done = done
  reject_each f (t ∷ ts) done = reject_each f ts (reject t f ∷ done)

  -- `reset`: every pending promise is rejected, and the buffer starts again.
  unfoldable pub reset : Peer V → RuntimeFault → Peer V
  reset p f = record p {
    pending = [];
    awaiting_response = [];
    buffer = [];
    actions = reject_each f (Map.values p.pending) p.actions;
  }

-- What a line is: no JSON, the JSON value null, or a message.
pub data Line (V : Type 0) : Type 0 where
  not_json : Line V
  json_null : Line V
  json : Message V → Line V

-- The reading of JSON, and what counts as blank for `trim`.
pub record Reader (V : Type 0) : Type 0 where
  pub parse : List ℕ → Line V
  pub is_blank : ℕ → Bool

module _ {V : Type 0} (r : Reader V) where
  abbrev pub all_blank : List ℕ → Bool
  all_blank [] = true
  all_blank (c ∷ cs) = r.is_blank c && all_blank cs

  -- Is the line one at which `#dispatch` throws, since null has no fields?
  abbrev is_null : Line V → Bool
  is_null json_null = true
  is_null _ = false

  unfoldable pub throws : List ℕ → Bool
  throws line = not (all_blank line) && is_null (r.parse line)

  abbrev pub parsed : Peer V → Line V → Peer V
  parsed p not_json = act p emit_diagnostic
  parsed p json_null = act p uncaught
  parsed p (json m) = dispatch p m

  -- The body of the loop of `#onData`, for one line.
  unfoldable pub handle_line : Peer V → List ℕ → Peer V
  unfolding dispatch
  handle_line p line = if all_blank line then p else parsed p (r.parse line)

  -- The loop over the buffered text: `line` has the units since the last newline, in order. At the
  -- end of the text they are the new buffer. An exception leaves the rest in the buffer.
  unfoldable pub split_lines : Peer V → (line : List ℕ) → List ℕ → Peer V
  unfolding handle_line throws
  split_lines p line [] = record p { buffer = line }
  split_lines p line (c ∷ cs) =
      let next = split_lines (handle_line p line) [] cs in
      let stop = record (handle_line p line) { buffer = cs } in
      let more = split_lines p (line ++ c ∷ []) cs in
      if nat_eq c b'\n' then (if throws line then stop else next) else more

  -- `#onData`
  unfoldable pub on_data : Peer V → List ℕ → Peer V
  unfolding split_lines
  on_data p chunk =
      if ltb max_buffer (length (p.buffer ++ chunk))
      then act (act (record p { buffer = p.buffer ++ chunk }) emit_error) kill
      else split_lines p [] (p.buffer ++ chunk)
