-- ===== src/Events.antt =====
-- src/events.mjs: the replay buffer, and the live feed that a consumer reads. The payload of an event,
-- which `toSerializable` makes safe for JSON, is of any type.
pub mod Log
pub mod Watch
pub mod Feed
pub mod Refines
mod Tests
use floe_runtime.Prelude.{
  ℕ, suc, ◌+◌, ◌-◌, ◌≤◌, ◌<◌, ◌≡◌, String, Bool, List, [], ◌∷◌, ◌++◌, arith, ltb, leb,
  if◌then◌else◌, or_else, length, keep_if, ◌==◌, ◌&&◌,
}
use floe_runtime.Prelude.Map
use floe_runtime.Prelude.Map.{Map}

abbrev pub default_buffer_size : ℕ
default_buffer_size = 500

module _ {ℓ} {D : Type ℓ} where
  -- `buffer.shift()`
  abbrev pub shift : List D → List D
  shift [] = []
  shift (x ∷ xs) = xs

pub record Envelope (D : Type 0) : Type 0 where
  pub seq : ℕ
  pub conversation_id : String
  pub kind : String
  pub replay : Bool
  pub at : ℕ
  pub payload : D

pub record EventLog (D : Type 0) : Type 0 where
  pub buffer_size : ℕ
  pub seqs : Map ℕ
  pub buffers : Map (List (Envelope D))

module _ {D : Type 0} where
  abbrev pub empty_log : ℕ → EventLog D
  empty_log size = record { buffer_size = size; seqs = []; buffers = [] }

  -- `this.seqs.get(id) || 0`
  abbrev pub last_seq : EventLog D → String → ℕ
  last_seq log c = or_else (Map.get log.seqs c) 0

  abbrev pub buffer_of : EventLog D → String → List (Envelope D)
  buffer_of log c = or_else (Map.get log.buffers c) []

  -- `buffer.push(envelope); if (buffer.length > this.bufferSize) buffer.shift()`
  unfoldable pub push_bounded : ℕ → List (Envelope D) → Envelope D → List (Envelope D)
  push_bounded size buffer e =
      let pushed = buffer ++ e ∷ [] in if ltb size (length pushed) then shift pushed else pushed

  -- `now` is `Date.now()`; the payload has been made safe for JSON.
  unfoldable pub publish :
      EventLog D → (now : ℕ) → String → String → D → Bool → EventLog D × Envelope D
  unfolding push_bounded
  publish log now c kind payload replay =
      let seq = last_seq log c + 1 in
      let envelope : Envelope D = record {
        seq = seq;
        conversation_id = c;
        kind = kind;
        replay = replay;
        at = now;
        payload = payload;
      } in
      (
        record log {
          seqs = Map.set log.seqs c seq;
          buffers = Map.set log.buffers c (push_bounded log.buffer_size (buffer_of log c) envelope);
        },
        envelope,
      )

  -- `buffer.length ? buffer[0].seq : last + 1`
  abbrev pub oldest_seq : List (Envelope D) → ℕ → ℕ
  oldest_seq [] last = last + 1
  oldest_seq (e ∷ es) last = e.seq

  -- `since`: what is buffered after `after_seq`, and the count of envelopes that were dropped.
  unfoldable pub since : EventLog D → String → ℕ → List (Envelope D) × ℕ
  since log c after_seq =
      let buffer = buffer_of log c in
      let oldest = oldest_seq buffer (last_seq log c) in
      (
        keep_if (λ e. ltb after_seq e.seq) buffer,
        if ltb 0 after_seq && ltb after_seq (oldest - 1) then oldest - 1 - after_seq else 0,
      )

  unfoldable pub clear : EventLog D → String → EventLog D
  clear log c = record log { buffers = Map.delete log.buffers c; seqs = Map.delete log.seqs c }
