-- ===== src/Events/State.antt =====
-- events/events.c: the statics that its one mutex covers, and the limits of events.h.
use esp_console_kit.Prelude.{ℕ, List, Option, none, Bool, false, Bytes, replicate, []}

abbrev pub max_kinds : ℕ
max_kinds = 16

abbrev pub max_sinks : ℕ
max_sinks = 4

abbrev pub kept_slots : ℕ
kept_slots = 32

-- A function pointer, as an address; none is NULL.
abbrev pub Callback : Type 0
Callback = Option ℕ

-- kind_t
pub record Kind : Type 0 where
  pub name : Bytes
  pub build : Callback

-- sink_t
pub record Sink : Type 0 where
  pub used : Bool
  pub want : ℕ
  pub dirty : ℕ
  pub notify : Callback
  pub ctx : ℕ

-- kept_t
pub record Kept : Type 0 where
  pub n : ℕ
  pub bit : ℕ
  pub json : Option Bytes

-- `kinds` is s_kinds[0 .. s_n_kinds).
pub record State : Type 0 where
  pub kinds : List Kind
  pub sinks : List Sink
  pub ring : List Kept
  pub count : ℕ

-- (sink_t){ 0 }
abbrev pub blank_sink : Sink
blank_sink = record { used = false; want = 0; dirty = 0; notify = none; ctx = 0 }

abbrev pub blank_kept : Kept
blank_kept = record { n = 0; bit = 0; json = none }

-- The statics before anything ran: zeroed.
abbrev pub boot : State
boot = record {
  kinds = [];
  sinks = replicate max_sinks blank_sink;
  ring = replicate kept_slots blank_kept;
  count = 0;
}
