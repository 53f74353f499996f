-- ===== src/Events/Sinks.antt =====
-- events/events.c: the listeners (events_listen, events_want, events_unlisten, events_take,
-- events_wanted, notify, events_changed). Each function runs under the mutex, so it is one step;
-- the calls that `notify` makes after it has let go of the mutex are its result.
pub mod Laws
pub mod Changes
use Prim.Native.Nat.{bit_and, bit_or}
use esp_console_kit.Prelude.{
  ℕ, zero, suc, ◌+◌, ◌-◌, ◌^◌, Bool, true, false, not, ◌&&◌, ◌||◌, Option, none, some, List, [],
  ◌∷◌, Bytes, get_or, set, ltb, ◌==◌, if◌then◌else◌,
}
use esp_console_kit.Events.State.{max_sinks, Callback, Sink, State, blank_sink}
use esp_console_kit.Events.Kinds.{find, kind_bit, declare}

-- A call of a listener's function with its context.
pub record Call : Type 0 where
  pub fn : ℕ
  pub ctx : ℕ

-- used && (want & bit)
abbrev pub wants : Sink → ℕ → Bool
wants k bit = k.used && not (bit_and k.want bit == 0)

mark : Bool → ℕ → Sink → Sink
mark state bit k = if wants k bit && state then record k { dirty = bit_or k.dirty bit } else k

-- The first loop of `notify`, over the sinks.
unfoldable pub mark_all : Bool → ℕ → List Sink → List Sink
unfolding mark
mark_all state bit [] = []
mark_all state bit (k ∷ ks) = mark state bit k ∷ mark_all state bit ks

-- The second loop: the functions of the sinks that want it, in their order, but for NULL.
unfoldable pub calls : ℕ → List Sink → List Call
calls bit [] = []
calls bit (k ∷ ks) =
    let rest = calls bit ks in
    if wants k bit
    then elim k.notify [ none ↦ rest | some fn ↦ record { fn = fn; ctx = k.ctx } ∷ rest ]
    else rest

-- notify
unfoldable pub notify : State → ℕ → Bool → State × List Call
unfolding mark_all calls
notify s bit state = (record s { sinks = mark_all state bit s.sinks }, calls bit s.sinks)

-- events_changed
unfoldable pub changed : State → Bytes → State × List Call
unfolding notify
changed s name = let bit = kind_bit s name in if bit == 0 then (s, []) else notify s bit true

wanted_by : List Sink → ℕ → Bool
wanted_by [] bit = false
wanted_by (k ∷ ks) bit = wants k bit || wanted_by ks bit

-- events_wanted
unfoldable pub wanted : State → Bytes → Bool
unfolding wanted_by
wanted s name = elim (find s name) [ none ↦ false | some i ↦ wanted_by s.sinks (2 ^ i) ]

-- The loop of events_listen from slot i on: the slot taken, or none, and the sinks.
listen_from : Sink → List Sink → ℕ → Option ℕ × List Sink
listen_from new [] i = (none, [])
listen_from new (k ∷ ks) i =
    let (id, ks') = listen_from new ks (i + 1) in
    if k.used then (id, k ∷ ks') else (some i, new ∷ ks)

-- events_listen: none is -1
unfoldable pub listen : State → ℕ → Callback → ℕ → Option ℕ × State
unfolding listen_from
listen s want fn ctx =
    let new : Sink = record { used = true; want = want; dirty = 0; notify = fn; ctx = ctx } in
    let (id, ks) = listen_from new s.sinks 0 in (id, record s { sinks = ks })

abbrev pub sink_at : State → ℕ → Sink
sink_at s id = get_or s.sinks id blank_sink

-- events_want; a negative id, which returns like one past the end, is not a number here
unfoldable pub want : State → ℕ → ℕ → State
want s id mask =
    let k = sink_at s id in
    if ltb id max_sinks
    then record s {
      sinks = set s.sinks id (record k { want = mask; dirty = bit_and k.dirty mask });
    }
    else s

-- events_unlisten
unfoldable pub unlisten : State → ℕ → State
unlisten s id = if ltb id max_sinks then record s { sinks = set s.sinks id blank_sink } else s

-- events_take
unfoldable pub take_dirty : State → ℕ → ℕ × State
take_dirty s id =
    let k = sink_at s id in
    if ltb id max_sinks
    then (k.dirty, record s { sinks = set s.sinks id (record k { dirty = 0 }) })
    else (0, s)

-- A call of the component that changes its kinds or its listeners.
pub data Op : Type 0 where
  introduce : Option Bytes → Callback → Op
  change : Bytes → Op
  occur : Bytes → Op
  subscribe : ℕ → Callback → ℕ → Op
  rewant : ℕ → ℕ → Op
  leave : ℕ → Op
  take_op : ℕ → Op

-- A happening tells its listeners and marks none.
unfoldable pub apply : State → Op → State
unfolding changed notify listen want unlisten take_dirty
apply s (introduce name build) = (declare s name build).1
apply s (change name) = (changed s name).0
apply s (occur name) = elim (find s name) [ none ↦ s | some i ↦ (notify s (2 ^ i) false).0 ]
apply s (subscribe mask fn ctx) = (listen s mask fn ctx).1
apply s (rewant id mask) = want s id mask
apply s (leave id) = unlisten s id
apply s (take_op id) = (take_dirty s id).1

unfoldable pub run : State → List Op → State
unfolding apply
run s [] = s
run s (op ∷ ops) = run (apply s op) ops
