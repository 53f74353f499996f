-- ===== src/Wifi/Moves.antt =====
-- cmd_wifi/wifi_known.c: any sequence of what the component does, one section under the lock at a
-- time, on whichever task: the events of the driver, the retry timer, the sections of the calls and
-- what lies between them. The board may also be reset at any point: NVS keeps what it holds.
pub mod Keeps
pub mod Forgotten
pub mod Sound
use esp_console_kit.Prelude.{ℕ, Bool, Option, List, [], ◌∷◌, Bytes, if◌then◌else◌}
use esp_console_kit.Prelude.Errors.{EspErr, esp_ok}
use esp_console_kit.Wifi.State.{Reason, Wifi, boot, load}
use esp_console_kit.Wifi.Events.{on_disconnected, on_got_ip, retry_timer_cb}
use esp_console_kit.Wifi.Calls.{
  known_init, join_bad, join_section, join_link, join_refused, forget_section, forget_rest,
  enable_section, enable_rest, save_network, set_hook,
}

pub data Move : Type 0 where
  gets_ip : Option Bytes → Move
  drops : Bytes → Reason → Move
  timer_fires lists resets : Move
  inits : EspErr → Move
  joins : Bytes → Option Bytes → Move
  joins_link joins_refused : Bytes → Bytes → Move
  forgets : Bytes → Move
  forgets_rest : Bytes → Bool → Bool → Bool → Move
  saves_network : Bytes → Option Bytes → Move
  enables : Bool → Move
  enables_rest : Bool → Option Bytes → Move
  hooks : Bool → Move

module _ (fast interval : ℕ) where
  -- One move; `saves` is whether NVS takes what is saved in it. A rejoin of the last network is a
  -- join of its own.
  unfoldable pub move : Bool → Move → Wifi → Wifi
  move saves (gets_ip ap) s = on_got_ip saves ap s
  move saves (drops from reason) s = on_disconnected fast interval saves from reason s
  move saves timer_fires s = retry_timer_cb s
  move saves lists s = load s
  move saves resets s = boot s.blob
  move saves (inits init) s = (known_init init s).1
  move saves (joins ssid p) s = if join_bad ssid p then s else join_section ssid p s
  move saves (joins_link ssid pass) s = join_link ssid pass s
  move saves (joins_refused ssid pass) s = join_refused ssid s
  move saves (forgets ssid) s = forget_section saves ssid s
  move saves (forgets_rest ssid had joining used) s = forget_rest ssid had joining used s
  move saves (saves_network ssid p) s = (save_network saves ssid p s).1
  move saves (enables b) s = enable_section b s
  move saves (enables_rest b cfg) s = enable_rest b cfg esp_ok [] s
  move saves (hooks b) s = set_hook b s

  abbrev pub run : List (Bool × Move) → Wifi → Wifi
  run [] s = s
  run ((saves, m) ∷ ms) s = run ms (move saves m s)
