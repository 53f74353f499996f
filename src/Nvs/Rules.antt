-- ===== src/Nvs/Rules.antt =====
-- cmd_nvs/nvs_backup.c: the registry of exclusions (nvs_backup_exclude, name_matches,
-- rule_matches, exclusion_for, nvs_backup_is_excluded).
pub mod Laws
use esp_console_kit.Prelude.{
  ℕ, suc, Bool, true, false, ◌&&◌, ◌||◌, Option, none, some, List, [], ◌∷◌, ◌++◌, Bytes, codes,
  bytes_eq, length, ltb, leb, ◌==◌, if◌then◌else◌,
}
use esp_console_kit.Prelude.Errors.{EspErr, esp_ok, invalid_arg, no_mem}

-- nvs_backup_exclusion_t; a NULL key is none
pub record Rule : Type 0 where
  pub ns : Bytes
  pub key : Option Bytes
  pub reason : Bytes
  pub kit : Bool

abbrev kit_rule : Bytes → Option Bytes → Bytes → Rule
kit_rule ns key reason = record { ns = ns; key = key; reason = reason; kit = true }

-- s_kit; `wifi_ns` is WIFI_KNOWN_NS, which the build may set
unfoldable pub kit_rules : Bytes → List Rule
kit_rules wifi_ns =
    kit_rule (codes "phy") none (codes "per chip: RF calibration, regenerated at boot")
    ∷ kit_rule (codes "nvs.net80211") none
        (codes "credential: the WiFi driver's own copy of its config")
    ∷ kit_rule (codes "dhcp_state") none (codes "cache: lwIP's last DHCP lease")
    ∷ kit_rule (codes "psa_its") none (codes "credential: PSA key storage")
    ∷ kit_rule (codes "bt_config.conf") none (codes "identity: Bluetooth bonds")
    ∷ kit_rule (codes "nimble_bond") none (codes "identity: Bluetooth bonds")
    ∷ kit_rule (codes "bt_mesh*") none (codes "identity: Bluetooth mesh keys")
    ∷ kit_rule (codes "misc") none (codes "identity: Bluetooth controller state")
    ∷ kit_rule wifi_ns (some (codes "known")) (codes "credential: the saved WiFi networks")
    ∷ kit_rule (codes "wifi_ap") none (codes "credential: the access point's name and passphrase")
    ∷ kit_rule (codes "web") (some (codes "password")) (codes "credential: the web password")
    ∷ []

abbrev pub max_app_rules : ℕ
max_app_rules = 16

-- nvs_backup_exclude on s_app[0 .. s_app_count); NULL arguments are none
unfoldable pub exclude : List Rule → Option Bytes → Option Bytes → Option Bytes → EspErr × List Rule
exclude app none key reason = (invalid_arg, app)
exclude app (some []) key reason = (invalid_arg, app)
exclude app (some (c ∷ ns)) key none = (invalid_arg, app)
exclude app (some (c ∷ ns)) key (some reason) =
    if leb max_app_rules (length app)
    then (no_mem, app)
    else (esp_ok, app ++ record { ns = c ∷ ns; key = key; reason = reason; kit = false } ∷ [])

-- strncmp(pattern, name, strlen(pattern)) == 0
unfoldable pub is_prefix : Bytes → Bytes → Bool
is_prefix [] name = true
is_prefix (p ∷ ps) [] = false
is_prefix (p ∷ ps) (c ∷ cs) = c == p && is_prefix ps cs

-- pattern[n - 1] == '*', with what stands before it
unfoldable pub starred : Bytes → Option Bytes
starred [] = none
starred (p ∷ []) = if p == b'*' then some [] else none
starred (p ∷ q ∷ ps) = elim (starred (q ∷ ps)) [ none ↦ none | some before ↦ some (p ∷ before) ]

-- name_matches
unfoldable pub name_matches : Bytes → Bytes → Bool
name_matches pattern name = elim (starred pattern) [
  | some before ↦ is_prefix before name
  | none ↦ bytes_eq pattern name
]

key_matches : Option Bytes → Bytes → Bool
key_matches none key = true
key_matches (some pattern) key = name_matches pattern key

-- rule_matches
unfoldable pub rule_matches : Rule → Bytes → Bytes → Bool
unfolding key_matches
rule_matches x ns key = name_matches x.ns ns && key_matches x.key key

-- A loop of exclusion_for.
unfoldable pub first_match : List Rule → Bytes → Bytes → Option Rule
first_match [] ns key = none
first_match (x ∷ xs) ns key = if rule_matches x ns key then some x else first_match xs ns key

-- exclusion_for, over the kit's rules and the application's
unfoldable pub exclusion_for : List Rule → List Rule → Bytes → Bytes → Option Rule
exclusion_for kit app ns key = elim (first_match kit ns key) [
  | some x ↦ some x
  | none ↦ first_match app ns key
]

-- nvs_backup_is_excluded
unfoldable pub is_excluded : List Rule → List Rule → Bytes → Bytes → Bool
is_excluded kit app ns key = elim (exclusion_for kit app ns key) [ none ↦ false | some x ↦ true ]
