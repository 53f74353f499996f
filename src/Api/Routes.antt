-- ===== src/Api/Routes.antt =====
-- api_core/api_core.c: the tables of routes (api_add_routes, api_watch_routes, api_route_at,
-- api_find, api_method_name, api_method_of).
pub mod Laws
use esp_console_kit.Prelude.{
  ℕ, zero, suc, ◌+◌, ◌-◌, Bool, true, false, Option, none, some, List, [], ◌∷◌, ◌++◌, Bytes, codes,
  bytes_eq, length, get_elem?, ltb, leb, ◌==◌, if◌then◌else◌,
}
use esp_console_kit.Prelude.Errors.{EspErr, esp_ok, no_mem}

-- api_method_t
pub data Method : Type 0 where
  get put post patch delete : Method

unfoldable pub method_eq : Method → Method → Bool
method_eq get get = true
method_eq put put = true
method_eq post post = true
method_eq patch patch = true
method_eq delete delete = true
method_eq _ _ = false

-- api_route_t; `fn` is the address of its function
pub record Route : Type 0 where
  pub method : Method
  pub path : Bytes
  pub fn : ℕ
  pub body_max : ℕ
  pub flags : ℕ

abbrev pub max_tables : ℕ
max_tables = 16

-- The statics: the tables added, and who watches (NULL is none).
pub record Tables : Type 0 where
  pub tables : List (List Route)
  pub watch : Option ℕ

-- A call of the watcher with a route.
pub record Told : Type 0 where
  pub watcher : ℕ
  pub route : Route

pub tell : ℕ → List Route → List Told
tell fn [] = []
tell fn (r ∷ rs) = record { watcher = fn; route = r } ∷ tell fn rs

tell_watch : Option ℕ → List Route → List Told
tell_watch none routes = []
tell_watch (some fn) routes = tell fn routes

-- api_add_routes, with the watcher's calls
unfoldable pub add_routes : Tables → List Route → EspErr × Tables × List Told
unfolding tell_watch tell
add_routes t routes =
    if leb max_tables (length t.tables)
    then (no_mem, t, [])
    else (esp_ok, record t { tables = t.tables ++ routes ∷ [] }, tell_watch t.watch routes)

-- The loop of api_route_at.
route_in : List (List Route) → ℕ → Option Route
route_in [] i = none
route_in (rs ∷ rest) i = if ltb i (length rs) then get_elem? rs i else route_in rest (i - length rs)

-- api_route_at
unfoldable pub route_at : Tables → ℕ → Option Route
unfolding route_in
route_at t i = route_in t.tables i

-- The loop of api_watch_routes from route i on; the fuel bounds the routes.
watch_loop : Tables → ℕ → ℕ → ℕ → List Told
watch_loop t fn zero i = []
watch_loop t fn (suc fuel) i = elim (route_at t i) [
  | none ↦ []
  | some r ↦ record { watcher = fn; route = r } ∷ watch_loop t fn fuel (i + 1)
]

abbrev pub route_count : List (List Route) → ℕ
route_count [] = 0
route_count (rs ∷ rest) = length rs + route_count rest

-- api_watch_routes, with the calls it makes
unfoldable pub watch_routes : Tables → Option ℕ → Tables × List Told
unfolding watch_loop
watch_routes t none = (record t { watch = none }, [])
watch_routes t (some fn) = (record t { watch = some fn }, watch_loop t fn (route_count t.tables) 0)

-- The loop of api_find from route i on: *path_known so far.
find_loop : Tables → Method → Bytes → ℕ → ℕ → Bool → Option Route × Bool
find_loop t method path zero i known = (none, known)
find_loop t method path (suc fuel) i known = elim (route_at t i) [
  | none ↦ (none, known)
  | some r ↦
      let rest = find_loop t method path fuel (i + 1) true in
      let other = find_loop t method path fuel (i + 1) known in
      if bytes_eq r.path path
      then (if method_eq r.method method then (some r, true) else rest)
      else other
]

-- api_find: the route, and *path_known
unfoldable pub find : Tables → Method → Bytes → Option Route × Bool
unfolding find_loop
find t method path = find_loop t method path (suc (route_count t.tables)) 0 false

-- METHODS, by number
unfoldable pub method_name : Method → Bytes
method_name get = codes "GET"
method_name put = codes "PUT"
method_name post = codes "POST"
method_name patch = codes "PATCH"
method_name delete = codes "DELETE"

-- The loop of api_method_of.
named_in : Bytes → List Method → Option Method
unfolding method_name
named_in name [] = none
named_in name (m ∷ ms) = if bytes_eq name (method_name m) then some m else named_in name ms

-- api_method_of
unfoldable pub method_of : Bytes → Option Method
unfolding named_in
method_of name = named_in name (get ∷ put ∷ post ∷ patch ∷ delete ∷ [])
