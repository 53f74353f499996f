-- ===== src/Api/Routes/Laws.antt =====
-- api_core/api_core.c: api_find against the routes in the order they were added.
use esp_console_kit.Prelude.{
  ℕ, zero, suc, ◌+◌, ◌-◌, ◌≤◌, ◌<◌, ◌≡◌, refl, sym, ap, ◌∙◌, Bool, true, false, ◌||◌, Option, none,
  some, List, [], ◌∷◌, ◌++◌, Bytes, bytes_eq, length, length-append, append_assoc, append-nil,
  get_elem?, if◌then◌else◌, arith,
}
use esp_console_kit.Prelude.Errors.{esp_ok}
use esp_console_kit.Api.Routes.{
  Method, method_eq, Route, Tables, route_in, route_at, route_count, find_loop, find, watch_loop,
  watch_routes, tell, add_routes, max_tables,
}

-- Every route, in the order added.
abbrev pub all_routes : List (List Route) → List Route
all_routes [] = []
all_routes (rs ∷ rest) = rs ++ all_routes rest

get_elem?-append_left :
    (xs ys : List Route) (i : ℕ) → i < length xs → get_elem? (xs ++ ys) i ≡ get_elem? xs i
get_elem?-append_left [] ys i h = absurd (omega arith)
get_elem?-append_left (x ∷ xs) ys zero h = refl
get_elem?-append_left (x ∷ xs) ys (suc i) h = get_elem?-append_left xs ys i (omega arith)

get_elem?-append_right :
    (xs ys : List Route) (i : ℕ)
    → length xs ≤ i
    → get_elem? (xs ++ ys) i ≡ get_elem? ys (i - length xs)
get_elem?-append_right [] ys i h = ap (get_elem? ys) (omega arith)
get_elem?-append_right (x ∷ xs) ys zero h = absurd (omega arith)
get_elem?-append_right (x ∷ xs) ys (suc i) h =
    get_elem?-append_right xs ys i (omega arith) ∙ ap (get_elem? ys) (omega arith)

route_in-all_routes : (ts : List (List Route)) (i : ℕ) → route_in ts i ≡ get_elem? (all_routes ts) i
unfolding route_in
route_in-all_routes [] i = refl
route_in-all_routes (rs ∷ rest) i = ground (
  arith,
  route_in-all_routes rest (i - length rs),
  get_elem?-append_left rs (all_routes rest) i,
  get_elem?-append_right rs (all_routes rest) i,
)

-- What api_find looks for: the first route of both, and whether any has the path.
abbrev pub first_route : Method → Bytes → List Route → Option Route
first_route method path [] = none
first_route method path (r ∷ rs) =
    if bytes_eq r.path path
    then (if method_eq r.method method then some r else first_route method path rs)
    else first_route method path rs

abbrev pub any_path : Bytes → List Route → Bool
any_path path [] = false
any_path path (r ∷ rs) = bytes_eq r.path path || any_path path rs

-- The loop at route i is the search of what lies behind it.
find_loop-first_route :
    (t : Tables) (method : Method) (path : Bytes) (rs : List Route) (fuel i : ℕ) (known : Bool)
    → length rs < fuel
    → ((k : ℕ) → route_at t (i + k) ≡ get_elem? rs k)
    → find_loop t method path fuel i known ≡ (first_route method path rs, known || any_path path rs)
unfolding find_loop
find_loop-first_route t method path rs zero i known h at = absurd (omega arith)
find_loop-first_route t method path [] (suc fuel) i known h at =
    let e : route_at t i ≡ none = ap (route_at t) (omega arith) ∙ at 0 in ground (arith, e)
find_loop-first_route t method path (r ∷ rs) (suc fuel) i known h at =
    let e : route_at t i ≡ some r = ap (route_at t) (omega arith) ∙ at 0 in
    let later : (k : ℕ) → route_at t (i + 1 + k) ≡ get_elem? rs k =
      λ k. ap (route_at t) (omega arith) ∙ at (suc k) in
    ground (
      arith,
      e,
      find_loop-first_route t method path rs fuel (i + 1) true (omega arith) later,
      find_loop-first_route t method path rs fuel (i + 1) known (omega arith) later,
    )

length-all_routes : (ts : List (List Route)) → length (all_routes ts) ≡ route_count ts
length-all_routes [] = refl
length-all_routes (rs ∷ rest) =
    omega (arith, length-append {0} rs (all_routes rest), length-all_routes rest)

-- api_find is the first route of the path and the method among all tables in the order they were
-- added, and *path_known is whether any route at all has the path.
pub find-first_route :
    (t : Tables) (method : Method) (path : Bytes)
    → let routes = all_routes t.tables in
      find t method path ≡ (first_route method path routes, any_path path routes)
unfolding find
find-first_route t method path =
    find_loop-first_route t method path (all_routes t.tables) (suc (route_count t.tables)) 0 false
      (omega (arith, length-all_routes t.tables))
      (λ k.
        unfold route_at in (ap (route_in t.tables) (omega arith) ∙ route_in-all_routes t.tables k))

watch_loop-tell :
    (t : Tables) (fn : ℕ) (rs : List Route) (fuel i : ℕ)
    → length rs ≤ fuel
    → ((k : ℕ) → route_at t (i + k) ≡ get_elem? rs k)
    → watch_loop t fn fuel i ≡ tell fn rs
unfolding watch_loop tell
watch_loop-tell t fn [] zero i h at = refl
watch_loop-tell t fn (r ∷ rs) zero i h at = absurd (omega arith)
watch_loop-tell t fn [] (suc fuel) i h at =
    let e : route_at t i ≡ none = ap (route_at t) (omega arith) ∙ at 0 in ground (arith, e)
watch_loop-tell t fn (r ∷ rs) (suc fuel) i h at =
    let e : route_at t i ≡ some r = ap (route_at t) (omega arith) ∙ at 0 in
    let later : (k : ℕ) → route_at t (i + 1 + k) ≡ get_elem? rs k =
      λ k. ap (route_at t) (omega arith) ∙ at (suc k) in
    ground (arith, e, watch_loop-tell t fn rs fuel (i + 1) (omega arith) later)

tell-append : (fn : ℕ) (xs ys : List Route) → tell fn (xs ++ ys) ≡ tell fn xs ++ tell fn ys
unfolding tell
tell-append fn [] ys = refl
tell-append fn (x ∷ xs) ys = ap (λ l. record { watcher = fn; route = x } ∷ l) (tell-append fn xs ys)

all_routes-append :
    (ts : List (List Route)) (rs : List Route) → all_routes (ts ++ rs ∷ []) ≡ all_routes ts ++ rs
all_routes-append [] rs = append-nil rs
all_routes-append (t ∷ ts) rs =
    ap (λ l. t ++ l) (all_routes-append ts rs) ∙ sym (append_assoc t (all_routes ts) rs)

watched :
    (t : Tables) (fn : ℕ)
    → watch_routes t (some fn) ≡ (record t { watch = some fn }, tell fn (all_routes t.tables))
unfolding watch_routes
watched t fn =
    ap (λ l. (record t { watch = some fn }, l))
      (watch_loop-tell t fn (all_routes t.tables) (route_count t.tables) 0
        (omega (arith, length-all_routes t.tables))
        (λ k.
          unfold route_at in
          (ap (route_in t.tables) (omega arith) ∙ route_in-all_routes t.tables k)))

added :
    (t : Tables) (fn : ℕ) (routes : List Route)
    → length t.tables < max_tables
    → t.watch ≡ some fn
    → add_routes t routes ≡ (esp_ok, record t { tables = t.tables ++ routes ∷ [] }, tell fn routes)
unfolding add_routes
added t fn routes h w = ground (arith, w)

-- While there is room for a table, whoever watches is told of every route once and in order:
-- those added before, by the call that installs it, and a table added later, as it is added.
pub watch_complete :
    (t : Tables) (fn : ℕ) (routes : List Route)
    → length t.tables < max_tables
    → let (t1, told) = watch_routes t (some fn) in
      let (err, t2, more) = add_routes t1 routes in
      (told ++ more ≡ tell fn (all_routes t2.tables)) × (err ≡ esp_ok)
watch_complete t fn routes h =
    rw (watched t fn, added (record t { watch = some fn }) fn routes h refl)
      (
        sym (
            ap (tell fn) (all_routes-append t.tables routes)
            ∙ tell-append fn (all_routes t.tables) routes),
        refl,
      )
