-- ===== src/Api/Tests.antt =====
-- api_core/api_core.c: runs at concrete inputs, and instances of the theorems there.
use esp_console_kit.Prelude.{
  true, false, ◌≡◌, Option, refl, none, some, [], ◌∷◌, ◌++◌, Bytes, codes, split_at, arith,
}
use esp_console_kit.Prelude.Errors.{esp_ok}
use esp_console_kit.Ascii.{hex_digit, hex_value}
use esp_console_kit.Segments.{segments_of, walk}
use esp_console_kit.Api.Query.{url_decode, value_of, query}
use esp_console_kit.Api.Query.Sent.{Sent, nothing, by_percent, plus, plain, url_decode-Sent}
use esp_console_kit.Api.Query.Picks.{Picks, query-Picks}
use esp_console_kit.Api.Routes.{get, put, Route, Tables, tell, add_routes, watch_routes, find}
use esp_console_kit.Api.Routes.Laws.{
  all_routes, first_route, any_path, find-first_route, watch_complete,
}

-- A byte as itself, one as %XX in upper case, a blank, and one in lower case.
abbrev slash_sent : Bytes
slash_sent = codes "a%2F+%c3"

a_slash-Sent : Sent (codes "a/ " ++ 195 ∷ []) slash_sent
unfolding hex_digit
a_slash-Sent =
    plain b'a' _ _ (λ e. omega (arith, e)) (λ e. omega (arith, e))
      (by_percent true true 2 15 _ _ (omega arith) (omega arith) (omega arith) (
        plus _ _
          (by_percent false false 12 3 [] [] (omega arith) (omega arith) (omega arith) nothing)))

url_decode-Sent_example : url_decode slash_sent 16 ≡ codes "a/ " ++ 195 ∷ []
url_decode-Sent_example = url_decode-Sent (codes "a/ " ++ 195 ∷ []) slash_sent 16 a_slash-Sent

query-Picks_example :
    (a : Option Bytes) × (query (some (codes "a=1&b=2")) (codes "b") 8 ≡ some a)
    × Picks 8 (codes "b") (segments_of b'&' (some (codes "a=1&b=2"))) a
query-Picks_example = query-Picks (some (codes "a=1&b=2")) (codes "b") 8 (λ e. cc e)

query_run : query (some (codes "a=1&b=%41+c")) (codes "b") 8 ≡ some (some (codes "A c"))
unfolding query value_of walk split_at hex_value
query_run = refl

abbrev led : Route
led = record { method = put; path = codes "/api/led"; fn = 5; body_max = 64; flags = 0 }

abbrev tables : Tables
tables = record { tables = (led ∷ []) ∷ []; watch = none }

find-first_route_example :
    find tables get (codes "/api/led")
    ≡ (first_route get (codes "/api/led") (led ∷ []), any_path (codes "/api/led") (led ∷ []))
find-first_route_example = find-first_route tables get (codes "/api/led")

watch_complete_example :
    let (t1, told) = watch_routes tables (some 9) in
    let (err, t2, more) = add_routes t1 (led ∷ []) in
    (told ++ more ≡ tell 9 (all_routes t2.tables)) × (err ≡ esp_ok)
watch_complete_example = watch_complete tables 9 (led ∷ []) (omega arith)
