-- ===== src/Micro/Router/Examples.antt =====
-- Tests of the router's model, and its theorems at concrete inputs.
use go_plugins.Prelude.{
  ℤ, pos, negsuc, ℕ, String, ◌≡◌, refl, true, false, List, [], ◌∷◌, ◌==◌, string_eq, nat_eq,
  if◌then◌else◌, ltb, inl, inr, ◌↔◌,
}
use go_plugins.Micro.Router.{
  Floats, Route, Request, less, strip, fits, set_header, write_header, write, default_handler,
  match, choose, handle, write_route, run, scanned, unscannable, next_error,
}
use go_plugins.Micro.Router.Choice.{In, handle-run, handle_default}

-- Weights and draws in hundredths.
abbrev floats : Floats
floats = record { F = ℕ; is_zero = λ w. w == 0; below = ltb }

abbrev route : ℤ → String → String → Route ℕ
route p path kind = record {
  request = record { method = "GET"; header = []; host = "a.org"; path = path; query = [] };
  response = record { status = "gone"; status_code = 410; header = ("x", "y") ∷ []; body = "" };
  proxy_url = record { scheme = "http"; host = "b.org"; path = "/v2" };
  priority = p;
  weight = 100;
  kind = kind;
  insecure = false;
}

abbrev request : Request
request = record {
  method = "GET";
  host = "a.org";
  path = "/v1/users";
  header_get = λ k. "";
  query_get = λ k. "";
}

abbrev table : List (Route ℕ)
table = route (pos 2) "/v1" "proxy" ∷ route (negsuc 0) "/v1/users" "" ∷ []

abbrev swap : List (Route ℕ) → List (Route ℕ)
swap [] = []
swap (x ∷ []) = x ∷ []
swap (x ∷ y ∷ rs) = if less y x then y ∷ x ∷ rs else x ∷ y ∷ rs

swaps : (r : Route ℕ) → In floats r (swap table) ↔ In floats r table
swaps r = (
  λ h. elim h [ inl e ↦ inr (inl e) | inr m ↦ elim m [ inl e ↦ inl e | inr x ↦ absurd x ] ],
  λ h. elim h [ inl e ↦ inr (inl e) | inr m ↦ elim m [ inl e ↦ inl e | inr x ↦ absurd x ] ],
)

handle_test :
    handle floats (λ n. 50) (swap table) request 0
    ≡ set_header "x" "y" ∷ write_header 410 ∷ write "gone" ∷ []
unfolding handle choose match fits strip write_route
handle_test = refl

handle-run_example :
    (r : Route ℕ) × (handle floats
        (λ n. 50)
        (run floats swap (next_error ∷ scanned table ∷ unscannable ∷ []) (swap []))
        request
        0
      ≡ write_route floats r request)
    × In floats r table
    × (fits r.request request ≡ true)
    × (less (route (pos 2) "/v1" "proxy") r ≡ false)
handle-run_example =
    handle-run floats swap (next_error ∷ scanned table ∷ unscannable ∷ []) [] (λ n. 50) request 0
      (route (pos 2) "/v1" "proxy") ((refl, tt), (tt, tt)) swaps (inl refl)
      (unfold fits strip in refl) (refl, λ n. refl)

handle_default_example :
    handle floats (λ n. 50) (route (pos 0) "/x" "" ∷ []) request 0 ≡ default_handler ∷ []
handle_default_example =
    handle_default floats (λ n. 50) (route (pos 0) "/x" "" ∷ []) request 0
      (unfold fits strip in (refl, tt))
