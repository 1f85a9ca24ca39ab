-- ===== src/Registry/Multi/Examples.antt =====
-- Tests of the multi registry's model, and its theorems at concrete inputs.
use go_plugins.Prelude.{◌≡◌, refl, List, [], ◌∷◌, none, some}
use go_plugins.Registry.{Service}
use go_plugins.Registry.Multi.{
  not_found, Answer, Collected, nothing, absorb_found, Run, done, next, found, get_reply,
}
use go_plugins.Registry.Multi.AnyOrder.{Agrees, Agrees-get_reply}

abbrev service : Service
service = record { name = "greeter"; version = "1"; metadata = []; endpoints = []; nodes = [] }

abbrev answers : List Answer
answers =
    record { fault = some not_found; services = [] }
    ∷ record { fault = none; services = service ∷ [] }
    ∷ []

abbrev collected : Collected
collected = record { errs = []; svcs = service ∷ [] }

-- The second answer comes first.
run : Run absorb_found answers nothing collected
unfolding absorb_found
run =
    next (record { fault = some not_found; services = [] } ∷ [])
      (record { fault = none; services = service ∷ [] }) [] refl
      (next [] (record { fault = some not_found; services = [] }) [] refl done)

Agrees-get_reply_example : Agrees (get_reply collected) answers
Agrees-get_reply_example = Agrees-get_reply answers collected run

get_reply_test : get_reply collected ≡ found (service ∷ [])
unfolding get_reply
get_reply_test = refl
