-- ===== src/Codec/JsonRpc2/Errors.antt =====
-- codec/jsonrpc2/errors.go: the error codes, and the code that is found for a message.
use text.Mathlib.Text.{starts_with}
use go_plugins.Prelude.{ℕ, String, Bool, false, ◌&&◌, List, [], ◌∷◌, ◌==◌, nat_eq, if◌then◌else◌}
use go_plugins.Codec.JsonRpc2.Json.{codes}

-- The codes of the source, named; each is the negative of the number.
pub data Code : Type 0 where
  parse_error invalid_request method_not_found invalid_params internal_error server_error
        marshal_error :
      Code

-- Their absolute values.
unfoldable pub number : Code → ℕ
number parse_error = 32700
number invalid_request = 32600
number method_not_found = 32601
number invalid_params = 32602
number internal_error = 32603
number server_error = 32000
number marshal_error = 32001

pub record RpcError : Type 0 where
  pub code : Code
  pub message : String

-- `newError`.
unfoldable pub detect : String → RpcError
detect message =
    if starts_with message "rpc: service/method request ill-formed"
    then record { code = method_not_found; message = message }
    else if starts_with message "rpc: can't find service"
    then record { code = method_not_found; message = message }
    else if starts_with message "rpc: can't find method"
    then record { code = method_not_found; message = message }
    else record { code = server_error; message = message }

unfoldable pub last_is : ℕ → List ℕ → Bool
last_is c [] = false
last_is c (x ∷ []) = x == c
last_is c (x ∷ y ∷ r) = last_is c (y ∷ r)

unfoldable pub first_is : ℕ → List ℕ → Bool
first_is c [] = false
first_is c (x ∷ r) = x == c

-- The test by which `Write` takes an error text for JSON.
unfoldable pub looks_like_json : String → Bool
unfolding first_is last_is
looks_like_json s = first_is b'{' (codes s) && last_is b'}' (codes s)
