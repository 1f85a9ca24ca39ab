-- ===== src/Registry/Kubernetes/Pods.antt =====
-- registry/kubernetes/kubernetes.go: services as annotations of pods. What the API client and encoding/json
-- answer are parameters. An annotation is a pointer to its text, and nil takes it away; a pointer has an
-- address here, for the watcher compares addresses. `none` is a panic, from a nil pointer.
use Prim.Native.Char.{code}
use Prim.Native.String.{◌++◌ as str_append}
use text.Mathlib.Text.{starts_with}
use go_plugins.Prelude.{
  ℕ, String, Bool, not, ◌&&◌, ◌||◌, List, [], ◌∷◌, ◌++◌, Option, none, some, ◌==◌, string_eq,
  nat_eq, if◌then◌else◌, ltb, leb, map,
}
use go_plugins.Prelude.Dict.{Dict, lookup, insert}
use go_plugins.Registry.{Service}

pub record Ref : Type 0 where
  pub at : ℕ
  pub text : String

abbrev pub Strings : Type 0
Strings = Dict String (Option Ref)

pub record Meta : Type 0 where
  pub name : String
  pub labels : Strings
  pub annotations : Strings

pub record Pod : Type 0 where
  pub meta : Option Meta
  -- `Status.Phase`.
  pub phase : Option String

-- encoding/json on a service; the value null leaves a service as it was.
pub record Json : Type 0 where
  pub marshal : Service → Option String
  pub unmarshal : String → Option (Option Service)

pub data Fault : Type 0 where
  no_node not_found : Fault
  marshal_failed : Fault
  bad_annotation : String → Fault
  client_fault : ℕ → Fault

-- `labelRe` on one byte.
abbrev pub valid : ℕ → Bool
valid c =
    (leb b'a' c && leb c b'z')
    || ((leb b'A' c && leb c b'Z')
        || ((leb b'0' c && leb c b'9') || (c == b'-' || (c == b'_' || c == b'.'))))

-- An underscore for each byte of a character.
abbrev pub blanks : ℕ → String → String
blanks c s =
    if ltb c 128
    then String.◌∷◌ "_" s
    else if ltb c 2048
    then String.◌∷◌ "_" (String.◌∷◌ "_" s)
    else if ltb c 65536
    then String.◌∷◌ "_" (String.◌∷◌ "_" (String.◌∷◌ "_" s))
    else String.◌∷◌ "_" (String.◌∷◌ "_" (String.◌∷◌ "_" (String.◌∷◌ "_" s)))

-- `serviceName`.
unfoldable pub service_name : String → String
service_name String.[] = String.[]
service_name (String.◌∷◌ c s) =
    let rest = service_name s in if valid (code c) then String.◌∷◌ c rest else blanks (code c) rest

unfoldable pub selector_key : String → String
selector_key name = str_append "micro.mu/selector-" (service_name name)

unfoldable pub annotation_key : String → String
annotation_key name = str_append "micro.mu/service-" (service_name name)

abbrev pub type_key : String
type_key = "micro.mu/type"

abbrev pub is_service_key : String → Bool
is_service_key k = starts_with k "micro.mu/service-"

-- What is sent of a pod to `UpdatePod`.
abbrev pub patch : Strings → Strings → Pod
patch labels annotations = record {
  meta = some (record { name = ""; labels = labels; annotations = annotations });
  phase = none;
}

abbrev pub ref : String → Ref
ref x = record { at = 0; text = x }

abbrev answered : Option ℕ → Option Fault
answered none = none
answered (some e) = some (client_fault e)

-- `Register`: its error, and the patch that it sends to the pod, if any. `answer` is UpdatePod's error.
unfoldable pub register : Json → Option ℕ → Service → Option Fault × Option Pod
unfolding selector_key annotation_key
register j answer s = elim s.nodes [
  | [] ↦ (some no_node, none)
  | node ∷ nodes ↦ elim (j.marshal s) [
    | none ↦ (some marshal_failed, none)
    | some b ↦ (
      answered answer,
      some (
          patch
            ((type_key, some (ref "service")) ∷ (selector_key s.name, some (ref "service")) ∷ [])
            ((annotation_key s.name, some (ref b)) ∷ [])),
    )
  ]
]

unfoldable pub deregister : Option ℕ → Service → Option Fault × Option Pod
unfolding selector_key annotation_key
deregister answer s = elim s.nodes [
  | [] ↦ (some no_node, none)
  | node ∷ nodes ↦ (
    answered answer,
    some (patch ((selector_key s.name, none) ∷ []) ((annotation_key s.name, none) ∷ [])),
  )
]

abbrev pub empty_service : Service
empty_service = record { name = ""; version = ""; metadata = []; endpoints = []; nodes = [] }

-- What a pod adds: nothing, a service, a text that cannot be read, or a panic.
pub data Held : Type 0 where
  nothing unreadable panics : Held
  holds : Service → Held

abbrev pub read_text : Json → String → Held
read_text j x = elim (j.unmarshal x) [
  | none ↦ unreadable
  | some none ↦ holds empty_service
  | some (some s) ↦ holds s
]

abbrev pub read_annotation : Json → String → Meta → Held
read_annotation j name m = elim (lookup (annotation_key name) m.annotations) [
  | none ↦ nothing
  | some none ↦ panics
  | some (some r) ↦ read_text j r.text
]

unfoldable pub held : Json → String → Pod → Held
held j name p = elim p.phase [
  | none ↦ panics
  | some ph ↦
      if not (ph == "Running")
      then nothing
      else elim p.meta [ none ↦ panics | some m ↦ read_annotation j name m ]
]

abbrev pub merge : Service → Dict String Service → Dict String Service
merge s svcs = elim (lookup s.version svcs) [
  | none ↦ insert s.version s svcs
  | some vs ↦ insert s.version (record vs { nodes = vs.nodes ++ s.nodes }) svcs
]

pub data Reply : Type 0 where
  crash : Reply
  failed : Fault → Reply
  services : List Service → Reply

-- The loop over the pods.
unfoldable pub collect : Json → String → List Pod → Dict String Service → Reply
unfolding held
collect j name [] svcs = services (map (λ (kv : String × Service). kv.1) svcs)
collect j name (p ∷ ps) svcs = elim (held j name p) [
  | nothing ↦ collect j name ps svcs
  | unreadable ↦ failed (bad_annotation name)
  | panics ↦ crash
  | holds s ↦ collect j name ps (merge s svcs)
]

-- `GetService`, given what ListPods answers: an error or the pods with the label of the name.
unfoldable pub get_service : Json → String → Option ℕ → List Pod → Reply
unfolding collect
get_service j name (some e) ps = failed (client_fault e)
get_service j name none [] = failed not_found
get_service j name none (p ∷ ps) = collect j name (p ∷ ps) []
