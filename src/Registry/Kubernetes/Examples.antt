-- ===== src/Registry/Kubernetes/Examples.antt =====
-- Tests of the Kubernetes registry's model, and its theorems at concrete inputs.
use go_plugins.Prelude.{
  String, ◌≡◌, refl, List, [], ◌∷◌, ◌++◌, none, some, ◌==◌, string_eq, nat_eq, if◌then◌else◌, map,
  All, inl, inr,
}
use go_plugins.Prelude.Dict.{lookup}
use go_plugins.Registry.{Node, Service}
use go_plugins.Registry.Kubernetes.Pods.{
  ref, Meta, Pod, Json, type_key, selector_key, annotation_key, service_name, register, get_service,
  services, held,
}
use go_plugins.Registry.Kubernetes.Annotations.{
  IsLabel, service_name_lem, get_service-register, IsReadable, nodes_under, held_nodes,
  get_service-held_nodes,
}
use go_plugins.Registry.Kubernetes.Watch.{
  Result, Watcher, annotations, cached, update_cache, handle_event, modified, deleted,
}
use go_plugins.Registry.Kubernetes.Changes.{readable}
use go_plugins.Registry.Kubernetes.Events.{
  pod_of, pods_of, deletes_of, deleted_lem, update_cache-cached,
}

abbrev node : Node
node = record { id = "n1"; address = "10.0.0.1:80"; metadata = [] }

abbrev service : Service
service = record { name = "a/b"; version = "1"; metadata = []; endpoints = []; nodes = node ∷ [] }

-- A codec that knows one service.
abbrev json : Json
json = record {
  marshal = λ s. some "svc";
  unmarshal =
      λ t. if t == "svc" then some (some service) else if t == "null" then some none else none;
}

service_name_test : service_name "go.micro/é" ≡ "go.micro___"
unfolding service_name
service_name_test = refl

service_name_lem_example :
    IsLabel (service_name "a/b")
    × (IsLabel "a/b" → service_name "a/b" ≡ "a/b")
    × (service_name (service_name "a/b") ≡ service_name "a/b")
service_name_lem_example = service_name_lem "a/b"

abbrev sent : Meta
sent = record {
  name = "";
  labels = (type_key, some (ref "service")) ∷ (selector_key "a/b", some (ref "service")) ∷ [];
  annotations = (annotation_key "a/b", some (ref "svc")) ∷ [];
}

abbrev stored : Meta
stored = record sent { name = "pod-1" }

-- Registered as a/b, and found as a:b.
get_service-register_example :
    get_service json "a:b" none (record { meta = some stored; phase = some "Running" } ∷ [])
    ≡ services (service ∷ [])
get_service-register_example =
    get_service-register json service "a:b" sent stored node [] "svc" refl refl refl
      (unfold register in refl) refl (unfold service_name in refl)

abbrev pods : List Pod
pods = pod_of stored "Pending" ∷ pod_of stored "Running" ∷ []

pods-IsReadable : All (IsReadable json "a/b") pods
unfolding held lookup annotation_key service_name
pods-IsReadable = (inl refl, (inr (service, refl), tt))

get_service-held_nodes_example :
    (m : List (String × Service)) × (get_service json "a/b" none pods
      ≡ services (map (λ (kv : String × Service). kv.1) m))
    × ((v : String) → nodes_under v m ≡ held_nodes json "a/b" v pods)
get_service-held_nodes_example =
    get_service-held_nodes json "a/b" (pod_of stored "Pending") (pod_of stored "Running" ∷ [])
      pods-IsReadable

abbrev key : String
key = "micro.mu/service-x"

abbrev one : Meta
one = record {
  name = "pod-1";
  labels = [];
  annotations = (key, some (record { at = 1; text = "svc" })) ∷ [];
}

abbrev other : Meta
other = record {
  name = "pod-2";
  labels = [];
  annotations = ("micro.mu/service-y", some (record { at = 2; text = "svc" })) ∷ [];
}

abbrev watcher : Watcher
watcher = record { loop_pod = none; pods = []; sent = [] }

deleted_lem_example :
    ((w' : Watcher) × (handle_event json deleted (some (pod_of one "Failed")) watcher ≡ some w')
      × (w'.sent ≡ watcher.sent ++ deletes_of (readable json one.annotations))
      × ((k : String) → cached k w' ≡ (if one.name == k then none else cached k watcher)))
    × ((w' : Watcher) × (handle_event json modified (some (pod_of one "Failed")) watcher ≡ some w')
        × (w'.sent ≡ watcher.sent ++ deletes_of (readable json one.annotations)))
deleted_lem_example = deleted_lem json one "Failed" watcher refl

update_cache-cached_example :
    (rs : List Result) × (w' : Watcher) × (update_cache json
        (pods_of "Running" (one ∷ []) ++ pod_of other "Running" ∷ [])
        watcher
      ≡ some (rs, w'))
    × (cached "pod-1" w' ≡ some (pod_of other "Running"))
update_cache-cached_example =
    update_cache-cached json "Running" (one ∷ []) other watcher "pod-1" refl
