-- ===== src/Registry/Kubernetes/Watch.antt =====
-- registry/kubernetes/watcher.go, and `ListServices` of kubernetes.go. `none` is a panic. What is put on the
-- channel is collected. The cache holds pointers to pods: the pods of `updateCache` share the variable of
-- its loop, those of an event have a variable of their own.
use go_plugins.Prelude.{
  ℕ, String, Bool, true, false, not, ◌&&◌, ◌||◌, List, [], ◌∷◌, ◌++◌, Option, none, some, ◌==◌,
  string_eq, nat_eq, if◌then◌else◌, map, is_some,
}
use go_plugins.Prelude.Dict.{Dict, lookup, insert, remove}
use go_plugins.Registry.{Service}
use go_plugins.Registry.Kubernetes.Pods.{
  Ref, Strings, Meta, Pod, Json, Fault, client_fault, is_service_key,
}

-- The names that `ListServices` collects.
unfoldable pub annotation_names : Json → Strings → Dict String Bool → Option (Dict String Bool)
annotation_names j [] names = some names
annotation_names j ((k, v) ∷ ann) names =
    if not (is_service_key k) then annotation_names j ann names else elim v [
      | none ↦ none
      | some r ↦ elim (j.unmarshal r.text) [
        | none ↦ annotation_names j ann names
        | some none ↦ annotation_names j ann (insert "" true names)
        | some (some s) ↦ annotation_names j ann (insert s.name true names)
      ]
    ]

unfoldable pub pod_names : Json → List Pod → Dict String Bool → Option (Dict String Bool)
unfolding annotation_names
pod_names j [] names = some names
pod_names j (p ∷ ps) names = elim p.phase [
  | none ↦ none
  | some ph ↦ if not (ph == "Running") then pod_names j ps names else elim p.meta [
    | none ↦ none
    | some m ↦ elim (annotation_names j m.annotations names) [
      | none ↦ none
      | some names' ↦ pod_names j ps names'
    ]
  ]
]

pub data Listing : Type 0 where
  crash : Listing
  failed : Fault → Listing
  names : List String → Listing

unfoldable pub list_services : Json → Option ℕ → List Pod → Listing
unfolding pod_names
list_services j (some e) ps = failed (client_fault e)
list_services j none ps = elim (pod_names j ps []) [
  | none ↦ crash
  | some ns ↦ names (map (λ (kv : String × Bool). kv.0) ns)
]

pub data Action : Type 0 where
  create update delete : Action

-- The service is a pointer, which the JSON value null leaves nil.
pub record Result : Type 0 where
  pub action : Action
  pub service : Option Service

-- The annotations of a pod, none where it has no metadata.
abbrev pub annotations : Option Pod → Strings
annotations none = []
annotations (some p) = elim p.meta [ none ↦ [] | some m ↦ m.annotations ]

-- The cached annotation is the same pointer.
abbrev pub identical : Ref → Option (Option Ref) → Bool
identical av none = false
identical av (some none) = false
identical av (some (some cav)) = cav.at == av.at

-- The first loop of `buildPodResults`.
unfoldable pub present : Json → Strings → Strings → List Result
present j [] cache = []
present j ((ak, av) ∷ ann) cache =
    let rest = present j ann cache in
    if not (is_service_key ak) then rest else elim av [
      | none ↦ rest
      | some r ↦ if identical r (lookup ak cache) then rest else elim (j.unmarshal r.text) [
        | none ↦ rest
        | some s ↦
            record { action = if is_some (lookup ak cache) then update else create; service = s }
            ∷ rest
      ]
    ]

-- The keys that the first loop has taken care of.
abbrev pub ignored : String → Strings → Bool
ignored ak [] = false
ignored ak ((k, av) ∷ ann) = (is_service_key k && (is_some av && k == ak)) || ignored ak ann

-- The second loop, over the cached annotations.
unfoldable pub absent : Json → Strings → Strings → Option (List Result)
absent j ann [] = some []
absent j ann ((ak, av) ∷ cache) =
    let rest = absent j ann cache in
    if ignored ak ann || not (is_service_key ak) then rest else elim av [
      | none ↦ none
      | some r ↦ elim (j.unmarshal r.text) [
        | none ↦ rest
        | some s ↦ elim rest [
          | none ↦ none
          | some rs ↦ some (record { action = delete; service = s } ∷ rs)
        ]
      ]
    ]

unfoldable pub build_pod_results : Json → Option Pod → Option Pod → Option (List Result)
unfolding present absent
build_pod_results j pod cache = elim (absent j (annotations pod) (annotations cache)) [
  | none ↦ none
  | some rs ↦ some (present j (annotations pod) (annotations cache) ++ rs)
]

pub data Pointer : Type 0 where
  loop_variable : Pointer
  own : Pod → Pointer

pub record Watcher : Type 0 where
  -- What the loop variable of `updateCache` holds.
  pub loop_pod : Option Pod
  pub pods : Dict String Pointer
  pub sent : List Result

-- `k.pods[name]`.
abbrev pub cached : String → Watcher → Option Pod
cached name w = elim (lookup name w.pods) [
  | none ↦ none
  | some loop_variable ↦ w.loop_pod
  | some (own p) ↦ some p
]

-- The loop of `updateCache`, with its results.
unfoldable pub update_cache : Json → List Pod → Watcher → Option (List Result × Watcher)
unfolding build_pod_results
update_cache j [] w = some ([], w)
update_cache j (p ∷ ps) w = elim (build_pod_results j (some p) none) [
  | none ↦ none
  | some rs ↦ elim p.meta [
    | none ↦ none
    | some m ↦
        elim (update_cache j ps
          (record w { loop_pod = some p; pods = insert m.name loop_variable w.pods })) [
            | none ↦ none
            | some (more, w') ↦ some (rs ++ more, w')
          ]
  ]
]

pub data Kind : Type 0 where
  modified deleted other : Kind

abbrev pub all_deleted : List Result → List Result
all_deleted rs = map (λ (r : Result). record r { action = delete }) rs

-- A modified pod, whose metadata is `m` and whose phase is `ph`.
unfoldable pub modify : Json → Pod → Meta → String → Watcher → Option Watcher
unfolding build_pod_results
modify j p m ph w =
    let running = ph == "Running" in
    elim (build_pod_results j (some p) (if running then cached m.name w else none)) [
      | none ↦ none
      | some rs ↦ some (record w {
        sent = w.sent ++ (if running then rs else all_deleted rs);
        pods = insert m.name (own p) w.pods;
      })
    ]

unfoldable pub drop_pod : Json → Pod → Watcher → Option Watcher
unfolding build_pod_results
drop_pod j p w = elim (build_pod_results j (some p) none) [
  | none ↦ none
  | some rs ↦ elim p.meta [
    | none ↦ none
    | some m ↦ some (record w { sent = w.sent ++ all_deleted rs; pods = remove m.name w.pods })
  ]
]

-- `handleEvent`; an object that cannot be read is `none`.
unfoldable pub handle_event : Json → Kind → Option Pod → Watcher → Option Watcher
unfolding modify drop_pod
handle_event j k none w = some w
handle_event j other (some p) w = some w
handle_event j modified (some p) w = elim p.meta [
  | none ↦ none
  | some m ↦ elim p.phase [ none ↦ none | some ph ↦ modify j p m ph w ]
]
handle_event j deleted (some p) w = drop_pod j p w
