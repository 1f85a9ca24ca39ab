-- ===== src/Registry/Eureka/Examples.antt =====
-- Tests of the Eureka registry's model, and its theorems at concrete inputs.
use go_plugins.Prelude.{String, ◌≡◌, refl, [], ◌∷◌, some, ◌==◌, string_eq, if◌then◌else◌}
use go_plugins.Prelude.Dict.{lookup, insert}
use go_plugins.Registry.{Node, Service}
use go_plugins.Registry.Eureka.{
  Util, Instance, Application, up, node_of, metadata_of, endpoints_of, add_instance, add_instances,
  app_to_service,
}
use go_plugins.Registry.Eureka.Instances.{versioned, as_one, app_to_service_lem}

-- Codecs of empty lists.
abbrev util : Util
util = record {
  to_lower = λ s. if s == "GREETER" then "greeter" else s;
  split = λ a. if a == "10.0.0.1:80" then ("10.0.0.1", 80) else ("", 0);
  join = λ h p. if h == "" then ":80" else "10.0.0.1:80";
  unique = λ a i. i;
  marshal_endpoints = λ e. some "[]";
  unmarshal_endpoints = λ s. [];
  marshal_metadata = λ m. some "{}";
  unmarshal_metadata = λ s. [];
}

abbrev instance_of : String → String → Instance
instance_of v addr = record {
  app = "GREETER";
  host_name = addr;
  ip_addr = addr;
  port = 80;
  id = v;
  status = up;
  metadata = ("version", v) ∷ [];
}

abbrev application : Application
application = record {
  name = "GREETER";
  instances = instance_of "1" "10.0.0.1:80" ∷ instance_of "2" "10.0.0.1" ∷ [];
}

-- Two versions become one, and an address without a port loses its host.
app_to_service_test :
    app_to_service util application
    ≡ record {
      name = "greeter";
      version = "";
      metadata = [];
      endpoints = [];
      nodes =
          record { id = "1"; address = "10.0.0.1:80"; metadata = [] }
          ∷ record { id = "2"; address = ":80"; metadata = [] }
          ∷ [];
    }
      ∷ []
unfolding app_to_service add_instances add_instance lookup insert node_of metadata_of endpoints_of
app_to_service_test = refl

app_to_service_lem_example :
    app_to_service util application ≡ as_one util application.name (versioned application.instances)
app_to_service_lem_example = app_to_service_lem util application

abbrev node : Node
node = record { id = "n1"; address = "10.0.0.1:80"; metadata = [] }

abbrev service : Service
service = record {
  name = "GREETER";
  version = "1";
  metadata = [];
  endpoints = [];
  nodes = node ∷ [];
}
