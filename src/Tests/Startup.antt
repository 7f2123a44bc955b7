-- ===== src/Tests/Startup.antt =====
-- The clients of a configuration with two remote clusters, where a client is its arguments.
use semaphore_xds.Prelude.{
  true, String, ◌≡◌, ◌↔◌, ◌⊎◌, refl, none, some, List, [], ◌∷◌, ◌==◌, string_eq, if◌then◌else◌,
}
use semaphore_xds.Config.{Config}
use semaphore_xds.Main.{Host, returned, exited, create_clients_from_config}
use semaphore_xds.Main.Clients.{create_clients_from_config_lem, AreConfigured, ParsePanics}

abbrev two_remotes : Config
two_remotes = record {
  local_kube_config_path = "local";
  remotes =
      some (record { kube_config_path = "merit"; api_url = ""; ca_url = ""; sa_token_path = "" })
      ∷ some (record {
        kube_config_path = "";
        api_url = "https://api";
        ca_url = "https://ca";
        sa_token_path = "/token";
      })
      ∷ [];
}

abbrev test_host : Host
test_host = record {
  Client = List String;
  read_file = λ path. if path == "/missing" then none else some path;
  unmarshal = λ content. some two_remotes;
  trim_space = λ text. text;
  is_bearer = λ text. text == "/token";
  new_client_from_config = λ path. some (path ∷ []);
  new_client = λ token api_url ca_url. some (token ∷ api_url ∷ ca_url ∷ []);
}

abbrev remote_clients : List (List String)
remote_clients = ("merit" ∷ []) ∷ ("/token" ∷ "https://api" ∷ "https://ca" ∷ []) ∷ []

create_clients_from_config_lem_example :
    ((create_clients_from_config test_host "clusters.json"
        ≡ returned ("local" ∷ [], remote_clients))
      ↔ AreConfigured test_host "clusters.json" ("local" ∷ []) remote_clients)
    × (((clients : List String × List (List String)) × (create_clients_from_config test_host
              "clusters.json"
            ≡ returned clients))
        ⊎ ((create_clients_from_config test_host "clusters.json" ≡ exited 1)
            ⊎ ((create_clients_from_config test_host "clusters.json" ≡ exited 2)
                × ParsePanics test_host "clusters.json")))
create_clients_from_config_lem_example =
    create_clients_from_config_lem test_host "clusters.json" ("local" ∷ []) remote_clients

two_remotes-clients :
    create_clients_from_config test_host "clusters.json" ≡ returned ("local" ∷ [], remote_clients)
unfolding create_clients_from_config
two_remotes-clients = refl

no_file-exits : create_clients_from_config test_host "/missing" ≡ exited 1
unfolding create_clients_from_config
no_file-exits = refl

-- {"remotes": [null]}
null_remote-panics :
    create_clients_from_config
      (record {
        Client = List String;
        read_file = λ path. some path;
        unmarshal =
            λ content. some (record { local_kube_config_path = "local"; remotes = none ∷ [] });
        trim_space = λ text. text;
        is_bearer = λ text. true;
        new_client_from_config = λ path. some (path ∷ []);
        new_client = λ token api_url ca_url. some (token ∷ []);
      })
      "clusters.json"
    ≡ exited 2
unfolding create_clients_from_config
null_remote-panics = refl
