-- ===== src/Main.antt =====
-- createClientsFromConfig and getEnv of main.go. The rest of main.go declares flags and starts the
-- servers and the controller.
pub mod Made
pub mod Clients
use semaphore_xds.Prelude.{
  ℕ, String, Bool, Option, none, some, List, [], ◌∷◌, ◌++◌, if◌then◌else◌, ◌==◌, string_eq,
}
use semaphore_xds.Prelude.Result.{ok, err, panic}
use semaphore_xds.Config.{Config, RemoteClusterConfig, parse_config}

-- A call either returns or ends the process with a status.
pub data Outcome {ℓ} (A : Type ℓ) : Type ℓ where
  returned : A → Outcome A
  exited : ℕ → Outcome A

-- What main.go uses of other packages and of kube/client.go, whose clients are not looked into.
pub record Host : Type 1 where
  pub Client : Type 0
  -- os.ReadFile, with the bytes as a text; `none` is an error
  pub read_file : String → Option String
  -- json.Unmarshal
  pub unmarshal : String → Option Config
  -- strings.TrimSpace and bearerRe.Match
  pub trim_space : String → String
  pub is_bearer : String → Bool
  -- kube.NewClientFromConfig(path) and kube.NewClient(token, apiURL, caURL); `none` is an error
  pub new_client_from_config : String → Option Client
  pub new_client : String → String → String → Option Client

-- os.Getenv is an argument
unfoldable pub get_env : (String → String) → String → String → String
get_env getenv key default_value =
    let value : String = getenv key in if value == "" then default_value else value

-- usage() prints the flags and exits.
abbrev pub or_usage {ℓ κ} : {A : Type ℓ} {B : Type κ} → Option A → (A → Outcome B) → Outcome B
or_usage none next = exited 1
or_usage (some a) next = next a

-- An error is logged, and os.Exit(1) follows.
abbrev pub or_exit {ℓ κ} : {A : Type ℓ} {B : Type κ} → Option A → (A → Outcome B) → Outcome B
or_exit none next = exited 1
or_exit (some a) next = next a

module _ (host : Host) where
  -- the token that is given to the client, from the file's content; `none` where it does not match
  unfoldable pub sa_token : String → Option String
  sa_token content =
      if content == ""
      then some ""
      else if host.is_bearer (host.trim_space content)
      then some (host.trim_space content)
      else none

  -- the body of the loop over the remote clusters
  unfoldable pub remote_client : RemoteClusterConfig → Outcome host.Client
  unfolding sa_token
  remote_client remote =
      if remote.kube_config_path == ""
      then (or_exit (host.read_file remote.sa_token_path) λ content.
          or_exit (sa_token content) λ token.
            or_exit (host.new_client token remote.api_url remote.ca_url) λ client. returned client)
      else or_exit (host.new_client_from_config remote.kube_config_path) λ client. returned client

  -- A nil pointer is followed, which is a panic, and ends the process with 2.
  unfoldable pub remote_clients_loop :
      List (Option RemoteClusterConfig) → List host.Client → Outcome (List host.Client)
  unfolding remote_client
  remote_clients_loop [] remote_clients = returned remote_clients
  remote_clients_loop (none ∷ remotes) remote_clients = exited 2
  remote_clients_loop (some remote ∷ remotes) remote_clients = elim (remote_client remote) [
    | exited status ↦ exited status
    | returned client ↦ remote_clients_loop remotes (remote_clients ++ client ∷ [])
  ]

  -- the clients of a configuration that was parsed
  unfoldable pub configured_clients : Config → Outcome (host.Client × List host.Client)
  unfolding remote_clients_loop
  configured_clients config =
      or_usage (host.new_client_from_config config.local_kube_config_path) λ local_client.
        elim (remote_clients_loop config.remotes []) [
          | exited status ↦ exited status
          | returned remote_clients ↦ returned (local_client, remote_clients)
        ]

  -- A panic ends the process with 2.
  unfoldable pub create_clients_from_config : String → Outcome (host.Client × List host.Client)
  unfolding configured_clients parse_config
  create_clients_from_config config_path =
      if config_path == ""
      then (or_usage (host.new_client_from_config "") λ local_client. returned (local_client, []))
      else or_exit (host.read_file config_path) λ content.
        elim (parse_config host.unmarshal content) [
          | ok config ↦ configured_clients config
          | err e ↦ exited 1
          | panic ↦ exited 2
        ]
