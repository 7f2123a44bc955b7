-- ===== src/Main/Made.antt =====
-- How the clients of remote clusters are made, and that the process ends where one cannot be.
use mathlib.Core.List.{append_assoc, append-nil}
use semaphore_xds.Prelude.{
  All, String, ◌≡◌, ◌≢◌, ◌⊎◌, ◌∙◌, refl, sym, ap, true, some, List, [], ◌∷◌, ◌++◌, inl, inr,
  Bool-cases, Option-cases, Option, none, ◌==◌, eq_of_beq, ne_of_beq, beq_of_ne, string_eq,
}
use semaphore_xds.Config.{RemoteClusterConfig, IsGiven}
use semaphore_xds.Main.{
  Option, returned, exited, Host, sa_token, remote_client, remote_clients_loop,
}

module _ (host : Host) where
  -- How a remote cluster's client is made.
  pub data IsMade (r : RemoteClusterConfig) (client : host.Client) : Type 0 where
    from_kubeconfig :
        r.kube_config_path ≢ ""
        → host.new_client_from_config r.kube_config_path ≡ some client
        → IsMade r client
    with_token :
        (content : String)
        → r.kube_config_path ≡ ""
        → host.read_file r.sa_token_path ≡ some content
        → content ≢ ""
        → host.is_bearer (host.trim_space content) ≡ true
        → host.new_client (host.trim_space content) r.api_url r.ca_url ≡ some client
        → IsMade r client
    without_token :
        r.kube_config_path ≡ ""
        → host.read_file r.sa_token_path ≡ some ""
        → host.new_client "" r.api_url r.ca_url ≡ some client
        → IsMade r client

  -- One client for each remote cluster, in order, none of which is nil.
  abbrev pub AreMade : List (Option RemoteClusterConfig) → List host.Client → Type 0
  AreMade [] [] = Unit
  AreMade [] (c ∷ cs) = ⊥
  AreMade (r ∷ rs) [] = ⊥
  AreMade (none ∷ rs) (c ∷ cs) = ⊥
  AreMade (some r ∷ rs) (c ∷ cs) = IsMade r c × AreMade rs cs

  pub IsMade-client :
      (r : RemoteClusterConfig) (client : host.Client)
      → IsMade r client
      → remote_client host r ≡ returned client
  unfolding remote_client
  IsMade-client r client (from_kubeconfig k e) = rw (beq_of_ne _ _ k, e, remote_client) refl
  IsMade-client r client (with_token content k e n m c) =
      rw (k, e, beq_of_ne content "" n, m, c, remote_client, sa_token) refl
  IsMade-client r client (without_token k e c) = rw (k, e, c, remote_client, sa_token) refl

  -- The same for the clients that are made by a token.
  token_client_lem :
      (r : RemoteClusterConfig)
      → (r.kube_config_path == "") ≡ true
      → ((client : host.Client) × (remote_client host r ≡ returned client) × IsMade r client)
        ⊎ (remote_client host r ≡ exited 1)
  unfolding remote_client
  token_client_lem r k = elim (Option-cases (host.read_file r.sa_token_path)) [
    | inl e ↦ inr (rw (k, e, remote_client) refl)
    | inr (content, e) ↦ elim (Bool-cases (content == "")) [
      | inl n ↦ elim (Option-cases (host.new_client "" r.api_url r.ca_url)) [
        | inl c ↦ inr (rw (k, e, n, c, remote_client, sa_token) refl)
        | inr (client, c) ↦ inl (
          client,
          rw (k, e, n, c, remote_client, sa_token) refl,
          without_token (eq_of_beq _ _ k) (e ∙ ap some (eq_of_beq content "" n)) c,
        )
      ]
      | inr n ↦ elim (Bool-cases (host.is_bearer (host.trim_space content))) [
        | inl m ↦
            elim (Option-cases (host.new_client (host.trim_space content) r.api_url r.ca_url)) [
              | inl c ↦ inr (rw (k, e, n, m, c, remote_client, sa_token) refl)
              | inr (client, c) ↦ inl (
                client,
                rw (k, e, n, m, c, remote_client, sa_token) refl,
                with_token content (eq_of_beq _ _ k) e (ne_of_beq content "" n) m c,
              )
            ]
        | inr m ↦ inr (rw (k, e, n, m, remote_client, sa_token) refl)
      ]
    ]
  ]

  -- A remote cluster has a client that was made, or the process ends.
  remote_client_lem :
      (r : RemoteClusterConfig)
      → ((client : host.Client) × (remote_client host r ≡ returned client) × IsMade r client)
        ⊎ (remote_client host r ≡ exited 1)
  unfolding remote_client
  remote_client_lem r = elim (Bool-cases (r.kube_config_path == "")) [
    | inl k ↦ token_client_lem r k
    | inr k ↦ elim (Option-cases (host.new_client_from_config r.kube_config_path)) [
      | inl e ↦ inr (rw (k, e, remote_client) refl)
      | inr (c, e) ↦ inl (c, rw (k, e, remote_client) refl, from_kubeconfig (ne_of_beq _ _ k) e)
    ]
  ]

  pub AreMade-clients :
      (rs : List (Option RemoteClusterConfig)) (cs acc : List host.Client)
      → AreMade rs cs
      → remote_clients_loop host rs acc ≡ returned (acc ++ cs)
  unfolding remote_clients_loop
  AreMade-clients [] [] acc h = ap returned (sym (append-nil acc))
  AreMade-clients [] (c ∷ cs) acc h = absurd h
  AreMade-clients (r ∷ rs) [] acc h = absurd h
  AreMade-clients (none ∷ rs) (c ∷ cs) acc h = absurd h
  AreMade-clients (some r ∷ rs) (c ∷ cs) acc h =
      rw (IsMade-client r c h.0, remote_clients_loop)
        (AreMade-clients rs cs (acc ++ c ∷ []) h.1 ∙ ap returned (append_assoc acc (c ∷ []) cs))

  -- Where no remote cluster is nil the loop returns clients that were made, or the process ends.
  pub remote_clients_loop_lem :
      (rs : List (Option RemoteClusterConfig)) (acc : List host.Client)
      → All IsGiven rs
      → ((cs : List host.Client) × (remote_clients_loop host rs acc ≡ returned (acc ++ cs))
          × AreMade rs cs)
        ⊎ (remote_clients_loop host rs acc ≡ exited 1)
  unfolding remote_clients_loop
  remote_clients_loop_lem [] acc h = inl ([], ap returned (sym (append-nil acc)), tt)
  remote_clients_loop_lem (none ∷ rs) acc h = absurd h.0
  remote_clients_loop_lem (some r ∷ rs) acc h = elim (remote_client_lem r) [
    | inr e ↦ inr (rw (e, remote_clients_loop) refl)
    | inl (c, e, made) ↦ elim (remote_clients_loop_lem rs (acc ++ c ∷ []) h.1) [
      | inr q ↦ inr (rw (e, q, remote_clients_loop) refl)
      | inl (cs, q, rest) ↦ inl (
        c ∷ cs,
        rw (e, q, remote_clients_loop) (ap returned (append_assoc acc (c ∷ []) cs)),
        (made, rest),
      )
    ]
  ]
