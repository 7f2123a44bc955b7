-- ===== src/Main/Clients.antt =====
-- Which clients createClientsFromConfig returns, and that it ends the process otherwise.
use semaphore_xds.Prelude.{
  All, ◌↔◌, subst, String, ◌≡◌, ◌≢◌, ◌⊎◌, ◌∙◌, refl, sym, false, some, List, [], inl, inr,
  Bool-cases, Option-cases, ◌==◌, eq_of_beq, ne_of_beq, beq_of_ne, string_eq,
}
use semaphore_xds.Prelude.Result.{ok, panic}
use semaphore_xds.Config.{Config, parse_config, parse_config-cases, IsGiven}
use semaphore_xds.Main.{
  returned, exited, Host, or_exit, configured_clients, create_clients_from_config,
}
use semaphore_xds.Main.Made.{AreMade, AreMade-clients, remote_clients_loop_lem}

returned_inj {ℓ} : {A : Type ℓ} {a b : A} → returned a ≡ returned b → a ≡ b
returned_inj h = cc

module _ (host : Host) where
  -- The clients that a path of a configuration stands for.
  pub data AreConfigured (path : String) (l : host.Client) (cs : List host.Client) : Type 0 where
    in_cluster :
        path ≡ "" → host.new_client_from_config "" ≡ some l → cs ≡ [] → AreConfigured path l cs
    from_file :
        (content : String) (config : Config)
        → path ≢ ""
        → host.read_file path ≡ some content
        → parse_config host.unmarshal content ≡ ok config
        → host.new_client_from_config config.local_kube_config_path ≡ some l
        → AreMade host config.remotes cs
        → AreConfigured path l cs

  AreConfigured-clients :
      (path : String) (l : host.Client) (cs : List host.Client)
      → AreConfigured path l cs
      → create_clients_from_config host path ≡ returned (l, cs)
  unfolding create_clients_from_config
  AreConfigured-clients path l cs (in_cluster p e n) = rw (p, e, n, create_clients_from_config) refl
  AreConfigured-clients path l cs (from_file content config p f c e made) =
      rw
        (
          beq_of_ne path "" p,
          f,
          or_exit,
          c,
          e,
          AreMade-clients host config.remotes cs [] made,
          create_clients_from_config,
          configured_clients,
        )
        refl

  -- The file of the configuration can be read, and reading it follows a nil pointer.
  abbrev pub ParsePanics : String → Type 0
  ParsePanics path =
      (content : String) × (host.read_file path ≡ some content)
      × (parse_config host.unmarshal content ≡ panic)

  -- What the process comes to.
  abbrev Created : String → Type 0
  Created path =
      ((l : host.Client) × (cs : List host.Client) × (create_clients_from_config host path
          ≡ returned (l, cs))
        × AreConfigured path l cs)
      ⊎ ((create_clients_from_config host path ≡ exited 1)
          ⊎ ((create_clients_from_config host path ≡ exited 2) × ParsePanics path))

  configured_clients_lem :
      (path content : String) (config : Config)
      → (path == "") ≡ false
      → host.read_file path ≡ some content
      → parse_config host.unmarshal content ≡ ok config
      → All IsGiven config.remotes
      → Created path
  unfolding create_clients_from_config configured_clients
  configured_clients_lem path content config p f c g =
      elim (Option-cases (host.new_client_from_config config.local_kube_config_path)) [
        | inl e ↦
            inr
              (inl (rw (p, f, or_exit, c, e, create_clients_from_config, configured_clients) refl))
        | inr (l, e) ↦ elim (remote_clients_loop_lem host config.remotes [] g) [
          | inr q ↦ inr (
              inl
                (rw (p, f, or_exit, c, e, q, create_clients_from_config, configured_clients) refl))
          | inl (cs, q, made) ↦ inl (
            l,
            cs,
            rw (p, f, or_exit, c, e, q, create_clients_from_config, configured_clients) refl,
            from_file content config (ne_of_beq path "" p) f c e made,
          )
        ]
      ]

  created_lem : (path : String) → Created path
  unfolding create_clients_from_config
  created_lem path = elim (Bool-cases (path == "")) [
    | inl p ↦ elim (Option-cases (host.new_client_from_config "")) [
      | inl e ↦ inr (inl (rw (p, e, create_clients_from_config) refl))
      | inr (l, e) ↦ inl (
        l,
        [],
        rw (p, e, create_clients_from_config) refl,
        in_cluster (eq_of_beq path "" p) e refl,
      )
    ]
    | inr p ↦ elim (Option-cases (host.read_file path)) [
      | inl f ↦ inr (inl (rw (p, f, create_clients_from_config) refl))
      | inr (content, f) ↦ elim (parse_config-cases host.unmarshal content) [
        | inr (inl (m, c)) ↦ inr (inl (rw (p, f, or_exit, c, create_clients_from_config) refl))
        | inr (inr c) ↦
            inr (inr (rw (p, f, or_exit, c, create_clients_from_config) refl, (content, f, c)))
        | inl (config, c, g) ↦ configured_clients_lem path content config p f c g
      ]
    ]
  ]

  returned-AreConfigured :
      (path : String) (l : host.Client) (cs : List host.Client)
      → create_clients_from_config host path ≡ returned (l, cs)
      → AreConfigured path l cs
  returned-AreConfigured path l cs h = elim (created_lem path) [
    | inl (l', cs', e, c) ↦
        subst (λ (x : host.Client × List host.Client). AreConfigured path x.0 x.1)
          (returned_inj (sym e ∙ h)) c
    | inr (inl e) ↦ cc
    | inr (inr (e, f)) ↦ cc
  ]

  -- createClientsFromConfig returns a local client and a list of remote ones exactly if: with an empty
  -- path, the in-cluster client can be made and the list is empty; with a path, its file can be read
  -- and parsed, the local client can be made from the configuration's path, and the list has one
  -- client for each remote cluster, in order, made from its kubeconfig if it has a path of one, and
  -- otherwise from the API's URL, the CA's URL and the content of the token's file, which is empty, or
  -- else is trimmed and matches the expression for tokens. In every other case the process exits,
  -- with status 1, or with status 2 where parsing the file follows a nil pointer, a panic.
  pub create_clients_from_config_lem :
      (path : String) (l : host.Client) (cs : List host.Client)
      → ((create_clients_from_config host path ≡ returned (l, cs)) ↔ AreConfigured path l cs)
        × (((clients : host.Client × List host.Client) × (create_clients_from_config host path
                ≡ returned clients))
            ⊎ ((create_clients_from_config host path ≡ exited 1)
                ⊎ ((create_clients_from_config host path ≡ exited 2) × ParsePanics path)))
  create_clients_from_config_lem path l cs = (
    (returned-AreConfigured path l cs, AreConfigured-clients path l cs),
    elim (created_lem path) [ inl (l', cs', e, c) ↦ inl ((l', cs'), e) | inr e ↦ inr e ],
  )
