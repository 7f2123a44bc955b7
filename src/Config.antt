-- ===== src/Config.antt =====
-- The configuration of clusters: config.go. What json.Unmarshal reads, `none` for an error, is an
-- argument.
use semaphore_xds.Prelude.{
  ◌++◌, ap, arith, beq_of_ne, ne_of_beq, inr, inl, Bool-cases, Option-cases, String, ◌≡◌, ◌≢◌, refl,
  ◌⊎◌, Bool, true, false, ◌||◌, ◌&&◌, Option, none, some, List, [], ◌∷◌, All, if◌then◌else◌, ◌==◌,
  string_eq,
}
use semaphore_xds.Prelude.Result.{Result, ok, err, panic}

-- remoteClusterConfig
pub record RemoteClusterConfig : Type 0 where
  pub kube_config_path : String
  pub api_url : String
  pub ca_url : String
  pub sa_token_path : String

-- Config; localClusterConfig has one field. Remotes is a list of pointers, which are nil where the
-- JSON text says null.
pub record Config : Type 0 where
  pub local_kube_config_path : String
  pub remotes : List (Option RemoteClusterConfig)

abbrev pub insufficient : String
insufficient =
    "Insufficient configuration to create remote cluster client. Set kubeConfigPath or apiURL and caURL and saTokenPath"

-- the condition of the loop's if
abbrev pub lacks : RemoteClusterConfig → Bool
lacks r = (r.api_url == "" || (r.ca_url == "" || r.sa_token_path == "")) && r.kube_config_path == ""

unfoldable pub remotes_loop : Config → List (Option RemoteClusterConfig) → Result Config
remotes_loop conf [] = ok conf
remotes_loop conf (none ∷ remotes) = panic
remotes_loop conf (some r ∷ remotes) =
    if lacks r then err insufficient else remotes_loop conf remotes

unfoldable pub parse_config : {Raw : Type 0} → (Raw → Option Config) → Raw → Result Config
unfolding remotes_loop
parse_config unmarshal raw = elim (unmarshal raw) [
  | none ↦ err "error unmarshalling config"
  | some conf ↦ remotes_loop conf conf.remotes
]

-- A client can be made: there is a path of a kubeconfig, or all of the three others.
abbrev pub IsSufficient : RemoteClusterConfig → Type 0
IsSufficient r =
    (r.kube_config_path ≢ "") ⊎ ((r.api_url ≢ "") × (r.ca_url ≢ "") × (r.sa_token_path ≢ ""))

tests_lem :
    (a b c k : Bool)
    → ((a || (b || c)) && k) ≡ false
    → (k ≡ false) ⊎ ((a ≡ false) × (b ≡ false) × (c ≡ false))
tests_lem a b c false h = inl refl
tests_lem false false false true h = inr (refl, refl, refl)
tests_lem true b c true h = cc
tests_lem false true c true h = cc
tests_lem false false true true h = cc

lacks-IsSufficient : (r : RemoteClusterConfig) → lacks r ≡ false → IsSufficient r
lacks-IsSufficient r h =
    elim (tests_lem (r.api_url == "") (r.ca_url == "") (r.sa_token_path == "")
      (r.kube_config_path == "") h) [
        | inl e ↦ inl (ne_of_beq _ _ e)
        | inr (a, b, c) ↦ inr (ne_of_beq _ _ a, ne_of_beq _ _ b, ne_of_beq _ _ c)
      ]

IsSufficient-lacks : (r : RemoteClusterConfig) → IsSufficient r → lacks r ≡ false
IsSufficient-lacks r (inl k) = rw (beq_of_ne _ _ k) (ground arith)
IsSufficient-lacks r (inr (a, b, c)) = rw (beq_of_ne _ _ a, beq_of_ne _ _ b, beq_of_ne _ _ c) refl

-- The pointer is not nil, and a client can be made.
abbrev pub IsGiven : Option RemoteClusterConfig → Type 0
IsGiven none = ⊥
IsGiven (some r) = IsSufficient r

-- r is the first of the list that is nil or from which no client can be made.
abbrev pub IsFirstBad : Option RemoteClusterConfig → List (Option RemoteClusterConfig) → Type 0
IsFirstBad r rs =
    (before after : List (Option RemoteClusterConfig)) × (rs ≡ before ++ r ∷ after)
    × All IsGiven before
    × ¬ IsGiven r

IsFirstBad-cons :
    (r : RemoteClusterConfig) (bad : Option RemoteClusterConfig)
    (rs : List (Option RemoteClusterConfig))
    → IsSufficient r
    → IsFirstBad bad rs
    → IsFirstBad bad (some r ∷ rs)
IsFirstBad-cons r bad rs h (before, after, e, all, wrong) =
    (some r ∷ before, after, ap (λ xs. some r ∷ xs) e, (h, all), wrong)

-- What comes of a configuration whose remote clusters are rs.
abbrev pub Parsed : Config → List (Option RemoteClusterConfig) → Result Config → Type 0
Parsed conf rs m =
    ((m ≡ ok conf) × All IsGiven rs)
    ⊎ (((r : RemoteClusterConfig) × (m ≡ err insufficient) × IsFirstBad (some r) rs)
        ⊎ ((m ≡ panic) × IsFirstBad none rs))

remotes_loop_lem :
    (conf : Config) (rs : List (Option RemoteClusterConfig)) → Parsed conf rs (remotes_loop conf rs)
unfolding remotes_loop
remotes_loop_lem conf [] = inl (refl, tt)
remotes_loop_lem conf (none ∷ rs) = inr (inr (refl, ([], rs, refl, tt, λ h. h)))
remotes_loop_lem conf (some r ∷ rs) = elim (Bool-cases (lacks r)) [
  | inl e ↦
      inr (
        inl
          (r, rw e refl, ([], rs, refl, tt, λ h. absurd (ground (arith, IsSufficient-lacks r h)))))
  | inr e ↦ elim (remotes_loop_lem conf rs) [
    | inl (q, h) ↦ inl (rw e q, (lacks-IsSufficient r e, h))
    | inr (inl (b, q, f)) ↦
        inr (inl (b, rw e q, IsFirstBad-cons r (some b) rs (lacks-IsSufficient r e) f))
    | inr (inr (q, f)) ↦ inr (inr (rw e q, IsFirstBad-cons r none rs (lacks-IsSufficient r e) f))
  ]
]

-- Where the configuration can be read it is returned whole if no remote cluster is nil and each has
-- a path of a kubeconfig or all of the API's URL, the CA's URL and the path of a token. Otherwise the
-- first remote cluster that is not so decides: there is an error if it has too little, and a panic
-- if it is nil.
pub parse_config_lem :
    {Raw : Type 0} (unmarshal : Raw → Option Config) (raw : Raw) (conf : Config)
    → unmarshal raw ≡ some conf
    → Parsed conf conf.remotes (parse_config unmarshal raw)
unfolding parse_config
parse_config_lem unmarshal raw conf h = rw (h, parse_config) (remotes_loop_lem conf conf.remotes)

-- A configuration that is returned has remote clusters that are given.
pub parse_config-cases :
    {Raw : Type 0} (unmarshal : Raw → Option Config) (raw : Raw)
    → ((conf : Config) × (parse_config unmarshal raw ≡ ok conf) × All IsGiven conf.remotes)
      ⊎ (((message : String) × (parse_config unmarshal raw ≡ err message))
          ⊎ (parse_config unmarshal raw ≡ panic))
unfolding parse_config
parse_config-cases unmarshal raw = elim (Option-cases (unmarshal raw)) [
  | inl h ↦ inr (inl ("error unmarshalling config", rw (h, parse_config) refl))
  | inr (conf, h) ↦ elim (remotes_loop_lem conf conf.remotes) [
    | inl (q, all) ↦ inl (conf, rw (h, parse_config) q, all)
    | inr (inl (r, q, f)) ↦ inr (inl (insufficient, rw (h, parse_config) q))
    | inr (inr (q, f)) ↦ inr (inr (rw (h, parse_config) q))
  ]
]
