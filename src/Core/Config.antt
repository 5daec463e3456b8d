-- ===== src/Core/Config.antt =====
-- crates/core/src/config.rs: the configuration, its defaults and the check at startup. Durations are numbers
-- of nanoseconds, as `Duration` counts them. BackpressurePolicy is in Core.Mailbox, TrustProxy in Core.Limits.
use beam_socket.Prelude.{
  inr, inl, ℕ, ◌*◌, ◌^◌, ◌≤◌, ◌≡◌, ◌≢◌, ◌↔◌, refl, Bool, true, false, Option, none, some, List, [],
  ◌∷◌, ltb, ◌==◌, arith,
}
use beam_socket.Prelude.Results.{Result-cases, Result, ok, err, ◌>>◌, fail_if}
use beam_socket.Core.Limits.{ClientIpResolver, TrustProxy, never, from_trust_proxy}
use beam_socket.Prelude.Bytes.{Bytes}
use beam_socket.Mesh.Addr.{SocketAddr}
use beam_socket.Core.Mailbox.{BackpressurePolicy, disconnect}

pub record LimitsConfig : Type 0 where
  pub max_payload_bytes : ℕ
  pub max_connections_per_ip : ℕ
  pub max_rooms_per_connection : ℕ

pub record Backpressure : Type 0 where
  pub high_water_mark : ℕ
  pub policy : BackpressurePolicy

pub record Keepalive : Type 0 where
  pub ping_interval : ℕ
  pub pong_timeout : ℕ

pub record AuthorizeConfig : Type 0 where
  pub timeout : ℕ
  pub max_pending : ℕ

pub record ClusterConfig : Type 0 where
  pub node_id : ℕ
  pub listen : SocketAddr
  pub seeds : List SocketAddr
  pub secret : Bytes
  pub cluster_name : Bytes

pub record Config : Type 0 where
  pub limits : LimitsConfig
  pub backpressure : Backpressure
  pub keepalive : Keepalive
  pub trust_proxy : TrustProxy
  pub authorize : AuthorizeConfig
  pub sampler_ms : ℕ
  pub cluster : Option ClusterConfig

abbrev pub millis : ℕ → ℕ
millis ms = ms * 1000000

abbrev pub default_limits : LimitsConfig
default_limits = record {
  max_payload_bytes = 2 ^ 20;
  max_connections_per_ip = 0;
  max_rooms_per_connection = 100;
}

abbrev pub default_backpressure : Backpressure
default_backpressure = record { high_water_mark = 64 * 1024; policy = disconnect }

abbrev pub default_keepalive : Keepalive
default_keepalive = record { ping_interval = millis 30000; pong_timeout = millis 10000 }

abbrev pub default_authorize : AuthorizeConfig
default_authorize = record { timeout = millis 10000; max_pending = 8192 }

abbrev pub default_config : Config
default_config = record {
  limits = default_limits;
  backpressure = default_backpressure;
  keepalive = default_keepalive;
  trust_proxy = never;
  authorize = default_authorize;
  sampler_ms = 1000;
  cluster = none;
}

-- The text of a `ConfigError`, as the check that made it.
pub data ConfigError : Type 0 where
  zero_max_payload zero_high_water_mark short_ping_interval short_pong_timeout : ConfigError
  short_authorize_timeout zero_max_pending bad_trust_proxy empty_cluster_secret : ConfigError

abbrev pub is_empty : Bytes → Bool
is_empty [] = true
is_empty (b ∷ bs) = false

abbrev pub check_cluster : Option ClusterConfig → Result ConfigError (Unit {0})
check_cluster none = ok tt
check_cluster (some c) = fail_if (is_empty c.secret) empty_cluster_secret

module _ {Net : Type 0} (parse_net : Bytes → Option Net) where
  abbrev pub check_proxies : TrustProxy → Result ConfigError (Unit {0})
  check_proxies proxy = elim (from_trust_proxy parse_net proxy) [
    | ok resolver ↦ ok tt
    | err e ↦ err bad_trust_proxy
  ]

  unfoldable pub validate : Config → Result ConfigError (Unit {0})
  validate c = do
    fail_if (c.limits.max_payload_bytes == 0) zero_max_payload
    fail_if (c.backpressure.high_water_mark == 0) zero_high_water_mark
    fail_if (ltb c.keepalive.ping_interval (millis 1)) short_ping_interval
    fail_if (ltb c.keepalive.pong_timeout (millis 1)) short_pong_timeout
    fail_if (ltb c.authorize.timeout (millis 1)) short_authorize_timeout
    fail_if (c.authorize.max_pending == 0) zero_max_pending
    check_proxies c.trust_proxy
    check_cluster c.cluster

  -- What a configuration has to be for the engine to start.
  pub record IsConfig (c : Config) : Type 0 where
    pub payload : 1 ≤ c.limits.max_payload_bytes
    pub high_water : 1 ≤ c.backpressure.high_water_mark
    pub ping : millis 1 ≤ c.keepalive.ping_interval
    pub pong : millis 1 ≤ c.keepalive.pong_timeout
    pub auth : millis 1 ≤ c.authorize.timeout
    pub room : 1 ≤ c.authorize.max_pending
    pub proxies : (r : ClientIpResolver Net) × (from_trust_proxy parse_net c.trust_proxy ≡ ok r)
    pub secret : (cl : ClusterConfig) → c.cluster ≡ some cl → cl.secret ≢ []

  check_proxies_iff :
      (proxy : TrustProxy)
      → (check_proxies proxy ≡ ok tt)
        ↔ ((r : ClientIpResolver Net) × (from_trust_proxy parse_net proxy ≡ ok r))
  check_proxies_iff proxy = elim (Result-cases (from_trust_proxy parse_net proxy)) [
    | inl (r, e) ↦ (λ h. (r, e), λ h. rw (check_proxies, e) refl)
    | inr (x, e) ↦ (λ h. absurd (ground (arith, e, h)), λ h. absurd (cc (e, h.1)))
  ]

  check_cluster_iff :
      (cluster : Option ClusterConfig)
      → (check_cluster cluster ≡ ok tt)
        ↔ ((cl : ClusterConfig) → cluster ≡ some cl → cl.secret ≢ [])
  check_cluster_iff none = (λ e cl h. absurd (cc h), λ h. refl)
  check_cluster_iff (some c) = by_secret c.secret refl
    where
      by_secret :
          (secret : Bytes)
          → c.secret ≡ secret
          → (check_cluster (some c) ≡ ok tt)
            ↔ ((cl : ClusterConfig) → some c ≡ some cl → cl.secret ≢ [])
      by_secret [] e = (λ h. absurd (ground (arith, e, h)), λ h. absurd (h c refl e))
      by_secret (b ∷ bs) e = (λ h cl k z. absurd (cc (e, k, z)), λ h. rw (check_cluster, e) refl)

  -- `validate` accepts a configuration if and only if its bounds and times are not zero, the networks of its
  -- trusted proxies can be parsed, and its cluster, if it has one, has a secret.
  pub validate_iff : (c : Config) → (validate c ≡ ok tt) ↔ IsConfig c
  unfolding validate
  validate_iff c = (
    λ e. record {
      payload = ground arith;
      high_water = ground arith;
      ping = ground arith;
      pong = ground arith;
      auth = ground arith;
      room = ground arith;
      proxies = (check_proxies_iff c.trust_proxy).0 (ground arith);
      secret = (check_cluster_iff c.cluster).0 (ground arith);
    },
    λ v. ground (
      arith,
      (check_proxies_iff c.trust_proxy).1 v.proxies,
      (check_cluster_iff c.cluster).1 v.secret,
    ),
  )
