-- ===== src/Config/Types.antt =====
-- server.go and agent.go: the decoded configurations. Durations are signed numbers of nanoseconds.
use incus_spire_attestor.Prelude.{List, Bytes}
use incus_spire_attestor.Golang.Json.{GoInt}

pub record Agent : Type 0 where
  pub project : Bytes
  pub poll_timeout : GoInt

pub record Server : Type 0 where
  pub incus_endpoint : Bytes
  pub tls_ca_path : Bytes
  pub tls_cert_path : Bytes
  pub tls_key_path : Bytes
  pub projects : List Bytes
  pub user_selectors : List Bytes
  pub incus_timeout : GoInt
  pub challenge_response_timeout : GoInt
  pub cleanup_timeout : GoInt
