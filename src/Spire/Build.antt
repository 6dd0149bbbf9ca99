-- ===== src/Spire/Build.antt =====
-- readCredential and buildServerRuntime of runtime.go, and New of the host client.
use incus_spire_attestor.Prelude.{ℕ, ◌+◌, String, true, Bytes, leb, length}
use incus_spire_attestor.Errors.{Result, ok, err, Error, text, wrap, require}
use incus_spire_attestor.Exec.{Exec, pure, fail, lift, wrapped, attempt, ◌>>=◌}
use incus_spire_attestor.Config.Types.{Server}
use incus_spire_attestor.Config.Validate.{validate_server}
use incus_spire_attestor.Server.Service.Construct
use incus_spire_attestor.Server.Service.Construct.{failing}
use incus_spire_attestor.Host.Client.{Client, standalone_of}
use incus_spire_attestor.Spire.Ports.{
  Ports, Run, ServerRuntime, open_file, read_all, connect, get_server, close_idle,
}

-- maxCredentialBytes.
abbrev pub max_credential_bytes : ℕ
max_credential_bytes = 65536

module _ {W : Type 0} (ports : Ports W) where
  -- readCredential.
  unfoldable pub read_credential : Bytes → String → Exec (Run W) Bytes
  read_credential path role = do
    file ← wrapped (λ e. wrap "read" (wrap role e)) (open_file ports path)
    content ←
        wrapped (λ e. wrap "read" (wrap role e)) (read_all ports file (max_credential_bytes + 1))
    _ ← lift (
        require (leb (length content) max_credential_bytes)
          (wrap "read" (wrap role (text "exceeds"))))
    pure content

  -- newClient of the host client on a connection.
  unfoldable pub client_on : ℕ → Exec (Run W) Client
  client_on connection = do
    info ← wrapped (wrap "read incus server") (get_server ports connection)
    location ← lift (standalone_of info)
    pure (record { standalone_location = location })

  -- A result, or the closing of the idle connections and the error.
  unfoldable pub or_close : {A : Type 0} → ℕ → (Error → Error) → Result A → Exec (Run W) A
  or_close connection f (ok a) = pure a
  or_close connection f (err e) = do _ ← close_idle ports connection; fail (f e)

  abbrev pub same_error : Error → Error
  same_error e = e

  -- New of the host client, with its connection.
  unfoldable pub new_host : Bytes → Bytes → Bytes → Bytes → Exec (Run W) (Client × ℕ)
  new_host endpoint ca cert key = do
    connection ← wrapped (wrap "connect incus") (connect ports endpoint ca cert key)
    answer ← attempt (client_on connection)
    client ← or_close connection same_error answer
    pure (client, connection)

  -- buildServerRuntime; rand.Reader is not nil, and neither is the client.
  unfoldable pub build_server_runtime : Server → Bytes → Exec (Run W) ServerRuntime
  build_server_runtime cfg trust_domain = do
    _ ← lift (failing (validate_server cfg trust_domain))
    ca ← read_credential cfg.tls_ca_path "tls_ca_path"
    cert ← read_credential cfg.tls_cert_path "tls_cert_path"
    key ← read_credential cfg.tls_key_path "tls_key_path"
    host ← new_host cfg.incus_endpoint ca cert key
    service ←
        or_close host.1 (wrap "construct server service") (Construct.new true cfg trust_domain true)
    pure (record {
      config = cfg;
      trust_domain = trust_domain;
      service = service;
      client = host.0;
      connection = host.1;
    })
