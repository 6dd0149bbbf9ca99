-- ===== src/Spire/ServerPlugin/Connections.antt =====
-- How the construction of a runtime accounts for its connections: every one that is opened is handed on or closed.
use incus_spire_attestor.Prelude.{
  ℕ, ◌+◌, String, ◌≡◌, refl, sym, ap, ◌∙◌, List, [], ◌∷◌, ◌++◌, arith, Bytes, ◌==◌, if◌then◌else◌,
}
use incus_spire_attestor.Errors.{Result, ok, err, Error, wrap}
use incus_spire_attestor.Exec.{Exec, pure, fail, lift, wrapped, attempt, continue, ◌>>=◌}
use incus_spire_attestor.Config.Types.{Server}
use incus_spire_attestor.Host.Client.{Client}
use incus_spire_attestor.Spire.Ports.{
  Event, connected, idle_closed, Ports, Run, ServerRuntime, ask, open_file, read_all, connect,
  get_server, close_idle,
}
use incus_spire_attestor.Spire.Build.{
  read_credential, client_on, or_close, same_error, new_host, build_server_runtime,
}

-- One for the connection that is counted.
abbrev pub one : ℕ → ℕ → ℕ
one c n = if n == c then 1 else 0

abbrev opens : ℕ → Event → ℕ
opens c (connected _ _ _ _ (ok n)) = one c n
opens c _ = 0

abbrev closes : ℕ → Event → ℕ
closes c (idle_closed n) = one c n
closes c _ = 0

-- How often a connection is opened, and how often its idle connections are closed.
abbrev pub opened : ℕ → List Event → ℕ
opened c [] = 0
opened c (e ∷ es) = opens c e + opened c es

abbrev pub closed : ℕ → List Event → ℕ
closed c [] = 0
closed c (e ∷ es) = closes c e + closed c es

opened-append : (c : ℕ) (xs ys : List Event) → opened c (xs ++ ys) ≡ opened c xs + opened c ys
opened-append c [] ys = omega arith
opened-append c (x ∷ xs) ys = omega (arith, opened-append c xs ys)

closed-append : (c : ℕ) (xs ys : List Event) → closed c (xs ++ ys) ≡ closed c xs + closed c ys
closed-append c [] ys = omega arith
closed-append c (x ∷ xs) ys = omega (arith, closed-append c xs ys)

-- The connections in hand behind a result.
abbrev pub in_hand : {A : Type 0} → (A → ℕ) → Result A → ℕ
in_hand k (ok a) = k a
in_hand k (err e) = 0

-- From `n` connections in hand the step comes to those of its result, and a failure leaves none; the published runtime stays.
pub record Spends {W A : Type 0} (c n : ℕ) (m : Exec (Run W) A) (k : A → ℕ) : Type 0 where
  pub balance :
      (s : Run W)
      → opened c (m s).1.trace + closed c s.trace + n
        ≡ opened c s.trace + closed c (m s).1.trace + in_hand k (m s).0
  pub kept : (s : Run W) → (m s).1.runtime ≡ s.runtime

in_hand_zero : {A : Type 0} (r : Result A) → in_hand (λ _. 0) r ≡ 0
in_hand_zero (ok a) = refl
in_hand_zero (err e) = refl

module _ {W : Type 0} (c : ℕ) where
  Spends-pure : {A : Type 0} (k : A → ℕ) (a : A) → Spends {W = W} c (k a) (pure a) k
  unfolding pure
  Spends-pure k a = record { balance = λ s. omega arith; kept = λ s. refl }

  Spends-fail : {A : Type 0} (k : A → ℕ) (e : Error) → Spends {W = W} c 0 (fail e) k
  unfolding fail
  Spends-fail k e = record { balance = λ s. omega arith; kept = λ s. refl }

  pub Spends-lift : {A : Type 0} (r : Result A) → Spends {W = W} c 0 (lift r) (λ _. 0)
  unfolding lift
  Spends-lift (ok a) = record { balance = λ s. omega arith; kept = λ s. refl }
  Spends-lift (err e) = record { balance = λ s. omega arith; kept = λ s. refl }

  in_hand-wrapped :
      {A : Type 0} (k : A → ℕ) (f : Error → Error) (m : Exec (Run W) A) (s : Run W)
      → in_hand k (wrapped f m s).0 ≡ in_hand k (m s).0
  unfolding wrapped
  in_hand-wrapped k f m s = ground arith

  Spends-wrapped :
      {A : Type 0} {n : ℕ} {m : Exec (Run W) A} {k : A → ℕ} (f : Error → Error)
      → Spends c n m k
      → Spends c n (wrapped f m) k
  unfolding wrapped
  Spends-wrapped {m} {k} f h = record {
    balance = λ s.
        h.balance s
        ∙ ap (λ x. opened c s.trace + closed c (m s).1.trace + x) (sym (in_hand-wrapped k f m s));
    kept = h.kept;
  }

  Spends-continue :
      {A B : Type 0} {k : A → ℕ} {l : B → ℕ} (r : Result A) {f : A → Exec (Run W) B}
      → ((a : A) → Spends c (k a) (f a) l)
      → Spends c (in_hand k r) (continue r f) l
  Spends-continue (ok a) h = h a
  Spends-continue (err e) h = record { balance = λ s. omega arith; kept = λ s. refl }

  pub Spends-bind :
      {A B : Type 0} {n : ℕ} {m : Exec (Run W) A} {k : A → ℕ} {f : A → Exec (Run W) B} {l : B → ℕ}
      → Spends c n m k
      → ((a : A) → Spends c (k a) (f a) l)
      → Spends c n (m >>= f) l
  unfolding ◌>>=◌
  Spends-bind {m} {f} h g = record {
    balance = λ s.
        let behind = Spends-continue (m s).0 {f = f} g in
        omega (arith, h.balance s, behind.balance (m s).1);
    kept = λ s. (Spends-continue (m s).0 {f = f} g).kept (m s).1 ∙ h.kept s;
  }

  -- What touches no connection may run while some are in hand.
  Spends-attempt :
      {A : Type 0} (n : ℕ) {m : Exec (Run W) A}
      → Spends c 0 m (λ _. 0)
      → Spends c n (attempt m) (λ _. n)
  unfolding attempt
  Spends-attempt n {m} h = record {
    balance = λ s. omega (arith, h.balance s, in_hand_zero (m s).0);
    kept = h.kept;
  }

  Spends-ask :
      {A : Type 0} (port : W → Result A × W) (event : Result A → Event) (k : A → ℕ)
      → ((r : Result A) → opens c (event r) ≡ in_hand k r)
      → ((r : Result A) → closes c (event r) ≡ 0)
      → Spends c 0 (ask port event) k
  unfolding ask
  Spends-ask port event k o cl = record {
    balance = λ s.
        let r = (port s.world).0 in
        omega (
          arith,
          o r,
          cl r,
          opened-append c s.trace (event r ∷ []),
          closed-append c s.trace (event r ∷ []),
        );
    kept = λ s. refl;
  }

  -- A call that is about no connection.
  Spends-silent :
      {A : Type 0} (port : W → Result A × W) (event : Result A → Event)
      → ((r : Result A) → opens c (event r) ≡ 0)
      → ((r : Result A) → closes c (event r) ≡ 0)
      → Spends c 0 (ask port event) (λ _. 0)
  Spends-silent port event o cl =
      Spends-ask port event (λ _. 0) (λ r. o r ∙ sym (in_hand_zero r)) cl

  module _ (ports : Ports W) where
    Spends-read_credential :
        (path : Bytes) (role : String) → Spends c 0 (read_credential ports path role) (λ _. 0)
    unfolding read_credential open_file read_all
    Spends-read_credential path role =
        Spends-bind
          (Spends-wrapped _ (Spends-silent (ports.open_file path) _ (λ r. refl) (λ r. refl)))
          (λ file.
            Spends-bind
              (Spends-wrapped _ (Spends-silent (ports.read_all file _) _ (λ r. refl) (λ r. refl)))
              (λ content. Spends-bind (Spends-lift _) (λ _. Spends-pure (λ _. 0) content)))

    Spends-client_on : (n : ℕ) → Spends c 0 (client_on ports n) (λ _. 0)
    unfolding client_on get_server
    Spends-client_on n =
        Spends-bind
          (Spends-wrapped _ (Spends-silent (ports.get_server n) _ (λ r. refl) (λ r. refl)))
          (λ info. Spends-bind (Spends-lift _) (λ location. Spends-pure (λ _. 0) _))

    pub Spends-close_idle : (n : ℕ) → Spends c (one c n) (close_idle ports n) (λ _. 0)
    unfolding close_idle
    Spends-close_idle n = record {
      balance = λ s. omega (
        arith,
        opened-append c s.trace (idle_closed n ∷ []),
        closed-append c s.trace (idle_closed n ∷ []),
      );
      kept = λ s. refl;
    }

    Spends-or_close :
        {A : Type 0} (n : ℕ) (f : Error → Error) (r : Result A)
        → Spends c (one c n) (or_close ports n f r) (λ _. one c n)
    unfolding or_close
    Spends-or_close n f (ok a) = Spends-pure (λ _. one c n) a
    Spends-or_close n f (err e) =
        Spends-bind (Spends-close_idle n) (λ _. Spends-fail (λ _. one c n) (f e))

    opens_connected :
        (endpoint ca cert key : Bytes) (r : Result ℕ)
        → opens c (connected endpoint ca cert key r) ≡ in_hand (one c) r
    opens_connected endpoint ca cert key (ok n) = refl
    opens_connected endpoint ca cert key (err e) = refl

    Spends-new_host :
        (endpoint ca cert key : Bytes)
        → Spends c 0 (new_host ports endpoint ca cert key) (λ h. one c h.1)
    unfolding new_host connect
    Spends-new_host endpoint ca cert key =
        Spends-bind
          (Spends-wrapped _ (
            Spends-ask (ports.connect endpoint ca cert key) _ (one c)
              (opens_connected endpoint ca cert key) (λ r. refl)))
          (λ n. Spends-bind (Spends-attempt (one c n) (Spends-client_on n)) (λ answer.
            Spends-bind (Spends-or_close n (same_error ports) answer)
              (λ client. Spends-pure (λ (h : Client × ℕ). one c h.1) (client, n))))

    -- A build opens connections and closes them again, but for that of the runtime that it returns, and it leaves the published
    -- runtime as it is.
    pub Spends-build_server_runtime :
        (cfg : Server) (trust_domain : Bytes)
        → Spends c 0 (build_server_runtime ports cfg trust_domain) (λ rt. one c rt.connection)
    unfolding build_server_runtime
    Spends-build_server_runtime cfg trust_domain = Spends-bind (Spends-lift _) (λ _.
        Spends-bind (Spends-read_credential cfg.tls_ca_path "tls_ca_path") (λ ca.
          Spends-bind (Spends-read_credential cfg.tls_cert_path "tls_cert_path") (λ cert.
            Spends-bind (Spends-read_credential cfg.tls_key_path "tls_key_path") (λ key.
              Spends-bind (Spends-new_host cfg.incus_endpoint ca cert key) (λ host.
                Spends-bind (Spends-or_close host.1 (wrap "construct server service") _)
                  (λ service. Spends-pure (λ (rt : ServerRuntime). one c rt.connection) _))))))
