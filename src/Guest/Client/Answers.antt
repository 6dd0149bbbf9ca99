-- ===== src/Guest/Client/Answers.antt =====
-- What the results of the guest client say of the responses they were made of.
use incus_spire_attestor.Prelude.{
  refl, ◌↔◌, ℕ, ◌+◌, ◌≤◌, ◌≡◌, ap, ◌∙◌, subst, inl, inr, Option, none, some, ◌++◌, arith, Bytes,
  leb, length,
}
use incus_spire_attestor.Errors.{Result, ok, err, Error, text, require, Result-cases, wrap}
use incus_spire_attestor.Exec.{pure, lift, attempt, ◌>>=◌, lift_then, wrapped_then, wrapped}
use incus_spire_attestor.Golang.Context.{Context}
use incus_spire_attestor.Guest.Failures.{transport_error}
use incus_spire_attestor.Guest.Ports.{Response, Ports, Run, send, read_body}
use incus_spire_attestor.Guest.Client.{
  max_guest_body, guest_http_base, config_path, config_of, get, read_config, unless,
}

module _ {W : Type 0} (ports : Ports W) where
  -- The complete body and the status of the response to the one request for this path.
  pub record IsResponse (ctx : Context) (path : Bytes) (s : Run W) (body : Bytes) (status : ℕ)
      : Type 0 where
    pub built : ports.request_error (guest_http_base ++ path) ≡ none
    pub response : Response
    pub between : Run W
    pub request : send ports ctx (guest_http_base ++ path) s ≡ (ok response, between)
    pub content : (read_body ports response.body (max_guest_body + 1) between).0 ≡ ok body
    pub bounded : length body ≤ max_guest_body
    pub same_status : response.status ≡ status

  bounded_of :
      (body : Bytes) (u : Unit {0})
      → require (leb (length body) max_guest_body) (text "guest response exceeds") ≡ ok u
      → length body ≤ max_guest_body
  bounded_of body u h = ground (arith, h)

  built_of :
      (e : Option Error) (u : Unit {0}) → unless e (wrap "build guest request") ≡ ok u → e ≡ none
  built_of none u h = refl
  built_of (some e) u h = cc

  same_pair :
      (a : Bytes) (n : ℕ) (b : Bytes) (k : ℕ)
      → ◌≡◌ {A = Result (Bytes × ℕ)} (ok (a, n)) (ok (b, k))
      → (a ≡ b) × (n ≡ k)
  same_pair a n b k h = (ground (arith, h), ground (arith, h))

  pub get_ok :
      (ctx : Context) (path : Bytes) (s : Run W) (body : Bytes) (status : ℕ)
      → (get ports ctx path s).0 ≡ ok (body, status)
      → IsResponse ctx path s body status
  unfolding get pure
  get_ok ctx path s body status h =
      let (u0, r0, e0, h0) = lift_then _ _ s (body, status) h in
      let (response, r1, e1, h1) =
        wrapped_then transport_error (send ports ctx (guest_http_base ++ path)) _ s (body, status)
          h0 in
      let t = (send ports ctx (guest_http_base ++ path) s).1 in
      let (text_read, r2, e2, h2) =
        wrapped_then transport_error (read_body ports response.body (max_guest_body + 1)) _ t
          (body, status) h1 in
      let (u, r3, e3, h3) =
        lift_then _ _ (read_body ports response.body (max_guest_body + 1) t).1 (body, status) h2 in
      let (same_body, same_code) = same_pair text_read response.status body status h3 in
      record {
        built = built_of _ u0 r0;
        response = response;
        between = t;
        request = ap (λ r. (r, t)) r1;
        content = r2 ∙ ap ok same_body;
        bounded = subst (λ b. length b ≤ max_guest_body) same_body (bounded_of text_read u r3);
        same_status = same_code;
      }

  bounded_iff :
      (body : Bytes)
      → length body ≤ max_guest_body
      → require (leb (length body) max_guest_body) (text "guest response exceeds") ≡ ok tt
  bounded_iff body h = ground (arith, h)

  -- The one request with this response decides the result.
  pub get-IsResponse :
      (ctx : Context) (path : Bytes) (s : Run W) (body : Bytes) (status : ℕ)
      → IsResponse ctx path s body status
      → (get ports ctx path s).0 ≡ ok (body, status)
  unfolding get lift wrapped ◌>>=◌ pure
  get-IsResponse ctx path s body status h =
      rw (h.built, h.request, h.content, bounded_iff body h.bounded, h.same_status) refl

  -- A value was read in full with status 200, and a key is not found exactly for the status 404.
  abbrev pub IsConfigAnswer : Option Bytes → Bytes → ℕ → Type 0
  IsConfigAnswer none body status = status ≡ 404
  IsConfigAnswer (some value) body status = (status ≡ 200) × (value ≡ body)

  config_of_iff :
      (body : Bytes) (status : ℕ) (o : Option Bytes)
      → (config_of (ok (body, status)) ≡ ok o) ↔ IsConfigAnswer o body status
  unfolding config_of
  config_of_iff body status none = (λ h. ground (arith, h), λ h. ground (arith, h))
  config_of_iff body status (some value) =
      (λ h. (ground (arith, h), ground (arith, h)), λ h. ground (arith, h))

  failed_config : (e : Error) (o : Option Bytes) → ¬ (config_of (err e) ≡ ok o)
  unfolding config_of
  failed_config e o h = cc

  pub read_answer :
      {A : Type 0} (ctx : Context) (path : Bytes) (f : Result (Bytes × ℕ) → Result A) (s : Run W)
      (x : A)
      → ((attempt (get ports ctx path) >>= λ a. lift (f a)) s).0 ≡ ok x
      → f (get ports ctx path s).0 ≡ ok x
  unfolding attempt ◌>>=◌ lift
  read_answer ctx path f s x h = h

  read_config_ok :
      (ctx : Context) (key : Bytes) (s : Run W) (o : Option Bytes)
      → (read_config ports ctx key s).0 ≡ ok o
      → (body : Bytes) × (status : ℕ) × IsResponse ctx (config_path key) s body status
        × IsConfigAnswer o body status
  unfolding read_config
  read_config_ok ctx key s o h =
      let answered = read_answer ctx (config_path key) config_of s o h in
      elim (Result-cases (get ports ctx (config_path key) s).0) [
        | inl ((body, status), e) ↦ (
          body,
          status,
          get_ok ctx (config_path key) s body status e,
          (config_of_iff body status o).0 (rw e at answered),
        )
        | inr (x, e) ↦ absurd (failed_config x o (rw e at answered))
      ]

  answered_config :
      (ctx : Context) (key : Bytes) (s : Run W) (o : Option Bytes) (body : Bytes) (status : ℕ)
      → IsResponse ctx (config_path key) s body status
      → IsConfigAnswer o body status
      → (read_config ports ctx key s).0 ≡ ok o
  unfolding read_config attempt ◌>>=◌ lift
  answered_config ctx key s o body status response answer =
      rw (get-IsResponse ctx (config_path key) s body status response)
        ((config_of_iff body status o).1 answer)

  -- ReadConfig reports that there is no such key exactly if its one request was answered with a body of at most 65536
  -- bytes and status 404, and returns a value exactly if it was answered with status 200 and the value as the whole
  -- body, of at most 65536 bytes.
  pub read_config_iff :
      (ctx : Context) (key : Bytes) (s : Run W) (o : Option Bytes)
      → ((read_config ports ctx key s).0 ≡ ok o) ↔ (
          (body : Bytes) × (status : ℕ) × IsResponse ctx (config_path key) s body status
          × IsConfigAnswer o body status)
  read_config_iff ctx key s o = (
    read_config_ok ctx key s o,
    λ (body, status, response, answer). answered_config ctx key s o body status response answer,
  )
