-- ===== src/Host/Mutate/LastAttempt.antt =====
-- How a successful mutation ends: its last attempt succeeds, behind the calls of the others.
use incus_spire_attestor.Prelude.{
  List, ◌++◌, append-nil, append_assoc, ℕ, zero, suc, ◌≡◌, refl, sym, ap, ◌∙◌, subst, ◌⊎◌, inl, inr,
  not, ◌||◌, Option, some, [], arith, Bytes, Bool-cases,
}
use incus_spire_attestor.Errors.{Result, ok, err, replaced_target, is}
use incus_spire_attestor.Exec.{Exec, pure, fail, attempt, ◌>>=◌, then_of}
use incus_spire_attestor.Golang.Context.{Context}
use incus_spire_attestor.Attest.Types.{Instance}
use incus_spire_attestor.Host.Retry.{initial_retry_delay, next_retry_delay, is_retryable}
use incus_spire_attestor.Host.Ports.{Event, Fetched, Ports, Run, ask, wait}
use incus_spire_attestor.Host.Mutate.{mutate_once, conclude, mutate_from, mutate}
use incus_spire_attestor.Host.Mutate.Attempts.{mutate_once-Completes}
use incus_spire_attestor.Host.Mutate.Outcome.{
  IsFetch, Success, absent, gone, unchanged, changed, mutate_once_ok,
}

module _ {W : Type 0} (ports : Ports W) (parse_uuid : Bytes → Option Bytes) (ctx : Context)
    (target : Instance) (key : Bytes) (nonce : Option Bytes) where
  conclude_ok :
      (delay : ℕ) (rest : Exec (Run W) (Option (Unit {0}))) (r : Result (Unit {0})) (s : Run W)
      → (conclude ports parse_uuid ctx target key nonce delay rest r s).0 ≡ ok (some tt)
      → ((r ≡ ok tt) × ((conclude ports parse_uuid ctx target key nonce delay rest r s).1 ≡ s))
        ⊎ ((conclude ports parse_uuid ctx target key nonce delay rest r s
              ≡ rest (wait ports ctx delay s).1)
            × ((rest (wait ports ctx delay s).1).0 ≡ ok (some tt)))
  unfolding conclude pure fail
  conclude_ok delay rest (ok _) s h = inl (refl, refl)
  conclude_ok delay rest (err e) s h =
      elim (Bool-cases (is replaced_target e || not (is_retryable e))) [
        | inl f ↦ absurd (ground (arith, f, h))
        | inr f ↦
            let (_, _, e2, h2) =
              then_of (wait ports ctx delay) (λ _. rest) s (some tt) (rw f at h) in
            inr (rw f e2, h2)
      ]

  -- The run `t` has made some further calls.
  IsLater : Run W → Run W → Type 0
  IsLater s t = (calls : List Event) × (t.trace ≡ s.trace ++ calls)

  IsLater-self : (s : Run W) → IsLater s s
  unfolding IsLater
  IsLater-self s = ([], sym (append-nil _))

  IsLater-trans : (s t u : Run W) → IsLater s t → IsLater t u → IsLater s u
  unfolding IsLater
  IsLater-trans s t u (es, h) (ds, k) = (es ++ ds, k ∙ (rw h (append_assoc s.trace es ds)))

  mutate_once-IsLater :
      (s : Run W) → IsLater s (mutate_once ports parse_uuid ctx target key nonce s).1
  unfolding IsLater
  mutate_once-IsLater s =
      let done = mutate_once-Completes parse_uuid ctx target key nonce ports s in
      (done.more, done.calls)

  wait-IsLater : (delay : ℕ) (s : Run W) → IsLater s (wait ports ctx delay s).1
  unfolding IsLater wait ask
  wait-IsLater delay s = (_, refl)

  -- A successful mutation ends with an attempt that succeeds.
  last_attempt :
      (fuel delay : ℕ) (s : Run W)
      → (mutate_from ports parse_uuid ctx target key nonce fuel delay s).0 ≡ ok (some tt)
      → (t : Run W) × ((mutate_once ports parse_uuid ctx target key nonce t).0 ≡ ok tt)
        × ((mutate_from ports parse_uuid ctx target key nonce fuel delay s).1
            ≡ (mutate_once ports parse_uuid ctx target key nonce t).1)
        × IsLater s t
  unfolding mutate_from attempt ◌>>=◌ pure
  last_attempt zero delay s h = cc
  last_attempt (suc fuel) delay s h =
      let (r, after) = mutate_once ports parse_uuid ctx target key nonce s in
      let rest = mutate_from ports parse_uuid ctx target key nonce fuel (next_retry_delay delay) in
      elim (conclude_ok delay rest r after h) [
        | inl (fine, same_state) ↦ (s, fine, same_state, IsLater-self s)
        | inr (e, h2) ↦
            let t = (wait ports ctx delay after).1 in
            let (u, fine, same_state, later) = last_attempt fuel (next_retry_delay delay) t h2 in
            (
              u,
              fine,
              ap (λ (p : Result (Option (Unit {0})) × Run W). p.1) e ∙ same_state,
              IsLater-trans s after u (mutate_once-IsLater s)
                  (IsLater-trans after t u (wait-IsLater delay after) later),
            )
      ]

  IsFetch-IsLater :
      {s t after : Run W} {answer : Result (Option Fetched × Bytes)}
      → IsLater s t
      → IsFetch ports parse_uuid ctx target key nonce t after answer
      → IsFetch ports parse_uuid ctx target key nonce s after answer
  unfolding IsLater
  IsFetch-IsLater (es, h) r = record {
    earlier = es ++ r.earlier;
    before = r.before;
    read = r.read;
    calls = r.calls ∙ (rw h (simp append_assoc));
  }

  Success-IsLater :
      {s t after : Run W}
      → IsLater s t
      → Success ports parse_uuid ctx target key nonce t after
      → Success ports parse_uuid ctx target key nonce s after
  unfolding IsLater
  Success-IsLater l (absent e u r c) = absent e u (IsFetch-IsLater l r) c
  Success-IsLater l (gone current etag u r m) = gone current etag u (IsFetch-IsLater l r) m
  Success-IsLater l (unchanged f etag r m c) = unchanged f etag (IsFetch-IsLater l r) m c
  Success-IsLater (es, h) (changed f etag config op u) = changed f etag config op (record {
    earlier = es ++ u.earlier;
    before = u.before;
    between = u.between;
    read = u.read;
    same_target = u.same_target;
    edited = u.edited;
    accepted = u.accepted;
    completed = u.completed;
    calls = u.calls ∙ (rw h (simp append_assoc));
  })

  -- How a successful mutation ended.
  pub mutate_ok :
      (fuel : ℕ) (s : Run W)
      → (mutate ports parse_uuid ctx target key nonce fuel s).0 ≡ ok (some tt)
      → Success ports parse_uuid ctx target key nonce s
          (mutate ports parse_uuid ctx target key nonce fuel s).1
  unfolding mutate
  mutate_ok fuel s h =
      let (t, fine, e, later) = last_attempt fuel initial_retry_delay s h in
      subst (λ (u : Run W). Success ports parse_uuid ctx target key nonce s u) (sym e)
        (Success-IsLater later (mutate_once_ok ports parse_uuid ctx target key nonce t fine))
