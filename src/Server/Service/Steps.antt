-- ===== src/Server/Service/Steps.antt =====
-- Inversion of the steps of Attest that succeed.
use incus_spire_attestor.Prelude.{◌≡◌, refl, sym, ap, ◌∙◌, Option, none, some, [], ◌∷◌, ◌++◌}
use incus_spire_attestor.Errors.{Result, ok, err, Error}
use incus_spire_attestor.Exec.{Exec, pure, fail, attempt, ◌>>=◌, ◌>>◌, bind_ok, bind-fail}
use incus_spire_attestor.Server.Ports.{Event, nonce_unset, Ports, Run, call, unset_nonce}
use incus_spire_attestor.Server.Cleanup.{
  Cleanup, cleanup_context, run, or_cleanup, guarded, annotate, annotate_cleanup, return_unless_nil,
  error_of,
}

-- A call that was answered is the last of the trace, and leaves the cleanup as it was.
pub call_ok :
    {W A : Type 0} (ask : W → Result A × W) (event : Result A → Event) (s : Run W) (x : A)
    → (call ask event s).0 ≡ ok x
    → ((call ask event s).1.trace ≡ s.trace ++ event (ok x) ∷ [])
      × ((call ask event s).1.once ≡ s.once)
unfolding call
call_ok ask event s x h = (ap (λ r. s.trace ++ event r ∷ []) h, refl)

module _ {W : Type 0} (ports : Ports W) (c : Cleanup) where
  pub or_cleanup_ok :
      {A : Type 0} (f : Error → Error) (r : Result A) (s : Run W) (x : A)
      → (or_cleanup ports c f r s).0 ≡ ok x
      → (r ≡ ok x) × ((or_cleanup ports c f r s).1 ≡ s)
  unfolding or_cleanup pure
  or_cleanup_ok f (ok y) s x h = (h, refl)
  or_cleanup_ok f (err e) s x h =
      absurd (bind-fail (run ports c) (λ clean. annotate (f e) clean) s x h)

  pub guarded_ok :
      {A : Type 0} (f : Error → Error) (m : Exec (Run W) A) (s : Run W) (x : A)
      → (guarded ports c f m s).0 ≡ ok x
      → ((m s).0 ≡ ok x) × ((guarded ports c f m s).1 ≡ (m s).1)
  unfolding guarded ◌>>=◌ attempt
  guarded_ok f m s x h = or_cleanup_ok f (m s).0 (m s).1 x h

  -- Where a checked result is followed by a success, it was no error.
  pub checked_then :
      {A B : Type 0} (f : Error → Error) (r : Result A) (k : A → Exec (Run W) B) (s : Run W) (b : B)
      → ((or_cleanup ports c f r >>= k) s).0 ≡ ok b
      → (x : A) × (r ≡ ok x) × ((or_cleanup ports c f r >>= k) s ≡ k x s) × ((k x s).0 ≡ ok b)
  checked_then {B = B} f r k s b h =
      let (x, h1, e) = bind_ok (or_cleanup ports c f r) k s h in
      let (answer, state) = or_cleanup_ok f r s x h1 in
      let e' : (or_cleanup ports c f r >>= k) s ≡ k x s = e ∙ ap (k x) state in
      (x, answer, e', ap (λ (p : Result B × Run W). p.0) (sym e') ∙ h)

  -- Where a guarded call is followed by a success, it was answered, and it stands in the trace.
  pub called_then :
      {A B : Type 0} (f : Error → Error) (ask : W → Result A × W) (event : Result A → Event)
      (k : A → Exec (Run W) B) (s : Run W) (b : B)
      → ((guarded ports c f (call ask event) >>= k) s).0 ≡ ok b
      → (x : A) × (s' : Run W) × (s'.trace ≡ s.trace ++ event (ok x) ∷ [])
        × (s'.once ≡ s.once)
        × ((guarded ports c f (call ask event) >>= k) s ≡ k x s')
        × ((k x s').0 ≡ ok b)
  called_then {B = B} f ask event k s b h =
      let (x, h1, e) = bind_ok (guarded ports c f (call ask event)) k s h in
      let (answer, state) = guarded_ok f (call ask event) s x h1 in
      let (trace, once) = call_ok ask event s x answer in
      let e' : (guarded ports c f (call ask event) >>= k) s ≡ k x (call ask event s).1 =
        e ∙ ap (k x) state in
      (x, (call ask event s).1, trace, once, e', ap (λ (p : Result B × Run W). p.0) (sym e') ∙ h)

-- A removal that has not run yet runs, and its error is what the cleanup returns.
pub run_fresh :
    {W : Type 0} (ports : Ports W) (c : Cleanup) (s : Run W)
    → s.once ≡ none
    → (r : Result (Unit {0})) × ((run ports c s).0 ≡ ok (error_of r))
      × ((run ports c s).1.trace
          ≡ s.trace ++ nonce_unset (cleanup_context ports c) c.target c.key r ∷ [])
      × ((run ports c s).1.once ≡ some (error_of r))
unfolding run unset_nonce call
run_fresh ports c s h = rw (h, run) (_, refl, refl, refl)

pub return_ok :
    {S B : Type 0} (e : Option Error) (k : Exec S B) (s : S) (b : B)
    → ((return_unless_nil (annotate_cleanup none e) >> k) s).0 ≡ ok b
    → (e ≡ none) × ((return_unless_nil (annotate_cleanup none e) >> k) s ≡ k s) × ((k s).0 ≡ ok b)
unfolding return_unless_nil annotate_cleanup pure fail ◌>>=◌
return_ok none k s b h = (refl, refl, h)
return_ok (some e) k s b h = cc

pub error_of_none : (r : Result (Unit {0})) → error_of r ≡ none → r ≡ ok tt
error_of_none (ok u) h = refl
error_of_none (err e) h = cc
