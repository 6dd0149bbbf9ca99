-- ===== src/Exec.antt =====
-- Go code that calls its environment: a step takes the state of a run to a result or an error, and
-- to the next state. What was done before an error stays done.
pub mod Frames
use incus_spire_attestor.Prelude.{◌≡◌, refl, arith, ap, ◌∙◌, sym}
use incus_spire_attestor.Errors.{Result, ok, err, Error}

abbrev pub Exec {ℓ} : Type ℓ → Type ℓ → Type ℓ
Exec S A = S → Result A × S

abbrev map_err {ℓ} : {A : Type ℓ} → (Error → Error) → Result A → Result A
map_err f (ok a) = ok a
map_err f (err e) = err (f e)

module _ {ℓ} {S A : Type ℓ} where
  unfoldable pub pure : A → Exec S A
  pure a s = (ok a, s)

  unfoldable pub fail : Error → Exec S A
  fail e s = (err e, s)

  unfoldable pub lift : Result A → Exec S A
  lift r s = (r, s)

  -- `if err != nil { return fmt.Errorf("...: %w", err) }` behind a call.
  unfoldable pub wrapped : (Error → Error) → Exec S A → Exec S A
  wrapped f m s = let (r, s') = m s in (map_err f r, s')

  -- The result or the error as a value.
  unfoldable pub attempt : Exec S A → Exec S (Result A)
  attempt m s = let (r, s') = m s in (ok r, s')

module _ {ℓ} {S A B : Type ℓ} where
  abbrev pub continue : Result A → (A → Exec S B) → Exec S B
  continue (ok a) f s = f a s
  continue (err e) f s = (err e, s)

  infixl 10 ◌>>=◌ ◌>>◌
  unfoldable pub ◌>>=◌ : Exec S A → (A → Exec S B) → Exec S B
  ◌>>=◌ m f s = let (answer, after) = m s in continue answer f after

  abbrev pub ◌>>◌ : Exec S A → Exec S B → Exec S B
  m >> n = m >>= λ _. n

  continue_ok :
      (r : Result A) (f : A → Exec S B) (s : S) {b : B}
      → (continue r f s).0 ≡ ok b
      → (a : A) × (r ≡ ok a) × (continue r f s ≡ f a s)
  continue_ok (ok a) f s h = (a, refl, refl)
  continue_ok (err e) f s h = cc

  -- A sequence that succeeds ran both of its parts.
  pub bind_ok :
      (m : Exec S A) (f : A → Exec S B) (s : S) {b : B}
      → ((m >>= f) s).0 ≡ ok b
      → (a : A) × ((m s).0 ≡ ok a) × ((m >>= f) s ≡ f a (m s).1)
  unfolding ◌>>=◌
  bind_ok m f s {b} h = continue_ok (m s).0 f (m s).1 {b = b} h

  fails_then :
      (r : Result A) (g : A → Error) (s : S) (b : B)
      → ¬ ((continue r (λ a. fail {A = B} (g a)) s).0 ≡ ok b)
  unfolding fail
  fails_then (ok a) g s b h = cc
  fails_then (err e) g s b h = cc

  -- A sequence that ends in a failure fails.
  pub bind-fail :
      (m : Exec S A) (g : A → Error) (s : S) (b : B) → ¬ (((m >>= λ a. fail (g a)) s).0 ≡ ok b)
  unfolding ◌>>=◌
  bind-fail m g s b = fails_then (m s).0 g (m s).1 b

-- Inversion of a sequence that succeeds, by its first step.
pub lift_then :
    {S A B : Type 0} (r : Result A) (k : A → Exec S B) (s : S) (b : B)
    → ((lift r >>= k) s).0 ≡ ok b
    → (x : A) × (r ≡ ok x) × ((lift r >>= k) s ≡ k x s) × ((k x s).0 ≡ ok b)
unfolding lift ◌>>=◌
lift_then (ok x) k s b h = (x, refl, refl, h)
lift_then (err e) k s b h = cc

pub wrapped_ok :
    {S A : Type 0} (f : Error → Error) (m : Exec S A) (s : S) (x : A)
    → (wrapped f m s).0 ≡ ok x
    → ((m s).0 ≡ ok x) × ((wrapped f m s).1 ≡ (m s).1)
unfolding wrapped
wrapped_ok f m s x h = (ground arith, refl)

pub then_of :
    {S A B : Type 0} (m : Exec S A) (k : A → Exec S B) (s : S) (b : B)
    → ((m >>= k) s).0 ≡ ok b
    → (x : A) × ((m s).0 ≡ ok x) × ((m >>= k) s ≡ k x (m s).1) × ((k x (m s).1).0 ≡ ok b)
then_of {B = B} m k s b h =
    let (x, answer, e) = bind_ok m k s h in
    (x, answer, e, ap (λ (p : Result B × _). p.0) (sym e) ∙ h)

pub wrapped_then :
    {S A B : Type 0} (f : Error → Error) (m : Exec S A) (k : A → Exec S B) (s : S) (b : B)
    → ((wrapped f m >>= k) s).0 ≡ ok b
    → (x : A) × ((m s).0 ≡ ok x) × ((wrapped f m >>= k) s ≡ k x (m s).1) × ((k x (m s).1).0 ≡ ok b)
wrapped_then {B = B} f m k s b h =
    let (x, h1, e, h2) = then_of (wrapped f m) k s b h in
    let (answer, state) = wrapped_ok f m s x h1 in
    (x, answer, e ∙ ap (k x) state, ap (λ t. (k x t).0) (sym state) ∙ h2)
