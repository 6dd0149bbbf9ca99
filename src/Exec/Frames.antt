-- ===== src/Exec/Frames.antt =====
-- How a step may change the state, as a relation between the states before and after it: one rule
-- for each way to build a step, for any relation that is reflexive and transitive.
use incus_spire_attestor.Errors.{Result, ok, err, Error}
use incus_spire_attestor.Exec.{Exec, pure, fail, lift, wrapped, attempt, continue, ◌>>=◌}

pub record Preorder {ℓ} {S : Type ℓ} (R : S → S → Type ℓ) : Type ℓ where
  pub none : (s : S) → R s s
  pub both : (s t u : S) → R s t → R t u → R s u

-- Whether `m` succeeds or fails, the state that it leaves is related to the state that it met.
pub record Within {ℓ} {S A : Type ℓ} (R : S → S → Type ℓ) (m : Exec S A) : Type ℓ where
  pub change : (s : S) → R s (m s).1

module _ {ℓ} {S : Type ℓ} {R : S → S → Type ℓ} (p : Preorder R) where
  pub Within-pure : {A : Type ℓ} (a : A) → Within R (pure {S = S} a)
  unfolding pure
  Within-pure a = record { change = p.none }

  pub Within-fail : {A : Type ℓ} (e : Error) → Within R (fail {S = S} {A = A} e)
  unfolding fail
  Within-fail e = record { change = p.none }

  pub Within-lift : {A : Type ℓ} (r : Result A) → Within R (lift {S = S} r)
  unfolding lift
  Within-lift r = record { change = p.none }

  pub Within-wrapped :
      {A : Type ℓ} (f : Error → Error) {m : Exec S A} → Within R m → Within R (wrapped f m)
  unfolding wrapped
  Within-wrapped f w = record { change = w.change }

  pub Within-attempt : {A : Type ℓ} {m : Exec S A} → Within R m → Within R (attempt m)
  unfolding attempt
  Within-attempt w = record { change = w.change }

  pub Within-continue :
      {A B : Type ℓ} (r : Result A) {f : A → Exec S B}
      → ((a : A) → Within R (f a))
      → Within R (continue r f)
  Within-continue (ok a) w = w a
  Within-continue (err e) w = record { change = p.none }

  pub Within-bind :
      {A B : Type ℓ} {m : Exec S A} {f : A → Exec S B}
      → Within R m
      → ((a : A) → Within R (f a))
      → Within R (m >>= f)
  unfolding ◌>>=◌
  Within-bind {m} w v = record {
    change = λ s. p.both s (m s).1 _ (w.change s) ((Within-continue (m s).0 v).change (m s).1);
  }
