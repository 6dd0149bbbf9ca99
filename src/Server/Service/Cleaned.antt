-- ===== src/Server/Service/Cleaned.antt =====
-- The cleanup of service.go: whatever happens, a nonce that is set is unset afterwards, once.
use incus_spire_attestor.Prelude.{
  ℕ, ◌⊎◌, ◌≡◌, refl, sym, ap, ◌∙◌, Bool, true, false, Option, none, some, List, [], ◌∷◌, ◌++◌,
  append-nil, Bytes, inr, inl, append_assoc,
}
use incus_spire_attestor.Errors.{Result, ok, err, Error}
use incus_spire_attestor.Exec.{Exec, lift, fail, attempt, continue, ◌>>=◌, ◌>>◌}
use incus_spire_attestor.Exec.Frames.{
  Preorder, Within, Within-wrapped, Within-pure, Within-lift, Within-bind, Within-fail,
  Within-attempt, Within-continue,
}
use incus_spire_attestor.Golang.Json.{Codec}
use incus_spire_attestor.Attest.Types.{Instance, Attributes}
use incus_spire_attestor.Server.Ports.{
  Context, rpc, with_timeout, Event, Ports, Run, call, set_nonce, unset_nonce, send_challenge,
  receive_response, send_attributes, without_cancel,
}
use incus_spire_attestor.Server.Cleanup.{Cleanup, arm, run, or_cleanup, guarded, return_unless_nil}
use incus_spire_attestor.Server.Service.{
  Service, Attempt, store_nonce, challenge_guest, finish, attest_armed, prepare, attest,
  attest_exchange,
}
use incus_spire_attestor.Server.Service.Events.{
  collect-append, touches, Touch, stored, removed, touch_of, prepare-Quiet, Touch, touch_of,
  touches, removed, stored,
}

-- What the cleanup owes for the key: nothing before it has run, the removal after that.
abbrev paid : Context → Instance → Bytes → Option (Option Error) → List Touch
paid ctx target key none = []
paid ctx target key (some _) = removed ctx target key ∷ []

-- The context of the removal: detached from the RPC, with a deadline of its own.
abbrev pub removal_context : ℕ → Context
removal_context timeout = with_timeout (without_cancel rpc) timeout

abbrev IsOther : Event → Type 0
IsOther e = touch_of e ≡ []

module _ {W : Type 0} (before : List Event) (service : Service) (a : Attempt) where
  -- The key of the attempt was set since `before`, and after that unset as often as the cleanup has run.
  pub record IsArmed (s : Run W) : Type 0 where
    pub in_order :
        touches s.trace
        ≡ touches before
          ++ stored a.target a.key
            ∷ paid (removal_context service.cleanup_timeout) a.target a.key s.once

  pub record StaysArmed (s t : Run W) : Type 0 where
    pub armed : IsArmed s → IsArmed t

  StaysArmed-preorder : Preorder StaysArmed
  StaysArmed-preorder = record {
    none = λ s. record { armed = λ h. h };
    both = λ s t u f g. record { armed = λ h. g.armed (f.armed h) };
  }

  call-StaysArmed :
      {A : Type 0} (ask : W → Result A × W) (event : Result A → Event)
      → ((r : Result A) → IsOther (event r))
      → Within StaysArmed (call ask event)
  unfolding call
  call-StaysArmed ask event other = record {
    change = λ s. record {
      armed = λ h. record {
        in_order =
            collect-append touch_of s.trace _
            ∙ (rw (other (ask s.world).0) (simp append-nil h.in_order));
      };
    };
  }

  module _ (ports : Ports W) where
    abbrev c : Cleanup
    c = record { timeout = service.cleanup_timeout; target = a.target; key = a.key }

    run-IsArmed :
        (s : Run W) (once : Option (Option Error))
        → s.once ≡ once
        → IsArmed s
        → IsArmed (run ports c s).1
    unfolding run unset_nonce call
    run-IsArmed s none e h =
        rw (e, run)
          (record {
            in_order =
                collect-append touch_of s.trace _
                ∙ ap
                    (λ l.
                      l ++ removed (removal_context service.cleanup_timeout) a.target a.key ∷ [])
                    (rw e at h.in_order)
                ∙ append_assoc (touches before) _ _;
          })
    run-IsArmed s (some r) e h = rw (e, run) h

    run-StaysArmed : Within StaysArmed (run ports c)
    run-StaysArmed = record { change = λ s. record { armed = run-IsArmed s s.once refl } }

    ruleset armed_rules = (
      StaysArmed-preorder, Within-pure, Within-lift, Within-fail, Within-wrapped, Within-bind,
      Within-attempt, run-StaysArmed,
    )

    or_cleanup-StaysArmed :
        {A : Type 0} (f : Error → Error) (r : Result A) → Within StaysArmed (or_cleanup ports c f r)
    unfolding or_cleanup
    or_cleanup-StaysArmed f (ok x) = Within-pure StaysArmed-preorder x
    or_cleanup-StaysArmed f (err e) = search armed_rules

    guarded-StaysArmed :
        {A : Type 0} (f : Error → Error) {m : Exec (Run W) A}
        → Within StaysArmed m
        → Within StaysArmed (guarded ports c f m)
    unfolding guarded
    guarded-StaysArmed f w =
        Within-bind StaysArmed-preorder (Within-attempt StaysArmed-preorder w)
          (λ r. or_cleanup-StaysArmed f r)

    -- Once the cleanup has run its error is kept.
    run-once :
        (s : Run W) (once : Option (Option Error))
        → s.once ≡ once
        → (e : Option Error) × ((run ports c s).1.once ≡ some e)
    unfolding run unset_nonce call
    run-once s none h = rw (h, run) (_, refl)
    run-once s (some r) h = (r, rw (h, run) h)

  module _ (parse_uuid : Bytes → Option Bytes) (codec : Codec) (ports : Ports W) where
    challenge_guest-StaysArmed :
        Within StaysArmed (challenge_guest parse_uuid codec ports service a)
    unfolding challenge_guest
    challenge_guest-StaysArmed =
        Within-bind StaysArmed-preorder (or_cleanup-StaysArmed ports _ _) (λ challenge.
          Within-bind StaysArmed-preorder (guarded-StaysArmed ports _ (send-StaysArmed challenge))
            (λ _.
              Within-bind StaysArmed-preorder (guarded-StaysArmed ports _ receive-StaysArmed)
                (λ raw.
                  Within-bind StaysArmed-preorder (or_cleanup-StaysArmed ports _ _)
                    (λ got. or_cleanup-StaysArmed ports _ _))))
      where
        send-StaysArmed :
            (challenge : Bytes) → Within StaysArmed (send_challenge ports rpc challenge)
        send-StaysArmed challenge = unfold send_challenge in call-StaysArmed _ _ (λ r. refl)

        receive-StaysArmed :
            Within StaysArmed (receive_response ports (with_timeout rpc service.challenge_timeout))
        receive-StaysArmed = unfold receive_response in call-StaysArmed _ _ (λ r. refl)

    send_attributes-StaysArmed :
        (attrs : Attributes) → Within StaysArmed (send_attributes ports rpc attrs)
    unfolding send_attributes
    send_attributes-StaysArmed attrs = call-StaysArmed _ _ (λ r. refl)

    return_unless_nil-StaysArmed :
        (e : Option Error) → Within StaysArmed (return_unless_nil {S = Run W} e)
    unfolding return_unless_nil
    return_unless_nil-StaysArmed none = Within-pure StaysArmed-preorder tt
    return_unless_nil-StaysArmed (some e) = Within-fail StaysArmed-preorder e

    finish-StaysArmed : Within StaysArmed (finish parse_uuid codec ports service a)
    unfolding finish
    finish-StaysArmed = Within-bind StaysArmed-preorder (run-StaysArmed ports) (λ clean.
        Within-bind StaysArmed-preorder (return_unless_nil-StaysArmed _) (λ _.
          Within-bind StaysArmed-preorder (Within-lift StaysArmed-preorder _)
            (λ attrs. Within-wrapped StaysArmed-preorder _ (send_attributes-StaysArmed attrs))))

-- From a new cleanup, SetNonce arms: the key is owed a removal until the cleanup has run.
set_nonce-IsArmed :
    {W : Type 0} (ports : Ports W) (service : Service) (a : Attempt) (ctx : Context) (text : Bytes)
    (s : Run W)
    → s.once ≡ none
    → IsArmed s.trace service a (set_nonce ports ctx a.target a.key text s).1
unfolding set_nonce call
set_nonce-IsArmed ports service a ctx text s h = record {
  in_order =
      collect-append touch_of s.trace _
      ∙ ap
          (λ o.
            touches s.trace
            ++ stored a.target a.key
              ∷ paid (removal_context service.cleanup_timeout) a.target a.key o)
          (sym h);
}

module _ {W : Type 0} (parse_uuid : Bytes → Option Bytes) (codec : Codec) (ports : Ports W)
    (service : Service) where
  store_nonce-IsArmed :
      (a : Attempt) (s : Run W)
      → s.once ≡ none
      → IsArmed s.trace service a (store_nonce parse_uuid codec ports service a s).1
  unfolding store_nonce guarded ◌>>=◌ attempt
  store_nonce-IsArmed a s h =
      ((or_cleanup-StaysArmed s.trace service a ports _ _).change _).armed
        (set_nonce-IsArmed ports service a _ _ s h)

  -- The body of Attest behind the arming, before its deferred call.
  body-IsArmed :
      (a : Attempt) (s : Run W)
      → s.once ≡ none
      → IsArmed s.trace service a
          ((store_nonce parse_uuid codec ports service a
              >> (challenge_guest parse_uuid codec ports service a
                  >> finish parse_uuid codec ports service a))
            s).1
  unfolding ◌>>=◌
  body-IsArmed a s h =
      let p = StaysArmed-preorder s.trace service a in
      let after_set = Within-continue p (store_nonce parse_uuid codec ports service a s).0 (λ _.
        Within-bind p (challenge_guest-StaysArmed s.trace service a parse_uuid codec ports)
          (λ _. finish-StaysArmed s.trace service a parse_uuid codec ports)) in
      (after_set.change (store_nonce parse_uuid codec ports service a s).1).armed
        (store_nonce-IsArmed a s h)

  -- The two calls that an attempt with this target and key makes: the store, then the removal.
  abbrev pub pair_of : Instance → Bytes → List Touch
  pair_of target key =
      stored target key ∷ removed (removal_context service.cleanup_timeout) target key ∷ []

  -- However an armed attempt ends, it has set its key, and after that unset it once.
  attest_armed-pair_of :
      (a : Attempt) (s : Run W)
      → touches (attest_armed parse_uuid codec ports service a s).1.trace
        ≡ touches s.trace ++ pair_of a.target a.key
  unfolding attest_armed arm attempt ◌>>=◌ lift
  attest_armed-pair_of a s =
      let s0 : Run W = record s { once = none } in
      let s1 : Run W =
        ((store_nonce parse_uuid codec ports service a
            >> (challenge_guest parse_uuid codec ports service a
                >> finish parse_uuid codec ports service a))
          s0).1 in
      let done = run-IsArmed s.trace service a ports s1 s1.once refl (body-IsArmed a s0 refl) in
      let (e, ran) = run-once s.trace service a ports s1 s1.once refl in
      done.in_order
      ∙ ap
          (λ o.
            touches s.trace
            ++ stored a.target a.key
              ∷ paid (removal_context service.cleanup_timeout) a.target a.key o)
          ran

  -- No call, or the two of one target and key.
  abbrev pub IsCleaned : Run W → Run W → Type 0
  IsCleaned s t =
      (touches t.trace ≡ touches s.trace)
      ⊎ ((target : Instance) × (key : Bytes) × (touches t.trace
            ≡ touches s.trace ++ pair_of target key))

  prepared-IsCleaned :
      (s : Run W) (r : Result Attempt)
      → let p = prepare parse_uuid codec ports service in
        (p s).0 ≡ r
        → IsCleaned s (continue r (attest_armed parse_uuid codec ports service) (p s).1).1
  prepared-IsCleaned s (ok a) e =
      let before = (prepare-Quiet parse_uuid codec ports service).change s in
      let armed = attest_armed-pair_of a (prepare parse_uuid codec ports service s).1 in
      inr (a.target, a.key, rw (← before.no_touch) armed)
  prepared-IsCleaned s (err e') e =
      let before = (prepare-Quiet parse_uuid codec ports service).change s in inl before.no_touch

  -- Whatever the environment answers and however Attest ends, it made no call of SetNonce or UnsetNonce; or it
  -- made one of SetNonce and, after it, one of UnsetNonce for the same instance and key under a context that is
  -- detached from the RPC and has the cleanup timeout, and no further one of these two.
  pub attest_cleans_up :
      (with_exchange : Bool) (s : Run W)
      → IsCleaned s (attest parse_uuid codec ports service with_exchange s).1
  unfolding attest attest_exchange ◌>>=◌ fail
  attest_cleans_up false s = inl refl
  attest_cleans_up true s = prepared-IsCleaned s _ refl
