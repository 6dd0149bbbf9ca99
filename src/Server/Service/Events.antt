-- ===== src/Server/Service/Events.antt =====
-- What the calls of a run did to the instances and to the stream, and the runs that did none of it.
use incus_spire_attestor.Prelude.{
  ℕ, ◌≡◌, refl, ◌∙◌, inl, inr, Option, List, [], ◌∷◌, ◌++◌, append-nil, append_assoc, Bytes,
  Bool-cases, is_empty,
}
use incus_spire_attestor.Errors.{Result}
use incus_spire_attestor.Golang.Slices.{contains}
use incus_spire_attestor.Exec.Frames.{
  Preorder, Within, Within-wrapped, Within-pure, Within-lift, Within-bind, Within-fail,
}
use incus_spire_attestor.Attest.Types.{Claims, Instance, Attributes}
use incus_spire_attestor.Server.Ports.{
  Context, Event, nonce_set, nonce_unset, attributes_sent, Ports, Run, call, lookup,
  receive_payload, read_full,
}
use incus_spire_attestor.Server.Resolve.{
  resolve_instance, resolve_hinted, resolve_unhinted, search_projects,
}
use incus_spire_attestor.Server.Service.{Service, read_random_pair, prepare, Codec}

-- A SetNonce or an UnsetNonce, with its instance and key, and for the latter with its context.
pub data Touch : Type 0 where
  stored : Instance → Bytes → Touch
  removed : Context → Instance → Bytes → Touch

-- What a call did to the nonces, and the attributes of a SendAttributes.
abbrev pub touch_of : Event → List Touch
touch_of (nonce_set _ target key _ _) = stored target key ∷ []
touch_of (nonce_unset ctx target key _) = removed ctx target key ∷ []
touch_of _ = []

abbrev pub sent_of : Event → List Attributes
sent_of (attributes_sent attrs _) = attrs ∷ []
sent_of _ = []

module _ {A : Type 0} (f : Event → List A) where
  abbrev pub collect : List Event → List A
  collect [] = []
  collect (e ∷ es) = f e ++ collect es

  pub collect-append : (es ds : List Event) → collect (es ++ ds) ≡ collect es ++ collect ds
  collect-append [] ds = refl
  collect-append (e ∷ es) ds = rw (collect-append es ds, append_assoc)

-- The calls of SetNonce and UnsetNonce, in their order.
abbrev pub touches : List Event → List Touch
touches = collect touch_of

abbrev pub sent : List Event → List Attributes
sent = collect sent_of

-- No nonce was set or unset and no attributes were sent between the two states.
pub record Quiet {W : Type 0} (s t : Run W) : Type 0 where
  pub no_touch : touches t.trace ≡ touches s.trace
  pub no_sent : sent t.trace ≡ sent s.trace

pub Quiet-preorder : {W : Type 0} → Preorder (Quiet {W = W})
Quiet-preorder = record {
  none = λ s. record { no_touch = refl; no_sent = refl };
  both =
      λ s t u q r. record { no_touch = r.no_touch ∙ q.no_touch; no_sent = r.no_sent ∙ q.no_sent };
}

-- An event that is none of these.
abbrev pub IsPlain : Event → Type 0
IsPlain e = (touch_of e ≡ []) × (sent_of e ≡ [])

collect_plain :
    {A : Type 0} (f : Event → List A) (es : List Event) (e : Event)
    → f e ≡ []
    → collect f (es ++ e ∷ []) ≡ collect f es
collect_plain f es e h = collect-append f es (e ∷ []) ∙ (rw h (simp append-nil))

pub call-Quiet :
    {W A : Type 0} (ask : W → Result A × W) (event : Result A → Event)
    → ((r : Result A) → IsPlain (event r))
    → Within Quiet (call ask event)
unfolding call
call-Quiet ask event plain = record {
  change = λ s.
      let (none_touched, none_sent) = plain (ask s.world).0 in
      record {
        no_touch = collect_plain touch_of s.trace _ none_touched;
        no_sent = collect_plain sent_of s.trace _ none_sent;
      };
}

pub ruleset quiet_rules =
    (Quiet-preorder, Within-pure, Within-lift, Within-fail, Within-wrapped, Within-bind)

module _ {W : Type 0} (parse_uuid : Bytes → Option Bytes) (ports : Ports W) where
  lookup-Quiet : (ctx : Context) (p n : Bytes) → Within Quiet (lookup ports ctx p n)
  unfolding lookup
  lookup-Quiet ctx p n = call-Quiet _ _ (λ r. (refl, refl))

  search_projects-Quiet :
      (ctx : Context) (claims : Claims) (projects : List Bytes) (acc : Instance × ℕ)
      → Within Quiet (search_projects parse_uuid ports ctx claims projects acc)
  unfolding search_projects
  search_projects-Quiet ctx claims [] acc = Within-pure Quiet-preorder acc
  search_projects-Quiet ctx claims (project ∷ projects) acc =
      Within-bind Quiet-preorder
        (Within-wrapped Quiet-preorder _ (lookup-Quiet ctx project claims.name))
        (λ found. search_projects-Quiet ctx claims projects _)

  resolve_hinted-Quiet :
      (ctx : Context) (projects : List Bytes) (claims : Claims)
      → Within Quiet (resolve_hinted parse_uuid ports ctx projects claims)
  unfolding resolve_hinted
  resolve_hinted-Quiet ctx projects claims = elim (Bool-cases (contains projects claims.project)) [
    | inl listed ↦ rw listed (search (quiet_rules, lookup-Quiet))
    | inr other ↦ rw other (Within-lift Quiet-preorder _)
  ]

  resolve_instance-Quiet :
      (timeout : ℕ) (projects : List Bytes) (claims : Claims)
      → Within Quiet (resolve_instance parse_uuid ports timeout projects claims)
  unfolding resolve_instance resolve_unhinted
  resolve_instance-Quiet timeout projects claims = elim (Bool-cases (is_empty claims.project)) [
    | inl empty ↦ rw empty (search (quiet_rules, search_projects-Quiet))
    | inr named ↦ rw named (resolve_hinted-Quiet _ projects claims)
  ]

module _ {W : Type 0} (parse_uuid : Bytes → Option Bytes) (codec : Codec) (ports : Ports W)
    (service : Service) where
  read_full-Quiet : (n : ℕ) → Within Quiet (read_full ports n)
  unfolding read_full
  read_full-Quiet n = call-Quiet _ _ (λ r. (refl, refl))

  receive_payload-Quiet : (ctx : Context) → Within Quiet (receive_payload ports ctx)
  unfolding receive_payload
  receive_payload-Quiet ctx = call-Quiet _ _ (λ r. (refl, refl))

  read_random_pair-Quiet : Within Quiet (read_random_pair parse_uuid codec ports service)
  unfolding read_random_pair
  read_random_pair-Quiet = search (quiet_rules, read_full-Quiet) depth 9

  -- Before the cleanup is armed, no nonce is set or unset and no attributes are sent.
  pub prepare-Quiet : Within Quiet (prepare parse_uuid codec ports service)
  unfolding prepare
  prepare-Quiet =
      Within-bind Quiet-preorder (Within-wrapped Quiet-preorder _ (receive_payload-Quiet _)) (λ raw.
        Within-bind Quiet-preorder (Within-lift Quiet-preorder _) (λ claims.
          Within-bind Quiet-preorder (Within-lift Quiet-preorder _) (λ _.
            Within-bind Quiet-preorder (resolve_instance-Quiet parse_uuid ports _ _ claims)
              (λ target.
                Within-bind Quiet-preorder read_random_pair-Quiet
                  (λ pair. Within-pure Quiet-preorder _)))))
