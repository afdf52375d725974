-- ===== src/Api/Webhooks/Attempts.antt =====
-- webhook-dispatcher.service.ts: how often a webhook is sent, to whom, and how long it waits.
use distributed_task_platfor.Prelude.{
  ℕ, zero, suc, ◌+◌, ◌*◌, ◌≤◌, ◌≡◌, ◌⊎◌, ◌↔◌, subst, refl, sym, ap, ◌∙◌, inl, inr, String, Bool,
  true, false, Option, none, some, List, [], ◌∷◌, length, str_eq, Bool-cases, Option-cases, arith,
  str_eq_iff,
}
use distributed_task_platfor.Effects.{Settled, resolved, rejected}
use distributed_task_platfor.Api.Webhooks.{
  WebhookBody, Platform, Fetched, response, network_error, SignedRequest, signed_request,
  settled_as, send, Action, deliver_to, fetch_settled,
}
use distributed_task_platfor.Api.Webhooks.Loop.{
  requests_of, waits_of, copies, Rejected, Resolved, AllRejected, Looped, loop_ends, backoff,
  waits_of-tries, requests_of-none, requests_of-some, length-backoff, tries,
}

-- Delays of which each lies between a base and half a second more; the base doubles.
abbrev pub AreBackoffs : ℕ → List ℕ → Type 0
AreBackoffs base [] = Unit
AreBackoffs base (d ∷ ds) = (base ≤ d) × (d ≤ base + 500) × AreBackoffs (2 * base) ds

-- How a request was answered.
abbrev pub IsOk : Fetched → Type 0
IsOk (response ok status) = ok ≡ true
IsOk (network_error e) = ⊥

abbrev pub IsFailure : Fetched → Type 0
IsFailure (response ok status) = ok ≡ false
IsFailure (network_error e) = Unit

-- The answers before the one with the number.
abbrev pub AllFailures : (ℕ → Fetched) → ℕ → Type 0
AllFailures answers zero = Unit
AllFailures answers (suc n) = IsFailure (answers n) × AllFailures answers n

-- The request for a url and a body: the body as JSON text, and its signature with the secret.
pub record IsSigned (p : Platform) (url : String) (body : WebhookBody) (r : SignedRequest)
    : Type 0 where
  pub secret : String
  pub configured : p.webhook_secret ≡ some secret
  pub not_empty : str_eq secret "" ≡ false
  pub to_url : r.url ≡ url
  pub with_body : r.body ≡ p.stringify body
  pub signed : r.signature ≡ p.hmac secret (p.stringify body)

-- No secret is configured, or an empty one.
abbrev pub HasNoSecret : Platform → Type 0
HasNoSecret p = (p.webhook_secret ≡ none) ⊎ (p.webhook_secret ≡ some "")

signed_request-cases :
    (p : Platform) (url : String) (body : WebhookBody)
    → (HasNoSecret p × (signed_request p url body ≡ none))
      ⊎ ((r : SignedRequest) × IsSigned p url body r × (signed_request p url body ≡ some r))
unfolding signed_request
signed_request-cases p url body = elim (Option-cases p.webhook_secret) [
  | inl e ↦ inl (inl e, rw e refl)
  | inr (secret, e) ↦ elim (Bool-cases (str_eq secret "")) [
    | inl empty ↦ inl (inr (e ∙ ap some ((str_eq_iff secret "").0 empty)), rw e (rw empty refl))
    | inr full ↦ inr (
      record { url = url; body = p.stringify body; signature = p.hmac secret (p.stringify body) },
      record {
        secret = secret;
        configured = e;
        not_empty = full;
        to_url = refl;
        with_body = refl;
        signed = refl;
      },
      rw e (rw full refl),
    )
  ]
]

settled_as-IsOk : (p : Platform) (f : Fetched) → Resolved (settled_as p f) ↔ IsOk f
unfolding Resolved
settled_as-IsOk p (network_error e) = (λ h. h, λ h. h)
settled_as-IsOk p (response true n) = (λ h. refl, λ h. tt)
settled_as-IsOk p (response false n) = (λ h. absurd h, λ h. absurd (cc h))

settled_as-IsFailure : (p : Platform) (f : Fetched) → Rejected (settled_as p f) → IsFailure f
unfolding Rejected
settled_as-IsFailure p (network_error e) h = tt
settled_as-IsFailure p (response true n) h = absurd h
settled_as-IsFailure p (response false n) h = refl

module _ (p : Platform) (fetch : ℕ → SignedRequest → Fetched) (randoms : ℕ → ℕ) (url : String)
    (body : WebhookBody) where
  -- Without a secret nothing goes out. With one, `last` + 1 requests do, all of them the signed one,
  -- of which all but the last failed; the delivery succeeds if and only if the last was answered ok.
  abbrev pub Sent : ℕ → List SignedRequest → Bool → Type 0
  Sent last sent ok =
      (HasNoSecret p × (sent ≡ []) × (ok ≡ false))
      ⊎ ((r : SignedRequest) × IsSigned p url body r
          × (sent ≡ copies (last + 1) r)
          × AllFailures (λ n. fetch n r) last
          × ((ok ≡ true) ↔ IsOk (fetch last r)))

  -- What a delivery has done: `last` + 1 attempts, four at most, with a delay between them each.
  pub record Delivered (actions : List Action) (ok : Bool) : Type 0 where
    pub last : ℕ
    pub bounded : last ≤ 3
    pub sends : Sent last (requests_of actions) ok
    pub gives_up : ok ≡ false → last ≡ 3
    pub waits : length (waits_of actions) ≡ last
    pub delays : waits_of actions ≡ backoff last 0 randoms

  abbrev answers : ℕ → Settled (Unit {0})
  answers n = send p (fetch n) url body

  Rejected-false :
      (ok : Bool) (s : Settled (Unit {0})) → ((ok ≡ true) ↔ Resolved s) → Rejected s → ok ≡ false
  unfolding Resolved Rejected
  Rejected-false true (resolved u) h no_ = absurd no_
  Rejected-false true (rejected e) h no_ = absurd (h.0 refl)
  Rejected-false false s h no_ = refl

  AllRejected-AllFailures :
      (r : SignedRequest) (n : ℕ)
      → signed_request p url body ≡ some r
      → AllRejected answers n
      → AllFailures (λ k. fetch k r) n
  unfolding AllRejected send
  AllRejected-AllFailures r zero e h = tt
  AllRejected-AllFailures r (suc n) e h = (
    settled_as-IsFailure p (fetch n r) (subst (λ o. Rejected (fetch_settled p (fetch n) o)) e h.0),
    AllRejected-AllFailures r n e h.1,
  )

  Looped-Sent :
      (o : Option SignedRequest) (last : ℕ) (ok : Bool)
      → signed_request p url body ≡ o
      → ((HasNoSecret p × (signed_request p url body ≡ none))
          ⊎ ((r : SignedRequest) × IsSigned p url body r × (signed_request p url body ≡ some r)))
      → Looped answers randoms o last ok
      → Sent last (requests_of (tries answers randoms o last 0)) ok
  unfolding send Resolved Rejected
  Looped-Sent none last ok is (inl (missing, e)) l = inl (
    missing,
    requests_of-none answers randoms last 0,
    Rejected-false ok (answers last) l.success
        (subst (λ x. Rejected (fetch_settled p (fetch last) x)) (sym e) tt),
  )
  Looped-Sent (some r) last ok is (inl (missing, e)) l = absurd (cc (is, e))
  Looped-Sent none last ok is (inr (r, signed, e)) l = absurd (cc (is, e))
  Looped-Sent (some r') last ok is (inr (r, signed, e)) l =
      let same : r' ≡ r = cc (is, e) in
      let answered = settled_as-IsOk p (fetch last r) in
      inr (
        r,
        signed,
        requests_of-some answers randoms r' last 0
            ∙ ap (λ x. copies (suc last) x) same
            ∙ ap (λ n. copies n r) (suc_add last),
        AllRejected-AllFailures r last e l.before,
        (
          λ yes_.
              answered.0
                (subst (λ o. Resolved (fetch_settled p (fetch last) o)) e (l.success.0 yes_)),
          λ h.
              l.success.1
                (subst (λ o. Resolved (fetch_settled p (fetch last) o)) (sym e) (answered.1 h)),
        ),
      )
    where
      suc_add : (n : ℕ) → suc n ≡ n + 1
      suc_add n = omega arith

  pub deliver_to-Delivered :
      (fuel : ℕ)
      → (actions : List Action) × (ok : Bool) × (deliver_to p fetch randoms
            (suc (suc (suc (suc (suc fuel)))))
            url
            body
          ≡ some (actions, ok))
        × Delivered actions ok
  unfolding deliver_to
  deliver_to-Delivered fuel =
      let o = signed_request p url body in
      let (last, ok, ends, l) = loop_ends answers randoms o fuel in
      let delays = waits_of-tries answers randoms o last 0 in
      (
        tries answers randoms o last 0,
        ok,
        ends,
        record {
          last = last;
          bounded = l.bounded;
          sends = Looped-Sent o last ok refl (signed_request-cases p url body) l;
          gives_up = l.gives_up;
          waits = ap length delays ∙ length-backoff last 0 randoms;
          delays = delays;
        },
      )
