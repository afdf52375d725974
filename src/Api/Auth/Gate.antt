-- ===== src/Api/Auth/Gate.antt =====
-- auth.middleware.ts: which requests the middleware lets in, and as whom.
use distributed_task_platfor.Prelude.{
  ◌≡◌, ◌↔◌, subst, ◌⊎◌, refl, inl, inr, String, Bool, true, false, not, ◌||◌, Option, none, some,
  str_eq, str_eq_iff, str_eq_refl, if◌then◌else◌,
}
use distributed_task_platfor.Api.Auth.{
  UserClaims, Credentials, Access, granted, unauthorized, given, text_or_empty, first_piece,
  second_piece, same_key, auth_middleware, check_token, bearer_token, verified,
}

abbrev pub dispatcher : UserClaims
dispatcher = record { user_id = "system"; email = "system@dtp.local"; role = "DISPATCHER" }

module _ (verify : String → Option UserClaims) where
  -- The token proves the user.
  pub record Proves (t : String) (u : UserClaims) : Type 0 where
    pub not_empty : str_eq t "" ≡ false
    pub verifies : verify t ≡ some u

  -- Who is let in: the service's key; or, without a key, a bearer token, or, with neither, the
  -- token of the query.
  pub data IsAdmitted (api_key : Option String) (r : Credentials) (u : UserClaims) : Type 0 where
    by_key :
        (k : String)
        → r.x_api_key ≡ some k
        → str_eq k "" ≡ false
        → api_key ≡ some k
        → u ≡ dispatcher
        → IsAdmitted api_key r u
    by_header :
        (h t : String)
        → given r.x_api_key ≡ false
        → r.authorization ≡ some h
        → str_eq h "" ≡ false
        → first_piece h ≡ "Bearer"
        → second_piece h ≡ some t
        → Proves t u
        → IsAdmitted api_key r u
    by_query :
        (t : String)
        → given r.x_api_key ≡ false
        → given r.authorization ≡ false
        → r.query_token ≡ some t
        → Proves t u
        → IsAdmitted api_key r u

  -- Which branch let the request in.
  if-granted :
      (b : Bool) (x y : Access) (u : UserClaims)
      → (if b then x else y) ≡ granted u
      → ((b ≡ true) × (x ≡ granted u)) ⊎ ((b ≡ false) × (y ≡ granted u))
  if-granted true x y u e = inl (refl, e)
  if-granted false x y u e = inr (refl, e)

  unauthorized-granted : (m : String) (u : UserClaims) → unauthorized m ≡ granted u → ⊥
  unauthorized-granted m u e = cc e

  not-true : (b : Bool) → not b ≡ true → b ≡ false
  not-true true e = absurd (cc e)
  not-true false e = refl

  given-some :
      (o : Option String) → given o ≡ true → (s : String) × (o ≡ some s) × (str_eq s "" ≡ false)
  given-some none e = absurd (cc e)
  given-some (some s) e = (s, refl, not-true (str_eq s "") e)

  some-given : (o : Option String) (s : String) → o ≡ some s → str_eq s "" ≡ false → given o ≡ true
  some-given o s e n = rw (e, n)

  verified-some :
      (o : Option UserClaims) (u : UserClaims) → verified verify o ≡ granted u → o ≡ some u
  verified-some none u e = absurd (cc e)
  verified-some (some v) u e = cc e

  check_token-Proves : (t : String) (u : UserClaims) → check_token verify t ≡ granted u → Proves t u
  check_token-Proves t u e = elim (if-granted (str_eq t "") _ _ u e) [
    | inl (y, e') ↦ absurd (cc e')
    | inr (n, e') ↦ record { not_empty = n; verifies = verified-some (verify t) u e' }
  ]

  Proves-check_token : (t : String) (u : UserClaims) → Proves t u → check_token verify t ≡ granted u
  Proves-check_token t u p = rw (p.not_empty, p.verifies)

  dispatcher-if :
      (x_api_key api_key : Option String) (k : String)
      → x_api_key ≡ some k
      → same_key x_api_key api_key ≡ true
      → api_key ≡ some k
  dispatcher-if (some k') (some a) k e same = cc (e, (str_eq_iff k' a).0 same)
  dispatcher-if (some k') none k e same = absurd (cc same)
  dispatcher-if none a k e same = absurd (cc e)

  pieces : (a b : Bool) → (not a || not b) ≡ false → (a ≡ true) × (b ≡ true)
  pieces true true e = (refl, refl)
  pieces true false e = absurd (cc e)
  pieces false b e = absurd (cc e)

  bearer_token-Proves :
      (h : String) (u : UserClaims)
      → bearer_token verify h ≡ granted u
      → (t : String) × (first_piece h ≡ "Bearer") × (second_piece h ≡ some t) × Proves t u
  bearer_token-Proves h u e =
      elim (if-granted (not (str_eq (first_piece h) "Bearer") || not (given (second_piece h))) _ _ u
        e) [
          | inl (bad, e') ↦ absurd (cc e')
          | inr (good, e') ↦
              let (is_bearer, has_token) =
                pieces (str_eq (first_piece h) "Bearer") (given (second_piece h)) good in
              let (t, is_t, full) = given-some (second_piece h) has_token in
              (
                t,
                (str_eq_iff (first_piece h) "Bearer").0 is_bearer,
                is_t,
                check_token-Proves t u
                    (subst (λ x. check_token verify (text_or_empty x) ≡ granted u) is_t e'),
              )
        ]

  let_in-IsAdmitted :
      (api_key : Option String) (r : Credentials) (u : UserClaims)
      → auth_middleware verify api_key r ≡ granted u
      → IsAdmitted api_key r u
  unfolding auth_middleware
  let_in-IsAdmitted api_key r u e = elim (if-granted (given r.x_api_key) _ _ u e) [
    | inl (has_key, e') ↦
        let (k, is_k, full) = given-some r.x_api_key has_key in
        elim (if-granted (same_key r.x_api_key api_key) _ _ u e') [
          | inl (same, e'') ↦
              by_key k is_k full (dispatcher-if r.x_api_key api_key k is_k same) (cc e'')
          | inr (other, e'') ↦ absurd (cc e'')
        ]
    | inr (no_key, e') ↦ elim (if-granted (given r.authorization) _ _ u e') [
      | inl (has_header, e'') ↦
          let (h, is_h, full) = given-some r.authorization has_header in
          let (t, bearer, is_t, p) =
            bearer_token-Proves h u
              (subst (λ x. bearer_token verify (text_or_empty x) ≡ granted u) is_h e'') in
          by_header h t no_key is_h full bearer is_t p
      | inr (no_header, e'') ↦ elim (if-granted (given r.query_token) _ _ u e'') [
        | inl (has_token, e3) ↦
            let (t, is_t, full_t) = given-some r.query_token has_token in
            by_query t no_key no_header is_t (
              check_token-Proves t u
                (subst (λ x. check_token verify (text_or_empty x) ≡ granted u) is_t e3))
        | inr (nothing, e3) ↦ absurd (cc e3)
      ]
    ]
  ]

  IsAdmitted-let_in :
      (api_key : Option String) (r : Credentials) (u : UserClaims)
      → IsAdmitted api_key r u
      → auth_middleware verify api_key r ≡ granted u
  unfolding auth_middleware
  IsAdmitted-let_in api_key r u (by_key k is_k full same who) =
      rw (is_k, full, same, str_eq_refl k, who)
  IsAdmitted-let_in api_key r u (by_header h t no_key is_h full bearer is_t p) =
      rw (no_key, is_h, full, bearer, is_t, p.not_empty, p.verifies)
  IsAdmitted-let_in api_key r u (by_query t no_key no_header is_t p) =
      rw (no_key, no_header, is_t, p.not_empty, p.verifies)

  -- The middleware passes a request on as a user if and only if it carries the service's key, which
  -- is configured and not empty, and the user is the dispatcher; or it carries no key, and a bearer
  -- token that verifies as the user; or neither, and such a token in its query.
  pub auth_middleware_decides :
      (api_key : Option String) (r : Credentials) (u : UserClaims)
      → (auth_middleware verify api_key r ≡ granted u) ↔ IsAdmitted api_key r u
  auth_middleware_decides api_key r u =
      (let_in-IsAdmitted api_key r u, IsAdmitted-let_in api_key r u)
