-- ===== src/Api/Auth/Accounts.antt =====
-- auth.service.ts and auth.controller.ts: registering and logging in.
use distributed_task_platfor.Prelude.{
  ℕ, ◌≡◌, ◌↔◌, ◌⊎◌, inl, inr, refl, sym, ap, ◌∙◌, subst, String, Bool, true, false, Option, none,
  some, str_eq,
}
use distributed_task_platfor.Jobs.{Error, message}
use distributed_task_platfor.Effects.{Settled, resolved, rejected}
use distributed_task_platfor.Api.Auth.{
  AuthBackend, User, claims_of, login_as, with_match, with_token, respond_auth, returns, throws,
  post_register, post_login, register, login, LoginResult,
}

-- What is relied on: `row` is the row of an email. A lookup that is answered gives it; a row is
-- created only where the email has none, under that email and with the hash that was given; other
-- rows stay; and a password matches its own hash.
pub record IsSound (backend : AuthBackend) : Type 0 where
  pub row : backend.Users → String → Option User
  pub found :
      (e : String) (us : backend.Users) (o : Option User)
      → backend.find_by_email e us ≡ resolved o
      → o ≡ row us e
  pub creates :
      (e h : String) (us us' : backend.Users) (u : User)
      → backend.create e h us ≡ (resolved u, us')
      → (row us e ≡ none) × (row us' e ≡ some u) × (u.email ≡ e) × (u.password_hash ≡ h)
  pub others :
      (e h e' : String) (us : backend.Users)
      → str_eq e e' ≡ false
      → row (backend.create e h us).1 e' ≡ row us e'
  pub matches :
      (p h : String) (rounds : ℕ) (b : Bool)
      → backend.hash p rounds ≡ resolved h
      → backend.compare p h ≡ resolved b
      → b ≡ true

module _ (backend : AuthBackend) where
  open backend use {Users, find_by_email, compare, sign, create, hash}

  -- None of the calls of a registration and of the login after it fails.
  pub record AreAnswered (e p : String) (us : Users) : Type 0 where
    pub first_found : Option User
    pub finds : find_by_email e us ≡ resolved first_found
    pub password_hash : String
    pub hashes : hash p 10 ≡ resolved password_hash
    pub user : User
    pub after : Users
    pub creates_user : create e password_hash us ≡ (resolved user, after)
    pub then_found : Option User
    pub finds_again : find_by_email e after ≡ resolved then_found
    pub match : Bool
    pub compares : compare p password_hash ≡ resolved match
    pub token : String
    pub signs :
        sign (record { user_id = user.id; email = user.email; role = user.role }) ≡ resolved token

  -- Where no call of a registration and of the login after it fails: nobody had the email; the
  -- registration is answered with 201 and the id, email and role of the row that is now the email's,
  -- which holds the hash of the password, and every other email keeps its row; and the login with
  -- the same email and password is answered with 200, the token that is signed for that row's id,
  -- email and role, and these three.
  pub registered_can_login :
      (sound : IsSound backend) (e p : String) (us : Users) (a : AreAnswered e p us)
      → (sound.row us e ≡ none)
        × (sound.row a.after e ≡ some a.user)
        × (a.user.email ≡ e)
        × (hash p 10 ≡ resolved a.user.password_hash)
        × (post_register backend (returns (e, p)) us ≡ (
          (201, returns (record { id = a.user.id; email = a.user.email; role = a.user.role })),
          a.after,
        ))
        × (post_login backend (returns (e, p)) a.after ≡ (
          200,
          returns (record {
            token = a.token;
            user = record { user_id = a.user.id; email = a.user.email; role = a.user.role };
          }),
        ))
        × ((e' : String) → str_eq e e' ≡ false → sound.row a.after e' ≡ sound.row us e')
  unfolding post_register post_login register login
  registered_can_login sound e p us a =
      let (free, now_there, its_email, its_hash) =
        sound.creates e a.password_hash us a.after a.user a.creates_user in
      let nobody : find_by_email e us ≡ resolved none =
        a.finds ∙ ap resolved (sound.found e us a.first_found a.finds ∙ free) in
      let that_user : find_by_email e a.after ≡ resolved (some a.user) =
        a.finds_again
        ∙ ap resolved (sound.found e a.after a.then_found a.finds_again ∙ now_there) in
      let same : compare p a.user.password_hash ≡ resolved true =
        ap (compare p) its_hash
        ∙ a.compares
        ∙ ap resolved (sound.matches p a.password_hash 10 a.match a.hashes a.compares) in
      (
        free,
        now_there,
        its_email,
        a.hashes ∙ ap resolved (sym its_hash),
        rw (nobody, a.hashes, a.creates_user) refl,
        rw (that_user, same, a.signs) refl,
        λ e' other.
            ap (λ x. sound.row x.1 e') (sym a.creates_user)
            ∙ sound.others e a.password_hash e' us other,
      )

  module _ (p : String) (o : Settled (Option User)) where
    -- The login succeeds with this answer: a user was found, the password matches, and a token was
    -- signed for that user's id, email and role, which are answered with it.
    abbrev pub Entitled : LoginResult → Type 0
    Entitled r =
        (u : User) × (o ≡ resolved (some u))
        × (compare p u.password_hash ≡ resolved true)
        × (sign (record { user_id = u.id; email = u.email; role = u.role }) ≡ resolved r.token)
        × (r.user ≡ record { user_id = u.id; email = u.email; role = u.role })

    -- No user was found, or the password does not match.
    abbrev pub NoMatch : Type 0
    NoMatch =
        (o ≡ resolved none)
        ⊎ ((u : User) × (o ≡ resolved (some u)) × (compare p u.password_hash ≡ resolved false))

    -- One of the calls failed, with the error.
    abbrev pub FailedCall : Error → Type 0
    FailedCall er =
        (o ≡ rejected er)
        ⊎ ((u : User) × (o ≡ resolved (some u)) × (compare p u.password_hash ≡ rejected er))
        ⊎ ((u : User) × (o ≡ resolved (some u))
            × (compare p u.password_hash ≡ resolved true)
            × (sign (record { user_id = u.id; email = u.email; role = u.role }) ≡ rejected er))

    -- The three ways in which a login ends.
    abbrev pub Verdict : Type 0
    Verdict =
        ((r : LoginResult) × Entitled r
          × (respond_auth 200 (login_as backend p o) ≡ (200, returns r)))
        ⊎ (NoMatch
            × (respond_auth 200 (login_as backend p o)
                ≡ (400, throws (message "Invalid credentials"))))
        ⊎ ((er : Error) × FailedCall er
            × (respond_auth 200 (login_as backend p o) ≡ (400, throws er)))

    with_token-ends :
        (u : User) (t : Settled String)
        → o ≡ resolved (some u)
        → compare p u.password_hash ≡ resolved true
        → sign (claims_of backend u) ≡ t
        → login_as backend p o ≡ with_token backend u t
        → Verdict
    with_token-ends u (rejected er) found same e ends =
        inr (inr (er, inr (inr (u, found, same, e)), rw ends refl))
    with_token-ends u (resolved token) found same e ends = inl (
      record { token = token; user = claims_of backend u },
      (u, found, same, e, refl),
      rw ends refl,
    )

    with_match-ends :
        (u : User) (m : Settled Bool)
        → o ≡ resolved (some u)
        → compare p u.password_hash ≡ m
        → login_as backend p o ≡ with_match backend u m
        → Verdict
    with_match-ends u (rejected er) found e ends =
        inr (inr (er, inr (inl (u, found, e)), rw ends refl))
    with_match-ends u (resolved false) found e ends = inr (inl (inr (u, found, e), rw ends refl))
    with_match-ends u (resolved true) found e ends =
        with_token-ends u (sign (claims_of backend u)) found e refl ends

    login_as-ends : (o' : Settled (Option User)) → o ≡ o' → Verdict
    login_as-ends (rejected er) e = inr (inr (er, inl e, rw e refl))
    login_as-ends (resolved none) e = inr (inl (inl e, rw e refl))
    login_as-ends (resolved (some u)) e =
        with_match-ends u (compare p u.password_hash) e refl (rw e refl)

    Entitled-answer :
        (r : LoginResult) → Entitled r → respond_auth 200 (login_as backend p o) ≡ (200, returns r)
    Entitled-answer r (u, found, same, signed, user) =
        rw (found, same, signed) (ap (λ c. (200, returns (record r { user = c }))) (sym user))

    NoMatch-answer :
        NoMatch
        → respond_auth 200 (login_as backend p o) ≡ (400, throws (message "Invalid credentials"))
    NoMatch-answer (inl found) = rw found refl
    NoMatch-answer (inr (u, found, other)) = rw (found, other) refl

    FailedCall-answer :
        (er : Error) → FailedCall er → respond_auth 200 (login_as backend p o) ≡ (400, throws er)
    FailedCall-answer er (inl found) = rw found refl
    FailedCall-answer er (inr (inl (u, found, e))) = rw (found, e) refl
    FailedCall-answer er (inr (inr (u, found, same, e))) = rw (found, same, e) refl

    granted_only :
        Verdict
        → (r : LoginResult) → respond_auth 200 (login_as backend p o) ≡ (200, returns r)
        → Entitled r
    granted_only (inl (r', h, e)) r e' = let same : r' ≡ r = cc (e, e') in subst Entitled same h
    granted_only (inr (inl (h, e))) r e' = absurd (cc (e, e'))
    granted_only (inr (inr (er, h, e))) r e' = absurd (cc (e, e'))

    refused_only :
        Verdict
        → (er : Error) → respond_auth 200 (login_as backend p o) ≡ (400, throws er)
        → (NoMatch × (er ≡ message "Invalid credentials")) ⊎ FailedCall er
    refused_only (inl (r', h, e)) er e' = absurd (cc (e, e'))
    refused_only (inr (inl (h, e))) er e' = inl (h, cc (e, e'))
    refused_only (inr (inr (er', h, e))) er e' =
        let same : er' ≡ er = cc (e, e') in inr (subst FailedCall same h)

  -- A login is answered with 200 if and only if the lookup of the email found a user, the password
  -- matches that user's hash and a token was signed for that user's id, email and role, and then
  -- with this token and these three. It is answered with 400 and an error if and only if there is no
  -- such user or the password does not match, where both have the same message, or one of the calls
  -- failed with that error. There is no third answer.
  pub login_refuses :
      (e p : String) (us : Users)
      → ((r : LoginResult)
          → (post_login backend (returns (e, p)) us ≡ (200, returns r))
            ↔ Entitled p (find_by_email e us) r)
        × ((er : Error)
            → (post_login backend (returns (e, p)) us ≡ (400, throws er)) ↔ (
                (NoMatch p (find_by_email e us) × (er ≡ message "Invalid credentials"))
                ⊎ FailedCall p (find_by_email e us) er))
        × (((r : LoginResult) × (post_login backend (returns (e, p)) us ≡ (200, returns r)))
            ⊎ ((er : Error) × (post_login backend (returns (e, p)) us ≡ (400, throws er))))
  unfolding post_login login
  login_refuses e p us =
      let o = find_by_email e us in
      let verdict = login_as-ends p o o refl in
      (
        λ r. (granted_only p o verdict r, Entitled-answer p o r),
        λ er. (
          refused_only p o verdict er,
          λ h. elim h [
            | inl (none_, same) ↦ NoMatch-answer p o none_ ∙ ap (λ x. (400, throws x)) (sym same)
            | inr failed ↦ FailedCall-answer p o er failed
          ],
        ),
        elim verdict [
          | inl (r, h, answer) ↦ inl (r, answer)
          | inr (inl (h, answer)) ↦ inr (message "Invalid credentials", answer)
          | inr (inr (er, h, answer)) ↦ inr (er, answer)
        ],
      )
