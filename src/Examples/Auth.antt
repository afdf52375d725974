-- ===== src/Examples/Auth.antt =====
-- Requests with a token "good" of Ann, and one registered user in memory.
use distributed_task_platfor.Prelude.{
  ◌≡◌, ◌↔◌, ◌⊎◌, ◌∙◌, refl, sym, ap, subst, String, Bool, true, false, Option, none, some, List, [],
  ◌∷◌, str_eq, str_eq_iff, str_eq_refl, if◌then◌else◌,
}
use Prim.Native.String.{◌++◌ as ◌+++◌}
use distributed_task_platfor.Jobs.{Error, message}
use distributed_task_platfor.Effects.{Settled, resolved, rejected}
use distributed_task_platfor.Api.Auth.{
  UserClaims, Credentials, granted, auth_middleware, AuthBackend, User, LoginResult, returns,
  throws, post_register, post_login,
}
use distributed_task_platfor.Api.Auth.Gate.{IsAdmitted, auth_middleware_decides}
use distributed_task_platfor.Api.Auth.Accounts.{
  IsSound, AreAnswered, Entitled, NoMatch, FailedCall, registered_can_login, login_refuses,
}

abbrev ann : UserClaims
ann = record { user_id = "1"; email = "ann@x"; role = "USER" }

abbrev verify_good : String → Option UserClaims
verify_good t = if str_eq t "good" then some ann else none

abbrev with_bearer : Credentials
with_bearer = record { x_api_key = none; authorization = some "Bearer good"; query_token = none }

auth_middleware_decides_example :
    (auth_middleware verify_good (some "key") with_bearer ≡ granted ann)
    ↔ IsAdmitted verify_good (some "key") with_bearer ann
auth_middleware_decides_example = auth_middleware_decides verify_good (some "key") with_bearer ann

bearer_token_test : auth_middleware verify_good (some "key") with_bearer ≡ granted ann
unfolding auth_middleware
bearer_token_test = refl

abbrev find_user : String → List User → Option User
find_user e [] = none
find_user e (u ∷ us) = if str_eq u.email e then some u else find_user e us

abbrev new_user : String → String → User
new_user e h = record { id = e; email = e; password_hash = h; role = "USER" }

abbrev insert_new : Option User → String → String → List User → Settled User × List User
insert_new none e h us = (resolved (new_user e h), new_user e h ∷ us)
insert_new (some u) e h us = (rejected (message "Unique constraint failed"), us)

abbrev users_in_memory : AuthBackend
users_in_memory = record {
  Users = List User;
  find_by_email = λ e us. resolved (find_user e us);
  create = λ e h us. insert_new (find_user e us) e h us;
  hash = λ p rounds. resolved ("hash " +++ p);
  compare = λ p h. resolved (str_eq ("hash " +++ p) h);
  sign = λ c. resolved c.user_id;
}

insert_new-others :
    (o : Option User) (e h e' : String) (us : List User)
    → str_eq e e' ≡ false
    → find_user e' (insert_new o e h us).1 ≡ find_user e' us
insert_new-others none e h e' us other = rw other refl
insert_new-others (some u) e h e' us other = refl

insert_new-creates :
    (o : Option User) (e h : String) (us us' : List User) (u : User)
    → insert_new o e h us ≡ (resolved u, us')
    → (o ≡ none) × (find_user e us' ≡ some u) × (u.email ≡ e) × (u.password_hash ≡ h)
insert_new-creates none e h us us' u eq =
    let is_user : new_user e h ≡ u = cc eq in
    let is_after : new_user e h ∷ us ≡ us' = cc eq in
    (
      refl,
      subst (λ l. find_user e l ≡ some u) is_after (rw (str_eq_refl e) (ap some is_user)),
      ap (λ x. x.email) (sym is_user),
      ap (λ x. x.password_hash) (sym is_user),
    )
insert_new-creates (some v) e h us us' u eq = absurd (cc eq)

hash-matches :
    (p h : String) (b : Bool)
    → ◌≡◌ {A = Settled String} (resolved ("hash " +++ p)) (resolved h)
    → ◌≡◌ {A = Settled Bool} (resolved (str_eq ("hash " +++ p) h)) (resolved b)
    → b ≡ true
hash-matches p h b is_hash is_b =
    let same : "hash " +++ p ≡ h = cc is_hash in
    let answer : str_eq ("hash " +++ p) h ≡ b = cc is_b in
    sym answer ∙ (str_eq_iff ("hash " +++ p) h).1 same

resolved_injective : {A : Type 0} (a b : A) → resolved a ≡ resolved b → a ≡ b
resolved_injective a b e = cc e

abbrev users-IsSound : IsSound users_in_memory
users-IsSound = record {
  row = λ us e. find_user e us;
  found = λ e us o eq. resolved_injective o (find_user e us) (sym eq);
  creates = λ e h us us' u eq. insert_new-creates (find_user e us) e h us us' u eq;
  others = λ e h e' us other. insert_new-others (find_user e us) e h e' us other;
  matches = λ p h rounds b is_hash is_b. hash-matches p h b is_hash is_b;
}

abbrev one_user : List User
one_user = new_user "ann@x" "hash secret" ∷ []

abbrev bob : User
bob = new_user "bob@x" "hash password"

abbrev bob_answers : AreAnswered users_in_memory "bob@x" "password" one_user
bob_answers = record {
  first_found = none;
  finds = refl;
  password_hash = "hash password";
  hashes = refl;
  user = bob;
  after = bob ∷ one_user;
  creates_user = refl;
  then_found = some bob;
  finds_again = refl;
  match = true;
  compares = refl;
  token = "bob@x";
  signs = refl;
}

registered_can_login_example :
    (find_user "bob@x" one_user ≡ none)
    × (find_user "bob@x" (bob ∷ one_user) ≡ some bob)
    × (bob.email ≡ "bob@x")
    × (users_in_memory.hash "password" 10 ≡ resolved bob.password_hash)
    × (post_register users_in_memory (returns ("bob@x", "password")) one_user ≡ (
      (201, returns (record { id = "bob@x"; email = "bob@x"; role = "USER" })),
      bob ∷ one_user,
    ))
    × (post_login users_in_memory (returns ("bob@x", "password")) (bob ∷ one_user) ≡ (
      200,
      returns (record {
        token = "bob@x";
        user = record { user_id = "bob@x"; email = "bob@x"; role = "USER" };
      }),
    ))
    × ((e : String)
        → str_eq "bob@x" e ≡ false
        → find_user e (bob ∷ one_user) ≡ find_user e one_user)
registered_can_login_example =
    registered_can_login users_in_memory users-IsSound "bob@x" "password" one_user bob_answers

login_refuses_example :
    ((r : LoginResult)
      → (post_login users_in_memory (returns ("ann@x", "wrong")) one_user ≡ (200, returns r))
        ↔ Entitled users_in_memory "wrong" (resolved (find_user "ann@x" one_user)) r)
    × ((er : Error)
        → (post_login users_in_memory (returns ("ann@x", "wrong")) one_user ≡ (400, throws er)) ↔ (
            (NoMatch users_in_memory "wrong" (resolved (find_user "ann@x" one_user))
              × (er ≡ message "Invalid credentials"))
            ⊎ FailedCall users_in_memory "wrong" (resolved (find_user "ann@x" one_user)) er))
    × (((r : LoginResult) × (post_login users_in_memory (returns ("ann@x", "wrong")) one_user
            ≡ (200, returns r)))
        ⊎ ((er : Error) × (post_login users_in_memory (returns ("ann@x", "wrong")) one_user
              ≡ (400, throws er))))
login_refuses_example = login_refuses users_in_memory "ann@x" "wrong" one_user
