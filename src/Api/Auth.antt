-- ===== src/Api/Auth.antt =====
-- services/api-service/src: middleware/auth.middleware.ts, services/auth.service.ts,
-- controllers/auth.controller.ts and repositories/user.repository.ts. Prisma, bcrypt, jsonwebtoken
-- and zod are parameters.
pub mod Gate
pub mod Accounts
use distributed_task_platfor.Prelude.{
  ℕ, suc, ◌+◌, ◌≡◌, ◌≢◌, String, Bool, true, false, ◌&&◌, ◌||◌, not, Option, none, some, str_eq,
  opt_eq, if◌then◌else◌,
}
use Prim.Native.String.{len, slice}
use text.Mathlib.Text.{find?}
use distributed_task_platfor.Jobs.{Error, message}
use distributed_task_platfor.Effects.{Settled, resolved, rejected}

-- req.user, and the payload of a token.
pub record UserClaims : Type 0 where
  pub user_id : String
  pub email : String
  pub role : String

-- What the middleware reads of a request.
pub record Credentials : Type 0 where
  pub x_api_key : Option String
  pub authorization : Option String
  pub query_token : Option String

-- next() with the user of the request, or a response 401 with its message.
pub data Access : Type 0 where
  granted : UserClaims → Access
  unauthorized : String → Access

-- `!!s` on an optional string.
abbrev pub given : Option String → Bool
given none = false
given (some s) = not (str_eq s "")

abbrev pub text_or_empty : Option String → String
text_or_empty none = ""
text_or_empty (some s) = s

-- `s.split(" ")`: the first piece, and the second if there is one.
abbrev pub until_space : String → Option ℕ → String
until_space s none = s
until_space s (some i) = slice s 0 i

abbrev pub first_piece : String → String
first_piece s = until_space s (find? s " ")

abbrev pub piece_after : String → Option ℕ → Option String
piece_after s none = none
piece_after s (some i) = some (first_piece (slice s (i + 1) (len s)))

abbrev pub second_piece : String → Option String
second_piece s = piece_after s (find? s " ")

-- process.env.API_KEY, where a missing variable is undefined.
abbrev pub same_key : Option String → Option String → Bool
same_key none none = true
same_key (some a) (some b) = str_eq a b
same_key _ _ = false

-- authenticateApiKey
unfoldable pub authenticate_api_key : Option String → Credentials → Access
authenticate_api_key api_key r =
    if same_key r.x_api_key api_key
    then granted (record { user_id = "system"; email = "system@dtp.local"; role = "DISPATCHER" })
    else unauthorized "Invalid API Key"

-- jwt.verify with the secret of the service: the payload, or it throws.
module _ (verify : String → Option UserClaims) where
  abbrev pub verified : Option UserClaims → Access
  verified none = unauthorized "Invalid token"
  verified (some user) = granted user

  abbrev pub check_token : String → Access
  check_token token =
      if str_eq token "" then unauthorized "No token provided" else verified (verify token)

  abbrev pub bearer_token : String → Access
  bearer_token header =
      if not (str_eq (first_piece header) "Bearer") || not (given (second_piece header))
      then unauthorized "Invalid authorization header"
      else check_token (text_or_empty (second_piece header))

  -- authenticateJwt
  unfoldable pub authenticate_jwt : Credentials → Access
  authenticate_jwt r =
      if given r.authorization
      then bearer_token (text_or_empty r.authorization)
      else if given r.query_token
      then check_token (text_or_empty r.query_token)
      else check_token ""

  -- authMiddleware
  unfoldable pub auth_middleware : Option String → Credentials → Access
  unfolding authenticate_api_key authenticate_jwt
  auth_middleware api_key r =
      if given r.x_api_key then authenticate_api_key api_key r else authenticate_jwt r

-- model User
pub record User : Type 0 where
  pub id : String
  pub email : String
  pub password_hash : String
  pub role : String

-- prisma.user.findUnique({ where: { email } }) and prisma.user.create, bcrypt and jwt.sign with the
-- secret and the lifetime of the service; each of them can throw.
pub record AuthBackend : Type 1 where
  pub Users : Type 0
  pub find_by_email : String → Users → Settled (Option User)
  pub create : (email password_hash : String) → Users → Settled User × Users
  pub hash : String → ℕ → Settled String
  pub compare : String → String → Settled Bool
  pub sign : UserClaims → Settled String

pub record RegisteredUser : Type 0 where
  pub id : String
  pub email : String
  pub role : String

pub record LoginResult : Type 0 where
  pub token : String
  pub user : UserClaims

-- What a call of the service gives: its value, or the error that it throws.
pub data Outcome (A : Type 0) : Type 0 where
  returns : A → Outcome A
  throws : Error → Outcome A

module _ (backend : AuthBackend) where
  open backend use {Users, find_by_email, create, hash, compare, sign}

  abbrev pub registered : User → RegisteredUser
  registered user = record { id = user.id; email = user.email; role = user.role }

  abbrev pub created : Settled User × Users → Outcome RegisteredUser × Users
  created (rejected e, us) = (throws e, us)
  created (resolved user, us) = (returns (registered user), us)

  abbrev pub with_hash : String → Settled String → Users → Outcome RegisteredUser × Users
  with_hash email (rejected e) us = (throws e, us)
  with_hash email (resolved password_hash) us = created (create email password_hash us)

  abbrev pub register_new :
      (email password : String) → Settled (Option User) → Users → Outcome RegisteredUser × Users
  register_new email password (rejected e) us = (throws e, us)
  register_new email password (resolved (some user)) us =
      (throws (message "User already exists"), us)
  register_new email password (resolved none) us = with_hash email (hash password 10) us

  -- AuthService.register
  unfoldable pub register : (email password : String) → Users → Outcome RegisteredUser × Users
  register email password us = register_new email password (find_by_email email us) us

  abbrev pub claims_of : User → UserClaims
  claims_of user = record { user_id = user.id; email = user.email; role = user.role }

  abbrev pub with_token : User → Settled String → Outcome LoginResult
  with_token user (rejected e) = throws e
  with_token user (resolved token) = returns (record { token = token; user = claims_of user })

  abbrev pub with_match : User → Settled Bool → Outcome LoginResult
  with_match user (rejected e) = throws e
  with_match user (resolved false) = throws (message "Invalid credentials")
  with_match user (resolved true) = with_token user (sign (claims_of user))

  abbrev pub login_as : String → Settled (Option User) → Outcome LoginResult
  login_as password (rejected e) = throws e
  login_as password (resolved none) = throws (message "Invalid credentials")
  login_as password (resolved (some user)) = with_match user (compare password user.password_hash)

  -- AuthService.Login
  unfoldable pub login : (email password : String) → Users → Outcome LoginResult
  login email password us = login_as password (find_by_email email us)

-- The status code and the body of a response.
abbrev pub Response : Type 0 → Type 0
Response A = ℕ × Outcome A

abbrev pub respond_auth : {A : Type 0} → ℕ → Outcome A → Response A
respond_auth code (returns a) = (code, returns a)
respond_auth code (throws m) = (400, throws m)

-- What registerSchema and loginSchema make of a body: the two fields, or the error's message.
abbrev pub Parsed : Type 0
Parsed = Outcome (String × String)

module _ (backend : AuthBackend) where
  open backend use {Users}

  -- AuthController.register
  unfoldable pub post_register : Parsed → Users → Response RegisteredUser × Users
  unfolding register
  post_register (throws m) us = ((400, throws m), us)
  post_register (returns (email, password)) us =
      let (o, us') = register backend email password us in (respond_auth 201 o, us')

  -- AuthController.login
  unfoldable pub post_login : Parsed → Users → Response LoginResult
  unfolding login
  post_login (throws m) us = (400, throws m)
  post_login (returns (email, password)) us = respond_auth 200 (login backend email password us)
