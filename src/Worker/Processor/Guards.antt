-- ===== src/Worker/Processor/Guards.antt =====
-- job.processor.ts: where a processor may send a request.
use distributed_task_platfor.Prelude.{
  ℕ, ◌≡◌, ◌⊎◌, refl, inl, inr, String, Bool, true, false, ◌||◌, Option, none, some, List, [], ◌∷◌,
  All, str_eq, if◌then◌else◌,
}
use Prim.Native.String.{◌++◌ as ◌+++◌}
use package.text.Mathlib.Text.{starts_with}
use distributed_task_platfor.Json.{Json}
use distributed_task_platfor.Effects.{
  Call, HttpRequest, dns_lookup, fetch, Reply, Settled, resolved, rejected, Prog, ret, throw, call,
  ◌>>=◌, settle, await,
}
use distributed_task_platfor.Worker.{update_progress}
use distributed_task_platfor.Worker.Processor.Quiet.{
  IsQuiet, Quiet, Quiet-ret, Quiet-throw, Quiet-bind, Quiet-report,
}
use distributed_task_platfor.Effects.Always.{Always}
use distributed_task_platfor.Worker.Payload.{
  Libraries, Settings, Url, includes, allowed_hosts, nonempty_text, setting, is_private_address,
  local_names, starts_with_any, private_prefixes,
}
use distributed_task_platfor.Worker.Handlers.{
  check_address, check_host, check_url, http_to, handle_http, send_request, request_of,
}

-- An address that is none of 127.0.0.1, ::1 and 0.0.0.0, and that starts with none of 10., 192.168.,
-- 169.254. and 172.16. to 172.31.
pub record IsOutside (address : String) : Type 0 where
  pub names : All (λ a. str_eq address a ≡ false) ("127.0.0.1" ∷ "::1" ∷ "0.0.0.0" ∷ [])
  pub blocks :
      All (λ b. starts_with address (b +++ ".") ≡ false) ("10" ∷ "192.168" ∷ "169.254" ∷ [])
  pub block_172 :
      All
        (λ b. starts_with address ("172." +++ (b +++ ".")) ≡ false)
        ("16" ∷ "17" ∷ "18" ∷ "19" ∷ "20" ∷ "21" ∷ "22" ∷ "23" ∷ "24" ∷ "25" ∷ "26" ∷ "27" ∷ "28"
          ∷ "29" ∷ "30" ∷ "31" ∷ [])

or-false : (a b : Bool) → (a || b) ≡ false → (a ≡ false) × (b ≡ false)
or-false false b e = (refl, e)
or-false true b e = absurd (cc e)

starts_with_any-false :
    (s : String) (ps : List String)
    → starts_with_any s ps ≡ false
    → All (λ p. starts_with s p ≡ false) ps
starts_with_any-false s [] e = tt
starts_with_any-false s (p ∷ ps) e =
    let (here, rest) = or-false (starts_with s p) (starts_with_any s ps) e in
    (here, starts_with_any-false s ps rest)

is_private_address-IsOutside : (a : String) → is_private_address a ≡ false → IsOutside a
unfolding is_private_address
is_private_address-IsOutside a e =
    let loopback = str_eq a "127.0.0.1" || str_eq a "::1" in
    let named = loopback || str_eq a "0.0.0.0" in
    let (e2, e3) = or-false named (starts_with_any a private_prefixes) e in
    let (e1, n3) = or-false loopback (str_eq a "0.0.0.0") e2 in
    let (n1, n2) = or-false (str_eq a "127.0.0.1") (str_eq a "::1") e1 in
    let (ten, (home, (link, rest))) = starts_with_any-false a private_prefixes e3 in
    record { names = (n1, (n2, (n3, tt))); blocks = (ten, (home, (link, tt))); block_172 = rest }

module _ (lib : Libraries) (env : Settings) (payload : Option Json) where
  -- A request that the job may send, after the lookup `last`: to the url of its payload, by HTTP or
  -- HTTPS, to a host that the settings list, or that was just looked up to an address outside.
  pub record Licensed (last : Option (String × String)) (r : HttpRequest) : Type 0 where
    pub is_target : nonempty_text (setting "url" payload) ≡ some r.url
    pub url : Url
    pub parsed : lib.parse_url r.url ≡ some url
    pub by_http : (str_eq url.protocol "http:" || str_eq url.protocol "https:") ≡ true
    pub to_host :
        (includes url.hostname (allowed_hosts env.ssrf_allowed_hosts) ≡ true)
        ⊎ ((address : String) × (last ≡ some (url.hostname, address)) × IsOutside address)

  abbrev pub Permits : Option (String × String) → Call → Type 0
  Permits last (fetch r) = Licensed last r
  Permits last _ = Unit

  -- The last host that was looked up, and its address.
  abbrev pub looked_up :
      Option (String × String) → (o : Call) → Settled (Reply o) → Option (String × String)
  looked_up last (dns_lookup h) (resolved a) = some (h, a)
  looked_up last _ _ = last

  -- Every request of the program is licensed, whatever its calls answer.
  abbrev pub Guarded : {A : Type 0} → Option (String × String) → Prog A → Type 0
  Guarded last (ret a) = Unit
  Guarded last (throw e) = Unit
  Guarded last (call o k) =
      Permits last o × ((s : Settled (Reply o)) → Guarded (looked_up last o s) (k s))

  pub record IsGuarded {A : Type 0} (last : Option (String × String)) (m : Prog A) : Type 0 where
    pub guarded : Guarded last m

  Quiet-Guarded :
      {A : Type 0} (last : Option (String × String)) (m : Prog A)
      → Always IsQuiet m
      → Guarded last m
  Quiet-Guarded last (ret a) q = tt
  Quiet-Guarded last (throw e) q = tt
  Quiet-Guarded last (call (dns_lookup h) k) q = absurd q.0
  Quiet-Guarded last (call (fetch r) k) q = absurd q.0
  Quiet-Guarded last (call o k) q = (tt, λ s. Quiet-Guarded last (k s) (q.1 s))

  Quiet->>=-Guarded :
      {A B : Type 0} (last : Option (String × String)) (m : Prog A) (f : A → Prog B)
      → Always IsQuiet m
      → ((a : A) → Guarded last (f a))
      → Guarded last (m >>= f)
  Quiet->>=-Guarded last (ret a) f q next = next a
  Quiet->>=-Guarded last (throw e) f q next = tt
  Quiet->>=-Guarded last (call (dns_lookup h) k) f q next = absurd q.0
  Quiet->>=-Guarded last (call (fetch r) k) f q next = absurd q.0
  Quiet->>=-Guarded last (call o k) f q next =
      (tt, λ s. Quiet->>=-Guarded last (k s) f (q.1 s) next)

  pub Guarded->>=-Quiet :
      {A B : Type 0} (last : Option (String × String)) (m : Prog A) (f : A → Prog B)
      → Guarded last m
      → ((a : A) → Quiet (f a))
      → Guarded last (m >>= f)
  Guarded->>=-Quiet last (ret a) f g next = Quiet-Guarded last (f a) (next a).quiet
  Guarded->>=-Quiet last (throw e) f g next = tt
  Guarded->>=-Quiet last (call o k) f g next =
      (g.0, λ s. Guarded->>=-Quiet (looked_up last o s) (k s) f (g.1 s) next)

  -- The rules.
  pub silent :
      {A : Type 0} (last : Option (String × String)) (m : Prog A) → Quiet m → IsGuarded last m
  silent last m q = record { guarded = Quiet-Guarded last m q.quiet }

  after-Quiet :
      {A B : Type 0} (last : Option (String × String)) (m : Prog A) (f : A → Prog B)
      → Quiet m
      → ((a : A) → IsGuarded last (f a))
      → IsGuarded last (m >>= f)
  after-Quiet last m f q next = record {
    guarded = Quiet->>=-Guarded last m f q.quiet (λ a. (next a).guarded);
  }

  pub branching :
      {A : Type 0} (last : Option (String × String)) (b : Bool) (m n : Prog A)
      → (b ≡ true → IsGuarded last m)
      → (b ≡ false → IsGuarded last n)
      → IsGuarded last (if b then m else n)
  branching last true m n hm hn = hm refl
  branching last false m n hm hn = hn refl

  fetching :
      {B : Type 0} (last : Option (String × String)) (r : HttpRequest)
      (f : Reply (fetch r) → Prog B)
      → Licensed last r
      → ((a : Reply (fetch r)) → Quiet (f a))
      → IsGuarded last (await (fetch r) >>= f)
  fetching last r f l next = record {
    guarded = Guarded->>=-Quiet last (await (fetch r)) f (l, answered) next;
  }
    where
      answered : (s : Settled (Reply (fetch r))) → Guarded last (settle s)
      answered (resolved a) = tt
      answered (rejected e) = tt

  looking_up :
      {B : Type 0} (last : Option (String × String)) (h : String) (f : String → Prog B)
      → ((a : String) → IsGuarded (some (h, a)) (f a))
      → IsGuarded last (await (dns_lookup h) >>= f)
  looking_up last h f next = record { guarded = (tt, answered) }
    where
      answered : (s : Settled String) → Guarded (looked_up last (dns_lookup h) s) (settle s >>= f)
      answered (resolved a) = (next a).guarded
      answered (rejected e) = tt

  module _ (id : ℕ) where
    send_request-Guarded :
        (last : Option (String × String)) (t : String)
        → Licensed last (request_of lib env id t payload)
        → IsGuarded last (send_request lib env id t payload)
    send_request-Guarded last t l =
        after-Quiet last (update_progress id 20) _ (Quiet-report id 20) (λ _.
          after-Quiet last (update_progress id 40) _ (Quiet-report id 40) (λ _.
            fetching last (request_of lib env id t payload) _ l
              (λ r. Quiet-bind (update_progress id 80) _ (Quiet-report id 80) (λ _. Quiet-ret _))))

    module _ (target : String) (url : Url)
        (is_target : nonempty_text (setting "url" payload) ≡ some target)
        (parsed : lib.parse_url target ≡ some url)
        (by_http : (str_eq url.protocol "http:" || str_eq url.protocol "https:") ≡ true) where
      check_host-Guarded : IsGuarded none (check_host lib env id target payload url.hostname)
      check_host-Guarded =
          branching none (includes url.hostname (allowed_hosts env.ssrf_allowed_hosts)) _ _
            (λ listed. send_request-Guarded none target (license none (inl listed)))
            (λ _.
              branching none (includes url.hostname local_names) _ _
                (λ _. silent none _ (Quiet-throw _))
                (λ _. looking_up none url.hostname (check_address lib env id target payload) (λ a.
                  branching (some (url.hostname, a)) (is_private_address a) _ _
                    (λ _. silent (some (url.hostname, a)) _ (Quiet-throw _))
                    (λ public. send_request-Guarded (some (url.hostname, a)) target (
                      license (some (url.hostname, a))
                        (inr (a, refl, is_private_address-IsOutside a public)))))))
        where
          license :
              (last : Option (String × String))
              → ((includes url.hostname (allowed_hosts env.ssrf_allowed_hosts) ≡ true)
                  ⊎ ((address : String) × (last ≡ some (url.hostname, address))
                      × IsOutside address))
              → Licensed last (request_of lib env id target payload)
          license last h = record {
            is_target = is_target;
            url = url;
            parsed = parsed;
            by_http = by_http;
            to_host = h;
          }

    check_url-Guarded :
        (target : String) (o : Option Url)
        → nonempty_text (setting "url" payload) ≡ some target
        → lib.parse_url target ≡ o
        → IsGuarded none (check_url lib env id target payload o)
    check_url-Guarded target none is_target parsed = silent none _ (Quiet-throw _)
    check_url-Guarded target (some url) is_target parsed =
        branching none (str_eq url.protocol "http:" || str_eq url.protocol "https:") _ _
          (λ by_http. check_host-Guarded target url is_target parsed by_http)
          (λ _. silent none _ (Quiet-throw _))

    http_to-Guarded :
        (o : Option String)
        → nonempty_text (setting "url" payload) ≡ o
        → IsGuarded none (http_to lib env id payload o)
    http_to-Guarded none e = silent none _ (Quiet-throw _)
    http_to-Guarded (some target) e = check_url-Guarded target (lib.parse_url target) e refl

    pub handle_http-Guarded : IsGuarded none (handle_http lib env id payload)
    unfolding handle_http
    handle_http-Guarded = http_to-Guarded (nonempty_text (setting "url" payload)) refl
