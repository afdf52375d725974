-- ===== src/Worker/Payload.antt =====
-- services/worker-service/src/processors/job.processor.ts: what its handlers read of a payload, of
-- the environment and of a url. What the libraries only compute are fields of `Libraries`.
use distributed_task_platfor.Prelude.{
  ℕ, zero, suc, ◌+◌, String, Bool, false, ◌||◌, Option, none, some, List, [], ◌∷◌, str_eq,
  or_default, if◌then◌else◌,
}
use Prim.Native.String.{◌++◌ as ◌+++◌, len, slice}
use package.text.Mathlib.Text.{find?, starts_with}
use distributed_task_platfor.Json.{
  Json, number, text, object, Fields, no_fields, field, get, or_else, or_value, spread, fields_of,
}
use distributed_task_platfor.Jobs.{Error}
use distributed_task_platfor.Effects.{MailInfo, Settled}

-- new URL(s): the parts that are read.
pub record Url : Type 0 where
  pub protocol : String
  pub hostname : String

pub record Libraries : Type 0 where
  -- JSON.parse, JSON.stringify, `${value}`, the text of a number, toUpperCase
  pub parse_json : String → Option Json
  pub stringify : Json → String
  pub show : Json → String
  pub number_text : ℕ → String
  pub to_upper_case : String → String
  -- new URL(s), which throws on none
  pub parse_url : String → Option Url
  -- new Parser().evaluate(expression, sandbox)
  pub evaluate : String → Fields → Settled Json
  pub error_text : Error → String
  -- what setTimeout makes of delay / 4
  pub quarter_ms : Json → ℕ
  pub preview_url : MailInfo → Json

-- process.env, whether a transporter is cached, and whether isolated-vm was loaded.
pub record Settings : Type 0 where
  pub ssrf_allowed_hosts : Option String
  pub smtp_configured : Bool
  pub transporter_cached : Bool
  pub has_ivm : Bool
  pub test_processor_delay : Option Json

-- `s.split(",")`, with the text's length as fuel.
abbrev pub split_commas : ℕ → String → List String
split_commas zero s = s ∷ []
split_commas (suc fuel) s = elim (find? s ",") [
  | none ↦ s ∷ []
  | some i ↦ slice s 0 i ∷ split_commas fuel (slice s (i + 1) (len s))
]

abbrev pub includes : String → List String → Bool
includes s [] = false
includes s (t ∷ ts) = str_eq t s || includes s ts

abbrev pub allowed_hosts : Option String → List String
allowed_hosts none = []
allowed_hosts (some s) = if str_eq s "" then [] else split_commas (len s) s

-- ['localhost', '127.0.0.1', '::1', '0.0.0.0']
abbrev pub local_names : List String
local_names = "localhost" ∷ "127.0.0.1" ∷ "::1" ∷ "0.0.0.0" ∷ []

abbrev pub starts_with_any : String → List String → Bool
starts_with_any s [] = false
starts_with_any s (p ∷ ps) = starts_with s p || starts_with_any s ps

-- The prefixes of the test, with those of /^172\.(1[6-9]|2[0-9]|3[0-1])\./ written out.
abbrev pub private_prefixes : List String
private_prefixes =
    "10." ∷ "192.168." ∷ "169.254." ∷ "172.16." ∷ "172.17." ∷ "172.18." ∷ "172.19." ∷ "172.20."
    ∷ "172.21." ∷ "172.22." ∷ "172.23." ∷ "172.24." ∷ "172.25." ∷ "172.26." ∷ "172.27." ∷ "172.28."
    ∷ "172.29." ∷ "172.30." ∷ "172.31." ∷ []

unfoldable pub is_private_address : String → Bool
is_private_address address =
    str_eq address "127.0.0.1"
    || str_eq address "::1"
    || str_eq address "0.0.0.0"
    || starts_with_any address private_prefixes

-- `payload?.key ?? payload?.input?.key`
abbrev pub setting : String → Option Json → Option Json
setting key payload = or_else (get key payload) (get key (get "input" payload))

abbrev pub obj : Json
obj = object no_fields

-- `payload?.input ?? payload ?? {}`
abbrev pub input_of : Option Json → Json
input_of payload = or_value (or_else (get "input" payload) payload) obj

-- The names that expressions and scripts see.
abbrev pub globals_of : Option Json → Fields
globals_of payload = field "input" (input_of payload) (
    field "variables" (or_value (setting "variables" payload) obj) (
      field "upstreamOutputs" (or_value (setting "upstreamOutputs" payload) obj)
        (field "previousOutput" (or_value (setting "previousOutput" payload) obj) no_fields)))

-- The sandbox of handleCondition, with the upstream outputs spread into it.
abbrev pub condition_sandbox : Option Json → Fields
condition_sandbox payload =
    spread (spread (globals_of payload) (fields_of (or_value (get "upstreamOutputs" payload) obj)))
      (fields_of (or_value (get "upstreamOutputs" (get "input" payload)) obj))

-- A truthy string, or nothing.
abbrev pub nonempty_text : Option Json → Option String
nonempty_text (some (text s)) = if str_eq s "" then none else some s
nonempty_text _ = none

-- logs.join('\n')
abbrev pub join_lines : List String → String
join_lines [] = ""
join_lines (l ∷ []) = l
join_lines (l ∷ k ∷ ls) = l +++ ("\n" +++ join_lines (k ∷ ls))

-- The delay of the default case.
abbrev pub delay_of : Settings → Option Json → Json
delay_of env payload =
    or_value (get "delay" payload) (or_default env.test_processor_delay (number "2000"))
