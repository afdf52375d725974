-- ===== src/Plugins/Registry.antt =====
-- runtime/registry: handler-registry.ts, and the four registries that keep a first registration
-- (schema-registry.ts, authentication-registry.ts, template-registry.ts, expression-registry.ts). A
-- Map is its entries in order of insertion.
pub mod Refinement
use distributed_task_platfor.Prelude.{
  ℕ, String, Bool, true, false, ◌&&◌, Option, none, some, is_some, List, [], ◌∷◌, ◌++◌, str_eq,
  if◌then◌else◌,
}
use Prim.Native.String.{◌++◌ as ◌+++◌}

abbrev pub Entries : Type 0 → Type 0
Entries A = List (String × A)

module _ {A : Type 0} where
  -- map.get(key)
  abbrev pub lookup : String → Entries A → Option A
  lookup key [] = none
  lookup key ((k, a) ∷ es) = if str_eq k key then some a else lookup key es

  abbrev pub has_key : String → Entries A → Bool
  has_key key es = is_some (lookup key es)

  -- map.set(key, a)
  abbrev pub set_entry : String → A → Entries A → Entries A
  set_entry key a [] = (key, a) ∷ []
  set_entry key a ((k, b) ∷ es) = if str_eq k key then (k, a) ∷ es else (k, b) ∷ set_entry key a es

  -- Array.from(map.values())
  abbrev pub values : Entries A → List A
  values [] = []
  values ((k, a) ∷ es) = a ∷ values es

  -- register of SchemaRegistry and AuthenticationRegistry, registerFilter, registerOperator: a
  -- second registration is only warned about.
  abbrev pub register_first : String → A → Entries A → Entries A
  register_first key a es = if has_key key es then es else set_entry key a es

-- HandlerDefinition: the fields that the registry reads.
pub record HandlerDefinition : Type 0 where
  pub id : String
  pub version : String
  pub category : String
  pub retry : Option Bool

-- `${id}@${version}`
abbrev pub identifier : String → String → String
identifier id version = id +++ ("@" +++ version)

abbrev pub handler_identifier : HandlerDefinition → String
handler_identifier d = identifier d.id d.version

abbrev pub bool_eq : Bool → Bool → Bool
bool_eq true b = b
bool_eq false true = false
bool_eq false false = true

-- `retry === filter`
abbrev pub same_flag : Option Bool → Bool → Bool
same_flag none b = false
same_flag (some a) b = bool_eq a b

abbrev pub keep_if : {A : Type 0} → (A → Bool) → List A → List A
keep_if p [] = []
keep_if p (x ∷ xs) = if p x then x ∷ keep_if p xs else keep_if p xs

module _ (Implementation : Type 0) where
  pub record HandlerRegistry : Type 0 where
    pub definitions : Entries HandlerDefinition
    pub implementations : Entries Implementation

  abbrev pub empty_registry : HandlerRegistry
  empty_registry = record { definitions = []; implementations = [] }

  -- What a registration does: it returns, or throws with its message.
  pub data Registration : Type 0 where
    stored : HandlerRegistry → Registration
    refused : String → Registration

  -- register
  unfoldable pub register : HandlerDefinition → Implementation → HandlerRegistry → Registration
  register d i r =
      if has_key (handler_identifier d) r.definitions
      then refused (
          "Handler version "
          +++ (handler_identifier d +++ " is already registered. Versions are immutable."))
      else stored (record {
        definitions = set_entry (handler_identifier d) d r.definitions;
        implementations = set_entry (handler_identifier d) i r.implementations;
      })

  -- find, resolve
  abbrev pub find : String → HandlerRegistry → Option HandlerDefinition
  find key r = lookup key r.definitions

  abbrev pub resolve : String → HandlerRegistry → Option Implementation
  resolve key r = lookup key r.implementations

  abbrev pub in_category : Option String → HandlerDefinition → Bool
  in_category none d = true
  in_category (some c) d = if str_eq c "" then true else str_eq d.category c

  abbrev pub with_retry : Option Bool → HandlerDefinition → Bool
  with_retry none d = true
  with_retry (some b) d = same_flag d.retry b

  -- list
  unfoldable pub list : Option String → Option Bool → HandlerRegistry → List HandlerDefinition
  list category retry r =
      keep_if (with_retry retry) (keep_if (in_category category) (values r.definitions))
