-- ===== src/Plugins/Registry/Refinement.antt =====
-- handler-registry.ts against a table in which an entry, once made, stays.
use distributed_task_platfor.Prelude.{
  ◌≡◌, refl, sym, subst, ap, ◌⊎◌, ◌∙◌, inl, inr, String, Bool, true, false, Option, none, some,
  is_some, List, [], ◌∷◌, str_eq, str_eq_iff, if◌then◌else◌, Bool-cases,
}
use distributed_task_platfor.Plugins.Registry.{
  Entries, lookup, has_key, set_entry, HandlerDefinition, handler_identifier, HandlerRegistry,
  Registration, stored, refused, register, find, resolve,
}

module _ {A : Type 0} where
  pub lookup-set_entry :
      (key key' : String) (a : A) (es : Entries A)
      → lookup key' (set_entry key a es) ≡ (if str_eq key key' then some a else lookup key' es)
  lookup-set_entry key key' a [] = refl
  lookup-set_entry key key' a ((k, b) ∷ es) = elim (Bool-cases (str_eq k key)) [
    | inl y ↦ rw (y, (str_eq_iff k key).0 y) (twice (str_eq key key') (lookup key' es))
    | inr n ↦
        rw (n, lookup-set_entry key key' a es)
          (apart (str_eq key key') (str_eq k key') (lookup key' es) (both n))
  ]
    where
      twice :
          (c : Bool) (rest : Option A)
          → (if c then some a else rest) ≡ (if c then some a else (if c then some b else rest))
      twice true rest = refl
      twice false rest = refl

      both : str_eq k key ≡ false → str_eq key key' ≡ true → str_eq k key' ≡ true → ⊥
      both n e e' =
          let same : k ≡ key = (str_eq_iff k key').0 e' ∙ sym ((str_eq_iff key key').0 e) in
          let found : str_eq k key ≡ true = (str_eq_iff k key).1 same in cc (n, found)

      apart :
          (c d : Bool) (rest : Option A)
          → (c ≡ true → d ≡ true → ⊥)
          → (if d then some b else (if c then some a else rest))
            ≡ (if c then some a else (if d then some b else rest))
      apart true true rest h = absurd (h refl refl)
      apart true false rest h = refl
      apart false d rest h = refl

-- The table: what is registered under an identifier, if anything.
abbrev pub Table : Type 0 → Type 0
Table I = String → Option (HandlerDefinition × I)

module _ (I : Type 0) where
  -- A registration in the table: refused where there is an entry.
  unfoldable pub table_register : HandlerDefinition → I → Table I → Bool × Table I
  table_register d i t =
      if is_some (t (handler_identifier d))
      then (false, t)
      else (true, λ k. if str_eq (handler_identifier d) k then some (d, i) else t k)

  abbrev pub definition_in : Option (HandlerDefinition × I) → Option HandlerDefinition
  definition_in none = none
  definition_in (some e) = some e.0

  abbrev pub implementation_in : Option (HandlerDefinition × I) → Option I
  implementation_in none = none
  implementation_in (some e) = some e.1

  pub record Represents (r : HandlerRegistry I) (t : Table I) : Type 0 where
    pub finds : (k : String) → find I k r ≡ definition_in (t k)
    pub resolves : (k : String) → resolve I k r ≡ implementation_in (t k)

  -- The outcomes of one registration match.
  abbrev pub Matches : Registration I → Bool × Table I → Type 0
  Matches (stored r) (ok, t) = (ok ≡ true) × Represents r t
  Matches (refused m) (ok, t) = ok ≡ false

  definition-is_some : (o : Option (HandlerDefinition × I)) → is_some (definition_in o) ≡ is_some o
  definition-is_some none = refl
  definition-is_some (some e) = refl

  pub register-Matches :
      (d : HandlerDefinition) (i : I) (r : HandlerRegistry I) (t : Table I)
      → Represents r t
      → Matches (register I d i r) (table_register d i t)
  unfolding register table_register
  register-Matches d i r t rep =
      let key = handler_identifier d in
      let same : has_key key r.definitions ≡ is_some (t key) =
        ap is_some (rep.finds key) ∙ definition-is_some (t key) in
      elim (Bool-cases (is_some (t key))) [
        | inl y ↦ rw (same, y)
        | inr n ↦
            rw (same, n)
              (
                refl,
                record {
                  finds = λ k.
                      lookup-set_entry key k d r.definitions
                      ∙ finding k (Bool-cases (str_eq key k));
                  resolves = λ k.
                      lookup-set_entry key k i r.implementations
                      ∙ resolving k (Bool-cases (str_eq key k));
                },
              )
      ]
    where
      finding :
          (k : String)
          → (str_eq (handler_identifier d) k ≡ true) ⊎ (str_eq (handler_identifier d) k ≡ false)
          → (if str_eq (handler_identifier d) k then some d else find I k r)
            ≡ definition_in (if str_eq (handler_identifier d) k then some (d, i) else t k)
      finding k (inl y) = rw y
      finding k (inr n) = rw (n, rep.finds k)

      resolving :
          (k : String)
          → (str_eq (handler_identifier d) k ≡ true) ⊎ (str_eq (handler_identifier d) k ≡ false)
          → (if str_eq (handler_identifier d) k then some i else resolve I k r)
            ≡ implementation_in (if str_eq (handler_identifier d) k then some (d, i) else t k)
      resolving k (inl y) = rw y
      resolving k (inr n) = rw (n, rep.resolves k)

  -- Registrations one after another, each caller catching a refusal: what each was told, and what
  -- is registered in the end.
  abbrev pub after : Registration I → HandlerRegistry I → Bool × HandlerRegistry I
  after (stored r') r = (true, r')
  after (refused m) r = (false, r)

  unfoldable pub register_all :
      List (HandlerDefinition × I) → HandlerRegistry I → List Bool × HandlerRegistry I
  register_all [] r = ([], r)
  register_all ((d, i) ∷ ops) r =
      let (ok, r') = after (register I d i r) r in
      let (oks, end) = register_all ops r' in (ok ∷ oks, end)

  unfoldable pub table_register_all : List (HandlerDefinition × I) → Table I → List Bool × Table I
  table_register_all [] t = ([], t)
  table_register_all ((d, i) ∷ ops) t =
      let (ok, t') = table_register d i t in
      let (oks, end) = table_register_all ops t' in (ok ∷ oks, end)

  after-Matches :
      (x : Registration I) (y : Bool × Table I) (r : HandlerRegistry I) (t : Table I)
      → Matches x y
      → Represents r t
      → (y.0 ≡ false → y.1 ≡ t)
      → ((after x r).0 ≡ y.0) × Represents (after x r).1 y.1
  after-Matches (stored r') (ok, t') r t (yes_, rep') rep stays = (sym yes_, rep')
  after-Matches (refused m) (ok, t') r t no_ rep stays =
      (sym no_, subst (Represents r) (sym (stays no_)) rep)

  refused-stays :
      (d : HandlerDefinition) (i : I) (t : Table I)
      → (table_register d i t).0 ≡ false
      → (table_register d i t).1 ≡ t
  unfolding table_register
  refused-stays d i t = by_test (is_some (t (handler_identifier d))) _
    where
      by_test :
          (b : Bool) (t' : Table I)
          → (let x : Bool × Table I = if b then (false, t) else (true, t') in x.0) ≡ false
          → (let x : Bool × Table I = if b then (false, t) else (true, t') in x.1) ≡ t
      by_test true t' e = refl
      by_test false t' e = absurd (cc e)

  -- Whatever handlers are registered, in whatever order: each registration is accepted or refused,
  -- and in the end every identifier finds its definition and resolves to its implementation, as in
  -- a table in which an entry, once made, stays.
  pub register_all_refines :
      (ops : List (HandlerDefinition × I)) (r : HandlerRegistry I) (t : Table I)
      → Represents r t
      → ((register_all ops r).0 ≡ (table_register_all ops t).0)
        × Represents (register_all ops r).1 (table_register_all ops t).1
  unfolding register_all table_register_all
  register_all_refines [] r t rep = (refl, rep)
  register_all_refines ((d, i) ∷ ops) r t rep =
      let (same, rep') =
        after-Matches (register I d i r) (table_register d i t) r t (register-Matches d i r t rep)
          rep (refused-stays d i t) in
      let (rest, end) =
        register_all_refines ops (after (register I d i r) r).1 (table_register d i t).1 rep' in
      (rw (same, rest), end)
