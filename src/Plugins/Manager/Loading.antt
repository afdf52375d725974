-- ===== src/Plugins/Manager/Loading.antt =====
-- plugin-manager.ts: what loading a plugin leaves behind.
use distributed_task_platfor.Prelude.{
  ◌≡◌, refl, sym, subst, inl, inr, String, true, false, List, [], ◌∷◌, str_eq, str_eq_refl,
  Bool-cases, All, ◌⊎◌,
}
use distributed_task_platfor.Effects.{Settled, resolved, rejected}
use distributed_task_platfor.Plugins.Registry.{
  Entries, has_key, set_entry, HandlerDefinition, handler_identifier, HandlerRegistry, register,
}
use distributed_task_platfor.Plugins.Registry.Refinement.{lookup-set_entry}
use distributed_task_platfor.Plugins.Manager.{
  PluginDefinition, PluginManager, Registries, plugin_identifier, register_handlers, run_hook,
  initialize_plugin, after_hook, with_handlers,
}

abbrev pub IsRejected : Settled (Unit {0}) → Type 0
IsRejected (resolved u) = ⊥
IsRejected (rejected e) = Unit

module _ (I V : Type 0) where
  -- An identifier that is registered stays registered.
  has_key-set_entry :
      {A : Type 0} (key k : String) (a : A) (es : Entries A)
      → has_key k es ≡ true
      → has_key k (set_entry key a es) ≡ true
  has_key-set_entry key k a es h = elim (Bool-cases (str_eq key k)) [
    | inl y ↦ rw (lookup-set_entry key k a es, y)
    | inr n ↦ rw (lookup-set_entry key k a es, n, h)
  ]

  register_handlers-keeps :
      (hs : List (HandlerDefinition × I)) (r : HandlerRegistry I) (k : String)
      → has_key k r.definitions ≡ true
      → has_key k (register_handlers I V hs r).1.definitions ≡ true
  unfolding register_handlers register
  register_handlers-keeps [] r k h = h
  register_handlers-keeps ((d, i) ∷ hs) r k h =
      elim (Bool-cases (has_key (handler_identifier d) r.definitions)) [
        | inl y ↦ rw (y, h)
        | inr n ↦ rw n (
            register_handlers-keeps hs _ k
              (has_key-set_entry (handler_identifier d) k d r.definitions h))
      ]

  -- Where the loop was refused, its first handler is registered.
  refused-first :
      (d : HandlerDefinition) (i : I) (hs : List (HandlerDefinition × I)) (r : HandlerRegistry I)
      → has_key (handler_identifier d) (register_handlers I V ((d, i) ∷ hs) r).1.definitions ≡ true
  unfolding register_handlers register
  refused-first d i hs r = elim (Bool-cases (has_key (handler_identifier d) r.definitions)) [
    | inl y ↦ rw (y, y)
    | inr n ↦ rw n (
        register_handlers-keeps hs _ (handler_identifier d) (
          rw (
            lookup-set_entry (handler_identifier d) (handler_identifier d) d r.definitions,
            str_eq_refl (handler_identifier d),
          )))
  ]

  -- A loop whose first handler is registered is refused, and leaves the registry.
  first-refused :
      (d : HandlerDefinition) (i : I) (hs : List (HandlerDefinition × I)) (r : HandlerRegistry I)
      → has_key (handler_identifier d) r.definitions ≡ true
      → IsRejected (register_handlers I V ((d, i) ∷ hs) r).0
        × ((register_handlers I V ((d, i) ∷ hs) r).1 ≡ r)
  unfolding register_handlers register
  first-refused d i hs r h = rw h (tt, refl)

  -- A rejected loop over the handlers rejects the whole, which then has not loaded the plugin.
  with_handlers-IsRejected :
      (p : PluginDefinition I V) (m : PluginManager I V)
      (x : Settled (Unit {0}) × HandlerRegistry I)
      → IsRejected x.0
      → IsRejected (with_handlers I V p m x).0
        × ((with_handlers I V p m x).1.handlers ≡ x.1)
        × ((with_handlers I V p m x).1.plugins ≡ m.plugins)
  with_handlers-IsRejected p m (rejected e, hs) h = (tt, refl, refl)
  with_handlers-IsRejected p m (resolved u, hs) h = absurd h

  IsRejected-with_handlers :
      (p : PluginDefinition I V) (m : PluginManager I V)
      (x : Settled (Unit {0}) × HandlerRegistry I)
      → IsRejected (with_handlers I V p m x).0
      → IsRejected x.0
  IsRejected-with_handlers p m (rejected e, hs) h = tt
  IsRejected-with_handlers p m (resolved u, hs) h = absurd h

  -- The plugin is not loaded, and its first handler is registered already.
  pub record IsStuck (p : PluginDefinition I V) (m : PluginManager I V) : Type 0 where
    pub not_loaded : has_key (plugin_identifier I V p) m.plugins ≡ false
    pub first : HandlerDefinition
    pub implementation : I
    pub others : List (HandlerDefinition × I)
    pub brings : p.handlers ≡ (first, implementation) ∷ others
    pub taken : has_key (handler_identifier first) m.handlers.definitions ≡ true

  -- Loading any plugin keeps the handlers that are registered, and adds its own identifier only.
  with_handlers-keeps :
      (q : PluginDefinition I V) (m : PluginManager I V)
      (x : Settled (Unit {0}) × HandlerRegistry I) (k : String)
      → has_key k x.1.definitions ≡ true
      → has_key k (with_handlers I V q m x).1.handlers.definitions ≡ true
  with_handlers-keeps q m (rejected e, hs) k h = h
  with_handlers-keeps q m (resolved u, hs) k h = h

  after_hook-keeps :
      (q : PluginDefinition I V) (m : PluginManager I V) (x : Settled (Unit {0}) × Registries I V)
      (k : String)
      → has_key k m.handlers.definitions ≡ true
      → has_key k (after_hook I V q m x).1.handlers.definitions ≡ true
  after_hook-keeps q m (rejected e, r) k h = h
  after_hook-keeps q m (resolved u, r) k h =
      let m' : PluginManager I V = record m { registries = r } in
      with_handlers-keeps q m' (register_handlers I V q.handlers m.handlers) k
        (register_handlers-keeps q.handlers m.handlers k h)

  initialize-keeps :
      (q : PluginDefinition I V) (m : PluginManager I V) (k : String)
      → has_key k m.handlers.definitions ≡ true
      → has_key k (initialize_plugin I V q m).1.handlers.definitions ≡ true
  unfolding initialize_plugin
  initialize-keeps q m k h = elim (Bool-cases (has_key (plugin_identifier I V q) m.plugins)) [
    | inl y ↦ rw (y, h)
    | inr n ↦ rw n (after_hook-keeps q m (run_hook I V q.initialize m.registries) k h)
  ]

  with_handlers-other :
      (q : PluginDefinition I V) (m : PluginManager I V)
      (x : Settled (Unit {0}) × HandlerRegistry I) (k : String)
      → str_eq (plugin_identifier I V q) k ≡ false
      → has_key k m.plugins ≡ false
      → has_key k (with_handlers I V q m x).1.plugins ≡ false
  with_handlers-other q m (rejected e, hs) k other h = h
  with_handlers-other q m (resolved u, hs) k other h =
      rw (lookup-set_entry (plugin_identifier I V q) k q m.plugins, other, h)

  initialize-other :
      (q : PluginDefinition I V) (m : PluginManager I V) (k : String)
      → str_eq (plugin_identifier I V q) k ≡ false
      → has_key k m.plugins ≡ false
      → has_key k (initialize_plugin I V q m).1.plugins ≡ false
  unfolding initialize_plugin
  initialize-other q m k other h = elim (Bool-cases (has_key (plugin_identifier I V q) m.plugins)) [
    | inl y ↦ rw (y, h)
    | inr n ↦ rw n (hooked (run_hook I V q.initialize m.registries))
  ]
    where
      hooked :
          (x : Settled (Unit {0}) × Registries I V)
          → has_key k (after_hook I V q m x).1.plugins ≡ false
      hooked (rejected e, r) = h
      hooked (resolved u, r) =
          with_handlers-other q (record m { registries = r })
            (register_handlers I V q.handlers m.handlers) k other h

  IsStuck-refused :
      (p : PluginDefinition I V) (m : PluginManager I V) (x : Settled (Unit {0}) × Registries I V)
      → IsStuck p m
      → IsRejected (after_hook I V p m x).0
        × (has_key (plugin_identifier I V p) (after_hook I V p m x).1.plugins ≡ false)
  IsStuck-refused p m (rejected e, r) stuck = (tt, stuck.not_loaded)
  IsStuck-refused p m (resolved u, r) stuck =
      let m' : PluginManager I V = record m { registries = r } in
      let refused_loop : IsRejected (register_handlers I V p.handlers m.handlers).0 =
        subst (λ hs. IsRejected (register_handlers I V hs m.handlers).0) (sym stuck.brings)
          (first-refused stuck.first stuck.implementation stuck.others m.handlers stuck.taken).0 in
      let (fails, hs, ps) =
        with_handlers-IsRejected p m' (register_handlers I V p.handlers m.handlers) refused_loop in
      (fails, rw (ps, stuck.not_loaded))

  IsStuck-again :
      (p : PluginDefinition I V) (m : PluginManager I V)
      → IsStuck p m
      → IsRejected (initialize_plugin I V p m).0
        × (has_key (plugin_identifier I V p) (initialize_plugin I V p m).1.plugins ≡ false)
  unfolding initialize_plugin
  IsStuck-again p m stuck =
      rw stuck.not_loaded (IsStuck-refused p m (run_hook I V p.initialize m.registries) stuck)

  -- Attempts to load plugins, one after another, whether they succeed or not.
  abbrev pub attempt_all : List (PluginDefinition I V) → PluginManager I V → PluginManager I V
  attempt_all [] m = m
  attempt_all (q ∷ qs) m = attempt_all qs (initialize_plugin I V q m).1

  -- The plugin itself, or one with another identifier.
  abbrev pub IsOtherOrSame : PluginDefinition I V → PluginDefinition I V → Type 0
  IsOtherOrSame p q = (str_eq (plugin_identifier I V q) (plugin_identifier I V p) ≡ false) ⊎ (q ≡ p)

  IsStuck-initialize :
      (p q : PluginDefinition I V) (m : PluginManager I V)
      → IsOtherOrSame p q
      → IsStuck p m
      → IsStuck p (initialize_plugin I V q m).1
  IsStuck-initialize p q m which stuck = record {
    not_loaded = elim which [
      | inl other ↦ initialize-other q m (plugin_identifier I V p) other stuck.not_loaded
      | inr same ↦
          subst
            (λ x. has_key (plugin_identifier I V p) (initialize_plugin I V x m).1.plugins ≡ false)
            (sym same) (IsStuck-again p m stuck).1
    ];
    first = stuck.first;
    implementation = stuck.implementation;
    others = stuck.others;
    brings = stuck.brings;
    taken = initialize-keeps q m (handler_identifier stuck.first) stuck.taken;
  }

  IsStuck-always :
      (p : PluginDefinition I V) (qs : List (PluginDefinition I V)) (m : PluginManager I V)
      → All (IsOtherOrSame p) qs
      → IsStuck p m
      → IsRejected (initialize_plugin I V p (attempt_all qs m)).0
  IsStuck-always p [] m which stuck = (IsStuck-again p m stuck).0
  IsStuck-always p (q ∷ qs) m which stuck =
      IsStuck-always p qs (initialize_plugin I V q m).1 which.1
        (IsStuck-initialize p q m which.0 stuck)

  none_refused : (m : PluginManager I V) → IsRejected (register_handlers I V [] m.handlers).0 → ⊥
  unfolding register_handlers
  none_refused m h = h

  failed-IsStuck :
      (p : PluginDefinition I V) (m : PluginManager I V) (x : Settled (Unit {0}) × Registries I V)
      (hs : List (HandlerDefinition × I))
      → p.handlers ≡ hs
      → has_key (plugin_identifier I V p) m.plugins ≡ false
      → x.0 ≡ resolved tt
      → IsRejected (after_hook I V p m x).0
      → IsStuck p (after_hook I V p m x).1
  failed-IsStuck p m (rejected e, r) hs is new_ ok fails = absurd (cc ok)
  failed-IsStuck p m (resolved u, r) [] is new_ ok fails =
      let refused_loop =
        IsRejected-with_handlers p (record m { registries = r })
          (register_handlers I V p.handlers m.handlers) fails in
      absurd (
        none_refused m
          (subst (λ l. IsRejected (register_handlers I V l m.handlers).0) is refused_loop))
  failed-IsStuck p m (resolved u, r) ((d, i) ∷ rest) is new_ ok fails =
      let m' : PluginManager I V = record m { registries = r } in
      let loop = register_handlers I V p.handlers m.handlers in
      let refused_loop = IsRejected-with_handlers p m' loop fails in
      let (_, hs, ps) = with_handlers-IsRejected p m' loop refused_loop in
      record {
        not_loaded = rw (ps, new_);
        first = d;
        implementation = i;
        others = rest;
        brings = is;
        taken = with_handlers-keeps p m' loop (handler_identifier d) (
            subst
              (λ l.
                has_key (handler_identifier d) (register_handlers I V l m.handlers).1.definitions
                ≡ true)
              (sym is) (refused-first d i rest m.handlers));
      }

  initialize-new :
      (p : PluginDefinition I V) (m : PluginManager I V)
      → has_key (plugin_identifier I V p) m.plugins ≡ false
      → initialize_plugin I V p m ≡ after_hook I V p m (run_hook I V p.initialize m.registries)
  unfolding initialize_plugin
  initialize-new p m new_ = rw new_

  -- When a plugin that was not loaded fails to load although its hook resolved, that is when one of
  -- its handlers was refused, every later attempt to load it fails too, whatever its hook then does,
  -- and whatever attempts to load it or plugins of other identifiers come in between.
  pub failed_load_is_final :
      (p : PluginDefinition I V) (m : PluginManager I V) (between : List (PluginDefinition I V))
      → has_key (plugin_identifier I V p) m.plugins ≡ false
      → (run_hook I V p.initialize m.registries).0 ≡ resolved tt
      → IsRejected (initialize_plugin I V p m).0
      → All (IsOtherOrSame p) between
      → IsRejected (initialize_plugin I V p (attempt_all between (initialize_plugin I V p m).1)).0
  failed_load_is_final p m between new_ ok fails which =
      let e = initialize-new p m new_ in
      let start =
        failed-IsStuck p m (run_hook I V p.initialize m.registries) p.handlers refl new_ ok
          (subst (λ x. IsRejected x.0) e fails) in
      IsStuck-always p between (initialize_plugin I V p m).1 which
        (subst (λ x. IsStuck p x.1) (sym e) start)
