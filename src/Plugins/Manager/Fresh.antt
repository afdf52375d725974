-- ===== src/Plugins/Manager/Fresh.antt =====
-- plugin-manager.ts: loading a plugin whose handlers are new.
use distributed_task_platfor.Prelude.{
  ◌≡◌, refl, ◌∙◌, inl, inr, String, true, false, some, List, [], ◌∷◌, All, str_eq, str_eq_refl,
  str_eq_iff, Bool-cases,
}
use distributed_task_platfor.Effects.{Settled, resolved, rejected}
use distributed_task_platfor.Plugins.Registry.{
  has_key, lookup, set_entry, HandlerDefinition, handler_identifier, HandlerRegistry, register,
  resolve,
}
use distributed_task_platfor.Plugins.Registry.Refinement.{lookup-set_entry}
use distributed_task_platfor.Plugins.Manager.{
  PluginDefinition, PluginManager, Registries, plugin_identifier, register_handlers, run_hook,
  initialize_plugin, after_hook, with_handlers,
}

module _ (I V : Type 0) where
  abbrev pub key_of : HandlerDefinition × I → String
  key_of h = handler_identifier h.0

  -- No handler is registered, and no two have one identifier.
  abbrev pub AreNew : List (HandlerDefinition × I) → HandlerRegistry I → Type 0
  AreNew [] r = Unit
  AreNew (h ∷ hs) r =
      (has_key (key_of h) r.definitions ≡ false)
      × All (λ h'. str_eq (key_of h) (key_of h') ≡ false) hs
      × AreNew hs r

  abbrev with_handler : HandlerDefinition → I → HandlerRegistry I → HandlerRegistry I
  with_handler d i r = record {
    definitions = set_entry (handler_identifier d) d r.definitions;
    implementations = set_entry (handler_identifier d) i r.implementations;
  }

  AreNew-with_handler :
      (d : HandlerDefinition) (i : I) (r : HandlerRegistry I) (hs : List (HandlerDefinition × I))
      → All (λ h'. str_eq (handler_identifier d) (key_of h') ≡ false) hs
      → AreNew hs r
      → AreNew hs (with_handler d i r)
  AreNew-with_handler d i r [] apart new_ = tt
  AreNew-with_handler d i r (h ∷ hs) (other, apart) (absent, distinct, new_) = (
    rw (lookup-set_entry (handler_identifier d) (key_of h) d r.definitions, other, absent),
    distinct,
    AreNew-with_handler d i r hs apart new_,
  )

  -- What the loop over new handlers leaves.
  pub record Registers (hs : List (HandlerDefinition × I)) (r r' : HandlerRegistry I) : Type 0 where
    pub each : All (λ h. resolve I (key_of h) r' ≡ some h.1) hs
    pub rest : (k : String) → has_key k r.definitions ≡ true → resolve I k r' ≡ resolve I k r

  register_handlers-Registers :
      (hs : List (HandlerDefinition × I)) (r : HandlerRegistry I)
      → AreNew hs r
      → ((register_handlers I V hs r).0 ≡ resolved tt)
        × Registers hs r (register_handlers I V hs r).1
  unfolding register_handlers register
  register_handlers-Registers [] r new_ = (refl, record { each = tt; rest = λ k h. refl })
  register_handlers-Registers ((d, i) ∷ hs) r (absent, apart, new_) =
      let key = handler_identifier d in
      let (ok, left) =
        register_handlers-Registers hs (with_handler d i r)
          (AreNew-with_handler d i r hs apart new_) in
      rw absent (
        ok,
        record {
          each = (
            left.rest key (rw (lookup-set_entry key key d r.definitions, str_eq_refl key))
                ∙ rw (lookup-set_entry key key i r.implementations, str_eq_refl key),
            left.each,
          );
          rest = λ k h. elim (Bool-cases (str_eq key k)) [
            | inl y ↦ absurd (let same : key ≡ k = (str_eq_iff key k).0 y in cc (absent, same, h))
            | inr n ↦
                left.rest k (rw (lookup-set_entry key k d r.definitions, n, h))
                ∙ rw (lookup-set_entry key k i r.implementations, n)
          ];
        },
      )

  -- A load that succeeded.
  pub record Loaded (p : PluginDefinition I V) (m m' : PluginManager I V) : Type 0 where
    pub listed : lookup (plugin_identifier I V p) m'.plugins ≡ some p
    pub registers : Registers p.handlers m.handlers m'.handlers

  with_handlers-Loaded :
      (p : PluginDefinition I V) (m : PluginManager I V)
      (x : Settled (Unit {0}) × HandlerRegistry I)
      → x.0 ≡ resolved tt
      → Registers p.handlers m.handlers x.1
      → ((with_handlers I V p m x).0 ≡ resolved tt) × Loaded p m (with_handlers I V p m x).1
  with_handlers-Loaded p m (rejected e, hs) ok left = absurd (cc ok)
  with_handlers-Loaded p m (resolved u, hs) ok left = (
    refl,
    record {
      listed = rw (
        lookup-set_entry (plugin_identifier I V p) (plugin_identifier I V p) p m.plugins,
        str_eq_refl (plugin_identifier I V p),
      );
      registers = left;
    },
  )

  after_hook-Loaded :
      (p : PluginDefinition I V) (m : PluginManager I V) (x : Settled (Unit {0}) × Registries I V)
      → x.0 ≡ resolved tt
      → AreNew p.handlers m.handlers
      → ((after_hook I V p m x).0 ≡ resolved tt) × Loaded p m (after_hook I V p m x).1
  after_hook-Loaded p m (rejected e, r) ok new_ = absurd (cc ok)
  after_hook-Loaded p m (resolved u, r) ok new_ =
      let m' : PluginManager I V = record m { registries = r } in
      let (ok', left) = register_handlers-Registers p.handlers m.handlers new_ in
      let (done, loaded) =
        with_handlers-Loaded p m' (register_handlers I V p.handlers m.handlers) ok' left in
      (done, record { listed = loaded.listed; registers = loaded.registers })

  -- A plugin that is not loaded, whose hook resolves and whose handlers are new, loads: it is
  -- listed, each of its handlers resolves to its implementation, and every handler that was
  -- registered resolves as before. Loading it again then does nothing.
  pub initialize_plugin_loads :
      (p : PluginDefinition I V) (m : PluginManager I V)
      → has_key (plugin_identifier I V p) m.plugins ≡ false
      → (run_hook I V p.initialize m.registries).0 ≡ resolved tt
      → AreNew p.handlers m.handlers
      → let (r, m') = initialize_plugin I V p m in
        (r ≡ resolved tt) × Loaded p m m' × (initialize_plugin I V p m' ≡ (resolved tt, m'))
  unfolding initialize_plugin
  initialize_plugin_loads p m absent ok new_ =
      let (done, loaded) = after_hook-Loaded p m (run_hook I V p.initialize m.registries) ok new_ in
      rw absent (done, loaded, rw (loaded.listed))
