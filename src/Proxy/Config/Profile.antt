-- ===== src/Proxy/Config/Profile.antt =====
-- The SoftAtem profile and the order of the sources, in config.rs and load_cfg of main.rs.
use atemproxy.Prelude.{
  ◌≡◌, refl, inl, inr, arith, ℕ, Bool, true, false, Option, none, some, List, subst, ap, sym, ◌∙◌,
  Option-cases,
}
use atemproxy.Proxy.Net.{SocketAddr}
use atemproxy.Proxy.Config.{
  Config, single_owner, Env, Cli, Outside, normalize, ◌>>=◌, if_some, apply_bind, apply_flags,
  base_config, apply_env, apply_args, load, load_cfg,
}

-- What SoftAtem needs switched on.
abbrev pub HasProfile : Config → Type 0
HasProfile c = (c.locks.mode ≡ single_owner) × (c.media.enabled ≡ true) × (c.discovery.mdns ≡ true)

normalize-HasProfile :
    (c : Config) → (normalize c).compat.softatem ≡ true → HasProfile (normalize c)
unfolding normalize
normalize-HasProfile c h = ground arith

abbrev or_else : {A : Type 0} → Option A → A → A
or_else none a = a
or_else (some b) a = b

some-injective : {A : Type 0} {a b : A} → some a ≡ some b → a ≡ b
some-injective h = cc

bind-eq-some :
    {A B : Type 0} (m : Option A) (f : A → Option B) {b : B}
    → (m >>= f) ≡ some b
    → (a : A) × (m ≡ some a) × (f a ≡ some b)
bind-eq-some none f h = cc
bind-eq-some (some a) f h = (a, refl, h)

abbrev Text : Type 0
Text = List ℕ

normalize-atem : (c : Config) → ((normalize c).atem ≡ c.atem) × ((normalize c).log ≡ c.log)
unfolding normalize
normalize-atem c = ground arith

if_some-or_else : {A : Type 0} (v : Option A) (a : A) → if_some v (λ x y. x) a ≡ or_else v a
if_some-or_else none a = refl
if_some-or_else (some x) a = refl

set_atem :
    (v : Option Text) (b : Config)
    → ((if_some v (λ v c. record c { atem = v }) b).atem ≡ or_else v b.atem)
      × ((if_some v (λ v c. record c { atem = v }) b).log ≡ b.log)
set_atem none b = (refl, refl)
set_atem (some v) b = (refl, refl)

apply_args-atem :
    (o : Outside) (atem : Option Text) (bind : Option SocketAddr) (mdns : Option Bool)
    (log : Option Text) (c : Config)
    → ((apply_args o atem bind mdns log c).atem ≡ or_else atem c.atem)
      × ((apply_args o atem bind mdns log c).log ≡ or_else log c.log)
unfolding apply_args
apply_args-atem o atem bind mdns log c = ground arith

apply_flags-atem :
    (o : Outside) (env : Env) (c : Config)
    → ((apply_flags o env c).atem ≡ c.atem)
      × ((apply_flags o env c).log ≡ or_else env.log_var c.log)
apply_flags-atem o env c = ground arith

module _ (o : Outside) where
  load-HasProfile :
      (path atem : Option Text) (bind : Option SocketAddr) (mdns : Option Bool) (log : Option Text)
      (env : Env) (c : Config)
      → load o path atem bind mdns log env ≡ some c
      → c.compat.softatem ≡ true
      → HasProfile c
  unfolding load
  load-HasProfile path atem bind mdns log env c h s =
      let (b, e, f) = bind-eq-some (base_config o path env) _ h in
      let (d, g, k) = bind-eq-some (apply_env o env b) _ f in
      subst (λ c. c.compat.softatem ≡ true → HasProfile c) (some-injective k)
        (normalize-HasProfile (apply_args o atem bind mdns log d)) s

  -- A configuration that says SoftAtem has what SoftAtem needs switched on, wherever the word comes
  -- from: the flag, the variable or the file.
  pub load_cfg-HasProfile :
      (cli : Cli) (env : Env) (c : Config)
      → load_cfg o cli env ≡ some c
      → c.compat.softatem ≡ true
      → HasProfile c
  unfolding load_cfg load
  load_cfg-HasProfile cli env c h s =
      let (c₀, e, f) =
        bind-eq-some (load o cli.config cli.atem cli.bind cli.mdns cli.log env) _ h in
      elim (Option-cases cli.softatem) [
        | inl n ↦
            load-HasProfile cli.config cli.atem cli.bind cli.mdns cli.log env c (e ∙ rw n at f) s
        | inr (v, n) ↦
            subst (λ c. c.compat.softatem ≡ true → HasProfile c) (some-injective (rw n at f))
              (normalize-HasProfile (record c₀ { compat = record { softatem = v } })) s
      ]

  apply_bind-atem :
      (v : Option Text) (b c : Config)
      → apply_bind o v b ≡ some c
      → (c.atem ≡ b.atem) × (c.log ≡ b.log)
  apply_bind-atem none b c h =
      (ap (λ c. c.atem) (sym (some-injective h)), ap (λ c. c.log) (sym (some-injective h)))
  apply_bind-atem (some v) b c h =
      let (addr, e, f) = bind-eq-some (o.parse_addr v) _ h in
      (ap (λ c. c.atem) (sym (some-injective f)), ap (λ c. c.log) (sym (some-injective f)))

  apply_env-atem :
      (env : Env) (b c : Config)
      → apply_env o env b ≡ some c
      → (c.atem ≡ or_else env.atem_var b.atem) × (c.log ≡ or_else env.log_var b.log)
  unfolding apply_env
  apply_env-atem env b c h =
      let b' = if_some env.atem_var (λ v c. record c { atem = v }) b in
      let (d, e, f) = bind-eq-some (apply_bind o env.bind_var b') _ h in
      let bound = apply_bind-atem env.bind_var b' d e in
      let flags = apply_flags-atem o env d in
      let var = set_atem env.atem_var b in
      subst (λ c. (c.atem ≡ or_else env.atem_var b.atem) × (c.log ≡ or_else env.log_var b.log))
        (some-injective f)
        (flags.0 ∙ bound.0 ∙ var.0, flags.1 ∙ ap (or_else env.log_var) (bound.1 ∙ var.1))

  -- The address of the switcher and the level of the log are the flag's, if it is given, then the
  -- variable's, then the file's or the default.
  pub load-atem :
      (path atem : Option (List ℕ)) (bind : Option SocketAddr) (mdns : Option Bool)
      (log : Option (List ℕ)) (env : Env) (base c : Config)
      → base_config o path env ≡ some base
      → load o path atem bind mdns log env ≡ some c
      → (c.atem ≡ or_else atem (or_else env.atem_var base.atem))
        × (c.log ≡ or_else log (or_else env.log_var base.log))
  unfolding load apply_env apply_args normalize
  load-atem path atem bind mdns log env base c b h =
      let (b', e, f) = bind-eq-some (base_config o path env) _ h in
      let (d, g, k) = bind-eq-some (apply_env o env b') _ f in
      let same = some-injective (sym b ∙ e) in
      let args = apply_args-atem o atem bind mdns log d in
      let norm = normalize-atem (apply_args o atem bind mdns log d) in
      let got = apply_env-atem env b' d g in
      subst
        (λ c.
          (c.atem ≡ or_else atem (or_else env.atem_var base.atem))
          × (c.log ≡ or_else log (or_else env.log_var base.log)))
        (some-injective k)
        (
          norm.0
              ∙ args.0
              ∙ ap (or_else atem) (got.0 ∙ ap (λ b. or_else env.atem_var b.atem) (sym same)),
          norm.1
              ∙ args.1
              ∙ ap (or_else log) (got.1 ∙ ap (λ b. or_else env.log_var b.log) (sym same)),
        )

  -- `--softatem false` does not undo the profile: if the configuration loaded before the flag says
  -- SoftAtem, the result does not say SoftAtem, and has all that SoftAtem needs switched on.
  pub load_cfg-flag_keeps_profile :
      (cli : Cli) (env : Env) (c : Config)
      → load o cli.config cli.atem cli.bind cli.mdns cli.log env ≡ some c
      → c.compat.softatem ≡ true
      → cli.softatem ≡ some false
      → (c' : Config) × (load_cfg o cli env ≡ some c')
        × (c'.compat.softatem ≡ false)
        × HasProfile c'
  unfolding load_cfg load normalize
  load_cfg-flag_keeps_profile cli env c h s f =
      let c' = normalize (record c { compat = record { softatem = false } }) in
      let p = load-HasProfile cli.config cli.atem cli.bind cli.mdns cli.log env c h s in
      (c', rw (h, f) refl, ground arith, ground arith)
