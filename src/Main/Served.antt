-- ===== src/Main/Served.antt =====
-- main.c: the requests that data_provider subscribes to, and what provider_cb does with them.
use tsn.Base.{
  ℕ, Bool, true, false, Bool-cases, inl, inr, CStr, ◌≡◌, refl, ◌∙◌, ap, arith, not, str_eq,
  str_eq→eq, text, List, [], ◌∷◌, ◌++◌, map, append_assoc, if◌then◌else◌, ◌&&◌,
}
use tsn.Runtime.{Env, M, Trace, Call, pure, sleep, sr_oper_get_subscribe, ◌>>◌}
use tsn.Runtime.Containers.{Containers}
use tsn.Runtime.Always.{IsOrder, Steps, trace_of}
use tsn.Runtime.Footprint.{
  Only, Grows, Grows-IsOrder, Grows-call, only_rules, Grows-same, Grows-call,
}
use tsn.Utils.Clock.{CTime}
use tsn.Lldp.{Xml}
use tsn.Lldp.Provider.{lldp_port_provider}
use tsn.Interface.Collect.{Interfaces}
use tsn.Interface.Names.{Names}
use tsn.Interface.Providers.{interface_statistics_provider, interface_oper_status_provider}
use tsn.Interface.Ips.Footprint.{get_interface_mtu_and_flags-Always}
use tsn.Interface.Speed.Footprint.{get_interface_speed-Always}
use tsn.Main.Footprint.{serve_loop-Always}
use tsn.Main.{
  provider_cb, data_provider, serve_loop, unsubscribe, interfaces_module, lldp_module,
  statistics_xpath, oper_status_xpath, lldp_xpath,
}

-- What was subscribed to, the first first: a module and a path each.
abbrev pub subscriptions : Trace → List (CStr × CStr)
subscriptions [] = []
subscriptions (sr_oper_get_subscribe module_name xpath ∷ t) =
    subscriptions t ++ ((module_name, xpath) ∷ [])
subscriptions (_ ∷ t) = subscriptions t

abbrev is_subscription : Call → Bool
is_subscription (sr_oper_get_subscribe module_name xpath) = true
is_subscription _ = false

abbrev no_subscription : Call → Bool
no_subscription c = not (is_subscription c)

keeps_subscriptions :
    (c : Call) (t : Trace) → no_subscription c ≡ true → subscriptions (c ∷ t) ≡ subscriptions t
keeps_subscriptions c t h = ground arith

module _ (env : Env) (lib : Containers) where
  order : IsOrder (Grows no_subscription)
  order = Grows-IsOrder no_subscription

  steps :
      {p : Call → Bool}
      → ((c : Call) → p c ≡ true → no_subscription c ≡ true)
      → Steps (Grows no_subscription) p
  steps k c h = Grows-call no_subscription c (k c h)

  loop-Only :
      (rounds : ℕ) (interfaces : Interfaces)
      → Only no_subscription (serve_loop env lib rounds interfaces)
  loop-Only =
      serve_loop-Always env lib order
        (get_interface_mtu_and_flags-Always env order (steps λ c h. ground arith))
        (get_interface_speed-Always env order (steps λ c h. ground arith))
        (steps λ c h. ground arith) (steps λ c h. ground arith)
        (Grows-call no_subscription sleep refl)

  unsubscribe-Only : (subscribed : Bool) → Only no_subscription (unsubscribe env lib subscribed)
  unfolding unsubscribe
  unsubscribe-Only subscribed = search only_rules

  -- Once the three calls are made, there is no other.
  data_provider-subscriptions :
      (rounds : ℕ) (interfaces : Interfaces) (t : Trace)
      → subscriptions (trace_of (data_provider env lib rounds interfaces t))
        ≡ subscriptions t
          ++ ((interfaces_module, statistics_xpath)
              ∷ (interfaces_module, oper_status_xpath)
              ∷ (lldp_module, lldp_xpath)
              ∷ [])
  unfolding data_provider
  data_provider-subscriptions rounds interfaces t =
      let one = sr_oper_get_subscribe interfaces_module statistics_xpath ∷ t in
      let two = sr_oper_get_subscribe interfaces_module oper_status_xpath ∷ one in
      let three = sr_oper_get_subscribe lldp_module lldp_xpath ∷ two in
      let rest : M (Unit {0}) = (do
        serve_loop env lib rounds interfaces
        unsubscribe env lib (env.succeeds one)
        unsubscribe env lib (env.succeeds two)
        unsubscribe env lib (env.succeeds three)) in
      let only : Only no_subscription rest =
        search (only_rules, loop-Only, unsubscribe-Only) depth 12 in
      Grows-same subscriptions no_subscription keeps_subscriptions three (trace_of (rest three))
        (only.at three)
      ∙ append_assoc (subscriptions t ++ ((interfaces_module, statistics_xpath) ∷ [])) _ _
      ∙ append_assoc (subscriptions t) _ _

-- A module is one of the two at most.
one_module :
    (module_name : CStr)
    → str_eq module_name interfaces_module ≡ true
    → str_eq module_name lldp_module ≡ false
unfolding str_eq text
one_module module_name h =
    ap (λ m. str_eq m lldp_module) (str_eq→eq module_name interfaces_module h)

-- The providers, by what they serve.
abbrev pub Provider : Type 0
Provider = Names → M Names

abbrev pub keys : List ((CStr × CStr) × Provider) → List (CStr × CStr)
keys = map λ (key, provider). key

abbrev pub provider_of : CStr → CStr → List ((CStr × CStr) × Provider) → Provider
provider_of module_name xpath [] = pure
provider_of module_name xpath (((m, x), provider) ∷ table) =
    let next = provider_of module_name xpath table in
    if str_eq module_name m && str_eq xpath x then provider else next

module _ (env : Env) (clock : CTime) (lib : Containers) (xml : Xml) where
  -- What each provider is for.
  abbrev pub providers : List ((CStr × CStr) × Provider)
  providers =
      ((interfaces_module, statistics_xpath), interface_statistics_provider env clock lib)
      ∷ ((interfaces_module, oper_status_xpath), interface_oper_status_provider env clock lib)
      ∷ ((lldp_module, lldp_xpath), λ names. lldp_port_provider env lib xml >> pure names)
      ∷ []

  -- However it ends, `data_provider` has subscribed to the keys of the table of providers, in its
  -- order, and to nothing else; and to any request `provider_cb` runs the provider that the table
  -- has for it, or does nothing where the table has none.
  pub data_provider-provider_cb :
      (rounds : ℕ) (interfaces : Interfaces) (t : Trace)
      → (subscriptions (trace_of (data_provider env lib rounds interfaces t))
          ≡ subscriptions t ++ keys providers)
        × ((module_name xpath : CStr) (names : Names)
            → provider_cb env clock lib xml module_name xpath names
              ≡ provider_of module_name xpath providers names)
  unfolding provider_cb
  data_provider-provider_cb rounds interfaces t =
      (data_provider-subscriptions env lib rounds interfaces t, dispatch)
    where
      dispatch :
          (module_name xpath : CStr) (names : Names)
          → provider_cb env clock lib xml module_name xpath names
            ≡ provider_of module_name xpath providers names
      dispatch module_name xpath names = elim (Bool-cases (str_eq module_name interfaces_module)) [
        | inl m ↦
            let other = one_module module_name m in
            elim (Bool-cases (str_eq xpath statistics_xpath)) [
              | inl e ↦ rw (m, e) refl
              | inr e ↦ elim (Bool-cases (str_eq xpath oper_status_xpath)) [
                | inl i ↦ rw (m, e, i) refl
                | inr i ↦ rw (m, other, e, i) refl
              ]
            ]
        | inr m ↦ elim (Bool-cases (str_eq module_name lldp_module)) [
          | inl l ↦ elim (Bool-cases (str_eq xpath lldp_xpath)) [
            | inl e ↦ rw (m, l, e) refl
            | inr e ↦ rw (m, l, e) refl
          ]
          | inr l ↦ rw (m, l) refl
        ]
      ]
