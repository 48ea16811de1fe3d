-- ===== src/Interface/Ips/Mtus.antt =====
-- interface.c: the MTUs in the structures of collect_ips are those that the kernel gives.
use tsn.Base.{
  subst, ℕ, zero, suc, ◌≡◌, some, List, [], ◌∷◌, ◌++◌, All, CStr, ℤ, pos, negsuc, if◌then◌else◌,
}
use tsn.Runtime.{Env, Trace, socket, siocgifmtu}
use tsn.Runtime.Containers.{Containers}
use tsn.Interface.{Address, Ip}
use tsn.Interface.Ips.{add_address, fetch}

-- The MTU that the kernel gives of an interface when it is asked after `t`: what the ioctl leaves,
-- or -1 where the socket or the ioctl fails.
abbrev pub mtu_at : Env → CStr → Trace → ℤ
mtu_at env name t =
    let opened = socket ∷ t in
    let asked = siocgifmtu name ∷ opened in
    if env.succeeds opened
    then (if env.succeeds asked then pos (env.ioctl_value asked) else negsuc 0)
    else negsuc 0

-- This MTU is the one that the kernel gave of this interface when it was asked.
abbrev pub IsMtu : Env → CStr × ℤ → Type 0
IsMtu env (name, mtu) = (asked : Trace) × (mtu ≡ mtu_at env name asked)

-- Each structure has the MTU of its own interface.
abbrev pub HasMtus : Env → List Ip → Type 0
HasMtus env store = All (λ ip. IsMtu env (ip.name, ip.mtu)) store

module _ (env : Env) where
  pub HasMtus-append :
      (store : List Ip) (x : Ip)
      → HasMtus env store
      → IsMtu env (x.name, x.mtu)
      → HasMtus env (store ++ (x ∷ []))
  HasMtus-append [] x h k = (k, tt)
  HasMtus-append (y ∷ store) x (here, h) k = (here, HasMtus-append store x h k)

  pub HasMtus-add_address :
      (lib : Containers) (store : List Ip) (p : ℕ) (a : Address)
      → HasMtus env store
      → HasMtus env (add_address lib store p a)
  unfolding add_address
  HasMtus-add_address lib [] p a h = tt
  HasMtus-add_address lib (y ∷ store) zero a h = h
  HasMtus-add_address lib (y ∷ store) (suc p) a (here, h) =
      (here, HasMtus-add_address lib store p a h)

  pub HasMtus-fetch :
      (store : List Ip) (p : ℕ) (ip : Ip)
      → HasMtus env store
      → fetch store p ≡ some ip
      → IsMtu env (ip.name, ip.mtu)
  unfolding fetch
  HasMtus-fetch [] p ip h e = absurd (cc e)
  HasMtus-fetch (y ∷ store) zero ip (here, h) e =
      let same : y ≡ ip = cc in subst (λ (o : Ip). IsMtu env (o.name, o.mtu)) same here
  HasMtus-fetch (y ∷ store) (suc p) ip (here, h) e = HasMtus-fetch store p ip h e
