-- ===== src/Tests/Interface.antt =====
-- The theorems on interface.c at concrete inputs.
use tsn.Base.{
  ℕ, Option, ◌==◌, if◌then◌else◌, sym, ap, some, pos, false, ◌≡◌, refl, arith, ◌∷◌, [], CStr, text,
  none, true,
}
use tsn.Runtime.{Env}
use tsn.Runtime.Laws.{Returns}
use tsn.Runtime.Records.{sets}
use tsn.Interface.Collect.{Interfaces}
use tsn.Interface.Ips.{collect_ips}
use tsn.Interface.Ips.Laws.{no_ips, collect_ips_lem}
use tsn.Interface.Ips.Rounds.{addresses_in}
use tsn.Interface.Ips.Store.{addresses_of}
use tsn.Interface.Ips.{Ips}
use tsn.Runtime.{Link}
use tsn.Interface.Collect.{collect_interfaces}
use mathlib.Core.List.{Perm}
use tsn.Runtime.{if_nameindex}
use tsn.Runtime.Netlink.{named}
use tsn.Interface.Collect.Content.{Links, IsCache, Collects, collect_interfaces-Collects}
use tsn.Tests.World.{world, addresses, list_containers, list_containers-IsLawful}

abbrev pub eno0 : Interfaces
eno0 =
    (
      (text "eno0"),
      record {
        name = text "eno0";
        index = 2;
        hw_addr = text "00:04:9f:05:de:0a";
        flags = 1;
        kind = none;
        speed = 0;
        vlan_id = 0;
        pvid = 0;
        master_name = none;
      },
    )
    ∷ []

collect_ips_lem_example :
    Returns
      (λ r _.
        (r.1 ≡ true)
        × ((k : CStr)
            → addresses_of list_containers r.0 k
              ≡ addresses_in world list_containers eno0 k addresses))
      (collect_ips world list_containers eno0 no_ips [])
collect_ips_lem_example =
    collect_ips_lem world list_containers eno0 list_containers-IsLawful []
      (omega arith, (omega arith, (omega arith, tt)))

abbrev pub one_ip : Ips
one_ip = record {
  store =
      (record {
        name = text "eno0";
        is_up = true;
        mtu = pos 1500;
        addresses =
            (record {
              is_ipv4 = true;
              addr = text "10.0.0.2";
              netmask = text "255.0.0.0";
              prefix = 8;
            })
            ∷ (record {
              is_ipv4 = false;
              addr = text "fe80::1";
              netmask = text "ffff::";
              prefix = 16;
            })
            ∷ [];
      })
      ∷ [];
  names = (text "eno0", 0) ∷ [];
}

-- A world in which every name has this link, which is its own master.
abbrev pub eno0_link : Link
eno0_link = record {
  name = text "eno0";
  arptype = 1;
  kind = none;
  flags = 1;
  ifindex = 2;
  addr = text "00:04:9f:05:de:0a";
  master = 2;
  is_vlan = false;
  vlan_id = 0;
  is_bridge = false;
  bridge_pvid = 0;
  operstate = 6;
  stat = λ id. 0;
}

abbrev pub by_number : ℕ → Option Link
by_number index = if index == 2 then some eno0_link else none

-- The master of a link that is there.
abbrev pub master_in : Option Link → Option Link
master_in none = none
master_in (some link) = by_number link.master

abbrev pub linked_world : Env
linked_world = record world {
  if_nameindex = λ t. record { if_index = 2; if_name = some (text "eno0") } ∷ [];
  link_get_by_name = λ t name. some eno0_link;
  link_get = λ t master. by_number master;
}

abbrev pub one_link : Links
one_link = record { by_name = λ name. some eno0_link; by_index = by_number }

pub linked_world-IsCache : IsCache linked_world one_link
linked_world-IsCache = record {
  reads_name = λ t name. refl;
  reads_index = λ t index. refl;
  masters = λ name link held e. (eno0_link, ap master_in (sym held));
}

collect_interfaces-Collects_example :
    Returns
      (λ r u.
        (made : Interfaces) × Collects linked_world one_link
          (named (linked_world.if_nameindex (if_nameindex ∷ [])))
          made
        × Perm r made
        × (sets u ≡ sets []))
      (collect_interfaces linked_world list_containers [] [])
collect_interfaces-Collects_example =
    collect_interfaces-Collects linked_world list_containers list_containers-IsLawful one_link
      linked_world-IsCache [] refl
