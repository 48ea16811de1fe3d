-- ===== src/Tests/World.antt =====
-- Containers that keep their promises, and an environment in which every call succeeds.
use tsn.Base.{
  ℕ, refl, Bool, true, false, Option, none, some, List, [], ◌∷◌, ◌++◌, CStr, text, str_eq,
  if◌then◌else◌,
}
use mathlib.Core.List.Perm
use tsn.Runtime.{Env, IfAddr, af_inet, af_inet6, no_arguments}
use tsn.Runtime.Records.{session_ds}
use tsn.Runtime.Containers.{Containers, IsLawful}
use tsn.Utils.Netmask.{inet, inet6}

-- The value of a name in a list of pairs.
abbrev pub find_pair : (V : Type 0) → List (CStr × V) → CStr → Option V
find_pair V [] j = none
find_pair V ((k, v) ∷ m) j = if str_eq k j then some v else find_pair V m j

abbrev pub list_containers : Containers
list_containers = record {
  ds_put_cstr = λ ds s. ds ++ s;
  ds_put_char = λ ds c. ds ++ (c ∷ []);
  list_push_back = λ A xs x. xs ++ (x ∷ []);
  svec_add_nocopy = λ xs x. xs ++ (x ∷ []);
  shash_add = λ V m k v. (k, v) ∷ m;
  shash_find_data = find_pair;
  sset_add = λ xs x. x ∷ xs;
}

pub list_containers-IsLawful : IsLawful list_containers
list_containers-IsLawful = record {
  ds_put_cstr-append = λ ds s. refl;
  ds_put_char-append = λ ds c. refl;
  list_push_back-append = λ A xs x. refl;
  svec_add_nocopy-append = λ xs x. refl;
  shash_add-perm = λ V m k v. Perm.refl ((k, v) ∷ m);
  shash_find_data-nil = λ V j. refl;
  shash_find_data-add = λ V m k j v h. refl;
}

abbrev pub loopback_mask : ℕ
loopback_mask = 255

-- Two addresses of one interface, and one of another.
abbrev pub addresses : List IfAddr
addresses =
    (record {
      ifa_name = text "eno0";
      ifa_addr = some (af_inet, text "10.0.0.2");
      ifa_netmask = some (inet loopback_mask);
      netmask_text = text "255.0.0.0";
    })
    ∷ (record {
      ifa_name = text "lo";
      ifa_addr = some (af_inet, text "127.0.0.1");
      ifa_netmask = some (inet loopback_mask);
      netmask_text = text "255.0.0.0";
    })
    ∷ (record {
      ifa_name = text "eno0";
      ifa_addr = some (af_inet6, text "fe80::1");
      ifa_netmask = some (inet6 4294967295 4294967295 0 0);
      netmask_text = text "ffff:ffff:ffff:ffff::";
    })
    ∷ []

-- Every command and every file holds these bytes.
abbrev pub world_of : Bool → List ℕ → Env
world_of ok bytes = record {
  succeeds = λ t. ok;
  if_nameindex = λ t. [];
  link_get_by_name = λ t name. none;
  link_get = λ t index. none;
  ifaddrs = λ t. addresses;
  ioctl_value = λ t. 1000;
  contents = λ t. bytes;
  time = λ t. some 1000;
  get_ds = session_ds;
  null_text = text "(null)";
  dbus_args = λ t. no_arguments;
  dbus_error = λ t. none;
}

abbrev pub world : Env
world = world_of true (text "<lldp/>")

abbrev pub broken_world : Env
broken_world = world_of false []
