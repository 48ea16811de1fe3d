-- ===== src/Bridge/Vlan.antt =====
-- bridge.c, get_bridge_vlan: the reading of what `bridge -j vlan show` prints, over cJSON.
pub mod Bitmap
pub mod Entries
pub mod Laws
use tsn.Base.{
  ℕ, zero, suc, ◌+◌, Option, none, some, Bool, true, false, ◌&&◌, not, List, [], ◌∷◌, CStr, text,
  str_eq, strstr, ◌==◌, if◌then◌else◌, replicate, ℤ, wrap, u16_mod, u32_mod,
}

-- cJSON: a null pointer is `none`, and every accessor takes one.
pub record CJson : Type 1 where
  pub Json : Type 0
  pub parse : CStr → Option Json
  pub get_object_item : Option Json → CStr → Option Json
  pub is_array : Option Json → Bool
  pub array_size : Option Json → ℕ
  pub array_item : Option Json → ℕ → Option Json
  pub is_number : Option Json → Bool
  pub valueint : Option Json → ℤ
  pub is_string : Option Json → Bool
  pub string_value : Option Json → CStr

abbrev pub vlan_bitmap_max : ℕ
vlan_bitmap_max = 4096

-- `br_vlan_t`. A bitmap here is an array of VLAN ids, closed by the first 0.
pub record BrVlan : Type 0 where
  pub pvid : ℕ
  pub vlan_bitmap : List ℕ
  pub untagged_bitmap : List ℕ

-- After `bzero`.
unfoldable pub zero_vlan : BrVlan
zero_vlan = record {
  pvid = 0;
  vlan_bitmap = replicate vlan_bitmap_max 0;
  untagged_bitmap = replicate vlan_bitmap_max 0;
}

-- The rounds that are left of the loop, on the rest of the array. Behind the array one place more
-- stands for the memory there: a round too many would fill it.
unfoldable pub put_loop : ℕ → List ℕ → ℕ → List ℕ
put_loop zero bitmap id = bitmap
put_loop (suc rounds) [] id = id ∷ []
put_loop (suc rounds) (x ∷ bitmap) id =
    if x == 0 then id ∷ bitmap else x ∷ put_loop rounds bitmap id

-- `for (j = 0; j < VLAN_BITMAP_MAX; j++) if (bitmap[j] == 0) { bitmap[j] = id; break; }`
unfoldable pub put_id : List ℕ → ℕ → List ℕ
put_id bitmap id = put_loop vlan_bitmap_max bitmap id

pub record Flags : Type 0 where
  pub is_pvid : Bool
  pub is_untagged : Bool

module _ (cjson : CJson) where
  open cjson use {
    Json, get_object_item, is_array, array_size, array_item, is_number, valueint, is_string,
    string_value,
  }

  -- The body of the loop over the flags.
  flag_round : Flags → Option Json → Flags
  flag_round f flag_node =
      if is_string flag_node
      then (if str_eq (string_value flag_node) (text "PVID")
          then record f { is_pvid = true }
          else elim (strstr (string_value flag_node) (text "Untagged")) [
            | none ↦ f
            | some _ ↦ record f { is_untagged = true }
          ])
      else f

  flags_loop : ℕ → ℕ → Option Json → Flags → Flags
  flags_loop zero j flags_node f = f
  flags_loop (suc rounds) j flags_node f =
      flags_loop rounds (j + 1) flags_node (flag_round f (array_item flags_node j))

  read_flags : Option Json → Flags
  unfolding flags_loop flag_round
  read_flags flags_node =
      flags_loop (array_size flags_node) 0 flags_node
        (record { is_pvid = false; is_untagged = false })

  -- What the flags of an entry do with its id.
  mark : BrVlan → ℤ → Flags → BrVlan
  mark v id f =
      if f.is_pvid && not (v.pvid == 0)
      then v
      else if f.is_pvid
      then record v { pvid = wrap u16_mod id }
      else if f.is_untagged
      then record v { untagged_bitmap = put_id v.untagged_bitmap (wrap u32_mod id) }
      else v

  -- The body of the loop over the entries; `v` again is `continue`.
  vlan_round : BrVlan → Option Json → BrVlan
  vlan_round v vlan_node =
      let id_node = get_object_item vlan_node (text "vlan") in
      let id = valueint id_node in
      if not (is_number id_node) then v else elim (get_object_item vlan_node (text "flags")) [
        | none ↦ record v { vlan_bitmap = put_id v.vlan_bitmap (wrap u32_mod id) }
        | some flags_node ↦
            if not (is_array (some flags_node)) then v else mark v id (read_flags (some flags_node))
      ]

  vlans_loop : ℕ → ℕ → Option Json → BrVlan → BrVlan
  vlans_loop zero i bridge v = v
  vlans_loop (suc rounds) i bridge v =
      vlans_loop rounds (i + 1) bridge (vlan_round v (array_item bridge i))

  -- The tests on the bridge's node, then the loop.
  vlans_of_bridge : Option Json → BrVlan
  vlans_of_bridge none = zero_vlan
  vlans_of_bridge (some bridge) =
      if not (is_array (some bridge))
      then zero_vlan
      else vlans_loop (array_size (some bridge)) 0 (some bridge) zero_vlan

  -- From the output of the command to the VLANs of the bridge.
  unfoldable pub parse_vlans : CStr → CStr → BrVlan
  unfolding vlans_of_bridge vlans_loop vlan_round read_flags mark
  parse_vlans br_name output = vlans_of_bridge (get_object_item (cjson.parse output) br_name)
