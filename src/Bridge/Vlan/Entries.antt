-- ===== src/Bridge/Vlan/Entries.antt =====
-- bridge.c: what an entry of the command's output says of its VLAN, and what the whole output says
-- of the bridge, as lists in the order of the entries.
use tsn.Base.{
  ℕ, zero, suc, ◌+◌, Option, none, some, not, List, [], ◌∷◌, ◌++◌, text, ◌==◌, if◌then◌else◌, wrap,
  u16_mod, u32_mod,
}
use tsn.Bridge.Vlan.{CJson, read_flags}

-- An entry with no flags names a tagged VLAN. One whose flags hold PVID names the port's own
-- VLAN, whatever else they hold; else one whose flags hold Untagged, an untagged VLAN. Other
-- entries say nothing.
pub data Entry : Type 0 where
  tagged pvid untagged : ℕ → Entry
  ignored : Entry

module _ (cjson : CJson) where
  open cjson use {Json, get_object_item, is_array, array_item, is_number, valueint}

  unfoldable pub entry : Option Json → Entry
  unfolding read_flags
  entry node =
      let id = valueint (get_object_item node (text "vlan")) in
      if not (is_number (get_object_item node (text "vlan")))
      then ignored
      else elim (get_object_item node (text "flags")) [
        | none ↦ tagged (wrap u32_mod id)
        | some flags ↦
            if not (is_array (some flags))
            then ignored
            else let f = read_flags cjson (some flags) in
              if f.is_pvid
              then pvid (wrap u16_mod id)
              else if f.is_untagged
              then untagged (wrap u32_mod id)
              else ignored
      ]

  -- The entries from the `i`th on.
  unfoldable pub entries : ℕ → ℕ → Option Json → List Entry
  entries zero i bridge = []
  entries (suc n) i bridge = entry (array_item bridge i) ∷ entries n (i + 1) bridge

-- The ids of each sort.
abbrev pub tagged_id : Entry → List ℕ
tagged_id (tagged id) = id ∷ []
tagged_id _ = []

abbrev pub untagged_id : Entry → List ℕ
untagged_id (untagged id) = id ∷ []
untagged_id _ = []

abbrev pub pvid_id : Entry → List ℕ
pvid_id (pvid id) = id ∷ []
pvid_id _ = []

unfoldable pub ids : (Entry → List ℕ) → List Entry → List ℕ
ids sort [] = []
ids sort (e ∷ es) = sort e ++ ids sort es

-- The first id other than 0, or 0.
unfoldable pub first_nonzero : List ℕ → ℕ
first_nonzero [] = 0
first_nonzero (id ∷ more) = if id == 0 then first_nonzero more else id
