-- ===== src/Bridge/Vlan/Laws.antt =====
-- bridge.c: the loop over the entries, against what the entries say.
use tsn.Base.{
  ℕ, zero, suc, ◌+◌, ◌≡◌, refl, sym, ap, ◌∙◌, arith, Option, none, some, List, [], ◌∷◌, ◌++◌, ◌==◌,
  if◌then◌else◌, length, take, replicate, append_assoc, append-nil, CStr, Bool-cases, inl, inr,
}
use tsn.Bridge.Vlan.{
  CJson, BrVlan, vlan_bitmap_max, zero_vlan, put_id, mark, vlan_round, vlans_loop, vlans_of_bridge,
  parse_vlans,
}
use tsn.Bridge.Vlan.Bitmap.{
  used, nonzero, length-put_id, put_id-dense, used-put_id, used-replicate, take-take-append,
  nonzero-append, take-used,
}
use tsn.Bridge.Vlan.Entries.{
  Entry, tagged, pvid, untagged, ignored, entry, entries, tagged_id, untagged_id, pvid_id, ids,
  first_nonzero,
}

-- What an entry does to the VLANs read so far.
abbrev apply : BrVlan → Entry → BrVlan
apply v (tagged id) = record v { vlan_bitmap = put_id v.vlan_bitmap id }
apply v (untagged id) = record v { untagged_bitmap = put_id v.untagged_bitmap id }
apply v (pvid id) = if v.pvid == 0 then record v { pvid = id } else v
apply v ignored = v

vlan_round-entry :
    (cjson : CJson) (v : BrVlan) (item : Option cjson.Json)
    → vlan_round cjson v item ≡ apply v (entry cjson item)
unfolding vlan_round mark entry
vlan_round-entry cjson v item = ground arith

foldl_apply : BrVlan → List Entry → BrVlan
foldl_apply v [] = v
foldl_apply v (e ∷ es) = foldl_apply (apply v e) es

vlans_loop-entries :
    (cjson : CJson) (n i : ℕ) (bridge : Option cjson.Json) (v : BrVlan)
    → vlans_loop cjson n i bridge v ≡ foldl_apply v (entries cjson n i bridge)
unfolding vlans_loop entries foldl_apply
vlans_loop-entries cjson zero i bridge v = refl
vlans_loop-entries cjson (suc n) i bridge v =
    vlans_loop-entries cjson n (i + 1) bridge _
    ∙ ap (λ w. foldl_apply w (entries cjson n (i + 1) bridge))
        (vlan_round-entry cjson v (cjson.array_item bridge i))

-- A row of ids, put into an array one by one.
put_all : List ℕ → List ℕ → List ℕ
put_all m [] = m
put_all m (id ∷ more) = put_all (put_id m id) more

-- From an array of its size with no gaps: it keeps its size and gets no gap, and the ids stand
-- behind those that were there, as far as there is room.
put_all_lem :
    (more m : List ℕ)
    → length m ≡ vlan_bitmap_max
    → nonzero m ≡ used m
    → (length (put_all m more) ≡ length m)
      × (nonzero (put_all m more) ≡ used (put_all m more))
      × (used (put_all m more) ≡ take (length m) (used m ++ nonzero more))
unfolding put_all nonzero
put_all_lem [] m s h = (refl, h, sym (ap (take (length m)) (append-nil (used m)) ∙ take-used m))
put_all_lem (id ∷ more) m s h =
    let (size, dense, all) =
      put_all_lem more (put_id m id) (length-put_id m id s ∙ s) (put_id-dense m id s h) in
    (
      size ∙ length-put_id m id s,
      dense,
      all
          ∙ rw (length-put_id m id s, used-put_id m id s h)
              (take-take-append (length m) (used m ++ nonzero (id ∷ [])) (nonzero more)
                ∙ ap (take (length m)) (
                    append_assoc (used m) (nonzero (id ∷ [])) (nonzero more)
                    ∙ ap (◌++◌ (used m)) (sym (nonzero-append (id ∷ []) more)))),
    )

apply_pvid :
    (v : BrVlan) (id : ℕ) (more : List ℕ)
    → ((apply v (pvid id)).vlan_bitmap ≡ v.vlan_bitmap)
      × ((apply v (pvid id)).untagged_bitmap ≡ v.untagged_bitmap)
      × (first_nonzero ((apply v (pvid id)).pvid ∷ more) ≡ first_nonzero (v.pvid ∷ id ∷ more))
unfolding first_nonzero
apply_pvid v id more = elim (Bool-cases (v.pvid == 0)) [
  | inl e ↦ rw e (refl, refl, refl)
  | inr e ↦ rw e (refl, refl, rw e)
]

-- The fields after all entries, each from the ids of its sort.
foldl_apply_fields :
    (es : List Entry) (v : BrVlan)
    → ((foldl_apply v es).vlan_bitmap ≡ put_all v.vlan_bitmap (ids tagged_id es))
      × ((foldl_apply v es).untagged_bitmap ≡ put_all v.untagged_bitmap (ids untagged_id es))
      × ((foldl_apply v es).pvid ≡ first_nonzero (v.pvid ∷ ids pvid_id es))
unfolding foldl_apply put_all ids first_nonzero
foldl_apply_fields [] v = (refl, refl, ground arith)
foldl_apply_fields (tagged id ∷ es) v = foldl_apply_fields es (apply v (tagged id))
foldl_apply_fields (untagged id ∷ es) v = foldl_apply_fields es (apply v (untagged id))
foldl_apply_fields (ignored ∷ es) v = foldl_apply_fields es v
foldl_apply_fields (pvid id ∷ es) v =
    let (a, b, c) = foldl_apply_fields es (apply v (pvid id)) in
    let (x, y, z) = apply_pvid v id (ids pvid_id es) in
    (
      a ∙ ap (λ m. put_all m (ids tagged_id es)) x,
      b ∙ ap (λ m. put_all m (ids untagged_id es)) y,
      c ∙ z,
    )

-- What a `br_vlan_t` says, against the entries of the output.
pub record Reads (es : List Entry) (v : BrVlan) : Type 0 where
  pub pvid_is : v.pvid ≡ first_nonzero (ids pvid_id es)
  pub vlans_are : used v.vlan_bitmap ≡ take vlan_bitmap_max (nonzero (ids tagged_id es))
  pub untagged_are : used v.untagged_bitmap ≡ take vlan_bitmap_max (nonzero (ids untagged_id es))
  -- No id stands behind the 0 at which readers stop.
  pub vlans_dense : nonzero v.vlan_bitmap ≡ used v.vlan_bitmap
  pub untagged_dense : nonzero v.untagged_bitmap ≡ used v.untagged_bitmap
  pub vlans_size : length v.vlan_bitmap ≡ vlan_bitmap_max
  pub untagged_size : length v.untagged_bitmap ≡ vlan_bitmap_max

-- From an array with no ids.
put_all_zeros :
    (more m : List ℕ)
    → m ≡ replicate vlan_bitmap_max 0
    → (length (put_all m more) ≡ vlan_bitmap_max)
      × (nonzero (put_all m more) ≡ used (put_all m more))
      × (used (put_all m more) ≡ take vlan_bitmap_max (nonzero more))
put_all_zeros more m e =
    let (empty, clear, long) = used-replicate vlan_bitmap_max in
    let (a, b, c) = put_all_lem more (replicate vlan_bitmap_max 0) long (clear ∙ sym empty) in
    rw e (a ∙ long, b, c ∙ rw (long, empty))

foldl_apply-Reads : (es : List Entry) → Reads es (foldl_apply zero_vlan es)
unfolding zero_vlan first_nonzero
foldl_apply-Reads es =
    let (v, u, p) = foldl_apply_fields es zero_vlan in
    let (v1, v2, v3) = put_all_zeros (ids tagged_id es) _ refl in
    let (u1, u2, u3) = put_all_zeros (ids untagged_id es) _ refl in
    record {
      pvid_is = p;
      vlans_are = rw v v3;
      untagged_are = rw u u3;
      vlans_dense = rw v v2;
      untagged_dense = rw u u2;
      vlans_size = rw v v1;
      untagged_size = rw u u1;
    }

-- The entries of an output: none if it is no JSON object with an array under the bridge's name.
pub entries_of_bridge : (cjson : CJson) → Option cjson.Json → List Entry
entries_of_bridge cjson none = []
entries_of_bridge cjson (some b) =
    if cjson.is_array (some b) then entries cjson (cjson.array_size (some b)) 0 (some b) else []

pub entries_of : CJson → CStr → CStr → List Entry
entries_of cjson br_name output =
    entries_of_bridge cjson (cjson.get_object_item (cjson.parse output) br_name)

vlans_of_bridge-entries :
    (cjson : CJson) (b : Option cjson.Json)
    → vlans_of_bridge cjson b ≡ foldl_apply zero_vlan (entries_of_bridge cjson b)
unfolding vlans_of_bridge entries_of_bridge foldl_apply
vlans_of_bridge-entries cjson none = refl
vlans_of_bridge-entries cjson (some b) = elim (Bool-cases (cjson.is_array (some b))) [
  | inl e ↦ rw e (vlans_loop-entries cjson _ 0 (some b) zero_vlan)
  | inr e ↦ rw e
]

-- Whatever the command printed, the VLANs read are those of its entries: the id arrays hold the
-- tagged and the untagged ids other than 0 in the order of the entries, as many as there is room
-- for, with no gap; `pvid` is the first PVID other than 0. If there is no array of entries under
-- the bridge's name, the same holds of no entries.
pub parse_vlans-Reads :
    (cjson : CJson) (br_name output : CStr)
    → Reads (entries_of cjson br_name output) (parse_vlans cjson br_name output)
unfolding parse_vlans entries_of
parse_vlans-Reads cjson br_name output = rw (vlans_of_bridge-entries cjson) (foldl_apply-Reads _)
