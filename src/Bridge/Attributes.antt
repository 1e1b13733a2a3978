-- ===== src/Bridge/Attributes.antt =====
-- src/nas_ndi_bridge.cpp: 1D bridges are made and removed, and the attributes of bridge ports set and read;
-- with the MAC learn modes of src/nas_ndi_port_utils.cpp.
use opx_nas_ndi.Base.{
  ℕ, Option, none, some, List, [], ◌∷◌, nat_key, if◌then◌else◌, StdError, ok, std_err, npu, param,
  cfg,
}
use opx_nas_ndi.Base.Replies.{reply, failed}
use opx_nas_ndi.Bridge.{
  BrportAttr, BridgeApi, Bridges, hw_of, brports_of, on_hw, or_cfg, without_db,
  set_bridge_port_attribute,
}
use opx_nas_ndi.Bridge.Queries.{get_1q_bridge_port, bridge_get_bridge_port}

-- `BASE_IF_PHY_MAC_LEARN_MODE_t`, and `BASE_IF_MAC_LEARN_MODE_t` with the same values; `unlisted` is a
-- value that the code's tables do not hold.
pub data LearnMode : Type 0 where
  drop disable hw cpu_trap cpu_log hw_disable_only unlisted : LearnMode

-- `sai_bridge_port_fdb_learning_mode_t`, likewise.
pub data SaiLearnMode : Type 0 where
  drop disable hw cpu_trap cpu_log unlisted : SaiLearnMode

-- `ndi_to_sai_fdb_learn_mode`, which is the same table in two functions.
abbrev pub ndi_to_sai_fdb_learn_mode : LearnMode → Option SaiLearnMode
ndi_to_sai_fdb_learn_mode LearnMode.drop = some SaiLearnMode.drop
ndi_to_sai_fdb_learn_mode LearnMode.disable = some SaiLearnMode.disable
ndi_to_sai_fdb_learn_mode LearnMode.hw = some SaiLearnMode.hw
ndi_to_sai_fdb_learn_mode LearnMode.cpu_trap = some SaiLearnMode.cpu_trap
ndi_to_sai_fdb_learn_mode LearnMode.cpu_log = some SaiLearnMode.cpu_log
ndi_to_sai_fdb_learn_mode LearnMode.hw_disable_only = some SaiLearnMode.disable
ndi_to_sai_fdb_learn_mode LearnMode.unlisted = none

-- `ndi_port_get_sai_mac_learn_mode`
unfoldable pub port_get_sai_mac_learn_mode : LearnMode → SaiLearnMode
port_get_sai_mac_learn_mode mode = elim (ndi_to_sai_fdb_learn_mode mode) [
  | none ↦ SaiLearnMode.hw
  | some m ↦ m
]

-- `ndi_port_get_mac_learn_mode`
unfoldable pub port_get_mac_learn_mode : SaiLearnMode → LearnMode
port_get_mac_learn_mode SaiLearnMode.drop = LearnMode.drop
port_get_mac_learn_mode SaiLearnMode.disable = LearnMode.disable
port_get_mac_learn_mode SaiLearnMode.hw = LearnMode.hw
port_get_mac_learn_mode SaiLearnMode.cpu_trap = LearnMode.cpu_trap
port_get_mac_learn_mode SaiLearnMode.cpu_log = LearnMode.cpu_log
port_get_mac_learn_mode SaiLearnMode.unlisted = LearnMode.hw

-- A pair of `nas_com_id_value_t`: the attributes that have a handler, with the value behind the pointer,
-- and any other.
pub data SubPortAttr : Type 0 where
  mac_learn : LearnMode → SubPortAttr
  ingress_split_horizon_id egress_split_horizon_id : ℕ → SubPortAttr
  other_id : SubPortAttr

module _ {Hw : Type 0} (api : BridgeApi Hw) where
  -- The values of `sai_bridge_port_fdb_learning_mode_t` that the code names; `other` stands for one that
  -- it does not name.
  abbrev pub learning_mode : ℕ → SaiLearnMode → ℕ
  learning_mode other SaiLearnMode.drop = api.learning_mode_drop
  learning_mode other SaiLearnMode.disable = api.learning_mode_disable
  learning_mode other SaiLearnMode.hw = api.learning_mode_hw
  learning_mode other SaiLearnMode.cpu_trap = api.learning_mode_cpu_trap
  learning_mode other SaiLearnMode.cpu_log = api.learning_mode_cpu_log
  learning_mode other SaiLearnMode.unlisted = other

  -- `ndi_create_bridge_1d`: the answer and the bridge when it is written.
  unfoldable pub create_bridge_1d : ℕ → Bridges Hw → StdError × Option ℕ × Bridges Hw
  create_bridge_1d npu_id s =
      if without_db npu_id s
      then (std_err npu cfg 0, none, s)
      else (let (r, chip) = api.create_bridge_1d (hw_of s) in
          elim r [
            | failed st ↦ (std_err npu cfg st, none, on_hw chip s)
            | reply br_oid ↦ (ok, some br_oid, on_hw chip s)
          ])

  -- `ndi_delete_bridge_1d`
  unfoldable pub delete_bridge_1d : ℕ → ℕ → Bridges Hw → StdError × Bridges Hw
  delete_bridge_1d npu_id br_oid s =
      if without_db npu_id s
      then (std_err npu cfg 0, s)
      else or_cfg (api.remove_bridge br_oid (hw_of s)) s

  -- `ndi_get_bridge_port_attribute`, asked for the learning mode: the value, when it is written.
  unfoldable pub get_bridge_port_attribute : ℕ → ℕ → Bridges Hw → StdError × Option ℕ
  get_bridge_port_attribute npu_id brport_oid s =
      if without_db npu_id s
      then (std_err npu cfg 0, none)
      else (elim (api.get_fdb_learning_mode brport_oid (hw_of s)) [
        | failed st ↦ (std_err npu cfg st, none)
        | reply mode ↦ (ok, some mode)
      ])

  -- `ndi_brport_attr_set_or_get_1Q` with `set`; the attribute is not `NULL`.
  unfoldable pub brport_attr_set_1q : ℕ → ℕ → BrportAttr → Bridges Hw → StdError × Bridges Hw
  brport_attr_set_1q npu_id port_id attr s =
      if without_db npu_id s
      then (std_err npu param 0, s)
      else (elim (get_1q_bridge_port port_id (brports_of s)) [
        | none ↦ (std_err npu cfg 0, s)
        | some brport ↦ set_bridge_port_attribute api npu_id brport attr s
      ])

  -- `ndi_brport_attr_set_or_get_1Q` without `set`, asked for the learning mode.
  unfoldable pub brport_attr_get_1q : ℕ → ℕ → Bridges Hw → StdError × Option ℕ
  brport_attr_get_1q npu_id port_id s =
      if without_db npu_id s
      then (std_err npu param 0, none)
      else (elim (get_1q_bridge_port port_id (brports_of s)) [
        | none ↦ (std_err npu cfg 0, none)
        | some brport ↦ get_bridge_port_attribute npu_id brport s
      ])

  -- `ndi_tunport_mac_learn_mode_set`
  unfoldable pub tunport_mac_learn_mode_set : ℕ → ℕ → LearnMode → Bridges Hw → StdError × Bridges Hw
  tunport_mac_learn_mode_set npu_id tun_brport mode =
      set_bridge_port_attribute api npu_id tun_brport
        (BrportAttr.fdb_learning_mode (learning_mode 0 (port_get_sai_mac_learn_mode mode)))

  -- `_sub_port_mac_learn_handler` and `_sub_port_ing_sh_handler`, as `bridge_sub_port_attr_fns` names them.
  unfoldable pub sub_port_attr_fn : ℕ → ℕ → SubPortAttr → Bridges Hw → StdError × Bridges Hw
  sub_port_attr_fn npu_id brport (SubPortAttr.mac_learn mode) s =
      elim (ndi_to_sai_fdb_learn_mode mode) [
        | none ↦ (std_err npu param 0, s)
        | some m ↦
            set_bridge_port_attribute api npu_id brport
              (BrportAttr.fdb_learning_mode (learning_mode 0 m)) s
      ]
  sub_port_attr_fn npu_id brport (SubPortAttr.ingress_split_horizon_id v) s =
      set_bridge_port_attribute api npu_id brport (BrportAttr.ingress_split_horizon v) s
  sub_port_attr_fn npu_id brport (SubPortAttr.egress_split_horizon_id v) s =
      set_bridge_port_attribute api npu_id brport (BrportAttr.egress_split_horizon v) s
  sub_port_attr_fn npu_id brport SubPortAttr.other_id s = (ok, s)

  -- The loop over the pairs, up to the first error.
  unfoldable pub set_sub_port_attrs : ℕ → ℕ → List SubPortAttr → Bridges Hw → StdError × Bridges Hw
  unfolding sub_port_attr_fn
  set_sub_port_attrs npu_id brport [] s = (ok, s)
  set_sub_port_attrs npu_id brport (attr ∷ attrs) s =
      let (rc, s') = sub_port_attr_fn npu_id brport attr s in
      elim rc [
        | std_err a c st ↦ (std_err a c st, s')
        | ok ↦ set_sub_port_attrs npu_id brport attrs s'
      ]

  -- `ndi_bridge_sub_port_attr_set`
  unfoldable pub bridge_sub_port_attr_set :
      ℕ → ℕ → ℕ → ℕ → List SubPortAttr → Bridges Hw → StdError × Bridges Hw
  unfolding set_sub_port_attrs
  bridge_sub_port_attr_set npu_id port_id port_type vlan_id [] s = (ok, s)
  bridge_sub_port_attr_set npu_id port_id port_type vlan_id (attr ∷ attrs) s =
      elim (bridge_get_bridge_port api.port_type_lag api.to_port npu_id port_id port_type vlan_id
        s.vlans.shared.ports (brports_of s)) [
          | none ↦ (std_err npu param 0, s)
          | some brport ↦ set_sub_port_attrs npu_id brport (attr ∷ attrs) s
        ]
