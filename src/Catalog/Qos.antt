-- ===== src/Catalog/Qos.antt =====
-- src/commands/registry/families/qos.ts: the quality of service tools.
use vigor3912s_mcp.Common.{not, ◌||◌, some, [], ◌∷◌, lit, if◌then◌else◌, lookup, Result, ok, ◌>>=◌}
use vigor3912s_mcp.Values.{Value, str, obj, Fields, end, field, Args, arg}
use vigor3912s_mcp.Zod.{
  Zod, string, number, boolean, literal, optional, refine, int, positive, regex, int_between,
  one_of, one_of_numbers, of_text,
}
use vigor3912s_mcp.Validators.{wan_idx, safe_text}
use vigor3912s_mcp.Catalog.Entries.{Entry, typed_tool, FamilyEntries, plain}
use vigor3912s_mcp.Catalog.Inputs.{
  Switch, given, needed, fixed, is_missing, build_fields, make_input, switch_input,
}
use vigor3912s_mcp.Catalog.Schemas.{has_no_space, is_port_range}

abbrev single_token : Zod
single_token = refine (safe_text 255) (of_text has_no_space)

abbrev port_range : Zod
port_range = string (regex is_port_range ∷ [])

abbrev append_fields : Fields → Fields → Fields
append_fields end fs = fs
append_fields (field k v es) fs = field k v (append_fields es fs)

-- `toInput` of `qos_setup`: the class ratio is there if one of its arguments is, and then needs both.
unfoldable pub class_ratio : Args → Result Fields
unfolding make_input lookup
class_ratio args =
    if not (is_missing (arg args "classIndex")) || not (is_missing (arg args "ratioPercent"))
    then (make_input
          (("classIndex", needed "classIndex") ∷ ("ratioPercent", needed "ratioPercent") ∷ []) args
        >>= (λ ratio. ok (field "classRatio" ratio end)))
    else ok end

unfoldable pub qos_setup_input : Args → Result Value
unfolding build_fields class_ratio
qos_setup_input args = do
  before ←
      build_fields
        (("wanInterface", given "wanInterface")
          ∷ ("mode", given "mode")
          ∷ ("inboundBandwidthKbps", given "inboundBandwidthKbps")
          ∷ ("outboundBandwidthKbps", given "outboundBandwidthKbps")
          ∷ [])
        args
  ratio ← class_ratio args
  after ←
      build_fields
        (("udpBandwidthControlEnabled", given "udpBandwidthControlEnabled")
          ∷ ("udpBandwidthLimitRatioPercent", given "udpBandwidthLimitRatioPercent")
          ∷ ("outboundTcpAckPrioritizeEnabled", given "outboundTcpAckPrioritizeEnabled")
          ∷ ("showAll", given "showAll")
          ∷ ("minNonVoipInboundBandwidthKbps", given "minNonVoipInboundBandwidthKbps")
          ∷ ("minNonVoipOutboundBandwidthKbps", given "minNonVoipOutboundBandwidthKbps")
          ∷ ("voipBandwidthAdjustMode", given "voipBandwidthAdjustMode")
          ∷ [])
        args
  ok (obj (append_fields before (append_fields ratio after)))

abbrev pub qos_setup : Entry
qos_setup =
    typed_tool "qos_setup" "qos" "cli.qos.setup" "QoS setup (SDK cli.qos.setup canonical flags)"
      (record plain {
        args = some (
            ("wanInterface", optional wan_idx)
            ∷ ("mode", optional (one_of_numbers ("0" ∷ "1" ∷ "2" ∷ "3" ∷ [])))
            ∷ ("inboundBandwidthKbps", optional (int_between 1 100000))
            ∷ ("outboundBandwidthKbps", optional (int_between 1 100000))
            ∷ ("classIndex", optional (int_between 1 3))
            ∷ ("ratioPercent", optional (int_between 0 100))
            ∷ ("udpBandwidthControlEnabled", optional boolean)
            ∷ ("udpBandwidthLimitRatioPercent", optional (int_between 0 100))
            ∷ ("outboundTcpAckPrioritizeEnabled", optional boolean)
            ∷ ("showAll", optional boolean)
            ∷ ("minNonVoipInboundBandwidthKbps", optional (number (int ∷ positive ∷ [])))
            ∷ ("minNonVoipOutboundBandwidthKbps", optional (number (int ∷ positive ∷ [])))
            ∷ ("voipBandwidthAdjustMode", optional (one_of_numbers ("0" ∷ "1" ∷ [])))
            ∷ []);
        to_input = some qos_setup_input;
      })

abbrev pub qos_class_switch : Switch
qos_class_switch = record {
  on = "action";
  first = [];
  invalid = "invalid qos_class action";
  cases =
      ((
        "add",
        (("classIndex", given "classIndex")
            ∷ ("action", fixed (str (lit "add")))
            ∷ ("name", given "name")
            ∷ ("ruleEnabled", given "ruleEnabled")
            ∷ ("localAddress", given "localAddress")
            ∷ []),
      )
        ∷ (
          "edit",
          (("classIndex", given "classIndex")
              ∷ ("action", fixed (str (lit "edit")))
              ∷ ("ruleIndex", needed "ruleIndex")
              ∷ ("name", given "name")
              ∷ ("ruleEnabled", given "ruleEnabled")
              ∷ ("localAddress", given "localAddress")
              ∷ []),
        )
        ∷ (
          "delete",
          (("classIndex", given "classIndex")
              ∷ ("action", fixed (str (lit "delete")))
              ∷ ("ruleIndex", needed "ruleIndex")
              ∷ []),
        )
        ∷ []);
}

abbrev pub qos_class : Entry
qos_class =
    typed_tool "qos_class" "qos" "cli.qos.class" "QoS class (SDK cli.qos.class add/edit/delete)"
      (record plain {
        args = some (
            ("classIndex", int_between 1 3)
            ∷ ("action", one_of ("add" ∷ "edit" ∷ "delete" ∷ []))
            ∷ ("ruleIndex", optional (number (int ∷ positive ∷ [])))
            ∷ ("name", optional single_token)
            ∷ ("ruleEnabled", optional boolean)
            ∷ ("localAddress", optional (safe_text 255))
            ∷ []);
        to_input = some (switch_input qos_class_switch);
      })

abbrev pub qos_type : Entry
qos_type =
    typed_tool "qos_type" "qos" "cli.qos.type" "QoS type add (SDK cli.qos.type)" (record plain {
      args = some (
          ("action", literal (str (lit "add")))
          ∷ ("name", single_token)
          ∷ ("protocolType", int_between 1 254)
          ∷ ("portRange", port_range)
          ∷ []);
      to_input = some (
          make_input (
            ("action", fixed (str (lit "add")))
            ∷ ("name", given "name")
            ∷ ("protocolType", given "protocolType")
            ∷ ("portRange", given "portRange")
            ∷ []));
    })

abbrev pub qos_family : FamilyEntries
qos_family = record {
  family = "qos";
  desc = "QoS configuration (write).";
  commands =
      qos_setup
      ∷ qos_class
      ∷ qos_type
      ∷ typed_tool "qos_voip" "qos" "cli.qos.voip" "QoS VoIP on/off (SDK cli.qos.voip)"
          (record plain { args = some (("enabled", boolean) ∷ []) })
      ∷ [];
}
