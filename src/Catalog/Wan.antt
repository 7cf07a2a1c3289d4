-- ===== src/Catalog/Wan.antt =====
-- src/commands/registry/families/wan.ts: the WAN tools.
use vigor3912s_mcp.Common.{
  String, Bool, ◌||◌, some, [], ◌∷◌, lit, if◌then◌else◌, text_eq, lookup, Result,
}
use vigor3912s_mcp.Values.{Value, str, Args, arg}
use vigor3912s_mcp.Zod.{
  string, number, boolean, optional, int, positive, least, most, pos, negsuc, regex, int_between,
  one_of,
}
use vigor3912s_mcp.Validators.{wan_idx, on_off}
use vigor3912s_mcp.Catalog.Entries.{Entry, typed_tool, FamilyEntries, plain}
use vigor3912s_mcp.Catalog.Inputs.{given, needed_or, fixed, same_value, make_input}
use vigor3912s_mcp.Catalog.Schemas.{is_wan_name}

abbrev wan_is : Args → String → String → Bool
wan_is args key value = same_value (arg args key) (str (lit value))

-- `toInput` of `wan_failover`
unfoldable pub wan_failover_input : Args → Result Value
unfolding make_input lit text_eq lookup
wan_failover_input args =
    if wan_is args "action" "off" || wan_is args "action" "show"
    then make_input
        (("action", given "action")
          ∷ ("index", needed_or "index" "index is required for failover off|show")
          ∷ [])
        args
    else make_input
        (("action", fixed (str (lit "on")))
          ∷ ("failoverWan", needed_or "failoverWan" "failoverWan is required for failover on")
          ∷ (
            "disconnectActionEnabled",
            needed_or "disconnectActionEnabled"
                "disconnectActionEnabled is required for failover on",
          )
          ∷ (
            "anyOrAllActionEnabled",
            needed_or "anyOrAllActionEnabled" "anyOrAllActionEnabled is required for failover on",
          )
          ∷ ("mainWan", needed_or "mainWan" "mainWan is required for failover on")
          ∷ (
            "downloadThresholdKbps",
            needed_or "downloadThresholdKbps" "downloadThresholdKbps is required for failover on",
          )
          ∷ (
            "uploadThresholdKbps",
            needed_or "uploadThresholdKbps" "uploadThresholdKbps is required for failover on",
          )
          ∷ [])
        args

-- `toInput` of `wan_budget`
unfoldable pub wan_budget_input : Args → Result Value
unfolding make_input lit text_eq lookup
wan_budget_input args =
    if wan_is args "action" "state"
    then make_input
        (("wanInterface", given "wan")
          ∷ ("action", fixed (str (lit "state")))
          ∷ ("enabled", needed_or "enabled" "enabled is required for budget state")
          ∷ [])
        args
    else if wan_is args "action" "thresholdMb"
    then make_input
        (("wanInterface", given "wan")
          ∷ ("action", fixed (str (lit "thresholdMb")))
          ∷ ("limitMb", needed_or "limitMb" "limitMb is required for thresholdMb")
          ∷ [])
        args
    else make_input
        (("wanInterface", given "wan")
          ∷ ("action", fixed (str (lit "thresholdGb")))
          ∷ ("limitGb", needed_or "limitGb" "limitGb is required for thresholdGb")
          ∷ [])
        args

-- `toInput` of `wan_vlan`
unfoldable pub wan_vlan_input : Args → Result Value
unfolding make_input lit text_eq lookup
wan_vlan_input args =
    if wan_is args "action" "tag"
    then make_input
        (("wanInterface", given "wan")
          ∷ ("action", fixed (str (lit "tag")))
          ∷ ("tagValue", needed_or "tagValue" "tagValue is required for vlan tag")
          ∷ [])
        args
    else if wan_is args "action" "state"
    then make_input
        (("wanInterface", given "wan")
          ∷ ("action", fixed (str (lit "state")))
          ∷ ("enabled", needed_or "enabled" "enabled is required for vlan state")
          ∷ [])
        args
    else make_input
        (("wanInterface", given "wan")
          ∷ ("action", fixed (str (lit "priority")))
          ∷ ("priority", needed_or "priority" "priority is required for vlan priority")
          ∷ [])
        args

abbrev pub wan_failover : Entry
wan_failover =
    typed_tool "wan_failover" "wan" "cli.wan.failover"
      "WAN failover (off|show <index> | on <failoverWan> …)"
      (record plain {
        args = some (
            ("action", one_of ("off" ∷ "show" ∷ "on" ∷ []))
            ∷ ("index", optional (int_between 1 12))
            ∷ ("failoverWan", optional (int_between 1 7))
            ∷ ("disconnectActionEnabled", optional boolean)
            ∷ ("anyOrAllActionEnabled", optional boolean)
            ∷ ("mainWan", optional (int_between 1 7))
            ∷ ("downloadThresholdKbps", optional (number (int ∷ least (pos 0) ∷ [])))
            ∷ ("uploadThresholdKbps", optional (number (int ∷ least (pos 0) ∷ [])))
            ∷ []);
        to_input = some wan_failover_input;
      })

abbrev pub wan_budget : Entry
wan_budget =
    typed_tool "wan_budget" "wan" "cli.wan.budget"
      "WAN data budget (state enable/disable | thres MB | gthres GB)"
      (record plain {
        args = some (
            ("wan", wan_idx)
            ∷ ("action", one_of ("state" ∷ "thresholdMb" ∷ "thresholdGb" ∷ []))
            ∷ ("enabled", optional boolean)
            ∷ ("limitMb", optional (number (int ∷ positive ∷ [])))
            ∷ ("limitGb", optional (number (int ∷ positive ∷ [])))
            ∷ []);
        to_input = some wan_budget_input;
      })

abbrev pub wan_vlan : Entry
wan_vlan =
    typed_tool "wan_vlan" "wan" "cli.wan.vlan" "WAN VLAN tag/state/priority (SDK cli.wan.vlan)"
      (record plain {
        args = some (
            ("wan", wan_idx)
            ∷ ("action", one_of ("tag" ∷ "state" ∷ "priority" ∷ []))
            ∷ ("tagValue", optional (number (int ∷ least (negsuc 0) ∷ most (pos 4095) ∷ [])))
            ∷ ("enabled", optional boolean)
            ∷ ("priority", optional (int_between 0 7))
            ∷ []);
        to_input = some wan_vlan_input;
      })

abbrev pub wan_family : FamilyEntries
wan_family = record {
  family = "wan";
  desc = "WAN interface configuration and status.";
  commands =
      typed_tool "wan_status" "wan" "cli.wan.status"
        "Per-WAN link state, mode, IP, gateway, traffic, DNS" plain
      ∷ typed_tool "wan_detect" "wan" "cli.wan.detect" "WAN connection detection status" plain
      ∷ typed_tool "wan_detect_mtu" "wan" "cli.wan.detectmtu"
          "WAN MTU detection status (probe with target host/size/decrease/wan/count)" plain
      ∷ typed_tool "wan_detect_mtu6" "wan" "cli.wan.detectmtu6"
          "IPv6 WAN MTU detection status (probe with target host/size/wan)" plain
      ∷ typed_tool "wan_enable" "wan" "cli.wan.enable" "Enable a WAN interface" (record plain {
        args = some (("wan", wan_idx) ∷ []);
        to_input = some (make_input (("wanInterface", given "wan") ∷ []));
      })
      ∷ typed_tool "wan_disable" "wan" "cli.wan.disable" "Disable a WAN interface" (record plain {
        args = some (("wan", wan_idx) ∷ []);
        to_input = some (make_input (("wanInterface", given "wan") ∷ []));
      })
      ∷ typed_tool "wan_mtu" "wan" "cli.wan.mtu.mtu2"
          "Set global WAN MTU (mtu|mtu2 target, value 1000-1500)" plain
      ∷ typed_tool "wan_dns" "wan" "cli.wan.dns"
          "Set one WAN DNS server (primary or secondary) via wan_no/dns_select/ipv4_addr" plain
      ∷ typed_tool "wan_forward" "wan" "cli.wan.forward" "Enable/disable inter-WAN forwarding"
          (record plain {
            args = some (("onoff", on_off) ∷ []);
            to_input = some (make_input (("state", given "onoff") ∷ []));
          })
      ∷ wan_failover
      ∷ typed_tool "wan_lb" "wan" "cli.wan.lb" "WAN load-balance membership (wan lb wanN on|off)"
          (record plain {
            args =
                some (("wanInterface", string (regex is_wan_name ∷ [])) ∷ ("state", on_off) ∷ []);
          })
      ∷ wan_budget
      ∷ wan_vlan
      ∷ [];
}
