-- ===== src/Catalog/Ports.antt =====
-- src/commands/registry/families/{vlan,portmaptime,wol,port,vigbrg}.ts: the port and bridge tools.
use vigor3912s_mcp.Common.{
  String, true, some, List, [], ◌∷◌, lit, if◌then◌else◌, text_eq, lookup, Result, ok,
}
use vigor3912s_mcp.Values.{Value, num, str, obj, end, field, Args, arg}
use vigor3912s_mcp.Zod.{array, optional, int_between, one_of, one_of_numbers}
use vigor3912s_mcp.Validators.{one_zero, mac_colon}
use vigor3912s_mcp.Catalog.Entries.{Entry, typed_tool, FamilyEntries, plain}
use vigor3912s_mcp.Catalog.Inputs.{given, fixed, is_value, kept_is, same_value, make_input}

abbrev pub vlan_group : Entry
vlan_group =
    typed_tool "vlan_group" "vlan" "cli.vlan.group"
      "VLAN group (vlan group <id> <add|set|show|…> [pN…])"
      (record plain {
        args = some (
            ("groupId", int_between 0 99)
            ∷ ("action", one_of ("add" ∷ "add_ex" ∷ "set" ∷ "set_ex" ∷ "show" ∷ []))
            ∷ ("ports", optional (array (int_between 1 12) []))
            ∷ []);
      })

abbrev pub vlan_family : FamilyEntries
vlan_family = record {
  family = "vlan";
  desc = "VLAN configuration.";
  commands =
      typed_tool "vlan_status" "vlan" "cli.vlan.status" "VLAN status" plain
      ∷ typed_tool "vlan_on" "vlan" "cli.vlan.on" "Enable VLAN" plain
      ∷ typed_tool "vlan_off" "vlan" "cli.vlan.off" "Disable VLAN" plain
      ∷ vlan_group
      ∷ [];
}

abbrev proto_to_field : List (String × String)
proto_to_field =
    ("t", "tcpTimeoutSeconds")
    ∷ ("u", "udpTimeoutSeconds")
    ∷ ("i", "igmpTimeoutSeconds")
    ∷ ("w", "tcpWwwTimeoutSeconds")
    ∷ ("s", "tcpSynTimeoutSeconds")
    ∷ []

-- `PROTO_TO_FIELD[proto]` as a key; an object turns a key `undefined` into a text.
proto_field : List (String × String) → Value → String
unfolding text_eq lit
proto_field [] proto = "undefined"
proto_field ((name, key) ∷ protos) proto =
    if same_value proto (str (lit name)) then key else proto_field protos proto

-- `toInput` of `portmaptime_set`
unfoldable pub portmaptime_set_input : Args → Result Value
unfolding proto_field lookup
portmaptime_set_input args =
    ok (obj (field (proto_field proto_to_field (arg args "proto")) (arg args "seconds") end))

abbrev pub portmaptime_set : Entry
portmaptime_set =
    typed_tool "portmaptime_set" "portmaptime" "cli.portmaptime"
      "Set port mapping session timeout (t=TCP, u=UDP, i=ICMP, w=WWW, s=SYN)"
      (record plain {
        args = some (
            ("proto", one_of ("t" ∷ "u" ∷ "i" ∷ "w" ∷ "s" ∷ []))
            ∷ ("seconds", int_between 1 65535)
            ∷ []);
        to_input = some portmaptime_set_input;
        partial = true;
      })

abbrev pub portmaptime_family : FamilyEntries
portmaptime_family = record {
  family = "portmaptime";
  desc = "Port mapping session timeouts.";
  commands =
      typed_tool "portmaptime_list" "portmaptime" "cli.portmaptime.l"
        "List port mapping timeout settings" plain
      ∷ portmaptime_set
      ∷ typed_tool "portmaptime_flush" "portmaptime" "cli.portmaptime.f"
          "Flush all portmaps (diagnostics)" plain
      ∷ [];
}

abbrev pub wol_family : FamilyEntries
wol_family = record {
  family = "wol";
  desc = "Wake-on-LAN.";
  commands =
      typed_tool "wol_send" "wol" "cli.wol" "Send Wake-on-LAN magic packet" (record plain {
        args = some (("mac", mac_colon) ∷ []);
        to_input = some (make_input (("macAddress", given "mac") ∷ []));
      })
      ∷ [];
}

abbrev pub port_family : FamilyEntries
port_family = record {
  family = "port";
  desc = "Ethernet port settings.";
  commands =
      typed_tool "port_status" "port" "cli.port.status" "Ethernet port status" plain
      ∷ typed_tool "port_sniff_status" "port" "cli.port.sniff.status" "Port sniffing status" plain
      ∷ typed_tool "port_speed" "port" "cli.port" "Set ethernet port speed/duplex" (record plain {
        args = some (
            (
              "port",
              one_of (
                  "1" ∷ "2" ∷ "3" ∷ "4" ∷ "5" ∷ "6" ∷ "7" ∷ "8" ∷ "9" ∷ "10" ∷ "11" ∷ "12" ∷ "all"
                  ∷ []),
            )
            ∷ ("speed", one_of ("AN" ∷ "100F" ∷ "100H" ∷ "10F" ∷ "10H" ∷ []))
            ∷ []);
        to_input = some (
            make_input (
              ("kind", fixed (str (lit "lan")))
              ∷ ("port", given "port")
              ∷ ("speed", given "speed")
              ∷ []));
        partial = true;
      })
      ∷ [];
}

abbrev pub vigbrg_set : Entry
vigbrg_set =
    typed_tool "vigbrg_set" "vigbrg" "cli.vigbrg.set"
      "Configure Vigor bridge (vigbrg set -v -w -l -e [-f])"
      (record plain {
        args = some (
            ("ipVersion", one_of_numbers ("4" ∷ "6" ∷ []))
            ∷ ("wanIndex", int_between 1 10)
            ∷ ("lanIndex", int_between 1 100)
            ∷ ("bridgeEnabled", one_zero)
            ∷ ("firewallEnabled", optional one_zero)
            ∷ []);
        to_input = some (
            make_input (
              ("ipVersion", given "ipVersion")
              ∷ ("wanIndex", given "wanIndex")
              ∷ ("lanIndex", given "lanIndex")
              ∷ ("bridgeEnabled", is_value "bridgeEnabled" (num (lit "1")))
              ∷ ("firewallEnabled", kept_is "firewallEnabled" (num (lit "1")))
              ∷ []));
      })

abbrev pub vigbrg_family : FamilyEntries
vigbrg_family = record {
  family = "vigbrg";
  desc = "Vigor bridge.";
  commands =
      typed_tool "vigbrg_status" "vigbrg" "cli.vigbrg.status" "Vigor bridge status" plain
      ∷ typed_tool "vigbrg_wanstatus" "vigbrg" "cli.vigbrg.wanstatus" "Vigor bridge WAN status"
          plain
      ∷ typed_tool "vigbrg_wlanstatus" "vigbrg" "cli.vigbrg.wlanstatus"
          "Vigor bridge wireless status" plain
      ∷ vigbrg_set
      ∷ [];
}
