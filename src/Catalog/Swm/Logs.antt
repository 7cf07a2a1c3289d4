-- ===== src/Catalog/Swm/Logs.antt =====
-- src/commands/registry/families/swm.ts: the tools swm_log, swm_snmp.
use vigor3912s_mcp.Common.{some, [], ◌∷◌, lit}
use vigor3912s_mcp.Values.{str}
use vigor3912s_mcp.Zod.{boolean, optional, int_between, one_of}
use vigor3912s_mcp.Catalog.Entries.{Entry, typed_tool, plain}
use vigor3912s_mcp.Catalog.Inputs.{Switch, needed, fixed, switch_input}
use vigor3912s_mcp.Catalog.Swm.Schemas.{swm_mac, swm_token}

abbrev pub swm_log_switch : Switch
swm_log_switch = record {
  on = "action";
  first = [];
  invalid = "invalid swm_log action";
  cases =
      (("showFilter", (("action", fixed (str (lit "showFilter"))) ∷ []))
        ∷ ("showDay", (("action", fixed (str (lit "showDay"))) ∷ []))
        ∷ ("showWeek", (("action", fixed (str (lit "showWeek"))) ∷ []))
        ∷ (
          "setLevel",
          (("action", fixed (str (lit "setLevel")))
              ∷ ("idx", needed "idx")
              ∷ ("enabled", needed "enabled")
              ∷ []),
        )
        ∷ (
          "setType",
          (("action", fixed (str (lit "setType")))
              ∷ ("idx", needed "idx")
              ∷ ("enabled", needed "enabled")
              ∷ []),
        )
        ∷ (
          "setSwitch",
          (("action", fixed (str (lit "setSwitch")))
              ∷ ("mac", needed "mac")
              ∷ ("enabled", needed "enabled")
              ∷ []),
        )
        ∷ []);
}

abbrev pub swm_log : Entry
swm_log = typed_tool "swm_log" "swm" "cli.swm.log" "Switch log (SDK cli.swm.log)" (record plain {
  args = some (
      (
        "action",
        one_of ("showFilter" ∷ "showDay" ∷ "showWeek" ∷ "setLevel" ∷ "setType" ∷ "setSwitch" ∷ []),
      )
      ∷ ("idx", optional (int_between 1 8))
      ∷ ("enabled", optional boolean)
      ∷ ("mac", optional swm_mac)
      ∷ []);
  to_input = some (switch_input swm_log_switch);
})

abbrev pub swm_snmp_switch : Switch
swm_snmp_switch = record {
  on = "action";
  first = [];
  invalid = "invalid swm_snmp action";
  cases =
      (("sys", (("action", fixed (str (lit "sys"))) ∷ ("mac", needed "mac") ∷ []))
        ∷ (
          "iftbl",
          (("action", fixed (str (lit "iftbl")))
              ∷ ("mac", needed "mac")
              ∷ ("portNum", needed "portNum")
              ∷ []),
        )
        ∷ ("poe", (("action", fixed (str (lit "poe"))) ∷ ("mac", needed "mac") ∷ []))
        ∷ ("trpcomShow", (("action", fixed (str (lit "trpcomShow"))) ∷ ("mac", needed "mac") ∷ []))
        ∷ (
          "trpcomSet",
          (("action", fixed (str (lit "trpcomSet")))
              ∷ ("mac", needed "mac")
              ∷ ("name", needed "name")
              ∷ []),
        )
        ∷ []);
}

abbrev pub swm_snmp : Entry
swm_snmp =
    typed_tool "swm_snmp" "swm" "cli.swm.snmp" "Switch SNMP (SDK cli.swm.snmp)" (record plain {
      args = some (
          ("action", one_of ("sys" ∷ "iftbl" ∷ "poe" ∷ "trpcomShow" ∷ "trpcomSet" ∷ []))
          ∷ ("mac", optional swm_mac)
          ∷ ("portNum", optional (int_between 1 28))
          ∷ ("name", optional swm_token)
          ∷ []);
      to_input = some (switch_input swm_snmp_switch);
    })
