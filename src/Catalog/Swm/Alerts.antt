-- ===== src/Catalog/Swm/Alerts.antt =====
-- src/commands/registry/families/swm.ts: the tools swm_search, swm_db, swm_alert.
use vigor3912s_mcp.Common.{some, [], ◌∷◌, lit}
use vigor3912s_mcp.Values.{str}
use vigor3912s_mcp.Zod.{number, boolean, optional, int, positive, int_between, one_of}
use vigor3912s_mcp.Validators.{ipv4, safe_text}
use vigor3912s_mcp.Catalog.Entries.{Entry, typed_tool, plain}
use vigor3912s_mcp.Catalog.Inputs.{Switch, needed, fixed, switch_input}
use vigor3912s_mcp.Catalog.Swm.Schemas.{swm_mac, swm_token}

abbrev pub swm_search_switch : Switch
swm_search_switch = record {
  on = "action";
  first = [];
  invalid = "invalid swm_search action";
  cases =
      (("mac", (("action", fixed (str (lit "mac"))) ∷ ("mac", needed "mac") ∷ []))
        ∷ ("ip", (("action", fixed (str (lit "ip"))) ∷ ("ip", needed "ip") ∷ []))
        ∷ (
          "description",
          (("action", fixed (str (lit "description"))) ∷ ("query", needed "query") ∷ []),
        )
        ∷ []);
}

abbrev pub swm_search : Entry
swm_search =
    typed_tool "swm_search" "swm" "cli.swm.search" "Switch search (SDK cli.swm.search)"
      (record plain {
        args = some (
            ("action", one_of ("mac" ∷ "ip" ∷ "description" ∷ []))
            ∷ ("mac", optional swm_mac)
            ∷ ("ip", optional ipv4)
            ∷ ("query", optional (safe_text 255))
            ∷ []);
        to_input = some (switch_input swm_search_switch);
      })

abbrev pub swm_db_switch : Switch
swm_db_switch = record {
  on = "action";
  first = [];
  invalid = "invalid swm_db action";
  cases =
      ((
        "ctlToggle",
        (("action", fixed (str (lit "ctlToggle"))) ∷ ("enabled", needed "enabled") ∷ []),
      )
        ∷ ("ctlShow", (("action", fixed (str (lit "ctlShow"))) ∷ []))
        ∷ (
          "alertNotify",
          (("action", fixed (str (lit "alertNotify"))) ∷ ("mode", needed "mode") ∷ []),
        )
        ∷ (
          "alertAction",
          (("action", fixed (str (lit "alertAction"))) ∷ ("mode", needed "mode") ∷ []),
        )
        ∷ ("alertSms", (("action", fixed (str (lit "alertSms"))) ∷ ("idx", needed "idx") ∷ []))
        ∷ ("alertMail", (("action", fixed (str (lit "alertMail"))) ∷ ("idx", needed "idx") ∷ []))
        ∷ []);
}

abbrev pub swm_db : Entry
swm_db = typed_tool "swm_db" "swm" "cli.swm.db" "Switch DB (SDK cli.swm.db)" (record plain {
  args = some (
      (
        "action",
        one_of (
            "ctlToggle" ∷ "ctlShow" ∷ "alertNotify" ∷ "alertAction" ∷ "alertSms" ∷ "alertMail"
            ∷ []),
      )
      ∷ ("enabled", optional boolean)
      ∷ ("mode", optional (one_of ("N" ∷ "S" ∷ "B" ∷ [])))
      ∷ ("idx", optional (number (int ∷ positive ∷ [])))
      ∷ []);
  to_input = some (switch_input swm_db_switch);
})

abbrev pub swm_alert_switch : Switch
swm_alert_switch = record {
  on = "action";
  first = [];
  invalid = "invalid swm_alert action";
  cases =
      (("toggle", (("action", fixed (str (lit "toggle"))) ∷ ("enabled", needed "enabled") ∷ []))
        ∷ ("show", (("action", fixed (str (lit "show"))) ∷ []))
        ∷ (
          "actionToggle",
          (("action", fixed (str (lit "actionToggle")))
              ∷ ("idx", needed "idx")
              ∷ ("enabled", needed "enabled")
              ∷ []),
        )
        ∷ (
          "setLog",
          (("action", fixed (str (lit "setLog")))
              ∷ ("idx", needed "idx")
              ∷ ("enabled", needed "enabled")
              ∷ []),
        )
        ∷ (
          "setName",
          (("action", fixed (str (lit "setName")))
              ∷ ("idx", needed "idx")
              ∷ ("name", needed "name")
              ∷ []),
        )
        ∷ (
          "setColor",
          (("action", fixed (str (lit "setColor")))
              ∷ ("idx", needed "idx")
              ∷ ("color", needed "color")
              ∷ []),
        )
        ∷ (
          "setNotif",
          (("action", fixed (str (lit "setNotif")))
              ∷ ("idx", needed "idx")
              ∷ ("enabled", needed "enabled")
              ∷ []),
        )
        ∷ (
          "setObject",
          (("action", fixed (str (lit "setObject")))
              ∷ ("idx", needed "idx")
              ∷ ("objectIndex", needed "objectIndex")
              ∷ ("objectValue", needed "objectValue")
              ∷ []),
        )
        ∷ ("display", (("action", fixed (str (lit "display"))) ∷ []))
        ∷ []);
}

abbrev pub swm_alert : Entry
swm_alert =
    typed_tool "swm_alert" "swm" "cli.swm.alert" "Switch alert (SDK cli.swm.alert canonical forms)"
      (record plain {
        args = some (
            (
              "action",
              one_of (
                  "toggle" ∷ "show" ∷ "actionToggle" ∷ "setLog" ∷ "setName" ∷ "setColor"
                  ∷ "setNotif" ∷ "setObject" ∷ "display" ∷ []),
            )
            ∷ ("enabled", optional boolean)
            ∷ ("idx", optional (int_between 1 8))
            ∷ ("name", optional swm_token)
            ∷ ("color", optional (one_of ("O" ∷ "R" ∷ "N" ∷ [])))
            ∷ ("objectIndex", optional (int_between 1 4))
            ∷ ("objectValue", optional (int_between 1 10))
            ∷ []);
        to_input = some (switch_input swm_alert_switch);
      })
