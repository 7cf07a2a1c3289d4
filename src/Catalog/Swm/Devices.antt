-- ===== src/Catalog/Swm/Devices.antt =====
-- src/commands/registry/families/swm.ts: the tools swm_group, swm_profile, swm_detail, swm_maintain.
use vigor3912s_mcp.Common.{some, [], ◌∷◌, lit}
use vigor3912s_mcp.Values.{str}
use vigor3912s_mcp.Zod.{number, boolean, optional, int, positive, least, pos, int_between, one_of}
use vigor3912s_mcp.Catalog.Entries.{Entry, typed_tool, plain}
use vigor3912s_mcp.Catalog.Inputs.{Switch, needed, fixed, switch_input}
use vigor3912s_mcp.Catalog.Swm.Schemas.{swm_mac, swm_token}

abbrev pub swm_group_switch : Switch
swm_group_switch = record {
  on = "action";
  first = [];
  invalid = "invalid swm_group action";
  cases =
      ((
        "setWithPassword",
        (("action", fixed (str (lit "setWithPassword")))
            ∷ ("idx", needed "idx")
            ∷ ("name", needed "name")
            ∷ ("password", needed "password")
            ∷ []),
      )
        ∷ (
          "setNoPassword",
          (("action", fixed (str (lit "setNoPassword")))
              ∷ ("idx", needed "idx")
              ∷ ("name", needed "name")
              ∷ []),
        )
        ∷ ("show", (("action", fixed (str (lit "show"))) ∷ []))
        ∷ (
          "add",
          (("action", fixed (str (lit "add")))
              ∷ ("idx", needed "idx")
              ∷ ("mac", needed "mac")
              ∷ []),
        )
        ∷ (
          "delete",
          (("action", fixed (str (lit "delete")))
              ∷ ("idx", needed "idx")
              ∷ ("mac", needed "mac")
              ∷ []),
        )
        ∷ []);
}

abbrev pub swm_group : Entry
swm_group =
    typed_tool "swm_group" "swm" "cli.swm.group" "Switch group (SDK cli.swm.group)" (record plain {
      args = some (
          ("action", one_of ("setWithPassword" ∷ "setNoPassword" ∷ "show" ∷ "add" ∷ "delete" ∷ []))
          ∷ ("idx", optional (int_between 1 10))
          ∷ ("name", optional swm_token)
          ∷ ("password", optional swm_token)
          ∷ ("mac", optional swm_mac)
          ∷ []);
      to_input = some (switch_input swm_group_switch);
    })

abbrev pub swm_profile_switch : Switch
swm_profile_switch = record {
  on = "action";
  first = [];
  invalid = "invalid swm_profile action";
  cases =
      (("add", (("action", fixed (str (lit "add"))) ∷ ("mac", needed "mac") ∷ []))
        ∷ ("delete", (("action", fixed (str (lit "delete"))) ∷ ("mac", needed "mac") ∷ []))
        ∷ ("show", (("action", fixed (str (lit "show"))) ∷ []))
        ∷ ("enableAll", (("action", fixed (str (lit "enableAll"))) ∷ ("mac", needed "mac") ∷ []))
        ∷ ("disableAll", (("action", fixed (str (lit "disableAll"))) ∷ ("mac", needed "mac") ∷ []))
        ∷ []);
}

abbrev pub swm_profile : Entry
swm_profile =
    typed_tool "swm_profile" "swm" "cli.swm.profile" "Switch profile (SDK cli.swm.profile)"
      (record plain {
        args = some (
            ("action", one_of ("add" ∷ "delete" ∷ "show" ∷ "enableAll" ∷ "disableAll" ∷ []))
            ∷ ("mac", optional swm_mac)
            ∷ []);
        to_input = some (switch_input swm_profile_switch);
      })

abbrev pub swm_detail_switch : Switch
swm_detail_switch = record {
  on = "action";
  first = [];
  invalid = "invalid swm_detail action";
  cases =
      ((
        "comment",
        (("action", fixed (str (lit "comment")))
            ∷ ("mac", needed "mac")
            ∷ ("comment", needed "comment")
            ∷ []),
      )
        ∷ (
          "name",
          (("action", fixed (str (lit "name")))
              ∷ ("mac", needed "mac")
              ∷ ("name", needed "name")
              ∷ []),
        )
        ∷ (
          "passwd",
          (("action", fixed (str (lit "passwd")))
              ∷ ("mac", needed "mac")
              ∷ ("password", needed "password")
              ∷ []),
        )
        ∷ (
          "config",
          (("action", fixed (str (lit "config")))
              ∷ ("mac", needed "mac")
              ∷ ("configIndex", needed "configIndex")
              ∷ []),
        )
        ∷ ("show", (("action", fixed (str (lit "show"))) ∷ []))
        ∷ ("portShow", (("action", fixed (str (lit "portShow"))) ∷ ("mac", needed "mac") ∷ []))
        ∷ (
          "port",
          (("action", fixed (str (lit "port")))
              ∷ ("mac", needed "mac")
              ∷ ("port", needed "port")
              ∷ ("flag", needed "flag")
              ∷ ("schedule1", needed "schedule1")
              ∷ ("schedule2", needed "schedule2")
              ∷ ("description", needed "description")
              ∷ []),
        )
        ∷ (
          "rateToggle",
          (("action", fixed (str (lit "rateToggle")))
              ∷ ("mac", needed "mac")
              ∷ ("port", needed "port")
              ∷ ("direction", needed "direction")
              ∷ ("enabled", needed "enabled")
              ∷ []),
        )
        ∷ (
          "rateLimit",
          (("action", fixed (str (lit "rateLimit")))
              ∷ ("mac", needed "mac")
              ∷ ("port", needed "port")
              ∷ ("direction", needed "direction")
              ∷ ("limit", needed "limit")
              ∷ []),
        )
        ∷ []);
}

abbrev pub swm_detail : Entry
swm_detail =
    typed_tool "swm_detail" "swm" "cli.swm.detail" "Switch detail (SDK cli.swm.detail)"
      (record plain {
        args = some (
            (
              "action",
              one_of (
                  "comment" ∷ "name" ∷ "passwd" ∷ "config" ∷ "show" ∷ "portShow" ∷ "port"
                  ∷ "rateToggle" ∷ "rateLimit" ∷ []),
            )
            ∷ ("mac", optional swm_mac)
            ∷ ("comment", optional swm_token)
            ∷ ("name", optional swm_token)
            ∷ ("password", optional swm_token)
            ∷ ("configIndex", optional (number (int ∷ least (pos 0) ∷ [])))
            ∷ ("port", optional (int_between 1 28))
            ∷ ("flag", optional swm_token)
            ∷ ("schedule1", optional (number (int ∷ least (pos 0) ∷ [])))
            ∷ ("schedule2", optional (number (int ∷ least (pos 0) ∷ [])))
            ∷ ("description", optional swm_token)
            ∷ ("direction", optional (one_of ("i" ∷ "e" ∷ [])))
            ∷ ("enabled", optional boolean)
            ∷ ("limit", optional (number (int ∷ positive ∷ [])))
            ∷ []);
        to_input = some (switch_input swm_detail_switch);
      })

abbrev pub swm_maintain_switch : Switch
swm_maintain_switch = record {
  on = "action";
  first = [];
  invalid = "invalid swm_maintain action";
  cases =
      (("reboot", (("action", fixed (str (lit "reboot"))) ∷ ("mac", needed "mac") ∷ []))
        ∷ ("reset", (("action", fixed (str (lit "reset"))) ∷ ("mac", needed "mac") ∷ []))
        ∷ ("show", (("action", fixed (str (lit "show"))) ∷ []))
        ∷ []);
}

abbrev pub swm_maintain : Entry
swm_maintain =
    typed_tool "swm_maintain" "swm" "cli.swm.maintain" "Switch maintain (SDK cli.swm.maintain)"
      (record plain {
        args = some (
            ("action", one_of ("reboot" ∷ "reset" ∷ "show" ∷ [])) ∷ ("mac", optional swm_mac) ∷ []);
        to_input = some (switch_input swm_maintain_switch);
      })
