-- ===== src/Catalog/Csm/Content.antt =====
-- src/commands/registry/families/csm.ts: the tools csm_appe_set, csm_ucf, csm_wcf.
use vigor3912s_mcp.Common.{some, [], ◌∷◌, lit}
use vigor3912s_mcp.Values.{str}
use vigor3912s_mcp.Zod.{number, optional, int, positive, int_between, one_of, one_of_numbers}
use vigor3912s_mcp.Validators.{safe_text}
use vigor3912s_mcp.Catalog.Entries.{Entry, typed_tool, plain}
use vigor3912s_mcp.Catalog.Inputs.{Switch, given, needed, fixed, switch_input}

abbrev pub csm_appe_set_switch : Switch
csm_appe_set_switch = record {
  on = "action";
  first = ("index" ∷ []);
  invalid = "invalid csm_appe_set action";
  cases =
      ((
        "view",
        (("index", given "index")
            ∷ ("action", fixed (str (lit "view")))
            ∷ ("group", needed "group")
            ∷ []),
      )
        ∷ (
          "enable",
          (("index", given "index")
              ∷ ("action", fixed (str (lit "enable")))
              ∷ ("appIndex", needed "appIndex")
              ∷ []),
        )
        ∷ (
          "disable",
          (("index", given "index")
              ∷ ("action", fixed (str (lit "disable")))
              ∷ ("appIndex", needed "appIndex")
              ∷ []),
        )
        ∷ (
          "enableRoute",
          (("index", given "index")
              ∷ ("action", fixed (str (lit "enableRoute")))
              ∷ ("appIndex", needed "appIndex")
              ∷ []),
        )
        ∷ (
          "disableRoute",
          (("index", given "index")
              ∷ ("action", fixed (str (lit "disableRoute")))
              ∷ ("appIndex", needed "appIndex")
              ∷ []),
        )
        ∷ []);
}

abbrev pub csm_appe_set : Entry
csm_appe_set =
    typed_tool "csm_appe_set" "csm" "cli.csm.appe.set" "APP enforcement set (SDK cli.csm.appe.set)"
      (record plain {
        args = some (
            ("index", int_between 1 32)
            ∷ (
              "action",
              one_of ("view" ∷ "enable" ∷ "disable" ∷ "enableRoute" ∷ "disableRoute" ∷ []),
            )
            ∷ ("group", optional (one_of ("IM" ∷ "P2P" ∷ "Protocol" ∷ "Others" ∷ [])))
            ∷ ("appIndex", optional (number (int ∷ positive ∷ [])))
            ∷ []);
        to_input = some (switch_input csm_appe_set_switch);
      })

abbrev pub csm_ucf_switch : Switch
csm_ucf_switch = record {
  on = "action";
  first = [];
  invalid = "invalid csm_ucf action";
  cases =
      (("show", (("action", fixed (str (lit "show"))) ∷ []))
        ∷ ("setdefault", (("action", fixed (str (lit "setdefault"))) ∷ []))
        ∷ (
          "message",
          (("action", fixed (str (lit "message"))) ∷ ("message", needed "message") ∷ []),
        )
        ∷ (
          "objName",
          (("action", fixed (str (lit "objName")))
              ∷ ("index", needed "index")
              ∷ ("name", needed "name")
              ∷ []),
        )
        ∷ (
          "objPriority",
          (("action", fixed (str (lit "objPriority")))
              ∷ ("index", needed "index")
              ∷ ("value", needed "value")
              ∷ []),
        )
        ∷ (
          "objLog",
          (("action", fixed (str (lit "objLog")))
              ∷ ("index", needed "index")
              ∷ ("logType", needed "logType")
              ∷ []),
        )
        ∷ []);
}

abbrev pub csm_ucf : Entry
csm_ucf =
    typed_tool "csm_ucf" "csm" "cli.csm.ucf" "URL content filter (SDK cli.csm.ucf canonical forms)"
      (record plain {
        args = some (
            (
              "action",
              one_of
                  ("show" ∷ "setdefault" ∷ "message" ∷ "objName" ∷ "objPriority" ∷ "objLog" ∷ []),
            )
            ∷ ("message", optional (safe_text 255))
            ∷ ("index", optional (int_between 1 8))
            ∷ ("name", optional (safe_text 15))
            ∷ ("value", optional (one_of_numbers ("0" ∷ "1" ∷ "2" ∷ "3" ∷ [])))
            ∷ ("logType", optional (one_of ("P" ∷ "B" ∷ "A" ∷ [])))
            ∷ []);
        to_input = some (switch_input csm_ucf_switch);
      })

abbrev pub csm_wcf_switch : Switch
csm_wcf_switch = record {
  on = "action";
  first = [];
  invalid = "invalid csm_wcf action";
  cases =
      (("show", (("action", fixed (str (lit "show"))) ∷ []))
        ∷ ("look", (("action", fixed (str (lit "look"))) ∷ []))
        ∷ ("cache", (("action", fixed (str (lit "cache"))) ∷ []))
        ∷ ("server", (("action", fixed (str (lit "server"))) ∷ ("server", needed "server") ∷ []))
        ∷ (
          "message",
          (("action", fixed (str (lit "message"))) ∷ ("message", needed "message") ∷ []),
        )
        ∷ ("setdefault", (("action", fixed (str (lit "setdefault"))) ∷ []))
        ∷ ("objView", (("action", fixed (str (lit "objView"))) ∷ ("index", needed "index") ∷ []))
        ∷ (
          "objAction",
          (("action", fixed (str (lit "objAction")))
              ∷ ("index", needed "index")
              ∷ ("value", needed "objAction")
              ∷ []),
        )
        ∷ (
          "objName",
          (("action", fixed (str (lit "objName")))
              ∷ ("index", needed "index")
              ∷ ("name", needed "name")
              ∷ []),
        )
        ∷ (
          "objLog",
          (("action", fixed (str (lit "objLog")))
              ∷ ("index", needed "index")
              ∷ ("logType", needed "logType")
              ∷ []),
        )
        ∷ []);
}

abbrev pub csm_wcf : Entry
csm_wcf =
    typed_tool "csm_wcf" "csm" "cli.csm.wcf" "Web content filter (SDK cli.csm.wcf canonical forms)"
      (record plain {
        args = some (
            (
              "action",
              one_of (
                  "show" ∷ "look" ∷ "cache" ∷ "server" ∷ "message" ∷ "setdefault" ∷ "objView"
                  ∷ "objAction" ∷ "objName" ∷ "objLog" ∷ []),
            )
            ∷ ("server", optional (safe_text 255))
            ∷ ("message", optional (safe_text 255))
            ∷ ("index", optional (int_between 1 8))
            ∷ ("objAction", optional (one_of ("P" ∷ "B" ∷ [])))
            ∷ ("name", optional (safe_text 15))
            ∷ ("logType", optional (one_of ("P" ∷ "B" ∷ "A" ∷ [])))
            ∷ []);
        to_input = some (switch_input csm_wcf_switch);
      })
