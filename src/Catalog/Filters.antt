-- ===== src/Catalog/Filters.antt =====
-- src/commands/registry/families/ipf.ts: the firewall tools.
use vigor3912s_mcp.Common.{true, some, [], ◌∷◌, lit}
use vigor3912s_mcp.Values.{str}
use vigor3912s_mcp.Zod.{boolean, optional, int_between, one_of, one_of_numbers}
use vigor3912s_mcp.Catalog.Entries.{Entry, typed_tool, FamilyEntries, plain}
use vigor3912s_mcp.Catalog.Inputs.{Switch, given, needed, fixed, make_input, switch_input}

abbrev pub ipf_set_switch : Switch
ipf_set_switch = record {
  on = "action";
  first = [];
  invalid = "invalid ipf_set action";
  cases =
      ((
        "callFilterSet",
        (("action", fixed (str (lit "callFilterSet"))) ∷ ("setNo", needed "setNo") ∷ []),
      )
        ∷ (
          "dataFilterSet",
          (("action", fixed (str (lit "dataFilterSet"))) ∷ ("setNo", needed "setNo") ∷ []),
        )
        ∷ (
          "defaultAction",
          (("action", fixed (str (lit "defaultAction")))
              ∷ ("pass", needed "pass")
              ∷ ("logToSyslog", needed "logToSyslog")
              ∷ []),
        )
        ∷ (
          "acceptRoutingFromWan",
          (("action", fixed (str (lit "acceptRoutingFromWan")))
              ∷ ("family", needed "family")
              ∷ ("enabled", needed "enabled")
              ∷ []),
        )
        ∷ (
          "strictSecurityFirewall",
          (("action", fixed (str (lit "strictSecurityFirewall")))
              ∷ ("enabled", needed "enabled")
              ∷ []),
        )
        ∷ ("codePage", (("action", fixed (str (lit "codePage"))) ∷ ("page", needed "page") ∷ []))
        ∷ []);
}

abbrev pub ipf_set : Entry
ipf_set =
    typed_tool "ipf_set" "ipf" "cli.ipf.set" "IP filter set (SDK cli.ipf.set canonical forms)"
      (record plain {
        args = some (
            (
              "action",
              one_of (
                  "callFilterSet" ∷ "dataFilterSet" ∷ "defaultAction" ∷ "acceptRoutingFromWan"
                  ∷ "strictSecurityFirewall" ∷ "codePage" ∷ []),
            )
            ∷ ("setNo", optional (int_between 0 12))
            ∷ ("pass", optional boolean)
            ∷ ("logToSyslog", optional boolean)
            ∷ ("family", optional (one_of ("v4" ∷ "v6" ∷ [])))
            ∷ ("enabled", optional boolean)
            ∷ ("page", optional (int_between 0 20))
            ∷ []);
        to_input = some (switch_input ipf_set_switch);
      })

abbrev pub ipf_rule_switch : Switch
ipf_rule_switch = record {
  on = "action";
  first = ("setNo" ∷ "ruleNo" ∷ []);
  invalid = "invalid ipf_rule action";
  cases =
      ((
        "view",
        (("setNo", given "setNo")
            ∷ ("ruleNo", given "ruleNo")
            ∷ ("action", fixed (str (lit "view")))
            ∷ []),
      )
        ∷ (
          "enable",
          (("setNo", given "setNo")
              ∷ ("ruleNo", given "ruleNo")
              ∷ ("action", fixed (str (lit "enable")))
              ∷ ("enabled", needed "enabled")
              ∷ []),
        )
        ∷ (
          "direction",
          (("setNo", given "setNo")
              ∷ ("ruleNo", given "ruleNo")
              ∷ ("action", fixed (str (lit "direction")))
              ∷ ("direction", needed "direction")
              ∷ []),
        )
        ∷ []);
}

abbrev pub ipf_rule : Entry
ipf_rule =
    typed_tool "ipf_rule" "ipf" "cli.ipf.rule"
      "IP filter rule (SDK cli.ipf.rule canonical -v/-e/-D forms)"
      (record plain {
        args = some (
            ("setNo", int_between 1 50)
            ∷ ("ruleNo", int_between 1 30)
            ∷ ("action", one_of ("view" ∷ "enable" ∷ "direction" ∷ []))
            ∷ ("enabled", optional boolean)
            ∷ ("direction", optional (one_of_numbers ("0" ∷ "1" ∷ "2" ∷ "3" ∷ [])))
            ∷ []);
        to_input = some (switch_input ipf_rule_switch);
      })

abbrev pub ipf_flowtrack_view : Entry
ipf_flowtrack_view =
    typed_tool "ipf_flowtrack_view" "ipf" "cli.ipf.flowtrack.view"
      "IP filter flowtrack view (-f sessions / -b all)"
      (record plain {
        args = some (("mode", one_of ("sessions" ∷ "all" ∷ [])) ∷ []);
        to_input = some (make_input (("mode", needed "mode") ∷ []));
      })

abbrev pub ipf_flowtrack_set : Entry
ipf_flowtrack_set =
    typed_tool "ipf_flowtrack_set" "ipf" "cli.ipf.flowtrack.set"
      "IP filter flowtrack set (-r refresh / -e enable)"
      (record plain {
        args = some (("action", one_of ("refresh" ∷ "enable" ∷ [])) ∷ []);
        to_input = some (make_input (("action", needed "action") ∷ []));
      })

abbrev pub ipf_family : FamilyEntries
ipf_family = record {
  family = "ipf";
  desc = "IP filter (firewall).";
  commands =
      typed_tool "ipf_view" "ipf" "cli.ipf.view" "IP filter rules view"
        (record plain { args = some []; to_input = some (make_input []); partial = true })
      ∷ ipf_set
      ∷ ipf_rule
      ∷ ipf_flowtrack_view
      ∷ ipf_flowtrack_set
      ∷ [];
}
