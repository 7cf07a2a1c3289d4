-- ===== src/Catalog/Mngt.antt =====
-- src/commands/registry/families/mngt.ts: the access control tools.
use vigor3912s_mcp.Common.{◌||◌, some, [], ◌∷◌, lit, if◌then◌else◌, text_eq, lookup, Result}
use vigor3912s_mcp.Values.{Value, str, Args, arg}
use vigor3912s_mcp.Zod.{Zod, array, optional, refine, shortest, int_between, one_of, of_texts}
use vigor3912s_mcp.Validators.{safe_text}
use vigor3912s_mcp.Catalog.Entries.{Entry, typed_tool, FamilyEntries, plain}
use vigor3912s_mcp.Catalog.Inputs.{given, needed_or, same_value, make_input}
use vigor3912s_mcp.Catalog.Schemas.{flags_among}

abbrev noping_action : Zod
noping_action = one_of ("on" ∷ "off" ∷ "viewlog" ∷ "clearlog" ∷ [])

abbrev defenseworm_action : Zod
defenseworm_action = one_of ("on" ∷ "off" ∷ "viewlog" ∷ "clearlog" ∷ "add" ∷ "del" ∷ [])

-- `toInput` of `mngt_defenseworm`
unfoldable pub mngt_defenseworm_input : Args → Result Value
unfolding make_input lit text_eq lookup
mngt_defenseworm_input args =
    let action = arg args "action" in
    if same_value action (str (lit "add")) || same_value action (str (lit "del"))
    then make_input
        (("action", given "action")
          ∷ ("port", needed_or "port" "port is required when action is add or del")
          ∷ [])
        args
    else make_input (("action", given "action") ∷ []) args

abbrev pub mngt_telnettimeout : Entry
mngt_telnettimeout =
    typed_tool "mngt_telnettimeout" "mngt" "cli.mngt.telnettimeout"
      "Set telnet session timeout in seconds (60-300)"
      (record plain {
        args = some (("seconds", int_between 60 300) ∷ []);
        to_input = some (make_input (("seconds", given "seconds") ∷ []));
      })

abbrev pub mngt_defenseworm : Entry
mngt_defenseworm =
    typed_tool "mngt_defenseworm" "mngt" "cli.mngt.defenseworm"
      "Worm defense (on|off|viewlog|clearlog|add|del); add/del require port"
      (record plain {
        args =
            some (("action", defenseworm_action) ∷ ("port", optional (int_between 1 65535)) ∷ []);
        to_input = some mngt_defenseworm_input;
      })

abbrev pub mngt_bfp : Entry
mngt_bfp =
    typed_tool "mngt_bfp" "mngt" "cli.mngt.bfp"
      "Brute-force protection flags (e.g. args=[\"-e\",\"1\"])"
      (record plain {
        args = some (
            (
              "args",
              refine (array (safe_text 255) (shortest 1 ∷ []))
                  (of_texts (flags_among ("-e" ∷ "-s" ∷ "-l" ∷ "-p" ∷ "-v" ∷ []))),
            )
            ∷ []);
        to_input = some (make_input (("args", given "args") ∷ []));
      })

abbrev pub mngt_family : FamilyEntries
mngt_family = record {
  family = "mngt";
  desc = "Management/access control (write).";
  commands =
      typed_tool "mngt_sshport" "mngt" "cli.mngt.sshport" "Set SSH port" (record plain {
        args = some (("port", int_between 1 65535) ∷ []);
        to_input = some (make_input (("port", given "port") ∷ []));
      })
      ∷ typed_tool "mngt_telnetport" "mngt" "cli.mngt.telnetport" "Set telnet port" (record plain {
        args = some (("port", int_between 1 65535) ∷ []);
        to_input = some (make_input (("port", given "port") ∷ []));
      })
      ∷ typed_tool "mngt_httpport" "mngt" "cli.mngt.httpport" "Set HTTP port" (record plain {
        args = some (("port", int_between 1 65535) ∷ []);
        to_input = some (make_input (("port", given "port") ∷ []));
      })
      ∷ typed_tool "mngt_httpsport" "mngt" "cli.mngt.httpsport" "Set HTTPS port" (record plain {
        args = some (("port", int_between 1 65535) ∷ []);
        to_input = some (make_input (("port", given "port") ∷ []));
      })
      ∷ typed_tool "mngt_sshtimeout" "mngt" "cli.mngt.sshtimeout"
          "Set SSH session timeout in seconds (60-300)"
          (record plain {
            args = some (("seconds", int_between 60 300) ∷ []);
            to_input = some (make_input (("seconds", given "seconds") ∷ []));
          })
      ∷ mngt_telnettimeout
      ∷ typed_tool "mngt_noping" "mngt" "cli.mngt.noping"
          "Control LAN-to-WAN ping forward (on|off|viewlog|clearlog)"
          (record plain {
            args = some (("action", noping_action) ∷ []);
            to_input = some (make_input (("action", given "action") ∷ []));
          })
      ∷ mngt_defenseworm
      ∷ mngt_bfp
      ∷ [];
}
