-- ===== src/Catalog/Csm/Dns.antt =====
-- src/commands/registry/families/csm.ts: the tools csm_dnsf.
use vigor3912s_mcp.Common.{some, [], ◌∷◌, lit}
use vigor3912s_mcp.Values.{str}
use vigor3912s_mcp.Zod.{number, optional, int, least, pos, int_between, one_of}
use vigor3912s_mcp.Validators.{safe_text}
use vigor3912s_mcp.Catalog.Entries.{Entry, typed_tool, plain}
use vigor3912s_mcp.Catalog.Inputs.{Switch, needed, fixed, switch_input}

abbrev pub csm_dnsf_switch : Switch
csm_dnsf_switch = record {
  on = "action";
  first = [];
  invalid = "invalid csm_dnsf action";
  cases =
      (("enable", (("action", fixed (str (lit "enable"))) ∷ ("state", needed "state") ∷ []))
        ∷ ("syslog", (("action", fixed (str (lit "syslog"))) ∷ ("value", needed "value") ∷ []))
        ∷ ("wcf", (("action", fixed (str (lit "wcf"))) ∷ ("index", needed "index") ∷ []))
        ∷ ("ucf", (("action", fixed (str (lit "ucf"))) ∷ ("index", needed "index") ∷ []))
        ∷ (
          "cachetime",
          (("action", fixed (str (lit "cachetime"))) ∷ ("hours", needed "hours") ∷ []),
        )
        ∷ (
          "blockpage",
          (("action", fixed (str (lit "blockpage"))) ∷ ("value", needed "blockpage") ∷ []),
        )
        ∷ ("profileShow", (("action", fixed (str (lit "profileShow"))) ∷ []))
        ∷ (
          "profileEditName",
          (("action", fixed (str (lit "profileEditName")))
              ∷ ("index", needed "index")
              ∷ ("name", needed "name")
              ∷ []),
        )
        ∷ (
          "profileEditLog",
          (("action", fixed (str (lit "profileEditLog")))
              ∷ ("index", needed "index")
              ∷ ("logType", needed "logType")
              ∷ []),
        )
        ∷ ("profileSetdefault", (("action", fixed (str (lit "profileSetdefault"))) ∷ []))
        ∷ []);
}

abbrev pub csm_dnsf : Entry
csm_dnsf =
    typed_tool "csm_dnsf" "csm" "cli.csm.dnsf" "DNS filter (SDK cli.csm.dnsf canonical forms)"
      (record plain {
        args = some (
            (
              "action",
              one_of (
                  "enable" ∷ "syslog" ∷ "wcf" ∷ "ucf" ∷ "cachetime" ∷ "blockpage" ∷ "profileShow"
                  ∷ "profileEditName" ∷ "profileEditLog" ∷ "profileSetdefault" ∷ []),
            )
            ∷ ("state", optional (one_of ("ON" ∷ "OFF" ∷ [])))
            ∷ ("value", optional (one_of ("N" ∷ "P" ∷ "B" ∷ "A" ∷ [])))
            ∷ ("index", optional (number (int ∷ least (pos 1) ∷ [])))
            ∷ ("hours", optional (int_between 1 24))
            ∷ ("blockpage", optional (one_of ("show" ∷ "on" ∷ "off" ∷ [])))
            ∷ ("name", optional (safe_text 255))
            ∷ ("logType", optional (one_of ("P" ∷ "B" ∷ "A" ∷ [])))
            ∷ []);
        to_input = some (switch_input csm_dnsf_switch);
      })
