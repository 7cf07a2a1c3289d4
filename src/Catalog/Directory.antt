-- ===== src/Catalog/Directory.antt =====
-- src/commands/registry/families/{ldap,tacacsplus}.ts: the tools of the user directories.
use vigor3912s_mcp.Common.{some, [], ◌∷◌, lit}
use vigor3912s_mcp.Values.{str}
use vigor3912s_mcp.Zod.{boolean, optional, refine, int_between, one_of, one_of_numbers, of_text}
use vigor3912s_mcp.Validators.{ipv4, no_control, safe_text}
use vigor3912s_mcp.Catalog.Entries.{Entry, typed_tool, FamilyEntries, plain}
use vigor3912s_mcp.Catalog.Inputs.{Switch, given, needed, fixed, switch_input}
use vigor3912s_mcp.Catalog.Schemas.{has_no_quote}

abbrev pub ldap_set_switch : Switch
ldap_set_switch = record {
  on = "option";
  first = [];
  invalid = "invalid ldap_set option";
  cases =
      (("enable", (("option", fixed (str (lit "enable"))) ∷ ("enabled", needed "enabled") ∷ []))
        ∷ ("type", (("option", fixed (str (lit "type"))) ∷ ("bindType", needed "bindType") ∷ []))
        ∷ ("ssl", (("option", fixed (str (lit "ssl"))) ∷ ("enabled", needed "enabled") ∷ []))
        ∷ ("ip", (("option", fixed (str (lit "ip"))) ∷ ("ipAddress", needed "ipAddress") ∷ []))
        ∷ ("port", (("option", fixed (str (lit "port"))) ∷ ("port", needed "port") ∷ []))
        ∷ ("dn", (("option", fixed (str (lit "dn"))) ∷ ("value", needed "value") ∷ []))
        ∷ ("password", (("option", fixed (str (lit "password"))) ∷ ("value", needed "value") ∷ []))
        ∷ []);
}

abbrev pub ldap_set : Entry
ldap_set = typed_tool "ldap_set" "ldap" "cli.ldap.set" "LDAP set (SDK cli.ldap.set)" (record plain {
  args = some (
      ("option", one_of ("enable" ∷ "type" ∷ "ssl" ∷ "ip" ∷ "port" ∷ "dn" ∷ "password" ∷ []))
      ∷ ("enabled", optional boolean)
      ∷ ("bindType", optional (one_of_numbers ("0" ∷ "1" ∷ "2" ∷ [])))
      ∷ ("ipAddress", optional ipv4)
      ∷ ("port", optional (int_between 1 65535))
      ∷ ("value", optional (no_control 255))
      ∷ []);
  to_input = some (switch_input ldap_set_switch);
})

abbrev pub ldap_user_switch : Switch
ldap_user_switch = record {
  on = "action";
  first = ("index" ∷ []);
  invalid = "invalid ldap_user action";
  cases =
      ((
        "name",
        (("index", given "index")
            ∷ ("action", fixed (str (lit "name")))
            ∷ ("value", needed "value")
            ∷ []),
      )
        ∷ (
          "baseDn",
          (("index", given "index")
              ∷ ("action", fixed (str (lit "baseDn")))
              ∷ ("value", needed "value")
              ∷ []),
        )
        ∷ (
          "filter",
          (("index", given "index")
              ∷ ("action", fixed (str (lit "filter")))
              ∷ ("value", needed "value")
              ∷ []),
        )
        ∷ (
          "groupDn",
          (("index", given "index")
              ∷ ("action", fixed (str (lit "groupDn")))
              ∷ ("value", needed "value")
              ∷ []),
        )
        ∷ (
          "commonName",
          (("index", given "index")
              ∷ ("action", fixed (str (lit "commonName")))
              ∷ ("value", needed "value")
              ∷ []),
        )
        ∷ ("view", (("index", given "index") ∷ ("action", fixed (str (lit "view"))) ∷ []))
        ∷ []);
}

abbrev pub ldap_user : Entry
ldap_user =
    typed_tool "ldap_user" "ldap" "cli.ldap.user" "LDAP user profile (SDK cli.ldap.user)"
      (record plain {
        args = some (
            ("index", int_between 1 8)
            ∷ (
              "action",
              one_of ("name" ∷ "baseDn" ∷ "filter" ∷ "groupDn" ∷ "commonName" ∷ "view" ∷ []),
            )
            ∷ ("value", optional (safe_text 255))
            ∷ []);
        to_input = some (switch_input ldap_user_switch);
      })

abbrev pub ldap_family : FamilyEntries
ldap_family = record {
  family = "ldap";
  desc = "LDAP AAA.";
  commands =
      typed_tool "ldap_view" "ldap" "cli.ldap.view" "LDAP configuration view" plain
      ∷ ldap_set
      ∷ ldap_user
      ∷ [];
}

abbrev pub tacacsplus_set_switch : Switch
tacacsplus_set_switch = record {
  on = "action";
  first = [];
  invalid = "invalid tacacsplus_set action";
  cases =
      (("enable", (("action", fixed (str (lit "enable"))) ∷ ("enabled", needed "enabled") ∷ []))
        ∷ (
          "serverIp",
          (("action", fixed (str (lit "serverIp")))
              ∷ ("serverIndex", needed "serverIndex")
              ∷ ("ipAddress", needed "ipAddress")
              ∷ []),
        )
        ∷ (
          "serverPort",
          (("action", fixed (str (lit "serverPort")))
              ∷ ("serverIndex", needed "serverIndex")
              ∷ ("port", needed "port")
              ∷ []),
        )
        ∷ (
          "sharedSecret",
          (("action", fixed (str (lit "sharedSecret")))
              ∷ ("serverIndex", needed "serverIndex")
              ∷ ("secret", needed "secret")
              ∷ []),
        )
        ∷ ("clear", (("action", fixed (str (lit "clear"))) ∷ []))
        ∷ []);
}

abbrev pub tacacsplus_set : Entry
tacacsplus_set =
    typed_tool "tacacsplus_set" "tacacsplus" "cli.tacacsplus.set"
      "TACACS+ set (SDK cli.tacacsplus.set)"
      (record plain {
        args = some (
            (
              "action",
              one_of ("enable" ∷ "serverIp" ∷ "serverPort" ∷ "sharedSecret" ∷ "clear" ∷ []),
            )
            ∷ ("enabled", optional boolean)
            ∷ ("serverIndex", optional (one_of_numbers ("0" ∷ "1" ∷ [])))
            ∷ ("ipAddress", optional ipv4)
            ∷ ("port", optional (int_between 1 65535))
            ∷ ("secret", optional (refine (no_control 255) (of_text has_no_quote)))
            ∷ []);
        to_input = some (switch_input tacacsplus_set_switch);
      })

abbrev pub tacacsplus_family : FamilyEntries
tacacsplus_family = record {
  family = "tacacsplus";
  desc = "TACACS+ AAA.";
  commands =
      typed_tool "tacacsplus_view" "tacacsplus" "cli.tacacsplus.view" "TACACS+ configuration view"
        plain
      ∷ tacacsplus_set
      ∷ [];
}
