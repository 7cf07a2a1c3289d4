-- ===== src/Catalog/Access.antt =====
-- src/commands/registry/families/{user,internet,ha,vrrp,hsportal}.ts: the Internet access, user and availability tools.
use vigor3912s_mcp.Common.{String, true, some, List, [], ◌∷◌, lit}
use vigor3912s_mcp.Values.{str}
use vigor3912s_mcp.Zod.{
  number, boolean, array, optional, refine, int, least, pos, shortest, int_between, one_of,
  one_of_numbers, of_text, of_texts,
}
use vigor3912s_mcp.Validators.{wan_idx, no_control, safe_text}
use vigor3912s_mcp.Catalog.Entries.{Entry, typed_tool, FamilyEntries, plain}
use vigor3912s_mcp.Catalog.Inputs.{Switch, given, needed, fixed, kept, make_input, switch_input}
use vigor3912s_mcp.Catalog.Schemas.{has_no_space, flags_among}

abbrev pub user_family : FamilyEntries
user_family = record {
  family = "user";
  desc = "User management.";
  commands =
      typed_tool "user_account" "user" "cli.user"
        "Configure user account (SDK cli.user action=account)"
        (record plain {
          args = some (("userName", no_control 63) ∷ ("param", no_control 255) ∷ []);
          to_input = some (
              make_input (
                ("action", fixed (str (lit "account")))
                ∷ ("userName", given "userName")
                ∷ ("param", given "param")
                ∷ []));
          partial = true;
        })
      ∷ typed_tool "user_edit" "user" "cli.user" "Edit user profile (SDK cli.user action=edit)"
          (record plain {
            args = some (
                ("profileIdx", number (int ∷ least (pos 0) ∷ [])) ∷ ("param", no_control 255) ∷ []);
            to_input = some (
                make_input (
                  ("action", fixed (str (lit "edit")))
                  ∷ ("profileIdx", given "profileIdx")
                  ∷ ("param", given "param")
                  ∷ []));
            partial = true;
          })
      ∷ typed_tool "user_set" "user" "cli.user" "User general setup (SDK cli.user action=set)"
          (record plain {
            args = some (("param", no_control 255) ∷ []);
            to_input =
                some (
                  make_input (("action", fixed (str (lit "set"))) ∷ ("param", given "param") ∷ []));
            partial = true;
          })
      ∷ typed_tool "user_setdefault" "user" "cli.user"
          "Reset all user profiles (SDK cli.user action=setdefault)"
          (record plain {
            args = some [];
            to_input = some (make_input (("action", fixed (str (lit "setdefault"))) ∷ []));
            partial = true;
          })
      ∷ [];
}

abbrev pub internet_set : Entry
internet_set =
    typed_tool "internet_set" "internet" "cli.internet"
      "Set WAN internet access (mode required; optional ISP display name -S, user, password)"
      (record plain {
        args = some (
            ("wan", wan_idx)
            ∷ ("mode", int_between 0 7)
            ∷ ("ispName", optional (safe_text 23))
            ∷ ("username", optional (no_control 49))
            ∷ ("password", optional (no_control 49))
            ∷ []);
        to_input = some (
            make_input (
              ("wanInterface", given "wan")
              ∷ ("mode", given "mode")
              ∷ ("ispName", kept "ispName")
              ∷ ("username", kept "username")
              ∷ ("password", kept "password")
              ∷ []));
        partial = true;
      })

abbrev pub internet_family : FamilyEntries
internet_family = record {
  family = "internet";
  desc = "Internet access profile (WAN setup).";
  commands =
      typed_tool "internet_view" "internet" "cli.internet.v" "View Internet access profile" plain
      ∷ internet_set
      ∷ [];
}

abbrev ha_set_flags : List String
ha_set_flags =
    "-e" ∷ "-l" ∷ "-M" ∷ "-v" ∷ "-R" ∷ "-p" ∷ "-k" ∷ "-u" ∷ "-m" ∷ "-s" ∷ "-y" ∷ "-c" ∷ "-C" ∷ "-I"
    ∷ "-h" ∷ "-d" ∷ "-o" ∷ []

abbrev pub ha_status : Entry
ha_status =
    typed_tool "ha_status" "ha" "cli.ha.status"
      "HA status (-a all routers / -m local; detailLevel 0|1|2)"
      (record plain {
        args = some (
            ("scope", one_of ("allRouters" ∷ "localRouter" ∷ []))
            ∷ ("detailLevel", one_of_numbers ("0" ∷ "1" ∷ "2" ∷ []))
            ∷ []);
      })

abbrev pub ha_set : Entry
ha_set =
    typed_tool "ha_set" "ha" "cli.ha.set" "Configure HA (flag args, e.g. [\"-e\",\"1\"])"
      (record plain {
        args = some (
            (
              "args",
              refine (array (refine (safe_text 255) (of_text has_no_space)) (shortest 1 ∷ []))
                  (of_texts (flags_among ha_set_flags)),
            )
            ∷ []);
      })

abbrev pub ha_family : FamilyEntries
ha_family = record {
  family = "ha";
  desc = "High availability.";
  commands =
      typed_tool "ha_show" "ha" "cli.ha.show"
        "HA configuration (section: configSync=-c, generalSetup=-g)"
        (record plain {
          args = some (("section", one_of ("configSync" ∷ "generalSetup" ∷ [])) ∷ []);
        })
      ∷ ha_status
      ∷ ha_set
      ∷ [];
}

abbrev pub vrrp_family : FamilyEntries
vrrp_family = record {
  family = "vrrp";
  desc = "VRRP.";
  commands =
      typed_tool "vrrp_show" "vrrp" "cli.vrrp.show" "VRRP configuration" plain
      ∷ typed_tool "vrrp_enable" "vrrp" "cli.vrrp.enable"
          "Enable/disable VRRP (SDK cli.vrrp.enable)"
          (record plain { args = some (("onOff", one_of ("on" ∷ "off" ∷ [])) ∷ []) })
      ∷ typed_tool "vrrp_set" "vrrp" "cli.vrrp.set"
          "Configure VRRP (SDK cli.vrrp.set; param is opaque trailing syntax)"
          (record plain { args = some (("param", safe_text 255) ∷ []) })
      ∷ typed_tool "vrrp_apply" "vrrp" "cli.vrrp.apply" "Apply VRRP configuration" plain
      ∷ typed_tool "vrrp_reset" "vrrp" "cli.vrrp.reset" "Reset VRRP" plain
      ∷ [];
}

abbrev pub hsportal_setup_switch : Switch
hsportal_setup_switch = record {
  on = "action";
  first = ("profile" ∷ []);
  invalid = "invalid hsportal_setup action";
  cases =
      (("reset", (("profile", given "profile") ∷ ("action", fixed (str (lit "reset"))) ∷ []))
        ∷ ("enable", (("profile", given "profile") ∷ ("action", fixed (str (lit "enable"))) ∷ []))
        ∷ ("disable", (("profile", given "profile") ∷ ("action", fixed (str (lit "disable"))) ∷ []))
        ∷ (
          "landingPageMode",
          (("profile", given "profile")
              ∷ ("action", fixed (str (lit "landingPageMode")))
              ∷ ("mode", needed "mode")
              ∷ []),
        )
        ∷ (
          "google",
          (("profile", given "profile")
              ∷ ("action", fixed (str (lit "google")))
              ∷ ("enabled", needed "enabled")
              ∷ ("appKey", needed "appKey")
              ∷ []),
        )
        ∷ (
          "facebook",
          (("profile", given "profile")
              ∷ ("action", fixed (str (lit "facebook")))
              ∷ ("enabled", needed "enabled")
              ∷ ("appId", needed "appId")
              ∷ []),
        )
        ∷ []);
}

abbrev pub hsportal_setup : Entry
hsportal_setup =
    typed_tool "hsportal_setup" "hsportal" "cli.hsportal.setup"
      "Hotspot portal setup (SDK cli.hsportal.setup)"
      (record plain {
        args = some (
            ("profile", int_between 1 4)
            ∷ (
              "action",
              one_of
                  ("reset" ∷ "enable" ∷ "disable" ∷ "landingPageMode" ∷ "google" ∷ "facebook" ∷ []),
            )
            ∷ ("mode", optional (one_of_numbers ("0" ∷ "1" ∷ "2" ∷ [])))
            ∷ ("enabled", optional boolean)
            ∷ ("appKey", optional (no_control 255))
            ∷ ("appId", optional (no_control 255))
            ∷ []);
        to_input = some (switch_input hsportal_setup_switch);
      })

abbrev pub hsportal_family : FamilyEntries
hsportal_family = record {
  family = "hsportal";
  desc = "Hotspot portal.";
  commands =
      typed_tool "hsportal_info" "hsportal" "cli.hsportal.info" "Hotspot portal info" plain
      ∷ typed_tool "hsportal_level" "hsportal" "cli.hsportal.level" "Hotspot portal level" plain
      ∷ hsportal_setup
      ∷ [];
}
