-- ===== src/Catalog/Sys.antt =====
-- src/commands/registry/families/sys.ts: the system tools.
use vigor3912s_mcp.Common.{
  true, ◌&&◌, some, [], ◌∷◌, lit, if◌then◌else◌, text_eq, lookup, Result, ok,
}
use vigor3912s_mcp.Values.{Value, num, str, arr, obj, nil, end, field, Args, arg}
use vigor3912s_mcp.Zod.{Zod, array, optional, refine, shortest, int_between, one_of, of_texts}
use vigor3912s_mcp.Validators.{one_zero, no_control, safe_text}
use vigor3912s_mcp.Catalog.Entries.{Entry, typed_tool, FamilyEntries, plain}
use vigor3912s_mcp.Catalog.Inputs.{given, is_value, is_missing, same_value, thrown, make_input}
use vigor3912s_mcp.Catalog.Schemas.{is_syslog, starts_with_one_of}

abbrev cli_args : Zod
cli_args = array (safe_text 255) (shortest 1 ∷ [])

-- `toInput` of `sys_autoreboot`
unfoldable pub sys_autoreboot_input : Args → Result Value
unfolding make_input lit text_eq lookup
sys_autoreboot_input args =
    let mode = arg args "mode" in
    if same_value mode (str (lit "hours")) && is_missing (arg args "hours")
    then thrown (lit "hours is required when mode=hours")
    else if same_value mode (str (lit "off"))
    then ok (str (lit "off"))
    else make_input (("hours", given "hours") ∷ []) args

-- `toInput` of `sys_mailalert`
unfoldable pub sys_mailalert_input : Args → Result Value
unfolding lookup
sys_mailalert_input args =
    let tokens = arg args "args" in
    ok (obj (field "args" (if is_missing tokens then arr nil else tokens) end))

abbrev pub sys_domainname : Entry
sys_domainname =
    typed_tool "sys_domainname" "sys" "cli.sys.domainname"
      "Set WAN domain-name suffix (sys domainname <wan1|wan2> <suffix>)"
      (record plain {
        args = some (("wan", one_of ("wan1" ∷ "wan2" ∷ [])) ∷ ("domain", safe_text 39) ∷ []);
        to_input = some (make_input (("wan", given "wan") ∷ ("value", given "domain") ∷ []));
      })

abbrev pub sys_autoreboot : Entry
sys_autoreboot =
    typed_tool "sys_autoreboot" "sys" "cli.sys.autoreboot"
      "Configure scheduled auto-restart (mode=hours requires hours param)"
      (record plain {
        args = some (
            ("mode", one_of ("off" ∷ "hours" ∷ [])) ∷ ("hours", optional (int_between 1 168)) ∷ []);
        to_input = some sys_autoreboot_input;
        partial = true;
      })

abbrev pub sys_mailalert : Entry
sys_mailalert =
    typed_tool "sys_mailalert" "sys" "cli.sys.mailalert"
      "Mail alert flags (e.g. args=[\"-e\",\"1\"]); empty args = bare command"
      (record plain {
        args = some (("args", optional (array (safe_text 255) [])) ∷ []);
        to_input = some sys_mailalert_input;
      })

abbrev pub sys_webhook : Entry
sys_webhook =
    typed_tool "sys_webhook" "sys" "cli.sys.webhook"
      "Webhook subcommands (enable|send|status|url|period …)"
      (record plain {
        args = some (
            (
              "args",
              refine cli_args (
                  of_texts
                    (starts_with_one_of ("enable" ∷ "send" ∷ "status" ∷ "url" ∷ "period" ∷ []))),
            )
            ∷ []);
        to_input = some (make_input (("args", given "args") ∷ []));
      })

abbrev pub sys_tr069 : Entry
sys_tr069 =
    typed_tool "sys_tr069" "sys" "cli.sys.tr069" "TR-069 subcommands (get|set|log|…)"
      (record plain {
        args = some (
            (
              "args",
              refine cli_args (
                  of_texts (
                    starts_with_one_of (
                      "get" ∷ "set" ∷ "getnoti" ∷ "setnoti" ∷ "log" ∷ "debug" ∷ "save" ∷ "clear"
                      ∷ "inform" ∷ "port" ∷ "cert_auth" ∷ "only_standard_parm" ∷ "notify" ∷ []))),
            )
            ∷ []);
        to_input = some (make_input (("args", given "args") ∷ []));
      })

abbrev pub sys_license : Entry
sys_license = typed_tool "sys_license" "sys" "cli.sys.license" "License subcommands" (record plain {
  args = some (
      (
        "args",
        refine cli_args (
            of_texts (
              starts_with_one_of (
                "reset_regser" ∷ "licera" ∷ "licifno" ∷ "licalias" ∷ "lic_trigger" ∷ "liclog"
                ∷ []))),
      )
      ∷ []);
  to_input = some (make_input (("args", given "args") ∷ []));
})

abbrev pub sys_family : FamilyEntries
sys_family = record {
  family = "sys";
  desc = "System-level commands (mix of read and write).";
  commands =
      typed_tool "sys_version" "sys" "cli.sys.version"
        "Router model, firmware version, IP, build date" plain
      ∷ typed_tool "sys_cmdlog" "sys" "cli.sys.cmdlog" "Command history" plain
      ∷ typed_tool "sys_cc" "sys" "cli.sys.cc" "Country / wireless region code" plain
      ∷ typed_tool "sys_qrybuf" "sys" "cli.sys.qrybuf" "Memory / buffer usage" plain
      ∷ typed_tool "sys_pollbuf" "sys" "cli.sys.pollbuf" "Poll buffer usage" plain
      ∷ typed_tool "sys_health" "sys" "cli.sys.health" "System health for one metric" plain
      ∷ typed_tool "sys_info" "sys" "cli.sys.info" "System information" plain
      ∷ typed_tool "sys_fr_log" "sys" "cli.sys.frlog" "Failure-related log" plain
      ∷ typed_tool "sys_max_session" "sys" "cli.sys.maxsession" "Maximum session configuration"
          plain
      ∷ typed_tool "sys_app_statistic" "sys" "cli.sys.appstatistic" "Application statistics" plain
      ∷ typed_tool "sys_app_bandwidth" "sys" "cli.sys.appbandwidth" "Application bandwidth usage"
          plain
      ∷ typed_tool "sys_time" "sys" "cli.sys.time" "System time" plain
      ∷ typed_tool "sys_dnsCacheTbl" "sys" "cli.sys.dnscachetbl" "DNS cache table" plain
      ∷ typed_tool "sys_dashboard" "sys" "cli.sys.dashboard" "Dashboard summary" plain
      ∷ typed_tool "sys_passwd" "sys" "cli.sys.passwd" "Change the admin password" (record plain {
        args = some (("old", no_control 255) ∷ ("new", no_control 83) ∷ []);
        to_input =
            some (make_input (("oldPassword", given "old") ∷ ("newPassword", given "new") ∷ []));
      })
      ∷ typed_tool "sys_name" "sys" "cli.sys.name"
          "Set WAN syslog identity name (sys name <wan1|wan2> <name>)"
          (record plain {
            args = some (("wan", one_of ("wan1" ∷ "wan2" ∷ [])) ∷ ("name", safe_text 20) ∷ []);
            to_input = some (make_input (("wan", given "wan") ∷ ("value", given "name") ∷ []));
          })
      ∷ sys_domainname
      ∷ typed_tool "sys_commit" "sys" "cli.sys.commit" "Save running settings (SRAM) to FLASH" plain
      ∷ typed_tool "sys_reboot" "sys" "cli.sys.reboot" "Restart the router immediately" plain
      ∷ sys_autoreboot
      ∷ typed_tool "sys_tftpd" "sys" "cli.sys.tftpd" "Toggle TFTP server (no on/off arg; UG toggle)"
          plain
      ∷ typed_tool "sys_syslog" "sys" "cli.sys.syslog" "Syslog setup (args start with -a 0|1)"
          (record plain {
            args = some (("args", refine cli_args (of_texts is_syslog)) ∷ []);
            to_input = some (make_input (("args", given "args") ∷ []));
          })
      ∷ sys_mailalert
      ∷ sys_webhook
      ∷ sys_tr069
      ∷ typed_tool "sys_alg" "sys" "cli.sys.alg" "Enable/disable ALG via -e 0|1" (record plain {
        args = some (("enabled", one_zero) ∷ []);
        to_input = some (make_input (("enabled", is_value "enabled" (num (lit "1"))) ∷ []));
      })
      ∷ sys_license
      ∷ [];
}
