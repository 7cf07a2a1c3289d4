-- ===== src/Catalog/Services.antt =====
-- src/commands/registry/families/{dos,upnp,testmail,ddns,linux,vpn}.ts: the tools of the router services.
use vigor3912s_mcp.Common.{true, some, [], ◌∷◌, lit, ok}
use vigor3912s_mcp.Values.{str}
use vigor3912s_mcp.Zod.{int_between}
use vigor3912s_mcp.Validators.{ipv4, on_off, safe_text}
use vigor3912s_mcp.Catalog.Entries.{Entry, typed_tool, raw_read, raw_write, FamilyEntries, plain}
use vigor3912s_mcp.Catalog.Inputs.{given, is_value, make_input}

abbrev pub dos_family : FamilyEntries
dos_family = record {
  family = "dos";
  desc = "DoS defense.";
  commands =
      raw_read "dos_view" "dos" "dos -V" "View DoS defense configuration"
      ∷ raw_read "dos_blacklist_show" "dos" "dos -B show" "Show DoS blocking list"
      ∷ raw_read "dos_whitelist_show" "dos" "dos -P show" "Show DoS passing (white) list"
      ∷ raw_write "dos_activate" "dos" (λ args. ok (lit "dos -A")) [] "Activate DoS defense system"
      ∷ raw_write "dos_deactivate" "dos" (λ args. ok (lit "dos -D")) []
          "Deactivate DoS defense system"
      ∷ [];
}

abbrev pub upnp_family : FamilyEntries
upnp_family = record {
  family = "upnp";
  desc = "UPnP.";
  commands =
      raw_write "upnp_on" "upnp" (λ args. ok (lit "upnp on")) [] "Enable UPnP"
      ∷ raw_write "upnp_off" "upnp" (λ args. ok (lit "upnp off")) [] "Disable UPnP"
      ∷ raw_read "upnp_nat" "upnp" "upnp nat" "UPnP NAT view"
      ∷ [];
}

abbrev pub testmail_family : FamilyEntries
testmail_family = record {
  family = "testmail";
  desc = "Mail alert test.";
  commands =
      raw_write "testmail_send" "testmail" (λ args. ok (lit "testmail")) [] "Send a test mail" ∷ [];
}

abbrev pub ddns_family : FamilyEntries
ddns_family = record {
  family = "ddns";
  desc = "Dynamic DNS.";
  commands =
      typed_tool "ddns_show" "ddns" "cli.ddns.show" "DDNS configuration" plain
      ∷ typed_tool "ddns_log" "ddns" "cli.ddns.log" "DDNS log" plain
      ∷ typed_tool "ddns_enable" "ddns" "cli.ddns.enable" "Enable/disable DDNS" (record plain {
        args = some (("onoff", on_off) ∷ []);
        to_input = some (make_input (("enabled", is_value "onoff" (str (lit "on"))) ∷ []));
      })
      ∷ typed_tool "ddns_forceupdate" "ddns" "cli.ddns.forceupdate" "Force DDNS update" plain
      ∷ [];
}

abbrev pub linux_setlinuxip : Entry
linux_setlinuxip =
    typed_tool "linux_setlinuxip" "linux" "cli.linux.setlinuxip"
      "Set Linux app IP (first time; reboot to apply)"
      (record plain {
        args = some (("ip", ipv4) ∷ ("cidr", int_between 1 30) ∷ ("gateway", ipv4) ∷ []);
        to_input = some (
            make_input
              (("ip", given "ip") ∷ ("cidr", given "cidr") ∷ ("gateway", given "gateway") ∷ []));
        partial = true;
      })

abbrev pub linux_family : FamilyEntries
linux_family = record {
  family = "linux";
  desc = "3912S Linux application (Ubuntu container) management.";
  commands =
      typed_tool "linux_status" "linux" "cli.linux.status" "Linux application status" plain
      ∷ typed_tool "linux_ssh_enable" "linux" "cli.linux.service.ssh.enable"
          "Enable SSH service to the Linux environment" plain
      ∷ typed_tool "linux_ssh_disable" "linux" "cli.linux.service.ssh.disable"
          "Disable SSH service to the Linux environment" plain
      ∷ typed_tool "linux_ssh_port" "linux" "cli.linux.service.ssh.setport"
          "Set SSH port for the Linux environment"
          (record plain { args = some (("port", int_between 1 65535) ∷ []) })
      ∷ linux_setlinuxip
      ∷ [];
}

abbrev pub vpn_setup : Entry
vpn_setup =
    typed_tool "vpn_setup" "vpn" "cli.vpn.setup"
      "Configure a VPN profile (SDK cli.vpn.setup; param is trailing syntax)"
      (record plain { args = some (("index", int_between 1 128) ∷ ("param", safe_text 255) ∷ []) })

abbrev pub vpn_dial_out : Entry
vpn_dial_out =
    typed_tool "vpn_dial_out" "vpn" "cli.vpn.dialout"
      "VPN dial-out (SDK cli.vpn.dialout; param is trailing syntax)"
      (record plain {
        args = some (("param", safe_text 255) ∷ []);
        to_input = some (make_input (("param", given "param") ∷ []));
      })

abbrev pub vpn_family : FamilyEntries
vpn_family = record {
  family = "vpn";
  desc = "VPN configuration (mostly write).";
  commands =
      typed_tool "vpn_list" "vpn" "cli.vpn.list" "VPN profile list" plain
      ∷ typed_tool "vpn_remote" "vpn" "cli.vpn.remote" "Remote VPN users" plain
      ∷ typed_tool "vpn_graph" "vpn" "cli.vpn.graph" "VPN graph status" plain
      ∷ vpn_setup
      ∷ typed_tool "vpn_ovpn" "vpn" "cli.vpn.ovpn"
          "OpenVPN configuration (SDK cli.vpn.ovpn; param is trailing syntax)"
          (record plain { args = some (("param", safe_text 255) ∷ []) })
      ∷ vpn_dial_out
      ∷ [];
}
