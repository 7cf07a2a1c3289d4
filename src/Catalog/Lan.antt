-- ===== src/Catalog/Lan.antt =====
-- src/commands/registry/families/{ip,ip6,srv,msubnet}.ts: the addressing tools.
use vigor3912s_mcp.Common.{true, some, [], ◌∷◌, lit}
use vigor3912s_mcp.Values.{str}
use vigor3912s_mcp.Zod.{int_between, one_of}
use vigor3912s_mcp.Validators.{ipv4, ipv6, ipv4_mask, on_off}
use vigor3912s_mcp.Catalog.Entries.{Entry, typed_tool, FamilyEntries, plain}
use vigor3912s_mcp.Catalog.Inputs.{given, fixed, is_value, make_input}

abbrev pub ip_family : FamilyEntries
ip_family = record {
  family = "ip";
  desc = "IP, routing, ARP, diagnostics.";
  commands =
      typed_tool "ip_route_status" "ip" "cli.ip.route" "Routing table (connected/static/default)"
        plain
      ∷ typed_tool "ip_arp_status" "ip" "cli.ip.arp" "ARP table" (record plain {
        args = some [];
        to_input = some (make_input (("action", fixed (str (lit "status"))) ∷ []));
        partial = true;
      })
      ∷ typed_tool "ip_ping" "ip" "cli.ip.ping" "Ping an IPv4 host (5 packets)" (record plain {
        args = some (("host", ipv4) ∷ []);
        to_input = some (make_input (("targetIp", given "host") ∷ []));
        partial = true;
      })
      ∷ typed_tool "ip_tracert" "ip" "cli.ip.tracert" "Traceroute to an IPv4 host" (record plain {
        args = some (("host", ipv4) ∷ []);
        to_input = some (make_input (("targetIp", given "host") ∷ []));
        partial = true;
        timeout_ms = some 60000;
      })
      ∷ typed_tool "ip_session" "ip" "cli.ip.session" "IP session table" plain
      ∷ typed_tool "ip_dnsforward" "ip" "cli.ip.dnsforward" "DNS forward table" plain
      ∷ typed_tool "ip_lanDNSRes" "ip" "cli.ip.landnsres" "LAN DNS resolution cache" plain
      ∷ typed_tool "ip_addr" "ip" "cli.ip.addr" "Set LAN IP" (record plain {
        args = some (("lan", int_between 1 8) ∷ ("ip", ipv4) ∷ []);
        to_input = some (make_input (("ipv4Address", given "ip") ∷ []));
      })
      ∷ typed_tool "ip_nmask" "ip" "cli.ip.nmask" "Set LAN netmask" (record plain {
        args = some (("lan", int_between 1 8) ∷ ("mask", ipv4_mask) ∷ []);
        to_input = some (make_input (("netmask", given "mask") ∷ []));
      })
      ∷ typed_tool "ip_route_add" "ip" "cli.ip.route.add" "Add a static route" plain
      ∷ typed_tool "ip_route_del" "ip" "cli.ip.route.del" "Delete a static route" plain
      ∷ typed_tool "ip_bindmac" "ip" "cli.ip.bindmac" "Bind IP to MAC address" plain
      ∷ [];
}

abbrev pub ip6_mngt : Entry
ip6_mngt =
    typed_tool "ip6_mngt" "ip6" "cli.ip6.mngt" "Enable/disable IPv6 management for a protocol"
      (record plain {
        args = some (
            ("proto", one_of ("http" ∷ "https" ∷ "telnet" ∷ "ping" ∷ "ssh" ∷ []))
            ∷ ("onoff", on_off)
            ∷ []);
        to_input = some (
            make_input (
              ("action", fixed (str (lit "service")))
              ∷ ("service", given "proto")
              ∷ ("enabled", is_value "onoff" (str (lit "on")))
              ∷ []));
        partial = true;
      })

abbrev pub ip6_family : FamilyEntries
ip6_family = record {
  family = "ip6";
  desc = "IPv6 addressing and diagnostics.";
  commands =
      typed_tool "ip6_ping" "ip6" "cli.ip6.ping" "Ping an IPv6 host" (record plain {
        args = some (("host", ipv6) ∷ []);
        to_input = some (make_input (("target", given "host") ∷ []));
        partial = true;
      })
      ∷ typed_tool "ip6_tracert" "ip6" "cli.ip6.tracert" "Traceroute to an IPv6 host"
          (record plain {
            args = some (("host", ipv6) ∷ []);
            to_input = some (make_input (("target", given "host") ∷ []));
            partial = true;
            timeout_ms = some 60000;
          })
      ∷ typed_tool "ip6_addr" "ip6" "cli.ip6.addr" "Configure IPv6 address" plain
      ∷ ip6_mngt
      ∷ [];
}

abbrev pub srv_family : FamilyEntries
srv_family = record {
  family = "srv";
  desc = "DHCP and NAT services.";
  commands =
      typed_tool "dhcp_status" "srv" "cli.srv.dhcp.status"
        "DHCP server status + lease/reservation table"
        (record plain { args = some []; to_input = some (make_input []); partial = true })
      ∷ typed_tool "nat_view" "srv" "cli.srv.nat.view" "NAT configuration view" plain
      ∷ typed_tool "dhcp_on" "srv" "cli.srv.dhcp.on" "Enable DHCP server (requires reboot to apply)"
          plain
      ∷ typed_tool "dhcp_off" "srv" "cli.srv.dhcp.off"
          "Disable DHCP server (requires reboot to apply)" plain
      ∷ typed_tool "dhcp_startip" "srv" "cli.srv.dhcp.startip" "Set DHCP start IP and pool count"
          (record plain {
            args =
                some
                  (("lan", int_between 1 8) ∷ ("start", ipv4) ∷ ("count", int_between 1 254) ∷ []);
            to_input = some (make_input (("startIp", given "start") ∷ []));
          })
      ∷ typed_tool "dhcp_gateway" "srv" "cli.srv.dhcp.gateway" "Set DHCP pool gateway"
          (record plain {
            args = some (("lan", int_between 1 8) ∷ ("gateway", ipv4) ∷ []);
            to_input = some (make_input (("gatewayIp", given "gateway") ∷ []));
          })
      ∷ typed_tool "dhcp_dns1" "srv" "cli.srv.dhcp.dns1" "Set DHCP primary DNS" (record plain {
        args = some (("lan", int_between 1 8) ∷ ("dns", ipv4) ∷ []);
        to_input = some (make_input (("lan", given "lan") ∷ ("dnsIp", given "dns") ∷ []));
      })
      ∷ typed_tool "dhcp_dns2" "srv" "cli.srv.dhcp.dns2" "Set DHCP secondary DNS" (record plain {
        args = some (("lan", int_between 1 8) ∷ ("dns", ipv4) ∷ []);
        to_input = some (make_input (("lan", given "lan") ∷ ("dnsIp", given "dns") ∷ []));
      })
      ∷ typed_tool "dhcp_leasetime" "srv" "cli.srv.dhcp.leasetime" "Set DHCP lease time"
          (record plain {
            args = some (("lan", int_between 1 8) ∷ ("seconds", int_between 120 604800) ∷ []);
            to_input = some (make_input (("leaseTimeSeconds", given "seconds") ∷ []));
          })
      ∷ typed_tool "nat_dmz" "srv" "cli.srv.nat.dmz" "Configure DMZ mapping" plain
      ∷ [];
}

abbrev pub msubnet_family : FamilyEntries
msubnet_family = record {
  family = "msubnet";
  desc = "Multi-subnet LAN.";
  commands =
      typed_tool "msubnet_status" "msubnet" "cli.msubnet.status" "Multi-subnet status" plain
      ∷ typed_tool "msubnet_switch" "msubnet" "cli.msubnet.switch" "Enable/disable multi-subnet"
          plain
      ∷ [];
}
