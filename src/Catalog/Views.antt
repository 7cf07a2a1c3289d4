-- ===== src/Catalog/Views.antt =====
-- src/commands/registry/families/{show,log,fs,dpdk,nand,usb,object,radius,service,switch,apm,appqos,local_8021x}.ts: the status and diagnostics tools.
use vigor3912s_mcp.Common.{true, some, [], ◌∷◌, lit, ok}
use vigor3912s_mcp.Values.{num, str}
use vigor3912s_mcp.Zod.{number, int, positive, int_between, one_of}
use vigor3912s_mcp.Validators.{one_zero}
use vigor3912s_mcp.Catalog.Entries.{typed_tool, raw_read, raw_write, FamilyEntries, plain}
use vigor3912s_mcp.Catalog.Inputs.{fixed, is_value, make_input}

abbrev pub show_family : FamilyEntries
show_family = record {
  family = "show";
  desc = "Status and diagnostics views (read-only).";
  commands =
      raw_read "show_status" "show" "show status" "System uptime, LAN DNS, IP, per-WAN link status"
      ∷ raw_read "show_lan" "show" "show lan" "LAN/VLAN interfaces: IP, mask, DHCP pool, gateway"
      ∷ raw_read "show_dmz" "show" "show dmz" "DMZ host configuration"
      ∷ raw_read "show_dns" "show" "show dns" "DNS server settings per LAN"
      ∷ raw_read "show_openport" "show" "show openport" "Opened ports (NAT)"
      ∷ raw_read "show_nat" "show" "show nat" "NAT port redirection running table"
      ∷ raw_read "show_portmap" "show" "show portmap" "Port mapping table"
      ∷ raw_read "show_pmtime" "show" "show pmtime" "Port mapping timeout settings"
      ∷ raw_read "show_session" "show" "show session" "Session usage statistics"
      ∷ raw_read "show_traffic" "show" "show traffic" "Traffic statistics"
      ∷ raw_read "show_clienttraffic" "show" "show clienttraffic" "Per-client traffic statistics"
      ∷ raw_read "show_cpu" "show" "show cpu" "CPU usage"
      ∷ raw_read "show_memory" "show" "show memory" "Memory usage"
      ∷ raw_read "show_cocpu" "show" "show cocpu" "Co-processor usage"
      ∷ raw_read "show_cputemp" "show" "show cputemp" "CPU temperature"
      ∷ raw_read "show_statistic" "show" "show statistic" "Interface statistics"
      ∷ raw_read "show_flow" "show" "show flow" "Flow tracking view"
      ∷ raw_read "show_voip" "show" "show voip" "VoIP status"
      ∷ raw_read "show_qryrdsl" "show" "show qryrdsl" "Query ADSL/VDSL line info"
      ∷ [];
}

abbrev pub log_family : FamilyEntries
log_family = record {
  family = "log";
  desc = "Log viewing.";
  commands =
      raw_read "log_tail" "log" "log -t" "Display logs to the end"
      ∷ raw_read "log_call" "log" "log -c" "Call log"
      ∷ raw_read "log_filter" "log" "log -f" "IP filter log"
      ∷ raw_read "log_wan" "log" "log -w" "WAN log"
      ∷ raw_read "log_ppp" "log" "log -p" "PPP/MP log"
      ∷ [];
}

abbrev pub fs_family : FamilyEntries
fs_family = record {
  family = "fs";
  desc = "Router file system.";
  commands =
      raw_read "fs_ls" "fs" "fs ls" "List router file system"
      ∷ raw_read "fs_info" "fs" "fs info" "File system info"
      ∷ raw_read "fs_pwd" "fs" "fs pwd" "Print working directory"
      ∷ [];
}

abbrev pub dpdk_family : FamilyEntries
dpdk_family = record {
  family = "dpdk";
  desc = "DPDK (data plane) diagnostics.";
  commands =
      raw_read "dpdk_statistic" "dpdk" "dpdk statistic" "DPDK statistics"
      ∷ raw_read "dpdk_cmdlog" "dpdk" "dpdk cmdlog" "DPDK command log"
      ∷ [];
}

abbrev pub nand_family : FamilyEntries
nand_family = record {
  family = "nand";
  desc = "NAND storage diagnostics.";
  commands =
      typed_tool "nand_usage" "nand" "cli.nand.bad.nand.usage" "NAND storage usage" (record plain {
        args = some [];
        to_input = some (make_input (("action", fixed (str (lit "usage"))) ∷ []));
        partial = true;
      })
      ∷ typed_tool "nand_bad" "nand" "cli.nand.bad.nand.usage" "NAND bad blocks" (record plain {
        args = some [];
        to_input = some (make_input (("action", fixed (str (lit "bad"))) ∷ []));
        partial = true;
      })
      ∷ [];
}

abbrev pub usb_family : FamilyEntries
usb_family = record {
  family = "usb";
  desc = "USB storage.";
  commands =
      typed_tool "usb_devstat" "usb" "cli.usb.devstat" "USB device status" plain
      ∷ typed_tool "usb_temp" "usb" "cli.usb.temp" "USB temperature"
          (record plain { args = some (("action", one_of ("show" ∷ "allData" ∷ [])) ∷ []) })
      ∷ typed_tool "usb_disk" "usb" "cli.usb.disk" "USB disk info" plain
      ∷ [];
}

abbrev pub object_family : FamilyEntries
object_family = record {
  family = "object";
  desc = "Objects (IP/service/keyword groups).";
  commands =
      typed_tool "object_ip_view" "object" "cli.object.ip.obj" "IP objects view"
        (record plain { args = some (("index", int_between 1 255) ∷ []) })
      ∷ typed_tool "object_service_view" "object" "cli.object.service.obj" "Service objects view"
          (record plain { args = some (("index", int_between 1 255) ∷ []) })
      ∷ [];
}

abbrev pub radius_family : FamilyEntries
radius_family = record {
  family = "radius";
  desc = "RADIUS AAA.";
  commands =
      raw_read "radius_show" "radius" "radius show" "RADIUS configuration"
      ∷ raw_read "radius_show_local_cer" "radius" "radius show_local_cer"
          "RADIUS local certificates"
      ∷ [];
}

abbrev pub service_family : FamilyEntries
service_family = record {
  family = "service";
  desc = "MyVigor service.";
  commands =
      typed_tool "service_show" "service" "cli.service" "MyVigor service status" plain
      ∷ raw_read "service_get" "service" "service get" "MyVigor service data"
      ∷ [];
}

abbrev pub switch_family : FamilyEntries
switch_family = record {
  family = "switch";
  desc = "Switch management.";
  commands =
      raw_read "switch_status" "switch" "switch status" "Switch status"
      ∷ raw_read "switch_list" "switch" "switch list" "Switch port list"
      ∷ raw_read "switch_query" "switch" "switch query" "Switch query"
      ∷ raw_write "switch_on" "switch" (λ args. ok (lit "switch on")) []
          "Enable switch (UG: switch on)"
      ∷ raw_write "switch_off" "switch" (λ args. ok (lit "switch off")) []
          "Disable switch (UG: switch off)"
      ∷ [];
}

abbrev pub apm_family : FamilyEntries
apm_family = record {
  family = "apm";
  desc = "AP management.";
  commands =
      typed_tool "apm_show" "apm" "cli.apm.show" "AP management status" plain
      ∷ typed_tool "apm_query" "apm" "cli.apm.query" "AP query" plain
      ∷ typed_tool "apm_stanum" "apm" "cli.apm.stanum" "AP station number"
          (record plain { args = some (("apIndex", number (int ∷ positive ∷ [])) ∷ []) })
      ∷ typed_tool "apm_enable" "apm" "cli.apm.enable" "Enable AP management" plain
      ∷ typed_tool "apm_disable" "apm" "cli.apm.disable" "Disable AP management" plain
      ∷ [];
}

abbrev pub appqos_family : FamilyEntries
appqos_family = record {
  family = "appqos";
  desc = "Application QoS.";
  commands =
      typed_tool "appqos_view" "appqos" "cli.appqos.view" "APP QoS profile view" plain
      ∷ typed_tool "appqos_enable" "appqos" "cli.appqos.enable" "Enable/disable APP QoS"
          (record plain {
            args = some (("mode", one_zero) ∷ []);
            to_input = some (make_input (("enabled", is_value "mode" (num (lit "1"))) ∷ []));
          })
      ∷ [];
}

abbrev pub local_8021x_family : FamilyEntries
local_8021x_family = record {
  family = "local_8021x";
  desc = "Local 802.1X.";
  commands =
      typed_tool "local8021x_show" "local_8021x" "cli.local8021x" "Local 802.1X configuration" plain
      ∷ raw_read "local8021x_show_local_cer" "local_8021x" "local_8021x show_local_cer"
          "Local 802.1X certificates"
      ∷ [];
}
