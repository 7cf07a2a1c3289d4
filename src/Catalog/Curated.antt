-- ===== src/Catalog/Curated.antt =====
-- src/commands/registry/index.ts: the list of the curated families.
use vigor3912s_mcp.Common.{List, [], ◌∷◌}
use vigor3912s_mcp.Catalog.Entries.{FamilyEntries}
use vigor3912s_mcp.Catalog.Views.{
  show_family, switch_family, apm_family, dpdk_family, nand_family, usb_family, log_family,
  fs_family, object_family, radius_family, local_8021x_family, appqos_family, service_family,
}
use vigor3912s_mcp.Catalog.Sys.{sys_family}
use vigor3912s_mcp.Catalog.Wan.{wan_family}
use vigor3912s_mcp.Catalog.Lan.{srv_family, ip_family, msubnet_family, ip6_family}
use vigor3912s_mcp.Catalog.Mngt.{mngt_family}
use vigor3912s_mcp.Catalog.Services.{
  linux_family, ddns_family, vpn_family, dos_family, upnp_family, testmail_family,
}
use vigor3912s_mcp.Catalog.Ports.{
  port_family, vigbrg_family, vlan_family, wol_family, portmaptime_family,
}
use vigor3912s_mcp.Catalog.Filters.{ipf_family}
use vigor3912s_mcp.Catalog.Qos.{qos_family}
use vigor3912s_mcp.Catalog.Access.{
  internet_family, ha_family, vrrp_family, hsportal_family, user_family,
}
use vigor3912s_mcp.Catalog.Csm.{csm_family}
use vigor3912s_mcp.Catalog.Directory.{ldap_family, tacacsplus_family}
use vigor3912s_mcp.Catalog.Swm.{swm_family}

-- `CURATED_REGISTRY`
abbrev pub curated_registry : List FamilyEntries
curated_registry =
    show_family ∷ sys_family ∷ wan_family ∷ srv_family ∷ ip_family ∷ mngt_family ∷ linux_family
    ∷ port_family ∷ ddns_family ∷ ipf_family ∷ vpn_family ∷ qos_family ∷ dos_family
    ∷ internet_family ∷ ha_family ∷ vrrp_family ∷ vigbrg_family ∷ vlan_family ∷ switch_family
    ∷ apm_family ∷ dpdk_family ∷ nand_family ∷ usb_family ∷ hsportal_family ∷ log_family ∷ fs_family
    ∷ object_family ∷ radius_family ∷ local_8021x_family ∷ user_family ∷ upnp_family ∷ wol_family
    ∷ appqos_family ∷ service_family ∷ csm_family ∷ msubnet_family ∷ testmail_family ∷ ip6_family
    ∷ ldap_family ∷ tacacsplus_family ∷ portmaptime_family ∷ swm_family ∷ []
