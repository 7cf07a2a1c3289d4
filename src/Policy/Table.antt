-- ===== src/Policy/Table.antt =====
-- src/commands/tool-policy.ts: the two tables.
use vigor3912s_mcp.Common.{String, Bool, true, false, Option, none, some, List, [], ◌∷◌}
use vigor3912s_mcp.Registry.{ConfirmTier, dual}

pub record WritePolicy : Type 0 where
  pub confirm : Option ConfirmTier
  pub affects_network : Bool
  pub secret_args : List String
  pub snapshot_read : Option String
  pub skip_commit : Bool

-- The tools whose output may hold credentials.
abbrev pub read_policy : List String
read_policy =
    "ddns_show" ∷ "ddns_show_all" ∷ "radius_show" ∷ "radius_external_view"
    ∷ "radius_external_viewprofile" ∷ "ldap_view" ∷ "tacacsplus_view" ∷ "vpn_wg_show"
    ∷ "usb_user_list" ∷ "csm_appe_config" ∷ "ip_ospf_cfg_show" ∷ "mngt_rmtcfg_status"
    ∷ "sys_cfg_status" ∷ []

-- A row of the table: tier, network flag, secret arguments, snapshot read, commit flag.
abbrev policy : Option ConfirmTier → Bool → List String → Option String → Bool → WritePolicy
policy tier network secrets snapshot skip = record {
  confirm = tier;
  affects_network = network;
  secret_args = secrets;
  snapshot_read = snapshot;
  skip_commit = skip;
}

abbrev pub write_policy : List (String × WritePolicy)
write_policy =
    ("sys_passwd", policy (some dual) false ("old" ∷ "new" ∷ []) none false)
    ∷ ("sys_commit", policy none false [] none true)
    ∷ ("sys_reboot", policy (some dual) true [] none true)
    ∷ ("sys_tftpd", policy (some dual) false [] none false)
    ∷ ("wan_enable", policy (some dual) true [] (some "wan_status") false)
    ∷ ("wan_disable", policy (some dual) true [] (some "wan_status") false)
    ∷ ("dhcp_on", policy (some dual) true [] none false)
    ∷ ("dhcp_off", policy (some dual) true [] none false)
    ∷ ("dhcp_startip", policy none true [] (some "dhcp_status") false)
    ∷ ("dhcp_gateway", policy none true [] (some "dhcp_status") false)
    ∷ ("nat_dmz", policy (some dual) true [] (some "show_dmz") false)
    ∷ ("ip_addr", policy (some dual) true [] (some "show_lan") false)
    ∷ ("ip_nmask", policy (some dual) true [] (some "show_lan") false)
    ∷ ("ip_route_add", policy none true [] (some "ip_route_status") false)
    ∷ ("ip_route_del", policy none true [] (some "ip_route_status") false)
    ∷ ("ip_bgp", policy none false ("key" ∷ []) none false)
    ∷ ("mngt_sshport", policy (some dual) false [] none false)
    ∷ ("mngt_telnetport", policy (some dual) false [] none false)
    ∷ ("mngt_httpport", policy (some dual) false [] none false)
    ∷ ("mngt_httpsport", policy (some dual) false [] none false)
    ∷ ("mngt_bfp", policy (some dual) false [] none false)
    ∷ ("linux_setlinuxip", policy (some dual) true ("password" ∷ []) none false)
    ∷ ("sdk_linux_setlinuxip", policy none false ("password" ∷ []) none false)
    ∷ ("port_speed", policy none true [] none false)
    ∷ ("ipf_set", policy (some dual) false [] none false)
    ∷ ("ipf_rule", policy (some dual) false [] none false)
    ∷ ("ipf_flowtrack_set", policy (some dual) false [] none false)
    ∷ ("swm_group", policy none false ("password" ∷ []) none false)
    ∷ ("swm_detail", policy none false ("password" ∷ []) none false)
    ∷ ("swm_maintain", policy (some dual) false [] none false)
    ∷ ("hsportal_setup", policy none false ("appKey" ∷ "appId" ∷ []) none false)
    ∷ ("ldap_set", policy none false ("value" ∷ []) none false)
    ∷ ("tacacsplus_set", policy none false ("secret" ∷ []) none false)
    ∷ ("ddns_set", policy none false ("password" ∷ []) none false)
    ∷ ("ddns_set_update", policy none false ("password" ∷ []) none false)
    ∷ ("mngt_certimport", policy none false ("password" ∷ []) none false)
    ∷ ("radius_client_add", policy none false ("secret" ∷ []) none false)
    ∷ ("service_login", policy none false ("password" ∷ []) none false)
    ∷ ("sys_adminuser", policy none false ("password" ∷ []) none false)
    ∷ ("vpn_setup", policy none true ("param" ∷ []) none false)
    ∷ ("vpn_ovpn", policy none true ("param" ∷ []) none false)
    ∷ ("vpn_wg_keyset", policy (some dual) false ("privateKey" ∷ []) none false)
    ∷ ("vpn_dial_out", policy none true [] none false)
    ∷ ("qos_setup", policy none true [] none false)
    ∷ ("qos_class", policy none true [] none false)
    ∷ ("qos_type", policy none true [] none false)
    ∷ ("qos_voip", policy none true [] none false)
    ∷ ("dos_activate", policy none true [] none false)
    ∷ ("dos_deactivate", policy (some dual) true [] none false)
    ∷ ("internet_set", policy (some dual) true ("password" ∷ []) none false)
    ∷ ("internet", policy none false ("password" ∷ []) none false)
    ∷ ("ip6_internet", policy none false ("password" ∷ []) none false)
    ∷ ("ha_set", policy (some dual) true [] none false)
    ∷ ("vrrp_enable", policy (some dual) true [] none false)
    ∷ ("vrrp_set", policy none true [] none false)
    ∷ ("vigbrg_set", policy none true [] none false)
    ∷ ("vlan_on", policy (some dual) true [] (some "vlan_status") false)
    ∷ ("vlan_off", policy (some dual) true [] (some "vlan_status") false)
    ∷ ("vlan_group", policy none true [] (some "vlan_status") false)
    ∷ ("upnp_on", policy none true [] none false)
    ∷ ("upnp_off", policy none true [] none false)
    ∷ ("wol_send", policy none false [] none true)
    ∷ ("testmail_send", policy none false [] none true)
    ∷ ("user_account", policy (some dual) false ("param" ∷ "userName" ∷ []) none false)
    ∷ ("user_edit", policy none false ("param" ∷ []) none false)
    ∷ ("user_set", policy none false ("param" ∷ []) none false)
    ∷ ("user", policy none false ("param" ∷ "userName" ∷ []) none false)
    ∷ ("user_setdefault", policy (some dual) false [] none false)
    ∷ ("msubnet_switch", policy (some dual) true [] none false)
    ∷ ("ip6_addr", policy none true [] none false)
    ∷ ("portmaptime_flush", policy none true [] none false)
    ∷ []
