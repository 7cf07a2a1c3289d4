-- ===== src/Catalog/Switches.antt =====
-- The curated tools that switch on one of their arguments.
use vigor3912s_mcp.Common.{List, [], ◌∷◌}
use vigor3912s_mcp.Catalog.Inputs.{Switch}
use vigor3912s_mcp.Catalog.Access.{hsportal_setup_switch}
use vigor3912s_mcp.Catalog.Filters.{ipf_set_switch, ipf_rule_switch}
use vigor3912s_mcp.Catalog.Directory.{ldap_set_switch, ldap_user_switch, tacacsplus_set_switch}
use vigor3912s_mcp.Catalog.Qos.{qos_class_switch}
use vigor3912s_mcp.Catalog.Swm.Devices.{
  swm_group_switch, swm_profile_switch, swm_detail_switch, swm_maintain_switch,
}
use vigor3912s_mcp.Catalog.Swm.Alerts.{swm_search_switch, swm_db_switch, swm_alert_switch}
use vigor3912s_mcp.Catalog.Swm.Logs.{swm_log_switch, swm_snmp_switch}
use vigor3912s_mcp.Catalog.Csm.Content.{csm_appe_set_switch, csm_ucf_switch, csm_wcf_switch}
use vigor3912s_mcp.Catalog.Csm.Dns.{csm_dnsf_switch}

abbrev pub switches : List Switch
switches =
    hsportal_setup_switch ∷ ipf_set_switch ∷ ipf_rule_switch ∷ ldap_set_switch ∷ ldap_user_switch
    ∷ tacacsplus_set_switch ∷ qos_class_switch ∷ swm_group_switch ∷ swm_profile_switch
    ∷ swm_detail_switch ∷ swm_maintain_switch ∷ swm_search_switch ∷ swm_db_switch ∷ swm_alert_switch
    ∷ swm_log_switch ∷ swm_snmp_switch ∷ csm_appe_set_switch ∷ csm_ucf_switch ∷ csm_wcf_switch
    ∷ csm_dnsf_switch ∷ []
