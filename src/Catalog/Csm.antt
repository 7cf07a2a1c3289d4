-- ===== src/Catalog/Csm.antt =====
-- src/commands/registry/families/csm.ts: the content security tools.
pub mod Content
pub mod Dns
use vigor3912s_mcp.Common.{
  ℕ, ◌+◌, ◌-◌, String, Bool, true, false, not, ◌&&◌, ◌||◌, Option, none, some, List, [], ◌∷◌, ◌++◌,
  Text, lit, map, join, if◌then◌else◌, eqb, text_eq, get_or, lookup, any, all, Result, ok, err,
  ◌>>=◌,
}
use vigor3912s_mcp.Values.{
  Value, undefined, null, bool, num, str, arr, obj, Items, nil, cons, Fields, end, field, item,
  Args, arg,
}
use vigor3912s_mcp.Zod.{
  Zod, string, number, boolean, literal, array, optional, refine, int, positive, least, most, pos,
  negsuc, shortest, regex, int_between, one_of, one_of_numbers, of_text, of_texts,
}
use vigor3912s_mcp.Validators.{
  ipv4, ipv6, ipv4_mask, wan_idx, on_off, one_zero, mac_colon, no_control, safe_text, hex_digits,
}
use vigor3912s_mcp.Catalog.Entries.{Entry, typed_tool, raw_read, raw_write, FamilyEntries, plain}
use vigor3912s_mcp.Catalog.Inputs.{
  Switch, given, needed, needed_or, fixed, is_value, kept, kept_is, is_missing, same_value, thrown,
  build_fields, make_input, switch_input,
}
use vigor3912s_mcp.Catalog.Schemas.{
  has_no_space, has_no_quote, is_wan_name, is_port_range, is_syslog, starts_with_one_of,
  flags_among,
}
use vigor3912s_mcp.Catalog.Csm.Content.{csm_appe_set, csm_ucf, csm_wcf}
use vigor3912s_mcp.Catalog.Csm.Dns.{csm_dnsf}

abbrev pub csm_family : FamilyEntries
csm_family = record {
  family = "csm";
  desc = "Content security management.";
  commands =
      typed_tool "csm_appe_show" "csm" "cli.csm.appe.show"
        "APP enforcement profile view (optional group filter)"
        (record plain {
          args = some (
              ("group", optional (one_of ("all" ∷ "im" ∷ "p2p" ∷ "protocol" ∷ "others" ∷ [])))
              ∷ []);
          to_input = some (make_input (("group", given "group") ∷ []));
        })
      ∷ csm_appe_set
      ∷ csm_ucf
      ∷ csm_wcf
      ∷ csm_dnsf
      ∷ [];
}
