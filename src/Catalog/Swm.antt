-- ===== src/Catalog/Swm.antt =====
-- src/commands/registry/families/swm.ts: the switch and access point management tools.
mod Schemas
pub mod Devices
pub mod Alerts
pub mod Logs
use vigor3912s_mcp.Common.{
  ℕ, ◌+◌, ◌-◌, String, Bool, true, false, not, ◌&&◌, ◌||◌, Option, none, some, List, [], ◌∷◌, ◌++◌,
  Text, lit, map, join, if◌then◌else◌, eqb, text_eq, get_or, lookup, any, all, Result, ok, err,
  ◌>>=◌,
}
use vigor3912s_mcp.Values.{
  Value, undefined, null, bool, num, str, arr, obj, Items, nil, cons, Fields, end, field, item,
  Args, arg,
}
use vigor3912s_mcp.Zod.{
  Zod, string, number, boolean, literal, array, optional, refine, int, positive, least, most, pos,
  negsuc, shortest, regex, int_between, one_of, one_of_numbers, of_text, of_texts,
}
use vigor3912s_mcp.Validators.{
  ipv4, ipv6, ipv4_mask, wan_idx, on_off, one_zero, mac_colon, no_control, safe_text, hex_digits,
}
use vigor3912s_mcp.Catalog.Entries.{Entry, typed_tool, raw_read, raw_write, FamilyEntries, plain}
use vigor3912s_mcp.Catalog.Inputs.{
  Switch, given, needed, needed_or, fixed, is_value, kept, kept_is, is_missing, same_value, thrown,
  build_fields, make_input, switch_input,
}
use vigor3912s_mcp.Catalog.Schemas.{
  has_no_space, has_no_quote, is_wan_name, is_port_range, is_syslog, starts_with_one_of,
  flags_among,
}
use vigor3912s_mcp.Catalog.Swm.Schemas.{swm_mac, swm_token}
use vigor3912s_mcp.Catalog.Swm.Devices.{swm_group, swm_profile, swm_detail, swm_maintain}
use vigor3912s_mcp.Catalog.Swm.Alerts.{swm_search, swm_db, swm_alert}
use vigor3912s_mcp.Catalog.Swm.Logs.{swm_log, swm_snmp}

abbrev items_of : Items → List Text
unfolding item
items_of nil = []
items_of (cons v vs) = item v ∷ items_of vs

-- The text of `swm_tr069`; a value without `join` is an error of the runtime.
unfoldable pub tr069_text : Args → Result Text
unfolding join item lit lookup
tr069_text args = elim (arg args "args") [
  | arr tokens ↦ ok (lit "swm tr069 " ++ join (lit " ") (items_of tokens))
  | undefined ↦ thrown (lit "Cannot read properties of undefined (reading 'join')")
  | null ↦ thrown (lit "Cannot read properties of null (reading 'join')")
  | _ ↦ thrown (lit "a.args.join is not a function")
]

abbrev pub swm_family : FamilyEntries
swm_family = record {
  family = "swm";
  desc = "Switch/AP management service.";
  commands =
      typed_tool "swm_show" "swm" "cli.swm.show" "Switch management status" plain
      ∷ typed_tool "swm_get" "swm" "cli.swm.get" "Switch management data" plain
      ∷ typed_tool "swm_enable" "swm" "cli.swm.enable.disable" "Enable switch management"
          (record plain {
            args = some [];
            to_input = some (make_input (("action", fixed (str (lit "enable"))) ∷ []));
            partial = true;
          })
      ∷ typed_tool "swm_disable" "swm" "cli.swm.enable.disable" "Disable switch management"
          (record plain {
            args = some [];
            to_input = some (make_input (("action", fixed (str (lit "disable"))) ∷ []));
            partial = true;
          })
      ∷ typed_tool "swm_post" "swm" "cli.swm.post"
          "Push config to switch by MAC (swm post <12-hex-mac>)"
          (record plain {
            args = some (("mac", swm_mac) ∷ []);
            to_input = some (make_input (("mac", given "mac") ∷ []));
          })
      ∷ swm_group
      ∷ swm_profile
      ∷ swm_detail
      ∷ swm_maintain
      ∷ swm_search
      ∷ swm_db
      ∷ swm_alert
      ∷ swm_log
      ∷ swm_snmp
      ∷ raw_write "swm_tr069" "swm" tr069_text
          (("args", array (safe_text 255) (shortest 1 ∷ [])) ∷ [])
          "Switch TR-069 (no SDK TypedOperation — token args after swm tr069)"
      ∷ [];
}
