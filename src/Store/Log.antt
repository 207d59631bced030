-- ===== src/Store/Log.antt =====
-- `AuditService.log` and the lookup of a row by its id.
use zex_platform.Base.{Text, text_eq, suc, Bool, true, Option, none, ◌∷◌, ◌&&◌}
use zex_platform.Base.Effects.{ok}
use zex_platform.Json.{Fields}
use zex_platform.Store.Rows.{AuditLog}
use zex_platform.Store.Data.{Action, Env}

-- What a caller of `log` gives; the row adds its id.
pub record Entry : Type 0 where
  pub tenant : Text
  pub action : Text
  pub resource_type : Text
  pub resource_id : Text
  pub before : Option Fields
  pub after : Option Fields
  pub triggered_by : Text
  pub success : Bool
  pub message : Option Text

abbrev pub entry_row : Text → Entry → AuditLog
entry_row id e = record {
  id = id;
  tenant = e.tenant;
  action = e.action;
  resource_type = e.resource_type;
  resource_id = e.resource_id;
  before = e.before;
  after = e.after;
  triggered_by = e.triggered_by;
  success = e.success;
  message = e.message;
}

unfoldable pub log : Env → Entry → Action Text
log env e db = (
  ok (env.cuid db.next_row),
  record db { next_row = suc db.next_row; audit = entry_row (env.cuid db.next_row) e ∷ db.audit },
)

-- A successful step with no more to say.
abbrev pub logged : Text → Text → Text → Text → Option Fields → Text → Entry
logged tenant action resource_type resource_id after triggered_by = record {
  tenant = tenant;
  action = action;
  resource_type = resource_type;
  resource_id = resource_id;
  before = none;
  after = after;
  triggered_by = triggered_by;
  success = true;
  message = none;
}

-- `where: { id, tenantId }`
unfoldable pub has_id : Text → Text → Text → Text → Bool
has_id id tenant row_id row_tenant = text_eq row_id id && text_eq row_tenant tenant
