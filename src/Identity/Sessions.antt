-- ===== src/Identity/Sessions.antt =====
-- packages/identity/src/index.ts: who acts in the active context.
mod Tests
use intellibiz.Shared.{String, Option, none, some, List, [], ◌∷◌, Result, ok, err}
use intellibiz.Shared.Text.{Text}
use intellibiz.Core.Context.{IntellibizStore, get_context, get_tenant_id}

pub record BusinessUser : Type 0 where
  pub id : Text
  pub email : Option Text
  pub tenant_id : Text
  pub role : Text

-- A user id that is not there, or is empty, is refused.
abbrev pub user_of : IntellibizStore → Option Text → Result BusinessUser
user_of store none = err "UNAUTHENTICATED"
user_of store (some []) = err "UNAUTHENTICATED"
user_of store (some (c ∷ s)) =
    ok (record { id = c ∷ s; email = none; tenant_id = store.tenant_id; role = store.role })

abbrev user_in : Result IntellibizStore → Result BusinessUser
user_in (err e) = err e
user_in (ok store) = user_of store store.user_id

unfoldable pub get_active_user : Option IntellibizStore → Result BusinessUser
unfolding get_context
get_active_user active = user_in (get_context active)

-- `getActiveTenant`, whose only field is the id, and `getTenantId`
unfoldable pub get_active_tenant : Option IntellibizStore → Result Text
unfolding get_tenant_id
get_active_tenant active = get_tenant_id active
