-- ===== src/Db/Governance/Tests.antt =====
-- packages/db/src/tenancy/index.ts at concrete inputs.
use intellibiz.Shared.{ℕ, none, some, List, [], ◌∷◌, ◌++◌, map, err, ◌≡◌, refl}
use intellibiz.Shared.Text.{codes, show}
use intellibiz.Shared.Trim.{trim, trim_start}
use intellibiz.Core.Context.{system, IntellibizStore, get_context}
use intellibiz.Db.Sql.{mark}
use intellibiz.Db.Governance.{
  sudo_access, raw_query, record_of, record_governance, sudo_from, sudo_sql, sudo, raw,
}
use intellibiz.Db.Governance.Audit.{
  Bypass, sudo_call, raw_call, bypass, bypass_all, reply, records, bypass_all-records,
}

governance : Unit {0}
unfolding record_governance sudo_from sudo_sql sudo raw bypass bypass_all get_context mark show trim
    trim_start
governance = tt

abbrev store : IntellibizStore
store = record {
  trace_id = codes "t";
  tenant_id = codes "acme";
  user_id = some (codes "u1");
  role = codes "viewer";
  start_time = 0;
  origin = system;
}

abbrev calls : List Bypass
calls =
    sudo_call (some store) 5 ∷ sudo_call none 6 ∷ raw_call (some store) 7 (codes "SELECT 1") ∷ []

governance_tests :
    ((bypass_all calls []).1
      ≡ record_of sudo_access none 5 store
        ∷ record_of raw_query (some (codes "SELECT 1")) 7 store
        ∷ [])
    × (sudo none 1 [] ≡ (err "CONTEXT_MISSING", []))
    × (sudo_sql {A = ℕ} (codes " SELECT a WHERE b = " ∷ codes " " ∷ []) (9 ∷ []) ≡ record {
      sql = codes "SELECT a WHERE b = $1";
      params = 9 ∷ [];
      tenant_id = codes "__sudo__";
    })
unfolding governance
governance_tests = (refl, refl, refl)

bypass_all-records_example : bypass_all calls [] ≡ (map reply calls, [] ++ records calls)
bypass_all-records_example = bypass_all-records calls []
