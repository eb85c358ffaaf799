-- ===== src/Db/Governance.antt =====
-- packages/db/src/tenancy/index.ts, with governance/sudo.ts and context.ts, which pass its functions on:
-- queries that bypass the tenant filters, and the log of them. The active store is an argument.
pub mod Audit
mod Tests
use intellibiz.Shared.{
  ℕ, suc, String, Bool, Option, none, some, List, [], ◌∷◌, ◌++◌, length, Result, ok, err,
}
use intellibiz.Shared.Text.{Text, codes}
use intellibiz.Shared.Trim.{trim}
use intellibiz.Core.Context.{IntellibizStore, get_context}
use intellibiz.Db.Sql.{mark}

pub data GovernanceKind : Type 0 where
  sudo_access raw_query : GovernanceKind

pub record GovernanceRecord : Type 0 where
  pub kind : GovernanceKind
  pub user_id : Option Text
  pub tenant_id : Text
  pub trace_id : Text
  pub timestamp : ℕ
  pub sql : Option Text

abbrev pub record_of : GovernanceKind → Option Text → ℕ → IntellibizStore → GovernanceRecord
record_of kind sql now store = record {
  kind = kind;
  user_id = store.user_id;
  tenant_id = store.tenant_id;
  trace_id = store.trace_id;
  timestamp = now;
  sql = sql;
}

abbrev pub Log : Type 0
Log = List GovernanceRecord

-- what a call comes to, and the log behind it
abbrev pub appended :
    Result IntellibizStore → GovernanceKind → Option Text → ℕ → Log → Result (Unit {0}) × Log
appended (err e) kind sql now log = (err e, log)
appended (ok store) kind sql now log = (ok tt, log ++ record_of kind sql now store ∷ [])

unfoldable pub record_governance :
    Option IntellibizStore → GovernanceKind → Option Text → ℕ → Log → Result (Unit {0}) × Log
unfolding get_context
record_governance active kind sql now log = appended (get_context active) kind sql now log

unfoldable pub clear_governance_log : Log → Log
clear_governance_log log = []

pub record SqlQuery (A : Type 0) : Type 0 where
  pub sql : Text
  pub params : List A
  pub tenant_id : Text

-- The loop of the builder's `sql`, over the strings, each with the value behind it, if there is one
unfoldable pub sudo_from : {A : Type 0} → List Text → List A → Text → List A → Text × List A
unfolding mark
sudo_from [] values text params = (text, params)
sudo_from (s ∷ strings) [] text params = sudo_from strings [] (text ++ s) params
sudo_from (s ∷ strings) (v ∷ values) text params =
    sudo_from strings values ((text ++ s) ++ mark (length (params ++ v ∷ []))) (params ++ v ∷ [])

-- The builder's `sql`
unfoldable pub sudo_sql : {A : Type 0} → List Text → List A → SqlQuery A
unfolding sudo_from trim
sudo_sql strings values =
    let (text, params) = sudo_from strings values [] [] in
    record { sql = trim text; params = params; tenant_id = codes "__sudo__" }

-- `db.sudo()`: the builder is `sudo_sql`, once the access is recorded.
unfoldable pub sudo : Option IntellibizStore → ℕ → Log → Result (Unit {0}) × Log
unfolding record_governance
sudo active now log = record_governance active sudo_access none now log

abbrev pub raw_query_of : {A : Type 0} → Text → SqlQuery A
raw_query_of sql_string = record { sql = sql_string; params = []; tenant_id = codes "__raw__" }

abbrev pub raw_result : {A : Type 0} → Text → Result (Unit {0}) × Log → Result (SqlQuery A) × Log
raw_result sql_string (err e, log) = (err e, log)
raw_result sql_string (ok done, log) = (ok (raw_query_of sql_string), log)

-- `db.raw`
unfoldable pub raw :
    {A : Type 0} → Option IntellibizStore → ℕ → Text → Log → Result (SqlQuery A) × Log
unfolding record_governance
raw active now sql_string log =
    raw_result sql_string (record_governance active raw_query (some sql_string) now log)
