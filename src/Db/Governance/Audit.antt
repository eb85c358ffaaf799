-- ===== src/Db/Governance/Audit.antt =====
-- packages/db/src/tenancy/index.ts: the log has every bypass, and the builder compiles as the template
-- does.
use mathlib.Core.List.{append_assoc, append-nil}
use intellibiz.Shared.{
  ℕ, Option, none, some, List, [], ◌∷◌, ◌++◌, map, Result, ok, err, ◌≡◌, refl, ap,
}
use intellibiz.Shared.Text.{Text, codes}
use intellibiz.Shared.Trim.{trim}
use intellibiz.Core.Context.{IntellibizStore, get_context}
use intellibiz.Db.Sql.{SqlFragment, plain, add_value, add_literal, compile_from, fragment}
use intellibiz.Db.Governance.{
  sudo_access, raw_query, GovernanceRecord, Log, record_governance, SqlQuery, sudo_from, sudo_sql,
  sudo, raw,
}

-- A call that bypasses the filters: the active store and the time, and for `raw` the SQL
pub data Bypass : Type 0 where
  sudo_call : Option IntellibizStore → ℕ → Bypass
  raw_call : Option IntellibizStore → ℕ → Text → Bypass

-- What a call gives back: nothing for `sudo`, the query for `raw`
pub data Reply : Type 0 where
  opened : Result (Unit {0}) → Reply
  queried : Result (SqlQuery (Unit {0})) → Reply

unfoldable pub bypass : Bypass → Log → Reply × Log
unfolding sudo raw
bypass (sudo_call active now) log = let (r, l) = sudo active now log in (opened r, l)
bypass (raw_call active now sql_string) log =
    let (r, l) = raw {A = Unit {0}} active now sql_string log in (queried r, l)

-- the calls in their order, each on the log that the ones before it leave
unfoldable pub bypass_all : List Bypass → Log → List Reply × Log
unfolding bypass
bypass_all [] log = ([], log)
bypass_all (c ∷ cs) log =
    let (a, l) = bypass c log in let (as_, l') = bypass_all cs l in (a ∷ as_, l')

-- What the calls within a context are to leave in the log, and in which order
abbrev pub records : List Bypass → Log
records [] = []
records (sudo_call none now ∷ cs) = records cs
records (sudo_call (some s) now ∷ cs) =
    record {
      kind = sudo_access;
      user_id = s.user_id;
      tenant_id = s.tenant_id;
      trace_id = s.trace_id;
      timestamp = now;
      sql = none;
    }
    ∷ records cs
records (raw_call none now sql ∷ cs) = records cs
records (raw_call (some s) now sql ∷ cs) =
    record {
      kind = raw_query;
      user_id = s.user_id;
      tenant_id = s.tenant_id;
      trace_id = s.trace_id;
      timestamp = now;
      sql = some sql;
    }
    ∷ records cs

-- What a call is to give back
abbrev pub reply : Bypass → Reply
reply (sudo_call none now) = opened (err "CONTEXT_MISSING")
reply (sudo_call (some s) now) = opened (ok tt)
reply (raw_call none now sql) = queried (err "CONTEXT_MISSING")
reply (raw_call (some s) now sql) =
    queried (ok (record { sql = sql; params = []; tenant_id = codes "__raw__" }))

appended_then :
    (a : Reply) (r : GovernanceRecord) (cs : List Bypass) (log : Log)
    → bypass_all cs (log ++ r ∷ []) ≡ (map reply cs, (log ++ r ∷ []) ++ records cs)
    → ◌≡◌ {A = List Reply × Log}
        (a ∷ (bypass_all cs (log ++ r ∷ [])).0, (bypass_all cs (log ++ r ∷ [])).1)
        (a ∷ map reply cs, log ++ (r ∷ records cs))
appended_then a r cs log h = rw (h, append_assoc log (r ∷ []) (records cs)) refl

-- Each call of `sudo` and of `raw` within a context succeeds and leaves one record in the log, behind
-- those that are there: who, in which tenant and trace, when, and for `raw` the SQL, which it gives back
-- without parameters. A call outside of every context throws, and leaves none; calls before or behind it
-- are not affected.
pub bypass_all-records :
    (cs : List Bypass) (log : Log) → bypass_all cs log ≡ (map reply cs, log ++ records cs)
unfolding bypass_all bypass sudo raw record_governance get_context
bypass_all-records [] log = rw (append-nil log) refl
bypass_all-records (sudo_call none now ∷ cs) log = rw (bypass_all-records cs log) refl
bypass_all-records (sudo_call (some s) now ∷ cs) log =
    appended_then (opened (ok tt)) _ cs log (bypass_all-records cs _)
bypass_all-records (raw_call none now sql ∷ cs) log = rw (bypass_all-records cs log) refl
bypass_all-records (raw_call (some s) now sql ∷ cs) log =
    appended_then _ _ cs log (bypass_all-records cs _)

module _ {A : Type 0} where
  sudo_from-compile_from :
      (strings : List Text) (values : List A) (out : SqlFragment A)
      → sudo_from strings values out.sql out.params ≡ (
        (compile_from strings (map plain values) out).sql,
        (compile_from strings (map plain values) out).params,
      )
  unfolding sudo_from compile_from add_value
  sudo_from-compile_from [] values out = refl
  sudo_from-compile_from (s ∷ strings) [] out =
      sudo_from-compile_from strings [] (add_literal s out)
  sudo_from-compile_from (s ∷ strings) (v ∷ values) out =
      sudo_from-compile_from strings values (add_value (plain v) (add_literal s out))

  -- A query of the sudo builder whose values are no fragments has the parameters and, but for white space
  -- round it, the text that the tagged template compiles, without the tenant filters.
  pub sudo_sql-fragment :
      (strings : List Text) (values : List A)
      → ((sudo_sql strings values).sql ≡ trim (fragment strings (map plain values)).sql)
        × ((sudo_sql strings values).params ≡ (fragment strings (map plain values)).params)
  unfolding sudo_sql fragment
  sudo_sql-fragment strings values =
      let same = sudo_from-compile_from strings values (record { sql = []; params = [] }) in
      (ap (λ r. trim r.0) same, ap (λ r. r.1) same)
