-- ===== src/Commerce/Dedup/Cache.antt =====
-- dedup.ts: what the cache answers.
use text.Mathlib.TextLemmas.{append_cancel_left}
use intellibiz.Shared.{
  ℕ, ◌+◌, ◌≤◌, ◌<◌, String, ◌≡◌, refl, false, Option, none, some, [], ◌∷◌, inl, inr, arith, ◌==◌,
  eq_iff, ltb, if◌then◌else◌, Bool-cases,
}
use intellibiz.Shared.Table
use intellibiz.Shared.Table.{Table, Distinct, get-put, put-Distinct}
use intellibiz.Commerce.Dedup.{
  CacheEntry, key, evict_expired, is_live, is_duplicate, mark_processed,
}

-- The prefix does not confuse two event ids.
pub key-eq : (a b : String) → (key a == key b) ≡ (a == b)
unfolding key
key-eq a b =
    ground (arith, eq_iff (key a) (key b), eq_iff a b, append_cancel_left "ibiz_wh_evt_" a b)

abbrev unexpired : ℕ → Option CacheEntry → Option CacheEntry
unexpired now none = none
unexpired now (some e) = if ltb e.expires_at now then none else some e

pub get-evict_expired :
    (now : ℕ) (k : String) (m : Table CacheEntry)
    → Distinct m
    → Table.get k (evict_expired now m) ≡ unexpired now (Table.get k m)
unfolding evict_expired Table.get
get-evict_expired now k [] h = refl
get-evict_expired now k ((j, e) ∷ m) h =
    ground (arith, get-evict_expired now k m h.1, eq_iff j k, h.0)

pub evict_expired-Distinct :
    (now : ℕ) (m : Table CacheEntry) → Distinct m → Distinct (evict_expired now m)
unfolding evict_expired
evict_expired-Distinct now [] h = tt
evict_expired-Distinct now ((j, e) ∷ m) h = elim (Bool-cases (ltb e.expires_at now)) [
  | inl old ↦ rw old (evict_expired-Distinct now m h.1)
  | inr new ↦
      rw new ((rw (get-evict_expired now j m h.1) (rw h.0)), evict_expired-Distinct now m h.1)
]

pub is_duplicate_lem :
    (t u : ℕ) (id : String) (m : Table CacheEntry)
    → t ≤ u
    → Distinct m
    → (is_duplicate t u id m).0 ≡ is_live u (Table.get (key id) m)
unfolding is_duplicate is_live
is_duplicate_lem t u id m h d = ground (arith, get-evict_expired t (key id) m d)

pub mark_processed-Distinct :
    (now ttl : ℕ) (id : String) (m : Table CacheEntry)
    → Distinct m
    → Distinct (mark_processed now ttl id m)
unfolding mark_processed
mark_processed-Distinct now ttl id m d = put-Distinct (key id) _ m d

-- Where the two readings of the clock are in order, an event is a duplicate after
-- `markProcessed` exactly while its time to live has not passed, and the answer for any other
-- event id is what it was.
pub is_duplicate-mark_processed :
    (t u now ttl : ℕ) (a b : String) (m : Table CacheEntry)
    → t ≤ u
    → Distinct m
    → (is_duplicate t u b (mark_processed now ttl a m)).0
      ≡ (if a == b then ltb u (now + ttl) else (is_duplicate t u b m).0)
is_duplicate-mark_processed t u now ttl a b m h d =
    rw
      (is_duplicate_lem t u b (mark_processed now ttl a m) h
        (mark_processed-Distinct now ttl a m d))
      (rw (is_duplicate_lem t u b m h d)
        (unfold mark_processed is_live in rw get-put (rw (key-eq a b) (ground arith))))

-- An entry that outlives the reading of the clock survives an eviction.
pub get-evict_expired_live :
    (now : ℕ) (k : String) (m : Table CacheEntry) (e : CacheEntry)
    → Distinct m
    → Table.get k m ≡ some e
    → now < e.expires_at
    → Table.get k (evict_expired now m) ≡ some e
get-evict_expired_live now k m e d at alive =
    rw (get-evict_expired now k m d) (rw at (ground arith))

pub get-mark_processed :
    (now ttl : ℕ) (a b : String) (m : Table CacheEntry)
    → Table.get (key b) (mark_processed now ttl a m) ≡ (
        if a == b
        then some (record { processed_at = now; expires_at = now + ttl })
        else Table.get (key b) m)
unfolding mark_processed
get-mark_processed now ttl a b m = rw get-put (rw (key-eq a b))

-- An event that is no duplicate at one time is none later, if nothing has marked it.
pub is_duplicate-evict_expired :
    (t u t' u' : ℕ) (id : String) (m : Table CacheEntry)
    → Distinct m
    → t ≤ u
    → t' ≤ u'
    → u ≤ u'
    → (is_duplicate t u id m).0 ≡ false
    → (is_duplicate t' u' id (evict_expired t m)).0 ≡ false
is_duplicate-evict_expired t u t' u' id m d h h' later fresh =
    rw (is_duplicate_lem t' u' id (evict_expired t m) h' (evict_expired-Distinct t m d)) (
      rw (get-evict_expired t (key id) m d)
        (still_fresh (Table.get (key id) m) (rw (is_duplicate_lem t u id m h d) at fresh)))
  where
    still_fresh : (o : Option CacheEntry) → is_live u o ≡ false → is_live u' (unexpired t o) ≡ false
    still_fresh o dead = unfold is_live in ground arith
