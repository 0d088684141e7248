-- ===== src/Plan/Progress/Put.antt =====
-- A valid progress after the record of one activity was replaced.
use lua_mongodb.Base.{
  ℕ, ◌+◌, ◌≤◌, String, true, Option, none, some, [], ◌∷◌, ◌≡◌, refl, ap, subst, arith, contains,
  str_eq, eq_iff, Option-cases, Bool-cases, inl, inr,
}
use lua_mongodb.Json.{
  Json, obj, Fields, end, field, get_or, lookup, put, is_list, same, equals_int, pos, null,
}
use lua_mongodb.Json.Laws.{json_laws, get_or-put}
use lua_mongodb.Raise.{ok, bind-eq-ok}
use lua_mongodb.Plan.Documents.{Activities, names, find, activity_map}
use lua_mongodb.Plan.Progress.{is_status}
use lua_mongodb.Plan.Progress.Valid.{
  active_one, active_in, IsEntry, IsEntryValue, AllEntries, IsValid,
}
use lua_mongodb.Plan.State.{fields_of}
use lua_mongodb.Plan.Record.{require_activity, new_record, records_of, ensure_record, set_record}

pub AllEntries-put :
    (acts : Activities) (id : String) (entry : Fields) (fs : Fields)
    → contains (names acts) id ≡ true
    → IsEntry entry
    → AllEntries acts fs
    → AllEntries acts (put id (obj entry) fs)
unfolding put
AllEntries-put acts id entry end known h all = (known, h, tt)
AllEntries-put acts id entry (field j x fs) known h all = elim (Bool-cases (str_eq j id)) [
  | inl e ↦ rw e (all.0, h, all.2)
  | inr e ↦ rw e (all.0, all.1, AllEntries-put acts id entry fs known h all.2)
]

abbrev pub active_at : Option Json → ℕ
active_at none = 0
active_at (some x) = active_one x

pub active_in-put :
    (id : String) (x : Json) (fs : Fields)
    → active_in (put id x fs) + active_at (lookup id fs) ≡ active_in fs + active_one x
unfolding put lookup
active_in-put id x end = omega arith
active_in-put id x (field j y fs) = elim (Bool-cases (str_eq j id)) [
  | inl e ↦ rw e (omega arith)
  | inr e ↦ rw e (omega (arith, active_in-put id x fs))
]

names-find :
    (acts : Activities) (id : String) (activity : Fields)
    → find acts id ≡ some activity
    → contains (names acts) id ≡ true
unfolding find
names-find [] id activity h = cc
names-find ((a, fs) ∷ acts) id activity h =
    ground (arith, names-find acts id activity, eq_iff a id, eq_iff id a)

-- the three fields of an entry that are checked after a field was written
pub IsEntry-put :
    (k : String) (v : Json) (entry : Fields)
    → (str_eq k "status" ≡ true → is_status v ≡ true)
    → (str_eq k "evidence" ≡ true → is_list v ≡ true)
    → (str_eq k "notes" ≡ true → is_list v ≡ true)
    → IsEntry entry
    → IsEntry (put k v entry)
IsEntry-put k v entry s e n h = record {
  status = rw get_or-put (ground arith);
  evidence = rw get_or-put (ground arith);
  notes = rw get_or-put (ground arith);
}

IsEntry-new_record : IsEntry new_record
unfolding is_status get_or lookup
IsEntry-new_record = record { status = refl; evidence = refl; notes = refl }

active-new_record : 0 ≡ active_one (obj new_record)
unfolding get_or lookup
active-new_record = refl

pub AllEntries-lookup :
    (acts : Activities) (id : String) (fs : Fields) (x : Json)
    → AllEntries acts fs
    → lookup id fs ≡ some x
    → IsEntryValue x
unfolding lookup
AllEntries-lookup acts id end x all h = cc
AllEntries-lookup acts id (field j y fs) x all h = elim (Bool-cases (str_eq j id)) [
  | inl e ↦
      let found : some y ≡ some x = (rw e at h) in
      let same_value : y ≡ x = cc in subst IsEntryValue same_value all.1
  | inr e ↦ AllEntries-lookup acts id fs x all.2 (rw e at h)
]

fields_of-ok : (x : Json) (entry : Fields) → fields_of x ≡ ok entry → x ≡ obj entry
fields_of-ok (obj fs) entry h = cc
fields_of-ok _ entry h = cc

module _ {plan progress : Fields} (v : IsValid plan progress) where
  pub records_of-valid : records_of progress ≡ ok v.records
  unfolding get_or
  records_of-valid = ground (arith, v.holds_records)

  -- The record that a command starts from.
  pub ensure_record-valid :
      (id : String) (entry : Fields)
      → ensure_record progress id ≡ ok entry
      → IsEntry entry × (active_at (lookup id v.records) ≡ active_one (obj entry))
  unfolding ensure_record get_or
  ensure_record-valid id entry h =
      let (records, reads, rest) = bind-eq-ok (records_of progress) _ h in
      let same_records : records ≡ v.records = cc (records_of-valid) in
      let taken : fields_of (get_or v.records id (obj new_record)) ≡ ok entry =
        (rw same_records at rest) in
      elim (Option-cases (lookup id v.records)) [
        | inl e ↦
            let default : get_or v.records id (obj new_record) ≡ obj new_record = rw (e, get_or) in
            let fresh : new_record ≡ entry = cc (ap fields_of default) in
            (
              subst IsEntry fresh IsEntry-new_record,
              rw e (subst (λ (r : Fields). 0 ≡ active_one (obj r)) fresh active-new_record),
            )
        | inr (x, e) ↦
            let present : get_or v.records id (obj new_record) ≡ x = rw (e, get_or) in
            let is_obj : x ≡ obj entry = fields_of-ok x entry (rw present at taken) in
            (
              subst IsEntryValue is_obj (AllEntries-lookup v.acts id v.records x v.all e),
              rw e (ap active_one is_obj),
            )
      ]

  pub require_activity-known :
      (id : String) (activity : Fields)
      → require_activity plan id ≡ ok activity
      → (find v.acts id ≡ some activity) × (contains (names v.acts) id ≡ true)
  unfolding require_activity
  require_activity-known id activity h =
      let (acts, reads, rest) = bind-eq-ok (activity_map plan) _ h in
      let same_acts : acts ≡ v.acts = cc (v.plan_reads) in
      let found : find v.acts id ≡ some activity = ground (arith, rest, same_acts) in
      (found, names-find v.acts id activity found)

  version-put :
      (x : Json)
      → equals_int (pos 1) (get_or (put "activities" x progress) "schema_version" null) ≡ true
  version-put x = simp json_laws v.version

  identity-put :
      (x : Json)
      → same (get_or (put "activities" x progress) "plan_id" null) (get_or plan "plan_id" null)
        ≡ true
  identity-put x = simp json_laws v.identity

  -- A command that replaces the record of an activity by a well-formed one keeps the progress valid,
  -- if no second activity is in progress then.
  pub set_record-IsValid :
      (id : String) (entry changed : Fields) {saved : Fields}
      → contains (names v.acts) id ≡ true
      → IsEntry changed
      → active_in (put id (obj changed) v.records) ≤ 1
      → set_record progress id changed ≡ ok saved
      → IsValid plan saved
  unfolding set_record
  set_record-IsValid id entry changed {saved} known h one s =
      let (records, reads, rest) = bind-eq-ok (records_of progress) _ s in
      let same_records : records ≡ v.records = cc (records_of-valid) in
      let result : put "activities" (obj (put id (obj changed) v.records)) progress ≡ saved =
        cc (same_records) in
      subst (IsValid plan) result (record {
        acts = v.acts;
        records = put id (obj changed) v.records;
        plan_reads = v.plan_reads;
        holds_records = simp json_laws;
        version = version-put (obj (put id (obj changed) v.records));
        identity = identity-put (obj (put id (obj changed) v.records));
        all = AllEntries-put v.acts id changed v.records known h v.all;
        at_most_one = one;
      })

  -- So does one that brings no activity into progress.
  pub set_record-quiet :
      (id : String) (entry changed : Fields) {saved : Fields}
      → contains (names v.acts) id ≡ true
      → ensure_record progress id ≡ ok entry
      → IsEntry changed
      → active_one (obj changed) ≤ active_one (obj entry)
      → set_record progress id changed ≡ ok saved
      → IsValid plan saved
  set_record-quiet id entry changed known e h quiet s =
      let (_, at) = ensure_record-valid id entry e in
      set_record-IsValid id entry changed known h
        (omega (arith, v.at_most_one, at, active_in-put id (obj changed) v.records)) s
