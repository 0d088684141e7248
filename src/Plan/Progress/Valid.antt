-- ===== src/Plan/Progress/Valid.antt =====
-- What `validate_progress` asks of a progress.
use lua_mongodb.Base.{
  ℕ, ◌+◌, ◌≤◌, String, Bool, true, false, not, List, [], ◌∷◌, ◌++◌, ◌≡◌, refl, inl, inr, arith,
  contains, ◌↔◌, ltb, append-eq-nil, append-ne-nil, Bool-cases, if◌then◌else◌,
}
use lua_mongodb.Json.{
  pos, same, equals_int, Json, null, bool, int, str, arr, nil, obj, Fields, end, field, get_or,
  is_list, is_text, entries, hashable,
}
use lua_mongodb.Raise.{ok, bind-eq-ok}
use lua_mongodb.Plan.Documents.{Activities, names, activity_map}
use lua_mongodb.Plan.Issue.{Issue, several_in_progress, records_not_object}
use lua_mongodb.Plan.Validate.Activity.{hashed}
use lua_mongodb.Plan.Progress.{
  is_status, Tally, record_issues, check_known, check_record, check_records, progress_header,
  check_entries, validate_progress,
}

-- `active` of one record
abbrev pub active_one : Json → ℕ
active_one (obj entry) = if is_text (get_or entry "status" null) "in_progress" then 1 else 0
active_one _ = 0

abbrev pub active_in : Fields → ℕ
active_in end = 0
active_in (field id x fs) = active_one x + active_in fs

pub record IsEntry (entry : Fields) : Type 0 where
  pub status : is_status (get_or entry "status" null) ≡ true
  pub evidence : is_list (get_or entry "evidence" (arr nil)) ≡ true
  pub notes : is_list (get_or entry "notes" (arr nil)) ≡ true

abbrev pub IsEntryValue : Json → Type 0
IsEntryValue (obj entry) = IsEntry entry
IsEntryValue _ = ⊥

abbrev pub AllEntries : Activities → Fields → Type 0
AllEntries acts end = Unit
AllEntries acts (field id x fs) =
    (contains (names acts) id ≡ true) × IsEntryValue x × AllEntries acts fs

-- a status that is known can be hashed
hashable-status : (x : Json) → is_status x ≡ true → hashable x ≡ true
unfolding is_status hashable
hashable-status null h = refl
hashable-status (bool b) h = refl
hashable-status (int n) h = refl
hashable-status (str s) h = refl
hashable-status (arr xs) h = h
hashable-status (obj fs) h = h

record_issues-nil :
    (id : String) (entry : Fields)
    → record_issues id entry (get_or entry "status" null) ≡ []
    → IsEntry entry
unfolding record_issues
record_issues-nil id entry h = ground arith

nil-record_issues :
    (id : String) (entry : Fields)
    → IsEntry entry
    → record_issues id entry (get_or entry "status" null) ≡ []
unfolding record_issues
nil-record_issues id entry h = ground arith

check_known-ok :
    (id : String) (x : Json) (t : Tally)
    → check_known id x ≡ ok t
    → t.issues ≡ []
    → IsEntryValue x × (t.active ≡ active_one x)
check_known-ok id (obj entry) t h clean =
    let (status, hash, rest) = bind-eq-ok (hashed (get_or entry "status" null)) _ h in
    ground (arith, record_issues-nil id entry)
check_known-ok id _ t h clean = ground arith

ok-check_known :
    (id : String) (x : Json)
    → IsEntryValue x
    → check_known id x ≡ ok (record { issues = []; active = active_one x })
ok-check_known id (obj entry) h =
    ground (arith, nil-record_issues id entry, hashable-status (get_or entry "status" null))
ok-check_known id _ h = absurd h

check_record-ok :
    (acts : Activities) (id : String) (x : Json) (t : Tally)
    → check_record acts id x ≡ ok t
    → t.issues ≡ []
    → (contains (names acts) id ≡ true) × IsEntryValue x × (t.active ≡ active_one x)
unfolding check_record
check_record-ok acts id x t h clean = elim (Bool-cases (contains (names acts) id)) [
  | inl e ↦ let (entry, n) = check_known-ok id x t (rw e at h) clean in (e, entry, n)
  | inr e ↦ ground arith
]

-- What a loop over the records without an issue says of them.
check_records-ok :
    (acts : Activities) (fs : Fields) (t : Tally)
    → check_records acts (entries fs) ≡ ok t
    → t.issues ≡ []
    → AllEntries acts fs × (t.active ≡ active_in fs)
unfolding check_records
check_records-ok acts end t h clean = ground arith
check_records-ok acts (field id x fs) t h clean =
    let (here, first, more) = bind-eq-ok (check_record acts id x) _ h in
    let (later, second, sum) = bind-eq-ok (check_records acts (entries fs)) _ more in
    let total : here.issues ++ later.issues ≡ [] = cc in
    let (none_here, none_later) = append-eq-nil here.issues later.issues total in
    let (known, entry, n) = check_record-ok acts id x here first none_here in
    let (all, m) = check_records-ok acts fs later second none_later in
    ((known, entry, all), ground arith)

ok-check_records :
    (acts : Activities) (fs : Fields)
    → AllEntries acts fs
    → check_records acts (entries fs) ≡ ok (record { issues = []; active = active_in fs })
unfolding check_records check_record
ok-check_records acts end h = refl
ok-check_records acts (field id x fs) h =
    rw (h.0, ok-check_known id x h.1, ok-check_records acts fs h.2) refl

progress_header-nil :
    (plan progress : Fields)
    → (progress_header plan progress ≡ []) ↔ (
        (equals_int (pos 1) (get_or progress "schema_version" null) ≡ true)
        × (same (get_or progress "plan_id" null) (get_or plan "plan_id" null) ≡ true))
unfolding progress_header
progress_header-nil plan progress =
    both (equals_int (pos 1) (get_or progress "schema_version" null)) (same _ _) _ _
  where
    both :
        (b c : Bool) (i j : Issue)
        → ((if not b then i ∷ [] else []) ++ (if not c then j ∷ [] else []) ≡ [])
          ↔ ((b ≡ true) × (c ≡ true))
    both true true i j = (λ h. (refl, refl), λ h. refl)
    both true false i j = (λ h. cc, λ h. cc)
    both false c i j = (λ h. cc, λ h. cc)

-- A progress that `validate_progress` has no issue with.
pub record IsValid (plan progress : Fields) : Type 0 where
  pub acts : Activities
  pub records : Fields
  pub plan_reads : activity_map plan ≡ ok acts
  pub holds_records : get_or progress "activities" null ≡ obj records
  pub version : equals_int (pos 1) (get_or progress "schema_version" null) ≡ true
  pub identity : same (get_or progress "plan_id" null) (get_or plan "plan_id" null) ≡ true
  pub all : AllEntries acts records
  pub at_most_one : active_in records ≤ 1

check_entries-ok :
    (header : List Issue) (acts : Activities) (x : Json)
    → check_entries header acts x ≡ ok []
    → (records : Fields) × (x ≡ obj records)
      × (header ≡ [])
      × AllEntries acts records
      × (active_in records ≤ 1)
check_entries-ok header acts (obj records) h =
    let (t, checked, sum) = bind-eq-ok (check_records acts (entries records)) _ h in
    let total : header ++ t.issues ++ (if ltb 1 t.active then several_in_progress ∷ [] else [])
        ≡ [] =
      cc in
    let (front, one) = append-eq-nil (header ++ t.issues) _ total in
    let (none_header, none_here) = append-eq-nil header t.issues front in
    let (all, n) = check_records-ok acts records t checked none_here in
    (records, refl, none_header, all, ground arith)
check_entries-ok header acts _ h = absurd (append-ne-nil header records_not_object [] (cc))

pub validate_progress-IsValid :
    (plan progress : Fields) → validate_progress plan progress ≡ ok [] → IsValid plan progress
unfolding validate_progress
validate_progress-IsValid plan progress h =
    let (acts, reads, rest) = bind-eq-ok (activity_map plan) _ h in
    let (records, is_obj, none_header, all, one) =
      check_entries-ok (progress_header plan progress) acts _ rest in
    let right = (progress_header-nil plan progress).0 none_header in
    record {
      acts = acts;
      records = records;
      plan_reads = reads;
      holds_records = is_obj;
      version = right.0;
      identity = right.1;
      all = all;
      at_most_one = one;
    }

pub IsValid-validate_progress :
    (plan progress : Fields) → IsValid plan progress → validate_progress plan progress ≡ ok []
unfolding validate_progress
IsValid-validate_progress plan progress v =
    rw
      (
        v.plan_reads,
        v.holds_records,
        (progress_header-nil plan progress).1 (v.version, v.identity),
        ok-check_records v.acts v.records v.all,
      )
      (ground arith)

-- `validate_progress` has no issue exactly if the plan can be read, the progress has version 1 and the
-- plan's id, the records are an object, each belongs to an activity of the plan and is an object with one
-- of the five statuses and lists for its evidence and its notes, and at most one is in progress.
pub validate_progress_iff :
    (plan progress : Fields) → (validate_progress plan progress ≡ ok []) ↔ IsValid plan progress
validate_progress_iff plan progress =
    (validate_progress-IsValid plan progress, IsValid-validate_progress plan progress)
