-- ===== src/Plan/Command/StartValid.antt =====
-- The validity of the progress under `start`, for records that are a dictionary.
use lua_mongodb.Base.{
  ◌≤◌, String, Bool, true, false, not, Option, some, [], ◌∷◌, ◌≡◌, refl, ap, ◌∙◌, subst, arith,
  contains, str_eq, eq_iff, Bool-cases, inl, inr,
}
use lua_mongodb.Json.{Json, null, str, obj, Fields, end, field, get_or, lookup, has, put, is_text}
use lua_mongodb.Raise.{ok, bind-eq-ok, ok_unique, Ensures}
use lua_mongodb.Plan.Command.{
  any_in_progress, start, startable, track_declared, track_authorized, track_matches, check,
  check_none, incomplete, none_incomplete,
}
use lua_mongodb.Plan.Git.{git_commit_issues}
use lua_mongodb.Plan.Issue.{already_in_progress, cannot_start}
use lua_mongodb.Plan.Record.{require_activity, ensure_record, status_in}
use lua_mongodb.Plan.State.{item}
use lua_mongodb.Plan.Validate.References.{loop_over}
use lua_mongodb.Plan.Command.Valid.{IsEntry-status}
use lua_mongodb.Plan.Documents.{Activities, names, activity_map, status_for}
use lua_mongodb.Plan.Files.{Env}
use lua_mongodb.Plan.Progress.{is_status}
use lua_mongodb.Plan.Progress.Put.{
  active_in-put, AllEntries-lookup, set_record-IsValid, ensure_record-valid, require_activity-known,
  IsEntry-put,
}
use lua_mongodb.Plan.Progress.Valid.{
  active_one, active_in, IsEntry, IsEntryValue, AllEntries, IsValid,
}

abbrev pub UniqueKeys : Fields → Type 0
UniqueKeys end = Unit
UniqueKeys (field k x fs) = (has fs k ≡ false) × UniqueKeys fs

-- the number of records in progress is that of the keys whose record is
active_in-zero :
    (fs : Fields)
    → UniqueKeys fs
    → ((id : String) (x : Json) → lookup id fs ≡ some x → active_one x ≡ 0)
    → active_in fs ≡ 0
unfolding lookup has
active_in-zero end u h = refl
active_in-zero (field k x fs) u h =
    let head : active_one x ≡ 0 = h k x (ground (arith, eq_iff k k)) in
    let later =
      active_in-zero fs u.1 (λ id y found. h id y (ground (arith, eq_iff k id, u.0, found))) in
    omega arith

AllEntries-known :
    (acts : Activities) (fs : Fields) (id : String) (x : Json)
    → AllEntries acts fs
    → lookup id fs ≡ some x
    → contains (names acts) id ≡ true
unfolding lookup
AllEntries-known acts end id x all h = cc
AllEntries-known acts (field j y fs) id x all h =
    ground (arith, eq_iff j id, all.0, AllEntries-known acts fs id x all.2)

-- No activity that the loop looks at is in progress.
any_in_progress-none :
    (progress : Fields) (acts : Activities) (id : String) (s : Json)
    → any_in_progress progress acts ≡ ok false
    → contains (names acts) id ≡ true
    → status_for progress id ≡ ok s
    → is_text s "in_progress" ≡ false
unfolding any_in_progress
any_in_progress-none progress [] id s h known found = cc
any_in_progress-none progress ((a, fs) ∷ acts) id s h known found =
    let (t, first, rest) = bind-eq-ok (status_for progress a) _ h in
    elim (Bool-cases (str_eq id a)) [
      | inl e ↦
          let same : id ≡ a = (eq_iff id a).0 e in
          let same_status : s ≡ t = cc (found, first, same) in ground (arith, rest, same_status)
      | inr e ↦ any_in_progress-none progress acts id s (ground (arith, rest)) (rw e at known) found
    ]

-- the status of a record by its default or without
active_one-zero :
    (entry : Fields)
    → is_text (get_or entry "status" (str "pending")) "in_progress" ≡ false
    → active_one (obj entry) ≡ 0
unfolding get_or
active_one-zero entry h = ground arith

not-passed : (b : Bool) (u : Unit {0}) → check (not b) already_in_progress ≡ ok u → b ≡ false
not-passed true u h = cc
not-passed false u h = refl

active_one-le-one : (x : Json) → active_one x ≤ 1
active_one-le-one (obj entry) = ground arith
active_one-le-one _ = omega arith

dated-IsEntry : (x : Json) (entry : Fields) → IsEntry entry → IsEntry (put "started_at" x entry)
dated-IsEntry x entry h = IsEntry-put "started_at" x entry (λ p. cc) (λ p. cc) (λ p. cc) h

module _ {plan progress : Fields} (v : IsValid plan progress) where
  status_for-record :
      (id : String) (entry : Fields)
      → lookup id v.records ≡ some (obj entry)
      → status_for progress id ≡ ok (get_or entry "status" (str "pending"))
  unfolding status_for get_or
  status_for-record id entry h = ground (arith, v.holds_records)

  quiet_record :
      any_in_progress progress v.acts ≡ ok false
      → (id : String) (x : Json) → lookup id v.records ≡ some x
      → IsEntryValue x
      → active_one x ≡ 0
  quiet_record none_active id (obj entry) found h = active_one-zero entry (
      any_in_progress-none progress v.acts id _ none_active
        (AllEntries-known v.acts v.records id (obj entry) v.all found)
        (status_for-record id entry found))
  quiet_record none_active id _ found h = absurd h

  pub none_active :
      UniqueKeys v.records → any_in_progress progress v.acts ≡ ok false → active_in v.records ≡ 0
  none_active unique none_found = active_in-zero v.records unique λ id x found.
      quiet_record none_found id x found (AllEntries-lookup v.acts id v.records x v.all found)

  pub start-IsValid :
      (env : Env) (id : String) (track : Option String)
      → UniqueKeys v.records
      → Ensures (IsValid plan) (start env id track plan progress)
  unfolding start is_status
  start-IsValid env id track unique = record {
    at = λ saved h.
        let (activity, required, h₁) = bind-eq-ok (require_activity plan id) _ h in
        let (_, _, h₂) = bind-eq-ok (track_declared plan track) _ h₁ in
        let (_, _, h₃) =
          bind-eq-ok (track_authorized id (get_or activity "milestone" null) track) _ h₂ in
        let (_, _, h₄) = bind-eq-ok (track_matches id (get_or activity "track" null) track) _ h₃ in
        let (acts, reads, h₅) = bind-eq-ok (activity_map plan) _ h₄ in
        let (active, looked, h₆) = bind-eq-ok (any_in_progress progress acts) _ h₅ in
        let (u, passed, h₇) = bind-eq-ok (check (not active) already_in_progress) _ h₆ in
        let (entry, e, h₈) = bind-eq-ok (ensure_record progress id) _ h₇ in
        let (status, _, h₉) = bind-eq-ok (item entry "status") _ h₈ in
        let (_, _, g₁) =
          bind-eq-ok (check (status_in startable status) (cannot_start id status)) _ h₉ in
        let (depends, _, g₂) = bind-eq-ok (item activity "depends_on") _ g₁ in
        let (listed, _, g₃) = bind-eq-ok (loop_over depends) _ g₂ in
        let (missing, _, g₄) = bind-eq-ok (incomplete progress listed) _ g₃ in
        let (_, _, g₅) = bind-eq-ok (none_incomplete missing) _ g₄ in
        let (issues, _, g₆) = bind-eq-ok (git_commit_issues env.git true acts progress) _ g₅ in
        let (_, _, g₇) = bind-eq-ok (check_none issues) _ g₆ in
        let begun = put "status" (str "in_progress") entry in
        let begun_entry =
          IsEntry-status "in_progress" entry refl (ensure_record-valid v id entry e).0 in
        let dated_entry = dated-IsEntry (str env.now) begun begun_entry in
        let same_acts = ok_unique (activity_map plan) reads v.plan_reads in
        let quiet : active ≡ false = not-passed active u passed in
        let none_found =
          subst (λ (a : Activities). any_in_progress progress a ≡ ok false) same_acts
            (looked ∙ ap ok quiet) in
        let changed = obj (put "started_at" (str env.now) begun) in
        set_record-IsValid v id entry (put "started_at" (str env.now) begun)
          (require_activity-known v id activity required).1 dated_entry
          (omega (
            arith,
            none_active unique none_found,
            active_in-put id changed v.records,
            active_one-le-one changed,
          ))
          g₇;
  }
