-- ===== src/Plan/Git/Clean.antt =====
-- What `git_commit_issues` asks of the history.
use lua_mongodb.Base.{
  String, Bool, false, ◌⊎◌, ◌↔◌, inl, inr, List, [], ◌∷◌, ◌≡◌, refl, ap, ◌∙◌, arith, keep, ◌==◌,
  append-eq-nil, Bool-cases, if◌then◌else◌,
}
use lua_mongodb.Graph.{Graph}
use lua_mongodb.Json.{Json, null, obj, Fields, end, get_or, is_text}
use lua_mongodb.Raise.{ok, bind-eq-ok, ok_unique}
use lua_mongodb.Plan.Documents.{Activities, attribute, status_for}
use lua_mongodb.Plan.Git.{
  Git, Commit, History, log_command, history, parse_log, child_edges, eligible, has_trailer, empty,
  commit_issues, all_commit_issues, git_commit_issues,
}
use lua_mongodb.Plan.Issue.{Issue}
use lua_mongodb.Plan.State.{item}
use lua_mongodb.Plan.Git.Recorded.{IsRecorded, check_matching-IsRecorded}

-- What the history says of a completed activity: among the commits that count for it, which are those
-- after it was reopened if it was, one commit is its own.
pub record IsInHistory (h : History) (commits : List Commit) (children : Graph) (progress : Fields)
    (id : String) (activity : Fields) : Type 0 where
  pub entry : Json
  pub boundary : Json
  pub candidates : List Commit
  pub subject : Json
  pub has_entry : attribute (get_or progress "activities" (obj end)) id (obj end) ≡ ok entry
  pub has_boundary : attribute entry "reopened_after_commit" null ≡ ok boundary
  pub count : eligible commits children boundary ≡ ok candidates
  pub has_subject : item activity "commit" ≡ ok subject
  pub is_recorded : IsRecorded h id subject (keep (has_trailer id) candidates)

-- each activity has a status, and those that are completed are in the history
abbrev pub AllInHistory : History → List Commit → Graph → Fields → Activities → Type 0
AllInHistory h commits children progress [] = Unit
AllInHistory h commits children progress ((id, activity) ∷ rest) =
    ((status : Json) × (status_for progress id ≡ ok status)
      × ((is_text status "completed" ≡ false)
          ⊎ IsInHistory h commits children progress id activity))
    × AllInHistory h commits children progress rest

subject-found :
    (h : History) (id : String) (subject : Json) (activity : Fields) (matching : List Commit)
    → (if empty matching then ok null else item activity "commit") ≡ ok subject
    → IsRecorded h id subject matching
    → item activity "commit" ≡ ok subject
subject-found h id subject activity [] e r = cc (IsRecorded.only r)
subject-found h id subject activity (c ∷ rest) e r = e

found-subject :
    (h : History) (id : String) (subject : Json) (activity : Fields) (matching : List Commit)
    → item activity "commit" ≡ ok subject
    → IsRecorded h id subject matching
    → (if empty matching then ok null else item activity "commit") ≡ ok subject
found-subject h id subject activity [] e r = cc (IsRecorded.only r)
found-subject h id subject activity (c ∷ rest) e r = e

module _ (h : History) (commits : List Commit) (children : Graph) (progress : Fields) where
  commit_issues-IsInHistory :
      (id : String) (activity : Fields) (status : Json)
      → status_for progress id ≡ ok status
      → (commit_issues h commits children progress id activity ≡ ok []) ↔ (
          (is_text status "completed" ≡ false)
          ⊎ IsInHistory h commits children progress id activity)
  unfolding commit_issues
  commit_issues-IsInHistory id activity status found =
      elim (Bool-cases (is_text status "completed")) [
        | inr other ↦ (λ e. inl other, λ r. rw (found, other) refl)
        | inl completed ↦ (
          λ e.
              let (entry, has_entry, e1) =
                bind-eq-ok (attribute (get_or progress "activities" (obj end)) id (obj end)) _
                  (rw (found, completed) at e) in
              let (boundary, has_boundary, e2) =
                bind-eq-ok (attribute entry "reopened_after_commit" null) _ e1 in
              let (candidates, count, e3) = bind-eq-ok (eligible commits children boundary) _ e2 in
              let matching = keep (has_trailer id) candidates in
              let (subject, read, e4) =
                bind-eq-ok (if empty matching then ok null else item activity "commit") _ e3 in
              let is_recorded =
                (check_matching-IsRecorded h id subject matching).0 (ok_unique (ok _) refl e4) in
              inr (record {
                entry = entry;
                boundary = boundary;
                candidates = candidates;
                subject = subject;
                has_entry = has_entry;
                has_boundary = has_boundary;
                count = count;
                has_subject = subject-found h id subject activity matching read is_recorded;
                is_recorded = is_recorded;
              }),
          λ r. elim r [
            | inl other ↦ cc (completed, other)
            | inr i ↦
                let matching = keep (has_trailer id) i.candidates in
                rw
                  (
                    found,
                    completed,
                    i.has_entry,
                    i.has_boundary,
                    i.count,
                    found-subject h id i.subject activity matching i.has_subject i.is_recorded,
                    (check_matching-IsRecorded h id i.subject matching).1 i.is_recorded,
                  )
                  refl
          ],
        )
      ]

  has_status :
      (id : String) (activity : Fields) (is : List Issue)
      → commit_issues h commits children progress id activity ≡ ok is
      → (status : Json) × (status_for progress id ≡ ok status)
  unfolding commit_issues
  has_status id activity is e =
      let (status, found, _) = bind-eq-ok (status_for progress id) _ e in (status, found)

  all_commit_issues-AllInHistory :
      (acts : Activities)
      → (all_commit_issues h commits children progress acts ≡ ok [])
        ↔ AllInHistory h commits children progress acts
  unfolding all_commit_issues
  all_commit_issues-AllInHistory [] = (λ e. tt, λ r. refl)
  all_commit_issues-AllInHistory ((id, activity) ∷ rest) =
      let (to, from) = all_commit_issues-AllInHistory rest in
      (
        λ e.
            let (here, first, e1) =
              bind-eq-ok (commit_issues h commits children progress id activity) _ e in
            let (later, others, e2) =
              bind-eq-ok (all_commit_issues h commits children progress rest) _ e1 in
            let (none_here, none_later) = append-eq-nil here later (ok_unique (ok _) refl e2) in
            let (status, found) = has_status id activity here first in
            (
              (
                status,
                found,
                (commit_issues-IsInHistory id activity status found).0 (first ∙ ap ok none_here),
              ),
              to (others ∙ ap ok none_later),
            ),
        λ r.
            let ((status, found, here), later) = r in
            rw ((commit_issues-IsInHistory id activity status found).1 here, from later) refl,
      )

-- There is a repository with a log that can be read, and each completed activity is in the history of
-- the log.
pub record IsClean (git : Git) (require_pushed : Bool) (acts : Activities) (progress : Fields)
    : Type 0 where
  pub is_repository : (git ("rev-parse" ∷ "--show-toplevel" ∷ [])).returncode ≡ 0
  pub has_log : (git log_command).returncode ≡ 0
  pub all :
      AllInHistory
        (history git require_pushed (parse_log (git log_command).stdout))
        (parse_log (git log_command).stdout)
        (child_edges (parse_log (git log_command).stdout) [])
        progress
        acts

pub git_commit_issues-IsClean :
    (git : Git) (require_pushed : Bool) (acts : Activities) (progress : Fields)
    → (git_commit_issues git require_pushed acts progress ≡ ok [])
      ↔ IsClean git require_pushed acts progress
unfolding git_commit_issues
git_commit_issues-IsClean git require_pushed acts progress =
    let (to, from) =
      all_commit_issues-AllInHistory
        (history git require_pushed (parse_log (git log_command).stdout))
        (parse_log (git log_command).stdout) (child_edges (parse_log (git log_command).stdout) [])
        progress acts in
    elim (Bool-cases ((git ("rev-parse" ∷ "--show-toplevel" ∷ [])).returncode == 0)) [
      | inr e ↦ (λ h. cc (rw e at h), λ c. absurd (ground (arith, e, IsClean.is_repository c)))
      | inl e ↦ elim (Bool-cases ((git log_command).returncode == 0)) [
        | inr f ↦ (λ h. cc (rw (e, f) at h), λ c. absurd (ground (arith, f, IsClean.has_log c)))
        | inl f ↦ (
          λ h. record {
            is_repository = ground (arith, e);
            has_log = ground (arith, f);
            all = to (rw (e, f) at h);
          },
          λ c. rw (e, f) (from c.all),
        )
      ]
    ]
