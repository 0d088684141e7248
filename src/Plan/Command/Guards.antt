-- ===== src/Plan/Command/Guards.antt =====
-- What the checks of `start` ask for.
use lua_mongodb.Base.{
  String, Bool, true, false, not, ◌||◌, ◌⊎◌, contains, Option, none, some, List, [], ◌∷◌, ◌≡◌, ◌↔◌,
  refl, ◌∙◌, inl, inr, Bool-cases,
}
use lua_mongodb.Json.{Json, null, Fields, get_or, is_text}
use lua_mongodb.Raise.{ok, bind-eq-ok}
use lua_mongodb.Plan.Command.{
  any_in_progress, startable, track_declared, track_authorized, track_matches, check, check_none,
  incomplete, none_incomplete,
}
use lua_mongodb.Plan.Documents.{Activities, status_for, declared_track_ids}
use lua_mongodb.Plan.Issue.{Issue, no_such_track, track_authorization, not_in_track}
use lua_mongodb.Plan.Record.{status_in}
use lua_mongodb.Plan.State.{status_of}

-- the activities have statuses, and none of them is `in_progress`
abbrev pub AllIdle : Fields → Activities → Type 0
AllIdle progress [] = Unit
AllIdle progress ((id, activity) ∷ rest) =
    ((s : Json) × (status_for progress id ≡ ok s) × (is_text s "in_progress" ≡ false))
    × AllIdle progress rest

-- the dependencies are completed
abbrev pub AllCompleted : Fields → List Json → Type 0
AllCompleted progress [] = Unit
AllCompleted progress (d ∷ ds) =
    ((s : Json) × (status_of progress d ≡ ok s) × (is_text s "completed" ≡ true))
    × AllCompleted progress ds

pub any_in_progress-AllIdle :
    (progress : Fields) (acts : Activities)
    → (any_in_progress progress acts ≡ ok false) ↔ AllIdle progress acts
unfolding any_in_progress
any_in_progress-AllIdle progress [] = (λ h. tt, λ h. refl)
any_in_progress-AllIdle progress ((id, activity) ∷ rest) =
    let (to, from) = any_in_progress-AllIdle progress rest in
    (
      λ h.
          let (s, found, later) = bind-eq-ok (status_for progress id) _ h in
          elim (Bool-cases (is_text s "in_progress")) [
            | inl e ↦ cc (rw e at later)
            | inr e ↦ ((s, found, e), to (rw e at later))
          ],
      λ h. let ((s, found, e), others) = h in rw (found, e) (from others),
    )

pub incomplete-AllCompleted :
    (progress : Fields) (ds : List Json)
    → (incomplete progress ds ≡ ok []) ↔ AllCompleted progress ds
unfolding incomplete
incomplete-AllCompleted progress [] = (λ h. tt, λ h. refl)
incomplete-AllCompleted progress (d ∷ ds) =
    let (to, from) = incomplete-AllCompleted progress ds in
    (
      λ h.
          let (s, found, h₁) = bind-eq-ok (status_of progress d) _ h in
          let (rest, others, last) = bind-eq-ok (incomplete progress ds) _ h₁ in
          elim (Bool-cases (is_text s "completed")) [
            | inl e ↦ ((s, found, e), to (others ∙ (rw e at last)))
            | inr e ↦ cc (rw e at last)
          ],
      λ h. let ((s, found, e), others) = h in rw (found, from others, e) refl,
    )

pub check-passed : (b : Bool) (issue : Issue) (u : Unit {0}) → check b issue ≡ ok u → b ≡ true
check-passed true issue u h = refl
check-passed false issue u h = cc

pub not-passed : (b : Bool) (issue : Issue) (u : Unit {0}) → check (not b) issue ≡ ok u → b ≡ false
not-passed true issue u h = cc
not-passed false issue u h = refl

pub check_none-passed :
    (issues : List Issue) (u : Unit {0}) → check_none issues ≡ ok u → issues ≡ []
check_none-passed [] u h = refl
check_none-passed (i ∷ issues) u h = cc

pub none_incomplete-passed : (ds : List Json) (u : Unit {0}) → none_incomplete ds ≡ ok u → ds ≡ []
none_incomplete-passed [] u h = refl
none_incomplete-passed (d ∷ ds) u h = cc

-- Without a track that is asked for, the activity is no additional work; with one, it is a track of the
-- plan, and that of the activity.
abbrev pub TrackFits : Fields → Fields → Option String → Type 0
TrackFits plan activity none = is_text (get_or activity "milestone" null) "additional" ≡ false
TrackFits plan activity (some t) =
    (contains (declared_track_ids plan) t ≡ true)
    × (is_text (get_or activity "track" null) t ≡ true)

-- what `start` checks of the track
abbrev TrackChecks : String → Option String → Fields → Fields → Type 0
TrackChecks id track plan activity =
    (track_declared plan track ≡ ok tt)
    × (track_authorized id (get_or activity "milestone" null) track ≡ ok tt)
    × (track_matches id (get_or activity "track" null) track ≡ ok tt)

check-holds : (b : Bool) (issue : Issue) → b ≡ true → check b issue ≡ ok tt
check-holds true issue h = refl
check-holds false issue h = cc

pub TrackChecks-TrackFits :
    (id : String) (track : Option String) (plan activity : Fields)
    → TrackChecks id track plan activity ↔ TrackFits plan activity track
TrackChecks-TrackFits id none plan activity =
    let additional = is_text (get_or activity "milestone" null) "additional" in
    (
      λ h. not-passed additional (track_authorization id) tt h.1,
      λ h. (refl, check-holds (not additional) (track_authorization id) (rw h refl), refl),
    )
TrackChecks-TrackFits id (some t) plan activity = (
  λ h. (
    check-passed (contains (declared_track_ids plan) t) (no_such_track t) tt h.0,
    check-passed (is_text (get_or activity "track" null) t) (not_in_track id t) tt h.2,
  ),
  λ h. (check-holds _ (no_such_track t) h.0, refl, check-holds _ (not_in_track id t) h.1),
)

pub startable-cases :
    (status : Json)
    → (status_in startable status ≡ true)
      ↔ ((is_text status "pending" ≡ true) ⊎ (is_text status "needs_review" ≡ true))
startable-cases status = either (is_text status "pending") (is_text status "needs_review")
  where
    either : (b c : Bool) → ((b || (c || false)) ≡ true) ↔ ((b ≡ true) ⊎ (c ≡ true))
    either true c = (λ h. inl refl, λ h. refl)
    either false true = (λ h. inr refl, λ h. refl)
    either false false = (λ h. cc, λ h. elim h [ inl p ↦ p | inr p ↦ p ])
