-- ===== src/References/Advance/Pins.antt =====
-- What `advance_reference` leaves in references.json.
use lua_mongodb.Base.{
  String, Bool, true, false, not, ◌≡◌, ◌⊎◌, inl, inr, refl, sym, ap, subst, ◌∙◌, arith, Option,
  none, some, List, [], ◌∷◌, str_eq, eq_iff, ◌==◌, Option-cases, Bool-cases,
}
use lua_mongodb.Json.{Json, str, arr, obj, Fields, end, lookup, get_or, put, is_text}
use lua_mongodb.Json.Laws.{lookup-put}
use lua_mongodb.Plan.Files.{File, holds}
use lua_mongodb.Raise.{ok, raise, ok_unique}
use lua_mongodb.References.Advance.{Opened, pinned, reference_in, run_generators, advance_reference}
use lua_mongodb.References.Steps.{
  Tools, Store, Step, ◌>>=◌, continue, ◌>>◌, write_document, item, pure,
}
use lua_mongodb.References.Problem.{Py, Failure, update_error, generator_failed}
use lua_mongodb.References.Steps.Keeps.{
  Keeps, Keeps-check, Keeps-require_git, Post, Post-check, Post-any,
}
use lua_mongodb.References.Advance.Keeps.{
  Keeps-run_generators, Keeps-follow_commit, Keeps-change_summary, Keeps-open_reference,
}
use lua_mongodb.References.Advance.Documents.{IsOpened, Post-open_reference, Pins}

-- a failed generator
abbrev pub IsGeneratorFailure : Failure → Type 0
IsGeneratorFailure e = (command : List String) × (e ≡ update_error (generator_failed command))

-- what an advance leaves, by its result
abbrev pub Leaves : {A : Type 0} → String → String → File → Py A → File → Type 0
Leaves name commit before (ok summary) after = Pins name commit before after
Leaves name commit before (raise e) after =
    (after ≡ before) ⊎ (Pins name commit before after × IsGeneratorFailure e)

obj-injective : {fs gs : Fields} → obj fs ≡ obj gs → fs ≡ gs
obj-injective h = cc

reference_in-found :
    (name : String) (references reference : Json)
    → reference_in name references ≡ ok reference
    → (fs : Fields) × (references ≡ obj fs) × (lookup name fs ≡ some reference)
reference_in-found name (obj fs) reference h = elim (Option-cases (lookup name fs)) [
  | inl e ↦ cc (rw (e, reference_in) at h)
  | inr (v, e) ↦ (fs, refl, e ∙ ap some (ok_unique (ok v) refl (rw (e, reference_in) at h)))
]
reference_in-found name (arr xs) reference h = ground arith
reference_in-found name (str s) reference h = ground arith
reference_in-found name _ reference h = cc

item-found :
    (value : Json) (key : String) (found : Json)
    → item value key ≡ ok found
    → (fs : Fields) × (value ≡ obj fs) × (lookup key fs ≡ some found)
item-found (obj fs) key found h = elim (Option-cases (lookup key fs)) [
  | inl e ↦ cc (rw (e, item) at h)
  | inr (v, e) ↦ (fs, refl, e ∙ ap some (ok_unique (ok v) refl (rw (e, item) at h)))
]
item-found _ key found h = cc

-- a name is not found where a key is absent
get_or-found :
    (key name : String) (document references : Fields) (reference : Json)
    → get_or document key (obj end) ≡ obj references
    → lookup name references ≡ some reference
    → lookup key document ≡ some (obj references)
unfolding get_or lookup
get_or-found key name document references reference h found =
    elim (Option-cases (lookup key document)) [
      | inl e ↦
          let empty : end ≡ references = obj-injective (rw (e, get_or) at h) in
          absurd
            (absent (subst (λ (fs : Fields). lookup name fs ≡ some reference) (sym empty) found))
      | inr (v, e) ↦ e ∙ ap some (rw (e, get_or) at h)
    ]
  where
    absent : ◌≡◌ {A = Option Json} none (some reference) → ⊥
    absent p = cc

is_text-other :
    (value : Json) (old new : String)
    → is_text value old ≡ true
    → str_eq new old ≡ false
    → is_text value new ≡ false
is_text-other (str s) old new h other = elim (Bool-cases (str_eq s new)) [
  | inl e ↦
      let same : new ≡ old = sym ((eq_iff s new).0 e) ∙ (eq_iff s old).0 h in
      cc ((eq_iff new old).1 same, other)
  | inr e ↦ e
]
is_text-other _ old new h other = cc

pinned-Pins :
    (name commit : String) (d : File) (opened : Opened)
    → IsOpened name commit d opened
    → str_eq commit opened.old ≡ false
    → Pins name commit d (holds (obj (pinned name commit opened)))
pinned-Pins name commit d opened o other =
    let (references, is_references, has_reference) =
      reference_in-found name opened.references opened.reference o.found in
    let (old, has_old, is_old) = o.pinned_to in
    let (reference, is_reference, has_commit) = item-found opened.reference "commit" old has_old in
    let new_reference = put "commit" (str commit) reference in
    let new_references = put name (obj new_reference) references in
    record {
      document = opened.document;
      references = references;
      reference = reference;
      old = old;
      new_document = put "references" (obj new_references) opened.document;
      new_references = new_references;
      new_reference = new_reference;
      is_hash = o.named;
      was = o.read;
      has_references =
          get_or-found "references" name opened.document references opened.reference
            (sym o.listed ∙ is_references) has_reference;
      has_reference = has_reference ∙ ap some is_reference;
      has_commit = has_commit;
      other_commit = is_text-other old opened.old commit is_old other;
      left = rw (is_references, is_reference) refl;
      in_document = λ other. lookup-put "references" other _ opened.document;
      in_references = λ other. lookup-put name other _ references;
      in_reference = λ other. lookup-put "commit" other _ reference;
    }

module _ {W : Type 0} (name commit : String) (d : File) where
  record Atomic {A : Type 0} (m : Step W A) : Type 0 where
    pub left : (s : Store W) → s.document ≡ d → Leaves name commit d (m s).0 (m s).1.document

  Atomic-rest :
      {A B : Type 0} (Q : A → Type 0) (f : A → Step W B) (r : Py A × Store W)
      → r.1.document ≡ d
      → ((a : A) → r.0 ≡ ok a → Q a)
      → ((a : A) → Q a → Atomic (f a))
      → Leaves name commit d (continue f r).0 (continue f r).1.document
  Atomic-rest Q f (ok a, s) e q later = (later a (q a refl)).left s e
  Atomic-rest Q f (raise x, s) e q later = inl e

  Atomic-bind :
      {A B : Type 0} (Q : A → Type 0) (m : Step W A) (f : A → Step W B)
      → Keeps m
      → Post Q d m
      → ((a : A) → Q a → Atomic (f a))
      → Atomic (m >>= f)
  Atomic-bind Q m f k q later = record {
    left = λ s e. Atomic-rest Q f (m s) (k.kept s ∙ e) (q.at s e) later;
  }

  -- what is left to do once the document is written
  Pins-rest :
      {A B : Type 0} (a : A) (r : Py B × Store W)
      → Pins name commit d r.1.document
      → ((e : Failure) → r.0 ≡ raise e → IsGeneratorFailure e)
      → Leaves name commit d
          (continue (λ _. pure a) r).0
          (continue (λ _. pure {W = W} a) r).1.document
  Pins-rest a (ok b, s) p failed = p
  Pins-rest a (raise e, s) p failed = inr (p, failed e refl)

raise-injective : {A : Type 0} {e f : Failure} → ◌≡◌ {A = Py A} (raise e) (raise f) → e ≡ f
raise-injective h = cc

not-eq-true : (b : Bool) → not b ≡ true → b ≡ false
not-eq-true true h = cc
not-eq-true false h = refl

module _ {W : Type 0} (tools : Tools W) where
  run_generators-fails :
      (commands : List (List String)) (s : Store W) (e : Failure)
      → (run_generators tools commands s).0 ≡ raise e
      → IsGeneratorFailure e
  unfolding run_generators
  run_generators-fails [] s e h = cc
  run_generators-fails (command ∷ rest) s e h =
      let (completed, world) = tools.interpret command s.world in
      elim (Bool-cases (completed.exit_code == 0)) [
        | inl passed ↦ run_generators-fails rest (record s { world = world }) e (rw passed at h)
        | inr failed ↦ (command, raise-injective (sym (rw failed at h)))
      ]

  written-Atomic :
      (name commit : String) (d : File) (opened : Opened) {A : Type 0} (summary : A)
      (commands : List (List String))
      → IsOpened name commit d opened
      → str_eq commit opened.old ≡ false
      → Atomic name commit d (
          write_document (pinned name commit opened)
          >> (run_generators tools commands >> pure summary))
  written-Atomic name commit d opened summary commands is_opened other = record {
    left = λ s e.
        let pinned_store = record s { document = holds (obj (pinned name commit opened)) } in
        let kept = (Keeps-run_generators tools commands).kept pinned_store in
        Pins-rest name commit d summary (run_generators tools commands pinned_store)
          (subst (Pins name commit d) (sym kept) (pinned-Pins name commit d opened is_opened other))
          (run_generators-fails commands pinned_store);
  }

  advance_reference-Atomic :
      (name commit : String) (d : File) (allow_non_fast_forward : Bool)
      (commands : Option (List (List String)))
      → Atomic name commit d (advance_reference tools name commit allow_non_fast_forward commands)
  unfolding advance_reference
  advance_reference-Atomic name commit d allow commands =
      Atomic-bind name commit d _ _ _ (Keeps-open_reference tools name commit)
        (Post-open_reference tools name commit d)
        λ opened is_opened.
          Atomic-bind name commit d _ _ _ (Keeps-check _ _) (Post-check _ _ _) λ _ other.
            Atomic-bind name commit d _ _ _ (Keeps-follow_commit tools allow name commit opened)
              (Post-any _ _)
              λ _ _.
                Atomic-bind name commit d _ _ _ (Keeps-change_summary tools _ _ _) (Post-any _ _)
                  λ summary _.
                    Atomic-bind name commit d _ _ _ (Keeps-require_git tools _ _ _) (Post-any _ _)
                      λ moved _.
                        written-Atomic name commit d opened summary _ is_opened
                          (not-eq-true _ other)

  -- When `advance_reference` returns, references.json has the new commit, a full lower-case hash, under
  -- the named reference, which was in it with another commit; every other key of the document, of its
  -- references and of the reference has the value that it had. When it raises, the file is as it was, or
  -- the exception is that of a failed generator and the file has the new commit in the same way. Git and
  -- the generators are taken to leave this file alone.
  pub advance_reference-Leaves :
      (name commit : String) (allow_non_fast_forward : Bool)
      (commands : Option (List (List String))) (s : Store W)
      → Leaves name commit s.document
          (advance_reference tools name commit allow_non_fast_forward commands s).0
          (advance_reference tools name commit allow_non_fast_forward commands s).1.document
  advance_reference-Leaves name commit allow commands s =
      (advance_reference-Atomic name commit s.document allow commands).left s refl
