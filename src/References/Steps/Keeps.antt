-- ===== src/References/Steps/Keeps.antt =====
-- Steps that leave references.json as it is, and what holds of the values that steps return.
use lua_mongodb.Base.{String, Bool, true, false, List, ◌≡◌, refl, ◌∙◌, sym, ap, subst, arith}
use lua_mongodb.Json.{obj, Fields}
use lua_mongodb.Plan.Files.{File, missing, malformed, holds}
use lua_mongodb.Raise.{ok, raise, ok_unique}
use lua_mongodb.References.Problem.{Problem, Py}
use lua_mongodb.References.Steps.{
  Store, Tools, Step, ◌>>=◌, ◌>>◌, continue, git_step, lift, pure, check, require_git,
  read_document, output_of, read_object,
}

read_object-eq-ok : (f : File) (fs : Fields) → read_object f ≡ ok fs → f ≡ holds (obj fs)
read_object-eq-ok missing fs h = cc
read_object-eq-ok malformed fs h = cc
read_object-eq-ok (holds (obj gs)) fs h =
    ap (λ (x : Fields). holds (obj x)) (ok_unique (ok gs) refl h)
read_object-eq-ok (holds _) fs h = ground arith

module _ {W : Type 0} where
  pub record Keeps {A : Type 0} (m : Step W A) : Type 0 where
    pub kept : (s : Store W) → (m s).1.document ≡ s.document

  pub Keeps-lift : {A : Type 0} (r : Py A) → Keeps (lift {W = W} r)
  Keeps-lift r = record { kept = λ s. refl }

  pub Keeps-check : (b : Bool) (problem : Problem) → Keeps (check {W = W} b problem)
  Keeps-check true problem = record { kept = λ s. refl }
  Keeps-check false problem = record { kept = λ s. refl }

  pub Keeps-git :
      (tools : Tools W) (directory : String) (arguments : List String)
      → Keeps (git_step tools directory arguments)
  Keeps-git tools directory arguments = record { kept = λ s. refl }

  -- the rest of a block, from the result of its first step
  Keeps-rest :
      {A B : Type 0} (f : A → Step W B) (r : Py A × Store W)
      → ((a : A) → Keeps (f a))
      → (continue f r).1.document ≡ r.1.document
  Keeps-rest f (ok a, s) k = (k a).kept s
  Keeps-rest f (raise e, s) k = refl

  pub Keeps-bind :
      {A B : Type 0} (m : Step W A) (f : A → Step W B)
      → Keeps m
      → ((a : A) → Keeps (f a))
      → Keeps (m >>= f)
  Keeps-bind m f k later = record { kept = λ s. Keeps-rest f (m s) later ∙ k.kept s }

  pub Keeps-require_git :
      (tools : Tools W) (directory : String) (arguments : List String) (problem : Problem)
      → Keeps (require_git tools directory arguments problem)
  unfolding require_git
  Keeps-require_git tools directory arguments problem =
      Keeps-bind (git_step tools directory arguments)
        (λ completed. lift (output_of problem completed)) (Keeps-git tools directory arguments)
        (λ completed. Keeps-lift (output_of problem completed))

  pub Keeps-read_document : Keeps (read_document {W = W})
  unfolding read_document
  Keeps-read_document = record { kept = λ s. refl }

  -- what holds of the value that a step returns, begun where references.json is `d`
  pub record Post {A : Type 0} (P : A → Type 0) (d : File) (m : Step W A) : Type 0 where
    pub at : (s : Store W) → s.document ≡ d → (a : A) → (m s).0 ≡ ok a → P a

  Post-rest :
      {A B : Type 0} (P : B → Type 0) (Q : A → Type 0) (d : File) (f : A → Step W B)
      (r : Py A × Store W)
      → r.1.document ≡ d
      → ((a : A) → r.0 ≡ ok a → Q a)
      → ((a : A) → Q a → Post P d (f a))
      → (b : B) → (continue f r).0 ≡ ok b
      → P b
  Post-rest P Q d f (ok a, s) e q later b h = (later a (q a refl)).at s e b h
  Post-rest P Q d f (raise x, s) e q later b h = cc

  pub Post-bind :
      {A B : Type 0} (P : B → Type 0) (Q : A → Type 0) (d : File) (m : Step W A) (f : A → Step W B)
      → Keeps m
      → Post Q d m
      → ((a : A) → Q a → Post P d (f a))
      → Post P d (m >>= f)
  Post-bind P Q d m f k q later = record {
    at = λ s e b h. Post-rest P Q d f (m s) (k.kept s ∙ e) (q.at s e) later b h;
  }

  pub Post-lift : {A : Type 0} (r : Py A) (d : File) → Post (λ a. r ≡ ok a) d (lift {W = W} r)
  Post-lift r d = record { at = λ s e a h. h }

  pub Post-check :
      (b : Bool) (problem : Problem) (d : File) → Post (λ _. b ≡ true) d (check {W = W} b problem)
  Post-check true problem d = record { at = λ s e a h. refl }
  Post-check false problem d = record { at = λ s e a h. cc }

  pub Post-any : {A : Type 0} (d : File) (m : Step W A) → Post (λ _. Unit {0}) d m
  Post-any d m = record { at = λ s e a h. tt }

  pub Post-pure : {A : Type 0} (P : A → Type 0) (d : File) (a : A) → P a → Post P d (pure {W = W} a)
  Post-pure P d a p = record { at = λ s e b h. subst P (ok_unique (ok a) refl h) p }

  pub Post-read_document : (d : File) → Post (λ fs. d ≡ holds (obj fs)) d (read_document {W = W})
  unfolding read_document
  Post-read_document d = record { at = λ s e fs h. sym e ∙ read_object-eq-ok s.document fs h }

  -- the same, for the steps that a block most often begins with
  pub Post-after_lift :
      {A B : Type 0} (P : B → Type 0) (d : File) (r : Py A) (f : A → Step W B)
      → ((a : A) → r ≡ ok a → Post P d (f a))
      → Post P d (lift r >>= f)
  Post-after_lift P d r f later =
      Post-bind P (λ a. r ≡ ok a) d (lift r) f (Keeps-lift r) (Post-lift r d) later

  pub Post-after_check :
      {B : Type 0} (P : B → Type 0) (d : File) (b : Bool) (problem : Problem) (m : Step W B)
      → (b ≡ true → Post P d m)
      → Post P d (check b problem >> m)
  Post-after_check P d b problem m later =
      Post-bind P (λ _. b ≡ true) d (check b problem) (λ _. m) (Keeps-check b problem)
        (Post-check b problem d) (λ _. later)

  pub Post-after_any :
      {A B : Type 0} (P : B → Type 0) (d : File) (m : Step W A) (f : A → Step W B)
      → Keeps m
      → ((a : A) → Post P d (f a))
      → Post P d (m >>= f)
  Post-after_any P d m f k later =
      Post-bind P (λ _. Unit {0}) d m f k (Post-any d m) (λ a _. later a)
