-- ===== src/Readme/Table/Main.antt =====
-- What a run of `main` leaves.
use lua_mongodb.Base.{
  String, Bool, true, false, Option, some, ◌≡◌, ◌≢◌, ◌⊎◌, inl, inr, refl, ap, subst, str_eq, eq_iff,
  arith, Bool-cases, if◌then◌else◌,
}
use lua_mongodb.Plan.Files.{File}
use lua_mongodb.Raise.{ok, raise, ok_unique, bind-eq-ok}
use lua_mongodb.Readme.Problem.{readme_error, crash, Py}
use lua_mongodb.Readme.Section.{updated_readme}
use lua_mongodb.Readme.Table.{Formats, Run, finish, main, render_table}
use lua_mongodb.Readme.Versions.{Sources}

-- a README that `updated_readme` makes of another with the table of the evidence
abbrev pub IsUpdated : Sources → Formats → File → File → String → Option String → Type 0
IsUpdated sources formats ledger_file catalog_file current readme =
    (table expected : String) × (render_table sources formats ledger_file catalog_file ≡ ok table)
    × (updated_readme current table ≡ ok expected)
    × (readme ≡ some expected)

-- a run without `--check`, or one that leaves what was there
abbrev pub MayWrite : Bool → String → Run → Type 0
MayWrite check_only current run = (check_only ≡ false) ⊎ (run.readme ≡ some current)

-- A run that succeeds leaves what was to be written, and one that fails leaves what was there, as does
-- one that only checks.
abbrev Ends : Bool → String → Py String → Run → Type 0
Ends check_only current r run =
    (((run.exit_code ≡ 0) × (expected : String) × (r ≡ ok expected) × (run.readme ≡ some expected))
      ⊎ ((run.exit_code ≢ 0) × (run.readme ≡ some current)))
    × MayWrite check_only current run

checked :
    (current expected : String)
    → Ends true current
        (ok expected)
        (record { exit_code = if str_eq current expected then 0 else 1; readme = some current })
checked current expected = elim (Bool-cases (str_eq current expected)) [
  | inl e ↦ rw e (inl (refl, expected, refl, ap some ((eq_iff current expected).0 e)), inr refl)
  | inr e ↦ rw e (inr (λ p. omega arith, refl), inr refl)
]

finished :
    (check_only : Bool) (current : String) (r : Py String) (run : Run)
    → finish check_only current r ≡ ok run
    → Ends check_only current r run
finished true current (ok expected) run h =
    subst (Ends true current (ok expected)) (ok_unique (finish true current (ok expected)) refl h)
      (checked current expected)
finished false current (ok expected) run h =
    subst (Ends false current (ok expected)) (ok_unique (finish false current (ok expected)) refl h)
      (inl (refl, expected, refl, refl), inl refl)
finished check_only current (raise (readme_error p)) run h =
    subst (Ends check_only current (raise (readme_error p)))
      (ok_unique (ok (record { exit_code = 2; readme = some current })) refl h)
      (inr (λ p. omega arith, refl), inr refl)
finished check_only current (raise crash) run h = cc

-- A run of `main` that raises nothing ends in one of two ways. Either its exit code is 0 and the README
-- is what `updated_readme` makes of the old one and the table of the evidence; or its exit code is not 0
-- and the README is the old one. With `--check` the README is the old one in both.
pub main-IsUpdated :
    (sources : Sources) (formats : Formats) (check_only : Bool) (ledger_file catalog_file : File)
    (current : String) (run : Run)
    → main sources formats check_only ledger_file catalog_file (some current) ≡ ok run
    → (((run.exit_code ≡ 0) × IsUpdated sources formats ledger_file catalog_file current run.readme)
        ⊎ ((run.exit_code ≢ 0) × (run.readme ≡ some current)))
      × ((check_only ≡ false) ⊎ (run.readme ≡ some current))
unfolding main
main-IsUpdated sources formats check_only ledger_file catalog_file current run h =
    let (left, may_write) = finished check_only current _ run h in
    elim left [
      | inr failed ↦ (inr failed, may_write)
      | inl (success, expected, e, there) ↦
          let (table, rendered, updated) =
            bind-eq-ok (render_table sources formats ledger_file catalog_file)
              (updated_readme current) e in
          (inl (success, (table, expected, rendered, updated, there)), may_write)
    ]
