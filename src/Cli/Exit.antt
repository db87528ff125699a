-- ===== src/Cli/Exit.antt =====
-- When a run exits with 0.
use aoa_conformance.Prelude.{◌≡◌, refl, Bool, List, [], ◌∷◌, ◌&&◌, ◌||◌, not, arith, if◌then◌else◌}
use aoa_conformance.Prelude.Lists.{any}
use aoa_conformance.Model.{Severity, must, should, Entry}
use aoa_conformance.Report.{Report}
use aoa_conformance.Cli.{same_severity, is_failure, has_failure, finish}

abbrev pub fails_at : Severity → Entry → Bool
fails_at sev e = same_severity e.check.severity sev && is_failure e.result.status

has_failure-any : (sev : Severity) (es : List Entry) → has_failure sev es ≡ any (fails_at sev) es
unfolding has_failure
has_failure-any sev [] = refl
has_failure-any sev (e ∷ es) = ground (arith, has_failure-any sev es)

-- An entry that makes a run fail: a MUST that failed or errored, or under --strict a SHOULD.
abbrev pub is_fatal : Bool → Entry → Bool
is_fatal strict e = fails_at must e || (strict && fails_at should e)

any-is_fatal :
    (strict : Bool) (es : List Entry)
    → any (is_fatal strict) es ≡ (any (fails_at must) es || (strict && any (fails_at should) es))
any-is_fatal strict [] = ground arith
any-is_fatal strict (e ∷ es) = ground (arith, any-is_fatal strict es)

-- The exit code is 0 exactly when the report was written and no entry of it is fatal, and 1
-- otherwise.
pub finish-fatal :
    (written strict : Bool) (rep : Report)
    → finish written strict rep
      ≡ (if written && not (any (is_fatal strict) rep.entries) then 0 else 1)
unfolding finish
finish-fatal written strict rep = ground (
  arith,
  has_failure-any must rep.entries,
  has_failure-any should rep.entries,
  any-is_fatal strict rep.entries,
)
