-- ===== src/Runner/Entries.antt =====
-- The entries of a report, and what a run behind closed gates sends.
use aoa_conformance.Prelude.{
  ℕ, ◌+◌, sym, String, ◌≡◌, ◌≤◌, refl, ap, Bool, true, false, inl, inr, Option, none, some, List,
  [], ◌∷◌, ◌++◌, map, arith, is_empty, if◌then◌else◌,
}
use aoa_conformance.Prelude.Lists.{All, All-append, any, length, length-append}
use aoa_conformance.Model.{Entry, CheckMeta, Target, SkipReason, error, skip}
use aoa_conformance.Capability.{capabilities}
use aoa_conformance.Gate.{Gate, Check, needs, evaluate, is_unmet_reason, skipped, returned}
use aoa_conformance.Gate.Laws.{evaluate_cases}
use mathlib.Core.List.{append_assoc}
use aoa_conformance.Report.{Report}
use aoa_conformance.Runner.{
  Environment, Runner, discovery_entries, registration_entries, evaluate_safely, run_checks, run,
  discovered_unless, planned,
}

abbrev pub checks_of : List Entry → List CheckMeta
checks_of es = map (λ (e : Entry). e.check) es

abbrev pub metas : {W : Type 0} → List (Check W) → List CheckMeta
metas {W} cs = map (λ (c : Check W). c.meta) cs

checks_of-run_checks :
    {W : Type 0} (elapsed : W → W → ℕ) (cs : List (Check W)) (t : Target) (w : W)
    → checks_of (run_checks elapsed cs t w).0 ≡ metas cs
unfolding run_checks
checks_of-run_checks elapsed [] t w = refl
checks_of-run_checks elapsed (c ∷ cs) t w =
    ap (λ l. c.meta ∷ l) (checks_of-run_checks elapsed cs t (evaluate_safely elapsed c t w).1)

-- At most `n` entries, all errors.
pub record IsSynthetic (n : ℕ) (es : List Entry) : Type 0 where
  pub few : length es ≤ n
  pub errors : All (λ (e : Entry). e.result.status ≡ error) es

IsSynthetic-append :
    (m n : ℕ) (xs ys : List Entry)
    → IsSynthetic m xs
    → IsSynthetic n ys
    → IsSynthetic (m + n) (xs ++ ys)
IsSynthetic-append m n xs ys hx hy = record {
  few = omega (arith, length-append xs ys, hx.few, hy.few);
  errors = All-append _ xs ys (hx.errors, hy.errors);
}

IsSynthetic-if :
    (b : Bool) (e : Entry) → e.result.status ≡ error → IsSynthetic 1 (if b then [] else e ∷ [])
IsSynthetic-if true e h = record { few = omega arith; errors = tt }
IsSynthetic-if false e h = record { few = omega arith; errors = (h, tt) }

discovery_entries-IsSynthetic : (o : Option String) → IsSynthetic 1 (discovery_entries o)
discovery_entries-IsSynthetic none = record { few = omega arith; errors = tt }
discovery_entries-IsSynthetic (some e) = record { few = omega arith; errors = (refl, tt) }

module _ {W : Type 0} (env : Environment W) (r : Runner W) where
  -- A report of the runner's checks: synthetic errors first, then one entry for each check.
  pub record IsComplete (rep : Report) : Type 0 where
    pub synthetic : List Entry
    pub checked : List Entry
    pub split : rep.entries ≡ synthetic ++ checked
    pub only_errors : IsSynthetic 2 synthetic
    pub one_for_each : checks_of checked ≡ metas r.registry
    pub matrix : rep.capabilities ≡ capabilities rep.entries

  -- Whatever the servers answer and whichever checks panic, the report has at most two synthetic
  -- entries, both errors, then one entry for each check of the registry in its order; its support
  -- matrix is read off all of them.
  pub run-IsComplete : (t : Target) (w : W) → IsComplete (run env r t w).0
  unfolding run
  run-IsComplete t w =
      let found = discovered_unless env r.skip_discovery t w in
      let ready = planned env r.resolve_opts found.1 found.2 in
      record {
        synthetic = discovery_entries found.0 ++ registration_entries ready.0.plan;
        checked = (run_checks (env.elapsed) r.registry ready.0 ready.1).0;
        split =
            sym (append_assoc (discovery_entries found.0) (registration_entries ready.0.plan) _);
        only_errors =
            IsSynthetic-append 1 1 (discovery_entries found.0) (registration_entries ready.0.plan)
              (discovery_entries-IsSynthetic found.0)
              (IsSynthetic-if (is_empty ready.0.plan.registration_error) _ refl);
        one_for_each = checks_of-run_checks (env.elapsed) r.registry ready.0 ready.1;
        matrix = refl;
      }

module _ {W : Type 0} (t : Target) where
  -- A check with gates of which one is unmet.
  pub record IsClosed (c : Check W) : Type 0 where
    pub gates : List Gate
    pub gated_by : c.precondition ≡ some (needs gates)
    pub one_unmet : any (λ (g : Gate). is_unmet_reason (g t)) gates ≡ true

  evaluate-IsClosed :
      (c : Check W) (w : W)
      → IsClosed c
      → (why : SkipReason) × (evaluate c t w ≡ (returned (skipped why), w))
  evaluate-IsClosed c w closed = elim (evaluate_cases c closed.gates t w closed.gated_by) [
    | inl (all_met, ran) ↦ let wrong = closed.one_unmet in ground arith
    | inr (f, stays) ↦ (f.gate t, stays)
  ]

  -- If each check has an unmet gate, the checks send nothing and every entry is a skip.
  pub run_checks-IsClosed :
      (elapsed : W → W → ℕ) (cs : List (Check W)) (w : W)
      → All IsClosed cs
      → ((run_checks elapsed cs t w).1 ≡ w)
        × All (λ (e : Entry). e.result.status ≡ skip) (run_checks elapsed cs t w).0
  unfolding run_checks evaluate_safely
  run_checks-IsClosed elapsed [] w closed = (refl, tt)
  run_checks-IsClosed elapsed (c ∷ cs) w closed =
      let (why, stays) = evaluate-IsClosed c w closed.0 in
      rw stays (
        (run_checks-IsClosed elapsed cs w closed.1).0,
        (refl, (run_checks-IsClosed elapsed cs w closed.1).1),
      )
