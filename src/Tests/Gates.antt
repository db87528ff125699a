-- ===== src/Tests/Gates.antt =====
-- Runs of the gates, of a gated check and of the runner.
use aoa_conformance.Prelude.{ℕ, ◌==◌, ◌≡◌, refl, false, some, none, List, [], ◌∷◌}
use aoa_conformance.Prelude.Lists.{All}
use aoa_conformance.Model.{Entry, must, skip, profile_extended}
use aoa_conformance.Gate.{Gate, Check, panicked, needs, mcp_target, subject_token}
use aoa_conformance.Runner.{Environment, Runner, run, run_checks, filter_profiles, obtain_token}
use aoa_conformance.Runner.Entries.{IsComplete, run-IsComplete, run_checks-IsClosed}
use aoa_conformance.Tests.{
  Log, meta_of, server_target, answers, sample_codec, sample_decoder, sample_library, options_for,
}

abbrev gates : List Gate
gates = mcp_target ∷ subject_token ∷ []

-- A check that panics, behind the two gates.
abbrev gated_check : Check Log
gated_check = record {
  meta = meta_of "rfc8693.exchange" "RFC 8693" must;
  precondition = some (needs gates);
  run = λ t w. (panicked "nil map", w);
}

abbrev elapsed : Log → Log → ℕ
elapsed before after = 0

run_checks-IsClosed_example :
    ((run_checks elapsed (gated_check ∷ []) server_target []).1 ≡ [])
    × All
        (λ (e : Entry). e.result.status ≡ skip)
        (run_checks elapsed (gated_check ∷ []) server_target []).0
run_checks-IsClosed_example =
    run_checks-IsClosed server_target elapsed (gated_check ∷ []) []
      (record { gates = gates; gated_by = refl; one_unmet = refl }, tt)

abbrev environment : Environment Log
environment = record {
  send = answers 200 "{}";
  codec = sample_codec;
  decoder = sample_decoder;
  library = sample_library;
  is_loopback = λ host. host == "127.0.0.1";
  elapsed = elapsed;
}

abbrev open_check : Check Log
open_check = record {
  meta = meta_of "pkce.s256" "RFC 7636 (PKCE)" must;
  precondition = none;
  run = λ t w. (panicked "nil map", w);
}

abbrev runner : Runner Log
runner = record {
  registry = open_check ∷ gated_check ∷ [];
  skip_discovery = false;
  resolve_opts = some (options_for "");
}

run-IsComplete_example : IsComplete environment runner (run environment runner server_target []).0
run-IsComplete_example = run-IsComplete environment runner server_target []

filter_profiles_none : filter_profiles (profile_extended ∷ []) (open_check ∷ []) ≡ []
unfolding filter_profiles
filter_profiles_none = refl

obtain_token_supplied :
    obtain_token environment
      (λ form. "")
      (λ s. s)
      (λ body. "")
      (record server_target { creds = record (server_target.creds) { subject_token = "token" } })
      []
    ≡ (("token", "", none), [])
unfolding obtain_token
obtain_token_supplied = refl
