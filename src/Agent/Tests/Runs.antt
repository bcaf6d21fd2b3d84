-- ===== src/Agent/Tests/Runs.antt =====
-- A run of a command that prints its secret.
use burndrop.Agent.Run.{check_capture}
use burndrop.Crypto.Text.{rune_at}
use burndrop.Common.{
  ℕ, Bytes, codes, true, false, none, [], ◌∷◌, inl, refl, arith, bytes_eq, lookup,
}
use burndrop.Crypto.Base64
use burndrop.Link.Query
use burndrop.Storage.StdBase64
use burndrop.Storage.Manager
use burndrop.Agent.Redact
use burndrop.Agent.Run.{run, inject_all}
use burndrop.Agent.Run.Commands.{Machine, RunInput, RunOutput, exited, Injected}
use burndrop.Agent.Redact.Hidden.{IsOutside}
use burndrop.Agent.Redact.Replaced.{IsHideable}
use burndrop.Agent.Run.Hides.{IsFree, run-IsFree}
use burndrop.Agent.Tests.{env, world, stored}
use burndrop.Agent.World.{World}
use burndrop.Storage.Memory.{Entries}
use burndrop.Storage.Index.{absent}

abbrev hidden : Bytes
hidden = codes "hunter2"

abbrev machine : Machine
machine = record {
  run = λ p. record {
    stdout = codes "k=hunter2" ∷ [];
    stderr = [];
    ending = exited 0;
    deadline_exceeded = false;
  };
  environ = codes "K=v" ∷ [];
  base = λ s. s;
  ext = λ s. [];
  groups = λ s. none;
  find = λ p s. none;
}

abbrev input : RunInput
input = record {
  command = codes "show" ∷ [];
  variables = (codes "K", codes "key") ∷ [];
  cwd = [];
  stdin = [];
  timeout_seconds = 0;
  capture_as = none;
  discard_output = false;
  consume = false;
}

abbrev run_world : World Entries ℕ
run_world = record world {
  manager = record {
    persistent = [];
    session = (codes "key", record { value = hidden; meta = stored (codes "key") }) ∷ [];
    index = record { file = absent; writable = true };
  };
}

abbrev output : RunOutput
output = record {
  exit_code = 0;
  stdout = codes "k=[redacted:key]";
  stderr = [];
  truncated = false;
  timed_out = false;
  stored_as = [];
}

abbrev injected : Injected
injected = record { variable = codes "K"; name = codes "key"; value = hidden }

hidden-IsHideable : IsHideable hidden
hidden-IsHideable = (
  λ e. absurd (ground arith),
  λ e. absurd (ground arith),
  (
    λ e. absurd (ground arith),
    λ e. absurd (ground arith),
    (
      λ e. absurd (ground arith),
      λ e. absurd (ground arith),
      (
        λ e. absurd (ground arith),
        λ e. absurd (ground arith),
        (
          λ e. absurd (ground arith),
          λ e. absurd (ground arith),
          (
            λ e. absurd (ground arith),
            λ e. absurd (ground arith),
            (λ e. absurd (ground arith), λ e. absurd (ground arith), tt),
          ),
        ),
      ),
    ),
  ),
)

hidden-IsOutside : IsOutside hidden (run env machine input run_world).1.redactor
unfolding check_capture inject_all Manager.get lookup bytes_eq run rune_at Redact.add
    StdBase64.encode StdBase64.digit Base64.encode Base64.digit Query.escape Redact.contains
hidden-IsOutside = (refl, (refl, (refl, (refl, tt))))

run-IsFree_example :
    IsFree env machine hidden (codes "k=[redacted:key]") × IsFree env machine hidden []
unfolding check_capture inject_all Manager.get lookup bytes_eq run rune_at Redact.add
    StdBase64.encode StdBase64.digit Base64.encode Base64.digit Query.escape
run-IsFree_example =
    run-IsFree env machine input run_world run_world
      (inject_all env machine input.variables run_world).1 (run env machine input run_world).1 0
      (injected ∷ []) injected output refl refl (inl refl) refl (omega arith) hidden-IsHideable
      hidden-IsOutside
