-- ===== src/Agent/Run.antt =====
-- `Run` of internal/agent/run.go: a command with secrets in its environment. The operating system, package
-- regexp and package path/filepath are parameters. The variables are in the order in which the map gives
-- them. The duration and the message of an answer are left out.
pub mod Commands
pub mod Redacted
pub mod Hides
use burndrop.Common.{
  ℕ, ◌+◌, ◌-◌, Bytes, codes, bytes_eq, Bool, true, false, not, ◌&&◌, ◌||◌, Option, none, some, List,
  [], ◌∷◌, ◌++◌, length, take, drop, ltb, leb, ◌==◌, if◌then◌else◌,
}
use burndrop.Crypto.Text.{between}
use burndrop.Crypto.Trim.{trim_space}
use burndrop.Link.Origin.{trim_suffix}
use burndrop.Relay.Config.{is_negative, as_duration, less}
use burndrop.Storage.{
  invalid_name, not_found, too_large, Metadata, max_value_bytes, valid_name, parse_retention,
  is_alphanumeric,
}
use burndrop.Agent.Config.{retention_or_default, max_output}
use burndrop.Agent.Exec.{
  AgentError, storage_error, bad_command, not_allowed, bad_pattern, bad_variable, start_failed,
  Result, done, stopped, Exec, pure, raise, of_outcome, on_error, ◌>>=◌,
}
use burndrop.Agent.Redact.{Redactor, redact}
use burndrop.Agent.Records.{is_internal_kind, no_metadata}
use burndrop.Agent.World.{Env, World, now, store_put, store_get, store_delete, redact_value, log}
use burndrop.Agent.Run.Commands.{
  CaptureSpec, Injected, Machine, Process, Ran, RunInput, RunOutput, ended_as, entries_of,
  extract_capture, kept_environment, program_of, timeout_of, valid_variable, written,
}

module _ {S R : Type 0} (env : Env S R) (machine : Machine) where
  unfoldable pub is_listed : Bytes → List Bytes → Bool
  unfolding trim_suffix
  is_listed program [] = false
  is_listed program (p ∷ ps) =
      let base = machine.base program in
      bytes_eq p program
      || bytes_eq p base
      || bytes_eq (trim_suffix base (machine.ext base)) p
      || is_listed program ps

  -- `allowed`
  unfoldable pub is_allowed : Bytes → Bool
  unfolding is_listed
  is_allowed program =
      (length env.config.allowed_commands == 0) || is_listed program env.config.allowed_commands

  unfoldable pub one_group : Option ℕ → Bool
  one_group none = false
  one_group (some n) = n == 1

  unfoldable pub capture_retention : CaptureSpec → Bytes
  unfolding retention_or_default
  capture_retention c =
      if length c.retention == 0 then retention_or_default env.config else c.retention

  unfoldable pub check_capture : Option CaptureSpec → Exec (World S R) ℕ
  unfolding valid_name one_group now capture_retention parse_retention
  check_capture none = pure 0
  check_capture (some c) =
      if not (valid_name c.name)
      then raise (storage_error invalid_name)
      else if not (length c.pattern == 0) && not (one_group (machine.groups c.pattern))
      then raise bad_pattern
      else (do
        t ← now env
        (λ w. (of_outcome (parse_retention env.rfc3339 (capture_retention c) t), w)))

  unfoldable pub inject : Bytes → Bytes → Bytes × Metadata → Exec (World S R) Injected
  unfolding is_internal_kind redact_value
  inject variable name (value, meta) =
      if is_internal_kind meta.kind then raise (storage_error not_found) else (do
        u ← redact_value env name value
        pure (record { variable = variable; name = name; value = value }))

  unfoldable pub inject_variable : Bytes → Bytes → Exec (World S R) Injected
  unfolding valid_variable valid_name store_get inject
  inject_variable variable name =
      if not (valid_variable variable)
      then raise bad_variable
      else if not (valid_name name)
      then raise (storage_error invalid_name)
      else (do stored ← store_get env name; inject variable name stored)

  -- The loop over the variables.
  unfoldable pub inject_all : List (Bytes × Bytes) → Exec (World S R) (List Injected)
  unfolding inject_variable
  inject_all [] = pure []
  inject_all ((variable, name) ∷ vs) = do
    i ← inject_variable variable name
    is ← inject_all vs
    pure (i ∷ is)

  -- The deletion after the run; errors are dropped.
  unfoldable pub consume_all : List Injected → Exec (World S R) (Unit {0})
  unfolding store_delete
  consume_all [] = pure tt
  consume_all (i ∷ is) = do d ← store_delete env i.name; consume_all is

  unfoldable pub process_of : RunInput → List Injected → Process
  unfolding kept_environment entries_of timeout_of
  process_of input is = record {
    command = input.command;
    environment = kept_environment input.variables machine.environ ++ entries_of is;
    cwd = input.cwd;
    stdin = input.stdin;
    timeout = timeout_of input.timeout_seconds;
  }

  -- The text that is shown, and whether it was cut.
  unfoldable pub truncate : Bytes → Bytes × Bool
  unfolding max_output
  truncate s =
      if less (max_output env.config) (length s)
      then (take (max_output env.config) s ++ codes "\n[truncated]", true)
      else (s, false)

  unfoldable pub shown : Bytes → Exec (World S R) (Bytes × Bool)
  unfolding redact truncate
  shown s w = (done (truncate (redact w.redactor s)), w)

  unfoldable pub log_run : RunInput → Bytes → Exec (World S R) (Unit {0})
  unfolding log program_of
  log_run input result =
      log env (codes "run_with_secret") (machine.base (program_of input.command)) [] result

  unfoldable pub output_of : ℕ × Bool → Bytes × Bool → Bytes × Bool → Bytes → RunOutput
  output_of (code, late) (out, cut) (err, cut') name = record {
    exit_code = code;
    stdout = out;
    stderr = err;
    truncated = cut || cut';
    timed_out = late;
    stored_as = name;
  }

  unfoldable pub answer_capture :
      RunInput → ℕ × Bool → Ran → CaptureSpec → Bytes → Metadata → Exec (World S R) RunOutput
  unfolding redact_value shown written log_run output_of
  answer_capture input ending r c captured meta = do
    u ← redact_value env c.name captured
    e ← shown (written [] r.stderr)
    u ← log_run input (codes "captured")
    pure (output_of ending ([], false) e c.name)

  unfoldable pub keep_capture :
      RunInput → ℕ × Bool → Ran → CaptureSpec → Bytes → Exec (World S R) RunOutput
  unfolding store_put capture_retention answer_capture
  keep_capture input ending r c captured = do
    meta ← store_put env c.name captured (record no_metadata {
      retention = capture_retention c;
      purpose = c.purpose;
      source = codes "capture";
      sendable = true;
    })
    answer_capture input ending r c captured meta

  unfoldable pub no_capture : RunInput → ℕ × Bool → Ran → Exec (World S R) RunOutput
  unfolding log_run shown written output_of
  no_capture input ending r = do
    u ← log_run input (codes "capture_failed")
    e ← shown (written [] r.stderr)
    pure (output_of ending ([], false) e [])

  unfoldable pub after_extract :
      RunInput → ℕ × Bool → Ran → CaptureSpec → Result Bytes → Exec (World S R) RunOutput
  unfolding keep_capture no_capture
  after_extract input ending r c (done captured) = keep_capture input ending r c captured
  after_extract input ending r c (stopped e) = no_capture input ending r

  unfoldable pub show_output : RunInput → ℕ × Bool → Ran → Exec (World S R) RunOutput
  unfolding shown written output_of log_run
  show_output input ending r =
      if input.discard_output
      then (do u ← log_run input (codes "ran"); pure (output_of ending ([], false) ([], false) []))
      else (do
        o ← shown (written [] r.stdout)
        e ← shown (written [] r.stderr)
        u ← log_run input (codes "ran")
        pure (output_of ending o e []))

  unfoldable pub give_output :
      RunInput → ℕ × Bool → Ran → Option CaptureSpec → Exec (World S R) RunOutput
  unfolding show_output after_extract extract_capture written
  give_output input ending r none = show_output input ending r
  give_output input ending r (some c) =
      after_extract input ending r c (extract_capture machine (written [] r.stdout) c.pattern)

  -- From the end of the process.
  unfoldable pub after_run :
      RunInput → List Injected → Ran → Option (ℕ × Bool) → Exec (World S R) RunOutput
  unfolding log_run consume_all give_output
  after_run input is r none = do u ← log_run input (codes "start_failed"); raise start_failed
  after_run input is r (some ending) = do
    u ← (if input.consume then consume_all is else pure tt)
    give_output input ending r input.capture_as

  -- The two readings of the clock around the process give the duration.
  unfoldable pub run_process : RunInput → List Injected → Exec (World S R) RunOutput
  unfolding now process_of ended_as after_run
  run_process input is = do
    start ← now env
    let r = machine.run (process_of input is)
    end ← now env
    after_run input is r (ended_as r.deadline_exceeded r.ending)

  unfoldable pub run_checked : RunInput → Exec (World S R) RunOutput
  unfolding inject_all run_process
  run_checked input = do is ← inject_all input.variables; run_process input is

  unfoldable pub run : RunInput → Exec (World S R) RunOutput
  unfolding trim_space program_of is_allowed check_capture run_checked
  run input =
      if length (trim_space (program_of input.command)) == 0
      then raise bad_command
      else if not (is_allowed (program_of input.command))
      then raise not_allowed
      else (do t ← check_capture input.capture_as; run_checked input)
