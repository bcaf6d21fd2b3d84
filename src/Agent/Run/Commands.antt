-- ===== src/Agent/Run/Commands.antt =====
-- The data of internal/agent/run.go, the limits, and what a process is given and leaves.
use burndrop.Common.{
  ℕ, ◌-◌, Bytes, codes, bytes_eq, Bool, true, false, not, ◌&&◌, ◌||◌, Option, none, some, List, [],
  ◌∷◌, ◌++◌, length, take, ltb, leb, ◌==◌, if◌then◌else◌,
}
use burndrop.Crypto.Text.{between}
use burndrop.Crypto.Trim.{trim_space}
use burndrop.Relay.Config.{as_duration, less}
use burndrop.Storage.{too_large, max_value_bytes, is_alphanumeric}
use burndrop.Agent.Exec.{storage_error, bad_pattern, Result, done, stopped}

pub record CaptureSpec : Type 0 where
  pub name : Bytes
  pub pattern : Bytes
  pub retention : Bytes
  pub purpose : Bytes

pub record RunInput : Type 0 where
  pub command : List Bytes
  -- The variables, with the names of their secrets.
  pub variables : List (Bytes × Bytes)
  pub cwd : Bytes
  pub stdin : Bytes
  -- The 64-bit pattern of an int.
  pub timeout_seconds : ℕ
  pub capture_as : Option CaptureSpec
  pub discard_output : Bool
  pub consume : Bool

pub record RunOutput : Type 0 where
  -- The 64-bit pattern of an int.
  pub exit_code : ℕ
  pub stdout : Bytes
  pub stderr : Bytes
  pub truncated : Bool
  pub timed_out : Bool
  pub stored_as : Bytes

pub record Process : Type 0 where
  pub command : List Bytes
  pub environment : List Bytes
  pub cwd : Bytes
  pub stdin : Bytes
  pub timeout : ℕ

-- How a process ends: with a code, or with another error than its exit.
pub data Ending : Type 0 where
  exited : ℕ → Ending
  broke_off : Ending

pub record Ran : Type 0 where
  -- What the process writes, write by write.
  pub stdout : List Bytes
  pub stderr : List Bytes
  pub ending : Ending
  -- Whether the context of the run ended at its deadline.
  pub deadline_exceeded : Bool

pub record Machine : Type 0 where
  pub run : Process → Ran
  pub environ : List Bytes
  -- filepath.Base and filepath.Ext
  pub base : Bytes → Bytes
  pub ext : Bytes → Bytes
  -- regexp.Compile: the number of groups
  pub groups : Bytes → Option ℕ
  -- FindSubmatch: the first group of the first match
  pub find : Bytes → Bytes → Option Bytes

-- 1 << 20
abbrev pub max_captured_bytes : ℕ
max_captured_bytes = 1048576

-- time.Hour and 120 * time.Second
abbrev pub max_run_timeout : ℕ
max_run_timeout = 3600000000000

abbrev pub default_run_timeout : ℕ
default_run_timeout = 120000000000

-- `Write` of a limitedBuffer, and the writes of a process.
unfoldable pub write : Bytes → Bytes → Bytes
write buf p = buf ++ take (max_captured_bytes - length buf) p

unfoldable pub written : Bytes → List Bytes → Bytes
unfolding write
written buf [] = buf
written buf (p ∷ ps) = written (write buf p) ps

unfoldable pub variable_chars : Bytes → Bool
unfolding is_alphanumeric
variable_chars [] = true
variable_chars (c ∷ s) = (is_alphanumeric c || (c == b'_')) && variable_chars s

-- The expression `envNameRe`.
unfoldable pub valid_variable : Bytes → Bool
unfolding variable_chars between
valid_variable [] = false
valid_variable (c ∷ s) =
    (between b'A' b'Z' c || between b'a' b'z' c || (c == b'_'))
    && variable_chars s
    && leb (length s) 255

unfoldable pub timeout_of : ℕ → ℕ
unfolding less as_duration
timeout_of seconds =
    let timeout = if less 0 seconds then as_duration seconds else default_run_timeout in
    if less max_run_timeout timeout then max_run_timeout else timeout

-- The key of an entry of the environment, before its first equals sign.
unfoldable pub key_of : Bytes → Bytes
key_of [] = []
key_of (c ∷ s) = let rest = key_of s in if c == b'=' then [] else c ∷ rest

unfoldable pub overrides : List (Bytes × Bytes) → Bytes → Bool
overrides [] k = false
overrides ((name, secret) ∷ vs) k = bytes_eq name k || overrides vs k

unfoldable pub kept_environment : List (Bytes × Bytes) → List Bytes → List Bytes
unfolding overrides key_of
kept_environment vs [] = []
kept_environment vs (kv ∷ kvs) =
    let rest = kept_environment vs kvs in if overrides vs (key_of kv) then rest else kv ∷ rest

-- A variable with the name of its secret and the value.
pub record Injected : Type 0 where
  pub variable : Bytes
  pub name : Bytes
  pub value : Bytes

unfoldable pub entries_of : List Injected → List Bytes
entries_of [] = []
entries_of (i ∷ is) = (i.variable ++ codes "=" ++ i.value) ∷ entries_of is

unfoldable pub small_value : Bytes → Result Bytes
small_value v = if ltb max_value_bytes (length v) then stopped (storage_error too_large) else done v

unfoldable pub group_value : Option Bytes → Result Bytes
unfolding small_value
group_value none = stopped bad_pattern
group_value (some v) = if length v == 0 then stopped bad_pattern else small_value v

unfoldable pub extract_capture : Machine → Bytes → Bytes → Result Bytes
unfolding trim_space small_value group_value
extract_capture machine raw pattern =
    if not (length pattern == 0)
    then group_value (machine.find pattern raw)
    else if length (trim_space raw) == 0
    then stopped bad_pattern
    else small_value (trim_space raw)

-- The exit code and the flag of a timeout; none if the command could not be started.
unfoldable pub ended_as : Bool → Ending → Option (ℕ × Bool)
ended_as deadline_exceeded (exited code) = some (code, deadline_exceeded)
ended_as deadline_exceeded broke_off =
    if deadline_exceeded then some (0xFFFFFFFFFFFFFFFF, true) else none

-- The program, and nothing if there is none.
unfoldable pub program_of : List Bytes → Bytes
program_of [] = []
program_of (c ∷ cs) = c
