-- ===== src/Agent/Run/Hides.antt =====
-- The values of secrets that `Run` hides.
use burndrop.Common.{
  ◌≤◌, ℕ, Bytes, false, List, [], ◌∷◌, length, ◌≡◌, ◌⊎◌, inl, inr, refl, sym, subst,
}
use burndrop.Agent.Exec.{done}
use burndrop.Agent.Redact.{Redactor, min_redact_len, texts, add, contains, redact}
use burndrop.Agent.Redact.Encodings.{forms_of}
use burndrop.Agent.Redact.Replaced.{IsHideable}
use burndrop.Agent.Redact.Hidden.{IsOutside, IsAmong, redact-hides}
use burndrop.Agent.Redact.Hidden.Added.{IsAmong-add, IsAmong-add_other}
use burndrop.Agent.Run.{truncate, run, check_capture, inject_all}
use burndrop.Agent.Run.Commands.{Machine, RunInput, RunOutput, Injected}
use burndrop.Agent.Run.Redacted.{
  adds, IsShown, IsGrown, Shows, shows, inject_all-redactor, run_process-Shows, run-process,
}
use burndrop.Agent.World.{Env, World}

abbrev pub IsInjected : Injected → List Injected → Type 0
IsInjected i [] = ⊥
IsInjected i (j ∷ js) = (i ≡ j) ⊎ IsInjected i js

module _ {S R : Type 0} (env : Env S R) (machine : Machine) where
  adds-keep :
      (g : Bytes) (is : List Injected) (r : Redactor)
      → IsAmong g (texts r)
      → IsAmong g (texts (adds env machine is r))
  unfolding adds
  adds-keep g [] r h = h
  adds-keep g (i ∷ is) r h =
      adds-keep g is (add env.json_string i.name i.value r)
        (IsAmong-add_other env.json_string g i.name i.value r h)

  value-IsAmong : (v : Bytes) → IsAmong v (forms_of env.json_string v)
  unfolding forms_of
  value-IsAmong v = inl refl

  IsAmong-adds :
      (i : Injected) (is : List Injected) (r : Redactor)
      → min_redact_len ≤ length i.value
      → IsInjected i is
      → IsAmong i.value (texts (adds env machine is r))
  unfolding adds
  IsAmong-adds i [] r l h = absurd h
  IsAmong-adds i (j ∷ js) r l (inr h) = IsAmong-adds i js (add env.json_string j.name j.value r) l h
  IsAmong-adds i (j ∷ js) r l (inl same) =
      adds-keep i.value js (add env.json_string j.name j.value r) (
        subst (λ k. IsAmong i.value (texts (add env.json_string k.name k.value r))) same
          (IsAmong-add env.json_string i.value i.name i.value r l l (value-IsAmong i.value)))

  IsAmong-grown :
      (g : Bytes) (known r : Redactor)
      → IsGrown env machine known r
      → IsAmong g (texts known)
      → IsAmong g (texts r)
  IsAmong-grown g known r (inl same) h = subst (λ q. IsAmong g (texts q)) (sym same) h
  IsAmong-grown g known r (inr (name, value, same)) h =
      subst (λ q. IsAmong g (texts q)) (sym same)
        (IsAmong-add_other env.json_string g name value known h)

  -- Nothing, or the cut of a text in which `g` does not occur.
  abbrev pub IsFree : Bytes → Bytes → Type 0
  IsFree g t = (t ≡ []) ⊎ ((s : Bytes) × (t ≡ (truncate env machine s).0) × (contains g s ≡ false))

  shown-IsFree :
      (g t : Bytes) (r : Redactor)
      → IsHideable g
      → IsOutside g r
      → IsAmong g (texts r)
      → IsShown env machine r t
      → IsFree g t
  shown-IsFree g t r q o a (inl e) = inl e
  shown-IsFree g t r q o a (inr (s, e)) = inr (redact r s, e, redact-hides g r s q o a)

  both-IsFree :
      (i : Injected) (known : Redactor) (end : World S R) (out : RunOutput)
      → Shows env machine known (done out, end)
      → IsAmong i.value (texts known)
      → IsHideable i.value
      → IsOutside i.value end.redactor
      → IsFree i.value out.stdout × IsFree i.value out.stderr
  both-IsFree i known end out (shows _ _ grown so se) a q o =
      let among = IsAmong-grown i.value known end.redactor grown a in
      (
        shown-IsFree i.value out.stdout end.redactor q o among so,
        shown-IsFree i.value out.stderr end.redactor q o among se,
      )

  -- Where a call of `Run` gives an answer: a value of at least six bytes and no bracket that was injected into
  -- the process, and that is in no marker of the redactor, does not occur in the redacted text of which the
  -- output that is shown is the cut, nor in that of the error output.
  pub run-IsFree :
      (input : RunInput) (w v u end : World S R) (t : ℕ) (is : List Injected) (i : Injected)
      (out : RunOutput)
      → check_capture env machine input.capture_as w ≡ (done t, v)
      → inject_all env machine input.variables v ≡ (done is, u)
      → IsInjected i is
      → run env machine input w ≡ (done out, end)
      → min_redact_len ≤ length i.value
      → IsHideable i.value
      → IsOutside i.value end.redactor
      → IsFree i.value out.stdout × IsFree i.value out.stderr
  run-IsFree input w v u end t is i out checked injected member ran l q o =
      let known = inject_all-redactor env machine input.variables v u is injected in
      both-IsFree i u.redactor end out
        (subst (Shows env machine u.redactor)
          (run-process env machine input w v u end t is out checked injected ran)
          (run_process-Shows env machine input is u))
        (subst (λ r. IsAmong i.value (texts r)) (sym known) (IsAmong-adds i is v.redactor l member))
        q o
