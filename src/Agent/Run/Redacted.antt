-- ===== src/Agent/Run/Redacted.antt =====
-- What `Run` shows of the output of a command.
use burndrop.Common.{
  Bytes, Bool, true, false, not, Option, none, some, List, [], ◌∷◌, length, ◌==◌, if◌then◌else◌,
  ◌≡◌, ◌⊎◌, inl, inr, refl, sym, ap, subst, ◌∙◌, ℕ,
}
use burndrop.Crypto.Trim.{trim_space}
use burndrop.Storage.{Metadata, valid_name}
use burndrop.Agent.Exec.{
  Result, done, stopped, AgentError, Exec, continue, continue-done, raise, pure, ◌>>=◌,
}
use burndrop.Agent.Redact.{Redactor, add, redact}
use burndrop.Agent.Records.{is_internal_kind}
use burndrop.Agent.Run.{
  truncate, shown, show_output, keep_capture, answer_capture, no_capture, after_extract,
  give_output, after_run, run_process, run_checked, run, is_allowed, inject, inject_variable,
  inject_all, consume_all, log_run, output_of, check_capture, process_of,
}
use burndrop.Agent.Run.Commands.{
  Machine, RunInput, RunOutput, Ran, CaptureSpec, Injected, program_of, valid_variable, ended_as,
}
use burndrop.Agent.World.{Env, World, store_put, store_get, store_delete, redact_value, log, now}

module _ {S R : Type 0} (env : Env S R) (machine : Machine) where
  -- A redactor after the values that were injected.
  unfoldable pub adds : List Injected → Redactor → Redactor
  adds [] r = r
  adds (i ∷ is) r = adds is (add env.json_string i.name i.value r)

  -- Nothing, or the cut of a redacted text.
  abbrev pub IsShown : Redactor → Bytes → Type 0
  IsShown r t = (t ≡ []) ⊎ ((s : Bytes) × (t ≡ (truncate env machine (redact r s)).0))

  abbrev pub IsGrown : Redactor → Redactor → Type 0
  IsGrown known r =
      (r ≡ known) ⊎ ((name : Bytes) × (value : Bytes) × (r ≡ add env.json_string name value known))

  pub data Shows (known : Redactor) : Result RunOutput × World S R → Type 0 where
    failed : (e : AgentError) (w : World S R) → Shows known (stopped e, w)
    shows :
        (out : RunOutput) (w : World S R)
        → IsGrown known w.redactor
        → IsShown w.redactor out.stdout
        → IsShown w.redactor out.stderr
        → Shows known (done out, w)

  if_Shows :
      (known : Redactor) (b : Bool) (f g : Exec (World S R) RunOutput) (w : World S R)
      → Shows known (f w)
      → Shows known (g w)
      → Shows known ((if b then f else g) w)
  if_Shows known true f g w sf sg = sf
  if_Shows known false f g w sf sg = sg

  show_output-Shows :
      (input : RunInput) (ending : ℕ × Bool) (r : Ran) (w : World S R)
      → Shows w.redactor (show_output env machine input ending r w)
  unfolding show_output shown log_run log output_of
  show_output-Shows input ending r w =
      if_Shows w.redactor input.discard_output _ _ w (shows _ _ (inl refl) (inl refl) (inl refl))
        (shows _ _ (inl refl) (inr (_, refl)) (inr (_, refl)))

  no_capture-Shows :
      (input : RunInput) (ending : ℕ × Bool) (r : Ran) (w : World S R)
      → Shows w.redactor (no_capture env machine input ending r w)
  unfolding no_capture shown log_run log output_of
  no_capture-Shows input ending r w = shows _ _ (inl refl) (inl refl) (inr (_, refl))

  captured-Shows :
      (input : RunInput) (ending : ℕ × Bool) (r : Ran) (c : CaptureSpec) (captured : Bytes)
      (known : Redactor) (x : Result Metadata × World S R)
      → x.1.redactor ≡ known
      → Shows known (continue (answer_capture env machine input ending r c captured) x)
  unfolding answer_capture redact_value shown log_run log output_of
  captured-Shows input ending r c captured known (stopped e, w) same = failed e w
  captured-Shows input ending r c captured known (done meta, w) same =
      shows _ _ (inr (c.name, captured, ap (add env.json_string c.name captured) same)) (inl refl)
        (inr (_, refl))

  after_extract-Shows :
      (input : RunInput) (ending : ℕ × Bool) (r : Ran) (c : CaptureSpec) (x : Result Bytes)
      (w : World S R)
      → Shows w.redactor (after_extract env machine input ending r c x w)
  unfolding after_extract keep_capture store_put
  after_extract-Shows input ending r c (stopped e) w = no_capture-Shows input ending r w
  after_extract-Shows input ending r c (done captured) w =
      captured-Shows input ending r c captured w.redactor _ refl

  give_output-Shows :
      (input : RunInput) (ending : ℕ × Bool) (r : Ran) (c : Option CaptureSpec) (w : World S R)
      → Shows w.redactor (give_output env machine input ending r c w)
  unfolding give_output
  give_output-Shows input ending r none w = show_output-Shows input ending r w
  give_output-Shows input ending r (some c) w = after_extract-Shows input ending r c _ w

  record Kept (w : World S R) (x : Result (Unit {0}) × World S R) : Type 0 where
    end : World S R
    same : x ≡ (done tt, end)
    redactor : end.redactor ≡ w.redactor

  consume_all-Kept : (is : List Injected) (w : World S R) → Kept w (consume_all env machine is w)
  unfolding consume_all store_delete
  consume_all-Kept [] w = record { end = w; same = refl; redactor = refl }
  consume_all-Kept (i ∷ is) w =
      let k = consume_all-Kept is _ in record { end = k.end; same = k.same; redactor = k.redactor }

  if_Kept :
      (b : Bool) (f g : Exec (World S R) (Unit {0})) (w : World S R)
      → Kept w (f w)
      → Kept w (g w)
      → Kept w ((if b then f else g) w)
  if_Kept true f g w kf kg = kf
  if_Kept false f g w kf kg = kg

  after_run-Shows :
      (input : RunInput) (is : List Injected) (r : Ran) (o : Option (ℕ × Bool)) (w : World S R)
      → Shows w.redactor (after_run env machine input is r o w)
  unfolding after_run log_run log
  after_run-Shows input is r none w = failed _ _
  after_run-Shows input is r (some ending) w =
      let k =
        if_Kept input.consume (consume_all env machine is) (pure tt) w (consume_all-Kept is w)
          (record { end = w; same = refl; redactor = refl }) in
      subst
        (λ x.
          Shows w.redactor
            (continue (λ u. give_output env machine input ending r input.capture_as) x))
        (sym k.same)
        (subst (λ q. Shows q (give_output env machine input ending r input.capture_as k.end))
          k.redactor (give_output-Shows input ending r input.capture_as k.end))

  pub run_process-Shows :
      (input : RunInput) (is : List Injected) (w : World S R)
      → Shows w.redactor (run_process env machine input is w)
  unfolding run_process now
  run_process-Shows input is w =
      after_run-Shows input is (machine.run (process_of env machine input is))
        (ended_as (machine.run (process_of env machine input is)).deadline_exceeded
          (machine.run (process_of env machine input is)).ending)
        (now env (now env w).1).1

  if_done :
      {A : Type 0} (b : Bool) (e : AgentError) (f : Exec (World S R) A) (w u : World S R) (a : A)
      → (if b then raise e else f) w ≡ (done a, u)
      → f w ≡ (done a, u)
  if_done true e f w u a h = absurd cc
  if_done false e f w u a h = h

  done_value :
      {A : Type 0} (a b : A) (u v : World S R)
      → ◌≡◌ {A = Result A × World S R} (done a, u) (done b, v)
      → (a ≡ b) × (u ≡ v)
  done_value a b u v h = (cc, cc)

  inject-redactor :
      (variable name : Bytes) (x : Bytes × Metadata) (w u : World S R) (i : Injected)
      → inject env machine variable name x w ≡ (done i, u)
      → u.redactor ≡ add env.json_string i.name i.value w.redactor
  unfolding inject redact_value
  inject-redactor variable name (value, meta) w u i h =
      let got = if_done (is_internal_kind meta.kind) _ _ w u i h in
      let (same, world) = done_value _ i _ u got in
      sym (ap (λ v. v.redactor) world)
      ∙ ap (λ j. add env.json_string j.name j.value w.redactor) same

  store_get-redactor :
      (name : Bytes) (w v : World S R) (x : Bytes × Metadata)
      → store_get env name w ≡ (done x, v)
      → v.redactor ≡ w.redactor
  unfolding store_get
  store_get-redactor name w v x h = sym (ap (λ y. y.1.redactor) h)

  inject_variable-redactor :
      (variable name : Bytes) (w u : World S R) (i : Injected)
      → inject_variable env machine variable name w ≡ (done i, u)
      → u.redactor ≡ add env.json_string i.name i.value w.redactor
  unfolding inject_variable
  inject_variable-redactor variable name w u i h =
      let h1 = if_done (not (valid_variable variable)) _ _ w u i h in
      let h2 = if_done (not (valid_name name)) _ _ w u i h1 in
      let (x, v, got, rest) =
        continue-done (inject env machine variable name) (store_get env name w) i u h2 in
      inject-redactor variable name x v u i rest
      ∙ ap (add env.json_string i.name i.value) (store_get-redactor name w v x got)

  pub inject_all-redactor :
      (vs : List (Bytes × Bytes)) (w u : World S R) (is : List Injected)
      → inject_all env machine vs w ≡ (done is, u)
      → u.redactor ≡ adds is w.redactor
  unfolding inject_all adds
  inject_all-redactor [] w u is h =
      let (same, world) = done_value [] is w u h in
      sym (ap (λ v. v.redactor) world) ∙ ap (λ js. adds js w.redactor) same
  inject_all-redactor ((variable, name) ∷ vs) w u is h =
      let (i, v, got, rest) =
        continue-done (λ i. inject_all env machine vs >>= λ is. pure (i ∷ is))
          (inject_variable env machine variable name w) is u h in
      let (js, v', got', rest') =
        continue-done (λ js. pure (i ∷ js)) (inject_all env machine vs v) is u rest in
      let (same, world) = done_value (i ∷ js) is v' u rest' in
      sym (ap (λ x. x.redactor) world)
      ∙ inject_all-redactor vs v v' js got'
      ∙ ap (adds js) (inject_variable-redactor variable name w v i got)
      ∙ ap (λ ks. adds ks w.redactor) same

  -- A run that answered is one of its process, after the checks and the injection.
  pub run-process :
      (input : RunInput) (w v u end : World S R) (t : ℕ) (is : List Injected) (out : RunOutput)
      → check_capture env machine input.capture_as w ≡ (done t, v)
      → inject_all env machine input.variables v ≡ (done is, u)
      → run env machine input w ≡ (done out, end)
      → run_process env machine input is u ≡ (done out, end)
  unfolding run run_checked
  run-process input w v u end t is out checked injected h =
      let h1 = if_done (length (trim_space (program_of input.command)) == 0) _ _ w end out h in
      let h2 = if_done (not (is_allowed env machine (program_of input.command))) _ _ w end out h1 in
      sym (ap (continue (run_process env machine input)) injected)
      ∙ sym (ap (continue (λ n. run_checked env machine input)) checked)
      ∙ h2
