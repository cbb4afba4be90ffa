-- ===== src/Terminal/Gate.antt =====
-- What must hold before the terminal runs code (`_cmd_run` of kernel/ui/terminal.py).
use terminal_agent.Base.{
  ℕ, ◌≡◌, ◌∙◌, refl, sym, ap, subst, String, Bool, true, false, not, ◌&&◌, Option, none, some, List,
  [], ◌⊎◌, ◌↔◌, any, Bool-cases, inl, inr,
}
use terminal_agent.Platform.{Platform}
use terminal_agent.Audit.Log.{AuditLog}
use terminal_agent.Runtime.{Browser}
use terminal_agent.Runtime.Sandbox.{
  browser_for, ExecutionResult, Parsed, Ended, validate_code, execute,
}
use terminal_agent.Terminal.{
  CodeBuffer, Desk, is_empty, validate_buffer, missing_caps, preview_caps, confirms, start,
  run_validated, run_checked, run_buffer, cmd_run,
}
use terminal_agent.Terminal.Analysis.{Func, analyze, is_irreversible}
use terminal_agent.Terminal.Checks.{
  IsChecked, AreHeld, is_empty_sound, is_empty_complete, missing_caps-audit, missing_caps-AreHeld,
  AreHeld-missing_caps, preview_caps-audit,
}

module _ (os : Platform) (now : ℕ) (lower_text : String → String)
    (calls : String → Option (List Func)) (parse : String → Parsed)
    (exec : String → Browser → Ended × Browser) (limit : String) (duration : ℕ) where
  -- the code is valid, its capabilities are held and what cannot be undone is confirmed
  pub record IsReady (answer : String) (c : CodeBuffer) (b : Browser) : Type 0 where
    pub valid : validate_code parse c.source ≡ []
    pub held : AreHeld now c.principal (analyze lower_text calls c.source) b
    pub confirmed :
        any is_irreversible (analyze lower_text calls c.source) && not (confirms answer) ≡ false

  -- the code runs on the kernel as it is, but for the log
  pub record IsRun (answer : String) (c : CodeBuffer) (b : Browser)
      (out : Option ExecutionResult × Desk) : Type 0 where
    pub ready : IsReady answer c b
    pub sink : Option AuditLog
    pub result :
        out.0
        ≡ some
            (execute parse exec limit duration c.source
              (browser_for c.principal (record b { audit = sink }))).0
    pub kernel :
        out.1.kernel
        ≡ (execute parse exec limit duration c.source
            (browser_for c.principal (record b { audit = sink }))).1

  -- nothing runs, and the kernel is as it is, but for the log
  pub record IsStopped (answer : String) (c : CodeBuffer) (b : Browser)
      (out : Option ExecutionResult × Desk) : Type 0 where
    pub not_ready : ¬ IsReady answer c b
    pub no_result : out.0 ≡ none
    pub sink : Option AuditLog
    pub kernel : out.1.kernel ≡ record b { audit = sink }

  run_validated-IsGated :
      (answer : String) (c : CodeBuffer) (b : Browser)
      → validate_code parse c.source ≡ []
      → IsStopped answer c b
          (run_validated os now lower_text calls parse exec limit duration answer c b)
        ⊎ IsRun answer c b
            (run_validated os now lower_text calls parse exec limit duration answer c b)
  unfolding run_validated start preview_caps
  run_validated-IsGated answer c b valid =
      let required = analyze lower_text calls c.source in
      let (one, first) = preview_caps-audit os now required c b in
      let b1 = (preview_caps os now required c b).1 in
      let (two, second) =
        missing_caps-audit os now c.principal required (record b { audit = one }) in
      let state : (missing_caps os now c.principal required b1).1 ≡ record b { audit = two } =
        ap (λ (x : Browser). (missing_caps os now c.principal required x).1) first ∙ second in
      elim (Bool-cases (is_empty (missing_caps os now c.principal required b1).0)) [
        | inl e ↦ elim (Bool-cases (any is_irreversible required && not (confirms answer))) [
          | inl q ↦
              rw (run_validated, e, q)
                (inl (record {
                  not_ready = λ (r : IsReady answer c b). absurd (cc (sym q ∙ r.confirmed));
                  no_result = refl;
                  sink = two;
                  kernel = state;
                }))
          | inr q ↦
              rw (run_validated, e, q)
                (inr (record {
                  ready = record {
                    valid = valid;
                    held =
                        subst (AreHeld now c.principal required) first (
                          missing_caps-AreHeld os now c.principal required b1 (is_empty_sound _ e));
                    confirmed = q;
                  };
                  sink = two;
                  result =
                      ap
                        (λ (x : Browser).
                          some
                            (execute parse exec limit duration c.source
                              (browser_for c.principal x)).0)
                        state;
                  kernel =
                      ap
                        (λ (x : Browser).
                          (execute parse exec limit duration c.source
                            (browser_for c.principal x)).1)
                        state;
                }))
        ]
        | inr e ↦
            rw (run_validated, e)
              (inl (record {
                not_ready = λ r. is_empty_complete _ e (
                    AreHeld-missing_caps os now c.principal required b1
                      (subst (AreHeld now c.principal required) (sym first) r.held));
                no_result = refl;
                sink = two;
                kernel = state;
              }))
      ]

  -- a validation changes nothing of what makes a buffer ready
  validated-IsReady :
      (answer : String) (c : CodeBuffer) (b : Browser)
      → IsReady answer (validate_buffer parse c) b ↔ IsReady answer c b
  unfolding validate_buffer
  validated-IsReady answer c b = (
    (λ r. record { valid = r.valid; held = r.held; confirmed = r.confirmed }),
    (λ r. record { valid = r.valid; held = r.held; confirmed = r.confirmed }),
  )

  validated-IsRun :
      (answer : String) (c : CodeBuffer) (b : Browser) (out : Option ExecutionResult × Desk)
      → IsRun answer (validate_buffer parse c) b out
      → IsRun answer c b out
  unfolding validate_buffer
  validated-IsRun answer c b out r = record {
    ready = (validated-IsReady answer c b).0 r.ready;
    sink = r.sink;
    result = r.result;
    kernel = r.kernel;
  }

  run_checked-IsGated :
      (validated valid : Bool) (answer : String) (c : CodeBuffer) (b : Browser)
      → (validated ≡ true → validate_code parse c.source ≡ [])
      → (valid ≡ true → validate_code parse c.source ≡ [])
      → (valid ≡ false → ¬ (validate_code parse c.source ≡ []))
      → IsStopped answer c b
          (run_checked os now lower_text calls parse exec limit duration validated valid answer c b)
        ⊎ IsRun answer c b (
            run_checked os now lower_text calls parse exec limit duration validated valid answer c
              b)
  unfolding run_checked validate_buffer
  run_checked-IsGated true valid answer c b marked found bad =
      run_validated-IsGated answer c b (marked refl)
  run_checked-IsGated false true answer c b marked found bad =
      elim (run_validated-IsGated answer (validate_buffer parse c) b (found refl)) [
        | inl stopped ↦ inl (record {
          not_ready = λ r. stopped.not_ready ((validated-IsReady answer c b).1 r);
          no_result = stopped.no_result;
          sink = stopped.sink;
          kernel = stopped.kernel;
        })
        | inr r ↦ inr (validated-IsRun answer c b _ r)
      ]
  run_checked-IsGated false false answer c b marked found bad = inl (record {
    not_ready = λ r. bad refl r.valid;
    no_result = refl;
    sink = b.audit;
    kernel = refl;
  })

  -- If a buffer is marked as valid only if it is, a run executes its code exactly if all is ready.
  pub cmd_run-IsGated :
      (answer : String) (c : CodeBuffer) (d : Desk)
      → d.buffer ≡ some c
      → IsChecked parse c
      → IsStopped answer c d.kernel
          (cmd_run os now lower_text calls parse exec limit duration answer d)
        ⊎ IsRun answer c d.kernel
            (cmd_run os now lower_text calls parse exec limit duration answer d)
  unfolding cmd_run run_buffer
  cmd_run-IsGated answer c d here_c checked =
      let gated =
        run_checked-IsGated c.validated (is_empty (validate_code parse c.source)) answer c d.kernel
          checked (is_empty_sound (validate_code parse c.source))
          (is_empty_complete (validate_code parse c.source)) in
      let step : cmd_run os now lower_text calls parse exec limit duration answer d
          ≡ run_buffer os now lower_text calls parse exec limit duration answer c d.kernel =
        ap
          (λ (o : Option CodeBuffer). elim o as (λ _. Option ExecutionResult × Desk) [
            | none ↦ (none, d)
            | some x ↦
                run_buffer os now lower_text calls parse exec limit duration answer x d.kernel
          ])
          here_c in
      subst
        (λ (out : Option ExecutionResult × Desk).
          IsStopped answer c d.kernel out ⊎ IsRun answer c d.kernel out)
        (sym step) gated
