-- ===== src/Runner/Launching.antt =====
-- What a start does, whatever the backend, the server and the disk answer.
use gritz.Prelude.{
  ℕ, ◌≡◌, ◌≢◌, refl, ap, ◌∙◌, Bytes, Option, none, some, List, ◌∷◌, ◌++◌, codes, ◌⊎◌, inl, inr,
}
use gritz.Task.{Task}
use gritz.Runner.{
  Runner, Error, gone_error, text_error, Run, Result, ok, err, next, ask, Outside, Workspace,
  Handle, Record, Spec, SandboxState, state_unknown, state_running, state_exited, state_gone,
  find_record, handle_of,
}
use gritz.Runner.Specs.{
  spec, spec_for, spec_validated, spec_with_token, spec_of, quoted, wrapped, wrap, workspace_of,
  find_workspace, mcp_args,
}
use gritz.Runner.Starts.{
  record_of, start, start_from, start_by_state, launch_with, launched, recorded, gone, gone_after,
}
use gritz.Runner.Rules.{
  Failing, answer-Post, tracked-Post, write-Post, remove_record-Post, find_record-put,
  find_record-put_other, find_record-drop_other,
}

-- The records of the other tasks are as they were.
abbrev pub Others : ℕ → List Record → List Record → Type 0
Others id before after =
    (other : ℕ) → id ≢ other → find_record other after ≡ find_record other before

module _ {E : Type 0} where
  -- Nothing of the runner changed but what is outside.
  abbrev pub Kept : Runner E → Runner E → Type 0
  Kept r s = s ≡ record r { outside = s.outside }

  -- The sandbox on record was found running.
  abbrev pub FoundRunning : Outside E → Task → Runner E → Type 0
  FoundRunning o task r =
      (h : Handle) × (handle_of (find_record task.id r.records) ≡ some h)
      × ((e : E) × ((o.probe h e).0 ≡ ok state_running))

  -- The backend answered a launch with the handle.
  abbrev pub Answered : Outside E → Handle → Type 0
  Answered o h = (s : Spec) × (reuse : Option Handle) × (e : E) × ((o.launch s reuse e).0 ≡ ok h)

  -- A sandbox was launched: its record is stored under the version of the task, and it is
  -- supervised under that version.
  pub record Launched (o : Outside E) (task : Task) (r s : Runner E) : Type 0 where
    pub handle : Handle
    pub asked : Answered o handle
    pub only : s ≡ record r {
      records = s.records;
      supervised =
          record { task_id = task.id; version = task.version; handle = handle } ∷ r.supervised;
      outside = s.outside;
    }
    pub tracked :
        find_record task.id s.records
        ≡ some (record { task_id = task.id; version = task.version; handle = handle })
    pub others : Others task.id r.records s.records

  -- What made a start fail.
  pub data NotStarted (o : Outside E) (task : Task) (workspaces : List (Bytes × Workspace))
      : Type 0 where
    by_disk : Failing o.accepts → NotStarted o task workspaces
    by_probe : (h : Handle) → Failing (o.probe h) → NotStarted o task workspaces
    by_gone : (h : Handle) (e : E) → (o.probe h e).0 ≡ ok state_gone → NotStarted o task workspaces
    no_workspace : find_workspace task.workspace workspaces ≡ none → NotStarted o task workspaces
    by_validate :
        (ws : Workspace) → Failing (o.validate_workspace ws) → NotStarted o task workspaces
    by_token :
        (ws : Workspace)
        → Failing (o.create_task_token task.id ws.capabilities)
        → NotStarted o task workspaces
    by_config :
        (ws : Workspace) (args : List Bytes)
        → Failing (o.config_data ws args)
        → NotStarted o task workspaces
    by_launch :
        (s : Spec) (reuse : Option Handle)
        → Failing (o.launch s reuse)
        → NotStarted o task workspaces

  pub record Refused (o : Outside E) (task : Task) (r s : Runner E) : Type 0 where
    pub cause : NotStarted o task r.options.workspaces
    pub only : s ≡ record r { records = s.records; died = s.died; outside = s.outside }
    pub others : Others task.id r.records s.records

  abbrev pub Outcome : Outside E → Task → Runner E → Result (Unit {0}) × Runner E → Type 0
  Outcome o task r (ok _, s) = (Kept r s × FoundRunning o task r) ⊎ Launched o task r s
  Outcome o task r (err e, s) = Refused o task r s

  unchanged :
      (o : Outside E) (task : Task) (r : Runner E) (e : E)
      → NotStarted o task r.options.workspaces
      → Refused o task r (record r { outside = e })
  unchanged o task r e why = record { cause = why; only = refl; others = λ other n. refl }

  -- What is outside before the start does not matter.
  anywhere :
      (o : Outside E) (task : Task) (r : Runner E) (e : E) (p : Result (Unit {0}) × Runner E)
      → Outcome o task (record r { outside = e }) p
      → Outcome o task r p
  anywhere o task r e (ok _, s) (inl h) = inl h
  anywhere o task r e (ok _, s) (inr l) = inr (record {
    handle = l.handle;
    asked = l.asked;
    only = l.only;
    tracked = l.tracked;
    others = l.others;
  })
  anywhere o task r e (err x, s) f = record { cause = f.cause; only = f.only; others = f.others }

  module _ {A B : Type 0} (Q : Result B × Runner E → Type 0) where
    wrapped-Post :
        (text : Bytes) (g : E → Result A × E) (r : Runner E) (f : A → Run E B)
        → ((a : A) (e : E) → Q (f a (record r { outside = e })))
        → ((x : Error) (e : E) → Failing g → Q (err x, record r { outside = e }))
        → Q (next (wrapped text (ask g r)) f)
    unfolding ask
    wrapped-Post text g r f k h = by_answer (g r.outside) refl
      where
        by_answer :
            (p : Result A × E)
            → g r.outside ≡ p
            → Q (next (wrapped text (p.0, record r { outside = p.1 })) f)
        by_answer (ok a, e) same = k a e
        by_answer (err x, e) same = h (wrap text x) e (x, r.outside, ap (λ q. q.0) same)

module _ {E : Type 0} (o : Outside E) where
  module _ (Q : Result (Unit {0}) × Runner E → Type 0) (task : Task) (ws : Workspace) where
    spec_with_token-Post :
        (token : Bytes) (r : Runner E) (f : Spec → Run E (Unit {0}))
        → ((s : Spec) (e : E) → Q (f s (record r { outside = e })))
        → ((x : Error) (e : E)
            → NotStarted o task r.options.workspaces
            → Q (err x, record r { outside = e }))
        → Q (next (spec_with_token o task ws token r) f)
    unfolding spec_with_token
    spec_with_token-Post token r f k h =
        wrapped-Post (λ p. Q (next p f)) (codes "failed to marshal config")
          (o.config_data ws (mcp_args r.options.server_url task token ws.capabilities)) r
          (λ config r. (ok (spec_of r.options.server_url task ws token config), r))
          (λ config e. k (spec_of r.options.server_url task ws token config) e)
          (λ x e why.
            h x e (by_config ws (mcp_args r.options.server_url task token ws.capabilities) why))

    spec_validated-Post :
        (r : Runner E) (f : Spec → Run E (Unit {0}))
        → ((s : Spec) (e : E) → Q (f s (record r { outside = e })))
        → ((x : Error) (e : E)
            → NotStarted o task r.options.workspaces
            → Q (err x, record r { outside = e }))
        → Q (next (spec_validated o task ws r) f)
    unfolding spec_validated
    spec_validated-Post r f k h =
        wrapped-Post (λ p. Q (next p f)) (codes "failed to create task token")
          (o.create_task_token task.id ws.capabilities) r (spec_with_token o task ws)
          (λ token e. spec_with_token-Post token (record r { outside = e }) f k h)
          (λ x e why. h x e (by_token ws why))

    spec_for-Post :
        (r : Runner E) (f : Spec → Run E (Unit {0}))
        → ((s : Spec) (e : E) → Q (f s (record r { outside = e })))
        → ((x : Error) (e : E)
            → NotStarted o task r.options.workspaces
            → Q (err x, record r { outside = e }))
        → Q (next (spec_for o task ws r) f)
    unfolding spec_for
    spec_for-Post r f k h =
        wrapped-Post (λ p. Q (next p f)) (codes "invalid workspace " ++ quoted task.workspace)
          (o.validate_workspace ws) r (λ _. spec_validated o task ws)
          (λ _ e. spec_validated-Post (record r { outside = e }) f k h)
          (λ x e why. h x e (by_validate ws why))

  spec-Post :
      (Q : Result (Unit {0}) × Runner E → Type 0) (task : Task) (r : Runner E)
      (f : Spec → Run E (Unit {0}))
      → ((s : Spec) (e : E) → Q (f s (record r { outside = e })))
      → ((x : Error) (e : E)
          → NotStarted o task r.options.workspaces
          → Q (err x, record r { outside = e }))
      → Q (next (spec o task r) f)
  unfolding spec
  spec-Post Q task r f k h = by_workspace (find_workspace task.workspace r.options.workspaces) refl
    where
      by_workspace :
          (found : Option Workspace)
          → find_workspace task.workspace r.options.workspaces ≡ found
          → Q (next (next (workspace_of task.workspace found r) (spec_for o task)) f)
      by_workspace none is = h _ r.outside (no_workspace is)
      by_workspace (some ws) is = spec_for-Post Q task ws r f k h

  gone-Outcome :
      (task : Task) (r : Runner E)
      → NotStarted o task r.options.workspaces
      → Outcome o task r (gone o task.id r)
  unfolding gone
  gone-Outcome task r cause =
      remove_record-Post o (λ p. Outcome o task r (gone_after p)) task.id r
        (λ e. record {
          cause = cause;
          only = refl;
          others = λ other n. find_record-drop_other task.id other r.records n;
        })
        (λ x e why. unchanged o task r e cause)

  recorded-Outcome :
      (task : Task) (h : Handle) (r : Runner E) (e : E)
      → Answered o h
      → Outcome o task r (launched o task (ok h, record r { outside = e }))
  recorded-Outcome task h r e asked =
      write-Post o (λ p. Outcome o task r (recorded task h p)) (record_of task h)
        (record r { outside = e })
        (λ e'. inr (record {
          handle = h;
          asked = asked;
          only = refl;
          tracked = find_record-put (record_of task h) r.records;
          others = λ other n. find_record-put_other other (record_of task h) r.records n;
        }))
        (λ x e' why. record { cause = by_disk why; only = refl; others = λ other n. refl })

  launched-Outcome :
      (task : Task) (s : Spec) (reuse : Option Handle) (e0 : E) (r : Runner E)
      (p : Result Handle × E)
      → (o.launch s reuse e0).0 ≡ p.0
      → Outcome o task r (launched o task (p.0, record r { outside = p.1 }))
  launched-Outcome task s reuse e0 r (ok h, e) same =
      recorded-Outcome task h r e (s, reuse, e0, same)
  launched-Outcome task s reuse e0 r (err gone_error, e) same =
      anywhere o task r e (gone o task.id (record r { outside = e }))
        (gone-Outcome task (record r { outside = e }) (by_launch s reuse (gone_error, e0, same)))
  launched-Outcome task s reuse e0 r (err (text_error t), e) same =
      unchanged o task r e (by_launch s reuse (text_error t, e0, same))

  launch_with-Outcome :
      (task : Task) (reuse : Option Handle) (r : Runner E)
      → Outcome o task r (launch_with o task reuse r)
  unfolding launch_with ask
  launch_with-Outcome task reuse r =
      spec-Post (Outcome o task r) task r (λ s r. launched o task (ask (o.launch s reuse) r))
        (λ s e. launched-Outcome task s reuse e r (o.launch s reuse e) refl)
        (λ x e why. unchanged o task r e why)

  state-Outcome :
      (task : Task) (h : Handle) (state : SandboxState) (r : Runner E)
      → (state ≡ state_running → FoundRunning o task r)
      → (state ≡ state_gone → NotStarted o task r.options.workspaces)
      → Outcome o task r (start_by_state o task h state r)
  state-Outcome task h state_running r found lost = inl (refl, found refl)
  state-Outcome task h state_gone r found lost = gone-Outcome task r (lost refl)
  state-Outcome task h state_exited r found lost = launch_with-Outcome task (some h) r
  state-Outcome task h state_unknown r found lost = launch_with-Outcome task (some h) r

  from-Outcome :
      (task : Task) (found : Option Handle) (r : Runner E)
      → handle_of (find_record task.id r.records) ≡ found
      → Outcome o task r (start_from o task found r)
  from-Outcome task none r on_record = launch_with-Outcome task none r
  from-Outcome task (some h) r on_record =
      answer-Post (Outcome o task r) (o.probe h) r (start_by_state o task h)
        (λ state e same.
          anywhere o task r e (start_by_state o task h state (record r { outside = e })) (
            state-Outcome task h state (record r { outside = e })
              (λ is. (h, on_record, (r.outside, ap (λ p. p.0) same ∙ ap ok is)))
              (λ is. by_gone h r.outside (ap (λ p. p.0) same ∙ ap ok is))))
        (λ x e why. unchanged o task r e (by_probe h why))

  -- A start either finds the sandbox on record running, as the backend answers, and changes nothing;
  -- or launches one, which the backend answered with its handle, and leaves it on record and
  -- supervised under the version of the task; or fails with nothing new supervised, because the
  -- workspace is not known, the sandbox is gone, or a call of the disk, the backend or the server
  -- failed. It leaves the
  -- semaphore and the queue to its caller, and the records of other tasks as they were.
  pub start-Outcome : (task : Task) (r : Runner E) → Outcome o task r (start o task r)
  unfolding start
  start-Outcome task r =
      tracked-Post o (Outcome o task r) task.id r (start_from o task)
        (λ e.
          let found = handle_of (find_record task.id r.records) in
          anywhere o task r e (start_from o task found (record r { outside = e }))
            (from-Outcome task found (record r { outside = e }) refl))
        (λ x e why. unchanged o task r e (by_disk why))
