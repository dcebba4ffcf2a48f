-- ===== src/Runner/Specs.antt =====
-- `spec` of internal/runner/runner.go: what a sandbox is launched with.
use gritz.Prelude.{
  true, false, Option, none, some, List, [], ◌∷◌, ◌++◌, Bytes, codes, bytes_eq, if◌then◌else◌,
}
use gritz.Prelude.Decimal.{format_int}
use gritz.Task.{Task}
use gritz.Runner.{
  Runner, Error, text_error, error_text, Run, Result, ok, err, ◌>>=◌, ◌>>◌, pure, fail, ask,
  Outside, Workspace, File, Spec,
}

abbrev pub find_workspace : Bytes → List (Bytes × Workspace) → Option Workspace
find_workspace name [] = none
find_workspace name ((n, ws) ∷ rest) = if bytes_eq n name then some ws else find_workspace name rest

-- `SecretNames`; the secrets are listed by name.
abbrev pub secret_names : List (Bytes × Bytes) → List Bytes
secret_names [] = []
secret_names ((name, value) ∷ rest) = name ∷ secret_names rest

-- `strings.Join(names, ",")`
unfoldable pub join : List Bytes → Bytes
join [] = []
join (name ∷ []) = name
join (name ∷ names) = name ++ codes "," ++ join names

abbrev pub capability_args : List Bytes → List Bytes
capability_args [] = []
capability_args (c ∷ cs) = codes "--capability" ∷ c ∷ capability_args cs

abbrev pub mcp_args : Bytes → Task → Bytes → List Bytes → List Bytes
mcp_args server_url task token capabilities =
    codes "tool"
    ∷ codes "agent-mcp"
    ∷ codes "--server"
    ∷ server_url
    ∷ codes "--task"
    ∷ format_int task.id
    ∷ codes "--runner"
    ∷ task.runner
    ∷ codes "--workspace"
    ∷ task.workspace
    ∷ codes "--token"
    ∷ token
    ∷ capability_args capabilities

abbrev pub secret_env : List (Bytes × Bytes) → List Bytes
secret_env [] = []
secret_env ((name, value) ∷ rest) = (name ++ codes "=" ++ value) ∷ secret_env rest

abbrev pub declared_env : List (Bytes × Bytes) → List Bytes
declared_env [] = []
declared_env (s ∷ rest) =
    secret_env (s ∷ rest) ++ (codes "GRITZ_SECRETS=" ++ join (secret_names (s ∷ rest))) ∷ []

unfoldable pub spec_env : Bytes → Task → Bytes → Workspace → List Bytes
spec_env server_url task token ws =
    (codes "GRITZ_TASK_ID=" ++ format_int task.id)
    ∷ (codes "GRITZ_TOKEN=" ++ token)
    ∷ (codes "GRITZ_SERVER=" ++ server_url)
    ∷ declared_env ws.secrets

abbrev pub binary_path : Bytes
binary_path = codes "/usr/local/bin/gritz"

-- Modes 0777 and 0666.
abbrev pub spec_files : Task → Bytes → List File
spec_files task config =
    record { path = codes "/tmp/gritz"; content = []; mode = 511; dir = true }
    ∷ record {
      path = codes "/tmp/gritz/" ++ format_int task.id ++ codes ".json";
      content = config;
      mode = 438;
      dir = false;
    }
    ∷ record { path = codes "/gritz"; content = []; mode = 511; dir = true }
    ∷ []

abbrev pub spec_of : Bytes → Task → Workspace → Bytes → Bytes → Spec
spec_of server_url task ws token config = record {
  task_id = task.id;
  workspace = ws;
  cmd =
      binary_path
      ∷ codes "driver"
      ∷ codes "--server"
      ∷ server_url
      ∷ codes "--task"
      ∷ format_int task.id
      ∷ codes "--token"
      ∷ token
      ∷ [];
  env = spec_env server_url task token ws;
  files = spec_files task config;
}

-- `fmt.Errorf(text + ": %w", err)`; no error that is wrapped here is that of a gone sandbox.
abbrev pub wrap : Bytes → Error → Error
wrap text e = text_error (text ++ codes ": " ++ error_text e)

-- `%q` of a name without characters that it escapes.
abbrev pub quoted : Bytes → Bytes
quoted name = codes "\"" ++ name ++ codes "\""

module _ {E : Type 0} where
  module _ {ℓ} {A : Type ℓ} where
    abbrev pub wrapped : Bytes → Result A × Runner E → Result A × Runner E
    wrapped text (ok a, r) = (ok a, r)
    wrapped text (err e, r) = (err (wrap text e), r)

  abbrev pub workspace_of : Bytes → Option Workspace → Run E Workspace
  workspace_of name none = fail (
      text_error (codes "failed to get workspace: workspace " ++ quoted name ++ codes " not found"))
  workspace_of name (some ws) = pure ws

module _ {E : Type 0} (o : Outside E) where
  -- From the token on, from the validated workspace on, and from the workspace on.
  unfoldable pub spec_with_token : Task → Workspace → Bytes → Run E Spec
  spec_with_token task ws token = do
    config ← λ r.
        wrapped (codes "failed to marshal config")
          (ask (o.config_data ws (mcp_args r.options.server_url task token ws.capabilities)) r)
    λ r. (ok (spec_of r.options.server_url task ws token config), r)

  unfoldable pub spec_validated : Task → Workspace → Run E Spec
  spec_validated task ws = do
    token ← λ r.
        wrapped (codes "failed to create task token")
          (ask (o.create_task_token task.id ws.capabilities) r)
    spec_with_token task ws token

  unfoldable pub spec_for : Task → Workspace → Run E Spec
  spec_for task ws = do
    λ r.
        wrapped (codes "invalid workspace " ++ quoted task.workspace)
          (ask (o.validate_workspace ws) r)
    spec_validated task ws

  unfoldable pub spec : Task → Run E Spec
  spec task = do
    ws ← λ r. workspace_of task.workspace (find_workspace task.workspace r.options.workspaces) r
    spec_for task ws
