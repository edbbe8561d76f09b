-- ===== src/Config/Loading/Files.antt =====
-- `source` and `Load` of internal/config/load.go: the .env files in order, and the process
-- environment over them.
--
-- Parameters: the library's environment, with `envi.New`, `envi.Load`, `Merge` and `Set`; whether an
-- error is os.ErrNotExist; and `bind.Decode` with what `decode` does next.
use go_outbox.Base.{Bool, Option, none, some, List, [], ◌∷◌, String, if◌then◌else◌}
use go_outbox.Base.Int.{ℤ}
use go_outbox.Core.Errors.{Err, Result, ok, err, wrap, wrapped}
use go_outbox.Config.{Config}
use go_outbox.Config.Environment.{Library, Source, ◌>>=◌}
use go_outbox.Config.Loading.{decode}

module _ {Env : Type 0} (new : Env) (load_file : String → Result Env) (is_absent : Err → Bool)
    (merge : Env → Env → Result Env) (set : String → String → Env → Env) (lib : Library) where
  -- What one file adds.
  abbrev with_file : Env → Result Env → Result Env
  with_file env (ok file) = wrapped "merge" (merge env file)
  with_file env (err e) = if is_absent e then ok env else err (wrap "load" e)

  unfoldable pub merge_files : Env → List String → Result Env
  merge_files env [] = ok env
  merge_files env (path ∷ rest) =
      with_file env (load_file path) >>= λ merged. merge_files merged rest

  abbrev with_variable : Option (String × String) → Env → Env
  with_variable none env = env
  with_variable (some (k, v)) env = set k v env

  unfoldable pub set_all : Env → List String → Env
  set_all env [] = env
  set_all env (variable ∷ rest) = set_all (with_variable (lib.cut variable "=") env) rest

  -- `source`, with the process environment.
  unfoldable pub source : List String → List String → Result Env
  unfolding merge_files set_all
  source files environ = do env ← merge_files new files; ok (set_all env environ)

  module _ (bound : Env → Result Config) (view : Env → Source) (describe : Err → String)
      (host : Result String) (pid : ℤ) where
    -- `Load`, and `LoadAdmin` with the flag.
    unfoldable pub load : List String → List String → Bool → Result Config
    unfolding source decode
    load files environ admin_only = do
      env ← source files environ
      decode lib describe host pid (bound env) (view env) admin_only
