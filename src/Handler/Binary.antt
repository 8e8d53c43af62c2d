-- ===== src/Handler/Binary.antt =====
-- crates/mrsh-server/src/handler.rs: the branch of the request loop for messages of the binary
-- protocol, up to what each of them sets going. `as_bytes` is the UTF-8 of a String.
use rsh.Prelude.{ℕ, ◌≡◌, refl, false, Option, none, some, List, [], ◌==◌, take, if◌then◌else◌}
use rsh.Prelude.Bytes.{Bytes}
use rsh.Error.{Result, ok, err, ◌>>=◌, context, parse_request_json}
use rsh.Text.{Text, chars}
use rsh.Auth.{KeyPermissions}
use rsh.Binproto.TypeIds.{
  exec_id, exec_stream_id, log_query_id, ping_id, push_start_id, pull_req_id, info_req_id,
  screenshot_req_id, self_update_id, request_id,
}
use rsh.Binproto.Messages.{parse_exec, build_exec, parse_push_start, parse_pull_req}
use rsh.Binproto.Lists.{Fits, AllFit}
use rsh.Binproto.RoundTrip.{parse-build_exec}
use rsh.Handler.{Request, check_permission}

pub data Action : Type 0 where
  run_exec stream_exec : Bytes → List Bytes → Action
  query_log : Bytes → Action
  pong : Action
  receive_file : ℕ → Bytes → Action
  send_file self_update : Bytes → Action
  send_info send_screenshot : Action
  dispatch_request : Request → Action
  unknown_type : ℕ → Action

module _ (as_bytes : Text → Bytes) (request_json : Bytes → Option Request) where
  abbrev pub forced_or : Option Text → Bytes → Bytes
  forced_or none command = command
  forced_or (some forced) command = as_bytes forced

  -- `parse_pull_req(payload).unwrap_or_default()`
  abbrev pub path_or_empty : Result Bytes → Bytes
  path_or_empty (err _) = []
  path_or_empty (ok path) = path

  unfoldable pub binary_action : KeyPermissions → ℕ → Bytes → Result Action
  binary_action perms type_id payload =
      if type_id == exec_id
      then parse_exec payload
        >>= (λ (p : Bytes × List Bytes). ok (run_exec (forced_or perms.forced_command p.0) p.1))
      else if type_id == exec_stream_id
      then parse_exec payload
        >>= (λ (p : Bytes × List Bytes). ok (stream_exec (forced_or perms.forced_command p.0) p.1))
      else if type_id == log_query_id
      then ok (query_log payload)
      else if type_id == ping_id
      then ok pong
      else if type_id == push_start_id
      then parse_push_start payload >>= (λ (p : ℕ × Bytes). ok (receive_file p.0 p.1))
      else if type_id == pull_req_id
      then parse_pull_req payload >>= (λ (path : Bytes). ok (send_file path))
      else if type_id == info_req_id
      then ok send_info
      else if type_id == screenshot_req_id
      then ok send_screenshot
      else if type_id == self_update_id
      then ok (self_update (path_or_empty (parse_pull_req payload)))
      else if type_id == request_id
      then context parse_request_json (request_json payload)
        >>= (λ (req : Request). ok (dispatch_request req))
      else ok (unknown_type type_id)

  -- A key without the permission to run commands, and without a forced command: a request to run
  -- one is denied in JSON, and in the binary protocol it runs. The strings are below 64 KB, and the
  -- first 255 variables reach the command.
  pub binary_action-build_exec :
      (perms : KeyPermissions) (command : Bytes) (env_vars : List Bytes) (text : Option Text)
      → perms.allow_exec ≡ false
      → perms.forced_command ≡ none
      → Fits command
      → AllFit env_vars
      → (check_permission
            (record { req_type = chars "exec"; command = text; sync_type = none })
            perms
          ≡ some (chars "exec not permitted for this key"))
        × (binary_action perms exec_id (build_exec command env_vars)
            ≡ ok (run_exec command (take 255 env_vars)))
  unfolding binary_action check_permission
  binary_action-build_exec perms command env_vars text denied free fits all =
      (rw denied refl, rw (parse-build_exec command env_vars fits all, free) refl)
