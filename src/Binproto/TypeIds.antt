-- ===== src/Binproto/TypeIds.antt =====
-- `binproto::msg`: the type byte that begins each message.
use rsh.Prelude.{ℕ, List, [], ◌∷◌}

abbrev pub auth_request_id : ℕ
auth_request_id = 0x01

abbrev pub auth_challenge_id : ℕ
auth_challenge_id = 0x02

abbrev pub auth_response_id : ℕ
auth_response_id = 0x03

abbrev pub auth_ok_id : ℕ
auth_ok_id = 0x04

abbrev pub auth_fail_id : ℕ
auth_fail_id = 0x05

abbrev pub totp_challenge_id : ℕ
totp_challenge_id = 0x06

abbrev pub totp_response_id : ℕ
totp_response_id = 0x07

abbrev pub exec_id : ℕ
exec_id = 0x10

abbrev pub exec_result_id : ℕ
exec_result_id = 0x11

abbrev pub exec_stream_id : ℕ
exec_stream_id = 0x12

abbrev pub exec_stdout_id : ℕ
exec_stdout_id = 0x13

abbrev pub exec_stderr_id : ℕ
exec_stderr_id = 0x14

abbrev pub exec_exit_id : ℕ
exec_exit_id = 0x15

abbrev pub exec_signal_id : ℕ
exec_signal_id = 0x16

abbrev pub push_start_id : ℕ
push_start_id = 0x20

abbrev pub push_data_id : ℕ
push_data_id = 0x21

abbrev pub push_end_id : ℕ
push_end_id = 0x22

abbrev pub push_ok_id : ℕ
push_ok_id = 0x23

abbrev pub pull_req_id : ℕ
pull_req_id = 0x30

abbrev pub pull_data_id : ℕ
pull_data_id = 0x31

abbrev pub pull_end_id : ℕ
pull_end_id = 0x32

abbrev pub info_req_id : ℕ
info_req_id = 0x40

abbrev pub info_resp_id : ℕ
info_resp_id = 0x41

abbrev pub ping_id : ℕ
ping_id = 0x50

abbrev pub pong_id : ℕ
pong_id = 0x51

abbrev pub screenshot_req_id : ℕ
screenshot_req_id = 0x60

abbrev pub screenshot_data_id : ℕ
screenshot_data_id = 0x61

abbrev pub self_update_id : ℕ
self_update_id = 0x70

abbrev pub self_update_ok_id : ℕ
self_update_ok_id = 0x71

abbrev pub shell_req_id : ℕ
shell_req_id = 0x80

abbrev pub shell_data_id : ℕ
shell_data_id = 0x81

abbrev pub shell_resize_id : ℕ
shell_resize_id = 0x82

abbrev pub sync_req_id : ℕ
sync_req_id = 0x90

abbrev pub sync_resp_id : ℕ
sync_resp_id = 0x91

abbrev pub log_query_id : ℕ
log_query_id = 0xA0

abbrev pub log_data_id : ℕ
log_data_id = 0xA1

abbrev pub log_end_id : ℕ
log_end_id = 0xA2

abbrev pub request_id : ℕ
request_id = 0xF0

abbrev pub response_id : ℕ
response_id = 0xF1

abbrev pub error_id : ℕ
error_id = 0xFF

-- All of them, in the order of the source.
abbrev pub type_ids : List ℕ
type_ids =
    auth_request_id ∷ auth_challenge_id ∷ auth_response_id ∷ auth_ok_id ∷ auth_fail_id
    ∷ totp_challenge_id ∷ totp_response_id ∷ exec_id ∷ exec_result_id ∷ exec_stream_id
    ∷ exec_stdout_id ∷ exec_stderr_id ∷ exec_exit_id ∷ exec_signal_id ∷ push_start_id ∷ push_data_id
    ∷ push_end_id ∷ push_ok_id ∷ pull_req_id ∷ pull_data_id ∷ pull_end_id ∷ info_req_id
    ∷ info_resp_id ∷ ping_id ∷ pong_id ∷ screenshot_req_id ∷ screenshot_data_id ∷ self_update_id
    ∷ self_update_ok_id ∷ shell_req_id ∷ shell_data_id ∷ shell_resize_id ∷ sync_req_id
    ∷ sync_resp_id ∷ log_query_id ∷ log_data_id ∷ log_end_id ∷ request_id ∷ response_id ∷ error_id
    ∷ []
