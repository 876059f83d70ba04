-- ===== src/Transfer/Codec/Kind.antt =====
-- src/transport/transfer/codec/mod.rs: the constants `KIND_PUT_REQUEST` and so on.
use irosh.Common.{ℕ}

abbrev pub put_request : ℕ
put_request = 1

abbrev pub put_ready : ℕ
put_ready = 2

abbrev pub put_chunk : ℕ
put_chunk = 3

abbrev pub put_complete : ℕ
put_complete = 4

abbrev pub get_request : ℕ
get_request = 5

abbrev pub get_ready : ℕ
get_ready = 6

abbrev pub get_chunk : ℕ
get_chunk = 7

abbrev pub get_complete : ℕ
get_complete = 8

abbrev pub error : ℕ
error = 9

abbrev pub cwd_request : ℕ
cwd_request = 10

abbrev pub cwd_response : ℕ
cwd_response = 11

abbrev pub exists_request : ℕ
exists_request = 12

abbrev pub exists_response : ℕ
exists_response = 13

abbrev pub new_entry : ℕ
new_entry = 14

abbrev pub entry_complete : ℕ
entry_complete = 15

abbrev pub completion_request : ℕ
completion_request = 16

abbrev pub completion_response : ℕ
completion_response = 17

abbrev pub blob_put_request : ℕ
blob_put_request = 18

abbrev pub blob_get_request : ℕ
blob_get_request = 19

abbrev pub blob_get_ready : ℕ
blob_get_ready = 20
