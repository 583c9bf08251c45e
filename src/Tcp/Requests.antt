-- ===== src/Tcp/Requests.antt =====
-- include/raft_macroses_and_functions.h: the numbers of the requests. Every enumeration starts with
-- the number behind the last of the one before.
use cpp_raft.Base.{ℕ, ℤ, negsuc}

-- `raft::response`
abbrev pub error_response : ℤ
error_response = negsuc 0

abbrev pub ok_response : ℕ
ok_response = 0

-- `raft::connect`
abbrev pub connect_new_node : ℕ
connect_new_node = 1

abbrev pub permanent_bridge : ℕ
permanent_bridge = 2

abbrev pub other_leader_found : ℕ
other_leader_found = 3

abbrev pub init_leader : ℕ
init_leader = 4

abbrev pub init_follower : ℕ
init_follower = 5

abbrev pub all_nodes_info : ℕ
all_nodes_info = 6

abbrev pub ping_request : ℕ
ping_request = 7

abbrev pub start_time_request : ℕ
start_time_request = 8

-- `raft::receive`
abbrev pub clbk_cmd : ℕ
clbk_cmd = 9

abbrev pub reset_ping : ℕ
reset_ping = 10

abbrev pub remove_node_request : ℕ
remove_node_request = 11

abbrev pub adder_new_node : ℕ
adder_new_node = 12

abbrev pub to_new_node_add_partitions : ℕ
to_new_node_add_partitions = 13

abbrev pub node_with_key_already_exist : ℕ
node_with_key_already_exist = 14

abbrev pub old_leader_died : ℕ
old_leader_died = 15

-- `raft::internal2`
abbrev pub internal_remove_node : ℕ
internal_remove_node = 16

abbrev pub internal_become_leader : ℕ
internal_become_leader = 17
