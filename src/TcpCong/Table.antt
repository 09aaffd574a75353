-- ===== src/TcpCong/Table.antt =====
-- The table of sixteen slots of kernel/net/tcp_cong.c, and the functions that other files call. A
-- socket is a number that is not negative.
pub mod Slots
use aurora_os.Prelude.{
  ℕ, zero, suc, ◌+◌, ◌%◌, Bool, not, ◌&&◌, Option, none, some, List, [], ◌∷◌, get_or, set,
  replicate, ltb, leb, ◌==◌, if◌then◌else◌,
}
use aurora_os.TcpCong.{
  CongData, zero_data, fresh_data, tcp_mss, tcp_rto_initial, on_ack, on_timeout, effective_window,
  start_rtt, complete_rtt,
}

abbrev pub max_tcp_cong_sockets : ℕ
max_tcp_cong_sockets = 16

abbrev pub Table : Type 0
Table = List CongData

-- tcp_cong_init
abbrev pub tcp_cong_init : Table
tcp_cong_init = replicate 16 zero_data

abbrev pub is_free : CongData → Bool
is_free cd = cd.cwnd == 0 && cd.ssthresh == 0 && cd.srto == 0

-- The first free slot, from index `i` on.
unfoldable pub first_free : ℕ → Table → Option ℕ
first_free i [] = none
first_free i (cd ∷ rest) =
    let later = first_free (suc i) rest in if is_free cd then some i else later

unfoldable pub tcp_cong_socket_init : ℕ → Table → Table
unfolding first_free
tcp_cong_socket_init sock table = elim (first_free 0 table) [
  | some slot ↦ set table slot (fresh_data sock)
  | none ↦
      if (get_or table (sock % max_tcp_cong_sockets) zero_data).cwnd == 0
      then set table (sock % max_tcp_cong_sockets) (fresh_data sock)
      else table
]

-- The slot `sock % 16`, unless another socket uses it.
unfoldable pub tcp_cong_find_slot : ℕ → Table → Option CongData
tcp_cong_find_slot sock table =
    let cd = get_or table (sock % max_tcp_cong_sockets) zero_data in
    if not (cd.cwnd == 0) && not (cd.sock_id == 0) && not (cd.sock_id == sock)
    then none
    else some cd

-- `struct tcp_cong_data *cd = tcp_cong_find_slot(sock); if (cd) ...`
unfoldable pub update_slot : (CongData → CongData) → ℕ → Table → Table
unfolding tcp_cong_find_slot
update_slot f sock table = elim (tcp_cong_find_slot sock table) [
  | none ↦ table
  | some cd ↦ set table (sock % max_tcp_cong_sockets) (f cd)
]

unfoldable pub tcp_cong_on_ack : ℕ → ℕ → Table → Table
unfolding update_slot
tcp_cong_on_ack sock ack_seq table = update_slot (on_ack ack_seq) sock table

unfoldable pub tcp_cong_on_timeout : ℕ → Table → Table
unfolding update_slot
tcp_cong_on_timeout sock table = update_slot on_timeout sock table

-- The bit pattern of a negative `int` is far above 14.
unfoldable pub tcp_cong_set_window_scale : ℕ → ℕ → Table → Table
unfolding update_slot
tcp_cong_set_window_scale sock shift_cnt table =
    update_slot (λ cd. if leb shift_cnt 14 then record cd { window_scale = shift_cnt } else cd) sock
      table

unfoldable pub tcp_cong_get_window_scale : ℕ → Table → ℕ
unfolding tcp_cong_find_slot
tcp_cong_get_window_scale sock table = elim (tcp_cong_find_slot sock table) [
  | none ↦ 0
  | some cd ↦ cd.window_scale
]

unfoldable pub tcp_cong_get_effective_window : ℕ → ℕ → Table → ℕ
unfolding tcp_cong_find_slot
tcp_cong_get_effective_window sock rcv_window table = elim (tcp_cong_find_slot sock table) [
  | none ↦ tcp_mss
  | some cd ↦ effective_window rcv_window cd
]

unfoldable pub tcp_cong_get_rto : ℕ → Table → ℕ
unfolding tcp_cong_find_slot
tcp_cong_get_rto sock table = elim (tcp_cong_find_slot sock table) [
  | none ↦ tcp_rto_initial
  | some cd ↦ cd.srto
]

unfoldable pub tcp_cong_start_rtt_measure : ℕ → ℕ → Table → Table
unfolding update_slot
tcp_cong_start_rtt_measure sock seq table = update_slot (start_rtt seq) sock table

unfoldable pub tcp_cong_complete_rtt_measure : ℕ → ℕ → ℕ → Table → Table
unfolding update_slot
tcp_cong_complete_rtt_measure sock ack_seq measured table =
    update_slot (complete_rtt measured) sock table
