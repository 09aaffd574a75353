-- ===== src/TcpCong/Tests.antt =====
-- Runs of kernel/net/tcp_cong.c, and the theorems at them.
use aurora_os.Prelude.{◌≡◌, refl, List, [], ◌∷◌}
use aurora_os.TcpCong.{
  CongData, recovery, fresh_data, on_ack, on_timeout, complete_rtt, start_rtt, update_rtt,
  track_high, note_ack, on_state, fast_retransmit,
}
use aurora_os.TcpCong.Bounds.{Event, handle, ack, timeout, timed_send, measured, history}

abbrev trace : List Event
trace = timed_send 1 ∷ ack 1461 ∷ measured 120 ∷ timeout ∷ ack 2921 ∷ []

history_run :
    ((history trace (fresh_data 5)).srto ≡ 720) × ((history trace (fresh_data 5)).cwnd ≡ 1460)
unfolding history handle on_ack on_timeout complete_rtt start_rtt update_rtt track_high note_ack
    on_state fast_retransmit
history_run = (refl, refl)

abbrev sent : CongData
sent = record (fresh_data 5) { last_ack = 1000; high_seq = 9000; dup_ack_count = 2 }

abbrev recovering : CongData
recovering = record sent { cong_state = recovery; recover_seq = 9000 }
