-- ===== src/TcpCong/Bounds.antt =====
-- The ranges of what kernel/net/tcp_cong.c keeps for a socket.
use native.Mathlib.Nat.{pow-le-pow_right}
use aurora_os.Prelude.{List, [], ◌∷◌, ℕ, ◌*◌, ◌^◌, ◌<◌, ◌≤◌, ◌≡◌, arith, min, max}
use aurora_os.TcpCong.{
  CongData, fresh_data, tcp_mss, on_ack, on_timeout, start_rtt, complete_rtt, effective_window,
  grow_linear,
}

-- The retransmission timeout is between 200 ms and 60 s, the slow start threshold at least two
-- segments, and the words are words.
pub record IsValid (cd : CongData) : Type 0 where
  pub rto_low : 200 ≤ cd.srto
  pub rto_high : cd.srto ≤ 60000
  pub threshold : 2 * tcp_mss ≤ cd.ssthresh
  pub threshold_word : cd.ssthresh < 2 ^ 32
  pub window_word : cd.cwnd < 2 ^ 32
  pub scale_low : cd.window_scale ≤ 14

pub fresh-IsValid : (sock : ℕ) → IsValid (fresh_data sock)
fresh-IsValid sock = omega arith

grow_linear-IsValid : {cd : CongData} → IsValid cd → IsValid (grow_linear cd)
unfolding grow_linear
grow_linear-IsValid v = ground arith

-- What can happen to the data of one socket.
pub data Event : Type 0 where
  ack : ℕ → Event
  timeout : Event
  timed_send : ℕ → Event
  measured : ℕ → Event

unfoldable pub handle : Event → CongData → CongData
handle (ack seq) cd = on_ack seq cd
handle timeout cd = on_timeout cd
handle (timed_send seq) cd = start_rtt seq cd
handle (measured rtt) cd = complete_rtt rtt cd

unfoldable pub history : List Event → CongData → CongData
history [] cd = cd
history (e ∷ es) cd = history es (handle e cd)

small_scale : (w s : ℕ) → w < 2 ^ 16 → s ≤ 14 → w * 2 ^ s < 2 ^ 32
small_scale w s p q = let factor : 2 ^ s ≤ 2 ^ 14 = pow-le-pow_right (omega arith) q in grind arith

-- The window that the sender may use is the smaller of the congestion window and the receiver's
-- window, scaled without overflow, and never less than one segment.
pub effective_window_lem :
    (rcv_window : ℕ) (cd : CongData)
    → rcv_window < 2 ^ 16
    → IsValid cd
    → effective_window rcv_window cd ≡ max tcp_mss (min cd.cwnd (rcv_window * 2 ^ cd.window_scale))
unfolding effective_window
effective_window_lem rcv_window cd w v =
    ground (arith, small_scale rcv_window cd.window_scale w v.scale_low)
