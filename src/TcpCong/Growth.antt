-- ===== src/TcpCong/Growth.antt =====
-- What an ACK, a third duplicate and a timeout do to the congestion window of
-- kernel/net/tcp_cong.c.
use aurora_os.Prelude.{
  inl, inr, Bool-cases, ltb, ltb→lt, ltb→le, ℕ, ◌+◌, ◌*◌, ◌/◌, ◌^◌, ◌<◌, ◌≤◌, ◌≡◌, ◌≢◌, ◌⊎◌, arith,
  min, max,
}
use aurora_os.TcpCong.{
  CongData, slow_start, avoidance, recovery, loss, tcp_mss, track_high, note_ack, on_state,
  fast_retransmit, on_ack, on_timeout,
}

module _ (ack : ℕ) (cd : CongData) (live : cd.cwnd ≢ 0) (small : cd.cwnd < 2 ^ 31) where
  opens_below :
      cd.ssthresh < 2 ^ 32
      → cd.last_ack < ack
      → cd.cong_state ≡ slow_start
      → cd.cwnd < cd.ssthresh
      → ((on_ack ack cd).cwnd ≡ min (cd.cwnd + tcp_mss) cd.ssthresh)
        × ((on_ack ack cd).cong_state ≡ slow_start)
  unfolding on_ack track_high note_ack on_state fast_retransmit
  opens_below word new s below = ground arith

  opens_above :
      cd.last_ack < ack
      → cd.cong_state ≡ slow_start
      → cd.ssthresh ≤ cd.cwnd
      → ((on_ack ack cd).cwnd ≡ cd.cwnd + max 1 (tcp_mss * tcp_mss / cd.cwnd))
        × ((on_ack ack cd).cong_state ≡ avoidance)
  unfolding on_ack track_high note_ack on_state fast_retransmit
  opens_above new s above = ground arith

  opens_linearly :
      cd.last_ack < ack
      → cd.cong_state ≡ avoidance
      → ((on_ack ack cd).cwnd ≡ cd.cwnd + max 1 (tcp_mss * tcp_mss / cd.cwnd))
        × ((on_ack ack cd).cong_state ≡ avoidance)
  unfolding on_ack track_high note_ack on_state fast_retransmit
  opens_linearly new s = ground arith

-- A new ACK in slow start, with the window below the threshold, opens the window by one segment, and
-- not beyond the threshold; at or above the threshold it opens it by MSS * MSS / cwnd, at least 1, and
-- goes over to congestion avoidance. In congestion avoidance it does the same without a change of
-- state. The window is taken to be below 2^31. In either state no new ACK starts a fast retransmit.
pub on_ack_new :
    (ack : ℕ) (cd : CongData)
    → cd.cwnd ≢ 0
    → cd.cwnd < 2 ^ 31
    → cd.ssthresh < 2 ^ 32
    → cd.last_ack < ack
    → (cd.cong_state ≡ slow_start) ⊎ (cd.cong_state ≡ avoidance)
    → (cd.cong_state ≡ slow_start)
        × (cd.cwnd < cd.ssthresh)
        × ((on_ack ack cd).cwnd ≡ min (cd.cwnd + tcp_mss) cd.ssthresh)
        × ((on_ack ack cd).cong_state ≡ slow_start)
      ⊎ ((cd.cong_state ≡ avoidance) ⊎ (cd.ssthresh ≤ cd.cwnd))
        × ((on_ack ack cd).cwnd ≡ cd.cwnd + max 1 (tcp_mss * tcp_mss / cd.cwnd))
        × ((on_ack ack cd).cong_state ≡ avoidance)
on_ack_new ack cd live small word new (inr s) =
    let (w, t) = opens_linearly ack cd live small new s in inr (inl s, w, t)
on_ack_new ack cd live small word new (inl s) = elim (Bool-cases (ltb cd.cwnd cd.ssthresh)) [
  | inl h ↦
      let below = ltb→lt _ _ h in
      let (w, t) = opens_below ack cd live small word new s below in inl (s, below, w, t)
  | inr h ↦
      let above = ltb→le _ _ h in
      let (w, t) = opens_above ack cd live small new s above in inr (inr above, w, t)
]

-- A timeout sets the threshold to half the window, at least two segments, closes the window to one
-- segment, doubles the retransmission timeout up to 60 s, takes the highest sequence number as the
-- point of recovery and enters the state of loss.
pub on_timeout_lem :
    (cd : CongData)
    → cd.cwnd ≢ 0
    → cd.srto ≤ 60000
    → ((on_timeout cd).ssthresh ≡ max (cd.cwnd / 2) (2 * tcp_mss))
      × ((on_timeout cd).cwnd ≡ tcp_mss)
      × ((on_timeout cd).srto ≡ min (2 * cd.srto) 60000)
      × ((on_timeout cd).recover_seq ≡ cd.high_seq)
      × ((on_timeout cd).cong_state ≡ loss)
      × ((on_timeout cd).dup_ack_count ≡ 0)
unfolding on_timeout
on_timeout_lem cd live small = ground arith

-- A duplicate ACK that is at least the third, outside of recovery and loss, starts a fast retransmit:
-- the threshold is at least two segments and at most half of the window as the duplicate itself has
-- still opened it, or two segments; the window is three segments above the threshold; and the point of
-- recovery is the highest sequence number.
pub on_ack_third_duplicate :
    (cd : CongData)
    → cd.cwnd ≢ 0
    → cd.cwnd < 2 ^ 31
    → cd.ssthresh < 2 ^ 31
    → 2 ≤ cd.dup_ack_count
    → (cd.cong_state ≡ slow_start) ⊎ (cd.cong_state ≡ avoidance)
    → (2 * tcp_mss ≤ (on_ack cd.last_ack cd).ssthresh)
      × ((on_ack cd.last_ack cd).ssthresh
          ≤ max (2 * tcp_mss) ((cd.cwnd + tcp_mss * tcp_mss + 1) / 2))
      × ((on_ack cd.last_ack cd).cwnd ≡ (on_ack cd.last_ack cd).ssthresh + 3 * tcp_mss)
      × ((on_ack cd.last_ack cd).recover_seq ≡ max cd.high_seq cd.last_ack)
      × ((on_ack cd.last_ack cd).cong_state ≡ recovery)
unfolding on_ack track_high note_ack on_state fast_retransmit
on_ack_third_duplicate cd live small word dup state = ground arith
