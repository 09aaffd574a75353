-- ===== src/TcpCong.antt =====
-- kernel/net/tcp_cong.c: NewReno congestion control. This file has what each function does to the
-- data of one socket; TcpCong/Table has the table of sixteen. Sequence numbers, windows and times
-- are `uint32_t` values with their wrap; the count of duplicate ACKs, an `int`, is taken not to
-- overflow. The spinlock makes each function one step. Log output is left out.
pub mod Table
pub mod Bounds
pub mod Growth
pub mod Recovery
pub mod Tests
use aurora_os.Prelude.{
  ℕ, zero, suc, ◌+◌, ◌-◌, ◌*◌, ◌/◌, ◌%◌, ◌^◌, Bool, true, false, ◌&&◌, ltb, leb, ◌==◌,
  if◌then◌else◌,
}

abbrev pub tcp_mss : ℕ
tcp_mss = 1460

abbrev pub tcp_initial_cwnd : ℕ
tcp_initial_cwnd = 2 * tcp_mss

abbrev pub tcp_initial_ssthresh : ℕ
tcp_initial_ssthresh = 65535

abbrev pub tcp_rto_initial : ℕ
tcp_rto_initial = 1000

abbrev pub tcp_rto_min : ℕ
tcp_rto_min = 200

abbrev pub tcp_rto_max : ℕ
tcp_rto_max = 60000

abbrev pub u32 : ℕ → ℕ
u32 n = n % 2 ^ 32

pub data CongState : Type 0 where
  slow_start avoidance recovery loss : CongState

-- `struct tcp_cong_data`
pub record CongData : Type 0 where
  pub cwnd : ℕ
  pub ssthresh : ℕ
  pub rtt : ℕ
  pub rttvar : ℕ
  pub srto : ℕ
  pub rtt_seq : ℕ
  pub rtt_ts : ℕ
  pub rtt_measuring : Bool
  pub dup_ack_count : ℕ
  pub last_ack : ℕ
  pub recover_seq : ℕ
  pub high_seq : ℕ
  pub cong_state : CongState
  pub window_scale : ℕ
  pub sock_id : ℕ

-- A slot after `memset(..., 0, ...)`. The three fields that nothing reads (sack_ok, timestamp_ok and
-- the peer's timestamps) are left out.
abbrev pub zero_data : CongData
zero_data = record {
  cwnd = 0;
  ssthresh = 0;
  rtt = 0;
  rttvar = 0;
  srto = 0;
  rtt_seq = 0;
  rtt_ts = 0;
  rtt_measuring = false;
  dup_ack_count = 0;
  last_ack = 0;
  recover_seq = 0;
  high_seq = 0;
  cong_state = slow_start;
  window_scale = 0;
  sock_id = 0;
}

-- What tcp_cong_socket_init writes into the slot that it has found.
abbrev pub fresh_data : ℕ → CongData
fresh_data sock = record zero_data {
  cwnd = tcp_initial_cwnd;
  ssthresh = tcp_initial_ssthresh;
  srto = tcp_rto_initial;
  sock_id = sock;
}

-- `if (srto < TCP_RTO_MIN) ...; if (srto > TCP_RTO_MAX) ...;`
abbrev pub clamp_rto : ℕ → ℕ
clamp_rto t =
    let raised = if ltb t tcp_rto_min then tcp_rto_min else t in
    if ltb tcp_rto_max raised then tcp_rto_max else raised

-- `(int32_t)a - (int32_t)b`, negated if it is negative: a 32-bit difference read as signed.
abbrev pub abs_diff : ℕ → ℕ → ℕ
abs_diff a b =
    let diff = u32 (a + 2 ^ 32 - b) in if leb (2 ^ 31) diff then u32 (2 ^ 32 - diff) else diff

-- `cd->rtt + 4 * cd->rttvar`
abbrev pub rto_of : ℕ → ℕ → ℕ
rto_of rtt rttvar = clamp_rto (u32 (rtt + 4 * rttvar))

unfoldable pub update_rtt : ℕ → CongData → CongData
update_rtt measured cd =
    if measured == 0
    then cd
    else let first = cd.rtt == 0 in
      let var =
        if first then measured / 2 else u32 (3 * cd.rttvar + abs_diff measured cd.rtt) / 4 in
      let smoothed = if first then measured else u32 (7 * cd.rtt + measured) / 8 in
      record cd { rtt = smoothed; rttvar = var; srto = rto_of smoothed var }

-- tcp_cong_on_ack, step by step: the highest sequence number,
unfoldable pub track_high : ℕ → CongData → CongData
track_high ack cd = if ltb cd.high_seq ack then record cd { high_seq = ack } else cd

-- duplicate and new ACKs, with the reset of a backed-off RTO,
unfoldable pub note_ack : ℕ → CongData → CongData
note_ack ack cd =
    if ack == cd.last_ack
    then record cd { dup_ack_count = cd.dup_ack_count + 1 }
    else if ltb cd.last_ack ack
    then record cd {
      dup_ack_count = 0;
      last_ack = ack;
      srto =
          if ltb tcp_rto_initial cd.srto && ltb 0 cd.rtt then rto_of cd.rtt cd.rttvar else cd.srto;
    }
    else cd

-- `increment = MSS * MSS / cwnd`, at least 1,
abbrev pub increment : ℕ → ℕ
increment cwnd = let inc = u32 (tcp_mss * tcp_mss / cwnd) in if inc == 0 then 1 else inc

unfoldable pub grow_linear : CongData → CongData
grow_linear cd = record cd { cwnd = u32 (cd.cwnd + increment cd.cwnd) }

-- the case TCP_CONG_SLOW_START,
unfoldable pub on_slow_start : CongData → CongData
unfolding grow_linear
on_slow_start cd =
    let grown = if leb cd.cwnd (2 ^ 32 - 1 - tcp_mss) then cd.cwnd + tcp_mss else cd.cwnd in
    if ltb cd.cwnd cd.ssthresh
    then record cd { cwnd = if ltb cd.ssthresh grown then cd.ssthresh else grown }
    else grow_linear (record cd { cong_state = avoidance })

-- the case TCP_CONG_RECOVERY,
unfoldable pub on_recovery : ℕ → CongData → CongData
on_recovery ack cd =
    let less = u32 (cd.cwnd + 2 ^ 32 - tcp_mss) in
    if ltb cd.last_ack ack
    then if ltb ack cd.recover_seq
      then record cd { cwnd = if ltb less tcp_mss then tcp_mss else less; dup_ack_count = 0 }
      else record cd { cwnd = cd.ssthresh; cong_state = avoidance; dup_ack_count = 0 }
    else record cd { cwnd = u32 (cd.cwnd + tcp_mss) }

-- the switch,
unfoldable pub on_state : ℕ → CongState → CongData → CongData
unfolding on_slow_start grow_linear on_recovery
on_state ack slow_start cd = on_slow_start cd
on_state ack avoidance cd = grow_linear cd
on_state ack recovery cd = on_recovery ack cd
on_state ack loss cd =
    if leb cd.recover_seq ack then record cd { cong_state = slow_start; dup_ack_count = 0 } else cd

-- `max(cwnd / 2, 2 * MSS)`,
abbrev pub half_window : ℕ → ℕ
half_window cwnd = if ltb (cwnd / 2) (2 * tcp_mss) then 2 * tcp_mss else cwnd / 2

abbrev pub may_retransmit : CongState → Bool
may_retransmit recovery = false
may_retransmit loss = false
may_retransmit _ = true

-- and fast retransmit, which looks at the state from before the switch.
unfoldable pub fast_retransmit : CongState → CongData → CongData
fast_retransmit before cd =
    if leb 3 cd.dup_ack_count && may_retransmit before
    then record cd {
      ssthresh = half_window cd.cwnd;
      cwnd = u32 (half_window cd.cwnd + 3 * tcp_mss);
      recover_seq = cd.high_seq;
      cong_state = recovery;
    }
    else cd

unfoldable pub on_ack : ℕ → CongData → CongData
on_ack ack cd =
    if cd.cwnd == 0
    then cd
    else let noted = note_ack ack (track_high ack cd) in
      fast_retransmit noted.cong_state (on_state ack noted.cong_state noted)

unfoldable pub on_timeout : CongData → CongData
on_timeout cd =
    if cd.cwnd == 0
    then cd
    else let doubled = u32 (cd.srto * 2) in
      record cd {
        ssthresh = half_window cd.cwnd;
        cwnd = tcp_mss;
        srto = if ltb tcp_rto_max doubled then tcp_rto_max else doubled;
        recover_seq = cd.high_seq;
        cong_state = loss;
        dup_ack_count = 0;
        rtt_measuring = false;
      }

-- `min(cwnd, rcv_window << window_scale)`, at least MSS.
unfoldable pub effective_window : ℕ → CongData → ℕ
effective_window rcv_window cd =
    let scaled = u32 (rcv_window * 2 ^ cd.window_scale) in
    let smaller = if ltb scaled cd.cwnd then scaled else cd.cwnd in
    if ltb smaller tcp_mss then tcp_mss else smaller

unfoldable pub start_rtt : ℕ → CongData → CongData
start_rtt seq cd =
    if cd.rtt_measuring then cd else record cd { rtt_seq = seq; rtt_measuring = true; rtt_ts = 0 }

unfoldable pub complete_rtt : ℕ → CongData → CongData
complete_rtt measured cd =
    if cd.rtt_measuring then record (update_rtt measured cd) { rtt_measuring = false } else cd
