-- ===== src/TcpCong/Recovery.antt =====
-- Fast recovery in kernel/net/tcp_cong.c. tcp_cong_on_ack stores the new ACK in last_ack before the
-- switch, and the case TCP_CONG_RECOVERY then asks whether the ACK is above last_ack: it never is.
use aurora_os.Prelude.{ℕ, List, [], ◌∷◌}
use aurora_os.TcpCong.{CongData, on_ack}

pub on_acks : List ℕ → CongData → CongData
on_acks [] cd = cd
on_acks (a ∷ rest) cd = on_acks rest (on_ack a cd)
