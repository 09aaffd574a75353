-- ===== src/TcpCong/Table/Slots.antt =====
-- Which slots of the table of kernel/net/tcp_cong.c an operation reaches. A socket is given the first
-- free slot, and is later looked for at the slot of its number modulo 16.
use aurora_os.Prelude.{
  ℕ, ◌%◌, ◌≡◌, ◌≢◌, refl, sym, ap, ◌∙◌, none, some, arith, length, get_or, set, get_or-set, ne→==,
  Option-cases, inl, inr, get_or-replicate, set-get_or,
}
use aurora_os.TcpCong.{CongData, zero_data, fresh_data, on_ack, on_timeout}
use aurora_os.TcpCong.Table.{
  Table, tcp_cong_init, tcp_cong_socket_init, tcp_cong_find_slot, update_slot, tcp_cong_on_ack,
  tcp_cong_on_timeout, tcp_cong_get_rto, tcp_cong_get_window_scale, tcp_cong_get_effective_window,
  tcp_cong_set_window_scale, tcp_cong_start_rtt_measure, tcp_cong_complete_rtt_measure,
}

update_slot-none :
    (f : CongData → CongData) (sock : ℕ) (table : Table)
    → tcp_cong_find_slot sock table ≡ none
    → update_slot f sock table ≡ table
unfolding update_slot
update_slot-none f sock table gone = rw (gone, update_slot)

update_slot-some :
    (f : CongData → CongData) (sock : ℕ) (table : Table) (cd : CongData)
    → tcp_cong_find_slot sock table ≡ some cd
    → update_slot f sock table ≡ set table (sock % 16) (f cd)
unfolding update_slot
update_slot-some f sock table cd found = rw (found, update_slot)

-- An operation on the slot of a socket leaves every other slot as it is.
update_slot-other :
    (f : CongData → CongData) (sock j : ℕ) (table : Table)
    → length table ≡ 16
    → j ≢ sock % 16
    → get_or (update_slot f sock table) j zero_data ≡ get_or table j zero_data
update_slot-other f sock j table size other = elim (Option-cases (tcp_cong_find_slot sock table)) [
  | inl gone ↦ ap (λ t. get_or t j zero_data) (update_slot-none f sock table gone)
  | inr (cd, found) ↦
      let miss = ne→== (sock % 16) j (λ e. other (sym e)) in
      ap (λ t. get_or t j zero_data) (update_slot-some f sock table cd found)
      ∙ get_or-set table (sock % 16) j (f cd) zero_data (omega arith)
      ∙ rw miss refl
]

-- The first socket of a fresh table takes slot 0, whatever its number.
opened :
    (sock : ℕ) → tcp_cong_socket_init sock tcp_cong_init ≡ set tcp_cong_init 0 (fresh_data sock)
unfolding tcp_cong_socket_init
opened sock = refl

opened_other :
    (sock j : ℕ) → j ≢ 0 → get_or (tcp_cong_socket_init sock tcp_cong_init) j zero_data ≡ zero_data
opened_other sock j other =
    ap (λ t. get_or t j zero_data) (opened sock)
    ∙ get_or-set tcp_cong_init 0 j (fresh_data sock) zero_data (omega arith)
    ∙ rw (ne→== 0 j (λ e. other (sym e))) (get_or-replicate 16 j zero_data)

find_slot-opened :
    (sock : ℕ)
    → sock % 16 ≢ 0
    → tcp_cong_find_slot sock (tcp_cong_socket_init sock tcp_cong_init) ≡ some zero_data
unfolding tcp_cong_find_slot
find_slot-opened sock other = rw (opened_other sock (sock % 16) other) refl

-- What can happen to the sockets of the table.
pub data Call : Type 0 where
  ack : ℕ → ℕ → Call
  timeout : ℕ → Call
  set_scale : ℕ → ℕ → Call
  timed_send : ℕ → ℕ → Call
  measured : ℕ → ℕ → ℕ → Call

unfoldable pub socket_of : Call → ℕ
socket_of (ack sock _) = sock
socket_of (timeout sock) = sock
socket_of (set_scale sock _) = sock
socket_of (timed_send sock _) = sock
socket_of (measured sock _ _) = sock

unfoldable pub call : Call → Table → Table
call (ack sock seq) table = tcp_cong_on_ack sock seq table
call (timeout sock) table = tcp_cong_on_timeout sock table
call (set_scale sock n) table = tcp_cong_set_window_scale sock n table
call (timed_send sock seq) table = tcp_cong_start_rtt_measure sock seq table
call (measured sock seq rtt) table = tcp_cong_complete_rtt_measure sock seq rtt table

call-other :
    (c : Call) (j : ℕ) (table : Table)
    → length table ≡ 16
    → j ≢ socket_of c % 16
    → get_or (call c table) j zero_data ≡ get_or table j zero_data
unfolding call socket_of tcp_cong_on_ack tcp_cong_on_timeout tcp_cong_set_window_scale
    tcp_cong_start_rtt_measure tcp_cong_complete_rtt_measure
call-other (ack sock seq) j table size other = update_slot-other _ sock j table size other
call-other (timeout sock) j table size other = update_slot-other _ sock j table size other
call-other (set_scale sock n) j table size other = update_slot-other _ sock j table size other
call-other (timed_send sock seq) j table size other = update_slot-other _ sock j table size other
call-other (measured sock seq rtt) j table size other = update_slot-other _ sock j table size other

find_slot-other :
    (c : Call) (sock : ℕ) (table : Table)
    → length table ≡ 16
    → sock % 16 ≢ socket_of c % 16
    → tcp_cong_find_slot sock (call c table) ≡ tcp_cong_find_slot sock table
unfolding tcp_cong_find_slot
find_slot-other c sock table size other = rw (call-other c (sock % 16) table size other) refl

-- In a table of sixteen slots, what happens to one socket changes neither the retransmission timeout,
-- nor the window scale, nor the effective window of a socket whose number has another remainder modulo
-- sixteen.
pub call_separate :
    (c : Call) (sock rcv_window : ℕ) (table : Table)
    → length table ≡ 16
    → sock % 16 ≢ socket_of c % 16
    → (tcp_cong_get_rto sock (call c table) ≡ tcp_cong_get_rto sock table)
      × (tcp_cong_get_window_scale sock (call c table) ≡ tcp_cong_get_window_scale sock table)
      × (tcp_cong_get_effective_window sock rcv_window (call c table)
          ≡ tcp_cong_get_effective_window sock rcv_window table)
unfolding tcp_cong_get_rto tcp_cong_get_window_scale tcp_cong_get_effective_window
call_separate c sock rcv_window table size other =
    let same = find_slot-other c sock table size other in
    (
      rw (same, tcp_cong_get_rto),
      rw (same, tcp_cong_get_window_scale),
      rw (same, tcp_cong_get_effective_window),
    )

write_back :
    (f : CongData → CongData) (sock : ℕ)
    → sock % 16 ≢ 0
    → f zero_data ≡ zero_data
    → update_slot f sock (tcp_cong_socket_init sock tcp_cong_init)
      ≡ tcp_cong_socket_init sock tcp_cong_init
write_back f sock other still =
    let table = tcp_cong_socket_init sock tcp_cong_init in
    update_slot-some f sock table zero_data (find_slot-opened sock other)
    ∙ ap (set table (sock % 16)) (still ∙ sym (opened_other sock (sock % 16) other))
    ∙ set-get_or table (sock % 16) zero_data

-- The first socket that is opened, when its number is not a multiple of sixteen, has no congestion
-- control: its retransmission timeout reads as 0, and neither an ACK nor a timeout changes anything.
pub opened_elsewhere :
    (sock seq : ℕ)
    → sock % 16 ≢ 0
    → (tcp_cong_get_rto sock (tcp_cong_socket_init sock tcp_cong_init) ≡ 0)
      × (tcp_cong_on_ack sock seq (tcp_cong_socket_init sock tcp_cong_init)
          ≡ tcp_cong_socket_init sock tcp_cong_init)
      × (tcp_cong_on_timeout sock (tcp_cong_socket_init sock tcp_cong_init)
          ≡ tcp_cong_socket_init sock tcp_cong_init)
unfolding tcp_cong_get_rto tcp_cong_on_ack tcp_cong_on_timeout on_ack on_timeout
opened_elsewhere sock seq other = (
  rw (find_slot-opened sock other, tcp_cong_get_rto),
  write_back _ sock other refl,
  write_back _ sock other refl,
)
